-- ===== src/Engine/Pacing/Rotation.antt =====
-- The repositories take turns (internal/enginev2/scheduler/engine.go, claimRoundRobin).
use native.Mathlib.Nat.{mod-eq_of_lt, mod-eq-sub-mod}
use grepai.Base.{
  ℕ, zero, suc, ◌+◌, ◌-◌, ◌%◌, ◌<◌, ◌≤◌, List, [], ◌∷◌, ◌++◌, some, ◌≡◌, refl, sym, ap, ◌∙◌,
  Bool-cases, inl, inr, ltb, length, take, drop, get_elem?, length-append, length-take, length-drop,
  arith,
}
use grepai.Base.Text.{Text}
use grepai.Core.Job.{priority_bootstrap}
use grepai.Catalog.Tables.{Database}
use grepai.Catalog.Tx.{Faults, Outcome, Result, ok, err}
use grepai.Catalog.Jobs.{claim_next_job_in_repo}
use grepai.Catalog.Reads.{repositories_with_pending_jobs}
use grepai.Engine.Pacing.Order.{Ascends, in_turn, in_turn_lem, pending-Ascends}
use grepai.Engine.Pacing.{
  Turn, nothing_pending, claim_failed, first_after, or_next, claim_at, claim_from, among,
  claim_round_robin,
}

-- A claim in each repository of a list in its order, up to the first that has a job.
unfoldable pub claim_in_order : Faults → List Text → ℕ → Database → Turn
claim_in_order fault [] n db = record { result = nothing_pending; tables = db; clock = n }
claim_in_order fault (r ∷ rs) n db =
    or_next fault r (claim_next_job_in_repo r priority_bootstrap fault n db)
      (claim_in_order fault rs)

first_after_inside :
    (last : Text) (i : ℕ) (r : Text) (repos : List Text)
    → first_after last i (r ∷ repos) < i + length (r ∷ repos)
unfolding first_after
first_after_inside last i r [] = ground arith
first_after_inside last i r (q ∷ repos) = ground (arith, first_after_inside last (i + 1) q repos)

get_elem?-append_left :
    (xs ys : List Text) (i : ℕ) → i < length xs → get_elem? (xs ++ ys) i ≡ get_elem? xs i
get_elem?-append_left [] ys i h = absurd (omega (arith, h))
get_elem?-append_left (x ∷ xs) ys zero h = refl
get_elem?-append_left (x ∷ xs) ys (suc i) h = get_elem?-append_left xs ys i (omega (arith, h))

get_elem?-append_right :
    (xs ys : List Text) (i j : ℕ) → i ≡ length xs + j → get_elem? (xs ++ ys) i ≡ get_elem? ys j
get_elem?-append_right [] ys i j h = ap (get_elem? ys) (omega (arith, h))
get_elem?-append_right (x ∷ xs) ys zero j h = absurd (omega (arith, h))
get_elem?-append_right (x ∷ xs) ys (suc i) j h = get_elem?-append_right xs ys i j (omega (arith, h))

get_elem?-drop : (n i j : ℕ) (xs : List Text) → j ≡ n + i → get_elem? (drop n xs) i ≡ get_elem? xs j
get_elem?-drop zero i j xs e = ap (get_elem? xs) (omega (arith, e))
get_elem?-drop (suc n) i zero xs e = absurd (omega (arith, e))
get_elem?-drop (suc n) i (suc j) [] e = refl
get_elem?-drop (suc n) i (suc j) (x ∷ xs) e = get_elem?-drop n i j xs (omega (arith, e))

get_elem?-take : (n j : ℕ) (xs : List Text) → j < n → get_elem? (take n xs) j ≡ get_elem? xs j
get_elem?-take zero j xs h = absurd (omega (arith, h))
get_elem?-take (suc n) j [] h = refl
get_elem?-take (suc n) zero (x ∷ xs) h = refl
get_elem?-take (suc n) (suc j) (x ∷ xs) h = get_elem?-take n j xs (omega (arith, h))

-- The repository that round i visits.
visited :
    (repos : List Text) (start i : ℕ)
    → start < length repos
    → i < length repos
    → get_elem? repos ((start + i) % length repos)
      ≡ get_elem? (drop start repos ++ take start repos) i
visited repos start i h k =
    let n = length repos in
    let dropped = length-drop start repos in
    elim (Bool-cases (ltb (start + i) n)) [
      | inl early ↦
          let inside : start + i < n = ground (arith, early) in
          ap (get_elem? repos) (mod-eq_of_lt inside)
          ∙ sym (get_elem?-drop start i (start + i) repos refl)
          ∙ sym (
              get_elem?-append_left (drop start repos) (take start repos) i
                (omega (arith, inside, dropped)))
      | inr late ↦
          let beyond : n ≤ start + i = ground (arith, late) in
          let wrapped : start + i - n < n = omega (arith, h, k) in
          ap (get_elem? repos) (mod-eq-sub-mod beyond ∙ mod-eq_of_lt wrapped)
          ∙ sym (get_elem?-take start (start + i - n) repos (omega (arith, k, beyond)))
          ∙ sym (
              get_elem?-append_right (drop start repos) (take start repos) i (start + i - n)
                (omega (arith, beyond, dropped, h)))
    ]

drop_all : (n : ℕ) (xs : List Text) → n ≡ length xs → drop n xs ≡ []
drop_all zero [] e = refl
drop_all zero (x ∷ xs) e = absurd (omega (arith, e))
drop_all (suc n) [] e = refl
drop_all (suc n) (x ∷ xs) e = drop_all n xs (omega (arith, e))

first_step : (j : ℕ) → suc j ≡ suc zero → zero ≡ j
first_step j e = omega (arith, e)

next_of :
    (i j : ℕ) (xs : List Text)
    → i < length xs
    → j ≡ suc i
    → (x : Text) × (get_elem? xs i ≡ some x) × (drop i xs ≡ x ∷ drop j xs)
next_of i j [] h e = absurd (omega (arith, h))
next_of zero zero (x ∷ xs) h e = absurd (omega (arith, e))
next_of zero (suc j) (x ∷ xs) h e = (x, refl, ap (λ k. x ∷ drop k xs) (first_step j e))
next_of (suc i) zero (x ∷ xs) h e = absurd (omega (arith, e))
next_of (suc i) (suc j) (x ∷ xs) h e = next_of i j xs (omega (arith, h)) (omega (arith, e))

module _ (fault : Faults) (repos : List Text) (start : ℕ) (inside : start < length repos) where
  rotation_length : length (drop start repos ++ take start repos) ≡ length repos
  rotation_length = omega (
    arith,
    inside,
    length-append (drop start repos) (take start repos),
    length-drop start repos,
    length-take start repos,
  )

  claim_from_rest :
      (left i : ℕ)
      → left + i ≡ length repos
      → claim_from fault repos start left i
        ≡ claim_in_order fault (drop i (drop start repos ++ take start repos))
  unfolding claim_from claim_in_order claim_at
  claim_from_rest zero i e =
      let over : i ≡ length (drop start repos ++ take start repos) =
        omega (arith, e, rotation_length) in
      ap (claim_in_order fault) (sym (drop_all i (drop start repos ++ take start repos) over))
  claim_from_rest (suc left) i e =
      let xs = drop start repos ++ take start repos in
      let (x, here, rest) =
        next_of i (i + 1) xs (omega (arith, e, rotation_length)) (omega arith) in
      ap (λ o. claim_at fault o (claim_from fault repos start left (i + 1)))
        (visited repos start i inside (omega (arith, e)) ∙ here)
      ∙ ap (claim_at fault (some x)) (claim_from_rest left (i + 1) (omega (arith, e)))
      ∙ ap (claim_in_order fault) (sym rest)

claim_from_all :
    (fault : Faults) (last : Text) (repos : List Text)
    → Ascends repos
    → claim_from fault repos (first_after last 0 repos) (length repos) 0
      ≡ claim_in_order fault (in_turn last repos)
unfolding claim_from claim_in_order in_turn first_after
claim_from_all fault last [] h = refl
claim_from_all fault last (r ∷ repos) h =
    claim_from_rest fault (r ∷ repos) (first_after last 0 (r ∷ repos))
      (omega (arith, first_after_inside last 0 r repos)) (length (r ∷ repos)) 0 (omega arith)
    ∙ ap (claim_in_order fault) (in_turn_lem last (r ∷ repos) h)

-- The claim of a read of the pending repositories.
abbrev pub claim_among : Faults → Text → Outcome (List Text) → Turn
claim_among fault last o = elim o.result [
  | err e ↦ record { result = claim_failed e; tables = o.tables; clock = o.clock }
  | ok repos ↦ claim_in_order fault (in_turn last repos) o.clock o.tables
]

among_turn :
    (fault : Faults) (last : Text) (r : Result (List Text)) (db : Database) (n : ℕ)
    → ((repos : List Text) → r ≡ ok repos → Ascends repos)
    → among fault last (record { result = r; tables = db; clock = n })
      ≡ claim_among fault last (record { result = r; tables = db; clock = n })
unfolding among
among_turn fault last (err e) db n h = refl
among_turn fault last (ok repos) db n h =
    ap (λ f. f n db) (claim_from_all fault last repos (h repos refl))

-- A claim in turn reads the pending repositories and claims in those whose names come after the
-- last one served, in ascending order, and then in the others, in ascending order, up to the first
-- that has a job or fails.
pub claim_round_robin_lem :
    (fault : Faults) (last : Text) (n : ℕ) (db : Database)
    → claim_round_robin fault last n db
      ≡ claim_among fault last (repositories_with_pending_jobs fault n db)
unfolding claim_round_robin
claim_round_robin_lem fault last n db =
    let o = repositories_with_pending_jobs fault n db in
    among_turn fault last o.result o.tables o.clock (pending-Ascends fault n db)
