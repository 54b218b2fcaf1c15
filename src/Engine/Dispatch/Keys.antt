-- ===== src/Engine/Dispatch/Keys.antt =====
-- Attempts are counted by intent (internal/enginev2/scheduler/engine.go: jobKey, incAttempts, clearAttempts).
use grepai.Base.{
  ℕ, zero, suc, ◌+◌, ◌-◌, ◌*◌, ◌/◌, ◌%◌, ◌<◌, Bool, true, false, List, [], ◌∷◌, ◌++◌, ◌≡◌, refl,
  sym, ap, ◌∙◌, inl, inr, arith, Bool-cases, All, ltb,
}
use grepai.Base.Text.{Text, same, same→eq}
use grepai.Core.Job.{Job, Operation, op_upsert, op_delete}
use grepai.Indexer.Chunker.{decimal, digits}
use grepai.Engine.Dispatch.{attempts_of, clear_attempts, inc_attempts, job_key, operation_number}

-- No byte is NUL.
abbrev pub NulFree : Text → Type 0
NulFree = All (λ c. 0 < c)

split_nul :
    (s t r q : Text) → NulFree s → NulFree t → s ++ (0 ∷ r) ≡ t ++ (0 ∷ q) → (s ≡ t) × (r ≡ q)
split_nul [] [] r q h k e = ground arith
split_nul [] (b ∷ t) r q h k e = ground arith
split_nul (a ∷ s) [] r q h k e = ground arith
split_nul (a ∷ s) (b ∷ t) r q h k e = ground (arith, split_nul s t r q h.1 k.1)

-- The number that digits stand for, after those read before.
value : ℕ → Text → ℕ
value n [] = n
value n (c ∷ t) = value (n * 10 + (c - 48)) t

value_step :
    (fuel n : ℕ) (rest : Text) (b : Bool)
    → ltb n 10 ≡ b
    → (ltb n 10 ≡ false → value 0 (digits fuel (n / 10) ((48 + n % 10) ∷ rest)) ≡ value n rest)
    → value 0
        (elim b [ true ↦ (48 + n) ∷ rest | false ↦ digits fuel (n / 10) ((48 + n % 10) ∷ rest) ])
      ≡ value n rest
unfolding value
value_step fuel n rest true e ih = ap (λ k. value k rest) (omega arith)
value_step fuel n rest false e ih = ih e

value-digits : (fuel n : ℕ) (rest : Text) → n < fuel → value 0 (digits fuel n rest) ≡ value n rest
unfolding digits value
value-digits zero n rest h = absurd (omega arith)
value-digits (suc fuel) n rest h = value_step fuel n rest (ltb n 10) refl λ e.
    value-digits fuel (n / 10) ((48 + n % 10) ∷ rest) (ground arith)
    ∙ ap (λ k. value k rest) (omega arith)

digits-NulFree : (fuel n : ℕ) (rest : Text) → NulFree rest → NulFree (digits fuel n rest)
unfolding digits
digits-NulFree zero n rest h = h
digits-NulFree (suc fuel) n rest h =
    let more = digits-NulFree fuel (n / 10) ((48 + n % 10) ∷ rest) (omega arith, h) in ground arith

decimal_inj : (m n : ℕ) → decimal m ≡ decimal n → m ≡ n
unfolding decimal value
decimal_inj m n e =
    sym (value-digits (m + 1) m [] (omega arith))
    ∙ ap (value 0) e
    ∙ value-digits (n + 1) n [] (omega arith)

-- The intent of a job is what its key is made of.
abbrev pub SameIntent : Job → Job → Type 0
SameIntent j k =
    (j.worktree_id ≡ k.worktree_id)
    × (j.path ≡ k.path)
    × (j.generation ≡ k.generation)
    × (j.desired_hash ≡ k.desired_hash)
    × (j.operation ≡ k.operation)

abbrev pub HasPlainNames : Job → Type 0
HasPlainNames j = NulFree j.worktree_id × NulFree j.path × NulFree j.desired_hash

operation_inj : (o p : Operation) → operation_number o ≡ operation_number p → o ≡ p
operation_inj op_upsert op_upsert e = refl
operation_inj op_upsert op_delete e = absurd (omega arith)
operation_inj op_delete op_upsert e = absurd (omega arith)
operation_inj op_delete op_delete e = refl

-- The key of a job tells its intent, where no name of it has a NUL.
pub job_key_inj :
    (j k : Job) → HasPlainNames j → HasPlainNames k → job_key j ≡ job_key k → SameIntent j k
unfolding job_key decimal
job_key_inj j k hj hk e =
    let (e1, r1) = split_nul j.worktree_id k.worktree_id _ _ hj.0 hk.0 e in
    let (e2, r2) = split_nul j.path k.path _ _ hj.1 hk.1 r1 in
    let (e3, r3) =
      split_nul (decimal j.generation) (decimal k.generation) _ _
        (digits-NulFree _ j.generation [] tt) (digits-NulFree _ k.generation [] tt) r2 in
    let (e4, r4) = split_nul j.desired_hash k.desired_hash _ _ hj.2 hk.2 r3 in
    (
      e1,
      e2,
      decimal_inj j.generation k.generation e3,
      e4,
      operation_inj j.operation k.operation (decimal_inj _ _ r4),
    )

pub attempts_of-clear :
    (key other : Text) (m : List (Text × ℕ))
    → same key other ≡ false
    → attempts_of other (clear_attempts key m) ≡ attempts_of other m
unfolding attempts_of clear_attempts
attempts_of-clear key other [] d = refl
attempts_of-clear key other ((k, n) ∷ rest) d =
    let ih = attempts_of-clear key other rest d in
    elim (Bool-cases (same k key)) [
      | inl e ↦ let apart = ap (λ t. same t other) (same→eq k key e) ∙ d in ground arith
      | inr e ↦ ground arith
    ]

pub attempts_of-inc :
    (key other : Text) (m : List (Text × ℕ))
    → same key other ≡ false
    → attempts_of other (inc_attempts key m) ≡ attempts_of other m
unfolding attempts_of inc_attempts
attempts_of-inc key other m d = ground (arith, attempts_of-clear key other m)
