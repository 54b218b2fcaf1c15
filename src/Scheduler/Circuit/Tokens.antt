-- ===== src/Scheduler/Circuit/Tokens.antt =====
-- The breaker among concurrent calls (internal/enginev2/scheduler/circuit.go): tokens are granted
-- and resolved in any order, each at most once.
use grepai.Base.{
  ℕ, suc, ◌+◌, ◌≤◌, ◌<◌, ◌≡◌, refl, true, false, List, [], ◌∷◌, ◌++◌, ◌⊎◌, inl, inr, ◌≢◌, subst,
  sym, ap, Bool-cases, arith, if◌then◌else◌, All, All-imp, All-split, All-join,
}
use grepai.Scheduler.Circuit.{
  closed, open_circuit, half_open, success, failure, abort, BreakerResult, Admission,
  CircuitBreaker, new_circuit_breaker, allow, record_result, is_half_open,
}

-- The breaker with the tokens that are granted and not yet resolved.
pub record Host : Type 0 where
  pub breaker : CircuitBreaker
  pub outstanding : List Admission

-- The new token may stand anywhere among the others.
unfoldable pub admit : Host → List Admission → List Admission → ℕ → Host
unfolding allow
admit h xs ys now =
    let (b, a) = allow h.breaker now in
    record { breaker = b; outstanding = if a.granted then xs ++ (a ∷ ys) else xs ++ ys }

unfoldable pub resolve :
    Host → List Admission → Admission → List Admission → BreakerResult → ℕ → Host
resolve h xs a ys r now = record {
  breaker = record_result h.breaker a r now;
  outstanding = xs ++ ys;
}

pub data Step (h : Host) (h' : Host) : Type 0 where
  admits :
      (xs ys : List Admission) (now : ℕ)
      → h.outstanding ≡ xs ++ ys
      → h' ≡ admit h xs ys now
      → Step h h'
  resolves :
      (xs : List Admission) (a : Admission) (ys : List Admission) (r : BreakerResult) (now : ℕ)
      → h.outstanding ≡ xs ++ (a ∷ ys)
      → h' ≡ resolve h xs a ys r now
      → Step h h'

pub data Reach (h : Host) : Host → Type 0 where
  here : Reach h h
  next : {i j : Host} → Reach h i → Step i j → Reach h j

abbrev pub probes : List Admission → ℕ
probes [] = 0
probes (a ∷ rest) = (if a.probe then 1 else 0) + probes rest

abbrev pub IsCurrent : CircuitBreaker → Admission → Type 0
IsCurrent b a =
    (a.granted ≡ true)
    × (a.epoch ≤ b.epoch)
    × (b.state ≢ closed → a.probe ≡ false → a.epoch < b.epoch)

pub record IsSound (h : Host) : Type 0 where
  pub threshold : 1 ≤ h.breaker.open_after
  pub below : h.breaker.state ≡ closed → h.breaker.failures < h.breaker.open_after
  pub one_probe : probes h.outstanding ≡ (if is_half_open h.breaker.state then 1 else 0)
  pub current : All (IsCurrent h.breaker) h.outstanding

probes_split :
    (xs : List Admission) (a : Admission) (ys : List Admission)
    → probes (xs ++ (a ∷ ys)) ≡ (if a.probe then 1 else 0) + probes (xs ++ ys)
probes_split [] a ys = refl
probes_split (x ∷ xs) a ys = omega (arith, probes_split xs a ys)

IsCurrent-allow :
    (b : CircuitBreaker) (now : ℕ) (a : Admission) → IsCurrent b a → IsCurrent (allow b now).0 a
unfolding allow
IsCurrent-allow b now a h = ground arith

admit-IsSound :
    (h : Host) (xs ys : List Admission) (now : ℕ)
    → h.outstanding ≡ xs ++ ys
    → IsSound h
    → IsSound (admit h xs ys now)
unfolding admit
admit-IsSound h xs ys now e v =
    let kept =
      All-imp (IsCurrent h.breaker) (IsCurrent (allow h.breaker now).0) (xs ++ ys)
        (IsCurrent-allow h.breaker now) (subst (All _) e v.current) in
    let count = probes_split xs (allow h.breaker now).1 ys in
    let joined = All-join (IsCurrent (allow h.breaker now).0) xs (allow h.breaker now).1 ys in
    record {
      threshold = ground (arith, v.threshold);
      below = ground (arith, v.below);
      one_probe = ground (arith, v.one_probe);
      current = ground (arith, joined, kept);
    }

IsCurrent-record :
    (b : CircuitBreaker) (a : Admission) (r : BreakerResult) (now : ℕ) (t : Admission)
    → IsCurrent b a
    → IsCurrent b t
    → IsCurrent (record_result b a r now) t
unfolding record_result
IsCurrent-record b a r now t h k = ground arith

resolve-IsSound :
    (h : Host) (xs : List Admission) (a : Admission) (ys : List Admission) (r : BreakerResult)
    (now : ℕ)
    → h.outstanding ≡ xs ++ (a ∷ ys)
    → IsSound h
    → IsSound (resolve h xs a ys r now)
unfolding resolve record_result
resolve-IsSound h xs a ys r now e v =
    let (mine, others) = All-split (IsCurrent h.breaker) xs a ys (subst (All _) e v.current) in
    let kept =
      All-imp (IsCurrent h.breaker) (IsCurrent (record_result h.breaker a r now)) (xs ++ ys)
        (λ t. IsCurrent-record h.breaker a r now t mine) others in
    let count = probes_split xs a ys in
    record {
      threshold = ground arith;
      below = ground arith;
      one_probe = ground arith;
      current = kept;
    }

Step-IsSound : {h h' : Host} → Step h h' → IsSound h → IsSound h'
Step-IsSound {h} (admits xs ys now o e) v = subst IsSound (sym e) (admit-IsSound h xs ys now o v)
Step-IsSound {h} (resolves xs a ys r now o e) v =
    subst IsSound (sym e) (resolve-IsSound h xs a ys r now o v)

-- A breaker that has just been built, with a positive threshold; no call is in flight.
abbrev pub start : ℕ → ℕ → Host
start k interval = record { breaker = new_circuit_breaker (suc k) interval; outstanding = [] }

start-IsSound : (k interval : ℕ) → IsSound (start k interval)
unfolding new_circuit_breaker
start-IsSound k interval = record {
  threshold = omega arith;
  below = λ _. omega arith;
  one_probe = refl;
  current = tt;
}

Reach-IsSound : {h h' : Host} → IsSound h → Reach h h' → IsSound h'
Reach-IsSound v here = v
Reach-IsSound v (next r st) = Step-IsSound st (Reach-IsSound v r)

-- However calls are admitted and resolved, a breaker that counts to at least one keeps its
-- invariant: while half-open exactly one probe is outstanding and otherwise none, while closed the
-- failures stay below the threshold, and every outstanding token is a granted one of this epoch or
-- an earlier one, a plain one of an earlier epoch unless the breaker is closed.
pub breaker-IsSound : (k interval : ℕ) {h : Host} → Reach (start k interval) h → IsSound h
breaker-IsSound k interval r = Reach-IsSound (start-IsSound k interval) r

find_probe :
    (l : List Admission)
    → probes l ≡ 1
    → (xs : List Admission) × (a : Admission) × (ys : List Admission) × (l ≡ xs ++ (a ∷ ys))
      × (a.probe ≡ true)
find_probe [] h = absurd (omega arith)
find_probe (a ∷ rest) h = elim (Bool-cases a.probe) [
  | inl hit ↦ ([], a, rest, refl, hit)
  | inr miss ↦
      let (xs, p, ys, e, hit) = find_probe rest (ground arith) in (a ∷ xs, p, ys, ap (◌∷◌ a) e, hit)
]

probe_leaves :
    (b : CircuitBreaker) (a : Admission) (r : BreakerResult) (now : ℕ)
    → a.granted ≡ true
    → a.probe ≡ true
    → b.state ≡ half_open
    → ((record_result b a r now).state ≡ closed) ⊎ ((record_result b a r now).state ≡ open_circuit)
unfolding record_result
probe_leaves b a success now g p s = ground arith
probe_leaves b a failure now g p s = ground arith
probe_leaves b a abort now g p s = ground arith

-- A reachable half-open breaker has its probe in flight, and whatever that probe's result is, the
-- breaker leaves the half-open state when it is recorded: it is never wedged.
pub probe_never_wedged :
    (k interval : ℕ) {h : Host}
    → Reach (start k interval) h
    → h.breaker.state ≡ half_open
    → (xs : List Admission) × (a : Admission) × (ys : List Admission) × (h.outstanding
        ≡ xs ++ (a ∷ ys))
      × ((r : BreakerResult) (now : ℕ)
          → let b = (resolve h xs a ys r now).breaker in
            (b.state ≡ closed) ⊎ (b.state ≡ open_circuit))
unfolding resolve
probe_never_wedged k interval {h} reach s =
    let v = breaker-IsSound k interval reach in
    let (xs, a, ys, e, hit) = find_probe h.outstanding (ground (arith, v.one_probe)) in
    let (mine, _) = All-split (IsCurrent h.breaker) xs a ys (subst (All _) e v.current) in
    (xs, a, ys, e, λ r now. probe_leaves h.breaker a r now mine.0 hit s)

stale_call :
    (b : CircuitBreaker) (a : Admission) (r : BreakerResult) (now : ℕ)
    → a.probe ≡ false
    → a.epoch < b.epoch
    → record_result b a r now ≡ b
unfolding record_result
stale_call b a r now p e = ground arith

-- While a reachable breaker is open or half-open, the completion of an outstanding call that is not
-- its probe leaves it as it is, whatever the result.
pub stale_completion_ignored :
    (k interval : ℕ) {h : Host}
    → Reach (start k interval) h
    → h.breaker.state ≢ closed
    → (xs : List Admission) (a : Admission) (ys : List Admission) → h.outstanding ≡ xs ++ (a ∷ ys)
    → a.probe ≡ false
    → (r : BreakerResult) (now : ℕ) → (resolve h xs a ys r now).breaker ≡ h.breaker
unfolding resolve
stale_completion_ignored k interval {h} reach s xs a ys e p r now =
    let v = breaker-IsSound k interval reach in
    let (mine, _) = All-split (IsCurrent h.breaker) xs a ys (subst (All _) e v.current) in
    stale_call h.breaker a r now p (mine.2 s p)
