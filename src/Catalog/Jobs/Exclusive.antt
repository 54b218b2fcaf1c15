-- ===== src/Catalog/Jobs/Exclusive.antt =====
-- No job is handed out twice: sequences of claims over internal/enginev2/catalog/sqlite.
use mathlib.Core.List.{Memᴰ}
use grepai.Base.{
  ℕ, Bool, true, false, ◌&&◌, not, List, [], ◌∷◌, Option, none, some, if◌then◌else◌, ◌==◌, ◌≡◌,
  refl, ◌⊎◌, inl, inr, arith, All, All-imp, Bool-cases, sym, subst, ap,
}
use grepai.Base.Text.{Text, same_iff, same_self}
use grepai.Core.Job.{Job, Priority}
use grepai.Catalog.Tables.{Database, JobRow, find_where, update_where}
use grepai.Catalog.Tx.{Faults, Result, Outcome, Op, ok}
use grepai.Catalog.Jobs.{
  job_at, job_of, claimable, claimable_in, claim_next_job, claim_next_job_in_repo,
}
use grepai.Catalog.Jobs.Rows.{UniqueRows, update-UniqueRows}
use grepai.Catalog.Jobs.Claim.{
  Claims, Selects, with_claimed, claim_next_job-Claims, claim_next_job_in_repo-Claims,
}

pub data ClaimCall : Type 0 where
  claim_any : Priority → ClaimCall
  claim_from : Text → Priority → ClaimCall

unfoldable pub call : ClaimCall → Op (Option Job)
unfolding claim_next_job claim_next_job_in_repo
call (claim_any p) = claim_next_job p
call (claim_from repo p) = claim_next_job_in_repo repo p

abbrev pub handed : Result (Option Job) → List Job → List Job
handed (ok (some j)) js = j ∷ js
handed _ js = js

-- The jobs that a sequence of claims hands out, one claim after the other.
unfoldable pub hand_out : List ClaimCall → Faults → ℕ → Database → List Job
unfolding call
hand_out [] fault n db = []
hand_out (c ∷ cs) fault n db =
    let o = call c fault n db in handed o.result (hand_out cs fault o.clock o.tables)

-- Whether an unclaimed row stands at the worktree and path.
unfoldable pub waiting : Text → Text → List JobRow → Bool
unfolding job_at
waiting wt path [] = false
waiting wt path (r ∷ rs) = if not r.claimed && job_at wt path r then true else waiting wt path rs

abbrev SameKey : Job → Job → Type 0
SameKey i j = (i.worktree_id ≡ j.worktree_id) × (i.path ≡ j.path)

-- Pairwise at different paths or in different worktrees.
abbrev pub DistinctJobs : List Job → Type 0
DistinctJobs [] = Unit
DistinctJobs (j ∷ js) = All (λ i. ¬ SameKey i j) js × DistinctJobs js

abbrev mark : ℕ → List JobRow → List JobRow
mark id = update_where (λ q. q.job_id == id) (λ q. record q { claimed = true })

waiting-mark :
    (wt path : Text) (id : ℕ) (rs : List JobRow)
    → waiting wt path rs ≡ false
    → waiting wt path (mark id rs) ≡ false
unfolding waiting update_where
waiting-mark wt path id [] h = refl
waiting-mark wt path id (r ∷ rs) h = ground (arith, waiting-mark wt path id rs)

job_at_self : (r : JobRow) → job_at r.worktree_id r.relative_path r ≡ true
unfolding job_at
job_at_self r = ground (arith, same_self r.worktree_id, same_self r.relative_path)

waiting_member :
    (r : JobRow) (rs : List JobRow)
    → Memᴰ r rs
    → r.claimed ≡ false
    → waiting r.worktree_id r.relative_path rs ≡ true
unfolding waiting
waiting_member r [] m h = absurd (elim m [ ])
waiting_member r (q ∷ rs) (Memᴰ.head e) h =
    let mine : job_at r.worktree_id r.relative_path q ≡ true =
      subst (λ s. job_at r.worktree_id r.relative_path s ≡ true) e (job_at_self r) in
    ground (arith, ap (λ s. s.claimed) e)
waiting_member r (q ∷ rs) (Memᴰ.tail m) h = ground (arith, waiting_member r rs m h)

find_none-miss :
    (wt path : Text) (r : JobRow) (rs : List JobRow)
    → find_where (job_at wt path) rs ≡ none
    → Memᴰ r rs
    → job_at wt path r ≡ false
unfolding find_where
find_none-miss wt path r [] h m = elim m [ ]
find_none-miss wt path r (q ∷ rs) h (Memᴰ.head e) =
    subst (λ s. job_at wt path s ≡ false) (sym e) (ground arith)
find_none-miss wt path r (q ∷ rs) h (Memᴰ.tail m) = find_none-miss wt path r rs (ground arith) m

find_none-waiting :
    (wt path : Text) (rs : List JobRow)
    → find_where (job_at wt path) rs ≡ none
    → waiting wt path rs ≡ false
unfolding find_where waiting
find_none-waiting wt path [] h = refl
find_none-waiting wt path (r ∷ rs) h = ground (arith, find_none-waiting wt path rs)

-- After the row is marked nothing waits at its worktree and path.
marked_not_waiting :
    (r : JobRow) (rs : List JobRow)
    → UniqueRows rs
    → Memᴰ r rs
    → waiting r.worktree_id r.relative_path (mark r.job_id rs) ≡ false
unfolding waiting update_where
marked_not_waiting r [] u m = elim m [ ]
marked_not_waiting r (q ∷ rs) u (Memᴰ.head e) =
    let rest : waiting r.worktree_id r.relative_path (mark r.job_id rs) ≡ false =
      waiting-mark r.worktree_id r.relative_path r.job_id rs (
        find_none-waiting r.worktree_id r.relative_path rs
          (subst (λ s. find_where (job_at s.worktree_id s.relative_path) rs ≡ none) (sym e) u.0)) in
    ground (arith, rest, ap (λ s. s.job_id) e)
marked_not_waiting r (q ∷ rs) u (Memᴰ.tail m) =
    let miss = find_none-miss q.worktree_id q.relative_path r rs u.0 m in
    ground (
      arith,
      marked_not_waiting r rs u.1 m,
      same_iff q.worktree_id r.worktree_id,
      same_iff q.relative_path r.relative_path,
      same_iff r.worktree_id q.worktree_id,
      same_iff r.relative_path q.relative_path,
      miss,
    )

-- A claim that hands a job out: the job was waiting, and is not any more; nothing else starts to
-- wait.
record Handed (j : Job) (db db' : Database) : Type 0 where
  unique : UniqueRows db'.index_jobs
  was_waiting : waiting j.worktree_id j.path db.index_jobs ≡ true
  done : waiting j.worktree_id j.path db'.index_jobs ≡ false
  others :
      (wt path : Text)
      → waiting wt path db.index_jobs ≡ false
      → waiting wt path db'.index_jobs ≡ false

claimed-Handed :
    (p : JobRow → Bool) (r : JobRow) (db : Database)
    → ((q : JobRow) → p q ≡ true → q.claimed ≡ false)
    → UniqueRows db.index_jobs
    → Selects p db.index_jobs (some r)
    → Handed (job_of r) db (with_claimed r db)
unfolding job_of with_claimed
claimed-Handed p r db free u s = record {
  unique =
      update-UniqueRows (λ q. q.job_id == r.job_id) (λ q. record q { claimed = true }) db.index_jobs
        (λ q. (refl, refl)) u;
  was_waiting = waiting_member r db.index_jobs s.1 (free r s.0);
  done = marked_not_waiting r db.index_jobs u s.1;
  others = λ wt path h. waiting-mark wt path r.job_id db.index_jobs h;
}

abbrev CallResult : Database → Outcome (Option Job) → Type 0
CallResult db o =
    (((js : List Job) → handed o.result js ≡ js) × (o.tables ≡ db))
    ⊎ ((j : Job) × (o.result ≡ ok (some j)) × Handed j db o.tables)

Claims-CallResult :
    (p : JobRow → Bool) (db : Database) (o : Outcome (Option Job))
    → ((q : JobRow) → p q ≡ true → q.claimed ≡ false)
    → UniqueRows db.index_jobs
    → Claims p db o
    → CallResult db o
Claims-CallResult p db o free u (inl (e, bad, kept)) = inl (λ js. ap (λ r. handed r js) bad, kept)
Claims-CallResult p db o free u (inr (inl (empty, kept, _))) =
    inl (λ js. ap (λ r. handed r js) empty, kept)
Claims-CallResult p db o free u (inr (inr (r, good, sel, tab))) =
    inr (job_of r, good, subst (Handed (job_of r) db) (sym tab) (claimed-Handed p r db free u sel))

claimable-free : (min : Priority) (q : JobRow) → claimable min q ≡ true → q.claimed ≡ false
unfolding claimable
claimable-free min q h = ground arith

call-CallResult :
    (c : ClaimCall) (fault : Faults) (n : ℕ) (db : Database)
    → UniqueRows db.index_jobs
    → CallResult db (call c fault n db)
unfolding call claimable_in
call-CallResult (claim_any p) fault n db u =
    Claims-CallResult (claimable p) db (claim_next_job p fault n db) (claimable-free p) u
      (claim_next_job-Claims p fault n db)
call-CallResult (claim_from repo p) fault n db u =
    Claims-CallResult (claimable_in repo p db.worktrees) db
      (claim_next_job_in_repo repo p fault n db) (λ q h. claimable-free p q (ground arith)) u
      (claim_next_job_in_repo-Claims repo p fault n db)

abbrev AllWaiting : Database → List Job → Type 0
AllWaiting db js = All (λ i. waiting i.worktree_id i.path db.index_jobs ≡ true) js

waiting_before :
    {j : Job} (db db' : Database) (js : List Job)
    → Handed j db db'
    → AllWaiting db' js
    → AllWaiting db js
waiting_before db db' js h =
    All-imp (λ i. waiting i.worktree_id i.path db'.index_jobs ≡ true)
      (λ i. waiting i.worktree_id i.path db.index_jobs ≡ true) js
      (λ i later. elim (Bool-cases (waiting i.worktree_id i.path db.index_jobs)) [
        | inl yes_now ↦ yes_now
        | inr not_now ↦ absurd (cc (h.others i.worktree_id i.path not_now))
      ])

-- What is handed out later was waiting at the start.
hand_out-waiting :
    (cs : List ClaimCall) (fault : Faults) (n : ℕ) (db : Database)
    → UniqueRows db.index_jobs
    → AllWaiting db (hand_out cs fault n db)
unfolding hand_out
hand_out-waiting [] fault n db u = tt
hand_out-waiting (c ∷ cs) fault n db u =
    let o = call c fault n db in
    elim (call-CallResult c fault n db u) [
      | inl (nothing, kept) ↦
          subst (AllWaiting db) (sym (nothing (hand_out cs fault o.clock o.tables))) (
            subst (λ d. AllWaiting d (hand_out cs fault o.clock o.tables)) kept
              (hand_out-waiting cs fault o.clock o.tables
                (subst (λ d. UniqueRows d.index_jobs) (sym kept) u)))
      | inr (j, good, h) ↦
          subst (λ r. AllWaiting db (handed r (hand_out cs fault o.clock o.tables))) (sym good)
            (
              h.was_waiting,
              waiting_before db o.tables (hand_out cs fault o.clock o.tables) h
                  (hand_out-waiting cs fault o.clock o.tables h.unique),
            )
    ]

not_again :
    (j : Job) (db : Database) (js : List Job)
    → waiting j.worktree_id j.path db.index_jobs ≡ false
    → AllWaiting db js
    → All (λ i. ¬ SameKey i j) js
not_again j db js h =
    All-imp (λ i. waiting i.worktree_id i.path db.index_jobs ≡ true) (λ i. ¬ SameKey i j) js
      (λ i w same_key. cc (
        ap (λ t. waiting t i.path db.index_jobs) same_key.0,
        ap (λ t. waiting j.worktree_id t db.index_jobs) same_key.1,
        w,
        h,
      ))

-- From a queue with at most one row for each worktree and path, whatever claims follow one
-- another, over any faults, no two of the jobs that they hand out stand at the same worktree and
-- path.
pub hand_out-DistinctJobs :
    (cs : List ClaimCall) (fault : Faults) (n : ℕ) (db : Database)
    → UniqueRows db.index_jobs
    → DistinctJobs (hand_out cs fault n db)
unfolding hand_out
hand_out-DistinctJobs [] fault n db u = tt
hand_out-DistinctJobs (c ∷ cs) fault n db u =
    let o = call c fault n db in
    let later = hand_out cs fault o.clock o.tables in
    elim (call-CallResult c fault n db u) [
      | inl (nothing, kept) ↦ subst DistinctJobs (sym (nothing later)) (
          hand_out-DistinctJobs cs fault o.clock o.tables
            (subst (λ d. UniqueRows d.index_jobs) (sym kept) u))
      | inr (j, good, h) ↦
          subst (λ r. DistinctJobs (handed r later)) (sym good)
            (
              not_again j o.tables later h.done
                  (hand_out-waiting cs fault o.clock o.tables h.unique),
              hand_out-DistinctJobs cs fault o.clock o.tables h.unique,
            )
    ]
