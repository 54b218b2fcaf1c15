-- ===== src/Engine/Worker/Bounded.antt =====
-- A failing job is tried again a bounded number of times (internal/enginev2/worker/worker.go).
use grepai.Base.{
  ℕ, suc, ◌+◌, ◌<◌, ◌≤◌, true, false, ◌&&◌, List, [], ◌∷◌, ◌++◌, Option, none, some, some_inj,
  if◌then◌else◌, ◌==◌, leb, ◌≡◌, ◌⊎◌, refl, sym, subst, ap, ◌∙◌, Bool-cases, inl, inr, arith,
}
use grepai.Base.Text.{Text, codes, same, same_self}
use grepai.Core.Job.{Job}
use grepai.Catalog.Tables.{Database, JobRow, find_where, update_where, count_where, delete_where}
use grepai.Catalog.Tx.{Faults, ok, with_write_tx, exec, query}
use grepai.Catalog.Jobs.{job_at}
use grepai.Engine.Worker.{Worker, Processed, Cause, transient}
use grepai.Engine.Worker.Drive.{
  Handled, dead_letter, cause_text, handled, after_attempt, settle_outcome,
}
use grepai.Catalog.Settle.{
  attempted, fail_stmt, fail_tx, fail_job_attempt, fulfilled, complete_stmt, dead_letter_stmt,
  dead_letter_tx, dead_letter_job,
}

-- Neither the driver nor another process comes in the way.
abbrev pub no_fault : Faults
no_fault n = false

abbrev pub alone : ℕ → Database → Database
alone n db = db

abbrev pub bumped : JobRow → JobRow
bumped r = record r { attempts = r.attempts + 1; claimed = false }

-- The row that a job was claimed from, with the job's intent.
abbrev pub IsRowOf : Job → JobRow → Database → Type 0
IsRowOf j r db =
    (find_where (job_at j.worktree_id j.path) db.index_jobs ≡ some r)
    × (r.generation ≡ j.generation)
    × (r.desired_hash ≡ j.desired_hash)

row_attempted :
    (j : Job) (r : JobRow)
    → job_at j.worktree_id j.path r ≡ true
    → r.generation ≡ j.generation
    → r.desired_hash ≡ j.desired_hash
    → attempted j r ≡ true
unfolding attempted
row_attempted j r here g h =
    let alike = ap (same r.desired_hash) (sym h) ∙ same_self r.desired_hash in
    let alike_gen : (r.generation == j.generation) ≡ true = ground (arith, g) in
    ground (arith, here, alike, alike_gen)

found_row :
    (j : Job) (r q : JobRow) (rs : List JobRow)
    → find_where (job_at j.worktree_id j.path) (q ∷ rs) ≡ some r
    → ((job_at j.worktree_id j.path q ≡ true) × (q ≡ r))
      ⊎ ((job_at j.worktree_id j.path q ≡ false)
          × (find_where (job_at j.worktree_id j.path) rs ≡ some r))
unfolding find_where
found_row j r q rs e = elim (Bool-cases (job_at j.worktree_id j.path q)) [
  | inl here ↦ inl (
    here,
    some_inj (
        ap (λ b. if b then some q else find_where (job_at j.worktree_id j.path) rs) (sym here) ∙ e),
  )
  | inr there ↦ inr (
    there,
    ap (λ b. if b then some q else find_where (job_at j.worktree_id j.path) rs) (sym there) ∙ e,
  )
]

attempt_found :
    (j : Job) (r : JobRow) (rs : List JobRow)
    → find_where (job_at j.worktree_id j.path) rs ≡ some r
    → r.generation ≡ j.generation
    → r.desired_hash ≡ j.desired_hash
    → find_where (job_at j.worktree_id j.path) (update_where (attempted j) bumped rs)
      ≡ some (bumped r)
unfolding find_where update_where job_at attempted
attempt_found j r [] e g h = absurd (cc)
attempt_found j r (q ∷ rs) e g h = elim (found_row j r q rs e) [
  | inl (here, same_row) ↦
      let there =
        row_attempted j q here (ap (λ x. x.generation) same_row ∙ g)
          (ap (λ x. x.desired_hash) same_row ∙ h) in
      ap
        (λ b.
          if job_at j.worktree_id j.path (if b then bumped q else q)
          then some (if b then bumped q else q)
          else find_where (job_at j.worktree_id j.path) (update_where (attempted j) bumped rs))
        there
      ∙ ap
          (λ b.
            if b
            then some (bumped q)
            else find_where (job_at j.worktree_id j.path) (update_where (attempted j) bumped rs))
          here
      ∙ ap (λ x. some (bumped x)) same_row
  | inr (other, rest) ↦
      let skipped : attempted j q ≡ false =
        ap (λ b. b && ((q.generation == j.generation) && same q.desired_hash j.desired_hash))
          other in
      ap
        (λ b.
          if job_at j.worktree_id j.path (if b then bumped q else q)
          then some (if b then bumped q else q)
          else find_where (job_at j.worktree_id j.path) (update_where (attempted j) bumped rs))
        skipped
      ∙ ap
          (λ b.
            if b
            then some q
            else find_where (job_at j.worktree_id j.path) (update_where (attempted j) bumped rs))
          other
      ∙ attempt_found j r rs rest g h
]

fail_job_attempt_ok :
    (j : Job) (r : JobRow) (n : ℕ) (db : Database)
    → IsRowOf j r db
    → fail_job_attempt j no_fault n db ≡ record {
      result = ok (r.attempts + 1);
      tables = record db { index_jobs = update_where (attempted j) bumped db.index_jobs };
      clock = suc (suc (suc (suc n)));
    }
unfolding fail_job_attempt fail_tx fail_stmt exec query with_write_tx
fail_job_attempt_ok j r n db (e, g, h) =
    let there = attempt_found j r db.index_jobs e g h in rw there refl

row_fulfilled :
    (j : Job) (r : JobRow) (rs : List JobRow)
    → find_where (job_at j.worktree_id j.path) rs ≡ some r
    → r.generation ≡ j.generation
    → r.desired_hash ≡ j.desired_hash
    → (count_where (fulfilled j.worktree_id j.path j.generation j.desired_hash) rs == 0) ≡ false
unfolding count_where fulfilled find_where
row_fulfilled j r [] e g h = absurd (cc)
row_fulfilled j r (q ∷ rs) e g h = elim (found_row j r q rs e) [
  | inl (here, same_row) ↦
      let gen : leb q.generation j.generation ≡ true =
        ground (arith, ap (λ (x : JobRow). x.generation) same_row, g) in
      let hash =
        ap (same q.desired_hash) (sym (ap (λ (x : JobRow). x.desired_hash) same_row ∙ h))
        ∙ same_self q.desired_hash in
      ground (arith, here, gen, hash)
  | inr (other, rest) ↦ ground (arith, other, row_fulfilled j r rs rest g h)
]

dead_letter_job_ok :
    (j : Job) (reason : Text) (n : ℕ) (db : Database)
    → (count_where (fulfilled j.worktree_id j.path j.generation j.desired_hash) db.index_jobs == 0)
      ≡ false
    → dead_letter_job j reason no_fault n db ≡ record {
      result = ok tt;
      tables = record db {
        index_jobs =
            delete_where (fulfilled j.worktree_id j.path j.generation j.desired_hash) db.index_jobs;
        dead_letter_jobs =
            db.dead_letter_jobs
            ++ (record { worktree_id = j.worktree_id; relative_path = j.path; reason = reason }
                ∷ []);
      };
      clock = suc (suc (suc (suc (suc n))));
    }
unfolding dead_letter_job dead_letter_tx complete_stmt dead_letter_stmt exec query with_write_tx
dead_letter_job_ok j reason n db h = rw h refl

module _ (sha256_hex : Text → Text) (w : Worker) (job : Job) (r : JobRow) where
  unfoldable again : Option Cause → ℕ → Database → Handled
  unfolding dead_letter
  again cause n db =
      if leb w.max_attempts (r.attempts + 1)
      then dead_letter sha256_hex no_fault alone w job (codes "attempts exhausted: ") cause n db
      else record { did = true; error = none; tables = db; clock = n }

  transient_again :
      (p : Processed)
      → IsRowOf job r p.tables
      → settle_outcome sha256_hex no_fault alone w job transient p
        ≡ again p.cause (suc (suc (suc (suc p.clock)))) (record p.tables {
          index_jobs = update_where (attempted job) bumped p.tables.index_jobs;
        })
  unfolding settle_outcome after_attempt again
  transient_again p h =
      ap (after_attempt sha256_hex no_fault alone w job p.cause)
        (fail_job_attempt_ok job r p.clock p.tables h)

-- The job waits unclaimed with one more attempt, or it has left the queue for the dead letters.
abbrev pub RetriedOrDead : Worker → Job → JobRow → Database → Database → Type 0
RetriedOrDead w job r before after =
    ((r.attempts + 1 < w.max_attempts)
      × (find_where (job_at job.worktree_id job.path) after.index_jobs ≡ some (bumped r))
      × (after.dead_letter_jobs ≡ before.dead_letter_jobs))
    ⊎ ((w.max_attempts ≤ r.attempts + 1)
        × ((reason : Text) × (after.dead_letter_jobs
              ≡ before.dead_letter_jobs
                ++ (record {
                  worktree_id = job.worktree_id;
                  relative_path = job.path;
                  reason = reason;
                }
                    ∷ [])))
        × (after.index_jobs
            ≡ delete_where (fulfilled job.worktree_id job.path job.generation job.desired_hash)
                (update_where (attempted job) bumped before.index_jobs)))

again-RetriedOrDead :
    (sha256_hex : Text → Text) (w : Worker) (job : Job) (r : JobRow) (cause : Option Cause) (n : ℕ)
    (db : Database)
    → IsRowOf job r db
    → let bumped_db = record db {
      index_jobs = update_where (attempted job) bumped db.index_jobs;
    } in
      RetriedOrDead w job r db (again sha256_hex w job r cause n bumped_db).tables
unfolding again dead_letter
again-RetriedOrDead sha256_hex w job r cause n db (e, g, h) =
    let there = attempt_found job r db.index_jobs e g h in
    let after = record db { index_jobs = update_where (attempted job) bumped db.index_jobs } in
    let reason = codes "attempts exhausted: " ++ cause_text sha256_hex no_fault alone w cause in
    let counted = row_fulfilled job (bumped r) after.index_jobs there g h in
    let buried = dead_letter_job_ok job reason n after counted in
    elim (Bool-cases (leb w.max_attempts (r.attempts + 1))) [
      | inr below ↦
          subst
            (λ b. RetriedOrDead w job r db (
              (if b
                then dead_letter sha256_hex no_fault alone w job (codes "attempts exhausted: ")
                    cause n after
                else record { did = true; error = none; tables = after; clock = n }).tables))
            (sym below) (inl (ground (arith, below), there, refl))
      | inl reached ↦
          subst
            (λ b. RetriedOrDead w job r db (
              (if b
                then dead_letter sha256_hex no_fault alone w job (codes "attempts exhausted: ")
                    cause n after
                else record { did = true; error = none; tables = after; clock = n }).tables))
            (sym reached)
            (subst (λ o. RetriedOrDead w job r db (handled sha256_hex no_fault alone w o).tables)
              (sym buried) (inr (ground (arith, reached), (reason, refl), refl)))
    ]

-- Where the driver does not fail, no one else writes, and the job's row is the one on record, a
-- transient failure leaves the row, below the limit of attempts, waiting unclaimed with one more
-- attempt; from the limit on the job's rows are gone and a dead letter is on record.
pub transient-RetriedOrDead :
    (sha256_hex : Text → Text) (w : Worker) (job : Job) (r : JobRow) (p : Processed)
    → IsRowOf job r p.tables
    → RetriedOrDead w job r p.tables
        (settle_outcome sha256_hex no_fault alone w job transient p).tables
transient-RetriedOrDead sha256_hex w job r p h =
    subst (λ (o : Handled). RetriedOrDead w job r p.tables o.tables)
      (sym (transient_again sha256_hex w job r p h))
      (again-RetriedOrDead sha256_hex w job r p.cause (suc (suc (suc (suc p.clock)))) p.tables h)
