-- ===== src/Catalog/Generations/Rollover.antt =====
-- The rollover of a worktree to a new generation: RollWorktreeGeneration of
-- internal/enginev2/catalog/sqlite/jobs.go.
use grepai.Base.{ℕ, suc, ◌≤◌, Bool, List, [], ◌∷◌, ◌≡◌, refl, ◌≢◌, arith, sym, subst, ◌∙◌}
use grepai.Base.Text.{Text, same}
use grepai.Catalog.Tables.{Database, ViewRow, JobRow, count_where, delete_where}
use grepai.Catalog.Tx.{◌>>◌, Faults, ran, ok, exec}
use grepai.Catalog.Tx.Laws.{with_write_tx_ok, exec_then}
use grepai.Catalog.Settle.{drop_jobs_stmt}
use grepai.Catalog.Generations.{
  activate_stmt, retire_stmt, switch_tx, roll_tx, drop_view_stmt, roll_worktree_generation,
  active_of,
}
use grepai.Catalog.Generations.Active.{
  actives, rows_of, rows_of-activated, actives-activated, find-activated,
}
use grepai.Catalog.Generations.Consistent.{IsConsistent, switch_steps, retire-IsConsistent}

switch_tables :
    (repo : Text) (gen : ℕ) (fault : Faults) (n : ℕ) (db db' : Database) (m : ℕ)
    → switch_tx repo gen fault n db ≡ ran tt db' m
    → IsConsistent db
    → (active_of repo db' ≡ gen)
      × (actives repo db'.index_generations ≢ 0)
      × (db'.worktree_files ≡ db.worktree_files)
      × (db'.index_jobs ≡ db.index_jobs)
      × (db'.worktrees ≡ db.worktrees)
unfolding retire_stmt activate_stmt active_of
switch_tables repo gen fault n db db' m h v =
    let (d, e1, e2, some_row) = switch_steps repo gen fault n db db' m h in
    let (_, none_active) = retire-IsConsistent repo db d e1 v in
    let found : rows_of repo gen d.index_generations ≢ 0 =
      λ z. some_row (ground (arith, rows_of-activated repo gen repo gen d.index_generations)) in
    (
      ground (arith, find-activated repo gen d.index_generations none_active found),
      (λ z. found (ground (arith, actives-activated repo gen d.index_generations none_active))),
      ground arith,
      ground arith,
      ground arith,
    )

abbrev pub ViewEmpty : Text → List ViewRow → Type 0
ViewEmpty wt vs = count_where (λ v. same v.worktree_id wt) vs ≡ 0

abbrev pub QueueEmpty : Text → List JobRow → Type 0
QueueEmpty wt rs = count_where (λ r. same r.worktree_id wt) rs ≡ 0

count-delete {ℓ} : {A : Type ℓ} (p : A → Bool) (rs : List A) → count_where p (delete_where p rs) ≡ 0
unfolding count_where delete_where
count-delete p [] = refl
count-delete p (r ∷ rs) = ground (arith, count-delete p rs)

pub drop_steps :
    (wt repo : Text) (gen : ℕ) (fault : Faults) (n : ℕ) (db db' : Database) (m : ℕ)
    → roll_tx wt repo gen fault n db ≡ ran tt db' m
    → (d : Database) × (k : ℕ) × (switch_tx repo gen fault k d ≡ ran tt db' m)
      × (d.index_generations ≡ db.index_generations)
      × (d.worktrees ≡ db.worktrees)
      × ViewEmpty wt d.worktree_files
      × QueueEmpty wt d.index_jobs
unfolding roll_tx drop_view_stmt drop_jobs_stmt
drop_steps wt repo gen fault n db db' m h =
    let (d1, e1, h1) =
      exec_then (drop_view_stmt wt) (exec (drop_jobs_stmt wt) >> switch_tx repo gen) fault n db h in
    let (d2, e2, h2) = exec_then (drop_jobs_stmt wt) (switch_tx repo gen) fault (suc n) d1 h1 in
    (
      d2,
      suc (suc n),
      h2,
      ground arith,
      ground arith,
      ground (arith, count-delete (λ (v : ViewRow). same v.worktree_id wt) db.worktree_files),
      ground (arith, count-delete (λ (r : JobRow). same r.worktree_id wt) db.index_jobs),
    )

-- On consistent tables a rollover that succeeds leaves, in one step, the generation active, no
-- file in the worktree's view and no job of the worktree in the queue; the registered worktrees
-- stay.
pub roll_worktree_generation_lem :
    (wt repo : Text) (gen : ℕ) (fault : Faults) (n : ℕ) (db : Database)
    → IsConsistent db
    → (roll_worktree_generation wt repo gen fault n db).result ≡ ok tt
    → let db' = (roll_worktree_generation wt repo gen fault n db).tables in
      (active_of repo db' ≡ gen)
      × (actives repo db'.index_generations ≢ 0)
      × ViewEmpty wt db'.worktree_files
      × QueueEmpty wt db'.index_jobs
      × (db'.worktrees ≡ db.worktrees)
unfolding roll_worktree_generation
roll_worktree_generation_lem wt repo gen fault n db v h =
    let (m, body) = with_write_tx_ok (roll_tx wt repo gen) fault n db tt h in
    let (d, k, e, gens, trees, view, queue) = drop_steps wt repo gen fault (suc n) db _ m body in
    let v' : IsConsistent d = record {
      one_active = λ r. subst (λ gs. actives r gs ≤ 1) (sym gens) (v.one_active r);
      unique_rows = λ r g. subst (λ gs. rows_of r g gs ≤ 1) (sym gens) (v.unique_rows r g);
    } in
    let (act, some_active, views, jobs, trees') = switch_tables repo gen fault k d _ m e v' in
    (
      act,
      some_active,
      subst (ViewEmpty wt) (sym views) view,
      subst (QueueEmpty wt) (sym jobs) queue,
      trees' ∙ trees,
    )
