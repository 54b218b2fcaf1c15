-- ===== src/Catalog/Generations/Calls.antt =====
-- Every sequence of calls on generations (internal/enginev2/catalog/sqlite/registry.go, and
-- RollWorktreeGeneration of jobs.go there).
use grepai.Base.{ℕ, suc, ◌≤◌, List, [], ◌∷◌, some, ◌≡◌, arith, sym, subst}
use grepai.Base.Text.{Text}
use grepai.Catalog.Tables.{Database}
use grepai.Catalog.Tx.{Faults, ran, Op, exec}
use grepai.Catalog.Tx.Laws.{with_write_tx_keeps, exec_then, exec_ran}
use grepai.Catalog.Generations.{
  create_stmt, create_or_ignore_stmt, activate_if_none_stmt, ensure_active_tx, switch_tx, roll_tx,
  register_repository, register_repository_stmt, register_worktree, register_worktree_stmt,
  create_generation, ensure_active_generation, set_active_generation, roll_worktree_generation,
}
use grepai.Catalog.Generations.Active.{actives, rows_of}
use grepai.Catalog.Generations.Consistent.{
  IsConsistent, create-IsConsistent, create_or_ignore-IsConsistent, activate_if_none-IsConsistent,
  switch-IsConsistent,
}
use grepai.Catalog.Generations.Rollover.{drop_steps}

-- The calls that write repositories, worktrees and generations.
pub data RegistryCall : Type 0 where
  registers_repository : Text → Text → Text → RegistryCall
  registers_worktree : Text → Text → Text → ℕ → RegistryCall
  creates ensures : Text → ℕ → Text → RegistryCall
  activates : Text → ℕ → RegistryCall
  rolls : Text → Text → ℕ → RegistryCall

unfoldable pub call : RegistryCall → Op (Unit {0})
unfolding register_repository register_worktree create_generation ensure_active_generation
    set_active_generation roll_worktree_generation
call (registers_repository repo root dir) = register_repository repo root dir
call (registers_worktree wt repo root gen) = register_worktree wt repo root gen
call (creates repo gen print) = create_generation repo gen print
call (ensures repo gen print) = ensure_active_generation repo gen print
call (activates repo gen) = set_active_generation repo gen
call (rolls wt repo gen) = roll_worktree_generation wt repo gen

unfoldable pub calls : List RegistryCall → Faults → ℕ → Database → Database
unfolding call
calls [] fault n db = db
calls (c ∷ cs) fault n db = let o = call c fault n db in calls cs fault o.clock o.tables

same_generations :
    (db db' : Database)
    → db'.index_generations ≡ db.index_generations
    → IsConsistent db
    → IsConsistent db'
same_generations db db' e v = record {
  one_active = λ r. subst (λ gs. actives r gs ≤ 1) (sym e) (v.one_active r);
  unique_rows = λ r g. subst (λ gs. rows_of r g gs ≤ 1) (sym e) (v.unique_rows r g);
}

register_worktree-generations :
    (wt repo root : Text) (gen : ℕ) (db db' : Database)
    → register_worktree_stmt wt repo root gen db ≡ some db'
    → db'.index_generations ≡ db.index_generations
unfolding register_worktree_stmt
register_worktree-generations wt repo root gen db db' h = ground arith

ensure-IsConsistent :
    (repo : Text) (gen : ℕ) (print : Text) (fault : Faults) (n : ℕ) (db db' : Database) (m : ℕ)
    → ensure_active_tx repo gen print fault n db ≡ ran tt db' m
    → IsConsistent db
    → IsConsistent db'
unfolding ensure_active_tx
ensure-IsConsistent repo gen print fault n db db' m h v =
    let (d, e1, h1) =
      exec_then (create_or_ignore_stmt repo gen print) (exec (activate_if_none_stmt repo gen)) fault
        n db h in
    activate_if_none-IsConsistent repo gen d db'
      (exec_ran (activate_if_none_stmt repo gen) fault (suc n) d db' tt m h1)
      (create_or_ignore-IsConsistent repo gen print db d e1 v)

register_repository-generations :
    (repo root dir : Text) (db db' : Database)
    → register_repository_stmt repo root dir db ≡ some db'
    → db'.index_generations ≡ db.index_generations
unfolding register_repository_stmt
register_repository-generations repo root dir db db' h = ground arith

call-IsConsistent :
    (c : RegistryCall) (fault : Faults) (n : ℕ) (db : Database)
    → IsConsistent db
    → IsConsistent (call c fault n db).tables
unfolding call
call-IsConsistent (registers_repository repo root dir) fault n db v =
    with_write_tx_keeps IsConsistent (exec (register_repository_stmt repo root dir)) fault n db v
      (λ u db' m h.
        same_generations db db'
          (register_repository-generations repo root dir db db'
            (exec_ran (register_repository_stmt repo root dir) fault (suc n) db db' u m h))
          v)
call-IsConsistent (registers_worktree wt repo root gen) fault n db v =
    with_write_tx_keeps IsConsistent (exec (register_worktree_stmt wt repo root gen)) fault n db v
      (λ u db' m h.
        same_generations db db'
          (register_worktree-generations wt repo root gen db db'
            (exec_ran (register_worktree_stmt wt repo root gen) fault (suc n) db db' u m h))
          v)
call-IsConsistent (creates repo gen print) fault n db v =
    with_write_tx_keeps IsConsistent (exec (create_stmt repo gen print)) fault n db v (λ u db' m h.
      create-IsConsistent repo gen print db db'
        (exec_ran (create_stmt repo gen print) fault (suc n) db db' u m h) v)
call-IsConsistent (ensures repo gen print) fault n db v =
    with_write_tx_keeps IsConsistent (ensure_active_tx repo gen print) fault n db v
      (λ u db' m h. ensure-IsConsistent repo gen print fault (suc n) db db' m h v)
call-IsConsistent (activates repo gen) fault n db v =
    with_write_tx_keeps IsConsistent (switch_tx repo gen) fault n db v
      (λ u db' m h. switch-IsConsistent repo gen fault (suc n) db db' m h v)
call-IsConsistent (rolls wt repo gen) fault n db v =
    with_write_tx_keeps IsConsistent (roll_tx wt repo gen) fault n db v (λ u db' m h.
      let (d, k, e, gens, _, _, _) = drop_steps wt repo gen fault (suc n) db db' m h in
      switch-IsConsistent repo gen fault k d db' m e (same_generations db d gens v))

-- From consistent tables, whatever calls are made on repositories, worktrees and generations,
-- rollovers included, and wherever the driver fails, no repository has two active generations, and
-- no generation two rows.
pub calls-IsConsistent :
    (cs : List RegistryCall) (fault : Faults) (n : ℕ) (db : Database)
    → IsConsistent db
    → IsConsistent (calls cs fault n db)
unfolding calls
calls-IsConsistent [] fault n db v = v
calls-IsConsistent (c ∷ cs) fault n db v =
    let o = call c fault n db in
    calls-IsConsistent cs fault o.clock o.tables (call-IsConsistent c fault n db v)
