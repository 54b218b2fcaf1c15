-- ===== src/Catalog/Commit/Overtaken.antt =====
-- A rollover and the commits that it overtakes (internal/enginev2/catalog/sqlite/jobs.go and
-- views.go).
use grepai.Base.{
  ℕ, Bool, false, List, [], ◌∷◌, none, some, ◌≡◌, refl, ◌≢◌, arith, sym, subst, ◌∙◌, ap, All,
  All-imp, Bool-cases, inl, inr,
}
use grepai.Base.Text.{Text}
use grepai.Core.Job.{Job, CommitRequest}
use grepai.Catalog.Tables.{Database, GenerationRow, ViewRow, find_where, count_where}
use grepai.Catalog.Tx.{Faults, ok}
use grepai.Catalog.Jobs.{repository_of}
use grepai.Catalog.Generations.{active_in, active_of, roll_worktree_generation}
use grepai.Catalog.Generations.Active.{actives}
use grepai.Catalog.Generations.Consistent.{IsConsistent}
use grepai.Catalog.Generations.Rollover.{ViewEmpty, roll_worktree_generation_lem}
use grepai.Catalog.Commit.{view_at, touches_active_view}
use grepai.Catalog.Commit.Update.{seen, shown}
use grepai.Catalog.Commit.Views.{commit_all, IsStale, stale_commits_hidden}

find_of_count :
    (p : GenerationRow → Bool) (gs : List GenerationRow)
    → count_where p gs ≢ 0
    → (g : GenerationRow) × (find_where p gs ≡ some g)
unfolding count_where find_where
find_of_count p [] h = absurd (h refl)
find_of_count p (g ∷ gs) h = elim (Bool-cases (p g)) [
  | inl hit ↦ (g, ground arith)
  | inr miss ↦ let (q, e) = find_of_count p gs (λ z. h (ground arith)) in (q, ground arith)
]

shown-ViewEmpty :
    (wt path : Text) (vs : List ViewRow)
    → ViewEmpty wt vs
    → shown (find_where (view_at wt path) vs) ≡ none
unfolding count_where find_where view_at
shown-ViewEmpty wt path [] h = refl
shown-ViewEmpty wt path (v ∷ vs) h = ground (arith, shown-ViewEmpty wt path vs)

other_generation :
    (wt repo : Text) (gen other : ℕ) (db : Database)
    → repository_of db.worktrees wt ≡ some repo
    → active_of repo db ≡ gen
    → actives repo db.index_generations ≢ 0
    → other ≢ gen
    → touches_active_view wt other db ≡ false
unfolding touches_active_view active_of
other_generation wt repo gen other db w a s d =
    let (g, e) = find_of_count (active_in repo) db.index_generations s in ground arith

-- On consistent tables, with the worktree registered under the repository: after a rollover that
-- succeeds, commits to that worktree for any other generation, however many, in whatever order and
-- with the driver failing anywhere, leave its view empty. So a worker that the rollover overtakes
-- cannot bring the old generation back.
pub rollover_then_stale :
    (wt repo : Text) (gen : ℕ) (fault : Faults) (n : ℕ) (db : Database)
    → IsConsistent db
    → repository_of db.worktrees wt ≡ some repo
    → (roll_worktree_generation wt repo gen fault n db).result ≡ ok tt
    → (cs : List (CommitRequest × Job))
    → All (λ c. (c.0.view.worktree_id ≡ wt) × (c.0.view.generation ≢ gen)) cs
    → (fault' : Faults) (k : ℕ) (path : Text)
    → seen wt path (commit_all cs fault' k (roll_worktree_generation wt repo gen fault n db).tables)
      ≡ none
rollover_then_stale wt repo gen fault n db v w h cs stale fault' k path =
    let d = (roll_worktree_generation wt repo gen fault n db).tables in
    let (act, some_active, view, _, trees) =
      roll_worktree_generation_lem wt repo gen fault n db v h in
    let w' : repository_of d.worktrees wt ≡ some repo = ap (λ t. repository_of t wt) trees ∙ w in
    let apart : All (IsStale d) cs =
      All-imp (λ c. (c.0.view.worktree_id ≡ wt) × (c.0.view.generation ≢ gen)) (IsStale d) cs
        (λ c s.
          subst (λ t. touches_active_view t c.0.view.generation d ≡ false) (sym s.0)
            (other_generation wt repo gen c.0.view.generation d w' act some_active s.1))
        stale in
    stale_commits_hidden cs fault' k d wt path apart
    ∙ unfold seen in shown-ViewEmpty wt path d.worktree_files view
