-- ===== src/Catalog/Commit/Views.antt =====
-- What sequences of commits do to the views (internal/enginev2/catalog/sqlite/views.go).
use grepai.Base.{
  ℕ, ◌≤◌, true, false, ◌&&◌, List, [], ◌∷◌, Option, none, some, if◌then◌else◌, ◌≡◌, refl, inl, inr,
  arith, sym, subst, ◌∙◌, ap, Bool-cases, and_true, ap₂, All, All-imp,
}
use grepai.Base.Text.{Text, same, same→eq}
use grepai.Core.Job.{Job, ViewEntry, CommitRequest}
use grepai.Catalog.Tables.{Database}
use grepai.Catalog.Tx.{Faults}
use grepai.Catalog.Commit.{touches_active_view, commit_update}
use grepai.Catalog.Commit.Update.{seen, latest, Committed, SameRegistry, commit_update_lem}

-- Commits by any workers, one transaction after the other.
unfoldable pub commit_all : List (CommitRequest × Job) → Faults → ℕ → Database → Database
commit_all [] fault n db = db
commit_all ((req, job) ∷ cs) fault n db =
    let o = commit_update req job fault n db in commit_all cs fault o.clock o.tables

-- What is shown is of a generation at least as new.
abbrev pub NoOlder : Option (ℕ × Text) → Option (ℕ × Text) → Type 0
NoOlder none o = Unit {0}
NoOlder (some (g, a)) none = ⊥
NoOlder (some (g, a)) (some (g', a')) = g ≤ g'

NoOlder-refl : (o : Option (ℕ × Text)) → NoOlder o o
NoOlder-refl none = tt
NoOlder-refl (some (g, a)) = omega arith

NoOlder-trans : (o p q : Option (ℕ × Text)) → NoOlder o p → NoOlder p q → NoOlder o q
NoOlder-trans none p q h k = tt
NoOlder-trans (some (g, a)) none q h k = absurd h
NoOlder-trans (some (g, a)) (some (g', a')) none h k = absurd k
NoOlder-trans (some (g, a)) (some (g', a')) (some (g'', a'')) h k = omega arith

latest-NoOlder : (v : ViewEntry) (o : Option (ℕ × Text)) → NoOlder o (latest v o)
latest-NoOlder v none = tt
latest-NoOlder v (some (g, a)) = ground arith

Committed-NoOlder :
    (v : ViewEntry) (job : Job) (db db' : Database) (wt path : Text)
    → Committed v job db db'
    → NoOlder (seen wt path db) (seen wt path db')
Committed-NoOlder v job db db' wt path (_, _, views) =
    let hit =
      touches_active_view v.worktree_id v.generation db
      && (same v.worktree_id wt && same v.path path) in
    elim (Bool-cases hit) [
      | inl here ↦
          let (_, keys) = and_true _ _ here in
          let (w, p) = and_true _ _ keys in
          let old : seen v.worktree_id v.path db ≡ seen wt path db =
            ap₂ (λ a b. seen a b db) (same→eq _ _ w) (same→eq _ _ p) in
          let new : seen wt path db' ≡ latest v (seen wt path db) =
            views wt path
            ∙ ap (λ b. if b then latest v (seen v.worktree_id v.path db) else seen wt path db) here
            ∙ ap (latest v) old in
          subst (NoOlder (seen wt path db)) (sym new) (latest-NoOlder v (seen wt path db))
      | inr elsewhere ↦
          subst (NoOlder (seen wt path db))
            (sym (
              views wt path
              ∙ ap (λ b. if b then latest v (seen v.worktree_id v.path db) else seen wt path db)
                  elsewhere))
            (NoOlder-refl (seen wt path db))
    ]

commit-NoOlder :
    (req : CommitRequest) (job : Job) (fault : Faults) (n : ℕ) (db : Database) (wt path : Text)
    → NoOlder (seen wt path db) (seen wt path (commit_update req job fault n db).tables)
commit-NoOlder req job fault n db wt path = elim (commit_update_lem req job fault n db) [
  | inl (e, _, kept) ↦
      subst (λ d. NoOlder (seen wt path db) (seen wt path d)) (sym kept)
        (NoOlder-refl (seen wt path db))
  | inr (_, done) ↦
      Committed-NoOlder req.view job db (commit_update req job fault n db).tables wt path done
]

-- Under any commits, of any generation and in any order, a path that a worktree shows is never
-- lost from its view, and its generation never falls.
pub commit_all-NoOlder :
    (cs : List (CommitRequest × Job)) (fault : Faults) (n : ℕ) (db : Database) (wt path : Text)
    → NoOlder (seen wt path db) (seen wt path (commit_all cs fault n db))
unfolding commit_all
commit_all-NoOlder [] fault n db wt path = NoOlder-refl (seen wt path db)
commit_all-NoOlder ((req, job) ∷ cs) fault n db wt path =
    let o = commit_update req job fault n db in
    NoOlder-trans (seen wt path db) (seen wt path o.tables) _
      (commit-NoOlder req job fault n db wt path)
      (commit_all-NoOlder cs fault o.clock o.tables wt path)

stale-Committed :
    (v : ViewEntry) (job : Job) (db db' : Database) (wt path : Text)
    → (same v.worktree_id wt ≡ true → touches_active_view v.worktree_id v.generation db ≡ false)
    → Committed v job db db'
    → seen wt path db' ≡ seen wt path db
stale-Committed v job db db' wt path h (_, _, views) = views wt path ∙ ground (arith, h)

touches_registry :
    (wt : Text) (gen : ℕ) (db db' : Database)
    → SameRegistry db db'
    → touches_active_view wt gen db' ≡ touches_active_view wt gen db
unfolding touches_active_view
touches_registry wt gen db db' r = rw (r.0, r.1)

Committed-registry :
    (req : CommitRequest) (job : Job) (fault : Faults) (n : ℕ) (db : Database)
    → SameRegistry db (commit_update req job fault n db).tables
Committed-registry req job fault n db = elim (commit_update_lem req job fault n db) [
  | inl (e, _, kept) ↦ (ap (λ d. d.worktrees) kept, ap (λ d. d.index_generations) kept)
  | inr (_, done) ↦ done.1
]

-- A commit for a generation that is not the active one of its worktree's repository.
abbrev pub IsStale : Database → CommitRequest × Job → Type 0
IsStale db (req, job) = touches_active_view req.view.worktree_id req.view.generation db ≡ false

-- Commits of generations that are not active, such as those of a rebuild or of a worker that a
-- rollover overtook, leave every view of every worktree as it is, whatever else they store.
pub stale_commits_hidden :
    (cs : List (CommitRequest × Job)) (fault : Faults) (n : ℕ) (db : Database) (wt path : Text)
    → All (IsStale db) cs
    → seen wt path (commit_all cs fault n db) ≡ seen wt path db
unfolding commit_all
stale_commits_hidden [] fault n db wt path h = refl
stale_commits_hidden ((req, job) ∷ cs) fault n db wt path h =
    let o = commit_update req job fault n db in
    let r = Committed-registry req job fault n db in
    let one : seen wt path o.tables ≡ seen wt path db =
      elim (commit_update_lem req job fault n db) [
        | inl (e, _, kept) ↦ ap (seen wt path) kept
        | inr (_, done) ↦ stale-Committed req.view job db o.tables wt path (λ _. h.0) done
      ] in
    let later : All (IsStale o.tables) cs =
      All-imp (IsStale db) (IsStale o.tables) cs
        (λ c k. touches_registry c.0.view.worktree_id c.0.view.generation db o.tables r ∙ k) h.1 in
    stale_commits_hidden cs fault o.clock o.tables wt path later ∙ one
