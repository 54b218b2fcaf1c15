-- ===== src/Catalog/Jobs/Claim.antt =====
-- What the claims promise: ClaimNextJob (internal/enginev2/catalog/sqlite/views.go) and
-- ClaimNextJobInRepo (internal/enginev2/catalog/sqlite/queue.go).
use mathlib.Core.List.{Memᴰ}
use grepai.Base.{
  ℕ, suc, Bool, true, false, List, [], ◌∷◌, Option, none, some, if◌then◌else◌, ◌==◌, ◌≡◌, refl, ◌⊎◌,
  inl, inr, arith, All, All-imp, Bool-cases, sym, subst, ◌∙◌,
}
use grepai.Base.Text.{Text}
use grepai.Core.Job.{Job, Priority}
use grepai.Catalog.Tables.{Database, JobRow, update_where}
use grepai.Catalog.Tx.{DbError, Outcome, query, ◌>>=◌, Faults, Tx, ran, ok, err, with_write_tx}
use grepai.Catalog.Tx.Laws.{with_write_tx_cases, continue_ran, query_ran}
use grepai.Catalog.Jobs.{
  comes_first, prefer, first_row, job_of, claim_selected, claimable, claim_next_tx, claim_next_job,
  claimable_in, claim_in_repo_tx, claim_next_job_in_repo,
}

-- The selected row meets the condition, stands in the table, and no other row that meets the
-- condition comes before it; where none is selected, none meets the condition.
abbrev pub Selects : (JobRow → Bool) → List JobRow → Option JobRow → Type 0
Selects p rs none = All (λ q. p q ≡ false) rs
Selects p rs (some r) = (p r ≡ true) × Memᴰ r rs × All (λ q. p q ≡ true → comes_first r q ≡ true) rs

comes_first_refl : (r : JobRow) → comes_first r r ≡ true
unfolding comes_first
comes_first_refl r = ground arith

comes_first_trans :
    (r q s : JobRow) → comes_first r q ≡ true → comes_first q s ≡ true → comes_first r s ≡ true
unfolding comes_first
comes_first_trans r q s h k = ground arith

comes_first_total : (r q : JobRow) → comes_first r q ≡ false → comes_first q r ≡ true
unfolding comes_first
comes_first_total r q h = ground arith

All-before :
    (p : JobRow → Bool) (r q : JobRow) (rs : List JobRow)
    → comes_first r q ≡ true
    → All (λ s. p s ≡ true → comes_first q s ≡ true) rs
    → All (λ s. p s ≡ true → comes_first r s ≡ true) rs
All-before p r q rs h =
    All-imp (λ s. p s ≡ true → comes_first q s ≡ true) (λ s. p s ≡ true → comes_first r s ≡ true) rs
      (λ s k m. comes_first_trans r q s h (k m))

All-none :
    (p : JobRow → Bool) (r : JobRow) (rs : List JobRow)
    → All (λ q. p q ≡ false) rs
    → All (λ q. p q ≡ true → comes_first r q ≡ true) rs
All-none p r rs =
    All-imp (λ q. p q ≡ false) (λ q. p q ≡ true → comes_first r q ≡ true) rs (λ q no_q yes_q. cc)

select_step :
    (p : JobRow → Bool) (r : JobRow) (rs : List JobRow) (o : Option JobRow)
    → p r ≡ true
    → Selects p rs o
    → Selects p (r ∷ rs) (prefer r o)
unfolding prefer
select_step p r rs none hit h =
    (hit, Memᴰ.head refl, ((λ _. comes_first_refl r), All-none p r rs h))
select_step p r rs (some q) hit h = elim (Bool-cases (comes_first r q)) [
  | inl before ↦
      subst (λ b. Selects p (r ∷ rs) (some (if b then r else q))) (sym before)
        (hit, Memᴰ.head refl, ((λ _. comes_first_refl r), All-before p r q rs before h.2))
  | inr behind ↦
      subst (λ b. Selects p (r ∷ rs) (some (if b then r else q))) (sym behind)
        (h.0, Memᴰ.tail h.1, ((λ _. comes_first_total r q behind), h.2))
]

skip_step :
    (p : JobRow → Bool) (r : JobRow) (rs : List JobRow) (o : Option JobRow)
    → p r ≡ false
    → Selects p rs o
    → Selects p (r ∷ rs) o
skip_step p r rs none miss h = (miss, h)
skip_step p r rs (some q) miss h = (h.0, Memᴰ.tail h.1, ((λ hit. cc), h.2))

chosen :
    (p : JobRow → Bool) (r : JobRow) (rs : List JobRow) (o : Option JobRow)
    → Selects p rs o
    → Selects p (r ∷ rs) (if p r then prefer r o else o)
chosen p r rs o h = elim (Bool-cases (p r)) [
  | inl hit ↦
      subst (λ b. Selects p (r ∷ rs) (if b then prefer r o else o)) (sym hit)
        (select_step p r rs o hit h)
  | inr miss ↦
      subst (λ b. Selects p (r ∷ rs) (if b then prefer r o else o)) (sym miss)
        (skip_step p r rs o miss h)
]

pub first_row-Selects : (p : JobRow → Bool) (rs : List JobRow) → Selects p rs (first_row p rs)
unfolding first_row
first_row-Selects p [] = tt
first_row-Selects p (r ∷ rs) = chosen p r rs (first_row p rs) (first_row-Selects p rs)

-- The tables after a claim of the row.
unfoldable pub with_claimed : JobRow → Database → Database
with_claimed r db = record db {
  index_jobs =
      update_where (λ q. q.job_id == r.job_id) (λ q. record q { claimed = true }) db.index_jobs;
}

-- What a claim can return: an error and the tables as they were; nothing, where no row meets the
-- condition; or the job of the first row in the order of priority and age that meets it, and that
-- row is then marked.
abbrev pub Claims : (JobRow → Bool) → Database → Outcome (Option Job) → Type 0
Claims p db o =
    ((e : DbError) × (o.result ≡ err e) × (o.tables ≡ db))
    ⊎ (((o.result ≡ ok none) × (o.tables ≡ db) × All (λ q. p q ≡ false) db.index_jobs)
        ⊎ ((r : JobRow) × (o.result ≡ ok (some (job_of r)))
            × Selects p db.index_jobs (some r)
            × (o.tables ≡ with_claimed r db)))

claim_selected-Claims :
    (p : JobRow → Bool) (s : Option JobRow) (fault : Faults) (n m : ℕ) (db db' : Database)
    (a : Option Job) (o : Outcome (Option Job))
    → Selects p db.index_jobs s
    → claim_selected s fault n db ≡ ran a db' m
    → o.result ≡ ok a
    → o.tables ≡ db'
    → Claims p db o
unfolding claim_selected with_claimed
claim_selected-Claims p none fault n m db db' a o h e res tab =
    inr (inl (ground arith, ground arith, h))
claim_selected-Claims p (some r) fault n m db db' a o h e res tab =
    inr (inr (r, ground arith, h, ground arith))

claim_tx-Claims :
    (p : Database → JobRow → Bool) (body : Tx (Option Job))
    → ((fault : Faults) (n : ℕ) (db : Database)
        → body fault n db
          ≡ (query (λ d. first_row (p d) d.index_jobs) >>= claim_selected) fault n db)
    → (fault : Faults) (n : ℕ) (db : Database) → Claims (p db) db (with_write_tx body fault n db)
claim_tx-Claims p body shape fault n db = elim (with_write_tx_cases body fault n db) [
  | inl (e, bad, kept) ↦ inl (e, bad, kept)
  | inr (a, m, good, ran_body) ↦
      let select = query (λ (d : Database). first_row (p d) d.index_jobs) in
      let (s, db1, k, one, rest) =
        continue_ran fault (select fault (suc n) db) claim_selected
          (sym (shape fault (suc n) db) ∙ ran_body) in
      let (row, still) = query_ran _ fault (suc n) db db1 s k one in
      let rest' : claim_selected s fault k db ≡ ran a (with_write_tx body fault n db).tables m =
        subst (λ d. claim_selected s fault k d ≡ ran a (with_write_tx body fault n db).tables m)
          (sym still) rest in
      claim_selected-Claims (p db) s fault k m db _ a (with_write_tx body fault n db)
        (subst (Selects (p db) db.index_jobs) row (first_row-Selects (p db) db.index_jobs)) rest'
        good refl
]

pub claim_next_job-Claims :
    (min_priority : Priority) (fault : Faults) (n : ℕ) (db : Database)
    → Claims (claimable min_priority) db (claim_next_job min_priority fault n db)
unfolding claim_next_job
claim_next_job-Claims min_priority =
    claim_tx-Claims (λ _. claimable min_priority) (claim_next_tx min_priority) (λ fault n db. refl)

-- ClaimNextJobInRepo does so among the rows whose worktree belongs to the repository.
pub claim_next_job_in_repo-Claims :
    (repo : Text) (min_priority : Priority) (fault : Faults) (n : ℕ) (db : Database)
    → Claims
        (claimable_in repo min_priority db.worktrees)
        db
        (claim_next_job_in_repo repo min_priority fault n db)
unfolding claim_next_job_in_repo
claim_next_job_in_repo-Claims repo min_priority =
    claim_tx-Claims (λ db. claimable_in repo min_priority db.worktrees)
      (claim_in_repo_tx repo min_priority) (λ fault n db. refl)
