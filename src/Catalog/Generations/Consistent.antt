-- ===== src/Catalog/Generations/Consistent.antt =====
-- One active generation to a repository (internal/enginev2/catalog/sqlite/registry.go).
use grepai.Base.{
  ℕ, suc, ◌+◌, ◌≤◌, Bool, false, List, [], ◌∷◌, ◌++◌, some, ◌==◌, ◌≡◌, ◌≢◌, inl, inr, arith, sym,
  subst, Bool-cases,
}
use grepai.Base.Text.{Text, Text-discrete, same_iff}
use grepai.Catalog.Tables.{Database, GenerationRow, building, count_where}
use grepai.Catalog.Tx.{◌>>=◌, ◌>>◌, Faults, ran, exec, query}
use grepai.Catalog.Tx.Laws.{exec_then, query_then}
use grepai.Catalog.Generations.{
  generation_at, active_in, has_generation, add_building, create_stmt, create_or_ignore_stmt,
  activate_stmt, activate_if_none_stmt, retire_stmt, switch_tx, require_generation,
}
use grepai.Catalog.Generations.Active.{
  actives, rows_of, retired_rows, activated_rows, actives-retired, actives-retired_other,
  rows_of-retired, rows_of-activated, actives-activated, actives-activated_other,
}

-- No repository has two active generations, and no generation two rows.
pub record IsConsistent (db : Database) : Type 0 where
  pub one_active : (repo : Text) → actives repo db.index_generations ≤ 1
  pub unique_rows : (repo : Text) (gen : ℕ) → rows_of repo gen db.index_generations ≤ 1

count_where-append :
    (p : GenerationRow → Bool) (gs hs : List GenerationRow)
    → count_where p (gs ++ hs) ≡ count_where p gs + count_where p hs
unfolding count_where
count_where-append p [] hs = omega arith
count_where-append p (g ∷ gs) hs = omega (arith, count_where-append p gs hs)

abbrev new_generation : Text → ℕ → Text → GenerationRow
new_generation repo gen print = record {
  repository_id = repo;
  generation = gen;
  fingerprint = print;
  status = building;
}

add_building-rows :
    (repo : Text) (gen : ℕ) (print : Text) (db db' : Database)
    → add_building repo gen print db ≡ some db'
    → db'.index_generations ≡ db.index_generations ++ (new_generation repo gen print ∷ [])
unfolding add_building
add_building-rows repo gen print db db' h = ground arith

add_building-IsConsistent :
    (repo : Text) (gen : ℕ) (print : Text) (db db' : Database)
    → has_generation repo gen db ≡ false
    → add_building repo gen print db ≡ some db'
    → IsConsistent db
    → IsConsistent db'
unfolding has_generation count_where active_in generation_at
add_building-IsConsistent repo gen print db db' fresh h v =
    let rows = add_building-rows repo gen print db db' h in
    record {
      one_active = λ r.
          subst (λ gs. actives r gs ≤ 1) (sym rows)
            (ground (
              arith,
              v.one_active r,
              count_where-append (active_in r) db.index_generations
                  (new_generation repo gen print ∷ []),
            ));
      unique_rows = λ r n.
          subst (λ gs. rows_of r n gs ≤ 1) (sym rows)
            (ground (
              arith,
              v.unique_rows r n,
              same_iff repo r,
              count_where-append (generation_at r n) db.index_generations
                  (new_generation repo gen print ∷ []),
            ));
    }

pub create-IsConsistent :
    (repo : Text) (gen : ℕ) (print : Text) (db db' : Database)
    → create_stmt repo gen print db ≡ some db'
    → IsConsistent db
    → IsConsistent db'
unfolding create_stmt
create-IsConsistent repo gen print db db' h v = elim (Bool-cases (has_generation repo gen db)) [
  | inl old ↦ absurd (ground arith)
  | inr fresh ↦ add_building-IsConsistent repo gen print db db' fresh (ground arith) v
]

pub create_or_ignore-IsConsistent :
    (repo : Text) (gen : ℕ) (print : Text) (db db' : Database)
    → create_or_ignore_stmt repo gen print db ≡ some db'
    → IsConsistent db
    → IsConsistent db'
unfolding create_or_ignore_stmt
create_or_ignore-IsConsistent repo gen print db db' h v =
    elim (Bool-cases (has_generation repo gen db)) [
      | inl old ↦ let e : db ≡ db' = ground arith in subst IsConsistent e v
      | inr fresh ↦ add_building-IsConsistent repo gen print db db' fresh (ground arith) v
    ]

-- Rows in which the repository has no active generation, before one is activated.
activated-IsConsistent :
    (repo : Text) (gen : ℕ) (db db' : Database)
    → activate_stmt repo gen db ≡ some db'
    → actives repo db.index_generations ≡ 0
    → IsConsistent db
    → IsConsistent db'
unfolding activate_stmt
activated-IsConsistent repo gen db db' h none_active v =
    let gs = activated_rows repo gen db.index_generations in
    let e : record db { index_generations = gs } ≡ db' = ground arith in
    subst IsConsistent e (record {
      one_active = λ r. elim (Text-discrete r repo) [
        | yes p ↦
            subst (λ t. actives t gs ≤ 1) (sym p)
              (omega (
                arith,
                actives-activated repo gen db.index_generations none_active,
                v.unique_rows repo gen,
              ))
        | no d ↦
            omega (arith, actives-activated_other r repo gen db.index_generations d, v.one_active r)
      ];
      unique_rows = λ r n.
          omega (arith, rows_of-activated r n repo gen db.index_generations, v.unique_rows r n);
    })

pub activate_if_none-IsConsistent :
    (repo : Text) (gen : ℕ) (db db' : Database)
    → activate_if_none_stmt repo gen db ≡ some db'
    → IsConsistent db
    → IsConsistent db'
unfolding activate_if_none_stmt
activate_if_none-IsConsistent repo gen db db' h v =
    elim (Bool-cases (actives repo db.index_generations == 0)) [
      | inl empty ↦ activated-IsConsistent repo gen db db' (ground arith) (ground arith) v
      | inr taken ↦ let e : db ≡ db' = ground arith in subst IsConsistent e v
    ]

pub retire-IsConsistent :
    (repo : Text) (db db' : Database)
    → retire_stmt repo db ≡ some db'
    → IsConsistent db
    → IsConsistent db' × (actives repo db'.index_generations ≡ 0)
unfolding retire_stmt
retire-IsConsistent repo db db' h v =
    let gs = retired_rows repo db.index_generations in
    let e : record db { index_generations = gs } ≡ db' = ground arith in
    subst (λ d. IsConsistent d × (actives repo d.index_generations ≡ 0)) e
      (
        record {
          one_active = λ r. elim (Text-discrete r repo) [
            | yes p ↦
                subst (λ t. actives t gs ≤ 1) (sym p)
                  (omega (arith, actives-retired repo db.index_generations))
            | no d ↦
                omega (arith, actives-retired_other r repo db.index_generations d, v.one_active r)
          ];
          unique_rows = λ r n.
              omega (arith, rows_of-retired r n repo db.index_generations, v.unique_rows r n);
        },
        actives-retired repo db.index_generations,
      )

require_ran :
    (c : ℕ) (fault : Faults) (n : ℕ) (db db' : Database) (m : ℕ)
    → require_generation c fault n db ≡ ran tt db' m
    → (c ≢ 0) × (db ≡ db')
require_ran c fault n db db' m h = ground arith

-- The tables around the three statements of a switch.
pub switch_steps :
    (repo : Text) (gen : ℕ) (fault : Faults) (n : ℕ) (db db' : Database) (m : ℕ)
    → switch_tx repo gen fault n db ≡ ran tt db' m
    → (d : Database) × (retire_stmt repo db ≡ some d)
      × (activate_stmt repo gen d ≡ some db')
      × (rows_of repo gen db'.index_generations ≢ 0)
unfolding switch_tx
switch_steps repo gen fault n db db' m h =
    let check =
      query (λ (d : Database). rows_of repo gen d.index_generations) >>= require_generation in
    let (d1, e1, h1) =
      exec_then (retire_stmt repo) (exec (activate_stmt repo gen) >> check) fault n db h in
    let (d2, e2, h2) = exec_then (activate_stmt repo gen) check fault (suc n) d1 h1 in
    let h3 =
      query_then (λ (d : Database). rows_of repo gen d.index_generations) require_generation fault
        (suc (suc n)) d2 h2 in
    let (some_row, e) =
      require_ran (rows_of repo gen d2.index_generations) fault (suc (suc (suc n))) d2 db' m h3 in
    (
      d1,
      e1,
      subst (λ d. activate_stmt repo gen d1 ≡ some d) e e2,
      subst (λ d. rows_of repo gen d.index_generations ≢ 0) e some_row,
    )

pub switch-IsConsistent :
    (repo : Text) (gen : ℕ) (fault : Faults) (n : ℕ) (db db' : Database) (m : ℕ)
    → switch_tx repo gen fault n db ≡ ran tt db' m
    → IsConsistent db
    → IsConsistent db'
switch-IsConsistent repo gen fault n db db' m h v =
    let (d, e1, e2, _) = switch_steps repo gen fault n db db' m h in
    let (v', none_active) = retire-IsConsistent repo db d e1 v in
    activated-IsConsistent repo gen d db' e2 none_active v'
