-- ===== src/Catalog/Tx/Laws.antt =====
-- What holds of every write transaction (internal/enginev2/catalog/sqlite/catalog.go).
use grepai.Base.{some, Option, ℕ, suc, sym, subst, Bool-cases, ◌≡◌, refl, ◌⊎◌, inl, inr, arith}
use grepai.Catalog.Tables.{Database}
use grepai.Catalog.Tx.{
  DbError, Faults, Tx, TxResult, ran, failed, ok, err, driver, finish, exec, query, continue_tx,
  ◌>>=◌, ◌>>◌, with_write_tx,
}

finish_cases :
    {A : Type 0} (fault : Faults) (db : Database) (r : TxResult A)
    → let o = finish fault db r in
      ((e : DbError) × (o.result ≡ err e) × (o.tables ≡ db))
      ⊎ ((a : A) × (m : ℕ) × (o.result ≡ ok a) × (r ≡ ran a o.tables m))
unfolding finish
finish_cases fault db (failed e n) = inl (e, refl, refl)
finish_cases fault db (ran a db' n) = elim (Bool-cases (fault n)) [
  | inl broken ↦ inl (driver, rw broken refl, rw broken refl)
  | inr fine ↦ inr (a, n, rw fine refl, rw fine refl)
]

-- Of a transaction either everything is visible or nothing: it fails and the tables are as they
-- were, or it returns what its body returned and the tables are those that the body left.
pub with_write_tx_cases :
    {A : Type 0} (body : Tx A) (fault : Faults) (n : ℕ) (db : Database)
    → let o = with_write_tx body fault n db in
      ((e : DbError) × (o.result ≡ err e) × (o.tables ≡ db))
      ⊎ ((a : A) × (m : ℕ) × (o.result ≡ ok a) × (body fault (suc n) db ≡ ran a o.tables m))
unfolding with_write_tx
with_write_tx_cases body fault n db = elim (Bool-cases (fault n)) [
  | inl broken ↦ inl (driver, rw broken refl, rw broken refl)
  | inr fine ↦ rw fine (finish_cases fault db (body fault (suc n) db))
]

-- A property of tables that a body keeps is kept by its transaction.
pub with_write_tx_keeps {κ} :
    {A : Type 0} (P : Database → Type κ) (body : Tx A) (fault : Faults) (n : ℕ) (db : Database)
    → P db
    → ((a : A) (db' : Database) (m : ℕ) → body fault (suc n) db ≡ ran a db' m → P db')
    → P (with_write_tx body fault n db).tables
with_write_tx_keeps P body fault n db h keep = elim (with_write_tx_cases body fault n db) [
  | inl (e, _, same_tables) ↦ subst P (sym same_tables) h
  | inr (a, m, _, done) ↦ keep a _ m done
]

-- What a transaction that returns a value has done.
pub with_write_tx_ok :
    {A : Type 0} (body : Tx A) (fault : Faults) (n : ℕ) (db : Database) (a : A)
    → (with_write_tx body fault n db).result ≡ ok a
    → (m : ℕ) × (body fault (suc n) db ≡ ran a (with_write_tx body fault n db).tables m)
with_write_tx_ok body fault n db a h = elim (with_write_tx_cases body fault n db) [
  | inl (e, bad, _) ↦ absurd (cc)
  | inr (b, m, good, done) ↦ (m, ground arith)
]

-- Inversions of the steps of a body that ran to its end.
pub continue_ran :
    {A B : Type 0} (fault : Faults) (r : TxResult A) (f : A → Tx B) {b : B} {db : Database} {k : ℕ}
    → continue_tx fault r f ≡ ran b db k
    → (a : A) × (db' : Database) × (m : ℕ) × (r ≡ ran a db' m) × (f a fault m db' ≡ ran b db k)
continue_ran fault (ran a db' m) f h = (a, db', m, refl, h)
continue_ran fault (failed e m) f h = absurd (cc)

pub exec_ran :
    (stmt : Database → Option Database) (fault : Faults) (n : ℕ) (db db' : Database) (u : Unit {0})
    (m : ℕ)
    → exec stmt fault n db ≡ ran u db' m
    → stmt db ≡ some db'
unfolding exec
exec_ran stmt fault n db db' u m h = ground arith

pub query_ran :
    {A : Type 0} (q : Database → A) (fault : Faults) (n : ℕ) (db db' : Database) (a : A) (m : ℕ)
    → query q fault n db ≡ ran a db' m
    → (q db ≡ a) × (db ≡ db')
unfolding query
query_ran q fault n db db' a m h = ground arith

pub exec_then :
    {B : Type 0} (stmt : Database → Option Database) (k : Tx B) (fault : Faults) (n : ℕ)
    (db : Database) {b : B} {db' : Database} {m : ℕ}
    → (exec stmt >> k) fault n db ≡ ran b db' m
    → (d : Database) × (stmt db ≡ some d) × (k fault (suc n) d ≡ ran b db' m)
unfolding exec
exec_then stmt k fault n db h = ground arith

pub query_then :
    {A B : Type 0} (q : Database → A) (f : A → Tx B) (fault : Faults) (n : ℕ) (db : Database)
    {b : B} {db' : Database} {m : ℕ}
    → (query q >>= f) fault n db ≡ ran b db' m
    → f (q db) fault (suc n) db ≡ ran b db' m
unfolding query
query_then q f fault n db h = ground arith

pub then_ran :
    {A B : Type 0} (t : Tx A) (k : Tx B) (fault : Faults) (n : ℕ) (db : Database) {b : B}
    {db' : Database} {m : ℕ}
    → (t >>= λ _. k) fault n db ≡ ran b db' m
    → (a : A) × (d : Database) × (i : ℕ) × (t fault n db ≡ ran a d i) × (k fault i d ≡ ran b db' m)
then_ran t k fault n db h = continue_ran fault (t fault n db) (λ _. k) h
