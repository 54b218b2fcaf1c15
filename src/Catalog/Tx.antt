-- ===== src/Catalog/Tx.antt =====
-- withWriteTx (internal/enginev2/catalog/sqlite/catalog.go): serialized write transactions over
-- the tables. The driver may fail at any statement, at BEGIN and at COMMIT: a schedule says at
-- which, the statements being numbered. A failed COMMIT leaves the tables as they were.
pub mod Laws
use grepai.Base.{
  ℕ, suc, Bool, true, false, Option, none, some, List, [], ◌∷◌, if◌then◌else◌, ◌≡◌, refl, arith,
}
use grepai.Catalog.Tables.{Database}

-- `constraint` is a violated PRIMARY KEY, UNIQUE or REFERENCES clause.
pub data DbError : Type 0 where
  driver constraint no_rows no_such_generation no_such_worktree vector_length : DbError

abbrev pub Faults : Type 0
Faults = ℕ → Bool

pub data TxResult (A : Type 0) : Type 0 where
  ran : A → Database → ℕ → TxResult A
  failed : DbError → ℕ → TxResult A

-- A transaction's body: the schedule, the number of the next statement, the tables as it sees them.
abbrev pub Tx : Type 0 → Type 0
Tx A = Faults → ℕ → Database → TxResult A

abbrev pub continue_tx : {A B : Type 0} → Faults → TxResult A → (A → Tx B) → TxResult B
continue_tx fault (ran a db n) f = f a fault n db
continue_tx fault (failed e n) f = failed e n

infixl 5 ◌>>=◌ ◌>>◌
abbrev pub ◌>>=◌ : {A B : Type 0} → Tx A → (A → Tx B) → Tx B
◌>>=◌ m f fault n db = continue_tx fault (m fault n db) f

abbrev pub ◌>>◌ : {B : Type 0} → Tx (Unit {0}) → Tx B → Tx B
m >> k = m >>= λ _. k

abbrev pub pure : {A : Type 0} → A → Tx A
pure a fault n db = ran a db n

abbrev pub fail : {A : Type 0} → DbError → Tx A
fail e fault n db = failed e n

abbrev or_constraint : Option Database → ℕ → TxResult (Unit {0})
or_constraint none n = failed constraint n
or_constraint (some db) n = ran tt db n

-- ExecContext of a statement that the schema's constraints may refuse.
unfoldable pub exec : (Database → Option Database) → Tx (Unit {0})
exec stmt fault n db = if fault n then failed driver (suc n) else or_constraint (stmt db) (suc n)

-- QueryRowContext, or the RowsAffected of a statement that is then run.
unfoldable pub query : {A : Type 0} → (Database → A) → Tx A
query q fault n db = if fault n then failed driver (suc n) else ran (q db) db (suc n)

pub data Result (A : Type 0) : Type 0 where
  ok : A → Result A
  err : DbError → Result A

-- What a method returns, the tables it leaves, and the number of the next statement.
pub record Outcome (A : Type 0) : Type 0 where
  pub result : Result A
  pub tables : Database
  pub clock : ℕ

abbrev pub Op : Type 0 → Type 0
Op A = Faults → ℕ → Database → Outcome A

finish : {A : Type 0} → Faults → Database → TxResult A → Outcome A
finish fault before (ran a db n) =
    if fault n
    then record { result = err driver; tables = before; clock = suc n }
    else record { result = ok a; tables = db; clock = suc n }
finish fault before (failed e n) = record { result = err e; tables = before; clock = suc n }

unfoldable pub with_write_tx : {A : Type 0} → Tx A → Op A
unfolding finish
with_write_tx body fault n db =
    if fault n
    then record { result = err driver; tables = db; clock = suc n }
    else finish fault db (body fault (suc n) db)

-- A read on the shared connection, outside a transaction.
unfoldable pub read : {A : Type 0} → (Database → Result A) → Op A
read q fault n db =
    if fault n
    then record { result = err driver; tables = db; clock = suc n }
    else record { result = q db; tables = db; clock = suc n }
