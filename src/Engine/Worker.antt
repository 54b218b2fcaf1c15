-- ===== src/Engine/Worker.antt =====
-- internal/enginev2/worker: a claimed job is loaded, built, its vectors kept, and committed. Between two calls
-- of the catalog other processes may write: `others n` is what they did before the call that starts with
-- statement n. The builder only reads the catalog.
pub mod Steps
pub mod Drive
pub mod Holds
pub mod Safety
pub mod Retry
pub mod Bounded
use grepai.Base.{
  ℕ, Bool, true, false, ◌&&◌, ◌||◌, not, List, [], ◌∷◌, ◌++◌, Option, none, some, if◌then◌else◌,
  ltb, leb, ◌==◌,
}
use grepai.Base.Text.{Text, codes, same}
use grepai.Core.Identity.{ArtifactKey}
use grepai.Core.Job.{Job, Artifact, SymbolDef, SymbolEdge}
use grepai.Catalog.Tables.{Database}
use grepai.Catalog.Tx.{DbError}

pub data EndpointResult : Type 0 where
  endpoint_not_contacted endpoint_succeeded endpoint_failed : EndpointResult

pub data BuildResult : Type 0 where
  built : Artifact → BuildResult
  dimension_mismatch build_failed : BuildResult

pub record BuildOutcome : Type 0 where
  pub result : BuildResult
  pub endpoint : EndpointResult
  pub clock : ℕ

pub data CrashPoint : Type 0 where
  after_claim after_build after_chunks : CrashPoint

pub data Cause : Type 0 where
  catalog_error : DbError → Cause
  load_error mismatch_error build_error : Cause
  crash_error : CrashPoint → Cause

pub record Symbols : Type 0 where
  pub definitions : List SymbolDef
  pub edges : List SymbolEdge

-- `describe` is the text of an error; `extract` is none where no extractor is set.
pub record Worker : Type 0 where
  pub build : ArtifactKey → Text → ℕ → Database → BuildOutcome
  pub load : Text → Text → Text → Text → Option Text
  pub crash : CrashPoint → Bool
  pub max_attempts : ℕ
  pub extract : Option (Text → Text → Option Symbols)
  pub describe : Cause → Text

-- `unclassified` is the zero value.
pub data WorkerOutcome : Type 0 where
  unclassified committed superseded transient permanent : WorkerOutcome

pub record Processed : Type 0 where
  pub outcome : WorkerOutcome
  pub endpoint : EndpointResult
  pub cause : Option Cause
  pub tables : Database
  pub clock : ℕ

unfoldable pub is_superseded : Option (ℕ × Text) → Job → Bool
is_superseded none job = true
is_superseded (some (gen, hash)) job =
    ltb job.generation gen || ((gen == job.generation) && not (same hash job.desired_hash))

-- A step goes on with a value, or returns from ProcessClaimed.
pub data Run (A : Type 0) : Type 0 where
  next : A → ℕ → Database → Run A
  done : Processed → Run A

abbrev pub Step : Type 0 → Type 0
Step A = ℕ → Database → Run A

abbrev pub continue : {A B : Type 0} → Run A → (A → Step B) → Run B
continue (next a n db) f = f a n db
continue (done p) f = done p

infixl 5 ◌>>=◌ ◌>>◌
abbrev pub ◌>>=◌ : {A B : Type 0} → Step A → (A → Step B) → Step B
◌>>=◌ m f n db = continue (m n db) f

abbrev pub ◌>>◌ : {B : Type 0} → Step (Unit {0}) → Step B → Step B
m >> k = m >>= λ _. k

abbrev pub pure : {A : Type 0} → A → Step A
pure a n db = next a n db

abbrev pub return : {A : Type 0} → WorkerOutcome → EndpointResult → Option Cause → Step A
return outcome endpoint cause n db =
    done (record { outcome = outcome; endpoint = endpoint; cause = cause; tables = db; clock = n })
