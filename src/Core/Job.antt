-- ===== src/Core/Job.antt =====
-- internal/enginev2/core/job.go and the records of internal/enginev2/core/artifact.go and chunk.go.
-- Generation numbers count up from 1 and are natural numbers; a float32 is its 32-bit pattern.
use grepai.Base.{ℕ, Bool, List}
use grepai.Base.Text.{Text}
use grepai.Core.Identity.{ArtifactKey}

pub data Operation : Type 0 where
  op_upsert op_delete : Operation

-- Lower values come first.
abbrev pub Priority : Type 0
Priority = ℕ

abbrev pub priority_interactive_query : Priority
priority_interactive_query = 1

abbrev pub priority_live_change : Priority
priority_live_change = 2

abbrev pub priority_reconcile : Priority
priority_reconcile = 3

abbrev pub priority_bootstrap : Priority
priority_bootstrap = 4

pub record Job : Type 0 where
  pub worktree_id : Text
  pub path : Text
  pub desired_hash : Text
  pub generation : ℕ
  pub operation : Operation
  pub priority : Priority
  pub attempts : ℕ

pub record ArtifactChunk : Type 0 where
  pub ordinal : ℕ
  pub chunk_id : Text
  pub vector : List ℕ
  pub content : Text
  pub start_line : ℕ
  pub end_line : ℕ

pub record Artifact : Type 0 where
  pub id : Text
  pub key : ArtifactKey
  pub dimensions : ℕ
  pub chunks : List ArtifactChunk

pub record ViewEntry : Type 0 where
  pub worktree_id : Text
  pub path : Text
  pub artifact_id : Text
  pub generation : ℕ

pub record SymbolDef : Type 0 where
  pub name : Text
  pub kind : Text
  pub line : ℕ
  pub end_line : ℕ
  pub signature : Text
  pub receiver : Text
  pub package_name : Text
  pub exported : Bool
  pub language : Text
  pub docstring : Text

pub record SymbolEdge : Type 0 where
  pub caller : Text
  pub callee : Text
  pub line : ℕ
  pub context : Text

pub record CommitRequest : Type 0 where
  pub view : ViewEntry
  pub artifact : Artifact
  pub chunks : List ArtifactChunk
  pub symbols : List SymbolDef
  pub symbol_edges : List SymbolEdge
  pub symbols_extracted : Bool
