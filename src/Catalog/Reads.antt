-- ===== src/Catalog/Reads.antt =====
-- The listings and counts of the catalog: queue.go, jobs.go, query.go, reader.go and symbols.go of
-- internal/enginev2/catalog/sqlite, and the records of internal/enginev2/core/artifact.go.
pub mod Backlog
use grepai.Base.{
  ℕ, suc, ◌+◌, Bool, true, false, ◌&&◌, ◌||◌, not, List, [], ◌∷◌, ◌++◌, Option, none, some, map,
  select, if◌then◌else◌, ltb, leb, ◌==◌, length, any,
}
use grepai.Base.Text.{Text, same, text_lt}
use grepai.Core.Identity.{ArtifactKey, artifact_id}
use grepai.Core.Job.{Priority}
use grepai.Catalog.Tables.{
  Database, JobRow, WorktreeRow, ViewRow, ArtifactRow, ArtifactChunkRow, SymbolRow, SymbolEdgeRow,
  count_where, find_where,
}
use grepai.Catalog.Tx.{Op, Outcome, Result, ok, err, read}
use grepai.Catalog.Jobs.{repository_of}
use grepai.Catalog.Artifacts.{is_artifact}
use grepai.Catalog.Symbols.{symbols_version_current}

-- ORDER BY: rows that the order does not tell apart keep the order of the table.
module _ {A : Type 0} (before : A → A → Bool) where
  unfoldable pub insert_by : A → List A → List A
  insert_by a [] = a ∷ []
  insert_by a (b ∷ bs) = if before b a then b ∷ insert_by a bs else a ∷ b ∷ bs

  unfoldable pub sort_by : List A → List A
  unfolding insert_by
  sort_by [] = []
  sort_by (a ∷ rest) = insert_by a (sort_by rest)

-- DISTINCT, of a sorted list.
unfoldable pub distinct : List Text → List Text
distinct [] = []
distinct (t ∷ ts) = let rest = distinct ts in if any (same t) rest then rest else t ∷ rest

abbrev add_repository : Option Text → List Text → List Text
add_repository none rs = rs
add_repository (some r) rs = r ∷ rs

unfoldable pub pending_repositories : List WorktreeRow → List JobRow → List Text
unfolding repository_of
pending_repositories ws [] = []
pending_repositories ws (r ∷ rs) =
    let rest = pending_repositories ws rs in
    if r.claimed then rest else add_repository (repository_of ws r.worktree_id) rest

unfoldable pub repositories_with_pending_jobs : Op (List Text)
unfolding read sort_by distinct pending_repositories text_lt
repositories_with_pending_jobs =
    read (λ db. ok (distinct (sort_by text_lt (pending_repositories db.worktrees db.index_jobs))))

-- GROUP BY priority
unfoldable pub bump : Priority → List (Priority × ℕ) → List (Priority × ℕ)
bump p [] = (p, 1) ∷ []
bump p ((q, n) ∷ rest) = if p == q then (q, n + 1) ∷ rest else (q, n) ∷ bump p rest

unfoldable pub depths : List JobRow → List (Priority × ℕ)
unfolding bump
depths [] = []
depths (r ∷ rs) = if r.claimed then depths rs else bump r.priority (depths rs)

unfoldable pub queue_depth_by_priority : Op (List (Priority × ℕ))
unfolding read depths
queue_depth_by_priority = read (λ db. ok (depths db.index_jobs))

unfoldable pub dead_letter_count : Op ℕ
unfolding read
dead_letter_count = read (λ db. ok (length db.dead_letter_jobs))

unfoldable pub artifact_chunk_ids : Text → Op (List Text)
unfolding read sort_by
artifact_chunk_ids id = read (λ db. ok (
    map (λ (r : ArtifactChunkRow). r.chunk_id)
      (sort_by (λ a b. ltb a.ordinal b.ordinal)
        (select (λ r. same r.artifact_id id) db.artifact_chunks))))

unfoldable pub worktree_pending_count : Text → Op ℕ
unfolding read count_where
worktree_pending_count wt =
    read (λ db. ok (count_where (λ (r : JobRow). same r.worktree_id wt) db.index_jobs))

unfoldable pub worktree_view_paths : Text → Op (List Text)
unfolding read sort_by text_lt
worktree_view_paths wt = read (λ db. ok (
    sort_by text_lt (
      map (λ (v : ViewRow). v.relative_path)
        (select (λ v. same v.worktree_id wt) db.worktree_files))))

-- WHERE worktree_id=? AND relative_path IN (...)
unfoldable pub waits_at : Text → List Text → JobRow → Bool
waits_at wt paths r = same r.worktree_id wt && any (same r.relative_path) paths

unfoldable pub worktree_paths_pending : Text → List Text → Op Bool
unfolding read count_where waits_at
worktree_paths_pending wt [] fault n db = record { result = ok false; tables = db; clock = n }
worktree_paths_pending wt (p ∷ ps) fault n db =
    read (λ d. ok (ltb 0 (count_where (waits_at wt (p ∷ ps)) d.index_jobs))) fault n db

-- FROM worktree_files wf JOIN file_artifacts fa ON fa.artifact_id = wf.artifact_id
abbrev with_artifact : ViewRow → Option ArtifactRow → List (ViewRow × ArtifactRow)
with_artifact v none = []
with_artifact v (some a) = (v, a) ∷ []

unfoldable pub joined : Text → List ArtifactRow → List ViewRow → List (ViewRow × ArtifactRow)
unfolding find_where is_artifact
joined wt artifacts [] = []
joined wt artifacts (v ∷ vs) =
    let rest = joined wt artifacts vs in
    if same v.worktree_id wt
    then with_artifact v (find_where (is_artifact v.artifact_id) artifacts) ++ rest
    else rest

unfoldable pub worktree_indexed_hashes : Text → Op (List (Text × Text))
unfolding read joined
worktree_indexed_hashes wt = read (λ db. ok (
    map (λ (r : ViewRow × ArtifactRow). (r.0.relative_path, r.1.source_hash))
      (joined wt db.file_artifacts db.worktree_files)))

unfoldable pub worktrees : Op (List Text)
unfolding read sort_by text_lt
worktrees =
    read (λ db. ok (sort_by text_lt (map (λ (w : WorktreeRow). w.worktree_id) db.worktrees)))

pub record MissingSymbolArtifact : Type 0 where
  pub path : Text
  pub artifact_id : Text
  pub source_hash : Text

abbrev pub is_missing : ViewRow × ArtifactRow → Bool
is_missing (v, a) = ltb a.symbols_version symbols_version_current

abbrev pub missing_of : ViewRow × ArtifactRow → MissingSymbolArtifact
missing_of (v, a) = record {
  path = v.relative_path;
  artifact_id = a.artifact_id;
  source_hash = a.source_hash;
}

abbrev pub path_before : ViewRow × ArtifactRow → ViewRow × ArtifactRow → Bool
path_before (v, a) (w, b) = text_lt v.relative_path w.relative_path

unfoldable pub artifacts_missing_symbols : Text → Op (List MissingSymbolArtifact)
unfolding read sort_by joined text_lt
artifacts_missing_symbols wt = read (λ db. ok (
    map missing_of
      (sort_by path_before (select is_missing (joined wt db.file_artifacts db.worktree_files)))))

unfoldable pub count_artifacts_missing_symbols : Text → Op ℕ
unfolding read joined count_where
count_artifacts_missing_symbols wt =
    read (λ db. ok (count_where is_missing (joined wt db.file_artifacts db.worktree_files)))

abbrev is_current : Option ArtifactRow → Bool
is_current none = false
is_current (some a) = leb symbols_version_current a.symbols_version

module _ (sha256_hex : Text → Text) where
  unfoldable pub artifact_symbols_current : ArtifactKey → Op Bool
  unfolding read find_where is_artifact artifact_id
  artifact_symbols_current key = read (λ db.
      ok (is_current (find_where (is_artifact (artifact_id sha256_hex key)) db.file_artifacts)))

-- Symbols and call edges as a worktree's view shows them.
pub record SymbolAt : Type 0 where
  pub path : Text
  pub name : Text
  pub kind : Text
  pub line : ℕ
  pub end_line : ℕ
  pub signature : Text
  pub receiver : Text
  pub package_name : Text
  pub exported : Bool
  pub language : Text
  pub docstring : Text

pub record EdgeAt : Type 0 where
  pub caller : Text
  pub callee : Text
  pub path : Text
  pub line : ℕ
  pub context : Text

abbrev symbol_in : ViewRow → SymbolRow → SymbolAt
symbol_in v s = record {
  path = v.relative_path;
  name = s.name;
  kind = s.kind;
  line = s.line;
  end_line = s.end_line;
  signature = s.signature;
  receiver = s.receiver;
  package_name = s.package_name;
  exported = s.exported;
  language = s.language;
  docstring = s.docstring;
}

abbrev edge_in : ViewRow → SymbolEdgeRow → EdgeAt
edge_in v e = record {
  caller = e.caller;
  callee = e.callee;
  path = v.relative_path;
  line = e.line;
  context = e.context;
}

unfoldable pub definitions_in : Text → Text → List SymbolRow → List ViewRow → List SymbolAt
definitions_in wt name symbols [] = []
definitions_in wt name symbols (v ∷ vs) =
    let rest = definitions_in wt name symbols vs in
    if same v.worktree_id wt
    then map (symbol_in v)
        (select (λ s. same s.artifact_id v.artifact_id && same s.name name) symbols)
      ++ rest
    else rest

-- ORDER BY wf.relative_path, line
abbrev place_before : Text → ℕ → Text → ℕ → Bool
place_before p k q l = text_lt p q || (same p q && ltb k l)

unfoldable pub symbol_definitions : Text → Text → Op (List SymbolAt)
unfolding read sort_by definitions_in text_lt same
symbol_definitions wt name = read (λ db. ok (
    sort_by (λ s t. place_before s.path s.line t.path t.line)
      (definitions_in wt name db.symbols db.worktree_files)))

abbrev touched : Bool → SymbolEdgeRow → Text
touched callers_of e = if callers_of then e.callee else e.caller

unfoldable pub edges_in : Text → Text → Bool → List SymbolEdgeRow → List ViewRow → List EdgeAt
edges_in wt name callers_of edges [] = []
edges_in wt name callers_of edges (v ∷ vs) =
    let rest = edges_in wt name callers_of edges vs in
    if same v.worktree_id wt
    then map (edge_in v)
        (select (λ e. same e.artifact_id v.artifact_id && same (touched callers_of e) name) edges)
      ++ rest
    else rest

-- The call edges: those into `name` for `callers_of`, and those out of it otherwise.
unfoldable pub call_edges : Text → Text → Bool → Op (List EdgeAt)
unfolding read sort_by edges_in text_lt same
call_edges wt name callers_of = read (λ db. ok (
    sort_by (λ e f. place_before e.path e.line f.path f.line)
      (edges_in wt name callers_of db.symbol_edges db.worktree_files)))
