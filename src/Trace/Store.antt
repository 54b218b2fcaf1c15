-- ===== src/Trace/Store.antt =====
-- trace/store.go: the index in memory of a GOBSymbolStore. A map of lists is a function, since an absent key and
-- an empty list are read alike. The lock is held for the whole of each operation.
pub mod Files
pub mod Gathered
pub mod Refines
use grepai.Base.{
  ℕ, Bool, true, false, ◌&&◌, ◌||◌, not, List, [], ◌∷◌, ◌++◌, Option, none, some, if◌then◌else◌,
  any, select, ◌==◌,
}
use grepai.Base.Text.{Text, codes, same, set_at}

pub record Symbol : Type 0 where
  pub name : Text
  pub kind : Text
  pub file : Text
  pub line : ℕ
  pub end_line : ℕ
  pub signature : Text
  pub receiver : Text
  pub package_name : Text
  pub exported : Bool
  pub language : Text
  pub docstring : Text
  pub feature_path : Text

pub record Reference : Type 0 where
  pub symbol_name : Text
  pub kind : Text
  pub file : Text
  pub line : ℕ
  pub column : ℕ
  pub context : Text
  pub caller_name : Text
  pub caller_file : Text
  pub caller_line : ℕ

pub record CallEdge : Type 0 where
  pub caller : Text
  pub callee : Text
  pub file : Text
  pub line : ℕ
  pub call_type : Text

pub record SymbolStore : Type 0 where
  pub symbols : Text → List Symbol
  pub references : Text → List Reference
  pub call_graph : List CallEdge
  pub file_index : Text → Bool
  pub file_content_hashes : Text → Option Text

unfoldable pub new_symbol_store : SymbolStore
new_symbol_store = record {
  symbols = λ name. [];
  references = λ name. [];
  call_graph = [];
  file_index = λ f. false;
  file_content_hashes = λ f. none;
}

unfoldable pub delete_file : Text → SymbolStore → SymbolStore
delete_file f s = record {
  symbols = λ name. select (λ (x : Symbol). not (same x.file f)) (s.symbols name);
  references = λ name. select (λ (x : Reference). not (same x.file f)) (s.references name);
  call_graph = select (λ (x : CallEdge). not (same x.file f)) s.call_graph;
  file_index = set_at f false s.file_index;
  file_content_hashes = set_at f none s.file_content_hashes;
}

unfoldable pub add_symbols : List Symbol → (Text → List Symbol) → Text → List Symbol
add_symbols [] m = m
add_symbols (x ∷ xs) m = add_symbols xs (set_at x.name (m x.name ++ (x ∷ [])) m)

unfoldable pub add_references : List Reference → (Text → List Reference) → Text → List Reference
add_references [] m = m
add_references (x ∷ xs) m = add_references xs (set_at x.symbol_name (m x.symbol_name ++ (x ∷ [])) m)

-- The test for a call that has a caller.
abbrev pub has_caller : Reference → Bool
has_caller x = not (same x.caller_name []) && not (same x.caller_name (codes "<top-level>"))

abbrev pub edge_of : Reference → CallEdge
edge_of x = record {
  caller = x.caller_name;
  callee = x.symbol_name;
  file = x.file;
  line = x.line;
  call_type = codes "direct";
}

unfoldable pub add_call_edges : List Reference → List CallEdge → List CallEdge
add_call_edges [] es = es
add_call_edges (x ∷ xs) es = add_call_edges xs (if has_caller x then es ++ (edge_of x ∷ []) else es)

unfoldable pub save_file_with_content_hash :
    Text → Text → List Symbol → List Reference → SymbolStore → SymbolStore
unfolding delete_file add_symbols add_references add_call_edges
save_file_with_content_hash f hash symbols refs s =
    let kept = delete_file f s in
    record {
      symbols = add_symbols symbols kept.symbols;
      references = add_references refs kept.references;
      call_graph = add_call_edges refs kept.call_graph;
      file_index = set_at f true kept.file_index;
      file_content_hashes =
          set_at f (if same hash [] then none else some hash) kept.file_content_hashes;
    }

unfoldable pub save_file : Text → List Symbol → List Reference → SymbolStore → SymbolStore
unfolding save_file_with_content_hash
save_file f symbols refs s = save_file_with_content_hash f [] symbols refs s

abbrev pub lookup_symbol : Text → SymbolStore → List Symbol
lookup_symbol name s = s.symbols name

abbrev pub call_kind : Text
call_kind = codes "call"

-- A reference without a kind is a call.
unfoldable pub filter_by_reference_kinds : List Text → List Reference → List Reference
filter_by_reference_kinds kinds =
    select
      (λ (x : Reference). any (same x.kind) kinds || (same x.kind [] && any (same call_kind) kinds))

abbrev pub is_call_reference : Reference → Bool
is_call_reference x = same x.kind [] || same x.kind call_kind

unfoldable pub lookup_callers : Text → SymbolStore → List Reference
unfolding filter_by_reference_kinds
lookup_callers name s = filter_by_reference_kinds (call_kind ∷ [] ∷ []) (s.references name)

unfoldable pub lookup_readers : Text → SymbolStore → List Reference
unfolding filter_by_reference_kinds
lookup_readers name s = filter_by_reference_kinds (codes "read" ∷ []) (s.references name)

unfoldable pub lookup_writers : Text → SymbolStore → List Reference
unfolding filter_by_reference_kinds
lookup_writers name s = filter_by_reference_kinds (codes "write" ∷ []) (s.references name)

-- The key of a call site, "file:line", of a file and a line.
abbrev pub same_site : Text × ℕ → Text × ℕ → Bool
same_site a b = same a.0 b.0 && (a.1 == b.1)

-- The first reference that is the call of an edge.
unfoldable pub call_at : Text → CallEdge → List Reference → Option Reference
call_at name e [] = none
call_at name e (x ∷ xs) =
    let rest = call_at name e xs in
    if is_call_reference x
      && (same x.caller_name name && (same x.file e.file && (x.line == e.line)))
    then some x
    else rest

unfoldable pub minimal : Text → CallEdge → Reference
minimal name e = record {
  symbol_name = e.callee;
  kind = [];
  file = e.file;
  line = e.line;
  column = 0;
  context = [];
  caller_name = name;
  caller_file = [];
  caller_line = 0;
}

-- What an edge adds. The code makes a minimal reference only while it has no callee at all.
abbrev pub with_callee : Text → CallEdge → Option Reference → List Reference → List Reference
with_callee name e (some x) found = found ++ (x ∷ [])
with_callee name e none [] = minimal name e ∷ []
with_callee name e none (x ∷ found) = x ∷ found

unfoldable pub callees_from :
    Text
    → (Text → List Reference)
    → List CallEdge
    → List (Text × ℕ)
    → List Reference
    → List Reference
unfolding call_at minimal
callees_from name refs [] seen found = found
callees_from name refs (e ∷ es) seen found = elim (same e.caller name) [
  | false ↦ callees_from name refs es seen found
  | true ↦ elim (any (same_site (e.file, e.line)) seen) [
    | true ↦ callees_from name refs es seen found
    | false ↦
        callees_from name refs es ((e.file, e.line) ∷ seen)
          (with_callee name e (call_at name e (refs e.callee)) found)
  ]
]

unfoldable pub lookup_callees : Text → SymbolStore → List Reference
unfolding callees_from
lookup_callees name s = callees_from name s.references s.call_graph [] []

abbrev pub get_call_edges : SymbolStore → List CallEdge
get_call_edges s = s.call_graph

abbrev pub is_file_indexed : Text → SymbolStore → Bool
is_file_indexed f s = s.file_index f

abbrev pub get_file_content_hash : Text → SymbolStore → Option Text
get_file_content_hash f s = s.file_content_hashes f
