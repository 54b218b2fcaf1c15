-- ===== src/Catalog/Symbols.antt =====
-- putArtifactSymbolsTx and PutArtifactSymbols of internal/enginev2/catalog/sqlite/views.go.
use grepai.Base.{
  ℕ, Bool, true, false, ◌&&◌, List, [], ◌∷◌, ◌++◌, Option, none, some, if◌then◌else◌, ◌==◌,
}
use grepai.Base.Text.{Text, same}
use grepai.Core.Job.{SymbolDef, SymbolEdge}
use grepai.Catalog.Tables.{
  Database, SymbolRow, SymbolEdgeRow, delete_where, update_where, count_where,
}
use grepai.Catalog.Artifacts.{has_artifact, is_artifact}
use grepai.Catalog.Tx.{Tx, Op, ◌>>◌, pure, exec, with_write_tx}

abbrev pub symbols_version_current : ℕ
symbols_version_current = 2

unfoldable pub clear_symbols_stmt : Text → Database → Option Database
unfolding delete_where
clear_symbols_stmt id db =
    some (record db { symbols = delete_where (λ s. same s.artifact_id id) db.symbols })

unfoldable pub clear_edges_stmt : Text → Database → Option Database
unfolding delete_where
clear_edges_stmt id db =
    some (record db { symbol_edges = delete_where (λ e. same e.artifact_id id) db.symbol_edges })

-- PRIMARY KEY (artifact_id, name, kind, line)
unfoldable pub symbol_at : Text → SymbolDef → SymbolRow → Bool
symbol_at id d s =
    same s.artifact_id id && (same s.name d.name && (same s.kind d.kind && (s.line == d.line)))

unfoldable pub put_symbol_stmt : Text → SymbolDef → Database → Option Database
unfolding count_where symbol_at has_artifact
put_symbol_stmt id d db =
    if count_where (symbol_at id d) db.symbols == 0
    then (if has_artifact id db
        then some (record db {
          symbols =
              db.symbols
              ++ (record {
                artifact_id = id;
                name = d.name;
                kind = d.kind;
                line = d.line;
                end_line = d.end_line;
                signature = d.signature;
                receiver = d.receiver;
                package_name = d.package_name;
                exported = d.exported;
                language = d.language;
                docstring = d.docstring;
              }
                  ∷ []);
        })
        else none)
    else some db

-- PRIMARY KEY (artifact_id, caller, callee, line)
unfoldable pub edge_at : Text → SymbolEdge → SymbolEdgeRow → Bool
edge_at id e s =
    same s.artifact_id id
    && (same s.caller e.caller && (same s.callee e.callee && (s.line == e.line)))

unfoldable pub put_edge_stmt : Text → SymbolEdge → Database → Option Database
unfolding count_where edge_at has_artifact
put_edge_stmt id e db =
    if count_where (edge_at id e) db.symbol_edges == 0
    then (if has_artifact id db
        then some (record db {
          symbol_edges =
              db.symbol_edges
              ++ (record {
                artifact_id = id;
                caller = e.caller;
                callee = e.callee;
                line = e.line;
                context = e.context;
              }
                  ∷ []);
        })
        else none)
    else some db

unfoldable pub put_all : {A : Type 0} → (A → Database → Option Database) → List A → Tx (Unit {0})
unfolding exec
put_all stmt [] = pure tt
put_all stmt (x ∷ xs) = let rest = put_all stmt xs in do exec (stmt x); rest

unfoldable pub stamp_stmt : Text → Database → Option Database
unfolding update_where is_artifact
stamp_stmt id db = some (record db {
  file_artifacts =
      update_where (is_artifact id) (λ r. record r { symbols_version = symbols_version_current })
        db.file_artifacts;
})

unfoldable pub replace_symbols_tx : Text → List SymbolDef → List SymbolEdge → Tx (Unit {0})
unfolding clear_symbols_stmt clear_edges_stmt put_symbol_stmt put_edge_stmt put_all stamp_stmt exec
replace_symbols_tx id defs edges = do
  exec (clear_symbols_stmt id)
  exec (clear_edges_stmt id)
  put_all (put_symbol_stmt id) defs
  put_all (put_edge_stmt id) edges
  exec (stamp_stmt id)

-- Without an extraction nothing is written, and the marker stays as it is.
unfoldable pub put_artifact_symbols_tx :
    Text → List SymbolDef → List SymbolEdge → Bool → Tx (Unit {0})
unfolding replace_symbols_tx
put_artifact_symbols_tx id defs edges true = replace_symbols_tx id defs edges
put_artifact_symbols_tx id defs edges false = pure tt

unfoldable pub put_artifact_symbols : Text → List SymbolDef → List SymbolEdge → Op (Unit {0})
unfolding put_artifact_symbols_tx with_write_tx
put_artifact_symbols id defs edges = with_write_tx (put_artifact_symbols_tx id defs edges true)
