-- ===== src/Catalog/Commit/Frame.antt =====
-- Storing an artifact, its chunks and its symbols leaves the queue, the views, the worktrees and
-- the generations alone (internal/enginev2/catalog/sqlite/views.go and artifacts.go).
use grepai.Base.{ℕ, Bool, true, false, List, [], ◌∷◌, Option, some, ◌≡◌, refl, subst, ◌∙◌, arith}
use grepai.Base.Text.{Text}
use grepai.Core.Job.{Artifact, ArtifactChunk, SymbolDef, SymbolEdge}
use grepai.Catalog.Tables.{Database}
use grepai.Catalog.Tx.{Faults, Tx, ran, pure, exec, ◌>>◌}
use grepai.Catalog.Tx.Laws.{exec_ran, then_ran}
use grepai.Catalog.Artifacts.{
  put_artifact_stmt, put_artifact_tx, put_link_stmt, put_artifact_chunks_tx,
}
use grepai.Catalog.Symbols.{
  clear_symbols_stmt, clear_edges_stmt, put_symbol_stmt, put_edge_stmt, put_all, stamp_stmt,
  replace_symbols_tx, put_artifact_symbols_tx,
}

pub record Frame (db db' : Database) : Type 0 where
  pub jobs : db'.index_jobs ≡ db.index_jobs
  pub views : db'.worktree_files ≡ db.worktree_files
  pub trees : db'.worktrees ≡ db.worktrees
  pub gens : db'.index_generations ≡ db.index_generations

Frame-refl : (db : Database) → Frame db db
Frame-refl db = record { jobs = refl; views = refl; trees = refl; gens = refl }

pub Frame-trans : {a b c : Database} → Frame a b → Frame b c → Frame a c
Frame-trans f g = record {
  jobs = g.jobs ∙ f.jobs;
  views = g.views ∙ f.views;
  trees = g.trees ∙ f.trees;
  gens = g.gens ∙ f.gens;
}

abbrev FrameStmt : (Database → Option Database) → Type 0
FrameStmt stmt = (db db' : Database) → stmt db ≡ some db' → Frame db db'

abbrev pub FrameTx : Tx (Unit {0}) → Type 0
FrameTx t =
    (fault : Faults) (n : ℕ) (db db' : Database) (u : Unit {0}) (m : ℕ)
    → t fault n db ≡ ran u db' m
    → Frame db db'

pure-FrameTx : FrameTx (pure tt)
pure-FrameTx fault n db db' u m h =
    let e : db ≡ db' = ground arith in subst (Frame db) e (Frame-refl db)

exec-FrameTx : (stmt : Database → Option Database) → FrameStmt stmt → FrameTx (exec stmt)
exec-FrameTx stmt f fault n db db' u m h = f db db' (exec_ran stmt fault n db db' u m h)

then-FrameTx : (t k : Tx (Unit {0})) → FrameTx t → FrameTx k → FrameTx (t >> k)
then-FrameTx t k f g fault n db db' u m h =
    let (a, d, i, e, rest) = then_ran t k fault n db h in
    Frame-trans (f fault n db d a i e) (g fault i d db' u m rest)

pub put_artifact-FrameTx : (a : Artifact) → FrameTx (put_artifact_tx a)
unfolding put_artifact_tx
put_artifact-FrameTx a = exec-FrameTx (put_artifact_stmt a) stored
  where
    stored : FrameStmt (put_artifact_stmt a)
    stored db db' h = record {
      jobs = ground arith;
      views = ground arith;
      trees = ground arith;
      gens = ground arith;
    }

put_link-FrameStmt : (id : Text) (ch : ArtifactChunk) → FrameStmt (put_link_stmt id ch)
unfolding put_link_stmt
put_link-FrameStmt id ch db db' h = record {
  jobs = ground arith;
  views = ground arith;
  trees = ground arith;
  gens = ground arith;
}

pub put_artifact_chunks-FrameTx :
    (id : Text) (chs : List ArtifactChunk) → FrameTx (put_artifact_chunks_tx id chs)
unfolding put_artifact_chunks_tx
put_artifact_chunks-FrameTx id [] = pure-FrameTx
put_artifact_chunks-FrameTx id (ch ∷ chs) =
    then-FrameTx (exec (put_link_stmt id ch)) (put_artifact_chunks_tx id chs)
      (exec-FrameTx (put_link_stmt id ch) (put_link-FrameStmt id ch))
      (put_artifact_chunks-FrameTx id chs)

put_all-FrameTx :
    {A : Type 0} (stmt : A → Database → Option Database) (xs : List A)
    → ((x : A) → FrameStmt (stmt x))
    → FrameTx (put_all stmt xs)
unfolding put_all
put_all-FrameTx stmt [] f = pure-FrameTx
put_all-FrameTx stmt (x ∷ xs) f =
    then-FrameTx (exec (stmt x)) (put_all stmt xs) (exec-FrameTx (stmt x) (f x))
      (put_all-FrameTx stmt xs f)

put_symbol-FrameStmt : (id : Text) (d : SymbolDef) → FrameStmt (put_symbol_stmt id d)
unfolding put_symbol_stmt
put_symbol-FrameStmt id d db db' h = record {
  jobs = ground arith;
  views = ground arith;
  trees = ground arith;
  gens = ground arith;
}

put_edge-FrameStmt : (id : Text) (e : SymbolEdge) → FrameStmt (put_edge_stmt id e)
unfolding put_edge_stmt
put_edge-FrameStmt id e db db' h = record {
  jobs = ground arith;
  views = ground arith;
  trees = ground arith;
  gens = ground arith;
}

clear_symbols-FrameStmt : (id : Text) → FrameStmt (clear_symbols_stmt id)
unfolding clear_symbols_stmt
clear_symbols-FrameStmt id db db' h = record {
  jobs = ground arith;
  views = ground arith;
  trees = ground arith;
  gens = ground arith;
}

clear_edges-FrameStmt : (id : Text) → FrameStmt (clear_edges_stmt id)
unfolding clear_edges_stmt
clear_edges-FrameStmt id db db' h = record {
  jobs = ground arith;
  views = ground arith;
  trees = ground arith;
  gens = ground arith;
}

stamp-FrameStmt : (id : Text) → FrameStmt (stamp_stmt id)
unfolding stamp_stmt
stamp-FrameStmt id db db' h = record {
  jobs = ground arith;
  views = ground arith;
  trees = ground arith;
  gens = ground arith;
}

replace_symbols-FrameTx :
    (id : Text) (defs : List SymbolDef) (edges : List SymbolEdge)
    → FrameTx (replace_symbols_tx id defs edges)
unfolding replace_symbols_tx
replace_symbols-FrameTx id defs edges =
    let stamp = exec-FrameTx (stamp_stmt id) (stamp-FrameStmt id) in
    let put_edges = put_all-FrameTx (put_edge_stmt id) edges (put_edge-FrameStmt id) in
    let put_defs = put_all-FrameTx (put_symbol_stmt id) defs (put_symbol-FrameStmt id) in
    then-FrameTx (exec (clear_symbols_stmt id)) _
      (exec-FrameTx (clear_symbols_stmt id) (clear_symbols-FrameStmt id))
      (then-FrameTx (exec (clear_edges_stmt id)) _
        (exec-FrameTx (clear_edges_stmt id) (clear_edges-FrameStmt id))
        (then-FrameTx (put_all (put_symbol_stmt id) defs) _ put_defs
          (then-FrameTx (put_all (put_edge_stmt id) edges) (exec (stamp_stmt id)) put_edges stamp)))

pub put_artifact_symbols-FrameTx :
    (id : Text) (defs : List SymbolDef) (edges : List SymbolEdge) (extracted : Bool)
    → FrameTx (put_artifact_symbols_tx id defs edges extracted)
unfolding put_artifact_symbols_tx
put_artifact_symbols-FrameTx id defs edges true = replace_symbols-FrameTx id defs edges
put_artifact_symbols-FrameTx id defs edges false = pure-FrameTx
