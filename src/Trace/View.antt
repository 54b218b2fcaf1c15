-- ===== src/Trace/View.antt =====
-- internal/enginev2/traceview/traceview.go: how the answer of the daemon becomes a TraceResult. `Related` is a
-- function, since a missing name and no definitions are read alike; the nodes of a graph are an association list.
pub mod Target
use grepai.Base.{
  ℕ, suc, ◌+◌, Bool, true, false, ◌&&◌, ◌||◌, not, List, [], ◌∷◌, ◌++◌, Option, none, some, map,
  if◌then◌else◌, ltb, ◌==◌,
}
use grepai.Base.Text.{Text, codes, same, text_lt}
use grepai.Catalog.Reads.{SymbolAt, EdgeAt, sort_by}
use grepai.Trace.Store.{Symbol, Reference, CallEdge}

-- The fields of a TraceResponse that are used here.
pub record TraceResponse : Type 0 where
  pub definitions : List SymbolAt
  pub edges : List EdgeAt
  pub related : Text → List SymbolAt
  pub served : Bool
  pub protocol : ℕ

abbrev pub trace_protocol_current : ℕ
trace_protocol_current = 2

-- Whether the error is nil.
unfoldable pub check_protocol : TraceResponse → Bool
check_protocol r = r.served && not (ltb r.protocol trace_protocol_current)

pub record CallSite : Type 0 where
  pub file : Text
  pub line : ℕ
  pub context : Text

pub record CallInfo : Type 0 where
  pub symbol : Symbol
  pub call_site : CallSite

pub record CallGraph : Type 0 where
  pub root : Text
  pub nodes : List (Text × Symbol)
  pub edges : List CallEdge
  pub depth : ℕ

pub record TraceResult : Type 0 where
  pub query : Text
  pub mode : Text
  pub symbol : Option Symbol
  pub callers : List CallInfo
  pub callees : List CallInfo
  pub graph : Option CallGraph

abbrev pub symbol_to_v1 : SymbolAt → Symbol
symbol_to_v1 d = record {
  name = d.name;
  kind = d.kind;
  file = d.path;
  line = d.line;
  end_line = d.end_line;
  signature = d.signature;
  receiver = d.receiver;
  package_name = d.package_name;
  exported = d.exported;
  language = d.language;
  docstring = d.docstring;
  feature_path = [];
}

unfoldable pub symbols_to_v1 : List SymbolAt → List Symbol
symbols_to_v1 = map symbol_to_v1

-- How often the references stand in the symbol's own file.
unfoldable pub own_file_score : Symbol → List Reference → ℕ
own_file_score s [] = 0
own_file_score s (r ∷ rs) =
    (if same r.file s.file || same r.caller_file s.file then 1 else 0) + own_file_score s rs

-- The first symbol of the highest score, and the score; a score of -1 is beaten by every symbol.
unfoldable pub best_of : List Reference → List Symbol → Symbol → ℕ → Symbol × ℕ
unfolding own_file_score
best_of refs [] best score = (best, score)
best_of refs (s ∷ ss) best score =
    if ltb score (own_file_score s refs)
    then best_of refs ss s (own_file_score s refs)
    else best_of refs ss best score

-- The order of the fallback.
unfoldable pub comes_before : Symbol → Symbol → Bool
unfolding text_lt
comes_before a b = if same a.file b.file then ltb a.line b.line else text_lt a.file b.file

abbrev pub first_or : Symbol → List Symbol → Symbol
first_or d [] = d
first_or d (s ∷ ss) = s

unfoldable pub pick_best_target_symbol : List Symbol → List Reference → Option Symbol
unfolding best_of comes_before sort_by
pick_best_target_symbol [] refs = none
pick_best_target_symbol (s ∷ []) refs = some s
pick_best_target_symbol (s ∷ t ∷ ss) refs =
    let (best, score) = best_of refs (t ∷ ss) s (own_file_score s refs) in
    some (if score == 0 then first_or s (sort_by comes_before (s ∷ t ∷ ss)) else best)

unfoldable pub in_file : Text → List Symbol → Option Symbol
in_file f [] = none
in_file f (s ∷ ss) = let rest = in_file f ss in if same s.file f then some s else rest

abbrev pub or_first : Option Symbol → List Symbol → Option Symbol
or_first (some s) all = some s
or_first none [] = none
or_first none (s ∷ ss) = some s

unfoldable pub pick_best_symbol_for_file : List Symbol → Text → Option Symbol
unfolding in_file
pick_best_symbol_for_file symbols preferred =
    or_first (if same preferred [] then none else in_file preferred symbols) symbols

abbrev pub bare_symbol : Text → Text → Symbol
bare_symbol name file = record {
  name = name;
  kind = [];
  file = file;
  line = 0;
  end_line = 0;
  signature = [];
  receiver = [];
  package_name = [];
  exported = false;
  language = [];
  docstring = [];
  feature_path = [];
}

abbrev pub site_of : EdgeAt → CallSite
site_of e = record { file = e.path; line = e.line; context = e.context }

abbrev pub reference_of : EdgeAt → Reference
reference_of e = record {
  symbol_name = e.callee;
  kind = codes "call";
  file = e.path;
  line = e.line;
  column = 0;
  context = e.context;
  caller_name = e.caller;
  caller_file = e.path;
  caller_line = 0;
}

abbrev pub symbol_or : Symbol → Option Symbol → Symbol
symbol_or d none = d
symbol_or d (some s) = s

unfoldable pub get_symbol : Text → List (Text × Symbol) → Option Symbol
get_symbol name [] = none
get_symbol name ((k, s) ∷ rest) =
    let others = get_symbol name rest in if same k name then some s else others

module _ (symbol direction : Text) (depth : ℕ) (mode : Text) (resp : TraceResponse) where
  unfoldable pub related : Text → List Symbol
  unfolding symbols_to_v1
  related name =
      if same name symbol then symbols_to_v1 resp.definitions else symbols_to_v1 (resp.related name)

  abbrev pub blank : TraceResult
  blank = record {
    query = symbol;
    mode = mode;
    symbol = none;
    callers = [];
    callees = [];
    graph = none;
  }

  unfoldable pub callee_info : EdgeAt → CallInfo
  unfolding related
  callee_info e = record {
    symbol = first_or (bare_symbol e.callee []) (related e.callee);
    call_site = site_of e;
  }

  unfoldable pub caller_info : EdgeAt → CallInfo
  unfolding related pick_best_symbol_for_file
  caller_info e = record {
    symbol =
        symbol_or (bare_symbol e.caller e.path)
          (pick_best_symbol_for_file (related e.caller) e.path);
    call_site = site_of e;
  }

  abbrev pub with_symbols : Text → List Symbol → List (Text × Symbol) → List (Text × Symbol)
  with_symbols name [] nodes = nodes
  with_symbols name (s ∷ ss) nodes = nodes ++ ((name, s) ∷ [])

  abbrev pub unless_there : Text → Option Symbol → List (Text × Symbol) → List (Text × Symbol)
  unless_there name (some s) nodes = nodes
  unless_there name none nodes = with_symbols name (related name) nodes

  unfoldable pub add_node : Text → List (Text × Symbol) → List (Text × Symbol)
  unfolding get_symbol related
  add_node name nodes = unless_there name (get_symbol name nodes) nodes

  unfoldable pub graph_nodes : List EdgeAt → List (Text × Symbol) → List (Text × Symbol)
  unfolding add_node
  graph_nodes [] nodes = nodes
  graph_nodes (e ∷ es) nodes = graph_nodes es (add_node e.callee (add_node e.caller nodes))

  abbrev pub call_edge : EdgeAt → CallEdge
  call_edge e = record {
    caller = e.caller;
    callee = e.callee;
    file = e.path;
    line = e.line;
    call_type = [];
  }

  abbrev pub of_graph : List Symbol → TraceResult
  of_graph symbols = record blank {
    graph = some (record {
      root = symbol;
      nodes = graph_nodes resp.edges (with_symbols symbol symbols []);
      edges = map call_edge resp.edges;
      depth = depth;
    });
  }

  abbrev pub of_callees : List Symbol → TraceResult
  of_callees [] = blank
  of_callees (s ∷ ss) = record blank { symbol = some s; callees = map callee_info resp.edges }

  abbrev pub of_callers : List Symbol → TraceResult
  of_callers [] = blank
  of_callers (s ∷ ss) = record blank {
    symbol = some (symbol_or s (pick_best_target_symbol (s ∷ ss) (map reference_of resp.edges)));
    callers = map caller_info resp.edges;
  }

  unfoldable pub assemble : TraceResult
  unfolding symbols_to_v1 graph_nodes callee_info caller_info pick_best_target_symbol
  assemble =
      let symbols = symbols_to_v1 resp.definitions in
      if same direction (codes "callees")
      then of_callees symbols
      else (if same direction (codes "graph") then of_graph symbols else of_callers symbols)
