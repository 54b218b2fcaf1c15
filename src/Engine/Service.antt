-- ===== src/Engine/Service.antt =====
-- internal/enginev2/service/server.go: traceGraph. The catalog is what SymbolEdges answers for a name and a
-- direction: `none` is its error. The walk of a level stops early with a result, or with that error.
pub mod Graph
use grepai.Base.{
  ℕ, zero, suc, Bool, true, false, ◌&&◌, List, [], ◌∷◌, ◌++◌, Option, none, some, if◌then◌else◌,
  ltb, leb, ◌==◌, any, length,
}
use grepai.Base.Int.{ℤ, pos, pos_part, ltb_ℤ}
use grepai.Base.Text.{Text, same}
use grepai.Catalog.Reads.{EdgeAt}

abbrev pub max_graph_symbols : ℕ
max_graph_symbols = 500

abbrev pub max_graph_edges : ℕ
max_graph_edges = 2000

-- The keys of two edges agree.
unfoldable pub same_key : EdgeAt → EdgeAt → Bool
same_key a b =
    same a.caller b.caller && (same a.callee b.callee && (same a.path b.path && (a.line == b.line)))

pub record GraphWalk : Type 0 where
  pub seen : List EdgeAt
  pub visited : List Text
  pub frontier : List Text
  pub out : List EdgeAt

pub data Traced : Type 0 where
  going : GraphWalk → Traced
  returns : List EdgeAt → Traced
  fails : Traced

abbrev pub go_on : Traced → (GraphWalk → Traced) → Traced
go_on (going w) k = k w
go_on (returns es) k = returns es
go_on fails k = fails

unfoldable pub admit_name : Text → GraphWalk → GraphWalk
admit_name n w =
    if any (same n) w.visited
    then w
    else (if ltb (length w.visited) max_graph_symbols
        then record w { visited = n ∷ w.visited; frontier = w.frontier ++ (n ∷ []) }
        else w)

unfoldable pub add_out : EdgeAt → GraphWalk → GraphWalk
add_out e w = record w { seen = e ∷ w.seen; out = w.out ++ (e ∷ []) }

unfoldable pub take_edge : EdgeAt → GraphWalk → Traced
unfolding same_key add_out admit_name
take_edge e w =
    if any (same_key e) w.seen
    then going w
    else (if leb max_graph_edges (length (add_out e w).out)
        then returns (add_out e w).out
        else going (admit_name e.callee (admit_name e.caller (add_out e w))))

unfoldable pub take_edges : List EdgeAt → GraphWalk → Traced
unfolding take_edge
take_edges [] w = going w
take_edges (e ∷ es) w = go_on (take_edge e w) (take_edges es)

abbrev pub take_answer : Option (List EdgeAt) → GraphWalk → Traced
take_answer none w = fails
take_answer (some es) w = take_edges es w

module _ (symbol_edges : Text → Bool → Option (List EdgeAt)) where
  -- One name of the frontier: its callers, then its callees.
  unfoldable pub expand : Text → GraphWalk → Traced
  unfolding take_edges
  expand name w =
      if leb max_graph_symbols (length w.visited)
      then returns w.out
      else go_on (take_answer (symbol_edges name true) w)
          (λ w'. take_answer (symbol_edges name false) w')

  unfoldable pub expand_all : List Text → GraphWalk → Traced
  unfolding expand
  expand_all [] w = going w
  expand_all (n ∷ ns) w = go_on (expand n w) (expand_all ns)

  -- A level of the names given; the walk collects those of the next one.
  unfoldable pub level : List Text → GraphWalk → (GraphWalk → Traced) → Traced
  unfolding expand_all
  level [] w deeper = returns w.out
  level (n ∷ ns) w deeper = go_on (expand_all (n ∷ ns) (record w { frontier = [] })) deeper

  -- As many levels as are left.
  unfoldable pub levels : ℕ → GraphWalk → Traced
  unfolding level
  levels zero w = returns w.out
  levels (suc depth) w = level w.frontier w (levels depth)

  unfoldable pub trace_graph : Text → ℕ → Traced
  unfolding levels
  trace_graph root depth =
      levels depth (record { seen = []; visited = root ∷ []; frontier = root ∷ []; out = [] })

-- The depth that Trace asks for: 2 where none is given, and 5 at most.
unfoldable pub graph_depth : ℤ → ℕ
graph_depth d = if ltb_ℤ (pos 0) d then (if ltb 5 (pos_part d) then 5 else pos_part d) else 2
