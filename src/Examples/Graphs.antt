-- ===== src/Examples/Graphs.antt =====
-- Tests of the graph of rpg, of the symbol store of trace, and of the traced graph of the daemon.
use grepai.Base.{◌≤◌, true, Bool, true, List, [], ◌∷◌, some, ◌≡◌, refl, All, ◌⊎◌, length}
use grepai.Base.Int.{pos}
use grepai.Base.Text.{Text, codes, same}
use grepai.Catalog.Reads.{EdgeAt}
use grepai.Rpg.Graph.{
  Node, Edge, Graph, new_graph, get_node, add_node, add_edge, replace_entries, index_node, put_node,
  delete_node, drop_entries, cut_first, index_edge,
}
use grepai.Rpg.Graph.Histories.{
  GraphOp, adds_node, removes_node, adds_edge, history, WellFormed, history-WellFormed,
}
use grepai.Rpg.Explore.{
  ExploreRequest, Search, explore, loop, round, scan, offer, follow, meet, take_in, allowed,
  neighbor, edges_at, depth_of, limit_of, matches_entity_type,
}
use grepai.Rpg.Explore.Walks.{OfType}
use grepai.Rpg.Explore.Sound.{Reached, explore-IsSound}
use grepai.Rpg.Explore.Ends.{explore_ends}
use grepai.Trace.Store.{Symbol, Reference, new_symbol_store}
use grepai.Trace.Store.Files.{SavedFile}
use grepai.Trace.Store.Refines.{
  StoreCall, saves, deletes, calls, saved, IsTidyCall, Shows, calls-Shows,
}
use grepai.Engine.Service.{
  max_graph_edges, same_key, returns, fails, trace_graph, levels, level, expand, expand_all,
  take_edges, take_edge, add_out, admit_name,
}
use grepai.Engine.Service.Graph.{Distinct, IsGiven, Refused, trace_graph-IsFine}

abbrev file_node : Text → Node
file_node id = record {
  id = id;
  kind = codes "file";
  feature = [];
  features = [];
  path = id;
  symbol_name = [];
  receiver = [];
  language = [];
  start_line = 1;
  end_line = 1;
  signature = [];
  chunk_id = [];
  semantic_label = [];
  summary = [];
  updated_at = 0;
}

abbrev imports : Edge
imports = record {
  from = codes "a";
  to = codes "b";
  edge_type = codes "imports";
  weight = 0;
  updated_at = 0;
}

abbrev ops : List GraphOp
ops =
    adds_node (file_node (codes "a"))
    ∷ adds_node (file_node (codes "b"))
    ∷ adds_edge imports
    ∷ adds_node (file_node (codes "a"))
    ∷ removes_node (codes "b")
    ∷ []

history-WellFormed_example : WellFormed (history ops new_graph)
history-WellFormed_example = history-WellFormed ops

abbrev graph : Graph
unfolding add_edge add_node new_graph
graph =
    add_edge imports (add_node (file_node (codes "b")) (add_node (file_node (codes "a")) new_graph))

abbrev request : ExploreRequest
request = record {
  direction = codes "forward";
  depth = pos 1;
  traversal_depth = pos 0;
  edge_types = [];
  entity_type_filter = [];
  limit = pos 0;
}

abbrev explored : Search
explored = record {
  queue = [];
  visited = codes "b" ∷ codes "a" ∷ [];
  nodes = (codes "b", file_node (codes "b")) ∷ (codes "a", file_node (codes "a")) ∷ [];
  edges = imports ∷ [];
  depth = 1;
}

found : get_node (codes "a") graph.nodes ≡ some (file_node (codes "a"))
unfolding graph get_node add_edge add_node new_graph replace_entries index_node put_node delete_node
    drop_entries cut_first index_edge same
found = refl

explored_eq : explore graph request (codes "a") ≡ some explored
unfolding explore loop round scan offer follow meet take_in allowed neighbor edges_at depth_of
    limit_of matches_entity_type graph get_node add_edge add_node new_graph replace_entries
    index_node put_node delete_node drop_entries cut_first index_edge same
explored_eq = refl

explore-IsSound_example :
    (n : Node) × (get_node (codes "a") graph.nodes ≡ some n)
    × All (Reached graph request n) explored.nodes
    × All (OfType request.edge_types) explored.edges
    × (length explored.nodes ≤ limit_of request)
explore-IsSound_example = explore-IsSound graph request (codes "a") explored explored_eq

explore_ends_example : (t : Search) × (explore graph request (codes "a") ≡ some t)
explore_ends_example = explore_ends graph request (codes "a") (file_node (codes "a")) found

abbrev symbol : Text → Text → Symbol
symbol name file = record {
  name = name;
  kind = codes "function";
  file = file;
  line = 1;
  end_line = 2;
  signature = [];
  receiver = [];
  package_name = [];
  exported = true;
  language = codes "go";
  docstring = [];
  feature_path = [];
}

abbrev reference : Text → Text → Text → Reference
reference name caller file = record {
  symbol_name = name;
  kind = codes "call";
  file = file;
  line = 2;
  column = 0;
  context = [];
  caller_name = caller;
  caller_file = file;
  caller_line = 1;
}

abbrev first_save : SavedFile
first_save = record {
  path = codes "a";
  hash = codes "1";
  symbols = symbol (codes "f") (codes "a") ∷ [];
  references = reference (codes "g") (codes "f") (codes "a") ∷ [];
}

abbrev second_save : SavedFile
second_save = record {
  path = codes "b";
  hash = codes "2";
  symbols = symbol (codes "g") (codes "b") ∷ [];
  references = [];
}

abbrev store_calls : List StoreCall
store_calls = saves first_save ∷ saves second_save ∷ saves first_save ∷ deletes (codes "b") ∷ []

first_save-IsTidy : IsTidyCall (saves first_save)
first_save-IsTidy = record { symbols = (refl, tt); references = (refl, tt) }

second_save-IsTidy : IsTidyCall (saves second_save)
second_save-IsTidy = record { symbols = (refl, tt); references = tt }

calls-Shows_example : Shows (calls store_calls new_symbol_store) (saved store_calls [])
calls-Shows_example =
    calls-Shows store_calls (first_save-IsTidy, (second_save-IsTidy, (first_save-IsTidy, (tt, tt))))

abbrev calls_g : EdgeAt
calls_g = record {
  caller = codes "f";
  callee = codes "g";
  path = codes "a";
  line = 2;
  context = [];
}

abbrev answers : Text → Bool → List EdgeAt
answers name callers = calls_g ∷ []

traced :
    trace_graph (λ name callers. some (answers name callers)) (codes "g") 2 ≡ returns (calls_g ∷ [])
unfolding trace_graph levels level expand expand_all take_edges take_edge add_out admit_name
    same_key same
traced = refl

trace_graph-IsFine_example :
    ((trace_graph (λ name callers. some (answers name callers)) (codes "g") 2 ≡ fails)
      × Refused (λ name callers. some (answers name callers)))
    ⊎ ((es : List EdgeAt) × (trace_graph (λ name callers. some (answers name callers)) (codes "g") 2
          ≡ returns es)
        × (length es ≤ max_graph_edges)
        × Distinct es
        × All (IsGiven (λ name callers. some (answers name callers))) es)
trace_graph-IsFine_example =
    trace_graph-IsFine (λ name callers. some (answers name callers)) (codes "g") 2
