-- ===== src/Rpg/Graph/Histories.antt =====
-- What every operation of the graph keeps (rpg/model.go).
use grepai.Rpg.Graph.Kept.{
  edge_ops-IsIndexed, add_node-IsIndexed, remove_node-IsIndexed, remove_edges_if-IsIndexed,
  rebuild_indexes-IsIndexed, index_edges_keeps, index_nodes_nodes,
}
use grepai.Base.{Bool, List, [], ◌∷◌, Option, ◌≡◌, refl, sym, ap, ◌∙◌, arith}
use grepai.Base.Text.{Text}
use grepai.Rpg.Graph.{
  EdgeType, Node, Edge, Graph, get_node, new_graph, add_node, remove_node, add_edge,
  remove_edges_between, remove_edges_between_of_type, remove_edges_if, rebuild_indexes, index_nodes,
}
use grepai.Rpg.Graph.WellFormed.{IsIndexed, named, of_kind, of_file}
use grepai.Rpg.Graph.Edges.{
  IsAdjacent, add_edge-IsAdjacent, remove_edges_between-IsAdjacent,
  remove_edges_between_of_type-IsAdjacent, remove_node-IsAdjacent, rebuild_indexes-IsAdjacent,
  remove_edges_if-IsAdjacent, add_node-IsAdjacent, rebuild_indexes_edges, leaving, entering,
}

pub record WellFormed (g : Graph) : Type 0 where
  pub adjacent : IsAdjacent g
  pub indexed : IsIndexed g

pub data GraphOp : Type 0 where
  adds_node : Node → GraphOp
  removes_node : Text → GraphOp
  adds_edge : Edge → GraphOp
  removes_between : Text → Text → GraphOp
  removes_of_type : Text → Text → EdgeType → GraphOp
  removes_if : Option (Edge → Bool) → GraphOp
  rebuilds : GraphOp

unfoldable pub apply : GraphOp → Graph → Graph
unfolding add_node remove_node add_edge remove_edges_between remove_edges_between_of_type
    remove_edges_if rebuild_indexes
apply (adds_node n) g = add_node n g
apply (removes_node id) g = remove_node id g
apply (adds_edge e) g = add_edge e g
apply (removes_between from to) g = remove_edges_between from to g
apply (removes_of_type from to ty) g = remove_edges_between_of_type from to ty g
apply (removes_if p) g = remove_edges_if p g
apply rebuilds g = rebuild_indexes g

unfoldable pub history : List GraphOp → Graph → Graph
unfolding apply
history [] g = g
history (o ∷ os) g = history os (apply o g)

apply-WellFormed : (o : GraphOp) (g : Graph) → WellFormed g → WellFormed (apply o g)
unfolding apply
apply-WellFormed (adds_node n) g v = record {
  adjacent = add_node-IsAdjacent g n v.adjacent;
  indexed = add_node-IsIndexed g n v.indexed;
}
apply-WellFormed (removes_node id) g v = record {
  adjacent = remove_node-IsAdjacent g id v.adjacent;
  indexed = remove_node-IsIndexed g id v.indexed;
}
apply-WellFormed (adds_edge e) g v = record {
  adjacent = add_edge-IsAdjacent g e v.adjacent;
  indexed = (edge_ops-IsIndexed g v.indexed).0 e;
}
apply-WellFormed (removes_between from to) g v = record {
  adjacent = remove_edges_between-IsAdjacent g from to v.adjacent;
  indexed = (edge_ops-IsIndexed g v.indexed).1 from to;
}
apply-WellFormed (removes_of_type from to ty) g v = record {
  adjacent = remove_edges_between_of_type-IsAdjacent g from to ty v.adjacent;
  indexed = (edge_ops-IsIndexed g v.indexed).2 from to ty;
}
apply-WellFormed (removes_if p) g v = record {
  adjacent = remove_edges_if-IsAdjacent g p v.adjacent;
  indexed = remove_edges_if-IsIndexed g p v.indexed;
}
apply-WellFormed rebuilds g v = record {
  adjacent = rebuild_indexes-IsAdjacent g;
  indexed = rebuild_indexes-IsIndexed g v.indexed;
}

new_graph-WellFormed : WellFormed new_graph
unfolding new_graph get_node
new_graph-WellFormed = record {
  adjacent = record { forward = λ id. refl; reverse = λ id. refl };
  indexed = record {
    unique = tt;
    keyed = tt;
    kinds = λ k id. refl;
    files = λ p id. refl;
    features = λ p n e. ground arith;
  };
}

history_keeps : (os : List GraphOp) (g : Graph) → WellFormed g → WellFormed (history os g)
unfolding history
history_keeps [] g v = v
history_keeps (o ∷ os) g v = history_keeps os (apply o g) (apply-WellFormed o g v)

-- After any operations on a new graph its indexes are those of its nodes and edges: the outgoing
-- and the incoming edges of a node are its edges in the graph, in their order; every node stands
-- once in the index of its kind and, if it has a path, once in that of its path, and nothing else
-- stands there; and a feature path leads to a hierarchy node of the graph with that feature.
pub history-WellFormed : (os : List GraphOp) → WellFormed (history os new_graph)
history-WellFormed os = history_keeps os new_graph new_graph-WellFormed

-- Rebuilding the indexes of a well-formed graph changes no list of edges, and no node's entry in the
-- indexes of kinds and files.
pub rebuild_indexes_lem :
    (g : Graph) (k id : Text)
    → WellFormed g
    → ((rebuild_indexes g).adj_forward id ≡ g.adj_forward id)
      × ((rebuild_indexes g).adj_reverse id ≡ g.adj_reverse id)
      × (named id ((rebuild_indexes g).by_kind k) ≡ named id (g.by_kind k))
      × (named id ((rebuild_indexes g).by_file k) ≡ named id (g.by_file k))
unfolding rebuild_indexes new_graph
rebuild_indexes_lem g k id v =
    let a = rebuild_indexes-IsAdjacent g in
    let w = rebuild_indexes-IsIndexed g v.indexed in
    let bare = record new_graph { nodes = g.nodes; edges = g.edges } in
    let kept = index_edges_keeps g.edges (index_nodes g.nodes bare) in
    let ns = kept.0 ∙ index_nodes_nodes g.nodes bare in
    let es = rebuild_indexes_edges g in
    (
      a.forward id ∙ ap (leaving id) es ∙ sym (v.adjacent.forward id),
      a.reverse id ∙ ap (entering id) es ∙ sym (v.adjacent.reverse id),
      w.kinds k id ∙ ap (λ l. of_kind k (get_node id l)) ns ∙ sym (v.indexed.kinds k id),
      w.files k id ∙ ap (λ l. of_file k (get_node id l)) ns ∙ sym (v.indexed.files k id),
    )
