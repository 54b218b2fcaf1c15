-- ===== src/Rpg/Graph/Edges.antt =====
-- The operations on edges keep the adjacency indexes (rpg/model.go).
use mathlib.Core.List.{append-nil, append_assoc}
use grepai.Base.{
  Bool, true, false, not, List, [], ◌∷◌, ◌++◌, Option, none, some, ◌≡◌, refl, sym, ap, ◌∙◌, arith,
  select, select-append, select_cut, select_ignores, select_nothing, select_one, select_none, any,
  if_split,
}
use grepai.Base.Text.{Text, same, same→eq, same_apart, same_comm}
use grepai.Rpg.Graph.{
  EdgeType, Node, Edge, Graph, set_at, index_edge, remove_node, remove_found, get_node, add_node,
  put_node, index_node, replace_entries, drop_entries, index_nodes, rebuild_indexes,
  remove_edges_if, new_graph, add_edge, remove_edges_between, remove_edges_between_of_type,
  index_edges,
}

abbrev pub leaving : Text → List Edge → List Edge
leaving id = select (λ (e : Edge). same e.from id)

abbrev pub entering : Text → List Edge → List Edge
entering id = select (λ (e : Edge). same e.to id)

-- The adjacency lists are the edges of the graph, in their order.
pub record IsAdjacent (g : Graph) : Type 0 where
  pub forward : (id : Text) → g.adj_forward id ≡ leaving id g.edges
  pub reverse : (id : Text) → g.adj_reverse id ≡ entering id g.edges

module _ (end : Edge → Text) (adj : Text → List Edge) (es : List Edge)
    (h : (k : Text) → adj k ≡ select (λ x. same (end x) k) es) where
  entry_added :
      (e : Edge) (id : Text)
      → set_at (end e) (adj (end e) ++ (e ∷ [])) adj id
        ≡ select (λ x. same (end x) id) (es ++ (e ∷ []))
  entry_added e id =
      let joined = select-append (λ x. same (end x) id) es (e ∷ []) in
      if_split (λ l. l ≡ select (λ x. same (end x) id) (es ++ (e ∷ []))) (same id (end e)) _
        (adj id)
        (λ hit.
          let eq = same→eq id (end e) hit in
          ap (λ k. adj k ++ (e ∷ [])) (sym eq)
          ∙ ap (λ l. l ++ (e ∷ [])) (h id)
          ∙ ap (λ l. select (λ x. same (end x) id) es ++ l)
              (sym (select_one (λ x. same (end x) id) e (same_comm (end e) id ∙ hit)))
          ∙ sym joined)
        (λ miss.
          h id
          ∙ sym (
              joined
              ∙ ap (λ l. select (λ x. same (end x) id) es ++ l)
                  (select_none (λ x. same (end x) id) e (same_comm (end e) id ∙ miss))
              ∙ append-nil _))

  -- The entries of one key are filtered by what the edges are.
  entries_cut :
      (key : Text) (q r : Edge → Bool) (id : Text)
      → ((x : Edge) → same (end x) key ≡ true → q x ≡ r x)
      → ((x : Edge) → same (end x) key ≡ false → q x ≡ true)
      → set_at key (select r (adj key)) adj id ≡ select (λ x. same (end x) id) (select q es)
  entries_cut key q r id cut keep =
      if_split (λ l. l ≡ select (λ x. same (end x) id) (select q es)) (same id key) _ (adj id)
        (λ hit.
          let eq = same→eq id key hit in
          ap (select r) (h key)
          ∙ select_cut (λ x. same (end x) key) q r es cut
          ∙ ap (λ k. select (λ x. same (end x) k) (select q es)) (sym eq))
        (λ miss.
          h id
          ∙ sym (
              select_ignores (λ x. same (end x) id) q es
                (λ x there. keep x (same_apart (end x) id key there miss))))

pub add_edge-IsAdjacent : (g : Graph) (e : Edge) → IsAdjacent g → IsAdjacent (add_edge e g)
unfolding add_edge
add_edge-IsAdjacent g e v = record {
  forward = entry_added (λ x. x.from) g.adj_forward g.edges v.forward e;
  reverse = entry_added (λ x. x.to) g.adj_reverse g.edges v.reverse e;
}

pub remove_edges_between-IsAdjacent :
    (g : Graph) (from to : Text) → IsAdjacent g → IsAdjacent (remove_edges_between from to g)
unfolding remove_edges_between
remove_edges_between-IsAdjacent g from to v = record {
  forward = λ id.
      entries_cut (λ x. x.from) g.adj_forward g.edges v.forward from _ _ id (λ x h. ground arith)
        (λ x h. ground arith);
  reverse = λ id.
      entries_cut (λ x. x.to) g.adj_reverse g.edges v.reverse to _ _ id (λ x h. ground arith)
        (λ x h. ground arith);
}

pub remove_edges_between_of_type-IsAdjacent :
    (g : Graph) (from to : Text) (ty : EdgeType)
    → IsAdjacent g
    → IsAdjacent (remove_edges_between_of_type from to ty g)
unfolding remove_edges_between_of_type
remove_edges_between_of_type-IsAdjacent g from to ty v = record {
  forward = λ id.
      entries_cut (λ x. x.from) g.adj_forward g.edges v.forward from _ _ id (λ x h. ground arith)
        (λ x h. ground arith);
  reverse = λ id.
      entries_cut (λ x. x.to) g.adj_reverse g.edges v.reverse to _ _ id (λ x h. ground arith)
        (λ x h. ground arith);
}

-- A removed node's edges.
module _ (near far : Edge → Text) (adj : Text → List Edge) (es : List Edge)
    (h : (k : Text) → adj k ≡ select (λ x. same (near x) k) es) (gone : Edge → Bool)
    (id : Text) where
  node_entries :
      (k : Text)
      → ((x : Edge) → same (near x) id ≡ true → gone x ≡ false)
      → ((x : Edge) → same (near x) id ≡ false → gone x ≡ not (same (far x) id))
      → select (λ x. not (same (far x) id)) (set_at id [] adj k)
        ≡ select (λ x. same (near x) k) (select gone es)
  node_entries k own others =
      if_split
        (λ l.
          select (λ x. not (same (far x) id)) l ≡ select (λ x. same (near x) k) (select gone es))
        (same k id) [] (adj k)
        (λ hit. sym (
          select_nothing (λ x. same (near x) k) gone es
            (λ x there. own x (ap (same (near x)) (sym (same→eq k id hit)) ∙ there))))
        (λ miss.
          ap (select (λ x. not (same (far x) id))) (h k)
          ∙ select_cut (λ x. same (near x) k) gone _ es
              (λ x there. others x (same_apart (near x) k id there miss)))

remove_found-IsAdjacent :
    (g : Graph) (id : Text) (o : Option Node) → IsAdjacent g → IsAdjacent (remove_found id o g)
unfolding remove_found
remove_found-IsAdjacent g id none v = v
remove_found-IsAdjacent g id (some n) v = record {
  forward = λ k.
      node_entries (λ x. x.from) (λ x. x.to) g.adj_forward g.edges v.forward _ id k
        (λ x h. ground arith) (λ x h. ground arith);
  reverse = λ k.
      node_entries (λ x. x.to) (λ x. x.from) g.adj_reverse g.edges v.reverse _ id k
        (λ x h. ground arith) (λ x h. ground arith);
}

pub remove_node-IsAdjacent : (g : Graph) (id : Text) → IsAdjacent g → IsAdjacent (remove_node id g)
unfolding remove_node
remove_node-IsAdjacent g id v = remove_found-IsAdjacent g id (get_node id g.nodes) v

index_edges_adjacent :
    (g : Graph) (es : List Edge) (done : List Edge)
    → ((id : Text) → g.adj_forward id ≡ leaving id done)
    → ((id : Text) → g.adj_reverse id ≡ entering id done)
    → (id : Text)
    → ((index_edges es g).adj_forward id ≡ leaving id (done ++ es))
      × ((index_edges es g).adj_reverse id ≡ entering id (done ++ es))
unfolding index_edges index_edge
index_edges_adjacent g [] done f r id = (
  f id ∙ ap (leaving id) (sym (append-nil done)),
  r id ∙ ap (entering id) (sym (append-nil done)),
)
index_edges_adjacent g (e ∷ es) done f r id =
    let (a, b) =
      index_edges_adjacent (index_edge e g) es (done ++ (e ∷ []))
        (entry_added (λ x. x.from) g.adj_forward done f e)
        (entry_added (λ x. x.to) g.adj_reverse done r e) id in
    (
      a ∙ ap (leaving id) (append_assoc done (e ∷ []) es),
      b ∙ ap (entering id) (append_assoc done (e ∷ []) es),
    )

-- Indexing nodes leaves the edges' indexes as they are.
index_nodes_forward :
    (ns : List (Text × Node)) (g : Graph) (id : Text)
    → ((index_nodes ns g).adj_forward id ≡ g.adj_forward id)
      × ((index_nodes ns g).adj_reverse id ≡ g.adj_reverse id)
unfolding index_nodes index_node
index_nodes_forward [] g id = (refl, refl)
index_nodes_forward ((k, n) ∷ ns) g id = index_nodes_forward ns (index_node n g) id

index_edges_edges : (es : List Edge) (g : Graph) → (index_edges es g).edges ≡ g.edges
unfolding index_edges index_edge
index_edges_edges [] g = refl
index_edges_edges (e ∷ es) g = index_edges_edges es (index_edge e g)

index_nodes_edges : (ns : List (Text × Node)) (g : Graph) → (index_nodes ns g).edges ≡ g.edges
unfolding index_nodes index_node
index_nodes_edges [] g = refl
index_nodes_edges ((k, n) ∷ ns) g = index_nodes_edges ns (index_node n g)

pub rebuild_indexes_edges : (g : Graph) → (rebuild_indexes g).edges ≡ g.edges
unfolding rebuild_indexes new_graph
rebuild_indexes_edges g =
    let bare = record new_graph { nodes = g.nodes; edges = g.edges } in
    index_edges_edges g.edges (index_nodes g.nodes bare) ∙ index_nodes_edges g.nodes bare

-- Whatever the indexes were.
pub rebuild_indexes-IsAdjacent : (g : Graph) → IsAdjacent (rebuild_indexes g)
unfolding rebuild_indexes new_graph
rebuild_indexes-IsAdjacent g =
    let bare = record new_graph { nodes = g.nodes; edges = g.edges } in
    let kept = index_nodes_forward g.nodes bare in
    let built =
      index_edges_adjacent (index_nodes g.nodes bare) g.edges [] (λ id. (kept id).0)
        (λ id. (kept id).1) in
    let same_edges =
      index_edges_edges g.edges (index_nodes g.nodes bare) ∙ index_nodes_edges g.nodes bare in
    record {
      forward = λ id. (built id).0 ∙ ap (leaving id) (sym same_edges);
      reverse = λ id. (built id).1 ∙ ap (entering id) (sym same_edges);
    }

pub remove_edges_if-IsAdjacent :
    (g : Graph) (p : Option (Edge → Bool)) → IsAdjacent g → IsAdjacent (remove_edges_if p g)
unfolding remove_edges_if
remove_edges_if-IsAdjacent g none v = v
remove_edges_if-IsAdjacent g (some p) v =
    if_split IsAdjacent (any p g.edges) _ g
      (λ _. rebuild_indexes-IsAdjacent (record g { edges = select (λ e. not (p e)) g.edges }))
      (λ _. v)

add_entries-IsAdjacent :
    (g : Graph) (n : Node) (o : Option Node)
    → IsAdjacent g
    → IsAdjacent (index_node n (put_node n (replace_entries n.id o g)))
unfolding index_node put_node replace_entries drop_entries
add_entries-IsAdjacent g n none v = record { forward = v.forward; reverse = v.reverse }
add_entries-IsAdjacent g n (some old) v = record { forward = v.forward; reverse = v.reverse }

pub add_node-IsAdjacent : (g : Graph) (n : Node) → IsAdjacent g → IsAdjacent (add_node n g)
unfolding add_node
add_node-IsAdjacent g n v = add_entries-IsAdjacent g n (get_node n.id g.nodes) v
