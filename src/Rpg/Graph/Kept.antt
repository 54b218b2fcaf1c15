-- ===== src/Rpg/Graph/Kept.antt =====
-- The operations keep the nodes' indexes (rpg/model.go).
use grepai.Base.{
  Bool, true, List, [], ◌∷◌, Option, none, some, ◌≡◌, refl, sym, ap, ◌∙◌, any, select, not,
  if_split, subst, arith,
}
use grepai.Base.Text.{Text, same}
use grepai.Rpg.Graph.{
  EdgeType, Node, Edge, Graph, get_node, delete_node, new_graph, add_node, remove_node, add_edge,
  remove_edges_between, remove_edges_between_of_type, remove_edges_if, rebuild_indexes,
  replace_entries, drop_entries, put_node, index_node, remove_found, index_edge, index_edges,
  index_nodes, has_path,
}
use grepai.Rpg.Graph.WellFormed.{of_index, Unique, IsIndexed}
use grepai.Rpg.Graph.Tracks.{Tracks}
use grepai.Rpg.Graph.Nodes.{
  put, get_node-delete_self, delete_node-Unique, get_node-put, replaced-Tracks, removed-Tracks,
}
use grepai.Rpg.Graph.Features.{Names, unnamed, unnamed_apart, delete-Names, put-Names}
use grepai.Rpg.Graph.Rebuilt.{
  Keyed, Fresh, walk-Tracks, walk_names-Names, index_nodes_kinds, index_nodes_files,
  index_nodes_features, found_in, apart_found, or_else,
}

delete_node-Keyed : (id : Text) (ns : List (Text × Node)) → Keyed ns → Keyed (delete_node id ns)
unfolding delete_node
delete_node-Keyed id [] h = tt
delete_node-Keyed id ((k, n) ∷ ns) h =
    let ih = delete_node-Keyed id ns h.1 in
    if_split Keyed (same k id) (delete_node id ns) ((k, n) ∷ delete_node id ns) (λ _. ih)
      (λ _. (h.0, ih))

same_Tracks :
    (present : Node → Bool) (key : Node → Text) (idx : Text → List Node)
    (find find' : Text → Option Node)
    → ((id : Text) → find' id ≡ find id)
    → Tracks present key idx find
    → Tracks present key idx find'
same_Tracks present key idx find find' e t k id = t k id ∙ ap (of_index present key k) (sym (e id))

same_Names :
    (bf find find' : Text → Option Node)
    → ((id : Text) → find' id ≡ find id)
    → Names bf find
    → Names bf find'
same_Names bf find find' e t p n h = let (a, b, c) = t p n h in (e n.id ∙ a, b, c)

put_fields-IsIndexed :
    (g g' : Graph) (n : Node)
    → IsIndexed g
    → g'.nodes ≡ (n.id, n) ∷ delete_node n.id g.nodes
    → Tracks (λ n. true) (λ n. n.kind) g'.by_kind (put n (λ i. get_node i g.nodes))
    → Tracks has_path (λ n. n.path) g'.by_file (put n (λ i. get_node i g.nodes))
    → Names g'.by_feature_path (put n (λ i. get_node i g.nodes))
    → IsIndexed g'
put_fields-IsIndexed g g' n v e k f h =
    let lookup = λ (id : Text). ap (get_node id) e ∙ get_node-put n g.nodes id in
    record {
      unique =
          subst Unique (sym e)
            (get_node-delete_self n.id g.nodes, delete_node-Unique n.id g.nodes v.unique);
      keyed = subst Keyed (sym e) (refl, delete_node-Keyed n.id g.nodes v.keyed);
      kinds = same_Tracks (λ n. true) (λ n. n.kind) g'.by_kind _ _ lookup k;
      files = same_Tracks has_path (λ n. n.path) g'.by_file _ _ lookup f;
      features = same_Names g'.by_feature_path _ _ lookup h;
    }

put_entries-IsIndexed :
    (g : Graph) (n : Node) (o : Option Node)
    → get_node n.id g.nodes ≡ o
    → IsIndexed g
    → IsIndexed (index_node n (put_node n (replace_entries n.id o g)))
unfolding index_node put_node replace_entries drop_entries
put_entries-IsIndexed g n none e v =
    put_fields-IsIndexed g (index_node n (put_node n (replace_entries n.id none g))) n v refl
      (replaced-Tracks (λ n. true) (λ n. n.kind) g.by_kind g.nodes n v.kinds none e)
      (replaced-Tracks has_path (λ n. n.path) g.by_file g.nodes n v.files none e)
      (put-Names (λ i. get_node i g.nodes) g.by_feature_path n
        (λ p m h.
          let (a, b, c) = v.features p m h in
          (a, b, c, apart_found n m (λ i. get_node i g.nodes) e a)))
put_entries-IsIndexed g n (some old) e v =
    put_fields-IsIndexed g (index_node n (put_node n (replace_entries n.id (some old) g))) n v refl
      (replaced-Tracks (λ n. true) (λ n. n.kind) g.by_kind g.nodes n v.kinds (some old) e)
      (replaced-Tracks has_path (λ n. n.path) g.by_file g.nodes n v.files (some old) e)
      (put-Names (λ i. get_node i g.nodes) (unnamed old g.by_feature_path) n
        (λ p m h.
          let (kept, apart) = unnamed_apart g.nodes g.by_feature_path n.id old p m v.features e h in
          let (a, b, c) = v.features p m kept in (a, b, c, apart)))

remove_found-IsIndexed :
    (g : Graph) (id : Text) (o : Option Node)
    → get_node id g.nodes ≡ o
    → IsIndexed g
    → IsIndexed (remove_found id o g)
unfolding remove_found
remove_found-IsIndexed g id none e v = v
remove_found-IsIndexed g id (some old) e v = record {
  unique = delete_node-Unique id g.nodes v.unique;
  keyed = delete_node-Keyed id g.nodes v.keyed;
  kinds = removed-Tracks (λ n. true) (λ n. n.kind) g.by_kind g.nodes old v.kinds id old e;
  files = removed-Tracks has_path (λ n. n.path) g.by_file g.nodes old v.files id old e;
  features = delete-Names g.nodes g.by_feature_path id old v.features e;
}

pub index_edges_keeps :
    (es : List Edge) (g : Graph)
    → ((index_edges es g).nodes ≡ g.nodes)
      × ((index_edges es g).by_kind ≡ g.by_kind)
      × ((index_edges es g).by_file ≡ g.by_file)
      × ((index_edges es g).by_feature_path ≡ g.by_feature_path)
unfolding index_edges index_edge
index_edges_keeps [] g = (refl, refl, refl, refl)
index_edges_keeps (e ∷ es) g = index_edges_keeps es (index_edge e g)

pub index_nodes_nodes : (ns : List (Text × Node)) (g : Graph) → (index_nodes ns g).nodes ≡ g.nodes
unfolding index_nodes index_node
index_nodes_nodes [] g = refl
index_nodes_nodes ((k, n) ∷ ns) g = index_nodes_nodes ns (index_node n g)

none_found : (ns : List (Text × Node)) → Fresh (λ id. none) ns
none_found [] = tt
none_found (x ∷ ns) = (refl, none_found ns)

found_all : (ns : List (Text × Node)) (id : Text) → get_node id ns ≡ found_in ns (λ i. none) id
found_all ns id = or_none (get_node id ns)
  where
    or_none : (o : Option Node) → o ≡ or_else o none
    or_none none = refl
    or_none (some n) = refl

pub rebuild_indexes-IsIndexed : (g : Graph) → IsIndexed g → IsIndexed (rebuild_indexes g)
unfolding rebuild_indexes new_graph
rebuild_indexes-IsIndexed g v =
    let bare = record new_graph { nodes = g.nodes; edges = g.edges } in
    let (n, k, f, h) = index_edges_keeps g.edges (index_nodes g.nodes bare) in
    let ns = n ∙ index_nodes_nodes g.nodes bare in
    let fresh = none_found g.nodes in
    let lookup = λ (id : Text). ap (get_node id) ns ∙ found_all g.nodes id in
    record {
      unique = subst Unique (sym ns) v.unique;
      keyed = subst Keyed (sym ns) v.keyed;
      kinds =
          same_Tracks (λ n. true) (λ n. n.kind) _ _ _ lookup
            (subst (λ i. Tracks (λ n. true) (λ n. n.kind) i (found_in g.nodes (λ x. none)))
              (sym (k ∙ index_nodes_kinds g.nodes bare))
              (walk-Tracks (λ n. true) (λ n. n.kind) g.nodes (λ p. []) (λ i. none) v.keyed v.unique
                fresh (λ p id. refl)));
      files =
          same_Tracks has_path (λ n. n.path) _ _ _ lookup
            (subst (λ i. Tracks has_path (λ n. n.path) i (found_in g.nodes (λ x. none)))
              (sym (f ∙ index_nodes_files g.nodes bare))
              (walk-Tracks has_path (λ n. n.path) g.nodes (λ p. []) (λ i. none) v.keyed v.unique
                fresh (λ p id. refl)));
      features = same_Names _ _ _ lookup (
          subst (λ i. Names i (found_in g.nodes (λ x. none)))
            (sym (h ∙ index_nodes_features g.nodes bare))
            (walk_names-Names g.nodes (λ p. none) (λ i. none) v.keyed v.unique fresh
              (λ p m e. ground arith)));
    }

-- An operation that leaves the nodes and their indexes alone.
same_nodes-IsIndexed :
    (g g' : Graph)
    → g'.nodes ≡ g.nodes
    → g'.by_kind ≡ g.by_kind
    → g'.by_file ≡ g.by_file
    → g'.by_feature_path ≡ g.by_feature_path
    → IsIndexed g
    → IsIndexed g'
same_nodes-IsIndexed g g' n k f h v =
    let lookup = λ (id : Text). ap (get_node id) n in
    record {
      unique = subst Unique (sym n) v.unique;
      keyed = subst Keyed (sym n) v.keyed;
      kinds =
          same_Tracks (λ n. true) (λ n. n.kind) _ _ _ lookup
            (subst (λ i. Tracks (λ n. true) (λ n. n.kind) i (λ x. get_node x g.nodes)) (sym k)
              v.kinds);
      files =
          same_Tracks has_path (λ n. n.path) _ _ _ lookup
            (subst (λ i. Tracks has_path (λ n. n.path) i (λ x. get_node x g.nodes)) (sym f)
              v.files);
      features =
          same_Names _ _ _ lookup
            (subst (λ i. Names i (λ x. get_node x g.nodes)) (sym h) v.features);
    }

pub remove_edges_if-IsIndexed :
    (g : Graph) (p : Option (Edge → Bool)) → IsIndexed g → IsIndexed (remove_edges_if p g)
unfolding remove_edges_if
remove_edges_if-IsIndexed g none v = v
remove_edges_if-IsIndexed g (some p) v =
    let kept = record g { edges = select (λ e. not (p e)) g.edges } in
    if_split IsIndexed (any p g.edges) (rebuild_indexes kept) g
      (λ _. rebuild_indexes-IsIndexed kept (same_nodes-IsIndexed g kept refl refl refl refl v))
      (λ _. v)

pub edge_ops-IsIndexed :
    (g : Graph)
    → IsIndexed g
    → ((e : Edge) → IsIndexed (add_edge e g))
      × ((from to : Text) → IsIndexed (remove_edges_between from to g))
      × ((from to : Text) (ty : EdgeType) → IsIndexed (remove_edges_between_of_type from to ty g))
unfolding add_edge index_edge remove_edges_between remove_edges_between_of_type
edge_ops-IsIndexed g v = (
  λ e. same_nodes-IsIndexed g (add_edge e g) refl refl refl refl v,
  λ from to. same_nodes-IsIndexed g (remove_edges_between from to g) refl refl refl refl v,
  λ from to ty.
      same_nodes-IsIndexed g (remove_edges_between_of_type from to ty g) refl refl refl refl v,
)

pub add_node-IsIndexed : (g : Graph) (n : Node) → IsIndexed g → IsIndexed (add_node n g)
unfolding add_node
add_node-IsIndexed g n v = put_entries-IsIndexed g n (get_node n.id g.nodes) refl v

pub remove_node-IsIndexed : (g : Graph) (id : Text) → IsIndexed g → IsIndexed (remove_node id g)
unfolding remove_node
remove_node-IsIndexed g id v = remove_found-IsIndexed g id (get_node id g.nodes) refl v
