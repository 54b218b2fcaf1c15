-- ===== src/Rpg/Graph.antt =====
-- rpg/model.go: the graph and its indexes. A map of lists is a function, since the code reads an absent key
-- and an empty list alike; Nodes is an association list, in the order in which a range over it would visit it.
-- Nodes and edges are values: the code that shares a pointer changes no node through it here. A float64 is its
-- 64-bit pattern, and a time a number.
pub mod WellFormed
pub mod Edges
pub mod Tracks
pub mod Nodes
pub mod Features
pub mod Rebuilt
pub mod Kept
pub mod Histories
use grepai.Base.{
  ℕ, zero, suc, ◌+◌, Bool, true, false, ◌&&◌, ◌||◌, not, List, [], ◌∷◌, ◌++◌, map, Option, none,
  some, if◌then◌else◌, ltb, any, select, length,
}
pub use grepai.Base.Text.{set_at}
use grepai.Base.Text.{Text, codes, same}

abbrev pub NodeKind : Type 0
NodeKind = Text

abbrev pub kind_area : NodeKind
kind_area = codes "area"

abbrev pub kind_category : NodeKind
kind_category = codes "category"

abbrev pub kind_subcategory : NodeKind
kind_subcategory = codes "subcategory"

abbrev pub EdgeType : Type 0
EdgeType = Text

pub record Node : Type 0 where
  pub id : Text
  pub kind : NodeKind
  pub feature : Text
  pub features : List Text
  pub path : Text
  pub symbol_name : Text
  pub receiver : Text
  pub language : Text
  pub start_line : ℕ
  pub end_line : ℕ
  pub signature : Text
  pub chunk_id : Text
  pub semantic_label : Text
  pub summary : Text
  pub updated_at : ℕ

pub record Edge : Type 0 where
  pub from : Text
  pub to : Text
  pub edge_type : EdgeType
  pub weight : ℕ
  pub updated_at : ℕ

pub record Graph : Type 0 where
  pub nodes : List (Text × Node)
  pub edges : List Edge
  pub by_kind : NodeKind → List Node
  pub by_file : Text → List Node
  pub by_feature_path : Text → Option Node
  pub adj_forward : Text → List Edge
  pub adj_reverse : Text → List Edge

unfoldable pub get_node : Text → List (Text × Node) → Option Node
get_node id [] = none
get_node id ((k, n) ∷ rest) = if same k id then some n else get_node id rest

unfoldable pub delete_node : Text → List (Text × Node) → List (Text × Node)
delete_node id [] = []
delete_node id ((k, n) ∷ rest) =
    let others = delete_node id rest in if same k id then others else (k, n) ∷ others

unfoldable pub new_graph : Graph
new_graph = record {
  nodes = [];
  edges = [];
  by_kind = λ k. [];
  by_file = λ p. [];
  by_feature_path = λ p. none;
  adj_forward = λ id. [];
  adj_reverse = λ id. [];
}

abbrev pub is_hierarchy : NodeKind → Bool
is_hierarchy k = same k kind_area || (same k kind_category || same k kind_subcategory)

-- The first entry of the node's ID is cut out of a list.
unfoldable pub cut_first : Text → List Node → List Node
cut_first id [] = []
cut_first id (n ∷ rest) =
    let others = cut_first id rest in if same n.id id then rest else n ∷ others

-- An index by path leaves out the nodes that have none.
abbrev pub has_path : Node → Bool
has_path n = not (same n.path [])

-- The index entries of a node that is replaced.
unfoldable pub drop_entries : Text → Node → Graph → Graph
unfolding cut_first
drop_entries id old g = record g {
  by_kind = set_at old.kind (cut_first id (g.by_kind old.kind)) g.by_kind;
  by_file =
      if has_path old
      then set_at old.path (cut_first id (g.by_file old.path)) g.by_file
      else g.by_file;
  by_feature_path =
      if is_hierarchy old.kind
      then set_at old.feature none g.by_feature_path
      else g.by_feature_path;
}

-- A node's own index entries.
unfoldable pub index_node : Node → Graph → Graph
index_node n g = record g {
  by_kind = set_at n.kind (g.by_kind n.kind ++ (n ∷ [])) g.by_kind;
  by_file =
      if has_path n then set_at n.path (g.by_file n.path ++ (n ∷ [])) g.by_file else g.by_file;
  by_feature_path =
      if is_hierarchy n.kind
      then set_at n.feature (some n) g.by_feature_path
      else g.by_feature_path;
}

unfoldable pub replace_entries : Text → Option Node → Graph → Graph
unfolding drop_entries
replace_entries id none g = g
replace_entries id (some old) g = drop_entries id old g

unfoldable pub put_node : Node → Graph → Graph
unfolding delete_node
put_node n g = record g { nodes = (n.id, n) ∷ delete_node n.id g.nodes }

unfoldable pub add_node : Node → Graph → Graph
unfolding replace_entries index_node get_node put_node
add_node n g = index_node n (put_node n (replace_entries n.id (get_node n.id g.nodes) g))

unfoldable pub other_nodes : Text → List Node → List Node
other_nodes id = select (λ (n : Node). not (same n.id id))

unfoldable pub remove_found : Text → Option Node → Graph → Graph
unfolding delete_node other_nodes
remove_found id none g = g
remove_found id (some n) g = record g {
  nodes = delete_node id g.nodes;
  edges = select (λ (e : Edge). not (same e.from id) && not (same e.to id)) g.edges;
  by_kind = set_at n.kind (other_nodes id (g.by_kind n.kind)) g.by_kind;
  by_file =
      if has_path n then set_at n.path (other_nodes id (g.by_file n.path)) g.by_file else g.by_file;
  by_feature_path =
      if is_hierarchy n.kind then set_at n.feature none g.by_feature_path else g.by_feature_path;
  adj_forward = λ k. select (λ (e : Edge). not (same e.to id)) (set_at id [] g.adj_forward k);
  adj_reverse = λ k. select (λ (e : Edge). not (same e.from id)) (set_at id [] g.adj_reverse k);
}

unfoldable pub remove_node : Text → Graph → Graph
unfolding remove_found get_node
remove_node id g = remove_found id (get_node id g.nodes) g

-- An edge's entries in the adjacency indexes.
unfoldable pub index_edge : Edge → Graph → Graph
index_edge e g = record g {
  adj_forward = set_at e.from (g.adj_forward e.from ++ (e ∷ [])) g.adj_forward;
  adj_reverse = set_at e.to (g.adj_reverse e.to ++ (e ∷ [])) g.adj_reverse;
}

unfoldable pub add_edge : Edge → Graph → Graph
unfolding index_edge
add_edge e g = record (index_edge e g) { edges = g.edges ++ (e ∷ []) }

unfoldable pub remove_edges_between : Text → Text → Graph → Graph
remove_edges_between from to g = record g {
  edges = select (λ (e : Edge). not (same e.from from && same e.to to)) g.edges;
  adj_forward =
      set_at from (select (λ (e : Edge). not (same e.to to)) (g.adj_forward from)) g.adj_forward;
  adj_reverse =
      set_at to (select (λ (e : Edge). not (same e.from from)) (g.adj_reverse to)) g.adj_reverse;
}

unfoldable pub remove_edges_between_of_type : Text → Text → EdgeType → Graph → Graph
remove_edges_between_of_type from to ty g = record g {
  edges =
      select (λ (e : Edge). not (same e.from from && (same e.to to && same e.edge_type ty)))
        g.edges;
  adj_forward =
      set_at from
        (select (λ (e : Edge). not (same e.to to && same e.edge_type ty)) (g.adj_forward from))
        g.adj_forward;
  adj_reverse =
      set_at to
        (select (λ (e : Edge). not (same e.from from && same e.edge_type ty)) (g.adj_reverse to))
        g.adj_reverse;
}

unfoldable pub index_nodes : List (Text × Node) → Graph → Graph
unfolding index_node
index_nodes [] g = g
index_nodes ((k, n) ∷ rest) g = index_nodes rest (index_node n g)

unfoldable pub index_edges : List Edge → Graph → Graph
unfolding index_edge
index_edges [] g = g
index_edges (e ∷ rest) g = index_edges rest (index_edge e g)

unfoldable pub rebuild_indexes : Graph → Graph
unfolding index_nodes index_edges new_graph
rebuild_indexes g =
    index_edges g.edges
      (index_nodes g.nodes (record new_graph { nodes = g.nodes; edges = g.edges }))

-- `none` is a nil predicate.
unfoldable pub remove_edges_if : Option (Edge → Bool) → Graph → Graph
unfolding rebuild_indexes
remove_edges_if none g = g
remove_edges_if (some p) g =
    if any p g.edges
    then rebuild_indexes (record g { edges = select (λ e. not (p e)) g.edges })
    else g

abbrev path_of : Option Node → Option Text
path_of none = none
path_of (some n) = if has_path n then some n.path else none

-- `none` is the result ("", false).
unfoldable pub node_path : Text → Graph → Option Text
unfolding get_node
node_path id g = path_of (get_node id g.nodes)

abbrev pub get_outgoing : Text → Graph → List Edge
get_outgoing id g = g.adj_forward id

abbrev pub get_incoming : Text → Graph → List Edge
get_incoming id g = g.adj_reverse id

-- The texts that are not among those seen, each once.
unfoldable pub unseen : List Text → List Text → List Text
unseen seen [] = []
unseen seen (t ∷ ts) = elim (any (same t) seen) [
  | true ↦ unseen seen ts
  | false ↦ t ∷ unseen (t ∷ seen) ts
]

abbrev pub wants : Text → Text → Bool
wants direction way = same direction way || same direction (codes "both")

-- The edges' other ends, in the order in which they are met.
unfoldable pub ends : Text → Text → Graph → List Text
ends id direction g =
    (if wants direction (codes "forward") then map (λ (e : Edge). e.to) (g.adj_forward id) else [])
    ++ (if wants direction (codes "reverse")
        then map (λ (e : Edge). e.from) (g.adj_reverse id)
        else [])

unfoldable pub get_neighbors : Text → Text → Graph → List Text
unfolding unseen ends
get_neighbors id direction g = unseen [] (ends id direction g)

unfoldable pub count_of : Text → List (Text × ℕ) → List (Text × ℕ)
count_of t [] = (t, 1) ∷ []
count_of t ((k, n) ∷ rest) =
    let others = count_of t rest in if same k t then (k, n + 1) ∷ rest else (k, n) ∷ others

unfoldable pub tally : List Text → List (Text × ℕ) → List (Text × ℕ)
unfolding count_of
tally [] m = m
tally (t ∷ ts) m = tally ts (count_of t m)

unfoldable pub latest : List ℕ → ℕ → ℕ
latest [] t = t
latest (u ∷ us) t = latest us (if ltb t u then u else t)

pub record GraphStats : Type 0 where
  pub total_nodes : ℕ
  pub total_edges : ℕ
  pub nodes_by_kind : List (Text × ℕ)
  pub edges_by_type : List (Text × ℕ)
  pub last_updated : ℕ

unfoldable pub stats : Graph → GraphStats
unfolding tally latest
stats g = record {
  total_nodes = length g.nodes;
  total_edges = length g.edges;
  nodes_by_kind = tally (map (λ (x : Text × Node). x.1.kind) g.nodes) [];
  edges_by_type = tally (map (λ (e : Edge). e.edge_type) g.edges) [];
  last_updated =
      latest (map (λ (e : Edge). e.updated_at) g.edges)
        (latest (map (λ (x : Text × Node). x.1.updated_at) g.nodes) 0);
}
