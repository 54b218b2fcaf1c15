-- ===== src/Rpg/Graph/WellFormed.antt =====
-- What the indexes of the nodes promise (rpg/model.go).
use grepai.Base.{All, Bool, true, false, ◌&&◌, List, [], ◌∷◌, Option, none, some, ◌≡◌, select}
use grepai.Base.Text.{Text, same}
use grepai.Rpg.Graph.{NodeKind, Node, Graph, get_node, has_path, is_hierarchy}

-- A node stands once in the index of its kind, and in that of its path where it has one.
abbrev pub entry : Bool → Node → List Node
entry true n = n ∷ []
entry false n = []

abbrev pub of_index : (Node → Bool) → (Node → Text) → Text → Option Node → List Node
of_index present key k none = []
of_index present key k (some n) = entry (present n && same (key n) k) n

abbrev pub of_kind : NodeKind → Option Node → List Node
of_kind = of_index (λ n. true) (λ n. n.kind)

abbrev pub of_file : Text → Option Node → List Node
of_file = of_index has_path (λ n. n.path)

abbrev pub named : Text → List Node → List Node
named id = select (λ (n : Node). same n.id id)

-- No ID stands twice among the nodes.
abbrev pub Unique : List (Text × Node) → Type 0
Unique [] = Unit
Unique ((k, n) ∷ rest) = (get_node k rest ≡ none) × Unique rest

-- The indexes of kinds and files are the nodes, each once, and the index of feature paths has only hierarchy
-- nodes of the graph, at their feature.
pub record IsIndexed (g : Graph) : Type 0 where
  pub unique : Unique g.nodes
  pub keyed : All (λ (x : Text × Node). x.1.id ≡ x.0) g.nodes
  pub kinds : (k id : Text) → named id (g.by_kind k) ≡ of_kind k (get_node id g.nodes)
  pub files : (p id : Text) → named id (g.by_file p) ≡ of_file p (get_node id g.nodes)
  pub features :
      (p : Text) (n : Node)
      → g.by_feature_path p ≡ some n
      → (get_node n.id g.nodes ≡ some n) × (is_hierarchy n.kind ≡ true) × (n.feature ≡ p)
