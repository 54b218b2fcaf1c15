-- ===== src/Rpg/Explore.antt =====
-- rpg/query.go: Explore, from the start node that the request resolves to, and the test of an entity type, whose
-- filter has been trimmed and lowered. Each round of its loop takes an entry off the queue: it runs on fuel.
pub mod Walks
pub mod Sound
pub mod Ends
pub mod Limit
use grepai.Base.{
  ℕ, zero, suc, ◌+◌, Bool, true, false, ◌&&◌, ◌||◌, not, List, [], ◌∷◌, ◌++◌, Option, none, some,
  if◌then◌else◌, ltb, leb, any, length,
}
use grepai.Base.Int.{ℤ, pos, ltb_ℤ, pos_part}
use grepai.Base.Text.{Text, codes, same}
use grepai.Rpg.Graph.{EdgeType, Node, Edge, Graph, get_node, is_hierarchy}

pub record ExploreRequest : Type 0 where
  pub direction : Text
  pub depth : ℤ
  pub traversal_depth : ℤ
  pub edge_types : List EdgeType
  pub entity_type_filter : Text
  pub limit : ℤ

-- `visited` and `nodes` are maps, the latest key first; `queue` is what the result does not have.
pub record Search : Type 0 where
  pub queue : List (Text × ℕ)
  pub visited : List Text
  pub nodes : List (Text × Node)
  pub edges : List Edge
  pub depth : ℕ

-- A positive number, or the default.
abbrev positive_or : ℕ → ℤ → ℕ
positive_or d n = if ltb_ℤ (pos 0) n then pos_part n else d

unfoldable pub depth_of : ExploreRequest → ℕ
depth_of r = positive_or (positive_or 2 r.traversal_depth) r.depth

unfoldable pub limit_of : ExploreRequest → ℕ
limit_of r = positive_or 100 r.limit

abbrev pub is_file_kind : Text → Bool
is_file_kind k = same k (codes "file")

abbrev pub is_symbol_kind : Text → Bool
is_symbol_kind k = same k (codes "symbol")

unfoldable pub matches_entity_type : Text → Node → Bool
matches_entity_type filter n =
    if same filter (codes "directory")
    then is_hierarchy n.kind
    else (if same filter (codes "file")
        then is_file_kind n.kind
        else (if same filter (codes "class")
              || (same filter (codes "function") || same filter (codes "method"))
            then is_symbol_kind n.kind
            else true))

unfoldable pub allowed : List EdgeType → Edge → Bool
allowed [] e = true
allowed (t ∷ ts) e = any (same e.edge_type) (t ∷ ts)

unfoldable pub edges_at : Graph → Text → Text → List Edge
edges_at g direction id =
    if same direction (codes "forward")
    then g.adj_forward id
    else (if same direction (codes "reverse")
        then g.adj_reverse id
        else g.adj_forward id ++ g.adj_reverse id)

unfoldable pub neighbor : Text → Edge → Text
neighbor id e = if same e.to id then e.from else e.to

-- Whether the loop over the edges goes on.
pub data Offered : Type 0 where
  goes_on stops : Search → Offered

abbrev pub see : Text → Search → Search
see id s = record s { visited = id ∷ s.visited }

module _ (g : Graph) (r : ExploreRequest) where
  -- A neighbour that joins the result.
  unfoldable pub take_in : Text → ℕ → Node → Search → Offered
  unfolding limit_of
  take_in id d n s =
      let s' = record s { nodes = (id, n) ∷ s.nodes } in
      if leb (limit_of r) (length s'.nodes)
      then stops s'
      else goes_on (record s' {
        depth = if ltb s.depth (d + 1) then d + 1 else s.depth;
        queue = s.queue ++ ((id, d + 1) ∷ []);
      })

  unfoldable pub meet : Text → ℕ → Option Node → Search → Offered
  unfolding matches_entity_type take_in
  meet id d none s = goes_on s
  meet id d (some n) s =
      if matches_entity_type r.entity_type_filter n then take_in id d n s else goes_on s

  -- An edge that passes the filter.
  unfoldable pub follow : Text → ℕ → Search → Offered
  unfolding meet get_node
  follow id d s =
      if any (same id) s.visited then goes_on s else meet id d (get_node id g.nodes) (see id s)

  unfoldable pub offer : Text → ℕ → Edge → Search → Offered
  unfolding allowed neighbor follow
  offer id d e s =
      if allowed r.edge_types e
      then follow (neighbor id e) d (record s { edges = s.edges ++ (e ∷ []) })
      else goes_on s

  -- The loop over the edges of an entry.
  unfoldable pub scan : Text → ℕ → List Edge → Search → Search
  unfolding offer
  scan id d [] s = s
  scan id d (e ∷ es) s = elim (offer id d e s) [ stops s' ↦ s' | goes_on s' ↦ scan id d es s' ]

  abbrev pub expand : Text → ℕ → List (Text × ℕ) → Search → Search
  expand id d rest s =
      if leb (depth_of r) d
      then record s { queue = rest }
      else scan id d (edges_at g r.direction id) (record s { queue = rest })

  -- The end of the loop at an entry that is not too deep.
  abbrev pub is_full : ℕ → Search → Bool
  is_full d s = not (leb (depth_of r) d) && leb (limit_of r) (length s.nodes)

  -- A round of the loop, by its queue; `rest_of` is the rounds that follow.
  unfoldable pub round : List (Text × ℕ) → Search → (Search → Option Search) → Option Search
  unfolding scan edges_at depth_of limit_of
  round [] s rest_of = some s
  round ((id, d) ∷ rest) s rest_of =
      if is_full d s then some (record s { queue = rest }) else rest_of (expand id d rest s)

  -- `none` is out of fuel.
  unfoldable pub loop : ℕ → Search → Option Search
  unfolding round
  loop zero s = none
  loop (suc fuel) s = round s.queue s (loop fuel)

  abbrev pub start_at : Node → Search
  start_at n = record {
    queue = (n.id, 0) ∷ [];
    visited = n.id ∷ [];
    nodes = (n.id, n) ∷ [];
    edges = [];
    depth = 0;
  }

  abbrev pub explore_from : Option Node → Option Search
  explore_from none = none
  explore_from (some n) = loop (suc (suc (length g.nodes))) (start_at n)

  -- `none` is a start node that the graph does not have.
  unfoldable pub explore : Text → Option Search
  unfolding loop get_node
  explore id = explore_from (get_node id g.nodes)
