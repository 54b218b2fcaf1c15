-- ===== src/Rpg/Explore/Ends.antt =====
-- Explore ends, and keeps to its limit (rpg/query.go).
use grepai.Base.{
  ℕ, zero, suc, ◌+◌, ◌≤◌, ◌<◌, false, List, [], ◌∷◌, ◌++◌, Option, none, some, ◌≡◌, refl, ap, ◌∙◌,
  inl, inr, arith, if◌then◌else◌, if_split, leb, any, length, length-append, Bool-cases,
}
use grepai.Base.Text.{Text, same, same→eq}
use grepai.Rpg.Graph.{Node, Edge, Graph, get_node}
use grepai.Rpg.Explore.{
  ExploreRequest, Search, depth_of, matches_entity_type, allowed, edges_at, neighbor, Offered,
  goes_on, stops, see, take_in, meet, follow, offer, scan, expand, is_full, loop, start_at, explore,
  round, explore_from,
}

-- The entries of the graph whose IDs are not visited.
unvisited : List Text → List (Text × Node) → ℕ
unvisited seen [] = 0
unvisited seen ((k, n) ∷ ns) = (if any (same k) seen then 0 else 1) + unvisited seen ns

unvisited_see :
    (seen : List Text) (id : Text) (ns : List (Text × Node))
    → unvisited (id ∷ seen) ns ≤ unvisited seen ns
unfolding unvisited
unvisited_see seen id [] = omega arith
unvisited_see seen id ((k, n) ∷ ns) = ground (arith, unvisited_see seen id ns)

-- Visiting a node of the graph leaves one less.
unvisited_less :
    (seen : List Text) (id : Text) (n : Node) (ns : List (Text × Node))
    → any (same id) seen ≡ false
    → get_node id ns ≡ some n
    → unvisited (id ∷ seen) ns < unvisited seen ns
unfolding unvisited get_node
unvisited_less seen id n [] h e = ground arith
unvisited_less seen id n ((k, m) ∷ ns) h e = elim (Bool-cases (same k id)) [
  | inl hit ↦
      let rest = unvisited_see seen id ns in
      let fresh = ap (λ x. any (same x) seen) (same→eq k id hit) ∙ h in ground arith
  | inr miss ↦ let rest = unvisited_less seen id n ns h in ground arith
]

unvisited_bound : (seen : List Text) (ns : List (Text × Node)) → unvisited seen ns ≤ length ns
unfolding unvisited
unvisited_bound seen [] = omega arith
unvisited_bound seen ((k, n) ∷ ns) = ground (arith, unvisited_bound seen ns)

module _ (g : Graph) (r : ExploreRequest) where
  -- What a round uses up.
  left : Search → ℕ
  left s = length s.queue + unvisited s.visited g.nodes

  abbrev LeftAfter : ℕ → Offered → Type 0
  LeftAfter n (goes_on s) = left s ≤ n
  LeftAfter n (stops s) = left s ≤ n

  take_in-LeftAfter :
      (id : Text) (d : ℕ) (n : Node) (s : Search) (m : ℕ)
      → left s + 1 ≤ m
      → LeftAfter m (take_in g r id d n s)
  unfolding take_in left
  take_in-LeftAfter id d n s m h =
      let longer = length-append s.queue ((id, d + 1) ∷ []) in ground arith

  meet-LeftAfter :
      (id : Text) (d : ℕ) (o : Option Node) (s : Search)
      → get_node id g.nodes ≡ o
      → any (same id) s.visited ≡ false
      → LeftAfter (left s) (meet g r id d o (see id s))
  unfolding meet left
  meet-LeftAfter id d none s e h = omega (arith, unvisited_see s.visited id g.nodes)
  meet-LeftAfter id d (some n) s e h =
      let less = unvisited_less s.visited id n g.nodes h e in
      if_split (LeftAfter (left s)) (matches_entity_type r.entity_type_filter n)
        (take_in g r id d n (see id s)) (goes_on (see id s))
        (λ _. take_in-LeftAfter id d n (see id s) (left s) (omega arith)) (λ _. omega arith)

  follow-LeftAfter : (id : Text) (d : ℕ) (s : Search) → LeftAfter (left s) (follow g r id d s)
  unfolding follow
  follow-LeftAfter id d s =
      if_split (LeftAfter (left s)) (any (same id) s.visited) (goes_on s)
        (meet g r id d (get_node id g.nodes) (see id s)) (λ _. omega arith)
        (λ new. meet-LeftAfter id d (get_node id g.nodes) s refl new)

  offer-LeftAfter :
      (id : Text) (d : ℕ) (e : Edge) (s : Search) → LeftAfter (left s) (offer g r id d e s)
  unfolding offer left
  offer-LeftAfter id d e s =
      if_split (LeftAfter (left s)) (allowed r.edge_types e)
        (follow g r (neighbor id e) d (record s { edges = s.edges ++ (e ∷ []) })) (goes_on s)
        (λ _. follow-LeftAfter (neighbor id e) d (record s { edges = s.edges ++ (e ∷ []) }))
        (λ _. omega arith)

  resume_left :
      (id : Text) (d : ℕ) (es : List Edge) (n : ℕ) (o : Offered)
      → LeftAfter n o
      → ((s : Search) → left (scan g r id d es s) ≤ left s)
      → left (elim o [ stops s' ↦ s' | goes_on s' ↦ scan g r id d es s' ]) ≤ n
  resume_left id d es n (stops s) h rest = h
  resume_left id d es n (goes_on s) h rest = omega (arith, rest s)

  left-scan : (id : Text) (d : ℕ) (es : List Edge) (s : Search) → left (scan g r id d es s) ≤ left s
  unfolding scan
  left-scan id d [] s = omega arith
  left-scan id d (e ∷ es) s =
      resume_left id d es (left s) (offer g r id d e s) (offer-LeftAfter id d e s)
        (left-scan id d es)

  left-expand :
      (id : Text) (d : ℕ) (rest : List (Text × ℕ)) (s : Search)
      → s.queue ≡ (id, d) ∷ rest
      → left (expand g r id d rest s) < left s
  unfolding left
  left-expand id d rest s e =
      let shorter = ap length e in
      let popped = record s { queue = rest } in
      if_split (λ t. left t < left s) (leb (depth_of r) d) popped
        (scan g r id d (edges_at g r.direction id) popped) (λ _. omega arith)
        (λ _. let fewer = left-scan id d (edges_at g r.direction id) popped in omega arith)

  abbrev Returns : Option Search → Type 0
  Returns o = (t : Search) × (o ≡ some t)

  round_ends :
      (q : List (Text × ℕ)) (s : Search) (rest_of : Search → Option Search)
      → s.queue ≡ q
      → ((s' : Search) → left s' < left s → Returns (rest_of s'))
      → Returns (round g r q s rest_of)
  unfolding round
  round_ends [] s rest_of e rest = (s, refl)
  round_ends ((id, d) ∷ q) s rest_of e rest =
      if_split Returns (is_full g r d s) (some (record s { queue = q }))
        (rest_of (expand g r id d q s)) (λ _. (record s { queue = q }, refl))
        (λ _. rest (expand g r id d q s) (left-expand id d q s e))

  loop_ends : (fuel : ℕ) (s : Search) → left s < fuel → Returns (loop g r fuel s)
  unfolding loop
  loop_ends zero s h = absurd (omega arith)
  loop_ends (suc fuel) s h =
      round_ends s.queue s (loop g r fuel) refl (λ s' k. loop_ends fuel s' (omega arith))

-- From a node that the graph has, the loop of Explore ends, whatever the request: the search
-- returns a result.
pub explore_ends :
    (g : Graph) (r : ExploreRequest) (from : Text) (n : Node)
    → get_node from g.nodes ≡ some n
    → (t : Search) × (explore g r from ≡ some t)
unfolding explore left
explore_ends g r from n e =
    let bound = unvisited_bound (n.id ∷ []) g.nodes in
    let (t, ended) = loop_ends g r (suc (suc (length g.nodes))) (start_at g r n) (omega arith) in
    (t, ap (explore_from g r) e ∙ ended)
