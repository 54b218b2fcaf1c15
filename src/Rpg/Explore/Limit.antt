-- ===== src/Rpg/Explore/Limit.antt =====
-- Explore keeps to its limit (rpg/query.go).
use grepai.Base.{
  ℕ, zero, suc, ◌≤◌, ◌<◌, false, List, [], ◌∷◌, ◌++◌, Option, none, some, ◌≡◌, subst, arith,
  if_split, leb, any, length, not_leb→lt, some_inj,
}
use grepai.Base.Text.{Text, same}
use grepai.Rpg.Graph.{Node, Edge, Graph, get_node}
use grepai.Rpg.Explore.{
  ExploreRequest, Search, depth_of, limit_of, matches_entity_type, allowed, edges_at, neighbor,
  Offered, goes_on, stops, see, take_in, meet, follow, offer, scan, expand, is_full, loop, start_at,
  explore, round, explore_from,
}

module _ (g : Graph) (r : ExploreRequest) where
  abbrev Within : Search → Type 0
  Within s = length s.nodes ≤ limit_of r

  abbrev WithinOffer : Offered → Type 0
  WithinOffer (goes_on s) = length s.nodes < limit_of r
  WithinOffer (stops s) = length s.nodes ≤ limit_of r

  limit_positive : 1 ≤ limit_of r
  unfolding limit_of
  limit_positive = ground arith

  take_in-WithinOffer :
      (id : Text) (d : ℕ) (n : Node) (s : Search)
      → length s.nodes < limit_of r
      → WithinOffer (take_in g r id d n s)
  unfolding take_in
  take_in-WithinOffer id d n s h =
      if_split WithinOffer (leb (limit_of r) (suc (length s.nodes))) _ _ (λ _. omega arith)
        (λ room. not_leb→lt (limit_of r) (suc (length s.nodes)) room)

  meet-WithinOffer :
      (id : Text) (d : ℕ) (o : Option Node) (s : Search)
      → length s.nodes < limit_of r
      → WithinOffer (meet g r id d o s)
  unfolding meet
  meet-WithinOffer id d none s h = h
  meet-WithinOffer id d (some n) s h =
      if_split WithinOffer (matches_entity_type r.entity_type_filter n) (take_in g r id d n s)
        (goes_on s) (λ _. take_in-WithinOffer id d n s h) (λ _. h)

  follow-WithinOffer :
      (id : Text) (d : ℕ) (s : Search)
      → length s.nodes < limit_of r
      → WithinOffer (follow g r id d s)
  unfolding follow
  follow-WithinOffer id d s h =
      if_split WithinOffer (any (same id) s.visited) (goes_on s)
        (meet g r id d (get_node id g.nodes) (see id s)) (λ _. h)
        (λ _. meet-WithinOffer id d (get_node id g.nodes) (see id s) h)

  offer-WithinOffer :
      (id : Text) (d : ℕ) (e : Edge) (s : Search)
      → length s.nodes < limit_of r
      → WithinOffer (offer g r id d e s)
  unfolding offer
  offer-WithinOffer id d e s h =
      if_split WithinOffer (allowed r.edge_types e)
        (follow g r (neighbor id e) d (record s { edges = s.edges ++ (e ∷ []) })) (goes_on s)
        (λ _. follow-WithinOffer (neighbor id e) d (record s { edges = s.edges ++ (e ∷ []) }) h)
        (λ _. h)

  resume-Within :
      (id : Text) (d : ℕ) (es : List Edge) (o : Offered)
      → WithinOffer o
      → ((s : Search) → length s.nodes < limit_of r → Within (scan g r id d es s))
      → Within (elim o [ stops s' ↦ s' | goes_on s' ↦ scan g r id d es s' ])
  resume-Within id d es (stops s) h rest = h
  resume-Within id d es (goes_on s) h rest = rest s h

  scan-Within :
      (id : Text) (d : ℕ) (es : List Edge) (s : Search)
      → length s.nodes < limit_of r
      → Within (scan g r id d es s)
  unfolding scan
  scan-Within id d [] s h = omega arith
  scan-Within id d (e ∷ es) s h =
      resume-Within id d es (offer g r id d e s) (offer-WithinOffer id d e s h)
        (scan-Within id d es)

  room :
      (d : ℕ) (s : Search)
      → is_full g r d s ≡ false
      → leb (depth_of r) d ≡ false
      → length s.nodes < limit_of r
  room d s h k = not_leb→lt (limit_of r) (length s.nodes) (ground arith)

  expand-Within :
      (id : Text) (d : ℕ) (rest : List (Text × ℕ)) (s : Search)
      → is_full g r d s ≡ false
      → Within s
      → Within (expand g r id d rest s)
  expand-Within id d rest s h v =
      let popped = record s { queue = rest } in
      if_split Within (leb (depth_of r) d) popped (scan g r id d (edges_at g r.direction id) popped)
        (λ _. v)
        (λ shallow. scan-Within id d (edges_at g r.direction id) popped (room d s h shallow))

  round-Within :
      (q : List (Text × ℕ)) (s t : Search) (rest_of : Search → Option Search)
      → Within s
      → ((s' : Search) → Within s' → rest_of s' ≡ some t → Within t)
      → round g r q s rest_of ≡ some t
      → Within t
  unfolding round
  round-Within [] s t rest_of v rest = λ h. subst Within (some_inj h) v
  round-Within ((id, d) ∷ q) s t rest_of v rest =
      if_split (λ o. o ≡ some t → Within t) (is_full g r d s) (some (record s { queue = q }))
        (rest_of (expand g r id d q s)) (λ _ h. subst Within (some_inj h) v)
        (λ open_end. rest (expand g r id d q s) (expand-Within id d q s open_end v))

  loop-Within : (fuel : ℕ) (s t : Search) → Within s → loop g r fuel s ≡ some t → Within t
  unfolding loop
  loop-Within zero s t v h = ground arith
  loop-Within (suc fuel) s t v h =
      round-Within s.queue s t (loop g r fuel) v (λ s' v' h'. loop-Within fuel s' t v' h') h

  explore_from-Within : (o : Option Node) (t : Search) → explore_from g r o ≡ some t → Within t
  explore_from-Within none t h = ground arith
  explore_from-Within (some n) t h =
      loop-Within (suc (suc (length g.nodes))) (start_at g r n) t limit_positive h

-- Explore returns at most as many nodes as the limit, which is 100 where none is given.
pub explore_limit :
    (g : Graph) (r : ExploreRequest) (from : Text) (t : Search)
    → explore g r from ≡ some t
    → length t.nodes ≤ limit_of r
unfolding explore
explore_limit g r from t h = explore_from-Within g r (get_node from g.nodes) t h
