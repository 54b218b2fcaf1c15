-- ===== src/Rpg/Explore/Sound.antt =====
-- What Explore returns is what walks of the given depth reach (rpg/query.go).
use grepai.Base.{
  ℕ, zero, suc, ◌+◌, ◌≤◌, ◌<◌, List, [], ◌∷◌, ◌++◌, Option, none, some, ◌≡◌, refl, subst, inl, inr,
  ◌⊎◌, arith, All, All-append, if_split, leb, any, length, some_inj, not_leb→lt,
}
use grepai.Base.Text.{Text, same}
use grepai.Rpg.Graph.{Node, Edge, Graph, get_node}
use grepai.Rpg.Explore.{
  ExploreRequest, Search, depth_of, limit_of, matches_entity_type, allowed, edges_at, neighbor,
  Offered, goes_on, stops, see, take_in, meet, follow, offer, scan, expand, is_full, loop, start_at,
  explore, round, explore_from,
}
use grepai.Rpg.Explore.Limit.{explore_limit}
use grepai.Rpg.Explore.Walks.{
  Walk, here, step, Leaves, OfType, edges_at-Leaves, neighbor-OtherEnd, allowed-OfType,
}

module _ (g : Graph) (r : ExploreRequest) (start : Node) where
  -- The graph's node of an ID, or the start under its own ID, that a walk of at most the depth reaches.
  abbrev pub Reached : Text × Node → Type 0
  Reached x =
      ((get_node x.0 g.nodes ≡ some x.1) ⊎ (x ≡ (start.id, start)))
      × (n : ℕ) × Walk g r start.id x.0 n
      × (n ≤ depth_of r)

  abbrev Queued : Text × ℕ → Type 0
  Queued x = Walk g r start.id x.0 x.1

  pub record IsSound (s : Search) : Type 0 where
    pub queued : All Queued s.queue
    pub reached : All Reached s.nodes
    pub passed : All (OfType r.edge_types) s.edges

  abbrev IsSoundOffer : Offered → Type 0
  IsSoundOffer (goes_on s) = IsSound s
  IsSoundOffer (stops s) = IsSound s

  take_in-IsSound :
      (id : Text) (d : ℕ) (n : Node) (s : Search)
      → IsSound s
      → get_node id g.nodes ≡ some n
      → Walk g r start.id id (d + 1)
      → d < depth_of r
      → IsSoundOffer (take_in g r id d n s)
  unfolding take_in
  take_in-IsSound id d n s v e w h =
      if_split IsSoundOffer (leb (limit_of r) (suc (length s.nodes))) _ _
        (λ _. record {
          queued = v.queued;
          reached = ((inl e, d + 1, w, omega arith), v.reached);
          passed = v.passed;
        })
        (λ _. record {
          queued = All-append Queued s.queue _ v.queued (w, tt);
          reached = ((inl e, d + 1, w, omega arith), v.reached);
          passed = v.passed;
        })

  meet-IsSound :
      (id : Text) (d : ℕ) (o : Option Node) (s : Search)
      → IsSound s
      → get_node id g.nodes ≡ o
      → Walk g r start.id id (d + 1)
      → d < depth_of r
      → IsSoundOffer (meet g r id d o s)
  unfolding meet
  meet-IsSound id d none s v e w h = v
  meet-IsSound id d (some n) s v e w h =
      if_split IsSoundOffer (matches_entity_type r.entity_type_filter n) (take_in g r id d n s)
        (goes_on s) (λ _. take_in-IsSound id d n s v e w h) (λ _. v)

  follow-IsSound :
      (id : Text) (d : ℕ) (s : Search)
      → IsSound s
      → Walk g r start.id id (d + 1)
      → d < depth_of r
      → IsSoundOffer (follow g r id d s)
  unfolding follow
  follow-IsSound id d s v w h =
      if_split IsSoundOffer (any (same id) s.visited) (goes_on s)
        (meet g r id d (get_node id g.nodes) (see id s)) (λ _. v)
        (λ _.
          meet-IsSound id d (get_node id g.nodes) (see id s)
            (record { queued = v.queued; reached = v.reached; passed = v.passed }) refl w h)

  offer-IsSound :
      (id : Text) (d : ℕ) (e : Edge) (s : Search)
      → IsSound s
      → Walk g r start.id id d
      → Leaves g r id e
      → d < depth_of r
      → IsSoundOffer (offer g r id d e s)
  unfolding offer
  offer-IsSound id d e s v w m h =
      if_split IsSoundOffer (allowed r.edge_types e)
        (follow g r (neighbor id e) d (record s { edges = s.edges ++ (e ∷ []) })) (goes_on s)
        (λ ok.
          follow-IsSound (neighbor id e) d (record s { edges = s.edges ++ (e ∷ []) })
            (record {
              queued = v.queued;
              reached = v.reached;
              passed =
                  All-append _ s.edges (e ∷ []) v.passed (allowed-OfType r.edge_types e ok, tt);
            })
            (step e w m (neighbor-OtherEnd id e) (allowed-OfType r.edge_types e ok)) h)
        (λ _. v)

  resume-IsSound :
      (id : Text) (d : ℕ) (es : List Edge) (o : Offered)
      → IsSoundOffer o
      → ((s : Search) → IsSound s → IsSound (scan g r id d es s))
      → IsSound (elim o [ stops s' ↦ s' | goes_on s' ↦ scan g r id d es s' ])
  resume-IsSound id d es (stops s) v rest = v
  resume-IsSound id d es (goes_on s) v rest = rest s v

  scan-IsSound :
      (id : Text) (d : ℕ) (es : List Edge) (s : Search)
      → IsSound s
      → Walk g r start.id id d
      → All (Leaves g r id) es
      → d < depth_of r
      → IsSound (scan g r id d es s)
  unfolding scan
  scan-IsSound id d [] s v w m h = v
  scan-IsSound id d (e ∷ es) s v w m h =
      resume-IsSound id d es (offer g r id d e s) (offer-IsSound id d e s v w m.0 h)
        (λ s' v'. scan-IsSound id d es s' v' w m.1 h)

  expand-IsSound :
      (id : Text) (d : ℕ) (rest : List (Text × ℕ)) (s : Search)
      → s.queue ≡ (id, d) ∷ rest
      → IsSound s
      → IsSound (expand g r id d rest s)
  expand-IsSound id d rest s e v =
      let q = subst (All Queued) e v.queued in
      let popped : IsSound (record s { queue = rest }) = record {
        queued = q.1;
        reached = v.reached;
        passed = v.passed;
      } in
      if_split IsSound (leb (depth_of r) d) (record s { queue = rest })
        (scan g r id d (edges_at g r.direction id) (record s { queue = rest })) (λ _. popped)
        (λ shallow.
          scan-IsSound id d (edges_at g r.direction id) (record s { queue = rest }) popped q.0
            (edges_at-Leaves g r id) (not_leb→lt (depth_of r) d shallow))

  round-IsSound :
      (q : List (Text × ℕ)) (s t : Search) (rest_of : Search → Option Search)
      → s.queue ≡ q
      → IsSound s
      → ((s' : Search) → IsSound s' → rest_of s' ≡ some t → IsSound t)
      → round g r q s rest_of ≡ some t
      → IsSound t
  unfolding round
  round-IsSound [] s t rest_of e v rest = λ h. subst IsSound (some_inj h) v
  round-IsSound ((id, d) ∷ q) s t rest_of e v rest =
      let popped : IsSound (record s { queue = q }) = record {
        queued = (subst (All Queued) e v.queued).1;
        reached = v.reached;
        passed = v.passed;
      } in
      if_split (λ o. o ≡ some t → IsSound t) (is_full g r d s) (some (record s { queue = q }))
        (rest_of (expand g r id d q s)) (λ _ h. subst IsSound (some_inj h) popped)
        (λ _. rest (expand g r id d q s) (expand-IsSound id d q s e v))

  loop-IsSound : (fuel : ℕ) (s t : Search) → IsSound s → loop g r fuel s ≡ some t → IsSound t
  unfolding loop
  loop-IsSound zero s t v h = ground arith
  loop-IsSound (suc fuel) s t v h =
      round-IsSound s.queue s t (loop g r fuel) refl v (λ s' v' h'. loop-IsSound fuel s' t v' h') h

  start_at-IsSound : IsSound (start_at g r start)
  start_at-IsSound = record {
    queued = (here, tt);
    reached = ((inr refl, 0, here, omega arith), tt);
    passed = tt;
  }

explore_from-IsSound :
    (g : Graph) (r : ExploreRequest) (from : Text) (o : Option Node) (t : Search)
    → get_node from g.nodes ≡ o
    → explore_from g r o ≡ some t
    → (n : Node) × (get_node from g.nodes ≡ some n) × IsSound g r n t
explore_from-IsSound g r from none t e h = ground arith
explore_from-IsSound g r from (some n) t e h = (
  n,
  e,
  loop-IsSound g r n (suc (suc (length g.nodes))) (start_at g r n) t (start_at-IsSound g r n) h,
)

-- Where Explore returns, the graph has the start node. Every node that is returned is the graph's
-- node of its ID, or the start node under its own, and a walk from the start's ID of at most the
-- depth reaches it along edges of the direction and types asked for; every edge that is returned
-- is of a type asked for; and the nodes are at most as many as the limit.
pub explore-IsSound :
    (g : Graph) (r : ExploreRequest) (from : Text) (t : Search)
    → explore g r from ≡ some t
    → (n : Node) × (get_node from g.nodes ≡ some n)
      × All (Reached g r n) t.nodes
      × All (OfType r.edge_types) t.edges
      × (length t.nodes ≤ limit_of r)
unfolding explore
explore-IsSound g r from t h =
    let (n, e, v) = explore_from-IsSound g r from (get_node from g.nodes) t refl h in
    (n, e, v.reached, v.passed, explore_limit g r from t h)
