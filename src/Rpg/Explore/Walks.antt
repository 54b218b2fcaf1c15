-- ===== src/Rpg/Explore/Walks.antt =====
-- The walks that Explore may take (rpg/query.go).
use grepai.Base.{
  ℕ, ◌+◌, true, false, List, [], ◌∷◌, ◌++◌, ◌≡◌, refl, sym, subst, ◌⊎◌, inl, inr, arith, All,
  All-imp, All-append, any, Bool-cases, if_split,
}
use grepai.Base.Text.{Text, codes, same, same→eq}
use grepai.Rpg.Graph.{EdgeType, Edge, Graph}
use grepai.Rpg.Explore.{ExploreRequest, allowed, edges_at, neighbor}

abbrev pub In : Edge → List Edge → Type 0
In e [] = ⊥
In e (x ∷ xs) = (e ≡ x) ⊎ In e xs

-- An edge that the request's direction lets a walk take at a node: an outgoing one unless the direction is
-- "reverse", an incoming one unless it is "forward".
abbrev pub Leaves : Graph → ExploreRequest → Text → Edge → Type 0
Leaves g r u e =
    ((same r.direction (codes "reverse") ≡ false) × In e (g.adj_forward u))
    ⊎ ((same r.direction (codes "forward") ≡ false) × In e (g.adj_reverse u))

-- The end of an edge that is not the node, if one is not.
abbrev pub OtherEnd : Text → Edge → Text → Type 0
OtherEnd u e v = ((same e.to u ≡ false) × (v ≡ e.to)) ⊎ ((e.to ≡ u) × (v ≡ e.from))

abbrev pub Listed : EdgeType → List EdgeType → Type 0
Listed t [] = ⊥
Listed t (x ∷ xs) = (t ≡ x) ⊎ Listed t xs

-- The edge's type is asked for; no types ask for all.
abbrev pub OfType : List EdgeType → Edge → Type 0
OfType ts e = (ts ≡ []) ⊎ Listed e.edge_type ts

-- A walk of a length along edges of the request's direction and types.
pub data Walk (g : Graph) (r : ExploreRequest) (from : Text) : Text → ℕ → Type 0 where
  here : Walk g r from from 0
  step :
      {u v : Text} {n : ℕ} (e : Edge)
      → Walk g r from u n
      → Leaves g r u e
      → OtherEnd u e v
      → OfType r.edge_types e
      → Walk g r from v (n + 1)

All-In : (l : List Edge) → All (λ e. In e l) l
All-In [] = tt
All-In (e ∷ l) = (inl refl, All-imp (λ x. In x l) (λ x. In x (e ∷ l)) l (λ x m. inr m) (All-In l))

forward_not_reverse :
    (d : Text) → same d (codes "forward") ≡ true → same d (codes "reverse") ≡ false
unfolding same
forward_not_reverse d e =
    subst (λ x. same x (codes "reverse") ≡ false) (sym (same→eq d (codes "forward") e)) refl

pub edges_at-Leaves :
    (g : Graph) (r : ExploreRequest) (u : Text) → All (Leaves g r u) (edges_at g r.direction u)
unfolding edges_at
edges_at-Leaves g r u =
    let out = All-In (g.adj_forward u) in
    let back = All-In (g.adj_reverse u) in
    let outgoing = λ (k : same r.direction (codes "reverse") ≡ false).
      All-imp (λ e. In e (g.adj_forward u)) (Leaves g r u) (g.adj_forward u) (λ e m. inl (k, m))
        out in
    let incoming = λ (k : same r.direction (codes "forward") ≡ false).
      All-imp (λ e. In e (g.adj_reverse u)) (Leaves g r u) (g.adj_reverse u) (λ e m. inr (k, m))
        back in
    if_split (All (Leaves g r u)) (same r.direction (codes "forward")) (g.adj_forward u) _
      (λ k. outgoing (forward_not_reverse r.direction k))
      (λ k.
        if_split (All (Leaves g r u)) (same r.direction (codes "reverse")) (g.adj_reverse u)
          (g.adj_forward u ++ g.adj_reverse u) (λ _. incoming k)
          (λ j.
            All-append (Leaves g r u) (g.adj_forward u) (g.adj_reverse u) (outgoing j)
              (incoming k)))

pub neighbor-OtherEnd : (u : Text) (e : Edge) → OtherEnd u e (neighbor u e)
unfolding neighbor
neighbor-OtherEnd u e = elim (Bool-cases (same e.to u)) [
  | inl k ↦ inr (same→eq e.to u k, ground (arith, k))
  | inr k ↦ inl (k, ground (arith, k))
]

any-Listed : (t : EdgeType) (ts : List EdgeType) → any (same t) ts ≡ true → Listed t ts
any-Listed t [] h = ground arith
any-Listed t (x ∷ ts) h = elim (Bool-cases (same t x)) [
  | inl k ↦ inl (same→eq t x k)
  | inr k ↦ inr (any-Listed t ts (ground (arith, k)))
]

pub allowed-OfType : (ts : List EdgeType) (e : Edge) → allowed ts e ≡ true → OfType ts e
unfolding allowed
allowed-OfType [] e h = inl refl
allowed-OfType (t ∷ ts) e h = inr (any-Listed e.edge_type (t ∷ ts) h)
