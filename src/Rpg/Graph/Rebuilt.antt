-- ===== src/Rpg/Graph/Rebuilt.antt =====
-- RebuildIndexes indexes the nodes anew (rpg/model.go).
use grepai.Base.{
  Bool, true, false, List, [], ◌∷◌, ◌++◌, Option, none, some, ◌≡◌, refl, sym, ap, ◌∙◌, arith, All,
  if◌then◌else◌, Bool-cases, inl, inr,
}
use grepai.Base.Text.{Text, same, same→eq, same_comm}
use grepai.Rpg.Graph.{Node, Graph, get_node, index_node, index_nodes, has_path}
use grepai.Rpg.Graph.WellFormed.{of_index, Unique}
use grepai.Rpg.Graph.Tracks.{Tracks, change, put_in}
use grepai.Rpg.Graph.Nodes.{put}
use grepai.Rpg.Graph.Features.{Names, name, put-Names}

abbrev pub or_else : Option Node → Option Node → Option Node
or_else none o = o
or_else (some n) o = some n

-- The nodes of a list come before those found already.
abbrev pub found_in : List (Text × Node) → (Text → Option Node) → Text → Option Node
found_in ns find id = or_else (get_node id ns) (find id)

abbrev pub Keyed : List (Text × Node) → Type 0
Keyed = All (λ (x : Text × Node). x.1.id ≡ x.0)

abbrev pub Fresh : (Text → Option Node) → List (Text × Node) → Type 0
Fresh find = All (λ (x : Text × Node). find x.0 ≡ none)

-- Putting the first node keeps the others new.
put-Fresh :
    (n : Node) (find : Text → Option Node) (ns : List (Text × Node))
    → get_node n.id ns ≡ none
    → Fresh find ns
    → Fresh (put n find) ns
unfolding get_node
put-Fresh n find [] u f = tt
put-Fresh n find ((k, m) ∷ ns) u f = elim (Bool-cases (same k n.id)) [
  | inl hit ↦ ground arith
  | inr miss ↦
      let apart = same_comm n.id k ∙ miss in
      (ap (λ b. if b then some n else find k) apart ∙ f.0, put-Fresh n find ns (ground arith) f.1)
]

-- The order in which nodes are put does not matter.
found_cons :
    (k : Text) (n : Node) (ns : List (Text × Node)) (find : Text → Option Node) (id : Text)
    → n.id ≡ k
    → get_node k ns ≡ none
    → found_in ns (put n find) id ≡ found_in ((k, n) ∷ ns) find id
unfolding get_node
found_cons k n ns find id e u = elim (Bool-cases (same k id)) [
  | inl hit ↦
      let mine = ap (λ x. same x id) e ∙ hit in
      let absent = ap (λ i. get_node i ns) (sym (same→eq k id hit)) ∙ u in ground arith
  | inr miss ↦ let apart = ap (λ x. same x id) e ∙ miss in ground arith
]

-- The loop over the nodes, for one index.
module _ (present : Node → Bool) (key : Node → Text) where
  abbrev pub walk : List (Text × Node) → (Text → List Node) → Text → List Node
  walk [] idx = idx
  walk ((k, n) ∷ ns) idx = walk ns (change present key n (λ l. l ++ (n ∷ [])) idx)

  pub walk-Tracks :
      (ns : List (Text × Node)) (idx : Text → List Node) (find : Text → Option Node)
      → Keyed ns
      → Unique ns
      → Fresh find ns
      → Tracks present key idx find
      → Tracks present key (walk ns idx) (found_in ns find)
  unfolding get_node
  walk-Tracks [] idx find e u f t p id = t p id
  walk-Tracks ((k, n) ∷ ns) idx find e u f t p id =
      let absent = ap find e.0 ∙ f.0 in
      let unseen = ap (λ i. get_node i ns) e.0 ∙ u.0 in
      let entered =
        put_in present key idx find n (λ q. t q n.id ∙ ap (of_index present key q) absent)
          (λ q other apart. t q other) in
      walk-Tracks ns (change present key n (λ l. l ++ (n ∷ [])) idx) (put n find) e.1 u.1
        (put-Fresh n find ns unseen f.1) entered p id
      ∙ ap (of_index present key p) (found_cons k n ns find id e.0 u.0)

pub apart_found :
    (n o : Node) (find : Text → Option Node)
    → find n.id ≡ none
    → find o.id ≡ some o
    → same n.id o.id ≡ false
apart_found n o find absent there = elim (Bool-cases (same n.id o.id)) [
  | inl hit ↦ let clash = sym absent ∙ ap find (same→eq n.id o.id hit) ∙ there in ground arith
  | inr miss ↦ miss
]

abbrev pub walk_names : List (Text × Node) → (Text → Option Node) → Text → Option Node
walk_names [] bf = bf
walk_names ((k, n) ∷ ns) bf = walk_names ns (name n bf)

pub walk_names-Names :
    (ns : List (Text × Node)) (bf find : Text → Option Node)
    → Keyed ns
    → Unique ns
    → Fresh find ns
    → Names bf find
    → Names (walk_names ns bf) (found_in ns find)
unfolding get_node
walk_names-Names [] bf find e u f t p m h = t p m h
walk_names-Names ((k, n) ∷ ns) bf find e u f t p m h =
    let absent = ap find e.0 ∙ f.0 in
    let unseen = ap (λ i. get_node i ns) e.0 ∙ u.0 in
    let (there, hier, at) =
      walk_names-Names ns (name n bf) (put n find) e.1 u.1 (put-Fresh n find ns unseen f.1)
        (put-Names find bf n
          (λ q o eq. let (x, y, z) = t q o eq in (x, y, z, apart_found n o find absent x)))
        p m h in
    (sym (found_cons k n ns find m.id e.0 u.0) ∙ there, hier, at)

pub index_nodes_kinds :
    (ns : List (Text × Node)) (g : Graph)
    → (index_nodes ns g).by_kind ≡ walk (λ n. true) (λ n. n.kind) ns g.by_kind
unfolding index_nodes index_node
index_nodes_kinds [] g = refl
index_nodes_kinds ((k, n) ∷ ns) g = index_nodes_kinds ns (index_node n g)

pub index_nodes_files :
    (ns : List (Text × Node)) (g : Graph)
    → (index_nodes ns g).by_file ≡ walk has_path (λ n. n.path) ns g.by_file
unfolding index_nodes index_node
index_nodes_files [] g = refl
index_nodes_files ((k, n) ∷ ns) g = index_nodes_files ns (index_node n g)

pub index_nodes_features :
    (ns : List (Text × Node)) (g : Graph)
    → (index_nodes ns g).by_feature_path ≡ walk_names ns g.by_feature_path
unfolding index_nodes index_node
index_nodes_features [] g = refl
index_nodes_features ((k, n) ∷ ns) g = index_nodes_features ns (index_node n g)
