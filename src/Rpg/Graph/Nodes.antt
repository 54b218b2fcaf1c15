-- ===== src/Rpg/Graph/Nodes.antt =====
-- The operations on nodes keep the nodes' indexes (rpg/model.go).
use grepai.Base.{
  Bool, true, false, List, [], ◌∷◌, ◌++◌, Option, none, some, ◌≡◌, refl, sym, ap, ◌∙◌, arith, inl,
  inr, if◌then◌else◌, Bool-cases, if_split,
}
use grepai.Base.Text.{Text, same, same→eq, same_apart, same_comm}
use grepai.Rpg.Graph.{Node, get_node, delete_node, cut_first, other_nodes}
use grepai.Rpg.Graph.Tracks.{Tracks, change, taken_out, others_kept, put_in}
use grepai.Rpg.Graph.WellFormed.{entry, of_index, named, Unique}

pub get_node-delete_self :
    (id : Text) (ns : List (Text × Node)) → get_node id (delete_node id ns) ≡ none
unfolding get_node delete_node
get_node-delete_self id [] = refl
get_node-delete_self id ((k, n) ∷ ns) = ground (arith, get_node-delete_self id ns)

pub get_node-delete :
    (id other : Text) (ns : List (Text × Node))
    → same id other ≡ false
    → get_node other (delete_node id ns) ≡ get_node other ns
unfolding get_node delete_node
get_node-delete id other [] h = refl
get_node-delete id other ((k, n) ∷ ns) h =
    let ih = get_node-delete id other ns h in let apart = same_apart k id other in ground arith

pub delete_node-Unique :
    (id : Text) (ns : List (Text × Node)) → Unique ns → Unique (delete_node id ns)
unfolding delete_node
delete_node-Unique id [] u = tt
delete_node-Unique id ((k, n) ∷ ns) u =
    let ih = delete_node-Unique id ns u.1 in
    if_split Unique (same k id) (delete_node id ns) ((k, n) ∷ delete_node id ns) (λ _. ih)
      (λ miss. (get_node-delete id k ns (same_comm id k ∙ miss) ∙ u.0, ih))

abbrev tail : List Node → List Node
tail [] = []
tail (n ∷ ns) = ns

named-cut_self : (id : Text) (l : List Node) → named id (cut_first id l) ≡ tail (named id l)
unfolding cut_first
named-cut_self id [] = refl
named-cut_self id (n ∷ l) = ground (arith, named-cut_self id l)

named-cut :
    (id other : Text) (l : List Node)
    → same id other ≡ false
    → named other (cut_first id l) ≡ named other l
unfolding cut_first
named-cut id other [] h = refl
named-cut id other (n ∷ l) h =
    let ih = named-cut id other l h in let apart = same_apart n.id id other in ground arith

named-others_self : (id : Text) (l : List Node) → named id (other_nodes id l) ≡ []
unfolding other_nodes
named-others_self id [] = refl
named-others_self id (n ∷ l) = ground (arith, named-others_self id l)

named-others :
    (id other : Text) (l : List Node)
    → same id other ≡ false
    → named other (other_nodes id l) ≡ named other l
unfolding other_nodes
named-others id other [] h = refl
named-others id other (n ∷ l) h =
    let ih = named-others id other l h in let apart = same_apart n.id id other in ground arith

own_cut :
    (old : Node) (id : Text) (l : List Node) (b : Bool)
    → named id l ≡ entry b old
    → named id (cut_first id l) ≡ []
own_cut old id l true e = named-cut_self id l ∙ ap tail e
own_cut old id l false e = named-cut_self id l ∙ ap tail e

-- The nodes after a node is put, by ID.
abbrev pub put : Node → (Text → Option Node) → Text → Option Node
put n find id = if same n.id id then some n else find id

pub get_node-put :
    (n : Node) (ns : List (Text × Node)) (id : Text)
    → get_node id ((n.id, n) ∷ delete_node n.id ns) ≡ put n (λ i. get_node i ns) id
unfolding get_node
get_node-put n ns id =
    if_split (λ o. o ≡ put n (λ i. get_node i ns) id) (same n.id id) (some n)
      (get_node id (delete_node n.id ns)) (λ hit. ground arith)
      (λ miss. let kept = get_node-delete n.id id ns miss in ground arith)

-- An index once a node is replaced, or put for the first time.
module _ (present : Node → Bool) (key : Node → Text) (idx : Text → List Node)
    (ns : List (Text × Node)) (n : Node)
    (tracks : Tracks present key idx (λ id. get_node id ns)) where
  abbrev pub replaced : Option Node → Text → List Node
  replaced none = idx
  replaced (some old) = change present key old (cut_first n.id) idx

  pub replaced-Tracks :
      (o : Option Node)
      → get_node n.id ns ≡ o
      → Tracks present key
          (change present key n (λ l. l ++ (n ∷ [])) (replaced o))
          (put n (λ i. get_node i ns))
  replaced-Tracks none e =
      put_in present key idx (λ id. get_node id ns) n
        (λ k. tracks k n.id ∙ ap (of_index present key k) e) (λ k other apart. tracks k other)
  replaced-Tracks (some old) e =
      put_in present key (replaced (some old)) (λ id. get_node id ns) n
        (taken_out present key idx (λ id. get_node id ns) (cut_first n.id) old n.id tracks e
          (own_cut old n.id))
        (λ k other apart.
          others_kept present key idx (cut_first n.id) old other (λ l. named-cut n.id other l apart)
            k
          ∙ tracks k other)

  pub removed-Tracks :
      (id : Text) (old : Node)
      → get_node id ns ≡ some old
      → Tracks present key
          (change present key old (other_nodes id) idx)
          (λ k. get_node k (delete_node id ns))
  removed-Tracks id old e k other = elim (Bool-cases (same id other)) [
    | inl hit ↦
        let eq = same→eq id other hit in
        ap (λ i. named i (change present key old (other_nodes id) idx k)) (sym eq)
        ∙ taken_out present key idx (λ i. get_node i ns) (other_nodes id) old id tracks e
            (λ l b h. named-others_self id l) k
        ∙ ap (of_index present key k)
            (sym (ap (λ i. get_node i (delete_node id ns)) (sym eq) ∙ get_node-delete_self id ns))
    | inr miss ↦
        others_kept present key idx (other_nodes id) old other (λ l. named-others id other l miss) k
        ∙ tracks k other
        ∙ ap (of_index present key k) (sym (get_node-delete id other ns miss))
  ]
