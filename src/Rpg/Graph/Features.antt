-- ===== src/Rpg/Graph/Features.antt =====
-- The index of feature paths names hierarchy nodes of the graph (rpg/model.go: byFeaturePath).
use grepai.Rpg.Graph.Nodes.{put, get_node-delete}
use grepai.Base.{
  true, false, List, Option, none, some, ◌≡◌, sym, ap, ◌∙◌, arith, inl, inr, if◌then◌else◌,
  Bool-cases, if_split, some_inj, true_not_false,
}
use grepai.Base.Text.{Text, same, same→eq, same_self}
use grepai.Rpg.Graph.{Node, get_node, delete_node, set_at, is_hierarchy}

-- The index of feature paths without a node's entry names no node of its ID.
abbrev pub unnamed : Node → (Text → Option Node) → Text → Option Node
unnamed old bf = if is_hierarchy old.kind then set_at old.feature none bf else bf

abbrev pub Names : (Text → Option Node) → (Text → Option Node) → Type 0
Names bf find =
    (p : Text) (n : Node)
    → bf p ≡ some n
    → (find n.id ≡ some n) × (is_hierarchy n.kind ≡ true) × (n.feature ≡ p)

unnamed_lem :
    (old : Node) (bf : Text → Option Node) (p : Text) (m : Node)
    → unnamed old bf p ≡ some m
    → (bf p ≡ some m) × (is_hierarchy old.kind ≡ true → old.feature ≡ p → ⊥)
unnamed_lem old bf p m =
    if_split
      (λ f. f p ≡ some m → (bf p ≡ some m) × (is_hierarchy old.kind ≡ true → old.feature ≡ p → ⊥))
      (is_hierarchy old.kind) (set_at old.feature none bf) bf
      (λ hier.
        if_split
          (λ o. o ≡ some m → (bf p ≡ some m) × (is_hierarchy old.kind ≡ true → old.feature ≡ p → ⊥))
          (same p old.feature) none (bf p) (λ hit e. ground arith)
          (λ miss e. (e, λ _ eq. true_not_false (ap (same p) eq ∙ same_self p) miss)))
      (λ flat e. (e, λ hier _. true_not_false hier flat))

-- Without the entry of a node, the index names no node of its ID.
pub unnamed_apart :
    (ns : List (Text × Node)) (bf : Text → Option Node) (id : Text) (old : Node) (p : Text)
    (m : Node)
    → Names bf (λ i. get_node i ns)
    → get_node id ns ≡ some old
    → unnamed old bf p ≡ some m
    → (bf p ≡ some m) × (same id m.id ≡ false)
unnamed_apart ns bf id old p m names found e =
    let (kept, gone) = unnamed_lem old bf p m e in
    let (there, hier, at) = names p m kept in
    elim (Bool-cases (same id m.id)) [
      | inl hit ↦
          let is_old =
            some_inj (sym found ∙ ap (λ i. get_node i ns) (same→eq id m.id hit) ∙ there) in
          absurd
            (gone (ap (λ x. is_hierarchy x.kind) is_old ∙ hier) (ap (λ x. x.feature) is_old ∙ at))
      | inr miss ↦ (kept, miss)
    ]

pub delete-Names :
    (ns : List (Text × Node)) (bf : Text → Option Node) (id : Text) (old : Node)
    → Names bf (λ i. get_node i ns)
    → get_node id ns ≡ some old
    → Names (unnamed old bf) (λ i. get_node i (delete_node id ns))
delete-Names ns bf id old names found p m e =
    let (kept, apart) = unnamed_apart ns bf id old p m names found e in
    let (there, hier, at) = names p m kept in (get_node-delete id m.id ns apart ∙ there, hier, at)

abbrev pub name : Node → (Text → Option Node) → Text → Option Node
name n bf = if is_hierarchy n.kind then set_at n.feature (some n) bf else bf

pub put-Names :
    (find : Text → Option Node) (bf : Text → Option Node) (n : Node)
    → ((p : Text) (m : Node)
        → bf p ≡ some m
        → (find m.id ≡ some m)
          × (is_hierarchy m.kind ≡ true)
          × (m.feature ≡ p)
          × (same n.id m.id ≡ false))
    → (p : Text) (m : Node) → name n bf p ≡ some m
    → (put n find m.id ≡ some m) × (is_hierarchy m.kind ≡ true) × (m.feature ≡ p)
put-Names find bf n names p m =
    if_split
      (λ f.
        f p ≡ some m → (put n find m.id ≡ some m) × (is_hierarchy m.kind ≡ true) × (m.feature ≡ p))
      (is_hierarchy n.kind) (set_at n.feature (some n) bf) bf
      (λ hier.
        if_split
          (λ o.
            o ≡ some m
            → (put n find m.id ≡ some m) × (is_hierarchy m.kind ≡ true) × (m.feature ≡ p))
          (same p n.feature) (some n) (bf p)
          (λ hit e.
            let eq = some_inj e in
            (
              ap (λ b. if b then some n else find m.id)
                    (ap (same n.id) (ap (λ x. x.id) (sym eq)) ∙ same_self n.id)
                  ∙ e,
              ap (λ x. is_hierarchy x.kind) (sym eq) ∙ hier,
              ap (λ x. x.feature) (sym eq) ∙ sym (same→eq p n.feature hit),
            ))
          (λ miss e. older e))
      (λ flat e. older e)
  where
    older :
        bf p ≡ some m → (put n find m.id ≡ some m) × (is_hierarchy m.kind ≡ true) × (m.feature ≡ p)
    older e =
        let (there, hier, at, apart) = names p m e in
        (ap (λ b. if b then some n else find m.id) apart ∙ there, hier, at)
