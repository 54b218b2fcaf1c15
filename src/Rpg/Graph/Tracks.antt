-- ===== src/Rpg/Graph/Tracks.antt =====
-- One index of the nodes, by a key that some of them have (rpg/model.go: byKind and byFile).
use mathlib.Core.List.{append-nil}
use grepai.Base.{
  Bool, false, ◌&&◌, List, [], ◌∷◌, ◌++◌, Option, some, ◌≡◌, refl, sym, ap, ◌∙◌, arith,
  select-append, select_one, select_none, if◌then◌else◌, if_split,
}
use grepai.Base.Text.{Text, same, same→eq, same_self, same_comm}
use grepai.Rpg.Graph.{Node, set_at}
use grepai.Rpg.Graph.WellFormed.{entry, of_index, named}

module _ (present : Node → Bool) (key : Node → Text) where
  abbrev pub Tracks : (Text → List Node) → (Text → Option Node) → Type 0
  Tracks idx find = (k id : Text) → named id (idx k) ≡ of_index present key k (find id)

  -- The index with the list of a node's key changed.
  abbrev pub change : Node → (List Node → List Node) → (Text → List Node) → Text → List Node
  change n f idx = if present n then set_at (key n) (f (idx (key n))) idx else idx

  entry_absent :
      (n : Node) (k : Text)
      → (present n && same (key n) k) ≡ false
      → of_index present key k (some n) ≡ []
  entry_absent n k h = ap (λ b. entry b n) h

  -- A node that the index tracks is taken out of the list of its key.
  pub taken_out :
      (idx : Text → List Node) (find : Text → Option Node) (cut : List Node → List Node)
      (old : Node) (id : Text)
      → Tracks idx find
      → find id ≡ some old
      → ((l : List Node) (b : Bool) → named id l ≡ entry b old → named id (cut l) ≡ [])
      → (k : Text) → named id (change old cut idx k) ≡ []
  taken_out idx find cut old id tracks found own k =
      let at = λ (p : Text). tracks p id ∙ ap (of_index present key p) found in
      if_split (λ f. named id (f k) ≡ []) (present old) (set_at (key old) (cut (idx (key old))) idx)
        idx
        (λ here.
          if_split (λ l. named id l ≡ []) (same k (key old)) (cut (idx (key old))) (idx k)
            (λ hit. own (idx (key old)) (present old && same (key old) (key old)) (at (key old)))
            (λ miss.
              at k ∙ entry_absent old k (let apart = same_comm (key old) k ∙ miss in ground arith)))
        (λ gone. at k ∙ entry_absent old k (ground arith))

  pub others_kept :
      (idx : Text → List Node) (cut : List Node → List Node) (old : Node) (other : Text)
      → ((l : List Node) → named other (cut l) ≡ named other l)
      → (k : Text) → named other (change old cut idx k) ≡ named other (idx k)
  others_kept idx cut old other kept k =
      if_split (λ f. named other (f k) ≡ named other (idx k)) (present old)
        (set_at (key old) (cut (idx (key old))) idx) idx
        (λ here.
          if_split (λ l. named other l ≡ named other (idx k)) (same k (key old))
            (cut (idx (key old))) (idx k)
            (λ hit.
              kept (idx (key old)) ∙ ap (λ p. named other (idx p)) (sym (same→eq k (key old) hit)))
            (λ miss. refl))
        (λ gone. refl)

  -- A node that is put at the end of the list of its key, where its ID was not indexed.
  pub put_in :
      (idx : Text → List Node) (find : Text → Option Node) (n : Node)
      → ((k : Text) → named n.id (idx k) ≡ [])
      → ((k other : Text)
          → same n.id other ≡ false
          → named other (idx k) ≡ of_index present key k (find other))
      → Tracks (change n (λ l. l ++ (n ∷ [])) idx) (λ id. if same n.id id then some n else find id)
  put_in idx find n fresh others k id =
      if_split (λ o. named id (change n (λ l. l ++ (n ∷ [])) idx k) ≡ of_index present key k o)
        (same n.id id) (some n) (find id) (λ mine. own id (same→eq n.id id mine))
        (λ apart.
          others_kept idx (λ l. l ++ (n ∷ [])) n id (λ l. beside l id apart) k ∙ others k id apart)
    where
      beside :
          (l : List Node) (id : Text) → same n.id id ≡ false → named id (l ++ (n ∷ [])) ≡ named id l
      beside l id apart =
          select-append (λ x. same x.id id) l (n ∷ [])
          ∙ ap (λ r. named id l ++ r) (select_none (λ x. same x.id id) n apart)
          ∙ append-nil (named id l)

      own :
          (id : Text)
          → n.id ≡ id
          → named id (change n (λ l. l ++ (n ∷ [])) idx k) ≡ entry (present n && same (key n) k) n
      own id e =
          if_split (λ f. named id (f k) ≡ entry (present n && same (key n) k) n) (present n)
            (set_at (key n) (idx (key n) ++ (n ∷ [])) idx) idx
            (λ here.
              if_split (λ l. named id l ≡ entry (present n && same (key n) k) n) (same k (key n))
                (idx (key n) ++ (n ∷ [])) (idx k)
                (λ hit.
                  let there = same_comm (key n) k ∙ hit in
                  select-append (λ x. same x.id id) (idx (key n)) (n ∷ [])
                  ∙ ap (λ r. r ++ named id (n ∷ []))
                      (ap (λ i. named i (idx (key n))) (sym e) ∙ fresh (key n))
                  ∙ select_one (λ x. same x.id id) n (ap (same n.id) (sym e) ∙ same_self n.id)
                  ∙ ground arith)
                (λ miss.
                  let there = same_comm (key n) k ∙ miss in
                  ap (λ i. named i (idx k)) (sym e) ∙ fresh k ∙ ground arith))
            (λ gone. ap (λ i. named i (idx k)) (sym e) ∙ fresh k ∙ ground arith)
