-- ===== src/Trace/Store/Gathered.antt =====
-- The loops of SaveFile and DeleteFile, by the files' parts (trace/store.go).
use mathlib.Core.List.{append_assoc, append-nil}
use grepai.Base.{
  Bool, true, false, not, List, [], ◌∷◌, ◌++◌, ◌≡◌, refl, sym, ap, ◌∙◌, inl, inr, arith, All, map,
  select, select-append, if_split, Bool-cases, select_hit, select_miss,
}
use grepai.Base.Text.{Text, same, set_at, same→eq, same_comm}
use grepai.Trace.Store.{
  Symbol, Reference, CallEdge, has_caller, edge_of, add_symbols, add_references, add_call_edges,
}
use grepai.Trace.Store.Files.{SavedFile, drop_file, gather}

-- Elements that all have, or all have not, what a filter asks for.
module _ {A : Type 0} (file : A → Text) (keep : A → Bool) (f path : Text) where
  pub own_removed :
      (l : List A)
      → same path f ≡ true
      → All (λ y. file y ≡ path) l
      → select (λ y. not (same (file y) f)) (select keep l) ≡ []
  own_removed [] h t = refl
  own_removed (y ∷ l) h t =
      let mine = ap (λ p. same p f) t.0 ∙ h in let ih = own_removed l h t.1 in ground arith

  pub others_stay :
      (l : List A)
      → same path f ≡ false
      → All (λ y. file y ≡ path) l
      → select (λ y. not (same (file y) f)) (select keep l) ≡ select keep l
  others_stay [] h t = refl
  others_stay (y ∷ l) h t =
      let theirs = ap (λ p. same p f) t.0 ∙ h in let ih = others_stay l h t.1 in ground arith

module _ {A : Type 0} (part : SavedFile → List A) where
  -- A filter that takes out the parts of one file.
  abbrev pub Cuts : Text → (A → Bool) → SavedFile → Type 0
  Cuts f q x =
      (same x.path f ≡ true → select q (part x) ≡ [])
      × (same x.path f ≡ false → select q (part x) ≡ part x)

  pub gather-drop :
      (f : Text) (q : A → Bool) (files : List SavedFile)
      → All (Cuts f q) files
      → select q (gather part files) ≡ gather part (drop_file f files)
  unfolding gather drop_file
  gather-drop f q [] c = refl
  gather-drop f q (x ∷ xs) c =
      let ih = gather-drop f q xs c.1 in
      let cut = select-append q (part x) (gather part xs) in
      elim (Bool-cases (same x.path f)) [
        | inl h ↦
            let gone : gather part (drop_file f (x ∷ xs)) ≡ gather part (drop_file f xs) =
              ground arith in
            cut ∙ ap (λ l. l ++ select q (gather part xs)) (c.0.0 h) ∙ ih ∙ sym gone
        | inr h ↦
            let kept : gather part (drop_file f (x ∷ xs)) ≡ part x ++ gather part (drop_file f xs) =
              ground arith in
            cut
            ∙ ap (λ l. l ++ select q (gather part xs)) (c.0.1 h)
            ∙ ap (λ l. part x ++ l) ih
            ∙ sym kept
      ]

  pub gather-add :
      (files : List SavedFile) (x : SavedFile)
      → gather part (files ++ (x ∷ [])) ≡ gather part files ++ part x
  unfolding gather
  gather-add [] x = append-nil (part x)
  gather-add (y ∷ files) x =
      ap (λ l. part y ++ l) (gather-add files x)
      ∙ sym (append_assoc (part y) (gather part files) (part x))

-- The loops of SaveFile.
pushed :
    {A : Type 0} (key : A → Text) (x : A) (l : List A) (m : Text → List A) (name : Text)
    → set_at (key x) (m (key x) ++ (x ∷ [])) m name ++ select (λ y. same (key y) name) l
      ≡ m name ++ select (λ y. same (key y) name) (x ∷ l)
pushed key x l m name =
    if_split
      (λ k.
        k ++ select (λ y. same (key y) name) l ≡ m name ++ select (λ y. same (key y) name) (x ∷ l))
      (same name (key x)) (m (key x) ++ (x ∷ [])) (m name)
      (λ hit.
        append_assoc (m (key x)) (x ∷ []) (select (λ y. same (key y) name) l)
        ∙ ap (λ k. m k ++ (x ∷ select (λ y. same (key y) name) l)) (sym (same→eq name (key x) hit))
        ∙ ap (λ r. m name ++ r)
            (sym (select_hit (λ y. same (key y) name) x l (same_comm (key x) name ∙ hit))))
      (λ miss.
        ap (λ r. m name ++ r)
          (sym (select_miss (λ y. same (key y) name) x l (same_comm (key x) name ∙ miss))))

pub add_symbols_lem :
    (l : List Symbol) (m : Text → List Symbol) (name : Text)
    → add_symbols l m name ≡ m name ++ select (λ (y : Symbol). same y.name name) l
unfolding add_symbols
add_symbols_lem [] m name = sym (append-nil (m name))
add_symbols_lem (x ∷ l) m name =
    add_symbols_lem l (set_at x.name (m x.name ++ (x ∷ [])) m) name
    ∙ pushed (λ y. y.name) x l m name

pub add_references_lem :
    (l : List Reference) (m : Text → List Reference) (name : Text)
    → add_references l m name ≡ m name ++ select (λ (y : Reference). same y.symbol_name name) l
unfolding add_references
add_references_lem [] m name = sym (append-nil (m name))
add_references_lem (x ∷ l) m name =
    add_references_lem l (set_at x.symbol_name (m x.symbol_name ++ (x ∷ [])) m) name
    ∙ pushed (λ y. y.symbol_name) x l m name

pub add_call_edges_lem :
    (l : List Reference) (es : List CallEdge)
    → add_call_edges l es ≡ es ++ map edge_of (select has_caller l)
unfolding add_call_edges
add_call_edges_lem [] es = sym (append-nil es)
add_call_edges_lem (x ∷ l) es =
    if_split (λ acc. add_call_edges l acc ≡ es ++ map edge_of (select has_caller (x ∷ l)))
      (has_caller x) (es ++ (edge_of x ∷ [])) es
      (λ h.
        add_call_edges_lem l (es ++ (edge_of x ∷ []))
        ∙ append_assoc es (edge_of x ∷ []) (map edge_of (select has_caller l))
        ∙ ap (λ r. es ++ map edge_of r) (sym (select_hit has_caller x l h)))
      (λ h.
        add_call_edges_lem l es
        ∙ ap (λ r. es ++ map edge_of r) (sym (select_miss has_caller x l h)))
