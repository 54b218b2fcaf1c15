-- ===== src/Trace/Store/Refines.antt =====
-- The store answers as the files last saved do (trace/store.go: SaveFile, DeleteFile and the lookups).
use grepai.Base.{
  true, false, not, List, [], ◌∷◌, ◌++◌, Option, none, some, ◌≡◌, refl, sym, ap, ◌∙◌, inl, inr,
  arith, All, any, map, select, if◌then◌else◌, if_split, Bool-cases, select-map, All-select,
  All-append,
}
use grepai.Base.Text.{Text, same, set_at, same→eq, same_self, same_comm}
use grepai.Trace.Store.{
  Symbol, Reference, CallEdge, SymbolStore, has_caller, edge_of, new_symbol_store, delete_file,
  save_file_with_content_hash,
}
use grepai.Trace.Store.Files.{
  SavedFile, IsTidy, drop_file, gather, symbols_of, references_of, edges_of, hash_in,
}
use grepai.Trace.Store.Gathered.{
  own_removed, others_stay, Cuts, gather-drop, gather-add, add_symbols_lem, add_references_lem,
  add_call_edges_lem,
}

pub record Shows (s : SymbolStore) (files : List SavedFile) : Type 0 where
  pub symbols : (name : Text) → s.symbols name ≡ gather (symbols_of name) files
  pub references : (name : Text) → s.references name ≡ gather (references_of name) files
  pub call_graph : s.call_graph ≡ gather edges_of files
  pub file_index : (f : Text) → s.file_index f ≡ any (λ (x : SavedFile). same f x.path) files
  pub hashes : (f : Text) → s.file_content_hashes f ≡ hash_in f files

-- What a saved file has goes with it, and nothing else does.
tidy-Cuts :
    (f : Text) (files : List SavedFile)
    → All IsTidy files
    → ((name : Text) → All (Cuts (symbols_of name) f (λ (y : Symbol). not (same y.file f))) files)
      × ((name : Text)
          → All (Cuts (references_of name) f (λ (y : Reference). not (same y.file f))) files)
      × All (Cuts edges_of f (λ (y : CallEdge). not (same y.file f))) files
tidy-Cuts f [] t = (λ name. tt, λ name. tt, tt)
tidy-Cuts f (x ∷ xs) t =
    let ih = tidy-Cuts f xs t.1 in
    let q = λ (y : CallEdge). not (same y.file f) in
    let moved = select-map q edge_of (select has_caller x.references) in
    (
      λ name. (
        (
          λ h. own_removed (λ y. y.file) (λ y. same y.name name) f x.path x.symbols h t.0.symbols,
          λ h. others_stay (λ y. y.file) (λ y. same y.name name) f x.path x.symbols h t.0.symbols,
        ),
        ih.0 name,
      ),
      λ name. (
        (
          λ h.
              own_removed (λ y. y.file) (λ y. same y.symbol_name name) f x.path x.references h
                t.0.references,
          λ h.
              others_stay (λ y. y.file) (λ y. same y.symbol_name name) f x.path x.references h
                t.0.references,
        ),
        ih.1 name,
      ),
      (
        (
          λ h.
              moved
              ∙ ap (map edge_of)
                  (own_removed (λ y. y.file) has_caller f x.path x.references h t.0.references),
          λ h.
              moved
              ∙ ap (map edge_of)
                  (others_stay (λ y. y.file) has_caller f x.path x.references h t.0.references),
        ),
        ih.2,
      ),
    )

any_drop :
    (f k : Text) (files : List SavedFile)
    → any (λ (x : SavedFile). same k x.path) (drop_file f files)
      ≡ set_at f false (λ j. any (λ (x : SavedFile). same j x.path) files) k
unfolding drop_file
any_drop f k [] = if_split (λ b. false ≡ b) (same k f) false false (λ _. refl) (λ _. refl)
any_drop f k (x ∷ xs) =
    let ih = any_drop f k xs in
    elim (Bool-cases (same k x.path)) [
      | inl h ↦ let alike = ap (λ p. same p f) (same→eq k x.path h) in ground arith
      | inr h ↦ ground arith
    ]

hash-drop :
    (f k : Text) (files : List SavedFile)
    → hash_in k (drop_file f files) ≡ set_at f none (λ j. hash_in j files) k
unfolding drop_file hash_in
hash-drop f k [] = if_split (λ b. none ≡ b) (same k f) none none (λ _. refl) (λ _. refl)
hash-drop f k (x ∷ xs) =
    let ih = hash-drop f k xs in
    elim (Bool-cases (same x.path k)) [
      | inl h ↦ let alike = ap (λ p. same p f) (same→eq x.path k h) in ground arith
      | inr h ↦ ground arith
    ]

delete_file-Shows :
    (f : Text) (s : SymbolStore) (files : List SavedFile)
    → All IsTidy files
    → Shows s files
    → Shows (delete_file f s) (drop_file f files)
unfolding delete_file
delete_file-Shows f s files t v =
    let (a, b, c) = tidy-Cuts f files t in
    record {
      symbols =
          λ name. ap (select _) (v.symbols name) ∙ gather-drop (symbols_of name) f _ files (a name);
      references = λ name.
          ap (select _) (v.references name) ∙ gather-drop (references_of name) f _ files (b name);
      call_graph = ap (select _) v.call_graph ∙ gather-drop edges_of f _ files c;
      file_index =
          λ k. ap (λ m. if same k f then false else m) (v.file_index k) ∙ sym (any_drop f k files);
      hashes = λ k. ap (λ m. if same k f then none else m) (v.hashes k) ∙ sym (hash-drop f k files);
    }

any_add :
    (k : Text) (files : List SavedFile) (x : SavedFile)
    → any (λ (y : SavedFile). same k y.path) (files ++ (x ∷ []))
      ≡ (if same k x.path then true else any (λ (y : SavedFile). same k y.path) files)
any_add k [] x = ground arith
any_add k (y ∷ files) x = ground (arith, any_add k files x)

saved_hash : SavedFile → Option Text
saved_hash x = if same x.hash [] then none else some x.hash

hash_add :
    (k : Text) (files : List SavedFile) (x : SavedFile)
    → any (λ (y : SavedFile). same x.path y.path) files ≡ false
    → hash_in k (files ++ (x ∷ [])) ≡ (if same k x.path then saved_hash x else hash_in k files)
unfolding hash_in saved_hash
hash_add k [] x h = let swapped = same_comm x.path k in ground arith
hash_add k (y ∷ files) x h = elim (Bool-cases (same y.path k)) [
  | inl e ↦
      let alike = ap (λ p. same x.path p) (sym (same→eq y.path k e)) in
      let swapped = same_comm x.path k in ground arith
  | inr e ↦ let ih = hash_add k files x in ground arith
]

save_file-Shows :
    (x : SavedFile) (s : SymbolStore) (files : List SavedFile)
    → All IsTidy files
    → Shows s files
    → Shows
        (save_file_with_content_hash x.path x.hash x.symbols x.references s)
        (drop_file x.path files ++ (x ∷ []))
unfolding save_file_with_content_hash saved_hash
save_file-Shows x s files t v =
    let kept = drop_file x.path files in
    let w = delete_file-Shows x.path s files t v in
    record {
      symbols = λ name.
          add_symbols_lem x.symbols (delete_file x.path s).symbols name
          ∙ ap (λ l. l ++ symbols_of name x) (w.symbols name)
          ∙ sym (gather-add (symbols_of name) kept x);
      references = λ name.
          add_references_lem x.references (delete_file x.path s).references name
          ∙ ap (λ l. l ++ references_of name x) (w.references name)
          ∙ sym (gather-add (references_of name) kept x);
      call_graph =
          add_call_edges_lem x.references (delete_file x.path s).call_graph
          ∙ ap (λ l. l ++ edges_of x) w.call_graph
          ∙ sym (gather-add edges_of kept x);
      file_index = λ k.
          ap (λ b. if same k x.path then true else b) (w.file_index k) ∙ sym (any_add k kept x);
      hashes = λ k.
          let absent =
            any_drop x.path x.path files
            ∙ ap (λ b. if b then false else any (λ (y : SavedFile). same x.path y.path) files)
                (same_self x.path) in
          ap (λ m. if same k x.path then saved_hash x else m) (w.hashes k)
          ∙ sym (hash_add k kept x absent);
    }

drop_file-IsTidy :
    (f : Text) (files : List SavedFile) → All IsTidy files → All IsTidy (drop_file f files)
unfolding drop_file
drop_file-IsTidy f files t = All-select IsTidy (λ x. not (same x.path f)) files t

pub data StoreCall : Type 0 where
  saves : SavedFile → StoreCall
  deletes : Text → StoreCall

unfoldable pub call : StoreCall → SymbolStore → SymbolStore
unfolding save_file_with_content_hash delete_file
call (saves x) s = save_file_with_content_hash x.path x.hash x.symbols x.references s
call (deletes f) s = delete_file f s

unfoldable pub calls : List StoreCall → SymbolStore → SymbolStore
unfolding call
calls [] s = s
calls (c ∷ cs) s = calls cs (call c s)

-- The files that are left, in the order of their last saves.
unfoldable pub saved : List StoreCall → List SavedFile → List SavedFile
unfolding drop_file
saved [] files = files
saved (saves x ∷ cs) files = saved cs (drop_file x.path files ++ (x ∷ []))
saved (deletes f ∷ cs) files = saved cs (drop_file f files)

abbrev pub IsTidyCall : StoreCall → Type 0
IsTidyCall (saves x) = IsTidy x
IsTidyCall (deletes f) = Unit

calls_show :
    (cs : List StoreCall) (s : SymbolStore) (files : List SavedFile)
    → All IsTidyCall cs
    → All IsTidy files
    → Shows s files
    → Shows (calls cs s) (saved cs files)
unfolding calls call saved
calls_show [] s files t u v = v
calls_show (saves x ∷ cs) s files t u v =
    calls_show cs _ (drop_file x.path files ++ (x ∷ [])) t.1
      (All-append IsTidy (drop_file x.path files) (x ∷ []) (drop_file-IsTidy x.path files u)
        (t.0, tt))
      (save_file-Shows x s files u v)
calls_show (deletes f ∷ cs) s files t u v =
    calls_show cs _ (drop_file f files) t.1 (drop_file-IsTidy f files u)
      (delete_file-Shows f s files u v)

-- After any saves and deletions, where the symbols and references of each save name its file, the
-- store is that of the files that are left: a name's symbols and its references are those of the
-- files in the order of their last saves, the call edges are those of the references that have a
-- caller, and a file is indexed, with its hash, exactly if it is left.
pub calls-Shows :
    (cs : List StoreCall) → All IsTidyCall cs → Shows (calls cs new_symbol_store) (saved cs [])
unfolding new_symbol_store gather hash_in
calls-Shows cs t = calls_show cs new_symbol_store [] t tt (record {
  symbols = λ name. refl;
  references = λ name. refl;
  call_graph = refl;
  file_index = λ f. refl;
  hashes = λ f. refl;
})
