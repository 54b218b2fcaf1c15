-- ===== src/Trace/Store/Files.antt =====
-- The abstract view of the store (trace/store.go): the files last saved, in the order of their saves.
use grepai.Base.{not, List, [], ◌∷◌, ◌++◌, Option, none, some, ◌≡◌, All, map, select, if◌then◌else◌}
use grepai.Base.Text.{Text, same}
use grepai.Trace.Store.{Symbol, Reference, CallEdge, has_caller, edge_of}

pub record SavedFile : Type 0 where
  pub path : Text
  pub hash : Text
  pub symbols : List Symbol
  pub references : List Reference

-- The symbols and references of a file name it as theirs.
pub record IsTidy (x : SavedFile) : Type 0 where
  pub symbols : All (λ (y : Symbol). y.file ≡ x.path) x.symbols
  pub references : All (λ (y : Reference). y.file ≡ x.path) x.references

unfoldable pub drop_file : Text → List SavedFile → List SavedFile
drop_file f = select (λ (x : SavedFile). not (same x.path f))

unfoldable pub gather : {A : Type 0} → (SavedFile → List A) → List SavedFile → List A
gather part [] = []
gather part (x ∷ xs) = part x ++ gather part xs

abbrev pub symbols_of : Text → SavedFile → List Symbol
symbols_of name x = select (λ (y : Symbol). same y.name name) x.symbols

abbrev pub references_of : Text → SavedFile → List Reference
references_of name x = select (λ (y : Reference). same y.symbol_name name) x.references

abbrev pub edges_of : SavedFile → List CallEdge
edges_of x = map edge_of (select has_caller x.references)

unfoldable pub hash_in : Text → List SavedFile → Option Text
hash_in f [] = none
hash_in f (x ∷ xs) =
    let rest = hash_in f xs in
    if same x.path f then (if same x.hash [] then none else some x.hash) else rest
