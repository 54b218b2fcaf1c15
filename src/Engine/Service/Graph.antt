-- ===== src/Engine/Service/Graph.antt =====
-- The bounds of traceGraph, and what it returns (internal/enginev2/service/server.go).
use grepai.Base.{
  ℕ, zero, suc, ◌≤◌, ◌<◌, Bool, true, false, ◌||◌, List, [], ◌∷◌, ◌++◌, Option, none, some, ◌≡◌,
  refl, sym, ◌∙◌, ◌⊎◌, inl, inr, arith, All, All-append, All-imp, if_split, leb, any, length,
  length-append, not_leb→lt, subst,
}
use grepai.Base.Text.{Text}
use grepai.Catalog.Reads.{EdgeAt}
use grepai.Engine.Service.{
  max_graph_symbols, max_graph_edges, same_key, GraphWalk, Traced, going, returns, fails, go_on,
  admit_name, add_out, take_edge, take_edges, take_answer, expand, expand_all, levels, trace_graph,
  level,
}

-- No two edges have one key.
abbrev pub Distinct : List EdgeAt → Type 0
Distinct [] = Unit
Distinct (e ∷ es) = (any (λ x. same_key x e) es ≡ false) × Distinct es

any-last :
    (p : EdgeAt → Bool) (es : List EdgeAt) (e : EdgeAt) → any p (es ++ (e ∷ [])) ≡ (any p es || p e)
any-last p [] e = ground arith
any-last p (x ∷ es) e = ground (arith, any-last p es e)

Distinct-last :
    (es : List EdgeAt) (e : EdgeAt)
    → any (same_key e) es ≡ false
    → Distinct es
    → Distinct (es ++ (e ∷ []))
Distinct-last [] e h d = (refl, tt)
Distinct-last (x ∷ es) e h d =
    let last = any-last (λ y. same_key y x) es e in let ih = Distinct-last es e in ground arith

abbrev pub InEdges : EdgeAt → List EdgeAt → Type 0
InEdges e [] = ⊥
InEdges e (x ∷ xs) = (e ≡ x) ⊎ InEdges e xs

All-InEdges : (l : List EdgeAt) → All (λ e. InEdges e l) l
All-InEdges [] = tt
All-InEdges (e ∷ l) =
    (inl refl, All-imp (λ x. InEdges x l) (λ x. InEdges x (e ∷ l)) l (λ x m. inr m) (All-InEdges l))

module _ (symbol_edges : Text → Bool → Option (List EdgeAt)) where
  -- The catalog gave the edge as an answer.
  abbrev pub IsGiven : EdgeAt → Type 0
  IsGiven e =
      (name : Text) × (callers : Bool) × (es : List EdgeAt) × (symbol_edges name callers ≡ some es)
      × InEdges e es

  record IsBounded (w : GraphWalk) : Type 0 where
    seen : (e : EdgeAt) → any (same_key e) w.seen ≡ any (same_key e) w.out
    distinct : Distinct w.out
    given : All IsGiven w.out
    room : length w.out < max_graph_edges

  abbrev IsResult : List EdgeAt → Type 0
  IsResult es = (length es ≤ max_graph_edges) × Distinct es × All IsGiven es

  abbrev IsFine : Traced → Type 0
  IsFine (going w) = IsBounded w
  IsFine (returns es) = IsResult es
  IsFine fails = Unit

  admit_name-IsBounded : (n : Text) (w : GraphWalk) → IsBounded w → IsBounded (admit_name n w)
  unfolding admit_name
  admit_name-IsBounded n w v = ground (arith, v.seen, v.distinct, v.given, v.room)

  take_edge-IsFine : (e : EdgeAt) (w : GraphWalk) → IsGiven e → IsBounded w → IsFine (take_edge e w)
  unfolding take_edge add_out
  take_edge-IsFine e w m v =
      if_split IsFine (any (same_key e) w.seen) (going w) _ (λ _. v)
        (λ new.
          let fresh = sym (v.seen e) ∙ new in
          let longer = length-append w.out (e ∷ []) in
          let d = Distinct-last w.out e fresh v.distinct in
          let kept = All-append IsGiven w.out (e ∷ []) v.given (m, tt) in
          if_split IsFine (leb max_graph_edges (length (add_out e w).out))
            (returns (add_out e w).out)
            (going (admit_name e.callee (admit_name e.caller (add_out e w))))
            (λ _. let small = v.room in (omega arith, d, kept))
            (λ small. admit_name-IsBounded e.callee (admit_name e.caller (add_out e w)) (
              admit_name-IsBounded e.caller (add_out e w) (record {
                seen = λ x.
                    let same_seen = v.seen x in
                    let last = any-last (same_key x) w.out e in ground arith;
                distinct = d;
                given = kept;
                room = not_leb→lt max_graph_edges (length (add_out e w).out) small;
              }))))

  go_on-IsFine :
      (t : Traced) (k : GraphWalk → Traced)
      → IsFine t
      → ((w : GraphWalk) → IsBounded w → IsFine (k w))
      → IsFine (go_on t k)
  go_on-IsFine (going w) k h f = f w h
  go_on-IsFine (returns es) k h f = h
  go_on-IsFine fails k h f = tt

  take_edges-IsFine :
      (es : List EdgeAt) (w : GraphWalk) → All IsGiven es → IsBounded w → IsFine (take_edges es w)
  unfolding take_edges
  take_edges-IsFine [] w m v = v
  take_edges-IsFine (e ∷ es) w m v =
      go_on-IsFine (take_edge e w) (take_edges es) (take_edge-IsFine e w m.0 v)
        (λ w' v'. take_edges-IsFine es w' m.1 v')

  take_answer-IsFine :
      (name : Text) (callers : Bool) (o : Option (List EdgeAt)) (w : GraphWalk)
      → symbol_edges name callers ≡ o
      → IsBounded w
      → IsFine (take_answer o w)
  take_answer-IsFine name callers none w e v = tt
  take_answer-IsFine name callers (some es) w e v =
      take_edges-IsFine es w
        (All-imp (λ x. InEdges x es) IsGiven es (λ x m. (name, callers, es, e, m)) (All-InEdges es))
        v

  is_result : (w : GraphWalk) → IsBounded w → IsResult w.out
  is_result w v = let small = v.room in (omega arith, v.distinct, v.given)

  expand-IsFine : (name : Text) (w : GraphWalk) → IsBounded w → IsFine (expand symbol_edges name w)
  unfolding expand
  expand-IsFine name w v =
      if_split IsFine (leb max_graph_symbols (length w.visited)) (returns w.out) _
        (λ _. is_result w v)
        (λ _.
          go_on-IsFine (take_answer (symbol_edges name true) w)
            (λ w'. take_answer (symbol_edges name false) w')
            (take_answer-IsFine name true (symbol_edges name true) w refl v)
            (λ w' v'. take_answer-IsFine name false (symbol_edges name false) w' refl v'))

  expand_all-IsFine :
      (ns : List Text) (w : GraphWalk) → IsBounded w → IsFine (expand_all symbol_edges ns w)
  unfolding expand_all
  expand_all-IsFine [] w v = v
  expand_all-IsFine (n ∷ ns) w v =
      go_on-IsFine (expand symbol_edges n w) (expand_all symbol_edges ns) (expand-IsFine n w v)
        (λ w' v'. expand_all-IsFine ns w' v')

  level-IsFine :
      (ns : List Text) (w : GraphWalk) (deeper : GraphWalk → Traced)
      → IsBounded w
      → ((w' : GraphWalk) → IsBounded w' → IsFine (deeper w'))
      → IsFine (level symbol_edges ns w deeper)
  unfolding level
  level-IsFine [] w deeper v f = is_result w v
  level-IsFine (n ∷ ns) w deeper v f =
      go_on-IsFine (expand_all symbol_edges (n ∷ ns) (record w { frontier = [] })) deeper
        (expand_all-IsFine (n ∷ ns) (record w { frontier = [] })
          (record { seen = v.seen; distinct = v.distinct; given = v.given; room = v.room }))
        f

  levels-IsFine : (depth : ℕ) (w : GraphWalk) → IsBounded w → IsFine (levels symbol_edges depth w)
  unfolding levels
  levels-IsFine zero w v = is_result w v
  levels-IsFine (suc depth) w v =
      level-IsFine w.frontier w (levels symbol_edges depth) v (λ w' v'. levels-IsFine depth w' v')

  start-IsBounded :
      (root : Text)
      → IsBounded (record { seen = []; visited = root ∷ []; frontier = root ∷ []; out = [] })
  start-IsBounded root = record { seen = λ e. refl; distinct = tt; given = tt; room = omega arith }

-- Where a question to the catalog fails.
module _ (symbol_edges : Text → Bool → Option (List EdgeAt)) where
  -- Some question that the catalog does not answer.
  abbrev pub Refused : Type 0
  Refused = (name : Text) × (callers : Bool) × (symbol_edges name callers ≡ none)

  abbrev Lives : Traced → Type 0
  Lives (going w) = Unit
  Lives (returns es) = Unit
  Lives fails = Refused

  go_on-Lives :
      (t : Traced) (k : GraphWalk → Traced)
      → Lives t
      → ((w : GraphWalk) → Lives (k w))
      → Lives (go_on t k)
  go_on-Lives (going w) k h f = f w
  go_on-Lives (returns es) k h f = h
  go_on-Lives fails k h f = h

  take_edges-Lives : (es : List EdgeAt) (w : GraphWalk) → Lives (take_edges es w)
  unfolding take_edges take_edge
  take_edges-Lives [] w = tt
  take_edges-Lives (e ∷ es) w =
      go_on-Lives (take_edge e w) (take_edges es)
        (if_split Lives (any (same_key e) w.seen) (going w) _ (λ _. tt)
          (λ _.
            if_split Lives (leb max_graph_edges (length (add_out e w).out))
              (returns (add_out e w).out)
              (going (admit_name e.callee (admit_name e.caller (add_out e w)))) (λ _. tt)
              (λ _. tt)))
        (take_edges-Lives es)

  take_answer-Lives :
      (name : Text) (callers : Bool) (o : Option (List EdgeAt)) (w : GraphWalk)
      → symbol_edges name callers ≡ o
      → Lives (take_answer o w)
  take_answer-Lives name callers none w e = (name, callers, e)
  take_answer-Lives name callers (some es) w e = take_edges-Lives es w

  expand_all-Lives : (ns : List Text) (w : GraphWalk) → Lives (expand_all symbol_edges ns w)
  unfolding expand_all expand
  expand_all-Lives [] w = tt
  expand_all-Lives (n ∷ ns) w =
      go_on-Lives (expand symbol_edges n w) (expand_all symbol_edges ns)
        (if_split Lives (leb max_graph_symbols (length w.visited)) (returns w.out) _ (λ _. tt)
          (λ _.
            go_on-Lives (take_answer (symbol_edges n true) w)
              (λ w'. take_answer (symbol_edges n false) w')
              (take_answer-Lives n true (symbol_edges n true) w refl)
              (λ w'. take_answer-Lives n false (symbol_edges n false) w' refl)))
        (expand_all-Lives ns)

  abbrev Ended : Traced → Type 0
  Ended t = ((t ≡ fails) × Refused) ⊎ ((es : List EdgeAt) × (t ≡ returns es))

  go_on-Ended :
      (t : Traced) (k : GraphWalk → Traced)
      → Lives t
      → ((w : GraphWalk) → Ended (k w))
      → Ended (go_on t k)
  go_on-Ended (going w) k h f = f w
  go_on-Ended (returns es) k h f = inr (es, refl)
  go_on-Ended fails k h f = inl (refl, h)

  level-Ended :
      (ns : List Text) (w : GraphWalk) (deeper : GraphWalk → Traced)
      → ((w' : GraphWalk) → Ended (deeper w'))
      → Ended (level symbol_edges ns w deeper)
  unfolding level
  level-Ended [] w deeper f = inr (w.out, refl)
  level-Ended (n ∷ ns) w deeper f =
      go_on-Ended (expand_all symbol_edges (n ∷ ns) (record w { frontier = [] })) deeper
        (expand_all-Lives (n ∷ ns) (record w { frontier = [] })) f

  levels-Ended : (depth : ℕ) (w : GraphWalk) → Ended (levels symbol_edges depth w)
  unfolding levels
  levels-Ended zero w = inr (w.out, refl)
  levels-Ended (suc depth) w =
      level-Ended w.frontier w (levels symbol_edges depth) (levels-Ended depth)

-- Tracing a graph ends: it fails, and then the catalog refuses some question; or it returns at
-- most 2000 edges, no two of one caller, callee, file and line, each of them one that the catalog
-- gave.
pub trace_graph-IsFine :
    (symbol_edges : Text → Bool → Option (List EdgeAt)) (root : Text) (depth : ℕ)
    → ((trace_graph symbol_edges root depth ≡ fails) × Refused symbol_edges)
      ⊎ ((es : List EdgeAt) × (trace_graph symbol_edges root depth ≡ returns es)
          × (length es ≤ max_graph_edges)
          × Distinct es
          × All (IsGiven symbol_edges) es)
unfolding trace_graph
trace_graph-IsFine symbol_edges root depth =
    elim (levels-Ended symbol_edges depth
      (record { seen = []; visited = root ∷ []; frontier = root ∷ []; out = [] })) [
        | inl e ↦ inl e
        | inr (es, e) ↦
            let (few, apart, given) =
              subst (IsFine symbol_edges) e
                (levels-IsFine symbol_edges depth _ (start-IsBounded symbol_edges root)) in
            inr (es, e, few, apart, given)
      ]
