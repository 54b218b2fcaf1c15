-- ===== src/Core/StateMachine/Lives.antt =====
-- What every history of a job satisfies (internal/enginev2/core/statemachine.go).
use mathlib.Core.List.{Memᴰ}
use grepai.Base.{
  true, false, none, some, List, [], ◌∷◌, ◌++◌, ◌≡◌, refl, sym, ◌⊎◌, inl, inr, ◌↔◌, arith, ◌≢◌,
  Bool-cases,
}
use grepai.Core.StateMachine.{
  JobState, JobEvent, pending, running, backoff, dead_letter, committed, superseded, claim,
  work_complete, supersede, input_changed, terminal, transition, after, invalid_transition,
}

terminal_refuses :
    (s : JobState) (e : JobEvent)
    → terminal s ≡ true
    → transition s e ≡ (s, some invalid_transition)
unfolding terminal transition
terminal_refuses s e h = ground arith

accepts : (s : JobState) → terminal s ≡ false → (e : JobEvent) × ((transition s e).1 ≡ none)
unfolding terminal transition
accepts pending h = (claim, refl)
accepts running h = (supersede, refl)
accepts backoff h = (supersede, refl)
accepts dead_letter h = (input_changed, refl)
accepts committed h = (claim, ground arith)
accepts superseded h = (claim, ground arith)

-- A state is terminal exactly when the machine refuses every event in it.
pub terminal_iff :
    (s : JobState)
    → (terminal s ≡ true) ↔ ((e : JobEvent) → transition s e ≡ (s, some invalid_transition))
unfolding terminal
terminal_iff s = (λ h e. terminal_refuses s e h, stuck s)
  where
    stuck :
        (t : JobState)
        → ((e : JobEvent) → transition t e ≡ (t, some invalid_transition))
        → terminal t ≡ true
    stuck t h = elim (Bool-cases (terminal t)) [
      | inl yes_terminal ↦ yes_terminal
      | inr open_state ↦ let (e, fine) = accepts t open_state in absurd (ground (arith, h e))
    ]

after-terminal : (s : JobState) (es : List JobEvent) → terminal s ≡ true → after s es ≡ s
unfolding after
after-terminal s [] h = refl
after-terminal s (e ∷ es) h = rw (terminal_refuses s e h) (after-terminal s es h)

committed_step :
    (s : JobState) (e : JobEvent)
    → s ≢ committed
    → ((s ≡ running) × (e ≡ work_complete)) ⊎ ((transition s e).0 ≢ committed)
unfolding transition
committed_step s e h = ground arith

-- A history that starts elsewhere and ends committed has a moment at which the job ran and its
-- work completed.
pub committed_by_work :
    (s : JobState) (es : List JobEvent)
    → s ≢ committed
    → after s es ≡ committed
    → (xs : List JobEvent) × (ys : List JobEvent) × (es ≡ xs ++ (work_complete ∷ ys))
      × (after s xs ≡ running)
unfolding after
committed_by_work s [] h c = absurd (h c)
committed_by_work s (e ∷ es) h c = elim (committed_step s e h) [
  | inl (r, w) ↦ ([], es, ground arith, r)
  | inr later ↦
      let (xs, ys, split, ran) = committed_by_work (transition s e).0 es later c in
      (e ∷ xs, ys, ground arith, ran)
]

revival : (e : JobEvent) → (e ≡ input_changed) ⊎ ((transition dead_letter e).0 ≡ dead_letter)
unfolding transition
revival e = ground arith

-- A dead-lettered job stays so until its input changes, whatever else happens to it.
pub dead_letter_revived :
    (es : List JobEvent) → after dead_letter es ≢ dead_letter → Memᴰ input_changed es
unfolding after
dead_letter_revived [] h = absurd (h refl)
dead_letter_revived (e ∷ es) h = elim (revival e) [
  | inl changed ↦ Memᴰ.head (sym changed)
  | inr same_state ↦ Memᴰ.tail (dead_letter_revived es (λ q. h (rw same_state q)))
]
