-- ===== src/Rules/StateMachine/Runs.antt =====
-- Runs of the state machine: what a passport must pass through, and what it can never leave.
use codex_nieuw.Prelude.{◌≡◌, refl, ◌⊎◌, ◌↔◌, inl, inr, Bool, true, false, List, [], ◌∷◌, arith}
use codex_nieuw.Prelude.Outcome.{Outcome, ok, ◌>>=◌, >>=-eq-ok}
use codex_nieuw.Rules.StateMachine.{
  PassportState, draft, data_collection, validation_failed, ready, published, superseded, recycled,
  transition, one_of, can_transition,
}

-- The states that a passport goes through, one `transition` after the other.
unfoldable pub walk : PassportState → List PassportState → Outcome PassportState
walk s [] = ok s
walk s (t ∷ ts) = do u ← transition s t; walk u ts

-- The states before a first publication.
abbrev pub is_unpublished : PassportState → Bool
is_unpublished draft = true
is_unpublished data_collection = true
is_unpublished validation_failed = true
is_unpublished ready = true
is_unpublished recycled = true
is_unpublished _ = false

step_unpublished :
    (s t u : PassportState)
    → is_unpublished s ≡ true
    → transition s t ≡ ok u
    → (one_of published (t ∷ []) ≡ true) ⊎ (is_unpublished u ≡ true)
unfolding transition
step_unpublished draft t u h e = ground arith
step_unpublished s t u h e = ground arith

pub transition-eq-ok : (s t u : PassportState) → transition s t ≡ ok u → t ≡ u
unfolding transition
transition-eq-ok s t u e = ground arith

walk_unpublished :
    (ts : List PassportState) (s u : PassportState)
    → is_unpublished s ≡ true
    → walk s ts ≡ ok u
    → (one_of published ts ≡ true) ⊎ (is_unpublished u ≡ true)
unfolding walk
walk_unpublished [] s u h e = ground arith
walk_unpublished (t ∷ ts) s u h e =
    let (v, step, rest) = >>=-eq-ok (transition s t) (λ w. walk w ts) e in
    elim (step_unpublished s t v h step) [
      | inl now ↦ ground arith
      | inr before ↦ elim (walk_unpublished ts v u before rest) [
        | inl later ↦ ground arith
        | inr never ↦ inr never
      ]
    ]

-- A run from `draft` that ends in a state other than the four before publication and `recycled`
-- has gone through `published`.
pub walk-published :
    (ts : List PassportState) (u : PassportState)
    → walk draft ts ≡ ok u
    → is_unpublished u ≡ false
    → one_of published ts ≡ true
walk-published ts u e h = elim (walk_unpublished ts draft u refl e) [
  | inl p ↦ p
  | inr q ↦ ground arith
]

-- Nothing leads into `superseded`, and nothing leads out of it or of `recycled`.
pub superseded_isolated :
    (s t : PassportState)
    → (can_transition s superseded ≡ false)
      × (can_transition superseded t ≡ false)
      × (can_transition recycled t ≡ false)
unfolding can_transition
superseded_isolated draft t = ground arith
superseded_isolated s t = ground arith

abbrev pub is_closed : PassportState → Bool
is_closed superseded = true
is_closed recycled = true
is_closed _ = false

-- A run of at least one step exists from a state exactly when the state is not closed, and then the
-- passport can be recycled in one step.
pub walk_iff_open :
    (s : PassportState)
    → ((t : PassportState) × (ts : List PassportState) × (u : PassportState) × (walk s (t ∷ ts)
          ≡ ok u))
      ↔ ((is_closed s ≡ false) × (walk s (recycled ∷ []) ≡ ok recycled))
unfolding walk transition
walk_iff_open superseded = (λ h. ground arith, λ h. ground arith)
walk_iff_open s = (λ h. ground arith, λ h. (recycled, [], recycled, h.1))
