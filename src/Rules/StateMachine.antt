-- ===== src/Rules/StateMachine.antt =====
-- packages/rules/src/state-machine.ts: the life of a passport as a finite state machine.
pub mod Runs
use codex_nieuw.Prelude.{◌≡◌, refl, Bool, true, false, ◌||◌, List, [], ◌∷◌, if◌then◌else◌}
use codex_nieuw.Prelude.Outcome.{Outcome, ok, err, ◌>>=◌, invalid_transition}

pub data PassportState : Type 0 where
  draft data_collection validation_failed ready published : PassportState
  registry_pending registered updated superseded recycled : PassportState

-- The place of a state in the enumeration, by which states are compared.
abbrev pub same_state : PassportState → PassportState → Bool
same_state draft draft = true
same_state data_collection data_collection = true
same_state validation_failed validation_failed = true
same_state ready ready = true
same_state published published = true
same_state registry_pending registry_pending = true
same_state registered registered = true
same_state updated updated = true
same_state superseded superseded = true
same_state recycled recycled = true
same_state _ _ = false

-- `states.includes(s)`
abbrev pub one_of : PassportState → List PassportState → Bool
one_of s [] = false
one_of s (t ∷ ts) = same_state t s || one_of s ts

-- The table `transitions`.
unfoldable pub transitions : PassportState → List PassportState
transitions draft = data_collection ∷ recycled ∷ []
transitions data_collection = validation_failed ∷ ready ∷ recycled ∷ []
transitions validation_failed = data_collection ∷ ready ∷ recycled ∷ []
transitions ready = published ∷ data_collection ∷ validation_failed ∷ recycled ∷ []
transitions published = registry_pending ∷ updated ∷ recycled ∷ []
transitions registry_pending = registered ∷ updated ∷ recycled ∷ []
transitions registered = updated ∷ recycled ∷ []
transitions updated =
    ready ∷ validation_failed ∷ published ∷ registry_pending ∷ registered ∷ recycled ∷ []
transitions superseded = []
transitions recycled = []

unfoldable pub can_transition : PassportState → PassportState → Bool
unfolding transitions
can_transition from to = one_of to (transitions from)

unfoldable pub transition : PassportState → PassportState → Outcome PassportState
unfolding can_transition
transition from to = if can_transition from to then ok to else err invalid_transition
