-- ===== src/Batteries/Handlers/Reviewing.antt =====
-- The review handler accepts a complete review.
use codex_nieuw.Prelude.{
  ℕ, ◌≡◌, refl, Bool, true, false, some, List, [], ◌∷◌, arith, find?, any, Bool-cases, inl, inr,
}
use codex_nieuw.Prelude.Outcome.{ok}
use codex_nieuw.Json.{Text, is_blank}
use codex_nieuw.Rules.Types.{Requirement}
use codex_nieuw.Rules.Catalogue.{fields}
use codex_nieuw.Batteries.Review.{ConditionalDecision, assess_conditional_review}
use codex_nieuw.Batteries.Review.Roundtrip.{IsComplete, assess-reviewed}
use codex_nieuw.Batteries.Handlers.{reviewed_context, store_review, review_applicability}
use codex_nieuw.Store.Rows.{BatteryModel, Db}
use codex_nieuw.Store.Queries.{owns_model}
use codex_nieuw.Tenant.Access.{Actor}
use codex_nieuw.Tenant.PassportLock.{lock_model}

found_any :
    (p : BatteryModel → Bool) (models : List BatteryModel) {m : BatteryModel}
    → find? p models ≡ some m
    → any p models ≡ true
found_any p [] h = ground arith
found_any p (x ∷ models) {m} h = elim (Bool-cases (p x)) [
  | inl here ↦ ground arith
  | inr skipped ↦ let ih = found_any p models {m = m} (ground arith) in ground arith
]

module _ (digest : List (ℕ × Requirement) → ℕ) (time : ℕ → ℕ) (uuid : ℕ → ℕ) (actor : Actor) where
  -- For a model of the organisation, a complete list of decisions by an actor with a subject that
  -- is not blank is accepted and stored, and the model's new context is assessed without an issue.
  pub review_applicability_accepts :
      (organisation_id : ℕ) (model : BatteryModel) (decisions : List ConditionalDecision)
      (subject : Text) (db : Db)
      → find? (owns_model organisation_id model.id) db.models ≡ some model
      → IsComplete fields digest model.category decisions
      → is_blank subject ≡ false
      → let context = reviewed_context digest time uuid actor model decisions subject in
        (review_applicability digest time uuid actor organisation_id model.id decisions subject db
          ≡ ok (
            record model { applicability_context = context },
            store_review digest time uuid actor organisation_id model.id context db,
          ))
        × (assess_conditional_review fields digest model.category context
            ≡ record { unresolved_field_ids = []; issues = [] })
  unfolding review_applicability lock_model
  review_applicability_accepts o model decisions subject db seen complete named =
      let locked = found_any (owns_model o model.id) db.models seen in
      let good =
        assess-reviewed fields digest model.category decisions subject (time 0) complete named in
      (rw (review_applicability, lock_model, locked, seen, good) refl, good)
