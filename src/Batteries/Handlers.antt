-- ===== src/Batteries/Handlers.antt =====
-- apps/api/src/modules/batteries/batteries.controller.ts: the handlers that write. A request body is
-- what its schema has accepted. The audit event that the source writes in a second transaction
-- stands in the same result.
pub mod Bulk
pub mod Reviewing
use codex_nieuw.Prelude.{
  ℕ, ◌+◌, String, Bool, true, false, ◌&&◌, ◌||◌, Option, none, some, List, [], ◌∷◌, ◌++◌, ◌==◌,
  if◌then◌else◌, find?, elem, map, length, count_where, update_where,
}
use codex_nieuw.Prelude.Outcome.{
  Outcome, ok, ◌>>=◌, ◌>>◌, require, found, not_found, conditional_review_incomplete, foreign_model,
}
use codex_nieuw.Json.{Text}
use codex_nieuw.Rules.Types.{BatteryCategory, Requirement, ValidationIssue}
use codex_nieuw.Rules.Catalogue.{fields}
use codex_nieuw.Rules.StateMachine.{draft}
use codex_nieuw.Batteries.Review.{
  ConditionalDecision, ConditionalAssessment, ApplicabilityContext, assess_conditional_review,
  reviewed_applicability_context,
}
use codex_nieuw.Store.Rows.{BatteryModel, BatteryItem, LifecycleStatus, Db}
use codex_nieuw.Store.Queries.{owns_model}
use codex_nieuw.Tenant.Access.{Actor}
use codex_nieuw.Tenant.PassportLock.{lock_model, invalidate_passports}
use codex_nieuw.Passports.Document.{audit_event}

-- `ModelSchema`; it refuses a context that brings its own decisions or review.
pub record ModelBody : Type 0 where
  pub model_identifier : Text
  pub category : BatteryCategory
  pub conditional_required_field_ids : Option (List (Option ℕ))

-- `ItemSchema`
pub record ItemBody : Type 0 where
  pub model_id : ℕ
  pub serial : Text
  pub batch : Option Text
  pub upi : Option Text
  pub manufacture_date : Option ℕ

abbrev pub no_issues : List ValidationIssue → Bool
no_issues [] = true
no_issues (i ∷ issues) = false

-- `[...new Set(ids)]`, up to the order
abbrev pub unique : List ℕ → List ℕ
unique [] = []
unique (x ∷ xs) = if elem x xs then unique xs else x ∷ unique xs

abbrev pub model_ids : List ItemBody → List ℕ
model_ids bodies = map (λ (b : ItemBody). b.model_id) bodies

-- `where: { organisationId, id: { in: ids } }`
abbrev pub owns_one_of : ℕ → List ℕ → BatteryModel → Bool
owns_one_of organisation_id ids m = m.organisation_id == organisation_id && elem m.id ids

module _ (digest : List (ℕ × Requirement) → ℕ) (time : ℕ → ℕ) (uuid : ℕ → ℕ) (actor : Actor) where
  abbrev pub new_model : ℕ → ModelBody → BatteryModel
  new_model organisation_id b = record {
    id = uuid 0;
    organisation_id = organisation_id;
    model_identifier = b.model_identifier;
    category = b.category;
    applicability_context = record {
      conditional_decisions = none;
      conditional_required_field_ids = b.conditional_required_field_ids;
      conditional_review = none;
    };
  }

  abbrev add_event : ℕ → String → ℕ → Db → Db
  add_event organisation_id action id db = record db {
    audit = db.audit ++ audit_event organisation_id actor action id ∷ [];
  }

  -- `POST battery-models`
  unfoldable pub create_model : ℕ → ModelBody → Db → Outcome (BatteryModel × Db)
  create_model organisation_id b db =
      let row = new_model organisation_id b in
      ok (
        row,
        add_event organisation_id "battery_model.create" row.id
            (record db { models = db.models ++ row ∷ [] }),
      )

  -- The row of `batteryItem.create`, with its number and its public number.
  abbrev pub new_item : ℕ → ℕ → ℕ → ItemBody → BatteryItem
  new_item id public_id organisation_id b = record {
    id = id;
    organisation_id = organisation_id;
    model_id = b.model_id;
    public_id = public_id;
    serial = b.serial;
    batch = b.batch;
    upi = b.upi;
    manufacture_date = b.manufacture_date;
    lifecycle_status = LifecycleStatus.original;
    passport_state = draft;
  }

  -- `POST battery-items`
  unfoldable pub create_item : ℕ → ItemBody → Db → Outcome (BatteryItem × Db)
  create_item organisation_id b db = do
    model ← found (find? (owns_model organisation_id b.model_id) db.models) not_found
    let row = new_item (uuid 0) (uuid 1) organisation_id b
    ok (
      row,
      add_event organisation_id "battery_item.create" row.id
          (record db { items = db.items ++ row ∷ [] }),
    )

  -- The loop of `bulk`; `n` identifiers have been drawn.
  unfoldable pub new_items : ℕ → ℕ → List ItemBody → List BatteryItem
  new_items n organisation_id [] = []
  new_items n organisation_id (b ∷ bodies) =
      new_item (uuid n) (uuid (n + 1)) organisation_id b ∷ new_items (n + 2) organisation_id bodies

  -- `POST battery-items/bulk`; its audit event names no resource, here 0.
  unfoldable pub bulk : ℕ → List ItemBody → Db → Outcome (List BatteryItem × Db)
  bulk organisation_id bodies db = do
    let ids = unique (model_ids bodies)
    require (count_where (owns_one_of organisation_id ids) db.models == length ids) foreign_model
    let created = new_items 0 organisation_id bodies
    ok (
      created,
      add_event organisation_id "battery_item.bulk_create" 0
          (record db { items = db.items ++ created }),
    )

  abbrev pub reviewed_context :
      BatteryModel → List ConditionalDecision → Text → ApplicabilityContext
  reviewed_context model decisions subject =
      reviewed_applicability_context fields digest model.category decisions subject (time 0)

  -- The writes of an accepted review.
  abbrev pub store_review : ℕ → ℕ → ApplicabilityContext → Db → Db
  store_review organisation_id id context db =
      add_event organisation_id "battery_model.applicability_review" id (
        invalidate_passports organisation_id none (some id) (record db {
          models =
              update_where (λ (m : BatteryModel). m.id == id)
                (λ (m : BatteryModel). record m { applicability_context = context }) db.models;
        }))

  -- `POST battery-models/:id/applicability-review`; `subject` is the actor's subject as a text.
  unfoldable pub review_applicability :
      ℕ → ℕ → List ConditionalDecision → Text → Db → Outcome (BatteryModel × Db)
  review_applicability organisation_id id decisions subject db = do
    lock_model db organisation_id id
    model ← found (find? (owns_model organisation_id id) db.models) not_found
    let context = reviewed_context model decisions subject
    require (no_issues (assess_conditional_review fields digest model.category context).issues)
        conditional_review_incomplete
    ok (
      record model { applicability_context = context },
      store_review organisation_id id context db,
    )
