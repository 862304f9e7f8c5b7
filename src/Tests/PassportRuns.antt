-- ===== src/Tests/PassportRuns.antt =====
-- Passports of a small database.
use codex_nieuw.Prelude.{◌≡◌, refl, true, [], ◌∷◌, ◌++◌}
use codex_nieuw.Prelude.Outcome.{Outcome, ok, ran, succeeds}
use codex_nieuw.Json.{is_blank}
use codex_nieuw.Rules.Catalogue.{fields}
use codex_nieuw.Rules.StateMachine.{draft, ready, transition}
use codex_nieuw.Rules.Engine.{
  requirement_for, count_required, count_as, count_field, count_fields, score_of,
  calculate_readiness,
}
use codex_nieuw.Rules.Engine.Cross.{
  cross_field_checks, voltage_fault, not_positive, insecure_upi, in_future, too_much_material,
  negative_material, fade_mismatch,
}
use codex_nieuw.Patterns.{trim}
use codex_nieuw.Batteries.Review.{
  decision_allowed, conditional_fields, take_decisions, sort_ids, ids_match, profile_fingerprint,
  assess_conditional_review, reviewed_applicability_context,
}
use codex_nieuw.Store.Rows.{PassportVersion, BatteryItem, Db}
use codex_nieuw.Store.Queries.{evidence_of}
use codex_nieuw.Tenant.PassportLock.{lock_item, lock_model, assert_active}
use codex_nieuw.Passports.Data.{
  Validation, usable_evidence, merged_values, load_merged, readiness_for_values, validate_tx,
}
use codex_nieuw.Passports.Document.{publish, validate, target_state, update_item, audit_event}
use codex_nieuw.Passports.Document.Publishing.{publish-IsPublication, IsPublication}
use codex_nieuw.Passports.Document.Chain.{publish-IsChained, IsChained}
use codex_nieuw.Passports.Document.Validating.{validate_total}
use codex_nieuw.Tests.World.{platform, clock, new_id, operator, battery, world}

-- A publication of the battery.
published_run : Outcome (PassportVersion × Db)
published_run = publish platform clock new_id operator 1 20 (world ready)

publishes : succeeds published_run ≡ true
unfolding published_run publish voltage_fault not_positive insecure_upi in_future too_much_material
    negative_material fade_mismatch lock_item lock_model assert_active transition validate_tx
    readiness_for_values calculate_readiness count_fields count_field count_as count_required
    requirement_for score_of assess_conditional_review conditional_fields take_decisions ids_match
    sort_ids profile_fingerprint reviewed_applicability_context trim decision_allowed merged_values
    usable_evidence evidence_of fields is_blank cross_field_checks load_merged
publishes = refl

-- The version that it makes, and the database after it.
abbrev version : PassportVersion
version = (ran published_run publishes).0.0

abbrev after : Db
after = (ran published_run publishes).0.1

publishes_to : publish platform clock new_id operator 1 20 (world ready) ≡ ok (version, after)
unfolding published_run
publishes_to = (ran published_run publishes).1

publish-IsPublication_example :
    IsPublication platform clock new_id operator 1 20 (world ready) version after
publish-IsPublication_example =
    publish-IsPublication platform clock new_id operator 1 20 (world ready) version after
      publishes_to

empty_chain : IsChained (world ready)
empty_chain = record { chain = λ o i. tt }

publish-IsChained_example : IsChained after × (after.versions ≡ [] ++ version ∷ [])
publish-IsChained_example =
    publish-IsChained platform clock new_id operator 1 20 (world ready) version after publishes_to
      empty_chain

assessment : Outcome Validation
assessment = validate_tx platform 1000 (world draft) 1 20

assesses : succeeds assessment ≡ true
unfolding assessment validate_tx load_merged
assesses = refl

abbrev assessed : Validation
assessed = (ran assessment assesses).0

assesses_to : validate_tx platform 1000 (world draft) 1 20 ≡ ok assessed
unfolding assessment
assesses_to = (ran assessment assesses).1

locks : lock_item (world draft) 1 20 ≡ ok (battery draft)
unfolding lock_item lock_model
locks = refl

opens : assert_active (battery draft) ≡ ok tt
unfolding assert_active
opens = refl

validate_total_example :
    (v : Validation) × (validate_tx platform 1000 (world draft) 1 20 ≡ ok v)
    × (validate platform clock new_id operator 1 20 (world draft)
        ≡ ok (
          v,
          record (world draft) {
            items =
                update_item 20
                  (λ (i : BatteryItem). record i {
                    passport_state = target_state draft v.publishable;
                  })
                  (battery draft ∷ []);
            audit = audit_event 1 operator "passport.validate" 20 ∷ [];
          },
        ))
validate_total_example =
    validate_total platform clock new_id operator 1 20 (world draft) (battery draft) locks opens
