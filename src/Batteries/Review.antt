-- ===== src/Batteries/Review.antt =====
-- apps/api/src/modules/batteries/applicability-review.ts: the review that decides which conditional
-- data points apply. The stored context is JSON that the code reads with `zod` and type tests; the
-- records below hold what those tests read off it.
pub mod Sorting
pub mod Roundtrip
use codex_nieuw.Prelude.{
  ℕ, zero, suc, String, ◌≡◌, Bool, true, false, not, ◌&&◌, ◌||◌, Option, none, some, List, [], ◌∷◌,
  ◌++◌, ltb, leb, ◌==◌, if◌then◌else◌, elem, distinct, any, all, keep, map, is_some, length,
}
use codex_nieuw.Patterns.{trim}
use codex_nieuw.Json.{Text, is_blank}
use codex_nieuw.Rules.Types.{
  BatteryCategory, ev, lmt, industrial_gt_2kwh, Requirement, FieldDefinition, blocker, Rule,
  ValidationIssue,
}
use codex_nieuw.Rules.Engine.{requirement_for, is_conditional}

pub record ConditionalDecision : Type 0 where
  pub field_id : ℕ
  pub applicable : Bool
  pub reason : Text

-- `ConditionalDecisionSchema`, for an entry whose fields have its types; it trims the reason.
unfoldable pub decision_allowed : ConditionalDecision → Bool
decision_allowed d =
    leb 1 d.field_id
    && leb d.field_id 71
    && leb 10 (length (trim d.reason))
    && leb (length (trim d.reason)) 1000

abbrev pub trimmed : ConditionalDecision → ConditionalDecision
trimmed d = record d { reason = trim d.reason }

abbrev pub parse_decision : ConditionalDecision → Option ConditionalDecision
parse_decision d = if decision_allowed d then some (trimmed d) else none

pub record ConditionalField : Type 0 where
  pub field_id : ℕ
  pub name : String
  pub requirement : Requirement

-- `conditionalReview`; `reviewed_at` is `none` where `Date.parse` reads no instant from it.
pub record ConditionalReview : Type 0 where
  pub schema_version : ℕ
  pub category : Option BatteryCategory
  pub profile_fingerprint : ℕ
  pub reviewed_at : Option ℕ
  pub reviewed_by_subject : Option Text

-- `applicabilityContext`: an entry of `conditionalDecisions` that `ConditionalDecisionSchema`
-- refuses is `none`, and so is an entry of `conditionalRequiredFieldIds` that is no integer; a
-- property of the wrong kind counts as absent.
pub record ApplicabilityContext : Type 0 where
  pub conditional_decisions : Option (List (Option ConditionalDecision))
  pub conditional_required_field_ids : Option (List (Option ℕ))
  pub conditional_review : Option ConditionalReview

abbrev pub same_category : BatteryCategory → BatteryCategory → Bool
same_category ev ev = true
same_category lmt lmt = true
same_category industrial_gt_2kwh industrial_gt_2kwh = true
same_category _ _ = false

unfoldable pub conditional_fields : List FieldDefinition → BatteryCategory → List ConditionalField
conditional_fields fields category =
    map
      (λ (f : FieldDefinition). record {
        field_id = f.id;
        name = f.name;
        requirement = requirement_for f category;
      })
      (keep (λ f. is_conditional (requirement_for f category)) fields)

abbrev pub field_ids : List ConditionalField → List ℕ
field_ids fs = map (λ (f : ConditionalField). f.field_id) fs

abbrev review_issue : Option ℕ → ValidationIssue
review_issue id = record { rule = Rule.applicability_review; field_id = id; severity = blocker }

abbrev pub decided_ids : List ConditionalDecision → List ℕ
decided_ids ds = map (λ (d : ConditionalDecision). d.field_id) ds

-- The loop over the stored decisions: the decisions that count, in their order, and the issues.
unfoldable pub take_decisions :
    List ℕ
    → List (Option ConditionalDecision)
    → List ConditionalDecision
    → List ValidationIssue
    → List ConditionalDecision × List ValidationIssue
take_decisions ids [] taken issues = (taken, issues)
take_decisions ids (none ∷ entries) taken issues =
    take_decisions ids entries taken (issues ++ review_issue none ∷ [])
take_decisions ids (some d ∷ entries) taken issues =
    take_decisions ids entries
      (if elem d.field_id ids && not (elem d.field_id (decided_ids taken))
        then taken ++ d ∷ []
        else taken)
      (if elem d.field_id ids && not (elem d.field_id (decided_ids taken))
        then issues
        else issues ++ review_issue (some d.field_id) ∷ [])

-- `.sort((a, b) => a - b)`
pub insert_id : ℕ → List ℕ → List ℕ
insert_id n [] = n ∷ []
insert_id n (m ∷ ms) = let later = insert_id n ms in if ltb m n then m ∷ later else n ∷ m ∷ ms

unfoldable pub sort_ids : List ℕ → List ℕ
unfolding insert_id
sort_ids [] = []
sort_ids (n ∷ ns) = insert_id n (sort_ids ns)

abbrev pub same_ids : List ℕ → List ℕ → Bool
same_ids [] [] = true
same_ids [] (y ∷ ys) = false
same_ids (x ∷ xs) [] = false
same_ids (x ∷ xs) (y ∷ ys) = x == y && same_ids xs ys

-- `ids.some(id => !Number.isInteger(id))` is false, and then the integers
abbrev pub integers : List (Option ℕ) → Option (List ℕ)
integers [] = some []
integers (none ∷ ids) = none
integers (some id ∷ ids) = elim (integers ids) [ none ↦ none | some rest ↦ some (id ∷ rest) ]

abbrev pub applicable_ids : List ConditionalDecision → List ℕ
applicable_ids ds = decided_ids (keep (λ (d : ConditionalDecision). d.applicable) ds)

-- The test on `conditionalRequiredFieldIds`.
unfoldable pub ids_match : Option (List (Option ℕ)) → List ℕ → Bool
ids_match none required = false
ids_match (some stored) required = elim (integers stored) [
  | none ↦ false
  | some ids ↦ distinct ids && same_ids (sort_ids ids) required
]

pub record ConditionalAssessment : Type 0 where
  pub unresolved_field_ids : List ℕ
  pub issues : List ValidationIssue

module _ (fields : List FieldDefinition) (digest : List (ℕ × Requirement) → ℕ) where
  -- The fingerprint hashes the numbers and requirements of the conditional fields; `digest` is
  -- SHA-256 of their JSON text.
  unfoldable pub profile_fingerprint : BatteryCategory → ℕ
  profile_fingerprint category = digest (
      map (λ (f : ConditionalField). (f.field_id, f.requirement))
        (conditional_fields fields category))

  review_current : BatteryCategory → Option ConditionalReview → Bool
  review_current category none = false
  review_current category (some r) =
      (r.schema_version == 1)
      && (elim r.category [ none ↦ false | some c ↦ same_category c category ])
      && (r.profile_fingerprint == profile_fingerprint category)
      && (elim r.reviewed_by_subject [ none ↦ false | some s ↦ not (is_blank s) ])
      && is_some r.reviewed_at

  start_issues : Option (List (Option ConditionalDecision)) → List ValidationIssue
  start_issues none = review_issue none ∷ []
  start_issues (some entries) = []

  abbrev entries_of : Option (List (Option ConditionalDecision)) → List (Option ConditionalDecision)
  entries_of none = []
  entries_of (some entries) = entries

  unfoldable pub assess_conditional_review :
      BatteryCategory → ApplicabilityContext → ConditionalAssessment
  unfolding start_issues review_current
  assess_conditional_review category context =
      let expected = field_ids (conditional_fields fields category) in
      let read =
        take_decisions expected (entries_of context.conditional_decisions) []
          (start_issues context.conditional_decisions) in
      let unresolved = keep (λ id. not (elem id (decided_ids read.0))) expected in
      record {
        unresolved_field_ids = unresolved;
        issues =
            read.1
            ++ (map (λ id. review_issue (some id)) unresolved
                ++ ((if ids_match context.conditional_required_field_ids
                        (sort_ids (applicable_ids read.0))
                      then []
                      else review_issue none ∷ [])
                    ++ (if review_current category context.conditional_review
                        then []
                        else review_issue none ∷ [])));
      }

  -- The context that an accepted review stores, its decisions as the schema will read them; what else the old context held is kept by the source
  -- and not read again.
  unfoldable pub reviewed_applicability_context :
      BatteryCategory → List ConditionalDecision → Text → ℕ → ApplicabilityContext
  reviewed_applicability_context category decisions actor_subject reviewed_at = record {
    conditional_decisions = some (map parse_decision decisions);
    conditional_required_field_ids = some (map some (sort_ids (applicable_ids decisions)));
    conditional_review = some record {
      schema_version = 1;
      category = some category;
      profile_fingerprint = profile_fingerprint category;
      reviewed_at = some reviewed_at;
      reviewed_by_subject = some actor_subject;
    };
  }
