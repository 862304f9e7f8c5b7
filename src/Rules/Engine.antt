-- ===== src/Rules/Engine.antt =====
-- packages/rules/src/engine.ts: which data points a passport needs, and how ready it is.
pub mod Counting
pub mod Score
pub mod Cross
use codex_nieuw.Prelude.{
  ℕ, ◌+◌, ◌*◌, ◌/◌, ◌≡◌, Bool, true, false, not, ◌&&◌, ◌||◌, Option, none, some, List, [], ◌∷◌,
  ◌++◌, ltb, ◌==◌, if◌then◌else◌, elem, length, keep, map, or_else,
}
use codex_nieuw.Json.{Json, null, bool, num, str, arr, obj}
use codex_nieuw.Rules.Types.{
  BatteryCategory, ev, lmt, industrial_gt_2kwh, Requirement, mandatory, mandatory_dynamic,
  deferred_format_pending, deferred_until_august_2027, deferred_article_8, not_displayed,
  not_displayed_duplicate, conditional_if_applicable, conditional_if_commercial_warranty,
  conditional_industrial_cycle_applications, conditional_some_industrial_batteries,
  conditional_dynamic, AccessTier, public, FieldDefinition, warning, blocker, Rule, ValidationIssue,
  same_tier,
}

pub record PassportValue : Type 0 where
  pub field_id : ℕ
  pub value : Option Json
  pub evidence_ids : Option (List ℕ)
  pub validated : Option Bool

pub record Readiness : Type 0 where
  pub score : ℕ
  pub required : ℕ
  pub complete : ℕ
  pub verified : ℕ
  pub blockers : List ValidationIssue
  pub warnings : List ValidationIssue
  pub deferred : ℕ
  pub not_displayed : ℕ
  pub conditional_open : ℕ

unfoldable pub requirement_for : FieldDefinition → BatteryCategory → Requirement
requirement_for f ev = f.applicability.ev
requirement_for f lmt = f.applicability.lmt
requirement_for f industrial_gt_2kwh = f.applicability.industrial

abbrev pub is_required : Requirement → Bool
is_required mandatory = true
is_required mandatory_dynamic = true
is_required _ = false

abbrev pub is_deferred : Requirement → Bool
is_deferred deferred_format_pending = true
is_deferred deferred_until_august_2027 = true
is_deferred deferred_article_8 = true
is_deferred _ = false

abbrev pub is_hidden : Requirement → Bool
is_hidden Requirement.not_displayed = true
is_hidden not_displayed_duplicate = true
is_hidden _ = false

abbrev pub is_conditional : Requirement → Bool
is_conditional conditional_if_applicable = true
is_conditional conditional_if_commercial_warranty = true
is_conditional conditional_industrial_cycle_applications = true
is_conditional conditional_some_industrial_batteries = true
is_conditional conditional_dynamic = true
is_conditional _ = false

-- `byId.get(id)`: the map is built from the list, so a later value replaces an earlier one.
abbrev pub by_id : ℕ → List PassportValue → Option PassportValue
by_id id [] = none
by_id id (v ∷ vs) = elim (by_id id vs) [
  | some w ↦ some w
  | none ↦ if v.field_id == id then some v else none
]

-- `v && v.value !== null && v.value !== '' && v.value !== undefined`
abbrev filled : Option Json → Bool
filled none = false
filled (some null) = false
filled (some (str [])) = false
filled (some _) = true

abbrev pub is_filled : Option PassportValue → Bool
is_filled none = false
is_filled (some v) = filled v.value

abbrev pub has_provenance : Option PassportValue → Bool
has_provenance none = false
has_provenance (some v) = or_else v.validated false && ltb 0 (length (or_else v.evidence_ids []))

-- The counters and the two lists that the loop fills.
pub record Tally : Type 0 where
  pub required : ℕ
  pub complete : ℕ
  pub verified : ℕ
  pub deferred : ℕ
  pub not_displayed : ℕ
  pub conditional_open : ℕ
  pub blockers : List ValidationIssue
  pub warnings : List ValidationIssue

abbrev empty_tally : Tally
empty_tally = record {
  required = 0;
  complete = 0;
  verified = 0;
  deferred = 0;
  not_displayed = 0;
  conditional_open = 0;
  blockers = [];
  warnings = [];
}

abbrev pub evidence_warning : ℕ → ValidationIssue
evidence_warning id = record { rule = Rule.evidence; field_id = some id; severity = warning }

abbrev pub required_blocker : ℕ → ValidationIssue
required_blocker id = record { rule = Rule.required; field_id = some id; severity = blocker }

-- `requiredNow`
abbrev pub required_now : Requirement → Bool → Bool
required_now req chosen = is_required req || (is_conditional req && chosen)

-- The round of the loop for a field that is required now.
unfoldable pub count_required : ℕ → Option PassportValue → Tally → Tally
count_required id v t =
    if is_filled v
    then if has_provenance v
      then record t {
        required = t.required + 1;
        complete = t.complete + 1;
        verified = t.verified + 1;
      }
      else record t {
        required = t.required + 1;
        complete = t.complete + 1;
        warnings = t.warnings ++ evidence_warning id ∷ [];
      }
    else record t { required = t.required + 1; blockers = t.blockers ++ required_blocker id ∷ [] }

-- One round of the loop, for a field of the given requirement; `chosen` says whether the review has
-- made this conditional field required, and `v` is its value.
unfoldable pub count_as : ℕ → Requirement → Bool → Option PassportValue → Tally → Tally
count_as id req chosen v t =
    if is_deferred req
    then record t { deferred = t.deferred + 1 }
    else if is_hidden req
    then record t { not_displayed = t.not_displayed + 1 }
    else let opened =
        (if is_conditional req && not chosen
          then record t { conditional_open = t.conditional_open + 1 }
          else t) in
      if required_now req chosen then count_required id v opened else opened

module _ (category : BatteryCategory) (values : List PassportValue)
    (conditional_required : List ℕ) where
  unfoldable pub count_field : FieldDefinition → Tally → Tally
  count_field f t =
      count_as f.id (requirement_for f category) (elem f.id conditional_required)
        (by_id f.id values) t

  unfoldable pub count_fields : List FieldDefinition → Tally → Tally
  count_fields [] t = t
  count_fields (f ∷ fs) t = count_fields fs (count_field f t)

-- `Math.round((complete / required) * 100)`. In doubles 23 / 40 * 100 is 57.49999999999999; for
-- every other pair of counts up to the 71 data points the double rounds as the exact quotient.
unfoldable pub score_of : ℕ → ℕ → ℕ
score_of complete required =
    if required == 0
    then 100
    else if complete == 23 && required == 40
    then 57
    else (200 * complete + required) / (2 * required)

-- `calculateReadiness` over a catalogue.
unfoldable pub calculate_readiness :
    List FieldDefinition → BatteryCategory → List PassportValue → Option (List ℕ) → Readiness
calculate_readiness fields category values conditional_required =
    let t = count_fields category values (or_else conditional_required []) fields empty_tally in
    record {
      score = score_of t.complete t.required;
      required = t.required;
      complete = t.complete;
      verified = t.verified;
      blockers = t.blockers;
      warnings = t.warnings;
      deferred = t.deferred;
      not_displayed = t.not_displayed;
      conditional_open = t.conditional_open;
    }

unfoldable pub public_field_ids : List FieldDefinition → List ℕ
public_field_ids fields =
    map (λ (f : FieldDefinition). f.id) (keep (λ f. same_tier f.access_tier public) fields)

unfoldable pub restricted_field_ids : List FieldDefinition → List ℕ
restricted_field_ids fields =
    map (λ (f : FieldDefinition). f.id) (keep (λ f. not (same_tier f.access_tier public)) fields)
