-- ===== src/Passports/Data.antt =====
-- apps/api/src/modules/passports/passport-data.service.ts: the values that count for a passport and
-- the blockers of its publication.
use codex_nieuw.Prelude.{
  ℕ, Bool, true, false, not, ◌&&◌, ◌||◌, Option, none, some, List, [], ◌∷◌, ◌++◌, ltb, leb, ◌==◌,
  opt_eq, same_opt, if◌then◌else◌, keep, find?, is_some, map, length,
}
use codex_nieuw.Prelude.Outcome.{Outcome, ok, ◌>>=◌, found, not_found}
use codex_nieuw.Json.{Text, codes, same_text, is_blank, Json, num, str}
use codex_nieuw.Rules.Types.{Requirement, Rule, blocker, ValidationIssue, is_blocker}
use codex_nieuw.Rules.Catalogue.{fields}
use codex_nieuw.Rules.Engine.{PassportValue, Readiness, calculate_readiness}
use codex_nieuw.Rules.Engine.Cross.{Floats, CrossFieldInput, cross_field_checks}
use codex_nieuw.Rules.StateMachine.{superseded, recycled, one_of}
use codex_nieuw.Batteries.Review.{assess_conditional_review}
use codex_nieuw.Canonical.{Externals}
use codex_nieuw.Store.Rows.{
  BatteryModel, BatteryItem, ValueRow, EvidenceObject, Db, LifecycleStatus,
}
use codex_nieuw.Store.Queries.{
  owns_item, is_current_value, evidence_of, is_validated, is_verified, is_recycled, status_text,
}

-- The settings of the process and the platform's functions that the passport handlers use.
-- `scan_required` is `malwareScanRequired()`; `upi_of` is `ResolverService.upi`, whose base address
-- is a setting; `fingerprint` is SHA-256 of the JSON text of a profile; `parse_number` is `Number`.
pub record Platform : Type 0 where
  pub externals : Externals
  pub floats : Floats
  pub fingerprint : List (ℕ × Requirement) → ℕ
  pub parse_number : Text → ℕ
  pub scan_required : Bool
  pub upi_of : ℕ → Text
  pub rule_set_version : Text
  pub double : ℕ → ℕ
  pub print_id : ℕ → Text
  pub print_hash : ℕ → Text
  pub iso : ℕ → Text

-- The text is there and not empty: the test `&& e.malwareScannerVersion`.
abbrev pub has_text : Option Text → Bool
has_text none = false
has_text (some []) = false
has_text (some (c ∷ t)) = true

-- `evidence-storage.service.ts`, `usableEvidence`
unfoldable pub usable_evidence : Bool → ℕ → EvidenceObject → Bool
usable_evidence scan_required now e =
    is_verified e.verification_status
    && (not scan_required
        || (is_some e.sha256
            && same_opt e.malware_scan_sha256 e.sha256
            && is_some e.malware_scanned_at
            && has_text e.malware_scanner_version
            && has_text e.storage_version_id))
    && (elim e.expires_at [ none ↦ true | some t ↦ ltb now t ])
    && (elim e.issued_at [ none ↦ true | some t ↦ leb t now ])

-- `map.set(v.fieldDefinitionId, v)`: a later row takes the place of an earlier one.
pub put_value : ValueRow → List ValueRow → List ValueRow
put_value v [] = v ∷ []
put_value v (w ∷ ws) =
    let rest = put_value v ws in if w.field_id == v.field_id then v ∷ ws else w ∷ rest

pub put_values : List ValueRow → List ValueRow → List ValueRow
put_values [] merged = merged
put_values (v ∷ vs) merged = put_values vs (put_value v merged)

-- The rows of the model and those of the item that are in force, the item's over the model's.
unfoldable pub merged_values : Db → BatteryItem → List ValueRow
unfolding put_values put_value
merged_values db item =
    put_values (keep (λ (v : ValueRow). opt_eq v.item_id item.id && is_current_value v) db.values) (
      put_values
        (keep (λ (v : ValueRow). opt_eq v.model_id item.model_id && is_current_value v) db.values)
        [])

-- `load_merged`: the item, its model, and the values that count.
pub record Merged : Type 0 where
  pub item : BatteryItem
  pub model : BatteryModel
  pub values : List ValueRow

unfoldable pub load_merged : Db → ℕ → ℕ → Outcome Merged
load_merged db organisation_id item_id = do
  item ← found (find? (owns_item organisation_id item_id) db.items) not_found
  model ← found (find? (λ (m : BatteryModel). m.id == item.model_id) db.models) not_found
  ok record { item = item; model = model; values = merged_values db item }

pub record Validation : Type 0 where
  pub item : BatteryItem
  pub model : BatteryModel
  pub values : List ValueRow
  pub readiness : Readiness
  pub cross_checks : List ValidationIssue
  pub publication_blockers : List ValidationIssue
  pub publishable : Bool

abbrev pub is_empty {ℓ} : {A : Type ℓ} → List A → Bool
is_empty [] = true
is_empty (x ∷ xs) = false

abbrev pub integer_ids : Option (List (Option ℕ)) → List ℕ
integer_ids none = []
integer_ids (some []) = []
integer_ids (some (none ∷ ids)) = integer_ids (some ids)
integer_ids (some (some id ∷ ids)) = id ∷ integer_ids (some ids)

-- A warning about provenance blocks a publication.
abbrev pub as_blocker : ValidationIssue → ValidationIssue
as_blocker i = record i { severity = blocker }

module _ (p : Platform) (now : ℕ) where
  abbrev engine_value : Db → ValueRow → PassportValue
  engine_value db v = record {
    field_id = v.field_id;
    value = some v.value;
    evidence_ids = some (
        map (λ (e : EvidenceObject). e.id)
          (keep (usable_evidence p.scan_required now) (evidence_of db.links db.evidence v.id)));
    validated = some (is_validated v.validation_status);
  }

  -- `readinessForValues`
  unfoldable pub readiness_for_values : Db → BatteryModel → List ValueRow → Readiness
  readiness_for_values db model values =
      let readiness =
        calculate_readiness fields model.category (map (engine_value db) values)
          (some (integer_ids (model.applicability_context).conditional_required_field_ids)) in
      let review =
        assess_conditional_review fields p.fingerprint model.category model.applicability_context in
      record readiness {
        conditional_open = length review.unresolved_field_ids;
        blockers = readiness.blockers ++ review.issues;
      }

  -- `byId.get(id)?.valueJson`
  value_json : ℕ → List ValueRow → Option Json
  value_json id [] = none
  value_json id (v ∷ vs) = if v.field_id == id then some v.value else value_json id vs

  number_of : Option Json → Option ℕ
  number_of (some (num n)) = some n
  number_of (some (str t)) = if is_blank t then none else some (p.parse_number t)
  number_of _ = none

  pub cross_input : BatteryItem → List ValueRow → CrossFieldInput
  unfolding value_json number_of
  cross_input item values =
      let read = λ (id : ℕ). number_of (value_json id values) in
      record {
        min_voltage = read 26;
        nominal_voltage = read 27;
        max_voltage = read 28;
        capacity = read 11;
        weight = read 10;
        upi = none;
        manufacture_date = item.manufacture_date;
        material_mass_fractions = none;
        baseline_capacity = read 11;
        current_capacity = read 51;
        reported_capacity_fade_pct = read 52;
      }

  -- `(status === 're-used' ? 'reused' : status) !== item.lifecycleStatus`, when there is a status
  status_mismatch : Option Json → LifecycleStatus → Bool
  status_mismatch none current = false
  status_mismatch (some (str t)) current = not (
      same_text (if same_text t (codes "re-used") then codes "reused" else t) (status_text current))
  status_mismatch (some _) current = true

  pub lifecycle_issues : BatteryItem → List ValueRow → List ValidationIssue
  unfolding status_mismatch value_json
  lifecycle_issues item values =
      (if status_mismatch (value_json 67 values) item.lifecycle_status
        then record { rule = Rule.lifecycle_status; field_id = some 67; severity = blocker } ∷ []
        else [])
      ++ (if one_of item.passport_state (recycled ∷ superseded ∷ [])
            || is_recycled item.lifecycle_status
          then record { rule = Rule.lifecycle_closed; field_id = none; severity = blocker } ∷ []
          else [])

  -- `validateTx`; the readings of the clock in one call are taken to be equal.
  unfoldable pub validate_tx : Db → ℕ → ℕ → Outcome Validation
  unfolding load_merged cross_input lifecycle_issues
  validate_tx db organisation_id item_id = do
    merged ← load_merged db organisation_id item_id
    let readiness = readiness_for_values db merged.model merged.values
    let cross =
        cross_field_checks p.floats (cross_input merged.item merged.values) now
        ++ lifecycle_issues merged.item merged.values
    let blockers =
        readiness.blockers ++ (keep is_blocker cross ++ map as_blocker readiness.warnings)
    ok record {
      item = merged.item;
      model = merged.model;
      values = merged.values;
      readiness = readiness;
      cross_checks = cross;
      publication_blockers = blockers;
      publishable = is_empty blockers;
    }
