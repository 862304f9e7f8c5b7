-- ===== src/Values.antt =====
-- apps/api/src/modules/values/values.controller.ts: recording, validation and rejection of the values
-- of data points. A request body is what its schema has accepted.
pub mod Rows
pub mod Slots
pub mod Runs
pub mod Proven
use codex_nieuw.Prelude.{
  ℕ, String, Bool, true, false, not, ◌&&◌, ◌||◌, Option, none, some, List, [], ◌∷◌, ◌++◌, ◌==◌,
  same_opt, if◌then◌else◌, find?, keep, is_some, or_else, update_where, length, ltb,
}
use codex_nieuw.Prelude.Outcome.{
  Outcome, ok, ◌>>=◌, ◌>>◌, require, found, not_found, value_not_current, provenance_required,
}
use codex_nieuw.Json.{Text, Json}
use codex_nieuw.Store.Rows.{ValidationStatus, ValueRow, EvidenceObject, Db}
use codex_nieuw.Store.Queries.{evidence_of, is_validated}
use codex_nieuw.Tenant.Access.{Actor}
use codex_nieuw.Tenant.PassportLock.{lock_value_owner, invalidate_passports}
use codex_nieuw.Passports.Data.{usable_evidence}
use codex_nieuw.Passports.Document.{audit_event}
use Rows.{last_where}

-- `ValueSchema`; it accepts a body with exactly one owner.
pub record ValueBody : Type 0 where
  pub model_id : Option ℕ
  pub item_id : Option ℕ
  pub field_id : ℕ
  pub value : Json
  pub unit : Option Text
  pub source_kind : Option String

-- The `where` of the prior value: the owner and the data point, in the organisation, still valid.
abbrev pub is_open : ℕ → Option ℕ → Option ℕ → ℕ → ValueRow → Bool
is_open organisation_id model_id item_id field_id v =
    v.organisation_id == organisation_id
    && same_opt v.model_id model_id
    && same_opt v.item_id item_id
    && (v.field_id == field_id)
    && not (is_some v.valid_until)

abbrev pub owns_value : ℕ → ℕ → ValueRow → Bool
owns_value organisation_id id v = v.id == id && (v.organisation_id == organisation_id)

abbrev pub has_id : ℕ → ValueRow → Bool
has_id id v = v.id == id

abbrev pub is_out : ValidationStatus → Bool
is_out ValidationStatus.superseded = true
is_out ValidationStatus.rejected = true
is_out _ = false

module _ (scan_required : Bool) (time : ℕ → ℕ) (uuid : ℕ → ℕ) (actor : Actor) where
  abbrev pub superseded_row : ValueRow → ValueRow
  superseded_row v = record v {
    valid_until = some (time 0);
    validation_status = ValidationStatus.superseded;
  }

  abbrev pub rejected_row : ValueRow → ValueRow
  rejected_row v = record v {
    validation_status = ValidationStatus.rejected;
    valid_until = some (time 0);
  }

  abbrev pub validated_row : ValueRow → ValueRow
  validated_row v = record v { validation_status = ValidationStatus.validated }

  abbrev pub prior_of : ℕ → ValueBody → List ValueRow → Option ValueRow
  prior_of organisation_id b values =
      last_where (is_open organisation_id b.model_id b.item_id b.field_id) values

  -- `if (prior) update prior`
  unfoldable pub supersede : Option ValueRow → List ValueRow → List ValueRow
  supersede none values = values
  supersede (some prior) values = update_where (has_id prior.id) superseded_row values

  unfoldable pub new_value : ℕ → ValueBody → Option ValueRow → ValueRow
  new_value organisation_id b prior = record {
    id = uuid 0;
    organisation_id = organisation_id;
    model_id = b.model_id;
    item_id = b.item_id;
    field_id = b.field_id;
    value = b.value;
    unit = b.unit;
    source_kind = or_else b.source_kind "operator";
    validation_status = ValidationStatus.unvalidated;
    valid_until = none;
    supersedes = (elim prior [ none ↦ none | some v ↦ some v.id ]);
  }

  abbrev add_event : ℕ → String → ℕ → Db → Db
  add_event organisation_id action id db = record db {
    audit = db.audit ++ audit_event organisation_id actor action id ∷ [];
  }

  -- `POST passport-values`
  unfoldable pub create : ℕ → ValueBody → Db → Outcome (ValueRow × Db)
  create organisation_id b db = do
    lock_value_owner db organisation_id b.item_id b.model_id
    let prior = prior_of organisation_id b db.values
    let row = new_value organisation_id b prior
    let stored = record db { values = supersede prior db.values ++ row ∷ [] }
    ok (
      row,
      add_event organisation_id "passport_value.create" row.id
          (invalidate_passports organisation_id b.item_id b.model_id stored),
    )

  abbrev pub usable_of : Db → ℕ → List EvidenceObject
  usable_of db id =
      keep (usable_evidence scan_required (time 0)) (evidence_of db.links db.evidence id)

  -- `POST passport-values/:id/validate`
  unfoldable pub validate_value : ℕ → ℕ → Db → Outcome (ValueRow × Db)
  validate_value organisation_id id db = do
    value ← found (find? (owns_value organisation_id id) db.values) not_found
    lock_value_owner db organisation_id value.item_id value.model_id
    require (not (is_some value.valid_until || is_out value.validation_status)) value_not_current
    require (ltb 0 (length (usable_of db id))) provenance_required
    let invalidated =
        (if is_validated value.validation_status
          then db
          else invalidate_passports organisation_id value.item_id value.model_id db)
    ok (
      validated_row value,
      add_event organisation_id "passport_value.validate" id (record invalidated {
        values = update_where (has_id id) validated_row invalidated.values;
      }),
    )

  -- `POST passport-values/:id/reject`
  unfoldable pub reject : ℕ → ℕ → Db → Outcome (ValueRow × Db)
  reject organisation_id id db = do
    value ← found (find? (owns_value organisation_id id) db.values) not_found
    lock_value_owner db organisation_id value.item_id value.model_id
    require (not (is_some value.valid_until)) value_not_current
    let stored = record db { values = update_where (has_id id) rejected_row db.values }
    ok (
      rejected_row value,
      add_event organisation_id "passport_value.reject" id
          (invalidate_passports organisation_id value.item_id value.model_id stored),
    )
