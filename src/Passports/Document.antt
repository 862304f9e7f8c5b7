-- ===== src/Passports/Document.antt =====
-- apps/api/src/modules/passports/passports.controller.ts: validation and publication of a passport.
-- The clock readings and the new identifiers of a request are numbered in the order in which the
-- handler takes them.
pub mod Json
pub mod Validating
pub mod Publishing
pub mod Assessing
pub mod Chain
use codex_nieuw.Prelude.{
  ℕ, zero, suc, ◌+◌, String, ◌≡◌, Bool, true, false, not, ◌&&◌, ◌||◌, Option, none, some, List, [],
  ◌∷◌, ◌++◌, ltb, ◌==◌, if◌then◌else◌, keep, find?, map, or_else, update_where,
}
use codex_nieuw.Prelude.Outcome.{
  Outcome, ok, err, ◌>>=◌, ◌>>◌, require, passport_not_ready, passport_not_publishable,
}
use codex_nieuw.Json.{Text, codes}
use codex_nieuw.Rules.Types.{FieldDefinition}
use codex_nieuw.Rules.Catalogue.{fields}
use codex_nieuw.Rules.StateMachine.{
  PassportState, draft, data_collection, validation_failed, ready, published, registry_pending,
  registered, updated, one_of, same_state, transition,
}
use codex_nieuw.Canonical.{hash_json}
use codex_nieuw.Store.Rows.{
  BatteryItem, BatteryModel, ValueRow, EvidenceObject, CanonicalValue, CanonicalPassport,
  PassportVersion, PublicSnapshot, AuditEvent, Db,
}
use codex_nieuw.Store.Queries.{owns_item, latest_of, of_item}
use codex_nieuw.Tenant.Access.{Actor}
use codex_nieuw.Tenant.PassportLock.{lock_item, assert_active}
use codex_nieuw.Passports.Data.{Platform, Validation, validate_tx}
use codex_nieuw.Passports.Projection.{project_passport}
use Json.{canonical_json, public_json}

abbrev pub audit_event : ℕ → Actor → String → ℕ → AuditEvent
audit_event organisation_id actor action resource_id = record {
  organisation_id = organisation_id;
  actor_subject = actor.subject;
  action = action;
  resource_id = resource_id;
}

-- `batteryItem.update({ where: { id } })`
abbrev pub update_item : ℕ → (BatteryItem → BatteryItem) → List BatteryItem → List BatteryItem
update_item id f items = update_where (λ (i : BatteryItem). i.id == id) f items

-- The states in which a publication is current.
abbrev pub is_published : PassportState → Bool
is_published s = one_of s (published ∷ registered ∷ registry_pending ∷ [])

abbrev pub target_state : PassportState → Bool → PassportState
target_state s publishable =
    if is_published s
    then (if publishable then s else updated)
    else (if publishable then ready else validation_failed)

-- `if (current !== target) transition(current, target)`
unfoldable pub move_to : PassportState → PassportState → Outcome PassportState
move_to current target = if same_state current target then ok target else transition current target

-- `item.passportState === 'draft' ? transition('draft', 'data_collection') : item.passportState`
unfoldable pub leave_draft : PassportState → Outcome PassportState
leave_draft draft = transition draft data_collection
leave_draft s = ok s

-- `item.upi || resolver.upi(item.publicId)`
abbrev pub upi_or : Option Text → Text → Text
upi_or none other = other
upi_or (some []) other = other
upi_or (some (c ∷ t)) other = c ∷ t

-- `defs.get(id)`
abbrev pub definition_of : ℕ → Option FieldDefinition
definition_of id = find? (λ (f : FieldDefinition). f.id == id) fields

-- `.sort((a, b) => a.fieldId - b.fieldId)`
pub insert_value : CanonicalValue → List CanonicalValue → List CanonicalValue
insert_value v [] = v ∷ []
insert_value v (w ∷ ws) =
    let later = insert_value v ws in if ltb w.field_id v.field_id then w ∷ later else v ∷ w ∷ ws

unfoldable pub sort_values : List CanonicalValue → List CanonicalValue
unfolding insert_value
sort_values [] = []
sort_values (v ∷ vs) = insert_value v (sort_values vs)

-- `evidenceLinks.map(link => link.evidenceId)`
abbrev pub linked_evidence : Db → ℕ → List ℕ
linked_evidence db value_id = map (λ l. l.evidence_id) (keep (λ l. l.value_id == value_id) db.links)

pub canonical_value : Db → ValueRow → CanonicalValue
canonical_value db v = record {
  field_id = v.field_id;
  name = (elim (definition_of v.field_id) [ none ↦ none | some f ↦ some f.name ]);
  value = v.value;
  unit = v.unit;
  access_tier = (elim (definition_of v.field_id) [ none ↦ none | some f ↦ some f.access_tier ]);
  validation_status = v.validation_status;
  source_kind = v.source_kind;
  evidence_ids = linked_evidence db v.id;
}

module _ (p : Platform) (time : ℕ → ℕ) (uuid : ℕ → ℕ) (actor : Actor) where
  -- `POST :itemId/validate`
  unfoldable pub validate : ℕ → ℕ → Db → Outcome (Validation × Db)
  validate organisation_id item_id db = do
    item ← lock_item db organisation_id item_id
    assert_active item
    result ← validate_tx p (time 0) db organisation_id item_id
    let target = target_state item.passport_state result.publishable
    current ← leave_draft item.passport_state
    moved ← move_to current target
    ok (
      result,
      record db {
        items =
            update_item item_id (λ (i : BatteryItem). record i { passport_state = target })
              db.items;
        audit = db.audit ++ audit_event organisation_id actor "passport.validate" item_id ∷ [];
      },
    )

  -- `canonical`, before it is hashed.
  unfoldable pub canonical_passport : Db → Validation → Text → CanonicalPassport
  canonical_passport db v upi = record {
    rule_set_version = p.rule_set_version;
    generated_at = time 1;
    public_id = (v.item).public_id;
    id = (v.item).id;
    model_id = (v.item).model_id;
    model_identifier = (v.model).model_identifier;
    serial = (v.item).serial;
    batch = (v.item).batch;
    upi = upi;
    category = (v.model).category;
    lifecycle_status = (v.item).lifecycle_status;
    values = sort_values (map (canonical_value db) v.values);
  }

  abbrev pub latest_version : Db → ℕ → ℕ → Option PassportVersion
  latest_version db organisation_id item_id =
      latest_of (keep (of_item organisation_id item_id) db.versions)

  -- The new row of `passportVersion.create`.
  unfoldable pub new_version : Option PassportVersion → ℕ → ℕ → CanonicalPassport → PassportVersion
  new_version latest organisation_id item_id canonical = record {
    id = uuid 0;
    organisation_id = organisation_id;
    item_id = item_id;
    version_no = (elim latest [ none ↦ 0 | some v ↦ v.version_no ]) + 1;
    schema_version = codes "eubatterypassport.v2";
    rule_set_version = canonical.rule_set_version;
    canonical = canonical;
    sha256 = hash_json p.externals (canonical_json p canonical);
    previous_version_hash = (elim latest [ none ↦ none | some v ↦ some v.sha256 ]);
    published_at = time 2;
  }

  unfoldable pub new_snapshot : BatteryItem → PassportVersion → PublicSnapshot
  new_snapshot item row =
      let shown = project_passport row.canonical none in
      record {
        id = uuid 1;
        organisation_id = row.organisation_id;
        item_id = row.item_id;
        version_id = row.id;
        public_id = item.public_id;
        upi = (row.canonical).upi;
        public_json = shown;
        sha256 = hash_json p.externals (public_json p shown);
        active = true;
      }

  abbrev pub is_active_snapshot : ℕ → ℕ → PublicSnapshot → Bool
  is_active_snapshot organisation_id item_id s =
      s.organisation_id == organisation_id && (s.item_id == item_id) && s.active

  -- The writes of `publish`.
  unfoldable pub store_publication : ℕ → ℕ → BatteryItem → PassportVersion → Db → Db
  store_publication organisation_id item_id item row db = record db {
    versions = db.versions ++ row ∷ [];
    snapshots =
        update_where (is_active_snapshot organisation_id item_id)
          (λ (s : PublicSnapshot). record s { active = false }) db.snapshots
        ++ new_snapshot item row ∷ [];
    items =
        update_item item_id
          (λ (i : BatteryItem). record i {
            passport_state = published;
            upi = some (row.canonical).upi;
          })
          db.items;
    audit = db.audit ++ audit_event organisation_id actor "passport.publish" row.id ∷ [];
  }

  -- `POST :itemId/publish`
  unfoldable pub publish : ℕ → ℕ → Db → Outcome (PassportVersion × Db)
  publish organisation_id item_id db = do
    locked ← lock_item db organisation_id item_id
    assert_active locked
    require (one_of locked.passport_state (ready ∷ updated ∷ [])) passport_not_ready
    validation ← validate_tx p (time 0) db organisation_id item_id
    require validation.publishable passport_not_publishable
    moved ← transition (validation.item).passport_state published
    let upi = upi_or (validation.item).upi (p.upi_of (validation.item).public_id)
    let row =
        new_version (latest_version db organisation_id item_id) organisation_id item_id
          (canonical_passport db validation upi)
    ok (row, store_publication organisation_id item_id validation.item row db)
