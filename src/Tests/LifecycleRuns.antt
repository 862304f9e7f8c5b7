-- ===== src/Tests/LifecycleRuns.antt =====
-- Events in the life of a battery, and what a reader sees of its passport.
use codex_nieuw.Prelude.{ℕ, ◌+◌, ◌≡◌, refl, true, none, some, [], ◌∷◌, ◌++◌, Memᴰ}
use codex_nieuw.Prelude.Outcome.{Outcome, ok, err, ran, succeeds, passport_lifecycle_closed}
use codex_nieuw.Json.{codes, str, end}
use codex_nieuw.Rules.Types.{ev, public}
use codex_nieuw.Rules.Catalogue.{fields}
use codex_nieuw.Rules.StateMachine.{updated, published, recycled, transition}
use codex_nieuw.Store.Rows.{
  LifecycleStatus, ValidationStatus, EventType, LifecycleEvent, PassportVersion, CanonicalPassport,
  CanonicalValue, PublicValue, BatteryItem, Reading, Db,
}
use codex_nieuw.Store.Queries.{latest_of}
use codex_nieuw.Tenant.PassportLock.{lock_item, lock_model, assert_active, invalidate_passports}
use codex_nieuw.Tenant.PassportLock.Invalidate.{Pointwise, Invalidated, invalidate_passports_lem}
use codex_nieuw.Passports.Projection.{is_allowed, project_passport, disclosed}
use codex_nieuw.Passports.Projection.Disclosure.{IsDisclosable, project_passport-IsDisclosable}
use codex_nieuw.Passports.Lifecycle.{
  EventBody, event, apply_event, status_mismatch, prior_valid, recycle_item, set_status,
}
use codex_nieuw.Passports.Lifecycle.Closing.{event-lineage, event-recycle}
use codex_nieuw.Tests.World.{new_id, operator, battery, world}

abbrev pub weight : CanonicalValue
weight = record {
  field_id = 10;
  name = some "Weight";
  value = str (codes "400");
  unit = some (codes "kg");
  access_tier = some public;
  validation_status = ValidationStatus.validated;
  source_kind = "operator";
  evidence_ids = 30 ∷ [];
}

abbrev document : CanonicalPassport
document = record {
  rule_set_version = codes "1";
  generated_at = 900;
  public_id = 77;
  id = 20;
  model_id = 10;
  model_identifier = codes "M";
  serial = codes "S";
  batch = none;
  upi = codes "u";
  category = ev;
  lifecycle_status = LifecycleStatus.original;
  values = weight ∷ [];
}

abbrev pub first_version : PassportVersion
first_version = record {
  id = 50;
  organisation_id = 1;
  item_id = 20;
  version_no = 1;
  schema_version = codes "eubatterypassport.v2";
  rule_set_version = codes "1";
  canonical = document;
  sha256 = 11;
  previous_version_hash = none;
  published_at = 901;
}

abbrev shown : PublicValue
shown = disclosed weight

shows : Memᴰ shown (project_passport document none).values
unfolding project_passport is_allowed fields
shows = Memᴰ.head refl

project_passport-IsDisclosable_example :
    (v : CanonicalValue) × Memᴰ v (weight ∷ []) × (shown ≡ disclosed v) × IsDisclosable none 10
project_passport-IsDisclosable_example = project_passport-IsDisclosable document none shown shows

abbrev pub before : Db
before = record (world updated) { versions = first_version ∷ [] }

abbrev hash_event : ℕ → EventBody → LifecycleStatus → LifecycleStatus → ℕ
hash_event id b from to = id + b.event_time

abbrev reading_hash : ℕ → Reading → ℕ
reading_hash id r = id + r.measured_at

abbrev body : EventType → EventBody
body kind = record {
  event_type = kind;
  event_time = 950;
  payload = end;
  previous_passport_id = some 50;
  new_lifecycle_status = none;
}

reuse_run : Outcome (LifecycleEvent × Db)
reuse_run = event hash_event reading_hash new_id operator 1 20 (body EventType.reuse) before

reuses : succeeds reuse_run ≡ true
unfolding reuse_run event lock_item lock_model assert_active status_mismatch prior_valid apply_event
    set_status latest_of
reuses = refl

event-lineage_example :
    (v : PassportVersion) × (latest_of (first_version ∷ []) ≡ some v)
    × (((ran reuse_run reuses).0.0).previous_passport_id ≡ some v.id)
    × (((ran reuse_run reuses).0.1).events ≡ [] ++ (ran reuse_run reuses).0.0 ∷ [])
unfolding reuse_run
event-lineage_example =
    event-lineage hash_event reading_hash new_id operator 1 20 (body EventType.reuse) before
      (ran reuse_run reuses).0.0 (ran reuse_run reuses).0.1 (ran reuse_run reuses).1 refl

recycle_run : Outcome (LifecycleEvent × Db)
recycle_run = event hash_event reading_hash new_id operator 1 20 (body EventType.recycle) before

recycles : succeeds recycle_run ≡ true
unfolding recycle_run event lock_item lock_model assert_active status_mismatch prior_valid
    apply_event recycle_item transition latest_of
recycles = refl

abbrev closed_battery : BatteryItem
closed_battery = record (battery recycled) { lifecycle_status = LifecycleStatus.recycled }

locks_closed : lock_item (ran recycle_run recycles).0.1 1 20 ≡ ok closed_battery
unfolding recycle_run ran event lock_item lock_model assert_active status_mismatch prior_valid
    apply_event recycle_item transition latest_of recycles
locks_closed = refl

event-recycle_example : assert_active closed_battery ≡ err passport_lifecycle_closed
unfolding recycle_run
event-recycle_example =
    event-recycle hash_event reading_hash new_id operator 1 20 (body EventType.recycle) before
      (ran recycle_run recycles).0.0 (ran recycle_run recycles).0.1 (ran recycle_run recycles).1
      refl closed_battery locks_closed

invalidate_passports_lem_example :
    Pointwise
      (Invalidated 1 none (some 10))
      (battery published ∷ [])
      (invalidate_passports 1 none (some 10) (world published)).items
invalidate_passports_lem_example = invalidate_passports_lem 1 none (some 10) (world published)
