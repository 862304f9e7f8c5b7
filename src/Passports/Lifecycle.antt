-- ===== src/Passports/Lifecycle.antt =====
-- apps/api/src/modules/lifecycle/lifecycle.controller.ts: events in the life of a battery and the
-- ingestion of telemetry. A request body is what its schema has accepted.
pub mod Closing
use codex_nieuw.Prelude.{
  ℕ, zero, suc, ◌+◌, String, ◌≡◌, Bool, true, false, not, ◌&&◌, ◌||◌, Option, none, some, List, [],
  ◌∷◌, ◌++◌, ◌==◌, if◌then◌else◌, keep, or_else, is_some, length, opt_eq,
}
use codex_nieuw.Prelude.Outcome.{
  Outcome, ok, err, ◌>>=◌, ◌>>◌, require, prior_passport_required, prior_passport_invalid,
  lifecycle_event_status_mismatch,
}
use codex_nieuw.Json.{Text, Json, Members}
use codex_nieuw.Rules.StateMachine.{PassportState, recycled, transition}
use codex_nieuw.Store.Rows.{
  LifecycleStatus, original, repurposed, reused, remanufactured, waste, EventType, status_change,
  repair, accident, repurpose, reuse, remanufacture, recycle, LifecycleEvent, Reading,
  TelemetryReading, PassportVersion, BatteryItem, Db,
}
use codex_nieuw.Store.Queries.{latest_of, of_item}
use codex_nieuw.Tenant.Access.{Actor}
use codex_nieuw.Tenant.PassportLock.{lock_item, assert_active, invalidate_passports}
use codex_nieuw.Passports.Document.{audit_event, update_item}

pub record EventBody : Type 0 where
  pub event_type : EventType
  pub event_time : ℕ
  pub payload : Members
  pub previous_passport_id : Option ℕ
  pub new_lifecycle_status : Option LifecycleStatus

-- `statusForEvent[eventType]`
abbrev pub status_for_event : EventType → Option LifecycleStatus
status_for_event repurpose = some repurposed
status_for_event reuse = some reused
status_for_event remanufacture = some remanufactured
status_for_event recycle = some LifecycleStatus.recycled
status_for_event status_change = some waste
status_for_event repair = none
status_for_event accident = none

abbrev pub is_lineage : EventType → Bool
is_lineage repurpose = true
is_lineage reuse = true
is_lineage remanufacture = true
is_lineage _ = false

abbrev pub same_status : LifecycleStatus → LifecycleStatus → Bool
same_status original original = true
same_status repurposed repurposed = true
same_status reused reused = true
same_status remanufactured remanufactured = true
same_status waste waste = true
same_status LifecycleStatus.recycled LifecycleStatus.recycled = true
same_status _ _ = false

abbrev is_status_change : EventType → Bool
is_status_change status_change = true
is_status_change _ = false

abbrev is_recycle : EventType → Bool
is_recycle recycle = true
is_recycle _ = false

-- `b.newLifecycleStatus !== s`
abbrev differs : Option LifecycleStatus → LifecycleStatus → Bool
differs none s = true
differs (some t) s = not (same_status t s)

-- `b.newLifecycleStatus && b.newLifecycleStatus !== status`
abbrev contradicts : Option LifecycleStatus → Option LifecycleStatus → Bool
contradicts none status = false
contradicts (some t) none = true
contradicts (some t) (some s) = not (same_status t s)

unfoldable pub status_mismatch : EventBody → Bool
status_mismatch b =
    (is_status_change b.event_type && differs b.new_lifecycle_status waste)
    || contradicts b.new_lifecycle_status (status_for_event b.event_type)

-- The test on `previousPassportId`: it names the item's latest version. Every version of the
-- database is published.
unfoldable pub prior_valid : Option ℕ → Option PassportVersion → Bool
prior_valid none latest = true
prior_valid (some id) none = false
prior_valid (some id) (some v) = v.id == id

-- `hash_event` and `hash_reading` are `hashJson` of the event's and the reading's own fields.
module _ (hash_event : ℕ → EventBody → LifecycleStatus → LifecycleStatus → ℕ)
    (hash_reading : ℕ → Reading → ℕ) (uuid : ℕ → ℕ) (actor : Actor) where
  pub event_row : ℕ → ℕ → EventBody → LifecycleStatus → LifecycleEvent
  event_row organisation_id item_id b from =
      let to = or_else (status_for_event b.event_type) from in
      record {
        id = uuid 0;
        organisation_id = organisation_id;
        item_id = item_id;
        event_type = b.event_type;
        event_time = b.event_time;
        from_status = from;
        to_status = to;
        previous_passport_id = b.previous_passport_id;
        integrity_hash = hash_event item_id b from to;
      }

  abbrev pub recycle_row : BatteryItem → BatteryItem
  recycle_row i = record i {
    lifecycle_status = LifecycleStatus.recycled;
    passport_state = recycled;
  }

  unfoldable pub recycle_item : ℕ → BatteryItem → Db → Outcome Db
  recycle_item item_id item db = do
    moved ← transition item.passport_state recycled
    ok record db { items = update_item item_id recycle_row db.items }

  unfoldable pub set_status : ℕ → Option LifecycleStatus → Db → Db
  set_status item_id none db = db
  set_status item_id (some s) db = record db {
    items = update_item item_id (λ (i : BatteryItem). record i { lifecycle_status = s }) db.items;
  }

  -- The update of the item, in the case of a recycling and in the others.
  unfoldable pub apply_event : ℕ → ℕ → EventBody → BatteryItem → Db → Outcome Db
  apply_event organisation_id item_id b item db =
      if is_recycle b.event_type
      then recycle_item item_id item db
      else ok (
          set_status item_id (status_for_event b.event_type)
            (invalidate_passports organisation_id (some item_id) none db))

  -- `POST :itemId/events`
  unfoldable pub event : ℕ → ℕ → EventBody → Db → Outcome (LifecycleEvent × Db)
  event organisation_id item_id b db = do
    require (not (is_lineage b.event_type) || is_some b.previous_passport_id)
        prior_passport_required
    require (not (status_mismatch b)) lifecycle_event_status_mismatch
    item ← lock_item db organisation_id item_id
    assert_active item
    require
        (prior_valid b.previous_passport_id
          (latest_of (keep (of_item organisation_id item_id) db.versions)))
        prior_passport_invalid
    let row = event_row organisation_id item_id b item.lifecycle_status
    applied ←
        apply_event organisation_id item_id b item (record db { events = db.events ++ row ∷ [] })
    ok (
      row,
      record applied {
        audit = applied.audit ++ audit_event organisation_id actor "lifecycle.event" item_id ∷ [];
      },
    )

  -- The loop over the readings; `n` identifiers have been drawn.
  store_readings : ℕ → ℕ → ℕ → List Reading → List TelemetryReading → List TelemetryReading
  store_readings organisation_id item_id n [] rows = rows
  store_readings organisation_id item_id n (r ∷ rs) rows =
      store_readings organisation_id item_id (suc n) rs (
        rows
        ++ record {
          id = uuid n;
          organisation_id = organisation_id;
          item_id = item_id;
          reading = r;
          integrity_hash = hash_reading item_id r;
        }
          ∷ [])

  -- `POST :itemId/telemetry`
  unfoldable pub telemetry : ℕ → ℕ → List Reading → Db → Outcome (ℕ × Db)
  unfolding store_readings
  telemetry organisation_id item_id readings db = do
    item ← lock_item db organisation_id item_id
    assert_active item
    let stored = record db {
      telemetry = store_readings organisation_id item_id 0 readings db.telemetry;
    }
    let invalidated = invalidate_passports organisation_id (some item_id) none stored
    ok (
      length readings,
      record invalidated {
        audit =
            invalidated.audit ++ audit_event organisation_id actor "telemetry.ingest" item_id ∷ [];
      },
    )
