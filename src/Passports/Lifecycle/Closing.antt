-- ===== src/Passports/Lifecycle/Closing.antt =====
-- What the events do to an item: recycling closes it for good, and a new life needs the passport of
-- the old one.
use codex_nieuw.Prelude.{
  ℕ, ◌≡◌, refl, true, false, not, ◌||◌, Option, none, some, List, [], ◌∷◌, ◌++◌, arith, find?, keep,
  is_some, ap, sym, ◌∙◌,
}
use codex_nieuw.Prelude.Outcome.{
  ok, err, >>=-eq-ok, require-eq-ok, require, passport_lifecycle_closed, prior_passport_required,
  prior_passport_invalid, lifecycle_event_status_mismatch,
}
use codex_nieuw.Store.Rows.{
  LifecycleStatus, recycle, LifecycleEvent, Reading, PassportVersion, BatteryItem, Db,
}
use codex_nieuw.Store.Queries.{latest_of, of_item, owns_item}
use codex_nieuw.Tenant.Access.{Actor}
use codex_nieuw.Tenant.PassportLock.{lock_item, assert_active, invalidate_passports}
use codex_nieuw.Tenant.PassportLock.Locked.{lock_item-find?}
use codex_nieuw.Passports.Document.{update_item, audit_event}
use codex_nieuw.Passports.Lifecycle.{
  EventBody, is_lineage, status_mismatch, prior_valid, apply_event, event, event_row, recycle_row,
  recycle_item, set_status,
}

prior_latest :
    (id : Option ℕ) (latest : Option PassportVersion)
    → is_some id ≡ true
    → prior_valid id latest ≡ true
    → (v : PassportVersion) × (latest ≡ some v) × (id ≡ some v.id)
unfolding prior_valid
prior_latest none latest h k = ground arith
prior_latest (some n) none h k = ground arith
prior_latest (some n) (some v) h k = (v, refl, ground arith)

module _ (hash_event : ℕ → EventBody → LifecycleStatus → LifecycleStatus → ℕ)
    (hash_reading : ℕ → Reading → ℕ) (uuid : ℕ → ℕ) (actor : Actor) where
  -- What an accepted event has checked, and its row.
  pub record IsAccepted (organisation_id item_id : ℕ) (b : EventBody) (db : Db)
      (row : LifecycleEvent) (new : Db) : Type 0 where
    pub item : BatteryItem
    pub applied : Db
    pub lock : lock_item db organisation_id item_id ≡ ok item
    pub active : assert_active item ≡ ok tt
    pub lineage : (not (is_lineage b.event_type) || is_some b.previous_passport_id) ≡ true
    pub status : status_mismatch b ≡ false
    pub prior :
        prior_valid b.previous_passport_id
          (latest_of (keep (of_item organisation_id item_id) db.versions))
        ≡ true
    pub row_lem :
        row
        ≡ event_row hash_event hash_reading uuid actor organisation_id item_id b
            item.lifecycle_status
    pub applied_lem :
        apply_event hash_event hash_reading uuid actor organisation_id item_id b item (record db {
          events =
              db.events
              ++ event_row hash_event hash_reading uuid actor organisation_id item_id b
                  item.lifecycle_status
                ∷ [];
        })
        ≡ ok applied
    pub written : new ≡ record applied {
      audit = applied.audit ++ audit_event organisation_id actor "lifecycle.event" item_id ∷ [];
    }

  event-IsAccepted :
      (o i : ℕ) (b : EventBody) (db : Db) (row : LifecycleEvent) (new : Db)
      → event hash_event hash_reading uuid actor o i b db ≡ ok (row, new)
      → IsAccepted o i b db row new
  unfolding event
  event-IsAccepted o i b db row new h =
      let (t, lineage, h1) =
        >>=-eq-ok
          (require (not (is_lineage b.event_type) || is_some b.previous_passport_id)
            prior_passport_required)
          _ h in
      let (u, status, h2) =
        >>=-eq-ok (require (not (status_mismatch b)) lifecycle_event_status_mismatch) _ h1 in
      let (item, locked, h3) = >>=-eq-ok (lock_item db o i) _ h2 in
      let (v, active, h4) = >>=-eq-ok (assert_active item) _ h3 in
      let (w, prior, h5) =
        >>=-eq-ok
          (require (prior_valid b.previous_passport_id (latest_of (keep (of_item o i) db.versions)))
            prior_passport_invalid)
          _ h4 in
      let made = event_row hash_event hash_reading uuid actor o i b item.lifecycle_status in
      let (applied, done, h6) =
        >>=-eq-ok
          (apply_event hash_event hash_reading uuid actor o i b item
            (record db { events = db.events ++ made ∷ [] }))
          _ h5 in
      record {
        item = item;
        applied = applied;
        lock = locked;
        active = active;
        lineage = require-eq-ok _ _ lineage;
        status = ground (arith, require-eq-ok _ _ status);
        prior = require-eq-ok _ _ prior;
        row_lem = ground arith;
        applied_lem = done;
        written = ground arith;
      }

  apply_event-events :
      (o i : ℕ) (b : EventBody) (item : BatteryItem) (db applied : Db)
      → apply_event hash_event hash_reading uuid actor o i b item db ≡ ok applied
      → applied.events ≡ db.events
  unfolding apply_event recycle_item set_status invalidate_passports
  apply_event-events o i b item db applied h = ground arith

  -- An event that starts a new life of the battery is accepted only if it names the latest published
  -- version of the same item as its predecessor; the event that is stored carries that number.
  pub event-lineage :
      (organisation_id item_id : ℕ) (b : EventBody) (db : Db) (row : LifecycleEvent) (new : Db)
      → event hash_event hash_reading uuid actor organisation_id item_id b db ≡ ok (row, new)
      → is_lineage b.event_type ≡ true
      → (v : PassportVersion) × (latest_of (keep (of_item organisation_id item_id) db.versions)
          ≡ some v)
        × (row.previous_passport_id ≡ some v.id)
        × (new.events ≡ db.events ++ row ∷ [])
  event-lineage o i b db row new h lineage =
      let facts = event-IsAccepted o i b db row new h in
      let kept = apply_event-events o i b facts.item _ facts.applied facts.applied_lem in
      let grown : new.events ≡ db.events ++ row ∷ [] =
        ap (λ (d : Db). d.events) facts.written
        ∙ (kept ∙ ap (λ r. db.events ++ r ∷ []) (sym facts.row_lem)) in
      let named : row.previous_passport_id ≡ b.previous_passport_id =
        ap (λ (r : LifecycleEvent). r.previous_passport_id) facts.row_lem
        ∙ (unfold event_row in refl) in
      let (v, latest, id) =
        prior_latest b.previous_passport_id (latest_of (keep (of_item o i) db.versions))
          (ground (arith, facts.lineage)) facts.prior in
      (v, latest, named ∙ id, grown)

  recycled_row :
      (o i : ℕ) (items : List BatteryItem) (x : BatteryItem)
      → find? (owns_item o i) (update_item i (recycle_row hash_event hash_reading uuid actor) items)
        ≡ some x
      → x.lifecycle_status ≡ LifecycleStatus.recycled
  recycled_row o i [] x h = ground arith
  recycled_row o i (y ∷ items) x h = ground (arith, recycled_row o i items x)

  recycled_closed :
      (o i : ℕ) (b : EventBody) (item : BatteryItem) (db applied : Db)
      → apply_event hash_event hash_reading uuid actor o i b item db ≡ ok applied
      → b.event_type ≡ recycle
      → (x : BatteryItem) → find? (owns_item o i) applied.items ≡ some x
      → x.lifecycle_status ≡ LifecycleStatus.recycled
  unfolding apply_event recycle_item
  recycled_closed o i b item db applied h e x f =
      let same : applied.items
          ≡ update_item i (recycle_row hash_event hash_reading uuid actor) db.items =
        ground arith in
      recycled_row o i db.items x (rw same at f)

  -- A recycling closes the item: whoever locks it in the new database finds it closed.
  pub event-recycle :
      (organisation_id item_id : ℕ) (b : EventBody) (db : Db) (row : LifecycleEvent) (new : Db)
      → event hash_event hash_reading uuid actor organisation_id item_id b db ≡ ok (row, new)
      → b.event_type ≡ recycle
      → (item : BatteryItem) → lock_item new organisation_id item_id ≡ ok item
      → assert_active item ≡ err passport_lifecycle_closed
  event-recycle o i b db row new h e x l =
      let facts = event-IsAccepted o i b db row new h in
      let seen : find? (owns_item o i) (facts.applied).items ≡ some x =
        ap (λ (d : Db). find? (owns_item o i) d.items) (sym facts.written)
        ∙ lock_item-find? new o i x l in
      let gone = recycled_closed o i b facts.item _ facts.applied facts.applied_lem e x seen in
      unfold assert_active in ground arith
