-- ===== src/Tenant/PassportLock.antt =====
-- apps/api/src/common/tenant/passport-lock.ts: the guards that every writer of a passport goes
-- through, and the step that takes a passport out of publication when its data change.
pub mod Invalidate
pub mod Locked
use codex_nieuw.Prelude.{
  ℕ, ◌≡◌, Bool, true, false, not, ◌&&◌, ◌||◌, Option, none, some, List, [], ◌∷◌, ◌==◌, opt_eq,
  if◌then◌else◌, find?, any, update_where,
}
use codex_nieuw.Prelude.Outcome.{
  Outcome, ok, err, ◌>>=◌, ◌>>◌, require, found, not_found, passport_lifecycle_closed,
  value_owner_required,
}
use codex_nieuw.Rules.StateMachine.{
  PassportState, data_collection, ready, published, registry_pending, registered, updated,
  superseded, recycled, one_of,
}
use codex_nieuw.Store.Rows.{BatteryItem, BatteryModel, Db}
use codex_nieuw.Store.Queries.{owns_item, owns_model, is_recycled}

unfoldable pub lock_model : Db → ℕ → ℕ → Outcome (Unit {0})
lock_model db organisation_id model_id =
    require (any (owns_model organisation_id model_id) db.models) not_found

-- The second read, under the locks, returns the same row.
unfoldable pub lock_item : Db → ℕ → ℕ → Outcome BatteryItem
lock_item db organisation_id item_id = do
  item ← found (find? (owns_item organisation_id item_id) db.items) not_found
  lock_model db organisation_id item.model_id
  ok item

unfoldable pub assert_active : BatteryItem → Outcome (Unit {0})
assert_active item =
    require
      (not (
        one_of item.passport_state (recycled ∷ superseded ∷ [])
        || is_recycled item.lifecycle_status))
      passport_lifecycle_closed

unfoldable pub lock_value_owner : Db → ℕ → Option ℕ → Option ℕ → Outcome (Unit {0})
lock_value_owner db organisation_id (some item_id) model_id = do
  item ← lock_item db organisation_id item_id
  assert_active item
lock_value_owner db organisation_id none (some model_id) = lock_model db organisation_id model_id
lock_value_owner db organisation_id none none = err value_owner_required

-- The `where` of `invalidatePassports`: the item, or else all items of the model.
abbrev pub is_affected : ℕ → Option ℕ → Option ℕ → BatteryItem → Bool
is_affected organisation_id (some item_id) model_id item =
    item.organisation_id == organisation_id && (item.id == item_id)
is_affected organisation_id none model_id item =
    item.organisation_id == organisation_id && opt_eq model_id item.model_id

abbrev set_state : PassportState → BatteryItem → BatteryItem
set_state s item = record item { passport_state = s }

-- The two updates of `invalidatePassports`, one after the other.
unfoldable pub invalidate_items : ℕ → Option ℕ → Option ℕ → List BatteryItem → List BatteryItem
invalidate_items organisation_id item_id model_id items =
    update_where
      (λ (i : BatteryItem).
        is_affected organisation_id item_id model_id i && one_of i.passport_state (ready ∷ []))
      (set_state data_collection)
      (update_where
        (λ (i : BatteryItem).
          is_affected organisation_id item_id model_id i
          && one_of i.passport_state (published ∷ registered ∷ registry_pending ∷ []))
        (set_state updated) items)

unfoldable pub invalidate_passports : ℕ → Option ℕ → Option ℕ → Db → Db
unfolding invalidate_items
invalidate_passports organisation_id item_id model_id db = record db {
  items = invalidate_items organisation_id item_id model_id db.items;
}
