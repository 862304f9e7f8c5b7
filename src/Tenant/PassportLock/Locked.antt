-- ===== src/Tenant/PassportLock/Locked.antt =====
-- What a handler knows of an item that it has locked.
use codex_nieuw.Prelude.{ℕ, ◌≡◌, Option, none, some, arith, find?}
use codex_nieuw.Prelude.Outcome.{ok, >>=-eq-ok, found, not_found}
use codex_nieuw.Store.Rows.{BatteryItem, Db}
use codex_nieuw.Store.Queries.{owns_item}
use codex_nieuw.Tenant.PassportLock.{lock_item}

pub lock_item-find? :
    (db : Db) (organisation_id item_id : ℕ) (item : BatteryItem)
    → lock_item db organisation_id item_id ≡ ok item
    → find? (owns_item organisation_id item_id) db.items ≡ some item
unfolding lock_item
lock_item-find? db o i item h =
    let (a, seen, rest) = >>=-eq-ok (found (find? (owns_item o i) db.items) not_found) _ h in
    ground arith

pub found-eq-ok {ℓ} : {A : Type ℓ} (o : Option A) {a : A} → found o not_found ≡ ok a → o ≡ some a
found-eq-ok none h = ground arith
found-eq-ok (some b) h = ground arith
