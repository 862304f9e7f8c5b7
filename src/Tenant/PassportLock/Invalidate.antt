-- ===== src/Tenant/PassportLock/Invalidate.antt =====
-- After `invalidatePassports` no affected passport counts as published or ready, and each state
-- that it changed was left by a legal transition.
use codex_nieuw.Prelude.{
  ℕ, ◌≡◌, ◌⊎◌, Bool, true, false, ◌&&◌, Option, none, some, List, [], ◌∷◌, arith, if◌then◌else◌,
}
use codex_nieuw.Rules.StateMachine.{
  data_collection, ready, published, registry_pending, registered, updated, one_of, can_transition,
}
use codex_nieuw.Store.Rows.{BatteryItem, Db}
use codex_nieuw.Tenant.PassportLock.{is_affected, invalidate_items, invalidate_passports}

-- Two rows of the same item: only the passport's state may differ.
abbrev pub SameItem : BatteryItem → BatteryItem → Type 0
SameItem a b = b ≡ record a { passport_state = b.passport_state }

-- What the invalidation does to one row.
abbrev pub Invalidated : ℕ → Option ℕ → Option ℕ → BatteryItem → BatteryItem → Type 0
Invalidated organisation_id item_id model_id a b =
    SameItem a b
    × ((is_affected organisation_id item_id model_id a
          && one_of b.passport_state (ready ∷ published ∷ registered ∷ registry_pending ∷ []))
        ≡ false)
    × ((b.passport_state ≡ a.passport_state)
        ⊎ ((is_affected organisation_id item_id model_id a ≡ true)
            × (can_transition a.passport_state b.passport_state ≡ true)))

-- Row by row, in the same order.
abbrev pub Pointwise :
    (BatteryItem → BatteryItem → Type 0) → List BatteryItem → List BatteryItem → Type 0
Pointwise R [] [] = Unit {0}
Pointwise R [] (b ∷ bs) = ⊥
Pointwise R (a ∷ as_) [] = ⊥
Pointwise R (a ∷ as_) (b ∷ bs) = R a b × Pointwise R as_ bs

-- The row that both updates leave.
invalidated_row : Bool → BatteryItem → BatteryItem
invalidated_row affected a =
    if affected && one_of a.passport_state (published ∷ registered ∷ registry_pending ∷ [])
    then record a { passport_state = updated }
    else if affected && one_of a.passport_state (ready ∷ [])
    then record a { passport_state = data_collection }
    else a

invalidate_items_cons :
    (o : ℕ) (i m : Option ℕ) (a : BatteryItem) (items : List BatteryItem)
    → invalidate_items o i m (a ∷ items)
      ≡ invalidated_row (is_affected o i m a) a ∷ invalidate_items o i m items
unfolding invalidate_items invalidated_row
invalidate_items_cons o (some i) m a items = ground arith
invalidate_items_cons o none (some m) a items = ground arith
invalidate_items_cons o none none a items = ground arith

invalidated_row_lem :
    (o : ℕ) (i m : Option ℕ) (a : BatteryItem)
    → Invalidated o i m a (invalidated_row (is_affected o i m a) a)
unfolding invalidated_row can_transition
invalidated_row_lem o i m a = ground arith

invalidate_items_lem :
    (o : ℕ) (i m : Option ℕ) (items : List BatteryItem)
    → Pointwise (Invalidated o i m) items (invalidate_items o i m items)
invalidate_items_lem o i m [] = unfold invalidate_items in tt
invalidate_items_lem o i m (a ∷ items) =
    rw (invalidate_items_cons o i m a items)
      (invalidated_row_lem o i m a, invalidate_items_lem o i m items)

-- Each row stays the same item; an affected one is no longer ready, published, registered or pending
-- in the Registry; and a state that changed belongs to an affected row and changed by a legal
-- transition.
pub invalidate_passports_lem :
    (o : ℕ) (i m : Option ℕ) (db : Db)
    → Pointwise (Invalidated o i m) db.items (invalidate_passports o i m db).items
unfolding invalidate_passports
invalidate_passports_lem o i m db = invalidate_items_lem o i m db.items
