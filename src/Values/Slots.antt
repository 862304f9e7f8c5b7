-- ===== src/Values/Slots.antt =====
-- A data point of an item or a model has at most one value that is still valid, whatever the
-- handlers do one after the other.
use codex_nieuw.Prelude.{
  ℕ, ◌≤◌, ◌≡◌, inl, inr, refl, Bool, true, false, Option, none, some, List, [], ◌∷◌, ◌++◌, arith,
  Bool-cases, Option-cases, count_where, count_where-append, update_where, find?, length, ltb, not,
  ◌||◌, is_some, same_opt,
}
use codex_nieuw.Prelude.Outcome.{
  ok, >>=-eq-ok, require, found, not_found, value_not_current, provenance_required,
}
use codex_nieuw.Store.Rows.{ValueRow, Db}
use codex_nieuw.Tenant.Access.{Actor}
use codex_nieuw.Tenant.PassportLock.{lock_value_owner, invalidate_passports}
use codex_nieuw.Values.Rows.{
  last_where, last_where-none, last_where-some, count_where-update_where, count_where-closed,
}
use codex_nieuw.Values.{
  ValueBody, is_open, has_id, owns_value, is_out, superseded_row, rejected_row, validated_row,
  prior_of, supersede, new_value, create, validate_value, reject, usable_of,
}

-- At most one value of each data point of each owner is still valid.
pub record IsSlotted (db : Db) : Type 0 where
  pub slots :
      (organisation_id : ℕ) (model_id item_id : Option ℕ) (field_id : ℕ)
      → count_where (is_open organisation_id model_id item_id field_id) db.values ≤ 1

module _ (scan_required : Bool) (time : ℕ → ℕ) (uuid : ℕ → ℕ) (actor : Actor) where
  closes_superseded :
      (o : ℕ) (m i : Option ℕ) (f : ℕ) (v : ValueRow)
      → is_open o m i f (superseded_row scan_required time uuid actor v) ≡ false
  closes_superseded o m i f v = ground arith

  closes_rejected :
      (o : ℕ) (m i : Option ℕ) (f : ℕ) (v : ValueRow)
      → is_open o m i f (rejected_row scan_required time uuid actor v) ≡ false
  closes_rejected o m i f v = ground arith

  same_opt-eq : (a b : Option ℕ) → same_opt a b ≡ true → a ≡ b
  same_opt-eq none none h = refl
  same_opt-eq (some a) (some b) h = ground arith
  same_opt-eq none (some b) h = ground arith
  same_opt-eq (some a) none h = ground arith

  -- Superseding the prior value empties the slot of the new one,
  supersede_empties :
      (o : ℕ) (b : ValueBody) (values : List ValueRow)
      → count_where (is_open o b.model_id b.item_id b.field_id) values ≤ 1
      → count_where (is_open o b.model_id b.item_id b.field_id) (
          supersede scan_required time uuid actor
            (prior_of scan_required time uuid actor o b values)
            values)
        ≡ 0
  unfolding supersede
  supersede_empties o b values h =
      let p = is_open o b.model_id b.item_id b.field_id in
      elim (Option-cases (last_where p values)) [
        | inl nobody ↦ rw nobody (last_where-none p values nobody)
        | inr (v, last) ↦
            let (listed, passes) = last_where-some p values last in
            let fewer =
              count_where-closed p (has_id v.id) (superseded_row scan_required time uuid actor)
                (closes_superseded o b.model_id b.item_id b.field_id) values listed passes
                (ground arith) in
            rw last (omega arith)
      ]

  -- and fills no other.
  supersede_le :
      (o : ℕ) (m i : Option ℕ) (f : ℕ) (prior : Option ValueRow) (values : List ValueRow)
      → count_where (is_open o m i f) (supersede scan_required time uuid actor prior values)
        ≤ count_where (is_open o m i f) values
  unfolding supersede
  supersede_le o m i f none values = omega arith
  supersede_le o m i f (some v) values =
      count_where-update_where (is_open o m i f) (has_id v.id)
        (superseded_row scan_required time uuid actor) (λ a _. closes_superseded o m i f a) values

  new_value-is_open :
      (o o' : ℕ) (m i : Option ℕ) (f : ℕ) (b : ValueBody) (prior : Option ValueRow)
      → is_open o m i f (new_value scan_required time uuid actor o' b prior) ≡ true
      → (o ≡ o') × (m ≡ b.model_id) × (i ≡ b.item_id) × (f ≡ b.field_id)
  unfolding new_value
  new_value-is_open o o' m i f b prior h =
      let em = same_opt-eq b.model_id m in
      let ei = same_opt-eq b.item_id i in ground (arith, em, ei)

  stored_slots :
      (o o' : ℕ) (m i : Option ℕ) (f : ℕ) (b : ValueBody) (values : List ValueRow)
      → ((org : ℕ) (mo it : Option ℕ) (fi : ℕ) → count_where (is_open org mo it fi) values ≤ 1)
      → let prior = prior_of scan_required time uuid actor o' b values in
        count_where (is_open o m i f) (
          supersede scan_required time uuid actor prior values
          ++ new_value scan_required time uuid actor o' b prior ∷ [])
        ≤ 1
  stored_slots o o' m i f b values h =
      let prior = prior_of scan_required time uuid actor o' b values in
      let row = new_value scan_required time uuid actor o' b prior in
      let split =
        count_where-append (is_open o m i f) (supersede scan_required time uuid actor prior values)
          (row ∷ []) in
      let one : count_where (is_open o m i f) (row ∷ []) ≤ 1 = ground arith in
      elim (Bool-cases (is_open o m i f row)) [
        | inl mine ↦
            let (eo, em, ei, ef) = new_value-is_open o o' m i f b prior mine in
            let empty = supersede_empties o' b values (h o' b.model_id b.item_id b.field_id) in
            let none_left : count_where (is_open o m i f)
                  (supersede scan_required time uuid actor prior values)
                ≡ 0 =
              rw (eo, em, ei, ef) empty in
            omega arith
        | inr other ↦
            let kept = supersede_le o m i f prior values in
            let room = h o m i f in
            let nothing : count_where (is_open o m i f) (row ∷ []) ≡ 0 = ground arith in omega arith
      ]

  pub create-IsSlotted :
      (o : ℕ) (b : ValueBody) (db : Db) (row : ValueRow) (new : Db)
      → create scan_required time uuid actor o b db ≡ ok (row, new)
      → IsSlotted db
      → IsSlotted new
  unfolding create invalidate_passports
  create-IsSlotted o b db row new h slotted =
      let (u, locked, rest) = >>=-eq-ok (lock_value_owner db o b.item_id b.model_id) _ h in
      let prior = prior_of scan_required time uuid actor o b db.values in
      let values : new.values
          ≡ supersede scan_required time uuid actor prior db.values
            ++ new_value scan_required time uuid actor o b prior ∷ [] =
        ground arith in
      record { slots = λ org m i f. rw values (stored_slots org o m i f b db.values slotted.slots) }

  pub validate_value-IsSlotted :
      (o id : ℕ) (db : Db) (row : ValueRow) (new : Db)
      → validate_value scan_required time uuid actor o id db ≡ ok (row, new)
      → IsSlotted db
      → IsSlotted new
  unfolding validate_value invalidate_passports
  validate_value-IsSlotted o id db row new h slotted =
      let (value, listed, h1) =
        >>=-eq-ok (found (find? (owns_value o id) db.values) not_found) _ h in
      let (u, locked, h2) = >>=-eq-ok (lock_value_owner db o value.item_id value.model_id) _ h1 in
      let (v, current, h3) =
        >>=-eq-ok
          (require (not (is_some value.valid_until || is_out value.validation_status))
            value_not_current)
          _ h2 in
      let (w, proven, h4) =
        >>=-eq-ok
          (require (ltb 0 (length (usable_of scan_required time uuid actor db id)))
            provenance_required)
          _ h3 in
      let values : new.values
          ≡ update_where (has_id id) (validated_row scan_required time uuid actor) db.values =
        ground arith in
      record {
        slots = λ org m i f.
            let less =
              count_where-update_where (is_open org m i f) (has_id id)
                (validated_row scan_required time uuid actor) (λ a e. e) db.values in
            let room = slotted.slots org m i f in rw values (omega arith);
      }

  pub reject-IsSlotted :
      (o id : ℕ) (db : Db) (row : ValueRow) (new : Db)
      → reject scan_required time uuid actor o id db ≡ ok (row, new)
      → IsSlotted db
      → IsSlotted new
  unfolding reject invalidate_passports
  reject-IsSlotted o id db row new h slotted =
      let (value, listed, h1) =
        >>=-eq-ok (found (find? (owns_value o id) db.values) not_found) _ h in
      let (u, locked, h2) = >>=-eq-ok (lock_value_owner db o value.item_id value.model_id) _ h1 in
      let (v, current, h3) =
        >>=-eq-ok (require (not (is_some value.valid_until)) value_not_current) _ h2 in
      let values : new.values
          ≡ update_where (has_id id) (rejected_row scan_required time uuid actor) db.values =
        ground arith in
      record {
        slots = λ org m i f.
            let less =
              count_where-update_where (is_open org m i f) (has_id id)
                (rejected_row scan_required time uuid actor) (λ a e. closes_rejected org m i f a)
                db.values in
            let room = slotted.slots org m i f in rw values (omega arith);
      }
