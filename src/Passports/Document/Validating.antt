-- ===== src/Passports/Document/Validating.antt =====
-- What `POST validate` does: it never meets an illegal transition, and the state that it leaves says
-- whether the passport may be published.
use codex_nieuw.Prelude.{
  ℕ, ◌≡◌, refl, subst, inl, inr, Bool, Bool-cases, true, false, some, List, [], ◌∷◌, ◌++◌, ◌==◌,
  any, find?, arith,
}
use codex_nieuw.Prelude.Outcome.{
  Code, Outcome-cases, ok, err, >>=-eq-ok, require, require-eq-ok, found, not_found,
}
use codex_nieuw.Rules.StateMachine.{
  PassportState, draft, data_collection, validation_failed, ready, superseded, recycled, one_of,
  transition,
}
use codex_nieuw.Store.Rows.{BatteryItem, BatteryModel, Db}
use codex_nieuw.Tenant.Access.{Actor}
use codex_nieuw.Tenant.PassportLock.{lock_model, lock_item, assert_active}
use codex_nieuw.Tenant.PassportLock.Locked.{lock_item-find?}
use codex_nieuw.Store.Queries.{owns_item, owns_model}
use codex_nieuw.Storage.Objects.Checking.{ok_ok}
use codex_nieuw.Passports.Data.{Platform, Validation, load_merged, validate_tx}
use codex_nieuw.Passports.Document.{
  target_state, leave_draft, move_to, update_item, audit_event, validate,
}

-- From every state that is not closed the target is reached by a legal step.
moves :
    (s : PassportState) (b : Bool)
    → one_of s (recycled ∷ superseded ∷ []) ≡ false
    → (u : PassportState) × (v : PassportState) × (leave_draft s ≡ ok u)
      × (move_to u (target_state s b) ≡ ok v)
unfolding leave_draft move_to transition
moves draft true h = (data_collection, ready, refl, refl)
moves draft false h = (data_collection, validation_failed, refl, refl)
moves s true h = (s, target_state s true, ground arith, ground arith)
moves s false h = (s, target_state s false, ground arith, ground arith)

any-find? :
    (q r : BatteryModel → Bool)
    → ((m : BatteryModel) → q m ≡ true → r m ≡ true)
    → (models : List BatteryModel) → any q models ≡ true
    → (m : BatteryModel) × (find? r models ≡ some m)
any-find? q r le [] h = absurd (ground arith)
any-find? q r le (m ∷ models) h = elim (Bool-cases (r m)) [
  | inl here ↦ (m, rw here refl)
  | inr other ↦ elim (Bool-cases (q m)) [
    | inl both ↦ let e = le m both in absurd (ground arith)
    | inr skipped ↦ let (n, seen) = any-find? q r le models (ground arith) in (n, rw other seen)
  ]
]

module _ (p : Platform) (time : ℕ → ℕ) (uuid : ℕ → ℕ) (actor : Actor) where
  -- An item that can be locked has its model, and so can be assessed.
  assessed :
      (organisation_id item_id : ℕ) (db : Db) (item : BatteryItem)
      → lock_item db organisation_id item_id ≡ ok item
      → (v : Validation) × (validate_tx p (time 0) db organisation_id item_id ≡ ok v)
  unfolding validate_tx load_merged lock_item lock_model
  assessed o i db item locked =
      let seen = lock_item-find? db o i item locked in
      let (listed, e1, h1) =
        >>=-eq-ok (found (find? (owns_item o i) db.items) not_found) _ locked in
      let (u, e2, h2) =
        >>=-eq-ok (require (any (owns_model o listed.model_id) db.models) not_found) _ h1 in
      let same : listed ≡ item = ok_ok h2 in
      let there = require-eq-ok _ not_found e2 in
      let (m, model) =
        any-find? (owns_model o item.model_id) (λ (x : BatteryModel). x.id == item.model_id)
          (λ x k. ground arith) db.models
          (subst (λ (x : BatteryItem). any (owns_model o x.model_id) db.models ≡ true) same
            there) in
      elim (Outcome-cases (validate_tx p (time 0) db o i)) [
        | inl done ↦ done
        | inr (code, failed_) ↦
            absurd (impossible (rw (validate_tx, load_merged, seen, model) at failed_))
      ]
    where
      impossible : {a : Validation} {c : Code} → ok a ≡ err c → ⊥
      impossible e = cc

  -- Validation of an item that can be locked and is not closed always succeeds: the assessment of the
  -- locked data is made, and no state of an active passport makes its transition fail. The result is
  -- that assessment, the item moves to the target of its old state, and one audit event is added.
  pub validate_total :
      (organisation_id item_id : ℕ) (db : Db) (item : BatteryItem)
      → lock_item db organisation_id item_id ≡ ok item
      → assert_active item ≡ ok tt
      → (v : Validation) × (validate_tx p (time 0) db organisation_id item_id ≡ ok v)
        × (validate p time uuid actor organisation_id item_id db
            ≡ ok (
              v,
              record db {
                items =
                    update_item item_id
                      (λ (i : BatteryItem). record i {
                        passport_state = target_state item.passport_state v.publishable;
                      })
                      db.items;
                audit =
                    db.audit ++ audit_event organisation_id actor "passport.validate" item_id ∷ [];
              },
            ))
  unfolding validate
  validate_total organisation_id item_id db item locked active =
      let (v, checked) = assessed organisation_id item_id db item locked in
      let open_state : one_of item.passport_state (recycled ∷ superseded ∷ []) ≡ false =
        unfold assert_active in ground arith in
      let (u, w, left, moved) = moves item.passport_state v.publishable open_state in
      (v, checked, ground arith)
