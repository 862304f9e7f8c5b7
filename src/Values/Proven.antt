-- ===== src/Values/Proven.antt =====
-- A value becomes validated only with evidence that is usable.
use codex_nieuw.Prelude.{
  ℕ, ◌≡◌, refl, Bool, true, false, not, ◌||◌, none, some, List, [], ◌∷◌, arith, Memᴰ, mem-keep,
  find?, length, ltb, is_some, update_where,
}
use codex_nieuw.Prelude.Outcome.{
  ok, >>=-eq-ok, require, require-eq-ok, found, not_found, value_not_current, provenance_required,
}
use codex_nieuw.Store.Rows.{ValidationStatus, ValueRow, EvidenceObject, Db}
use codex_nieuw.Store.Queries.{evidence_of}
use codex_nieuw.Tenant.Access.{Actor}
use codex_nieuw.Tenant.PassportLock.{lock_value_owner, invalidate_passports}
use codex_nieuw.Tenant.PassportLock.Locked.{found-eq-ok}
use codex_nieuw.Passports.Data.{usable_evidence}
use codex_nieuw.Values.{owns_value, has_id, is_out, usable_of, validate_value}

first_of {ℓ} : {A : Type ℓ} (xs : List A) → ltb 0 (length xs) ≡ true → (x : A) × Memᴰ x xs
first_of [] h = ground arith
first_of (x ∷ xs) h = (x, Memᴰ.head refl)

module _ (scan_required : Bool) (time : ℕ → ℕ) (uuid : ℕ → ℕ) (actor : Actor) where
  -- A validation succeeds only for a value of the organisation that is still valid, neither
  -- superseded nor rejected, and has a usable evidence object behind one of its links; it sets the
  -- status of the rows of that number to validated, and changes nothing else of the values.
  pub validate_value-proven :
      (organisation_id id : ℕ) (db : Db) (row : ValueRow) (new : Db)
      → validate_value scan_required time uuid actor organisation_id id db ≡ ok (row, new)
      → (value : ValueRow) × (e : EvidenceObject) × (find? (owns_value organisation_id id) db.values
          ≡ some value)
        × (value.valid_until ≡ none)
        × (is_out value.validation_status ≡ false)
        × Memᴰ e (evidence_of db.links db.evidence id)
        × (usable_evidence scan_required (time 0) e ≡ true)
        × (row ≡ record value { validation_status = ValidationStatus.validated })
        × (new.values
            ≡ update_where
                (has_id id)
                (λ (v : ValueRow). record v { validation_status = ValidationStatus.validated })
                db.values)
  unfolding validate_value invalidate_passports
  validate_value-proven o id db row new h =
      let (value, listed, h1) =
        >>=-eq-ok (found (find? (owns_value o id) db.values) not_found) _ h in
      let (u, locked, h2) = >>=-eq-ok (lock_value_owner db o value.item_id value.model_id) _ h1 in
      let (v, current, h3) =
        >>=-eq-ok
          (require (not (is_some value.valid_until || is_out value.validation_status))
            value_not_current)
          _ h2 in
      let (w, proven, h4) =
        >>=-eq-ok
          (require (ltb 0 (length (usable_of scan_required time uuid actor db id)))
            provenance_required)
          _ h3 in
      let still = require-eq-ok _ _ current in
      let (e, kept) =
        first_of (usable_of scan_required time uuid actor db id) (require-eq-ok _ _ proven) in
      let (linked, usable) =
        mem-keep (usable_evidence scan_required (time 0)) (evidence_of db.links db.evidence id)
          kept in
      (
        value,
        e,
        found-eq-ok (find? (owns_value o id) db.values) listed,
        ground arith,
        ground arith,
        linked,
        usable,
        ground arith,
        ground arith,
      )
