-- ===== src/Suppliers/Accepting.antt =====
-- What the acceptance of a supplier request does to the values of the model and to the request.
use codex_nieuw.Prelude.{
  ℕ, ◌+◌, ◌≤◌, ◌≡◌, ◌≢◌, inl, inr, refl, ◌∙◌, ap, Bool, true, false, Option, none, some, List, [],
  ◌∷◌, ◌++◌, arith, Bool-cases, Option-cases, ltb, ◌==◌, find?, find?_sound, mem-find?, count_where,
  count_where-append, update_where, length,
}
use codex_nieuw.Prelude.Outcome.{
  ok, >>=-eq-ok, require, found, not_found, supplier_request_changed_retry, no_submissions,
}
use codex_nieuw.Json.{Text}
use codex_nieuw.Store.Rows.{RequestStatus, SupplierRequest, SupplierSubmission, ValueRow, Db}
use codex_nieuw.Tenant.Access.{Actor}
use codex_nieuw.Tenant.PassportLock.{lock_model, invalidate_passports}
use codex_nieuw.Values.{is_open, has_id}
use codex_nieuw.Values.Rows.{count_where-update_where, count_where-closed}
use codex_nieuw.Values.Slots.{IsSlotted}
use codex_nieuw.Suppliers.{
  owns_request, has_request_id, assert_open, lock_request, submissions_of, check_evidence,
  closed_value, prior_value, close_prior, supplier_value, store_values, accepted_row,
  evidence_ids_of, close_request, accept,
}

find?-none : (p : ValueRow → Bool) (xs : List ValueRow) → find? p xs ≡ none → count_where p xs ≡ 0
find?-none p [] h = refl
find?-none p (x ∷ xs) h = let ih = find?-none p xs in ground (arith, ih)

Slotted : List ValueRow → Type 0
Slotted values = (o : ℕ) (m i : Option ℕ) (f : ℕ) → count_where (is_open o m i f) values ≤ 1

module _ (sha256 : Text → ℕ) (time : ℕ → ℕ) (uuid : ℕ → ℕ) (actor : Actor) where
  closed_value-is_open :
      (o : ℕ) (m i : Option ℕ) (f : ℕ) (v : ValueRow)
      → is_open o m i f (closed_value sha256 time uuid actor v) ≡ false
  closed_value-is_open o m i f v = ground arith

  close_prior-empty :
      (o model f : ℕ) (values : List ValueRow)
      → count_where (is_open o (some model) none f) values ≤ 1
      → count_where (is_open o (some model) none f) (
          close_prior sha256 time uuid actor
            (prior_value sha256 time uuid actor o model f values)
            values)
        ≡ 0
  unfolding close_prior
  close_prior-empty o model f values h =
      let p = is_open o (some model) none f in
      elim (Option-cases (find? p values)) [
        | inl nobody ↦ rw nobody (find?-none p values nobody)
        | inr (v, first) ↦
            let fewer =
              count_where-closed p (has_id v.id) (closed_value sha256 time uuid actor)
                (closed_value-is_open o (some model) none f) values (mem-find? p values first)
                (find?_sound p values first) (ground arith) in
            rw first (omega arith)
      ]

  close_prior-le :
      (o : ℕ) (m i : Option ℕ) (f : ℕ) (prior : Option ValueRow) (values : List ValueRow)
      → count_where (is_open o m i f) (close_prior sha256 time uuid actor prior values)
        ≤ count_where (is_open o m i f) values
  unfolding close_prior
  close_prior-le o m i f none values = omega arith
  close_prior-le o m i f (some v) values =
      count_where-update_where (is_open o m i f) (has_id v.id) (closed_value sha256 time uuid actor)
        (λ a _. closed_value-is_open o m i f a) values

  supplier_value-is_open :
      (n o o' model f : ℕ) (m i : Option ℕ) (s : SupplierSubmission) (prior : Option ValueRow)
      → is_open o m i f (supplier_value sha256 time uuid actor n o' model s prior) ≡ true
      → (o ≡ o') × (m ≡ some model) × (i ≡ none) × (f ≡ s.field_id)
  supplier_value-is_open n o o' model f (some m) none s prior h = ground arith
  supplier_value-is_open n o o' model f none i s prior h = ground arith
  supplier_value-is_open n o o' model f (some m) (some i) s prior h = ground arith

  round-Slotted :
      (n o' model : ℕ) (s : SupplierSubmission) (values : List ValueRow)
      → Slotted values
      → let prior = prior_value sha256 time uuid actor o' model s.field_id values in
        Slotted (
          close_prior sha256 time uuid actor prior values
          ++ supplier_value sha256 time uuid actor n o' model s prior ∷ [])
  unfolding Slotted
  round-Slotted n o' model s values h o m i f =
      let prior = prior_value sha256 time uuid actor o' model s.field_id values in
      let row = supplier_value sha256 time uuid actor n o' model s prior in
      let rest = close_prior sha256 time uuid actor prior values in
      let split = count_where-append (is_open o m i f) rest (row ∷ []) in
      let one : count_where (is_open o m i f) (row ∷ []) ≤ 1 = ground arith in
      elim (Bool-cases (is_open o m i f row)) [
        | inl mine ↦
            let (eo, em, ei, ef) = supplier_value-is_open n o o' model f m i s prior mine in
            let empty =
              close_prior-empty o' model s.field_id values (h o' (some model) none s.field_id) in
            let none_left : count_where (is_open o m i f) rest ≡ 0 = rw (eo, em, ei, ef) empty in
            omega arith
        | inr other ↦
            let kept = close_prior-le o m i f prior values in
            let room = h o m i f in
            let nothing : count_where (is_open o m i f) (row ∷ []) ≡ 0 = ground arith in omega arith
      ]

  store_values-Slotted :
      (n o model : ℕ) (ss : List SupplierSubmission) (db : Db)
      → Slotted db.values
      → Slotted (store_values sha256 time uuid actor n o model ss db).values
  unfolding store_values
  store_values-Slotted n o model [] db h = h
  store_values-Slotted n o model (s ∷ ss) db h =
      store_values-Slotted (n + 1) o model ss _ (round-Slotted n o model s db.values h)

  store_values-requests :
      (n o model : ℕ) (ss : List SupplierSubmission) (db : Db)
      → (store_values sha256 time uuid actor n o model ss db).requests ≡ db.requests
  unfolding store_values
  store_values-requests n o model [] db = refl
  store_values-requests n o model (s ∷ ss) db = store_values-requests (n + 1) o model ss _

  accepted_found :
      (o id : ℕ) (rows : List SupplierRequest) (r : SupplierRequest)
      → find?
          (owns_request o id)
          (update_where (has_request_id id) (accepted_row sha256 time uuid actor) rows)
        ≡ some r
      → r.status ≡ RequestStatus.accepted
  accepted_found o id [] r h = ground arith
  accepted_found o id (x ∷ rows) r h = ground (arith, accepted_found o id rows r)

  -- What an acceptance has checked and written.
  record IsAccepted (o id : ℕ) (db new : Db) : Type 0 where
    request : SupplierRequest
    locked : lock_request (time 0) o id db ≡ ok request
    written :
        new
        ≡ close_request sha256 time uuid actor o request (
            store_values sha256 time uuid actor 0 o request.model_id
              (submissions_of id db.submissions)
              db)

  accept-IsAccepted :
      (o id : ℕ) (db : Db) (count : ℕ) (new : Db)
      → accept sha256 time uuid actor o id db ≡ ok (count, new)
      → IsAccepted o id db new
  unfolding accept
  accept-IsAccepted o id db count new h =
      let (candidate, known, h1) =
        >>=-eq-ok (found (find? (owns_request o id) db.requests) not_found) _ h in
      let (u, model, h2) = >>=-eq-ok (lock_model db o candidate.model_id) _ h1 in
      let (request, locked, h3) = >>=-eq-ok (lock_request (time 0) o id db) _ h2 in
      let (v, same, h4) =
        >>=-eq-ok (require (request.model_id == candidate.model_id) supplier_request_changed_retry)
          _ h3 in
      let (w, some_rows, h5) =
        >>=-eq-ok (require (ltb 0 (length (submissions_of id db.submissions))) no_submissions) _
          h4 in
      let (x, usable, h6) =
        >>=-eq-ok
          (check_evidence o
            (evidence_ids_of sha256 time uuid actor (submissions_of id db.submissions)) db.evidence)
          _ h5 in
      let (y, still, h7) = >>=-eq-ok (assert_open (time 2) request) _ h6 in
      record { request = request; locked = locked; written = ground arith }

  lock_request-id :
      (now o id : ℕ) (db : Db) (r : SupplierRequest) → lock_request now o id db ≡ ok r → r.id ≡ id
  unfolding lock_request
  lock_request-id now o id db r h =
      let (a, seen, rest) =
        >>=-eq-ok (found (find? (owns_request o id) db.requests) not_found) _ h in
      let (u, opened, e) = >>=-eq-ok (assert_open now a) _ rest in
      elim (Option-cases (find? (owns_request o id) db.requests)) [
        | inl nobody ↦ ground arith
        | inr (b, known) ↦
            let passes = find?_sound (owns_request o id) db.requests known in ground arith
      ]

  closed_lock :
      (now o id : ℕ) (db : Db)
      → ((r : SupplierRequest)
          → find? (owns_request o id) db.requests ≡ some r
          → r.status ≡ RequestStatus.accepted)
      → (r : SupplierRequest) → lock_request now o id db ≢ ok r
  unfolding lock_request assert_open
  closed_lock now o id db h r e = elim (Option-cases (find? (owns_request o id) db.requests)) [
    | inl nobody ↦ ground arith
    | inr (b, known) ↦ let status = h b known in ground arith
  ]

  -- An acceptance keeps at most one value of each data point of each owner valid, whatever the
  -- submissions say, and closes the request: it cannot be locked again, so neither a submission nor
  -- a second acceptance succeeds.
  pub accept-IsSlotted :
      (organisation_id id : ℕ) (db : Db) (count : ℕ) (new : Db)
      → accept sha256 time uuid actor organisation_id id db ≡ ok (count, new)
      → IsSlotted db
      → (now : ℕ) (r : SupplierRequest)
      → IsSlotted new × (lock_request now organisation_id id new ≢ ok r)
  unfolding Slotted close_request invalidate_passports
  accept-IsSlotted o id db count new h slotted now r =
      let facts = accept-IsAccepted o id db count new h in
      let ss = submissions_of id db.submissions in
      let request = facts.request in
      let stored = store_values sha256 time uuid actor 0 o request.model_id ss db in
      let same = lock_request-id (time 0) o id db request facts.locked in
      let values : new.values ≡ stored.values = ap (λ (d : Db). d.values) facts.written ∙ refl in
      let requests : new.requests
          ≡ update_where (has_request_id id) (accepted_row sha256 time uuid actor) db.requests =
        ap (λ (d : Db). d.requests) facts.written
        ∙ rw (same, store_values-requests 0 o request.model_id ss db) refl in
      (
        record {
          slots = λ org m i f.
              rw values (store_values-Slotted 0 o request.model_id ss db slotted.slots org m i f);
        },
        closed_lock now o id new (λ x seen. accepted_found o id db.requests x (rw requests at seen))
            r,
      )
