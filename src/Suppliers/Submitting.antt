-- ===== src/Suppliers/Submitting.antt =====
-- What a supplier can do with a token: add submissions to the open request, and nothing else.
use codex_nieuw.Prelude.{
  ℕ, ◌+◌, ◌<◌, ◌≡◌, ◌≢◌, refl, none, some, find?, find?_sound, ◌==◌, true, false, Option, List, [],
  ◌∷◌, ◌++◌, arith, elem,
}
use codex_nieuw.Prelude.Outcome.{
  ok, >>=-eq-ok, require, require-eq-ok, found, not_found, field_not_requested,
  invalid_supplier_token,
}
use codex_nieuw.Storage.Objects.Checking.{ok_ok, found-some}
use codex_nieuw.Json.{Text}
use codex_nieuw.Store.Rows.{SupplierRequest, SupplierSubmission, EvidenceObject, Db}
use codex_nieuw.Tenant.Access.{Actor}
use codex_nieuw.Suppliers.{
  SubmissionBody, owns_request, is_closed_status, assert_open, lock_request, resolve,
  check_supplied, new_submission, store_submissions, submit,
}

assert_open-eq-ok :
    (now : ℕ) (r : SupplierRequest) {u : Unit {0}}
    → assert_open now r ≡ ok u
    → (now < r.expires_at) × (is_closed_status r.status ≡ false)
unfolding assert_open
assert_open-eq-ok now r h = ground arith

module _ (sha256 : Text → ℕ) (time : ℕ → ℕ) (uuid : ℕ → ℕ) (actor : Actor) where
  -- One row for each body, for a requested data point, in order.
  abbrev pub AreSubmissions :
      SupplierRequest → List SubmissionBody → List SupplierSubmission → Type 0
  AreSubmissions request [] [] = Unit {0}
  AreSubmissions request [] (s ∷ ss) = ⊥
  AreSubmissions request (b ∷ bodies) [] = ⊥
  AreSubmissions request (b ∷ bodies) (s ∷ ss) =
      (s.request_id ≡ request.id)
      × (s.field_id ≡ b.field_id)
      × (s.value ≡ b.value)
      × (elem s.field_id request.field_ids ≡ true)
      × AreSubmissions request bodies ss

  stored-AreSubmissions :
      (n : ℕ) (request : SupplierRequest) (bodies : List SubmissionBody)
      (objects : List EvidenceObject) (stored : List SupplierSubmission)
      → store_submissions sha256 time uuid actor n request bodies objects ≡ ok stored
      → AreSubmissions request bodies stored
  unfolding store_submissions
  stored-AreSubmissions n request [] objects [] h = tt
  stored-AreSubmissions n request [] objects (s ∷ ss) h = ground arith
  stored-AreSubmissions n request (b ∷ bodies) objects stored h =
      let (u, asked, h1) =
        >>=-eq-ok (require (elem b.field_id request.field_ids) field_not_requested) _ h in
      let (v, backed, h2) =
        >>=-eq-ok
          (check_supplied sha256 time uuid actor request.organisation_id request.supplier_id
            b.evidence_ids objects)
          _ h1 in
      let (rest, later, h3) =
        >>=-eq-ok (store_submissions sha256 time uuid actor (n + 1) request bodies objects) _ h2 in
      let requested = require-eq-ok _ _ asked in
      let ih = stored-AreSubmissions (n + 1) request bodies objects rest later in
      let shape : stored ≡ new_submission sha256 time uuid actor n request.id b ∷ rest =
        ground arith in
      rw shape (refl, refl, refl, requested, ih)

  -- The request that a token resolves to.
  record IsResolved (token : Option Text) (db : Db) (context : SupplierRequest) : Type 0 where
    secret : Text
    meta : SupplierRequest
    given : token ≡ some secret
    not_empty : secret ≢ []
    by_token :
        find? (λ (r : SupplierRequest). r.token_hash == sha256 secret) db.requests ≡ some meta
    resolved : find? (owns_request meta.organisation_id meta.id) db.requests ≡ some context

  resolve-IsResolved :
      (token : Option Text) (db : Db) (context : SupplierRequest)
      → resolve sha256 time uuid actor token db ≡ ok context
      → IsResolved token db context
  unfolding resolve
  resolve-IsResolved none db context h = ground arith
  resolve-IsResolved (some []) db context h = ground arith
  resolve-IsResolved (some (c ∷ cs)) db context h =
      let (meta, e1, h1) =
        >>=-eq-ok
          (found (find? (λ (r : SupplierRequest). r.token_hash == sha256 (c ∷ cs)) db.requests)
            invalid_supplier_token)
          _ h in
      let (u, e2, h2) = >>=-eq-ok (assert_open (time 0) meta) _ h1 in
      record {
        secret = c ∷ cs;
        meta = meta;
        given = refl;
        not_empty = λ e. cc;
        by_token = found-some _ _ e1;
        resolved = found-some _ _ h2;
      }

  locked_request :
      (now : ℕ) (meta context request : SupplierRequest) (db : Db)
      → find? (owns_request meta.organisation_id meta.id) db.requests ≡ some context
      → lock_request now context.organisation_id context.id db ≡ ok request
      → find? (owns_request meta.organisation_id meta.id) db.requests ≡ some request
  unfolding lock_request
  locked_request now meta context request db first h =
      let own = find?_sound (owns_request meta.organisation_id meta.id) db.requests first in
      let same_id : context.id ≡ meta.id = ground arith in
      let same_owner : context.organisation_id ≡ meta.organisation_id = ground arith in
      let (r, e1, h1) =
        >>=-eq-ok
          (found (find? (owns_request context.organisation_id context.id) db.requests) not_found) _
          h in
      let (u, e2, h2) = >>=-eq-ok (assert_open now r) _ h1 in
      let there = found-some _ not_found e1 in
      let is : r ≡ request = ok_ok h2 in rw (is, same_id, same_owner) at there

  -- A submission succeeds only with a token, and only where a request of the database carries the
  -- token's hash, and the request of the database with the number and the owner of that one is open
  -- and has not expired; it appends one row for each entry, in order, each for a data point that this
  -- request asks for, and changes no value, no item and no model.
  pub submit-AreSubmissions :
      (token : Option Text) (bodies : List SubmissionBody) (db : Db) (u : Unit {0}) (new : Db)
      → submit sha256 time uuid actor token bodies db ≡ ok (u, new)
      → (secret : Text) × (meta : SupplierRequest) × (request : SupplierRequest) × (stored : List
          SupplierSubmission)
        × (token ≡ some secret)
        × (secret ≢ [])
        × (find? (λ (r : SupplierRequest). r.token_hash == sha256 secret) db.requests ≡ some meta)
        × (find? (owns_request meta.organisation_id meta.id) db.requests ≡ some request)
        × (time 2 < request.expires_at)
        × (is_closed_status request.status ≡ false)
        × AreSubmissions request bodies stored
        × (new.submissions ≡ db.submissions ++ stored)
        × (new.values ≡ db.values)
        × (new.items ≡ db.items)
        × (new.models ≡ db.models)
  unfolding submit
  submit-AreSubmissions token bodies db u new h =
      let (context, resolved, h1) = >>=-eq-ok (resolve sha256 time uuid actor token db) _ h in
      let r = resolve-IsResolved token db context resolved in
      let (request, locked, h2) =
        >>=-eq-ok (lock_request (time 1) context.organisation_id context.id db) _ h1 in
      let (stored, kept, h3) =
        >>=-eq-ok (store_submissions sha256 time uuid actor 0 request bodies db.evidence) _ h2 in
      let (v, still, h4) = >>=-eq-ok (assert_open (time 2) request) _ h3 in
      let opened = assert_open-eq-ok (time 2) request still in
      (
        r.secret,
        r.meta,
        request,
        stored,
        r.given,
        r.not_empty,
        r.by_token,
        locked_request (time 1) r.meta context request db r.resolved locked,
        opened.0,
        opened.1,
        stored-AreSubmissions 0 request bodies db.evidence stored kept,
        ground arith,
        ground arith,
        ground arith,
        ground arith,
      )
