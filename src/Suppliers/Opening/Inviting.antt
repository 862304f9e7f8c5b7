-- ===== src/Suppliers/Opening/Inviting.antt =====
-- An invitation opens the request that it was made for.
use codex_nieuw.Prelude.{
  ℕ, ◌<◌, ◌≡◌, refl, sym, ap, ◌∙◌, Bool, true, false, none, some, List, [], ◌∷◌, ◌++◌, ltb, ◌==◌,
  find?, any, count_where, update_where, arith,
}
use codex_nieuw.Prelude.Outcome.{ok, >>=-eq-ok, require, found, not_found}
use codex_nieuw.Json.{Text}
use codex_nieuw.Batteries.Handlers.{unique}
use codex_nieuw.Store.Rows.{RequestStatus, SupplierRequest, Db}
use codex_nieuw.Store.Queries.{owns_model}
use codex_nieuw.Tenant.Access.{Actor}
use codex_nieuw.Storage.Objects.Checking.{ok_ok}
use codex_nieuw.Suppliers.{owns_request, has_request_id, assert_open, lock_request, resolve}
use codex_nieuw.Suppliers.Opening.{
  RequestBody, is_unopened, opened_row, open_request, new_request, create_request, portal_session,
}

-- A row that stands last, and is the first to pass a test.
module _ (p : SupplierRequest → Bool) (y : SupplierRequest) (hit : p y ≡ true) where
  find?-last : (xs : List SupplierRequest) → any p xs ≡ false → find? p (xs ++ y ∷ []) ≡ some y
  find?-last [] h = rw hit refl
  find?-last (x ∷ xs) h = let ih = find?-last xs (ground arith) in ground arith

  update_where-last :
      (f : SupplierRequest → SupplierRequest) (xs : List SupplierRequest)
      → any p xs ≡ false
      → update_where p f (xs ++ y ∷ []) ≡ xs ++ f y ∷ []
  update_where-last f [] h = rw hit refl
  update_where-last f (x ∷ xs) h =
      let ih = update_where-last f xs (ground arith) in
      let missed : p x ≡ false = ground arith in rw (missed, ih) refl

  count_where-last :
      (xs : List SupplierRequest) → any p xs ≡ false → count_where p (xs ++ y ∷ []) ≡ 1
  count_where-last [] h = rw hit refl
  count_where-last (x ∷ xs) h =
      let ih = count_where-last xs (ground arith) in
      let missed : p x ≡ false = ground arith in rw (missed, ih) refl

any-weaken :
    (p q : SupplierRequest → Bool)
    → ((x : SupplierRequest) → q x ≡ false → p x ≡ false)
    → (xs : List SupplierRequest) → any q xs ≡ false
    → any p xs ≡ false
any-weaken p q le [] h = refl
any-weaken p q le (x ∷ xs) h =
    let ih = any-weaken p q le xs (ground arith) in let here = le x (ground arith) in ground arith

module _ (sha256 : Text → ℕ) (time later : ℕ → ℕ) (uuid : ℕ → ℕ) (actor : Actor) where
  assert_open-draft :
      (now : ℕ) (r : SupplierRequest)
      → r.status ≡ RequestStatus.draft
      → now < r.expires_at
      → assert_open now r ≡ ok tt
  unfolding assert_open
  assert_open-draft now r s h =
      let e : ltb now r.expires_at ≡ true = ground arith in rw (assert_open, e, s) refl

  -- The draft that stands last in the table is opened.
  opens :
      (c : ℕ) (cs : Text) (old : List SupplierRequest) (after : Db) (r : SupplierRequest)
      → after.requests ≡ old ++ r ∷ []
      → r.token_hash ≡ sha256 (c ∷ cs)
      → r.status ≡ RequestStatus.draft
      → r.opened_at ≡ none
      → any (λ (x : SupplierRequest). x.token_hash == sha256 (c ∷ cs)) old ≡ false
      → any (has_request_id r.id) old ≡ false
      → ((n : ℕ) → later n < r.expires_at)
      → portal_session sha256 later uuid actor (some (c ∷ cs)) after
        ≡ ok (r, record after { requests = old ++ opened_row (later 2) r ∷ [] })
  unfolding portal_session resolve lock_request open_request
  opens c cs old after r rows hashed draft unopened unhashed unnumbered early =
      let by_hash =
        find?-last (λ (x : SupplierRequest). x.token_hash == sha256 (c ∷ cs)) r
          (ground (arith, hashed)) old unhashed in
      let not_owned =
        any-weaken (owns_request r.organisation_id r.id) (has_request_id r.id) (λ x m. ground arith)
          old unnumbered in
      let by_id = find?-last (owns_request r.organisation_id r.id) r (ground arith) old not_owned in
      let first = assert_open-draft (later 0) r draft (early 0) in
      let second = assert_open-draft (later 1) r draft (early 1) in
      let in_time = early 2 in
      let hit : is_unopened (later 2) r r ≡ true = rw (unopened, draft) (ground arith) in
      let others =
        any-weaken (is_unopened (later 2) r) (has_request_id r.id) (λ x m. ground arith) old
          unnumbered in
      let one = count_where-last (is_unopened (later 2) r) r hit old others in
      let moved =
        update_where-last (is_unopened (later 2) r) r hit (opened_row (later 2)) old others in
      let resolved : resolve sha256 later uuid actor (some (c ∷ cs)) after ≡ ok r =
        rw (resolve, rows, by_hash, first, by_id) refl in
      let locked : lock_request (later 1) r.organisation_id r.id after ≡ ok r =
        rw (lock_request, rows, by_id, second) refl in
      let opened : open_request (later 2) r after
          ≡ ok (record after { requests = old ++ opened_row (later 2) r ∷ [] }) =
        rw (open_request, unopened, rows, one, moved) refl in
      rw (portal_session, resolved, locked, opened) refl

  -- The link of a new request opens it, as long as it has not expired and where neither its number nor
  -- the hash of its token is one of an earlier request: the portal shows the request as it was
  -- created, for the asked data points, each once; its row gets the status opened and the moment of
  -- the opening and stays the same otherwise, and no other request is changed.
  pub create_request-portal_session :
      (organisation_id : ℕ) (b : RequestBody) (c : ℕ) (cs : Text) (suppliers : List ℕ)
      (db after : Db) (r : SupplierRequest)
      → create_request sha256 time uuid actor organisation_id b (c ∷ cs) suppliers db
        ≡ ok (r, after)
      → any (λ (x : SupplierRequest). x.token_hash == sha256 (c ∷ cs)) db.requests ≡ false
      → any (has_request_id r.id) db.requests ≡ false
      → ((n : ℕ) → later n < r.expires_at)
      → (seen : Db) × (portal_session sha256 later uuid actor (some (c ∷ cs)) after ≡ ok (r, seen))
        × (r.field_ids ≡ unique b.field_ids)
        × (seen.requests
            ≡ db.requests
              ++ record r { status = RequestStatus.opened; opened_at = some (later 2) } ∷ [])
  unfolding create_request
  create_request-portal_session organisation_id b c cs suppliers db after r h unhashed unnumbered
        early =
      let (u1, e1, h1) =
        >>=-eq-ok (require (any (λ (id : ℕ). id == b.supplier_id) suppliers) not_found) _ h in
      let (model, e2, h2) =
        >>=-eq-ok (found (find? (owns_model organisation_id b.model_id) db.models) not_found) _
          h1 in
      let row = new_request sha256 time uuid actor organisation_id b (c ∷ cs) in
      let is_row : row ≡ r = ap (λ (x : SupplierRequest × Db). x.0) (ok_ok h2) in
      let rows : db.requests ++ row ∷ [] ≡ after.requests =
        ap (λ (x : SupplierRequest × Db). (x.1).requests) (ok_ok h2) in
      (
        record after { requests = db.requests ++ opened_row (later 2) r ∷ [] },
        opens c cs db.requests after r
            (sym rows ∙ ap (λ (x : SupplierRequest). db.requests ++ x ∷ []) is_row)
            (ap (λ (x : SupplierRequest). x.token_hash) (sym is_row))
            (ap (λ (x : SupplierRequest). x.status) (sym is_row))
            (ap (λ (x : SupplierRequest). x.opened_at) (sym is_row)) unhashed unnumbered early,
        ap (λ (x : SupplierRequest). x.field_ids) (sym is_row),
        rw (ap (λ (x : SupplierRequest). x.status) (sym is_row)) refl,
      )
