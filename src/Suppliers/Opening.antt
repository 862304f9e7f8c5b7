-- ===== src/Suppliers/Opening.antt =====
-- `POST supplier-requests` and the portal routes that open a request and hand evidence in, of
-- apps/api/src/modules/suppliers/suppliers.controller.ts. `suppliers` are the numbers of the suppliers
-- of the organisation, `raw` is the random token. The due date and the message are left out.
pub mod Inviting
use codex_nieuw.Prelude.{
  ℕ, ◌+◌, ◌*◌, ◌≤◌, ◌<◌, ◌≡◌, refl, sym, ap, ◌∙◌, String, Bool, true, false, not, ◌&&◌, ◌||◌,
  Option, none, some, List, [], ◌∷◌, ◌++◌, ltb, leb, ◌==◌, if◌then◌else◌, find?, any, count_where,
  count_where-append, update_where, is_some, arith,
}
use codex_nieuw.Prelude.Outcome.{
  Outcome, ok, err, ◌>>=◌, ◌>>◌, >>=-eq-ok, require, found, not_found, supplier_token_expired,
}
use codex_nieuw.Json.{Text}
use codex_nieuw.Batteries.Handlers.{unique}
use codex_nieuw.Store.Rows.{RequestStatus, SupplierRequest, BatteryModel, EvidenceObject, Db}
use codex_nieuw.Store.Queries.{owns_model}
use codex_nieuw.Tenant.Access.{Actor}
use codex_nieuw.Passports.Document.{audit_event}
use codex_nieuw.Storage.Objects.{Services}
use codex_nieuw.Storage.Objects.Checking.{ok_ok}
use codex_nieuw.Evidence.{UploadBody, Ended, Views}
use codex_nieuw.Evidence.Handlers.{create_upload, finalize}
use codex_nieuw.Suppliers.{
  is_closed_status, owns_request, has_request_id, assert_open, lock_request, resolve,
}

-- What `RequestSchema` accepts.
pub record RequestBody : Type 0 where
  pub supplier_id : ℕ
  pub model_id : ℕ
  pub field_ids : List ℕ
  pub expires_in_days : ℕ

abbrev same_status : RequestStatus → RequestStatus → Bool
same_status RequestStatus.draft RequestStatus.draft = true
same_status RequestStatus.sent RequestStatus.sent = true
same_status RequestStatus.opened RequestStatus.opened = true
same_status RequestStatus.partially_submitted RequestStatus.partially_submitted = true
same_status RequestStatus.submitted RequestStatus.submitted = true
same_status RequestStatus.accepted RequestStatus.accepted = true
same_status RequestStatus.rejected RequestStatus.rejected = true
same_status RequestStatus.expired RequestStatus.expired = true
same_status RequestStatus.cancelled RequestStatus.cancelled = true
same_status _ _ = false

-- `['draft', 'sent'].includes(request.status) ? { status: 'opened' } : {}`
abbrev pub opened_status : RequestStatus → RequestStatus
opened_status RequestStatus.draft = RequestStatus.opened
opened_status RequestStatus.sent = RequestStatus.opened
opened_status s = s

-- The `where` of the update that opens a request.
abbrev pub is_unopened : ℕ → SupplierRequest → SupplierRequest → Bool
is_unopened now r row =
    row.id == r.id
    && (row.organisation_id == r.organisation_id)
    && not (is_some row.opened_at)
    && same_status row.status r.status
    && ltb now row.expires_at

abbrev pub opened_row : ℕ → SupplierRequest → SupplierRequest
opened_row now row = record row { opened_at = some now; status = opened_status row.status }

-- `if (!request.openedAt)`
unfoldable pub open_request : ℕ → SupplierRequest → Db → Outcome Db
open_request now r db = elim r.opened_at [
  | some t ↦ ok db
  | none ↦ do
    require (count_where (is_unopened now r) db.requests == 1) supplier_token_expired
    ok (record db { requests = update_where (is_unopened now r) (opened_row now) db.requests })
]

module _ (sha256 : Text → ℕ) (time : ℕ → ℕ) (uuid : ℕ → ℕ) (actor : Actor) where
  abbrev pub new_request : ℕ → RequestBody → Text → SupplierRequest
  new_request organisation_id b raw = record {
    id = uuid 0;
    organisation_id = organisation_id;
    supplier_id = b.supplier_id;
    model_id = b.model_id;
    token_hash = sha256 raw;
    status = RequestStatus.draft;
    expires_at = time 0 + b.expires_in_days * 86400000;
    opened_at = none;
    submitted_at = none;
    field_ids = unique b.field_ids;
  }

  -- `createRequest`
  unfoldable pub create_request :
      ℕ → RequestBody → Text → List ℕ → Db → Outcome (SupplierRequest × Db)
  create_request organisation_id b raw suppliers db = do
    require (any (λ (id : ℕ). id == b.supplier_id) suppliers) not_found
    model ← found (find? (owns_model organisation_id b.model_id) db.models) not_found
    let row = new_request organisation_id b raw
    ok (
      row,
      record db {
        requests = db.requests ++ row ∷ [];
        audit = db.audit ++ audit_event organisation_id actor "supplier_request.create" row.id ∷ [];
      },
    )

  -- `portalSession`: the request that is shown, as it was before it is opened.
  unfoldable pub portal_session : Option Text → Db → Outcome (SupplierRequest × Db)
  portal_session token db = do
    context ← resolve sha256 time uuid actor token db
    request ← lock_request (time 1) context.organisation_id context.id db
    after ← open_request (time 2) request db
    ok (request, after)

  -- `supplierUpload`; `subject` prints `supplier-request:` and the request's number.
  unfoldable pub supplier_upload :
      Services → (ℕ → String) → Option Text → UploadBody → List ℕ → Db → Outcome (ℕ × Db)
  supplier_upload s subject token b suppliers db = do
    x ← resolve sha256 time uuid actor token db
    create_upload s time uuid x.organisation_id (subject x.id)
        (record b { supplier_id = some x.supplier_id }) suppliers db

  -- `supplierFinalize`
  unfoldable pub supplier_finalize :
      Services → (ℕ → String) → Option Text → ℕ → Views → Db → Ended EvidenceObject
  supplier_finalize s subject token id v db = elim (resolve sha256 time uuid actor token db) [
    | err code ↦ record { answer = err code; written = none }
    | ok x ↦ finalize s time uuid x.organisation_id id (subject x.id) (some x.supplier_id) v
  ]
