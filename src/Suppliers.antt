-- ===== src/Suppliers.antt =====
-- apps/api/src/modules/suppliers: what a supplier submits under a capability token, and its
-- acceptance (suppliers.controller.ts, supplier-token.service.ts). A request body is what its schema
-- has accepted; SHA-256 is a parameter.
pub mod Accepting
pub mod Submitting
pub mod Opening
use codex_nieuw.Prelude.{
  ℕ, zero, suc, ◌+◌, String, Bool, true, false, not, ◌&&◌, ◌||◌, Option, none, some, List, [], ◌∷◌,
  ◌++◌, ltb, leb, ◌==◌, if◌then◌else◌, find?, keep, elem, map, concat, count_where, update_where,
  length, is_some, opt_eq,
}
use codex_nieuw.Prelude.Outcome.{
  Outcome, ok, err, ◌>>=◌, ◌>>◌, require, found, not_found, supplier_token_required,
  invalid_supplier_token, supplier_token_expired, supplier_request_closed,
  supplier_request_changed_retry, no_submissions, evidence_not_ready, field_not_requested,
}
use codex_nieuw.Json.{Text, Json}
use codex_nieuw.Batteries.Review.{sort_ids}
use codex_nieuw.Batteries.Handlers.{unique}
use codex_nieuw.Store.Rows.{
  RequestStatus, SupplierRequest, SupplierSubmission, ValidationStatus, EvidenceStatus, ValueRow,
  EvidenceObject, EvidenceLink, Db,
}
use codex_nieuw.Tenant.Access.{Actor}
use codex_nieuw.Tenant.PassportLock.{lock_model, invalidate_passports}
use codex_nieuw.Passports.Document.{audit_event}
use codex_nieuw.Values.{is_open, has_id}

-- One entry of `SubmissionSchema`.
pub record SubmissionBody : Type 0 where
  pub field_id : ℕ
  pub value : Json
  pub unit : Option Text
  pub evidence_ids : List ℕ

-- `['accepted', 'cancelled', 'expired'].includes(status)`
abbrev pub is_closed_status : RequestStatus → Bool
is_closed_status RequestStatus.accepted = true
is_closed_status RequestStatus.cancelled = true
is_closed_status RequestStatus.expired = true
is_closed_status _ = false

abbrev pub owns_request : ℕ → ℕ → SupplierRequest → Bool
owns_request organisation_id id r = r.id == id && (r.organisation_id == organisation_id)

abbrev pub has_request_id : ℕ → SupplierRequest → Bool
has_request_id id r = r.id == id

abbrev pub owns_evidence : ℕ → ℕ → EvidenceObject → Bool
owns_evidence organisation_id id e = e.id == id && (e.organisation_id == organisation_id)

abbrev pub supplied : ℕ → ℕ → ℕ → EvidenceObject → Bool
supplied organisation_id supplier_id id e =
    owns_evidence organisation_id id e && opt_eq e.supplier_id supplier_id

abbrev pub is_refused : EvidenceStatus → Bool
is_refused EvidenceStatus.rejected = true
is_refused EvidenceStatus.superseded = true
is_refused _ = false

-- `assertOpen`
unfoldable pub assert_open : ℕ → SupplierRequest → Outcome (Unit {0})
assert_open now r = do
  require (ltb now r.expires_at) supplier_token_expired
  require (not (is_closed_status r.status)) supplier_request_closed

-- `lockRequest`
unfoldable pub lock_request : ℕ → ℕ → ℕ → Db → Outcome SupplierRequest
lock_request now organisation_id id db = do
  request ← found (find? (owns_request organisation_id id) db.requests) not_found
  assert_open now request
  ok request

abbrev pub submissions_of : ℕ → List SupplierSubmission → List SupplierSubmission
submissions_of id rows = keep (λ (s : SupplierSubmission). s.request_id == id) rows

-- The loop over the evidence of an acceptance.
unfoldable pub check_evidence : ℕ → List ℕ → List EvidenceObject → Outcome (Unit {0})
check_evidence organisation_id [] objects = ok tt
check_evidence organisation_id (id ∷ ids) objects = do
  e ← found (find? (owns_evidence organisation_id id) objects) not_found
  require (not (is_refused e.verification_status)) evidence_not_ready
  check_evidence organisation_id ids objects

module _ (sha256 : Text → ℕ) (time : ℕ → ℕ) (uuid : ℕ → ℕ) (actor : Actor) where
  -- `SupplierTokenService.resolve`; `token` is `none` or empty where there is none.
  unfoldable pub resolve : Option Text → Db → Outcome SupplierRequest
  resolve none db = err supplier_token_required
  resolve (some []) db = err supplier_token_required
  resolve (some (c ∷ cs)) db = do
    meta ←
        found (find? (λ (r : SupplierRequest). r.token_hash == sha256 (c ∷ cs)) db.requests)
          invalid_supplier_token
    assert_open (time 0) meta
    found (find? (owns_request meta.organisation_id meta.id) db.requests) not_found

  -- The loops of `submit`; `n` identifiers have been drawn.
  unfoldable pub check_supplied : ℕ → ℕ → List ℕ → List EvidenceObject → Outcome (Unit {0})
  check_supplied organisation_id supplier_id [] objects = ok tt
  check_supplied organisation_id supplier_id (id ∷ ids) objects = do
    e ← found (find? (supplied organisation_id supplier_id id) objects) not_found
    check_supplied organisation_id supplier_id ids objects

  abbrev pub new_submission : ℕ → ℕ → SubmissionBody → SupplierSubmission
  new_submission n request_id b = record {
    id = uuid n;
    request_id = request_id;
    field_id = b.field_id;
    value = b.value;
    unit = b.unit;
    evidence_ids = b.evidence_ids;
  }

  unfoldable pub store_submissions :
      ℕ
      → SupplierRequest
      → List SubmissionBody
      → List EvidenceObject
      → Outcome (List SupplierSubmission)
  store_submissions n request [] objects = ok []
  store_submissions n request (b ∷ bodies) objects = do
    require (elem b.field_id request.field_ids) field_not_requested
    check_supplied request.organisation_id request.supplier_id b.evidence_ids objects
    rest ← store_submissions (n + 1) request bodies objects
    ok (new_submission n request.id b ∷ rest)

  abbrev pub submitted_row : SupplierRequest → SupplierRequest
  submitted_row r = record r { status = RequestStatus.submitted; submitted_at = some (time 3) }

  -- `POST supplier-portal/submissions`
  unfoldable pub submit : Option Text → List SubmissionBody → Db → Outcome (Unit {0} × Db)
  submit token bodies db = do
    context ← resolve token db
    request ← lock_request (time 1) context.organisation_id context.id db
    stored ← store_submissions 0 request bodies db.evidence
    assert_open (time 2) request
    ok (
      tt,
      record db {
        submissions = db.submissions ++ stored;
        requests = update_where (has_request_id request.id) submitted_row db.requests;
      },
    )

  -- One clock reading stands for those of all rounds of the loop.
  abbrev pub closed_value : ValueRow → ValueRow
  closed_value v = record v {
    valid_until = some (time 1);
    validation_status = ValidationStatus.superseded;
  }

  abbrev pub prior_value : ℕ → ℕ → ℕ → List ValueRow → Option ValueRow
  prior_value organisation_id model_id field_id values =
      find? (is_open organisation_id (some model_id) none field_id) values

  unfoldable pub close_prior : Option ValueRow → List ValueRow → List ValueRow
  close_prior none values = values
  close_prior (some prior) values = update_where (has_id prior.id) closed_value values

  abbrev pub supplier_value : ℕ → ℕ → ℕ → SupplierSubmission → Option ValueRow → ValueRow
  supplier_value n organisation_id model_id s prior = record {
    id = uuid n;
    organisation_id = organisation_id;
    model_id = some model_id;
    item_id = none;
    field_id = s.field_id;
    value = s.value;
    unit = s.unit;
    source_kind = "supplier";
    validation_status = ValidationStatus.submitted;
    valid_until = none;
    supersedes = (elim prior [ none ↦ none | some v ↦ some v.id ]);
  }

  abbrev new_links : ℕ → List ℕ → List EvidenceLink
  new_links value_id ids = map (λ id. record { evidence_id = id; value_id = value_id }) ids

  -- The loop of `accept` over the submissions.
  unfoldable pub store_values : ℕ → ℕ → ℕ → List SupplierSubmission → Db → Db
  store_values n organisation_id model_id [] db = db
  store_values n organisation_id model_id (s ∷ rest) db =
      let prior = prior_value organisation_id model_id s.field_id db.values in
      store_values (n + 1) organisation_id model_id rest (record db {
        values =
            close_prior prior db.values ++ supplier_value n organisation_id model_id s prior ∷ [];
        links = db.links ++ new_links (uuid n) s.evidence_ids;
      })

  abbrev pub accepted_row : SupplierRequest → SupplierRequest
  accepted_row r = record r { status = RequestStatus.accepted }

  abbrev pub evidence_ids_of : List SupplierSubmission → List ℕ
  evidence_ids_of ss =
      sort_ids (unique (concat (map (λ (s : SupplierSubmission). s.evidence_ids) ss)))

  -- The writes of an acceptance after its values.
  unfoldable pub close_request : ℕ → SupplierRequest → Db → Db
  close_request organisation_id request db =
      let closed = record db {
        requests = update_where (has_request_id request.id) accepted_row db.requests;
      } in
      let invalidated = invalidate_passports organisation_id none (some request.model_id) closed in
      record invalidated {
        audit =
            invalidated.audit
            ++ audit_event organisation_id actor "supplier_request.accept" request.id ∷ [];
      }

  -- `POST supplier-requests/:id/accept`
  unfoldable pub accept : ℕ → ℕ → Db → Outcome (ℕ × Db)
  accept organisation_id id db = do
    candidate ← found (find? (owns_request organisation_id id) db.requests) not_found
    lock_model db organisation_id candidate.model_id
    request ← lock_request (time 0) organisation_id id db
    require (request.model_id == candidate.model_id) supplier_request_changed_retry
    require (ltb 0 (length (submissions_of id db.submissions))) no_submissions
    check_evidence organisation_id (evidence_ids_of (submissions_of id db.submissions)) db.evidence
    assert_open (time 2) request
    ok (
      length (submissions_of id db.submissions),
      close_request organisation_id request
          (store_values 0 organisation_id request.model_id (submissions_of id db.submissions) db),
    )
