-- ===== src/Tests/SupplierRuns.antt =====
-- A supplier request of the small organisation.
use codex_nieuw.Prelude.{
  ℕ, ◌<◌, ◌≡◌, ◌≢◌, refl, true, false, none, some, List, [], ◌∷◌, ◌++◌, arith, length, find?, ◌==◌,
}
use codex_nieuw.Prelude.Outcome.{Outcome, ok, ran, succeeds}
use codex_nieuw.Json.{Text, codes, num}
use codex_nieuw.Rules.StateMachine.{ready}
use codex_nieuw.Batteries.Review.{sort_ids}
use codex_nieuw.Batteries.Handlers.{unique}
use codex_nieuw.Store.Rows.{RequestStatus, SupplierRequest, SupplierSubmission, Db}
use codex_nieuw.Tenant.PassportLock.{lock_model}
use codex_nieuw.Values.Slots.{IsSlotted}
use codex_nieuw.Suppliers.{
  SubmissionBody, owns_request, is_closed_status, assert_open, lock_request, check_evidence, accept,
  resolve, check_supplied, store_submissions, submit,
}
use codex_nieuw.Suppliers.Accepting.{accept-IsSlotted}
use codex_nieuw.Suppliers.Submitting.{AreSubmissions, submit-AreSubmissions}
use codex_nieuw.Suppliers.Opening.{RequestBody, create_request, portal_session}
use codex_nieuw.Suppliers.Opening.Inviting.{create_request-portal_session}
use codex_nieuw.Tests.World.{clock, new_id, operator, world, supplier_request}

abbrev start : Db
start = record (world ready) { values = [] }

accept_run : Outcome (ℕ × Db)
accept_run = accept length clock new_id operator 1 70 start

accepts : succeeds accept_run ≡ true
unfolding accept_run accept lock_model lock_request assert_open check_evidence sort_ids
accepts = refl

start-IsSlotted : IsSlotted start
start-IsSlotted = record { slots = λ o m i f. omega arith }

accept-IsSlotted_example :
    IsSlotted (ran accept_run accepts).0.1
    × (lock_request 2000 1 70 (ran accept_run accepts).0.1 ≢ ok supplier_request)
unfolding accept_run
accept-IsSlotted_example =
    accept-IsSlotted length clock new_id operator 1 70 start (ran accept_run accepts).0.0
      (ran accept_run accepts).0.1 (ran accept_run accepts).1 start-IsSlotted 2000 supplier_request

abbrev entry : SubmissionBody
entry = record { field_id = 10; value = num 400; unit = none; evidence_ids = 30 ∷ [] }

submit_run : Outcome (Unit {0} × Db)
submit_run = submit length clock new_id operator (some (codes "abc")) (entry ∷ []) start

submits : succeeds submit_run ≡ true
unfolding submit_run submit resolve lock_request assert_open store_submissions check_supplied
submits = refl

submit-AreSubmissions_example :
    (secret : Text) × (meta : SupplierRequest) × (request : SupplierRequest) × (stored : List
      SupplierSubmission)
    × (some (codes "abc") ≡ some secret)
    × (secret ≢ [])
    × (find? (λ (r : SupplierRequest). r.token_hash == length secret) start.requests ≡ some meta)
    × (find? (owns_request meta.organisation_id meta.id) start.requests ≡ some request)
    × (1002 < request.expires_at)
    × (is_closed_status request.status ≡ false)
    × AreSubmissions length clock new_id operator request (entry ∷ []) stored
    × ((ran submit_run submits).0.1.submissions ≡ start.submissions ++ stored)
    × ((ran submit_run submits).0.1.values ≡ start.values)
    × ((ran submit_run submits).0.1.items ≡ start.items)
    × ((ran submit_run submits).0.1.models ≡ start.models)
unfolding submit_run
submit-AreSubmissions_example =
    submit-AreSubmissions length clock new_id operator (some (codes "abc")) (entry ∷ []) start
      (ran submit_run submits).0.0 (ran submit_run submits).0.1 (ran submit_run submits).1

abbrev invitation : RequestBody
invitation = record {
  supplier_id = 60;
  model_id = 10;
  field_ids = 12 ∷ 10 ∷ 12 ∷ [];
  expires_in_days = 30;
}

invite_run : Outcome (SupplierRequest × Db)
invite_run =
    create_request length clock new_id operator 1 invitation (codes "token") (60 ∷ []) start

invites : succeeds invite_run ≡ true
unfolding invite_run create_request
invites = refl

abbrev soon : ℕ → ℕ
soon n = 2000

create_request-portal_session_example :
    (seen : Db) × (portal_session length soon new_id operator
        (some (codes "token"))
        (ran invite_run invites).0.1
      ≡ ok ((ran invite_run invites).0.0, seen))
    × (((ran invite_run invites).0.0).field_ids ≡ unique invitation.field_ids)
    × (seen.requests
        ≡ start.requests
          ++ record (ran invite_run invites).0.0 {
            status = RequestStatus.opened;
            opened_at = some 2000;
          }
            ∷ [])
unfolding invite_run invites create_request ran
create_request-portal_session_example =
    create_request-portal_session length clock soon new_id operator 1 invitation 116 (codes "oken")
      (60 ∷ []) start (ran invite_run invites).0.1 (ran invite_run invites).0.0
      (ran invite_run invites).1 refl refl (λ n. omega arith)
