-- ===== src/Prelude/Outcome.antt =====
-- What a handler gives back: a value, or the code of the exception that it throws. A handler that
-- throws inside a database transaction leaves the database as it was, so a transaction is a
-- function into `Outcome` that returns the new database beside its result.
use mathlib.Core.Path.{◌≡◌, refl}
use mathlib.Core.Logic.{◌⊎◌, inl, inr}
use mathlib.Core.Bool.{Bool, true, false, false≢true}
use mathlib.Core.Option.{Option, none, some}
use native.Mathlib.Omega.{arith}

-- The exceptions of the program, by the `code` that they carry (or the class, where they have none).
pub data Code : Type 0 where
  not_found invalid_transition batch_size : Code
  delegation_not_allowed no_written_authorisation delegated_tenant_mismatch : Code
  responsible_operator_required invalid_authorisation_interval self_authorisation : Code
  verified_authorisation_evidence_required : Code
  passport_lifecycle_closed value_owner_required passport_not_ready passport_not_publishable : Code
  prior_passport_required prior_passport_invalid lifecycle_event_status_mismatch : Code
  value_not_current provenance_required conditional_review_incomplete foreign_model : Code
  supplier_token_required invalid_supplier_token supplier_token_expired supplier_request_closed :
      Code
  supplier_request_changed_retry no_submissions evidence_not_ready field_not_requested : Code
  registry_record_invalid duplicate_registry_identifiers : Code
  access_token_required invalid_access_token access_grant_inactive no_published_passport : Code
  malware_scanner_required malware_scan_unavailable evidence_malware_detected : Code
  upload_size_mismatch upload_metadata_required evidence_storage_version_required : Code
  upload_not_found upload_changed_during_verification upload_content_hash_mismatch : Code
  evidence_outside_validity evidence_changed_retry evidence_links_changed_retry storage_failed :
      Code
  evidence_review_download_not_ready evidence_review_download_unavailable : Code
  evidence_review_version_mismatch : Code
  invalid_auth_configuration invalid_claims development_token_disabled bearer_required : Code
  role_forbidden : Code

pub data Outcome {ℓ} (A : Type ℓ) : Type ℓ where
  ok : A → Outcome A
  err : Code → Outcome A

infixl 5 ◌>>=◌ ◌>>◌
abbrev pub ◌>>=◌ {ℓ κ} : {B : Type κ} {A : Type ℓ} → Outcome A → (A → Outcome B) → Outcome B
err code >>= next = err code
ok value >>= next = next value

abbrev pub ◌>>◌ {ℓ} : {B : Type ℓ} → Outcome (Unit {0}) → Outcome B → Outcome B
first >> second = first >>= λ done. second

-- `if (!test) throw code`
abbrev pub require : Bool → Code → Outcome (Unit {0})
require true c = ok tt
require false c = err c

-- `findFirstOrThrow`
abbrev pub found {ℓ} : {A : Type ℓ} → Option A → Code → Outcome A
found none c = err c
found (some a) c = ok a

-- A chain that succeeds has a first part that succeeds, and the rest succeeds on its result.
pub >>=-eq-ok {ℓ κ} :
    {B : Type κ} {A : Type ℓ} (first : Outcome A) (next : A → Outcome B) {result : B}
    → (first >>= next) ≡ ok result
    → (value : A) × (first ≡ ok value) × (next value ≡ ok result)
>>=-eq-ok (err code) next chain = ground arith
>>=-eq-ok (ok value) next chain = (value, refl, chain)

pub Outcome-cases {ℓ} :
    {A : Type ℓ} (m : Outcome A) → ((a : A) × (m ≡ ok a)) ⊎ ((c : Code) × (m ≡ err c))
Outcome-cases (ok a) = inl (a, refl)
Outcome-cases (err c) = inr (c, refl)

pub require-eq-ok : (b : Bool) (c : Code) {u : Unit {0}} → require b c ≡ ok u → b ≡ true
require-eq-ok true c h = refl
require-eq-ok false c h = ground arith

abbrev pub succeeds {ℓ} : {A : Type ℓ} → Outcome A → Bool
succeeds (ok a) = true
succeeds (err c) = false

-- The result of a run that succeeds.
unfoldable pub ran {ℓ} : {A : Type ℓ} (m : Outcome A) → succeeds m ≡ true → (a : A) × (m ≡ ok a)
ran (ok a) h = (a, refl)
ran (err c) h = absurd (false≢true h)
