-- ===== src/Evidence.antt =====
-- apps/api/src/common/storage/evidence-storage.service.ts: the life of an evidence object. A request
-- waits for the object store between its transactions, so other requests run in between: what each
-- transaction sees is given by `Views`. `time n` is the n-th clock reading; one reading stands for
-- those of one check.
pub mod Handlers
pub mod Moving
pub mod Linking
pub mod Download
pub mod Inspected
pub mod Usable
pub mod Verified
pub mod Quiet
pub mod Rejecting
pub mod Refining
use codex_nieuw.Prelude.{
  ℕ, zero, suc, ◌+◌, String, Bool, true, false, not, ◌&&◌, ◌||◌, Option, none, some, List, [], ◌∷◌,
  ◌++◌, ltb, leb, ◌==◌, if◌then◌else◌, find?, keep, map, count_where, update_where, same_opt,
  is_some,
}
use codex_nieuw.Prelude.Outcome.{
  Outcome, ok, err, ◌>>=◌, ◌>>◌, Code, require, found, not_found, evidence_not_ready,
  evidence_outside_validity, upload_metadata_required, upload_content_hash_mismatch,
  evidence_changed_retry, evidence_links_changed_retry, evidence_malware_detected,
}
use codex_nieuw.Json.{Text}
use codex_nieuw.Batteries.Review.{sort_ids, same_ids}
use codex_nieuw.Batteries.Handlers.{unique}
use codex_nieuw.Store.Rows.{
  EvidenceStatus, EvidenceObject, EvidenceLink, ValueRow, BatteryItem, AuditEvent, Db,
}
use codex_nieuw.Store.Queries.{is_verified}
use codex_nieuw.Tenant.PassportLock.{lock_model, invalidate_passports}
use codex_nieuw.Storage.Objects.{Services, Verification, verify_object_sha256, evidence_key}

-- `EvidenceUploadSchema`; a hash is a number, so that its letters have no case.
pub record UploadBody : Type 0 where
  pub filename : Text
  pub mime_type : Text
  pub size_bytes : ℕ
  pub sha256 : ℕ
  pub evidence_type : Text
  pub supplier_id : Option ℕ

-- What `checkBytes` returns.
pub record Checked : Type 0 where
  pub storage_checksum : ℕ
  pub storage_version_id : Option Text
  pub malware_scan_sha256 : Option ℕ
  pub malware_scanned_at : Option ℕ
  pub malware_scanner_version : Option Text

-- How a request ends: what it answers, and the database that its last transaction has written.
pub record Ended (A : Type 0) : Type 0 where
  pub answer : Outcome A
  pub written : Option Db

-- What the transactions of one request see. A rejection is tried up to three times; each time the
-- links are read first, and the rows are locked then.
pub record Views : Type 0 where
  pub loaded : Db
  pub linked : ℕ → Db
  pub locked : ℕ → Db
  pub final : Db

abbrev pub event_of : ℕ → String → String → ℕ → AuditEvent
event_of organisation_id subject action resource = record {
  organisation_id = organisation_id;
  actor_subject = subject;
  action = action;
  resource_id = resource;
}

-- `where: { id, organisationId, supplierId }`, without the supplier where there is none
abbrev pub owns_supplied : ℕ → ℕ → Option ℕ → EvidenceObject → Bool
owns_supplied organisation_id id none e = e.id == id && (e.organisation_id == organisation_id)
owns_supplied organisation_id id (some supplier) e =
    e.id == id && (e.organisation_id == organisation_id) && same_opt e.supplier_id (some supplier)

-- `load`
unfoldable pub load : Db → ℕ → ℕ → Option ℕ → Outcome EvidenceObject
load db organisation_id id supplier =
    found (find? (owns_supplied organisation_id id supplier) db.evidence) not_found

-- `states.includes(evidence.verificationStatus)`
abbrev pub is_current : Bool → EvidenceStatus → Bool
is_current allow_pending EvidenceStatus.pending_upload = allow_pending
is_current allow_pending EvidenceStatus.uploaded = true
is_current allow_pending EvidenceStatus.unverified = true
is_current allow_pending EvidenceStatus.verified = true
is_current allow_pending EvidenceStatus.rejected = false
is_current allow_pending EvidenceStatus.superseded = false

abbrev pub is_pending : EvidenceStatus → Bool
is_pending EvidenceStatus.pending_upload = true
is_pending _ = false

abbrev pub within_validity : ℕ → EvidenceObject → Bool
within_validity now e =
    not (elim e.expires_at [ none ↦ false | some t ↦ leb t now ])
    && not (elim e.issued_at [ none ↦ false | some t ↦ ltb now t ])

-- `assertCurrent`
unfoldable pub assert_current : ℕ → Bool → EvidenceObject → Outcome (Unit {0})
assert_current now allow_pending e = do
  require (is_current allow_pending e.verification_status) evidence_not_ready
  require (within_validity now e) evidence_outside_validity

abbrev pub same_status : EvidenceStatus → EvidenceStatus → Bool
same_status EvidenceStatus.pending_upload EvidenceStatus.pending_upload = true
same_status EvidenceStatus.uploaded EvidenceStatus.uploaded = true
same_status EvidenceStatus.unverified EvidenceStatus.unverified = true
same_status EvidenceStatus.verified EvidenceStatus.verified = true
same_status EvidenceStatus.rejected EvidenceStatus.rejected = true
same_status EvidenceStatus.superseded EvidenceStatus.superseded = true
same_status _ _ = false

-- The `where` of both updates: the row as it was loaded.
abbrev pub is_unchanged : EvidenceObject → EvidenceObject → Bool
is_unchanged e row =
    row.id == e.id
    && (row.organisation_id == e.organisation_id)
    && (row.updated_at == e.updated_at)
    && same_status row.verification_status e.verification_status

-- The data of a rejection.
abbrev pub rejected_row : ℕ → EvidenceObject → EvidenceObject
rejected_row now row = record row {
  verification_status = EvidenceStatus.rejected;
  malware_scan_sha256 = none;
  malware_scanned_at = none;
  malware_scanner_version = none;
  updated_at = now;
}

abbrev pub links_of : ℕ → List EvidenceLink → List EvidenceLink
links_of id links = keep (λ (l : EvidenceLink). l.evidence_id == id) links

-- `include: { passportValue: … }`: the values behind the links, which foreign keys provide.
unfoldable pub owners_of : List EvidenceLink → List ValueRow → List ValueRow
owners_of [] values = []
owners_of (l ∷ links) values =
    let rest = owners_of links values in
    elim (find? (λ (v : ValueRow). v.id == l.value_id) values) [ none ↦ rest | some v ↦ v ∷ rest ]

-- `link.passportValue.modelId || link.passportValue.batteryItem?.modelId`
unfoldable pub model_ids_of : List ValueRow → List BatteryItem → List ℕ
model_ids_of [] items = []
model_ids_of (v ∷ values) items =
    let rest = model_ids_of values items in
    elim v.model_id [
      | some m ↦ m ∷ rest
      | none ↦ elim v.item_id [
        | none ↦ rest
        | some item_id ↦ elim (find? (λ (i : BatteryItem). i.id == item_id) items) [
          | none ↦ rest
          | some item ↦ item.model_id ∷ rest
        ]
      ]
    ]

-- `for (const modelId of modelIds) await lockModel(…)`
unfoldable pub lock_models : Db → ℕ → List ℕ → Outcome (Unit {0})
lock_models db organisation_id [] = ok tt
lock_models db organisation_id (m ∷ ids) = do
  lock_model db organisation_id m
  lock_models db organisation_id ids

-- `for (const link of links) await invalidatePassports(…)`
unfoldable pub invalidate_owners : ℕ → List ValueRow → Db → Db
invalidate_owners organisation_id [] db = db
invalidate_owners organisation_id (v ∷ values) db =
    invalidate_owners organisation_id values
      (invalidate_passports organisation_id v.item_id v.model_id db)

abbrev pub value_ids : List EvidenceLink → List ℕ
value_ids links = sort_ids (map (λ (l : EvidenceLink). l.value_id) links)

-- The writes of a rejection.
unfoldable pub write_rejection : ℕ → String → EvidenceObject → List ValueRow → Db → Db
write_rejection now subject e owners db =
    let marked = record db {
      evidence = update_where (is_unchanged e) (rejected_row now) db.evidence;
    } in
    let invalidated = invalidate_owners e.organisation_id owners marked in
    record invalidated {
      audit =
          invalidated.audit
          ++ event_of e.organisation_id subject "evidence.malware_rejected" e.id ∷ [];
    }

-- One attempt of a rejection.
unfoldable pub reject_once : ℕ → String → EvidenceObject → Db → Db → Outcome Db
reject_once now subject e linked locked = do
  let links = links_of e.id linked.links
  let owners = owners_of links linked.values
  lock_models locked e.organisation_id (sort_ids (unique (model_ids_of owners linked.items)))
  require (same_ids (value_ids (links_of e.id locked.links)) (value_ids links))
      evidence_links_changed_retry
  require (count_where (is_unchanged e) locked.evidence == 1) evidence_changed_retry
  ok (write_rejection now subject e owners locked)

abbrev pub is_retry : Code → Bool
is_retry evidence_links_changed_retry = true
is_retry _ = false

-- The loop: `left` more attempts may follow attempt `n`.
unfoldable pub reject_loop : ℕ → ℕ → ℕ → String → EvidenceObject → Views → Outcome Db
reject_loop zero n now subject e v = reject_once now subject e (v.linked n) (v.locked n)
reject_loop (suc left) n now subject e v =
    let again = reject_loop left (n + 1) now subject e v in
    elim (reject_once now subject e (v.linked n) (v.locked n)) [
      | ok db ↦ ok db
      | err c ↦ if is_retry c then again else err c
    ]
