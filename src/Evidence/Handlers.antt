-- ===== src/Evidence/Handlers.antt =====
-- `checkBytes`, `transition`, `finalize`, `verify`, `forExtraction` and `createUpload` of
-- apps/api/src/common/storage/evidence-storage.service.ts. No row is changed but in a transaction, so
-- a request that throws before its transaction has written nothing.
use codex_nieuw.Prelude.{
  ℕ, String, Bool, true, false, not, ◌&&◌, Option, none, some, List, [], ◌∷◌, ◌++◌, ◌==◌,
  if◌then◌else◌, find?, any, count_where, update_where, is_some,
}
use codex_nieuw.Prelude.Outcome.{
  Outcome, ok, err, ◌>>=◌, ◌>>◌, Code, require, found, not_found, upload_metadata_required,
  upload_content_hash_mismatch, evidence_changed_retry, evidence_malware_detected,
}
use codex_nieuw.Store.Rows.{EvidenceStatus, EvidenceObject, AuditEvent, Db}
use codex_nieuw.Store.Queries.{is_verified}
use codex_nieuw.Storage.Objects.{Services, verify_object_sha256, evidence_key}
use codex_nieuw.Evidence.{
  UploadBody, Checked, Ended, Views, event_of, load, assert_current, is_pending, is_unchanged,
  reject_loop,
}

-- The data of a transition.
abbrev pub moved_row : EvidenceStatus → Checked → ℕ → EvidenceObject → EvidenceObject
moved_row status c now row = record row {
  verification_status = status;
  storage_checksum = some c.storage_checksum;
  storage_version_id = c.storage_version_id;
  malware_scan_sha256 = c.malware_scan_sha256;
  malware_scanned_at = c.malware_scanned_at;
  malware_scanner_version = c.malware_scanner_version;
  uploaded_at = (elim status [ EvidenceStatus.uploaded ↦ some now | _ ↦ row.uploaded_at ]);
  updated_at = now;
}

abbrev pub is_uploaded : EvidenceStatus → Bool
is_uploaded EvidenceStatus.uploaded = true
is_uploaded _ = false

abbrev pub moved_events : EvidenceStatus → Checked → String → EvidenceObject → List AuditEvent
moved_events status c subject e =
    event_of e.organisation_id subject
      (if is_uploaded status then "evidence.finalize" else "evidence.verify") e.id
    ∷ (if is_some c.malware_scanned_at
        then event_of e.organisation_id subject "evidence.malware_clean" e.id ∷ []
        else [])

abbrev pub has_id : ℕ → EvidenceObject → Bool
has_id id e = e.id == id

-- `transition`
unfoldable pub transition :
    ℕ → EvidenceObject → EvidenceStatus → String → Checked → Db → Outcome (EvidenceObject × Db)
transition now e status subject c db = do
  assert_current now (is_uploaded status) e
  require (count_where (is_unchanged e) db.evidence == 1) evidence_changed_retry
  let rows = update_where (is_unchanged e) (moved_row status c now) db.evidence
  row ← found (find? (has_id e.id) rows) not_found
  ok (row, record db { evidence = rows; audit = db.audit ++ moved_events status c subject e })

module _ (s : Services) (time : ℕ → ℕ) (uuid : ℕ → ℕ) where
  -- `checkBytes` up to its `catch`
  unfoldable pub inspect : ℕ → EvidenceObject → Outcome Checked
  inspect now e = do
    sha256 ← found e.sha256 upload_metadata_required
    require (s.is_digest sha256) upload_metadata_required
    size ← found e.size_bytes upload_metadata_required
    v ← verify_object_sha256 s now e.object_key sha256 size e.storage_version_id
    require v.matches upload_content_hash_mismatch
    ok record {
      storage_checksum = s.checksum v.actual;
      storage_version_id = v.version_id;
      malware_scan_sha256 = if is_some v.scan.scanned_at then some v.actual else none;
      malware_scanned_at = v.scan.scanned_at;
      malware_scanner_version = v.scan.scanner_version;
    }

  abbrev pub is_malware : Code → Bool
  is_malware evidence_malware_detected = true
  is_malware _ = false

  -- The `catch`: malware is recorded before the error goes on.
  unfoldable pub recorded : {A : Type 0} → Code → String → EvidenceObject → Views → Ended A
  recorded code subject e v =
      if is_malware code
      then (elim (reject_loop 2 0 (time 2) subject e v) [
        | ok db ↦ record { answer = err code; written = some db }
        | err retry ↦ record { answer = err retry; written = none }
      ])
      else record { answer = err code; written = none }

  abbrev pub close : {A : Type 0} → Outcome (A × Db) → Ended A
  close (ok (a, db)) = record { answer = ok a; written = some db }
  close (err c) = record { answer = err c; written = none }

  -- What follows the check of the bytes: nothing to write, or a transition.
  unfoldable pub conclude :
      Bool → EvidenceObject → EvidenceStatus → String → Views → Checked → Ended EvidenceObject
  conclude settled e status subject v c =
      if settled && not (is_some c.malware_scanned_at)
      then record { answer = ok e; written = none }
      else close (transition (time 3) e status subject c v.final)

  abbrev pub after_finalize : EvidenceStatus → EvidenceStatus
  after_finalize EvidenceStatus.verified = EvidenceStatus.verified
  after_finalize _ = EvidenceStatus.uploaded

  -- The `try` of `checkBytes`, and what the caller does with its result.
  unfoldable pub checked_then :
      Bool → EvidenceObject → EvidenceStatus → String → Views → Ended EvidenceObject
  checked_then settled e status subject v = elim (inspect (time 1) e) [
    | ok c ↦ conclude settled e status subject v c
    | err code ↦ recorded code subject e v
  ]

  unfoldable pub loaded_current : Bool → ℕ → ℕ → Option ℕ → Views → Outcome EvidenceObject
  loaded_current allow_pending organisation_id id supplier v = do
    e ← load v.loaded organisation_id id supplier
    assert_current (time 0) allow_pending e
    ok e

  -- `finalize`
  unfoldable pub finalize : ℕ → ℕ → String → Option ℕ → Views → Ended EvidenceObject
  finalize organisation_id id subject supplier v =
      elim (loaded_current true organisation_id id supplier v) [
        | err code ↦ record { answer = err code; written = none }
        | ok e ↦
            checked_then (not (is_pending e.verification_status)) e
              (after_finalize e.verification_status) subject v
      ]

  -- `verify`
  unfoldable pub verify : ℕ → ℕ → String → Views → Ended EvidenceObject
  verify organisation_id id subject v = elim (loaded_current false organisation_id id none v) [
    | err code ↦ record { answer = err code; written = none }
    | ok e ↦ checked_then (is_verified e.verification_status) e EvidenceStatus.verified subject v
  ]

  -- `forExtraction`: nothing is written but where malware is found.
  unfoldable pub for_extraction : ℕ → ℕ → String → Views → Ended EvidenceObject
  for_extraction organisation_id id subject v =
      elim (loaded_current false organisation_id id none v) [
        | err code ↦ record { answer = err code; written = none }
        | ok e ↦ elim (inspect (time 1) e) [
          | ok c ↦ record {
            answer = ok (record e {
              storage_checksum = some c.storage_checksum;
              storage_version_id = c.storage_version_id;
              malware_scan_sha256 = c.malware_scan_sha256;
              malware_scanned_at = c.malware_scanned_at;
              malware_scanner_version = c.malware_scanner_version;
            });
            written = none;
          }
          | err code ↦ recorded code subject e v
        ]
      ]

  -- `createUpload`
  unfoldable pub create_upload : ℕ → String → UploadBody → List ℕ → Db → Outcome (ℕ × Db)
  create_upload organisation_id subject b suppliers db = do
    require
        (elim b.supplier_id [ none ↦ true | some supplier ↦ any (λ id. id == supplier) suppliers ])
        not_found
    let row : EvidenceObject = record {
      id = uuid 0;
      organisation_id = organisation_id;
      supplier_id = b.supplier_id;
      object_key = evidence_key s organisation_id (uuid 0) b.filename;
      filename = some b.filename;
      mime_type = some b.mime_type;
      evidence_type = b.evidence_type;
      size_bytes = some b.size_bytes;
      sha256 = some b.sha256;
      storage_checksum = none;
      uploaded_at = none;
      updated_at = time 0;
      malware_scan_sha256 = none;
      malware_scanned_at = none;
      malware_scanner_version = none;
      storage_version_id = none;
      verification_status = EvidenceStatus.pending_upload;
      issued_at = none;
      expires_at = none;
    }
    ok (
      uuid 0,
      record db {
        evidence = db.evidence ++ row ∷ [];
        audit =
            db.audit ++ event_of organisation_id subject "evidence.upload_session" (uuid 0) ∷ [];
      },
    )
