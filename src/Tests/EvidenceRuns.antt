-- ===== src/Tests/EvidenceRuns.antt =====
-- An evidence object that is uploaded, finalised, verified, linked, reviewed, and found infected.
use codex_nieuw.Prelude.{ℕ, ◌<◌, ◌≡◌, refl, ap, true, some, [], ◌∷◌, ◌++◌, Memᴰ}
use codex_nieuw.Prelude.Outcome.{Outcome, ok, ran, succeeds}
use codex_nieuw.Json.{codes, is_blank}
use codex_nieuw.Rules.Catalogue.{fields}
use codex_nieuw.Batteries.Review.{sort_ids}
use codex_nieuw.Rules.StateMachine.{published}
use codex_nieuw.Store.Rows.{EvidenceStatus, EvidenceObject, Db}
use codex_nieuw.Storage.Clamd.{on_event, on_data, run_socket, clamd_request}
use codex_nieuw.Storage.Scanner.{
  frames, is_version, is_found, judge, integer, reply, limits, scan_clamav, scan,
}
use codex_nieuw.Storage.Objects.{verify_object_sha256, create_review_download_url}
use codex_nieuw.Tenant.PassportLock.{
  lock_value_owner, lock_item, lock_model, assert_active, invalidate_passports,
}
use codex_nieuw.Evidence.{
  Views, Ended, event_of, load, assert_current, reject_loop, reject_once, write_rejection,
  invalidate_owners, lock_models, owners_of, model_ids_of,
}
use codex_nieuw.Evidence.Handlers.{
  transition, inspect, conclude, checked_then, loaded_current, finalize, verify,
}
use codex_nieuw.Evidence.Usable.{IsAccepted, verify-IsAccepted}
use codex_nieuw.Evidence.Rejecting.{IsRejection, reject_loop-IsRejection}
use codex_nieuw.Evidence.Refining.{finalization, IsMoved, serve-IsMoved}
use codex_nieuw.Evidence.Linking.{link, write_link, IsLinked, link-IsLinked}
use codex_nieuw.Evidence.Download.{
  ReviewDownload, review_download, issue, assert_review_ready, is_ready_for_review, seconds_left,
}
use codex_nieuw.Evidence.Download.Issuing.{IsIssued, review_download-IsIssued}
use codex_nieuw.Tests.World.{clock, new_id, operator, proof, world}
use codex_nieuw.Tests.StorageRuns.{services}

-- The object of the world, with what a finalisation has stored.
abbrev object : EvidenceStatus → EvidenceObject
object status = record proof {
  object_key = codes "orgs/" ++ (1 ∷ codes "/evidence/" ++ (30 ∷ codes "/report.pdf"));
  sha256 = some 3;
  size_bytes = some 3;
  storage_checksum = some 3;
  malware_scan_sha256 = some 3;
  malware_scanner_version = some (codes "ClamAV 1.4.1/2/M");
  verification_status = status;
}

abbrev stored : EvidenceStatus → Db
stored status = record (world published) { evidence = object status ∷ [] }

abbrev quiet : EvidenceStatus → Views
quiet status = record {
  loaded = stored status;
  linked = λ n. stored status;
  locked = λ n. stored status;
  final = stored status;
}

abbrev moved : EvidenceStatus → EvidenceObject
moved status = record (object status) {
  storage_version_id = some (codes "v");
  malware_scanned_at = some 1001;
  malware_scanner_version = some (codes "ClamAV 1.4.1/2/M");
  updated_at = 1003;
}

inspects :
    (inspect services clock new_id 1001 (object EvidenceStatus.uploaded))
    ≡ ok record {
      storage_checksum = 3;
      storage_version_id = some (codes "v");
      malware_scan_sha256 = some 3;
      malware_scanned_at = some 1001;
      malware_scanner_version = some (codes "ClamAV 1.4.1/2/M");
    }
unfolding inspect verify_object_sha256 scan scan_clamav limits integer reply judge is_version
    is_found frames clamd_request run_socket on_event on_data
inspects = refl

verifies :
    (verify services clock new_id 1 30 "operator" (quiet EvidenceStatus.uploaded)).answer
    ≡ ok (moved EvidenceStatus.verified)
unfolding verify loaded_current load assert_current checked_then conclude transition
verifies = rw (verify, loaded_current, load, assert_current, checked_then, inspects) refl

stamped :
    (a b : EvidenceObject)
    → Memᴰ a (object EvidenceStatus.uploaded ∷ [])
    → Memᴰ b (object EvidenceStatus.uploaded ∷ [])
    → a ≡ b
stamped a b (Memᴰ.head p) (Memᴰ.head q) = cc
stamped a b (Memᴰ.head p) (Memᴰ.tail n) = absurd (elim n [ ])
stamped a b (Memᴰ.tail m) n = absurd (elim m [ ])

verify-IsAccepted_example : IsAccepted services 1000 (moved EvidenceStatus.verified)
verify-IsAccepted_example =
    verify-IsAccepted services clock new_id 1 30 "operator" (quiet EvidenceStatus.uploaded)
      (moved EvidenceStatus.verified)
      (record { keys = λ a b m n e. stamped a b m n; stamps = λ a b m n e f. stamped b a n m })
      verifies

finalised : Db
finalised = record (stored EvidenceStatus.pending_upload) {
  evidence = record (moved EvidenceStatus.uploaded) { uploaded_at = some 1003 } ∷ [];
  audit =
      event_of 1 "operator" "evidence.finalize" 30
      ∷ event_of 1 "operator" "evidence.malware_clean" 30
      ∷ [];
}

finalises :
    finalize services clock new_id 1 30 "operator" (some 60) (quiet EvidenceStatus.pending_upload)
    ≡ record {
      answer = ok (record (moved EvidenceStatus.uploaded) { uploaded_at = some 1003 });
      written = some finalised;
    }
unfolding finalised finalize loaded_current load assert_current checked_then conclude transition
    inspect verify_object_sha256 scan scan_clamav limits integer reply judge is_version is_found
    frames clamd_request run_socket on_event on_data
finalises = refl

rejects : Outcome Db
rejects =
    reject_loop 2 0 1002 "operator" (object EvidenceStatus.uploaded) (quiet EvidenceStatus.uploaded)

rejects_it : succeeds rejects ≡ true
unfolding rejects reject_loop reject_once lock_models lock_model owners_of model_ids_of
    write_rejection invalidate_owners invalidate_passports sort_ids fields
rejects_it = refl

reject_loop-IsRejection_example :
    (k : ℕ) × (k < 3)
    × IsRejection 1002
        (object EvidenceStatus.uploaded)
        (stored EvidenceStatus.uploaded)
        (stored EvidenceStatus.uploaded)
        (ran rejects rejects_it).0
unfolding rejects
reject_loop-IsRejection_example =
    reject_loop-IsRejection 1002 "operator" (object EvidenceStatus.uploaded)
      (quiet EvidenceStatus.uploaded) (ran rejects rejects_it).0 (ran rejects rejects_it).1

link_run : Outcome (Unit {0} × Db)
link_run = link operator 1 30 12 (stored EvidenceStatus.verified)

links_it : succeeds link_run ≡ true
unfolding link_run link write_link lock_value_owner lock_item lock_model assert_active fields
links_it = refl

link-IsLinked_example :
    IsLinked 1 30 12 (stored EvidenceStatus.verified) (ran link_run links_it).0.1
unfolding link_run
link-IsLinked_example =
    link-IsLinked operator 1 30 12 (stored EvidenceStatus.verified) (ran link_run links_it).0.1
      (ran link_run links_it).1

abbrev issued : ReviewDownload
issued = record {
  evidence_id = 30;
  download_url = codes "https://store/";
  expires_at = 61002;
  expires_in_seconds = 60;
}

abbrev issued_db : Db
issued_db = record (stored EvidenceStatus.verified) {
  audit = event_of 1 "operator" "evidence.review_download_issued" 30 ∷ [];
}

downloads :
    review_download services clock 1 30 "operator" (quiet EvidenceStatus.verified)
    ≡ ok (issued, issued_db)
unfolding review_download issue assert_review_ready is_ready_for_review seconds_left load
    assert_current is_blank create_review_download_url
downloads = refl

review_download-IsIssued_example :
    IsIssued services 1002 1 30 "operator" (stored EvidenceStatus.verified) issued issued_db
review_download-IsIssued_example =
    review_download-IsIssued services clock 1 30 "operator" (quiet EvidenceStatus.verified) issued
      issued_db downloads

serve-IsMoved_example : IsMoved (quiet EvidenceStatus.pending_upload) finalised
serve-IsMoved_example =
    serve-IsMoved services clock new_id 1 "operator" (finalization 30 (some 60))
      (quiet EvidenceStatus.pending_upload) finalised
      (ap (λ (x : Ended EvidenceObject). x.written) finalises)
