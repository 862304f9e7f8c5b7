-- ===== src/Evidence/Download.antt =====
-- `assertReviewDownloadReady` and `reviewDownload` of
-- apps/api/src/common/storage/evidence-storage.service.ts.
pub mod Issuing
use codex_nieuw.Prelude.{
  ℕ, ◌+◌, ◌-◌, ◌*◌, ◌/◌, ◌≤◌, ◌<◌, ◌≡◌, refl, sym, ap, ◌∙◌, subst, String, Bool, true, false, not,
  ◌&&◌, ◌||◌, Option, none, some, List, [], ◌∷◌, ◌++◌, ltb, leb, ◌==◌, if◌then◌else◌, opt_eq,
  same_opt, is_some, arith, &&-split,
}
use codex_nieuw.Prelude.Outcome.{
  Outcome, ok, err, ◌>>=◌, ◌>>◌, >>=-eq-ok, require, require-eq-ok, found,
  evidence_review_download_not_ready, evidence_review_download_unavailable,
  evidence_review_version_mismatch, evidence_changed_retry, evidence_outside_validity,
}
use codex_nieuw.Json.{Text, codes, same_text, is_blank}
use codex_nieuw.Patterns.{starts_with}
use codex_nieuw.Store.Rows.{EvidenceObject, Db}
use codex_nieuw.Storage.Objects.{
  Services, ObjectHead, StorageAnswer, answered, failed, stored_version, create_review_download_url,
}
use codex_nieuw.Storage.Objects.Checking.{ok_ok}
use codex_nieuw.Evidence.{Views, event_of, load, assert_current}

-- The address that is issued, and until when it may be used.
pub record ReviewDownload : Type 0 where
  pub evidence_id : ℕ
  pub download_url : Text
  pub expires_at : ℕ
  pub expires_in_seconds : ℕ

-- `===` between two texts that may be missing
abbrev same_opt_text : Option Text → Option Text → Bool
same_opt_text none none = true
same_opt_text none (some t) = false
same_opt_text (some s) none = false
same_opt_text (some s) (some t) = same_text s t

module _ (s : Services) where
  -- `evidence.sha256` with its test, and what is compared with it
  abbrev is_attested : EvidenceObject → Bool
  is_attested e = elim e.sha256 [
    | none ↦ false
    | some sha256 ↦
        s.is_digest sha256
        && opt_eq e.storage_checksum (s.checksum sha256)
        && opt_eq e.malware_scan_sha256 sha256
  ]

  abbrev is_sized : EvidenceObject → Bool
  is_sized e = elim e.size_bytes [ none ↦ false | some n ↦ ltb 0 n && leb n 104857600 ]

  abbrev is_scanned : ℕ → EvidenceObject → Bool
  is_scanned now e =
      (elim e.malware_scanned_at [ none ↦ false | some t ↦ leb t now ])
      && (elim e.malware_scanner_version [
        | none ↦ false
        | some version ↦ starts_with (codes "ClamAV ") version
      ])

  abbrev is_versioned : EvidenceObject → Bool
  is_versioned e = elim e.storage_version_id [
    | none ↦ false
    | some version ↦ not (is_blank version) && not (same_text version (codes "null"))
  ]

  -- `objectKey.startsWith(…)`
  abbrev is_own_key : EvidenceObject → Bool
  is_own_key e =
      starts_with
        (codes "orgs/"
          ++ (s.print_id e.organisation_id
              ++ (codes "/evidence/" ++ (s.print_id e.id ++ codes "/"))))
        e.object_key

  -- The negated test of `assertReviewDownloadReady`.
  unfoldable pub is_ready_for_review : ℕ → EvidenceObject → Bool
  is_ready_for_review now e =
      is_some e.uploaded_at
      && is_attested e
      && is_sized e
      && is_scanned now e
      && is_versioned e
      && is_own_key e

  -- `assertReviewDownloadReady`; `now` is read again inside `assertCurrent`.
  unfoldable pub assert_review_ready : ℕ → ℕ → EvidenceObject → Outcome (Unit {0})
  assert_review_ready current now e = do
    assert_current current false e
    require (is_ready_for_review now e) evidence_review_download_not_ready

  -- `try { … } catch { throw … }` around the HEAD request
  abbrev pub head_of : StorageAnswer ObjectHead → Outcome ObjectHead
  head_of (answered head) = ok head
  head_of (failed status) = err evidence_review_download_unavailable

  abbrev pub head_matches : EvidenceObject → ObjectHead → Bool
  head_matches e head =
      same_opt_text head.version_id e.storage_version_id
      && same_opt head.content_length e.size_bytes
      && same_opt head.metadata_sha256 e.sha256

  abbrev pub is_same_object : EvidenceObject → EvidenceObject → Bool
  is_same_object current e =
      current.updated_at == e.updated_at
      && same_opt_text current.storage_version_id e.storage_version_id
      && same_opt current.sha256 e.sha256
      && same_text current.object_key e.object_key

  -- `Math.min(60, Math.floor((expiresAt - issuedAt) / 1000))`; below 1 it is refused, also where the
  -- difference is negative.
  unfoldable pub seconds_left : ℕ → Option ℕ → ℕ
  seconds_left issued none = 60
  seconds_left issued (some expires) =
      let left = (expires - issued) / 1000 in if ltb 60 left then 60 else left

  module _ (time : ℕ → ℕ) where
    -- The transaction of `reviewDownload`.
    unfoldable pub issue : ℕ → ℕ → String → EvidenceObject → Db → Outcome (ReviewDownload × Db)
    issue organisation_id id subject e db = do
      current ← load db organisation_id id none
      assert_review_ready (time 3) (time 2) current
      require (is_same_object current e) evidence_changed_retry
      let seconds = seconds_left (time 2) current.expires_at
      require (not (ltb seconds 1)) evidence_outside_validity
      version ← found current.storage_version_id evidence_review_download_unavailable
      url ←
          found (create_review_download_url s current.object_key version current.filename seconds)
            evidence_review_download_unavailable
      ok (
        record {
          evidence_id = id;
          download_url = url;
          expires_at = time 2 + seconds * 1000;
          expires_in_seconds = seconds;
        },
        record db {
          audit =
              db.audit
              ++ event_of organisation_id subject "evidence.review_download_issued" id ∷ [];
        },
      )

    -- `reviewDownload`
    unfoldable pub review_download : ℕ → ℕ → String → Views → Outcome (ReviewDownload × Db)
    review_download organisation_id id subject v = do
      e ← load v.loaded organisation_id id none
      assert_review_ready (time 0) (time 1) e
      head ← head_of (s.head e.object_key e.storage_version_id)
      require (head_matches e head) evidence_review_version_mismatch
      issue organisation_id id subject e v.final
