-- ===== src/Evidence/Download/Issuing.antt =====
-- How long, and for what, an address for a review lets somebody read a document.
use codex_nieuw.Prelude.{
  ℕ, ◌+◌, ◌*◌, ◌≤◌, ◌≡◌, refl, subst, String, true, false, not, Option, none, some, [], ◌∷◌, ◌++◌,
  ltb, arith,
}
use codex_nieuw.Prelude.Outcome.{
  ok, >>=-eq-ok, require, require-eq-ok, found, evidence_review_download_not_ready,
  evidence_review_download_unavailable, evidence_review_version_mismatch, evidence_changed_retry,
  evidence_outside_validity,
}
use codex_nieuw.Json.{Text}
use codex_nieuw.Store.Rows.{EvidenceObject, Db}
use codex_nieuw.Storage.Objects.{Services, download_name, create_review_download_url}
use codex_nieuw.Storage.Objects.Checking.{found-some, ok_ok}
use codex_nieuw.Evidence.{Views, event_of, load, assert_current}
use codex_nieuw.Evidence.Download.{
  ReviewDownload, is_ready_for_review, assert_review_ready, is_same_object, head_of, head_matches,
  seconds_left, issue, review_download,
}

-- What holds of an address that is issued: `current` is the row under its lock, `issued` the moment.
pub record IsIssued (s : Services) (issued : ℕ) (organisation_id id : ℕ) (subject : String)
    (db : Db) (d : ReviewDownload) (after : Db) : Type 0 where
  pub current : EvidenceObject
  pub version : Text
  pub locked : load db organisation_id id none ≡ ok current
  pub ready : is_ready_for_review s issued current ≡ true
  pub versioned : current.storage_version_id ≡ some version
  pub signed :
      s.sign current.object_key version (download_name current.filename) d.expires_in_seconds
      ≡ some d.download_url
  pub at_least : 1 ≤ d.expires_in_seconds
  pub at_most : d.expires_in_seconds ≤ 60
  pub ends : d.expires_at ≡ issued + d.expires_in_seconds * 1000
  pub in_time : (t : ℕ) → current.expires_at ≡ some t → d.expires_at ≤ t
  pub only_audit : after ≡ record db {
    audit = db.audit ++ event_of organisation_id subject "evidence.review_download_issued" id ∷ [];
  }

seconds_left-le :
    (s : Services) (issued : ℕ) (expires : Option ℕ) → seconds_left s issued expires ≤ 60
unfolding seconds_left
seconds_left-le s issued none = omega arith
seconds_left-le s issued (some t) = ground arith

seconds_left_in_time :
    (s : Services) (issued t : ℕ) (expires : Option ℕ)
    → expires ≡ some t
    → 1 ≤ seconds_left s issued expires
    → issued + seconds_left s issued expires * 1000 ≤ t
unfolding seconds_left
seconds_left_in_time s issued t none e h = absurd (ground arith)
seconds_left_in_time s issued t (some u) e h = ground arith

not-ltb : (n : ℕ) → not (ltb n 1) ≡ true → 1 ≤ n
not-ltb n h = ground arith

review_url_signed :
    (s : Services) (key version : Text) (filename : Option Text) (seconds : ℕ) (url : Text)
    → create_review_download_url s key version filename seconds ≡ some url
    → s.sign key version (download_name filename) seconds ≡ some url
unfolding create_review_download_url
review_url_signed s key version filename seconds url h = ground arith

module _ (s : Services) (time : ℕ → ℕ) where
  issue-IsIssued :
      (organisation_id id : ℕ) (subject : String) (e : EvidenceObject) (db : Db)
      (d : ReviewDownload) (after : Db)
      → issue s time organisation_id id subject e db ≡ ok (d, after)
      → IsIssued s (time 2) organisation_id id subject db d after
  unfolding issue assert_review_ready
  issue-IsIssued organisation_id id subject e db d after h =
      let (current, e1, h1) = >>=-eq-ok (load db organisation_id id none) _ h in
      let (u2, e2, h2) = >>=-eq-ok (assert_review_ready s (time 3) (time 2) current) _ h1 in
      let (u3, e3, h3) =
        >>=-eq-ok (require (is_same_object s current e) evidence_changed_retry) _ h2 in
      let seconds = seconds_left s (time 2) current.expires_at in
      let (u4, e4, h4) = >>=-eq-ok (require (not (ltb seconds 1)) evidence_outside_validity) _ h3 in
      let (version, e5, h5) =
        >>=-eq-ok (found current.storage_version_id evidence_review_download_unavailable) _ h4 in
      let (url, e6, h6) =
        >>=-eq-ok
          (found (create_review_download_url s current.object_key version current.filename seconds)
            evidence_review_download_unavailable)
          _ h5 in
      let (u7, e7, ready) = >>=-eq-ok (assert_current (time 3) false current) _ e2 in
      let positive : 1 ≤ seconds = not-ltb seconds (require-eq-ok _ evidence_outside_validity e4) in
      subst (λ (x : ReviewDownload × Db). IsIssued s (time 2) organisation_id id subject db x.0 x.1)
        (ok_ok h6)
        (record {
          current = current;
          version = version;
          locked = e1;
          ready = require-eq-ok _ evidence_review_download_not_ready ready;
          versioned = found-some current.storage_version_id evidence_review_download_unavailable e5;
          signed =
              review_url_signed s current.object_key version current.filename seconds url
                (found-some _ evidence_review_download_unavailable e6);
          at_least = positive;
          at_most = seconds_left-le s (time 2) current.expires_at;
          ends = refl;
          in_time =
              λ t expires. seconds_left_in_time s (time 2) t current.expires_at expires positive;
          only_audit = refl;
        })

  -- An address that is issued is for the object's own key and stored version, which the row under its
  -- lock shows to be finalised, hashed and scanned clean by then; it ends 1 to 60 seconds after its
  -- issue and not after the evidence expires; and nothing but one audit event is written.
  pub review_download-IsIssued :
      (organisation_id id : ℕ) (subject : String) (v : Views) (d : ReviewDownload) (after : Db)
      → review_download s time organisation_id id subject v ≡ ok (d, after)
      → IsIssued s (time 2) organisation_id id subject v.final d after
  unfolding review_download
  review_download-IsIssued organisation_id id subject v d after h =
      let (e, e1, h1) = >>=-eq-ok (load v.loaded organisation_id id none) _ h in
      let (u2, e2, h2) = >>=-eq-ok (assert_review_ready s (time 0) (time 1) e) _ h1 in
      let (head, e3, h3) = >>=-eq-ok (head_of s (s.head e.object_key e.storage_version_id)) _ h2 in
      let (u4, e4, h4) =
        >>=-eq-ok (require (head_matches s e head) evidence_review_version_mismatch) _ h3 in
      issue-IsIssued organisation_id id subject e v.final d after h4
