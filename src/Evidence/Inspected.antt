-- ===== src/Evidence/Inspected.antt =====
-- What a check of the bytes says of the object and its scan.
use codex_nieuw.Json.{Text}
use codex_nieuw.Prelude.{
  if◌then◌else◌, ℕ, ◌≡◌, refl, sym, [], ◌∷◌, ap, ◌∙◌, subst, inl, inr, Bool, true, false, Option,
  none, some, List, length, concat, is_some, ==_iff,
}
use codex_nieuw.Prelude.Outcome.{
  ok, >>=-eq-ok, require, require-eq-ok, found, upload_metadata_required,
  upload_content_hash_mismatch,
}
use codex_nieuw.Store.Rows.{EvidenceObject}
use codex_nieuw.Storage.Clamd.{Bytes}
use codex_nieuw.Storage.Scanner.{ScanResult, is_version, malware_scan_required}
use codex_nieuw.Storage.Objects.{Services, answered, is_truthy, Verification, verify_object_sha256}
use codex_nieuw.Storage.Objects.Checking.{
  IsServed, verify_object_sha256-IsServed, found-some, ok_ok,
}
use codex_nieuw.Passports.Data.{has_text}
use codex_nieuw.Evidence.{Checked}
use codex_nieuw.Evidence.Handlers.{inspect}

-- The store has served bytes for the object's key whose hash is the one of the row.
pub record IsStored (s : Services) (e : EvidenceObject) : Type 0 where
  pub etag : Text
  pub version : Option Text
  pub chunks : List Bytes
  pub served : s.get e.object_key etag version ≡ answered (some chunks)
  pub hashed : e.sha256 ≡ some (s.sha256 (concat chunks))
  pub sized : e.size_bytes ≡ some (length (concat chunks))

-- What a check of the bytes says: the object is stored, and was scanned where that is required.
pub record IsInspected (s : Services) (now : ℕ) (e : EvidenceObject) (c : Checked) : Type 0 where
  pub stored : IsStored s e
  pub scan_hash : is_some c.malware_scanned_at ≡ true → c.malware_scan_sha256 ≡ e.sha256
  pub unscanned : is_some c.malware_scanned_at ≡ false → malware_scan_required s.scanner ≡ false
  pub versioned :
      is_some c.malware_scanned_at ≡ true
      → (has_text c.storage_version_id ≡ true) × (has_text c.malware_scanner_version ≡ true)

pub checked_of : Services → Verification → Checked
checked_of s v = record {
  storage_checksum = s.checksum v.actual;
  storage_version_id = v.version_id;
  malware_scan_sha256 = if is_some v.scan.scanned_at then some v.actual else none;
  malware_scanned_at = v.scan.scanned_at;
  malware_scanner_version = v.scan.scanner_version;
}

pub true-false : {b : Bool} → b ≡ true → b ≡ false → ⊥
true-false h k = cc

pub scan_said :
    {r : ScanResult} {version : Text} {now : ℕ}
    → r ≡ record { scanner_version = some version; scanned_at = some now }
    → is_some r.scanned_at ≡ true
scan_said h = ap (λ (x : ScanResult). is_some x.scanned_at) h

has_text-truthy : (o : Option Text) → is_truthy o ≡ has_text o
has_text-truthy none = refl
has_text-truthy (some []) = refl
has_text-truthy (some (c ∷ t)) = refl

version-has_text : (version : Text) → is_version version ≡ true → has_text (some version) ≡ true
unfolding is_version
version-has_text [] h = absurd (true-false h refl)
version-has_text (c ∷ t) h = refl

pub scan_named :
    {r : ScanResult} {version : Text} {now : ℕ}
    → r ≡ record { scanner_version = some version; scanned_at = some now }
    → is_version version ≡ true
    → has_text r.scanner_version ≡ true
scan_named {version} h known =
    ap (λ (x : ScanResult). has_text x.scanner_version) h ∙ version-has_text version known

pub scan_silent :
    {r : ScanResult}
    → r ≡ record { scanner_version = none; scanned_at = none }
    → is_some r.scanned_at ≡ true
    → ⊥
scan_silent h k = true-false k (ap (λ (x : ScanResult). is_some x.scanned_at) h)

pub inspected :
    (s : Services) (now : ℕ) (e : EvidenceObject) (sha256 size : ℕ) (v : Verification)
    → e.sha256 ≡ some sha256
    → e.size_bytes ≡ some size
    → IsServed s e.object_key size now v
    → v.actual ≡ sha256
    → IsInspected s now e (checked_of s v)
unfolding checked_of
inspected s now e sha256 size v eh es served same = record {
  stored = record {
    etag = served.etag;
    version = v.version_id;
    chunks = served.chunks;
    served = served.served;
    hashed = eh ∙ ap some (sym same ∙ served.actual);
    sized = es ∙ ap some (sym served.sized);
  };
  scan_hash = λ on. rw on (ap some same ∙ sym eh);
  unscanned = λ off. elim served.scanned [
    | inl (free, none_) ↦ free
    | inr scanned ↦ absurd (true-false (scan_said scanned.clean.result) off)
  ];
  versioned = λ on. elim served.scanned [
    | inl (free, none_) ↦ absurd (scan_silent none_ on)
    | inr scanned ↦ (
      sym (has_text-truthy v.version_id) ∙ scanned.versioned,
      scan_named scanned.clean.result scanned.clean.known_version,
    )
  ];
}

pub inspect-IsInspected :
    (s : Services) (time : ℕ → ℕ) (uuid : ℕ → ℕ) (now : ℕ) (e : EvidenceObject) (c : Checked)
    → inspect s time uuid now e ≡ ok c
    → IsInspected s now e c
unfolding inspect checked_of
inspect-IsInspected s time uuid now e c h =
    let (sha256, e1, h1) = >>=-eq-ok (found e.sha256 upload_metadata_required) _ h in
    let (u2, e2, h2) = >>=-eq-ok (require (s.is_digest sha256) upload_metadata_required) _ h1 in
    let (size, e3, h3) = >>=-eq-ok (found e.size_bytes upload_metadata_required) _ h2 in
    let (v, e4, h4) =
      >>=-eq-ok (verify_object_sha256 s now e.object_key sha256 size e.storage_version_id) _ h3 in
    let (u5, e5, h5) = >>=-eq-ok (require v.matches upload_content_hash_mismatch) _ h4 in
    let (served, matching) =
      verify_object_sha256-IsServed s now e.object_key sha256 size e.storage_version_id v e4 in
    subst (λ (x : Checked). IsInspected s now e x) (ok_ok h5)
      (inspected s now e sha256 size v (found-some e.sha256 upload_metadata_required e1)
        (found-some e.size_bytes upload_metadata_required e3) served
        ((==_iff _ _).0 (sym matching ∙ require-eq-ok v.matches upload_content_hash_mismatch e5)))
