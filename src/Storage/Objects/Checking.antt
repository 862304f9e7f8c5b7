-- ===== src/Storage/Objects/Checking.antt =====
-- What a check of a stored object without an exception has established.
use codex_nieuw.Prelude.{
  ℕ, ◌≡◌, refl, ap, ◌∙◌, subst, ◌⊎◌, inl, inr, Bool, true, false, not, ◌&&◌, Option, none, some,
  List, [], ◌∷◌, Bool-cases, ◌==◌, length, concat, opt_eq, is_some, arith, ==_iff,
}
use codex_nieuw.Prelude.Outcome.{
  Code, ok, >>=-eq-ok, require, require-eq-ok, found, upload_size_mismatch,
  upload_metadata_required, evidence_storage_version_required,
}
use codex_nieuw.Json.{Text, codes, same_text}
use codex_nieuw.Storage.Clamd.{Bytes}
use codex_nieuw.Storage.Scanner.{ScanResult, is_clamav, malware_scan_required, scan}
use codex_nieuw.Storage.Scanner.Clean.{IsClean, scan-IsClean}
use codex_nieuw.Storage.Objects.{
  Services, StorageAnswer, answered, failed, Verification, of_answer, is_truthy, stored_version,
  verify_object_sha256,
}

pub found-some {ℓ} : {A : Type ℓ} (o : Option A) (c : Code) {a : A} → found o c ≡ ok a → o ≡ some a
found-some none c h = ground arith
found-some (some b) c h = ground arith

of_answer-eq-ok :
    {A : Type 0} (answer : StorageAnswer A) {a : A} → of_answer answer ≡ ok a → answer ≡ answered a
of_answer-eq-ok (answered b) h = ground arith
of_answer-eq-ok (failed status) h = ground arith

-- A scan that was needed has happened, on a version that is kept.
pub record IsScanned (s : Services) (chunks : List Bytes) (now : ℕ) (v : Verification)
    : Type 0 where
  pub clean : IsClean s.decode s.stream_events chunks now v.scan
  pub versioned : is_truthy v.version_id ≡ true

-- The object that the store served under the checked version, by its bytes.
pub record IsServed (s : Services) (key : Text) (size now : ℕ) (v : Verification) : Type 0 where
  pub etag : Text
  pub chunks : List Bytes
  pub served : s.get key etag v.version_id ≡ answered (some chunks)
  pub actual : v.actual ≡ s.sha256 (concat chunks)
  pub sized : length (concat chunks) ≡ size
  pub scanned :
      ((malware_scan_required s.scanner ≡ false)
        × (v.scan ≡ record { scanner_version = none; scanned_at = none }))
      ⊎ IsScanned s chunks now v

abbrev version_kept : Services → Option Text → Bool
version_kept s version = not (is_clamav s.scanner.scanner && not (is_some version))

stored_version-truthy :
    (o : Option Text) → is_truthy (stored_version o) ≡ is_some (stored_version o)
stored_version-truthy none = refl
stored_version-truthy (some []) = refl
stored_version-truthy (some (c ∷ t)) = elim (Bool-cases (same_text (c ∷ t) (codes "null"))) [
  | inl null_ ↦ rw null_ refl
  | inr other ↦ rw other refl
]

IsScanned-case :
    (s : Services) (chunks : List Bytes) (now : ℕ) (v : Verification)
    → version_kept s v.version_id ≡ true
    → is_truthy v.version_id ≡ is_some v.version_id
    → scan s.decode s.number s.scanner now s.version_events s.stream_events chunks ≡ ok v.scan
    → ((malware_scan_required s.scanner ≡ false)
        × (v.scan ≡ record { scanner_version = none; scanned_at = none }))
      ⊎ IsScanned s chunks now v
IsScanned-case s chunks now v kept plain h =
    elim (scan-IsClean s.decode s.number s.scanner now s.version_events s.stream_events chunks
      v.scan h) [
        | inl off ↦ inl off
        | inr (clamav, clean) ↦ inr (record { clean = clean; versioned = ground arith })
      ]

pub ok_ok {ℓ} : {A : Type ℓ} {a b : A} → ok a ≡ ok b → a ≡ b
ok_ok h = cc

verification_of : Services → ℕ → Option Text → List Bytes → ScanResult → Verification
verification_of s expected version chunks scanned = record {
  matches = s.sha256 (concat chunks) == expected;
  actual = s.sha256 (concat chunks);
  scan = scanned;
  version_id = version;
}

IsServed-case :
    (s : Services) (now : ℕ) (key : Text) (expected size : ℕ) (version : Option Text) (etag : Text)
    (chunks : List Bytes) (scanned : ScanResult)
    → s.get key etag version ≡ answered (some chunks)
    → (length (concat chunks) == size) ≡ true
    → version_kept s version ≡ true
    → is_truthy version ≡ is_some version
    → scan s.decode s.number s.scanner now s.version_events s.stream_events chunks ≡ ok scanned
    → let v = verification_of s expected version chunks scanned in
      IsServed s key size now v × (v.matches ≡ (v.actual == expected))
unfolding verification_of
IsServed-case s now key expected size version etag chunks scanned got sized kept plain h = (
  record {
    etag = etag;
    chunks = chunks;
    served = got;
    actual = refl;
    sized = (==_iff _ _).0 sized;
    scanned = IsScanned-case s chunks now _ kept plain h;
  },
  refl,
)

-- A check that throws nothing is about bytes that the store served under the version that it names:
-- they have the expected size, `actual` is their hash, `matches` says whether that is the expected
-- one, and they were scanned where scanning is required.
pub verify_object_sha256-IsServed :
    (s : Services) (now : ℕ) (key : Text) (expected size : ℕ) (version : Option Text)
    (v : Verification)
    → verify_object_sha256 s now key expected size version ≡ ok v
    → IsServed s key size now v × (v.matches ≡ (v.actual == expected))
unfolding verify_object_sha256 verification_of
verify_object_sha256-IsServed s now key expected size version v h =
    let (head, e1, h1) = >>=-eq-ok (of_answer (s.head key version)) _ h in
    let (u2, e2, h2) =
      >>=-eq-ok (require (opt_eq head.content_length size) upload_size_mismatch) _ h1 in
    let (u3, e3, h3) = >>=-eq-ok (require (is_truthy head.etag) upload_metadata_required) _ h2 in
    let (u4, e4, h4) =
      >>=-eq-ok
        (require (version_kept s (stored_version head.version_id))
          evidence_storage_version_required)
        _ h3 in
    let (etag, e5, h5) = >>=-eq-ok (found head.etag upload_metadata_required) _ h4 in
    let (result, e6, h6) =
      >>=-eq-ok (of_answer (s.get key etag (stored_version head.version_id))) _ h5 in
    let (chunks, e7, h7) = >>=-eq-ok (found result upload_metadata_required) _ h6 in
    let (scanned, e8, h8) =
      >>=-eq-ok (scan s.decode s.number s.scanner now s.version_events s.stream_events chunks) _
        h7 in
    let (u9, e9, h9) =
      >>=-eq-ok (require (length (concat chunks) == size) upload_size_mismatch) _ h8 in
    let body = of_answer-eq-ok (s.get key etag _) e6 in
    subst (λ (w : Verification). IsServed s key size now w × (w.matches ≡ (w.actual == expected)))
      (ok_ok h9)
      (IsServed-case s now key expected size (stored_version head.version_id) etag chunks scanned
        (body ∙ ap answered (found-some result upload_metadata_required e7))
        (require-eq-ok _ upload_size_mismatch e9)
        (require-eq-ok _ evidence_storage_version_required e4)
        (stored_version-truthy head.version_id) e8)
