-- ===== src/Storage/Objects.antt =====
-- `verifyObjectSha256` and the two texts built for a download of
-- apps/api/src/common/storage/storage.service.ts. The object store, the daemon's sockets and SHA-256
-- are parameters (`Services`). A body arrives whole, in chunks; one that breaks off is left out.
pub mod Checking
use codex_nieuw.Prelude.{
  ℕ, ◌-◌, Bool, true, false, not, ◌&&◌, ◌||◌, Option, none, some, List, [], ◌∷◌, ◌++◌, ltb, leb,
  ◌==◌, if◌then◌else◌, length, drop, concat, opt_eq, is_some, any,
}
use codex_nieuw.Prelude.Outcome.{
  Outcome, ok, err, ◌>>=◌, ◌>>◌, require, found, upload_size_mismatch, upload_metadata_required,
  evidence_storage_version_required, upload_not_found, upload_changed_during_verification,
  storage_failed,
}
use codex_nieuw.Json.{Text, codes, same_text, is_blank}
use codex_nieuw.Patterns.{is_digit}
use codex_nieuw.Storage.Clamd.{Bytes, SocketEvent}
use codex_nieuw.Storage.Scanner.{ScannerConfig, ScanResult, is_clamav, scan}

-- What the code reads of the answer to a HEAD request.
pub record ObjectHead : Type 0 where
  pub content_length : Option ℕ
  pub etag : Option Text
  pub version_id : Option Text
  pub metadata_sha256 : Option ℕ

-- An answer of the store, or the HTTP status of its error.
pub data StorageAnswer (A : Type 0) : Type 0 where
  answered : A → StorageAnswer A
  failed : ℕ → StorageAnswer A

-- `print_id` is a UUID as text, `is_digest` the test for 64 hexadecimal digits, `sign` the signing of an
-- address for a key, a version, a file name and a time to live, which may fail.
pub record Services : Type 0 where
  pub scanner : ScannerConfig
  pub decode : Bytes → Text
  pub number : Text → Option ℕ
  pub version_events : List SocketEvent
  pub stream_events : List SocketEvent
  pub head : Text → Option Text → StorageAnswer ObjectHead
  pub get : Text → Text → Option Text → StorageAnswer (Option (List Bytes))
  pub sha256 : Bytes → ℕ
  pub checksum : ℕ → ℕ
  pub is_digest : ℕ → Bool
  pub print_id : ℕ → Text
  pub sign : Text → Text → Text → ℕ → Option Text

-- What `verifyObjectSha256` returns.
pub record Verification : Type 0 where
  pub matches : Bool
  pub actual : ℕ
  pub scan : ScanResult
  pub version_id : Option Text

-- The `catch`: an error of the store by its status.
abbrev pub of_answer : {A : Type 0} → StorageAnswer A → Outcome A
of_answer (answered a) = ok a
of_answer (failed status) =
    if status == 404
    then err upload_not_found
    else if status == 412
    then err upload_changed_during_verification
    else err storage_failed

-- `Boolean(value)` of a text that may be missing.
abbrev pub is_truthy : Option Text → Bool
is_truthy none = false
is_truthy (some []) = false
is_truthy (some (c ∷ t)) = true

-- `head.VersionId && head.VersionId !== 'null' ? head.VersionId : null`
abbrev pub stored_version : Option Text → Option Text
stored_version none = none
stored_version (some []) = none
stored_version (some (c ∷ t)) = if same_text (c ∷ t) (codes "null") then none else some (c ∷ t)

unfoldable pub verify_object_sha256 :
    Services → ℕ → Text → ℕ → ℕ → Option Text → Outcome Verification
verify_object_sha256 s now key expected expected_size version = do
  head ← of_answer (s.head key version)
  require (opt_eq head.content_length expected_size) upload_size_mismatch
  require (is_truthy head.etag) upload_metadata_required
  require (not (is_clamav s.scanner.scanner && not (is_some (stored_version head.version_id))))
      evidence_storage_version_required
  etag ← found head.etag upload_metadata_required
  result ← of_answer (s.get key etag (stored_version head.version_id))
  body ← found result upload_metadata_required
  scanned ← scan s.decode s.number s.scanner now s.version_events s.stream_events body
  require (length (concat body) == expected_size) upload_size_mismatch
  ok record {
    matches = s.sha256 (concat body) == expected;
    actual = s.sha256 (concat body);
    scan = scanned;
    version_id = stored_version head.version_id;
  }

-- `/[a-zA-Z0-9._-]/`
abbrev is_safe_char : ℕ → Bool
is_safe_char c =
    (leb 97 c && leb c 122)
    || (leb 65 c && leb c 90)
    || is_digit c
    || (c == 46)
    || (c == 95)
    || (c == 45)

-- `filename.replace(/[^a-zA-Z0-9._-]+/g, '_')`; the flag says that the last character was replaced.
abbrev replace_unsafe : Bool → Text → Text
replace_unsafe in_run [] = []
replace_unsafe in_run (c ∷ t) =
    let kept = replace_unsafe false t in
    let dropped = replace_unsafe true t in
    if is_safe_char c then c ∷ kept else if in_run then dropped else 95 ∷ dropped

abbrev last_180 : Text → Text
last_180 t = drop (length t - 180) t

-- `… .slice(-180) || 'evidence.bin'`
unfoldable pub safe_filename : Text → Text
safe_filename t = elim (last_180 (replace_unsafe false t)) [
  | [] ↦ codes "evidence.bin"
  | c ∷ cs ↦ c ∷ cs
]

-- `evidenceKey`
unfoldable pub evidence_key : Services → ℕ → ℕ → Text → Text
evidence_key s organisation_id id filename =
    codes "orgs/"
    ++ (s.print_id organisation_id
        ++ (codes "/evidence/" ++ (s.print_id id ++ (codes "/" ++ safe_filename filename))))

-- The file name of a download, with its default.
abbrev pub download_name : Option Text → Text
download_name none = safe_filename (codes "evidence.bin")
download_name (some []) = safe_filename (codes "evidence.bin")
download_name (some (c ∷ t)) = safe_filename (c ∷ t)

-- `createReviewDownloadUrl`; none where it throws.
unfoldable pub create_review_download_url : Services → Text → Text → Option Text → ℕ → Option Text
create_review_download_url s key version filename expires_in =
    if is_blank version || same_text version (codes "null")
    then none
    else if ltb expires_in 1 || ltb 60 expires_in
    then none
    else s.sign key version (download_name filename) expires_in
