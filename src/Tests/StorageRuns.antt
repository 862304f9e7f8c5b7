-- ===== src/Tests/StorageRuns.antt =====
-- An object store and a virus scanner that answer, and what a check of an object then finds.
use codex_nieuw.Prelude.{
  ℕ, ◌≡◌, ◌⊎◌, refl, arith, true, false, none, some, List, [], ◌∷◌, ◌++◌, length, ◌≤◌,
}
use codex_nieuw.Prelude.Outcome.{ok}
use codex_nieuw.Json.{codes}
use codex_nieuw.Storage.Clamd.{
  Bytes, resolved, SocketEvent, sent, received, ended, closed, on_event, on_data, run_socket,
  clamd_request,
}
use codex_nieuw.Storage.Clamd.Events.{IsReply}
use codex_nieuw.Storage.Clamd.Settling.{clamd_request-IsReply}
use codex_nieuw.Storage.Scanner.{
  ScannerConfig, ScanResult, malware_scan_required, is_clamav, frames, is_version, is_found, judge,
  integer, reply, limits, scan_clamav, scan,
}
use codex_nieuw.Storage.Scanner.Framing.{unframe, frames-unframe}
use codex_nieuw.Storage.Scanner.Clean.{IsClean, scan-IsClean}
use codex_nieuw.Storage.Objects.{Services, answered}

abbrev pub stream_events : List SocketEvent
stream_events = sent ∷ received (codes "stream: OK" ++ 0 ∷ []) ∷ ended ∷ closed ∷ []

abbrev pub version_events : List SocketEvent
version_events = sent ∷ received (codes "ClamAV 1.4.1/2/M" ++ 0 ∷ []) ∷ ended ∷ closed ∷ []

answers : clamd_request stream_events ≡ some (resolved (codes "stream: OK"))
unfolding clamd_request run_socket on_event on_data
answers = refl

clamd_request-IsReply_example : IsReply stream_events (codes "stream: OK")
clamd_request-IsReply_example = clamd_request-IsReply stream_events (codes "stream: OK") answers

abbrev chunks : List Bytes
chunks = (7 ∷ 8 ∷ []) ∷ [] ∷ (9 ∷ []) ∷ []

abbrev framed : Bytes
framed = 0 ∷ 0 ∷ 0 ∷ 2 ∷ 7 ∷ 8 ∷ 0 ∷ 0 ∷ 0 ∷ 1 ∷ 9 ∷ 0 ∷ 0 ∷ 0 ∷ 0 ∷ []

frames_them : frames 5 0 chunks ≡ some framed
unfolding frames
frames_them = refl

frames-unframe_example : (unframe 4 framed ≡ some (7 ∷ 8 ∷ 9 ∷ [])) × (3 ≤ 5)
frames-unframe_example = frames-unframe 5 chunks framed (omega arith) frames_them

abbrev pub scanner : ScannerConfig
scanner = record {
  scanner = some (codes "clamav");
  production = true;
  host = some (codes "clamd");
  port = none;
  timeout_ms = none;
  max_bytes = none;
}

abbrev clean : ScanResult
clean = record { scanner_version = some (codes "ClamAV 1.4.1/2/M"); scanned_at = some 1001 }

abbrev same_bytes : Bytes → List ℕ
same_bytes b = b

scans : scan same_bytes (λ t. none) scanner 1001 version_events stream_events chunks ≡ ok clean
unfolding scan scan_clamav limits integer reply judge is_version is_found frames clamd_request
    run_socket on_event on_data
scans = refl

scan-IsClean_example :
    ((malware_scan_required scanner ≡ false)
      × (clean ≡ record { scanner_version = none; scanned_at = none }))
    ⊎ ((is_clamav scanner.scanner ≡ true) × IsClean same_bytes stream_events chunks 1001 clean)
scan-IsClean_example =
    scan-IsClean same_bytes (λ t. none) scanner 1001 version_events stream_events chunks clean scans

abbrev pub services : Services
services = record {
  scanner = scanner;
  decode = same_bytes;
  number = λ t. none;
  version_events = version_events;
  stream_events = stream_events;
  head = λ key version. answered (record {
    content_length = some 3;
    etag = some (codes "e");
    version_id = some (codes "v");
    metadata_sha256 = some 3;
  });
  get = λ key etag version. answered (some ((7 ∷ 8 ∷ 9 ∷ []) ∷ []));
  sha256 = length;
  checksum = λ n. n;
  is_digest = λ n. true;
  print_id = λ n. n ∷ [];
  sign = λ key version filename seconds. some (codes "https://store/");
}
