-- ===== src/Storage/Scanner.antt =====
-- `MalwareScannerService.scan` of apps/api/src/common/storage/malware-scanner.service.ts. The two
-- requests to the daemon are given by the events on their sockets; `decode` is the reading of UTF-8
-- and `number` is `Number` of a setting, where that is a natural number.
pub mod Framing
pub mod Clean
use codex_nieuw.Prelude.{
  ℕ, zero, suc, ◌+◌, ◌-◌, ◌/◌, ◌%◌, Bool, true, false, not, ◌&&◌, ◌||◌, Option, none, some, List,
  [], ◌∷◌, ◌++◌, ltb, leb, ◌==◌, if◌then◌else◌, length, take, drop, is_some, map,
}
use codex_nieuw.Prelude.Outcome.{
  Outcome, ok, err, ◌>>=◌, ◌>>◌, require, malware_scanner_required, malware_scan_unavailable,
  evidence_malware_detected,
}
use codex_nieuw.Json.{Text, codes, same_text}
use codex_nieuw.Patterns.{
  starts_with, ends_with, is_line, is_line_end, after_char, after_digits, digits_then,
}
use codex_nieuw.Storage.Clamd.{
  Bytes, Settlement, resolved, rejected, SocketEvent, sent, send_failed, clamd_request,
}

-- The settings, by the texts of the environment.
pub record ScannerConfig : Type 0 where
  pub scanner : Option Text
  pub production : Bool
  pub host : Option Text
  pub port : Option Text
  pub timeout_ms : Option Text
  pub max_bytes : Option Text

-- `MalwareScanResult`
pub record ScanResult : Type 0 where
  pub scanner_version : Option Text
  pub scanned_at : Option ℕ

-- `config.get('MALWARE_SCANNER') || 'disabled'`
abbrev pub mode_of : Option Text → Text
mode_of none = codes "disabled"
mode_of (some []) = codes "disabled"
mode_of (some (c ∷ t)) = c ∷ t

-- `env.MALWARE_SCANNER === 'clamav'`
abbrev pub is_clamav : Option Text → Bool
is_clamav none = false
is_clamav (some t) = same_text t (codes "clamav")

unfoldable pub malware_scan_required : ScannerConfig → Bool
malware_scan_required c = c.production || is_clamav c.scanner

-- `Buffer.alloc(4)` and `writeUInt32BE`, for a length below 2 ^ 32
abbrev pub be32 : ℕ → Bytes
be32 n = (n / 0x1000000) % 256 ∷ (n / 0x10000) % 256 ∷ (n / 0x100) % 256 ∷ n % 256 ∷ []

-- The bytes that the callback of INSTREAM writes after the command; none where it throws.
unfoldable pub frames : ℕ → ℕ → List Bytes → Option Bytes
frames maximum length_so_far [] = some (be32 0)
frames maximum length_so_far (chunk ∷ chunks) =
    let rest = frames maximum (length_so_far + length chunk) chunks in
    if ltb maximum (length_so_far + length chunk) then none else elim rest [
      | none ↦ none
      | some bytes ↦
          if length chunk == 0 then some bytes else some (be32 (length chunk) ++ (chunk ++ bytes))
    ]

-- A callback that throws never ends the sending.
abbrev pub with_sending : Bool → SocketEvent → SocketEvent
with_sending true e = e
with_sending false sent = send_failed
with_sending false e = e

-- `/^ClamAV \d+\.\d+\.\d+\/\d+\/.+$/`
unfoldable pub is_version : Text → Bool
is_version t =
    starts_with (codes "ClamAV ") t
    && (elim (after_char 47 (
        digits_then (
          after_char 47 (
            digits_then
              (after_char 46 (digits_then (after_char 46 (after_digits (drop 7 t))))))))) [
                | none ↦ false
                | some rest ↦ is_line rest
              ])

-- `/^stream: .+ FOUND$/`
unfoldable pub is_found : Text → Bool
is_found t =
    starts_with (codes "stream: ") t
    && ends_with (codes " FOUND") t
    && ltb 14 (length t)
    && is_line (take (length t - 14) (drop 8 t))

abbrev pub has_host : ScannerConfig → Bool
has_host c = elim c.host [ none ↦ false | some [] ↦ false | some (h ∷ t) ↦ true ]

-- The answer to INSTREAM.
unfoldable pub judge : ℕ → Text → Option Text → Outcome ScanResult
judge now version none = err malware_scan_unavailable
judge now version (some result) = do
  require (not (is_found result)) evidence_malware_detected
  require (same_text result (codes "stream: OK")) malware_scan_unavailable
  ok record { scanner_version = some version; scanned_at = some now }

module _ (decode : Bytes → Text) (number : Text → Option ℕ) where
  -- `integer`; none where it throws
  unfoldable pub integer : Option Text → ℕ → ℕ → Option ℕ
  integer none fallback maximum =
      if ltb fallback 1 || ltb maximum fallback then none else some fallback
  integer (some t) fallback maximum = elim (number t) [
    | none ↦ none
    | some n ↦ if ltb n 1 || ltb maximum n then none else some n
  ]

  -- The text that a request resolves to.
  unfoldable pub reply : List SocketEvent → Option Text
  reply events = elim (clamd_request events) [
    | none ↦ none
    | some (resolved value) ↦ some (decode value)
    | some (rejected fault) ↦ none
  ]

  -- What is thrown before the second request, all of which is caught.
  unfoldable pub limits : ScannerConfig → Option (ℕ × ℕ × ℕ)
  limits c = elim (integer c.port 3310 65535) [
    | none ↦ none
    | some port ↦ elim (integer c.timeout_ms 30000 120000) [
      | none ↦ none
      | some timeout ↦ elim (integer c.max_bytes 104857600 104857600) [
        | none ↦ none
        | some maximum ↦ some (port, timeout, maximum)
      ]
    ]
  ]

  -- The `try` of `scan`, with its `catch`.
  unfoldable pub scan_clamav :
      ScannerConfig → ℕ → List SocketEvent → List SocketEvent → List Bytes → Outcome ScanResult
  scan_clamav c now version_events stream_events chunks = elim (limits c) [
    | none ↦ err malware_scan_unavailable
    | some (port, timeout, maximum) ↦ elim (reply version_events) [
      | none ↦ err malware_scan_unavailable
      | some version ↦ do
        require (has_host c && is_version version) malware_scan_unavailable
        judge now version
            (reply (map (with_sending (is_some (frames maximum 0 chunks))) stream_events))
    ]
  ]

  -- `scan`
  unfoldable pub scan :
      ScannerConfig → ℕ → List SocketEvent → List SocketEvent → List Bytes → Outcome ScanResult
  scan c now version_events stream_events chunks =
      if same_text (mode_of c.scanner) (codes "disabled") && not c.production
      then ok record { scanner_version = none; scanned_at = none }
      else if not (same_text (mode_of c.scanner) (codes "clamav"))
      then err malware_scanner_required
      else scan_clamav c now version_events stream_events chunks
