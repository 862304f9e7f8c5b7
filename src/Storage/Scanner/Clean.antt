-- ===== src/Storage/Scanner/Clean.antt =====
-- What a scan without an exception has established.
use mathlib.Core.Bool.{false≢true}
use codex_nieuw.Prelude.{
  ℕ, ◌≤◌, ◌≡◌, refl, ap, ◌∙◌, ◌⊎◌, inl, inr, Bool, true, false, not, ◌&&◌, ◌||◌, Option, none, some,
  List, [], ◌∷◌, ◌++◌, map, arith, Bool-cases, Option-cases, is_some, &&-split,
}
use codex_nieuw.Prelude.Outcome.{ok, >>=-eq-ok, require, require-eq-ok, malware_scan_unavailable}
use codex_nieuw.Json.{Text, codes, same_text}
use codex_nieuw.Storage.Clamd.{
  Bytes, resolved, rejected, SocketEvent, timed_out, socket_failed, ended, closed, sent,
  send_failed, received, clamd_request,
}
use codex_nieuw.Storage.Clamd.Events.{has_sent, IsReply}
use codex_nieuw.Storage.Clamd.Settling.{clamd_request-IsReply}
use codex_nieuw.Storage.Scanner.{
  ScannerConfig, ScanResult, is_clamav, mode_of, frames, with_sending, is_version, integer, reply,
  limits, has_host, judge, scan_clamav, scan, malware_scan_required,
}

none-some {ℓ} : {A : Type ℓ} {a : A} → ¬ (none ≡ some a)
none-some h = cc

some-some {ℓ} : {A : Type ℓ} {a b : A} → some a ≡ some b → a ≡ b
some-some h = cc

some_of {ℓ} : {A : Type ℓ} (o : Option A) → is_some o ≡ true → (a : A) × (o ≡ some a)
some_of none h = absurd (false≢true h)
some_of (some a) h = (a, refl)

-- A scan by the daemon: every byte of every chunk was sent within the limit, and the daemon's own
-- answer to them is the one that means clean.
pub record IsClean (decode : Bytes → Text) (stream_events : List SocketEvent) (chunks : List Bytes)
    (now : ℕ) (r : ScanResult) : Type 0 where
  pub maximum : ℕ
  pub written : Bytes
  pub version : Text
  pub value : Bytes
  pub limited : maximum ≤ 104857600
  pub sent_all : frames maximum 0 chunks ≡ some written
  pub answered : IsReply stream_events value
  pub clean : same_text (decode value) (codes "stream: OK") ≡ true
  pub known_version : is_version version ≡ true
  pub result : r ≡ record { scanner_version = some version; scanned_at = some now }

has_sent-append : (xs ys : List SocketEvent) → has_sent (xs ++ ys) ≡ (has_sent xs || has_sent ys)
has_sent-append [] ys = refl
has_sent-append (received chunk ∷ xs) ys = has_sent-append xs ys
has_sent-append (timed_out ∷ xs) ys = has_sent-append xs ys
has_sent-append (socket_failed ∷ xs) ys = has_sent-append xs ys
has_sent-append (ended ∷ xs) ys = has_sent-append xs ys
has_sent-append (closed ∷ xs) ys = has_sent-append xs ys
has_sent-append (sent ∷ xs) ys = refl
has_sent-append (send_failed ∷ xs) ys = has_sent-append xs ys

never_sent : (events : List SocketEvent) → has_sent (map (with_sending false) events) ≡ false
never_sent [] = refl
never_sent (received chunk ∷ xs) = never_sent xs
never_sent (timed_out ∷ xs) = never_sent xs
never_sent (socket_failed ∷ xs) = never_sent xs
never_sent (ended ∷ xs) = never_sent xs
never_sent (closed ∷ xs) = never_sent xs
never_sent (sent ∷ xs) = never_sent xs
never_sent (send_failed ∷ xs) = never_sent xs

with_sending_same : (events : List SocketEvent) → map (with_sending true) events ≡ events
with_sending_same [] = refl
with_sending_same (e ∷ events) = ap (λ t. e ∷ t) (with_sending_same events)

-- A reply comes only where the callback has written everything.
IsReply-written :
    (written : Bool) (events : List SocketEvent) (value : Bytes)
    → clamd_request (map (with_sending written) events) ≡ some (resolved value)
    → (written ≡ true) × IsReply events value
IsReply-written true events value h =
    (refl, rw (with_sending_same events) at (clamd_request-IsReply _ value h))
IsReply-written false events value h =
    let (before, after, split, answer) = clamd_request-IsReply _ value h in
    let both = ap has_sent split ∙ has_sent-append before (ended ∷ after) in
    absurd (ground (arith, both, never_sent events, answer.all_sent))

judge_clean :
    (now : ℕ) (version : Text) (answer : Option Text) (r : ScanResult)
    → judge now version answer ≡ ok r
    → (t : Text) × (answer ≡ some t)
      × (same_text t (codes "stream: OK") ≡ true)
      × (r ≡ record { scanner_version = some version; scanned_at = some now })
unfolding judge
judge_clean now version none r h = absurd (ground arith)
judge_clean now version (some t) r h = (t, refl, ground arith, ground arith)

clamav_mode :
    (setting : Option Text)
    → same_text (mode_of setting) (codes "clamav") ≡ true
    → is_clamav setting ≡ true
clamav_mode none h = absurd (ground arith)
clamav_mode (some []) h = absurd (ground arith)
clamav_mode (some (x ∷ t)) h = h

disabled_mode :
    (setting : Option Text)
    → same_text (mode_of setting) (codes "disabled") ≡ true
    → is_clamav setting ≡ false
disabled_mode none h = refl
disabled_mode (some []) h = refl
disabled_mode (some (x ∷ t)) h = ground arith

not_required :
    (c : ScannerConfig)
    → (same_text (mode_of c.scanner) (codes "disabled") && not c.production) ≡ true
    → malware_scan_required c ≡ false
unfolding malware_scan_required
not_required c h =
    let (mode, free) = &&-split (same_text (mode_of c.scanner) (codes "disabled")) _ h in
    ground (arith, disabled_mode c.scanner mode)

module _ (decode : Bytes → Text) (number : Text → Option ℕ) where
  reply_resolved :
      (events : List SocketEvent) (t : Text)
      → reply decode number events ≡ some t
      → (value : Bytes) × (clamd_request events ≡ some (resolved value)) × (decode value ≡ t)
  unfolding reply
  reply_resolved events t h = elim (Option-cases (clamd_request events)) [
    | inl none_ ↦ absurd (none-some (rw (none_, reply) at h))
    | inr (resolved value, e) ↦ (value, e, some-some (rw (e, reply) at h))
    | inr (rejected fault, e) ↦ absurd (none-some (rw (e, reply) at h))
  ]

  integer_bound :
      (setting : Option Text) (fallback maximum : ℕ) {n : ℕ}
      → integer decode number setting fallback maximum ≡ some n
      → n ≤ maximum
  unfolding integer
  integer_bound none fallback maximum h = ground arith
  integer_bound (some t) fallback maximum h = ground arith

  limits_bound :
      (c : ScannerConfig) (port timeout maximum : ℕ)
      → limits decode number c ≡ some (port, timeout, maximum)
      → maximum ≤ 104857600
  unfolding limits
  limits_bound c port timeout maximum h =
      ground (arith, integer_bound c.max_bytes 104857600 104857600 {n = maximum})

  scan_clamav-IsClean :
      (c : ScannerConfig) (now : ℕ) (version_events stream_events : List SocketEvent)
      (chunks : List Bytes) (r : ScanResult)
      → scan_clamav decode number c now version_events stream_events chunks ≡ ok r
      → IsClean decode stream_events chunks now r
  unfolding scan_clamav
  scan_clamav-IsClean c now ve se chunks r h = elim (Option-cases (limits decode number c)) [
    | inl none_ ↦ absurd (ground arith)
    | inr ((port, timeout, maximum), set) ↦ elim (Option-cases (reply decode number ve)) [
      | inl none_ ↦ absurd (ground arith)
      | inr (version, said) ↦
          let judged =
            >>=-eq-ok (require (has_host c && is_version version) malware_scan_unavailable) _
              (rw (set, said, scan_clamav) at h) in
          let answers = judge_clean now version _ r judged.2 in
          let (value, resolves, decoded) = reply_resolved _ answers.0 answers.1 in
          let wrote = IsReply-written _ se value resolves in
          let (written, all) = some_of (frames maximum 0 chunks) wrote.0 in
          record {
            maximum = maximum;
            written = written;
            version = version;
            value = value;
            limited = limits_bound c port timeout maximum set;
            sent_all = all;
            answered = wrote.1;
            clean = rw decoded answers.2;
            known_version =
                (&&-split (has_host c) _ (require-eq-ok _ malware_scan_unavailable judged.1)).1;
            result = answers.3;
          }
    ]
  ]

  -- A scan that throws nothing either was not required and says that it did not happen, or is the
  -- daemon's: it is configured, a version of it is known, it was sent every byte of every chunk, at
  -- most 100 megabytes, and its whole answer after that is the one for a clean stream.
  pub scan-IsClean :
      (c : ScannerConfig) (now : ℕ) (version_events stream_events : List SocketEvent)
      (chunks : List Bytes) (r : ScanResult)
      → scan decode number c now version_events stream_events chunks ≡ ok r
      → ((malware_scan_required c ≡ false)
          × (r ≡ record { scanner_version = none; scanned_at = none }))
        ⊎ ((is_clamav c.scanner ≡ true) × IsClean decode stream_events chunks now r)
  unfolding scan malware_scan_required
  scan-IsClean c now ve se chunks r h =
      elim (Bool-cases (same_text (mode_of c.scanner) (codes "disabled") && not c.production)) [
        | inl off ↦ inl (not_required c off, ground arith)
        | inr on ↦ elim (Bool-cases (same_text (mode_of c.scanner) (codes "clamav"))) [
          | inl clamav ↦ inr (
            clamav_mode c.scanner clamav,
            scan_clamav-IsClean c now ve se chunks r (rw (on, clamav, scan) at h),
          )
          | inr other ↦ absurd (ground arith)
        ]
      ]
