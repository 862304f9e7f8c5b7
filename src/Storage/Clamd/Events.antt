-- ===== src/Storage/Clamd/Events.antt =====
-- What the events on a socket say of the answer, and how one more event changes that.
use codex_nieuw.Prelude.{
  ℕ, ◌≤◌, ◌≡◌, refl, sym, ap, inl, inr, Bool, true, false, ◌||◌, Option, none, some, List, [], ◌∷◌,
  ◌++◌, if◌then◌else◌, length, elem, arith, Bool-cases,
}
use codex_nieuw.Patterns.{includes}
use codex_nieuw.Storage.Clamd.{
  Bytes, Settlement, resolved, rejected, SocketEvent, timed_out, socket_failed, ended, closed, sent,
  send_failed, received, Session, last_byte, all_but_last, success,
}

-- The bytes that have come in, all of them and those from before the sending was done.
abbrev pub received_bytes : List SocketEvent → Bytes
received_bytes [] = []
received_bytes (received chunk ∷ events) = chunk ++ received_bytes events
received_bytes (_ ∷ events) = received_bytes events

abbrev pub early_bytes : List SocketEvent → Bytes
early_bytes [] = []
early_bytes (received chunk ∷ events) = chunk ++ early_bytes events
early_bytes (sent ∷ events) = []
early_bytes (_ ∷ events) = early_bytes events

abbrev pub has_sent : List SocketEvent → Bool
has_sent [] = false
has_sent (sent ∷ events) = true
has_sent (_ ∷ events) = has_sent events

-- `value` is what the daemon has answered: everything was sent before the answer ended, the answer is
-- `value` and one NUL, has no other NUL and no more than 4096 bytes, and no success was in it while
-- the sending went on.
pub record IsAnswer (before : List SocketEvent) (value : Bytes) : Type 0 where
  pub all_sent : has_sent before ≡ true
  pub framed : received_bytes before ≡ value ++ 0 ∷ []
  pub one_nul : elem 0 value ≡ false
  pub short : length (received_bytes before) ≤ 4096
  pub honest : includes success (early_bytes before) ≡ false

abbrev pub IsReply : List SocketEvent → Bytes → Type 0
IsReply events value =
    (before : List SocketEvent) × (after : List SocketEvent) × (events ≡ before ++ ended ∷ after)
    × IsAnswer before value

-- Before the request is settled its variables are what the events say.
pub record Tracks (before : List SocketEvent) (s : Session) : Type 0 where
  pub response_is : s.response ≡ received_bytes before
  pub submitted_is : s.submitted ≡ has_sent before
  pub early_is : s.submitted ≡ false → early_bytes before ≡ s.response
  pub bounded : length (received_bytes before) ≤ 4096
  pub unspoiled : includes success (early_bytes before) ≡ false

abbrev pub Explains : List SocketEvent → Option Settlement → Type 0
Explains before none = Unit {0}
Explains before (some (resolved value)) = IsReply before value
Explains before (some (rejected fault)) = Unit {0}

pub append_assoc {ℓ} : {A : Type ℓ} (xs ys zs : List A) → (xs ++ ys) ++ zs ≡ xs ++ (ys ++ zs)
append_assoc [] ys zs = refl
append_assoc (x ∷ xs) ys zs = ap (λ t. x ∷ t) (append_assoc xs ys zs)

pub append_nil {ℓ} : {A : Type ℓ} (xs : List A) → xs ++ [] ≡ xs
append_nil [] = refl
append_nil (x ∷ xs) = ap (λ t. x ∷ t) (append_nil xs)

pub Explains-append :
    (before after : List SocketEvent) (outcome : Option Settlement)
    → Explains before outcome
    → Explains (before ++ after) outcome
Explains-append before after none h = tt
Explains-append before after (some (rejected fault)) h = tt
Explains-append before after (some (resolved value)) (first, rest, split, answer) =
    (first, rest ++ after, rw split (append_assoc first (ended ∷ rest) after), answer)

pub all_but_last-append :
    (xs : Bytes) {b : ℕ} → last_byte xs ≡ some b → xs ≡ all_but_last xs ++ b ∷ []
all_but_last-append [] h = ground arith
all_but_last-append (x ∷ []) h = ground arith
all_but_last-append (x ∷ y ∷ xs) h = ap (λ t. x ∷ t) (all_but_last-append (y ∷ xs) h)

-- One more event after those before.
pub received_bytes-append :
    (events : List SocketEvent) (e : SocketEvent)
    → received_bytes (events ++ e ∷ []) ≡ received_bytes events ++ received_bytes (e ∷ [])
received_bytes-append [] e = refl
received_bytes-append (received chunk ∷ events) e =
    rw (received_bytes-append events e) (sym (append_assoc chunk (received_bytes events) _))
received_bytes-append (timed_out ∷ events) e = received_bytes-append events e
received_bytes-append (socket_failed ∷ events) e = received_bytes-append events e
received_bytes-append (ended ∷ events) e = received_bytes-append events e
received_bytes-append (closed ∷ events) e = received_bytes-append events e
received_bytes-append (sent ∷ events) e = received_bytes-append events e
received_bytes-append (send_failed ∷ events) e = received_bytes-append events e

pub has_sent-append :
    (events : List SocketEvent) (e : SocketEvent)
    → has_sent (events ++ e ∷ []) ≡ (has_sent events || has_sent (e ∷ []))
has_sent-append [] e = refl
has_sent-append (received chunk ∷ events) e = has_sent-append events e
has_sent-append (timed_out ∷ events) e = has_sent-append events e
has_sent-append (socket_failed ∷ events) e = has_sent-append events e
has_sent-append (ended ∷ events) e = has_sent-append events e
has_sent-append (closed ∷ events) e = has_sent-append events e
has_sent-append (sent ∷ events) e = refl
has_sent-append (send_failed ∷ events) e = has_sent-append events e

pub early_bytes-append :
    (events : List SocketEvent) (e : SocketEvent)
    → early_bytes (events ++ e ∷ [])
      ≡ (if has_sent events then early_bytes events else early_bytes events ++ early_bytes (e ∷ []))
early_bytes-append [] e = refl
early_bytes-append (received chunk ∷ events) e =
    let ih = early_bytes-append events e in
    elim (Bool-cases (has_sent events)) [
      | inl done ↦ rw (ih, done) refl
      | inr open_ ↦ rw (ih, open_) (sym (append_assoc chunk (early_bytes events) _))
    ]
early_bytes-append (timed_out ∷ events) e = early_bytes-append events e
early_bytes-append (socket_failed ∷ events) e = early_bytes-append events e
early_bytes-append (ended ∷ events) e = early_bytes-append events e
early_bytes-append (closed ∷ events) e = early_bytes-append events e
early_bytes-append (sent ∷ events) e = refl
early_bytes-append (send_failed ∷ events) e = early_bytes-append events e
