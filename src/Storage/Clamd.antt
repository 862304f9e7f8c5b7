-- ===== src/Storage/Clamd.antt =====
-- `clamdRequest` of apps/api/src/common/storage/malware-scanner.service.ts: one request on one socket,
-- as a machine whose events are those of the socket, the deadline, and the end of the sending.
pub mod Events
pub mod Settling
use codex_nieuw.Prelude.{
  ℕ, zero, suc, ◌-◌, Bool, true, false, not, ◌&&◌, ◌||◌, Option, none, some, List, [], ◌∷◌, ◌++◌,
  ltb, ◌==◌, if◌then◌else◌, length, take, elem,
}
use codex_nieuw.Json.{Text, codes}
use codex_nieuw.Patterns.{includes}

abbrev pub Bytes : Type 0
Bytes = List ℕ

-- What ends a request, by the place that calls `finish` or `reject`.
pub data Fault : Type 0 where
  deadline socket_error response_limit premature_success incomplete closed_early send_error : Fault

pub data Settlement : Type 0 where
  resolved : Bytes → Settlement
  rejected : Fault → Settlement

-- `sent` is the moment in which the command and what `send` writes have been written.
pub data SocketEvent : Type 0 where
  timed_out socket_failed ended closed sent send_failed : SocketEvent
  received : Bytes → SocketEvent

-- The variables of the promise.
pub record Session : Type 0 where
  pub response : Bytes
  pub submitted : Bool
  pub settled : Option Settlement

abbrev pub fresh : Session
fresh = record { response = []; submitted = false; settled = none }

-- `finish`
abbrev pub finish : Settlement → Session → Session
finish outcome s = elim s.settled [ none ↦ record s { settled = some outcome } | some first ↦ s ]

-- The last byte, and the bytes before it.
abbrev pub last_byte : Bytes → Option ℕ
last_byte [] = none
last_byte (b ∷ []) = some b
last_byte (b ∷ c ∷ bs) = last_byte (c ∷ bs)

abbrev pub all_but_last : Bytes → Bytes
all_but_last [] = []
all_but_last (b ∷ []) = []
all_but_last (b ∷ c ∷ bs) = b ∷ all_but_last (c ∷ bs)

abbrev is_nul : Option ℕ → Bool
is_nul none = false
is_nul (some b) = b == 0

abbrev pub success : Bytes
success = codes "stream: OK"

-- The handler of `data`.
unfoldable pub on_data : Bytes → Session → Session
on_data chunk s =
    let grown = record s { response = s.response ++ chunk } in
    let limited =
      if ltb 4096 (length grown.response) then finish (rejected response_limit) grown else grown in
    if not limited.submitted && includes success limited.response
    then finish (rejected premature_success) limited
    else limited

-- The test of the handler of `end`.
abbrev pub is_complete : Session → Bool
is_complete s =
    s.submitted
    && not (ltb (length s.response) 2)
    && is_nul (last_byte s.response)
    && not (elem 0 (all_but_last s.response))

-- The handlers of `clamdRequest`.
unfoldable pub on_event : SocketEvent → Session → Session
unfolding on_data
on_event timed_out s = finish (rejected deadline) s
on_event socket_failed s = finish (rejected socket_error) s
on_event (received chunk) s = on_data chunk s
on_event ended s =
    if is_complete s
    then finish (resolved (all_but_last s.response)) s
    else finish (rejected incomplete) s
on_event closed s = finish (rejected closed_early) s
on_event sent s = record s { submitted = true }
on_event send_failed s = finish (rejected send_error) s

unfoldable pub run_socket : List SocketEvent → Session → Session
run_socket [] s = s
run_socket (e ∷ events) s = run_socket events (on_event e s)

-- `clamdRequest`: the settlement of the promise; none while it is pending.
unfoldable pub clamd_request : List SocketEvent → Option Settlement
clamd_request events = (run_socket events fresh).settled
