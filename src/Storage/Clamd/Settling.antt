-- ===== src/Storage/Clamd/Settling.antt =====
-- What a settled request says of the events on its socket.
use codex_nieuw.Prelude.{
  ◌≡◌, ◌≢◌, refl, sym, ap, ◌∙◌, inl, inr, Bool, true, false, not, ◌&&◌, none, some, List, [], ◌∷◌,
  ◌++◌, ltb, if◌then◌else◌, length, arith, Bool-cases, Option-cases,
}
use mathlib.Core.Bool.{true≢false}
use codex_nieuw.Patterns.{includes}
use codex_nieuw.Storage.Clamd.{
  Bytes, Fault, deadline, socket_error, incomplete, closed_early, send_error, Settlement, resolved,
  rejected, SocketEvent, timed_out, socket_failed, ended, closed, sent, send_failed, received,
  Session, fresh, all_but_last, success, on_data, is_complete, on_event, run_socket, clamd_request,
}
use codex_nieuw.Storage.Clamd.Events.{
  received_bytes, early_bytes, has_sent, IsAnswer, IsReply, Tracks, Explains, append_assoc,
  append_nil, Explains-append, all_but_last-append, received_bytes-append, has_sent-append,
  early_bytes-append,
}

-- A settlement is final.
on_event-settled :
    (e : SocketEvent) (s : Session) (outcome : Settlement)
    → s.settled ≡ some outcome
    → (on_event e s).settled ≡ some outcome
unfolding on_event
on_event-settled timed_out s outcome h = ground arith
on_event-settled socket_failed s outcome h = ground arith
on_event-settled ended s outcome h = ground arith
on_event-settled closed s outcome h = ground arith
on_event-settled sent s outcome h = ground arith
on_event-settled send_failed s outcome h = ground arith
on_event-settled (received chunk) s outcome h = ground arith

abbrev Follows : List SocketEvent → Session → Type 0
Follows before s = (s.settled ≡ none → Tracks before s) × Explains before s.settled

none_ne_some : {o : Settlement} → some o ≢ none
none_ne_some h = cc

early_when :
    (before : List SocketEvent) (chunk : Bytes) (sent_before : Bool)
    → has_sent before ≡ sent_before
    → early_bytes (before ++ received chunk ∷ [])
      ≡ (if sent_before then early_bytes before else early_bytes before ++ chunk)
early_when before chunk b h = simp (early_bytes-append before (received chunk), append_nil chunk, h)

received_more :
    (before : List SocketEvent) (chunk : Bytes)
    → received_bytes (before ++ received chunk ∷ []) ≡ received_bytes before ++ chunk
received_more before chunk = simp (received_bytes-append before (received chunk), append_nil chunk)

grown-Tracks :
    (before : List SocketEvent) (chunk : Bytes) (s : Session)
    → Tracks before s
    → ltb 4096 (length (s.response ++ chunk)) ≡ false
    → (not s.submitted && includes success (s.response ++ chunk)) ≡ false
    → Tracks
        (before ++ received chunk ∷ [])
        (record { response = s.response ++ chunk; submitted = s.submitted; settled = none })
grown-Tracks before chunk s t short later = record {
  response_is = rw (received_more before chunk) (ap (λ r. r ++ chunk) t.response_is);
  submitted_is = ground (arith, has_sent-append before (received chunk), t.submitted_is);
  early_is = λ open_.
      rw (early_when before chunk false (sym t.submitted_is ∙ open_))
        (ap (λ r. r ++ chunk) (t.early_is open_));
  bounded = rw (received_more before chunk, ← t.response_is) (ground arith);
  unspoiled = elim (Bool-cases s.submitted) [
    | inl done ↦ rw (early_when before chunk true (sym t.submitted_is ∙ done)) t.unspoiled
    | inr open_ ↦
        rw (early_when before chunk false (sym t.submitted_is ∙ open_), t.early_is open_)
          (ground arith)
  ];
}

data-Follows :
    (before : List SocketEvent) (chunk : Bytes) (s : Session)
    → s.settled ≡ none
    → Tracks before s
    → Follows (before ++ received chunk ∷ []) (on_data chunk s)
unfolding on_data
data-Follows before chunk s open_ t =
    let r = s.response ++ chunk in
    elim (Bool-cases (ltb 4096 (length r))) [
      | inl long ↦ elim (Bool-cases (not s.submitted && includes success r)) [
        | inl early ↦ rw (long, open_, early) (λ h. absurd (none_ne_some h), tt)
        | inr later ↦ rw (long, open_, later) (λ h. absurd (none_ne_some h), tt)
      ]
      | inr short ↦ elim (Bool-cases (not s.submitted && includes success r)) [
        | inl early ↦ rw (short, open_, early) (λ h. absurd (none_ne_some h), tt)
        | inr later ↦ rw (short, open_, later) (λ h. grown-Tracks before chunk s t short later, tt)
      ]
    ]

IsAnswer-follows :
    (before : List SocketEvent) (s : Session)
    → Tracks before s
    → is_complete s ≡ true
    → IsAnswer before (all_but_last s.response)
IsAnswer-follows before s t h = record {
  all_sent = ground arith;
  framed = sym t.response_is ∙ all_but_last-append s.response (ground arith);
  one_nul = ground arith;
  short = t.bounded;
  honest = t.unspoiled;
}

-- An event that settles a pending request by a fault leaves nothing to say.
fault-Follows :
    (before : List SocketEvent) (fault : Fault) (s : Session)
    → s.settled ≡ some (rejected fault)
    → Follows before s
fault-Follows before fault s h = rw h (λ open_. absurd (none_ne_some open_), tt)

sent-Tracks :
    (before : List SocketEvent) (s : Session)
    → Tracks before s
    → Tracks (before ++ sent ∷ []) (record s { submitted = true })
sent-Tracks before s t =
    let same = received_bytes-append before sent ∙ append_nil (received_bytes before) in
    record {
      response_is = rw same t.response_is;
      submitted_is = ground (arith, has_sent-append before sent);
      early_is = λ open_. absurd (true≢false open_);
      bounded = rw same t.bounded;
      unspoiled = elim (Bool-cases (has_sent before)) [
        | inl done ↦ simp (early_bytes-append before sent, done) t.unspoiled
        | inr open_ ↦
            simp (early_bytes-append before sent, open_, append_nil (early_bytes before))
              t.unspoiled
      ];
    }

pending-Follows :
    (before : List SocketEvent) (e : SocketEvent) (s : Session)
    → s.settled ≡ none
    → Tracks before s
    → Follows (before ++ e ∷ []) (on_event e s)
unfolding on_event
pending-Follows before timed_out s open_ t = fault-Follows _ deadline _ (rw open_)
pending-Follows before socket_failed s open_ t = fault-Follows _ socket_error _ (rw open_)
pending-Follows before closed s open_ t = fault-Follows _ closed_early _ (rw open_)
pending-Follows before send_failed s open_ t = fault-Follows _ send_error _ (rw open_)
pending-Follows before sent s open_ t = (λ h. sent-Tracks before s t, rw open_ tt)
pending-Follows before (received chunk) s open_ t = data-Follows before chunk s open_ t
pending-Follows before ended s open_ t = elim (Bool-cases (is_complete s)) [
  | inl whole ↦
      rw (whole, open_)
        (λ h. absurd (none_ne_some h), (before, [], refl, IsAnswer-follows before s t whole))
  | inr part ↦ fault-Follows _ incomplete _ (rw (part, open_))
]

event-Follows :
    (before : List SocketEvent) (e : SocketEvent) (s : Session)
    → Follows before s
    → Follows (before ++ e ∷ []) (on_event e s)
event-Follows before e s f = elim (Option-cases s.settled) [
  | inl open_ ↦ pending-Follows before e s open_ (f.0 open_)
  | inr (outcome, over) ↦ rw (on_event-settled e s outcome over) (
    λ open_. absurd (none_ne_some open_),
    Explains-append before (e ∷ []) (some outcome) (rw over at (f.1)),
  )
]

run-Follows :
    (events before : List SocketEvent) (s : Session)
    → Follows before s
    → Follows (before ++ events) (run_socket events s)
unfolding run_socket
run-Follows [] before s f = rw (append_nil before) f
run-Follows (e ∷ events) before s f =
    rw (← append_assoc before (e ∷ []) events)
      (run-Follows events (before ++ e ∷ []) (on_event e s) (event-Follows before e s f))

starts : Follows [] fresh
starts = (
  λ h. record {
    response_is = refl;
    submitted_is = refl;
    early_is = λ open_. refl;
    bounded = omega arith;
    unspoiled = refl;
  },
  tt,
)

-- A request is resolved only by the daemon's own answer to all that was sent: the answer came in
-- whole after the sending was done, ends with its only NUL, has at most 4096 bytes, and held no
-- success while the sending went on.
pub clamd_request-IsReply :
    (events : List SocketEvent) (value : Bytes)
    → clamd_request events ≡ some (resolved value)
    → IsReply events value
unfolding clamd_request
clamd_request-IsReply events value h = rw h at ((run-Follows events [] fresh starts).1)
