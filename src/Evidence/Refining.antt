-- ===== src/Evidence/Refining.antt =====
-- The life of evidence as a state machine, and the requests that keep to it.
use codex_nieuw.Prelude.{
  ℕ, ◌<◌, ◌≡◌, refl, sym, ap, subst, ◌⊎◌, inl, inr, Bool, true, false, not, Option, none, some,
  List, [], ◌∷◌, arith, String, Bool-cases, Rowwise,
}
use codex_nieuw.Prelude.Outcome.{Code, Outcome-cases}
use codex_nieuw.Store.Rows.{EvidenceStatus, EvidenceObject, Db}
use codex_nieuw.Store.Queries.{is_verified}
use codex_nieuw.Storage.Objects.{Services}
use codex_nieuw.Evidence.{Ended, Views, is_current, is_pending, reject_loop}
use codex_nieuw.Evidence.Usable.{loaded_facts}
use codex_nieuw.Evidence.Rejecting.{Rejected, reject_loop-IsRejection}
use codex_nieuw.Evidence.Verified.{
  Settled, Follows, same_status-eq, finalize-Follows, conclude-Settled, some-some, none-some,
}
use codex_nieuw.Evidence.Handlers.{
  inspect, is_malware, checked_then, recorded, loaded_current, after_finalize, finalize, verify,
  for_extraction,
}

-- The machine: what has been neither rejected nor superseded may be uploaded, unless it is verified,
-- be verified, or be rejected.
pub data Move : EvidenceStatus → EvidenceStatus → Type 0 where
  stay : {s : EvidenceStatus} → Move s s
  upload :
      {s : EvidenceStatus}
      → is_current true s ≡ true
      → is_verified s ≡ false
      → Move s EvidenceStatus.uploaded
  accept : {s : EvidenceStatus} → is_current true s ≡ true → Move s EvidenceStatus.verified
  reject : {s : EvidenceStatus} → is_current true s ≡ true → Move s EvidenceStatus.rejected

-- A row keeps its number and its owner, and its status makes a move.
abbrev pub Moved : EvidenceObject → EvidenceObject → Type 0
Moved a b =
    (b.id ≡ a.id)
    × (b.organisation_id ≡ a.organisation_id)
    × Move a.verification_status b.verification_status

-- The requests that check the bytes of an object.
pub data Request : Type 0 where
  finalization : ℕ → Option ℕ → Request
  verification : ℕ → Request
  extraction : ℕ → Request

-- What one transaction of a request sees.
abbrev pub IsView : Views → Db → Type 0
IsView v base = (base ≡ v.final) ⊎ ((k : ℕ) × (k < 3) × (base ≡ v.locked k))

Rowwise-weaken :
    (R S : EvidenceObject → EvidenceObject → Type 0)
    → ((a b : EvidenceObject) → R a b → S a b)
    → (xs ys : List EvidenceObject) → Rowwise R xs ys
    → Rowwise S xs ys
Rowwise-weaken R S le [] [] h = tt
Rowwise-weaken R S le [] (y ∷ ys) h = absurd h
Rowwise-weaken R S le (x ∷ xs) [] h = absurd h
Rowwise-weaken R S le (x ∷ xs) (y ∷ ys) h = (le x y h.0, Rowwise-weaken R S le xs ys h.1)

stay_of : (a b : EvidenceStatus) → b ≡ a → Move a b
stay_of a b e = subst (Move a) (sym e) stay

Settled-Moved : (a b : EvidenceObject) → Settled a b → Moved a b
Settled-Moved a b (inl same) = (
  ap (λ (x : EvidenceObject). x.id) same,
  ap (λ (x : EvidenceObject). x.organisation_id) same,
  stay_of a.verification_status b.verification_status
      (ap (λ (x : EvidenceObject). x.verification_status) same),
)
Settled-Moved a b (inr m) = (
  m.same_id,
  m.same_owner,
  elim m.is_moved [
    | inr verified_ ↦ subst (Move a.verification_status) (sym verified_) (accept m.was_current)
    | inl uploaded_ ↦ elim (Bool-cases (is_verified a.verification_status)) [
      | inl was ↦ absurd (contradicts (rw uploaded_ at (m.stays_verified was)))
      | inr open_ ↦ subst (Move a.verification_status) (sym uploaded_) (upload m.was_current open_)
    ]
  ],
)
  where
    contradicts : is_verified EvidenceStatus.uploaded ≡ true → ⊥
    contradicts h = ground arith

Rejected-Moved :
    (now : ℕ) (e : EvidenceObject)
    → is_current true e.verification_status ≡ true
    → (a b : EvidenceObject) → Rejected now e a b
    → Moved a b
Rejected-Moved now e current a b (inr kept) = Settled-Moved a b (inl kept.1)
Rejected-Moved now e current a b (inl hit) =
    let same = same_status-eq a.verification_status e.verification_status (ground (arith, hit.0)) in
    let here : is_current true a.verification_status ≡ true = rw same current in
    (
      ap (λ (x : EvidenceObject). x.id) hit.1,
      ap (λ (x : EvidenceObject). x.organisation_id) hit.1,
      subst (Move a.verification_status)
          (sym (ap (λ (x : EvidenceObject). x.verification_status) hit.1)) (reject here),
    )

-- What a request has written moves the rows that one of its transactions has seen.
pub IsMoved : Views → Db → Type 0
IsMoved v after = (base : Db) × IsView v base × Rowwise Moved base.evidence after.evidence

Settled-IsMoved :
    (v : Views) (after : Db) → Rowwise Settled (v.final).evidence after.evidence → IsMoved v after
unfolding IsMoved
Settled-IsMoved v after h = (
  v.final,
  inl refl,
  Rowwise-weaken Settled Moved Settled-Moved (v.final).evidence after.evidence h,
)

module _ (s : Services) (time : ℕ → ℕ) (uuid : ℕ → ℕ) where
  abbrev pub serve : ℕ → String → Request → Views → Ended EvidenceObject
  serve organisation_id subject (finalization id supplier) v =
      finalize s time uuid organisation_id id subject supplier v
  serve organisation_id subject (verification id) v =
      verify s time uuid organisation_id id subject v
  serve organisation_id subject (extraction id) v =
      for_extraction s time uuid organisation_id id subject v

  recorded-IsMoved :
      (code : Code) (subject : String) (e : EvidenceObject) (v : Views) (after : Db)
      → is_current true e.verification_status ≡ true
      → (recorded s time uuid {A = EvidenceObject} code subject e v).written ≡ some after
      → IsMoved v after
  unfolding recorded IsMoved
  recorded-IsMoved code subject e v after current h =
      elim (Bool-cases (is_malware s time uuid code)) [
        | inr other ↦ absurd (none-some (rw (other, recorded) at h))
        | inl malware ↦ elim (Outcome-cases (reject_loop 2 0 (time 2) subject e v)) [
          | inr (c, failed_) ↦ absurd (none-some (rw (malware, failed_, recorded) at h))
          | inl (db, done) ↦
              let (k, low, r) = reject_loop-IsRejection (time 2) subject e v db done in
              let same = some-some (rw (malware, done, recorded) at h) in
              subst (IsMoved v) same (
                v.locked k,
                inr (k, low, refl),
                Rowwise-weaken (Rejected (time 2) e) Moved (Rejected-Moved (time 2) e current)
                    (v.locked k).evidence db.evidence r.rows,
              )
        ]
      ]

  checked-IsMoved :
      (settled : Bool) (e : EvidenceObject) (status : EvidenceStatus) (subject : String) (v : Views)
      (after : Db)
      → Follows e.verification_status status
      → (checked_then s time uuid settled e status subject v).written ≡ some after
      → IsMoved v after
  unfolding checked_then
  checked-IsMoved settled e status subject v after f h =
      elim (Outcome-cases (inspect s time uuid (time 1) e)) [
        | inl (c, done) ↦ Settled-IsMoved v after (
            conclude-Settled s time uuid settled e status subject v c after f
              (rw (done, checked_then) at h))
        | inr (code, failed_) ↦
            recorded-IsMoved code subject e v after f.0 (rw (failed_, checked_then) at h)
      ]

  also_pending :
      (status : EvidenceStatus) → is_current false status ≡ true → is_current true status ≡ true
  also_pending status h = ground arith

  verified-Follows :
      (old : EvidenceStatus) → is_current false old ≡ true → Follows old EvidenceStatus.verified
  verified-Follows old h = (also_pending old h, inr refl, λ k. refl)

  -- Every request that checks bytes keeps to the machine, on its error paths too: whatever other
  -- requests do between its transactions, if it writes, also where it then throws because malware was
  -- found, each row of the evidence as its last transaction has seen it keeps its number and its
  -- owner and makes one move: it stays, is uploaded unless it is verified, is verified, or is rejected,
  -- the last three only where it was neither rejected nor superseded.
  pub serve-IsMoved :
      (organisation_id : ℕ) (subject : String) (request : Request) (v : Views) (after : Db)
      → (serve organisation_id subject request v).written ≡ some after
      → IsMoved v after
  unfolding finalize verify for_extraction
  serve-IsMoved o subject (finalization id supplier) v after h =
      elim (Outcome-cases (loaded_current s time uuid true o id supplier v)) [
        | inr (code, failed_) ↦ absurd (none-some (rw (failed_, finalize) at h))
        | inl (e, loaded) ↦
            let facts = loaded_facts s time uuid true o id supplier v e loaded in
            checked-IsMoved (not (is_pending e.verification_status)) e
              (after_finalize s time uuid e.verification_status) subject v after
              (finalize-Follows s time uuid e.verification_status facts.1)
              (rw (loaded, finalize) at h)
      ]
  serve-IsMoved o subject (verification id) v after h =
      elim (Outcome-cases (loaded_current s time uuid false o id none v)) [
        | inr (code, failed_) ↦ absurd (none-some (rw (failed_, verify) at h))
        | inl (e, loaded) ↦
            let facts = loaded_facts s time uuid false o id none v e loaded in
            checked-IsMoved (is_verified e.verification_status) e EvidenceStatus.verified subject v
              after (verified-Follows e.verification_status facts.1) (rw (loaded, verify) at h)
      ]
  serve-IsMoved o subject (extraction id) v after h =
      elim (Outcome-cases (loaded_current s time uuid false o id none v)) [
        | inr (code, failed_) ↦ absurd (none-some (rw (failed_, for_extraction) at h))
        | inl (e, loaded) ↦
            let facts = loaded_facts s time uuid false o id none v e loaded in
            elim (Outcome-cases (inspect s time uuid (time 1) e)) [
              | inl (c, done) ↦ absurd (none-some (rw (loaded, done, for_extraction) at h))
              | inr (code, failed_) ↦
                  recorded-IsMoved code subject e v after
                    (also_pending e.verification_status facts.1)
                    (rw (loaded, failed_, for_extraction) at h)
            ]
      ]
