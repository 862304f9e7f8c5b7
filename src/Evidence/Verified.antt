-- ===== src/Evidence/Verified.antt =====
-- What a finalisation can do to the evidence that other requests have decided on meanwhile.
use codex_nieuw.Prelude.{
  ℕ, ◌≡◌, refl, ap, subst, ◌⊎◌, inl, inr, Bool, true, not, ◌&&◌, Option, none, some, List, [], ◌∷◌,
  ◌==◌, find?, update_where, count_where, arith, String, Bool-cases, Rowwise, is_some,
}
use codex_nieuw.Prelude.Outcome.{
  ok, >>=-eq-ok, Outcome-cases, require, found, not_found, evidence_changed_retry,
}
use codex_nieuw.Store.Rows.{EvidenceStatus, EvidenceObject, Db}
use codex_nieuw.Store.Queries.{is_verified}
use codex_nieuw.Storage.Objects.{Services}
use codex_nieuw.Storage.Objects.Checking.{ok_ok}
use codex_nieuw.Evidence.{
  Checked, Views, is_current, is_pending, is_unchanged, same_status, assert_current,
}
use codex_nieuw.Evidence.Usable.{loaded_facts, recorded_fails, err_ok}
use codex_nieuw.Evidence.Handlers.{
  moved_row, has_id, is_uploaded, transition, inspect, checked_then, conclude, finalize,
  loaded_current, after_finalize,
}

-- A row is left as it is, or moves on: it keeps its number and its owner, was neither rejected nor
-- superseded, is uploaded or verified now, and still verified if it was.
pub record MovesOn (a b : EvidenceObject) : Type 0 where
  pub same_id : b.id ≡ a.id
  pub same_owner : b.organisation_id ≡ a.organisation_id
  pub was_current : is_current true a.verification_status ≡ true
  pub is_moved :
      (b.verification_status ≡ EvidenceStatus.uploaded)
      ⊎ (b.verification_status ≡ EvidenceStatus.verified)
  pub stays_verified :
      is_verified a.verification_status ≡ true → is_verified b.verification_status ≡ true

abbrev pub Settled : EvidenceObject → EvidenceObject → Type 0
Settled a b = (b ≡ a) ⊎ MovesOn a b

pub same_status-eq : (a b : EvidenceStatus) → same_status a b ≡ true → a ≡ b
same_status-eq EvidenceStatus.pending_upload b h = ground arith
same_status-eq EvidenceStatus.uploaded b h = ground arith
same_status-eq EvidenceStatus.unverified b h = ground arith
same_status-eq EvidenceStatus.verified b h = ground arith
same_status-eq EvidenceStatus.rejected b h = ground arith
same_status-eq EvidenceStatus.superseded b h = ground arith

-- The status that a finalisation gives a row.
abbrev pub Follows : EvidenceStatus → EvidenceStatus → Type 0
Follows old new =
    (is_current true old ≡ true)
    × ((new ≡ EvidenceStatus.uploaded) ⊎ (new ≡ EvidenceStatus.verified))
    × (is_verified old ≡ true → is_verified new ≡ true)

moved-Settled :
    (e : EvidenceObject) (status : EvidenceStatus) (c : Checked) (now : ℕ)
    (rows : List EvidenceObject)
    → Follows e.verification_status status
    → Rowwise Settled rows (update_where (is_unchanged e) (moved_row status c now) rows)
moved-Settled e status c now [] f = tt
moved-Settled e status c now (row ∷ rows) f = elim (Bool-cases (is_unchanged e row)) [
  | inr kept ↦ rw kept (inl refl, moved-Settled e status c now rows f)
  | inl hit ↦
      let same = same_status-eq row.verification_status e.verification_status (ground arith) in
      rw hit (
        inr (record {
          same_id = refl;
          same_owner = refl;
          was_current = rw same f.0;
          is_moved = f.1;
          stays_verified = λ h. f.2 (rw same at h);
        }),
        moved-Settled e status c now rows f,
      )
]

transition-Settled :
    (now : ℕ) (e : EvidenceObject) (status : EvidenceStatus) (subject : String) (c : Checked)
    (db : Db) (row : EvidenceObject) (db' : Db)
    → Follows e.verification_status status
    → transition now e status subject c db ≡ ok (row, db')
    → Rowwise Settled db.evidence db'.evidence
unfolding transition
transition-Settled now e status subject c db row db' f h =
    let rows = update_where (is_unchanged e) (moved_row status c now) db.evidence in
    let (u1, e1, h1) = >>=-eq-ok (assert_current now (is_uploaded status) e) _ h in
    let (u2, e2, h2) =
      >>=-eq-ok (require (count_where (is_unchanged e) db.evidence == 1) evidence_changed_retry) _
        h1 in
    let (stored, e3, h3) = >>=-eq-ok (found (find? (has_id e.id) rows) not_found) _ h2 in
    subst (λ (x : List EvidenceObject). Rowwise Settled db.evidence x)
      (ap (λ (x : EvidenceObject × Db). (x.1).evidence) (ok_ok h3))
      (moved-Settled e status c now db.evidence f)

pub finalize-Follows :
    (s : Services) (time : ℕ → ℕ) (uuid : ℕ → ℕ) (old : EvidenceStatus)
    → is_current true old ≡ true
    → Follows old (after_finalize s time uuid old)
finalize-Follows s time uuid EvidenceStatus.verified h = (h, inr refl, λ k. refl)
finalize-Follows s time uuid EvidenceStatus.pending_upload h = (h, inl refl, λ k. k)
finalize-Follows s time uuid EvidenceStatus.uploaded h = (h, inl refl, λ k. k)
finalize-Follows s time uuid EvidenceStatus.unverified h = (h, inl refl, λ k. k)
finalize-Follows s time uuid EvidenceStatus.rejected h = (h, inl refl, λ k. k)
finalize-Follows s time uuid EvidenceStatus.superseded h = (h, inl refl, λ k. k)

pub some-some {ℓ} : {A : Type ℓ} {a b : A} → some a ≡ some b → a ≡ b
some-some h = cc

pub none-some {ℓ} : {A : Type ℓ} {a : A} → none ≡ some a → ⊥
none-some h = cc

module _ (s : Services) (time : ℕ → ℕ) (uuid : ℕ → ℕ) where
  pub conclude-Settled :
      (settled : Bool) (e : EvidenceObject) (status : EvidenceStatus) (subject : String) (v : Views)
      (c : Checked) (db' : Db)
      → Follows e.verification_status status
      → (conclude s time uuid settled e status subject v c).written ≡ some db'
      → Rowwise Settled (v.final).evidence db'.evidence
  unfolding conclude
  conclude-Settled settled e status subject v c db' f h =
      elim (Bool-cases (settled && not (is_some c.malware_scanned_at))) [
        | inl kept ↦ absurd (none-some (rw (kept, conclude) at h))
        | inr open_ ↦ elim (Outcome-cases (transition (time 3) e status subject c v.final)) [
          | inr (code, failed_) ↦ absurd (none-some (rw (open_, failed_, conclude) at h))
          | inl ((row', db''), done) ↦
              subst (λ (x : Db). Rowwise Settled (v.final).evidence x.evidence)
                (some-some (rw (open_, done, conclude) at h))
                (transition-Settled (time 3) e status subject c v.final row' db'' f done)
        ]
      ]

  checked-Settled :
      (settled : Bool) (e : EvidenceObject) (status : EvidenceStatus) (subject : String) (v : Views)
      (row : EvidenceObject) (db' : Db)
      → Follows e.verification_status status
      → (checked_then s time uuid settled e status subject v).answer ≡ ok row
      → (checked_then s time uuid settled e status subject v).written ≡ some db'
      → Rowwise Settled (v.final).evidence db'.evidence
  unfolding checked_then
  checked-Settled settled e status subject v row db' f answer h =
      elim (Outcome-cases (inspect s time uuid (time 1) e)) [
        | inl (c, done) ↦
            conclude-Settled settled e status subject v c db' f (rw (done, checked_then) at h)
        | inr (code, failed_) ↦
            absurd (
              recorded_fails s time uuid code subject e v row
                (rw (failed_, checked_then) at answer))
      ]

  -- A finalisation that answers and writes changes no row but to move it on: whatever other requests
  -- did between its transactions, no evidence that is rejected or superseded by then comes back, and
  -- none that is verified by then loses that status.
  pub finalize-Settled :
      (organisation_id id : ℕ) (subject : String) (supplier : Option ℕ) (v : Views)
      (row : EvidenceObject) (db' : Db)
      → (finalize s time uuid organisation_id id subject supplier v).answer ≡ ok row
      → (finalize s time uuid organisation_id id subject supplier v).written ≡ some db'
      → Rowwise Settled (v.final).evidence db'.evidence
  unfolding finalize
  finalize-Settled organisation_id id subject supplier v row db' answer h =
      elim (Outcome-cases (loaded_current s time uuid true organisation_id id supplier v)) [
        | inr (code, failed_) ↦ absurd (err_ok (rw (failed_, finalize) at answer))
        | inl (e, loaded) ↦
            let facts = loaded_facts s time uuid true organisation_id id supplier v e loaded in
            checked-Settled (not (is_pending e.verification_status)) e
              (after_finalize s time uuid e.verification_status) subject v row db'
              (finalize-Follows s time uuid e.verification_status facts.1)
              (rw (loaded, finalize) at answer) (rw (loaded, finalize) at h)
      ]
