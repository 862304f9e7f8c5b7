-- ===== src/Evidence/Usable.antt =====
-- A verification that answers leaves evidence that counts.
use codex_nieuw.Prelude.{
  ℕ, ◌≡◌, refl, sym, ap, ◌∙◌, subst, inl, inr, Bool, true, false, not, ◌&&◌, Option, none, some,
  is_some, arith, Memᴰ, Bool-cases, mem-find?, String, same_opt,
}
use codex_nieuw.Prelude.Outcome.{
  Code, ok, err, >>=-eq-ok, Outcome-cases, require, require-eq-ok, not_found, evidence_not_ready,
  evidence_outside_validity,
}
use codex_nieuw.Store.Rows.{EvidenceStatus, EvidenceObject}
use codex_nieuw.Store.Queries.{is_verified}
use codex_nieuw.Passports.Data.{usable_evidence}
use codex_nieuw.Storage.Scanner.{malware_scan_required}
use codex_nieuw.Storage.Objects.{Services}
use codex_nieuw.Storage.Objects.Checking.{found-some, ok_ok}
use codex_nieuw.Evidence.{
  Checked, Views, load, owns_supplied, assert_current, within_validity, is_current,
}
use codex_nieuw.Evidence.Moving.{IsStamped, transition_row}
use codex_nieuw.Evidence.Handlers.{
  moved_row, transition, inspect, checked_then, conclude, recorded, verify, loaded_current,
}
use codex_nieuw.Evidence.Inspected.{IsStored, IsInspected, inspect-IsInspected}

same_opt_refl : (o : Option ℕ) → same_opt o o ≡ true
same_opt_refl none = refl
same_opt_refl (some n) = ground arith

-- The fields of a verified row that decide whether it counts.
usable_row :
    (s : Services) (now later at : ℕ) (e : EvidenceObject) (c : Checked)
    → IsInspected s later e c
    → within_validity now e ≡ true
    → usable_evidence
        (malware_scan_required s.scanner)
        now
        (moved_row EvidenceStatus.verified c at e)
      ≡ true
unfolding usable_evidence
usable_row s now later at e c i valid = elim (Bool-cases (is_some c.malware_scanned_at)) [
  | inr off ↦ let free = i.unscanned off in ground arith
  | inl on ↦
      let same : same_opt c.malware_scan_sha256 e.sha256 ≡ true =
        rw (i.scan_hash on) (same_opt_refl e.sha256) in
      let hashed : is_some e.sha256 ≡ true = ap is_some i.stored.hashed in
      let kept = i.versioned on in ground (arith, same, hashed, kept.0, kept.1, on)
]

usable_kept :
    (s : Services) (now : ℕ) (e : EvidenceObject)
    → malware_scan_required s.scanner ≡ false
    → is_verified e.verification_status ≡ true
    → within_validity now e ≡ true
    → usable_evidence (malware_scan_required s.scanner) now e ≡ true
unfolding usable_evidence
usable_kept s now e free verified valid = ground arith

-- What a verification promises of the row that it answers with.
pub record IsAccepted (s : Services) (now : ℕ) (row : EvidenceObject) : Type 0 where
  pub usable : usable_evidence (malware_scan_required s.scanner) now row ≡ true
  pub stored : IsStored s row

moved-IsStored :
    (s : Services) (status : EvidenceStatus) (c : Checked) (now : ℕ) (e : EvidenceObject)
    → IsStored s e
    → IsStored s (moved_row status c now e)
moved-IsStored s status c now e st = record {
  etag = st.etag;
  version = st.version;
  chunks = st.chunks;
  served = st.served;
  hashed = st.hashed;
  sized = st.sized;
}

pub err_ok : {A : Type 0} {c : Code} {a : A} → err c ≡ ok a → ⊥
err_ok h = cc

module _ (s : Services) (time : ℕ → ℕ) (uuid : ℕ → ℕ) where
  pub loaded_facts :
      (allow_pending : Bool) (organisation_id id : ℕ) (supplier : Option ℕ) (v : Views)
      (e : EvidenceObject)
      → loaded_current s time uuid allow_pending organisation_id id supplier v ≡ ok e
      → Memᴰ e v.loaded.evidence
        × (is_current allow_pending e.verification_status ≡ true)
        × (within_validity (time 0) e ≡ true)
  unfolding load assert_current loaded_current
  loaded_facts allow_pending organisation_id id supplier v e h =
      let (a, e1, h1) = >>=-eq-ok (load v.loaded organisation_id id supplier) _ h in
      let (u, e2, h2) = >>=-eq-ok (assert_current (time 0) allow_pending a) _ h1 in
      let same : a ≡ e = ok_ok h2 in
      let (u3, e3, h3) =
        >>=-eq-ok (require (is_current allow_pending a.verification_status) evidence_not_ready) _
          e2 in
      subst
        (λ (x : EvidenceObject).
          Memᴰ x v.loaded.evidence
          × (is_current allow_pending x.verification_status ≡ true)
          × (within_validity (time 0) x ≡ true))
        same
        (
          mem-find? (owns_supplied organisation_id id supplier) v.loaded.evidence
              (found-some _ not_found e1),
          require-eq-ok _ evidence_not_ready e3,
          require-eq-ok _ evidence_outside_validity h3,
        )

  -- A failed check of the bytes is never answered.
  pub recorded_fails :
      (code : Code) (subject : String) (e : EvidenceObject) (v : Views) (row : EvidenceObject)
      → (recorded s time uuid code subject e v).answer ≡ ok row
      → ⊥
  unfolding recorded
  recorded_fails code subject e v row h = ground arith

  conclude_accepts :
      (e : EvidenceObject) (subject : String) (v : Views) (c : Checked) (row : EvidenceObject)
      → IsStamped v.loaded.evidence v.final.evidence
      → Memᴰ e v.loaded.evidence
      → within_validity (time 0) e ≡ true
      → IsInspected s (time 1) e c
      → (conclude s time uuid
          (is_verified e.verification_status)
          e
          EvidenceStatus.verified
          subject
          v
          c).answer
        ≡ ok row
      → IsAccepted s (time 0) row
  unfolding conclude
  conclude_accepts e subject v c row stamped mem valid i h =
      elim (Bool-cases (is_verified e.verification_status && not (is_some c.malware_scanned_at))) [
        | inl kept ↦
            let same : e ≡ row = ok_ok (rw (kept, conclude) at h) in
            subst (λ (x : EvidenceObject). IsAccepted s (time 0) x) same
              (record {
                usable = usable_kept s (time 0) e (i.unscanned (ground arith)) (ground arith) valid;
                stored = i.stored;
              })
        | inr open_ ↦
            elim (Outcome-cases (transition (time 3) e EvidenceStatus.verified subject c v.final)) [
              | inr (code, failed_) ↦ absurd (err_ok (rw (open_, failed_, conclude) at h))
              | inl ((row', db'), done) ↦
                  let same : row' ≡ row = ok_ok (rw (open_, done, conclude) at h) in
                  let moved =
                    transition_row (time 3) e EvidenceStatus.verified subject c v.loaded v.final
                      row' db' stamped mem done in
                  subst (λ (x : EvidenceObject). IsAccepted s (time 0) x) (sym moved ∙ same)
                    (record {
                      usable = usable_row s (time 0) (time 1) (time 3) e c i valid;
                      stored = moved-IsStored s EvidenceStatus.verified c (time 3) e i.stored;
                    })
            ]
      ]

  checked_accepts :
      (e : EvidenceObject) (subject : String) (v : Views) (row : EvidenceObject)
      → IsStamped v.loaded.evidence v.final.evidence
      → Memᴰ e v.loaded.evidence
      → within_validity (time 0) e ≡ true
      → (checked_then s time uuid
          (is_verified e.verification_status)
          e
          EvidenceStatus.verified
          subject
          v).answer
        ≡ ok row
      → IsAccepted s (time 0) row
  unfolding checked_then
  checked_accepts e subject v row stamped mem valid h =
      elim (Outcome-cases (inspect s time uuid (time 1) e)) [
        | inl (c, done) ↦
            conclude_accepts e subject v c row stamped mem valid
              (inspect-IsInspected s time uuid (time 1) e c done) (rw (done, checked_then) at h)
        | inr (code, failed_) ↦
            absurd (recorded_fails code subject e v row (rw (failed_, checked_then) at h))
      ]

  -- A verification that answers, whatever other requests did meanwhile, answers with evidence that
  -- is verified, whose validity had begun and not ended when the request loaded it (its first clock
  -- reading), and that is scanned, attested and kept under a version where scanning is required: at
  -- that moment it counts. The store has served bytes of the size and the hash of the row. Rows are
  -- identified by their numbers, and each write of a row gives it a new stamp.
  pub verify-IsAccepted :
      (organisation_id id : ℕ) (subject : String) (v : Views) (row : EvidenceObject)
      → IsStamped v.loaded.evidence v.final.evidence
      → (verify s time uuid organisation_id id subject v).answer ≡ ok row
      → IsAccepted s (time 0) row
  unfolding verify
  verify-IsAccepted organisation_id id subject v row stamped h =
      elim (Outcome-cases (loaded_current s time uuid false organisation_id id none v)) [
        | inr (code, failed_) ↦ absurd (err_ok (rw (failed_, verify) at h))
        | inl (e, loaded) ↦
            let (mem, current, valid) = loaded_facts false organisation_id id none v e loaded in
            checked_accepts e subject v row stamped mem valid (rw (loaded, verify) at h)
      ]
