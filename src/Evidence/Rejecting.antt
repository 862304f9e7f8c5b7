-- ===== src/Evidence/Rejecting.antt =====
-- What the rejection of an infected object leaves behind.
use codex_nieuw.Prelude.{
  ℕ, zero, suc, ◌+◌, ◌≤◌, ◌<◌, ◌≡◌, refl, sym, ap, ◌∙◌, subst, ◌⊎◌, inl, inr, true, false, none,
  some, List, [], ◌∷◌, ◌==◌, find?, map, update_where, count_where, elem, arith, String, All, Memᴰ,
  Bool-cases, Option-cases, ==_iff, Rowwise,
}
use codex_nieuw.Prelude.Outcome.{
  ok, >>=-eq-ok, Outcome-cases, require, require-eq-ok, evidence_changed_retry,
  evidence_links_changed_retry,
}
use codex_nieuw.Batteries.Review.{sort_ids, same_ids}
use codex_nieuw.Batteries.Review.Sorting.{elem-sort_ids}
use codex_nieuw.Batteries.Handlers.{unique}
use codex_nieuw.Store.Rows.{EvidenceStatus, ValueRow, EvidenceObject, EvidenceLink, Db}
use codex_nieuw.Storage.Objects.Checking.{ok_ok}
use codex_nieuw.Evidence.Usable.{err_ok}
use codex_nieuw.Evidence.{
  Views, links_of, owners_of, model_ids_of, lock_models, value_ids, is_unchanged, rejected_row,
  write_rejection, reject_once, reject_loop, is_retry,
}
use codex_nieuw.Evidence.Quiet.{IsQuiet, owners_quiet, invalidate_owners-evidence}

-- The value behind a link is among the owners of the links.
mem-owners_of :
    (id : ℕ) (links : List EvidenceLink) (values : List ValueRow) (owner : ValueRow)
    → elem id (map (λ (l : EvidenceLink). l.value_id) links) ≡ true
    → find? (λ (v : ValueRow). v.id == id) values ≡ some owner
    → Memᴰ owner (owners_of links values)
unfolding owners_of
mem-owners_of id [] values owner h f = absurd (ground arith)
mem-owners_of id (l ∷ links) values owner h f = elim (Bool-cases (l.value_id == id)) [
  | inl here ↦
      let same : l.value_id ≡ id = (==_iff _ _).0 here in
      let here_f : find? (λ (v : ValueRow). v.id == l.value_id) values ≡ some owner =
        subst (λ (k : ℕ). find? (λ (v : ValueRow). v.id == k) values ≡ some owner) (sym same) f in
      rw (here_f, owners_of) (Memᴰ.head refl)
  | inr other ↦
      let later = mem-owners_of id links values owner (ground arith) f in
      elim (Option-cases (find? (λ (v : ValueRow). v.id == l.value_id) values)) [
        | inl none_ ↦ rw (none_, owners_of) later
        | inr (w, found_) ↦ rw (found_, owners_of) (Memᴰ.tail later)
      ]
]

elem_mem :
    (l : EvidenceLink) (links : List EvidenceLink)
    → Memᴰ l links
    → elem l.value_id (map (λ (k : EvidenceLink). k.value_id) links) ≡ true
elem_mem l [] m = elim m [ ]
elem_mem l (k ∷ links) (Memᴰ.head e) =
    let same = ap (λ (x : EvidenceLink). x.value_id) e in ground arith
elem_mem l (k ∷ links) (Memᴰ.tail m) = let ih = elem_mem l links m in ground arith

same_ids-eq : (xs ys : List ℕ) → same_ids xs ys ≡ true → xs ≡ ys
same_ids-eq [] [] h = refl
same_ids-eq [] (y ∷ ys) h = ground arith
same_ids-eq (x ∷ xs) [] h = ground arith
same_ids-eq (x ∷ xs) (y ∷ ys) h =
    let ih = same_ids-eq xs ys (ground arith) in let e : x ≡ y = ground arith in rw (e, ih) refl

-- The same numbers in two orders.
elem-value_ids :
    (id : ℕ) (xs ys : List EvidenceLink)
    → same_ids (value_ids xs) (value_ids ys) ≡ true
    → elem id (map (λ (l : EvidenceLink). l.value_id) xs) ≡ true
    → elem id (map (λ (l : EvidenceLink). l.value_id) ys) ≡ true
elem-value_ids id xs ys same h =
    sym (elem-sort_ids id (map (λ (l : EvidenceLink). l.value_id) ys))
    ∙ ap (elem id) (sym (same_ids-eq (value_ids xs) (value_ids ys) same))
    ∙ elem-sort_ids id (map (λ (l : EvidenceLink). l.value_id) xs)
    ∙ h

-- The rows of the evidence: the loaded one is rejected, the others stay.
abbrev pub Rejected : ℕ → EvidenceObject → EvidenceObject → EvidenceObject → Type 0
Rejected now e a b =
    ((is_unchanged e a ≡ true)
      × (b ≡ record a {
        verification_status = EvidenceStatus.rejected;
        malware_scan_sha256 = none;
        malware_scanned_at = none;
        malware_scanner_version = none;
        updated_at = now;
      }))
    ⊎ ((is_unchanged e a ≡ false) × (b ≡ a))

Rejected-rows :
    (now : ℕ) (e : EvidenceObject) (rows : List EvidenceObject)
    → Rowwise (Rejected now e) rows (update_where (is_unchanged e) (rejected_row now) rows)
Rejected-rows now e [] = tt
Rejected-rows now e (row ∷ rows) = elim (Bool-cases (is_unchanged e row)) [
  | inl hit ↦ rw hit (inl (refl, refl), Rejected-rows now e rows)
  | inr kept ↦ rw kept (inr (refl, refl), Rejected-rows now e rows)
]

-- What a rejection leaves: `linked` and `locked` are what the attempt saw before and after it had the
-- locks. `quiet` ranges over the links that are there under the locks.
pub record IsRejection (now : ℕ) (e : EvidenceObject) (linked locked after : Db) : Type 0 where
  pub one : count_where (is_unchanged e) locked.evidence ≡ 1
  pub rows : Rowwise (Rejected now e) locked.evidence after.evidence
  pub quiet :
      (l : EvidenceLink) (owner : ValueRow)
      → Memᴰ l locked.links
      → l.evidence_id ≡ e.id
      → find? (λ (v : ValueRow). v.id == l.value_id) linked.values ≡ some owner
      → All (IsQuiet e.organisation_id owner) after.items

mem-links_of :
    (id : ℕ) (links : List EvidenceLink) (l : EvidenceLink)
    → Memᴰ l links
    → l.evidence_id ≡ id
    → Memᴰ l (links_of id links)
mem-links_of id [] l m e = elim m [ ]
mem-links_of id (k ∷ links) l (Memᴰ.head same) e =
    let here : (k.evidence_id == id) ≡ true =
      (==_iff _ _).1 (sym (ap (λ (x : EvidenceLink). x.evidence_id) same) ∙ e) in
    rw here (Memᴰ.head same)
mem-links_of id (k ∷ links) l (Memᴰ.tail m) e = elim (Bool-cases (k.evidence_id == id)) [
  | inl here ↦ rw here (Memᴰ.tail (mem-links_of id links l m e))
  | inr other ↦ rw other (mem-links_of id links l m e)
]

written-IsRejection :
    (now : ℕ) (subject : String) (e : EvidenceObject) (linked locked : Db)
    → same_ids (value_ids (links_of e.id locked.links)) (value_ids (links_of e.id linked.links))
      ≡ true
    → count_where (is_unchanged e) locked.evidence ≡ 1
    → IsRejection now e linked locked (
        write_rejection now subject e (owners_of (links_of e.id linked.links) linked.values) locked)
unfolding write_rejection
written-IsRejection now subject e linked locked same one =
    let owners = owners_of (links_of e.id linked.links) linked.values in
    let marked : Db = record locked {
      evidence = update_where (is_unchanged e) (rejected_row now) locked.evidence;
    } in
    record {
      one = one;
      rows =
          rw (invalidate_owners-evidence e.organisation_id owners marked)
            (Rejected-rows now e locked.evidence);
      quiet = λ l owner listed of_e found_. owners_quiet e.organisation_id owner owners marked (
          mem-owners_of l.value_id (links_of e.id linked.links) linked.values owner
            (elem-value_ids l.value_id (links_of e.id locked.links) (links_of e.id linked.links)
              same
              (elem_mem l (links_of e.id locked.links)
                (mem-links_of e.id locked.links l listed of_e)))
            found_);
    }

reject_once-IsRejection :
    (now : ℕ) (subject : String) (e : EvidenceObject) (linked locked after : Db)
    → reject_once now subject e linked locked ≡ ok after
    → IsRejection now e linked locked after
unfolding reject_once
reject_once-IsRejection now subject e linked locked after h =
    let seen = links_of e.id linked.links in
    let owners = owners_of seen linked.values in
    let ids = sort_ids (unique (model_ids_of owners linked.items)) in
    let (u1, e1, h1) = >>=-eq-ok (lock_models locked e.organisation_id ids) _ h in
    let (u2, e2, h2) =
      >>=-eq-ok
        (require (same_ids (value_ids (links_of e.id locked.links)) (value_ids seen))
          evidence_links_changed_retry)
        _ h1 in
    let (u3, e3, h3) =
      >>=-eq-ok (require (count_where (is_unchanged e) locked.evidence == 1) evidence_changed_retry)
        _ h2 in
    subst (λ (x : Db). IsRejection now e linked locked x) (ok_ok h3)
      (written-IsRejection now subject e linked locked
        (require-eq-ok _ evidence_links_changed_retry e2)
        ((==_iff _ _).0 (require-eq-ok _ evidence_changed_retry e3)))

loop-IsRejection :
    (left n now : ℕ) (subject : String) (e : EvidenceObject) (v : Views) (after : Db)
    → reject_loop left n now subject e v ≡ ok after
    → (k : ℕ) × (k ≤ n + left) × IsRejection now e (v.linked k) (v.locked k) after
unfolding reject_loop
loop-IsRejection zero n now subject e v after h =
    (n, omega arith, reject_once-IsRejection now subject e (v.linked n) (v.locked n) after h)
loop-IsRejection (suc left) n now subject e v after h =
    elim (Outcome-cases (reject_once now subject e (v.linked n) (v.locked n))) [
      | inl (db, done) ↦
          let same : db ≡ after = ok_ok (rw (done, reject_loop) at h) in
          (
            n,
            omega arith,
            reject_once-IsRejection now subject e (v.linked n) (v.locked n) after
                (done ∙ ap ok same),
          )
      | inr (code, failed_) ↦ elim (Bool-cases (is_retry code)) [
        | inl again ↦
            let (k, bound, rejection) =
              loop-IsRejection left (n + 1) now subject e v after
                (rw (failed_, again, reject_loop) at h) in
            (k, omega (arith, bound), rejection)
        | inr other ↦ absurd (err_ok (rw (failed_, other, reject_loop) at h))
      ]
    ]

-- Whatever other requests do meanwhile, a recorded rejection was written by one of at most three
-- attempts, and leaves the loaded object, still as it was loaded, rejected and without attestation,
-- every other evidence as it was, and no item that a link to the object concerns, also a link that
-- was added while the attempt waited for the locks, ready, published, registered or pending in the
-- Registry.
pub reject_loop-IsRejection :
    (now : ℕ) (subject : String) (e : EvidenceObject) (v : Views) (after : Db)
    → reject_loop 2 0 now subject e v ≡ ok after
    → (k : ℕ) × (k < 3) × IsRejection now e (v.linked k) (v.locked k) after
reject_loop-IsRejection now subject e v after h =
    let (k, bound, rejection) = loop-IsRejection 2 0 now subject e v after h in
    (k, omega (arith, bound), rejection)
