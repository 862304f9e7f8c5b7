-- ===== src/Evidence/Linking.antt =====
-- `POST evidence/link` of apps/api/src/modules/evidence/evidence.controller.ts. The relationship and
-- the locator of a link are left out.
use codex_nieuw.Prelude.{
  ℕ, ◌≡◌, subst, inl, inr, Bool, true, false, not, ◌&&◌, some, List, [], ◌∷◌, ◌++◌, ◌==◌,
  if◌then◌else◌, find?, any, arith, All, Memᴰ, Bool-cases,
}
use codex_nieuw.Prelude.Outcome.{
  Outcome, ok, ◌>>=◌, ◌>>◌, >>=-eq-ok, require, require-eq-ok, found, not_found, evidence_not_ready,
}
use codex_nieuw.Store.Rows.{ValueRow, EvidenceObject, EvidenceLink, Db}
use codex_nieuw.Tenant.Access.{Actor}
use codex_nieuw.Tenant.PassportLock.{lock_value_owner, invalidate_passports}
use codex_nieuw.Tenant.PassportLock.Invalidate.{invalidate_passports_lem}
use codex_nieuw.Passports.Document.{audit_event}
use codex_nieuw.Suppliers.{owns_evidence, is_refused}
use codex_nieuw.Storage.Objects.Checking.{found-some, ok_ok}
use codex_nieuw.Evidence.Quiet.{IsQuiet, quiet_all_made}

abbrev pub owns_value : ℕ → ℕ → ValueRow → Bool
owns_value organisation_id id v = v.id == id && (v.organisation_id == organisation_id)

abbrev pub is_link : ℕ → ℕ → EvidenceLink → Bool
is_link evidence_id value_id l = l.evidence_id == evidence_id && (l.value_id == value_id)

-- `upsert`: an existing link stays.
abbrev pub upsert_link : ℕ → ℕ → List EvidenceLink → List EvidenceLink
upsert_link evidence_id value_id links =
    if any (is_link evidence_id value_id) links
    then links
    else links ++ record { evidence_id = evidence_id; value_id = value_id } ∷ []

-- The writes of `link`.
unfoldable pub write_link : Actor → ℕ → ℕ → ValueRow → Db → Db
write_link actor organisation_id evidence_id value db =
    let linked = record db { links = upsert_link evidence_id value.id db.links } in
    let invalidated = invalidate_passports organisation_id value.item_id value.model_id linked in
    record invalidated {
      audit = invalidated.audit ++ audit_event organisation_id actor "evidence.link" value.id ∷ [];
    }

-- `link`
unfoldable pub link : Actor → ℕ → ℕ → ℕ → Db → Outcome (Unit {0} × Db)
link actor organisation_id evidence_id value_id db = do
  first ← found (find? (owns_evidence organisation_id evidence_id) db.evidence) not_found
  value ← found (find? (owns_value organisation_id value_id) db.values) not_found
  lock_value_owner db organisation_id value.item_id value.model_id
  evidence ← found (find? (owns_evidence organisation_id evidence_id) db.evidence) not_found
  require (not (is_refused evidence.verification_status)) evidence_not_ready
  ok (tt, write_link actor organisation_id evidence_id value db)

-- What an accepted link leaves.
pub record IsLinked (organisation_id evidence_id value_id : ℕ) (db after : Db) : Type 0 where
  pub evidence : EvidenceObject
  pub value : ValueRow
  pub owned : find? (owns_evidence organisation_id evidence_id) db.evidence ≡ some evidence
  pub usable : is_refused evidence.verification_status ≡ false
  pub valued : find? (owns_value organisation_id value_id) db.values ≡ some value
  pub present : any (is_link evidence_id value.id) after.links ≡ true
  pub kept : (l : EvidenceLink) → Memᴰ l db.links → Memᴰ l after.links
  pub quiet : All (IsQuiet organisation_id value) after.items

any-append :
    {A : Type 0} (p : A → Bool) (xs : List A) (y : A) → p y ≡ true → any p (xs ++ y ∷ []) ≡ true
any-append p [] y h = ground arith
any-append p (x ∷ xs) y h = let ih = any-append p xs y h in ground arith

mem_append_left : {A : Type 0} {a : A} (xs ys : List A) → Memᴰ a xs → Memᴰ a (xs ++ ys)
mem_append_left [] ys m = elim m [ ]
mem_append_left (x ∷ xs) ys (Memᴰ.head e) = Memᴰ.head e
mem_append_left (x ∷ xs) ys (Memᴰ.tail m) = Memᴰ.tail (mem_append_left xs ys m)

upsert_present :
    (e v : ℕ) (links : List EvidenceLink) → any (is_link e v) (upsert_link e v links) ≡ true
upsert_present e v links = elim (Bool-cases (any (is_link e v) links)) [
  | inl there ↦ rw there there
  | inr absent ↦ rw absent (any-append (is_link e v) links _ (ground arith))
]

upsert_kept :
    (e v : ℕ) (links : List EvidenceLink) (l : EvidenceLink)
    → Memᴰ l links
    → Memᴰ l (upsert_link e v links)
upsert_kept e v links l m = elim (Bool-cases (any (is_link e v) links)) [
  | inl there ↦ rw there m
  | inr absent ↦ rw absent (mem_append_left links _ m)
]

not-true : {b : Bool} → not b ≡ true → b ≡ false
not-true {b} h = ground arith

-- An accepted link is for evidence and a value of the organisation, the evidence neither rejected nor
-- superseded; the link is there afterwards beside all earlier ones; and no item that the value
-- concerns is ready, published, registered or pending in the Registry any more.
pub link-IsLinked :
    (actor : Actor) (organisation_id evidence_id value_id : ℕ) (db after : Db)
    → link actor organisation_id evidence_id value_id db ≡ ok (tt, after)
    → IsLinked organisation_id evidence_id value_id db after
unfolding link write_link
link-IsLinked actor o e v db after h =
    let (first, e1, h1) = >>=-eq-ok (found (find? (owns_evidence o e) db.evidence) not_found) _ h in
    let (value, e2, h2) = >>=-eq-ok (found (find? (owns_value o v) db.values) not_found) _ h1 in
    let (u3, e3, h3) = >>=-eq-ok (lock_value_owner db o value.item_id value.model_id) _ h2 in
    let (evidence, e4, h4) =
      >>=-eq-ok (found (find? (owns_evidence o e) db.evidence) not_found) _ h3 in
    let (u5, e5, h5) =
      >>=-eq-ok (require (not (is_refused evidence.verification_status)) evidence_not_ready) _ h4 in
    let linked : Db = record db { links = upsert_link e value.id db.links } in
    subst (λ (x : Unit {0} × Db). IsLinked o e v db x.1) (ok_ok h5)
      (record {
        evidence = evidence;
        value = value;
        owned = found-some _ not_found e4;
        usable = not-true (require-eq-ok _ evidence_not_ready e5);
        valued = found-some _ not_found e2;
        present = unfold invalidate_passports in (upsert_present e value.id db.links);
        kept = unfold invalidate_passports in (upsert_kept e value.id db.links);
        quiet =
            quiet_all_made o value linked.items _
              (invalidate_passports_lem o value.item_id value.model_id linked);
      })
