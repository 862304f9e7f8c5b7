-- ===== src/Evidence/Moving.antt =====
-- What a transition leaves of the row that it moves.
use mathlib.Core.Bool.{false≢true}
use codex_nieuw.Prelude.{
  ℕ, ◌<◌, ◌≡◌, refl, sym, ap, ◌∙◌, subst, inl, inr, Bool, true, false, some, List, [], ◌∷◌, ◌==◌,
  if◌then◌else◌, find?, update_where, count_where, arith, Memᴰ, String, Bool-cases, ==_iff,
  find?_sound, mem-find?,
}
use codex_nieuw.Prelude.Outcome.{
  ok, >>=-eq-ok, require, require-eq-ok, found, not_found, evidence_changed_retry,
}
use codex_nieuw.Store.Rows.{EvidenceStatus, EvidenceObject, Db}
use codex_nieuw.Storage.Objects.Checking.{found-some, ok_ok}
use codex_nieuw.Evidence.{Checked, is_unchanged, assert_current}
use codex_nieuw.Evidence.Handlers.{moved_row, has_id, transition, is_uploaded}

-- What the database provides between two reads: the number of a row is its primary key, and every
-- write of a row gives it a new `updatedAt`.
pub record IsStamped (loaded final : List EvidenceObject) : Type 0 where
  pub keys : (a b : EvidenceObject) → Memᴰ a final → Memᴰ b final → a.id ≡ b.id → a ≡ b
  pub stamps :
      (a b : EvidenceObject)
      → Memᴰ a loaded
      → Memᴰ b final
      → b.id ≡ a.id
      → b.updated_at ≡ a.updated_at
      → b ≡ a

module _ {A : Type 0} (p : A → Bool) where
  counted : (xs : List A) → 0 < count_where p xs → (a : A) × Memᴰ a xs × (p a ≡ true)
  counted [] h = absurd (omega arith)
  counted (x ∷ xs) h = elim (Bool-cases (p x)) [
    | inl here ↦ (x, Memᴰ.head refl, here)
    | inr other ↦ let (a, m, e) = counted xs (ground arith) in (a, Memᴰ.tail m, e)
  ]

  -- A rewriting that keeps the test of a search moves what is found.
  find?-update_where :
      (f : A → A) (q : A → Bool)
      → ((x : A) → q (f x) ≡ q x)
      → (xs : List A) {b : A} → find? q (update_where p f xs) ≡ some b
      → (a : A) × (find? q xs ≡ some a) × (b ≡ (if p a then f a else a))
  find?-update_where f q keeps [] h = absurd (ground arith)
  find?-update_where f q keeps (x ∷ xs) h = elim (Bool-cases (p x)) [
    | inl hit ↦ elim (Bool-cases (q x)) [
      | inl here ↦ (x, rw here refl, ground (arith, keeps x))
      | inr other ↦ rw other (find?-update_where f q keeps xs (ground (arith, keeps x)))
    ]
    | inr kept ↦ elim (Bool-cases (q x)) [
      | inl here ↦ (x, rw here refl, ground arith)
      | inr other ↦ rw other (find?-update_where f q keeps xs (ground arith))
    ]
  ]

unchanged_facts :
    (e row : EvidenceObject)
    → is_unchanged e row ≡ true
    → (row.id ≡ e.id) × (row.updated_at ≡ e.updated_at)
unchanged_facts e row h = ground arith

taken : {A : Type 0} (b : Bool) (x y : A) → b ≡ true → (if b then x else y) ≡ x
taken true x y h = refl
taken false x y h = absurd (false≢true h)

-- A transition answers with the loaded row, moved, and stores it.
pub transition_row :
    (now : ℕ) (e : EvidenceObject) (status : EvidenceStatus) (subject : String) (c : Checked)
    (loaded db : Db) (row : EvidenceObject) (db' : Db)
    → IsStamped loaded.evidence db.evidence
    → Memᴰ e loaded.evidence
    → transition now e status subject c db ≡ ok (row, db')
    → row ≡ moved_row status c now e
unfolding transition
transition_row now e status subject c loaded db row db' stamped mem h =
    let rows = update_where (is_unchanged e) (moved_row status c now) db.evidence in
    let (u1, e1, h1) = >>=-eq-ok (assert_current now (is_uploaded status) e) _ h in
    let (u2, e2, h2) =
      >>=-eq-ok (require (count_where (is_unchanged e) db.evidence == 1) evidence_changed_retry) _
        h1 in
    let (stored, e3, h3) = >>=-eq-ok (found (find? (has_id e.id) rows) not_found) _ h2 in
    let same : stored ≡ row = ap (λ (x : EvidenceObject × Db). x.0) (ok_ok h3) in
    let one : count_where (is_unchanged e) db.evidence ≡ 1 =
      (==_iff _ _).0 (require-eq-ok _ evidence_changed_retry e2) in
    let (hit, listed, unchanged) = counted (is_unchanged e) db.evidence (omega (arith, one)) in
    let (a, first, result) =
      find?-update_where (is_unchanged e) (moved_row status c now) (has_id e.id) (λ x. refl)
        db.evidence (found-some _ not_found e3) in
    let facts = unchanged_facts e hit unchanged in
    let hit_is : hit ≡ e = stamped.stamps e hit mem listed facts.0 facts.1 in
    let a_id : a.id ≡ e.id = (==_iff _ _).0 (find?_sound (has_id e.id) db.evidence first) in
    let a_is : a ≡ e =
      stamped.keys a hit (mem-find? (has_id e.id) db.evidence first) listed (a_id ∙ sym facts.0)
      ∙ hit_is in
    let unchanged_a : is_unchanged e a ≡ true =
      subst (λ (x : EvidenceObject). is_unchanged e x ≡ true) (hit_is ∙ sym a_is) unchanged in
    sym same ∙ result ∙ taken (is_unchanged e a) _ a unchanged_a ∙ ap (moved_row status c now) a_is
