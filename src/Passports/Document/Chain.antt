-- ===== src/Passports/Document/Chain.antt =====
-- The versions of an item form a chain: numbered from 1 without a gap, each with the hash of the one
-- before it. Publication keeps every chain of the database.
use codex_nieuw.Prelude.{
  ℕ, ◌+◌, ◌≤◌, ◌≡◌, refl, sym, ap, ◌∙◌, true, Option, none, some, List, [], ◌∷◌, ◌++◌, arith, inl,
  inr, keep, keep-append, length, Bool-cases,
}
use mathlib.Core.List.{append-nil}
use codex_nieuw.Prelude.Outcome.{ok}
use codex_nieuw.Store.Rows.{PassportVersion, CanonicalPassport, Db}
use codex_nieuw.Store.Queries.{latest_of, of_item}
use codex_nieuw.Tenant.Access.{Actor}
use codex_nieuw.Passports.Data.{Platform}
use codex_nieuw.Passports.Document.{new_version, publish, store_publication}
use codex_nieuw.Passports.Document.Publishing.{publish-IsWritten}

-- The rows continue a chain that has `n` versions, the last with the hash `prev`.
abbrev pub Linked : ℕ → Option ℕ → List PassportVersion → Type 0
Linked n prev [] = Unit {0}
Linked n prev (v ∷ vs) =
    (v.version_no ≡ n + 1) × (v.previous_version_hash ≡ prev) × Linked (n + 1) (some v.sha256) vs

abbrev last_hash : Option ℕ → List PassportVersion → Option ℕ
last_hash prev [] = prev
last_hash prev (v ∷ vs) = last_hash (some v.sha256) vs

latest_of-Linked :
    (n : ℕ) (prev : Option ℕ) (v : PassportVersion) (vs : List PassportVersion)
    → Linked n prev (v ∷ vs)
    → (w : PassportVersion) × (latest_of (v ∷ vs) ≡ some w)
      × (w.version_no ≡ n + length (v ∷ vs))
      × (last_hash prev (v ∷ vs) ≡ some w.sha256)
unfolding latest_of
latest_of-Linked n prev v [] h = (v, refl, omega arith, refl)
latest_of-Linked n prev v (u ∷ us) h =
    let (w, latest, number, hash) = latest_of-Linked (n + 1) (some v.sha256) u us h.2 in
    let older : v.version_no ≤ w.version_no = omega arith in (w, ground arith, omega arith, hash)

Linked-append :
    (n : ℕ) (prev : Option ℕ) (vs : List PassportVersion) (r : PassportVersion)
    → Linked n prev vs
    → r.version_no ≡ n + length vs + 1
    → r.previous_version_hash ≡ last_hash prev vs
    → Linked n prev (vs ++ r ∷ [])
Linked-append n prev [] r h number hash = (omega arith, hash, tt)
Linked-append n prev (v ∷ vs) r h number hash =
    (h.0, h.1, Linked-append (n + 1) (some v.sha256) vs r h.2 (omega arith) hash)

-- The chain of every item of every organisation.
pub record IsChained (db : Db) : Type 0 where
  pub chain :
      (organisation_id item_id : ℕ)
      → Linked 0 none (keep (of_item organisation_id item_id) db.versions)

module _ (p : Platform) (time : ℕ → ℕ) (uuid : ℕ → ℕ) (actor : Actor) where
  Linked-new_version :
      (o i : ℕ) (c : CanonicalPassport) (vs : List PassportVersion)
      → Linked 0 none vs
      → Linked 0 none (vs ++ new_version p time uuid actor (latest_of vs) o i c ∷ [])
  Linked-new_version o i c [] h = unfold new_version latest_of in ground arith
  Linked-new_version o i c (v ∷ vs) h =
      let (w, latest, number, hash) = latest_of-Linked 0 none v vs h in
      Linked-append 0 none (v ∷ vs) (new_version p time uuid actor (latest_of (v ∷ vs)) o i c) h
        (rw latest (unfold new_version in omega arith)) (rw latest (unfold new_version in sym hash))

  keep_new :
      (o i o' i' : ℕ) (latest : Option PassportVersion) (c : CanonicalPassport)
      → of_item o' i' (new_version p time uuid actor latest o i c) ≡ true
      → (o ≡ o') × (i ≡ i')
  unfolding new_version
  keep_new o i o' i' latest c h = ground arith

  chain_after :
      (o i o' i' : ℕ) (c : CanonicalPassport) (vs : List PassportVersion)
      → let row = new_version p time uuid actor (latest_of (keep (of_item o i) vs)) o i c in
        Linked 0 none (keep (of_item o' i') vs)
        → Linked 0 none (keep (of_item o' i') (vs ++ row ∷ []))
  chain_after o i o' i' c vs h =
      let row = new_version p time uuid actor (latest_of (keep (of_item o i) vs)) o i c in
      rw (keep-append (of_item o' i') vs row) (elim (Bool-cases (of_item o' i' row)) [
        | inr other ↦ rw (other, append-nil) h
        | inl same ↦
            let (e, f) = keep_new o i o' i' (latest_of (keep (of_item o i) vs)) c same in
            rw (same, e, f) (Linked-new_version o' i' c (keep (of_item o' i') vs) h)
      ])

  -- Publication keeps the chains: the new row ends the chain of its item, every older row stays as
  -- it is, and the chains of other items do not change.
  pub publish-IsChained :
      (organisation_id item_id : ℕ) (db : Db) (row : PassportVersion) (new : Db)
      → publish p time uuid actor organisation_id item_id db ≡ ok (row, new)
      → IsChained db
      → IsChained new × (new.versions ≡ db.versions ++ row ∷ [])
  publish-IsChained o i db row new h chained =
      let facts = publish-IsWritten p time uuid actor o i db row new h in
      let grown : new.versions ≡ db.versions ++ row ∷ [] =
        ap (λ (d : Db). d.versions) facts.written ∙ (unfold store_publication in refl) in
      (
        record {
          chain = λ o' i'.
              rw (grown, facts.row_lem) (chain_after o i o' i' _ db.versions (chained.chain o' i'));
        },
        grown,
      )
