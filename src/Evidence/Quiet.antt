-- ===== src/Evidence/Quiet.antt =====
-- Items that the invalidation of a value's owner has taken out of publication.
use codex_nieuw.Prelude.{
  ℕ, ◌≡◌, refl, sym, ap, subst, inl, inr, false, ◌&&◌, Option, none, some, List, [], ◌∷◌, ◌==◌,
  arith, All, Memᴰ,
}
use codex_nieuw.Rules.StateMachine.{ready, published, registry_pending, registered, one_of}
use codex_nieuw.Store.Rows.{BatteryItem, ValueRow, Db}
use codex_nieuw.Tenant.PassportLock.{is_affected, invalidate_passports}
use codex_nieuw.Tenant.PassportLock.Invalidate.{
  SameItem, Invalidated, Pointwise, invalidate_passports_lem,
}
use codex_nieuw.Evidence.{invalidate_owners}

-- An item that a value belongs to does not count as ready or published.
abbrev pub IsQuiet : ℕ → ValueRow → BatteryItem → Type 0
IsQuiet organisation_id owner item =
    (is_affected organisation_id owner.item_id owner.model_id item
      && one_of item.passport_state (ready ∷ published ∷ registered ∷ registry_pending ∷ []))
    ≡ false

is_affected_same :
    (o : ℕ) (i m : Option ℕ) (a b : BatteryItem)
    → SameItem a b
    → is_affected o i m b ≡ is_affected o i m a
is_affected_same o (some i) m a b same =
    ap (λ (x : BatteryItem). x.organisation_id == o && (x.id == i)) same
is_affected_same o none none a b same =
    ap (λ (x : BatteryItem). x.organisation_id == o && false) same
is_affected_same o none (some m) a b same =
    ap (λ (x : BatteryItem). x.organisation_id == o && (m == x.model_id)) same

quiet_made :
    (o : ℕ) (owner : ValueRow) (a b : BatteryItem)
    → Invalidated o owner.item_id owner.model_id a b
    → IsQuiet o owner b
quiet_made o owner a b (same, quiet, legal) =
    rw (is_affected_same o owner.item_id owner.model_id a b same) quiet

quiet_kept :
    (o : ℕ) (owner other : ValueRow) (a b : BatteryItem)
    → Invalidated o other.item_id other.model_id a b
    → IsQuiet o owner a
    → IsQuiet o owner b
quiet_kept o owner other a b (same, quiet, inl unchanged) h =
    rw (is_affected_same o owner.item_id owner.model_id a b same, unchanged) h
quiet_kept o owner other a b (same, quiet, inr (affected, legal)) h = ground arith

pub quiet_all_made :
    (o : ℕ) (owner : ValueRow) (xs ys : List BatteryItem)
    → Pointwise (Invalidated o owner.item_id owner.model_id) xs ys
    → All (IsQuiet o owner) ys
quiet_all_made o owner [] [] p = tt
quiet_all_made o owner [] (y ∷ ys) p = absurd p
quiet_all_made o owner (x ∷ xs) [] p = absurd p
quiet_all_made o owner (x ∷ xs) (y ∷ ys) (here, later) =
    (quiet_made o owner x y here, quiet_all_made o owner xs ys later)

quiet_all_kept :
    (o : ℕ) (owner other : ValueRow) (xs ys : List BatteryItem)
    → Pointwise (Invalidated o other.item_id other.model_id) xs ys
    → All (IsQuiet o owner) xs
    → All (IsQuiet o owner) ys
quiet_all_kept o owner other [] [] p h = tt
quiet_all_kept o owner other [] (y ∷ ys) p h = absurd p
quiet_all_kept o owner other (x ∷ xs) [] p h = absurd p
quiet_all_kept o owner other (x ∷ xs) (y ∷ ys) (here, later) h =
    (quiet_kept o owner other x y here h.0, quiet_all_kept o owner other xs ys later h.1)

-- The loop over the owners keeps what it has made.
owners_keep :
    (o : ℕ) (owner : ValueRow) (owners : List ValueRow) (db : Db)
    → All (IsQuiet o owner) db.items
    → All (IsQuiet o owner) (invalidate_owners o owners db).items
unfolding invalidate_owners
owners_keep o owner [] db h = h
owners_keep o owner (v ∷ owners) db h =
    owners_keep o owner owners (invalidate_passports o v.item_id v.model_id db)
      (quiet_all_kept o owner v db.items _ (invalidate_passports_lem o v.item_id v.model_id db) h)

pub owners_quiet :
    (o : ℕ) (owner : ValueRow) (owners : List ValueRow) (db : Db)
    → Memᴰ owner owners
    → All (IsQuiet o owner) (invalidate_owners o owners db).items
unfolding invalidate_owners
owners_quiet o owner [] db m = elim m [ ]
owners_quiet o owner (v ∷ owners) db (Memᴰ.head e) =
    owners_keep o owner owners (invalidate_passports o v.item_id v.model_id db) (
      subst
        (λ (w : ValueRow). All (IsQuiet o w) (invalidate_passports o v.item_id v.model_id db).items)
        (sym e)
        (quiet_all_made o v db.items _ (invalidate_passports_lem o v.item_id v.model_id db)))
owners_quiet o owner (v ∷ owners) db (Memᴰ.tail m) =
    owners_quiet o owner owners (invalidate_passports o v.item_id v.model_id db) m

pub invalidate_owners-evidence :
    (o : ℕ) (owners : List ValueRow) (db : Db)
    → (invalidate_owners o owners db).evidence ≡ db.evidence
unfolding invalidate_owners invalidate_passports
invalidate_owners-evidence o [] db = refl
invalidate_owners-evidence o (v ∷ owners) db =
    invalidate_owners-evidence o owners (invalidate_passports o v.item_id v.model_id db)
