-- ===== src/Access/Revoking.antt =====
-- The life of a grant: its token opens a session during its validity, until it is revoked.
use codex_nieuw.Prelude.{
  ℕ, ◌+◌, ◌*◌, ◌≤◌, ◌<◌, ◌≡◌, inl, inr, refl, Bool, true, false, Option, none, some, List, [], ◌∷◌,
  ◌++◌, arith, if◌then◌else◌, find?, find?_sound, keep, update_where, Bool-cases, Option-cases, ◌∙◌,
}
use codex_nieuw.Prelude.Outcome.{ok, err, ◌>>=◌, >>=-eq-ok, found, not_found, access_grant_inactive}
use codex_nieuw.Json.{Text}
use codex_nieuw.Store.Rows.{AccessGrant, PassportVersion, Db}
use codex_nieuw.Store.Queries.{owns_item, latest_of, of_item}
use codex_nieuw.Tenant.Access.{Actor}
use codex_nieuw.Passports.Projection.{is_capability_tier, project_passport}
use codex_nieuw.Access.{
  GrantBody, ActiveGrant, SessionView, owns_grant, by_token, by_key, has_grant_id, is_blank_token,
  activate, new_grant, create_grant, revoked_grant, revoke_rows, revoke_grant, with_grant,
  read_passport, session,
}

module _ {A : Type 0} where
  -- the first row that passes a test passes a narrower one, and so is the first that does
  find?-narrow :
      (p q : A → Bool) (xs : List A) {a : A}
      → ((x : A) → q x ≡ true → p x ≡ true)
      → find? p xs ≡ some a
      → q a ≡ true
      → find? q xs ≡ some a
  find?-narrow p q [] n h k = ground arith
  find?-narrow p q (x ∷ xs) {a} n h k = elim (Bool-cases (p x)) [
    | inl here ↦
        let e : some x ≡ some a = ground arith in
        let same : x ≡ a = ground arith in let qx : q x ≡ true = rw same k in ground arith
    | inr skipped ↦
        let nx = n x in
        let qx : q x ≡ false = ground arith in
        let ih = find?-narrow p q xs {a = a} n (ground arith) k in ground arith
  ]

  find?-update_where :
      (p q : A → Bool) (f : A → A) (xs : List A) {a : A}
      → ((x : A) → p (f x) ≡ p x)
      → find? p xs ≡ some a
      → find? p (update_where q f xs) ≡ some (if q a then f a else a)
  find?-update_where p q f [] n h = ground arith
  find?-update_where p q f (x ∷ xs) {a} n h =
      let nx = n x in
      elim (Bool-cases (p x)) [
        | inl here ↦ let same : x ≡ a = ground arith in rw (← same) (ground arith)
        | inr skipped ↦
            let ih = find?-update_where p q f xs {a = a} n (ground arith) in ground arith
      ]

  find?-append :
      (p : A → Bool) (xs : List A) (y : A)
      → find? p xs ≡ none
      → p y ≡ true
      → find? p (xs ++ y ∷ []) ≡ some y
  find?-append p [] y h k = ground arith
  find?-append p (x ∷ xs) y h k = ground (arith, find?-append p xs y)

narrower :
    (g : AccessGrant) (hash : ℕ) (x : AccessGrant) → by_key g hash x ≡ true → by_token hash x ≡ true
narrower g hash x h = ground arith

own_key : (g : AccessGrant) (hash : ℕ) → by_token hash g ≡ true → by_key g hash g ≡ true
own_key g hash h = ground arith

-- Both reads of `withGrant` find the same grant.
with_grant-found :
    (sha256 : Text → ℕ) (now : ℕ) (token : Text) (db : Db) (g : AccessGrant)
    → is_blank_token (some token) ≡ false
    → find? (by_token (sha256 token)) db.grants ≡ some g
    → session sha256 now (some token) db
      ≡ (activate now g g.item_id g.valid_until >>= read_passport db)
unfolding session with_grant
with_grant-found sha256 now token db g given known =
    let again =
      find?-narrow (by_token (sha256 token)) (by_key g (sha256 token)) db.grants
        (narrower g (sha256 token)) known
        (own_key g (sha256 token) (find?_sound (by_token (sha256 token)) db.grants known)) in
    rw (given, known, again) refl

activate_revoked :
    (now : ℕ) (g : AccessGrant) (t : ℕ) (item until : Option ℕ)
    → g.revoked_at ≡ some t
    → activate now g item until ≡ err access_grant_inactive
unfolding activate
activate_revoked now g t none until h = refl
activate_revoked now g t (some i) none h = refl
activate_revoked now g t (some i) (some u) h = ground arith

read_passport-latest :
    (db : Db) (a : ActiveGrant) (v : PassportVersion)
    → latest_of (keep (of_item (a.grant).organisation_id a.item_id) db.versions) ≡ some v
    → (view : SessionView) × (after : Db) × (read_passport db a ≡ ok (view, after))
      × (view.passport ≡ project_passport v.canonical (some (a.grant).access_tier))
      × (view.expires_at ≡ a.valid_until)
unfolding read_passport
read_passport-latest db a v h = rw h (_, _, refl, refl, refl)

module _ (sha256 : Text → ℕ) (time : ℕ → ℕ) (uuid : ℕ → ℕ) (actor : Actor) where
  -- After the revocation of a grant its token opens no session at any time, whether the grant was
  -- revoked before or not. The grant is the one that its number and its token find.
  pub revoke_grant-session :
      (organisation_id : ℕ) (g : AccessGrant) (db : Db) (r : Option ℕ) (new : Db)
      → revoke_grant sha256 time uuid actor organisation_id g.id db ≡ ok (r, new)
      → (token : Text) (now : ℕ) → is_blank_token (some token) ≡ false
      → find? (owns_grant organisation_id g.id) db.grants ≡ some g
      → find? (by_token (sha256 token)) db.grants ≡ some g
      → session sha256 now (some token) new ≡ err access_grant_inactive
  unfolding revoke_grant
  revoke_grant-session o g db r new h token now given numbered known =
      elim (Option-cases g.revoked_at) [
        | inr (t, before) ↦
            let same : new ≡ db = ground arith in
            let opened = with_grant-found sha256 now token db g given known in
            let dead = activate_revoked now g t g.item_id g.valid_until before in
            rw (same, opened, dead) refl
        | inl alive ↦
            let same : new ≡ revoke_rows sha256 time uuid actor o g.id db = ground arith in
            let gone = revoked_grant sha256 time uuid actor g in
            let updated =
              find?-update_where (by_token (sha256 token)) (has_grant_id g.id)
                (revoked_grant sha256 time uuid actor) db.grants (λ x. refl) known in
            let found_gone : find? (by_token (sha256 token))
                  (revoke_rows sha256 time uuid actor o g.id db).grants
                ≡ some gone =
              ground arith in
            let opened =
              with_grant-found sha256 now token (revoke_rows sha256 time uuid actor o g.id db) gone
                given found_gone in
            let dead = activate_revoked now gone (time 0) g.item_id g.valid_until refl in
            rw (same, opened, dead) refl
      ]

  -- A grant that is created with a token that no earlier grant has opens a session, from its start
  -- and for as many hours as it was given, on the latest published version of its item.
  pub create_grant-session :
      (organisation_id : ℕ) (token : Text) (b : GrantBody) (db : Db) (g : AccessGrant) (new : Db)
      → create_grant sha256 time uuid actor organisation_id token b db ≡ ok (g, new)
      → is_blank_token (some token) ≡ false
      → find? (by_token (sha256 token)) db.grants ≡ none
      → is_capability_tier b.access_tier ≡ true
      → (now : ℕ) (v : PassportVersion) → time 0 ≤ now
      → now < time 1 + b.valid_for_hours * 3600000
      → latest_of (keep (of_item organisation_id b.item_id) db.versions) ≡ some v
      → (view : SessionView) × (after : Db) × (session sha256 now (some token) new
          ≡ ok (view, after))
        × (view.passport ≡ project_passport v.canonical (some b.access_tier))
        × (view.expires_at ≡ time 1 + b.valid_for_hours * 3600000)
  unfolding create_grant
  create_grant-session o token b db g new h given fresh tier now v begun ended latest =
      let (item, owned, h1) =
        >>=-eq-ok (found (find? (owns_item o b.item_id) db.items) not_found) _ h in
      let made = new_grant sha256 time uuid actor o token b in
      let grants : new.grants ≡ db.grants ++ made ∷ [] = ground arith in
      let versions : new.versions ≡ db.versions = ground arith in
      let known : find? (by_token (sha256 token)) new.grants ≡ some made =
        rw grants (find?-append (by_token (sha256 token)) db.grants made fresh (ground arith)) in
      let opened = with_grant-found sha256 now token new made given known in
      let newest : latest_of (keep (of_item o b.item_id) new.versions) ≡ some v =
        rw versions latest in
      let until = time 1 + b.valid_for_hours * 3600000 in
      let active : activate now made made.item_id made.valid_until
          ≡ ok record { grant = made; item_id = b.item_id; valid_until = until } =
        unfold activate in ground arith in
      let (view, after, read, shown, limit) =
        read_passport-latest new (record { grant = made; item_id = b.item_id; valid_until = until })
          v newest in
      (view, after, opened ∙ rw active read, shown, limit)
