-- ===== src/Access/Session.antt =====
-- What a session discloses, and to whom.
use codex_nieuw.Prelude.{
  ℕ, ◌≤◌, ◌<◌, ◌≡◌, ◌≢◌, ◌⊎◌, inl, inr, true, not, Option, none, some, arith, find?, find?_sound,
  mem-find?, keep, Option-cases, Memᴰ,
}
use codex_nieuw.Prelude.Outcome.{
  ok, >>=-eq-ok, require, found, access_token_required, invalid_access_token, no_published_passport,
  Code,
}
use codex_nieuw.Json.{Text}
use codex_nieuw.Rules.Types.{AccessTier, public, authority_only}
use codex_nieuw.Store.Rows.{AccessGrant, PublicValue, PassportVersion, Db}
use codex_nieuw.Store.Queries.{latest_of, of_item}
use codex_nieuw.Passports.Projection.{is_capability_tier, project_passport}
use codex_nieuw.Passports.Projection.Disclosure.{IsDisclosable, project_passport-IsDisclosable}
use codex_nieuw.Access.{
  ActiveGrant, SessionView, by_token, by_key, is_blank_token, activate, with_grant, read_passport,
  session,
}

pub found_code {ℓ} : {A : Type ℓ} (o : Option A) (c : Code) {a : A} → found o c ≡ ok a → o ≡ some a
found_code none c h = ground arith
found_code (some b) c h = ground arith

-- A grant of the database that the token opens at the time.
pub record IsOpenGrant (db : Db) (hash now : ℕ) (g : AccessGrant) (item_id until : ℕ) : Type 0 where
  pub listed : Memᴰ g db.grants
  pub token : g.token_hash ≡ hash
  pub not_revoked : g.revoked_at ≡ none
  pub item : g.item_id ≡ some item_id
  pub limit : g.valid_until ≡ some until
  pub begun : g.valid_from ≤ now
  pub not_ended : now < until
  pub tier : is_capability_tier g.access_tier ≡ true

activate-eq-ok :
    (now : ℕ) (g : AccessGrant) (item until : Option ℕ) (a : ActiveGrant)
    → activate now g item until ≡ ok a
    → (a.grant ≡ g)
      × (item ≡ some a.item_id)
      × (until ≡ some a.valid_until)
      × (g.revoked_at ≡ none)
      × (g.valid_from ≤ now)
      × (now < a.valid_until)
      × (is_capability_tier g.access_tier ≡ true)
unfolding activate
activate-eq-ok now g (some i) (some u) a h = elim (Option-cases g.revoked_at) [
  | inr (t, gone) ↦ ground arith
  | inl alive ↦
      (ground arith, ground arith, ground arith, alive, ground arith, ground arith, ground arith)
]
activate-eq-ok now g none u a h = ground arith
activate-eq-ok now g (some i) none a h = ground arith

session_opens :
    (sha256 : Text → ℕ) (now : ℕ) (token : Text) (db : Db) (view : SessionView) (new : Db)
    → session sha256 now (some token) db ≡ ok (view, new)
    → (g : AccessGrant) × (a : ActiveGrant) × (a.grant ≡ g)
      × IsOpenGrant db (sha256 token) now g a.item_id a.valid_until
      × (read_passport db a ≡ ok (view, new))
unfolding session with_grant
session_opens sha256 now token db view new h =
    let (u, given, h1) =
      >>=-eq-ok (require (not (is_blank_token (some token))) access_token_required) _ h in
    let (meta, known, h2) =
      >>=-eq-ok (found (find? (by_token (sha256 token)) db.grants) invalid_access_token) _ h1 in
    let (g, read, h3) =
      >>=-eq-ok (found (find? (by_key meta (sha256 token)) db.grants) invalid_access_token) _ h2 in
    let (a, alive, h4) = >>=-eq-ok (activate now g g.item_id g.valid_until) _ h3 in
    let seen =
      found_code (find? (by_key meta (sha256 token)) db.grants) invalid_access_token read in
    let passes = find?_sound (by_key meta (sha256 token)) db.grants seen in
    let (same, item, limit, free, begun, ended, tier) =
      activate-eq-ok now g g.item_id g.valid_until a alive in
    (
      g,
      a,
      same,
      record {
        listed = mem-find? (by_key meta (sha256 token)) db.grants seen;
        token = ground arith;
        not_revoked = free;
        item = item;
        limit = limit;
        begun = begun;
        not_ended = ended;
        tier = tier;
      },
      h4,
    )

never_authority :
    (t u : AccessTier)
    → is_capability_tier t ≡ true
    → (u ≡ public) ⊎ (some t ≡ some u)
    → u ≢ authority_only
never_authority t u cap h e = ground arith

-- A session opens only for a token whose grant is in the database, not revoked and within its
-- validity, whatever it shows. It shows the projection of the item's latest published version, and
-- each value in it is of a data point that is public or belongs to the tier of the grant, none of
-- them reserved for authorities.
pub session-IsDisclosable :
    (sha256 : Text → ℕ) (now : ℕ) (token : Text) (db : Db) (view : SessionView) (new : Db)
    → session sha256 now (some token) db ≡ ok (view, new)
    → (g : AccessGrant) × (item_id : ℕ) × (until : ℕ) × (v : PassportVersion) × IsOpenGrant db
        (sha256 token)
        now
        g
        item_id
        until
      × (latest_of (keep (of_item g.organisation_id item_id) db.versions) ≡ some v)
      × (view.passport ≡ project_passport v.canonical (some g.access_tier))
      × ((d : PublicValue)
          → Memᴰ d (view.passport).values
          → (disclosable : IsDisclosable (some g.access_tier) d.field_id) × ((disclosable.definition
                ).access_tier
              ≢ authority_only))
unfolding read_passport
session-IsDisclosable sha256 now token db view new h =
    let (g, a, same, opened, read) = session_opens sha256 now token db view new h in
    let (v, latest, shown) =
      >>=-eq-ok
        (found (latest_of (keep (of_item (a.grant).organisation_id a.item_id) db.versions))
          no_published_passport)
        _ read in
    let seen =
      found_code (latest_of (keep (of_item (a.grant).organisation_id a.item_id) db.versions))
        no_published_passport latest in
    let projected : view.passport ≡ project_passport v.canonical (some g.access_tier) =
      ground arith in
    (
      g,
      a.item_id,
      a.valid_until,
      v,
      opened,
      rw same at seen,
      projected,
      λ d m.
          let (w, listed, e, facts) =
            project_passport-IsDisclosable v.canonical (some g.access_tier) d (rw projected at m) in
          (
            facts,
            never_authority g.access_tier (facts.definition).access_tier opened.tier facts.seen,
          ),
    )
