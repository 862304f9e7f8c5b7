-- ===== src/Access.antt =====
-- apps/api/src/modules/access: capability tokens for restricted data. `access.controller.ts` grants,
-- revokes and uses them, `access-token.service.ts` checks them. A request body is what its schema
-- has accepted; the random token of a grant is a parameter, and so is SHA-256.
pub mod Session
pub mod Revoking
use Prim.Native.String.{◌++◌ as str_append}
use codex_nieuw.Prelude.{
  ℕ, ◌+◌, ◌*◌, String, Bool, true, false, not, ◌&&◌, ◌||◌, Option, none, some, List, [], ◌∷◌, ◌++◌,
  ltb, leb, ◌==◌, if◌then◌else◌, find?, keep, is_some, update_where,
}
use codex_nieuw.Prelude.Outcome.{
  Outcome, ok, err, ◌>>=◌, ◌>>◌, require, found, not_found, access_token_required,
  invalid_access_token, access_grant_inactive, no_published_passport,
}
use codex_nieuw.Json.{Text}
use codex_nieuw.Rules.Types.{AccessTier}
use codex_nieuw.Store.Rows.{AccessGrant, AuditEvent, PublicPassport, PassportVersion, Db}
use codex_nieuw.Store.Queries.{owns_item, latest_of, of_item}
use codex_nieuw.Tenant.Access.{Actor}
use codex_nieuw.Passports.Projection.{is_capability_tier, project_passport}
use codex_nieuw.Passports.Document.{audit_event}

pub record GrantBody : Type 0 where
  pub item_id : ℕ
  pub grantee_subject : String
  pub grantee_role : String
  pub access_tier : AccessTier
  pub purpose : String
  pub valid_for_hours : ℕ

-- What a session shows.
pub record SessionView : Type 0 where
  pub passport : PublicPassport
  pub tier : AccessTier
  pub purpose : String
  pub expires_at : ℕ

-- `ActiveGrant`: the grant with the fields that the check has found present.
pub record ActiveGrant : Type 0 where
  pub grant : AccessGrant
  pub item_id : ℕ
  pub valid_until : ℕ

abbrev pub owns_grant : ℕ → ℕ → AccessGrant → Bool
owns_grant organisation_id id g = g.id == id && (g.organisation_id == organisation_id)

-- `resolve_access_grant_token` of infra/postgres/001_rls.sql
abbrev pub by_token : ℕ → AccessGrant → Bool
by_token hash g = g.token_hash == hash

-- The second read, in the organisation of the grant.
abbrev pub by_key : AccessGrant → ℕ → AccessGrant → Bool
by_key meta hash g = owns_grant meta.organisation_id meta.id g && (g.token_hash == hash)

abbrev pub has_grant_id : ℕ → AccessGrant → Bool
has_grant_id id g = g.id == id

abbrev pub is_blank_token : Option Text → Bool
is_blank_token none = true
is_blank_token (some []) = true
is_blank_token (some (c ∷ cs)) = false

abbrev active_when : Bool → AccessGrant → ℕ → ℕ → Outcome ActiveGrant
active_when b g item_id until =
    if b
    then ok record { grant = g; item_id = item_id; valid_until = until }
    else err access_grant_inactive

-- The test of `withGrant` on the grant's revocation, validity, item and tier.
unfoldable pub activate : ℕ → AccessGrant → Option ℕ → Option ℕ → Outcome ActiveGrant
activate now g (some item_id) (some until) =
    active_when
      (not (is_some g.revoked_at)
        && leb g.valid_from now
        && ltb now until
        && is_capability_tier g.access_tier)
      g item_id until
activate now g _ _ = err access_grant_inactive

module _ (sha256 : Text → ℕ) (time : ℕ → ℕ) (uuid : ℕ → ℕ) (actor : Actor) where
  abbrev pub new_grant : ℕ → Text → GrantBody → AccessGrant
  new_grant organisation_id raw b = record {
    id = uuid 0;
    organisation_id = organisation_id;
    item_id = some b.item_id;
    grantee_subject = b.grantee_subject;
    token_hash = sha256 raw;
    grantee_role = b.grantee_role;
    access_tier = b.access_tier;
    purpose = b.purpose;
    valid_from = time 0;
    valid_until = some (time 1 + b.valid_for_hours * 3600000);
    revoked_at = none;
  }

  -- `POST access-grants`; the token itself goes into the reply.
  unfoldable pub create_grant : ℕ → Text → GrantBody → Db → Outcome (AccessGrant × Db)
  create_grant organisation_id raw b db = do
    item ← found (find? (owns_item organisation_id b.item_id) db.items) not_found
    let row = new_grant organisation_id raw b
    ok (
      row,
      record db {
        grants = db.grants ++ row ∷ [];
        audit = db.audit ++ audit_event organisation_id actor "access_grant.create" row.id ∷ [];
      },
    )

  abbrev pub revoked_grant : AccessGrant → AccessGrant
  revoked_grant g = record g { revoked_at = some (time 0) }

  -- The update of a grant that is not revoked yet.
  abbrev pub revoke_rows : ℕ → ℕ → Db → Db
  revoke_rows organisation_id id db = record db {
    grants = update_where (has_grant_id id) revoked_grant db.grants;
    audit = db.audit ++ audit_event organisation_id actor "access_grant.revoke" id ∷ [];
  }

  -- `POST access-grants/:id/revoke`
  unfoldable pub revoke_grant : ℕ → ℕ → Db → Outcome (Option ℕ × Db)
  revoke_grant organisation_id id db = do
    grant ← found (find? (owns_grant organisation_id id) db.grants) not_found
    ok (
        if is_some grant.revoked_at
        then (grant.revoked_at, db)
        else (some (time 0), revoke_rows organisation_id id db))

module _ {A : Type 0} (sha256 : Text → ℕ) (now : ℕ) where
  -- `withGrant`
  unfoldable pub with_grant :
      Option Text → (Db → ActiveGrant → Outcome (A × Db)) → Db → Outcome (A × Db)
  with_grant none read db = err access_token_required
  with_grant (some token) read db = do
    require (not (is_blank_token (some token))) access_token_required
    meta ← found (find? (by_token (sha256 token)) db.grants) invalid_access_token
    grant ← found (find? (by_key meta (sha256 token)) db.grants) invalid_access_token
    active ← activate now grant grant.item_id grant.valid_until
    read db active

abbrev restricted_read : AccessGrant → PassportVersion → AuditEvent
restricted_read g v = record {
  organisation_id = g.organisation_id;
  actor_subject = str_append "grant:" g.grantee_subject;
  action = "passport.restricted_read";
  resource_id = v.id;
}

-- The callback of `session`.
unfoldable pub read_passport : Db → ActiveGrant → Outcome (SessionView × Db)
read_passport db a = do
  snapshot ←
      found (latest_of (keep (of_item (a.grant).organisation_id a.item_id) db.versions))
        no_published_passport
  ok (
    record {
      passport = project_passport snapshot.canonical (some (a.grant).access_tier);
      tier = (a.grant).access_tier;
      purpose = (a.grant).purpose;
      expires_at = a.valid_until;
    },
    record db { audit = db.audit ++ restricted_read a.grant snapshot ∷ [] },
  )

-- `POST restricted-access/session`
unfoldable pub session : (Text → ℕ) → ℕ → Option Text → Db → Outcome (SessionView × Db)
session sha256 now token db = with_grant sha256 now token read_passport db
