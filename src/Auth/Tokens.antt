-- ===== src/Auth/Tokens.antt =====
-- `verifyBearer`, `createDevToken` and `actor` of apps/api/src/common/auth/auth.service.ts, and the
-- guards of auth.guard.ts and roles.guard.ts. The signing and the verification of tokens are those of
-- the library `jose`, given by `Jose`.
pub mod Production
pub mod Bearer
use codex_nieuw.Prelude.{
  ℕ, ◌+◌, Bool, true, false, not, ◌&&◌, ◌||◌, Option, none, some, List, [], ◌∷◌, ◌++◌, leb, ◌==◌,
  if◌then◌else◌, length, any, take, drop, is_some,
}
use codex_nieuw.Prelude.Outcome.{
  Outcome, ok, err, ◌>>=◌, ◌>>◌, require, found, invalid_access_token, invalid_claims,
  development_token_disabled, bearer_required, role_forbidden,
}
use codex_nieuw.Json.{Text, codes, same_text, Json, str, Members, end, member, is_space}
use codex_nieuw.Patterns.{is_empty, trim}
use codex_nieuw.Auth.{
  actor_roles, one_of_texts, or_default, is_trimmed, Mode, dev, oidc, Oidc, AuthService,
}

-- `Actor`
pub record Actor : Type 0 where
  pub subject : Text
  pub organisation_id : Text
  pub role : Text
  pub mode : Mode
  pub email : Option Text
  pub display_name : Option Text

-- What a token is verified with.
pub data Key : Type 0 where
  remote : Text → ℕ → ℕ → Key
  secret : Text → Key

pub record VerifyOptions : Type 0 where
  pub issuer : Text
  pub audience : Text
  pub algorithms : List Text
  pub required_claims : List Text
  pub max_token_age : ℕ
  pub clock_tolerance : ℕ

-- `jwtVerify`, none where it throws; `SignJWT` with the algorithm HS256, a secret, the claims and the
-- life of the token in seconds; and `z.string().uuid()`.
pub record Jose : Type 0 where
  pub verify : Text → Key → VerifyOptions → Option Members
  pub sign : Text → Members → ℕ → Text
  pub is_uuid : Text → Bool

-- `payload[name]`
abbrev pub claim : Text → Members → Option Json
claim name end = none
claim name (member n j ms) = let rest = claim name ms in if same_text n name then some j else rest

abbrev pub text_of : Option Json → Option Text
text_of none = none
text_of (some (str t)) = some t
text_of (some j) = none

-- `Object.hasOwn(payload, roleClaim) ? payload[roleClaim] : 'operator_user'`, where it is a text
abbrev pub role_text : Option Json → Option Text
role_text none = some (codes "operator_user")
role_text (some j) = text_of (some j)

abbrev pub is_subject : Text → Bool
is_subject t = leb 1 (length t) && leb (length t) 255 && is_trimmed t

abbrev pub is_dev : Mode → Bool
is_dev dev = true
is_dev oidc = false

abbrev pub same_opt_text : Option Text → Option Text → Bool
same_opt_text none none = true
same_opt_text none (some t) = false
same_opt_text (some s) none = false
same_opt_text (some s) (some t) = same_text s t

-- The test on a second organisation claim; where `org_id` is no text, `actor` refuses as well.
abbrev pub is_ambiguous : Text → Members → Bool
is_ambiguous organisation_claim claims =
    same_text organisation_claim (codes "org_id")
    && is_some (claim (codes "organisation_id") claims)
    && not (
        same_opt_text (text_of (claim (codes "organisation_id") claims))
          (text_of (claim (codes "org_id") claims)))

-- The input of `createDevToken`.
pub record DevTokenInput : Type 0 where
  pub subject : Text
  pub organisation_id : Text
  pub role : Option Text
  pub email : Option Text

abbrev pub dev_role : DevTokenInput → Text
dev_role input = or_default input.role (codes "operator_admin")

abbrev pub with_email : Option Text → Members
with_email none = end
with_email (some t) = member (codes "email") (str t) end

-- `claims` of `createDevToken`
abbrev pub dev_claims : DevTokenInput → Members
dev_claims input = member (codes "sub") (str input.subject) (
    member (codes "org_id") (str input.organisation_id)
      (member (codes "role") (str (dev_role input)) (with_email input.email)))

-- The claims that are signed, less the two times.
abbrev pub signed_claims : DevTokenInput → Members
signed_claims input =
    member (codes "iss") (str (codes "eubatterypassport-dev"))
      (member (codes "aud") (str (codes "eubatterypassport-api")) (dev_claims input))

abbrev pub dev_options : VerifyOptions
dev_options = record {
  issuer = codes "eubatterypassport-dev";
  audience = codes "eubatterypassport-api";
  algorithms = codes "HS256" ∷ [];
  required_claims = codes "sub" ∷ codes "exp" ∷ codes "iat" ∷ codes "org_id" ∷ [];
  max_token_age = 28800;
  clock_tolerance = 5;
}

abbrev pub oidc_options : AuthService → Oidc → VerifyOptions
oidc_options s o = record {
  issuer = o.issuer;
  audience = o.audience;
  algorithms = s.algorithms;
  required_claims = codes "sub" ∷ codes "exp" ∷ codes "iat" ∷ s.organisation_claim ∷ [];
  max_token_age = 3600;
  clock_tolerance = 5;
}

-- `devSecret`
unfoldable pub dev_secret_of : AuthService → Outcome Text
dev_secret_of s = do
  require (leb 32 (length (or_default s.dev_secret []))) invalid_access_token
  ok (or_default s.dev_secret [])

module _ (j : Jose) where
  -- `actor`
  unfoldable pub actor : Members → Text → Text → Mode → Outcome Actor
  actor claims organisation_claim role_claim mode = do
    subject ← found (text_of (claim (codes "sub") claims)) invalid_claims
    require (is_subject subject) invalid_claims
    organisation_id ← found (text_of (claim organisation_claim claims)) invalid_claims
    require (j.is_uuid organisation_id) invalid_claims
    role ← found (role_text (claim role_claim claims)) invalid_claims
    require (one_of_texts role actor_roles) invalid_claims
    ok record {
      subject = subject;
      organisation_id = organisation_id;
      role = role;
      mode = mode;
      email = text_of (claim (codes "email") claims);
      display_name = text_of (claim (codes "name") claims);
    }

  -- `verifyDev`
  unfoldable pub verify_dev : AuthService → Text → Outcome Actor
  verify_dev s token = do
    key ← dev_secret_of s
    claims ← found (j.verify token (secret key) dev_options) invalid_claims
    actor claims (codes "org_id") (codes "role") dev

  unfoldable pub verify_oidc : AuthService → Text → Outcome Actor
  verify_oidc s token = do
    o ← found s.keys invalid_claims
    claims ←
        found (j.verify token (remote o.jwks_url o.cooldown o.cache_max_age) (oidc_options s o))
          invalid_claims
    require (not (is_ambiguous s.organisation_claim claims)) invalid_claims
    actor claims s.organisation_claim s.role_claim oidc

  -- The `catch`
  abbrev pub or_invalid : Outcome Actor → Outcome Actor
  or_invalid (ok a) = ok a
  or_invalid (err c) = err invalid_access_token

  -- `verifyBearer`
  unfoldable pub verify_bearer : AuthService → Text → Outcome Actor
  verify_bearer s token =
      if is_empty token || not (leb (length token) 16384)
      then err invalid_access_token
      else or_invalid (if is_dev s.mode then verify_dev s token else verify_oidc s token)

  -- `createDevToken`
  unfoldable pub create_dev_token : AuthService → DevTokenInput → Outcome Text
  create_dev_token s input = do
    require (is_dev s.mode && not s.production) development_token_disabled
    a ← actor (dev_claims input) (codes "org_id") (codes "role") dev
    key ← dev_secret_of s
    ok (j.sign key (signed_claims input) 28800)

  -- `toLowerCase`, for the letters that it changes into those of `bearer`
  abbrev to_lower : ℕ → ℕ
  to_lower c = if leb 65 c && leb c 90 then c + 32 else c

  abbrev lower : Text → Text
  lower [] = []
  lower (c ∷ t) = to_lower c ∷ lower t

  -- `[' ', '\t'].includes(header[6])`
  abbrev is_separated : Text → Bool
  is_separated [] = false
  is_separated (c ∷ t) = c == 32 || (c == 9)

  -- What `AuthGuard` takes for the token.
  unfoldable pub bearer_token : Option Text → Outcome Text
  bearer_token none = err bearer_required
  bearer_token (some header) = do
    require
        (leb (length header) 16400
          && same_text (lower (take 6 header)) (codes "bearer")
          && is_separated (drop 6 header))
        bearer_required
    let token = trim (drop 7 header)
    require (not (is_empty token) && not (any is_space token)) bearer_required
    ok token

  -- `AuthGuard.canActivate`: the actor of the request after it.
  unfoldable pub authenticate :
      AuthService → Bool → Option Text → Option Actor → Outcome (Option Actor)
  authenticate s is_public header before =
      if is_public
      then ok before
      else (do token ← bearer_token header; a ← verify_bearer s token; ok (some a))

  abbrev pub has_role : List Text → Option Actor → Bool
  has_role roles none = false
  has_role roles (some a) = one_of_texts a.role roles

  abbrev pub no_roles : List Text → Bool
  no_roles [] = true
  no_roles (r ∷ roles) = false

  -- `RolesGuard.canActivate`
  unfoldable pub check_role : Bool → List Text → Option Actor → Outcome (Unit {0})
  check_role is_public roles a =
      require (is_public || no_roles roles || has_role roles a) role_forbidden

  -- The two guards on one route, the tenant guard between them left out.
  unfoldable pub admit : AuthService → Bool → List Text → Option Text → Outcome (Option Actor)
  admit s is_public roles header = do
    a ← authenticate s is_public header none
    check_role is_public roles a
    ok a
