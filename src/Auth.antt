-- ===== src/Auth.antt =====
-- apps/api/src/common/auth: auth-config.ts and the constructor of `AuthService` in auth.service.ts. An
-- error that the constructor throws stops the start of the program.
pub mod Tokens
use codex_nieuw.Prelude.{
  ℕ, Bool, true, false, not, ◌&&◌, ◌||◌, Option, none, some, List, [], ◌∷◌, leb, if◌then◌else◌,
  length, all, any, map,
}
use codex_nieuw.Prelude.Outcome.{Outcome, ok, err, ◌>>=◌, ◌>>◌, require, invalid_auth_configuration}
use codex_nieuw.Json.{Text, codes, same_text}
use codex_nieuw.Patterns.{is_digit, is_empty, trim, split, decimal}
use codex_nieuw.Registry.Draft.{Url}

-- `ACTOR_ROLES`
abbrev pub actor_roles : List Text
actor_roles =
    codes "operator_admin"
    ∷ codes "operator_user"
    ∷ codes "service_provider"
    ∷ codes "compliance_manager"
    ∷ codes "service_provider_admin"
    ∷ []

abbrev pub one_of_texts : Text → List Text → Bool
one_of_texts t ts = any (same_text t) ts

-- `value || fallback`
abbrev pub or_default : Option Text → Text → Text
or_default none fallback = fallback
or_default (some []) fallback = fallback
or_default (some (c ∷ t)) fallback = c ∷ t

-- `value.trim() === value`
abbrev pub is_trimmed : Text → Bool
is_trimmed t = same_text (trim t) t

-- `url.protocol === 'https:'` without user name, password and fragment; false where `new URL` throws.
abbrev is_plain_https : Option Url → Bool
is_plain_https none = false
is_plain_https (some u) = u.is_https && not u.has_username && not u.has_password && not u.has_hash

-- `httpsUrl`; the address is told by its text.
unfoldable pub https_url : (Text → Option Url) → Option Text → Outcome Text
https_url parse_url none = err invalid_auth_configuration
https_url parse_url (some t) = do
  require (not (is_empty t) && is_trimmed t) invalid_auth_configuration
  require (is_plain_https (parse_url t)) invalid_auth_configuration
  ok t

-- `boundedInteger`; a text of digits that `Number` would round is above every maximum.
unfoldable pub bounded_integer : Option Text → ℕ → ℕ → ℕ → Outcome ℕ
bounded_integer none fallback low high = ok fallback
bounded_integer (some []) fallback low high = ok fallback
bounded_integer (some (c ∷ t)) fallback low high = do
  require (all is_digit (c ∷ t) && leb low (decimal (c ∷ t)) && leb (decimal (c ∷ t)) high)
      invalid_auth_configuration
  ok (decimal (c ∷ t))

abbrev reserved_claims : List Text
reserved_claims =
    codes "__proto__"
    ∷ codes "constructor"
    ∷ codes "prototype"
    ∷ codes "sub"
    ∷ codes "iss"
    ∷ codes "aud"
    ∷ codes "exp"
    ∷ codes "iat"
    ∷ codes "nbf"
    ∷ []

-- `claimName`
unfoldable pub claim_name : Option Text → Text → Outcome Text
claim_name value fallback = do
  let name = or_default value fallback
  require (leb (length name) 256 && is_trimmed name && not (one_of_texts name reserved_claims))
      invalid_auth_configuration
  ok name

pub data Mode : Type 0 where
  dev oidc : Mode

-- The settings, by the texts of the environment.
pub record AuthConfig : Type 0 where
  pub auth_mode : Option Text
  pub production : Bool
  pub organisation_claim : Option Text
  pub role_claim : Option Text
  pub allowed_algorithms : Option Text
  pub issuer : Option Text
  pub audience : Option Text
  pub jwks_url : Option Text
  pub jwks_cooldown : Option Text
  pub jwks_cache_max_age : Option Text
  pub dev_secret : Option Text

-- `createRemoteJWKSet` with its options, beside the issuer and the audience.
pub record Oidc : Type 0 where
  pub issuer : Text
  pub audience : Text
  pub jwks_url : Text
  pub cooldown : ℕ
  pub cache_max_age : ℕ

-- The fields of `AuthService`, and the two settings that it reads later.
pub record AuthService : Type 0 where
  pub mode : Mode
  pub keys : Option Oidc
  pub organisation_claim : Text
  pub role_claim : Text
  pub algorithms : List Text
  pub production : Bool
  pub dev_secret : Option Text

abbrev pub asymmetric : List Text
asymmetric = codes "RS256" ∷ codes "PS256" ∷ codes "ES256" ∷ []

abbrev pub is_resource : Option Text → Outcome Text
is_resource none = err invalid_auth_configuration
is_resource (some t) = do
  require (not (is_empty t) && is_trimmed t) invalid_auth_configuration
  ok t

-- `if (this.mode === 'oidc')`
unfoldable pub connect : (Text → Option Url) → AuthConfig → AuthService → Outcome AuthService
connect parse_url c s = do
  issuer ← https_url parse_url c.issuer
  audience ← is_resource c.audience
  jwks_url ← https_url parse_url c.jwks_url
  cooldown ← bounded_integer c.jwks_cooldown 30000 1000 300000
  cache_max_age ← bounded_integer c.jwks_cache_max_age 600000 1000 86400000
  ok (record s {
    mode = oidc;
    keys = some record {
      issuer = issuer;
      audience = audience;
      jwks_url = jwks_url;
      cooldown = cooldown;
      cache_max_age = cache_max_age;
    };
  })

-- The constructor.
unfoldable pub configure : (Text → Option Url) → AuthConfig → Outcome AuthService
configure parse_url c = do
  let mode = or_default c.auth_mode (codes "dev")
  require (one_of_texts mode (codes "dev" ∷ codes "oidc" ∷ [])) invalid_auth_configuration
  require (not (c.production && not (same_text mode (codes "oidc")))) invalid_auth_configuration
  organisation_claim ← claim_name c.organisation_claim (codes "org_id")
  role_claim ← claim_name c.role_claim (codes "role")
  require (not (same_text organisation_claim role_claim)) invalid_auth_configuration
  let algorithms = map trim (split 44 (or_default c.allowed_algorithms (codes "RS256")))
  require (all (λ (t : Text). one_of_texts t asymmetric) algorithms) invalid_auth_configuration
  let s : AuthService = record {
    mode = dev;
    keys = none;
    organisation_claim = organisation_claim;
    role_claim = role_claim;
    algorithms = algorithms;
    production = c.production;
    dev_secret = c.dev_secret;
  }
  if same_text mode (codes "oidc") then connect parse_url c s else ok s
