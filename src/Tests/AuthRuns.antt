-- ===== src/Tests/AuthRuns.antt =====
-- Tokens of a production system and of a development system.
use codex_nieuw.Prelude.{◌≡◌, refl, true, false, Option, none, some, [], ◌∷◌, arith}
use codex_nieuw.Prelude.Outcome.{ok}
use codex_nieuw.Json.{Text, codes, str, end, member}
use codex_nieuw.Patterns.{trim, split}
use codex_nieuw.Registry.Draft.{Url}
use codex_nieuw.Auth.{
  dev, oidc, AuthConfig, AuthService, https_url, bounded_integer, claim_name, connect, configure,
}
use codex_nieuw.Auth.Tokens.{
  Actor, Jose, DevTokenInput, dev_secret_of, signed_claims, actor, verify_oidc, verify_bearer,
  create_dev_token, bearer_token, authenticate, check_role, admit,
}
use codex_nieuw.Auth.Tokens.Production.{IsVerified, admit-IsVerified}
use codex_nieuw.Auth.Tokens.Bearer.{IsFaithful, dev_actor, create_dev_token-authenticate}

abbrev read_url : Text → Option Url
read_url t = some record {
  is_https = true;
  has_hostname = true;
  has_username = false;
  has_password = false;
  has_hash = false;
}

abbrev config : AuthConfig
config = record {
  auth_mode = some (codes "oidc");
  production = true;
  organisation_claim = some (codes "tenant");
  role_claim = none;
  allowed_algorithms = some (codes "RS256, ES256");
  issuer = some (codes "https://i");
  audience = some (codes "api");
  jwks_url = some (codes "https://k");
  jwks_cooldown = some (codes "2000");
  jwks_cache_max_age = none;
  dev_secret = none;
}

abbrev service : AuthService
service = record {
  mode = oidc;
  keys = some record {
    issuer = codes "https://i";
    audience = codes "api";
    jwks_url = codes "https://k";
    cooldown = 2000;
    cache_max_age = 600000;
  };
  organisation_claim = codes "tenant";
  role_claim = codes "role";
  algorithms = codes "RS256" ∷ codes "ES256" ∷ [];
  production = true;
  dev_secret = none;
}

configures : configure read_url config ≡ ok service
unfolding configure connect claim_name https_url bounded_integer trim split
configures = refl

abbrev jose : Jose
jose = record {
  verify = λ token key options.
      some
        (member (codes "sub") (str (codes "ann")) (member (codes "tenant") (str (codes "u")) end));
  sign = λ key claims life. codes "t";
  is_uuid = λ t. true;
}

abbrev ann : Actor
ann = record {
  subject = codes "ann";
  organisation_id = codes "u";
  role = codes "operator_user";
  mode = oidc;
  email = none;
  display_name = none;
}

admits :
    admit jose service false (codes "operator_user" ∷ []) (some (codes "BEARER  t "))
    ≡ ok (some ann)
unfolding admit authenticate bearer_token verify_bearer verify_oidc actor check_role trim
admits = refl

admit-IsVerified_example :
    (a : Actor) × (some ann ≡ some a)
    × IsVerified jose config (codes "operator_user" ∷ []) (some (codes "BEARER  t ")) a
admit-IsVerified_example =
    admit-IsVerified jose read_url config service (codes "operator_user" ∷ [])
      (some (codes "BEARER  t ")) (some ann) configures refl admits

abbrev local : AuthService
local = record {
  mode = dev;
  keys = none;
  organisation_claim = codes "org_id";
  role_claim = codes "role";
  algorithms = codes "RS256" ∷ [];
  production = false;
  dev_secret = some (codes "a secret of 32 characters, or so");
}

abbrev input : DevTokenInput
input = record {
  subject = codes "ann";
  organisation_id = codes "u";
  role = none;
  email = some (codes "a@b");
}

abbrev mirror : Jose
mirror = record {
  verify = λ token key options. some (signed_claims input);
  sign = λ key claims life. codes "t";
  is_uuid = λ t. true;
}

faithful : IsFaithful mirror (codes "a secret of 32 characters, or so") (signed_claims input)
faithful = record {
  payload = signed_claims input;
  verified = refl;
  same = λ name a b. refl;
  visible = refl;
  written = refl;
}

issues : create_dev_token mirror local input ≡ ok (codes "t")
unfolding create_dev_token actor dev_secret_of trim
issues = refl

create_dev_token-authenticate_example :
    authenticate mirror local false (some (codes "Bearer t")) none ≡ ok (some (dev_actor input))
create_dev_token-authenticate_example =
    create_dev_token-authenticate mirror local input (codes "t") faithful (omega arith) issues
