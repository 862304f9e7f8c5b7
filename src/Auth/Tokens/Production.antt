-- ===== src/Auth/Tokens/Production.antt =====
-- Who is let in on a production system.
use codex_nieuw.Prelude.{
  ℕ, ◌≡◌, refl, sym, ap, ◌∙◌, subst, inl, inr, Bool-cases, Bool, true, false, not, ◌&&◌, ◌||◌,
  Option, none, some, List, [], ◌∷◌, all, map, arith, if◌then◌else◌, leb, length,
}
use codex_nieuw.Prelude.Outcome.{
  Outcome, ok, err, >>=-eq-ok, require, require-eq-ok, found, invalid_auth_configuration,
  invalid_claims, invalid_access_token, role_forbidden,
}
use codex_nieuw.Json.{Text, codes, same_text, Json, str, Members}
use codex_nieuw.Patterns.{is_empty, trim, split}
use codex_nieuw.Registry.Draft.{Url}
use codex_nieuw.Storage.Objects.Checking.{found-some, ok_ok}
use codex_nieuw.Auth.{
  actor_roles, one_of_texts, or_default, is_trimmed, is_plain_https, reserved_claims, https_url,
  bounded_integer, claim_name, is_resource, Mode, oidc, AuthConfig, Oidc, AuthService, asymmetric,
  connect, configure,
}
use codex_nieuw.Auth.Tokens.{
  Actor, remote, VerifyOptions, Jose, claim, text_of, role_text, is_dev, is_ambiguous, oidc_options,
  actor, verify_oidc, or_invalid, verify_bearer, bearer_token, authenticate, has_role, no_roles,
  check_role, admit, is_subject,
}

-- The names of the asymmetric signature algorithms that a service may use.
abbrev pub asymmetric_names : List Text
asymmetric_names = codes "RS256" ∷ codes "PS256" ∷ codes "ES256" ∷ []

-- The service verifies with the keys of the configured issuer, by asymmetric signatures.
record IsOidc (c : AuthConfig) (s : AuthService) : Type 0 where
  mode : is_dev s.mode ≡ false
  signatures : all (λ (t : Text). one_of_texts t asymmetric_names) s.algorithms ≡ true
  organisation : s.organisation_claim ≡ or_default c.organisation_claim (codes "org_id")
  provider : Oidc
  keys : s.keys ≡ some provider
  issuer : c.issuer ≡ some provider.issuer
  audience : c.audience ≡ some provider.audience
  jwks_url : c.jwks_url ≡ some provider.jwks_url

-- What `connect` adds.
record IsConnected (c : AuthConfig) (s0 s : AuthService) : Type 0 where
  mode : is_dev s.mode ≡ false
  algorithms : s.algorithms ≡ s0.algorithms
  organisation : s.organisation_claim ≡ s0.organisation_claim
  provider : Oidc
  keys : s.keys ≡ some provider
  issuer : c.issuer ≡ some provider.issuer
  audience : c.audience ≡ some provider.audience
  jwks_url : c.jwks_url ≡ some provider.jwks_url

https_url-same :
    (parse_url : Text → Option Url) (o : Option Text) (t : Text)
    → https_url parse_url o ≡ ok t
    → o ≡ some t
unfolding https_url
https_url-same parse_url none t h = absurd (ground arith)
https_url-same parse_url (some u) t h =
    let (a, e1, h1) =
      >>=-eq-ok (require (not (is_empty u) && is_trimmed u) invalid_auth_configuration) _ h in
    let (b, e2, h2) =
      >>=-eq-ok (require (is_plain_https (parse_url u)) invalid_auth_configuration) _ h1 in
    ap some (ok_ok h2)

is_resource-same : (o : Option Text) (t : Text) → is_resource o ≡ ok t → o ≡ some t
is_resource-same none t h = absurd (ground arith)
is_resource-same (some u) t h =
    let (a, e1, h1) =
      >>=-eq-ok (require (not (is_empty u) && is_trimmed u) invalid_auth_configuration) _ h in
    ap some (ok_ok h1)

claim_name-same :
    (value : Option Text) (fallback t : Text)
    → claim_name value fallback ≡ ok t
    → t ≡ or_default value fallback
unfolding claim_name
claim_name-same value fallback t h =
    let name = or_default value fallback in
    let (a, e1, h1) =
      >>=-eq-ok
        (require
          (leb (length name) 256 && is_trimmed name && not (one_of_texts name reserved_claims))
          invalid_auth_configuration)
        _ h in
    sym (ok_ok h1)

connect-IsConnected :
    (parse_url : Text → Option Url) (c : AuthConfig) (s0 s : AuthService)
    → connect parse_url c s0 ≡ ok s
    → IsConnected c s0 s
unfolding connect
connect-IsConnected parse_url c s0 s h =
    let (issuer, e1, h1) = >>=-eq-ok (https_url parse_url c.issuer) _ h in
    let (audience, e2, h2) = >>=-eq-ok (is_resource c.audience) _ h1 in
    let (jwks_url, e3, h3) = >>=-eq-ok (https_url parse_url c.jwks_url) _ h2 in
    let (cooldown, e4, h4) = >>=-eq-ok (bounded_integer c.jwks_cooldown 30000 1000 300000) _ h3 in
    let (age, e5, h5) =
      >>=-eq-ok (bounded_integer c.jwks_cache_max_age 600000 1000 86400000) _ h4 in
    subst (IsConnected c s0) (ok_ok h5) (record {
      mode = refl;
      algorithms = refl;
      organisation = refl;
      provider = record {
        issuer = issuer;
        audience = audience;
        jwks_url = jwks_url;
        cooldown = cooldown;
        cache_max_age = age;
      };
      keys = refl;
      issuer = https_url-same parse_url c.issuer issuer e1;
      audience = is_resource-same c.audience audience e2;
      jwks_url = https_url-same parse_url c.jwks_url jwks_url e3;
    })

production_oidc : (p o : Bool) → p ≡ true → not (p && not o) ≡ true → o ≡ true
production_oidc p o h k = ground arith

taken :
    (b : Bool) (x y : Outcome AuthService) {s : AuthService}
    → b ≡ true
    → (if b then x else y) ≡ ok s
    → x ≡ ok s
taken true x y e h = h
taken false x y e h = absurd (ground arith)

configure-IsOidc :
    (parse_url : Text → Option Url) (c : AuthConfig) (s : AuthService)
    → configure parse_url c ≡ ok s
    → c.production ≡ true
    → IsOidc c s
unfolding configure
configure-IsOidc parse_url c s h production =
    let mode = or_default c.auth_mode (codes "dev") in
    let (u1, e1, h1) =
      >>=-eq-ok
        (require (one_of_texts mode (codes "dev" ∷ codes "oidc" ∷ [])) invalid_auth_configuration) _
        h in
    let (u2, e2, h2) =
      >>=-eq-ok
        (require (not (c.production && not (same_text mode (codes "oidc"))))
          invalid_auth_configuration)
        _ h1 in
    let (organisation_claim, e3, h3) =
      >>=-eq-ok (claim_name c.organisation_claim (codes "org_id")) _ h2 in
    let (role_claim, e4, h4) = >>=-eq-ok (claim_name c.role_claim (codes "role")) _ h3 in
    let (u5, e5, h5) =
      >>=-eq-ok (require (not (same_text organisation_claim role_claim)) invalid_auth_configuration)
        _ h4 in
    let algorithms = map trim (split 44 (or_default c.allowed_algorithms (codes "RS256"))) in
    let (u6, e6, h6) =
      >>=-eq-ok
        (require (all (λ (t : Text). one_of_texts t asymmetric) algorithms)
          invalid_auth_configuration)
        _ h5 in
    let is_oidc =
      production_oidc c.production (same_text mode (codes "oidc")) production
        (require-eq-ok _ invalid_auth_configuration e2) in
    let facts = connect-IsConnected parse_url c _ s (taken _ _ _ is_oidc h6) in
    record {
      mode = facts.mode;
      signatures = rw facts.algorithms (require-eq-ok _ invalid_auth_configuration e6);
      organisation = facts.organisation ∙ claim_name-same _ _ _ e3;
      provider = facts.provider;
      keys = facts.keys;
      issuer = facts.issuer;
      audience = facts.audience;
      jwks_url = facts.jwks_url;
    }

-- What is known of somebody who is let in on a route that is not public, by the configuration.
pub record IsVerified (j : Jose) (c : AuthConfig) (roles : List Text) (header : Option Text)
    (a : Actor) : Type 0 where
  pub token : Text
  pub presented : bearer_token j header ≡ ok token
  pub jwks_url : Text
  pub cooldown : ℕ
  pub cache_max_age : ℕ
  pub options : VerifyOptions
  pub claims : Members
  pub verified : j.verify token (remote jwks_url cooldown cache_max_age) options ≡ some claims
  pub keys : c.jwks_url ≡ some jwks_url
  pub issuer : c.issuer ≡ some options.issuer
  pub audience : c.audience ≡ some options.audience
  pub signatures : all (λ (t : Text). one_of_texts t asymmetric_names) options.algorithms ≡ true
  pub required :
      options.required_claims
      ≡ codes "sub"
        ∷ codes "exp"
        ∷ codes "iat"
        ∷ or_default c.organisation_claim (codes "org_id")
        ∷ []
  pub age : options.max_token_age ≡ 3600
  pub subject : claim (codes "sub") claims ≡ some (str a.subject)
  pub organisation :
      claim (or_default c.organisation_claim (codes "org_id")) claims ≡ some (str a.organisation_id)
  pub known_role : one_of_texts a.role actor_roles ≡ true
  pub permitted : (no_roles j roles || one_of_texts a.role roles) ≡ true

text_of-some : (o : Option Json) (t : Text) → text_of o ≡ some t → o ≡ some (str t)
text_of-some none t h = absurd (ground arith)
text_of-some (some (str u)) t h = ground arith
text_of-some (some j) t h = absurd (ground arith)

-- What `actor` takes from the claims.
record IsClaimed (claims : Members) (organisation_claim : Text) (a : Actor) : Type 0 where
  subject : claim (codes "sub") claims ≡ some (str a.subject)
  organisation : claim organisation_claim claims ≡ some (str a.organisation_id)
  known_role : one_of_texts a.role actor_roles ≡ true

actor-IsClaimed :
    (j : Jose) (claims : Members) (organisation_claim role_claim : Text) (mode : Mode) (a : Actor)
    → actor j claims organisation_claim role_claim mode ≡ ok a
    → IsClaimed claims organisation_claim a
unfolding actor
actor-IsClaimed j claims organisation_claim role_claim mode a h =
    let (subject, e1, h1) =
      >>=-eq-ok (found (text_of (claim (codes "sub") claims)) invalid_claims) _ h in
    let (u2, e2, h2) = >>=-eq-ok (require (is_subject subject) invalid_claims) _ h1 in
    let (organisation_id, e3, h3) =
      >>=-eq-ok (found (text_of (claim organisation_claim claims)) invalid_claims) _ h2 in
    let (u4, e4, h4) = >>=-eq-ok (require (j.is_uuid organisation_id) invalid_claims) _ h3 in
    let (role, e5, h5) =
      >>=-eq-ok (found (role_text (claim role_claim claims)) invalid_claims) _ h4 in
    let (u6, e6, h6) = >>=-eq-ok (require (one_of_texts role actor_roles) invalid_claims) _ h5 in
    subst (IsClaimed claims organisation_claim) (ok_ok h6) (record {
      subject = text_of-some _ subject (found-some _ invalid_claims e1);
      organisation = text_of-some _ organisation_id (found-some _ invalid_claims e3);
      known_role = require-eq-ok _ invalid_claims e6;
    })

or_invalid-ok : (j : Jose) (o : Outcome Actor) (a : Actor) → or_invalid j o ≡ ok a → o ≡ ok a
or_invalid-ok j (ok b) a h = h
or_invalid-ok j (err c) a h = absurd (ground arith)

module _ (j : Jose) (c : AuthConfig) (s : AuthService) (is_oidc : IsOidc c s) where
  verify_bearer-oidc :
      (token : Text) (a : Actor) → verify_bearer j s token ≡ ok a → verify_oidc j s token ≡ ok a
  unfolding verify_bearer
  verify_bearer-oidc token a h =
      elim (Bool-cases (is_empty token || not (leb (length token) 16384))) [
        | inl bad ↦ absurd (failed (rw (bad, verify_bearer) at h))
        | inr fine ↦
            or_invalid-ok j (verify_oidc j s token) a (rw (fine, verify_bearer, is_oidc.mode) at h)
      ]
    where
      failed : err invalid_access_token ≡ ok a → ⊥
      failed e = cc

  IsVerified-case :
      (roles : List Text) (header : Option Text) (token : Text) (a : Actor)
      → bearer_token j header ≡ ok token
      → verify_oidc j s token ≡ ok a
      → (no_roles j roles || has_role j roles (some a)) ≡ true
      → IsVerified j c roles header a
  unfolding verify_oidc
  IsVerified-case roles header token a presented h permitted =
      let (o, e1, h1) = >>=-eq-ok (found s.keys invalid_claims) _ h in
      let (claims, e2, h2) =
        >>=-eq-ok
          (found (j.verify token (remote o.jwks_url o.cooldown o.cache_max_age) (oidc_options s o))
            invalid_claims)
          _ h1 in
      let (u3, e3, h3) =
        >>=-eq-ok (require (not (is_ambiguous s.organisation_claim claims)) invalid_claims) _ h2 in
      let who = actor-IsClaimed j claims s.organisation_claim s.role_claim oidc a h3 in
      let same : is_oidc.provider ≡ o =
        ground (arith, is_oidc.keys, found-some _ invalid_claims e1) in
      record {
        token = token;
        presented = presented;
        jwks_url = o.jwks_url;
        cooldown = o.cooldown;
        cache_max_age = o.cache_max_age;
        options = oidc_options s o;
        claims = claims;
        verified = found-some _ invalid_claims e2;
        keys = is_oidc.jwks_url ∙ ap (λ (x : Oidc). some x.jwks_url) same;
        issuer = is_oidc.issuer ∙ ap (λ (x : Oidc). some x.issuer) same;
        audience = is_oidc.audience ∙ ap (λ (x : Oidc). some x.audience) same;
        signatures = is_oidc.signatures;
        required =
            ap (λ (t : Text). codes "sub" ∷ codes "exp" ∷ codes "iat" ∷ t ∷ [])
              is_oidc.organisation;
        age = refl;
        subject = who.subject;
        organisation =
            subst (λ (t : Text). claim t claims ≡ some (str a.organisation_id)) is_oidc.organisation
              who.organisation;
        known_role = who.known_role;
        permitted = permitted;
      }

-- On a production system every request that is let in on a route that is not public has an actor, who
-- is named, with the organisation, by claims that the keys of the configured key set have verified for
-- the configured issuer and audience, with asymmetric signatures only, a token of at most one hour and
-- the claims of subject, expiry, issue and the configured organisation required; the actor has one of
-- the five roles, and one of those that the route asks for, where it asks for any.
pub admit-IsVerified :
    (j : Jose) (parse_url : Text → Option Url) (c : AuthConfig) (s : AuthService)
    (roles : List Text) (header : Option Text) (who : Option Actor)
    → configure parse_url c ≡ ok s
    → c.production ≡ true
    → admit j s false roles header ≡ ok who
    → (a : Actor) × (who ≡ some a) × IsVerified j c roles header a
unfolding admit authenticate check_role
admit-IsVerified j parse_url c s roles header who configured production h =
    let is_oidc = configure-IsOidc parse_url c s configured production in
    let (seen, e1, h1) = >>=-eq-ok (authenticate j s false header none) _ h in
    let (u2, e2, h2) = >>=-eq-ok (check_role j false roles seen) _ h1 in
    let (token, e3, h3) = >>=-eq-ok (bearer_token j header) _ e1 in
    let (a, e4, h4) = >>=-eq-ok (verify_bearer j s token) _ h3 in
    let is_a : some a ≡ seen = ok_ok h4 in
    let permitted =
      subst (λ (o : Option Actor). (no_roles j roles || has_role j roles o) ≡ true) (sym is_a)
        (require-eq-ok _ role_forbidden e2) in
    (
      a,
      sym (ok_ok h2) ∙ sym is_a,
      IsVerified-case j c s is_oidc roles header token a e3
          (verify_bearer-oidc j c s is_oidc token a e4) permitted,
    )
