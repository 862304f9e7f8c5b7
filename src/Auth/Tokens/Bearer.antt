-- ===== src/Auth/Tokens/Bearer.antt =====
-- A development token that is presented signs its subject in.
use codex_nieuw.Prelude.{
  ◌≤◌, ◌≡◌, refl, sym, ap, ◌∙◌, subst, Bool, true, false, not, ◌&&◌, ◌||◌, Option, none, some, [],
  ◌∷◌, ◌++◌, any, length, leb, arith, if◌then◌else◌, &&-split,
}
use codex_nieuw.Prelude.Outcome.{
  ok, >>=-eq-ok, require, require-eq-ok, invalid_claims, invalid_access_token,
  development_token_disabled,
}
use codex_nieuw.Json.{Text, codes, same_text, Members, is_space}
use codex_nieuw.Patterns.{is_empty, trim, trim_start, trim_end}
use codex_nieuw.Storage.Objects.Checking.{ok_ok}
use codex_nieuw.Auth.{actor_roles, one_of_texts, or_default, dev, AuthService}
use codex_nieuw.Auth.Tokens.{
  Actor, secret, Jose, claim, text_of, is_subject, is_dev, DevTokenInput, with_email, dev_role,
  dev_claims, signed_claims, dev_options, dev_secret_of, actor, verify_dev, verify_bearer,
  create_dev_token, bearer_token, authenticate,
}

-- What `jose` says of a token that it has signed: it verifies with the same secret, the claims are
-- those that were signed but for the two times, and its text is of letters, digits, `-`, `_` and `.`.
pub record IsFaithful (j : Jose) (key : Text) (claims : Members) : Type 0 where
  pub payload : Members
  pub verified : j.verify (j.sign key claims 28800) (secret key) dev_options ≡ some payload
  pub same :
      (name : Text)
      → same_text name (codes "iat") ≡ false
      → same_text name (codes "exp") ≡ false
      → claim name payload ≡ claim name claims
  pub visible : any is_space (j.sign key claims 28800) ≡ false
  pub written : is_empty (j.sign key claims 28800) ≡ false

-- The actor that an input describes.
abbrev pub dev_actor : DevTokenInput → Actor
dev_actor input = record {
  subject = input.subject;
  organisation_id = input.organisation_id;
  role = dev_role input;
  mode = dev;
  email = input.email;
  display_name = none;
}

neither : (a b : Bool) → (a || b) ≡ false → (a ≡ false) × (b ≡ false)
neither a b h = (ground arith, ground arith)

kept : (b : Bool) (x y : Text) → b ≡ false → (if b then x else y) ≡ y
kept b x y h = rw h refl

trim_end-visible : (t : Text) → any is_space t ≡ false → trim_end t ≡ t
trim_end-visible [] h = refl
trim_end-visible (c ∷ t) h =
    let (here, later) = neither (is_space c) (any is_space t) h in
    kept (is_space c && is_empty (trim_end t)) [] (c ∷ trim_end t) (ground (arith, here))
    ∙ ap (λ (x : Text). c ∷ x) (trim_end-visible t later)

-- Nothing is trimmed from a text without spaces.
trim-visible : (t : Text) → any is_space t ≡ false → trim t ≡ t
unfolding trim
trim-visible [] h = refl
trim-visible (c ∷ t) h =
    let (here, later) = neither (is_space c) (any is_space t) h in
    ap trim_end (kept (is_space c) (trim_start t) (c ∷ t) here) ∙ trim_end-visible (c ∷ t) h

lookups :
    (o : Option Text)
    → (text_of (claim (codes "email") (with_email o)) ≡ o)
      × (text_of (claim (codes "name") (with_email o)) ≡ none)
lookups none = (refl, refl)
lookups (some t) = (refl, refl)

-- A token in the header is the one that the guard reads.
bearer_token-visible :
    (j : Jose) (token : Text)
    → any is_space token ≡ false
    → is_empty token ≡ false
    → length token ≤ 16384
    → bearer_token j (some (codes "Bearer " ++ token)) ≡ ok token
unfolding bearer_token
bearer_token-visible j token visible written short =
    let size : leb (length (codes "Bearer " ++ token)) 16400 ≡ true = ground (arith) in
    rw (bearer_token, size, trim-visible token visible, visible, written) refl

module _ (j : Jose) (input : DevTokenInput) where
  actor-dev :
      (a : Actor)
      → actor j (dev_claims input) (codes "org_id") (codes "role") dev ≡ ok a
      → a ≡ dev_actor input
  unfolding actor
  actor-dev a h =
      let (u1, e1, h1) = >>=-eq-ok (require (is_subject input.subject) invalid_claims) _ h in
      let (u2, e2, h2) =
        >>=-eq-ok (require (j.is_uuid input.organisation_id) invalid_claims) _ h1 in
      let (u3, e3, h3) =
        >>=-eq-ok (require (one_of_texts (dev_role input) actor_roles) invalid_claims) _ h2 in
      let l = lookups input.email in sym (ok_ok h3) ∙ rw (l.0, l.1) refl

  actor-payload :
      (key : Text) (f : IsFaithful j key (signed_claims input))
      → actor j f.payload (codes "org_id") (codes "role") dev
        ≡ actor j (dev_claims input) (codes "org_id") (codes "role") dev
  unfolding actor
  actor-payload key f =
      let sub = f.same (codes "sub") refl refl in
      let org = f.same (codes "org_id") refl refl in
      let role = f.same (codes "role") refl refl in
      let email = f.same (codes "email") refl refl in
      let name = f.same (codes "name") refl refl in rw (actor, sub, org, role, email, name) refl

-- The token that is signed with the secret of the service, in the header.
presents :
    (j : Jose) (s : AuthService) (input : DevTokenInput) (a : Actor)
    (f : IsFaithful j (or_default s.dev_secret []) (signed_claims input))
    → length (j.sign (or_default s.dev_secret []) (signed_claims input) 28800) ≤ 16384
    → is_dev s.mode ≡ true
    → dev_secret_of s ≡ ok (or_default s.dev_secret [])
    → actor j (dev_claims input) (codes "org_id") (codes "role") dev ≡ ok a
    → authenticate j s false
        (some (codes "Bearer " ++ j.sign (or_default s.dev_secret []) (signed_claims input) 28800))
        none
      ≡ ok (some (dev_actor input))
unfolding authenticate verify_bearer verify_dev
presents j s input a f short is_dev_ secret_is made =
    let key = or_default s.dev_secret [] in
    let token = j.sign key (signed_claims input) 28800 in
    let read = bearer_token-visible j token f.visible f.written short in
    let small : leb (length token) 16384 ≡ true = ground arith in
    let acts =
      actor-payload j input key f ∙ made ∙ ap (λ (x : Actor). ok x) (actor-dev j input a made) in
    let verifies : verify_dev j s token ≡ ok (dev_actor input) =
      rw (verify_dev, secret_is, f.verified, acts) refl in
    rw (authenticate, read, verify_bearer, f.written, small, is_dev_, verifies) refl

-- A token that the service issues signs its subject in, under the organisation and the role of the
-- input, where the library verifies what it has signed and the token is short enough for the guard.
pub create_dev_token-authenticate :
    (j : Jose) (s : AuthService) (input : DevTokenInput) (token : Text)
    → IsFaithful j (or_default s.dev_secret []) (signed_claims input)
    → length token ≤ 16384
    → create_dev_token j s input ≡ ok token
    → authenticate j s false (some (codes "Bearer " ++ token)) none ≡ ok (some (dev_actor input))
unfolding create_dev_token authenticate dev_secret_of verify_bearer verify_dev
create_dev_token-authenticate j s input token f short h =
    let (u1, e1, h1) =
      >>=-eq-ok (require (is_dev s.mode && not s.production) development_token_disabled) _ h in
    let (a, e2, h2) =
      >>=-eq-ok (actor j (dev_claims input) (codes "org_id") (codes "role") dev) _ h1 in
    let (key, e3, h3) = >>=-eq-ok (dev_secret_of s) _ h2 in
    let (u4, e4, h4) =
      >>=-eq-ok (require (leb 32 (length (or_default s.dev_secret []))) invalid_access_token) _
        e3 in
    let same_key = ok_ok h4 in
    let is_token : j.sign (or_default s.dev_secret []) (signed_claims input) 28800 ≡ token =
      ap (λ (k : Text). j.sign k (signed_claims input) 28800) same_key ∙ ok_ok h3 in
    let secret_is : dev_secret_of s ≡ ok (or_default s.dev_secret []) =
      e3 ∙ ap (λ (k : Text). ok k) (sym same_key) in
    subst
      (λ (t : Text).
        authenticate j s false (some (codes "Bearer " ++ t)) none ≡ ok (some (dev_actor input)))
      is_token
      (presents j s input a f (rw is_token short)
        (&&-split (is_dev s.mode) _ (require-eq-ok _ development_token_disabled e1)).0 secret_is e2)
