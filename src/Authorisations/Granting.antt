-- ===== src/Authorisations/Granting.antt =====
-- What an authorisation opens, and that its revocation closes it.
use codex_nieuw.Prelude.{
  ℕ, ◌≤◌, ◌<◌, String, ◌≡◌, inl, inr, refl, Bool, true, false, not, ◌&&◌, Option, none, some, List,
  [], ◌∷◌, ◌++◌, arith, leb, ◌==◌, find?, keep, keep-append, length, update_where, or_else,
  Bool-cases, Option-cases,
}
use codex_nieuw.Prelude.Outcome.{
  ok, err, >>=-eq-ok, require, require-eq-ok, found, not_found, no_written_authorisation,
  invalid_authorisation_interval, self_authorisation, verified_authorisation_evidence_required,
}
use codex_nieuw.Store.Rows.{WrittenAuthorisation, Db}
use codex_nieuw.Tenant.Scope.{ScopeJson, not_object, entries, grants, permits_authorisation_scope}
use codex_nieuw.Tenant.Access.{
  Actor, Delegation, Tenancy, in_force, has_true, scope_path, least_id, is_candidate,
  is_delegated_row, delegate, can_activate, recheck,
}
use codex_nieuw.Authorisations.{
  AuthorisationBody, owns_authorisation, owns_evidence, document_hash, ends_early,
  new_authorisation, require_responsible_operator, revoked_row, has_number, create_authorisation,
  revoke_authorisation,
}

module _ (time : ℕ → ℕ) (uuid : ℕ → ℕ) (actor : Actor) where
  none-in_force :
      (d : Delegation) (o now id : ℕ) (rows : List WrittenAuthorisation)
      → d.authorisation_id ≡ id
      → find?
          (λ (row : WrittenAuthorisation).
            is_delegated_row d o row
            && in_force row now
            && scope_path row.scope_json d.required_scope)
          (update_where (has_number time uuid actor id) (revoked_row time uuid actor) rows)
        ≡ none
  none-in_force d o now id [] e = refl
  none-in_force d o now id (row ∷ rows) e = let ih = none-in_force d o now id rows e in ground arith

  -- Once an authorisation is revoked, no transaction that was delegated under it begins in the
  -- responsible organisation's data, even if the guard had let the request in before.
  pub revoke-recheck :
      (organisation_id id : ℕ) (db : Db) (row : WrittenAuthorisation) (new : Db)
      → revoke_authorisation time uuid actor organisation_id id db ≡ ok (row, new)
      → (d : Delegation) (responsible now : ℕ) → d.authorisation_id ≡ id
      → recheck d responsible now new ≡ err no_written_authorisation
  unfolding revoke_authorisation recheck
  revoke-recheck o id db row new h d responsible now e =
      let (u, operator, h1) = >>=-eq-ok (require_responsible_operator time uuid actor o) _ h in
      let (existing, listed, h2) =
        >>=-eq-ok (found (find? (owns_authorisation o id) db.authorisations) not_found) _ h1 in
      let rows : new.authorisations
          ≡ update_where (has_number time uuid actor id) (revoked_row time uuid actor)
              db.authorisations =
        ground arith in
      let gone = none-in_force d responsible now id db.authorisations e in
      rw (rows, gone)
        (elim (Bool-cases (
          length (
            keep (is_delegated_row d responsible) (
              update_where (has_number time uuid actor id) (revoked_row time uuid actor)
                db.authorisations))
          == 1)) [ inl one ↦ ground arith | inr other ↦ ground arith ])

  grants-has_true :
      (es : List (String × Option Bool)) (scope : String)
      → grants es scope ≡ true
      → has_true es scope ≡ true
  grants-has_true [] scope h = ground arith
  grants-has_true ((key, none) ∷ es) scope h = ground (arith, grants-has_true es scope)
  grants-has_true ((key, some true) ∷ es) scope h = ground (arith, grants-has_true es scope)
  grants-has_true ((key, some false) ∷ es) scope h = ground (arith, grants-has_true es scope)

  permits-scope_path :
      (s : ScopeJson) (scope : String)
      → permits_authorisation_scope s scope ≡ true
      → scope_path s scope ≡ true
  unfolding permits_authorisation_scope scope_path
  permits-scope_path not_object scope h = ground arith
  permits-scope_path (entries es) scope h = grants-has_true es scope (ground arith)

  least_id-append :
      (rows : List WrittenAuthorisation) (row : WrittenAuthorisation)
      → (least : WrittenAuthorisation) × (least_id (rows ++ row ∷ []) ≡ some least)
  least_id-append [] row = (row, refl)
  least_id-append (r ∷ rows) row =
      let (least, e) = least_id-append rows row in
      elim (Bool-cases (leb r.id least.id)) [
        | inl first ↦ (r, ground arith)
        | inr later ↦ (least, ground arith)
      ]

  -- The validity of an authorisation has begun and has not ended.
  abbrev pub IsDuring : ℕ → Option ℕ → ℕ → Type 0
  IsDuring from none now = from ≤ now
  IsDuring from (some until) now = (from ≤ now) × (now < until)

  during-in_force :
      (o : ℕ) (b : AuthorisationBody) (from hash now : ℕ)
      → IsDuring from b.valid_until now
      → in_force (new_authorisation time uuid actor o b from hash) now ≡ true
  during-in_force o b from hash now h = elim (Option-cases b.valid_until) [
    | inl always ↦ let begun : from ≤ now = rw always at h in ground arith
    | inr (until, limited) ↦
        let both : (from ≤ now) × (now < until) = rw limited at h in ground arith
  ]

  -- An authorisation that is created lets the provider named in it act for the responsible
  -- organisation, in each scope that it permits and at each time of its validity: the guard then
  -- accepts the request and sets the responsible organisation as its tenant.
  pub create-can_activate :
      (organisation_id : ℕ) (b : AuthorisationBody) (db : Db) (row : WrittenAuthorisation)
      (new : Db)
      → create_authorisation time uuid actor organisation_id b db ≡ ok (row, new)
      → (provider : Actor) (scope : String) (now : ℕ)
      → provider.organisation_id ≡ b.service_provider_id
      → permits_authorisation_scope b.scope scope ≡ true
      → IsDuring (or_else b.valid_from (time 0)) b.valid_until now
      → (t : Tenancy) × (can_activate provider (some organisation_id) (some scope) now new ≡ ok t)
        × (t.tenant_organisation_id ≡ organisation_id)
  unfolding create_authorisation can_activate delegate
  create-can_activate o b db row new h provider scope now same permits during =
      let (u, operator, h1) = >>=-eq-ok (require_responsible_operator time uuid actor o) _ h in
      let from = or_else b.valid_from (time 0) in
      let (v, interval, h2) =
        >>=-eq-ok (require (not (ends_early b.valid_until from)) invalid_authorisation_interval) _
          h1 in
      let (w, other, h3) =
        >>=-eq-ok (require (not (b.service_provider_id == o)) self_authorisation) _ h2 in
      let (evidence, listed, h4) =
        >>=-eq-ok (found (find? (owns_evidence o b.evidence_id) db.evidence) not_found) _ h3 in
      let (hash, proven, h5) =
        >>=-eq-ok (found (document_hash evidence) verified_authorisation_evidence_required) _ h4 in
      let made = new_authorisation time uuid actor o b from hash in
      let test = is_candidate o provider.organisation_id scope now in
      let rows : new.authorisations ≡ db.authorisations ++ made ∷ [] = ground arith in
      let foreign = require-eq-ok _ _ other in
      let path = permits-scope_path b.scope scope permits in
      let alive = during-in_force o b from hash now during in
      let passes : test made ≡ true = ground arith in
      let (least, first) = least_id-append (keep test db.authorisations) made in
      let chosen : least_id (keep test new.authorisations) ≡ some least =
        rw (rows, keep-append test db.authorisations made, passes) first in
      (
        record {
          tenant_organisation_id = o;
          delegation = some record {
            authorisation_id = least.id;
            provider_organisation_id = provider.organisation_id;
            responsible_organisation_id = o;
            actor_subject = provider.subject;
            required_scope = scope;
          };
        },
        ground arith,
        refl,
      )
