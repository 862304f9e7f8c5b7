-- ===== src/Tenant/Access/Delegated.antt =====
-- Who gets into a foreign tenant, at the guard and again in the transaction.
use codex_nieuw.Prelude.{
  ℕ, ◌≤◌, ◌<◌, String, ◌≡◌, ◌≢◌, refl, true, ◌&&◌, Option, none, some, List, [], ◌∷◌, ◌++◌, arith,
  Bool-cases, Option-cases, keep, find?, find?_sound, length, ◌==◌, or_else, Memᴰ, mem-keep,
  mem-find?, ltb, leb, inl, inr, ◌⊎◌,
}
use codex_nieuw.Prelude.Outcome.{
  Outcome, ok, >>=-eq-ok, Outcome-cases, require, no_written_authorisation,
}
use codex_nieuw.Tenant.Scope.{permits_authorisation_scope}
use codex_nieuw.Store.Rows.{Db, WrittenAuthorisation}
use codex_nieuw.Tenant.Access.{
  Actor, Delegation, Tenancy, in_force, least_id, is_candidate, is_delegated_row, delegate,
  can_activate, scope_path, recheck, run, run_delegated, scoped_event,
}

-- The end of a validity, where there is one, lies after `now`.
abbrev pub NotExpired : Option ℕ → ℕ → Type 0
NotExpired none now = Unit {0}
NotExpired (some until) now = now < until

-- An authorisation of the database that lets the provider act for the responsible organisation in
-- the scope at the time: not revoked, begun, not expired, and with the scope granted.
pub record IsAuthorised (db : Db) (responsible provider : ℕ) (scope : String) (now : ℕ)
    (row : WrittenAuthorisation) : Type 0 where
  pub listed : Memᴰ row db.authorisations
  pub responsible_operator : row.responsible_operator_id ≡ responsible
  pub service_provider : row.service_provider_id ≡ provider
  pub not_revoked : row.revoked_at ≡ none
  pub begun : row.valid_from ≤ now
  pub not_expired : NotExpired row.valid_until now
  pub permitted : permits_authorisation_scope row.scope_json scope ≡ true

least_id-mem :
    (rows : List WrittenAuthorisation) {row : WrittenAuthorisation}
    → least_id rows ≡ some row
    → Memᴰ row rows
least_id-mem [] e = ground arith
least_id-mem (r ∷ rs) {row} e = elim (Option-cases (least_id rs)) [
  | inl alone ↦ Memᴰ.head (ground arith)
  | inr (other, found) ↦ elim (Bool-cases (leb r.id other.id)) [
    | inl first ↦ Memᴰ.head (ground arith)
    | inr later ↦ Memᴰ.tail (least_id-mem rs (ground arith))
  ]
]

least_id-some :
    (rows : List WrittenAuthorisation) {row : WrittenAuthorisation}
    → Memᴰ row rows
    → least_id rows ≢ none
least_id-some (r ∷ rs) m e = ground arith
least_id-some [] m e = elim m [ ]

NotExpired-of :
    (limit : Option ℕ) (now : ℕ)
    → (elim limit [ none ↦ true | some until ↦ ltb now until ]) ≡ true
    → NotExpired limit now
NotExpired-of none now h = tt
NotExpired-of (some u) now h = ground arith

candidate-IsAuthorised :
    (db : Db) (responsible provider : ℕ) (scope : String) (now : ℕ) (row : WrittenAuthorisation)
    → Memᴰ row db.authorisations
    → is_candidate responsible provider scope now row ≡ true
    → IsAuthorised db responsible provider scope now row
candidate-IsAuthorised db responsible provider scope now row m h = record {
  listed = m;
  responsible_operator = ground arith;
  service_provider = ground arith;
  not_revoked = ground arith;
  begun = ground arith;
  not_expired = NotExpired-of row.valid_until now (ground arith);
  permitted = ground arith;
}

abbrev pub delegation_by : Actor → ℕ → String → WrittenAuthorisation → Tenancy
delegation_by actor requested scope row = record {
  tenant_organisation_id = requested;
  delegation = some record {
    authorisation_id = row.id;
    provider_organisation_id = actor.organisation_id;
    responsible_organisation_id = requested;
    actor_subject = actor.subject;
    required_scope = scope;
  };
}

delegate-IsAuthorised :
    (actor : Actor) (requested : ℕ) (name : String) (now : ℕ) (db : Db) (t : Tenancy)
    → delegate actor requested (some name) now db ≡ ok t
    → (row : WrittenAuthorisation) × IsAuthorised db requested actor.organisation_id name now row
      × (t ≡ delegation_by actor requested name row)
unfolding delegate
delegate-IsAuthorised actor requested name now db t e =
    let test = is_candidate requested actor.organisation_id name now in
    elim (Option-cases (least_id (keep test db.authorisations))) [
      | inl nobody ↦ ground arith
      | inr (row, first) ↦
          let (listed, passes) =
            mem-keep test db.authorisations (least_id-mem (keep test db.authorisations) first) in
          (
            row,
            candidate-IsAuthorised db requested actor.organisation_id name now row listed passes,
            ground arith,
          )
    ]

foreign-IsAuthorised :
    (actor : Actor) (requested : ℕ) (scope : Option String) (now : ℕ) (db : Db) (t : Tenancy)
    → delegate actor requested scope now db ≡ ok t
    → (name : String) × (row : WrittenAuthorisation) × (scope ≡ some name)
      × IsAuthorised db requested actor.organisation_id name now row
      × (t ≡ delegation_by actor requested name row)
foreign-IsAuthorised actor requested none now db t e = unfold delegate in ground arith
foreign-IsAuthorised actor requested (some name) now db t e =
    let (row, authorised, same) = delegate-IsAuthorised actor requested name now db t e in
    (name, row, refl, authorised, same)

-- A request is let into its own organisation without a delegation; into another one only with an
-- authorisation of the database that is in force and grants the handler's scope, which the
-- delegation then names.
pub can_activate-IsAuthorised :
    (actor : Actor) (header : Option ℕ) (scope : Option String) (now : ℕ) (db : Db) (t : Tenancy)
    → can_activate actor header scope now db ≡ ok t
    → ((t.tenant_organisation_id ≡ actor.organisation_id) × (t.delegation ≡ none))
      ⊎ ((name : String) × (row : WrittenAuthorisation) × (scope ≡ some name)
          × IsAuthorised db
              (or_else header actor.organisation_id)
              actor.organisation_id
              name
              now
              row
          × (t ≡ delegation_by actor (or_else header actor.organisation_id) name row))
unfolding can_activate
can_activate-IsAuthorised actor header scope now db t e =
    let requested = or_else header actor.organisation_id in
    elim (Bool-cases (requested == actor.organisation_id)) [
      | inl own ↦ inl (ground arith, ground arith)
      | inr foreign ↦ inr (foreign-IsAuthorised actor requested scope now db t (ground arith))
    ]

recheck-IsAuthorised :
    (d : Delegation) (organisation_id now : ℕ) (db : Db) {u : Unit {0}}
    → recheck d organisation_id now db ≡ ok u
    → (row : WrittenAuthorisation) × (row.id ≡ d.authorisation_id)
      × IsAuthorised db organisation_id d.provider_organisation_id d.required_scope now row
unfolding recheck
recheck-IsAuthorised d organisation_id now db e =
    let test = λ (row : WrittenAuthorisation).
      is_delegated_row d organisation_id row
      && in_force row now
      && scope_path row.scope_json d.required_scope in
    let (locked, one, rest) =
      >>=-eq-ok
        (require (length (keep (is_delegated_row d organisation_id) db.authorisations) == 1)
          no_written_authorisation)
        _ e in
    elim (Option-cases (find? test db.authorisations)) [
      | inl nobody ↦ ground arith
      | inr (row, found) ↦
          let passes = find?_sound test db.authorisations found in
          let permits : permits_authorisation_scope row.scope_json d.required_scope ≡ true =
            ground arith in
          (
            row,
            ground arith,
            record {
              listed = mem-find? test db.authorisations found;
              responsible_operator = ground arith;
              service_provider = ground arith;
              not_revoked = ground arith;
              begun = ground arith;
              not_expired = NotExpired-of row.valid_until now (ground arith);
              permitted = permits;
            },
          )
    ]

module _ {A : Type 0} (work : Db → Outcome (A × Db)) (organisation_id : ℕ) (now : ℕ) where
  -- Work in the responsible organisation's data runs only while an authorisation of the database,
  -- by the number that the guard saw, is in force and grants the scope; and it leaves an audit event.
  pub run-IsAuthorised :
      (d : Delegation) (db : Db) (r : A × Db)
      → run work organisation_id now (some d) db ≡ ok r
      → organisation_id ≢ d.provider_organisation_id
      → (row : WrittenAuthorisation) × (s : A × Db) × (row.id ≡ d.authorisation_id)
        × IsAuthorised db organisation_id d.provider_organisation_id d.required_scope now row
        × (work db ≡ ok s)
        × ((r.1).audit ≡ (s.1).audit ++ scoped_event d organisation_id ∷ [])
  unfolding run run_delegated
  run-IsAuthorised d db r e foreign = elim (Outcome-cases (recheck d organisation_id now db)) [
    | inr (c, denied) ↦ ground arith
    | inl (u, checked) ↦ elim (Outcome-cases (work db)) [
      | inr (c, failed) ↦ ground arith
      | inl (s, worked) ↦
          let (row, same, authorised) = recheck-IsAuthorised d organisation_id now db checked in
          (row, s, same, authorised, worked, ground arith)
    ]
  ]
