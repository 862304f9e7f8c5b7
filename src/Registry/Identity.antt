-- ===== src/Registry/Identity.antt =====
-- apps/api/src/modules/registry/registry-identity.service.ts: the actor gate, on the identities and
-- the authorisations of the database. Its three reads are made on one state of the database.
use codex_nieuw.Prelude.{
  ℕ, ◌≡◌, refl, subst, Bool, true, false, not, ◌&&◌, ◌||◌, Option, none, some, ltb, leb, ◌==◌,
  find?, is_some, arith, inl, inr, ◌⊎◌, Option-cases, Memᴰ, mem-find?, find?_sound,
}
use codex_nieuw.Rules.RegistryIdentity.{
  RegistryActorType, economic_operator, value_chain_actor, unverified, Stamp, unset, at,
  RegistryIdentitySnapshot, RegistryDelegatedActionContext, RegistryActorGateResult,
  delegated_registry_actor_gate,
}
use codex_nieuw.Rules.RegistryIdentity.Gate.{IsCurrent, MayAct, delegated_registry_actor_gate_iff}
use codex_nieuw.Store.Rows.{RegistryIdentity, WrittenAuthorisation, Db}
use codex_nieuw.Tenant.Access.{Actor}

-- What `gate` answers.
pub record RegistryGate : Type 0 where
  pub result : RegistryActorGateResult
  pub acting_on_behalf : Bool
  pub responsible_identity_id : Option ℕ
  pub acting_identity_id : Option ℕ
  pub authorisation_id : Option ℕ

abbrev same_actor_type : RegistryActorType → RegistryActorType → Bool
same_actor_type economic_operator economic_operator = true
same_actor_type value_chain_actor value_chain_actor = true
same_actor_type _ _ = false

abbrev pub is_identity : ℕ → RegistryActorType → RegistryIdentity → Bool
is_identity organisation_id actor_type i =
    i.organisation_id == organisation_id && same_actor_type i.actor_type actor_type

-- `getIdentity`
unfoldable pub get_identity : Db → ℕ → RegistryActorType → Option RegistryIdentity
get_identity db organisation_id actor_type =
    find? (is_identity organisation_id actor_type) db.identities

-- `value ?? undefined`
abbrev stamp_of : Option ℕ → Stamp
stamp_of none = unset
stamp_of (some t) = at t

-- The snapshot of an identity, and the one that stands for a missing identity.
abbrev pub snapshot_of : RegistryActorType → Option RegistryIdentity → RegistryIdentitySnapshot
snapshot_of actor_type none = record {
  actor_type = actor_type;
  status = unverified;
  verified_at = unset;
  valid_until = unset;
  electronic_id_expires_at = unset;
}
snapshot_of actor_type (some i) = record {
  actor_type = actor_type;
  status = i.status;
  verified_at = stamp_of i.verified_at;
  valid_until = stamp_of i.valid_until;
  electronic_id_expires_at = stamp_of i.electronic_id_expires_at;
}

-- The `where` of the authorisation that `gate` looks for.
abbrev pub authorises : ℕ → ℕ → ℕ → WrittenAuthorisation → Bool
authorises responsible provider now a =
    a.responsible_operator_id == responsible
    && (a.service_provider_id == provider)
    && not (is_some a.revoked_at)
    && leb a.valid_from now
    && (elim a.valid_until [ none ↦ true | some t ↦ ltb now t ])

abbrev identity_id : Option RegistryIdentity → Option ℕ
identity_id none = none
identity_id (some i) = some i.id

abbrev authorisation_id_of : Option WrittenAuthorisation → Option ℕ
authorisation_id_of none = none
authorisation_id_of (some a) = some a.id

abbrev pub acting_type : Bool → RegistryActorType
acting_type true = value_chain_actor
acting_type false = economic_operator

-- The acting party's identity, and the authorisation that is looked for on behalf of another.
abbrev pub acting_identity : Db → ℕ → Actor → Bool → Option RegistryIdentity
acting_identity db responsible actor true = get_identity db actor.organisation_id value_chain_actor
acting_identity db responsible actor false = get_identity db responsible economic_operator

abbrev pub found_authorisation : Db → ℕ → Actor → ℕ → Bool → Option WrittenAuthorisation
found_authorisation db responsible actor now true =
    find? (authorises responsible actor.organisation_id now) db.authorisations
found_authorisation db responsible actor now false = none

abbrev pub gate_context : Db → ℕ → Actor → ℕ → Bool → RegistryDelegatedActionContext
gate_context db responsible actor now on_behalf = record {
  responsible_operator =
      snapshot_of economic_operator (get_identity db responsible economic_operator);
  acting_party =
      snapshot_of (acting_type on_behalf) (acting_identity db responsible actor on_behalf);
  acting_on_behalf = on_behalf;
  has_active_written_authorisation =
      not on_behalf || is_some (found_authorisation db responsible actor now on_behalf);
  now = now;
}

-- `gate`
unfoldable pub gate : Db → ℕ → Actor → ℕ → RegistryGate
gate db responsible actor now =
    let on_behalf = not (actor.organisation_id == responsible) in
    record {
      result = delegated_registry_actor_gate (gate_context db responsible actor now on_behalf);
      acting_on_behalf = on_behalf;
      responsible_identity_id = identity_id (get_identity db responsible economic_operator);
      acting_identity_id = identity_id (acting_identity db responsible actor on_behalf);
      authorisation_id =
          authorisation_id_of (found_authorisation db responsible actor now on_behalf);
    }

-- A row of the database that stands for a currently verified identity.
abbrev pub HasIdentity : Db → ℕ → RegistryActorType → ℕ → Type 0
HasIdentity db organisation_id actor_type now =
    (i : RegistryIdentity) × (get_identity db organisation_id actor_type ≡ some i)
    × IsCurrent (snapshot_of actor_type (some i)) now

-- Who is let through: the responsible organisation is a verified economic operator, and the actor
-- works for it or is a verified value-chain actor with an authorisation of it that is in force.
pub record IsEntitled (db : Db) (responsible : ℕ) (actor : Actor) (now : ℕ) : Type 0 where
  pub operator : HasIdentity db responsible economic_operator now
  pub party :
      (actor.organisation_id ≡ responsible)
      ⊎ (HasIdentity db actor.organisation_id value_chain_actor now
          × ((a : WrittenAuthorisation) × Memᴰ a db.authorisations
              × (authorises responsible actor.organisation_id now a ≡ true)))

missing_unverified :
    (actor_type : RegistryActorType) (now : ℕ) → IsCurrent (snapshot_of actor_type none) now → ⊥
missing_unverified actor_type now c = let impossible = c.0 in cc

current_row :
    (db : Db) (organisation_id : ℕ) (actor_type : RegistryActorType) (now : ℕ)
    → IsCurrent (snapshot_of actor_type (get_identity db organisation_id actor_type)) now
    → HasIdentity db organisation_id actor_type now
current_row db organisation_id actor_type now c =
    elim (Option-cases (get_identity db organisation_id actor_type)) [
      | inl none_ ↦ absurd (
          missing_unverified actor_type now (
            subst (λ (o : Option RegistryIdentity). IsCurrent (snapshot_of actor_type o) now) none_
              c))
      | inr (i, e) ↦ (
        i,
        e,
        subst (λ (o : Option RegistryIdentity). IsCurrent (snapshot_of actor_type o) now) e c,
      )
    ]

some_of : {A : Type 0} (o : Option A) → is_some o ≡ true → (a : A) × (o ≡ some a)
some_of none h = absurd (ground arith)
some_of (some a) h = (a, refl)

gate_cases :
    (db : Db) (responsible : ℕ) (actor : Actor) (now : ℕ) (on_behalf : Bool)
    → not (actor.organisation_id == responsible) ≡ on_behalf
    → MayAct (gate_context db responsible actor now on_behalf)
    → IsEntitled db responsible actor now
gate_cases db responsible actor now false e may = record {
  operator = current_row db responsible economic_operator now may.1;
  party = inl (ground arith);
}
gate_cases db responsible actor now true e may = record {
  operator = current_row db responsible economic_operator now may.1;
  party =
      let (a, found_) =
        some_of (find? (authorises responsible actor.organisation_id now) db.authorisations)
          (ground arith) in
      inr (
        current_row db actor.organisation_id value_chain_actor now may.2,
        (
          a,
          mem-find? (authorises responsible actor.organisation_id now) db.authorisations found_,
          find?_sound (authorises responsible actor.organisation_id now) db.authorisations found_,
        ),
      );
}

-- The gate opens only where a row of the database says that the responsible organisation is a
-- currently verified economic operator, and where the actor either belongs to that organisation or is
-- of an organisation that a row says to be a currently verified value-chain actor, with a written
-- authorisation of the responsible organisation that is in force and not revoked.
pub gate-IsEntitled :
    (db : Db) (responsible : ℕ) (actor : Actor) (now : ℕ)
    → ((gate db responsible actor now).result).allowed ≡ true
    → IsEntitled db responsible actor now
unfolding gate
gate-IsEntitled db responsible actor now h =
    gate_cases db responsible actor now (not (actor.organisation_id == responsible)) refl (
      (delegated_registry_actor_gate_iff
          (gate_context db responsible actor now (not (actor.organisation_id == responsible)))).0
        h)
