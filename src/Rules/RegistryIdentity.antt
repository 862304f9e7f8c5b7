-- ===== src/Rules/RegistryIdentity.antt =====
-- packages/rules/src/registry-identity.ts: whether a Registry identity is verified now, and who may
-- act before the Registry. Times are milliseconds since 1970 as natural numbers.
pub mod Gate
use codex_nieuw.Prelude.{
  ℕ, ◌+◌, ◌≡◌, Bool, true, false, not, Option, none, some, List, [], ◌∷◌, ltb, leb, if◌then◌else◌,
}

pub data RegistryActorType : Type 0 where
  economic_operator value_chain_actor : RegistryActorType

pub data RegistryVerificationStatus : Type 0 where
  unverified pending verified expired rejected : RegistryVerificationStatus

-- A `string | Date | undefined`: absent or empty, a text that `Date` cannot read, or an instant.
pub data Stamp : Type 0 where
  unset unreadable : Stamp
  at : ℕ → Stamp

pub record RegistryIdentitySnapshot : Type 0 where
  pub actor_type : RegistryActorType
  pub status : RegistryVerificationStatus
  pub verified_at : Stamp
  pub valid_until : Stamp
  pub electronic_id_expires_at : Stamp

pub record RegistryDelegatedActionContext : Type 0 where
  pub responsible_operator : RegistryIdentitySnapshot
  pub acting_party : RegistryIdentitySnapshot
  pub acting_on_behalf : Bool
  pub has_active_written_authorisation : Bool
  pub now : ℕ

pub data ActorGateCode : Type 0 where
  responsible_actor_not_economic_operator responsible_operator_not_verified : ActorGateCode
  direct_actor_not_economic_operator direct_actor_not_verified : ActorGateCode
  no_active_written_authorisation third_party_not_value_chain_actor : ActorGateCode
  third_party_not_verified actor_ready : ActorGateCode

pub record RegistryActorGateResult : Type 0 where
  pub allowed : Bool
  pub code : ActorGateCode

abbrev pub as_time : Stamp → Option ℕ
as_time unset = none
as_time unreadable = none
as_time (at t) = some t

-- `3 * 365.2425 * 24 * 60 * 60 * 1000`. In doubles the product is short of this number by less than
-- 0.0001, which no comparison with a whole number of milliseconds can tell.
abbrev pub three_years_ms : ℕ
three_years_ms = 94670856000

-- `.filter(x => x !== undefined)`
abbrev pub defined : List (Option ℕ) → List ℕ
defined [] = []
defined (none ∷ xs) = defined xs
defined (some x ∷ xs) = x ∷ defined xs

-- `Math.min(first, ...rest)`
abbrev pub least : ℕ → List ℕ → ℕ
least m [] = m
least m (x ∷ xs) = least (if ltb x m then x else m) xs

abbrev is_verified : RegistryVerificationStatus → Bool
is_verified verified = true
is_verified _ = false

abbrev pub is_economic_operator : RegistryActorType → Bool
is_economic_operator economic_operator = true
is_economic_operator value_chain_actor = false

-- The rest of `identityIsCurrentlyVerified` once `verifiedAt` is known.
within_horizons : ℕ → Option ℕ → Stamp → Stamp → Bool
within_horizons now none valid_until expires = false
within_horizons now (some verified_at) valid_until expires =
    if ltb now verified_at
    then false
    else ltb now (
        least (verified_at + three_years_ms) (defined (as_time valid_until ∷ as_time expires ∷ [])))

unfoldable pub identity_is_currently_verified : RegistryIdentitySnapshot → ℕ → Bool
unfolding within_horizons
identity_is_currently_verified identity now =
    if not (is_verified identity.status)
    then false
    else within_horizons now (as_time identity.verified_at) identity.valid_until
        identity.electronic_id_expires_at

abbrev denied : ActorGateCode → RegistryActorGateResult
denied code = record { allowed = false; code = code }

abbrev passed : RegistryActorGateResult
passed = record { allowed = true; code = actor_ready }

unfoldable pub delegated_registry_actor_gate :
    RegistryDelegatedActionContext → RegistryActorGateResult
delegated_registry_actor_gate ctx =
    if not (is_economic_operator ctx.responsible_operator.actor_type)
    then denied responsible_actor_not_economic_operator
    else if not (identity_is_currently_verified ctx.responsible_operator ctx.now)
    then denied responsible_operator_not_verified
    else if not ctx.acting_on_behalf
    then if not (is_economic_operator ctx.acting_party.actor_type)
      then denied direct_actor_not_economic_operator
      else if not (identity_is_currently_verified ctx.acting_party ctx.now)
      then denied direct_actor_not_verified
      else passed
    else if not ctx.has_active_written_authorisation
    then denied no_active_written_authorisation
    else if is_economic_operator ctx.acting_party.actor_type
    then denied third_party_not_value_chain_actor
    else if not (identity_is_currently_verified ctx.acting_party ctx.now)
    then denied third_party_not_verified
    else passed
