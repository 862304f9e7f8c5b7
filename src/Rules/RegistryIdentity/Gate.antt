-- ===== src/Rules/RegistryIdentity/Gate.antt =====
-- When an identity counts as verified, and exactly when the actor gate opens.
use codex_nieuw.Prelude.{ℕ, ◌+◌, ◌≤◌, ◌<◌, ◌≡◌, ◌↔◌, ◌⊎◌, true, false, arith}
use codex_nieuw.Rules.RegistryIdentity.{
  economic_operator, value_chain_actor, verified, Stamp, unset, unreadable, at,
  RegistryIdentitySnapshot, RegistryDelegatedActionContext, as_time, three_years_ms,
  within_horizons, identity_is_currently_verified, delegated_registry_actor_gate,
}

-- The verification has begun and is younger than three years.
abbrev pub IsYoung : Stamp → ℕ → Type 0
IsYoung unset now = ⊥
IsYoung unreadable now = ⊥
IsYoung (at t) now = (t ≤ now) × (now < t + three_years_ms)

-- An expiry date, where one can be read, lies after `now`.
abbrev pub NotExpired : Stamp → ℕ → Type 0
NotExpired unset now = Unit {0}
NotExpired unreadable now = Unit {0}
NotExpired (at t) now = now < t

-- What it takes for an identity to be verified at `now`.
abbrev pub IsCurrent : RegistryIdentitySnapshot → ℕ → Type 0
IsCurrent identity now =
    (identity.status ≡ verified)
    × IsYoung identity.verified_at now
    × NotExpired identity.valid_until now
    × NotExpired identity.electronic_id_expires_at now

within_horizons_iff :
    (now : ℕ) (since until expires : Stamp)
    → (within_horizons now (as_time since) until expires ≡ true)
      ↔ (IsYoung since now × NotExpired until now × NotExpired expires now)
unfolding within_horizons
within_horizons_iff now unset until expires = ground arith
within_horizons_iff now (at t) unset unset = ground arith
within_horizons_iff now (at t) until (at e) = ground arith
within_horizons_iff now since until expires = ground arith

-- An identity is verified exactly when its status says so, its verification has begun less than
-- three years ago, and neither of its expiry dates, where it has them, is reached.
pub identity_is_currently_verified_iff :
    (identity : RegistryIdentitySnapshot) (now : ℕ)
    → (identity_is_currently_verified identity now ≡ true) ↔ IsCurrent identity now
unfolding identity_is_currently_verified
identity_is_currently_verified_iff identity now =
    let h =
      within_horizons_iff now identity.verified_at identity.valid_until
        identity.electronic_id_expires_at in
    ground (arith, h)

-- Who may act: the responsible party is a currently verified economic operator, and the acting
-- party is such an operator too or, on behalf of another, a currently verified value-chain actor
-- with an active written authorisation.
abbrev pub MayAct : RegistryDelegatedActionContext → Type 0
MayAct ctx =
    (ctx.responsible_operator.actor_type ≡ economic_operator)
    × IsCurrent ctx.responsible_operator ctx.now
    × IsCurrent ctx.acting_party ctx.now
    × (((ctx.acting_on_behalf ≡ false) × (ctx.acting_party.actor_type ≡ economic_operator))
        ⊎ ((ctx.acting_on_behalf ≡ true)
            × (ctx.has_active_written_authorisation ≡ true)
            × (ctx.acting_party.actor_type ≡ value_chain_actor)))

-- The gate allows exactly those who may act.
pub delegated_registry_actor_gate_iff :
    (ctx : RegistryDelegatedActionContext)
    → ((delegated_registry_actor_gate ctx).allowed ≡ true) ↔ MayAct ctx
unfolding delegated_registry_actor_gate
delegated_registry_actor_gate_iff ctx =
    let r = identity_is_currently_verified_iff ctx.responsible_operator ctx.now in
    let a = identity_is_currently_verified_iff ctx.acting_party ctx.now in ground (arith, r, a)
