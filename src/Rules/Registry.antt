-- ===== src/Rules/Registry.antt =====
-- packages/rules/src/registry.ts: the feature gate, and the batches of at most 100 records.
pub mod Chunks
use codex_nieuw.Prelude.{
  ℕ, zero, suc, ◌+◌, ◌≡◌, Bool, true, false, not, ◌||◌, List, [], ◌∷◌, ltb, if◌then◌else◌, length,
  take, drop,
}
use codex_nieuw.Prelude.Outcome.{Outcome, ok, err, batch_size}

pub record RegistryFeatureFlags : Type 0 where
  pub battery_semantic_catalogue_available : Bool
  pub battery_registration_available : Bool

pub data RegistryGateCode : Type 0 where
  compliance_blockers eu_battery_registry_pending ready : RegistryGateCode

pub record RegistryGateResult : Type 0 where
  pub allowed : Bool
  pub code : RegistryGateCode

unfoldable pub registry_gate : RegistryFeatureFlags → ℕ → RegistryGateResult
registry_gate flags blockers =
    if ltb 0 blockers
    then record { allowed = false; code = compliance_blockers }
    else if not flags.battery_semantic_catalogue_available
        || not flags.battery_registration_available
    then record { allowed = false; code = eu_battery_registry_pending }
    else record { allowed = true; code = ready }

module _ {ℓ} {A : Type ℓ} where
  -- `for (i; i < items.length; i += max) chunks.push(items.slice(i, i + max))`
  unfoldable pub chunks_from : ℕ → ℕ → ℕ → List A → List (List A)
  chunks_from zero max i items = []
  chunks_from (suc fuel) max i items =
      let rest = chunks_from fuel max (i + max) items in
      if ltb i (length items) then take max (drop i items) ∷ rest else []

  unfoldable pub chunk_for_registry : List A → ℕ → Outcome (List (List A))
  unfolding chunks_from
  chunk_for_registry items max =
      if ltb max 1 || ltb 100 max
      then err batch_size
      else ok (chunks_from (suc (length items)) max 0 items)
