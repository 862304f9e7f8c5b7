-- ===== src/Tests/RulesRuns.antt =====
-- The rules on small inputs.
use codex_nieuw.Prelude.{◌<◌, ◌≡◌, refl, true, false, none, some, List, [], ◌∷◌, arith, length, any}
use codex_nieuw.Prelude.Outcome.{ok}
use codex_nieuw.Json.{Json, null, bool, num, obj, codes, end, member}
use codex_nieuw.Rules.Types.{ev, is_blocker}
use codex_nieuw.Rules.Catalogue.{fields}
use codex_nieuw.Rules.StateMachine.{
  PassportState, draft, data_collection, ready, published, updated, one_of, transition,
}
use codex_nieuw.Rules.StateMachine.Runs.{walk, walk-published}
use codex_nieuw.Rules.RegistryIdentity.{
  RegistryIdentitySnapshot, RegistryDelegatedActionContext, economic_operator, value_chain_actor,
  verified, unset, at,
}
use codex_nieuw.Rules.Engine.{PassportValue, calculate_readiness}
use codex_nieuw.Rules.Engine.Counting.{IsReadiness, calculate_readiness_lem}
use codex_nieuw.Rules.Engine.Cross.{
  CrossFieldInput, cross_field_checks, voltage_fault, not_positive, insecure_upi, in_future,
  too_much_material, negative_material, fade_mismatch,
}
use codex_nieuw.Canonical.{hash_json}
use codex_nieuw.Canonical.Invariant.{Same, same_obj, swapped, hash_json-Same}
use codex_nieuw.Tests.World.{externals, floats}

abbrev route : List PassportState
route = data_collection ∷ ready ∷ published ∷ updated ∷ []

walks : walk draft route ≡ ok updated
unfolding walk transition
walks = refl

walk-published_example : one_of published route ≡ true
walk-published_example = walk-published route updated walks refl

abbrev identity : RegistryIdentitySnapshot
identity = record {
  actor_type = economic_operator;
  status = verified;
  verified_at = at 100;
  valid_until = at 900;
  electronic_id_expires_at = unset;
}

abbrev on_behalf : RegistryDelegatedActionContext
on_behalf = record {
  responsible_operator = identity;
  acting_party = record identity { actor_type = value_chain_actor };
  acting_on_behalf = true;
  has_active_written_authorisation = true;
  now = 500;
}

abbrev weighed : PassportValue
weighed = record {
  field_id = 10;
  value = some (num 400);
  evidence_ids = some (30 ∷ []);
  validated = some true;
}

calculate_readiness_lem_example :
    IsReadiness fields ev (weighed ∷ []) [] (calculate_readiness fields ev (weighed ∷ []) (some []))
calculate_readiness_lem_example = calculate_readiness_lem fields ev (weighed ∷ []) []

catalogue_small : length fields < 200
unfolding fields
catalogue_small = omega arith

abbrev measured : CrossFieldInput
measured = record {
  min_voltage = some 300;
  nominal_voltage = some 400;
  max_voltage = some 500;
  capacity = some 80;
  weight = some 400;
  upi = none;
  manufacture_date = some 50;
  material_mass_fractions = none;
  baseline_capacity = none;
  current_capacity = none;
  reported_capacity_fade_pct = none;
}

no_blocker_in : any is_blocker (cross_field_checks floats measured 100) ≡ false
unfolding cross_field_checks voltage_fault not_positive insecure_upi in_future too_much_material
    negative_material fade_mismatch
no_blocker_in = refl

abbrev one_way : Json
one_way = obj (member (codes "a") null (member (codes "b") (bool true) end))

abbrev other_way : Json
other_way = obj (member (codes "b") (bool true) (member (codes "a") null end))

reordered : Same one_way other_way
reordered = same_obj (swapped (λ e. ground arith))

hash_json-Same_example : hash_json externals one_way ≡ hash_json externals other_way
hash_json-Same_example = hash_json-Same externals one_way other_way reordered
