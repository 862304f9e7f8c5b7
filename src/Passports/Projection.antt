-- ===== src/Passports/Projection.antt =====
-- apps/api/src/modules/passports/passport-projection.ts: what a reader sees of a passport, by the
-- tiers of the rule catalogue and not by what the stored document says of itself.
pub mod Disclosure
use codex_nieuw.Prelude.{
  ℕ, ◌≡◌, Bool, true, false, ◌&&◌, ◌||◌, Option, none, some, List, [], ◌∷◌, if◌then◌else◌, keep,
  map, any, ◌==◌,
}
use codex_nieuw.Rules.Types.{
  AccessTier, public, legitimate_interest_model, legitimate_interest_item, FieldDefinition,
  same_tier,
}
use codex_nieuw.Rules.Catalogue.{fields}
use codex_nieuw.Store.Rows.{CanonicalValue, CanonicalPassport, PublicValue, PublicPassport}

-- `isCapabilityTier`
abbrev pub is_capability_tier : AccessTier → Bool
is_capability_tier legitimate_interest_model = true
is_capability_tier legitimate_interest_item = true
is_capability_tier _ = false

abbrev tier_is : AccessTier → Option AccessTier → Bool
tier_is t none = false
tier_is t (some u) = same_tier t u

abbrev pub visible : Option AccessTier → FieldDefinition → Bool
visible tier f = same_tier f.access_tier public || tier_is f.access_tier tier

-- `allowed.has(id)`
unfoldable pub is_allowed : Option AccessTier → ℕ → Bool
is_allowed tier id = any (λ (f : FieldDefinition). f.id == id) (keep (visible tier) fields)

abbrev pub disclosed : CanonicalValue → PublicValue
disclosed v = record { field_id = v.field_id; name = v.name; value = v.value; unit = v.unit }

unfoldable pub project_passport : CanonicalPassport → Option AccessTier → PublicPassport
project_passport c tier = record {
  rule_set_version = c.rule_set_version;
  generated_at = c.generated_at;
  public_id = c.public_id;
  model_identifier = c.model_identifier;
  serial = c.serial;
  batch = c.batch;
  upi = c.upi;
  category = c.category;
  lifecycle_status = (if is_allowed tier 67 then some c.lifecycle_status else none);
  values = map disclosed (keep (λ (v : CanonicalValue). is_allowed tier v.field_id) c.values);
}
