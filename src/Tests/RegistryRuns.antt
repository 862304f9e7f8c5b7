-- ===== src/Tests/RegistryRuns.antt =====
-- A published passport is prepared for the Registry, and the gate lets its operator through.
use codex_nieuw.Prelude.{
  ℕ, ◌+◌, ◌≡◌, refl, arith, true, Option, none, some, false, List, [], ◌∷◌, length,
}
use codex_nieuw.Prelude.Outcome.{Outcome, ok, ran, succeeds}
use codex_nieuw.Json.{Text, codes, is_blank}
use codex_nieuw.Rules.Catalogue.{fields}
use codex_nieuw.Rules.StateMachine.{published}
use codex_nieuw.Rules.RegistryIdentity.{
  RegistryActorType, economic_operator, value_chain_actor, verified, delegated_registry_actor_gate,
  identity_is_currently_verified,
}
use codex_nieuw.Rules.Engine.{
  requirement_for, count_required, count_as, count_field, count_fields, score_of,
  calculate_readiness,
}
use codex_nieuw.Rules.Engine.Cross.{
  cross_field_checks, voltage_fault, not_positive, insecure_upi, in_future, too_much_material,
  negative_material, fade_mismatch,
}
use codex_nieuw.Patterns.{trim}
use codex_nieuw.Batteries.Review.{
  decision_allowed, conditional_fields, take_decisions, sort_ids, ids_match, profile_fingerprint,
  assess_conditional_review, reviewed_applicability_context,
}
use codex_nieuw.Canonical.{hash_json, canonicalize}
use codex_nieuw.Rules.Types.{ev}
use codex_nieuw.Store.Rows.{
  LifecycleStatus, RegistryIdentity, PassportVersion, CanonicalPassport, BatteryItem, Db,
}
use codex_nieuw.Store.Queries.{evidence_of, latest_of}
use codex_nieuw.Tenant.Access.{Actor}
use codex_nieuw.Passports.Data.{
  Validation, usable_evidence, merged_values, load_merged, readiness_for_values, validate_tx,
}
use codex_nieuw.Passports.Document.Json.{canonical_json}
use codex_nieuw.Registry.Xml.{xml_text_allowed, code_points}
use codex_nieuw.Registry.Draft.{PreparedRecord, Url, valid_registry_upi}
use codex_nieuw.Registry.Identity.{get_identity, gate, IsEntitled, gate-IsEntitled}
use codex_nieuw.Registry.Preparation.{
  Answer, prepared, same_identity, has_metadata, check_version, check_item, check_items, prepare,
}
use codex_nieuw.Registry.Preparation.Complete.{IsComplete, prepare-IsComplete}
use codex_nieuw.Tests.World.{externals, platform, operator, model, battery, world}
use codex_nieuw.Tests.LifecycleRuns.{first_version}

abbrev read_url : Text → Option Url
read_url t = some record {
  is_https = true;
  has_hostname = true;
  has_username = false;
  has_password = false;
  has_hash = false;
}

abbrev document : CanonicalPassport
document = record {
  rule_set_version = codes "1";
  generated_at = 900;
  public_id = 77;
  id = 20;
  model_id = 10;
  model_identifier = codes "M";
  serial = codes "S";
  batch = none;
  upi = codes "https://p/A";
  category = ev;
  lifecycle_status = LifecycleStatus.original;
  values = [];
}

abbrev released_version : PassportVersion
released_version = record first_version {
  canonical = document;
  sha256 = hash_json externals (canonical_json platform document);
}

abbrev released : Db
released = record (world published) {
  items = record (battery published) { upi = some (codes "https://p/A") } ∷ [];
  versions = released_version ∷ [];
}

assessment : Outcome Validation
assessment = validate_tx platform 2000 released 1 20

assesses : succeeds assessment ≡ true
unfolding assessment validate_tx load_merged
assesses = refl

abbrev assessed : Validation
assessed = (ran assessment assesses).0

assesses_to : validate_tx platform 2000 released 1 20 ≡ ok assessed
unfolding assessment
assesses_to = (ran assessment assesses).1

is_publishable : assessed.publishable ≡ true
unfolding assessment assesses validate_tx load_merged voltage_fault not_positive insecure_upi
    in_future too_much_material negative_material fade_mismatch readiness_for_values
    calculate_readiness count_fields count_field count_as count_required requirement_for score_of
    assess_conditional_review conditional_fields take_decisions ids_match sort_ids
    profile_fingerprint reviewed_applicability_context trim decision_allowed merged_values
    usable_evidence evidence_of fields is_blank cross_field_checks ran
is_publishable = refl

agrees : same_identity platform read_url assessed released_version ≡ true
unfolding same_identity assessment assesses validate_tx load_merged ran hash_json canonicalize
    canonical_json
agrees = refl

abbrev released_item : BatteryItem
released_item = record (battery published) { upi = some (codes "https://p/A") }

has_item : (assessed.item ≡ released_item) × (assessed.model ≡ model)
unfolding assessment assesses validate_tx load_merged ran
has_item = (refl, refl)

abbrev made : PreparedRecord
made = record {
  item_id = 20;
  version_id = 50;
  upi = codes "https://p/A";
  product_identifier = codes "S";
  category = ev;
  schema_version = codes "eubatterypassport.v2";
  rule_set_version = codes "1";
  passport_sha256 = hash_json externals (canonical_json platform document);
}

passes :
    check_version platform read_url assessed released_version (assessed.item).upi [] ≡ prepared made
unfolding check_version valid_registry_upi xml_text_allowed code_points has_metadata is_blank
passes = rw (has_item.0, check_version, has_item.0, has_item.1, is_publishable, agrees) refl

checks :
    check_items platform read_url 2000 released 1 (20 ∷ []) []
    ≡ ok (record { invalid = []; records = made ∷ [] })
unfolding check_items check_item latest_of
checks = rw (check_items, check_item, assesses_to, passes) refl

abbrev length_of : Text → ℕ
length_of t = length t

abbrev content : ℕ → List PreparedRecord → Text
content n batch = codes "<draft/>"

prepare-IsComplete_example :
    (out : Answer × Db) × (prepare platform read_url length_of content
        (λ n. 600 + n)
        2000
        1
        operator
        "registry.prepare"
        90
        (20 ∷ [])
        released
      ≡ ok out)
    × IsComplete platform read_url length_of content
        (λ n. 600 + n)
        2000
        1
        operator
        "registry.prepare"
        90
        (20 ∷ [])
        released
        out.0
        out.1
prepare-IsComplete_example =
    prepare-IsComplete platform read_url length_of content (λ n. 600 + n) 2000 1 operator
      "registry.prepare" 90 (20 ∷ []) released (record { invalid = []; records = made ∷ [] }) checks
      refl (omega arith) (omega arith)

-- A service provider with a written authorisation acts for the operator.
abbrev identity : ℕ → ℕ → RegistryActorType → RegistryIdentity
identity id organisation_id actor_type = record {
  id = id;
  organisation_id = organisation_id;
  actor_type = actor_type;
  status = verified;
  verified_at = some 100;
  valid_until = none;
  electronic_id_expires_at = some 9000;
}

abbrev known : Db
known = record (world published) {
  identities = identity 90 1 economic_operator ∷ identity 91 2 value_chain_actor ∷ [];
}

abbrev provider : Actor
provider = record operator { organisation_id = 2 }

opens : ((gate known 1 provider 1000).result).allowed ≡ true
unfolding gate get_identity delegated_registry_actor_gate identity_is_currently_verified
opens = refl

gate-IsEntitled_example : IsEntitled known 1 provider 1000
gate-IsEntitled_example = gate-IsEntitled known 1 provider 1000 opens
