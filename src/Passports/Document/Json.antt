-- ===== src/Passports/Document/Json.antt =====
-- The JSON documents that `publish` hashes and stores, from the typed passports.
use codex_nieuw.Prelude.{ℕ, String, Option, none, some, List, [], ◌∷◌}
use codex_nieuw.Json.{
  Text, codes, Json, null, str, num, arr, obj, Elements, nil, cons, Members, end, member,
}
use codex_nieuw.Rules.Types.{
  BatteryCategory, ev, lmt, industrial_gt_2kwh, AccessTier, public, legitimate_interest_model,
  authority_only, legitimate_interest_item,
}
use codex_nieuw.Store.Rows.{
  LifecycleStatus, ValidationStatus, unvalidated, submitted, validated, rejected, superseded,
  CanonicalValue, CanonicalPassport, PublicValue, PublicPassport,
}
use codex_nieuw.Store.Queries.{status_text}
use codex_nieuw.Passports.Data.{Platform}

abbrev category_text : BatteryCategory → Text
category_text ev = codes "EV"
category_text lmt = codes "LMT"
category_text industrial_gt_2kwh = codes "INDUSTRIAL_GT_2KWH"

abbrev tier_text : AccessTier → Text
tier_text public = codes "public"
tier_text legitimate_interest_model = codes "legitimate_interest_model"
tier_text authority_only = codes "authority_only"
tier_text legitimate_interest_item = codes "legitimate_interest_item"

abbrev validation_text : ValidationStatus → Text
validation_text unvalidated = codes "unvalidated"
validation_text submitted = codes "submitted"
validation_text validated = codes "validated"
validation_text rejected = codes "rejected"
validation_text superseded = codes "superseded"

abbrev text_or_null : Option Text → Json
text_or_null none = null
text_or_null (some t) = str t

-- A property whose value is `undefined` is left out.
abbrev optional : String → Option Json → Members → Members
optional key none rest = rest
optional key (some j) rest = member (codes key) j rest

abbrev name_json : Option String → Option Json
name_json none = none
name_json (some s) = some (str (codes s))

abbrev tier_json : Option AccessTier → Option Json
tier_json none = none
tier_json (some t) = some (str (tier_text t))

abbrev status_json : Option LifecycleStatus → Option Json
status_json none = none
status_json (some s) = some (str (status_text s))

module _ (p : Platform) where
  ids_json : List ℕ → Elements
  ids_json [] = nil
  ids_json (id ∷ ids) = cons (str (p.print_id id)) (ids_json ids)

  value_members : CanonicalValue → Members
  unfolding ids_json
  value_members v = member (codes "fieldId") (num (p.double v.field_id)) (
      optional "name" (name_json v.name) (
        member (codes "value") v.value (
          member (codes "unit") (text_or_null v.unit) (
            optional "accessTier" (tier_json v.access_tier) (
              member (codes "validationStatus") (str (validation_text v.validation_status)) (
                member (codes "sourceKind") (str (codes v.source_kind))
                  (member (codes "evidenceIds") (arr (ids_json v.evidence_ids)) end)))))))

  values_json : List CanonicalValue → Elements
  unfolding value_members
  values_json [] = nil
  values_json (v ∷ vs) = cons (obj (value_members v)) (values_json vs)

  battery_members : CanonicalPassport → Members
  battery_members c = member (codes "publicId") (str (p.print_id c.public_id)) (
      member (codes "id") (str (p.print_id c.id)) (
        member (codes "modelId") (str (p.print_id c.model_id)) (
          member (codes "modelIdentifier") (str c.model_identifier) (
            member (codes "serial") (str c.serial) (
              member (codes "batch") (text_or_null c.batch) (
                member (codes "upi") (str c.upi) (
                  member (codes "category") (str (category_text c.category)) (
                    member (codes "lifecycleStatus") (str (status_text c.lifecycle_status))
                      end))))))))

  unfoldable pub canonical_json : CanonicalPassport → Json
  unfolding battery_members values_json
  canonical_json c = obj (
      member (codes "schema") (str (codes "eubatterypassport.v2")) (
        member (codes "ruleSetVersion") (str c.rule_set_version) (
          member (codes "generatedAt") (str (p.iso c.generated_at)) (
            member (codes "battery") (obj (battery_members c))
              (member (codes "values") (arr (values_json c.values)) end)))))

  public_values_json : List PublicValue → Elements
  public_values_json [] = nil
  public_values_json (v ∷ vs) =
      cons
        (obj (
          member (codes "fieldId") (num (p.double v.field_id)) (
            optional "name" (name_json v.name)
              (member (codes "value") v.value (member (codes "unit") (text_or_null v.unit) end)))))
        (public_values_json vs)

  unfoldable pub public_json : PublicPassport → Json
  unfolding public_values_json
  public_json c = obj (
      member (codes "schema") (str (codes "eubatterypassport.v2")) (
        member (codes "ruleSetVersion") (str c.rule_set_version) (
          member (codes "generatedAt") (str (p.iso c.generated_at)) (
            member (codes "battery")
              (obj (
                member (codes "publicId") (str (p.print_id c.public_id)) (
                  member (codes "modelIdentifier") (str c.model_identifier) (
                    member (codes "serial") (str c.serial) (
                      member (codes "batch") (text_or_null c.batch) (
                        member (codes "upi") (str c.upi) (
                          member (codes "category") (str (category_text c.category))
                            (optional "lifecycleStatus" (status_json c.lifecycle_status) end))))))))
              (member (codes "values") (arr (public_values_json c.values)) end)))))
