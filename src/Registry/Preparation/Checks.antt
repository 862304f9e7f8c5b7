-- ===== src/Registry/Preparation/Checks.antt =====
-- What a record that passes the checks of `prepare` is.
use codex_nieuw.Prelude.{
  ℕ, ◌≡◌, refl, ap, ◌∙◌, subst, inl, inr, Bool, true, false, not, ◌&&◌, Option, none, some, List,
  [], ◌∷◌, ◌==◌, find?, keep, any, arith, Option-cases, find?_sound,
}
use codex_nieuw.Prelude.Outcome.{ok, >>=-eq-ok, found, not_found}
use codex_nieuw.Json.{Text, codes, same_text}
use codex_nieuw.Rules.StateMachine.{published, registered, registry_pending, one_of}
use codex_nieuw.Store.Rows.{BatteryItem, BatteryModel, PassportVersion, Db}
use codex_nieuw.Store.Queries.{owns_item, of_item, latest_of}
use codex_nieuw.Storage.Objects.Checking.{ok_ok, found-some}
use codex_nieuw.Passports.Data.{Platform, Validation, Merged, load_merged, validate_tx}
use codex_nieuw.Batteries.Review.{same_category}
use codex_nieuw.Canonical.{hash_json}
use codex_nieuw.Passports.Document.Json.{canonical_json}
use codex_nieuw.Passports.Document.Assessing.{IsClear, validate_tx-IsClear}
use codex_nieuw.Registry.Xml.{xml_text_allowed}
use codex_nieuw.Registry.Draft.{
  PreparedRecord, Url, is_empty_text, valid_registry_upi, record_valid,
}
use codex_nieuw.Registry.Preparation.{
  PrevalidationCode, passport_not_current, compliance_blockers, invalid_registry_upi,
  invalid_product_identifier, published_identity_mismatch, invalid_contract_metadata, duplicate_upi,
  Check, invalid, prepared, same_identity, has_metadata, record_of, unless, check_version,
  check_item, same_upi,
}

six_facts :
    (a b c d e f : Bool)
    → (a && b && c && d && e && f) ≡ true
    → (a ≡ true) × (b ≡ true) × (c ≡ true) × (d ≡ true) × (e ≡ true) × (f ≡ true)
six_facts a b c d e f h =
    (ground arith, ground arith, ground arith, ground arith, ground arith, ground arith)

module _ (p : Platform) (parse_url : Text → Option Url) where
  -- The record is built from the item's validation and its latest published version, which agree.
  pub record IsCurrentRecord (now : ℕ) (db : Db) (organisation_id item_id : ℕ) (r : PreparedRecord)
      : Type 0 where
    pub validation : Validation
    pub latest : PassportVersion
    pub validated : validate_tx p now db organisation_id item_id ≡ ok validation
    pub is_latest : latest_of (keep (of_item organisation_id item_id) db.versions) ≡ some latest
    pub in_force :
        one_of (validation.item).passport_state (published ∷ registered ∷ registry_pending ∷ [])
        ≡ true
    pub clear : IsClear p now db organisation_id item_id validation
    pub own_upi : (validation.item).upi ≡ some r.upi
    pub published_upi : same_text r.upi (latest.canonical).upi ≡ true
    pub schema : same_text (codes "eubatterypassport.v2") latest.schema_version ≡ true
    pub rules : same_text (latest.canonical).rule_set_version latest.rule_set_version ≡ true
    pub same_serial : same_text (latest.canonical).serial (validation.item).serial ≡ true
    pub same_kind : same_category (latest.canonical).category (validation.model).category ≡ true
    pub hashed : (hash_json p.externals (canonical_json p latest.canonical) == latest.sha256) ≡ true
    pub copied : r ≡ record {
      item_id = (validation.item).id;
      version_id = latest.id;
      upi = r.upi;
      product_identifier = (validation.item).serial;
      category = (validation.model).category;
      schema_version = latest.schema_version;
      rule_set_version = latest.rule_set_version;
      passport_sha256 = latest.sha256;
    }
    pub of_item : r.item_id ≡ item_id

  unless-prepared :
      (test : Bool) (code : PrevalidationCode) (next : Check) (r : PreparedRecord)
      → unless p parse_url test code next ≡ prepared r
      → (test ≡ true) × (next ≡ prepared r)
  unless-prepared true code next r h = (refl, h)
  unless-prepared false code next r h = absurd (invalid_prepared h)
    where
      invalid_prepared : invalid code ≡ prepared r → ⊥
      invalid_prepared e = cc

  merged_item :
      (db : Db) (organisation_id item_id : ℕ) (m : Merged)
      → load_merged db organisation_id item_id ≡ ok m
      → (m.item).id ≡ item_id
  unfolding load_merged
  merged_item db o i m h =
      let (item, e1, h1) = >>=-eq-ok (found (find? (owns_item o i) db.items) not_found) _ h in
      let (model, e2, h2) =
        >>=-eq-ok (found (find? (λ (x : BatteryModel). x.id == item.model_id) db.models) not_found)
          _ h1 in
      let owned = find?_sound (owns_item o i) db.items (found-some _ not_found e1) in
      let same : item ≡ m.item = ap (λ (x : Merged). x.item) (ok_ok h2) in
      subst (λ (x : BatteryItem). x.id ≡ i) same (ground arith)

  validated_item :
      (now : ℕ) (db : Db) (organisation_id item_id : ℕ) (v : Validation)
      → validate_tx p now db organisation_id item_id ≡ ok v
      → (v.item).id ≡ item_id
  unfolding validate_tx
  validated_item now db o i v h =
      let (m, e1, h1) = >>=-eq-ok (load_merged db o i) _ h in
      let same : m.item ≡ v.item = ap (λ (x : Validation). x.item) (ok_ok h1) in
      subst (λ (x : BatteryItem). x.id ≡ i) same (merged_item db o i m e1)

  -- What the checks of a version have found out about the record that they pass.
  record Passes (v : Validation) (latest : PassportVersion) (own : Option Text) (upis : List Text)
      (r : PreparedRecord) : Type 0 where
    own_upi : own ≡ some r.upi
    in_force :
        one_of (v.item).passport_state (published ∷ registered ∷ registry_pending ∷ []) ≡ true
    publishable : v.publishable ≡ true
    same : same_identity p parse_url v latest ≡ true
    copied : r ≡ record_of p parse_url v latest r.upi
    is_valid : record_valid parse_url r ≡ true
    fresh : any (same_text r.upi) upis ≡ false

  not-true : (b : Bool) → not b ≡ true → b ≡ false
  not-true b h = ground arith

  prepared_prepared : {a b : PreparedRecord} → prepared a ≡ prepared b → a ≡ b
  prepared_prepared h = cc

  record_of_valid :
      (v : Validation) (latest : PassportVersion) (upi : Text)
      → valid_registry_upi parse_url upi ≡ true
      → (not (is_empty_text (v.item).serial) && xml_text_allowed (v.item).serial) ≡ true
      → has_metadata p parse_url latest ≡ true
      → record_valid parse_url (record_of p parse_url v latest upi) ≡ true
  unfolding record_valid has_metadata
  record_of_valid v latest upi a b c = ground arith

  -- What the comparison of the identities has found.
  record IsSame (v : Validation) (latest : PassportVersion) : Type 0 where
    upi : same_upi (v.item).upi (latest.canonical).upi ≡ true
    serial : same_text (latest.canonical).serial (v.item).serial ≡ true
    kind : same_category (latest.canonical).category (v.model).category ≡ true
    schema : same_text (codes "eubatterypassport.v2") latest.schema_version ≡ true
    rules : same_text (latest.canonical).rule_set_version latest.rule_set_version ≡ true
    hashed : (hash_json p.externals (canonical_json p latest.canonical) == latest.sha256) ≡ true

  same_identity-IsSame :
      (v : Validation) (latest : PassportVersion)
      → same_identity p parse_url v latest ≡ true
      → IsSame v latest
  unfolding same_identity
  same_identity-IsSame v latest h =
      let (a, b, c, d, e, f) =
        six_facts (same_upi (v.item).upi (latest.canonical).upi)
          (same_text (latest.canonical).serial (v.item).serial)
          (same_category (latest.canonical).category (v.model).category)
          (same_text (codes "eubatterypassport.v2") latest.schema_version)
          (same_text (latest.canonical).rule_set_version latest.rule_set_version)
          (hash_json p.externals (canonical_json p latest.canonical) == latest.sha256) h in
      record { upi = a; serial = b; kind = c; schema = d; rules = e; hashed = f }

  check_version-Passes :
      (v : Validation) (latest : PassportVersion) (upi : Option Text) (upis : List Text)
      (r : PreparedRecord)
      → check_version p parse_url v latest upi upis ≡ prepared r
      → Passes v latest upi upis r
  unfolding check_version
  check_version-Passes v latest none upis r h =
      let (a, h1) = unless-prepared _ passport_not_current _ r h in
      let (b, h2) = unless-prepared v.publishable compliance_blockers _ r h1 in
      absurd (let e : invalid invalid_registry_upi ≡ prepared r = h2 in cc)
  check_version-Passes v latest (some upi) upis r h =
      let (a, h1) = unless-prepared _ passport_not_current _ r h in
      let (b, h2) = unless-prepared v.publishable compliance_blockers _ r h1 in
      let (c, h3) =
        unless-prepared (valid_registry_upi parse_url upi) invalid_registry_upi _ r h2 in
      let (d, h4) = unless-prepared _ invalid_product_identifier _ r h3 in
      let (e, h5) =
        unless-prepared (same_identity p parse_url v latest) published_identity_mismatch _ r h4 in
      let (f, h6) =
        unless-prepared (has_metadata p parse_url latest) invalid_contract_metadata _ r h5 in
      let (g, h7) = unless-prepared (not (any (same_text upi) upis)) duplicate_upi _ r h6 in
      subst (λ (x : PreparedRecord). Passes v latest (some upi) upis x) (prepared_prepared h7)
        (record {
          own_upi = refl;
          in_force = a;
          publishable = b;
          same = e;
          copied = refl;
          is_valid = record_of_valid v latest upi c d f;
          fresh = not-true _ g;
        })

  -- A record that a round passes, and what it adds to those before it.
  pub record Accepted (now : ℕ) (db : Db) (organisation_id item_id : ℕ) (upis : List Text)
      (r : PreparedRecord) : Type 0 where
    pub current : IsCurrentRecord now db organisation_id item_id r
    pub is_valid : record_valid parse_url r ≡ true
    pub fresh : any (same_text r.upi) upis ≡ false

  pub check_item-Accepted :
      (now : ℕ) (db : Db) (organisation_id item_id : ℕ) (upis : List Text) (r : PreparedRecord)
      → check_item p parse_url now db organisation_id item_id upis ≡ ok (prepared r)
      → Accepted now db organisation_id item_id upis r
  unfolding check_item
  check_item-Accepted now db o i upis r h = elim (Option-cases (find? (owns_item o i) db.items)) [
    | inl none_ ↦ absurd (invalid_ok (rw (none_, check_item) at h))
    | inr (candidate, there) ↦
        let (v, e1, h1) = >>=-eq-ok (validate_tx p now db o i) _ (rw (there, check_item) at h) in
        elim (Option-cases (latest_of (keep (of_item o i) db.versions))) [
          | inl none_ ↦ absurd (invalid_ok (rw none_ at h1))
          | inr (latest, is_latest) ↦
              let passes =
                check_version-Passes v latest (v.item).upi upis r (ok_ok (rw is_latest at h1)) in
              let same = same_identity-IsSame v latest passes.same in
              record {
                current = record {
                  validation = v;
                  latest = latest;
                  validated = e1;
                  is_latest = is_latest;
                  in_force = passes.in_force;
                  clear = validate_tx-IsClear p now db o i v e1 passes.publishable;
                  own_upi = passes.own_upi;
                  published_upi =
                      subst (λ (u : Option Text). same_upi u (latest.canonical).upi ≡ true)
                        passes.own_upi same.upi;
                  schema = same.schema;
                  rules = same.rules;
                  same_serial = same.serial;
                  same_kind = same.kind;
                  hashed = same.hashed;
                  copied = passes.copied;
                  of_item =
                      ap (λ (x : PreparedRecord). x.item_id) passes.copied
                      ∙ validated_item now db o i v e1;
                };
                is_valid = passes.is_valid;
                fresh = passes.fresh;
              }
        ]
  ]
    where
      invalid_ok :
          {code : PrevalidationCode} {x : PreparedRecord} → ok (invalid code) ≡ ok (prepared x) → ⊥
      invalid_ok e = cc
