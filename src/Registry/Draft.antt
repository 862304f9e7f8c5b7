-- ===== src/Registry/Draft.antt =====
-- `buildRegistryDraft` of apps/api/src/modules/registry/registry-contract.ts: the checks on the
-- prepared records and their batches. The printing of a batch as a file is left out. `parse_url` is
-- the platform's `new URL`.
pub mod Batches
use codex_nieuw.Prelude.{
  ℕ, Bool, true, false, not, ◌&&◌, ◌||◌, Option, none, some, List, [], ◌∷◌, ◌++◌, ltb, leb, ◌==◌,
  if◌then◌else◌, any, all, distinct, length, map,
}
use codex_nieuw.Prelude.Outcome.{
  Outcome, ok, ◌>>=◌, ◌>>◌, require, registry_record_invalid, duplicate_registry_identifiers,
}
use codex_nieuw.Json.{Text, codes, same_text, is_space, is_blank}
use codex_nieuw.Rules.Types.{BatteryCategory}
use codex_nieuw.Rules.Registry.{chunk_for_registry}
use codex_nieuw.Batteries.Review.{same_category}
use codex_nieuw.Registry.Xml.{xml_text_allowed}

-- `PreparedRegistryRecord`, less its constant `schemaStatus`.
pub record PreparedRecord : Type 0 where
  pub item_id : ℕ
  pub version_id : ℕ
  pub upi : Text
  pub product_identifier : Text
  pub category : BatteryCategory
  pub schema_version : Text
  pub rule_set_version : Text
  pub passport_sha256 : ℕ

-- What `validRegistryUpi` asks of a parsed URL.
pub record Url : Type 0 where
  pub is_https : Bool
  pub has_hostname : Bool
  pub has_username : Bool
  pub has_password : Bool
  pub has_hash : Bool

abbrev text_starts_with : Text → Text → Bool
text_starts_with [] t = true
text_starts_with (p ∷ ps) [] = false
text_starts_with (p ∷ ps) (u ∷ t) = p == u && text_starts_with ps t

abbrev pub is_empty_text : Text → Bool
is_empty_text [] = true
is_empty_text (u ∷ t) = false

-- The key of a group: category, schema version and rule set version.
pub record GroupKey : Type 0 where
  pub category : BatteryCategory
  pub schema_version : Text
  pub rule_set_version : Text

abbrev pub key_of : PreparedRecord → GroupKey
key_of r = record {
  category = r.category;
  schema_version = r.schema_version;
  rule_set_version = r.rule_set_version;
}

abbrev pub same_group : GroupKey → GroupKey → Bool
same_group a b =
    same_category a.category b.category
    && same_text a.schema_version b.schema_version
    && same_text a.rule_set_version b.rule_set_version

abbrev pub Groups : Type 0
Groups = List (GroupKey × List PreparedRecord)

-- `groups.get(key)!.push(record)`, after `groups.set(key, [])` where the key is new.
unfoldable pub add_record : PreparedRecord → Groups → Groups
add_record r [] = (key_of r, r ∷ []) ∷ []
add_record r ((k, rs) ∷ groups) =
    let later = add_record r groups in
    if same_group k (key_of r) then (k, rs ++ r ∷ []) ∷ groups else (k, rs) ∷ later

unfoldable pub group_records : List PreparedRecord → Groups → Groups
group_records [] groups = groups
group_records (r ∷ rs) groups = group_records rs (add_record r groups)

-- `[...groups.values()].flatMap(group => chunkForRegistry(group, 100))`
unfoldable pub chunk_groups : Groups → Outcome (List (List PreparedRecord))
chunk_groups [] = ok []
chunk_groups ((k, rs) ∷ groups) = do
  chunks ← chunk_for_registry rs 100
  rest ← chunk_groups groups
  ok (chunks ++ rest)

-- `new Set(upis).size === upis.length`
abbrev pub distinct_texts : List Text → Bool
distinct_texts [] = true
distinct_texts (t ∷ ts) = if any (same_text t) ts then false else distinct_texts ts

module _ (parse_url : Text → Option Url) where
  abbrev url_allowed : Option Url → Bool
  url_allowed none = false
  url_allowed (some u) =
      u.is_https && u.has_hostname && not u.has_username && not u.has_password && not u.has_hash

  unfoldable pub valid_registry_upi : Text → Bool
  valid_registry_upi value =
      leb (length value) 2000
      && text_starts_with (codes "https://") value
      && not (any is_space value)
      && not (any (λ u. u == 35) value)
      && url_allowed (parse_url value)
      && xml_text_allowed value

  -- `recordSchema`
  unfoldable pub record_valid : PreparedRecord → Bool
  record_valid r =
      valid_registry_upi r.upi
      && (not (is_empty_text r.product_identifier) && xml_text_allowed r.product_identifier)
      && (not (is_blank r.schema_version) && xml_text_allowed r.schema_version)
      && (not (is_blank r.rule_set_version) && xml_text_allowed r.rule_set_version)

  abbrev pub records_valid : List PreparedRecord → Bool
  records_valid records =
      ltb 0 (length records) && leb (length records) 1000 && all record_valid records

  abbrev pub records_distinct : List PreparedRecord → Bool
  records_distinct records =
      distinct_texts (map (λ (r : PreparedRecord). r.upi) records)
      && distinct (map (λ (r : PreparedRecord). r.item_id) records)

  -- The batches of `buildRegistryDraft`.
  unfoldable pub build_registry_draft : List PreparedRecord → Outcome (List (List PreparedRecord))
  build_registry_draft records = do
    require (records_valid records) registry_record_invalid
    require (records_distinct records) duplicate_registry_identifiers
    chunk_groups (group_records records [])
