-- ===== src/Registry/Preparation.antt =====
-- `prepare` of apps/api/src/modules/registry/registry-preparation.service.ts: the checks of each item
-- and the all-or-nothing draft. `ids` is what `ExportRequest` has accepted: 1 to 1000 different
-- numbers. `content` prints a batch (`serializeRegistryDraft`) for a batch number.
pub mod Checks
pub mod Collected
pub mod Complete
use codex_nieuw.Prelude.{
  ℕ, zero, suc, ◌+◌, ◌*◌, String, Bool, true, false, not, ◌&&◌, ◌||◌, Option, none, some, List, [],
  ◌∷◌, ◌++◌, ◌==◌, if◌then◌else◌, find?, keep, any, elem, length, map, is_some,
}
use codex_nieuw.Prelude.Outcome.{Outcome, ok, err, ◌>>=◌, ◌>>◌}
use codex_nieuw.Json.{Text, codes, same_text, is_blank}
use codex_nieuw.Rules.StateMachine.{published, registered, registry_pending, one_of}
use codex_nieuw.Batteries.Review.{same_category}
use codex_nieuw.Canonical.{hash_json}
use codex_nieuw.Store.Rows.{
  BatteryItem, BatteryModel, PassportVersion, CanonicalPassport, RegistrySubmission, AuditEvent, Db,
}
use codex_nieuw.Store.Queries.{owns_item, of_item, latest_of}
use codex_nieuw.Tenant.Access.{Actor}
use codex_nieuw.Passports.Data.{Platform, Validation, validate_tx}
use codex_nieuw.Passports.Document.{audit_event}
use codex_nieuw.Passports.Document.Json.{canonical_json}
use codex_nieuw.Registry.Xml.{xml_text_allowed}
use codex_nieuw.Registry.Draft.{
  PreparedRecord, Url, is_empty_text, valid_registry_upi, build_registry_draft,
}

pub data PrevalidationCode : Type 0 where
  item_not_available no_published_passport passport_not_current compliance_blockers :
      PrevalidationCode
  invalid_registry_upi invalid_product_identifier published_identity_mismatch : PrevalidationCode
  invalid_contract_metadata duplicate_upi : PrevalidationCode

-- What one round of the loop adds: an entry of `invalid`, or a record.
pub data Check : Type 0 where
  invalid : PrevalidationCode → Check
  prepared : PreparedRecord → Check

-- `invalid` and `records`, in the order of the items.
pub record Prevalidation : Type 0 where
  pub invalid : List (ℕ × PrevalidationCode)
  pub records : List PreparedRecord

-- `outcome` of the transaction.
pub data Preparation : Type 0 where
  rejected : List (ℕ × PrevalidationCode) → Preparation
  drafted : List (List PreparedRecord) → Preparation

-- How `prepare` ends after its transaction: the exception with the list, or the draft.
pub data Answer : Type 0 where
  prevalidation_failed : List (ℕ × PrevalidationCode) → Answer
  returned : List (List PreparedRecord) → Answer

abbrev pub answer_of : Preparation → Answer
answer_of (rejected bad) = prevalidation_failed bad
answer_of (drafted batches) = returned batches

abbrev pub same_upi : Option Text → Text → Bool
same_upi none t = false
same_upi (some u) t = same_text u t

module _ (p : Platform) (parse_url : Text → Option Url) where
  -- `validRegistryUpi(item.upi)`
  abbrev pub upi_allowed : Option Text → Bool
  upi_allowed none = false
  upi_allowed (some u) = valid_registry_upi parse_url u

  -- The negated test of `PUBLISHED_IDENTITY_MISMATCH`; the stored document is the typed one, whose
  -- schema is the constant that `publish` writes.
  unfoldable pub same_identity : Validation → PassportVersion → Bool
  same_identity v latest =
      same_upi (v.item).upi (latest.canonical).upi
      && same_text (latest.canonical).serial (v.item).serial
      && same_category (latest.canonical).category (v.model).category
      && same_text (codes "eubatterypassport.v2") latest.schema_version
      && same_text (latest.canonical).rule_set_version latest.rule_set_version
      && (hash_json p.externals (canonical_json p latest.canonical) == latest.sha256)

  -- The negated test of `INVALID_CONTRACT_METADATA`; the three categories are all that there are.
  unfoldable pub has_metadata : PassportVersion → Bool
  has_metadata latest =
      not (is_blank latest.schema_version)
      && not (is_blank latest.rule_set_version)
      && xml_text_allowed latest.schema_version
      && xml_text_allowed latest.rule_set_version

  abbrev pub record_of : Validation → PassportVersion → Text → PreparedRecord
  record_of v latest upi = record {
    item_id = (v.item).id;
    version_id = latest.id;
    upi = upi;
    product_identifier = (v.item).serial;
    category = (v.model).category;
    schema_version = latest.schema_version;
    rule_set_version = latest.rule_set_version;
    passport_sha256 = latest.sha256;
  }

  abbrev pub unless : Bool → PrevalidationCode → Check → Check
  unless test code next = if test then next else invalid code

  -- The checks on an item that has a published version; `upis` are those of the records so far.
  unfoldable pub check_version : Validation → PassportVersion → Option Text → List Text → Check
  check_version v latest none upis =
      unless (one_of (v.item).passport_state (published ∷ registered ∷ registry_pending ∷ []))
        passport_not_current
        (unless v.publishable compliance_blockers (invalid invalid_registry_upi))
  check_version v latest (some upi) upis =
      unless (one_of (v.item).passport_state (published ∷ registered ∷ registry_pending ∷ []))
        passport_not_current
        (unless v.publishable compliance_blockers (
          unless (valid_registry_upi parse_url upi) invalid_registry_upi (
            unless (not (is_empty_text (v.item).serial) && xml_text_allowed (v.item).serial)
              invalid_product_identifier
              (unless (same_identity v latest) published_identity_mismatch (
                unless (has_metadata latest) invalid_contract_metadata (
                  unless (not (any (same_text upi) upis)) duplicate_upi
                    (prepared (record_of v latest upi))))))))

  -- One round of the loop over the items.
  unfoldable pub check_item : ℕ → Db → ℕ → ℕ → List Text → Outcome Check
  check_item now db organisation_id item_id upis =
      elim (find? (owns_item organisation_id item_id) db.items) [
        | none ↦ ok (invalid item_not_available)
        | some candidate ↦ do
          v ← validate_tx p now db organisation_id item_id
          ok (elim (latest_of (keep (of_item organisation_id item_id) db.versions)) [
            | none ↦ invalid no_published_passport
            | some latest ↦ check_version v latest (v.item).upi upis
          ])
      ]

  -- The loop.
  unfoldable pub check_items : ℕ → Db → ℕ → List ℕ → List Text → Outcome Prevalidation
  check_items now db organisation_id [] upis = ok record { invalid = []; records = [] }
  check_items now db organisation_id (id ∷ ids) upis = do
    check ← check_item now db organisation_id id upis
    elim check [
      | invalid code ↦ do
        rest ← check_items now db organisation_id ids upis
        ok (record rest { invalid = (id, code) ∷ rest.invalid })
      | prepared r ↦ do
        rest ← check_items now db organisation_id ids (r.upi ∷ upis)
        ok (record rest { records = r ∷ rest.records })
    ]

  module _ (sha256 : Text → ℕ) (content : ℕ → List PreparedRecord → Text) (uuid : ℕ → ℕ) where
    -- The rows of one file.
    abbrev pub rows_of :
        ℕ → ℕ → ℕ → ℕ → List PreparedRecord → List PreparedRecord → List RegistrySubmission
    rows_of organisation_id correlation_id batch_index record_index batch [] = []
    rows_of organisation_id correlation_id batch_index record_index batch (r ∷ records) =
        record {
          id = uuid (batch_index * 1000 + record_index);
          organisation_id = organisation_id;
          correlation_id = correlation_id;
          status = "blocked";
          batch_index = batch_index;
          record_index = record_index;
          prepared = r;
          file_sha256 = sha256 (content batch_index batch);
        }
        ∷ rows_of organisation_id correlation_id batch_index (record_index + 1) batch records

    unfoldable pub submissions_of : ℕ → ℕ → ℕ → List (List PreparedRecord) → List RegistrySubmission
    submissions_of organisation_id correlation_id batch_index [] = []
    submissions_of organisation_id correlation_id batch_index (batch ∷ batches) =
        rows_of organisation_id correlation_id batch_index 0 batch batch
        ++ submissions_of organisation_id correlation_id (batch_index + 1) batches

    abbrev pub audited : ℕ → Actor → String → ℕ → Db → Db
    audited organisation_id actor action correlation_id db = record db {
      audit = db.audit ++ audit_event organisation_id actor action correlation_id ∷ [];
    }

    -- What follows the loop of the transaction.
    unfoldable pub close_preparation :
        ℕ → Actor → String → ℕ → Db → Prevalidation → Outcome (Preparation × Db)
    close_preparation organisation_id actor action correlation_id db checked =
        elim checked.invalid [
          | i ∷ rest ↦ ok (
            rejected (i ∷ rest),
            audited organisation_id actor "registry.prevalidation_rejected" correlation_id db,
          )
          | [] ↦ do
            batches ← build_registry_draft parse_url checked.records
            ok (
              drafted batches,
              audited organisation_id actor action correlation_id (record db {
                registry_submissions =
                    db.registry_submissions
                    ++ submissions_of organisation_id correlation_id 0 batches;
              }),
            )
        ]

    -- The transaction of `prepare`.
    unfoldable pub prepare_tx :
        ℕ → ℕ → Actor → String → ℕ → List ℕ → Db → Outcome (Preparation × Db)
    prepare_tx now organisation_id actor action correlation_id ids db = do
      checked ← check_items now db organisation_id ids []
      close_preparation organisation_id actor action correlation_id db checked

    -- The transaction and what follows it. Where the transaction has committed a rejection, `prepare`
    -- throws `REGISTRY_PREVALIDATION_FAILED` with the list; the draft's `submission`, one of the rows
    -- appended, and `gate` are left out of the answer.
    unfoldable pub prepare : ℕ → ℕ → Actor → String → ℕ → List ℕ → Db → Outcome (Answer × Db)
    prepare now organisation_id actor action correlation_id ids db = do
      done ← prepare_tx now organisation_id actor action correlation_id ids db
      ok (answer_of done.0, done.1)
