-- ===== src/Store/Rows.antt =====
-- The rows of apps/api/prisma/schema.prisma that the modelled handlers read or write.
use codex_nieuw.Prelude.{ℕ, String, Bool, Option, List}
use codex_nieuw.Json.{Text, Json}
use codex_nieuw.Rules.Types.{BatteryCategory, AccessTier}
use codex_nieuw.Rules.StateMachine.{PassportState}
use codex_nieuw.Batteries.Review.{ApplicabilityContext}
use codex_nieuw.Rules.RegistryIdentity.{RegistryActorType, RegistryVerificationStatus}
use codex_nieuw.Registry.Draft.{PreparedRecord}
use codex_nieuw.Tenant.Scope.{ScopeJson}

pub data LifecycleStatus : Type 0 where
  original repurposed reused remanufactured waste recycled : LifecycleStatus

pub data ValidationStatus : Type 0 where
  unvalidated submitted validated rejected superseded : ValidationStatus

pub data EvidenceStatus : Type 0 where
  pending_upload uploaded unverified verified rejected superseded : EvidenceStatus

pub record BatteryModel : Type 0 where
  pub id : ℕ
  pub organisation_id : ℕ
  pub model_identifier : Text
  pub category : BatteryCategory
  pub applicability_context : ApplicabilityContext

pub record BatteryItem : Type 0 where
  pub id : ℕ
  pub organisation_id : ℕ
  pub model_id : ℕ
  pub public_id : ℕ
  pub serial : Text
  pub batch : Option Text
  pub upi : Option Text
  pub manufacture_date : Option ℕ
  pub lifecycle_status : LifecycleStatus
  pub passport_state : PassportState

pub record ValueRow : Type 0 where
  pub id : ℕ
  pub organisation_id : ℕ
  pub model_id : Option ℕ
  pub item_id : Option ℕ
  pub field_id : ℕ
  pub value : Json
  pub unit : Option Text
  pub source_kind : String
  pub validation_status : ValidationStatus
  pub valid_until : Option ℕ
  pub supersedes : Option ℕ

pub record EvidenceObject : Type 0 where
  pub id : ℕ
  pub organisation_id : ℕ
  pub supplier_id : Option ℕ
  pub object_key : Text
  pub filename : Option Text
  pub mime_type : Option Text
  pub evidence_type : Text
  pub size_bytes : Option ℕ
  pub sha256 : Option ℕ
  pub storage_checksum : Option ℕ
  pub uploaded_at : Option ℕ
  pub updated_at : ℕ
  pub malware_scan_sha256 : Option ℕ
  pub malware_scanned_at : Option ℕ
  pub malware_scanner_version : Option Text
  pub storage_version_id : Option Text
  pub verification_status : EvidenceStatus
  pub issued_at : Option ℕ
  pub expires_at : Option ℕ

pub record EvidenceLink : Type 0 where
  pub evidence_id : ℕ
  pub value_id : ℕ

-- One value of the canonical passport.
pub record CanonicalValue : Type 0 where
  pub field_id : ℕ
  pub name : Option String
  pub value : Json
  pub unit : Option Text
  pub access_tier : Option AccessTier
  pub validation_status : ValidationStatus
  pub source_kind : String
  pub evidence_ids : List ℕ

-- `canonical` of `publish`.
pub record CanonicalPassport : Type 0 where
  pub rule_set_version : Text
  pub generated_at : ℕ
  pub public_id : ℕ
  pub id : ℕ
  pub model_id : ℕ
  pub model_identifier : Text
  pub serial : Text
  pub batch : Option Text
  pub upi : Text
  pub category : BatteryCategory
  pub lifecycle_status : LifecycleStatus
  pub values : List CanonicalValue

-- What `projectPassport` discloses of a value and of a passport.
pub record PublicValue : Type 0 where
  pub field_id : ℕ
  pub name : Option String
  pub value : Json
  pub unit : Option Text

pub record PublicPassport : Type 0 where
  pub rule_set_version : Text
  pub generated_at : ℕ
  pub public_id : ℕ
  pub model_identifier : Text
  pub serial : Text
  pub batch : Option Text
  pub upi : Text
  pub category : BatteryCategory
  pub lifecycle_status : Option LifecycleStatus
  pub values : List PublicValue

pub record PassportVersion : Type 0 where
  pub id : ℕ
  pub organisation_id : ℕ
  pub item_id : ℕ
  pub version_no : ℕ
  pub schema_version : Text
  pub rule_set_version : Text
  pub canonical : CanonicalPassport
  pub sha256 : ℕ
  pub previous_version_hash : Option ℕ
  pub published_at : ℕ

pub record PublicSnapshot : Type 0 where
  pub id : ℕ
  pub organisation_id : ℕ
  pub item_id : ℕ
  pub version_id : ℕ
  pub public_id : ℕ
  pub upi : Text
  pub public_json : PublicPassport
  pub sha256 : ℕ
  pub active : Bool

pub record WrittenAuthorisation : Type 0 where
  pub id : ℕ
  pub responsible_operator_id : ℕ
  pub service_provider_id : ℕ
  pub scope_json : ScopeJson
  pub document_sha256 : ℕ
  pub valid_from : ℕ
  pub valid_until : Option ℕ
  pub revoked_at : Option ℕ

pub record AccessGrant : Type 0 where
  pub id : ℕ
  pub organisation_id : ℕ
  pub item_id : Option ℕ
  pub grantee_subject : String
  pub token_hash : ℕ
  pub grantee_role : String
  pub access_tier : AccessTier
  pub purpose : String
  pub valid_from : ℕ
  pub valid_until : Option ℕ
  pub revoked_at : Option ℕ

pub data EventType : Type 0 where
  status_change repair accident repurpose reuse remanufacture recycle : EventType

pub record LifecycleEvent : Type 0 where
  pub id : ℕ
  pub organisation_id : ℕ
  pub item_id : ℕ
  pub event_type : EventType
  pub event_time : ℕ
  pub from_status : LifecycleStatus
  pub to_status : LifecycleStatus
  pub previous_passport_id : Option ℕ
  pub integrity_hash : ℕ

pub record Reading : Type 0 where
  pub measured_at : ℕ
  pub metric : Text
  pub value : Option ℕ
  pub unit : Option Text
  pub payload : Option Json
  pub source : Option Text

pub record TelemetryReading : Type 0 where
  pub id : ℕ
  pub organisation_id : ℕ
  pub item_id : ℕ
  pub reading : Reading
  pub integrity_hash : ℕ

pub data RequestStatus : Type 0 where
  draft sent opened partially_submitted submitted accepted rejected expired cancelled :
      RequestStatus

-- A request, with the data points that it asks for.
pub record SupplierRequest : Type 0 where
  pub id : ℕ
  pub organisation_id : ℕ
  pub supplier_id : ℕ
  pub model_id : ℕ
  pub token_hash : ℕ
  pub status : RequestStatus
  pub expires_at : ℕ
  pub opened_at : Option ℕ
  pub submitted_at : Option ℕ
  pub field_ids : List ℕ

-- A submission, with the evidence that it names.
pub record SupplierSubmission : Type 0 where
  pub id : ℕ
  pub request_id : ℕ
  pub field_id : ℕ
  pub value : Json
  pub unit : Option Text
  pub evidence_ids : List ℕ

pub record RegistryIdentity : Type 0 where
  pub id : ℕ
  pub organisation_id : ℕ
  pub actor_type : RegistryActorType
  pub status : RegistryVerificationStatus
  pub verified_at : Option ℕ
  pub valid_until : Option ℕ
  pub electronic_id_expires_at : Option ℕ

-- A row of `registrySubmission`, with what its JSON columns say of the record and its file.
pub record RegistrySubmission : Type 0 where
  pub id : ℕ
  pub organisation_id : ℕ
  pub correlation_id : ℕ
  pub status : String
  pub batch_index : ℕ
  pub record_index : ℕ
  pub prepared : PreparedRecord
  pub file_sha256 : ℕ

pub record AuditEvent : Type 0 where
  pub organisation_id : ℕ
  pub actor_subject : String
  pub action : String
  pub resource_id : ℕ

pub record Db : Type 0 where
  pub models : List BatteryModel
  pub items : List BatteryItem
  pub values : List ValueRow
  pub evidence : List EvidenceObject
  pub links : List EvidenceLink
  pub versions : List PassportVersion
  pub snapshots : List PublicSnapshot
  pub authorisations : List WrittenAuthorisation
  pub grants : List AccessGrant
  pub requests : List SupplierRequest
  pub submissions : List SupplierSubmission
  pub events : List LifecycleEvent
  pub telemetry : List TelemetryReading
  pub identities : List RegistryIdentity
  pub registry_submissions : List RegistrySubmission
  pub audit : List AuditEvent
