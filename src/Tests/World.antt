-- ===== src/Tests/World.antt =====
-- Concrete data for the examples: settings whose platform functions are simple stand-ins, and a
-- database with one model and one battery whose passport is complete and reviewed.
use codex_nieuw.Prelude.{
  ℕ, ◌+◌, ◌-◌, ◌*◌, ◌/◌, true, none, some, List, [], ◌∷◌, ltb, leb, map, length,
}
use codex_nieuw.Json.{codes, str}
use codex_nieuw.Rules.Types.{FieldDefinition, ev}
use codex_nieuw.Rules.Catalogue.{fields}
use codex_nieuw.Rules.Engine.Cross.{Floats}
use codex_nieuw.Rules.StateMachine.{PassportState}
use codex_nieuw.Batteries.Review.{
  ConditionalDecision, ConditionalField, conditional_fields, reviewed_applicability_context,
}
use codex_nieuw.Canonical.{Externals}
use codex_nieuw.Tenant.Scope.{entries}
use codex_nieuw.Tenant.Access.{Actor}
use codex_nieuw.Store.Rows.{
  SupplierRequest, SupplierSubmission, RequestStatus, LifecycleStatus, ValidationStatus,
  EvidenceStatus, BatteryModel, BatteryItem, ValueRow, EvidenceObject, WrittenAuthorisation, Db,
}
use codex_nieuw.Passports.Data.{Platform}

abbrev pub externals : Externals
externals = record { print_number = λ n. n ∷ []; quote = λ t. t; sha256 = length }

-- Whole numbers stand in for the bit patterns of doubles.
abbrev pub floats : Floats
floats = record {
  le = leb;
  lt = ltb;
  add = λ a b. a + b;
  sub = λ a b. a - b;
  mul = λ a b. a * b;
  div = λ a b. a / b;
  abs = λ a. a;
  truthy = ltb 0;
}

abbrev pub platform : Platform
platform = record {
  externals = externals;
  floats = floats;
  fingerprint = length;
  parse_number = length;
  scan_required = true;
  upi_of = λ id. id ∷ [];
  rule_set_version = codes "1";
  double = λ n. n;
  print_id = λ n. n ∷ [];
  print_hash = λ n. n ∷ [];
  iso = λ n. n ∷ [];
}

abbrev pub clock : ℕ → ℕ
clock n = 1000 + n

abbrev pub new_id : ℕ → ℕ
new_id n = 500 + n

abbrev pub operator : Actor
operator = record { subject = "operator"; organisation_id = 1; role = "operator_admin" }

abbrev pub decisions : List ConditionalDecision
decisions =
    map
      (λ (f : ConditionalField). record {
        field_id = f.field_id;
        applicable = true;
        reason = codes "applies to this battery";
      })
      (conditional_fields fields ev)

abbrev pub model : BatteryModel
model = record {
  id = 10;
  organisation_id = 1;
  model_identifier = codes "M";
  category = ev;
  applicability_context =
      reviewed_applicability_context fields length ev decisions (codes "reviewer") 5;
}

abbrev pub battery : PassportState → BatteryItem
battery state = record {
  id = 20;
  organisation_id = 1;
  model_id = 10;
  public_id = 77;
  serial = codes "S";
  batch = none;
  upi = none;
  manufacture_date = some 3;
  lifecycle_status = LifecycleStatus.original;
  passport_state = state;
}

abbrev pub stored_value : FieldDefinition → ValueRow
stored_value f = record {
  id = f.id;
  organisation_id = 1;
  model_id = none;
  item_id = some 20;
  field_id = f.id;
  value = str (codes "original");
  unit = none;
  source_kind = "operator";
  validation_status = ValidationStatus.validated;
  valid_until = none;
  supersedes = none;
}

abbrev pub proof : EvidenceObject
proof = record {
  id = 30;
  organisation_id = 1;
  supplier_id = some 60;
  object_key = codes "orgs/1/evidence/30/report.pdf";
  filename = some (codes "report.pdf");
  mime_type = some (codes "application/pdf");
  evidence_type = codes "report";
  size_bytes = some 9;
  sha256 = some 9;
  storage_checksum = some 9;
  uploaded_at = some 3;
  updated_at = 4;
  malware_scan_sha256 = some 9;
  malware_scanned_at = some 4;
  malware_scanner_version = some (codes "1");
  storage_version_id = some (codes "v");
  verification_status = EvidenceStatus.verified;
  issued_at = some 2;
  expires_at = none;
}

abbrev pub authorisation : WrittenAuthorisation
authorisation = record {
  id = 40;
  responsible_operator_id = 1;
  service_provider_id = 2;
  scope_json = entries (("itemRead", some true) ∷ []);
  document_sha256 = 9;
  valid_from = 5;
  valid_until = some 5000;
  revoked_at = none;
}

abbrev pub supplier_request : SupplierRequest
supplier_request = record {
  id = 70;
  organisation_id = 1;
  supplier_id = 60;
  model_id = 10;
  token_hash = 3;
  status = RequestStatus.submitted;
  expires_at = 9000;
  opened_at = some 5;
  submitted_at = some 6;
  field_ids = 10 ∷ 12 ∷ [];
}

abbrev pub offered : SupplierSubmission
offered = record {
  id = 80;
  request_id = 70;
  field_id = 12;
  value = str (codes "NMC");
  unit = none;
  evidence_ids = 30 ∷ [];
}

abbrev pub world : PassportState → Db
world state = record {
  models = model ∷ [];
  items = battery state ∷ [];
  values = map stored_value fields;
  evidence = proof ∷ [];
  links = map (λ (f : FieldDefinition). record { evidence_id = 30; value_id = f.id }) fields;
  versions = [];
  snapshots = [];
  authorisations = authorisation ∷ [];
  grants = [];
  requests = supplier_request ∷ [];
  submissions = offered ∷ [];
  events = [];
  telemetry = [];
  identities = [];
  registry_submissions = [];
  audit = [];
}
