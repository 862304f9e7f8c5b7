-- ===== src/Store/Queries.antt =====
-- The queries that several handlers make.
use codex_nieuw.Prelude.{
  ℕ, Bool, true, false, not, ◌&&◌, Option, none, some, List, [], ◌∷◌, leb, ◌==◌, if◌then◌else◌,
  find?, is_some,
}
use codex_nieuw.Json.{Text, codes}
use codex_nieuw.Store.Rows.{
  LifecycleStatus, original, repurposed, reused, remanufactured, waste, recycled, ValidationStatus,
  EvidenceStatus, verified, BatteryModel, BatteryItem, ValueRow, EvidenceObject, EvidenceLink,
  PassportVersion,
}

-- The text by which the database spells a lifecycle status.
abbrev pub status_text : LifecycleStatus → Text
status_text original = codes "original"
status_text repurposed = codes "repurposed"
status_text reused = codes "reused"
status_text remanufactured = codes "remanufactured"
status_text waste = codes "waste"
status_text recycled = codes "recycled"

abbrev pub is_recycled : LifecycleStatus → Bool
is_recycled recycled = true
is_recycled _ = false

abbrev pub is_superseded : ValidationStatus → Bool
is_superseded ValidationStatus.superseded = true
is_superseded _ = false

abbrev pub is_validated : ValidationStatus → Bool
is_validated ValidationStatus.validated = true
is_validated _ = false

abbrev pub is_verified : EvidenceStatus → Bool
is_verified verified = true
is_verified _ = false

abbrev pub owns_item : ℕ → ℕ → BatteryItem → Bool
owns_item organisation_id id item = item.id == id && (item.organisation_id == organisation_id)

abbrev pub owns_model : ℕ → ℕ → BatteryModel → Bool
owns_model organisation_id id model = model.id == id && (model.organisation_id == organisation_id)

-- `where: { validUntil: null, validationStatus: { not: 'superseded' } }`
abbrev pub is_current_value : ValueRow → Bool
is_current_value v = not (is_some v.valid_until) && not (is_superseded v.validation_status)

-- The evidence behind the links of a value.
unfoldable pub evidence_of : List EvidenceLink → List EvidenceObject → ℕ → List EvidenceObject
evidence_of [] objects value_id = []
evidence_of (l ∷ links) objects value_id =
    let rest = evidence_of links objects value_id in
    if l.value_id == value_id
    then elim (find? (λ (e : EvidenceObject). e.id == l.evidence_id) objects) [
      | none ↦ rest
      | some e ↦ e ∷ rest
    ]
    else rest

-- `orderBy: { versionNo: 'desc' }`: a row with the greatest number.
unfoldable pub latest_of : List PassportVersion → Option PassportVersion
latest_of [] = none
latest_of (v ∷ vs) = elim (latest_of vs) [
  | none ↦ some v
  | some w ↦ if leb v.version_no w.version_no then some w else some v
]

abbrev pub of_item : ℕ → ℕ → PassportVersion → Bool
of_item organisation_id item_id v = v.organisation_id == organisation_id && (v.item_id == item_id)
