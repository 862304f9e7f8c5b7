-- ===== src/Tenant/Scope.antt =====
-- apps/api/src/common/tenant/authorisation-scope.decorator.ts: the scopes of a written authorisation.
pub mod Exact
use codex_nieuw.Prelude.{
  ℕ, String, ◌≡◌, Bool, true, false, ◌&&◌, ◌||◌, Option, none, some, List, [], ◌∷◌, ltb, str_eq,
  if◌then◌else◌, any, all, length,
}

-- `AUTHORISATION_SCOPES`
pub authorisation_scopes : List String
authorisation_scopes =
    "organisationRead" ∷ "organisationWrite" ∷ "modelRead" ∷ "modelWrite" ∷ "applicabilityReview"
    ∷ "itemRead" ∷ "itemWrite" ∷ "valueRead" ∷ "valueWrite" ∷ "valueReview" ∷ "evidenceRead"
    ∷ "evidenceWrite" ∷ "evidenceReview" ∷ "evidenceExtract" ∷ "supplierRead" ∷ "supplierWrite"
    ∷ "supplierReview" ∷ "complianceRead" ∷ "passportRead" ∷ "passportValidate" ∷ "passportPublish"
    ∷ "passportExport" ∷ "lifecycleRead" ∷ "lifecycleWrite" ∷ "accessGrantWrite" ∷ "registryRead"
    ∷ "registryPrepare" ∷ "registrySubmit" ∷ []

-- A stored scope: no object (absent, a list or a plain value), or an object by its entries, of which
-- an entry that is no Boolean is `none`. The keys of an object are distinct.
pub data ScopeJson : Type 0 where
  not_object : ScopeJson
  entries : List (String × Option Bool) → ScopeJson

abbrev pub known_scope : String → Bool
known_scope name = any (str_eq name) authorisation_scopes

abbrev pub allows : String × Option Bool → Bool
allows (key, some true) = true
allows (key, _) = false

abbrev well_formed_entry : String × Option Bool → Bool
well_formed_entry (key, none) = false
well_formed_entry (key, some b) = known_scope key

unfoldable pub is_authorisation_scope_record : ScopeJson → Bool
unfolding authorisation_scopes
is_authorisation_scope_record not_object = false
is_authorisation_scope_record (entries es) =
    ltb 0 (length es) && any allows es && all well_formed_entry es

-- `value[scope] === true` of an own property
abbrev pub grants : List (String × Option Bool) → String → Bool
grants [] scope = false
grants ((key, b) ∷ es) scope = (str_eq key scope && allows (key, b)) || grants es scope

unfoldable pub permits_authorisation_scope : ScopeJson → String → Bool
permits_authorisation_scope not_object scope = false
permits_authorisation_scope (entries es) scope =
    is_authorisation_scope_record (entries es) && grants es scope
