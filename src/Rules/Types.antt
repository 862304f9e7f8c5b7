-- ===== src/Rules/Types.antt =====
-- packages/rules/src/types.ts. The human-readable `message` of an issue or a gate, which no code
-- reads, is left out; the free-text columns of the catalogue are too.
use codex_nieuw.Prelude.{ℕ, String, Bool, true, false, Option}

pub data BatteryCategory : Type 0 where
  ev lmt industrial_gt_2kwh : BatteryCategory

pub data Requirement : Type 0 where
  mandatory optional_if_available not_displayed_duplicate deferred_format_pending : Requirement
  deferred_until_august_2027 deferred_article_8 conditional_if_applicable not_displayed :
      Requirement
  conditional_if_commercial_warranty conditional_industrial_cycle_applications : Requirement
  conditional_some_industrial_batteries mandatory_dynamic conditional_dynamic : Requirement

pub data AccessTier : Type 0 where
  public legitimate_interest_model authority_only legitimate_interest_item : AccessTier

-- `Record<BatteryCategory, Requirement>`
pub record Applicability : Type 0 where
  pub ev : Requirement
  pub lmt : Requirement
  pub industrial : Requirement

pub record FieldDefinition : Type 0 where
  pub id : ℕ
  pub name : String
  pub applicability : Applicability
  pub access_tier : AccessTier

pub data Severity : Type 0 where
  warning blocker : Severity

-- The `rule` of an issue.
pub data Rule : Type 0 where
  evidence required x001 x003 x004 x005 x020 x030 x031 x032 : Rule
  lifecycle_status lifecycle_closed applicability_review : Rule

pub record ValidationIssue : Type 0 where
  pub rule : Rule
  pub field_id : Option ℕ
  pub severity : Severity

pub record AccessDecision : Type 0 where
  pub allowed : Bool
  pub reason : String

-- `===` on tiers and on severities
abbrev pub same_tier : AccessTier → AccessTier → Bool
same_tier public public = true
same_tier legitimate_interest_model legitimate_interest_model = true
same_tier authority_only authority_only = true
same_tier legitimate_interest_item legitimate_interest_item = true
same_tier _ _ = false

abbrev pub is_blocker : ValidationIssue → Bool
is_blocker i = elim i.severity [ warning ↦ false | blocker ↦ true ]
