-- ===== src/Rules/Access.antt =====
-- packages/rules/src/access.ts: who may see a data point of a tier.
use codex_nieuw.Prelude.{
  String, Bool, true, false, Option, List, [], ◌∷◌, str_eq, if◌then◌else◌, or_else, any,
}
use codex_nieuw.Rules.Types.{AccessTier, public, authority_only, AccessDecision, same_tier}

-- `authorityRoles`
authority_roles : List String
authority_roles = "market_surveillance_authority" ∷ "notified_body" ∷ "eu_commission" ∷ []

has_role : String → List String → Bool
has_role role roles = any (str_eq role) roles

unfoldable pub decide_access :
    AccessTier → Option String → Option (List AccessTier) → AccessDecision
unfolding has_role authority_roles
decide_access public role grants = record { allowed = true; reason = "PUBLIC_DATA" }
decide_access authority_only role grants =
    if has_role (or_else role "") authority_roles
    then record { allowed = true; reason = "AUTHORITY_ROLE" }
    else record { allowed = false; reason = "AUTHORITY_ONLY" }
decide_access tier role grants =
    if any (same_tier tier) (or_else grants [])
    then record { allowed = true; reason = "EXPLICIT_ACCESS_GRANT" }
    else record { allowed = false; reason = "EXPLICIT_GRANT_REQUIRED" }
