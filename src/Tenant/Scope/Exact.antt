-- ===== src/Tenant/Scope/Exact.antt =====
-- A scope is permitted only by an entry of its own name with the value `true`, in a record all of
-- whose entries are Booleans under known names.
use codex_nieuw.Prelude.{
  String, ◌≡◌, ◌≢◌, ◌↔◌, ◌⊎◌, refl, Bool, true, Option, none, some, List, [], ◌∷◌, arith, eq_iff,
  any, all, ltb, length,
}
use codex_nieuw.Tenant.Scope.{
  entries, known_scope, allows, well_formed_entry, grants, is_authorisation_scope_record,
  permits_authorisation_scope,
}

-- The entry `scope: true` stands in the list.
abbrev pub Grants : List (String × Option Bool) → String → Type 0
Grants [] scope = ⊥
Grants ((key, b) ∷ es) scope = ((key ≡ scope) × (b ≡ some true)) ⊎ Grants es scope

-- Every entry is a Boolean under a known name.
abbrev pub WellFormed : List (String × Option Bool) → Type 0
WellFormed [] = Unit {0}
WellFormed ((key, b) ∷ es) = (known_scope key ≡ true) × (b ≢ none) × WellFormed es

grants_iff :
    (es : List (String × Option Bool)) (scope : String) → (grants es scope ≡ true) ↔ Grants es scope
grants_iff [] scope = (λ h. ground arith, λ h. absurd h)
grants_iff ((key, none) ∷ es) scope =
    let ih = grants_iff es scope in let e = eq_iff key scope in ground (arith, ih, e)
grants_iff ((key, some b) ∷ es) scope =
    let ih = grants_iff es scope in let e = eq_iff key scope in ground (arith, ih, e)

WellFormed-iff :
    (es : List (String × Option Bool)) → (all well_formed_entry es ≡ true) ↔ WellFormed es
WellFormed-iff [] = (λ h. tt, λ h. refl)
WellFormed-iff ((key, none) ∷ es) = ground arith
WellFormed-iff ((key, some b) ∷ es) = let ih = WellFormed-iff es in ground (arith, ih)

grants_any :
    (es : List (String × Option Bool)) (scope : String)
    → grants es scope ≡ true
    → (any allows es ≡ true) × (ltb 0 (length es) ≡ true)
grants_any [] scope h = ground arith
grants_any ((key, none) ∷ es) scope h = ground (arith, grants_any es scope)
grants_any ((key, some b) ∷ es) scope h = ground (arith, grants_any es scope)

-- A stored scope permits an action exactly when it is an object of Booleans under known names that
-- has `true` under the action's own name: no wildcard, no coercion, no nested grant.
pub permits_authorisation_scope_iff :
    (es : List (String × Option Bool)) (scope : String)
    → (permits_authorisation_scope (entries es) scope ≡ true) ↔ (WellFormed es × Grants es scope)
unfolding permits_authorisation_scope is_authorisation_scope_record
permits_authorisation_scope_iff es scope =
    let g = grants_iff es scope in
    let w = WellFormed-iff es in let a = grants_any es scope in ground (arith, g, w, a)
