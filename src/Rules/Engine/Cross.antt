-- ===== src/Rules/Engine/Cross.antt =====
-- `crossFieldChecks` of packages/rules/src/engine.ts. Numbers are doubles, given by their bit
-- patterns; the arithmetic of doubles is a parameter.
use codex_nieuw.Prelude.{
  ℕ, String, ◌≡◌, Bool, true, false, not, ◌&&◌, Option, none, some, List, [], ◌∷◌, ◌++◌, arith, ltb,
  if◌then◌else◌, any, str_eq, ◌≤◌,
}
use text.Mathlib.Text.{starts_with}
use codex_nieuw.Rules.Types.{
  Severity, warning, blocker, Rule, x001, x003, x004, x005, x020, x030, x031, x032, ValidationIssue,
  is_blocker,
}

-- The operations on doubles that the checks use; `truthy` is false of zero and of NaN.
pub record Floats : Type 0 where
  pub le : ℕ → ℕ → Bool
  pub lt : ℕ → ℕ → Bool
  pub add : ℕ → ℕ → ℕ
  pub sub : ℕ → ℕ → ℕ
  pub mul : ℕ → ℕ → ℕ
  pub div : ℕ → ℕ → ℕ
  pub abs : ℕ → ℕ
  pub truthy : ℕ → Bool

-- The doubles 0, 1, 100 and 100.0001.
abbrev pub zero_f : ℕ
zero_f = 0

abbrev pub one_f : ℕ
one_f = 0x3ff0000000000000

abbrev pub hundred_f : ℕ
hundred_f = 0x4059000000000000

abbrev pub hundred_and_a_bit_f : ℕ
hundred_and_a_bit_f = 0x405900068db8bac7

-- `manufacture_date` is the instant that `new Date` reads from the text, if the text is there and
-- can be read; a comparison with an unreadable date is false in the source.
pub record CrossFieldInput : Type 0 where
  pub min_voltage : Option ℕ
  pub nominal_voltage : Option ℕ
  pub max_voltage : Option ℕ
  pub capacity : Option ℕ
  pub weight : Option ℕ
  pub upi : Option String
  pub manufacture_date : Option ℕ
  pub material_mass_fractions : Option (List ℕ)
  pub baseline_capacity : Option ℕ
  pub current_capacity : Option ℕ
  pub reported_capacity_fade_pct : Option ℕ

abbrev issue_when : Bool → Rule → Severity → List ValidationIssue
issue_when fired rule severity =
    if fired then record { rule = rule; field_id = none; severity = severity } ∷ [] else []

module _ (fl : Floats) where
  sum_from : ℕ → List ℕ → ℕ
  sum_from acc [] = acc
  sum_from acc (x ∷ xs) = sum_from (fl.add acc x) xs

  unfoldable pub voltage_fault : Option ℕ → Option ℕ → Option ℕ → Bool
  voltage_fault (some lo) (some mid) (some hi) = not (fl.le lo mid && fl.le mid hi)
  voltage_fault _ _ _ = false

  unfoldable pub not_positive : Option ℕ → Bool
  not_positive none = false
  not_positive (some x) = fl.le x zero_f

  unfoldable pub insecure_upi : Option String → Bool
  insecure_upi none = false
  insecure_upi (some upi) = not (str_eq upi "") && not (starts_with upi "https://")

  unfoldable pub in_future : Option ℕ → ℕ → Bool
  in_future none now = false
  in_future (some t) now = ltb now t

  -- The check only looks at a list that is not empty.
  unfoldable pub too_much_material : Option (List ℕ) → Bool
  unfolding sum_from
  too_much_material none = false
  too_much_material (some []) = false
  too_much_material (some (x ∷ xs)) = fl.lt hundred_and_a_bit_f (sum_from zero_f (x ∷ xs))

  unfoldable pub negative_material : Option (List ℕ) → Bool
  negative_material none = false
  negative_material (some xs) = any (λ v. fl.lt v zero_f) xs

  -- `(1 - current / baseline) * 100`
  abbrev pub expected_fade : ℕ → ℕ → ℕ
  expected_fade baseline current = fl.mul (fl.sub one_f (fl.div current baseline)) hundred_f

  unfoldable pub fade_mismatch : Option ℕ → Option ℕ → Option ℕ → Bool
  fade_mismatch (some baseline) (some current) (some reported) =
      fl.truthy baseline && fl.lt one_f (fl.abs (fl.sub (expected_fade baseline current) reported))
  fade_mismatch _ _ _ = false

  unfoldable pub cross_field_checks : CrossFieldInput → ℕ → List ValidationIssue
  cross_field_checks x now =
      issue_when (voltage_fault x.min_voltage x.nominal_voltage x.max_voltage) x001 blocker
      ++ (issue_when (not_positive x.capacity) x003 blocker
          ++ (issue_when (not_positive x.weight) x004 blocker
              ++ (issue_when (insecure_upi x.upi) x020 blocker
                  ++ (issue_when (in_future x.manufacture_date now) x005 blocker
                      ++ (issue_when (too_much_material x.material_mass_fractions) x030 blocker
                          ++ (issue_when (negative_material x.material_mass_fractions) x031 blocker
                              ++ issue_when
                                  (fade_mismatch x.baseline_capacity x.current_capacity
                                    x.reported_capacity_fade_pct)
                                  x032 warning))))))

  -- The physical conditions behind the checks, each for an input that has the numbers.
  abbrev pub VoltageOrdered : Option ℕ → Option ℕ → Option ℕ → Type 0
  VoltageOrdered (some lo) (some mid) (some hi) = (fl.le lo mid ≡ true) × (fl.le mid hi ≡ true)
  VoltageOrdered _ _ _ = Unit {0}

  abbrev pub IsPositive : Option ℕ → Type 0
  IsPositive none = Unit {0}
  IsPositive (some v) = fl.le v zero_f ≡ false

  abbrev pub IsPast : Option ℕ → ℕ → Type 0
  IsPast none now = Unit {0}
  IsPast (some t) now = t ≤ now

  -- the tests behind the blockers fail when there is no blocker
  no_blocker :
      (x : CrossFieldInput) (now : ℕ)
      → any is_blocker (cross_field_checks x now) ≡ false
      → (voltage_fault x.min_voltage x.nominal_voltage x.max_voltage ≡ false)
        × (not_positive x.capacity ≡ false)
        × (not_positive x.weight ≡ false)
        × (in_future x.manufacture_date now ≡ false)
  unfolding cross_field_checks
  no_blocker x now h = ground arith

  ordered : (lo mid hi : Option ℕ) → voltage_fault lo mid hi ≡ false → VoltageOrdered lo mid hi
  unfolding voltage_fault
  ordered (some lo) (some mid) (some hi) h = ground arith
  ordered lo mid hi h = ground arith

  positive : (v : Option ℕ) → not_positive v ≡ false → IsPositive v
  unfolding not_positive
  positive none h = tt
  positive (some v) h = h

  past : (t : Option ℕ) (now : ℕ) → in_future t now ≡ false → IsPast t now
  unfolding in_future
  past none now h = tt
  past (some t) now h = ground arith

  -- Without a blocker among the issues, the voltages are ordered, capacity and weight are positive
  -- and the battery was not made in the future, as far as the numbers are given.
  pub cross_field_checks_sound :
      (x : CrossFieldInput) (now : ℕ)
      → any is_blocker (cross_field_checks x now) ≡ false
      → VoltageOrdered x.min_voltage x.nominal_voltage x.max_voltage
        × IsPositive x.capacity
        × IsPositive x.weight
        × IsPast x.manufacture_date now
  cross_field_checks_sound x now h =
      let (volts, cap, weight, made) = no_blocker x now h in
      (
        ordered x.min_voltage x.nominal_voltage x.max_voltage volts,
        positive x.capacity cap,
        positive x.weight weight,
        past x.manufacture_date now made,
      )
