-- ===== src/Rules/Engine/Score.antt =====
-- The score of a passport: a percentage that reaches 100 exactly when nothing is missing.
use codex_nieuw.Prelude.{
  ℕ, zero, suc, ◌+◌, ◌*◌, ◌/◌, ◌≤◌, ◌<◌, ◌≡◌, ◌↔◌, inl, inr, refl, ap, sym, ◌∙◌, Bool, not, ◌&&◌,
  some, List, [], ◌∷◌, arith, length, Bool-cases, keep, map, count_where, ◌==◌,
}
use codex_nieuw.Rules.Types.{BatteryCategory, FieldDefinition}
use codex_nieuw.Rules.Engine.{PassportValue, score_of, calculate_readiness, required_blocker}
use codex_nieuw.Rules.Engine.Counting.{
  is_needed, is_missing, has_value, ids, calculate_readiness_lem,
}

div-le : (a b : ℕ) → 0 < b → a / b ≤ 100 → a < 101 * b
div-le a b p h = grind arith

le-div : (a b : ℕ) → 0 < b → 100 * b ≤ a → a < 101 * b → a / b ≡ 100
le-div a b p h k = grind arith

div-lt : (a b : ℕ) → 0 < b → a < 100 * b → a / b < 100
div-lt a b p h = grind arith

score_of-eq-100 : (c r : ℕ) → c ≤ r → r < 200 → (score_of c r ≡ 100) ↔ (c ≡ r)
unfolding score_of
score_of-eq-100 c zero h k = ground arith
score_of-eq-100 c (suc n) h k = (
  λ e. elim (Bool-cases (c == suc n)) [
    | inl same ↦ ground arith
    | inr other ↦
        let low : 200 * c + suc n < 100 * (2 * suc n) = ground arith in
        let few = div-lt (200 * c + suc n) (2 * suc n) (omega arith) low in ground arith
  ],
  λ e.
      let full = le-div (200 * c + suc n) (2 * suc n) (omega arith) (omega arith) (omega arith) in
      ground arith,
)

-- the fields that pass a test are those that pass a second one with it, and those that do not
count_split :
    (p q : FieldDefinition → Bool) (fs : List FieldDefinition)
    → count_where (λ f. p f && q f) fs + length (keep (λ f. p f && not (q f)) fs) ≡ count_where p fs
count_split p q [] = omega arith
count_split p q (f ∷ fs) = let ih = count_split p q fs in ground arith

length-blockers : (fs : List FieldDefinition) → length (map required_blocker (ids fs)) ≡ length fs
length-blockers [] = refl
length-blockers (f ∷ fs) = omega (arith, length-blockers fs)

count_where-le :
    (p : FieldDefinition → Bool) (fs : List FieldDefinition) → count_where p fs ≤ length fs
count_where-le p [] = omega arith
count_where-le p (f ∷ fs) = let ih = count_where-le p fs in ground arith

empty_iff {ℓ} : {A : Type ℓ} (xs : List A) → (length xs ≡ 0) ↔ (xs ≡ [])
empty_iff [] = (λ h. refl, λ h. refl)
empty_iff (x ∷ xs) = (λ h. absurd (omega arith), λ h. ground arith)

score_of_result :
    (fields : List FieldDefinition) (category : BatteryCategory) (values : List PassportValue)
    (chosen : List ℕ)
    → let r = calculate_readiness fields category values (some chosen) in
      r.score ≡ score_of r.complete r.required
unfolding calculate_readiness
score_of_result fields category values chosen = refl

-- For a catalogue of fewer than 200 data points, of which the program's has 71: the completed and
-- the blocked fields add up to the required ones, and the score is 100 exactly when there is no
-- blocker.
pub score_lem :
    (fields : List FieldDefinition) (category : BatteryCategory) (values : List PassportValue)
    (chosen : List ℕ)
    → length fields < 200
    → let r = calculate_readiness fields category values (some chosen) in
      (r.complete + length r.blockers ≡ r.required) × ((r.score ≡ 100) ↔ (r.blockers ≡ []))
score_lem fields category values chosen few =
    let r = calculate_readiness fields category values (some chosen) in
    let facts = calculate_readiness_lem fields category values chosen in
    let split =
      count_split (is_needed category values chosen) (has_value category values chosen) fields in
    let sum : r.complete + length r.blockers ≡ r.required = omega (
      arith,
      facts.complete,
      facts.required,
      ap length facts.blockers,
      length-blockers (keep (is_missing category values chosen) fields),
      split,
    ) in
    let small : r.required < 200 =
      omega (arith, facts.required, count_where-le (is_needed category values chosen) fields) in
    let full = score_of-eq-100 r.complete r.required (omega arith) small in
    let none_left = empty_iff r.blockers in
    let scored = score_of_result fields category values chosen in
    (
      sum,
      (
        λ h. none_left.0 (omega (arith, full.0 (sym scored ∙ h))),
        λ h. scored ∙ full.1 (omega (arith, none_left.1 h)),
      ),
    )
