-- ===== src/Rules/Engine/Counting.antt =====
-- What `calculateReadiness` computes, as filters of the catalogue.
use codex_nieuw.Prelude.{
  ℕ, ◌+◌, ◌≡◌, Bool, true, false, not, ◌&&◌, Option, some, List, [], ◌∷◌, ◌++◌, arith,
  if◌then◌else◌, elem, keep, map, count_where,
}
use mathlib.Core.List.{append_assoc, append-nil}
use codex_nieuw.Rules.Types.{BatteryCategory, Requirement, FieldDefinition, ValidationIssue}
use codex_nieuw.Rules.Engine.{
  PassportValue, Readiness, Tally, requirement_for, is_deferred, is_hidden, is_conditional, by_id,
  is_filled, has_provenance, required_now, evidence_warning, required_blocker, count_required,
  count_as, count_field, count_fields, calculate_readiness, empty_tally,
}

module _ (category : BatteryCategory) (values : List PassportValue) (chosen : List ℕ) where
  -- The field is required now: mandatory, or conditional and chosen by the review.
  abbrev pub is_needed : FieldDefinition → Bool
  is_needed f = required_now (requirement_for f category) (elem f.id chosen)

  abbrev pub has_value : FieldDefinition → Bool
  has_value f = is_filled (by_id f.id values)

  abbrev pub is_proven : FieldDefinition → Bool
  is_proven f = has_provenance (by_id f.id values)

  abbrev pub is_missing : FieldDefinition → Bool
  is_missing f = is_needed f && not (has_value f)

  abbrev pub is_complete : FieldDefinition → Bool
  is_complete f = is_needed f && has_value f

  abbrev pub is_verified : FieldDefinition → Bool
  is_verified f = is_complete f && is_proven f

  abbrev pub is_unproven : FieldDefinition → Bool
  is_unproven f = is_complete f && not (is_proven f)

  abbrev pub is_open : FieldDefinition → Bool
  is_open f = is_conditional (requirement_for f category) && not (elem f.id chosen)

abbrev one_if : Bool → ℕ
one_if b = if b then 1 else 0

abbrev issue_if : Bool → ValidationIssue → List ValidationIssue
issue_if b i = if b then i ∷ [] else []

-- What one round adds to the tally.
record Counted (id : ℕ) (req : Requirement) (chosen : Bool) (v : Option PassportValue) (t u : Tally)
    : Type 0 where
  required : u.required ≡ t.required + one_if (required_now req chosen)
  complete : u.complete ≡ t.complete + one_if (required_now req chosen && is_filled v)
  verified :
      u.verified
      ≡ t.verified + one_if ((required_now req chosen && is_filled v) && has_provenance v)
  deferred : u.deferred ≡ t.deferred + one_if (is_deferred req)
  hidden : u.not_displayed ≡ t.not_displayed + one_if (is_hidden req)
  open_now : u.conditional_open ≡ t.conditional_open + one_if (is_conditional req && not chosen)
  blockers :
      u.blockers
      ≡ t.blockers ++ issue_if (required_now req chosen && not (is_filled v)) (required_blocker id)
  warnings :
      u.warnings
      ≡ t.warnings
        ++ issue_if
            ((required_now req chosen && is_filled v) && not (has_provenance v))
            (evidence_warning id)

count_as-Counted :
    (id : ℕ) (req : Requirement) (chosen : Bool) (v : Option PassportValue) (t : Tally)
    → Counted id req chosen v t (count_as id req chosen v t)
unfolding count_as count_required
count_as-Counted id Requirement.mandatory chosen v t =
    ground (arith, append-nil t.blockers, append-nil t.warnings)
count_as-Counted id req chosen v t = ground (arith, append-nil t.blockers, append-nil t.warnings)

abbrev pub ids : List FieldDefinition → List ℕ
ids fs = map (λ (f : FieldDefinition). f.id) fs

-- What the whole loop adds to the tally.
record Totals (category : BatteryCategory) (values : List PassportValue) (chosen : List ℕ)
    (fs : List FieldDefinition) (t u : Tally) : Type 0 where
  required : u.required ≡ t.required + count_where (is_needed category values chosen) fs
  complete : u.complete ≡ t.complete + count_where (is_complete category values chosen) fs
  verified : u.verified ≡ t.verified + count_where (is_verified category values chosen) fs
  deferred :
      u.deferred ≡ t.deferred + count_where (λ f. is_deferred (requirement_for f category)) fs
  hidden :
      u.not_displayed
      ≡ t.not_displayed + count_where (λ f. is_hidden (requirement_for f category)) fs
  open_now :
      u.conditional_open ≡ t.conditional_open + count_where (is_open category values chosen) fs
  blockers :
      u.blockers
      ≡ t.blockers ++ map required_blocker (ids (keep (is_missing category values chosen) fs))
  warnings :
      u.warnings
      ≡ t.warnings ++ map evidence_warning (ids (keep (is_unproven category values chosen) fs))

module _ {A : Type 0} where
  append_step :
      (t u w : List A) (b : Bool) (x : A) (rest all : List A)
      → u ≡ t ++ (if b then x ∷ [] else [])
      → w ≡ u ++ rest
      → all ≡ (if b then x ∷ rest else rest)
      → w ≡ t ++ all
  append_step t u w true x rest all p q r = rw (q, p, r) (append_assoc t (x ∷ []) rest)
  append_step t u w false x rest all p q r = rw (q, p, r, append-nil)

keep_if :
    (mk : ℕ → ValidationIssue) (p : FieldDefinition → Bool) (f : FieldDefinition)
    (fs : List FieldDefinition)
    → map mk (ids (keep p (f ∷ fs)))
      ≡ (if p f then mk f.id ∷ map mk (ids (keep p fs)) else map mk (ids (keep p fs)))
keep_if mk p f fs = ground arith

module _ (category : BatteryCategory) (values : List PassportValue) (chosen : List ℕ) where
  count_field-Counted :
      (f : FieldDefinition) (t : Tally)
      → Counted f.id
          (requirement_for f category)
          (elem f.id chosen)
          (by_id f.id values)
          t
          (count_field category values chosen f t)
  unfolding count_field
  count_field-Counted f t =
      count_as-Counted f.id (requirement_for f category) (elem f.id chosen) (by_id f.id values) t

  count_fields-Totals :
      (fs : List FieldDefinition) (t : Tally)
      → Totals category values chosen fs t (count_fields category values chosen fs t)
  unfolding count_fields
  count_fields-Totals [] t = record {
    required = omega arith;
    complete = omega arith;
    verified = omega arith;
    deferred = omega arith;
    hidden = omega arith;
    open_now = omega arith;
    blockers = rw append-nil;
    warnings = rw append-nil;
  }
  count_fields-Totals (f ∷ fs) t =
      let u = count_field category values chosen f t in
      let one = count_field-Counted f t in
      let more = count_fields-Totals fs u in
      record {
        required = omega (arith, one.required, more.required);
        complete = omega (arith, one.complete, more.complete);
        verified = omega (arith, one.verified, more.verified);
        deferred = omega (arith, one.deferred, more.deferred);
        hidden = omega (arith, one.hidden, more.hidden);
        open_now = omega (arith, one.open_now, more.open_now);
        blockers =
            append_step t.blockers u.blockers (count_fields category values chosen fs u).blockers
              (is_missing category values chosen f) (required_blocker f.id)
              (map required_blocker (ids (keep (is_missing category values chosen) fs)))
              (map required_blocker (ids (keep (is_missing category values chosen) (f ∷ fs))))
              one.blockers more.blockers
              (keep_if required_blocker (is_missing category values chosen) f fs);
        warnings =
            append_step t.warnings u.warnings (count_fields category values chosen fs u).warnings
              (is_unproven category values chosen f) (evidence_warning f.id)
              (map evidence_warning (ids (keep (is_unproven category values chosen) fs)))
              (map evidence_warning (ids (keep (is_unproven category values chosen) (f ∷ fs))))
              one.warnings more.warnings
              (keep_if evidence_warning (is_unproven category values chosen) f fs);
      }

-- The readiness of a passport, read off the catalogue: each counter is the number of fields with
-- the property that it counts, and the blockers and warnings name, in the catalogue's order, the
-- required fields without a value and those whose value lacks validation or evidence.
pub record IsReadiness (fields : List FieldDefinition) (category : BatteryCategory)
    (values : List PassportValue) (chosen : List ℕ) (r : Readiness) : Type 0 where
  pub required : r.required ≡ count_where (is_needed category values chosen) fields
  pub complete : r.complete ≡ count_where (is_complete category values chosen) fields
  pub verified : r.verified ≡ count_where (is_verified category values chosen) fields
  pub deferred : r.deferred ≡ count_where (λ f. is_deferred (requirement_for f category)) fields
  pub hidden : r.not_displayed ≡ count_where (λ f. is_hidden (requirement_for f category)) fields
  pub open_now : r.conditional_open ≡ count_where (is_open category values chosen) fields
  pub blockers :
      r.blockers ≡ map required_blocker (ids (keep (is_missing category values chosen) fields))
  pub warnings :
      r.warnings ≡ map evidence_warning (ids (keep (is_unproven category values chosen) fields))

-- For any catalogue, category and values, `calculateReadiness` returns the counts and lists that
-- counting over the catalogue gives: the required fields, those of them that are complete and those
-- that are verified, the deferred, hidden and open ones, a blocker for each required field without a
-- value, and a warning for each one whose value lacks validation or evidence.
pub calculate_readiness_lem :
    (fields : List FieldDefinition) (category : BatteryCategory) (values : List PassportValue)
    (chosen : List ℕ)
    → IsReadiness fields category values chosen
        (calculate_readiness fields category values (some chosen))
unfolding calculate_readiness
calculate_readiness_lem fields category values chosen =
    let t = count_fields-Totals category values chosen fields empty_tally in
    record {
      required = omega (arith, t.required);
      complete = omega (arith, t.complete);
      verified = omega (arith, t.verified);
      deferred = omega (arith, t.deferred);
      hidden = omega (arith, t.hidden);
      open_now = omega (arith, t.open_now);
      blockers = t.blockers;
      warnings = t.warnings;
    }
