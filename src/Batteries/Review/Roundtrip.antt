-- ===== src/Batteries/Review/Roundtrip.antt =====
-- The review that the controller stores is the review that the assessment reads: a complete list of
-- decisions leaves no issue.
use codex_nieuw.Prelude.{
  ℕ, ◌≡◌, refl, ◌∙◌, ap, true, false, not, ◌&&◌, ◌||◌, some, List, [], ◌∷◌, ◌++◌, arith, elem,
  distinct, all, keep, map,
}
use mathlib.Core.List.{append_assoc, append-nil}
use codex_nieuw.Json.{Text, is_blank}
use codex_nieuw.Rules.Types.{
  BatteryCategory, ev, lmt, industrial_gt_2kwh, Requirement, FieldDefinition,
}
use codex_nieuw.Batteries.Review.Sorting.{
  sort_ids-Sorted, sort_ids-fixed, distinct-sort_ids, integers-some, same_ids_refl,
}
use codex_nieuw.Batteries.Review.{
  ConditionalDecision, decision_allowed, trimmed, parse_decision, same_category, conditional_fields,
  field_ids, decided_ids, take_decisions, sort_ids, applicable_ids, ids_match,
  assess_conditional_review, reviewed_applicability_context,
}

elem-append : (a : ℕ) (xs ys : List ℕ) → elem a (xs ++ ys) ≡ (elem a xs || elem a ys)
elem-append a [] ys = refl
elem-append a (x ∷ xs) ys = let ih = elem-append a xs ys in ground arith

decided-append :
    (ds es : List ConditionalDecision) → decided_ids (ds ++ es) ≡ decided_ids ds ++ decided_ids es
decided-append [] es = refl
decided-append (d ∷ ds) es = ap (λ xs. d.field_id ∷ xs) (decided-append ds es)

-- What the schema accepts it reads back, with trimmed reasons.
parse-all :
    (ds : List ConditionalDecision)
    → all decision_allowed ds ≡ true
    → map parse_decision ds ≡ map some (map trimmed ds)
parse-all [] h = refl
parse-all (d ∷ ds) h =
    let ih = parse-all ds (ground arith) in
    let here : decision_allowed d ≡ true = ground arith in rw (here, ih) refl

decided-trimmed : (ds : List ConditionalDecision) → decided_ids (map trimmed ds) ≡ decided_ids ds
decided-trimmed [] = refl
decided-trimmed (d ∷ ds) = ap (λ xs. d.field_id ∷ xs) (decided-trimmed ds)

applicable-trimmed :
    (ds : List ConditionalDecision) → applicable_ids (map trimmed ds) ≡ applicable_ids ds
applicable-trimmed [] = refl
applicable-trimmed (d ∷ ds) = let ih = applicable-trimmed ds in ground arith

known-trimmed :
    (ids : List ℕ) (ds : List ConditionalDecision)
    → all (λ (d : ConditionalDecision). elem d.field_id ids) (map trimmed ds)
      ≡ all (λ (d : ConditionalDecision). elem d.field_id ids) ds
known-trimmed ids [] = refl
known-trimmed ids (d ∷ ds) = ap (λ b. elem d.field_id ids && b) (known-trimmed ids ds)

-- Every decision is about a conditional field and not about one that is decided already.
abbrev Takes : List ℕ → List ConditionalDecision → List ConditionalDecision → Type 0
Takes ids taken [] = Unit {0}
Takes ids taken (d ∷ ds) =
    (elem d.field_id ids ≡ true)
    × (elem d.field_id (decided_ids taken) ≡ false)
    × Takes ids (taken ++ d ∷ []) ds

take_decisions-all :
    (ids : List ℕ) (ds taken : List ConditionalDecision)
    → Takes ids taken ds
    → take_decisions ids (map some ds) taken [] ≡ (taken ++ ds, [])
unfolding take_decisions
take_decisions-all ids [] taken h = rw append-nil refl
take_decisions-all ids (d ∷ ds) taken h =
    let ih = take_decisions-all ids ds (taken ++ d ∷ []) h.2 in
    rw (take_decisions, h.0, h.1) (ih ∙ rw (append_assoc taken (d ∷ []) ds) refl)

-- What the decisions must be: each conditional field once.
Takes-of :
    (ids : List ℕ) (ds taken : List ConditionalDecision)
    → all (λ (d : ConditionalDecision). elem d.field_id ids) ds ≡ true
    → all (λ (d : ConditionalDecision). not (elem d.field_id (decided_ids taken))) ds ≡ true
    → distinct (decided_ids ds) ≡ true
    → Takes ids taken ds
Takes-of ids [] taken known fresh once = tt
Takes-of ids (d ∷ ds) taken known fresh once = (
  ground arith,
  ground arith,
  Takes-of ids ds (taken ++ d ∷ []) (ground arith) (later_fresh ds (ground arith) (ground arith))
      (ground arith),
)
  where
    later_fresh :
        (es : List ConditionalDecision)
        → all (λ (e : ConditionalDecision). not (elem e.field_id (decided_ids taken))) es ≡ true
        → elem d.field_id (decided_ids es) ≡ false
        → all
            (λ (e : ConditionalDecision). not (elem e.field_id (decided_ids (taken ++ d ∷ []))))
            es
          ≡ true
    later_fresh [] f g = refl
    later_fresh (e ∷ es) f g =
        let ih = later_fresh es (ground arith) (ground arith) in
        let split = elem-append e.field_id (decided_ids taken) (d.field_id ∷ []) in
        let spread = decided-append taken (d ∷ []) in
        let apart : elem e.field_id (decided_ids (taken ++ d ∷ [])) ≡ false =
          rw spread (ground (arith, split)) in
        ground (arith, apart, ih)

all_fresh :
    (ds : List ConditionalDecision)
    → all (λ (d : ConditionalDecision). not (elem d.field_id [])) ds ≡ true
all_fresh [] = refl
all_fresh (d ∷ ds) = all_fresh ds

-- The stored list of required fields matches the decisions.
ids_match-stored :
    (xs : List ℕ)
    → distinct xs ≡ true
    → ids_match (some (map some (sort_ids xs))) (sort_ids xs) ≡ true
unfolding ids_match
ids_match-stored xs h =
    rw
      (
        ids_match,
        integers-some (sort_ids xs),
        distinct-sort_ids xs h,
        sort_ids-fixed (sort_ids xs) (sort_ids-Sorted xs),
        same_ids_refl (sort_ids xs),
      )
      refl

applicable-elem :
    (a : ℕ) (ds : List ConditionalDecision)
    → elem a (decided_ids ds) ≡ false
    → elem a (applicable_ids ds) ≡ false
applicable-elem a [] h = refl
applicable-elem a (d ∷ ds) h = let ih = applicable-elem a ds in ground (arith, ih)

applicable-distinct :
    (ds : List ConditionalDecision)
    → distinct (decided_ids ds) ≡ true
    → distinct (applicable_ids ds) ≡ true
applicable-distinct [] h = refl
applicable-distinct (d ∷ ds) h =
    let ih = applicable-distinct ds in
    let a = applicable-elem d.field_id ds in ground (arith, ih, a)

nothing_left :
    (expected decided : List ℕ)
    → all (λ id. elem id decided) expected ≡ true
    → keep (λ id. not (elem id decided)) expected ≡ []
nothing_left [] decided h = refl
nothing_left (x ∷ xs) decided h = let ih = nothing_left xs decided in ground (arith, ih)

category_refl : (c : BatteryCategory) → same_category c c ≡ true
category_refl ev = refl
category_refl lmt = refl
category_refl industrial_gt_2kwh = refl

module _ (fields : List FieldDefinition) (digest : List (ℕ × Requirement) → ℕ) where
  -- Each conditional field of the category is decided once, with a reason of 10 to 1000 characters, and
  -- nothing else is.
  pub record IsComplete (category : BatteryCategory) (decisions : List ConditionalDecision)
      : Type 0 where
    pub known :
        all
          (λ (d : ConditionalDecision).
            elem d.field_id (field_ids (conditional_fields fields category)))
          decisions
        ≡ true
    pub allowed : all decision_allowed decisions ≡ true
    pub once : distinct (decided_ids decisions) ≡ true
    pub all_decided :
        all (λ id. elem id (decided_ids decisions)) (field_ids (conditional_fields fields category))
        ≡ true

  -- A complete list of decisions that the schema accepts, so with reasons of 10 to 1000 characters, is
  -- assessed without an issue and leaves no field unresolved once it is stored by an actor whose
  -- subject is not blank.
  pub assess-reviewed :
      (category : BatteryCategory) (decisions : List ConditionalDecision) (subject : Text) (at : ℕ)
      → IsComplete category decisions
      → is_blank subject ≡ false
      → assess_conditional_review fields digest category
          (reviewed_applicability_context fields digest category decisions subject at)
        ≡ record { unresolved_field_ids = []; issues = [] }
  unfolding assess_conditional_review reviewed_applicability_context
  assess-reviewed category decisions subject at complete named =
      let expected = field_ids (conditional_fields fields category) in
      let ds = map trimmed decisions in
      let parsed = parse-all decisions complete.allowed in
      let same_ids_ = decided-trimmed decisions in
      let once : distinct (decided_ids ds) ≡ true = rw same_ids_ complete.once in
      let known = known-trimmed expected decisions ∙ complete.known in
      let takes = Takes-of expected ds [] known (all_fresh ds) once in
      let taken = take_decisions-all expected ds [] takes in
      let left = nothing_left expected (decided_ids decisions) complete.all_decided in
      let matches =
        ids_match-stored (applicable_ids decisions) (applicable-distinct decisions complete.once) in
      let current = category_refl category in
      rw (parsed, taken, same_ids_, applicable-trimmed decisions, left, matches, current, named)
        (ground arith)
