-- ===== src/Registry/Draft/Batches.antt =====
-- The batches of a draft: small, of one kind each, and together the records.
use codex_nieuw.Prelude.{
  ◌+◌, ◌≡◌, inl, inr, refl, sym, ap, Bool, true, Option, List, [], ◌∷◌, ◌++◌, arith, Bool-cases,
  All, All-append, concat, count_where, count_where-append,
}
use codex_nieuw.Prelude.Outcome.{ok}
use codex_nieuw.Json.{Text, same_text}
use codex_nieuw.Rules.Types.{BatteryCategory}
use codex_nieuw.Rules.Registry.Chunks.{IsBatch, chunk_for_registry_lem}
use codex_nieuw.Batteries.Review.{same_category}
use codex_nieuw.Registry.Draft.{
  PreparedRecord, Url, GroupKey, key_of, same_group, Groups, add_record, group_records,
  chunk_groups, records_valid, records_distinct, build_registry_draft,
}

pub same_text-eq : (s t : Text) → same_text s t ≡ true → s ≡ t
same_text-eq [] [] h = refl
same_text-eq [] (v ∷ t) h = ground arith
same_text-eq (u ∷ s) [] h = ground arith
same_text-eq (u ∷ s) (v ∷ t) h =
    let ih = same_text-eq s t (ground arith) in let e : u ≡ v = ground arith in rw (e, ih) refl

same_category-eq : (a b : BatteryCategory) → same_category a b ≡ true → a ≡ b
same_category-eq a b h = ground arith

same_group-eq : (a b : GroupKey) → same_group a b ≡ true → a ≡ b
same_group-eq a b h =
    let c = same_category-eq a.category b.category (ground arith) in
    let s = same_text-eq a.schema_version b.schema_version (ground arith) in
    let r = same_text-eq a.rule_set_version b.rule_set_version (ground arith) in ground arith

-- Every record of a batch has the key.
abbrev pub OfKind : GroupKey → List PreparedRecord → Type 0
OfKind k batch = All (λ r. key_of r ≡ k) batch

abbrev pub IsUniform : List PreparedRecord → Type 0
IsUniform batch = (k : GroupKey) × OfKind k batch

abbrev UniformGroups : Groups → Type 0
UniformGroups groups = All (λ g. OfKind g.0 g.1) groups

abbrev flat : Groups → List PreparedRecord
flat [] = []
flat ((k, rs) ∷ groups) = rs ++ flat groups

add_record-UniformGroups :
    (r : PreparedRecord) (groups : Groups)
    → UniformGroups groups
    → UniformGroups (add_record r groups)
unfolding add_record
add_record-UniformGroups r [] h = ((refl, tt), tt)
add_record-UniformGroups r ((k, rs) ∷ groups) h = elim (Bool-cases (same_group k (key_of r))) [
  | inl same ↦ rw same (
    All-append (λ x. key_of x ≡ k) rs (r ∷ []) h.0 (sym (same_group-eq k (key_of r) same), tt),
    h.1,
  )
  | inr other ↦ rw other (h.0, add_record-UniformGroups r groups h.1)
]

add_record-count :
    (p : PreparedRecord → Bool) (r : PreparedRecord) (groups : Groups)
    → count_where p (flat (add_record r groups))
      ≡ count_where p (r ∷ []) + count_where p (flat groups)
unfolding add_record
add_record-count p r [] = omega arith
add_record-count p r ((k, rs) ∷ groups) = elim (Bool-cases (same_group k (key_of r))) [
  | inl same ↦ rw same (
      omega (
        arith,
        count_where-append p (rs ++ r ∷ []) (flat groups),
        count_where-append p rs (r ∷ []),
        count_where-append p rs (flat groups),
      ))
  | inr other ↦ rw other (
      omega (
        arith,
        count_where-append p rs (flat (add_record r groups)),
        count_where-append p rs (flat groups),
        add_record-count p r groups,
      ))
]

group_records-UniformGroups :
    (rs : List PreparedRecord) (groups : Groups)
    → UniformGroups groups
    → UniformGroups (group_records rs groups)
unfolding group_records
group_records-UniformGroups [] groups h = h
group_records-UniformGroups (r ∷ rs) groups h =
    group_records-UniformGroups rs (add_record r groups) (add_record-UniformGroups r groups h)

group_records-count :
    (p : PreparedRecord → Bool) (rs : List PreparedRecord) (groups : Groups)
    → count_where p (flat (group_records rs groups))
      ≡ count_where p rs + count_where p (flat groups)
unfolding group_records
group_records-count p [] groups = omega arith
group_records-count p (r ∷ rs) groups =
    omega (arith, group_records-count p rs (add_record r groups), add_record-count p r groups)

concat-append :
    (xs ys : List (List PreparedRecord)) (p : PreparedRecord → Bool)
    → count_where p (concat (xs ++ ys)) ≡ count_where p (concat xs) + count_where p (concat ys)
concat-append [] ys p = omega arith
concat-append (x ∷ xs) ys p = omega (
  arith,
  count_where-append p x (concat (xs ++ ys)),
  count_where-append p x (concat xs),
  concat-append xs ys p,
)

All-left :
    (P : PreparedRecord → Type 0) (xs ys : List PreparedRecord)
    → All P (xs ++ ys)
    → All P xs × All P ys
All-left P [] ys h = (tt, h)
All-left P (x ∷ xs) ys h = let (l, r) = All-left P xs ys h.1 in ((h.0, l), r)

-- The chunks of a uniform group are uniform.
IsUniform-chunks :
    (k : GroupKey) (chunks : List (List PreparedRecord))
    → OfKind k (concat chunks)
    → All IsUniform chunks
IsUniform-chunks k [] h = tt
IsUniform-chunks k (c ∷ chunks) h =
    let (here, rest) = All-left (λ r. key_of r ≡ k) c (concat chunks) h in
    ((k, here), IsUniform-chunks k chunks rest)

-- What a list of batches must be for a list of records.
pub record AreBatches (records : List PreparedRecord) (batches : List (List PreparedRecord))
    : Type 0 where
  pub sizes : All (IsBatch 100) batches
  pub uniform : All IsUniform batches
  pub same_records :
      (p : PreparedRecord → Bool) → count_where p (concat batches) ≡ count_where p records

chunk_groups-AreBatches :
    (groups : Groups)
    → UniformGroups groups
    → (batches : List (List PreparedRecord)) × (chunk_groups groups ≡ ok batches)
      × AreBatches (flat groups) batches
unfolding chunk_groups
chunk_groups-AreBatches [] h =
    ([], refl, record { sizes = tt; uniform = tt; same_records = λ p. refl })
chunk_groups-AreBatches ((k, rs) ∷ groups) h =
    let (chunks, made, whole, small) = chunk_for_registry_lem rs 100 (omega arith) (omega arith) in
    let (rest, later, facts) = chunk_groups-AreBatches groups h.1 in
    (
      chunks ++ rest,
      rw (made, later) refl,
      record {
        sizes = All-append (IsBatch 100) chunks rest small facts.sizes;
        uniform =
            All-append IsUniform chunks rest (IsUniform-chunks k chunks (rw whole h.0))
              facts.uniform;
        same_records = λ p.
            let split = concat-append chunks rest p in
            let head = ap (count_where p) whole in
            let tail = facts.same_records p in
            let both = count_where-append p rs (flat groups) in omega arith;
      },
    )

module _ (parse_url : Text → Option Url) where
  -- For records that are valid and have different addresses and items, the draft has batches of 1
  -- to 100 records, each batch of one category, schema version and rule set version, and any test
  -- on records counts the same in the batches as in the records: none is lost, repeated or changed.
  pub build_registry_draft-AreBatches :
      (records : List PreparedRecord)
      → records_valid parse_url records ≡ true
      → records_distinct parse_url records ≡ true
      → (batches : List (List PreparedRecord)) × (build_registry_draft parse_url records
          ≡ ok batches)
        × AreBatches records batches
  unfolding build_registry_draft
  build_registry_draft-AreBatches records valid apart =
      let groups = group_records records [] in
      let (batches, made, facts) =
        chunk_groups-AreBatches groups (group_records-UniformGroups records [] tt) in
      (
        batches,
        rw (build_registry_draft, valid, apart, made) refl,
        record {
          sizes = facts.sizes;
          uniform = facts.uniform;
          same_records = λ p. omega (arith, facts.same_records p, group_records-count p records []);
        },
      )
