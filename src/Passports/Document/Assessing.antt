-- ===== src/Passports/Document/Assessing.antt =====
-- What a clear assessment is, and what the canonical document holds of it: `validateTx` of
-- apps/api/src/modules/passports/passport-data.service.ts and `canonical` of passports.controller.ts.
use mathlib.Core.List.Perm
use codex_nieuw.Prelude.{
  ℕ, ◌≤◌, ◌≡◌, refl, ap, ◌∙◌, subst, inl, inr, Bool-cases, true, none, some, List, [], ◌∷◌, ◌++◌,
  ◌==◌, ltb, find?, keep, map, arith, All, Perm,
}
use codex_nieuw.Prelude.Outcome.{ok, >>=-eq-ok, found, not_found}
use codex_nieuw.Rules.Types.{ValidationIssue, FieldDefinition, is_blocker}
use codex_nieuw.Rules.Catalogue.{fields}
use codex_nieuw.Rules.Engine.Cross.{cross_field_checks}
use codex_nieuw.Store.Rows.{
  BatteryModel, ValueRow, EvidenceLink, CanonicalValue, CanonicalPassport, Db,
}
use codex_nieuw.Store.Queries.{owns_item}
use codex_nieuw.Storage.Objects.Checking.{ok_ok, found-some}
use codex_nieuw.Tenant.Access.{Actor}
use codex_nieuw.Passports.Data.{
  Platform, Merged, Validation, merged_values, load_merged, is_empty, as_blocker,
  readiness_for_values, cross_input, lifecycle_issues, validate_tx,
}
use codex_nieuw.Passports.Document.{
  insert_value, sort_values, canonical_value, canonical_passport, upi_or,
}

empty_parts :
    (a b c : List ValidationIssue)
    → is_empty (a ++ (b ++ c)) ≡ true
    → (a ≡ []) × (b ≡ []) × (c ≡ [])
empty_parts [] [] [] h = (refl, refl, refl)
empty_parts [] [] (x ∷ c) h = absurd (ground arith)
empty_parts [] (x ∷ b) c h = absurd (ground arith)
empty_parts (x ∷ a) b c h = absurd (ground arith)

unmapped : (xs : List ValidationIssue) → map as_blocker xs ≡ [] → xs ≡ []
unmapped [] h = refl
unmapped (x ∷ xs) h = absurd (ground arith)

-- What `load_merged` has read.
record IsLoaded (db : Db) (organisation_id item_id : ℕ) (m : Merged) : Type 0 where
  item : find? (owns_item organisation_id item_id) db.items ≡ some m.item
  model : find? (λ (x : BatteryModel). x.id == (m.item).model_id) db.models ≡ some m.model
  values : m.values ≡ merged_values db m.item

load_merged-IsLoaded :
    (db : Db) (organisation_id item_id : ℕ) (m : Merged)
    → load_merged db organisation_id item_id ≡ ok m
    → IsLoaded db organisation_id item_id m
unfolding load_merged
load_merged-IsLoaded db o i m h =
    let (item, e1, h1) = >>=-eq-ok (found (find? (owns_item o i) db.items) not_found) _ h in
    let (model, e2, h2) =
      >>=-eq-ok (found (find? (λ (x : BatteryModel). x.id == item.model_id) db.models) not_found) _
        h1 in
    subst (IsLoaded db o i) (ok_ok h2) (record {
      item = found-some _ not_found e1;
      model = found-some _ not_found e2;
      values = refl;
    })

module _ (p : Platform) (now : ℕ) where
  -- The assessment is of the item, its model and the values in force as the database has them, and
  -- finds nothing that stands against a publication.
  pub record IsClear (db : Db) (organisation_id item_id : ℕ) (v : Validation) : Type 0 where
    pub item : find? (owns_item organisation_id item_id) db.items ≡ some v.item
    pub model : find? (λ (m : BatteryModel). m.id == (v.item).model_id) db.models ≡ some v.model
    pub values : v.values ≡ merged_values db v.item
    pub readiness : v.readiness ≡ readiness_for_values p now db v.model v.values
    pub no_blocker : (v.readiness).blockers ≡ []
    pub no_warning : (v.readiness).warnings ≡ []
    pub cross_checks :
        v.cross_checks
        ≡ cross_field_checks p.floats (cross_input p now v.item v.values) now
          ++ lifecycle_issues p now v.item v.values
    pub no_fault : keep is_blocker v.cross_checks ≡ []

  pub validate_tx-IsClear :
      (db : Db) (organisation_id item_id : ℕ) (v : Validation)
      → validate_tx p now db organisation_id item_id ≡ ok v
      → v.publishable ≡ true
      → IsClear db organisation_id item_id v
  unfolding validate_tx
  validate_tx-IsClear db o i v h publishable =
      let (m, e1, h1) = >>=-eq-ok (load_merged db o i) _ h in
      let same = ok_ok h1 in
      let rows = load_merged-IsLoaded db o i m e1 in
      let (a, b, c) =
        empty_parts _ _ _ (ap (λ (x : Validation). x.publishable) same ∙ publishable) in
      subst (IsClear db o i) same (record {
        item = rows.item;
        model = rows.model;
        values = rows.values;
        readiness = refl;
        no_blocker = a;
        no_warning = unmapped _ c;
        cross_checks = refl;
        no_fault = b;
      })

-- The entry of a value: what the row says, the name and the tier of its data point in the catalogue,
-- and the evidence that it is linked to.
abbrev pub entry : Db → ValueRow → CanonicalValue
entry db v = record {
  field_id = v.field_id;
  name = (elim (find? (λ (f : FieldDefinition). f.id == v.field_id) fields) [
    | none ↦ none
    | some f ↦ some f.name
  ]);
  value = v.value;
  unit = v.unit;
  access_tier = (elim (find? (λ (f : FieldDefinition). f.id == v.field_id) fields) [
    | none ↦ none
    | some f ↦ some f.access_tier
  ]);
  validation_status = v.validation_status;
  source_kind = v.source_kind;
  evidence_ids =
      map (λ (l : EvidenceLink). l.evidence_id)
        (keep (λ (l : EvidenceLink). l.value_id == v.id) db.links);
}

-- The entries stand in the order of their data points.
abbrev pub AreOrdered : List CanonicalValue → Type 0
AreOrdered [] = Unit {0}
AreOrdered (v ∷ vs) = All (λ (w : CanonicalValue). v.field_id ≤ w.field_id) vs × AreOrdered vs

insert_value-perm :
    (v : CanonicalValue) (ws : List CanonicalValue) → Perm (insert_value v ws) (v ∷ ws)
unfolding insert_value
insert_value-perm v [] = Perm.refl (v ∷ [])
insert_value-perm v (w ∷ ws) = elim (Bool-cases (ltb w.field_id v.field_id)) [
  | inl later ↦ rw later (Perm.trans (Perm.cons _ (insert_value-perm v ws)) (Perm.swap _ _ _))
  | inr here ↦ rw here (Perm.refl (v ∷ w ∷ ws))
]

sort_values-perm : (vs : List CanonicalValue) → Perm (sort_values vs) vs
unfolding sort_values
sort_values-perm [] = Perm.refl []
sort_values-perm (v ∷ vs) =
    Perm.trans (insert_value-perm v (sort_values vs)) (Perm.cons _ (sort_values-perm vs))

insert_value-All :
    (n : ℕ) (v : CanonicalValue) (ws : List CanonicalValue)
    → n ≤ v.field_id
    → All (λ (w : CanonicalValue). n ≤ w.field_id) ws
    → All (λ (w : CanonicalValue). n ≤ w.field_id) (insert_value v ws)
unfolding insert_value
insert_value-All n v [] h k = (h, tt)
insert_value-All n v (w ∷ ws) h k = elim (Bool-cases (ltb w.field_id v.field_id)) [
  | inl later ↦ rw later (k.0, insert_value-All n v ws h k.1)
  | inr here ↦ rw here (h, k)
]

all_from :
    (m n : ℕ) (ws : List CanonicalValue)
    → m ≤ n
    → All (λ (x : CanonicalValue). n ≤ x.field_id) ws
    → All (λ (x : CanonicalValue). m ≤ x.field_id) ws
all_from m n [] h k = tt
all_from m n (w ∷ ws) h k = (omega arith, all_from m n ws h k.1)

insert_value-AreOrdered :
    (v : CanonicalValue) (ws : List CanonicalValue) → AreOrdered ws → AreOrdered (insert_value v ws)
unfolding insert_value
insert_value-AreOrdered v [] h = (tt, tt)
insert_value-AreOrdered v (w ∷ ws) h = elim (Bool-cases (ltb w.field_id v.field_id)) [
  | inl later ↦
      let less : w.field_id ≤ v.field_id = ground arith in
      rw later (insert_value-All w.field_id v ws less h.0, insert_value-AreOrdered v ws h.1)
  | inr here ↦
      let le : v.field_id ≤ w.field_id = ground arith in
      rw here ((le, all_from v.field_id w.field_id ws le h.0), h)
]

sort_values-AreOrdered : (vs : List CanonicalValue) → AreOrdered (sort_values vs)
unfolding sort_values
sort_values-AreOrdered [] = tt
sort_values-AreOrdered (v ∷ vs) =
    insert_value-AreOrdered v (sort_values vs) (sort_values-AreOrdered vs)

canonical-entry : (db : Db) (v : ValueRow) → canonical_value db v ≡ entry db v
unfolding canonical_value
canonical-entry db v = refl

canonical-entries : (db : Db) (vs : List ValueRow) → map (canonical_value db) vs ≡ map (entry db) vs
canonical-entries db [] = refl
canonical-entries db (v ∷ vs) = rw (canonical-entry db v, canonical-entries db vs) refl

-- The document says of the item and the model what the assessed rows say, and has exactly one entry
-- for each assessed value, in the order of the data points.
pub record IsDocument (p : Platform) (db : Db) (v : Validation) (c : CanonicalPassport)
    : Type 0 where
  pub rule_set_version : c.rule_set_version ≡ p.rule_set_version
  pub public_id : c.public_id ≡ (v.item).public_id
  pub id : c.id ≡ (v.item).id
  pub model_id : c.model_id ≡ (v.item).model_id
  pub model_identifier : c.model_identifier ≡ (v.model).model_identifier
  pub serial : c.serial ≡ (v.item).serial
  pub batch : c.batch ≡ (v.item).batch
  pub upi : c.upi ≡ upi_or (v.item).upi (p.upi_of (v.item).public_id)
  pub category : c.category ≡ (v.model).category
  pub lifecycle_status : c.lifecycle_status ≡ (v.item).lifecycle_status
  pub entries : Perm c.values (map (entry db) v.values)
  pub ordered : AreOrdered c.values

module _ (p : Platform) (time : ℕ → ℕ) (uuid : ℕ → ℕ) (actor : Actor) where
  pub canonical_passport-IsDocument :
      (db : Db) (v : Validation)
      → IsDocument p db v (
          canonical_passport p time uuid actor db v
            (upi_or (v.item).upi (p.upi_of (v.item).public_id)))
  unfolding canonical_passport
  canonical_passport-IsDocument db v = record {
    rule_set_version = refl;
    public_id = refl;
    id = refl;
    model_id = refl;
    model_identifier = refl;
    serial = refl;
    batch = refl;
    upi = refl;
    category = refl;
    lifecycle_status = refl;
    entries =
        subst
          (λ (es : List CanonicalValue). Perm (sort_values (map (canonical_value db) v.values)) es)
          (canonical-entries db v.values) (sort_values-perm (map (canonical_value db) v.values));
    ordered = sort_values-AreOrdered (map (canonical_value db) v.values);
  }
