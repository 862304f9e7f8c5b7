-- ===== src/Passports/Projection/Disclosure.antt =====
-- What the projection discloses, and what it never does.
use codex_nieuw.Prelude.{
  ℕ, ◌≡◌, ◌⊎◌, inl, inr, refl, Bool, true, Option, none, some, List, [], ◌∷◌, arith, keep, map, any,
  ◌==◌, Memᴰ, mem-keep, Bool-cases,
}
use codex_nieuw.Rules.Types.{AccessTier, public, FieldDefinition}
use codex_nieuw.Rules.Catalogue.{fields}
use codex_nieuw.Store.Rows.{CanonicalValue, CanonicalPassport, PublicValue}
use codex_nieuw.Passports.Projection.{visible, is_allowed, disclosed, project_passport}

any-mem :
    (p : FieldDefinition → Bool) (xs : List FieldDefinition)
    → any p xs ≡ true
    → (f : FieldDefinition) × Memᴰ f xs × (p f ≡ true)
any-mem p [] h = ground arith
any-mem p (x ∷ xs) h = elim (Bool-cases (p x)) [
  | inl here ↦ (x, Memᴰ.head refl, here)
  | inr skipped ↦ let (f, m, passes) = any-mem p xs (ground arith) in (f, Memᴰ.tail m, passes)
]

visible_tier :
    (tier : Option AccessTier) (f : FieldDefinition)
    → visible tier f ≡ true
    → (f.access_tier ≡ public) ⊎ (tier ≡ some f.access_tier)
visible_tier none f h = ground arith
visible_tier (some t) f h = ground arith

map-mem :
    (vs : List CanonicalValue) {d : PublicValue}
    → Memᴰ d (map disclosed vs)
    → (v : CanonicalValue) × Memᴰ v vs × (d ≡ disclosed v)
map-mem [] m = elim m [ ]
map-mem (v ∷ vs) (Memᴰ.head e) = (v, Memᴰ.head refl, e)
map-mem (v ∷ vs) (Memᴰ.tail m) = let (w, listed, e) = map-mem vs m in (w, Memᴰ.tail listed, e)

-- A field of the catalogue that the tier may see.
pub record IsDisclosable (tier : Option AccessTier) (id : ℕ) : Type 0 where
  pub definition : FieldDefinition
  pub catalogued : Memᴰ definition fields
  pub identifier : definition.id ≡ id
  pub seen : (definition.access_tier ≡ public) ⊎ (tier ≡ some definition.access_tier)

allowed-IsDisclosable :
    (tier : Option AccessTier) (id : ℕ) → is_allowed tier id ≡ true → IsDisclosable tier id
unfolding is_allowed
allowed-IsDisclosable tier id h =
    let (f, m, same) =
      any-mem (λ (f : FieldDefinition). f.id == id) (keep (visible tier) fields) h in
    let (listed, sees) = mem-keep (visible tier) fields m in
    record {
      definition = f;
      catalogued = listed;
      identifier = ground arith;
      seen = visible_tier tier f sees;
    }

-- Every value that the projection shows is a value of the passport, without its evidence, source and
-- status, and belongs to a data point that the catalogue makes public or gives to the reader's tier.
pub project_passport-IsDisclosable :
    (c : CanonicalPassport) (tier : Option AccessTier) (d : PublicValue)
    → Memᴰ d (project_passport c tier).values
    → (v : CanonicalValue) × Memᴰ v c.values × (d ≡ disclosed v) × IsDisclosable tier d.field_id
unfolding project_passport
project_passport-IsDisclosable c tier d m =
    let (v, kept, e) =
      map-mem (keep (λ (v : CanonicalValue). is_allowed tier v.field_id) c.values) m in
    let (listed, allowed) =
      mem-keep (λ (v : CanonicalValue). is_allowed tier v.field_id) c.values kept in
    (v, listed, e, rw e (allowed-IsDisclosable tier v.field_id allowed))
