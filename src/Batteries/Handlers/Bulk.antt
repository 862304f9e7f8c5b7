-- ===== src/Batteries/Handlers/Bulk.antt =====
-- A bulk import creates items only of the organisation's own models.
use codex_nieuw.Prelude.{
  ℕ, ◌+◌, ◌≤◌, ◌≡◌, inl, inr, refl, ◌∙◌, true, false, List, [], ◌∷◌, ◌++◌, arith, Bool-cases, ◌==◌,
  elem, distinct, map, length, count_where, All,
}
use codex_nieuw.Prelude.Outcome.{ok, >>=-eq-ok, require, require-eq-ok, foreign_model}
use codex_nieuw.Rules.Types.{Requirement}
use codex_nieuw.Rules.StateMachine.{draft}
use codex_nieuw.Store.Rows.{LifecycleStatus, BatteryModel, BatteryItem, Db}
use codex_nieuw.Store.Queries.{owns_model}
use codex_nieuw.Tenant.Access.{Actor}
use codex_nieuw.Batteries.Handlers.{ItemBody, unique, model_ids, owns_one_of, new_items, bulk}

abbrev ids_of : List BatteryModel → List ℕ
ids_of models = map (λ (m : BatteryModel). m.id) models

-- a number that no model has is counted nowhere, and any number at most once
count-none :
    (o x : ℕ) (models : List BatteryModel)
    → elem x (ids_of models) ≡ false
    → count_where (owns_model o x) models ≡ 0
count-none o x [] h = refl
count-none o x (m ∷ models) h = let ih = count-none o x models in ground (arith, ih)

count-once :
    (o x : ℕ) (models : List BatteryModel)
    → distinct (ids_of models) ≡ true
    → count_where (owns_model o x) models ≤ 1
count-once o x [] h = omega arith
count-once o x (m ∷ models) h =
    let ih = count-once o x models in
    let gone = count-none o m.id models in
    elim (Bool-cases (m.id == x)) [
      | inl same ↦
          let e : m.id ≡ x = ground arith in
          let none_left : count_where (owns_model o x) models ≡ 0 = rw e at (gone (ground arith)) in
          ground arith
      | inr other ↦ let less = ih (ground arith) in ground arith
    ]

count-split :
    (o x : ℕ) (ids : List ℕ) (models : List BatteryModel)
    → elem x ids ≡ false
    → count_where (owns_one_of o (x ∷ ids)) models
      ≡ count_where (owns_model o x) models + count_where (owns_one_of o ids) models
count-split o x ids [] h = refl
count-split o x ids (m ∷ models) h =
    let ih = count-split o x ids models h in
    elim (Bool-cases (m.id == x)) [
      | inl same ↦
          let e : x ≡ m.id = ground arith in
          let apart : elem m.id ids ≡ false = rw e at h in ground arith
      | inr other ↦ ground arith
    ]

count-empty : (o : ℕ) (models : List BatteryModel) → count_where (owns_one_of o []) models ≡ 0
count-empty o [] = refl
count-empty o (m ∷ models) = let ih = count-empty o models in ground arith

count-bound :
    (o : ℕ) (ids : List ℕ) (models : List BatteryModel)
    → distinct ids ≡ true
    → distinct (ids_of models) ≡ true
    → count_where (owns_one_of o ids) models ≤ length ids
count-bound o [] models h k = omega (arith, count-empty o models)
count-bound o (x ∷ ids) models h k =
    let ih = count-bound o ids models (ground arith) k in
    let one = count-once o x models k in
    let split = count-split o x ids models (ground arith) in omega arith

-- The organisation has each of the models.
abbrev pub OwnsAll : ℕ → List BatteryModel → List ℕ → Type 0
OwnsAll organisation_id models ids =
    All (λ id. count_where (owns_model organisation_id id) models ≡ 1) ids

count-full :
    (o : ℕ) (ids : List ℕ) (models : List BatteryModel)
    → distinct ids ≡ true
    → distinct (ids_of models) ≡ true
    → count_where (owns_one_of o ids) models ≡ length ids
    → OwnsAll o models ids
count-full o [] models h k e = tt
count-full o (x ∷ ids) models h k e =
    let less = count-bound o ids models (ground arith) k in
    let one = count-once o x models k in
    let split = count-split o x ids models (ground arith) in
    (omega arith, count-full o ids models (ground arith) k (omega arith))

elem-unique : (x : ℕ) (xs : List ℕ) → elem x (unique xs) ≡ elem x xs
elem-unique x [] = refl
elem-unique x (y ∷ xs) =
    let ih = elem-unique x xs in
    elim (Bool-cases (elem y xs)) [
      | inl again ↦ elim (Bool-cases (y == x)) [
        | inl same ↦
            let e : y ≡ x = ground arith in
            let known : elem x xs ≡ true = rw e at again in ground arith
        | inr other ↦ ground arith
      ]
      | inr new_one ↦ ground arith
    ]

distinct-unique : (xs : List ℕ) → distinct (unique xs) ≡ true
distinct-unique [] = refl
distinct-unique (x ∷ xs) = let ih = distinct-unique xs in let e = elem-unique x xs in ground arith

All-elem : (P : ℕ → Type 0) (x : ℕ) (ids : List ℕ) → All P ids → elem x ids ≡ true → P x
All-elem P x [] h e = absurd (ground arith)
All-elem P x (y ∷ ids) h e = elim (Bool-cases (y == x)) [
  | inl same ↦ let q : y ≡ x = ground arith in rw q at h.0
  | inr other ↦ All-elem P x ids h.1 (ground arith)
]

all_models :
    (o : ℕ) (models : List BatteryModel) (ids xs : List ℕ)
    → OwnsAll o models ids
    → ((x : ℕ) → elem x xs ≡ true → elem x ids ≡ true)
    → OwnsAll o models xs
all_models o models ids [] h sub = tt
all_models o models ids (x ∷ xs) h sub =
    let here : elem x ids ≡ true = sub x (ground arith) in
    (
      All-elem (λ id. count_where (owns_model o id) models ≡ 1) x ids h here,
      all_models o models ids xs h (λ y e. sub y (ground arith)),
    )

module _ (digest : List (ℕ × Requirement) → ℕ) (time : ℕ → ℕ) (uuid : ℕ → ℕ) (actor : Actor) where
  -- One draft item of the organisation for each body, in order, with what the body says.
  abbrev pub AreItems : ℕ → List ItemBody → List BatteryItem → Type 0
  AreItems organisation_id [] [] = Unit {0}
  AreItems organisation_id [] (i ∷ items) = ⊥
  AreItems organisation_id (b ∷ bodies) [] = ⊥
  AreItems organisation_id (b ∷ bodies) (i ∷ items) =
      (i.organisation_id ≡ organisation_id)
      × (i.model_id ≡ b.model_id)
      × (i.serial ≡ b.serial)
      × (i.batch ≡ b.batch)
      × (i.upi ≡ b.upi)
      × (i.manufacture_date ≡ b.manufacture_date)
      × (i.lifecycle_status ≡ LifecycleStatus.original)
      × (i.passport_state ≡ draft)
      × AreItems organisation_id bodies items

  new_items-AreItems :
      (n o : ℕ) (bodies : List ItemBody)
      → AreItems o bodies (new_items digest time uuid actor n o bodies)
  unfolding new_items
  new_items-AreItems n o [] = tt
  new_items-AreItems n o (b ∷ bodies) =
      (refl, refl, refl, refl, refl, refl, refl, refl, new_items-AreItems (n + 2) o bodies)

  -- An accepted import appends one draft item of the organisation for each body, in their order and
  -- with the body's model, serial, batch, UPI and date of manufacture, and every model that a body
  -- names is exactly one model of the organisation, where models have different numbers.
  pub bulk_lem :
      (organisation_id : ℕ) (bodies : List ItemBody) (db : Db) (created : List BatteryItem)
      (new : Db)
      → bulk digest time uuid actor organisation_id bodies db ≡ ok (created, new)
      → distinct (map (λ (m : BatteryModel). m.id) db.models) ≡ true
      → (new.items ≡ db.items ++ created)
        × AreItems organisation_id bodies created
        × OwnsAll organisation_id db.models (model_ids bodies)
  unfolding bulk
  bulk_lem o bodies db created new h apart =
      let ids = unique (model_ids bodies) in
      let (u, counted, h1) =
        >>=-eq-ok (require (count_where (owns_one_of o ids) db.models == length ids) foreign_model)
          _ h in
      let test = require-eq-ok _ _ counted in
      let full : count_where (owns_one_of o ids) db.models ≡ length ids = ground arith in
      let rows = new_items-AreItems 0 o bodies in
      let made : created ≡ new_items digest time uuid actor 0 o bodies = ground arith in
      (
        ground arith,
        rw made rows,
        all_models o db.models ids (model_ids bodies)
            (count-full o ids db.models (distinct-unique (model_ids bodies)) apart full)
            (λ x e. elem-unique x (model_ids bodies) ∙ e),
      )
