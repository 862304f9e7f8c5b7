-- ===== src/Web/PublicPassport/Hiding.antt =====
-- What the page can show: only public data points, each once, and in their values no private key at
-- any depth.
use mathlib.Core.List.Perm
use codex_nieuw.Prelude.{
  ℕ, suc, ◌<◌, ◌==◌, All, Perm, subst, Bool-cases, ◌≡◌, ◌⊎◌, inl, inr, refl, sym, ap, Bool, true,
  false, not, ◌&&◌, Option, none, some, List, [], ◌∷◌, arith, Option-cases, ltb, if◌then◌else◌,
  elem,
}
use codex_nieuw.Json.{
  Text, Json, null, bool, num, str, arr, obj, Elements, nil, cons, Members, end, member,
}
use codex_nieuw.Rules.Catalogue.{fields}
use codex_nieuw.Rules.Engine.{public_field_ids}
use codex_nieuw.Web.PublicPassport.{
  is_private, public_value, public_elements, public_members, add_element, add_member, as_array,
  as_object, count_elements, ShownValue, PassportView, insert_shown, sort_shown, view_of,
  project_entries, project_public_passport, name_of, get, projected, shown_of, add_shown, public_id,
  shown_values,
}

-- No object of the value has a private key.
mutual
  pub hides : Json → Bool
  hides (arr xs) = hides_elements xs
  hides (obj ms) = hides_members ms
  hides _ = true

  pub hides_elements : Elements → Bool
  hides_elements nil = true
  hides_elements (cons x xs) = hides x && hides_elements xs

  pub hides_members : Members → Bool
  hides_members end = true
  hides_members (member k x ms) = not (is_private k) && (hides x && hides_members ms)

arr_shape :
    (b : Bool) (o : Option Elements) {y : Json}
    → (if b then none else as_array o) ≡ some y
    → (ys : Elements) × (o ≡ some ys) × (y ≡ arr ys)
arr_shape true o h = ground arith
arr_shape false none h = ground arith
arr_shape false (some ys) h = (ys, refl, ground arith)

obj_shape :
    (b : Bool) (o : Option Members) {y : Json}
    → (if b then none else as_object o) ≡ some y
    → (ns : Members) × (o ≡ some ns) × (y ≡ obj ns)
obj_shape true o h = ground arith
obj_shape false none h = ground arith
obj_shape false (some ns) h = (ns, refl, ground arith)

str_shape : (b : Bool) (x : Json) {y : Json} → (if b then none else some x) ≡ some y → y ≡ x
str_shape true x h = ground arith
str_shape false x h = ground arith

cons_shape :
    (o : Option Json) (p : Option Elements) {ys : Elements}
    → add_element o p ≡ some ys
    → (y : Json) × (zs : Elements) × (o ≡ some y) × (p ≡ some zs) × (ys ≡ cons y zs)
cons_shape none p h = ground arith
cons_shape (some y) none h = ground arith
cons_shape (some y) (some zs) h = (y, zs, refl, refl, ground arith)

member_shape :
    (k : Text) (o : Option Json) (p : Option Members) {ns : Members}
    → add_member k o p ≡ some ns
    → (y : Json) × (zs : Members) × (o ≡ some y) × (p ≡ some zs) × (ns ≡ member k y zs)
member_shape k none p h = ground arith
member_shape k (some y) none h = ground arith
member_shape k (some y) (some zs) h = (y, zs, refl, refl, ground arith)

choice_shape :
    {A : Type 0} (b : Bool) (o p : Option A) {a : A}
    → (if b then o else p) ≡ some a
    → ((b ≡ true) × (o ≡ some a)) ⊎ ((b ≡ false) × (p ≡ some a))
choice_shape true o p h = inl (refl, h)
choice_shape false o p h = inr (refl, h)

hides_member :
    (k : Text) (y : Json) (zs : Members)
    → is_private k ≡ false
    → hides y ≡ true
    → hides_members zs ≡ true
    → hides_members (member k y zs) ≡ true
unfolding hides
hides_member k y zs a b c = rw (a, b, c) refl

mutual
  unfolding public_value hides

  public_value-hides : (depth : ℕ) (x y : Json) → public_value depth x ≡ some y → hides y ≡ true
  public_value-hides depth null y h = rw (str_shape (ltb 10 depth) null h) refl
  public_value-hides depth (bool b) y h = rw (str_shape (ltb 10 depth) (bool b) h) refl
  public_value-hides depth (num n) y h = rw (str_shape _ (num n) h) refl
  public_value-hides depth (str t) y h = rw (str_shape _ (str t) h) refl
  public_value-hides depth (arr xs) y h =
      let (ys, made, e) = arr_shape _ (public_elements (suc depth) xs) h in
      rw e (public_elements-hides (suc depth) xs ys made)
  public_value-hides depth (obj ms) y h =
      let (ns, made, e) = obj_shape _ (public_members (suc depth) ms) h in
      rw e (public_members-hides (suc depth) ms ns made)

  public_elements-hides :
      (depth : ℕ) (xs ys : Elements) → public_elements depth xs ≡ some ys → hides_elements ys ≡ true
  public_elements-hides depth nil ys h = let e : ys ≡ nil = ground arith in rw e refl
  public_elements-hides depth (cons x xs) ys h =
      let (y, zs, shown, made, e) =
        cons_shape (public_value depth x) (public_elements depth xs) h in
      rw (e, public_value-hides depth x y shown) (public_elements-hides depth xs zs made)

  public_members-hides :
      (depth : ℕ) (ms ns : Members) → public_members depth ms ≡ some ns → hides_members ns ≡ true
  public_members-hides depth end ns h = let e : ns ≡ end = ground arith in rw e refl
  public_members-hides depth (member k x ms) ns h =
      elim (choice_shape (is_private k) (public_members depth ms)
        (add_member k (public_value depth x) (public_members depth ms)) h) [
          | inl (dropped, rest) ↦ public_members-hides depth ms ns rest
          | inr (kept, both) ↦
              let (y, zs, shown, made, e) =
                member_shape k (public_value depth x) (public_members depth ms) both in
              rw e (
                hides_member k y zs kept (public_value-hides depth x y shown)
                  (public_members-hides depth ms zs made))
        ]

-- Values that may be shown: of public data points that no earlier value has, and hiding every private
-- key.
abbrev AreShown : List ℕ → List ShownValue → Type 0
AreShown seen [] = Unit {0}
AreShown seen (v ∷ vs) =
    (elem v.field_id (public_field_ids fields) ≡ true)
    × (elem v.field_id seen ≡ false)
    × (hides v.value ≡ true)
    × AreShown (v.field_id ∷ seen) vs

-- The values stand in the order of their numbers, each number once.
abbrev pub IsOrdered : List ShownValue → Type 0
IsOrdered [] = Unit {0}
IsOrdered (v ∷ vs) = All (λ (w : ShownValue). v.field_id < w.field_id) vs × IsOrdered vs

-- A value may be shown.
abbrev pub IsPublicValue : ShownValue → Type 0
IsPublicValue v = (elem v.field_id (public_field_ids fields) ≡ true) × (hides v.value ≡ true)

insert_shown-perm : (v : ShownValue) (ws : List ShownValue) → Perm (insert_shown v ws) (v ∷ ws)
unfolding insert_shown
insert_shown-perm v [] = Perm.refl (v ∷ [])
insert_shown-perm v (w ∷ ws) = elim (Bool-cases (ltb w.field_id v.field_id)) [
  | inl later ↦ rw later (Perm.trans (Perm.cons _ (insert_shown-perm v ws)) (Perm.swap _ _ _))
  | inr here ↦ rw here (Perm.refl (v ∷ w ∷ ws))
]

sort_shown-perm : (vs : List ShownValue) → Perm (sort_shown vs) vs
unfolding sort_shown
sort_shown-perm [] = Perm.refl []
sort_shown-perm (v ∷ vs) =
    Perm.trans (insert_shown-perm v (sort_shown vs)) (Perm.cons _ (sort_shown-perm vs))

insert_shown-All :
    (P : ShownValue → Type 0) (v : ShownValue) (ws : List ShownValue)
    → P v
    → All P ws
    → All P (insert_shown v ws)
unfolding insert_shown
insert_shown-All P v [] h k = (h, tt)
insert_shown-All P v (w ∷ ws) h k = elim (Bool-cases (ltb w.field_id v.field_id)) [
  | inl later ↦ rw later (k.0, insert_shown-All P v ws h k.1)
  | inr here ↦ rw here (h, k)
]

sort_shown-All : (P : ShownValue → Type 0) (vs : List ShownValue) → All P vs → All P (sort_shown vs)
unfolding sort_shown
sort_shown-All P [] h = tt
sort_shown-All P (v ∷ vs) h = insert_shown-All P v (sort_shown vs) h.0 (sort_shown-All P vs h.1)

all_above :
    (m n : ℕ) (ws : List ShownValue)
    → m < n
    → All (λ (x : ShownValue). n < x.field_id) ws
    → All (λ (x : ShownValue). m < x.field_id) ws
all_above m n [] h k = tt
all_above m n (w ∷ ws) h k = (omega arith, all_above m n ws h k.1)

insert_shown-IsOrdered :
    (v : ShownValue) (ws : List ShownValue)
    → All (λ (w : ShownValue). (w.field_id == v.field_id) ≡ false) ws
    → IsOrdered ws
    → IsOrdered (insert_shown v ws)
unfolding insert_shown
insert_shown-IsOrdered v [] apart h = (tt, tt)
insert_shown-IsOrdered v (w ∷ ws) apart h = elim (Bool-cases (ltb w.field_id v.field_id)) [
  | inl later ↦
      let less : w.field_id < v.field_id = ground arith in
      rw later (
        insert_shown-All (λ (x : ShownValue). w.field_id < x.field_id) v ws less h.0,
        insert_shown-IsOrdered v ws apart.1 h.1,
      )
  | inr here ↦
      let other = apart.0 in
      let less : v.field_id < w.field_id = ground arith in
      rw here ((less, all_above v.field_id w.field_id ws less h.0), h)
]

shown_apart :
    (n : ℕ) (seen : List ℕ) (vs : List ShownValue)
    → elem n seen ≡ true
    → AreShown seen vs
    → All (λ (w : ShownValue). (w.field_id == n) ≡ false) vs
shown_apart n seen [] h k = tt
shown_apart n seen (v ∷ vs) h k =
    let fresh = k.1 in
    (
      elim (Bool-cases (v.field_id == n)) [
        | inl same ↦
            let e : v.field_id ≡ n = ground arith in
            absurd (true_false (subst (λ (m : ℕ). elem m seen ≡ true) (sym e) h) fresh)
        | inr other ↦ other
      ],
      shown_apart n (v.field_id ∷ seen) vs (ground arith) k.3,
    )
  where
    true_false : {b : Bool} → b ≡ true → b ≡ false → ⊥
    true_false a b = cc

sort_shown-IsOrdered :
    (seen : List ℕ) (vs : List ShownValue) → AreShown seen vs → IsOrdered (sort_shown vs)
unfolding sort_shown
sort_shown-IsOrdered seen [] h = tt
sort_shown-IsOrdered seen (v ∷ vs) h =
    insert_shown-IsOrdered v (sort_shown vs)
      (sort_shown-All (λ (w : ShownValue). (w.field_id == v.field_id) ≡ false) vs
        (shown_apart v.field_id (v.field_id ∷ seen) vs (ground arith) h.3))
      (sort_shown-IsOrdered (v.field_id ∷ seen) vs h.3)

shown_public : (seen : List ℕ) (vs : List ShownValue) → AreShown seen vs → All IsPublicValue vs
shown_public seen [] h = tt
shown_public seen (v ∷ vs) h = ((h.0, h.2), shown_public (v.field_id ∷ seen) vs h.3)

module _ (integer_of : ℕ → Option ℕ) (parses_date : Text → Bool) where
  id_known :
      (o : Option ℕ) {id : ℕ}
      → (elim o [
        | none ↦ none
        | some n ↦ if elem n (public_field_ids fields) then some n else none
      ])
        ≡ some id
      → elem id (public_field_ids fields) ≡ true
  id_known none h = ground arith
  id_known (some n) {id} h =
      elim (choice_shape (elem n (public_field_ids fields)) (some n) none h) [
        | inl (public_one, e) ↦ let same : n ≡ id = ground arith in rw same at public_one
        | inr (other, e) ↦ ground arith
      ]

  shown_shape :
      (id : ℕ) (unit : Option Text) (o : Option Json) (p : Option (List ShownValue))
      {vs : List ShownValue}
      → add_shown (shown_of id unit o) p ≡ some vs
      → (v : ShownValue) × (y : Json) × (rest : List ShownValue) × (o ≡ some y)
        × (p ≡ some rest)
        × (v.field_id ≡ id)
        × (v.value ≡ y)
        × (vs ≡ v ∷ rest)
  shown_shape id unit none p h = ground arith
  shown_shape id unit (some y) none h = ground arith
  shown_shape id unit (some y) (some rest) h =
      let v : ShownValue = record { field_id = id; name = name_of id; value = y; unit = unit } in
      (v, y, rest, refl, refl, refl, refl, ground arith)

  projected-hides : (o : Option Json) {y : Json} → projected o ≡ some y → hides y ≡ true
  projected-hides none h = ground arith
  projected-hides (some x) {y} h = public_value-hides 0 x y h

  -- The loop keeps only such values.
  shown_values-AreShown :
      (seen : List ℕ) (entries : Elements) (shown : List ShownValue)
      → shown_values integer_of parses_date seen entries ≡ some shown
      → AreShown seen shown
  unfolding shown_values
  shown_values-AreShown seen nil shown h = let e : shown ≡ [] = ground arith in rw e tt
  shown_values-AreShown seen (cons entry entries) shown h =
      elim (Option-cases (public_id integer_of parses_date entry)) [
        | inl skipped ↦ shown_values-AreShown seen entries shown (rw (shown_values, skipped) at h)
        | inr (id, known) ↦
            elim (choice_shape (elem id seen) none _ (rw (shown_values, known) at h)) [
              | inl (again, refused) ↦ ground arith
              | inr (first, both) ↦
                  let (v, y, rest, value, later, own, is_value, e) =
                    shown_shape id _ (projected (get "value" entry))
                      (shown_values integer_of parses_date (id ∷ seen) entries) both in
                  let ih = shown_values-AreShown (id ∷ seen) entries rest later in
                  rw (e, own, is_value)
                    (id_known _ known, first, projected-hides (get "value" entry) value, ih)
            ]
      ]

  view_shape :
      (id : Text) (raw : Json) (m s : Option Text) (o : Option (List ShownValue))
      {view : PassportView}
      → view_of integer_of parses_date id raw m s o ≡ some view
      → (shown : List ShownValue) × (o ≡ some shown) × (view.values ≡ sort_shown shown)
  view_shape id raw (some m) (some s) (some (v ∷ vs)) h = (v ∷ vs, refl, sym (ap shown_in h))
    where
      shown_in : Option PassportView → List ShownValue
      shown_in none = []
      shown_in (some w) = w.values
  view_shape id raw m s (some []) h = ground arith
  view_shape id raw m s none h = ground arith
  view_shape id raw none s (some (v ∷ vs)) h = ground arith
  view_shape id raw (some m) none (some (v ∷ vs)) h = ground arith

  entries_shape :
      (id : Text) (raw : Json) (values : Option Json) {view : PassportView}
      → project_entries integer_of parses_date id raw values ≡ some view
      → (entries : Elements) × (shown : List ShownValue) × (values ≡ some (arr entries))
        × (shown_values integer_of parses_date [] entries ≡ some shown)
        × (view.values ≡ sort_shown shown)
  entries_shape id raw (some (arr entries)) h =
      elim (choice_shape (ltb 71 (count_elements entries)) none _ h) [
        | inl (many, refused) ↦ ground arith
        | inr (few, made) ↦
            let (shown, e, values) =
              view_shape id raw _ _ (shown_values integer_of parses_date [] entries) made in
            (entries, shown, refl, e, values)
      ]
  entries_shape id raw none h = ground arith
  entries_shape id raw (some null) h = ground arith
  entries_shape id raw (some (bool b)) h = ground arith
  entries_shape id raw (some (num n)) h = ground arith
  entries_shape id raw (some (str t)) h = ground arith
  entries_shape id raw (some (obj ms)) h = ground arith

  -- Whatever JSON the API answers, a page that is shown has its values in the order of their numbers,
  -- each number once; each is of a public data point of the catalogue, and no object in it, at any
  -- depth, has a private key; and they are exactly the values that the loop has read from the entries
  -- of the answer.
  pub project_public_passport-AreShown :
      (raw : Json) (expected : Text) (view : PassportView)
      → project_public_passport integer_of parses_date raw expected ≡ some view
      → (entries : Elements) × (shown : List ShownValue) × All IsPublicValue view.values
        × IsOrdered view.values
        × (get "values" raw ≡ some (arr entries))
        × (shown_values integer_of parses_date [] entries ≡ some shown)
        × Perm view.values shown
  unfolding project_public_passport
  project_public_passport-AreShown raw expected view h =
      elim (choice_shape _ (project_entries integer_of parses_date expected raw (get "values" raw))
        none h) [
          | inr (other, refused) ↦ ground arith
          | inl (allowed, made) ↦
              let (entries, shown, read, e, values) =
                entries_shape expected raw (get "values" raw) made in
              let fine = shown_values-AreShown [] entries shown e in
              (
                entries,
                shown,
                rw values (sort_shown-All IsPublicValue shown (shown_public [] shown fine)),
                rw values (sort_shown-IsOrdered [] shown fine),
                read,
                e,
                rw values (sort_shown-perm shown),
              )
        ]
