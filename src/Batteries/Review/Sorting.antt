-- ===== src/Batteries/Review/Sorting.antt =====
-- Sorting the numbers of data points: the order of `sort_ids`, and what it keeps.
use codex_nieuw.Prelude.{
  ℕ, ◌≤◌, ◌≡◌, inl, inr, refl, ◌∙◌, true, false, ◌||◌, some, List, [], ◌∷◌, arith, Bool-cases, ltb,
  ◌==◌, elem, distinct, All, map,
}
use codex_nieuw.Batteries.Review.{insert_id, sort_ids, same_ids, integers}

abbrev pub Sorted : List ℕ → Type 0
Sorted [] = Unit {0}
Sorted (x ∷ xs) = All (λ y. x ≤ y) xs × Sorted xs

All-le : (x y : ℕ) (xs : List ℕ) → x ≤ y → All (λ z. y ≤ z) xs → All (λ z. x ≤ z) xs
All-le x y [] h k = tt
All-le x y (z ∷ zs) h k = (omega arith, All-le x y zs h k.1)

insert_id-All :
    (b n : ℕ) (xs : List ℕ) → b ≤ n → All (λ z. b ≤ z) xs → All (λ z. b ≤ z) (insert_id n xs)
unfolding insert_id
insert_id-All b n [] h k = (h, tt)
insert_id-All b n (x ∷ xs) h k = elim (Bool-cases (ltb x n)) [
  | inl later ↦ rw later (k.0, insert_id-All b n xs h k.1)
  | inr here ↦ rw here (h, k)
]

insert_id-Sorted : (n : ℕ) (xs : List ℕ) → Sorted xs → Sorted (insert_id n xs)
unfolding insert_id
insert_id-Sorted n [] h = (tt, tt)
insert_id-Sorted n (x ∷ xs) h = elim (Bool-cases (ltb x n)) [
  | inl later ↦ rw later (insert_id-All x n xs (ground arith) h.0, insert_id-Sorted n xs h.1)
  | inr here ↦ let le : n ≤ x = ground arith in rw here ((le, All-le n x xs le h.0), h)
]

pub sort_ids-Sorted : (xs : List ℕ) → Sorted (sort_ids xs)
unfolding sort_ids
sort_ids-Sorted [] = tt
sort_ids-Sorted (x ∷ xs) = insert_id-Sorted x (sort_ids xs) (sort_ids-Sorted xs)

insert_id-least : (n : ℕ) (xs : List ℕ) → All (λ y. n ≤ y) xs → insert_id n xs ≡ n ∷ xs
unfolding insert_id
insert_id-least n [] h = refl
insert_id-least n (x ∷ xs) h = let first : ltb x n ≡ false = ground arith in rw first refl

pub sort_ids-fixed : (xs : List ℕ) → Sorted xs → sort_ids xs ≡ xs
unfolding sort_ids
sort_ids-fixed [] h = refl
sort_ids-fixed (x ∷ xs) h = rw (sort_ids-fixed xs h.1) (insert_id-least x xs h.0)

elem-insert_id : (a n : ℕ) (xs : List ℕ) → elem a (insert_id n xs) ≡ (n == a || elem a xs)
unfolding insert_id
elem-insert_id a n [] = refl
elem-insert_id a n (x ∷ xs) = let ih = elem-insert_id a n xs in ground arith

distinct-insert_id :
    (n : ℕ) (xs : List ℕ)
    → elem n xs ≡ false
    → distinct xs ≡ true
    → distinct (insert_id n xs) ≡ true
unfolding insert_id
distinct-insert_id n [] h k = refl
distinct-insert_id n (x ∷ xs) h k =
    let other = elem-insert_id x n xs in
    let ih = distinct-insert_id n xs in ground (arith, other, ih)

pub elem-sort_ids : (a : ℕ) (xs : List ℕ) → elem a (sort_ids xs) ≡ elem a xs
unfolding sort_ids
elem-sort_ids a [] = refl
elem-sort_ids a (x ∷ xs) = rw (elem-insert_id a x (sort_ids xs), elem-sort_ids a xs) refl

pub distinct-sort_ids : (xs : List ℕ) → distinct xs ≡ true → distinct (sort_ids xs) ≡ true
unfolding sort_ids
distinct-sort_ids [] h = refl
distinct-sort_ids (x ∷ xs) h =
    distinct-insert_id x (sort_ids xs) (elem-sort_ids x xs ∙ ground arith)
      (distinct-sort_ids xs (ground arith))

pub integers-some : (xs : List ℕ) → integers (map some xs) ≡ some xs
integers-some [] = refl
integers-some (x ∷ xs) = rw (integers-some xs) refl

pub same_ids_refl : (xs : List ℕ) → same_ids xs xs ≡ true
same_ids_refl [] = refl
same_ids_refl (x ∷ xs) = let ih = same_ids_refl xs in ground arith
