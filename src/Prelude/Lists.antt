-- ===== src/Prelude/Lists.antt =====
-- Lists over the native numbers, under the library's names.
use Prim.Native.Nat.{ℕ, zero, suc, ◌+◌, ◌-◌, ◌≤◌, min}
use native.Mathlib.Nat.{zero-add, add-zero, suc-add}
use mathlib.Core.Path.{◌≡◌, refl}
use mathlib.Core.Logic.{◌⊎◌, inl, inr}
use mathlib.Core.Bool.{Bool, true, false, ◌&&◌, ◌||◌}
use mathlib.Core.Option.{Option, none, some}
use mathlib.Core.List.{List, [], ◌∷◌, ◌++◌, Memᴰ}
use native.Mathlib.Omega.{arith}
use package.codex_nieuw.Prelude.Tests.{◌==◌, if◌then◌else◌, Bool-cases}

module _ {ℓ} {A : Type ℓ} where
  abbrev pub length : List A → ℕ
  length [] = 0
  length (x ∷ xs) = suc (length xs)

  abbrev pub take : ℕ → List A → List A
  take zero xs = []
  take (suc n) [] = []
  take (suc n) (x ∷ xs) = x ∷ take n xs

  abbrev pub drop : ℕ → List A → List A
  drop zero xs = xs
  drop (suc n) [] = []
  drop (suc n) (x ∷ xs) = drop n xs

  -- `xs.some(p)` and `xs.every(p)`
  abbrev pub any : (A → Bool) → List A → Bool
  any p [] = false
  any p (x ∷ xs) = p x || any p xs

  abbrev pub all : (A → Bool) → List A → Bool
  all p [] = true
  all p (x ∷ xs) = p x && all p xs

  -- `xs.find(p)`, and a database's `findFirst` on rows in their order
  abbrev pub find? : (A → Bool) → List A → Option A
  find? p [] = none
  find? p (x ∷ xs) = if p x then some x else find? p xs

  -- `xs.filter(p)`
  abbrev pub keep : (A → Bool) → List A → List A
  keep p [] = []
  keep p (x ∷ xs) = let rest = keep p xs in if p x then x ∷ rest else rest

  -- `xs.filter(p).length`
  abbrev pub count_where : (A → Bool) → List A → ℕ
  count_where p [] = 0
  count_where p (x ∷ xs) = (if p x then 1 else 0) + count_where p xs

  -- a database's `updateMany`: the rows that pass the test are rewritten
  abbrev pub update_where : (A → Bool) → (A → A) → List A → List A
  update_where p f [] = []
  update_where p f (x ∷ xs) = (if p x then f x else x) ∷ update_where p f xs

  pub keep-append :
      (p : A → Bool) (xs : List A) (y : A)
      → keep p (xs ++ y ∷ []) ≡ keep p xs ++ (if p y then y ∷ [] else [])
  keep-append p [] y = refl
  keep-append p (x ∷ xs) y = ground (arith, keep-append p xs y)

  pub count_where-append :
      (p : A → Bool) (xs ys : List A)
      → count_where p (xs ++ ys) ≡ count_where p xs + count_where p ys
  count_where-append p [] ys = omega arith
  count_where-append p (x ∷ xs) ys = omega (arith, count_where-append p xs ys)

  pub length-append : (xs ys : List A) → length (xs ++ ys) ≡ length xs + length ys
  length-append [] ys = omega arith
  length-append (x ∷ xs) ys = omega (arith, length-append xs ys)

  pub take-append-drop : (n : ℕ) (xs : List A) → take n xs ++ drop n xs ≡ xs
  take-append-drop zero xs = refl
  take-append-drop (suc n) [] = refl
  take-append-drop (suc n) (x ∷ xs) = ground (arith, take-append-drop n xs)

  pub length-take-le : (n : ℕ) (xs : List A) → length (take n xs) ≤ n
  length-take-le zero xs = omega arith
  length-take-le (suc n) [] = omega arith
  length-take-le (suc n) (x ∷ xs) = omega (arith, length-take-le n xs)

  pub length-drop : (n : ℕ) (xs : List A) → length (drop n xs) ≡ length xs - n
  length-drop zero xs = omega arith
  length-drop (suc n) [] = omega arith
  length-drop (suc n) (x ∷ xs) = omega (arith, length-drop n xs)

  pub length-take : (n : ℕ) (xs : List A) → length (take n xs) ≡ min n (length xs)
  length-take zero xs = omega arith
  length-take (suc n) [] = omega arith
  length-take (suc n) (x ∷ xs) = omega (arith, length-take n xs)

  pub drop-drop : (n m : ℕ) (xs : List A) → drop n (drop m xs) ≡ drop (m + n) xs
  drop-drop n zero xs = rw zero-add
  drop-drop zero (suc m) [] = rw add-zero
  drop-drop (suc n) (suc m) [] = rw suc-add
  drop-drop n (suc m) (x ∷ xs) = rw suc-add (drop-drop n m xs)

  pub drop-all : (n : ℕ) (xs : List A) → length xs ≤ n → drop n xs ≡ []
  drop-all zero [] h = refl
  drop-all zero (x ∷ xs) h = absurd (omega arith)
  drop-all (suc n) [] h = refl
  drop-all (suc n) (x ∷ xs) h = drop-all n xs (omega arith)

  -- `lists.flat()`
  abbrev pub concat : List (List A) → List A
  concat [] = []
  concat (xs ∷ rest) = xs ++ concat rest

  -- what `find?` returns passes the test
  pub find?_sound : (p : A → Bool) (xs : List A) {a : A} → find? p xs ≡ some a → p a ≡ true
  find?_sound p [] h = ground arith
  find?_sound p (x ∷ xs) h = elim (Bool-cases (p x)) [
    | inl yes_here ↦ ground arith
    | inr other ↦ find?_sound p xs (ground arith)
  ]

  mem_split : {a x : A} {xs : List A} → Memᴰ a (x ∷ xs) → (a ≡ x) ⊎ Memᴰ a xs
  mem_split (Memᴰ.head e) = inl e
  mem_split (Memᴰ.tail m) = inr m

  -- what `keep` keeps was there, and passes the test
  pub mem-keep :
      (p : A → Bool) (xs : List A) {a : A} → Memᴰ a (keep p xs) → Memᴰ a xs × (p a ≡ true)
  mem-keep p [] m = elim m [ ]
  mem-keep p (x ∷ xs) m = elim (Bool-cases (p x)) [
    | inl here ↦ elim (mem_split (rw here at m)) [
      | inl e ↦ (Memᴰ.head e, rw e here)
      | inr later ↦ let (listed, passes) = mem-keep p xs later in (Memᴰ.tail listed, passes)
    ]
    | inr skipped ↦
        let (listed, passes) = mem-keep p xs (rw skipped at m) in (Memᴰ.tail listed, passes)
  ]

  pub mem-find? : (p : A → Bool) (xs : List A) {a : A} → find? p xs ≡ some a → Memᴰ a xs
  mem-find? p [] e = ground arith
  mem-find? p (x ∷ xs) e = elim (Bool-cases (p x)) [
    | inl here ↦ Memᴰ.head (ground arith)
    | inr skipped ↦ Memᴰ.tail (mem-find? p xs (ground arith))
  ]

  -- an entry that passes the test is found, or an earlier one is
  pub find?-of_mem :
      (p : A → Bool) (xs : List A) {a : A}
      → Memᴰ a xs
      → p a ≡ true
      → (b : A) × (find? p xs ≡ some b)
  find?-of_mem p [] m h = elim m [ ]
  find?-of_mem p (x ∷ xs) m h = elim (Bool-cases (p x)) [
    | inl here ↦ (x, ground arith)
    | inr skipped ↦ elim (mem_split m) [
      | inl e ↦ absurd (cc)
      | inr later ↦ let (b, e) = find?-of_mem p xs later h in (b, ground arith)
    ]
  ]

-- `xs.includes(a)` on numbers
abbrev pub elem : ℕ → List ℕ → Bool
elem a [] = false
elem a (x ∷ xs) = x == a || elem a xs

-- `new Set(xs).size === xs.length`
abbrev pub distinct : List ℕ → Bool
distinct [] = true
distinct (x ∷ xs) = if elem x xs then false else distinct xs

module _ {ℓ κ} {A : Type ℓ} (P : A → Type κ) where
  -- every entry satisfies `P`
  abbrev pub All : List A → Type κ
  All [] = Unit
  All (x ∷ xs) = P x × All xs

  pub All-append : (xs ys : List A) → All xs → All ys → All (xs ++ ys)
  All-append [] ys h k = k
  All-append (x ∷ xs) ys h k = (h.0, All-append xs ys h.1 k)

-- Two lists, entry by entry.
abbrev pub Rowwise {ℓ} : {A : Type ℓ} → (A → A → Type 0) → List A → List A → Type 0
Rowwise R [] [] = Unit {0}
Rowwise R [] (y ∷ ys) = ⊥
Rowwise R (x ∷ xs) [] = ⊥
Rowwise R (x ∷ xs) (y ∷ ys) = R x y × Rowwise R xs ys
