-- ===== src/Values/Rows.antt =====
-- Lists of rows: the last row that passes a test, and how an update changes the number that pass.
use codex_nieuw.Prelude.{
  ◌≤◌, ◌<◌, ◌≡◌, inl, inr, refl, Bool, true, false, Option, none, some, List, [], ◌∷◌, arith,
  Bool-cases, Option-cases, Memᴰ, count_where, update_where, if◌then◌else◌,
}

-- `orderBy: { createdAt: 'desc' }`: the last of the rows that pass.
abbrev pub last_where {ℓ} : {A : Type ℓ} → (A → Bool) → List A → Option A
last_where p [] = none
last_where p (x ∷ xs) = elim (last_where p xs) [
  | some y ↦ some y
  | none ↦ if p x then some x else none
]

module _ {ℓ} {A : Type ℓ} where
  pub last_where-none : (p : A → Bool) (xs : List A) → last_where p xs ≡ none → count_where p xs ≡ 0
  last_where-none p [] h = refl
  last_where-none p (x ∷ xs) h = ground (arith, last_where-none p xs)

  pub last_where-some :
      (p : A → Bool) (xs : List A) {a : A} → last_where p xs ≡ some a → Memᴰ a xs × (p a ≡ true)
  last_where-some p [] h = ground arith
  last_where-some p (x ∷ xs) {a} h = elim (Option-cases (last_where p xs)) [
    | inr (y, later) ↦
        let (listed, passes) = last_where-some p xs {a = a} (ground arith) in
        (Memᴰ.tail listed, passes)
    | inl alone ↦ (Memᴰ.head (ground arith), ground arith)
  ]

  -- Rewriting rows so that they fail a test leaves no more rows that pass it,
  pub count_where-update_where :
      (p q : A → Bool) (f : A → A)
      → ((a : A) → p a ≡ false → p (f a) ≡ false)
      → (xs : List A) → count_where p (update_where q f xs) ≤ count_where p xs
  count_where-update_where p q f h [] = omega arith
  count_where-update_where p q f h (x ∷ xs) =
      let ih = count_where-update_where p q f h xs in
      let hx = h x in
      elim (Bool-cases (p x)) [
        | inl passes ↦ ground arith
        | inr fails ↦ let gone = hx fails in ground arith
      ]

  -- and fewer when one of them passed before and its new row does not.
  pub count_where-closed :
      (p q : A → Bool) (f : A → A)
      → ((a : A) → p (f a) ≡ false)
      → (xs : List A) {a : A} → Memᴰ a xs
      → p a ≡ true
      → q a ≡ true
      → count_where p (update_where q f xs) < count_where p xs
  count_where-closed p q f h [] m pa qa = elim m [ ]
  count_where-closed p q f h (x ∷ xs) (Memᴰ.head e) pa qa =
      let fewer = count_where-update_where p q f (λ b _. h b) xs in
      let hx = h x in
      let px : p x ≡ true = rw (← e) pa in let qx : q x ≡ true = rw (← e) qa in ground arith
  count_where-closed p q f h (x ∷ xs) (Memᴰ.tail m) pa qa =
      let fewer = count_where-closed p q f h xs m pa qa in
      let hx = h x in
      elim (Bool-cases (q x)) [ inl rewritten ↦ ground arith | inr same ↦ ground arith ]
