-- ===== src/Canonical/Order.antt =====
-- The order of keys is a strict total order, so the order of insertion does not matter.
use codex_nieuw.Prelude.{
  ◌≡◌, ◌≢◌, ◌⊎◌, inl, inr, refl, true, false, List, [], ◌∷◌, arith, ◌==◌, Bool-cases,
}
use codex_nieuw.Json.{Text}
use codex_nieuw.Canonical.{text_lt, Entry, insert}

text_lt_total : (a b : Text) → a ≢ b → (text_lt a b ≡ true) ⊎ (text_lt b a ≡ true)
text_lt_total [] [] d = absurd (d refl)
text_lt_total [] (y ∷ ys) d = inl refl
text_lt_total (x ∷ xs) [] d = inr refl
text_lt_total (x ∷ xs) (y ∷ ys) d = elim (Bool-cases (x == y)) [
  | inl same ↦
      let here : x ≡ y = ground arith in
      let later = text_lt_total xs ys (λ e. d (cc (here, e))) in ground arith
  | inr other ↦ ground arith
]

text_lt_asym : (a b : Text) → text_lt a b ≡ true → text_lt b a ≡ false
text_lt_asym [] [] h = refl
text_lt_asym [] (y ∷ ys) h = refl
text_lt_asym (x ∷ xs) [] h = ground arith
text_lt_asym (x ∷ xs) (y ∷ ys) h = ground (arith, text_lt_asym xs ys)

text_lt_trans : (a b c : Text) → text_lt a b ≡ true → text_lt b c ≡ true → text_lt a c ≡ true
text_lt_trans [] (y ∷ ys) (z ∷ zs) h k = refl
text_lt_trans (x ∷ xs) (y ∷ ys) (z ∷ zs) h k = ground (arith, text_lt_trans xs ys zs)
text_lt_trans _ _ _ h k = ground arith

-- Two members with different keys may be inserted in either order.
pub insert_comm :
    (k j v w : Text) (l : List Entry)
    → k ≢ j
    → insert k v (insert j w l) ≡ insert j w (insert k v l)
unfolding insert
insert_comm k j v w [] d = elim (text_lt_total k j d) [
  | inl lt ↦ rw (lt, text_lt_asym k j lt)
  | inr gt ↦ rw (gt, text_lt_asym j k gt)
]
insert_comm k j v w ((i, u) ∷ l) d =
    let ih = insert_comm k j v w l d in
    let total = text_lt_total k j d in
    let kj = text_lt_asym k j in
    let jk = text_lt_asym j k in
    let t1 = text_lt_trans i j k in
    let t2 = text_lt_trans i k j in ground (arith, ih, total, kj, jk, t1, t2)
