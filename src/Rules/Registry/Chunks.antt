-- ===== src/Rules/Registry/Chunks.antt =====
-- `chunkForRegistry` splits a list into batches without losing, repeating or reordering a record.
use codex_nieuw.Prelude.{
  ℕ, zero, suc, ◌+◌, ◌≤◌, ◌<◌, ◌≡◌, inl, inr, List, arith, ltb, length, drop, All, concat,
  take-append-drop, length-drop, length-take, drop-drop, drop-all, Bool-cases, ltb→lt,
}
use codex_nieuw.Prelude.Outcome.{ok}
use codex_nieuw.Rules.Registry.{chunks_from, chunk_for_registry}

-- A batch that may be sent: not empty and at most `max` records.
abbrev pub IsBatch {ℓ} : {A : Type ℓ} → ℕ → List A → Type 0
IsBatch max batch = (0 < length batch) × (length batch ≤ max)

module _ {ℓ} {A : Type ℓ} where
  chunks_from-concat :
      (fuel max i : ℕ) (items : List A)
      → 0 < max
      → length items < fuel + i
      → concat (chunks_from fuel max i items) ≡ drop i items
  unfolding chunks_from
  chunks_from-concat zero max i items p h = rw (drop-all i items (omega arith))
  chunks_from-concat (suc fuel) max i items p h = elim (Bool-cases (ltb i (length items))) [
    | inl more ↦
        rw
          (
            more,
            chunks_from-concat fuel max (i + max) items p (omega arith),
            ← drop-drop max i items,
          )
          (take-append-drop max (drop i items))
    | inr done ↦ rw (done, drop-all i items (ground arith))
  ]

  chunks_from-IsBatch :
      (fuel max i : ℕ) (items : List A) → 0 < max → All (IsBatch max) (chunks_from fuel max i items)
  unfolding chunks_from
  chunks_from-IsBatch zero max i items p = tt
  chunks_from-IsBatch (suc fuel) max i items p = elim (Bool-cases (ltb i (length items))) [
    | inl more ↦
        let room : i < length items = ltb→lt i (length items) more in
        rw more (
          (
            omega (arith, length-take max (drop i items), length-drop i items),
            omega (arith, length-take max (drop i items)),
          ),
          chunks_from-IsBatch fuel max (i + max) items p,
        )
    | inr done ↦ rw done tt
  ]

  -- For a batch size from 1 to 100 the batches, one after the other, are the items in their order,
  -- and each batch has at least one record and at most `max`.
  pub chunk_for_registry_lem :
      (items : List A) (max : ℕ)
      → 0 < max
      → max ≤ 100
      → (chunks : List (List A)) × (chunk_for_registry items max ≡ ok chunks)
        × (concat chunks ≡ items)
        × All (IsBatch max) chunks
  unfolding chunk_for_registry
  chunk_for_registry_lem items max p q = (
    chunks_from (suc (length items)) max 0 items,
    ground arith,
    chunks_from-concat (suc (length items)) max 0 items p (omega arith),
    chunks_from-IsBatch (suc (length items)) max 0 items p,
  )
