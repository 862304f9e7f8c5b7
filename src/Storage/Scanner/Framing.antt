-- ===== src/Storage/Scanner/Framing.antt =====
-- What the scanner's client writes, read back by the rules of the daemon's INSTREAM command.
use codex_nieuw.Prelude.{
  ℕ, zero, suc, ◌+◌, ◌*◌, ◌/◌, ◌%◌, ◌≤◌, ◌<◌, ◌≡◌, refl, ap, ◌⊎◌, inl, inr, false, Option, none,
  some, List, [], ◌∷◌, ◌++◌, ltb, ◌==◌, if◌then◌else◌, length, take, drop, concat, arith,
  Bool-cases, Option-cases, length-append,
}
use codex_nieuw.Storage.Clamd.{Bytes}
use codex_nieuw.Storage.Scanner.{be32, frames}

abbrev of_be32 : ℕ → ℕ → ℕ → ℕ → ℕ
of_be32 a b c d = a * 0x1000000 + b * 0x10000 + c * 0x100 + d

-- The daemon's side: chunks, each behind its length in four bytes, up to a length of zero. The fuel is
-- the number of chunks that may come.
unfoldable pub unframe : ℕ → Bytes → Option Bytes
unframe zero bytes = none
unframe (suc fuel) (a ∷ b ∷ c ∷ d ∷ rest) =
    let n = of_be32 a b c d in
    let later = unframe fuel (drop n rest) in
    if n == 0
    then (elim rest [ [] ↦ some [] | x ∷ xs ↦ none ])
    else if ltb (length rest) n
    then none
    else elim later [ none ↦ none | some bytes ↦ some (take n rest ++ bytes) ]
unframe (suc fuel) _ = none

be32_lem :
    (n : ℕ)
    → n < 0x100000000
    → of_be32 ((n / 0x1000000) % 256) ((n / 0x10000) % 256) ((n / 0x100) % 256) (n % 256) ≡ n
be32_lem n h = omega arith

take-append : (xs ys : Bytes) → take (length xs) (xs ++ ys) ≡ xs
take-append [] ys = refl
take-append (x ∷ xs) ys = ap (λ t. x ∷ t) (take-append xs ys)

drop-append : (xs ys : Bytes) → drop (length xs) (xs ++ ys) ≡ ys
drop-append [] ys = refl
drop-append (x ∷ xs) ys = drop-append xs ys

-- One frame at the front.
unframe-frame :
    (fuel : ℕ) (chunk bytes : Bytes) {later : Bytes}
    → 0 < length chunk
    → length chunk < 0x100000000
    → unframe fuel bytes ≡ some later
    → unframe (suc fuel) (be32 (length chunk) ++ (chunk ++ bytes)) ≡ some (chunk ++ later)
unfolding unframe
unframe-frame fuel chunk bytes pos small h =
    let nonzero : (length chunk == 0) ≡ false = ground arith in
    let enough : ltb (length (chunk ++ bytes)) (length chunk) ≡ false =
      ground (arith, length-append chunk bytes) in
    rw
      (
        be32_lem (length chunk) small,
        nonzero,
        enough,
        drop-append chunk bytes,
        h,
        be32_lem (length chunk) small,
        take-append chunk bytes,
      )
      refl

nil_of_length : (xs : Bytes) → length xs ≡ 0 → xs ≡ []
nil_of_length [] h = refl
nil_of_length (x ∷ xs) h = absurd (omega arith)

-- What a successful write of at least one chunk consists of.
frames_split :
    (maximum so_far : ℕ) (chunk : Bytes) (chunks : List Bytes) {bytes : Bytes}
    → frames maximum so_far (chunk ∷ chunks) ≡ some bytes
    → (rest : Bytes) × (frames maximum (so_far + length chunk) chunks ≡ some rest)
      × (so_far + length chunk ≤ maximum)
      × (((chunk ≡ []) × (bytes ≡ rest))
          ⊎ ((0 < length chunk) × (bytes ≡ be32 (length chunk) ++ (chunk ++ rest))))
unfolding frames
frames_split maximum so_far chunk chunks h =
    elim (Option-cases (frames maximum (so_far + length chunk) chunks)) [
      | inl none_ ↦ absurd (ground arith)
      | inr (rest, e) ↦ elim (Bool-cases (length chunk == 0)) [
        | inl empty ↦
            (rest, e, ground arith, inl (nil_of_length chunk (ground arith), ground arith))
        | inr full ↦ (rest, e, ground arith, inr (ground arith, ground arith))
      ]
    ]

-- The writer, from any length so far and with any fuel that is enough.
frames_lem :
    (maximum so_far fuel : ℕ) (chunks : List Bytes) (bytes : Bytes)
    → maximum < 0x100000000
    → so_far ≤ maximum
    → length chunks ≤ fuel
    → frames maximum so_far chunks ≡ some bytes
    → (unframe (suc fuel) bytes ≡ some (concat chunks))
      × (so_far + length (concat chunks) ≤ maximum)
frames_lem maximum so_far fuel [] bytes small within enough h =
    let e : bytes ≡ be32 0 = unfold frames in (ground arith) in
    (rw e (unfold unframe in refl), omega arith)
frames_lem maximum so_far zero (chunk ∷ chunks) bytes small within enough h = absurd (omega arith)
frames_lem maximum so_far (suc fuel) (chunk ∷ chunks) bytes small within enough h =
    let (rest, e, le, cases) = frames_split maximum so_far chunk chunks h in
    let (later, bound) =
      frames_lem maximum (so_far + length chunk) fuel chunks rest small le (omega arith) e in
    elim cases [
      | inl (empty, same) ↦
          let (wider, total) =
            frames_lem maximum (so_far + length chunk) (suc fuel) chunks rest small le (omega arith)
              e in
          (
            rw (same, empty) wider,
            omega (arith, total, ap length empty, length-append chunk (concat chunks)),
          )
      | inr (pos, same) ↦ (
        rw same (unframe-frame (suc fuel) chunk rest pos (omega arith) later),
        omega (arith, bound, length-append chunk (concat chunks)),
      )
    ]

-- Whatever chunks the client accepts under a maximum below 2 ^ 32, their total length is at most the
-- maximum, and a daemon that reads length-prefixed chunks up to an empty one reads from what was
-- written exactly their bytes, in their order.
pub frames-unframe :
    (maximum : ℕ) (chunks : List Bytes) (bytes : Bytes)
    → maximum < 0x100000000
    → frames maximum 0 chunks ≡ some bytes
    → (unframe (suc (length chunks)) bytes ≡ some (concat chunks))
      × (length (concat chunks) ≤ maximum)
frames-unframe maximum chunks bytes small h =
    let (read, bound) =
      frames_lem maximum 0 (length chunks) chunks bytes small (omega arith) (omega arith) h in
    (read, omega (arith, bound))
