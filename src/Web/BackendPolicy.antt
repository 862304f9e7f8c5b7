-- ===== src/Web/BackendPolicy.antt =====
-- apps/web/lib/backend-policy.ts: reading a body of bounded size. A stream is the list of the chunks
-- that its reader delivers before it is done; a chunk is the list of its bytes.
use native.Mathlib.Nat.{zero-add, suc-add}
use codex_nieuw.Prelude.{
  ℕ, zero, suc, ◌+◌, ◌≤◌, ◌≡◌, refl, ap, Bool, true, false, Bool-cases, inl, inr, Option, none,
  some, List, [], ◌∷◌, ◌++◌, ltb, if◌then◌else◌, length, take, drop, arith, ◌↔◌, ◌&&◌, ◌||◌, not,
}
use codex_nieuw.Json.{Text, codes, same_text}

-- What the check reads of a request: its method, and the two headers, none where one is absent.
pub record WebRequest : Type 0 where
  pub method : Text
  pub sec_fetch_site : Option Text
  pub supplied : Option Text

-- `header === value`
abbrev pub header_is : Option Text → Text → Bool
header_is none value = false
header_is (some t) value = same_text t value

-- `Boolean(header)`
abbrev present : Option Text → Bool
present none = false
present (some []) = false
present (some (c ∷ t)) = true

abbrev pub is_safe : Text → Bool
is_safe method = same_text method (codes "GET") || same_text method (codes "HEAD")

-- `sameOriginRequest`
unfoldable pub same_origin_request : WebRequest → Text → Bool
same_origin_request r origin =
    if header_is (r.sec_fetch_site) (codes "cross-site")
    then false
    else if present (r.supplied) && not (header_is (r.supplied) origin)
    then false
    else is_safe (r.method) || header_is (r.supplied) origin

abbrev pub Bytes : Type 0
Bytes = List ℕ

-- `new Uint8Array(n)`
abbrev pub zeros : ℕ → Bytes
zeros zero = []
zeros (suc n) = 0 ∷ zeros n

-- `result.set(chunk, offset)`
abbrev set_chunk : Bytes → ℕ → Bytes → Bytes
set_chunk result offset chunk = take offset result ++ (chunk ++ drop (offset + length chunk) result)

-- The loop over the reader: the size and the chunks, or none when the size passes the maximum and the
-- reader is cancelled.
abbrev pub read_chunks : List Bytes → ℕ → ℕ → Option ℕ
read_chunks [] maximum size = some size
read_chunks (chunk ∷ rest) maximum size =
    let result = read_chunks rest maximum (size + length chunk) in
    if ltb maximum (size + length chunk) then none else result

-- The loop that copies the chunks one behind the other.
abbrev pub copy_chunks : List Bytes → ℕ → Bytes → Bytes
copy_chunks [] offset result = result
copy_chunks (chunk ∷ rest) offset result =
    copy_chunks rest (offset + length chunk) (set_chunk result offset chunk)

abbrev assemble : List Bytes → Option ℕ → Option Bytes
assemble chunks none = none
assemble chunks (some size) = some (copy_chunks chunks 0 (zeros size))

-- `readBoundedBody`; none is the error.
unfoldable pub read_bounded_body : Option (List Bytes) → ℕ → Option Bytes
read_bounded_body none maximum = some []
read_bounded_body (some chunks) maximum = assemble chunks (read_chunks chunks maximum 0)

-- The bytes of a stream in their order.
abbrev pub joined : List Bytes → Bytes
joined [] = []
joined (chunk ∷ rest) = chunk ++ joined rest

length-append : (xs ys : Bytes) → length (xs ++ ys) ≡ length xs + length ys
length-append [] ys = ground arith
length-append (x ∷ xs) ys = ground (arith, length-append xs ys)

append_assoc : (xs ys zs : Bytes) → (xs ++ ys) ++ zs ≡ xs ++ (ys ++ zs)
append_assoc [] ys zs = refl
append_assoc (x ∷ xs) ys zs = ap (λ t. x ∷ t) (append_assoc xs ys zs)

append_nil : (xs : Bytes) → xs ++ [] ≡ xs
append_nil [] = refl
append_nil (x ∷ xs) = ap (λ t. x ∷ t) (append_nil xs)

take-append : (xs ys : Bytes) → take (length xs) (xs ++ ys) ≡ xs
take-append [] ys = refl
take-append (x ∷ xs) ys = ap (λ t. x ∷ t) (take-append xs ys)

drop-zeros : (n m : ℕ) → drop n (zeros (n + m)) ≡ zeros m
drop-zeros zero m = simp (zero-add m)
drop-zeros (suc n) m = simp (drop-zeros n m, suc-add)

drop-append : (xs : Bytes) (n : ℕ) (ys : Bytes) → drop (length xs + n) (xs ++ ys) ≡ drop n ys
drop-append [] n ys = simp (zero-add n)
drop-append (x ∷ xs) n ys = simp (suc-add, drop-append xs n ys)

set_chunk-append :
    (pre chunk : Bytes) (m : ℕ)
    → set_chunk (pre ++ zeros (length chunk + m)) (length pre) chunk ≡ (pre ++ chunk) ++ zeros m
set_chunk-append pre chunk m = simp (
  take-append pre (zeros (length chunk + m)),
  drop-append pre (length chunk) (zeros (length chunk + m)),
  drop-zeros (length chunk) m,
  append_assoc pre chunk (zeros m),
)

copy_chunks_lem :
    (chunks : List Bytes) (pre : Bytes)
    → copy_chunks chunks (length pre) (pre ++ zeros (length (joined chunks))) ≡ pre ++ joined chunks
copy_chunks_lem [] pre = refl
copy_chunks_lem (chunk ∷ rest) pre =
    let ih = copy_chunks_lem rest (pre ++ chunk) in
    simp (length-append chunk (joined rest), set_chunk-append pre chunk (length (joined rest)))
      (simp (length-append pre chunk, append_assoc pre chunk (joined rest)) at ih)

-- What fits within the maximum is read to its last byte, and nothing else.
abbrev pub whole_within : List Bytes → ℕ → ℕ → Option ℕ
whole_within chunks maximum size =
    if ltb maximum (size + length (joined chunks))
    then none
    else some (size + length (joined chunks))

read_chunks_lem :
    (chunks : List Bytes) (maximum size : ℕ)
    → size ≤ maximum
    → read_chunks chunks maximum size ≡ whole_within chunks maximum size
read_chunks_lem [] maximum size le = ground arith
read_chunks_lem (chunk ∷ rest) maximum size le =
    ground
      (arith, length-append chunk (joined rest), read_chunks_lem rest maximum (size + length chunk))

-- The bytes of a stream, if they are at most the maximum.
abbrev pub bounded : List Bytes → ℕ → Option Bytes
bounded chunks maximum = if ltb maximum (length (joined chunks)) then none else some (joined chunks)

assemble-whole :
    (chunks : List Bytes) (maximum : ℕ)
    → assemble chunks
        (if ltb maximum (length (joined chunks)) then none else some (length (joined chunks)))
      ≡ bounded chunks maximum
assemble-whole chunks maximum = elim (Bool-cases (ltb maximum (length (joined chunks)))) [
  | inl t ↦ simp (t)
  | inr f ↦ simp (f) (ap some (copy_chunks_lem chunks []))
]

-- A stream is read, chunk behind chunk, to exactly its bytes in their order when they are at most the
-- maximum, and is refused when they are more.
pub read_bounded_body_lem :
    (chunks : List Bytes) (maximum : ℕ)
    → read_bounded_body (some chunks) maximum ≡ bounded chunks maximum
unfolding read_bounded_body
read_bounded_body_lem chunks maximum =
    simp (read_chunks_lem chunks maximum 0 (ground arith), zero-add (length (joined chunks)))
      (assemble-whole chunks maximum)

-- A request whose method may change state is taken exactly when the browser does not call it cross-site
-- and its Origin header is there and is the application's own origin.
pub same_origin_request_iff :
    (r : WebRequest) (origin : Text)
    → is_safe (r.method) ≡ false
    → (same_origin_request r origin ≡ true) ↔ (
        (header_is (r.sec_fetch_site) (codes "cross-site") ≡ false)
        × (header_is (r.supplied) origin ≡ true))
unfolding same_origin_request
same_origin_request_iff r origin h = ground arith
