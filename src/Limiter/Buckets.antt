-- ===== src/Limiter/Buckets.antt =====
-- The map of buckets, and the bound on its size.
use codex_nieuw.Prelude.{
  ℕ, ◌+◌, ◌≤◌, ◌<◌, ◌≡◌, inl, inr, Bool, true, false, some, [], ◌∷◌, arith, Bool-cases,
  Option-cases, ltb, leb, keep, length,
}
use codex_nieuw.Limiter.{
  Key, api, sensitive, Bucket, same_key, Buckets, get, set, Request, Limiter, is_live, clean, fresh,
  take_key, take_sensitive, serve,
}

pub same_key_refl : (k : Key) → same_key k k ≡ true
same_key_refl (api a) = ground arith
same_key_refl (sensitive a) = ground arith

same_key-eq : (j k : Key) → same_key j k ≡ true → j ≡ k
same_key-eq (api a) (api b) h = ground arith
same_key-eq (sensitive a) (sensitive b) h = ground arith
same_key-eq (api a) (sensitive b) h = ground arith
same_key-eq (sensitive a) (api b) h = ground arith

pub get-set : (k : Key) (b : Bucket) (m : Buckets) → get k (set k b m) ≡ some b
get-set k b [] = rw (same_key_refl k)
get-set k b ((j, c) ∷ m) = let ih = get-set k b m in let own = same_key_refl k in ground arith

pub get-set_other :
    (j k : Key) (b : Bucket) (m : Buckets) → same_key k j ≡ false → get j (set k b m) ≡ get j m
get-set_other j k b [] h = rw h
get-set_other j k b ((i, c) ∷ m) h =
    let ih = get-set_other j k b m h in
    elim (Bool-cases (same_key i k)) [
      | inl same ↦
          let e = same_key-eq i k same in let other : same_key i j ≡ false = rw e h in ground arith
      | inr different ↦ ground arith
    ]

-- A live bucket survives the removal of the expired ones.
pub get-keep :
    (k : Key) (started : ℕ) (b : Bucket) (m : Buckets)
    → get k m ≡ some b
    → started < b.expires
    → get k (keep (is_live started) m) ≡ some b
get-keep k started b [] h l = ground arith
get-keep k started b ((j, c) ∷ m) h l = elim (Bool-cases (same_key j k)) [
  | inl same ↦
      let e : some c ≡ some b = ground arith in
      let live : ltb started c.expires ≡ true = ground arith in ground arith
  | inr different ↦ let ih = get-keep k started b m (ground arith) l in ground arith
]

length-set_known :
    (k : Key) (b c : Bucket) (m : Buckets) → get k m ≡ some c → length (set k b m) ≡ length m
length-set_known k b c [] h = ground arith
length-set_known k b c ((j, d) ∷ m) h = elim (Bool-cases (same_key j k)) [
  | inl same ↦ ground arith
  | inr different ↦ let ih = length-set_known k b c m (ground arith) in ground arith
]

length-set : (k : Key) (b : Bucket) (m : Buckets) → length (set k b m) ≤ length m + 1
length-set k b [] = omega arith
length-set k b ((j, c) ∷ m) = let ih = length-set k b m in ground arith

length-keep : (p : Key × Bucket → Bool) (m : Buckets) → length (keep p m) ≤ length m
length-keep p [] = omega arith
length-keep p (e ∷ m) = let ih = length-keep p m in ground arith

take_key-length :
    (k : Key) (maximum started : ℕ) (m : Buckets)
    → length m ≤ 30000
    → length (take_key k maximum started m).0 ≤ 30000
unfolding take_key
take_key-length k maximum started m h = elim (Option-cases (get k m)) [
  | inl absent ↦ elim (Bool-cases (leb 30000 (length m))) [
    | inl full ↦ rw (take_key, absent, full) h
    | inr room ↦
        let grown = length-set k (record (fresh started) { count = 1 }) m in
        let space : length m < 30000 = ground arith in rw (take_key, absent, room) (omega arith)
  ]
  | inr (b, known) ↦
      let again = length-set_known k (record (fresh started) { count = 1 }) b m known in
      let more = length-set_known k (record b { count = b.count + 1 }) b m known in
      elim (Bool-cases (leb b.expires started)) [
        | inl old ↦ rw (take_key, known, old) (omega arith)
        | inr live ↦ rw (take_key, known, live) (omega arith)
      ]
]

clean-length : (started : ℕ) (l : Limiter) → length (clean started l).buckets ≤ length l.buckets
unfolding clean
clean-length started l = let fewer = length-keep (is_live started) l.buckets in ground arith

-- The limiter never holds more than 30000 buckets, whatever requests it serves.
pub serve-length :
    (limit sensitive_limit : ℕ) (r : Request) (l : Limiter)
    → length l.buckets ≤ 30000
    → length ((serve limit sensitive_limit r l).0).buckets ≤ 30000
unfolding serve take_sensitive
serve-length limit sensitive_limit r l h =
    let small : length (clean r.started l).buckets ≤ 30000 =
      omega (arith, clean-length r.started l, h) in
    let first = take_key-length (api r.address) limit r.started (clean r.started l).buckets small in
    let second =
      take_key-length (sensitive r.address) sensitive_limit r.started
        (take_key (api r.address) limit r.started (clean r.started l).buckets).0 first in
    ground (arith, first, second)
