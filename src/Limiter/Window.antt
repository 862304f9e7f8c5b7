-- ===== src/Limiter/Window.antt =====
-- The number of requests that pass in one window.
use codex_nieuw.Prelude.{
  ℕ, ◌+◌, ◌-◌, ◌≤◌, ◌<◌, ◌≡◌, inl, inr, refl, ◌∙◌, Bool, true, false, ◌&&◌, none, some, List, [],
  ◌∷◌, arith, Bool-cases, Option-cases, All, leb, ◌==◌, if◌then◌else◌, keep, length,
}
use codex_nieuw.Limiter.{
  Key, api, sensitive, Bucket, same_key, Buckets, get, Request, Limiter, Verdict, passed, limited,
  is_live, clean, count_in, fresh, take_key, take_sensitive, serve,
}
use codex_nieuw.Limiter.Buckets.{get-set, get-set_other, get-keep}

abbrev is_passed : Verdict → Bool
is_passed passed = true
is_passed (limited seconds) = false

-- After one request: the bucket of the address as it was found or replaced, and the answer.
take_key-live :
    (k : Key) (maximum started : ℕ) (b : Bucket) (m : Buckets)
    → get k m ≡ some b
    → started < b.expires
    → take_key k maximum started m ≡ count_in k maximum started b m
unfolding take_key
take_key-live k maximum started b m h l =
    let live : leb b.expires started ≡ false = ground arith in rw (take_key, h, live) refl

take_key-new :
    (k : Key) (maximum started : ℕ) (m : Buckets)
    → get k m ≡ none
    → leb 30000 (length m) ≡ false
    → take_key k maximum started m ≡ count_in k maximum started (fresh started) m
unfolding take_key
take_key-new k maximum started m h room = rw (take_key, h, room) refl

take_key-full :
    (k : Key) (maximum started : ℕ) (m : Buckets)
    → get k m ≡ none
    → leb 30000 (length m) ≡ true
    → take_key k maximum started m ≡ (m, limited 60)
unfolding take_key
take_key-full k maximum started m h full = rw (take_key, h, full) refl

take_key-other :
    (j k : Key) (maximum started : ℕ) (m : Buckets)
    → same_key k j ≡ false
    → get j (take_key k maximum started m).0 ≡ get j m
take_key-other j k maximum started m h = elim (Option-cases (get k m)) [
  | inl absent ↦ elim (Bool-cases (leb 30000 (length m))) [
    | inl full ↦ rw (take_key-full k maximum started m absent full) refl
    | inr room ↦ rw (take_key-new k maximum started m absent room) (get-set_other j k _ m h)
  ]
  | inr (b, known) ↦ elim (Bool-cases (leb b.expires started)) [
    | inl old ↦ unfold take_key in rw (take_key, known, old) (get-set_other j k _ m h)
    | inr live ↦ unfold take_key in rw (take_key, known, live) (get-set_other j k _ m h)
  ]
]

clean-live :
    (k : Key) (started : ℕ) (b : Bucket) (l : Limiter)
    → get k l.buckets ≡ some b
    → started < b.expires
    → get k (clean started l).buckets ≡ some b
unfolding clean
clean-live k started b l h e = elim (Bool-cases (leb l.next_cleanup started)) [
  | inl due ↦ rw (clean, due) (get-keep k started b l.buckets h e)
  | inr early ↦ rw (clean, early) h
]

get-keep-none :
    (k : Key) (started : ℕ) (m : Buckets) → get k m ≡ none → get k (keep (is_live started) m) ≡ none
get-keep-none k started [] h = refl
get-keep-none k started ((j, c) ∷ m) h = let ih = get-keep-none k started m in ground (arith, ih)

clean-none :
    (k : Key) (started : ℕ) (l : Limiter)
    → get k l.buckets ≡ none
    → get k (clean started l).buckets ≡ none
unfolding clean
clean-none k started l h = elim (Bool-cases (leb l.next_cleanup started)) [
  | inl due ↦ rw (clean, due) (get-keep-none k started l.buckets h)
  | inr early ↦ rw (clean, early) h
]

module _ (limit sensitive_limit : ℕ) where
  -- The second key has no effect on the bucket of the first, and passes nothing that the first
  -- refused.
  take_sensitive-api :
      (a : ℕ) (r : Request) (s : Buckets × Verdict)
      → get (api a) (take_sensitive limit sensitive_limit r s).0 ≡ get (api a) s.0
  unfolding take_sensitive
  take_sensitive-api a r (m, limited n) = refl
  take_sensitive-api a r (m, passed) = elim (Bool-cases r.is_sensitive) [
    | inl yes_it ↦
        rw yes_it (take_key-other (api a) (sensitive r.address) sensitive_limit r.started m refl)
    | inr plain ↦ rw plain refl
  ]

  take_sensitive-passed :
      (r : Request) (s : Buckets × Verdict)
      → is_passed (take_sensitive limit sensitive_limit r s).1 ≡ true
      → is_passed s.1 ≡ true
  unfolding take_sensitive
  take_sensitive-passed r (m, limited n) h = h
  take_sensitive-passed r (m, passed) h = refl

  -- How many requests of an address pass, of requests that are served one after the other.
  unfoldable pub passes : ℕ → List Request → Limiter → ℕ
  passes a [] l = 0
  passes a (r ∷ rs) l =
      let done = serve limit sensitive_limit r l in
      (if r.address == a && is_passed done.1 then 1 else 0) + passes a rs done.0

  abbrev first_key : Request → Limiter → Buckets × Verdict
  first_key r l = take_key (api r.address) limit r.started (clean r.started l).buckets

  serve-api :
      (a : ℕ) (r : Request) (l : Limiter)
      → get (api a) ((serve limit sensitive_limit r l).0).buckets ≡ get (api a) (first_key r l).0
  unfolding serve
  serve-api a r l = take_sensitive-api a r (first_key r l)

  serve-passed :
      (r : Request) (l : Limiter)
      → is_passed (serve limit sensitive_limit r l).1 ≡ true
      → is_passed (first_key r l).1 ≡ true
  unfolding serve
  serve-passed r l h = take_sensitive-passed r (first_key r l) h

  passes-live :
      (a e c : ℕ) (rs : List Request) (l : Limiter)
      → get (api a) l.buckets ≡ some record { count = c; expires = e }
      → All (λ (r : Request). r.started < e) rs
      → passes a rs l ≤ limit - c
  unfolding passes
  passes-live a e c [] l h times = omega arith
  passes-live a e c (r ∷ rs) l h times =
      let b : Bucket = record { count = c; expires = e } in
      let cleaned = clean-live (api a) r.started b l h times.0 in
      let done = serve limit sensitive_limit r l in
      elim (Bool-cases (r.address == a)) [
        | inr other ↦
            let apart : same_key (api r.address) (api a) ≡ false = ground arith in
            let kept : get (api a) (done.0).buckets ≡ some b =
              serve-api a r l
              ∙ (take_key-other (api a) (api r.address) limit r.started (clean r.started l).buckets
                    apart
                  ∙ cleaned) in
            let ih = passes-live a e c rs done.0 kept times.1 in ground arith
        | inl own ↦
            let same : r.address ≡ a = ground arith in
            let counted : first_key r l
                ≡ count_in (api a) limit r.started b (clean r.started l).buckets =
              rw same (
                take_key-live (api a) limit r.started b (clean r.started l).buckets cleaned
                  times.0) in
            let kept : get (api a) (done.0).buckets ≡ some record { count = c + 1; expires = e } =
              serve-api a r l ∙ rw counted (get-set (api a) _ (clean r.started l).buckets) in
            let ih = passes-live a e (c + 1) rs done.0 kept times.1 in
            let asked = serve-passed r l in
            elim (Bool-cases (is_passed done.1)) [
              | inr refused ↦ ground arith
              | inl through ↦
                  let first : is_passed (first_key r l).1 ≡ true = asked through in
                  let answer : is_passed
                        (count_in (api a) limit r.started b (clean r.started l).buckets).1
                      ≡ true =
                    rw counted at first in
                  let small : c + 1 ≤ limit = ground arith in ground arith
            ]
      ]

  -- From a state without a bucket for an address, at most `limit` of the requests of that address
  -- pass among those that arrive, in any order with others, within one minute.
  pub passes-le-limit :
      (a t : ℕ) (rs : List Request) (l : Limiter)
      → get (api a) l.buckets ≡ none
      → All (λ (r : Request). (t ≤ r.started) × (r.started < t + 60000)) rs
      → passes a rs l ≤ limit
  unfolding passes
  passes-le-limit a t [] l h times = omega arith
  passes-le-limit a t (r ∷ rs) l h times =
      let cleaned = clean-none (api a) r.started l h in
      let done = serve limit sensitive_limit r l in
      elim (Bool-cases (r.address == a)) [
        | inr other ↦
            let apart : same_key (api r.address) (api a) ≡ false = ground arith in
            let kept : get (api a) (done.0).buckets ≡ none =
              serve-api a r l
              ∙ (take_key-other (api a) (api r.address) limit r.started (clean r.started l).buckets
                    apart
                  ∙ cleaned) in
            let ih = passes-le-limit a t rs done.0 kept times.1 in ground arith
        | inl own ↦
            let same : r.address ≡ a = ground arith in
            elim (Bool-cases (leb 30000 (length (clean r.started l).buckets))) [
              | inl full ↦
                  let refused : first_key r l ≡ ((clean r.started l).buckets, limited 60) =
                    rw same (
                      take_key-full (api a) limit r.started (clean r.started l).buckets cleaned
                        full) in
                  let kept : get (api a) (done.0).buckets ≡ none =
                    serve-api a r l ∙ rw refused cleaned in
                  let ih = passes-le-limit a t rs done.0 kept times.1 in
                  let asked = serve-passed r l in
                  let no : is_passed (first_key r l).1 ≡ false = rw refused refl in ground arith
              | inr room ↦
                  let opened : first_key r l
                      ≡ count_in (api a) limit r.started (fresh r.started)
                          (clean r.started l).buckets =
                    rw same (
                      take_key-new (api a) limit r.started (clean r.started l).buckets cleaned
                        room) in
                  let kept : get (api a) (done.0).buckets
                      ≡ some record { count = 1; expires = r.started + 60000 } =
                    serve-api a r l ∙ rw opened (get-set (api a) _ (clean r.started l).buckets) in
                  let rest =
                    passes-live a (r.started + 60000) 1 rs done.0 kept
                      (later t r.started rs times.0.0 times.1) in
                  let asked = serve-passed r l in
                  elim (Bool-cases (is_passed done.1)) [
                    | inr refused ↦ ground arith
                    | inl through ↦
                        let first : is_passed (first_key r l).1 ≡ true = asked through in
                        let answer : is_passed
                              (count_in (api a) limit r.started (fresh r.started)
                                (clean r.started l).buckets).1
                            ≡ true =
                          rw opened at first in
                        let small : 1 ≤ limit = ground arith in ground arith
                  ]
            ]
      ]
    where
      later :
          (t s : ℕ) (rs : List Request)
          → t ≤ s
          → All (λ (r : Request). (t ≤ r.started) × (r.started < t + 60000)) rs
          → All (λ (r : Request). r.started < s + 60000) rs
      later t s [] le h = tt
      later t s (r ∷ rs) le h = (omega arith, later t s rs le h.1)
