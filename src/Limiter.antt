-- ===== src/Limiter.antt =====
-- apps/api/src/common/http/security.middleware.ts: the rate limit of one process. A request is its
-- time, the number of its remote address and whether its path is sensitive; headers and logs are
-- left out.
pub mod Buckets
pub mod Window
use codex_nieuw.Prelude.{
  ℕ, ◌+◌, ◌-◌, ◌/◌, Bool, true, false, not, ◌&&◌, ◌||◌, Option, none, some, List, [], ◌∷◌, ◌++◌,
  ltb, leb, ◌==◌, if◌then◌else◌, keep, length,
}

-- The keys `'api:' + address` and `'sensitive:' + address`.
pub data Key : Type 0 where
  api sensitive : ℕ → Key

pub record Bucket : Type 0 where
  pub count : ℕ
  pub expires : ℕ

abbrev pub same_key : Key → Key → Bool
same_key (api a) (api b) = a == b
same_key (sensitive a) (sensitive b) = a == b
same_key _ _ = false

abbrev pub Buckets : Type 0
Buckets = List (Key × Bucket)

-- `buckets.get(key)` and `buckets.set(key, bucket)`
abbrev pub get : Key → Buckets → Option Bucket
get key [] = none
get key ((k, b) ∷ rest) = if same_key k key then some b else get key rest

abbrev pub set : Key → Bucket → Buckets → Buckets
set key bucket [] = (key, bucket) ∷ []
set key bucket ((k, b) ∷ rest) =
    let later = set key bucket rest in
    if same_key k key then (key, bucket) ∷ rest else (k, b) ∷ later

pub record Request : Type 0 where
  pub started : ℕ
  pub address : ℕ
  pub is_sensitive : Bool

pub record Limiter : Type 0 where
  pub buckets : Buckets
  pub next_cleanup : ℕ

-- `next()`, or the status 429 with the seconds of `Retry-After`
pub data Verdict : Type 0 where
  passed : Verdict
  limited : ℕ → Verdict

abbrev pub is_live : ℕ → Key × Bucket → Bool
is_live started e = ltb started (e.1).expires

-- The periodic removal of expired buckets.
unfoldable pub clean : ℕ → Limiter → Limiter
clean started l =
    if leb l.next_cleanup started
    then record { buckets = keep (is_live started) l.buckets; next_cleanup = started + 60000 }
    else l

abbrev at_least_one : ℕ → ℕ
at_least_one n = if n == 0 then 1 else n

-- `Math.max(1, Math.ceil((expires - started) / 1000))`
abbrev retry_after : ℕ → ℕ → ℕ
retry_after expires started = at_least_one ((expires - started + 999) / 1000)

-- `++bucket.count > maximum`
abbrev pub count_in : Key → ℕ → ℕ → Bucket → Buckets → Buckets × Verdict
count_in key maximum started b buckets = (
  set key (record b { count = b.count + 1 }) buckets,
  (if ltb maximum (b.count + 1) then limited (retry_after b.expires started) else passed),
)

abbrev pub fresh : ℕ → Bucket
fresh started = record { count = 0; expires = started + 60000 }

-- The round of the loop for one key.
unfoldable pub take_key : Key → ℕ → ℕ → Buckets → Buckets × Verdict
take_key key maximum started buckets = elim (get key buckets) [
  | none ↦
      if leb 30000 (length buckets)
      then (buckets, limited 60)
      else count_in key maximum started (fresh started) buckets
  | some b ↦
      if leb b.expires started
      then count_in key maximum started (fresh started) buckets
      else count_in key maximum started b buckets
]

module _ (limit sensitive_limit : ℕ) where
  -- The second key, once the first has passed.
  unfoldable pub take_sensitive : Request → Buckets × Verdict → Buckets × Verdict
  take_sensitive r (buckets, limited seconds) = (buckets, limited seconds)
  take_sensitive r (buckets, passed) =
      if r.is_sensitive
      then take_key (sensitive r.address) sensitive_limit r.started buckets
      else (buckets, passed)

  -- The middleware on one request.
  unfoldable pub serve : Request → Limiter → Limiter × Verdict
  serve r l =
      let cleaned = clean r.started l in
      let done = take_sensitive r (take_key (api r.address) limit r.started cleaned.buckets) in
      (record cleaned { buckets = done.0 }, done.1)
