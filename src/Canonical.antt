-- ===== src/Canonical.antt =====
-- apps/api/src/common/crypto/canonical.ts: the canonical text of a JSON value, whose hash makes a
-- passport version immutable. `JSON.stringify` of a number and of a text, and SHA-256, are
-- parameters. The first step of the source, `JSON.parse(JSON.stringify(value))`, gives back a value
-- that is JSON already.
pub mod Order
pub mod Invariant
use codex_nieuw.Prelude.{ℕ, Bool, true, false, List, [], ◌∷◌, ◌++◌, if◌then◌else◌, ltb, ◌==◌}
use codex_nieuw.Json.{
  Text, codes, Json, null, bool, num, str, arr, obj, Elements, nil, cons, Members, end, member,
}

-- The platform's functions that the program builds on.
pub record Externals : Type 0 where
  pub print_number : ℕ → Text
  pub quote : Text → Text
  pub sha256 : Text → ℕ

-- The order of `Array.prototype.sort` on keys: by UTF-16 code units, a prefix first.
abbrev pub text_lt : Text → Text → Bool
text_lt [] [] = false
text_lt [] (y ∷ ys) = true
text_lt (x ∷ xs) [] = false
text_lt (x ∷ xs) (y ∷ ys) = let rest = text_lt xs ys in if x == y then rest else ltb x y

-- One printed member of an object under its key.
abbrev pub Entry : Type 0
Entry = Text × Text

pub insert : Text → Text → List Entry → List Entry
insert k v [] = (k, v) ∷ []
insert k v ((j, w) ∷ l) =
    let later = insert k v l in if text_lt j k then (j, w) ∷ later else (k, v) ∷ (j, w) ∷ l

-- `parts.join(',')`
abbrev pub join : List Text → Text
join [] = []
join (t ∷ []) = t
join (t ∷ u ∷ ts) = t ++ (codes "," ++ join (u ∷ ts))

module _ (ext : Externals) where
  abbrev print_entry : Entry → Text
  print_entry (k, v) = ext.quote k ++ (codes ":" ++ v)

  abbrev print_entries : List Entry → List Text
  print_entries [] = []
  print_entries (e ∷ es) = print_entry e ∷ print_entries es

  unfoldable mutual
    unfolding insert

    -- The function `sort` of `canonicalize`.
    pub canonicalize : Json → Text
    canonicalize null = codes "null"
    canonicalize (bool true) = codes "true"
    canonicalize (bool false) = codes "false"
    canonicalize (num n) = ext.print_number n
    canonicalize (str t) = ext.quote t
    canonicalize (arr xs) = codes "[" ++ (join (canonical_elements xs) ++ codes "]")
    canonicalize (obj ms) = codes "{" ++ (join (print_entries (canonical_members ms)) ++ codes "}")

    pub canonical_elements : Elements → List Text
    canonical_elements nil = []
    canonical_elements (cons x xs) = canonicalize x ∷ canonical_elements xs

    -- The printed members in the order of their keys.
    pub canonical_members : Members → List Entry
    canonical_members end = []
    canonical_members (member k v ms) = insert k (canonicalize v) (canonical_members ms)

  unfoldable pub hash_json : Json → ℕ
  hash_json value = ext.sha256 (canonicalize value)
