-- ===== src/Json.antt =====
-- JSON values (common/crypto/canonical.ts and every JSON column of the database). A text is its
-- list of UTF-16 code units; a number is the bit pattern of its double, on which the program's
-- operations are parameters where it computes with numbers.
use Prim.Native.Char.{code}
use codex_nieuw.Prelude.{ℕ, String, Bool, true, false, ◌&&◌, ◌||◌, List, ◌==◌, leb}

abbrev pub Text : Type 0
Text = List ℕ

-- The code units of a text of the source, all of which are ASCII.
abbrev pub codes : String → Text
codes String.[] = List.[]
codes (String.◌∷◌ c s) = List.◌∷◌ (code c) (codes s)

abbrev pub same_text : Text → Text → Bool
same_text List.[] List.[] = true
same_text List.[] (List.◌∷◌ y ys) = false
same_text (List.◌∷◌ x xs) List.[] = false
same_text (List.◌∷◌ x xs) (List.◌∷◌ y ys) = x == y && same_text xs ys

mutual
  pub data Json : Type 0 where
    null : Json
    bool : Bool → Json
    num : ℕ → Json
    str : Text → Json
    arr : Elements → Json
    obj : Members → Json

  pub data Elements : Type 0 where
    nil : Elements
    cons : Json → Elements → Elements

  pub data Members : Type 0 where
    end : Members
    member : Text → Json → Members → Members

-- What `trim` removes, as far as the Basic Multilingual Plane has it.
abbrev pub is_space : ℕ → Bool
is_space c =
    c == 32
    || (c == 9)
    || (c == 10)
    || (c == 11)
    || (c == 12)
    || (c == 13)
    || (c == 160)
    || (c == 0x1680)
    || (leb 0x2000 c && leb c 0x200a)
    || (c == 0x2028)
    || (c == 0x2029)
    || (c == 0x202f)
    || (c == 0x205f)
    || (c == 0x3000)
    || (c == 0xfeff)

-- `!value.trim()`
unfoldable pub is_blank : Text → Bool
is_blank List.[] = true
is_blank (List.◌∷◌ c t) = is_space c && is_blank t
