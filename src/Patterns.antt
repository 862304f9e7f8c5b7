-- ===== src/Patterns.antt =====
-- The text tests of the language that the code uses: prefixes, suffixes, `includes`, and the parts of
-- its regular expressions.
use codex_nieuw.Prelude.{
  ℕ, ◌+◌, ◌-◌, ◌*◌, List, Bool, true, false, not, ◌&&◌, ◌||◌, Option, none, some, [], ◌∷◌, leb,
  ◌==◌, if◌then◌else◌, length, drop, any,
}
use codex_nieuw.Json.{Text, same_text, is_space}

-- `value.startsWith(prefix)`
abbrev pub starts_with : Text → Text → Bool
starts_with [] t = true
starts_with (p ∷ ps) [] = false
starts_with (p ∷ ps) (c ∷ t) = p == c && starts_with ps t

-- `value.endsWith(suffix)`
abbrev pub ends_with : Text → Text → Bool
ends_with suffix t =
    leb (length suffix) (length t) && same_text (drop (length t - length suffix) t) suffix

-- `value.includes(part)`
abbrev pub includes : Text → Text → Bool
includes part [] = starts_with part []
includes part (c ∷ t) = starts_with part (c ∷ t) || includes part t

-- What `.` does not match.
abbrev pub is_line_end : ℕ → Bool
is_line_end c = c == 10 || (c == 13) || (c == 0x2028) || (c == 0x2029)

-- `.+` over a whole text
abbrev pub is_line : Text → Bool
is_line [] = false
is_line (c ∷ t) = not (any is_line_end (c ∷ t))

abbrev pub is_digit : ℕ → Bool
is_digit c = leb 48 c && leb c 57

-- `\d*`: what follows it
abbrev skip_digits : Text → Text
skip_digits [] = []
skip_digits (c ∷ t) = let rest = skip_digits t in if is_digit c then rest else c ∷ t

-- `\d+`: what follows it, where it matches. What stands behind it in the code is never a digit.
abbrev pub after_digits : Text → Option Text
after_digits [] = none
after_digits (c ∷ t) = if is_digit c then some (skip_digits t) else none

-- one character, and what follows it
abbrev pub after_char : ℕ → Option Text → Option Text
after_char p none = none
after_char p (some []) = none
after_char p (some (c ∷ t)) = if p == c then some t else none

abbrev pub digits_then : Option Text → Option Text
digits_then none = none
digits_then (some t) = after_digits t

-- `value.trim()`
abbrev pub trim_start : Text → Text
trim_start [] = []
trim_start (c ∷ t) = let rest = trim_start t in if is_space c then rest else c ∷ t

abbrev pub is_empty : Text → Bool
is_empty [] = true
is_empty (c ∷ t) = false

abbrev pub trim_end : Text → Text
trim_end [] = []
trim_end (c ∷ t) = let rest = trim_end t in if is_space c && is_empty rest then [] else c ∷ rest

unfoldable pub trim : Text → Text
trim t = trim_end (trim_start t)

-- `value.split(',')`, with the code of the separator
unfoldable pub split : ℕ → Text → List Text
split separator [] = [] ∷ []
split separator (c ∷ t) = elim (split separator t) [
  | [] ↦ (c ∷ []) ∷ []
  | part ∷ parts ↦ if c == separator then [] ∷ part ∷ parts else (c ∷ part) ∷ parts
]

-- The value of a text of digits.
abbrev decimal_from : ℕ → Text → ℕ
decimal_from n [] = n
decimal_from n (c ∷ t) = decimal_from (n * 10 + (c - 48)) t

abbrev pub decimal : Text → ℕ
decimal t = decimal_from 0 t
