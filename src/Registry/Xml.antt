-- ===== src/Registry/Xml.antt =====
-- `xmlTextAllowed` and `escapeXml` of apps/api/src/modules/registry/registry-contract.ts.
pub mod Escaping
use codex_nieuw.Prelude.{
  ℕ, ◌+◌, ◌-◌, ◌*◌, Bool, true, false, ◌&&◌, ◌||◌, List, [], ◌∷◌, ◌++◌, leb, ◌==◌, if◌then◌else◌,
  all,
}
use codex_nieuw.Json.{Text, codes}

abbrev is_high : ℕ → Bool
is_high u = leb 0xd800 u && leb u 0xdbff

abbrev is_low : ℕ → Bool
is_low u = leb 0xdc00 u && leb u 0xdfff

-- `[...value]` with `codePointAt(0)`: a surrogate pair is one point, a lone surrogate stays itself.
unfoldable pub code_points : Text → List ℕ
code_points [] = []
code_points (u ∷ []) = u ∷ []
code_points (u ∷ v ∷ t) =
    let alone = code_points (v ∷ t) in
    let paired = code_points t in
    if is_high u && is_low v
    then (0x10000 + (u - 0xd800) * 0x400 + (v - 0xdc00)) ∷ paired
    else u ∷ alone

abbrev pub point_allowed : ℕ → Bool
point_allowed point =
    point == 9
    || (point == 10)
    || (point == 13)
    || (leb 0x20 point && leb point 0xd7ff)
    || (leb 0xe000 point && leb point 0xfffd)
    || (leb 0x10000 point && leb point 0x10ffff)

unfoldable pub xml_text_allowed : Text → Bool
xml_text_allowed value = all point_allowed (code_points value)

-- `value.replace(/c/g, by)`
unfoldable pub replace_all : ℕ → Text → Text → Text
replace_all c by [] = []
replace_all c by (u ∷ t) = (if u == c then by else u ∷ []) ++ replace_all c by t

-- The six replacements, in the order of the source.
unfoldable pub escape_xml : Text → Text
escape_xml value = replace_all 13 (codes "&#13;") (
    replace_all 39 (codes "&apos;") (
      replace_all 34 (codes "&quot;") (
        replace_all 62 (codes "&gt;")
          (replace_all 60 (codes "&lt;") (replace_all 38 (codes "&amp;") value)))))
