-- ===== src/Registry/Xml/Escaping.antt =====
-- The six replacements of `escapeXml` are one replacement of each character, and the escaped text has
-- no character that ends an element or an attribute.
use codex_nieuw.Prelude.{
  ℕ, ◌≡◌, inl, inr, refl, ◌∙◌, sym, Bool, true, not, ◌||◌, [], ◌∷◌, ◌++◌, arith, ◌==◌,
  if◌then◌else◌, all, Bool-cases,
}
use mathlib.Core.List.{append_assoc}
use codex_nieuw.Json.{Text, codes}
use codex_nieuw.Registry.Xml.{replace_all, escape_xml}

-- What stands for one character.
abbrev pub entity : ℕ → Text
entity u =
    if u == 38
    then codes "&amp;"
    else if u == 60
    then codes "&lt;"
    else if u == 62
    then codes "&gt;"
    else if u == 34
    then codes "&quot;"
    else if u == 39
    then codes "&apos;"
    else if u == 13
    then codes "&#13;"
    else u ∷ []

abbrev pub entities : Text → Text
entities [] = []
entities (u ∷ t) = entity u ++ entities t

replace_all-append :
    (c : ℕ) (by s t : Text) → replace_all c by (s ++ t) ≡ replace_all c by s ++ replace_all c by t
unfolding replace_all
replace_all-append c by [] t = refl
replace_all-append c by (u ∷ s) t =
    rw (replace_all-append c by s t)
      (sym (append_assoc (if u == c then by else u ∷ []) (replace_all c by s) (replace_all c by t)))

escape_xml-append : (s t : Text) → escape_xml (s ++ t) ≡ escape_xml s ++ escape_xml t
unfolding escape_xml
escape_xml-append s t =
    rw
      (
        replace_all-append 38 (codes "&amp;") s t,
        replace_all-append 60 (codes "&lt;") (replace_all 38 (codes "&amp;") s)
            (replace_all 38 (codes "&amp;") t),
        replace_all-append 62 (codes "&gt;") _ _,
        replace_all-append 34 (codes "&quot;") _ _,
        replace_all-append 39 (codes "&apos;") _ _,
        replace_all-append 13 (codes "&#13;") _ _,
      )
      refl

escape_xml-one : (u : ℕ) → escape_xml (u ∷ []) ≡ entity u
unfolding escape_xml replace_all
escape_xml-one u = elim (Bool-cases (u == 38)) [
  | inl amp ↦ let e : u ≡ 38 = ground arith in rw e refl
  | inr a ↦ elim (Bool-cases (u == 60)) [
    | inl lt ↦ let e : u ≡ 60 = ground arith in rw e refl
    | inr b ↦ elim (Bool-cases (u == 62)) [
      | inl gt ↦ let e : u ≡ 62 = ground arith in rw e refl
      | inr c ↦ elim (Bool-cases (u == 34)) [
        | inl quot ↦ let e : u ≡ 34 = ground arith in rw e refl
        | inr d ↦ elim (Bool-cases (u == 39)) [
          | inl apos ↦ let e : u ≡ 39 = ground arith in rw e refl
          | inr f ↦ elim (Bool-cases (u == 13)) [
            | inl cr ↦ let e : u ≡ 13 = ground arith in rw e refl
            | inr g ↦ rw (a, b, c, d, f, g) refl
          ]
        ]
      ]
    ]
  ]
]

-- A character that cannot end a text or an attribute of XML.
abbrev pub is_safe : ℕ → Bool
is_safe u = not (u == 60 || (u == 62) || (u == 34) || (u == 39) || (u == 13))

all-append : (p : ℕ → Bool) (s t : Text) → all p s ≡ true → all p t ≡ true → all p (s ++ t) ≡ true
all-append p [] t h k = k
all-append p (u ∷ s) t h k = let ih = all-append p s t in ground arith

entity-safe : (u : ℕ) → all is_safe (entity u) ≡ true
entity-safe u = ground arith

entities-safe : (t : Text) → all is_safe (entities t) ≡ true
entities-safe [] = refl
entities-safe (u ∷ t) = all-append is_safe (entity u) (entities t) (entity-safe u) (entities-safe t)

escape_xml-entities : (t : Text) → escape_xml t ≡ entities t
escape_xml-entities [] = unfold escape_xml replace_all in refl
escape_xml-entities (u ∷ t) =
    escape_xml-append (u ∷ []) t ∙ rw (escape_xml-one u, escape_xml-entities t) refl

-- The six replacements, one after the other, put for each character its entity or itself, so no
-- entity is escaped twice; and the result has no angle bracket, quotation mark, apostrophe or
-- carriage return.
pub escape_xml_lem : (t : Text) → (escape_xml t ≡ entities t) × (all is_safe (escape_xml t) ≡ true)
escape_xml_lem t = let e = escape_xml-entities t in (e, rw e (entities-safe t))
