-- ===== src/Tests/WebRuns.antt =====
-- A public passport on the page.
use codex_nieuw.Prelude.{ℕ, ◌≡◌, refl, Bool, false, Option, none, some, List, [], ◌∷◌, All, Perm}
use codex_nieuw.Json.{Text, codes, Json, null, num, str, arr, obj, Elements, nil, cons, end, member}
use codex_nieuw.Rules.Catalogue.{fields}
use codex_nieuw.Rules.Engine.{public_field_ids}
use codex_nieuw.Web.PublicPassport.{
  ShownValue, PassportView, sort_shown, is_private, is_uuid, text, public_value, shown_values,
  project_public_passport, get,
}
use codex_nieuw.Web.PublicPassport.Hiding.{
  IsPublicValue, IsOrdered, project_public_passport-AreShown,
}

abbrev identifier : Text
identifier = codes "00000000-0000-1000-8000-00000000000a"

abbrev weight_entry : Json
weight_entry = obj (
    member (codes "fieldId") (num 10) (
      member (codes "value")
        (obj (member (codes "evidenceIds") null (member (codes "kg") (num 400) end))) end))

abbrev answer : Json
answer = obj (
    member (codes "battery")
      (obj (
        member (codes "publicId") (str identifier) (
          member (codes "modelIdentifier") (str (codes "M"))
            (member (codes "serial") (str (codes "S")) end))))
      (member (codes "values") (arr (cons weight_entry nil)) end))

abbrev whole : ℕ → Option ℕ
whole n = some n

abbrev no_date : Text → Bool
no_date t = false

abbrev seen_value : ShownValue
seen_value = record {
  field_id = 10;
  name = some "Weight";
  value = obj (member (codes "kg") (num 400) end);
  unit = none;
}

abbrev page : PassportView
page = record {
  public_id = identifier;
  model_identifier = codes "M";
  serial = codes "S";
  batch = none;
  category = none;
  rule_set_version = none;
  generated_at = none;
  values = seen_value ∷ [];
}

shows_page : project_public_passport whole no_date answer identifier ≡ some page
unfolding project_public_passport is_uuid text shown_values public_value is_private public_field_ids
    fields sort_shown
shows_page = refl

project_public_passport-AreShown_example :
    (entries : Elements) × (shown : List ShownValue) × All IsPublicValue (seen_value ∷ [])
    × IsOrdered (seen_value ∷ [])
    × (get "values" answer ≡ some (arr entries))
    × (shown_values whole no_date [] entries ≡ some shown)
    × Perm (seen_value ∷ []) shown
project_public_passport-AreShown_example =
    project_public_passport-AreShown whole no_date answer identifier page shows_page
