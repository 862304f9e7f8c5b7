-- ===== src/Web/PublicPassport.antt =====
-- apps/web/lib/public-passport.ts: the second projection of a public passport, on the JSON that the
-- API has answered. `integer_of` reads the integer that a double is, if it is one, and `parses_date`
-- says whether `Date.parse` reads an instant.
pub mod Hiding
use codex_nieuw.Prelude.{
  ℕ, zero, suc, ◌+◌, ◌/◌, ◌%◌, String, Bool, true, false, not, ◌&&◌, ◌||◌, Option, none, some, List,
  [], ◌∷◌, ◌++◌, ltb, leb, ◌==◌, if◌then◌else◌, any, all, elem, find?, length,
}
use codex_nieuw.Json.{
  Text, codes, same_text, Json, null, bool, num, str, arr, obj, Elements, nil, cons, Members, end,
  member,
}
use codex_nieuw.Rules.Types.{FieldDefinition}
use codex_nieuw.Rules.Catalogue.{fields}
use codex_nieuw.Rules.Engine.{public_field_ids}

-- `privateKeys`, and the three names that an object may not take either.
abbrev pub private_keys : List Text
private_keys =
    codes "organisationId"
    ∷ codes "batteryItemId"
    ∷ codes "modelId"
    ∷ codes "evidenceId"
    ∷ codes "evidenceIds"
    ∷ codes "evidenceLinks"
    ∷ codes "canonicalJson"
    ∷ codes "accessTier"
    ∷ codes "access_tier"
    ∷ codes "validationStatus"
    ∷ codes "sourceKind"
    ∷ codes "objectKey"
    ∷ codes "storageVersionId"
    ∷ codes "registryIdentifier"
    ∷ codes "registryState"
    ∷ codes "__proto__"
    ∷ codes "constructor"
    ∷ codes "prototype"
    ∷ []

unfoldable pub is_private : Text → Bool
is_private key = any (same_text key) private_keys

-- The class of control characters that `text` refuses.
abbrev is_control : ℕ → Bool
is_control c = leb c 8 || (c == 11) || (c == 12) || (leb 14 c && leb c 31)

-- `text`
unfoldable pub text : Option Json → ℕ → Option Text
text (some (str t)) maximum =
    if ltb 0 (length t) && leb (length t) maximum && not (any is_control t) then some t else none
text _ maximum = none

-- `Number.isFinite` of a bit pattern
abbrev is_finite : ℕ → Bool
is_finite n = not ((n / 0x10000000000000) % 2048 == 2047)

abbrev count_elements : Elements → ℕ
count_elements nil = 0
count_elements (cons x xs) = suc (count_elements xs)

abbrev count_members : Members → ℕ
count_members end = 0
count_members (member k x ms) = suc (count_members ms)

abbrev add_element : Option Json → Option Elements → Option Elements
add_element (some x) (some xs) = some (cons x xs)
add_element _ _ = none

abbrev add_member : Text → Option Json → Option Members → Option Members
add_member k (some x) (some ms) = some (member k x ms)
add_member k _ _ = none

abbrev as_array : Option Elements → Option Json
as_array none = none
as_array (some xs) = some (arr xs)

abbrev as_object : Option Members → Option Json
as_object none = none
as_object (some ms) = some (obj ms)

-- `publicValue`; `none` is the exception. The test on the depth comes first at every value.
unfoldable mutual
  pub public_value : ℕ → Json → Option Json
  public_value depth null = if ltb 10 depth then none else some null
  public_value depth (bool b) = if ltb 10 depth then none else some (bool b)
  public_value depth (num n) = if ltb 10 depth || not (is_finite n) then none else some (num n)
  public_value depth (str t) = if ltb 10 depth || ltb 16000 (length t) then none else some (str t)
  public_value depth (arr xs) =
      let inner = public_elements (suc depth) xs in
      if ltb 10 depth || ltb 256 (count_elements xs) then none else as_array inner
  public_value depth (obj ms) =
      let inner = public_members (suc depth) ms in
      if ltb 10 depth || ltb 256 (count_members ms) then none else as_object inner

  pub public_elements : ℕ → Elements → Option Elements
  public_elements depth nil = some nil
  public_elements depth (cons x xs) = add_element (public_value depth x) (public_elements depth xs)

  pub public_members : ℕ → Members → Option Members
  public_members depth end = some end
  public_members depth (member k x ms) =
      let rest = public_members depth ms in
      let value = public_value depth x in if is_private k then rest else add_member k value rest

pub record ShownValue : Type 0 where
  pub field_id : ℕ
  pub name : Option String
  pub value : Json
  pub unit : Option Text

abbrev lookup : Text → Members → Option Json
lookup key end = none
lookup key (member k x ms) = if same_text k key then some x else lookup key ms

-- `value.key` of what JSON can be; only an object has members of these names.
abbrev pub get : String → Json → Option Json
get key (obj ms) = lookup (codes key) ms
get key _ = none

abbrev pub name_of : ℕ → Option String
name_of id = elim (find? (λ (f : FieldDefinition). f.id == id) fields) [
  | none ↦ none
  | some f ↦ some f.name
]

abbrev add_shown : Option ShownValue → Option (List ShownValue) → Option (List ShownValue)
add_shown (some v) (some vs) = some (v ∷ vs)
add_shown _ _ = none

abbrev shown_of : ℕ → Option Text → Option Json → Option ShownValue
shown_of id unit none = none
shown_of id unit (some value) =
    some record { field_id = id; name = name_of id; value = value; unit = unit }

abbrev projected : Option Json → Option Json
projected none = none
projected (some value) = public_value 0 value

-- `values.sort((a, b) => a.fieldId - b.fieldId)`
pub insert_shown : ShownValue → List ShownValue → List ShownValue
insert_shown v [] = v ∷ []
insert_shown v (w ∷ ws) =
    let later = insert_shown v ws in if ltb w.field_id v.field_id then w ∷ later else v ∷ w ∷ ws

unfoldable pub sort_shown : List ShownValue → List ShownValue
unfolding insert_shown
sort_shown [] = []
sort_shown (v ∷ vs) = insert_shown v (sort_shown vs)

abbrev between : ℕ → ℕ → ℕ → Bool
between a b c = leb a c && leb c b

abbrev to_lower : ℕ → ℕ
to_lower c = if between 65 90 c then c + 32 else c

abbrev lower : Text → Text
lower [] = []
lower (c ∷ t) = to_lower c ∷ lower t

abbrev is_hex : ℕ → Bool
is_hex c = between 48 57 c || between 97 102 c

abbrev hex_run : ℕ → List (ℕ → Bool)
hex_run zero = []
hex_run (suc n) = is_hex ∷ hex_run n

abbrev is_dash : ℕ → Bool
is_dash c = c == 45

-- The pattern `uuid`, on the text in lower case.
uuid_pattern : List (ℕ → Bool)
uuid_pattern =
    hex_run 8
    ++ (is_dash ∷ hex_run 4)
    ++ (is_dash ∷ between 49 56 ∷ hex_run 3)
    ++ (is_dash ∷ (λ c. c == 56 || (c == 57) || (c == 97) || (c == 98)) ∷ hex_run 3)
    ++ (is_dash ∷ hex_run 12)

abbrev matches : List (ℕ → Bool) → Text → Bool
matches [] [] = true
matches [] (c ∷ t) = false
matches (p ∷ ps) [] = false
matches (p ∷ ps) (c ∷ t) = p c && matches ps t

unfoldable pub is_uuid : Text → Bool
unfolding uuid_pattern
is_uuid t = matches uuid_pattern (lower t)

-- `/^[A-Za-z0-9_.:-]+$/`
abbrev is_version_char : ℕ → Bool
is_version_char c =
    between 65 90 c || between 97 122 c || between 48 58 c || (c == 95) || (c == 46) || (c == 45)

abbrev keep_if : (Text → Bool) → Option Text → Option Text
keep_if p none = none
keep_if p (some t) = if p t then some t else none

-- What the page shows.
pub record PassportView : Type 0 where
  pub public_id : Text
  pub model_identifier : Text
  pub serial : Text
  pub batch : Option Text
  pub category : Option Text
  pub rule_set_version : Option Text
  pub generated_at : Option Text
  pub values : List ShownValue

module _ (integer_of : ℕ → Option ℕ) (parses_date : Text → Bool) where
  abbrev integer_in : Option Json → Option ℕ
  integer_in (some (num n)) = integer_of n
  integer_in _ = none

  -- The data point of an entry, when it is a public one.
  abbrev pub public_id : Json → Option ℕ
  public_id entry = elim (integer_in (get "fieldId" entry)) [
    | none ↦ none
    | some id ↦ if elem id (public_field_ids fields) then some id else none
  ]

  -- The loop over the values; a repeated data point and a value that is refused end it.
  unfoldable pub shown_values : List ℕ → Elements → Option (List ShownValue)
  shown_values seen nil = some []
  shown_values seen (cons entry entries) = elim (public_id entry) [
    | none ↦ shown_values seen entries
    | some id ↦
        let rest = shown_values (id ∷ seen) entries in
        if elem id seen
        then none
        else add_shown (shown_of id (text (get "unit" entry) 40) (projected (get "value" entry)))
            rest
  ]

  abbrev same_id : Option Json → Text → Bool
  same_id (some (str id)) expected = same_text (lower id) (lower expected)
  same_id _ expected = false

  abbrev get_in : String → Option Json → Option Json
  get_in key none = none
  get_in key (some x) = get key x

  abbrev pub view_of :
      Text → Json → Option Text → Option Text → Option (List ShownValue) → Option PassportView
  view_of id raw (some model) (some serial) (some (v ∷ vs)) = some record {
    public_id = lower id;
    model_identifier = model;
    serial = serial;
    batch = text (get_in "batch" (get "battery" raw)) 240;
    category = text (get_in "category" (get "battery" raw)) 40;
    rule_set_version = keep_if (all is_version_char) (text (get "ruleSetVersion" raw) 80);
    generated_at = keep_if parses_date (text (get "generatedAt" raw) 40);
    values = sort_shown (v ∷ vs);
  }
  view_of id raw model serial shown = none

  abbrev pub project_entries : Text → Json → Option Json → Option PassportView
  project_entries id raw (some (arr entries)) =
      if ltb 71 (count_elements entries)
      then none
      else view_of id raw (text (get_in "modelIdentifier" (get "battery" raw)) 240)
          (text (get_in "serial" (get "battery" raw)) 240) (shown_values [] entries)
  project_entries id raw _ = none

  -- `projectPublicPassport`
  unfoldable pub project_public_passport : Json → Text → Option PassportView
  project_public_passport raw expected =
      if is_uuid expected && same_id (get_in "publicId" (get "battery" raw)) expected
      then project_entries expected raw (get "values" raw)
      else none
