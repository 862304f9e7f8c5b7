-- ===== src/Registry/Preparation/Collected.antt =====
-- What the loop over the items collects where none is invalid.
use codex_nieuw.Prelude.{
  ℕ, ◌≡◌, refl, sym, ap, ◌∙◌, subst, inl, inr, Bool, true, false, Option, List, [], ◌∷◌, any, all,
  map, arith, All, Bool-cases,
}
use codex_nieuw.Prelude.Outcome.{ok, >>=-eq-ok}
use codex_nieuw.Json.{Text, same_text}
use codex_nieuw.Store.Rows.{Db}
use codex_nieuw.Storage.Objects.Checking.{ok_ok}
use codex_nieuw.Passports.Data.{Platform}
use codex_nieuw.Registry.Draft.{PreparedRecord, Url, record_valid, distinct_texts}
use codex_nieuw.Registry.Draft.Batches.{same_text-eq}
use codex_nieuw.Registry.Preparation.{
  PrevalidationCode, Check, invalid, prepared, Prevalidation, check_item, check_items,
}
use codex_nieuw.Registry.Preparation.Checks.{IsCurrentRecord, Accepted, check_item-Accepted}

same_text_refl : (t : Text) → same_text t t ≡ true
same_text_refl [] = refl
same_text_refl (c ∷ t) = let ih = same_text_refl t in ground arith

abbrev upis_of : List PreparedRecord → List Text
upis_of records = map (λ (r : PreparedRecord). r.upi) records

abbrev pub items_of : List PreparedRecord → List ℕ
items_of records = map (λ (r : PreparedRecord). r.item_id) records

module _ (p : Platform) (parse_url : Text → Option Url) (now : ℕ) (db : Db)
    (organisation_id : ℕ) where
  abbrev pub IsPublishedRecord : PreparedRecord → Type 0
  IsPublishedRecord r = IsCurrentRecord p parse_url now db organisation_id r.item_id r

  -- What a loop without an invalid item has collected; `upis` were there before.
  pub record Collected (ids : List ℕ) (upis : List Text) (records : List PreparedRecord)
      : Type 0 where
    pub items : items_of records ≡ ids
    pub current : All IsPublishedRecord records
    pub valid : all (record_valid parse_url) records ≡ true
    pub apart : distinct_texts (upis_of records) ≡ true
    pub fresh :
        (t : Text) → any (same_text t) upis ≡ true → any (same_text t) (upis_of records) ≡ false

  Collected-cons :
      (id : ℕ) (ids : List ℕ) (upis : List Text) (r : PreparedRecord) (rest : List PreparedRecord)
      → Accepted p parse_url now db organisation_id id upis r
      → Collected ids (r.upi ∷ upis) rest
      → Collected (id ∷ ids) upis (r ∷ rest)
  Collected-cons id ids upis r rest a c = record {
    items = ground (arith, c.items, (a.current).of_item);
    current = (
      subst (λ (i : ℕ). IsCurrentRecord p parse_url now db organisation_id i r)
          (sym (a.current).of_item) a.current,
      c.current,
    );
    valid = ground (arith, a.is_valid, c.valid);
    apart =
        let first = c.fresh r.upi (ground (arith, same_text_refl r.upi)) in
        ground (arith, first, c.apart);
    fresh = λ t seen. elim (Bool-cases (same_text t r.upi)) [
      | inl same ↦ absurd (
          true-false
            (subst (λ (u : Text). any (same_text u) upis ≡ true) (same_text-eq t r.upi same) seen)
            a.fresh)
      | inr other ↦ let later = c.fresh t (ground arith) in ground arith
    ];
  }
    where
      true-false : {b : Bool} → b ≡ true → b ≡ false → ⊥
      true-false h k = cc

  -- The rest of the loop after a round that has given `check`.
  collect_step :
      (id : ℕ) (ids : List ℕ)
      (later : (seen : List Text) (d : Prevalidation)
        → check_items p parse_url now db organisation_id ids seen ≡ ok d
        → d.invalid ≡ []
        → Collected ids seen d.records)
      (upis : List Text) (check : Check) (c : Prevalidation)
      → check_item p parse_url now db organisation_id id upis ≡ ok check
      → check_items p parse_url now db organisation_id (id ∷ ids) upis ≡ ok c
      → c.invalid ≡ []
      → Collected (id ∷ ids) upis c.records
  unfolding check_items
  collect_step id ids later upis (invalid code) c e1 h none_ =
      let (rest, e2, h2) =
        >>=-eq-ok (check_items p parse_url now db organisation_id ids upis) _ (rw e1 at h) in
      absurd (listed (ap (λ (x : Prevalidation). x.invalid) (ok_ok h2) ∙ none_))
    where
      listed : {x : ℕ × PrevalidationCode} {xs : List (ℕ × PrevalidationCode)} → x ∷ xs ≡ [] → ⊥
      listed e = cc
  collect_step id ids later upis (prepared r) c e1 h none_ =
      let (rest, e2, h2) =
        >>=-eq-ok (check_items p parse_url now db organisation_id ids (r.upi ∷ upis)) _
          (rw e1 at h) in
      let same = ok_ok h2 in
      let empty = ap (λ (x : Prevalidation). x.invalid) same ∙ none_ in
      subst (λ (x : Prevalidation). Collected (id ∷ ids) upis x.records) same
        (Collected-cons id ids upis r rest.records
          (check_item-Accepted p parse_url now db organisation_id id upis r e1)
          (later (r.upi ∷ upis) rest e2 empty))

  pub collect :
      (ids : List ℕ) (upis : List Text) (c : Prevalidation)
      → check_items p parse_url now db organisation_id ids upis ≡ ok c
      → c.invalid ≡ []
      → Collected ids upis c.records
  unfolding check_items
  collect [] upis c h none_ =
      subst (λ (x : Prevalidation). Collected [] upis x.records) (ok_ok h)
        (record { items = refl; current = tt; valid = refl; apart = refl; fresh = λ t seen. refl })
  collect (id ∷ ids) upis c h none_ =
      let (check, e1, h1) = >>=-eq-ok (check_item p parse_url now db organisation_id id upis) _ h in
      collect_step id ids (collect ids) upis check c e1 h none_

  -- The rounds of the loop, with what they have found to be invalid: an invalid item is listed with its
  -- number and its code, and a prepared one adds its UPI to those that later items must not have.
  pub data Rounds : List ℕ → List Text → List (ℕ × PrevalidationCode) → Type 0 where
    finished : (upis : List Text) → Rounds [] upis []
    found_invalid :
        {id : ℕ} {ids : List ℕ} {upis : List Text} {code : PrevalidationCode}
        {bad : List (ℕ × PrevalidationCode)}
        → check_item p parse_url now db organisation_id id upis ≡ ok (invalid code)
        → Rounds ids upis bad
        → Rounds (id ∷ ids) upis ((id, code) ∷ bad)
    found_prepared :
        {id : ℕ} {ids : List ℕ} {upis : List Text} {r : PreparedRecord}
        {bad : List (ℕ × PrevalidationCode)}
        → check_item p parse_url now db organisation_id id upis ≡ ok (prepared r)
        → Rounds ids (r.upi ∷ upis) bad
        → Rounds (id ∷ ids) upis bad

  round_step :
      (id : ℕ) (ids : List ℕ)
      (later : (seen : List Text) (d : Prevalidation)
        → check_items p parse_url now db organisation_id ids seen ≡ ok d
        → Rounds ids seen d.invalid)
      (upis : List Text) (check : Check) (c : Prevalidation)
      → check_item p parse_url now db organisation_id id upis ≡ ok check
      → check_items p parse_url now db organisation_id (id ∷ ids) upis ≡ ok c
      → Rounds (id ∷ ids) upis c.invalid
  unfolding check_items
  round_step id ids later upis (invalid code) c e1 h =
      let (rest, e2, h2) =
        >>=-eq-ok (check_items p parse_url now db organisation_id ids upis) _ (rw e1 at h) in
      subst (λ (x : Prevalidation). Rounds (id ∷ ids) upis x.invalid) (ok_ok h2)
        (found_invalid e1 (later upis rest e2))
  round_step id ids later upis (prepared r) c e1 h =
      let (rest, e2, h2) =
        >>=-eq-ok (check_items p parse_url now db organisation_id ids (r.upi ∷ upis)) _
          (rw e1 at h) in
      subst (λ (x : Prevalidation). Rounds (id ∷ ids) upis x.invalid) (ok_ok h2)
        (found_prepared e1 (later (r.upi ∷ upis) rest e2))

  pub check_items-Rounds :
      (ids : List ℕ) (upis : List Text) (c : Prevalidation)
      → check_items p parse_url now db organisation_id ids upis ≡ ok c
      → Rounds ids upis c.invalid
  unfolding check_items
  check_items-Rounds [] upis c h =
      subst (λ (x : Prevalidation). Rounds [] upis x.invalid) (ok_ok h) (finished upis)
  check_items-Rounds (id ∷ ids) upis c h =
      let (check, e1, h1) = >>=-eq-ok (check_item p parse_url now db organisation_id id upis) _ h in
      round_step id ids (check_items-Rounds ids) upis check c e1 h
