-- ===== src/Registry/Preparation/Complete.antt =====
-- All or nothing: what a preparation writes.
use codex_nieuw.Prelude.{
  ℕ, ◌+◌, ◌≤◌, ◌≡◌, ◌≢◌, refl, sym, ap, ◌∙◌, subst, String, true, Option, List, [], ◌∷◌, ◌++◌, all,
  map, distinct, length, concat, arith, All,
}
use codex_nieuw.Prelude.Outcome.{ok}
use codex_nieuw.Json.{Text}
use codex_nieuw.Store.Rows.{RegistrySubmission, Db}
use codex_nieuw.Tenant.Access.{Actor}
use codex_nieuw.Passports.Data.{Platform}
use codex_nieuw.Passports.Document.{audit_event}
use codex_nieuw.Registry.Draft.{PreparedRecord, Url, record_valid, records_valid}
use codex_nieuw.Registry.Draft.Batches.{AreBatches, build_registry_draft-AreBatches}
use codex_nieuw.Registry.Preparation.{
  PrevalidationCode, Prevalidation, Preparation, drafted, Answer, prevalidation_failed, returned,
  answer_of, check_items, rows_of, submissions_of, audited, close_preparation, prepare_tx, prepare,
}
use codex_nieuw.Registry.Preparation.Collected.{
  items_of, IsPublishedRecord, Collected, collect, Rounds, check_items-Rounds,
}

abbrev pub prepared_of : List RegistrySubmission → List PreparedRecord
prepared_of rows = map (λ (s : RegistrySubmission). s.prepared) rows

module _ (p : Platform) (parse_url : Text → Option Url) (sha256 : Text → ℕ)
    (content : ℕ → List PreparedRecord → Text) (uuid : ℕ → ℕ) where
  prepared-rows :
      (o corr bi ri : ℕ) (batch records : List PreparedRecord)
      → prepared_of (rows_of p parse_url sha256 content uuid o corr bi ri batch records) ≡ records
  prepared-rows o corr bi ri batch [] = refl
  prepared-rows o corr bi ri batch (r ∷ records) =
      ap (λ (rs : List PreparedRecord). r ∷ rs) (prepared-rows o corr bi (ri + 1) batch records)

  prepared-append :
      (a b : List RegistrySubmission) → prepared_of (a ++ b) ≡ prepared_of a ++ prepared_of b
  prepared-append [] b = refl
  prepared-append (s ∷ a) b =
      ap (λ (rs : List PreparedRecord). s.prepared ∷ rs) (prepared-append a b)

  prepared-submissions :
      (o corr bi : ℕ) (batches : List (List PreparedRecord))
      → prepared_of (submissions_of p parse_url sha256 content uuid o corr bi batches)
        ≡ concat batches
  unfolding submissions_of
  prepared-submissions o corr bi [] = refl
  prepared-submissions o corr bi (batch ∷ batches) =
      rw
        (
          prepared-append (rows_of p parse_url sha256 content uuid o corr bi 0 batch batch)
              (submissions_of p parse_url sha256 content uuid o corr (bi + 1) batches),
          prepared-rows o corr bi 0 batch batch,
          prepared-submissions o corr (bi + 1) batches,
        )
        refl

  module _ (now organisation_id : ℕ) (actor : Actor) (action : String) (correlation_id : ℕ)
      (ids : List ℕ) (db : Db) where
    -- All the items are drafted: each has its record, and the rows hold the batches in order.
    pub record IsDraft (batches : List (List PreparedRecord)) (after : Db) : Type 0 where
      pub records : List PreparedRecord
      pub items : items_of records ≡ ids
      pub current : All (IsPublishedRecord p parse_url now db organisation_id) records
      pub grouped : AreBatches records batches
      pub added : List RegistrySubmission
      pub kept : after.registry_submissions ≡ db.registry_submissions ++ added
      pub stored : prepared_of added ≡ concat batches

    abbrev pub IsComplete : Answer → Db → Type 0
    IsComplete (prevalidation_failed bad) after =
        (bad ≢ [])
        × Rounds p parse_url now db organisation_id ids [] bad
        × (after ≡ record db {
          audit =
              db.audit
              ++ audit_event organisation_id actor "registry.prevalidation_rejected" correlation_id
                ∷ [];
        })
    IsComplete (returned batches) after =
        Rounds p parse_url now db organisation_id ids [] [] × IsDraft batches after

    all_valid :
        (records : List PreparedRecord)
        → items_of records ≡ ids
        → 1 ≤ length ids
        → length ids ≤ 1000
        → all (record_valid parse_url) records ≡ true
        → records_valid parse_url records ≡ true
    all_valid records same low high valid =
        let size : length records ≡ length ids = sizes records ∙ ap length same in ground arith
      where
        sizes : (rs : List PreparedRecord) → length rs ≡ length (items_of rs)
        sizes [] = refl
        sizes (r ∷ rs) = let ih = sizes rs in ground arith

    close-IsComplete :
        (bad : List (ℕ × PrevalidationCode)) (records : List PreparedRecord)
        → Rounds p parse_url now db organisation_id ids [] bad
        → (bad ≡ [] → Collected p parse_url now db organisation_id ids [] records)
        → distinct ids ≡ true
        → 1 ≤ length ids
        → length ids ≤ 1000
        → (out : Preparation × Db) × (close_preparation p parse_url sha256 content uuid
              organisation_id actor action correlation_id db
              (record { invalid = bad; records = records })
            ≡ ok out)
          × IsComplete (answer_of out.0) out.1
    unfolding close_preparation
    close-IsComplete (i ∷ bad) records rounds c apart low high =
        (_, refl, ((λ e. cc), rounds, refl))
    close-IsComplete [] records rounds c apart low high =
        let facts = c refl in
        let (batches, made, grouped) =
          build_registry_draft-AreBatches parse_url records
            (all_valid records facts.items low high facts.valid)
            (let items = subst (λ (x : List ℕ). distinct x ≡ true) (sym facts.items) apart in
              ground (arith, facts.apart)) in
        let rows =
          submissions_of p parse_url sha256 content uuid organisation_id correlation_id 0 batches in
        (
          (
            drafted batches,
            audited p parse_url sha256 content uuid organisation_id actor action correlation_id
                (record db { registry_submissions = db.registry_submissions ++ rows }),
          ),
          rw made refl,
          (
            rounds,
            record {
              records = records;
              items = facts.items;
              current = facts.current;
              grouped = grouped;
              added = rows;
              kept = refl;
              stored = prepared-submissions organisation_id correlation_id 0 batches;
            },
          ),
        )

    -- For 1 to 1000 different item ids on which every round of the checks gives an answer, `prepare` is
    -- all or nothing. Either some item is invalid: it throws the prevalidation error, whose list has
    -- the number and the code of every invalid item, in order, and no other, and its transaction has
    -- changed nothing but the audit trail. Or no item is invalid and it returns the draft of every
    -- item, in which case each record has the data of the item and of its latest published version;
    -- the two agree in UPI, serial number and category, the version has the schema, the rule set and
    -- the hash of its document, and the assessment of the item has no blocker, no warning and no
    -- fault; the batches are of one kind each, of 1 to 100 records, and together have the records; and the rows appended to the
    -- registry submissions hold the batches in order.
    pub prepare-IsComplete :
        (checked : Prevalidation)
        → check_items p parse_url now db organisation_id ids [] ≡ ok checked
        → distinct ids ≡ true
        → 1 ≤ length ids
        → length ids ≤ 1000
        → (out : Answer × Db) × (prepare p parse_url sha256 content uuid now organisation_id actor
              action correlation_id ids db
            ≡ ok out)
          × IsComplete out.0 out.1
    unfolding prepare prepare_tx
    prepare-IsComplete checked h apart low high =
        let (out, done, complete) =
          close-IsComplete checked.invalid checked.records
            (check_items-Rounds p parse_url now db organisation_id ids [] checked h)
            (collect p parse_url now db organisation_id ids [] checked h) apart low high in
        ((answer_of out.0, out.1), rw (prepare, prepare_tx, h, done) refl, complete)
