-- ===== src/Passports/Document/Publishing.antt =====
-- What a successful publication has checked and what it writes.
use codex_nieuw.Prelude.{
  ℕ, ◌≡◌, refl, sym, subst, some, ◌==◌, true, false, none, List, [], ◌∷◌, ◌++◌, arith, update_where,
  count_where, count_where-append, ap, ◌∙◌,
}
use codex_nieuw.Prelude.Outcome.{
  ok, >>=-eq-ok, require-eq-ok, require, passport_not_ready, passport_not_publishable,
}
use codex_nieuw.Rules.StateMachine.{ready, published, updated, one_of, transition}
use codex_nieuw.Store.Rows.{BatteryItem, PassportVersion, PublicSnapshot, Db}
use codex_nieuw.Tenant.Access.{Actor}
use codex_nieuw.Tenant.PassportLock.{lock_item, assert_active}
use codex_nieuw.Passports.Data.{Platform, Validation, validate_tx}
use codex_nieuw.Passports.Projection.{project_passport}
use codex_nieuw.Canonical.{hash_json}
use codex_nieuw.Passports.Document.Json.{canonical_json}
use codex_nieuw.Passports.Document.Assessing.{
  IsClear, IsDocument, validate_tx-IsClear, canonical_passport-IsDocument,
}
use codex_nieuw.Passports.Document.{
  upi_or, publish, latest_version, new_version, new_snapshot, canonical_passport, store_publication,
  is_active_snapshot,
}

module _ (p : Platform) (time : ℕ → ℕ) (uuid : ℕ → ℕ) (actor : Actor) where
  -- The steps of a publication, on the same locked data, and what they make.
  pub record IsWritten (organisation_id item_id : ℕ) (db : Db) (row : PassportVersion) (new : Db)
      : Type 0 where
    pub locked : BatteryItem
    pub validation : Validation
    pub lock : lock_item db organisation_id item_id ≡ ok locked
    pub active : assert_active locked ≡ ok tt
    pub state : one_of locked.passport_state (ready ∷ updated ∷ []) ≡ true
    pub checked : validate_tx p (time 0) db organisation_id item_id ≡ ok validation
    pub publishable : validation.publishable ≡ true
    pub row_lem :
        row
        ≡ new_version p time uuid actor
            (latest_version p time uuid actor db organisation_id item_id)
            organisation_id
            item_id
            (canonical_passport p time uuid actor db validation
              (upi_or (validation.item).upi (p.upi_of (validation.item).public_id)))
    pub written :
        new ≡ store_publication p time uuid actor organisation_id item_id validation.item row db

  pub publish-IsWritten :
      (organisation_id item_id : ℕ) (db : Db) (row : PassportVersion) (new : Db)
      → publish p time uuid actor organisation_id item_id db ≡ ok (row, new)
      → IsWritten organisation_id item_id db row new
  unfolding publish
  publish-IsWritten o i db row new h =
      let (item, locked, h1) = >>=-eq-ok (lock_item db o i) _ h in
      let (u, active, h2) = >>=-eq-ok (assert_active item) _ h1 in
      let (t, state, h3) =
        >>=-eq-ok (require (one_of item.passport_state (ready ∷ updated ∷ [])) passport_not_ready) _
          h2 in
      let (v, checked, h4) = >>=-eq-ok (validate_tx p (time 0) db o i) _ h3 in
      let (w, publishable, h5) = >>=-eq-ok (require v.publishable passport_not_publishable) _ h4 in
      let (s, moved, h6) = >>=-eq-ok (transition (v.item).passport_state published) _ h5 in
      record {
        locked = item;
        validation = v;
        lock = locked;
        active = active;
        state = require-eq-ok _ _ state;
        checked = checked;
        publishable = require-eq-ok _ _ publishable;
        row_lem = ground arith;
        written = ground arith;
      }

  -- A publication: who may be published, the clear assessment, the row and what is stored.
  pub record IsPublication (organisation_id item_id : ℕ) (db : Db) (row : PassportVersion)
      (new : Db) : Type 0 where
    pub locked : BatteryItem
    pub validation : Validation
    pub lock : lock_item db organisation_id item_id ≡ ok locked
    pub active : assert_active locked ≡ ok tt
    pub state : one_of locked.passport_state (ready ∷ updated ∷ []) ≡ true
    pub clear : IsClear p (time 0) db organisation_id item_id validation
    pub document : IsDocument p db validation row.canonical
    pub owner : row.organisation_id ≡ organisation_id
    pub item : row.item_id ≡ item_id
    pub hashed : row.sha256 ≡ hash_json p.externals (canonical_json p row.canonical)
    pub versions : new.versions ≡ db.versions ++ row ∷ []
    pub items :
        new.items
        ≡ update_where
            (λ (i : BatteryItem). i.id == item_id)
            (λ (i : BatteryItem). record i {
              passport_state = published;
              upi = some (row.canonical).upi;
            })
            db.items
    pub values : new.values ≡ db.values

  -- A publication succeeds only for an active item in state `ready` or `updated` whose assessment,
  -- made in the same transaction of the item, its model and the values in force, has no blocker, no
  -- warning and no cross-field fault of the severity of a blocker. It appends one version, whose
  -- document has the data of that item and model and exactly one entry for each of those values, in
  -- the order of the data points, and whose hash is that of the document; it marks the item as
  -- published under the document's UPI, and changes no other item and no value.
  pub publish-IsPublication :
      (organisation_id item_id : ℕ) (db : Db) (row : PassportVersion) (new : Db)
      → publish p time uuid actor organisation_id item_id db ≡ ok (row, new)
      → IsPublication organisation_id item_id db row new
  unfolding new_version store_publication
  publish-IsPublication o i db row new h =
      let facts = publish-IsWritten o i db row new h in
      let is_row = sym facts.row_lem in
      let is_new = sym facts.written in
      record {
        locked = facts.locked;
        validation = facts.validation;
        lock = facts.lock;
        active = facts.active;
        state = facts.state;
        clear =
            validate_tx-IsClear p (time 0) db o i facts.validation facts.checked facts.publishable;
        document =
            subst (λ (r : PassportVersion). IsDocument p db facts.validation r.canonical) is_row
              (canonical_passport-IsDocument p time uuid actor db facts.validation);
        owner = ap (λ (r : PassportVersion). r.organisation_id) facts.row_lem;
        item = ap (λ (r : PassportVersion). r.item_id) facts.row_lem;
        hashed =
            subst
              (λ (r : PassportVersion).
                r.sha256 ≡ hash_json p.externals (canonical_json p r.canonical))
              is_row refl;
        versions = ap (λ (d : Db). d.versions) facts.written;
        items = ap (λ (d : Db). d.items) facts.written;
        values = ap (λ (d : Db). d.values) facts.written;
      }

  deactivated :
      (o i : ℕ) (rows : List PublicSnapshot)
      → count_where (is_active_snapshot p time uuid actor o i) (
          update_where
            (is_active_snapshot p time uuid actor o i)
            (λ (s : PublicSnapshot). record s { active = false })
            rows)
        ≡ 0
  deactivated o i [] = refl
  deactivated o i (s ∷ rows) = ground (arith, deactivated o i rows)

  new_snapshot_active :
      (o i : ℕ) (item : BatteryItem) (row : PassportVersion)
      → row.organisation_id ≡ o
      → row.item_id ≡ i
      → is_active_snapshot p time uuid actor o i (new_snapshot p time uuid actor item row) ≡ true
  unfolding new_snapshot
  new_snapshot_active o i item row e f = ground arith

  -- After a publication the item has exactly one active public snapshot, whatever it had before: the
  -- new one, made of the new version's document as an anonymous reader may see it.
  pub publish_snapshot :
      (organisation_id item_id : ℕ) (db : Db) (row : PassportVersion) (new : Db)
      → publish p time uuid actor organisation_id item_id db ≡ ok (row, new)
      → (older : List PublicSnapshot) × (snapshot : PublicSnapshot) × (new.snapshots
          ≡ older ++ snapshot ∷ [])
        × (snapshot.public_json ≡ project_passport row.canonical none)
        × (snapshot.active ≡ true)
        × (count_where (is_active_snapshot p time uuid actor organisation_id item_id) new.snapshots
            ≡ 1)
  publish_snapshot o i db row new h =
      let facts = publish-IsWritten o i db row new h in
      let active = is_active_snapshot p time uuid actor o i in
      let older =
        update_where active (λ (s : PublicSnapshot). record s { active = false }) db.snapshots in
      let snapshot = new_snapshot p time uuid actor (facts.validation).item row in
      let grown : new.snapshots ≡ older ++ snapshot ∷ [] =
        ap (λ (d : Db). d.snapshots) facts.written ∙ (unfold store_publication in refl) in
      let org : row.organisation_id ≡ o =
        ap (λ (r : PassportVersion). r.organisation_id) facts.row_lem
        ∙ (unfold new_version in refl) in
      let own : row.item_id ≡ i =
        ap (λ (r : PassportVersion). r.item_id) facts.row_lem ∙ (unfold new_version in refl) in
      (
        older,
        snapshot,
        grown,
        unfold new_snapshot in refl,
        unfold new_snapshot in refl,
        rw (
          grown,
          count_where-append active older (snapshot ∷ []),
          deactivated o i db.snapshots,
          new_snapshot_active o i (facts.validation).item row org own,
        ),
      )
