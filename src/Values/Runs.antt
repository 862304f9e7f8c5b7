-- ===== src/Values/Runs.antt =====
-- The requests that write values, to the values controller and to the suppliers controller, one after
-- the other.
use codex_nieuw.Prelude.{ℕ, ◌≡◌, Bool, none, []}
use codex_nieuw.Prelude.Outcome.{ok}
use codex_nieuw.Json.{Text}
use codex_nieuw.Store.Rows.{RequestStatus, SupplierRequest, ValueRow, Db}
use codex_nieuw.Suppliers.{accept}
use codex_nieuw.Suppliers.Accepting.{accept-IsSlotted}
use codex_nieuw.Tenant.Access.{Actor}
use codex_nieuw.Values.{ValueBody, create, validate_value, reject}
use codex_nieuw.Values.Slots.{
  IsSlotted, create-IsSlotted, validate_value-IsSlotted, reject-IsSlotted,
}

-- A request that succeeds, of any actor and any organisation, at any time.
pub data Step : Db → Db → Type 0 where
  created :
      (scan : Bool) (time uuid : ℕ → ℕ) (actor : Actor) (o : ℕ) (b : ValueBody) {db new : Db}
      {row : ValueRow}
      → create scan time uuid actor o b db ≡ ok (row, new)
      → Step db new
  reviewed :
      (scan : Bool) (time uuid : ℕ → ℕ) (actor : Actor) (o id : ℕ) {db new : Db} {row : ValueRow}
      → validate_value scan time uuid actor o id db ≡ ok (row, new)
      → Step db new
  refused :
      (scan : Bool) (time uuid : ℕ → ℕ) (actor : Actor) (o id : ℕ) {db new : Db} {row : ValueRow}
      → reject scan time uuid actor o id db ≡ ok (row, new)
      → Step db new
  taken :
      (sha256 : Text → ℕ) (time uuid : ℕ → ℕ) (actor : Actor) (o id : ℕ) {db new : Db} {count : ℕ}
      → accept sha256 time uuid actor o id db ≡ ok (count, new)
      → Step db new

pub data Run : Db → Db → Type 0 where
  idle : (db : Db) → Run db db
  next : {a b c : Db} → Run a b → Step b c → Run a c

Step-IsSlotted : {db new : Db} → Step db new → IsSlotted db → IsSlotted new
Step-IsSlotted (created scan time uuid actor o b {db} {new} {row} h) s =
    create-IsSlotted scan time uuid actor o b db row new h s
Step-IsSlotted (reviewed scan time uuid actor o id {db} {new} {row} h) s =
    validate_value-IsSlotted scan time uuid actor o id db row new h s
Step-IsSlotted (refused scan time uuid actor o id {db} {new} {row} h) s =
    reject-IsSlotted scan time uuid actor o id db row new h s
Step-IsSlotted (taken sha256 time uuid actor o id {db} {new} {count} h) s =
    (accept-IsSlotted sha256 time uuid actor o id db count new h s 0 anybody).0
  where
    anybody : SupplierRequest
    anybody = record {
      id = 0;
      organisation_id = 0;
      supplier_id = 0;
      model_id = 0;
      token_hash = 0;
      status = RequestStatus.draft;
      expires_at = 0;
      opened_at = none;
      submitted_at = none;
      field_ids = [];
    }

-- Whatever creations, validations and rejections of values and acceptances of supplier requests
-- succeed one after the other, in any order, each data point of each owner keeps at most one value
-- that is still valid, if that is so at the start.
pub Run-IsSlotted : {db new : Db} → Run db new → IsSlotted db → IsSlotted new
Run-IsSlotted (idle db) s = s
Run-IsSlotted (next r step) s = Step-IsSlotted step (Run-IsSlotted r s)
