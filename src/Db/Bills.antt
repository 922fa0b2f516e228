-- ===== src/Db/Bills.antt =====
-- The statements of internal/platform/database/billing/repository.go that the recording of meters and
-- payments uses. `now()` is the time at which the transaction began. A version in the database does
-- not reach the end of its type.
pub mod Passed
use stds_backend_go.Prelude.{
  ◌≡◌, refl, Bool, true, false, not, ◌&&◌, String, List, [], ◌∷◌, ◌++◌, Option, none, some, arith,
  ◌==◌, if◌then◌else◌, Result, ok, err,
}
use stds_backend_go.Prelude.Int.{ℤ, pos, eqb_ℤ, ◌+ℤ◌}
use stds_backend_go.GoTime.{Date, Time, before, after}
use stds_backend_go.Bill.Defs.{status_pending_payment, status_paid, type_electricity}
use stds_backend_go.Db.Table.{find, update_where, select, exists}
use stds_backend_go.Db.Rows.{
  Database, BillRow, LeaseRow, PropertyRow, AccountRow, TitleRow, EntryRow, SourceRef,
}
use stds_backend_go.Db.Script.{
  Session, Script, RepositoryError, not_found, concurrent_update, other_error, statement, query,
  ◌>>=◌, ◌>>◌,
}

-- `sql.ErrNoRows`.
abbrev pub found : {A : Type 0} → Option A → Result RepositoryError A
found none = err not_found
found (some a) = ok a

abbrev pub is_read : Option ℤ → Bool
is_read none = false
is_read (some reading) = true

-- `COALESCE(previous.meter_current_reading, l.starting_meter_reading, 0)`
abbrev pub first_reading : Option ℤ → Option ℤ → ℤ
first_reading (some previous) starting = previous
first_reading none (some starting) = starting
first_reading none none = pos 0

abbrev pub is_lease : String → LeaseRow → Bool
is_lease lease_id row = row.state.id == lease_id && not row.deleted

abbrev pub is_account : String → AccountRow → Bool
is_account property_id row = row.property_id == property_id && not row.deleted

abbrev pub is_title : String → TitleRow → Bool
is_title code row = row.code == code && row.is_active

module _ {F : Type 0} where
  -- `WHERE id = $1 AND deleted_at IS NULL`
  abbrev pub is_bill : String → BillRow F → Bool
  is_bill bill_id row = row.state.id == bill_id && not row.deleted

  -- `... AND version = $2`
  abbrev pub is_bill_version : String → ℤ → BillRow F → Bool
  is_bill_version bill_id version row = is_bill bill_id row && eqb_ℤ row.state.version version

  unfoldable pub get_bill_for_update : String → Script F RepositoryError (BillRow F)
  get_bill_for_update bill_id = query (λ db. found (find (is_bill bill_id) db.bills))

  -- An UPDATE of bills that a version guards: `ensureUpdated` of the rows affected.
  unfoldable pub update_bills :
      (BillRow F → Bool) → (BillRow F → BillRow F) → Script F RepositoryError (Unit {0})
  update_bills p f = statement (λ s. (
    record s { db = record s.db { bills = update_where p f s.db.bills } },
    if exists p s.db.bills then ok tt else err concurrent_update,
  ))

  abbrev pub meter_columns : ℤ → ℤ → F → ℤ → Time → Time → BillRow F → BillRow F
  meter_columns previous current unit_price amount recorded_at now row = record row {
    state = record row.state {
      meter_previous_reading = some previous;
      meter_current_reading = some current;
      meter_unit_price = some unit_price;
      meter_recorded_at = some recorded_at;
      amount = some amount;
      status = status_pending_payment;
      updated_at = now;
      version = row.state.version +ℤ pos 1;
    };
  }

  abbrev pub payment_columns : String → ℤ → Time → Time → BillRow F → BillRow F
  payment_columns method amount paid_at now row = record row {
    state = record row.state {
      payment_method = some method;
      paid_amount = some amount;
      paid_at = some paid_at;
      status = status_paid;
      updated_at = now;
      version = row.state.version +ℤ pos 1;
    };
  }

  unfoldable pub update_meter :
      String → ℤ → ℤ → ℤ → F → ℤ → Time → Script F RepositoryError (Unit {0})
  unfolding update_bills
  update_meter bill_id version previous current unit_price amount recorded_at s =
      update_bills (is_bill_version bill_id version)
        (meter_columns previous current unit_price amount recorded_at s.now) s

  unfoldable pub update_payment :
      String → ℤ → String → ℤ → Time → Script F RepositoryError (Unit {0})
  unfolding update_bills
  update_payment bill_id version method amount paid_at s =
      update_bills (is_bill_version bill_id version) (payment_columns method amount paid_at s.now) s

  -- `ORDER BY period_end DESC, due_date DESC, created_at DESC`: does a come before b?
  abbrev pub newer : BillRow F → BillRow F → Bool
  newer a b =
      if before b.state.period_end.date a.state.period_end.date
      then true
      else if before a.state.period_end.date b.state.period_end.date
      then false
      else if before b.state.due_date.date a.state.due_date.date
      then true
      else if before a.state.due_date.date b.state.due_date.date
      then false
      else after a.state.created_at b.state.created_at

  abbrev pub newer_of : BillRow F → Option (BillRow F) → Option (BillRow F)
  newer_of row none = some row
  newer_of row (some other) = if newer other row then some other else some row

  -- `ORDER BY ... LIMIT 1`.
  unfoldable pub newest : List (BillRow F) → Option (BillRow F)
  newest [] = none
  newest (row ∷ rows) = newer_of row (newest rows)

  abbrev pub is_previous : String → Date → BillRow F → Bool
  is_previous lease_id period_start row =
      row.state.lease_id == lease_id
      && row.state.type == type_electricity
      && is_read row.state.meter_current_reading
      && before row.state.period_end.date period_start
      && not row.deleted

  abbrev pub current_reading_of : Option (BillRow F) → Option ℤ
  current_reading_of none = none
  current_reading_of (some row) = row.state.meter_current_reading

  unfoldable pub previous_reading : Date → Database F → LeaseRow → ℤ
  unfolding newest
  previous_reading period_start db lease =
      first_reading
        (current_reading_of (newest (select (is_previous lease.state.id period_start) db.bills)))
        lease.starting_meter_reading

  abbrev pub reading_of_lease : Date → Database F → Option LeaseRow → Result RepositoryError ℤ
  reading_of_lease period_start db none = err not_found
  reading_of_lease period_start db (some lease) = ok (previous_reading period_start db lease)

  unfoldable pub find_previous_meter_reading : String → Date → Script F RepositoryError ℤ
  find_previous_meter_reading lease_id period_start =
      query (λ db. reading_of_lease period_start db (find (is_lease lease_id) db.leases))

  abbrev pub is_property : String → PropertyRow F → Bool
  is_property property_id row = row.id == property_id && not row.deleted

  abbrev pub price_of : Option (PropertyRow F) → Result RepositoryError (Option F)
  price_of none = err not_found
  price_of (some row) = ok row.electricity_unit_price

  unfoldable pub find_property_electricity_unit_price : String → Script F RepositoryError (Option F)
  find_property_electricity_unit_price property_id =
      query (λ db. price_of (find (is_property property_id) db.properties))

  unfoldable pub find_property_account : String → Script F RepositoryError AccountRow
  find_property_account property_id =
      query (λ db. found (find (is_account property_id) db.property_accounts))

  -- `INSERT ... SELECT ... FROM accounting_titles`: no row and an error if there is no such title. The
  -- code is unique in that table.
  unfoldable pub insert_accounting_entry : EntryRow → Script F RepositoryError (Unit {0})
  insert_accounting_entry entry = statement (λ s.
      let has_title = exists (is_title entry.accounting_title_code) s.db.accounting_titles in
      (
        record s {
          db = record s.db {
            accounting_entries = s.db.accounting_entries ++ (if has_title then entry ∷ [] else []);
          };
        },
        if has_title then ok tt else err other_error,
      ))

  -- The adapters of internal/server: the account of the property, then the entry, whose account is
  -- filled in.
  unfoldable pub create_accounting_entry : String → EntryRow → Script F RepositoryError (Unit {0})
  unfolding find_property_account insert_accounting_entry
  create_accounting_entry property_id entry = do
    account ← find_property_account property_id
    insert_accounting_entry (record entry { property_account_id = account.id })

pub found-ok : {A : Type 0} (o : Option A) {a : A} → found o ≡ ok a → o ≡ some a
found-ok none h = cc h
found-ok (some x) h = cc h

pub affected :
    (b : Bool) (e : RepositoryError) {u : Unit {0}}
    → ◌≡◌ {A = Result RepositoryError (Unit {0})} (if b then ok tt else err e) (ok u)
    → b ≡ true
affected true e h = refl
affected false e h = cc h
