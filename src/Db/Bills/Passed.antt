-- ===== src/Db/Bills/Passed.antt =====
-- The statements on bills and accounts in a script that succeeds: what they have found and written.
use stds_backend_go.Prelude.{
  ◌≡◌, refl, true, false, Bool, String, List, [], ◌∷◌, ◌++◌, ok, err, if◌then◌else◌, Option, some,
  none, sym, subst, ok-injective, ◌∙◌,
}
use stds_backend_go.Prelude.Int.{ℤ, eqb_ℤ_refl}
use stds_backend_go.GoTime.{Date}
use stds_backend_go.Db.Table.{
  some-injective, find, update_where, exists, find-holds, find-update_where,
}
use stds_backend_go.Db.Rows.{BillRow, EntryRow, AccountRow, LeaseRow, PropertyRow}
use stds_backend_go.Db.Script.{
  Session, Script, RepositoryError, concurrent_update, other_error, catch, ◌>>=◌, map_err, go_on,
}
use stds_backend_go.Db.Steps.{query-then, query-within, statement-then, caught-then}
use stds_backend_go.Db.Bills.{
  found, found-ok, affected, is_bill, is_bill_version, is_account, is_title, get_bill_for_update,
  update_bills, is_lease, is_property, previous_reading, reading_of_lease, price_of,
  find_previous_meter_reading, find_property_electricity_unit_price, find_property_account,
  insert_accounting_entry, create_accounting_entry,
}

-- The row of a bill after an update of its version, which the update has found.
pub row_after :
    {F : Type 0} (bill_id : String) (f : BillRow F → BillRow F) (rows : List (BillRow F))
    (current row : BillRow F)
    → ((x : BillRow F) → is_bill bill_id (f x) ≡ is_bill bill_id x)
    → find (is_bill bill_id) rows ≡ some current
    → find (is_bill bill_id) (update_where (is_bill_version bill_id current.state.version) f rows)
      ≡ some row
    → row ≡ f current
row_after bill_id f rows current row keeps was_found row_found =
    let found_after =
      find-update_where (is_bill bill_id) (is_bill_version bill_id current.state.version) f rows
        current keeps was_found in
    let holds : is_bill bill_id current ≡ true = find-holds _ rows current was_found in
    let matches : is_bill_version bill_id current.state.version current ≡ true =
      rw (holds, eqb_ℤ_refl current.state.version) refl in
    some-injective (sym row_found ∙ rw matches at found_after)

module _ {F E B : Type 0} (g : RepositoryError → E) where
  pub get_bill_for_update-then :
      (bill_id : String) (k : BillRow F → Script F E B) (s : Session F) {t : Session F} {b : B}
      → (catch g (get_bill_for_update bill_id) >>= k) s ≡ (t, ok b)
      → (fs : List Bool) × (row : BillRow F) × (find (is_bill bill_id) s.db.bills ≡ some row)
        × (k row (record s { faults = fs }) ≡ (t, ok b))
  unfolding get_bill_for_update
  get_bill_for_update-then bill_id k s h =
      let (fs, row, e, rest) = query-then g (λ db. found (find (is_bill bill_id) db.bills)) k s h in
      (fs, row, found-ok _ e, rest)

  pub update_bills-then :
      (p : BillRow F → Bool) (f : BillRow F → BillRow F) (k : Unit {0} → Script F E B)
      (s : Session F) {t : Session F} {b : B}
      → (catch g (update_bills p f) >>= k) s ≡ (t, ok b)
      → (fs : List Bool) × (exists p s.db.bills ≡ true)
        × (k tt (record s { db = record s.db { bills = update_where p f s.db.bills }; faults = fs })
            ≡ (t, ok b))
  unfolding update_bills
  update_bills-then p f k s h =
      let (fs, rest) =
        statement-then g
          (λ (s : Session F). (
            record s { db = record s.db { bills = update_where p f s.db.bills } },
            if exists p s.db.bills then ok tt else err concurrent_update,
          ))
          k s h in
      let (u, e, last) =
        caught-then g (if exists p s.db.bills then ok tt else err concurrent_update) k _ rest in
      (fs, affected (exists p s.db.bills) concurrent_update e, last)

  added :
      (has_title : Bool) (entry : EntryRow) (k : Unit {0} → Script F E B) (s : Session F)
      {t : Session F} {b : B}
      → go_on
          (
            record s {
              db = record s.db {
                accounting_entries =
                    s.db.accounting_entries ++ (if has_title then entry ∷ [] else []);
              };
            },
            map_err g (if has_title then ok tt else err other_error),
          )
          k
        ≡ (t, ok b)
      → (has_title ≡ true)
        × (k tt (record s {
          db = record s.db { accounting_entries = s.db.accounting_entries ++ (entry ∷ []) };
        })
            ≡ (t, ok b))
  added true entry k s h = (refl, h)
  added false entry k s h = cc h

  pub create_accounting_entry-then :
      (property_id : String) (entry : EntryRow) (k : Unit {0} → Script F E B) (s : Session F)
      {t : Session F} {b : B}
      → (catch g (create_accounting_entry property_id entry) >>= k) s ≡ (t, ok b)
      → (fs : List Bool) × (account : AccountRow) × (find
            (is_account property_id)
            s.db.property_accounts
          ≡ some account)
        × (exists (is_title entry.accounting_title_code) s.db.accounting_titles ≡ true)
        × (k tt (record s {
          db = record s.db {
            accounting_entries =
                s.db.accounting_entries ++ (record entry { property_account_id = account.id } ∷ []);
          };
          faults = fs;
        })
            ≡ (t, ok b))
  unfolding create_accounting_entry find_property_account insert_accounting_entry
  create_accounting_entry-then property_id entry k s h =
      let (fs1, account, e, rest) =
        query-within g (λ db. found (find (is_account property_id) db.property_accounts)) _ k s h in
      let booked : EntryRow = record entry { property_account_id = account.id } in
      let (fs2, left) =
        statement-then g
          (λ (s : Session F).
            let has_title = exists (is_title booked.accounting_title_code) s.db.accounting_titles in
            (
              record s {
                db = record s.db {
                  accounting_entries =
                      s.db.accounting_entries ++ (if has_title then booked ∷ [] else []);
                };
              },
              if has_title then ok tt else err other_error,
            ))
          k (record s { faults = fs1 }) rest in
      let (has_title, last) = added _ booked k (record s { faults = fs2 }) left in
      (fs2, account, found-ok _ e, has_title, last)

  pub find_previous_meter_reading-then :
      (lease_id : String) (period_start : Date) (k : ℤ → Script F E B) (s : Session F)
      {t : Session F} {b : B}
      → (catch g (find_previous_meter_reading lease_id period_start) >>= k) s ≡ (t, ok b)
      → (fs : List Bool) × (lease : LeaseRow) × (find (is_lease lease_id) s.db.leases ≡ some lease)
        × (k (previous_reading period_start s.db lease) (record s { faults = fs }) ≡ (t, ok b))
  unfolding find_previous_meter_reading
  find_previous_meter_reading-then lease_id period_start k s {t} {b} h =
      let (fs, reading, e, rest) =
        query-then g (λ db. reading_of_lease period_start db (find (is_lease lease_id) db.leases)) k
          s h in
      let (lease, found_lease, same) = read_of (find (is_lease lease_id) s.db.leases) e in
      (fs, lease, found_lease, subst (λ x. k x (record s { faults = fs }) ≡ (t, ok b)) same rest)
    where
      read_of :
          (o : Option LeaseRow) {reading : ℤ}
          → reading_of_lease period_start s.db o ≡ ok reading
          → (lease : LeaseRow) × (o ≡ some lease)
            × (reading ≡ previous_reading period_start s.db lease)
      read_of none e = cc e
      read_of (some lease) e = (lease, refl, sym (ok-injective e))

  pub find_property_electricity_unit_price-then :
      (property_id : String) (k : Option F → Script F E B) (s : Session F) {t : Session F} {b : B}
      → (catch g (find_property_electricity_unit_price property_id) >>= k) s ≡ (t, ok b)
      → (fs : List Bool) × (property : PropertyRow F) × (find
            (is_property property_id)
            s.db.properties
          ≡ some property)
        × (k property.electricity_unit_price (record s { faults = fs }) ≡ (t, ok b))
  unfolding find_property_electricity_unit_price
  find_property_electricity_unit_price-then property_id k s {t} {b} h =
      let (fs, price, e, rest) =
        query-then g (λ db. price_of (find (is_property property_id) db.properties)) k s h in
      let (property, found_property, same) =
        priced (find (is_property property_id) s.db.properties) e in
      (
        fs,
        property,
        found_property,
        subst (λ x. k x (record s { faults = fs }) ≡ (t, ok b)) same rest,
      )
    where
      priced :
          (o : Option (PropertyRow F)) {price : Option F}
          → price_of o ≡ ok price
          → (property : PropertyRow F) × (o ≡ some property)
            × (price ≡ property.electricity_unit_price)
      priced none e = cc e
      priced (some property) e = (property, refl, sym (ok-injective e))
