-- ===== src/Services/Payment/Books.antt =====
-- What a payment that is accepted leaves in the database, and what it announces.
use stds_backend_go.Prelude.{
  ◌≡◌, refl, ok-injective, sym, ap, ◌∙◌, subst, ok, some, Option, List, [], ◌∷◌, ◌++◌, Bool, String,
}
use stds_backend_go.Prelude.Int.{ℤ, pos, ◌+ℤ◌}
use stds_backend_go.Prelude.Text.{trim_space}
use stds_backend_go.GoTime.{Time}
use stds_backend_go.Bill.Defs
use stds_backend_go.Db.Rows.{BillRow, AccountRow, EntryRow, bill_paid, bill_paid_event}
use stds_backend_go.Db.Script.{Session}
use stds_backend_go.Db.Table.{find, update_where}
use stds_backend_go.Db.Steps.{result-then, caught-then}
use stds_backend_go.Db.Bills.{update_payment, is_bill, is_bill_version, payment_columns, is_account}
use stds_backend_go.Services.Payment.{
  map_repository_error, map_accounting_repository_error, map_domain_error, method_result, or_else,
  accounting_category_for_bill_type, accounting_title_code_for_bill_type, payment_entry,
  book_payment, store_payment, pay_bill,
}
use stds_backend_go.Db.Bills.Passed.{
  row_after, get_bill_for_update-then, update_bills-then, create_accounting_entry-then,
}
use stds_backend_go.Services.Payment.Accepted.{IsPayment, record_payment-IsPayment}

module _ {F : Type 0} where
  -- The session before and after a payment of a bill that returned the row `r`.
  pub record IsBooked (bill_id : String) (amount : ℤ) (method : String) (paid_at : Time)
      (s t : Session F) (r : BillRow F) : Type 0 where
    pub current : BillRow F
    pub was_found : find (is_bill bill_id) s.db.bills ≡ some current
    pub accepted :
        (after : Defs.State F) × IsPayment amount method paid_at
          (Defs.rehydrate current.state)
          after
    pub row : r ≡ payment_columns (trim_space method) amount paid_at s.now current
    pub paid :
        (r.state.status ≡ Defs.status_paid)
        × (r.state.paid_amount ≡ some amount)
        × (r.state.payment_method ≡ some (trim_space method))
        × (r.state.paid_at ≡ some paid_at)
        × (r.state.version ≡ current.state.version +ℤ pos 1)
    pub bills :
        t.db.bills
        ≡ update_where
            (is_bill_version bill_id current.state.version)
            (payment_columns (trim_space method) amount paid_at s.now)
            s.db.bills
    pub leases : t.db.leases ≡ s.db.leases
    pub account : AccountRow
    pub account_found : find (is_account r.state.property_id) s.db.property_accounts ≡ some account
    pub category : String
    pub title_code : String
    pub category_given : accounting_category_for_bill_type r.state.type ≡ ok category
    pub title_given : accounting_title_code_for_bill_type r.state.type ≡ ok title_code
    pub entry :
        ((payment_entry r.state category title_code amount paid_at).amount ≡ amount)
        × ((payment_entry r.state category title_code amount paid_at).source_ref
            ≡ bill_paid r.state.id)
    pub entries :
        t.db.accounting_entries
        ≡ s.db.accounting_entries
          ++ (record (payment_entry r.state category title_code amount paid_at) {
            property_account_id = account.id;
          }
              ∷ [])
    pub events :
        t.events
        ≡ s.events
          ++ (bill_paid_event r.state.id r.state.property_id r.state.lease_id r.state.room_id
                r.state.tenant_id r.state.type amount amount
                (trim_space method)
                paid_at
              ∷ [])

  -- The session after `updated` is booked by the entry and announced.
  abbrev booked_session :
      BillRow F → ℤ → ℤ → String → Time → EntryRow → Session F → List Bool → Session F
  booked_session updated due amount method paid_at entry s fs = record s {
    db = record s.db { accounting_entries = s.db.accounting_entries ++ (entry ∷ []) };
    events =
        s.events
        ++ (bill_paid_event updated.state.id updated.state.property_id updated.state.lease_id
              updated.state.room_id updated.state.tenant_id updated.state.type due amount method
              paid_at
            ∷ []);
    faults = fs;
  }

  record IsEntered (updated : BillRow F) (due amount : ℤ) (method : String) (paid_at : Time)
      (s t : Session F) : Type 0 where
    account : AccountRow
    account_found :
        find (is_account updated.state.property_id) s.db.property_accounts ≡ some account
    category : String
    title_code : String
    category_given : accounting_category_for_bill_type updated.state.type ≡ ok category
    title_given : accounting_title_code_for_bill_type updated.state.type ≡ ok title_code
    faults : List Bool
    session :
        t
        ≡ booked_session updated due amount method paid_at
            (record (payment_entry updated.state category title_code amount paid_at) {
              property_account_id = account.id;
            })
            s
            faults

  book_payment-IsEntered :
      (updated : BillRow F) (due : Option ℤ) (amount : ℤ) (method : String) (paid_at : Time)
      (s : Session F) {t : Session F} {r : BillRow F} {exact : ℤ}
      → due ≡ some exact
      → book_payment updated due amount method paid_at s ≡ (t, ok r)
      → (r ≡ updated) × IsEntered updated exact amount method paid_at s t
  unfolding book_payment
  book_payment-IsEntered updated due amount method paid_at s {t} e h =
      let (category, category_given, rest1) =
        result-then (accounting_category_for_bill_type updated.state.type) _ _ h in
      let (title_code, title_given, rest2) =
        result-then (accounting_title_code_for_bill_type updated.state.type) _ _ rest1 in
      let (fs, account, account_found, has_title, last) =
        create_accounting_entry-then map_accounting_repository_error updated.state.property_id
          (payment_entry updated.state category title_code amount paid_at) _ _ rest2 in
      (
        sym (ok-injective (ap (λ x. x.1) last)),
        record {
          account = account;
          account_found = account_found;
          category = category;
          title_code = title_code;
          category_given = category_given;
          title_given = title_given;
          faults = fs;
          session =
              sym (ap (λ x. x.0) last)
              ∙ ap
                  (λ d.
                    booked_session updated d amount method paid_at
                      (record (payment_entry updated.state category title_code amount paid_at) {
                        property_account_id = account.id;
                      })
                      s fs)
                  (ap (λ o. or_else o (pos 0)) e);
        },
      )

  module _ (bill_id : String) (amount : ℤ) (method : String) (paid_at : Time) where
    -- The aggregate's fields after the payment, by `IsPayment`.
    abbrev paid_state : Defs.State F → Defs.State F
    paid_state before = record before {
      paid_amount = some amount;
      payment_method = some (trim_space method);
      paid_at = some paid_at;
      status = Defs.status_paid;
    }

    store_payment-IsBooked :
        (current : BillRow F) (fs : List Bool) (s : Session F) {t : Session F} {r : BillRow F}
        → find (is_bill bill_id) s.db.bills ≡ some current
        → current.state.amount ≡ some amount
        → ((after : Defs.State F) × IsPayment amount method paid_at
              (Defs.rehydrate current.state)
              after)
        → store_payment bill_id current.state.version
            (paid_state (Defs.rehydrate current.state))
            paid_at
            (record s { faults = fs })
          ≡ (t, ok r)
        → IsBooked bill_id amount method paid_at s t r
    unfolding store_payment update_payment payment_entry Defs.rehydrate
    store_payment-IsBooked current fs s {t} {r} was_found due accepted h =
        let (fs2, updated, rest) =
          update_bills-then map_repository_error (is_bill_version bill_id current.state.version)
            (payment_columns (trim_space method) amount paid_at s.now) _ _ h in
        let (fs3, row, row_found, rest2) =
          get_bill_for_update-then map_repository_error bill_id _ _ rest in
        let (same, entered) =
          book_payment-IsEntered row current.state.amount amount (trim_space method) paid_at _ due
            rest2 in
        let row_is =
          row_after bill_id (payment_columns (trim_space method) amount paid_at s.now) s.db.bills
            current row (λ x. refl) was_found row_found in
        subst (λ x. IsBooked bill_id amount method paid_at s t x) (sym same)
          (record {
            current = current;
            was_found = was_found;
            accepted = accepted;
            row = row_is;
            paid = (
              ap (λ (x : BillRow F). x.state.status) row_is,
              ap (λ (x : BillRow F). x.state.paid_amount) row_is,
              ap (λ (x : BillRow F). x.state.payment_method) row_is,
              ap (λ (x : BillRow F). x.state.paid_at) row_is,
              ap (λ (x : BillRow F). x.state.version) row_is,
            );
            bills = ap (λ x. x.db.bills) entered.session;
            leases = ap (λ x. x.db.leases) entered.session;
            account = entered.account;
            account_found = entered.account_found;
            category = entered.category;
            title_code = entered.title_code;
            category_given = entered.category_given;
            title_given = entered.title_given;
            entry = (refl, refl);
            entries = ap (λ x. x.db.accounting_entries) entered.session;
            events = ap (λ x. x.events) entered.session;
          })

    -- A payment that succeeds was for the exact amount of a bill that was due or overdue. It makes that
    -- row paid, raises its version, changes no bill with another identifier, adds one entry of the amount to the account
    -- of the bill's property, and records one event.
    pub pay_bill-IsBooked :
        (s : Session F) {t : Session F} {r : BillRow F}
        → pay_bill bill_id amount method paid_at s ≡ (t, ok r)
        → IsBooked bill_id amount method paid_at s t r
    unfolding pay_bill Defs.rehydrate
    pay_bill-IsBooked s {t} {r} done =
        let (fs, current, was_found, rest) =
          get_bill_for_update-then map_repository_error bill_id _ s done in
        let (after, accepted, rest2) =
          caught-then map_domain_error
            (method_result
              (Defs.record_payment amount method paid_at (Defs.rehydrate current.state)))
            _ _ rest in
        let paid = record_payment-IsPayment amount method paid_at _ accepted in
        store_payment-IsBooked current fs s was_found paid.due (after, paid)
          (subst
            (λ x.
              store_payment bill_id current.state.version x paid_at (record s { faults = fs })
              ≡ (t, ok r))
            paid.written rest2)
