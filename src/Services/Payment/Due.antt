-- ===== src/Services/Payment/Due.antt =====
-- A payment of a bill that is due goes through where no statement fails.
use stds_backend_go.Prelude.{
  ◌≡◌, refl, sym, ap, subst, ◌⊎◌, inl, inr, true, some, List, [], String, ok,
}
use stds_backend_go.Prelude.Int.{ℤ, eqb_ℤ_refl}
use stds_backend_go.Prelude.Text.{trim_space}
use stds_backend_go.GoTime.{Time}
use stds_backend_go.Bill.Defs
use stds_backend_go.Bill.Defs.{
  State, pay, status_paid, status_pending_payment, status_overdue, type_rent, type_electricity,
}
use stds_backend_go.Db.Rows.{BillRow, AccountRow}
use stds_backend_go.Db.Script.{Session, statement}
use stds_backend_go.Db.Table.{
  find, exists, find-holds, find-update_where, exists_of_find, update_where,
}
use stds_backend_go.Db.Bills.{
  is_bill, is_bill_version, is_account, is_title, payment_columns, get_bill_for_update,
  update_payment, update_bills, create_accounting_entry, find_property_account,
  insert_accounting_entry,
}
use stds_backend_go.Services.Payment.Books.{IsBooked, pay_bill-IsBooked}
use stds_backend_go.Services.Payment.{
  method_result, pay_bill, store_payment, book_payment, payment_entry,
  accounting_category_for_bill_type, accounting_title_code_for_bill_type,
}

-- The aggregate accepts the amount of a bill that is due or overdue.
record_payment-accepts :
    {F : Type 0} (amount : ℤ) (method : String) (paid_at : Time) (a : State F)
    → a.amount ≡ some amount
    → (a.status ≡ status_pending_payment) ⊎ (a.status ≡ status_overdue)
    → method_result (Defs.record_payment amount method paid_at a)
      ≡ ok (record a {
        paid_amount = some amount;
        payment_method = some (trim_space method);
        paid_at = some paid_at;
        status = status_paid;
      })
unfolding Defs.record_payment pay
record_payment-accepts amount method paid_at a due (inl pending) =
    rw (pending, due, eqb_ℤ_refl amount) refl
record_payment-accepts amount method paid_at a due (inr overdue) =
    rw (overdue, due, eqb_ℤ_refl amount) refl

module _ {F : Type 0} where
  -- The session, with no statement that fails.
  abbrev calm : Session F → Session F
  calm s = record s { faults = [] }

  book_payment-ok :
      (s : Session F) (row : BillRow F) (due amount : ℤ) (method : String) (paid_at : Time)
      (account : AccountRow)
      → (row.state.type ≡ type_rent) ⊎ (row.state.type ≡ type_electricity)
      → find (is_account row.state.property_id) s.db.property_accounts ≡ some account
      → exists (is_title "4603") s.db.accounting_titles ≡ true
      → exists (is_title "4605") s.db.accounting_titles ≡ true
      → (book_payment row (some due) amount method paid_at (calm s)).1 ≡ ok row
  unfolding book_payment create_accounting_entry insert_accounting_entry find_property_account
      statement accounting_category_for_bill_type accounting_title_code_for_bill_type payment_entry
  book_payment-ok s row due amount method paid_at account (inl rent) account_found rents
        electricity =
      rw (rent, account_found, rents) refl
  book_payment-ok s row due amount method paid_at account (inr metered) account_found rents
        electricity =
      rw (metered, account_found, electricity) refl

  module _ (bill_id : String) (amount : ℤ) (method : String) (paid_at : Time) (s : Session F)
      (current : BillRow F) (account : AccountRow)
      (was_found : find (is_bill bill_id) s.db.bills ≡ some current)
      (due : current.state.amount ≡ some amount)
      (known : (current.state.type ≡ type_rent) ⊎ (current.state.type ≡ type_electricity))
      (account_found : find (is_account current.state.property_id) s.db.property_accounts
        ≡ some account)
      (rents : exists (is_title "4603") s.db.accounting_titles ≡ true)
      (electricity : exists (is_title "4605") s.db.accounting_titles ≡ true) where
    abbrev paid_row : BillRow F
    paid_row = payment_columns (trim_space method) amount paid_at s.now current

    abbrev paid_rows : List (BillRow F)
    paid_rows =
        update_where (is_bill_version bill_id current.state.version)
          (payment_columns (trim_space method) amount paid_at s.now) s.db.bills

    matches : is_bill_version bill_id current.state.version current ≡ true
    matches = rw (find-holds _ s.db.bills current was_found, eqb_ℤ_refl current.state.version) refl

    found_after : find (is_bill bill_id) paid_rows ≡ some paid_row
    found_after = rw matches at (
        find-update_where (is_bill bill_id) (is_bill_version bill_id current.state.version)
          (payment_columns (trim_space method) amount paid_at s.now) s.db.bills current (λ x. refl)
          was_found)

    store_payment-ok :
        (state : State F)
        → state.payment_method ≡ some (trim_space method)
        → state.paid_amount ≡ some amount
        → state.paid_at ≡ some paid_at
        → state.amount ≡ some amount
        → (store_payment bill_id current.state.version state paid_at (calm s)).1 ≡ ok paid_row
    unfolding store_payment update_payment update_bills get_bill_for_update statement
    store_payment-ok state method_is amount_is at_is due_is =
        let matched =
          exists_of_find (is_bill bill_id) (is_bill_version bill_id current.state.version)
            s.db.bills current was_found matches in
        rw (method_is, amount_is, at_is, due_is, matched, found_after)
          (book_payment-ok (record s { db = record s.db { bills = paid_rows } }) paid_row amount
            amount (trim_space method) paid_at account known account_found rents electricity)

    pay_bill-ok :
        (trim_space current.state.status ≡ status_pending_payment)
          ⊎ (trim_space current.state.status ≡ status_overdue)
        → (pay_bill bill_id amount method paid_at (calm s)).1 ≡ ok paid_row
    unfolding pay_bill get_bill_for_update statement Defs.rehydrate
    pay_bill-ok payable =
        rw
          (
            was_found,
            record_payment-accepts amount method paid_at (Defs.rehydrate current.state) due payable,
          )
          (store_payment-ok
            (record (Defs.rehydrate current.state) {
              paid_amount = some amount;
              payment_method = some (trim_space method);
              paid_at = some paid_at;
              status = status_paid;
            })
            refl refl refl due)

-- Where no statement fails, the account of the property and the titles of rents and electricity exist,
-- a payment of a rent or electricity bill that is due or overdue, for its amount, succeeds and is
-- booked.
pub pay_bill-Succeeds :
    {F : Type 0} (bill_id : String) (amount : ℤ) (method : String) (paid_at : Time) (s : Session F)
    (current : BillRow F) (account : AccountRow)
    → s.faults ≡ []
    → find (is_bill bill_id) s.db.bills ≡ some current
    → current.state.amount ≡ some amount
    → (trim_space current.state.status ≡ status_pending_payment)
      ⊎ (trim_space current.state.status ≡ status_overdue)
    → (current.state.type ≡ type_rent) ⊎ (current.state.type ≡ type_electricity)
    → find (is_account current.state.property_id) s.db.property_accounts ≡ some account
    → exists (is_title "4603") s.db.accounting_titles ≡ true
    → exists (is_title "4605") s.db.accounting_titles ≡ true
    → (t : Session F) × (r : BillRow F) × (pay_bill bill_id amount method paid_at s ≡ (t, ok r))
      × IsBooked bill_id amount method paid_at s t r
pay_bill-Succeeds {F} bill_id amount method paid_at s current account no_fault was_found due payable
      known account_found rents electricity =
    let calm_is : calm s ≡ s = ap (λ faults. record s { faults = faults }) (sym no_fault) in
    let done =
      subst
        (λ x.
          (pay_bill bill_id amount method paid_at x).1
          ≡ ok (
              paid_row bill_id amount method paid_at s current account was_found due known
                account_found rents electricity))
        calm_is
        (pay_bill-ok bill_id amount method paid_at s current account was_found due known
          account_found rents electricity payable) in
    let whole : pay_bill bill_id amount method paid_at s
        ≡ ((pay_bill bill_id amount method paid_at s).0, ok _) =
      ap (λ x. ((pay_bill bill_id amount method paid_at s).0, x)) done in
    (_, _, whole, pay_bill-IsBooked bill_id amount method paid_at s whole)
