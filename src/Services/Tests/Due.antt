-- ===== src/Services/Tests/Due.antt =====
-- A payment of a bill that is due.
use stds_backend_go.Prelude.{◌≡◌, refl, inl, ℕ, true, false, some, ok, []}
use stds_backend_go.Prelude.Int.{pos}
use stds_backend_go.Prelude.Text.{trim_space}
use stds_backend_go.Bill.Defs.{status_pending_payment}
use stds_backend_go.Db.Rows.{BillRow, AccountRow}
use stds_backend_go.Db.Script.{Session}
use stds_backend_go.Db.Table.{find, exists}
use stds_backend_go.Db.Bills.{is_bill, is_account, is_title}
use stds_backend_go.Services.Payment.{pay_bill}
use stds_backend_go.Services.Payment.Books.{IsBooked}
use stds_backend_go.Services.Payment.Due.{pay_bill-Succeeds}
use stds_backend_go.Services.Tests.{day}
use stds_backend_go.Services.Tests.Runs.{fresh, rent_bill}

-- The lease and its bills, in a database that does not fail.
abbrev calm_session : Session ℕ
calm_session = record fresh { faults = [] }

abbrev due_bill : BillRow ℕ
due_bill = rent_bill "pending_payment"

abbrev account : AccountRow
account = record { id = "a1"; property_id = "p1"; deleted = false }

bill_found : find (is_bill "b1") calm_session.db.bills ≡ some due_bill
unfolding find
bill_found = refl

is_pending : trim_space due_bill.state.status ≡ status_pending_payment
unfolding trim_space
is_pending = refl

account_found :
    find (is_account due_bill.state.property_id) calm_session.db.property_accounts ≡ some account
unfolding find
account_found = refl

rents : exists (is_title "4603") calm_session.db.accounting_titles ≡ true
unfolding exists
rents = refl

electricity : exists (is_title "4605") calm_session.db.accounting_titles ≡ true
unfolding exists
electricity = refl

pay_bill-Succeeds_example :
    (t : Session ℕ) × (r : BillRow ℕ) × (pay_bill "b1" (pos 100) "cash" (day 1 5) calm_session
      ≡ (t, ok r))
    × IsBooked "b1" (pos 100) "cash" (day 1 5) calm_session t r
pay_bill-Succeeds_example =
    pay_bill-Succeeds "b1" (pos 100) "cash" (day 1 5) calm_session due_bill account refl bill_found
      refl (inl is_pending) (inl refl) account_found rents electricity
