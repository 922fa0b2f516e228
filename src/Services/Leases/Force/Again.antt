-- ===== src/Services/Leases/Force/Again.antt =====
-- A forced termination of a lease whose deposit has been settled: the aggregate of
-- internal/domain/lease/aggregate.go does not ask for a held deposit.
use stds_backend_go.Prelude.{
  ◌≡◌, refl, sym, ap, ◌∙◌, subst, ℕ, ◌+◌, Bool, true, false, ◌⊎◌, inl, inr, eq_iff, String, List,
  [], ◌∷◌, ◌++◌, Option, some, ok,
}
use stds_backend_go.Prelude.Int.{ℤ, pos, eqb_ℤ, InInt}
use stds_backend_go.Prelude.Text.{trim_space, not_both}
use stds_backend_go.GoTime.{Time}
use stds_backend_go.Lease.Defs
use stds_backend_go.Lease.Defs.{
  force_termination_deposit_write_off, force_termination_deposit_keep_held,
}
use stds_backend_go.Db.Table.{find, some-injective}
use stds_backend_go.Db.Rows.{LeaseRow, AccountRow, EntryRow}
use stds_backend_go.Db.Script.{Session}
use stds_backend_go.Db.Roles.{Role}
use stds_backend_go.Db.Bills.{is_lease, is_account}
use stds_backend_go.Db.Forced.{Detail}
use stds_backend_go.Services.Leases.Books.{IsEntered, no_entry, one_entry}
use stds_backend_go.Services.Leases.Deposit.{settle_lease}
use stds_backend_go.Services.Leases.Settled.{settle_lease-IsSettledLease}
use stds_backend_go.Services.Leases.Force.{Order, force_lease, write_off_entry}
use stds_backend_go.Services.Leases.Force.Closed.{forced_row, books_deposit}
use stds_backend_go.Services.Leases.Force.Proof.{IsForced, force_lease-IsForced}

entered :
    (b : Bool) {accounts : List AccountRow} {property_id : String} {entry : EntryRow}
    {before after : List EntryRow}
    → IsEntered b accounts property_id entry before after
    → b ≡ true
    → (account : AccountRow) × (find (is_account property_id) accounts ≡ some account)
      × (after ≡ before ++ (record entry { property_account_id = account.id } ∷ []))
entered b (no_entry off same) on = cc (off, on)
entered b (one_entry on account account_found added) _ = (account, account_found, added)

write_off_trimmed :
    trim_space force_termination_deposit_write_off ≡ force_termination_deposit_write_off
unfolding trim_space
write_off_trimmed = refl

written_off :
    {handling status other : String}
    → handling ≡ force_termination_deposit_write_off
    → ((handling ≡ force_termination_deposit_write_off)
        × (status ≡ Defs.deposit_status_written_off))
      ⊎ ((handling ≡ force_termination_deposit_keep_held) × (status ≡ other))
    → status ≡ Defs.deposit_status_written_off
written_off h (inl (_, status)) = status
written_off h (inr (held, _)) =
    absurd
      (not_both force_termination_deposit_write_off force_termination_deposit_keep_held refl h held)

books :
    (order : Order) (row : LeaseRow)
    → order.deposit_handling ≡ force_termination_deposit_write_off
    → eqb_ℤ row.state.deposit_amount (pos 0) ≡ false
    → books_deposit order row ≡ true
books order row handling some_deposit =
    rw
      ((eq_iff order.deposit_handling force_termination_deposit_write_off).1 handling, some_deposit)
      refl

module _ {F : Type 0} where
  -- From the row `r` of a lease whose deposit has been settled, and the sessions around its forced
  -- termination.
  pub record IsBookedAgain (lease_id : String) (refund deduction : ℤ) (r : LeaseRow)
      (u v : Session F) : Type 0 where
    pub paid_out :
        (m : ℕ) × (n : ℕ) × (refund ≡ pos m)
        × (deduction ≡ pos n)
        × (r.state.deposit_amount ≡ pos (m + n))
    pub row : LeaseRow
    pub stored : find (is_lease lease_id) v.db.leases ≡ some row
    pub recorded :
        (row.state.deposit_refund_amount ≡ some refund)
        × (row.state.deposit_deduction_amount ≡ some deduction)
    pub status : row.state.deposit_status ≡ Defs.deposit_status_written_off
    pub entry : EntryRow
    pub amount : entry.amount ≡ r.state.deposit_amount
    pub entries : v.db.accounting_entries ≡ u.db.accounting_entries ++ (entry ∷ [])

  module _ (role role2 : Role) (assigned assigned2 : List String) (refund deduction : ℤ)
      (reason : Option String) (at later : Time) (order : Order) (hr : InInt refund)
      (hc : InInt deduction)
      (handling : order.deposit_handling ≡ force_termination_deposit_write_off) where
    again :
        (u : Session F) {v : Session F} {r : LeaseRow} {d : Detail}
        → eqb_ℤ r.state.deposit_amount (pos 0) ≡ false
        → find (is_lease order.lease_id) u.db.leases ≡ some r
        → ((m : ℕ) × (n : ℕ) × (refund ≡ pos m)
            × (deduction ≡ pos n)
            × (r.state.deposit_amount ≡ pos (m + n)))
        → r.state.deposit_refund_amount ≡ some refund
        → r.state.deposit_deduction_amount ≡ some deduction
        → (f : IsForced role2 assigned2 order later u v d) → f.current ≡ r
        → IsBookedAgain order.lease_id refund deduction r u v
    unfolding write_off_entry
    again u {r = r} some_deposit found paid_out refund_is deduction_is f same =
        let (account, _, added) = entered (books_deposit order f.current) f.booked (
          books order f.current handling (
            subst (λ (x : LeaseRow). eqb_ℤ x.state.deposit_amount (pos 0) ≡ false) (sym same)
              some_deposit)) in
        record {
          paid_out = paid_out;
          row = forced_row order f.deposit_status f.current;
          stored = f.stored;
          recorded = (
            ap (λ (x : LeaseRow). x.state.deposit_refund_amount) same ∙ refund_is,
            ap (λ (x : LeaseRow). x.state.deposit_deduction_amount) same ∙ deduction_is,
          );
          status = f.ended.2 ∙ written_off handling f.deposit;
          entry = _;
          amount = ap (λ (x : LeaseRow). x.state.deposit_amount) same;
          entries = added;
        }

    -- A deposit that is not 0 and has been settled, by a refund and a deduction that make it up, is
    -- booked once more in full by a forced termination of the same lease that orders a write-off and
    -- succeeds, as long as the row of the lease stays in between: the row still has the refund and the
    -- deduction, but its deposit is no longer settled, it is written off.
    pub write_off_books_again :
        (s u : Session F) {t v : Session F} {r : LeaseRow} {d : Detail}
        → eqb_ℤ r.state.deposit_amount (pos 0) ≡ false
        → settle_lease role assigned order.lease_id refund deduction reason at s ≡ (t, ok r)
        → u.db.leases ≡ t.db.leases
        → force_lease role2 assigned2 order later u ≡ (v, ok d)
        → IsBookedAgain order.lease_id refund deduction r u v
    write_off_books_again s u {r = r} some_deposit settles same_leases forces =
        let a =
          settle_lease-IsSettledLease role assigned order.lease_id refund deduction reason at hr hc
            s settles in
        let f =
          force_lease-IsForced role2 assigned2 order later
            (subst (λ x. trim_space x ≡ x) (sym handling) write_off_trimmed) u forces in
        let found : find (is_lease order.lease_id) u.db.leases ≡ some r =
          ap (find (is_lease order.lease_id)) same_leases ∙ a.stored in
        let (m, n, refund_is, deduction_is, deposit_is) = a.split.parts in
        let kept : r.state.deposit_amount ≡ a.current.state.deposit_amount =
          ap (λ (x : LeaseRow). x.state.deposit_amount) a.row in
        again u some_deposit found (m, n, refund_is, deduction_is, kept ∙ deposit_is) a.split.refund
          a.split.deduction f (some-injective (sym f.was_found ∙ found))
