-- ===== src/Services/History/Bills.antt =====
-- What no sequence of the eight commands does to a bill.
use stds_backend_go.Prelude.{
  ◌≡◌, ◌≢◌, refl, sym, ap, ◌∙◌, Bool, true, false, ◌&&◌, ◌||◌, inl, inr, Bool-cases, ◌==◌, eq_iff,
  String, List, ◌++◌, some, arith,
}
use stds_backend_go.Prelude.Int.{ℤ}
use stds_backend_go.Prelude.Floats.{Floats}
use stds_backend_go.GoTime.{Date}
use stds_backend_go.Prelude.Text.{trim_space}
use stds_backend_go.Bill.Defs
use stds_backend_go.Bill.Defs.{
  status_paid, status_pending_payment, status_overdue, status_pending_meter,
}
use stds_backend_go.Db.Table.{
  some-injective, find, find-holds, update_where, find-update_other, find-++,
}
use stds_backend_go.Db.Rows.{Database, BillRow, LeaseRow}
use stds_backend_go.Db.Script.{Session}
use stds_backend_go.Db.Bills.{is_bill, is_bill_version}
use stds_backend_go.Db.Leases.{is_written_off_by, is_voided_rent, is_overlapping}
use stds_backend_go.Services.Payment.Books.{pay_bill-IsBooked}
use stds_backend_go.Services.Meter.Reads.{meter_bill-IsMetered}
use stds_backend_go.Services.Leases.Settled.{settle_lease-IsSettledLease}
use stds_backend_go.Services.Leases.Terminate.Proof.{end_lease-IsEndedLease}
use stds_backend_go.Services.Leases.Force.Proof.{force_lease-IsForced}
use stds_backend_go.Services.Leases.Create.Proof.{open_lease-IsOpenedLease}
use stds_backend_go.Services.Leases.Rent.Proof.{
  IsRenewed, not_due, renewed, change_rent-IsChangedRent,
}
use stds_backend_go.Services.Leases.Replace.Proof.{replace_lease-IsReplaced}
use stds_backend_go.Services.History

left_true : (a b : Bool) → (a && b) ≡ true → a ≡ true
left_true true b h = refl
left_true false b h = cc h

unpaid :
    {status other : String} → status ≡ other → (other == status_paid) ≡ false → status ≢ status_paid
unpaid {status} {other} at differs paid =
    cc (sym ((eq_iff other status_paid).1 (sym at ∙ paid)) ∙ differs)

and_false_right : (b : Bool) {c : Bool} → c ≡ false → (b && c) ≡ false
and_false_right true h = h
and_false_right false h = refl

-- The aggregate trims the status.
unpaid_row :
    {F : Type 0} (s : Defs.State F)
    → (Defs.rehydrate s).status ≢ status_paid
    → s.status ≢ status_paid
unfolding Defs.rehydrate trim_space
unpaid_row s h paid = h (ap trim_space paid)

module _ {F : Type 0} where
  -- A paid bill of the first list is found, as it is, in the second.
  abbrev pub KeepsPaid : List (BillRow F) → List (BillRow F) → Type 0
  KeepsPaid old new =
      (id : String) (row : BillRow F)
      → find (is_bill id) old ≡ some row
      → row.state.status ≡ status_paid
      → find (is_bill id) new ≡ some row

  same_bills : {old new : List (BillRow F)} → new ≡ old → KeepsPaid old new
  same_bills same id row was_found paid = ap (find (is_bill id)) same ∙ was_found

  more_bills : (old more : List (BillRow F)) → KeepsPaid old (old ++ more)
  more_bills old more id row was_found paid = find-++ (is_bill id) old more row was_found

  -- An update that never writes to a paid bill.
  updated_bills :
      (p : BillRow F → Bool) (f : BillRow F → BillRow F) (old : List (BillRow F))
      → ((id : String) (row : BillRow F) → is_bill id (f row) ≡ is_bill id row)
      → ((row : BillRow F) → row.state.status ≡ status_paid → p row ≡ false)
      → KeepsPaid old (update_where p f old)
  updated_bills p f old keeps skips id row was_found paid =
      find-update_other (is_bill id) p f old row (keeps id) was_found (skips row paid)

  -- Bills of one identifier are one.
  one_bill :
      (a b : String) (rows : List (BillRow F)) (x y : BillRow F)
      → find (is_bill a) rows ≡ some x
      → find (is_bill b) rows ≡ some y
      → is_bill a y ≡ true
      → x ≡ y
  one_bill a b rows x y found_x found_y at =
      let of_a : y.state.id ≡ a = (eq_iff y.state.id a).0 (left_true (y.state.id == a) _ at) in
      let of_b : y.state.id ≡ b =
        (eq_iff y.state.id b).0
          (left_true (y.state.id == b) _ (find-holds (is_bill b) rows y found_y)) in
      some-injective (sym found_x ∙ ap (λ i. find (is_bill i) rows) (sym of_a ∙ of_b) ∙ found_y)

  -- An update of one row that was found and is not paid.
  updated_bill :
      (bill_id : String) (version : ℤ) (f : BillRow F → BillRow F) (old : List (BillRow F))
      (current : BillRow F)
      → ((id : String) (row : BillRow F) → is_bill id (f row) ≡ is_bill id row)
      → find (is_bill bill_id) old ≡ some current
      → current.state.status ≢ status_paid
      → KeepsPaid old (update_where (is_bill_version bill_id version) f old)
  updated_bill bill_id version f old current keeps found_current unpaid id row was_found paid =
      elim (Bool-cases (is_bill_version bill_id version row)) [
        | inr other ↦
            find-update_other (is_bill id) (is_bill_version bill_id version) f old row (keeps id)
              was_found other
        | inl hit ↦ absurd (
            unpaid (
              ap (λ (x : BillRow F). x.state.status)
                (one_bill bill_id id old current row found_current was_found
                  (left_true (is_bill bill_id row) _ hit))
              ∙ paid))
      ]

  paid_not_written_off :
      (ids : List String) (row : BillRow F)
      → row.state.status ≡ status_paid
      → is_written_off_by ids row ≡ false
  paid_not_written_off ids row paid = ground (arith, (eq_iff row.state.status status_paid).1 paid)

  paid_not_pending :
      (row : BillRow F)
      → row.state.status ≡ status_paid
      → (row.state.status == status_pending_payment || row.state.status == status_pending_meter)
        ≡ false
  paid_not_pending row paid = rw paid refl

module _ (f : Floats) where
  keeps_bills : {s t : Session f.Float64} → History.Step f s t → KeepsPaid s.db.bills t.db.bills
  keeps_bills {s} {t} (History.payment bill_id amount method paid_at r h) =
      let a = pay_bill-IsBooked bill_id amount method paid_at s h in
      λ id row was_found paid.
        ap (find (is_bill id)) a.bills
        ∙ updated_bill bill_id a.current.state.version _ s.db.bills a.current (λ i x. refl)
            a.was_found
            (unpaid_row a.current.state (elim a.accepted.1.payable [
              | inl pending ↦ unpaid pending refl
              | inr late ↦ unpaid late refl
            ]))
            id row was_found paid
  keeps_bills {s} {t} (History.reading bill_id current recorded_at r h) =
      let a = meter_bill-IsMetered f bill_id current recorded_at s h in
      λ id row was_found paid.
        ap (find (is_bill id)) a.bills
        ∙ updated_bill bill_id a.before.state.version _ s.db.bills a.before (λ i x. refl)
            a.was_found (unpaid_row a.before.state (unpaid a.accepted.1.pending refl)) id row
            was_found paid
  keeps_bills {s} {t}
        (History.settlement role assigned lease_id refund deduction reason at r hr hc h) =
      let a =
        settle_lease-IsSettledLease role assigned lease_id refund deduction reason at hr hc s h in
      same_bills (ap (λ (x : Session f.Float64). x.db.bills) a.booked.2.session)
  keeps_bills {s} {t}
        (History.termination role assigned lease_id refund deduction reason at r hr hc h) =
      same_bills
        (end_lease-IsEndedLease role assigned lease_id refund deduction reason at hr hc s
          h).bills_kept
  keeps_bills {s} {t} (History.forced_termination role assigned order at r trimmed h) =
      let a = force_lease-IsForced role assigned order at trimmed s h in
      λ id row was_found paid.
        ap (find (is_bill id)) a.bills
        ∙ updated_bills _ _ s.db.bills (λ i x. refl) (paid_not_written_off _) id row was_found paid
  keeps_bills {s} {t} (History.creation role assigned terms at r vs ve h) =
      let a = open_lease-IsOpenedLease role assigned terms at terms.start_date.date s vs ve vs h in
      λ id row was_found paid.
        ap (find (is_bill id)) a.bills ∙ more_bills s.db.bills a.new_bills id row was_found paid
  keeps_bills {s} {t}
        (History.rent_change role assigned lease_id rent operation_date at current r found_lease vs
          ve vo h) =
      elim (change_rent-IsChangedRent role assigned lease_id rent operation_date at
        current.state.start_date.date current s found_lease vs ve vo vs h) [
          | inl same ↦ same_bills (λ i. (same.2 i).bills)
          | inr changed ↦ rent_bills lease_id rent current changed.bills
        ]
    where
      rent_bills :
          (lease_id : String) (rent : ℤ) (current : LeaseRow) {next end_date x : Date}
          → IsRenewed lease_id rent next end_date x s t
          → KeepsPaid s.db.bills t.db.bills
      rent_bills lease_id rent current (not_due past same) = same_bills same
      rent_bills lease_id rent current {next}
            (renewed open_end old new bills old_is voided amounts cover) =
          λ id row was_found paid.
            ap (find (is_bill id)) (bills ∙ ap (λ l. l ++ new) old_is)
            ∙ more_bills _ new id row
                (updated_bills (is_voided_rent lease_id next) _ s.db.bills (λ i x. refl)
                  (λ x p. and_false_right _ (paid_not_pending x p)) id row was_found paid)
                paid
  keeps_bills {s} {t} (History.replacement role assigned order at r vs ve h) =
      let a = replace_lease-IsReplaced role assigned order at order.effective_start vs ve vs s h in
      λ id row was_found paid.
        ap (find (is_bill id)) (a.bills ∙ ap (λ l. l ++ a.new_bills) a.old_bills_are)
        ∙ more_bills _ a.new_bills id row
            (updated_bills (is_overlapping order.lease_id order.effective_start) _ s.db.bills
              (λ i x. refl) (λ x p. and_false_right _ (paid_not_pending x p)) id row was_found paid)
            paid

  -- A paid bill stays as it is, whatever payments, meter readings, deposit settlements, normal and
  -- forced terminations, creations of leases, changes of the rent and replacements succeed after its
  -- payment.
  pub paid_bill_stays :
      {first last : Database f.Float64} (id : String) (row : BillRow f.Float64)
      → History.Reaches f first last
      → find (is_bill id) first.bills ≡ some row
      → row.state.status ≡ status_paid
      → find (is_bill id) last.bills ≡ some row
  paid_bill_stays id row History.start was_found paid = was_found
  paid_bill_stays id row (History.after s t before step) was_found paid =
      keeps_bills step id row (paid_bill_stays id row before was_found paid) paid
