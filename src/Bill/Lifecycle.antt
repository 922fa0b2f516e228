-- ===== src/Bill/Lifecycle.antt =====
-- The life of a bill.
use stds_backend_go.Prelude.{
  ◌≡◌, refl, ◌≢◌, inl, inr, ◌∙◌, false, not, ◌&&◌, String, List, [], ◌∷◌, Option, none, some, arith,
  ◌==◌, if◌then◌else◌, Method, Leaves, Leaves-if, Leaves-pair, leaves_rules, ap, sym, eq_iff,
  Bool-cases,
}
use stds_backend_go.Prelude.Int.{ℤ, ltb_ℤ, eqb_ℤ, eq_of_eqb_ℤ}
use stds_backend_go.Prelude.Text.{eq_other}
use stds_backend_go.Prelude.Floats.{Floats}
use stds_backend_go.GoTime.{Time}
use stds_backend_go.Bill.Defs
use stds_backend_go.Bill.Defs.{
  State, BillError, bill_already_paid, bill_status_not_payable, bill_status_not_recordable,
  bill_paid_amount_mismatch, meter_amount, type_electricity, status_pending_meter,
  status_pending_payment, status_paid, status_overdue,
}

-- A call of one of the methods that change a bill.
pub data Command (F : Type 0) : Type 0 where
  record_meter : ℤ → ℤ → F → Time → Command F
  record_payment : ℤ → String → Time → Command F

pay_unchanged :
    {F : Type 0} (amount : ℤ) (method : String) (at : Time) (a : State F) {e : BillError}
    → (Defs.record_payment amount method at a).1 ≡ some e
    → (Defs.record_payment amount method at a).0 ≡ a
unfolding Defs.record_payment Defs.pay
pay_unchanged amount method at a h = ground arith

module _ (f : Floats) where
  unfoldable pub apply : Command f.Float64 → Method (State f.Float64) BillError
  apply (record_meter previous current price at) = Defs.record_meter f previous current price at
  apply (record_payment amount method at) = Defs.record_payment amount method at

  -- The bill after a sequence of calls, whatever they returned.
  unfoldable pub run : List (Command f.Float64) → State f.Float64 → State f.Float64
  run [] a = a
  run (c ∷ cs) a = run cs (apply c a).0

  -- A call that returns an error changes nothing.
  pub apply_error_unchanged :
      (c : Command f.Float64) (a : State f.Float64) {e : BillError}
      → (apply c a).1 ≡ some e
      → (apply c a).0 ≡ a
  unfolding apply Defs.record_meter Defs.record_payment Defs.pay
  apply_error_unchanged (record_meter previous current price at) a h = ground arith
  apply_error_unchanged (record_payment amount method at) a h = pay_unchanged amount method at a h

  -- A paid bill rejects every call.
  paid_rejects :
      (c : Command f.Float64) (a : State f.Float64)
      → a.status ≡ status_paid
      → ((apply c a).0 ≡ a) × ((apply c a).1 ≢ none)
  unfolding apply Defs.record_meter Defs.record_payment
  paid_rejects (record_meter previous current price at) a h = ground (
    arith,
    eq_other a.status status_paid status_pending_meter refl ((eq_iff a.status status_paid).1 h),
  )
  paid_rejects (record_payment amount method at) a h =
      ground (arith, (eq_iff a.status status_paid).1 h)

  -- Once a bill is paid, no sequence of calls changes anything of it.
  pub paid_is_final :
      (cs : List (Command f.Float64)) (a : State f.Float64) → a.status ≡ status_paid → run cs a ≡ a
  unfolding run
  paid_is_final [] a h = refl
  paid_is_final (c ∷ cs) a h = rw ((paid_rejects c a h).0) (paid_is_final cs a h)

  -- What the status says of the amounts.
  pub record IsPaidInFull (a : State f.Float64) : Type 0 where
    pub paid_in_full : a.status ≡ status_paid → (a.amount ≢ none) × (a.paid_amount ≡ a.amount)

  metered-IsPaidInFull :
      (a : State f.Float64) (previous current amount : Option ℤ) (price : Option f.Float64)
      (at : Option Time)
      → IsPaidInFull (record a {
        meter_previous_reading = previous;
        meter_current_reading = current;
        meter_unit_price = price;
        meter_recorded_at = at;
        amount = amount;
        status = status_pending_payment;
      })
  metered-IsPaidInFull a previous current amount price at = record {
    paid_in_full =
        λ e. cc (e, eq_other status_pending_payment status_pending_payment status_paid refl refl);
  }

  record_meter-IsPaidInFull :
      (previous current : ℤ) (price : f.Float64) (at : Time) (a : State f.Float64)
      → IsPaidInFull a
      → Leaves IsPaidInFull (Defs.record_meter f previous current price at a)
  unfolding Defs.record_meter
  record_meter-IsPaidInFull previous current price at a h =
      search (leaves_rules, h, metered-IsPaidInFull) depth 10

  pay-IsPaidInFull :
      (amount : ℤ) (method : String) (at : Time) (o : Option ℤ) (a : State f.Float64)
      → a.amount ≡ o
      → IsPaidInFull a
      → Leaves IsPaidInFull (Defs.pay amount method at o a)
  unfolding Defs.pay
  pay-IsPaidInFull amount method at none a e h = record { holds = h }
  pay-IsPaidInFull amount method at (some due) a e h = elim (Bool-cases (eqb_ℤ amount due)) [
    | inl same ↦ rw same (record {
      holds = record {
        paid_in_full = λ _. (λ n. cc (n, e), ap some (eq_of_eqb_ℤ amount due same) ∙ sym e);
      };
    })
    | inr differs ↦ rw differs (record { holds = h })
  ]

  record_payment-IsPaidInFull :
      (amount : ℤ) (method : String) (at : Time) (a : State f.Float64)
      → IsPaidInFull a
      → Leaves IsPaidInFull (Defs.record_payment amount method at a)
  unfolding Defs.record_payment
  record_payment-IsPaidInFull amount method at a h =
      Leaves-if (a.status == status_paid) (a, some bill_already_paid) _ (Leaves-pair h)
        (Leaves-if (not (a.status == status_pending_payment) && not (a.status == status_overdue))
          (a, some bill_status_not_payable) _ (Leaves-pair h)
          (pay-IsPaidInFull amount method at a.amount a refl h))

  apply-IsPaidInFull :
      (c : Command f.Float64) (a : State f.Float64) → IsPaidInFull a → IsPaidInFull (apply c a).0
  unfolding apply
  apply-IsPaidInFull (record_meter previous current price at) a h =
      (record_meter-IsPaidInFull previous current price at a h).holds
  apply-IsPaidInFull (record_payment amount method at) a h =
      (record_payment-IsPaidInFull amount method at a h).holds

  -- A bill is never paid by another amount than its own: if that holds at first, it holds after
  -- every sequence of calls.
  pub run-IsPaidInFull :
      (cs : List (Command f.Float64)) (a : State f.Float64)
      → IsPaidInFull a
      → IsPaidInFull (run cs a)
  unfolding run
  run-IsPaidInFull [] a h = h
  run-IsPaidInFull (c ∷ cs) a h = run-IsPaidInFull cs (apply c a).0 (apply-IsPaidInFull c a h)

  metered :
      (previous current : ℤ) (price : f.Float64) (at : Time) (a : State f.Float64)
      → a.type ≡ type_electricity
      → a.status ≡ status_pending_meter
      → ltb_ℤ current previous ≡ false
      → Defs.record_meter f previous current price at a ≡ (
        record a {
          meter_previous_reading = some previous;
          meter_current_reading = some current;
          meter_unit_price = some price;
          meter_recorded_at = some at;
          amount = some (meter_amount f previous current price);
          status = status_pending_payment;
        },
        none,
      )
  unfolding Defs.record_meter
  metered previous current price at a electric pending up = rw (
    (eq_iff a.type type_electricity).1 electric,
    (eq_iff a.status status_pending_meter).1 pending,
    up,
  )

  -- An electricity bill that waits for its meter takes a reading that is not below the previous one
  -- and then owes usage times price, rounded. After that exactly a payment of this amount succeeds
  -- and makes the bill paid; any other payment is refused as a mismatch and leaves the bill waiting
  -- for its payment.
  pub meter_then_payment :
      (previous current amount : ℤ) (price : f.Float64) (at paid_at : Time) (method : String)
      (a : State f.Float64)
      → a.type ≡ type_electricity
      → a.status ≡ status_pending_meter
      → ltb_ℤ current previous ≡ false
      → let due = meter_amount f previous current price in
        let b = (apply (record_meter previous current price at) a).0 in
        let (c, e) = apply (record_payment amount method paid_at) b in
        (b.amount ≡ some due)
        × (e ≡ (if eqb_ℤ amount due then none else some bill_paid_amount_mismatch))
        × (c.status ≡ (if eqb_ℤ amount due then status_paid else status_pending_payment))
        × (c.paid_amount ≡ (if eqb_ℤ amount due then some amount else a.paid_amount))
  unfolding apply Defs.record_payment Defs.pay
  meter_then_payment previous current amount price at paid_at method a electric pending up =
      let due = meter_amount f previous current price in
      rw (metered previous current price at a electric pending up)
        (elim (Bool-cases (eqb_ℤ amount due)) [
          | inl same ↦ rw same (refl, refl, refl, refl)
          | inr differs ↦ rw differs (refl, refl, refl, refl)
        ])
