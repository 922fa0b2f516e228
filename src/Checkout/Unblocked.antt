-- ===== src/Checkout/Unblocked.antt =====
-- A settlement without blockers can be finalized.
use stds_backend_go.Prelude.{
  ◌≡◌, refl, ◌≢◌, ℕ, ◌+◌, ◌≤◌, true, false, List, [], ◌∷◌, Option, none, some, inl, inr, Bool-cases,
  if◌then◌else◌, arith, ◌==◌, All,
}
use stds_backend_go.Prelude.Int.{ltb_ℤ}
use stds_backend_go.GoTime.{before}
use stds_backend_go.Periods.Defs.{normalize_date}
use stds_backend_go.Lease.Defs.{State, deposit_status_held, is_terminable_status}
use stds_backend_go.Checkout.Defs.{
  Bill, CheckoutInput, Line, settlement_totals, has_value, same_day, resolvable_from,
}

-- The number of bills that wait for their meter reading.
unfoldable pub pending_meters : List Bill → ℕ
pending_meters [] = 0
pending_meters (bill ∷ bills) =
    (if bill.status == "pending_meter" then 1 else 0) + pending_meters bills

-- The checkout reads the meter of the bill: a final reading is given for an electricity bill whose
-- period ends on the day of the checkout.
pub record IsRead (input : CheckoutInput) (bill : Bill) : Type 0 where
  pub given : has_value input.final_meter_reading ≡ true
  pub electricity : bill.type ≡ "electricity"
  pub on_the_day :
      same_day (normalize_date input.checkout_date) (normalize_date bill.period_end) ≡ true

-- A bill that is neither waiting for its payment nor overdue, nor waiting for a meter reading that
-- the checkout does not make.
abbrev pub IsCleared : CheckoutInput → Bill → Type 0
IsCleared input bill =
    (bill.status ≢ "pending_payment")
    × (bill.status ≢ "overdue")
    × (bill.status ≡ "pending_meter" → IsRead input bill)

module _ (input : CheckoutInput) (given : has_value input.final_meter_reading ≡ true) where
  -- The loop that looks for the bill has met one pending bill at most.
  one_pending :
      (candidate : Option Bill) (bills : List Bill) {found : Bill}
      → resolvable_from input candidate bills ≡ some found
      → (if has_value candidate then 1 else 0) + pending_meters bills ≡ 1
  unfolding resolvable_from pending_meters
  one_pending none [] h = cc h
  one_pending (some c) [] h = refl
  one_pending candidate (bill ∷ bills) h = elim (Bool-cases (bill.status == "pending_meter")) [
    | inr other ↦ let rest = one_pending candidate bills (rw other at h) in rw other (omega arith)
    | inl pending ↦ elim (Bool-cases (has_value candidate)) [
      | inl second ↦ cc (rw (pending, second) at h)
      | inr first ↦ elim (Bool-cases (bill.type == "electricity")) [
        | inr differs ↦ cc (rw (pending, first, differs) at h)
        | inl electric ↦
            elim (Bool-cases
              (same_day (normalize_date input.checkout_date) (normalize_date bill.period_end))) [
                | inr late ↦ cc (rw (pending, first, electric, late) at h)
                | inl same ↦
                    let rest : 1 + pending_meters bills ≡ 1 =
                      one_pending (some bill) bills (rw (pending, first, electric, same) at h) in
                    rw (pending, first) (omega arith)
              ]
      ]
    ]
  ]

-- What holds where nothing blocks a settlement.
pub record IsUnblocked (lease : State) (bills : List Bill) (input : CheckoutInput)
    (lines : List Line) : Type 0 where
  pub terminable : is_terminable_status lease.status ≡ true
  pub held : lease.deposit_status ≡ deposit_status_held
  pub started :
      before (normalize_date input.checkout_date) (normalize_date lease.start_date) ≡ false
  pub cleared : All (IsCleared input) bills
  pub one_pending : pending_meters bills ≤ 1
  pub covered : ltb_ℤ lease.deposit_amount (settlement_totals lines).1 ≡ false
