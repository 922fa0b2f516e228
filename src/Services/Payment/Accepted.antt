-- ===== src/Services/Payment/Accepted.antt =====
-- What a payment that the bill aggregate accepts writes.
use stds_backend_go.Prelude.{
  ◌≡◌, refl, sym, ap, ◌∙◌, true, false, not, ◌⊎◌, inl, inr, Bool-cases, ◌==◌, ok-injective, ok,
  none, some, Option, Bool, String, eq_iff, if◌then◌else◌,
}
use stds_backend_go.Prelude.Int.{ℤ, eqb_ℤ, eq_of_eqb_ℤ}
use stds_backend_go.Prelude.Text.{trim_space}
use stds_backend_go.GoTime.{Time}
use stds_backend_go.Bill.Defs
use stds_backend_go.Bill.Defs.{
  State, pay, rehydrate, bill_paid_amount_mismatch, status_pending_payment, status_overdue,
  status_paid,
}
use stds_backend_go.Services.Payment.{method_result}

-- What the aggregate has accepted and written.
pub record IsPayment {F : Type 0} (amount : ℤ) (method : String) (paid_at : Time)
    (before after : State F) : Type 0 where
  pub due : before.amount ≡ some amount
  pub payable : (before.status ≡ status_pending_payment) ⊎ (before.status ≡ status_overdue)
  pub written : after ≡ record before {
    paid_amount = some amount;
    payment_method = some (trim_space method);
    paid_at = some paid_at;
    status = status_paid;
  }

pay-IsPayment :
    {F : Type 0} (amount : ℤ) (method : String) (paid_at : Time) (before : State F) (o : Option ℤ)
    {after : State F}
    → before.amount ≡ o
    → (before.status ≡ status_pending_payment) ⊎ (before.status ≡ status_overdue)
    → method_result (pay amount method paid_at o before) ≡ ok after
    → IsPayment amount method paid_at before after
unfolding pay
pay-IsPayment amount method paid_at before none e p h = cc h
pay-IsPayment {F} amount method paid_at before (some due) {after} e p h =
    by_test (eqb_ℤ amount due) refl h
  where
    by_test :
        (b : Bool)
        → eqb_ℤ amount due ≡ b
        → method_result (
            if not b then (before, some bill_paid_amount_mismatch) else (
              record before {
                paid_amount = some amount;
                payment_method = some (trim_space method);
                paid_at = some paid_at;
                status = status_paid;
              },
              none,
            ))
          ≡ ok after
        → IsPayment amount method paid_at before after
    by_test false same k = cc k
    by_test true same k = record {
      due = e ∙ ap some (sym (eq_of_eqb_ℤ amount due same));
      payable = p;
      written = sym (ok-injective k);
    }

pub record_payment-IsPayment :
    {F : Type 0} (amount : ℤ) (method : String) (paid_at : Time) (before : State F)
    {after : State F}
    → method_result (Defs.record_payment amount method paid_at before) ≡ ok after
    → IsPayment amount method paid_at before after
unfolding Defs.record_payment
record_payment-IsPayment amount method paid_at before h =
    elim (Bool-cases (before.status == status_paid)) [
      | inl paid ↦ cc (rw paid at h)
      | inr unpaid ↦ elim (Bool-cases (before.status == status_pending_payment)) [
        | inl pending ↦
            pay-IsPayment amount method paid_at before before.amount refl
              (inl ((eq_iff before.status status_pending_payment).0 pending))
              (rw (unpaid, pending) at h)
        | inr other ↦ elim (Bool-cases (before.status == status_overdue)) [
          | inl late ↦
              pay-IsPayment amount method paid_at before before.amount refl
                (inr ((eq_iff before.status status_overdue).0 late)) (rw (unpaid, other, late) at h)
          | inr closed ↦ cc (rw (unpaid, other, closed) at h)
        ]
      ]
    ]
