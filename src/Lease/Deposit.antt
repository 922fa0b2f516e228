-- ===== src/Lease/Deposit.antt =====
-- Settling a deposit.
use stds_backend_go.Prelude.{
  ℕ, ◌+◌, ◌<◌, ◌≡◌, refl, ◌≢◌, true, false, String, Option, none, some, arith, subst, sym, eq_iff,
}
use stds_backend_go.Prelude.Int.{
  ℤ, pos, negsuc, ltb_ℤ, eqb_ℤ, add_int, half_range, add_int_nonneg, InInt, eq_of_eqb_ℤ,
  add_int_fits, eqb_ℤ_refl,
}
use stds_backend_go.Prelude.Text.{trim_space, trim_to_optional, string_value, eq_other}
use stds_backend_go.Lease.Defs.{
  State, settle_deposit, deposit_not_held, deposit_status_held, deposit_status_settled,
}

-- What a settlement of the deposit d by the refund r and the deduction c records.
pub record IsSettled (d r c : ℤ) (t : State) : Type 0 where
  pub parts : (m : ℕ) × (n : ℕ) × (r ≡ pos m) × (c ≡ pos n) × (d ≡ pos (m + n))
  pub refund : t.deposit_refund_amount ≡ some r
  pub deduction : t.deposit_deduction_amount ≡ some c
  pub status : t.deposit_status ≡ deposit_status_settled
  pub reason : c ≢ pos 0 → t.deposit_deduction_reason ≢ none

sum_exact :
    (r c : ℤ) (d : ℕ)
    → InInt r
    → InInt c
    → ltb_ℤ r (pos 0) ≡ false
    → ltb_ℤ c (pos 0) ≡ false
    → eqb_ℤ (add_int r c) (pos d) ≡ true
    → (m : ℕ) × (n : ℕ) × (r ≡ pos m) × (c ≡ pos n) × (pos d ≡ pos (m + n))
sum_exact (pos m) (pos n) d hr hc nr nc e = (
  m,
  n,
  refl,
  refl,
  ground (arith, add_int_nonneg m n {c = d} hr hc, eq_of_eqb_ℤ (add_int (pos m) (pos n)) (pos d)),
)
sum_exact (negsuc m) c d hr hc nr nc e = absurd (ground arith)
sum_exact (pos m) (negsuc n) d hr hc nr nc e = absurd (ground arith)

-- The tests that a settlement without an error has passed.
module _ (r c : ℤ) (reason : Option String) (s : State)
    (settled : (settle_deposit r c reason s).1 ≡ none) where
  was_held : s.deposit_status ≡ deposit_status_held
  unfolding settle_deposit
  was_held = ground (arith, eq_iff s.deposit_status deposit_status_held)

  refund_nonneg : ltb_ℤ r (pos 0) ≡ false
  unfolding settle_deposit
  refund_nonneg = ground arith

  deduction_nonneg : ltb_ℤ c (pos 0) ≡ false
  unfolding settle_deposit
  deduction_nonneg = ground arith

  sums_up : eqb_ℤ (add_int r c) s.deposit_amount ≡ true
  unfolding settle_deposit
  sums_up = ground arith

  reason_given : c ≢ pos 0 → (settle_deposit r c reason s).0.deposit_deduction_reason ≢ none
  unfolding settle_deposit trim_to_optional
  reason_given ne = given c refl
    where
      given : (x : ℤ) → c ≡ x → (settle_deposit r c reason s).0.deposit_deduction_reason ≢ none
      given (pos n) e = ground arith
      given (negsuc n) e = ground (arith, deduction_nonneg)

  amounts :
      ((settle_deposit r c reason s).0.deposit_refund_amount ≡ some r)
      × ((settle_deposit r c reason s).0.deposit_deduction_amount ≡ some c)
      × ((settle_deposit r c reason s).0.deposit_status ≡ deposit_status_settled)
  unfolding settle_deposit
  amounts = ground arith

-- When a settlement succeeds on a lease whose deposit is not negative, the deposit was held, refund
-- and deduction are not negative and make up the deposit to the last unit (the sum on `int` has not
-- wrapped), both are recorded, the deposit counts as settled, and a deduction has its reason.
pub settle_deposit-IsSettled :
    (r c : ℤ) (reason : Option String) (s : State) (d : ℕ)
    → InInt r
    → InInt c
    → s.deposit_amount ≡ pos d
    → (settle_deposit r c reason s).1 ≡ none
    → (s.deposit_status ≡ deposit_status_held)
      × IsSettled s.deposit_amount r c (settle_deposit r c reason s).0
settle_deposit-IsSettled r c reason s d hr hc hd h =
    let (a, b, st) = amounts r c reason s h in
    (
      was_held r c reason s h,
      record {
        parts =
            subst (λ x. (m : ℕ) × (n : ℕ) × (r ≡ pos m) × (c ≡ pos n) × (x ≡ pos (m + n))) (sym hd)
              (sum_exact r c d hr hc (refund_nonneg r c reason s h)
                (deduction_nonneg r c reason s h) (rw hd at (sums_up r c reason s h)));
        refund = a;
        deduction = b;
        status = st;
        reason = reason_given r c reason s h;
      },
    )

accepts :
    (m n : ℕ) (reason : Option String) (s : State)
    → s.deposit_status ≡ deposit_status_held
    → s.deposit_amount ≡ pos (m + n)
    → m + n < half_range
    → (n ≢ 0 → trim_space (string_value reason) ≢ "")
    → ((settle_deposit (pos m) (pos n) reason s).1 ≡ none)
      × ((settle_deposit (pos m) (pos n) reason s).0.deposit_status ≡ deposit_status_settled)
unfolding settle_deposit
accepts m n reason s held amount fits given = ground (
  arith,
  (eq_iff s.deposit_status deposit_status_held).1 held,
  eq_iff (trim_space (string_value reason)) "",
  add_int_fits m n fits,
  amount,
  eqb_ℤ_refl (pos (m + n)),
)

is_final :
    (r c : ℤ) (again : Option String) (s : State)
    → s.deposit_status ≡ deposit_status_settled
    → (settle_deposit r c again s).1 ≡ some deposit_not_held
unfolding settle_deposit
is_final r c again s e = ground (
  arith,
  eq_other s.deposit_status deposit_status_settled deposit_status_held refl
      ((eq_iff s.deposit_status deposit_status_settled).1 e),
)

-- A held deposit is settled by any refund m and deduction n that make it up, with a reason for a
-- deduction, and cannot be settled a second time, whatever the amounts.
pub settle_deposit_once :
    (m n : ℕ) (reason : Option String) (s : State) (r c : ℤ) (again : Option String)
    → s.deposit_status ≡ deposit_status_held
    → s.deposit_amount ≡ pos (m + n)
    → m + n < half_range
    → (n ≢ 0 → trim_space (string_value reason) ≢ "")
    → ((settle_deposit (pos m) (pos n) reason s).1 ≡ none)
      × ((settle_deposit r c again (settle_deposit (pos m) (pos n) reason s).0).1
          ≡ some deposit_not_held)
settle_deposit_once m n reason s r c again held amount fits given =
    let accepted = accepts m n reason s held amount fits given in
    (accepted.0, is_final r c again (settle_deposit (pos m) (pos n) reason s).0 accepted.1)
