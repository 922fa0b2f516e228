-- ===== src/Periods/NextPayment.antt =====
-- `NextRentPaymentDateAfter` finds the first payment date after the operation date.
use stds_backend_go.Prelude.{
  ℕ, zero, suc, ◌+◌, ◌*◌, ◌≤◌, ◌<◌, ◌≡◌, refl, ◌∙◌, true, false, Bool-cases, inl, inr, String,
  arith, eqb, if◌then◌else◌, iterate,
}
use stds_backend_go.GoTime.{Date, IsDate, Time, before, before-eq-ltb, key}
use stds_backend_go.Periods.Defs.{
  clamped_month_date, anchored_next, payment_loop, rent_cadence_months, rounds,
  next_rent_payment_date_after,
}
use stds_backend_go.Periods.Clamp.{anchored_next-IsDate, lt-anchored_next}
use stds_backend_go.Periods.Anchor.{boundary}

-- r is the first of the dates d, next d, next (next d), ... that lies after o.
abbrev pub IsFirstAfter : Date → (ℕ → Date) → Date → Type 0
IsFirstAfter o dates r =
    (k : ℕ) × (r ≡ dates k)
    × (before o (dates k) ≡ true)
    × ((j : ℕ) → j < k → before o (dates j) ≡ false)

module _ (months anchor_day : ℕ) (hm : 1 ≤ months) (ha : 1 ≤ anchor_day) (o : Date)
    (vo : IsDate o) where
  payment_loop_first :
      (fuel : ℕ) (d : Date)
      → IsDate d
      → key o < fuel + key d
      → IsFirstAfter o
          (λ i. iterate i (anchored_next months anchor_day) d)
          (payment_loop months anchor_day o fuel d)
  unfolding payment_loop
  payment_loop_first zero d v h =
      (0, refl, before-eq-ltb o d vo v ∙ ground arith, λ j lt. absurd (omega arith))
  payment_loop_first (suc fuel) d v h = elim (Bool-cases (before o d)) [
    | inl done ↦ (0, rw done, done, λ j lt. absurd (omega arith))
    | inr more ↦ rw more (
        one_more d more (
          payment_loop_first fuel (anchored_next months anchor_day d)
            (anchored_next-IsDate months anchor_day d hm ha v)
            (omega (arith, lt-anchored_next months anchor_day d hm ha v))))
  ]
    where
      one_more :
          (x : Date) {r : Date}
          → before o x ≡ false
          → IsFirstAfter o
              (λ i. iterate i (anchored_next months anchor_day) (anchored_next months anchor_day x))
              r
          → IsFirstAfter o (λ i. iterate i (anchored_next months anchor_day) x) r
      one_more x p (k, e, a, earlier) = (suc k, e, a, shift)
        where
          shift :
              (j : ℕ) → j < suc k → before o (iterate j (anchored_next months anchor_day) x) ≡ false
          shift zero lt = p
          shift (suc j) lt = earlier j (omega arith)

-- For a rent cadence of n months (one, if the cadence is none that is known) the payment dates are
-- the days 0, n, 2n, ... months after the month of the lease start, on the start day or on the last
-- day of a shorter month. The result is the first of them that lies after the operation date.
pub next_payment_first :
    (lease_start operation_date : Time) (cadence : String)
    → IsDate lease_start.date
    → IsDate operation_date.date
    → let start = lease_start.date in
      let n = rent_cadence_months cadence in
      let months = if eqb n 0 then 1 else n in
      IsFirstAfter operation_date.date
        (λ i. clamped_month_date start.year (start.month + i * months) start.day)
        (next_rent_payment_date_after lease_start operation_date cadence)
unfolding next_rent_payment_date_after
next_payment_first lease_start operation_date cadence vs vo =
    let n = rent_cadence_months cadence in
    let months = if eqb n 0 then 1 else n in
    let start = lease_start.date in
    let (k, e, a, earlier) =
      payment_loop_first months start.day (ground arith) vs.day_pos operation_date.date vo
        (rounds operation_date.date) start vs (omega arith) in
    (
      k,
      e ∙ boundary months k start vs,
      rw (← boundary months k start vs) a,
      λ j lt. rw (← boundary months j start vs) (earlier j lt),
    )
