-- ===== src/Periods/Anchor.antt =====
-- The starts of the anchored periods in closed form: they do not drift from the anchor day.
use stds_backend_go.Prelude.{
  ℕ, zero, suc, ◌+◌, ◌*◌, ◌≤◌, ◌≡◌, refl, sym, ◌∙◌, ap, subst, Bool-cases, inl, inr, String, List,
  some, arith, ok, get_elem?, iterate,
}
use stds_backend_go.GoTime.{Date, IsDate, Time, days_in_bounds, before, prev_day}
use stds_backend_go.Periods.Defs.{
  Period, period_loop, clamped_month_date, anchored_next, anchored_due, build_anchored_periods,
  build_monthly_periods, build_billing_periods, build_rent_billing_periods_from_anchor,
  build_rent_billing_periods, rent_cadence_months, rounds, cadence_monthly,
}
use stds_backend_go.Periods.Clamp.{year_of, month_of, clamped_month_date_lem}

-- A round of the loop from a clamped date stays on the anchor.
anchored_next-clamped :
    (month_step anchor_day y m : ℕ)
    → 1 ≤ m
    → 1 ≤ anchor_day
    → anchored_next month_step anchor_day (clamped_month_date y m anchor_day)
      ≡ clamped_month_date y (m + month_step) anchor_day
anchored_next-clamped month_step anchor_day y m hm ha =
    let e : year_of (year_of y m) (month_of m + month_step) ≡ year_of y (m + month_step) =
      omega arith in
    let f : month_of (month_of m + month_step) ≡ month_of (m + month_step) = omega arith in
    rw (clamped_month_date_lem y m anchor_day hm ha) (
      rw
        (clamped_month_date_lem (year_of y m) (month_of m + month_step) anchor_day (omega arith) ha)
        (rw (clamped_month_date_lem y (m + month_step) anchor_day (omega arith) ha) (rw (e, f))))

pub iterate-anchored_next :
    (n month_step anchor_day y m : ℕ)
    → 1 ≤ m
    → 1 ≤ anchor_day
    → iterate n (anchored_next month_step anchor_day) (clamped_month_date y m anchor_day)
      ≡ clamped_month_date y (m + n * month_step) anchor_day
iterate-anchored_next zero month_step anchor_day y m hm ha =
    ap (λ k. clamped_month_date y k anchor_day) (omega arith)
iterate-anchored_next (suc n) month_step anchor_day y m hm ha =
    rw (anchored_next-clamped month_step anchor_day y m hm ha) (
      iterate-anchored_next n month_step anchor_day y (m + month_step) (omega arith) ha
      ∙ ap (λ k. clamped_month_date y k anchor_day) (grind arith))

-- A date is on its own day.
pub clamped_self : (d : Date) → IsDate d → clamped_month_date d.year d.month d.day ≡ d
clamped_self d v =
    rw (clamped_month_date_lem d.year d.month d.day v.month_pos v.day_pos)
      (ground (arith, this_year))
  where
    this_year : (year_of d.year d.month ≡ d.year) × (month_of d.month ≡ d.month)
    this_year = omega arith

-- The i-th period of the loop starts where i rounds lead, and is due on the day that `due` says.
get_elem?-period_loop :
    (last due next : Date → Date) (e : Date) (fuel : ℕ) (d : Date) (i : ℕ) {p : Period}
    → get_elem? (period_loop last due next e fuel d) i ≡ some p
    → (p.period_start ≡ iterate i next d) × (p.due_date ≡ due (iterate i next d))
unfolding period_loop
get_elem?-period_loop last due next e zero d i h = cc
get_elem?-period_loop last due next e (suc fuel) d zero h = ground arith
get_elem?-period_loop last due next e (suc fuel) d (suc i) h = elim (Bool-cases (before e d)) [
  | inl done ↦ cc (rw done at h)
  | inr more ↦ get_elem?-period_loop last due next e fuel (next d) i (rw more at h)
]

pub boundary :
    (months i : ℕ) (d : Date)
    → IsDate d
    → iterate i (anchored_next months d.day) d
      ≡ clamped_month_date d.year (d.month + i * months) d.day
boundary months i d v =
    ap (iterate i (anchored_next months d.day)) (sym (clamped_self d v))
    ∙ iterate-anchored_next i months d.day d.year d.month v.month_pos v.day_pos

anchored_starts :
    (months : ℕ) (d e : Date) (i : ℕ) {p : Period}
    → IsDate d
    → get_elem? (build_anchored_periods d e months d.day) i ≡ some p
    → (p.period_start ≡ clamped_month_date d.year (d.month + i * months) d.day)
      × (p.due_date ≡ p.period_start)
unfolding build_anchored_periods
anchored_starts months d e i {p} v h =
    let next = anchored_next months d.day in
    let at_i =
      get_elem?-period_loop (λ x. prev_day (next x)) (λ x. x) next e (rounds e) d i {p = p} h in
    (at_i.0 ∙ boundary months i d v, at_i.1 ∙ sym at_i.0)

-- The i-th rent period of a lease, for every i, starts i cadences after the month of the lease
-- start, on the day of the lease start or on the last day of a month that is too short for it,
-- and is due on the day it starts. A short month does not move the later periods.
pub rent_period_starts :
    (s e : Time) (cadence : String) (i : ℕ) {ps : List Period} {p : Period}
    → IsDate s.date
    → build_rent_billing_periods s e cadence ≡ ok ps
    → get_elem? ps i ≡ some p
    → (p.period_start
        ≡ clamped_month_date s.date.year
            (s.date.month + i * rent_cadence_months cadence)
            s.date.day)
      × (p.due_date ≡ p.period_start)
unfolding build_rent_billing_periods build_rent_billing_periods_from_anchor rent_cadence_months
rent_period_starts s e cadence i {ps} {p} v built at_i =
    let months = rent_cadence_months cadence in
    let h : build_anchored_periods s.date e.date months s.date.day ≡ ps = ground arith in
    anchored_starts months s.date e.date i v (ap (λ l. get_elem? l i) h ∙ at_i)

anchored_due-clamped :
    (y m anchor_day : ℕ)
    → 1 ≤ m
    → 1 ≤ anchor_day
    → anchored_due anchor_day (clamped_month_date y m anchor_day)
      ≡ clamped_month_date y m anchor_day
anchored_due-clamped y m anchor_day hm ha =
    let e : year_of (year_of y m) (month_of m) ≡ year_of y m = omega arith in
    let f : month_of (month_of m) ≡ month_of m = omega arith in
    rw (clamped_month_date_lem y m anchor_day hm ha) (
      rw (clamped_month_date_lem (year_of y m) (month_of m) anchor_day (omega arith) ha)
        (rw (e, f)))

-- Where the start is on the anchor day, the due date of a monthly period is its first day.
same_due :
    (anchor_day : ℕ) (last : Date → Date) (e : Date) (fuel y m : ℕ)
    → 1 ≤ m
    → 1 ≤ anchor_day
    → period_loop last
        (anchored_due anchor_day)
        (anchored_next 1 anchor_day)
        e
        fuel
        (clamped_month_date y m anchor_day)
      ≡ period_loop last
          (λ d. d)
          (anchored_next 1 anchor_day)
          e
          fuel
          (clamped_month_date y m anchor_day)
unfolding period_loop
same_due anchor_day last e zero y m hm ha = refl
same_due anchor_day last e (suc fuel) y m hm ha =
    rw (anchored_due-clamped y m anchor_day hm ha, anchored_next-clamped 1 anchor_day y m hm ha)
      (rw (same_due anchor_day last e fuel y (m + 1) (omega arith) ha))

monthly-eq-anchored :
    (d e : Date) → IsDate d → build_monthly_periods d e d.day ≡ build_anchored_periods d e 1 d.day
unfolding build_monthly_periods build_anchored_periods
monthly-eq-anchored d e v =
    let last = λ (x : Date). prev_day (anchored_next 1 d.day x) in
    subst
      (λ x.
        period_loop last (anchored_due d.day) (anchored_next 1 d.day) e (rounds e) x
        ≡ period_loop last (λ y. y) (anchored_next 1 d.day) e (rounds e) x)
      (clamped_self d v) (same_due d.day last e (rounds e) d.year d.month v.month_pos v.day_pos)

-- Monthly electricity periods are the monthly rent periods of the same lease, errors included.
pub monthly_electricity-eq-rent :
    (s e : Time)
    → IsDate s.date
    → build_billing_periods s e cadence_monthly ≡ build_rent_billing_periods s e cadence_monthly
unfolding build_billing_periods build_rent_billing_periods build_rent_billing_periods_from_anchor
monthly_electricity-eq-rent s e v =
    ground (arith, monthly-eq-anchored s.date e.date v, days_in_bounds s.date.year s.date.month)
