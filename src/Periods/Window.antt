-- ===== src/Periods/Window.antt =====
-- The natural windows of two months.
use stds_backend_go.Prelude.{
  ℕ, ◌+◌, ◌-◌, ◌/◌, ◌%◌, ◌≤◌, ◌≡◌, refl, arith, Bool-cases, inl, inr, eqb, if◌then◌else◌,
}
use stds_backend_go.GoTime.{
  Date, date, IsDate, days_in, days_in_bounds, prev_day, go_date, go_date_lem, go_date_in_year, key,
}
use stds_backend_go.Periods.Defs.{clamped_month_date, window_end}
use stds_backend_go.Periods.Clamp.{year_of, month_of, last_day_lem, clamped_month_date_lem}

-- The even month of the window that month m lies in.
abbrev pub even_month : ℕ → ℕ
even_month m = if eqb (m % 2) 0 then m else m + 1

-- The first of a month needs no clamping.
first_of_month : (y m : ℕ) → 1 ≤ m → clamped_month_date y m 1 ≡ go_date y m 1
first_of_month y m h = rw (clamped_month_date_lem y m 1 h (omega arith)) (
    rw (go_date_lem y m 1 (omega arith) (omega (arith, days_in_bounds (year_of y m) (month_of m))))
      (ground (arith, days_in_bounds (year_of y m) (month_of m))))

before_first :
    (y m : ℕ)
    → 1 ≤ m
    → m ≤ 11
    → prev_day (clamped_month_date y (m + 2) 1) ≡ date y (m + 1) (days_in y (m + 1))
before_first y m h k =
    let e : m + 2 ≡ m + 1 + 1 = omega arith in
    let f : y + (m + 1 - 1) / 12 ≡ y = omega arith in
    let g : (m + 1 - 1) % 12 + 1 ≡ m + 1 = omega arith in
    rw e (
      rw (first_of_month y (m + 1 + 1) (omega arith))
        (rw (f, g) at (last_day_lem y (m + 1) (omega arith))))

pub window_end_lem :
    (d : Date)
    → IsDate d
    → window_end d ≡ date d.year (even_month d.month) (days_in d.year (even_month d.month))
unfolding window_end
window_end_lem d v = elim (Bool-cases (eqb (d.month % 2) 0)) [
  | inl even ↦ rw even (from_odd (d.month - 1) (ground arith) (ground arith) (ground arith))
  | inr odd ↦ rw odd (from_odd d.month v.month_pos (ground arith) refl)
]
  where
    from_odd :
        (m : ℕ) {n : ℕ}
        → 1 ≤ m
        → m ≤ 11
        → m + 1 ≡ n
        → prev_day (clamped_month_date (go_date d.year m 1).year (m + 2) 1)
          ≡ date d.year n (days_in d.year n)
    from_odd m a b e =
        rw
          (go_date_in_year d.year m 1 a (omega arith) (omega arith)
            (omega (arith, days_in_bounds d.year m)))
          (rw (← e) (before_first d.year m a b))

pub window_end-IsDate : (d : Date) → IsDate d → IsDate (window_end d)
window_end-IsDate d v =
    rw (window_end_lem d v) (ground (arith, days_in_bounds d.year (even_month d.month)))

pub le-window_end : (d : Date) → IsDate d → key d ≤ key (window_end d)
le-window_end d v = rw (window_end_lem d v) (elim (Bool-cases (eqb (d.month % 2) 0)) [
  | inl even ↦ rw even (omega (arith, v))
  | inr odd ↦ rw odd (omega (arith, v, days_in_bounds d.year d.month))
])
