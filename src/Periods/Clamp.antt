-- ===== src/Periods/Clamp.antt =====
-- The date in a given month whose day is the anchor day, or the month's last day if that is less.
use stds_backend_go.Prelude.{ℕ, ◌+◌, ◌-◌, ◌*◌, ◌/◌, ◌%◌, ◌≤◌, ◌<◌, ◌≡◌, arith, ltb, if◌then◌else◌}
use stds_backend_go.GoTime.{
  Date, date, IsDate, days_in, days_in_bounds, prev_day, go_date, go_date_lem, key,
}
use stds_backend_go.Periods.Defs.{clamped_month_date, anchored_next}

-- The year and the month that month number m of year y stands for.
abbrev pub year_of : ℕ → ℕ → ℕ
year_of y m = y + (m - 1) / 12

abbrev pub month_of : ℕ → ℕ
month_of m = (m - 1) % 12 + 1

abbrev pub min_day : ℕ → ℕ → ℕ
min_day day last = if ltb last day then last else day

-- The day before the first of month m + 1 is the last day of month m.
pub last_day_lem :
    (y m : ℕ)
    → 1 ≤ m
    → prev_day (go_date y (m + 1) 1)
      ≡ date (year_of y m) (month_of m) (days_in (year_of y m) (month_of m))
unfolding prev_day
last_day_lem y m h =
    rw
      (go_date_lem y (m + 1) 1 (omega arith)
        (omega (arith, days_in_bounds (y + (m + 1 - 1) / 12) ((m + 1 - 1) % 12 + 1))))
      (ground arith)

pub clamped_month_date_lem :
    (y m day : ℕ)
    → 1 ≤ m
    → 1 ≤ day
    → clamped_month_date y m day
      ≡ date (year_of y m) (month_of m) (min_day day (days_in (year_of y m) (month_of m)))
unfolding clamped_month_date
clamped_month_date_lem y m day h k =
    rw (last_day_lem y m h)
      (go_date_lem y m _ (ground (arith, days_in_bounds (year_of y m) (month_of m))) (ground arith))

-- Month numbers count on across the years.
pub month_index : (y m : ℕ) → 1 ≤ m → year_of y m * 12 + month_of m ≡ y * 12 + m
month_index y m h = omega arith

pub clamped_month_date-IsDate :
    (y m day : ℕ) → 1 ≤ y → 1 ≤ m → 1 ≤ day → IsDate (clamped_month_date y m day)
clamped_month_date-IsDate y m day hy hm hd =
    rw (clamped_month_date_lem y m day hm hd)
      (ground (arith, days_in_bounds (year_of y m) (month_of m)))

module _ (month_step anchor_day : ℕ) (d : Date) (hs : 1 ≤ month_step) (ha : 1 ≤ anchor_day) where
  pub anchored_next-IsDate : IsDate d → IsDate (anchored_next month_step anchor_day d)
  anchored_next-IsDate v =
      clamped_month_date-IsDate d.year (d.month + month_step) anchor_day v.year_pos (omega arith) ha

  pub lt-anchored_next : IsDate d → key d < key (anchored_next month_step anchor_day d)
  lt-anchored_next v =
      rw (clamped_month_date_lem d.year (d.month + month_step) anchor_day (omega arith) ha) (
        ground (
          arith,
          days_in_bounds d.year d.month,
          days_in_bounds (year_of d.year (d.month + month_step)) (month_of (d.month + month_step)),
        ))
