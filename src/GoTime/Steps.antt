-- ===== src/GoTime/Steps.antt =====
-- `time.Date` and `AddDate`.
use stds_backend_go.Prelude.{
  ℕ, zero, suc, ◌+◌, ◌-◌, ◌/◌, ◌%◌, ◌≤◌, ◌<◌, ◌≡◌, arith, ltb, if◌then◌else◌,
}
use stds_backend_go.GoTime.Order.{Date, date, IsDate, days_in, days_in_bounds, key}

-- `t.AddDate(0, 0, 1)`.
unfoldable pub next_day : Date → Date
next_day d =
    if ltb d.day (days_in d.year d.month)
    then date d.year d.month (d.day + 1)
    else if ltb d.month 12
    then date d.year (d.month + 1) 1
    else date (d.year + 1) 1 1

-- `t.AddDate(0, 0, -1)`.
unfoldable pub prev_day : Date → Date
prev_day d =
    if ltb 1 d.day
    then date d.year d.month (d.day - 1)
    else if ltb 1 d.month
    then date d.year (d.month - 1) (days_in d.year (d.month - 1))
    else date (d.year - 1) 12 (days_in (d.year - 1) 12)

-- `t.AddDate(0, 0, n)`.
unfoldable pub add_days : ℕ → Date → Date
add_days zero d = d
add_days (suc n) d = add_days n (next_day d)

-- `time.Date(y, m, d, 0, 0, 0, 0, location)` for m and d from 1 on: a month past December goes on in
-- the years that follow, a day past the month's end in the months that follow.
unfoldable pub go_date : ℕ → ℕ → ℕ → Date
unfolding add_days next_day
go_date y m d = add_days (d - 1) (date (y + (m - 1) / 12) ((m - 1) % 12 + 1) 1)

pub next_day-IsDate : (d : Date) → IsDate d → IsDate (next_day d)
unfolding next_day
next_day-IsDate d v =
    ground (arith, days_in_bounds d.year (d.month + 1), days_in_bounds (d.year + 1) 1)

-- The next day comes later, and nothing lies between.
pub lt-next_day : (d : Date) → IsDate d → key d < key (next_day d)
unfolding next_day
lt-next_day d v = ground (arith, days_in_bounds d.year d.month)

pub next_day-le : (d e : Date) → IsDate d → IsDate e → key d < key e → key (next_day d) ≤ key e
unfolding next_day
next_day-le d e v w h = ground (arith, days_in_bounds d.year d.month, days_in_bounds e.year e.month)

pub next_day-prev_day : (d : Date) → IsDate d → next_day (prev_day d) ≡ d
unfolding next_day prev_day
next_day-prev_day d v = ground (
  arith,
  days_in_bounds d.year d.month,
  days_in_bounds d.year (d.month - 1),
  days_in_bounds (d.year - 1) 12,
)

-- The day before is a date, unless this is the first day of all.
pub prev_day-IsDate : (e d : Date) → IsDate e → IsDate d → key e < key d → IsDate (prev_day d)
unfolding prev_day
prev_day-IsDate e d w v h = ground (
  arith,
  days_in_bounds e.year e.month,
  days_in_bounds d.year d.month,
  days_in_bounds d.year (d.month - 1),
  days_in_bounds (d.year - 1) 12,
)

pub le-prev_day : (e d : Date) → IsDate e → IsDate d → key e < key d → key e ≤ key (prev_day d)
unfolding prev_day
le-prev_day e d w v h = ground (
  arith,
  days_in_bounds e.year e.month,
  days_in_bounds d.year d.month,
  days_in_bounds d.year (d.month - 1),
  days_in_bounds (d.year - 1) 12,
)

pub prev_day-lt : (d : Date) → IsDate d → key (prev_day d) < key d
unfolding prev_day
prev_day-lt d v =
    ground (arith, days_in_bounds d.year (d.month - 1), days_in_bounds (d.year - 1) 12)

next_in_month : (y m d : ℕ) → d < days_in y m → next_day (date y m d) ≡ date y m (d + 1)
unfolding next_day
next_in_month y m d h = ground arith

-- Within a month the day simply counts up.
add_days_in_month : (n y m d : ℕ) → d + n ≤ days_in y m → add_days n (date y m d) ≡ date y m (d + n)
unfolding add_days
add_days_in_month zero y m d h = ground arith
add_days_in_month (suc n) y m d h =
    rw (next_in_month y m d (omega arith))
      (rw (add_days_in_month n y m (d + 1) (omega arith)) (ground arith))

pub go_date_lem :
    (y m d : ℕ)
    → 1 ≤ d
    → d ≤ days_in (y + (m - 1) / 12) ((m - 1) % 12 + 1)
    → go_date y m d ≡ date (y + (m - 1) / 12) ((m - 1) % 12 + 1) d
unfolding go_date
go_date_lem y m d p q =
    rw (add_days_in_month (d - 1) (y + (m - 1) / 12) ((m - 1) % 12 + 1) 1 (omega arith))
      (ground arith)

-- A month number that is in range stays as it is.
pub go_date_in_year :
    (y m d : ℕ) → 1 ≤ m → m ≤ 12 → 1 ≤ d → d ≤ days_in y m → go_date y m d ≡ date y m d
go_date_in_year y m d a b p q =
    let e : y + (m - 1) / 12 ≡ y = omega arith in
    let f : (m - 1) % 12 + 1 ≡ m = omega arith in rw (e, f) at (go_date_lem y m d p (rw (e, f) q))
