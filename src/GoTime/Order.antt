-- ===== src/GoTime/Order.antt =====
-- Dates and their order.
use stds_backend_go.Prelude.{
  ℕ, ◌+◌, ◌*◌, ◌%◌, ◌≤◌, Bool, true, false, ◌||◌, ◌≡◌, arith, ltb, eqb, if◌then◌else◌,
}

pub record Date : Type 0 where
  pub year : ℕ
  pub month : ℕ
  pub day : ℕ

-- A date and the nanoseconds since midnight.
pub record Time : Type 0 where
  pub date : Date
  pub clock : ℕ

abbrev pub date : ℕ → ℕ → ℕ → Date
date y m d = record { year = y; month = m; day = d }

unfoldable pub is_leap : ℕ → Bool
is_leap y = if eqb (y % 4) 0 then (if eqb (y % 100) 0 then eqb (y % 400) 0 else true) else false

unfoldable pub days_in : ℕ → ℕ → ℕ
unfolding is_leap
days_in y m =
    if eqb m 2
    then (if is_leap y then 29 else 28)
    else if eqb m 4 || eqb m 6 || eqb m 9 || eqb m 11
    then 30
    else 31

pub record IsDate (d : Date) : Type 0 where
  pub year_pos : 1 ≤ d.year
  pub month_pos : 1 ≤ d.month
  pub month_le : d.month ≤ 12
  pub day_pos : 1 ≤ d.day
  pub day_le : d.day ≤ days_in d.year d.month

pub days_in_bounds : (y m : ℕ) → (28 ≤ days_in y m) × (days_in y m ≤ 31)
unfolding days_in
days_in_bounds y m = ground arith

-- `a.Before(b)` on two midnights.
unfoldable pub before : Date → Date → Bool
before a b =
    if ltb a.year b.year
    then true
    else if ltb b.year a.year
    then false
    else if ltb a.month b.month
    then true
    else if ltb b.month a.month
    then false
    else ltb a.day b.day

-- `a.After(b)`.
unfoldable pub after : Time → Time → Bool
unfolding before
after a b =
    if before b.date a.date
    then true
    else if before a.date b.date
    then false
    else ltb b.clock a.clock

-- A number that grows with the date: it leaves gaps at the end of a month.
abbrev pub key : Date → ℕ
key d = d.year * 372 + d.month * 31 + d.day

pub before-eq-ltb : (a b : Date) → IsDate a → IsDate b → before a b ≡ ltb (key a) (key b)
unfolding before
before-eq-ltb a b va vb =
    ground (arith, days_in_bounds a.year a.month, days_in_bounds b.year b.month)

pub eq_of_key : (a b : Date) → IsDate a → IsDate b → key a ≡ key b → a ≡ b
eq_of_key a b va vb h = ground (arith, days_in_bounds a.year a.month, days_in_bounds b.year b.month)
