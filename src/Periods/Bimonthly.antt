-- ===== src/Periods/Bimonthly.antt =====
-- Bimonthly periods stay in their natural windows.
use stds_backend_go.Prelude.{
  ℕ, zero, suc, ◌+◌, ◌%◌, ◌≤◌, ◌≡◌, refl, Bool-cases, inl, inr, All, arith, eqb,
}
use stds_backend_go.GoTime.{Date, IsDate, days_in_bounds, before, next_day, next_day-IsDate, key}
use stds_backend_go.Periods.Defs.{
  Period, period_loop, anchored_due, clamped_month_date, window_end, rounds,
  build_natural_bimonthly_periods,
}
use stds_backend_go.Periods.Loop.{is_before, not_before}
use stds_backend_go.Periods.Window.{even_month, window_end_lem, window_end-IsDate, le-window_end}

-- A period lies in one window (January and February, March and April, ...), and is due on the
-- anchor day of the month in which it starts.
abbrev pub InWindow : ℕ → Period → Type 0
InWindow anchor_day p =
    (p.period_end.year ≡ p.period_start.year)
    × (even_month p.period_end.month ≡ even_month p.period_start.month)
    × (p.due_date ≡ clamped_month_date p.period_start.year p.period_start.month anchor_day)

-- A day from d to the end of d's window is in that window.
same_window :
    (d x : Date)
    → IsDate d
    → IsDate x
    → key d ≤ key x
    → key x ≤ key (window_end d)
    → (x.year ≡ d.year) × (even_month x.month ≡ even_month d.month)
same_window d x v vx h k =
    let last = window_end_lem d v in
    elim (Bool-cases (eqb (d.month % 2) 0)) [
      | inl even ↦
          ground (arith, last, even, days_in_bounds d.year d.month, days_in_bounds x.year x.month)
      | inr odd ↦ ground (
        arith,
        last,
        odd,
        days_in_bounds d.year (d.month + 1),
        days_in_bounds d.year d.month,
        days_in_bounds x.year x.month,
      )
    ]

module _ (anchor_day : ℕ) (e : Date) (ve : IsDate e) where
  windows_loop :
      (fuel : ℕ) (d : Date)
      → IsDate d
      → All
          (InWindow anchor_day)
          (period_loop window_end (anchored_due anchor_day) (λ x. next_day (window_end x)) e fuel d)
  unfolding period_loop
  windows_loop zero d v = tt
  windows_loop (suc fuel) d v =
      let rest =
        windows_loop fuel (next_day (window_end d))
          (next_day-IsDate (window_end d) (window_end-IsDate d v)) in
      elim (Bool-cases (before e d)) [
        | inl done ↦ rw done tt
        | inr more ↦ elim (Bool-cases (before e (window_end d))) [
          | inl cut ↦
              let (y, m) =
                same_window d e v ve (not_before e d ve v more)
                  (omega (arith, is_before e (window_end d) ve (window_end-IsDate d v) cut)) in
              rw (more, cut) ((y, m, refl), rest)
          | inr whole ↦
              let (y, m) =
                same_window d (window_end d) v (window_end-IsDate d v) (le-window_end d v)
                  (omega arith) in
              rw (more, whole) ((y, m, refl), rest)
        ]
      ]

-- Each bimonthly electricity period lies in one natural window of two months, and is due on the
-- anchor day, or on the last day of a shorter month, in the month in which it starts.
pub bimonthly_in_windows :
    (s e : Date) (anchor_day : ℕ)
    → IsDate s
    → IsDate e
    → All (InWindow anchor_day) (build_natural_bimonthly_periods s e anchor_day)
unfolding build_natural_bimonthly_periods
bimonthly_in_windows s e anchor_day vs ve = windows_loop anchor_day e ve (rounds e) s vs
