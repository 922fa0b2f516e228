-- ===== src/Periods/Coverage.antt =====
-- Every day of a lease lies in exactly one billing period, and no other day in any.
use stds_backend_go.Prelude.{
  ℕ, suc, ◌≤◌, ◌<◌, ◌≡◌, refl, ◌≢◌, false, ◌||◌, inl, inr, ◌⊎◌, String, List, [], ◌∷◌, arith,
  if◌then◌else◌, ok,
}
use stds_backend_go.GoTime.{
  Date, IsDate, Time, before, after, before-eq-ltb, next_day, next_day-IsDate, next_day-prev_day,
  prev_day, prev_day-IsDate, le-prev_day, lt-next_day, next_day-le, key,
}
use stds_backend_go.Periods.Defs.{
  Period, period_loop, anchored_next, anchored_due, build_anchored_periods, build_monthly_periods,
  window_end, build_natural_bimonthly_periods, build_billing_periods,
  build_rent_billing_periods_from_anchor, rent_cadence_months, rounds, cadence_monthly,
  cadence_bimonthly,
}
use stds_backend_go.Periods.Clamp.{anchored_next-IsDate, lt-anchored_next}
use stds_backend_go.Periods.Window.{window_end-IsDate, le-window_end}
use stds_backend_go.Periods.Loop.{Tiles, period_loop-Tiles}

-- How many of the periods have the day x in them.
unfoldable pub covering : Date → List Period → ℕ
covering x [] = 0
covering x (p ∷ ps) =
    if before x p.period_start || before p.period_end x then covering x ps else suc (covering x ps)

-- 1 from the day s to the day e, both included, and 0 on every other day.
abbrev pub once_between : Date → Date → Date → ℕ
once_between s e x = if before x s || before e x then 0 else 1

covering-Tiles :
    (s e x : Date) (ps : List Period)
    → IsDate s
    → IsDate e
    → IsDate x
    → Tiles s e ps
    → covering x ps ≡ once_between s e x
unfolding covering
covering-Tiles s e x [] vs ve vx h =
    ground (arith, before-eq-ltb x s vx vs, before-eq-ltb e x ve vx)
covering-Tiles s e x (p ∷ ps) vs ve vx (starts, vp, le_end, end_le, rest) = rw starts (
    ground (
      arith,
      covering-Tiles (next_day p.period_end) e x ps (next_day-IsDate p.period_end vp) ve vx rest,
      before-eq-ltb x s vx vs,
      before-eq-ltb e x ve vx,
      before-eq-ltb p.period_end x vp vx,
      before-eq-ltb x (next_day p.period_end) vx (next_day-IsDate p.period_end vp),
      lt-next_day p.period_end vp,
      next_day-le p.period_end x vp vx,
    ))

module _ (s e : Date) (vs : IsDate s) (ve : IsDate e) (due : Date → Date)
    (month_step anchor_day : ℕ) (hs : 1 ≤ month_step) (ha : 1 ≤ anchor_day) where
  abbrev next : Date → Date
  next = anchored_next month_step anchor_day

  next-IsDate : (d : Date) → IsDate d → IsDate (next d)
  next-IsDate d v = anchored_next-IsDate month_step anchor_day d hs ha v

  later : (d : Date) → IsDate d → key d < key (next d)
  later d v = lt-anchored_next month_step anchor_day d hs ha v

  pub anchored_loop-Tiles : Tiles s e (period_loop (λ d. prev_day (next d)) due next e (rounds e) s)
  anchored_loop-Tiles =
      period_loop-Tiles (λ d. prev_day (next d)) due next next-IsDate
        (λ d v. prev_day-IsDate d (next d) v (next-IsDate d v) (later d v))
        (λ d v. le-prev_day d (next d) v (next-IsDate d v) (later d v))
        (λ d v. next_day-prev_day (next d) (next-IsDate d v)) e ve (rounds e) s vs (omega arith)

module _ (s e : Date) (vs : IsDate s) (ve : IsDate e) (anchor_day : ℕ) where
  bimonthly-Tiles : Tiles s e (build_natural_bimonthly_periods s e anchor_day)
  unfolding build_natural_bimonthly_periods
  bimonthly-Tiles =
      period_loop-Tiles window_end (anchored_due anchor_day) (λ d. next_day (window_end d))
        (λ d v. next_day-IsDate (window_end d) (window_end-IsDate d v)) window_end-IsDate
        le-window_end (λ d v. refl) e ve (rounds e) s vs (omega arith)

  monthly-Tiles : 1 ≤ anchor_day → Tiles s e (build_monthly_periods s e anchor_day)
  unfolding build_monthly_periods
  monthly-Tiles ha =
      anchored_loop-Tiles s e vs ve (anchored_due anchor_day) 1 anchor_day (omega arith) ha

  anchored-Tiles :
      (month_step : ℕ)
      → 1 ≤ month_step
      → 1 ≤ anchor_day
      → Tiles s e (build_anchored_periods s e month_step anchor_day)
  unfolding build_anchored_periods
  anchored-Tiles month_step hs ha =
      anchored_loop-Tiles s e vs ve (λ d. d) month_step anchor_day hs ha

-- For a lease that does not end before it starts, an anchor day from 1 to 31 and a cadence that
-- counts months, the rent periods are built, and each day from the first to the last lies in
-- exactly one of them, and no other day in any.
pub rent_periods_cover :
    (s e : Time) (cadence : String) (anchor_day : ℕ) (x : Date)
    → IsDate s.date
    → IsDate e.date
    → IsDate x
    → after s e ≡ false
    → 1 ≤ anchor_day
    → anchor_day ≤ 31
    → rent_cadence_months cadence ≢ 0
    → (ps : List Period) × (build_rent_billing_periods_from_anchor s e cadence anchor_day ≡ ok ps)
      × (covering x ps ≡ once_between s.date e.date x)
unfolding build_rent_billing_periods_from_anchor rent_cadence_months
rent_periods_cover s e cadence anchor_day x vs ve vx h a b c = (
  build_anchored_periods s.date e.date (rent_cadence_months cadence) anchor_day,
  ground arith,
  covering-Tiles s.date e.date x _ vs ve vx
      (anchored-Tiles s.date e.date vs ve anchor_day (rent_cadence_months cadence) (omega arith) a),
)

-- For a lease that does not end before it starts and a cadence of one or two months, the
-- electricity periods are built, and each day from the first to the last lies in exactly one of
-- them, and no other day in any.
pub electricity_periods_cover :
    (s e : Time) (cadence : String) (x : Date)
    → IsDate s.date
    → IsDate e.date
    → IsDate x
    → after s e ≡ false
    → (cadence ≡ cadence_monthly) ⊎ (cadence ≡ cadence_bimonthly)
    → (ps : List Period) × (build_billing_periods s e cadence ≡ ok ps)
      × (covering x ps ≡ once_between s.date e.date x)
unfolding build_billing_periods
electricity_periods_cover s e cadence x vs ve vx h (inl m) = (
  build_monthly_periods s.date e.date s.date.day,
  rw (h, m),
  covering-Tiles s.date e.date x _ vs ve vx
      (monthly-Tiles s.date e.date vs ve s.date.day vs.day_pos),
)
electricity_periods_cover s e cadence x vs ve vx h (inr m) = (
  build_natural_bimonthly_periods s.date e.date s.date.day,
  rw (h, m),
  covering-Tiles s.date e.date x _ vs ve vx (bimonthly-Tiles s.date e.date vs ve s.date.day),
)
