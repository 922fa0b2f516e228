-- ===== src/Periods/Loop.antt =====
-- The shared loop: when each round moves to the day after its period, the periods tile the days
-- from the first to the last, and the fuel does not run out.
use stds_backend_go.Prelude.{
  ℕ, zero, suc, ◌+◌, ◌≤◌, ◌<◌, ◌≡◌, refl, true, false, Bool-cases, inl, inr, List, [], ◌∷◌, arith,
  ltb, ltb→lt, sym, ◌∙◌,
}
use stds_backend_go.GoTime.{Date, IsDate, before, before-eq-ltb, next_day, lt-next_day, key}
use stds_backend_go.Periods.Defs.{Period, period_loop}

-- The periods in ps follow one another without a gap, the first of them starts on s, none is empty,
-- and the last ends on e; there is none if e lies before s.
abbrev pub Tiles : Date → Date → List Period → Type 0
Tiles s e [] = key e < key s
Tiles s e (p ∷ ps) =
    (p.period_start ≡ s)
    × (IsDate p.period_end)
    × (key s ≤ key p.period_end)
    × (key p.period_end ≤ key e)
    × Tiles (next_day p.period_end) e ps

pub is_before : (a b : Date) → IsDate a → IsDate b → before a b ≡ true → key a < key b
is_before a b va vb h = ltb→lt (key a) (key b) (sym (before-eq-ltb a b va vb) ∙ h)

pub not_before : (a b : Date) → IsDate a → IsDate b → before a b ≡ false → key b ≤ key a
not_before a b va vb h = ltb-false (key a) (key b) (sym (before-eq-ltb a b va vb) ∙ h)
  where
    ltb-false : (m n : ℕ) → ltb m n ≡ false → n ≤ m
    ltb-false m n p = ground arith

module _ (last due next : Date → Date) (next-IsDate : (d : Date) → IsDate d → IsDate (next d))
    (last-IsDate : (d : Date) → IsDate d → IsDate (last d))
    (le-last : (d : Date) → IsDate d → key d ≤ key (last d))
    (next_day-last : (d : Date) → IsDate d → next_day (last d) ≡ next d) (e : Date)
    (ve : IsDate e) where
  -- The last day of a period lies before the start of the next.
  moves_on : (d : Date) → IsDate d → key (last d) < key (next d)
  moves_on d v = rw (← next_day-last d v) (lt-next_day (last d) (last-IsDate d v))

  cut_short : (d : Date) → IsDate d → before e (last d) ≡ true → key e < key (next d)
  cut_short d v h = omega (arith, moves_on d v, is_before e (last d) ve (last-IsDate d v) h)

  past_end :
      (fuel : ℕ) (d : Date) → IsDate d → key e < key d → period_loop last due next e fuel d ≡ []
  unfolding period_loop
  past_end zero d v h = refl
  past_end (suc fuel) d v h = ground (arith, before-eq-ltb e d ve v)

  pub period_loop-Tiles :
      (fuel : ℕ) (d : Date)
      → IsDate d
      → key e < fuel + key d
      → Tiles d e (period_loop last due next e fuel d)
  unfolding period_loop
  period_loop-Tiles zero d v h = omega arith
  period_loop-Tiles (suc fuel) d v h = elim (Bool-cases (before e d)) [
    | inl done ↦ rw done (ground (arith, before-eq-ltb e d ve v))
    | inr more ↦ elim (Bool-cases (before e (last d))) [
      | inl cut ↦
          rw (more, cut)
            (
              refl,
              ve,
              not_before e d ve v more,
              omega arith,
              rw (past_end fuel (next d) (next-IsDate d v) (cut_short d v cut)) (lt-next_day e ve),
            )
      | inr whole ↦
          rw (more, whole)
            (
              refl,
              last-IsDate d v,
              le-last d v,
              not_before e (last d) ve (last-IsDate d v) whole,
              rw (next_day-last d v) (
                  period_loop-Tiles fuel (next d) (next-IsDate d v)
                    (omega (arith, le-last d v, moves_on d v, h))),
            )
    ]
  ]
