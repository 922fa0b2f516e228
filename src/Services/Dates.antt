-- ===== src/Services/Dates.antt =====
-- The dates of accounting entries and their texts: `accountingSourceDate` and
-- `depositAccountingSourceDate` (a time of UTC as a day in Taipei, eight hours ahead), and the layout
-- 2006-01-02 of `time.Format`, for years of four digits.
use stds_backend_go.Prelude.{◌≡◌, refl, ℕ, ◌+◌, ◌*◌, ◌/◌, ◌%◌, String, ltb, eqb, if◌then◌else◌}
use stds_backend_go.GoTime.{Date, Time, next_day, date}

abbrev pub hour : ℕ
hour = 3600000000000

unfoldable pub accounting_source_date : Time → Date
accounting_source_date value =
    if ltb (value.clock + 8 * hour) (24 * hour) then value.date else next_day value.date

unfoldable pub append_text : String → String → String
append_text String.[] t = t
append_text (String.◌∷◌ c s) t = String.◌∷◌ c (append_text s t)

-- The last decimal digit.
unfoldable pub digit : ℕ → String
digit n =
    let d = n % 10 in
    if eqb d 0
    then "0"
    else if eqb d 1
    then "1"
    else if eqb d 2
    then "2"
    else if eqb d 3
    then "3"
    else if eqb d 4
    then "4"
    else if eqb d 5
    then "5"
    else if eqb d 6
    then "6"
    else if eqb d 7
    then "7"
    else if eqb d 8
    then "8"
    else "9"

unfoldable pub two_digits : ℕ → String
unfolding digit append_text
two_digits n = append_text (digit (n / 10)) (digit n)

unfoldable pub format_date : Date → String
unfolding two_digits append_text
format_date d = append_text (two_digits (d.year / 100)) (
    append_text (two_digits d.year)
      (append_text "-" (append_text (two_digits d.month) (append_text "-" (two_digits d.day)))))

unfoldable pub format_accounting_period_label : Time → Time → String
unfolding format_date append_text
format_accounting_period_label start end =
    append_text (format_date start.date) (append_text " 至 " (format_date end.date))

formats :
    format_accounting_period_label
      (record { date = date 2024 1 31; clock = 0 })
      (record { date = date 2024 2 29; clock = 0 })
    ≡ "2024-01-31 至 2024-02-29"
unfolding format_accounting_period_label
formats = refl
