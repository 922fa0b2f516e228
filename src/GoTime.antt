-- ===== src/GoTime.antt =====
-- What the program uses of Go's package `time`: civil dates of the Gregorian calendar from year 1
-- on, the comparisons, `time.Date`, and `AddDate` by a number of days. All times lie in one location
-- whose days all have the same length, so that comparing instants is comparing dates and clocks.
mod Order
mod Steps
pub use Order.*
pub use Steps.*
unfoldable pub use Order.{is_leap, days_in, before, after}
unfoldable pub use Steps.{next_day, prev_day, add_days, go_date}
