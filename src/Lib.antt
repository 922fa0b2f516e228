-- ===== src/Lib.antt =====
-- Verification of the core of STDS, a rental management backend in Go.
--
-- The program is a set of domain aggregates (internal/domain), application services that load an
-- aggregate, call one of its methods and store it (internal/application), an HTTP layer
-- (internal/http), and a platform layer for the database and events (internal/platform).
--
-- The files and what they model:
--   * Prelude: the shared names; `Result` and `Method` for Go's error returns, Go's `int` with its
--     wrap-around, `strings.TrimSpace`, patches of optional fields, a parameter for float64.
--   * GoTime: the dates and times of Go's package time, from its documentation: `go_date` is
--     time.Date with its overflow of months and days, `next_day`, `prev_day` and `add_days` are
--     AddDate(0, 0, n).
--   * Periods: internal/domain/lease/billing.go. `BuildRentBillingPeriodsFromAnchor` is
--     `build_rent_billing_periods_from_anchor`, and so on with the names of the functions.
--   * Lease: internal/domain/lease/aggregate.go, the lease and its deposit.
--   * Bill: internal/domain/billing/aggregate.go, meter readings and payments.
--   * Repair: internal/domain/repair/aggregate.go, the workflow of a repair request.
--   * Property: internal/domain/property/aggregate.go, properties and their rooms.
--   * Tenant and Journal: internal/domain/tenant/aggregate.go and
--     internal/domain/journal/aggregate.go.
--   * Access: internal/http/middleware/authorization.go. A handler is a function from the principal
--     and what the resolver returned to the property that is set and the decision.
--   * Tx: internal/platform/database/txrunner/runner.go (Runner, Atomic) and
--     internal/platform/eventbus/bus.go (Bus). The runner calls a function in a transaction and
--     publishes the events that it recorded; the bus calls the handlers of an event.
--   * Jobs.Runs: internal/platform/database/jobruns/repository.go (Store) and
--     internal/application/jobs/trigger.go (Trigger), which claims a window of a job in the table
--     before it runs the job.
--   * Jobs.Batch: internal/application/jobs/batch.go, the jobs. Statements has the statements that the
--     compensation of a forced termination sends, as internal/server/jobs_adapters.go wires them.
--   * Paging: internal/http/queryparams, the pages of a list.
--   * Checkout: internal/application/lease/checkout_settlement.go, the lines, totals and blockers of
--     the settlement at the end of a lease. Its lease is the state of the lease aggregate, whose
--     methods finalizing calls.
--   * Db: the database. Db.Rows has the rows of its tables and the events, Db.Script the functions
--     that run in a transaction, Db.Bills the statements of
--     internal/platform/database/billing/repository.go, Db.Leases and Db.Forced those of
--     internal/platform/database/leases/repository.go, each named for the Go method that sends it.
--     The modules called Passed say what a statement found and wrote in a script that succeeds.
--   * Services: the commands. Payment is internal/application/billing/record_payment.go and Meter is
--     record_meter.go; in internal/application/lease, Leases.Deposit is update_deposit.go,
--     Leases.Terminate and Leases.Force are terminate_lease.go, Leases.Create is create_lease.go,
--     Leases.Rent is update_lease.go and Leases.Replace is replace_lease.go. `execute` and the
--     functions named for a service are their methods Execute; `pay_bill`, `meter_bill`,
--     `settle_lease`, `end_lease`, `force_lease`, `open_lease`, `change_rent` and `replace_lease` are
--     the functions that they pass to WithinTransaction. Transaction runs one by the model of the
--     runner, and History is any number of these eight commands that succeed one
--     after the other.
--
-- An aggregate is its `State` record. A method that returns an error is a function from the state
-- to the state after the call and the error, where none is nil: what was written before an error
-- stays written. Pointers to fields are copied by the program wherever they cross the aggregate, so
-- an optional field is an Option and a snapshot is the state itself. No method is called on nil.
--
-- A script takes a session to an error or a result: the session has the database, the time and the
-- identifiers that the database draws, and the events that are recorded so far. A statement finds,
-- changes or adds rows of a table; any statement may fail by the session's plan of faults. The checks
-- that a service makes before its transaction are steps of a script that change nothing. A zero time
-- is none, and a column of type DATE is a date. All services read the rows they change FOR UPDATE;
-- that lock is not modelled, a script runs alone.
--
-- Numbers: Go's int is 64 bits wide; `add_int` and `sub_int` wrap. Years, months and days are
-- natural numbers; years are at least 1 in the theorems. All times of one call are in one location.
--
-- Loops: `period_loop` and `payment_loop` recur on fuel, one more than a number that grows with the
-- date at which the loop ends; each round moves its date on by a day or more, so the fuel is enough,
-- and the theorems on coverage and on the next payment date would fail if it were not.
--
-- Parameters: the operations of database/sql, the repositories of the jobs but for that of the
-- compensation, the lookups of owners, `uuid.Parse`, `time.Parse`, the test of an e-mail by net/mail
-- and the texts of `fmt.Sprintf`. What a theorem needs of database/sql is a named hypothesis,
-- `Tx.Atomic.IsTransactional`.
--
-- Not modelled: the subscribers of events and the services of properties, repairs, tenants and
-- journals, the loading and storing of a checkout, the text of the SQL and the other repositories,
-- the details of error values and their JSON, the HTTP handlers and generated code, reports, the migration of old data, and the adapters of third-party services.
pub mod Prelude
pub mod GoTime
pub mod Periods
pub mod Lease
pub mod Bill
pub mod Repair
pub mod Property
pub mod Access
pub mod Tx
pub mod Jobs
pub mod Paging
pub mod Checkout
pub mod Tenant
pub mod Journal
pub mod Db
pub mod Services
