-- ===== src/Services/Transaction.antt =====
-- A service in a transaction of internal/platform/database/txrunner/runner.go: the function that it
-- hands to `WithinTransaction` is its script, which returns the database and the events recorded, or an
-- error. What a script that succeeds guarantees is thereby in the database or nothing has happened.
use stds_backend_go.Prelude.{
  ◌≡◌, refl, ℕ, String, List, [], Bool, Option, none, some, ◌⊎◌, inl, inr, Result, ok, err, Method,
}
use stds_backend_go.GoTime.{Time}
use stds_backend_go.Tx.Runner.{TxError, Sql, World, FnResult, publish_recorded, within_transaction}
use stds_backend_go.Tx.Atomic.{IsTransactional, IsUndone, all_or_nothing}
use stds_backend_go.Db.Rows.{Database, Event, BillRow}
use stds_backend_go.Db.Script.{Session, Script}
use stds_backend_go.Services.Payment.{BillingError, pay_bill}
use stds_backend_go.Services.Payment.Books.{IsBooked, pay_bill-IsBooked}
use stds_backend_go.Prelude.Int.{ℤ}

-- What the database does to a transaction: which statements fail, its time, the identifiers it draws.
pub record Environment : Type 0 where
  pub faults : List Bool
  pub now : Time
  pub ids : ℕ → String

unfoldable pub begin_session : {F : Type 0} → Environment → Database F → Session F
begin_session env db = record {
  db = db;
  events = [];
  faults = env.faults;
  now = env.now;
  ids = env.ids;
  drawn = 0;
}

abbrev pub error_of : {E A : Type 0} → Result E A → Option E
error_of (ok a) = none
error_of (err e) = some e

-- The function of the transaction.
unfoldable pub fn_of :
    {F E A : Type 0} → Script F E A → Environment → Database F → FnResult (Database F) (Event F) E
unfolding begin_session
fn_of script env db =
    let (t, r) = script (begin_session env db) in
    record { db = t.db; events = t.events; error = error_of r }

module _ {F E A Out : Type 0} (sql : Sql (Database F) E)
    (publisher : Event F → Method (World (Database F) Out) E) (transactional : IsTransactional sql)
    (script : Script F E A) (env : Environment) where
  -- The script has succeeded, its database is committed, and after that its events are published.
  pub record IsDone (w : World (Database F) Out)
      (result : World (Database F) Out × Option (TxError E)) : Type 0 where
    pub session : Session F
    pub value : A
    pub ran : script (begin_session env w.db) ≡ (session, ok value)
    pub published :
        result ≡ publish_recorded publisher 0 session.events (record w { db = session.db })

  ran_of : (r : Session F × Result E A) → error_of r.1 ≡ none → (value : A) × (r ≡ (r.0, ok value))
  ran_of (s, ok a) h = (a, refl)
  ran_of (s, err e) h = cc h

  -- A service in a transaction changes nothing and returns an error, or does what its script does.
  pub transaction-IsDone :
      (w : World (Database F) Out)
      → IsUndone sql publisher
          (fn_of script env)
          transactional
          w
          (within_transaction sql publisher (fn_of script env) w)
        ⊎ IsDone w (within_transaction sql publisher (fn_of script env) w)
  unfolding fn_of
  transaction-IsDone w = elim (all_or_nothing sql publisher (fn_of script env) transactional w) [
    | inl undone ↦ inl undone
    | inr committed ↦
        let (value, ran) = ran_of (script (begin_session env w.db)) committed.fn_error in
        inr (record {
          session = (script (begin_session env w.db)).0;
          value = value;
          ran = ran;
          published = committed.published;
        })
  ]

-- A payment in a transaction changes nothing and returns an error, or books the payment of a bill that
-- was due for that amount, commits that, and publishes its event after the commit.
pub payment_refines :
    {F Out : Type 0} (sql : Sql (Database F) BillingError)
    (publisher : Event F → Method (World (Database F) Out) BillingError)
    (transactional : IsTransactional sql) (env : Environment) (bill_id : String) (amount : ℤ)
    (method : String) (paid_at : Time) (w : World (Database F) Out)
    → let fn = fn_of (pay_bill bill_id amount method paid_at) env in
      let result = within_transaction sql publisher fn w in
      IsUndone sql publisher fn transactional w result
      ⊎ ((t : Session F) × (r : BillRow F) × IsBooked bill_id amount method paid_at
            (begin_session env w.db)
            t
            r
          × (result ≡ publish_recorded publisher 0 t.events (record w { db = t.db })))
payment_refines sql publisher transactional env bill_id amount method paid_at w =
    elim (transaction-IsDone sql publisher transactional (pay_bill bill_id amount method paid_at)
      env w) [
        | inl undone ↦ inl undone
        | inr done ↦ inr (
          done.session,
          done.value,
          pay_bill-IsBooked bill_id amount method paid_at (begin_session env w.db) done.ran,
          done.published,
        )
      ]
