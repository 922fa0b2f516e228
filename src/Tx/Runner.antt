-- ===== src/Tx/Runner.antt =====
-- internal/platform/database/txrunner/runner.go. The world is the database `Db` and what the
-- publisher changes, `Out`. The operations of database/sql are parameters. An event is never nil.
use stds_backend_go.Prelude.{ℕ, suc, List, [], ◌∷◌, ◌++◌, Option, none, some, Method}

pub data TxError (E : Type 0) : Type 0 where
  begin_failed fn_failed commit_failed : E → TxError E
  rollback_failed : E → E → TxError E
  publish_failed : ℕ → E → TxError E

-- `BeginTx`, and `Commit` and `Rollback` of a transaction that was begun in the first state, called
-- in the second one.
pub record Sql (Db E : Type 0) : Type 0 where
  pub begin : Method Db E
  pub commit : Db → Method Db E
  pub rollback : Db → Method Db E

pub record World (Db Out : Type 0) : Type 0 where
  pub db : Db
  pub out : Out

-- `Record`.
unfoldable pub record_event : {Ev : Type 0} → Option Ev → List Ev → List Ev
record_event none events = events
record_event (some event) events = events ++ (event ∷ [])

-- What the function of a transaction leaves: the database, the recorder's events, and its error.
pub record FnResult (Db Ev E : Type 0) : Type 0 where
  pub db : Db
  pub events : List Ev
  pub error : Option E

unfoldable pub publish_next :
    {Db Out E : Type 0}
    → ℕ
    → World Db Out × Option E
    → Method (World Db Out) (TxError E)
    → World Db Out × Option (TxError E)
publish_next i (w, none) rest = rest w
publish_next i (w, some e) rest = (w, some (publish_failed i e))

unfoldable pub after_rollback :
    {Db Out E : Type 0} → E → Db × Option E → Out → World Db Out × Option (TxError E)
after_rollback e (db, none) out = (record { db = db; out = out }, some (fn_failed e))
after_rollback e (db, some rollback_err) out =
    (record { db = db; out = out }, some (rollback_failed rollback_err e))

module _ {Db Out Ev E : Type 0} where
  -- The loop over the recorded events, of which the first has the position i.
  unfoldable pub publish_recorded :
      (Ev → Method (World Db Out) E) → ℕ → List Ev → Method (World Db Out) (TxError E)
  publish_recorded publisher i [] w = (w, none)
  publish_recorded publisher i (event ∷ events) w =
      publish_next i (publisher event w) (publish_recorded publisher (suc i) events)

  unfoldable pub after_commit :
      (Ev → Method (World Db Out) E)
      → List Ev
      → Db × Option E
      → Out
      → World Db Out × Option (TxError E)
  after_commit publisher events (db, some e) out =
      (record { db = db; out = out }, some (commit_failed e))
  after_commit publisher events (db, none) out =
      publish_recorded publisher 0 events (record { db = db; out = out })

  unfoldable pub after_fn :
      Sql Db E
      → (Ev → Method (World Db Out) E)
      → Db
      → List Ev
      → Db
      → Option E
      → Out
      → World Db Out × Option (TxError E)
  after_fn sql publisher begun events db (some e) out = after_rollback e (sql.rollback begun db) out
  after_fn sql publisher begun events db none out =
      after_commit publisher events (sql.commit begun db) out

  unfoldable pub after_begin :
      Sql Db E
      → (Ev → Method (World Db Out) E)
      → (Db → FnResult Db Ev E)
      → Db × Option E
      → Out
      → World Db Out × Option (TxError E)
  after_begin sql publisher fn (db, some e) out =
      (record { db = db; out = out }, some (begin_failed e))
  after_begin sql publisher fn (db, none) out =
      let r = fn db in after_fn sql publisher db r.events r.db r.error out

  unfoldable pub within_transaction :
      Sql Db E
      → (Ev → Method (World Db Out) E)
      → (Db → FnResult Db Ev E)
      → Method (World Db Out) (TxError E)
  within_transaction sql publisher fn w = after_begin sql publisher fn (sql.begin w.db) w.out
