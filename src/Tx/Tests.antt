-- ===== src/Tx/Tests.antt =====
-- Transactions and events at concrete values: the database is a number, the publisher keeps a list.
use stds_backend_go.Prelude.{
  refl, ◌⊎◌, ℕ, ◌+◌, eqb, String, List, [], ◌∷◌, ◌++◌, none, some, if◌then◌else◌, Method,
}
use stds_backend_go.Tx.Bus.{Bus, Handler}
use stds_backend_go.Tx.Runner.{Sql, World, FnResult, publish_recorded, within_transaction}
use stds_backend_go.Tx.Atomic.{
  IsTransactional, IsUndone, IsCommitted, all_or_nothing, IsDelivered, publish_recorded-IsDelivered,
}

abbrev sql : Sql ℕ String
sql = record {
  begin = λ db. (db, none);
  commit = λ begun now. (now, none);
  rollback = λ begun now. (begun, none);
}

sql-IsTransactional : IsTransactional sql
sql-IsTransactional = record {
  begins = λ db. refl;
  rolls_back = λ db now. refl;
  commits = λ db now h. refl;
  discards = λ db now h. absurd (h refl);
}

-- A publisher that refuses the event 3.
abbrev publisher : ℕ → Method (World ℕ (List ℕ)) String
publisher event w =
    if eqb event 3 then (w, some "refused") else (record w { out = w.out ++ (event ∷ []) }, none)

abbrev fn : ℕ → FnResult ℕ ℕ String
fn db = record { db = db + 1; events = 2 ∷ 3 ∷ 4 ∷ []; error = none }

abbrev start : World ℕ (List ℕ)
start = record { db = 7; out = [] }

all_or_nothing_example :
    IsUndone sql publisher fn sql-IsTransactional start (within_transaction sql publisher fn start)
    ⊎ IsCommitted sql publisher fn sql-IsTransactional start
        (within_transaction sql publisher fn start)
all_or_nothing_example = all_or_nothing sql publisher fn sql-IsTransactional start

publish_recorded-IsDelivered_example :
    IsDelivered publisher 0
      (2 ∷ 3 ∷ 4 ∷ [])
      start
      (publish_recorded publisher 0 (2 ∷ 3 ∷ 4 ∷ []) start)
publish_recorded-IsDelivered_example =
    publish_recorded-IsDelivered publisher 0 (2 ∷ 3 ∷ 4 ∷ []) start

abbrev log : Handler (List ℕ) ℕ String
log event w = (w ++ (event ∷ []), none)

abbrev kind : ℕ → String
kind event = if eqb event 2 then "two" else "other"

abbrev bus : Bus (List ℕ) ℕ String
bus = record { handlers = λ t. log ∷ [] }
