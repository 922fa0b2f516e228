-- ===== src/Db/Forced.antt =====
-- The statements of internal/platform/database/leases/repository.go on force terminations. A detail is
-- the record and its bills; the labels that the query joins are left out.
pub mod Passed
use stds_backend_go.Prelude.{
  ◌≡◌, refl, ap, ◌∙◌, ℕ, suc, Bool, true, false, ◌&&◌, String, List, [], ◌∷◌, ◌++◌, map, Option,
  none, some, ◌==◌, if◌then◌else◌, Result, ok, err,
}
use stds_backend_go.Prelude.Sets.{has}
use stds_backend_go.Db.Table.{find, update_where, select, exists}
use stds_backend_go.Db.Rows.{LeaseRow, ForceTerminationRow, ForceTerminationBillRow, Database}
use stds_backend_go.Db.Script.{
  Session, Script, RepositoryError, not_found, catch, query, statement, ◌>>=◌, pure,
}
use stds_backend_go.Db.Bills.{found}

abbrev pub status_in_progress : String
status_in_progress = "in_progress"

abbrev pub status_completed : String
status_completed = "completed"

abbrev pub status_pending : String
status_pending = "pending"

abbrev pub status_done : String
status_done = "done"

-- The row with the default status.
abbrev pub new_force_termination : String → String → String → String → String → ForceTerminationRow
new_force_termination id lease_id initiated_by reason deposit_handling = record {
  id = id;
  lease_id = lease_id;
  initiated_by = initiated_by;
  reason = reason;
  deposit_handling = deposit_handling;
  status = status_in_progress;
}

unfoldable pub new_force_termination_bills : String → List String → List ForceTerminationBillRow
new_force_termination_bills id [] = []
new_force_termination_bills id (bill_id ∷ bill_ids) =
    record { force_termination_id = id; bill_id = bill_id; status = status_pending }
    ∷ new_force_termination_bills id bill_ids

abbrev pub is_force_termination : String → ForceTerminationRow → Bool
is_force_termination id row = row.id == id

abbrev pub is_bill_of_force_termination : String → ForceTerminationBillRow → Bool
is_bill_of_force_termination id row = row.force_termination_id == id

abbrev pub is_done_by : String → List String → ForceTerminationBillRow → Bool
is_done_by id bill_ids row = row.force_termination_id == id && has bill_ids row.bill_id

-- `JOIN leases l ON l.id = ft.lease_id`
abbrev pub has_lease : List LeaseRow → ForceTerminationRow → Bool
has_lease leases row = exists (λ (lease : LeaseRow). lease.state.id == row.lease_id) leases

abbrev pub Detail : Type 0
Detail = ForceTerminationRow × List ForceTerminationBillRow

module _ {F : Type 0} where
  unfoldable pub create_force_termination :
      String → String → String → String → Script F RepositoryError ForceTerminationRow
  create_force_termination lease_id initiated_by reason deposit_handling = statement (λ s.
      let row =
        new_force_termination (s.ids s.drawn) lease_id initiated_by reason deposit_handling in
      (
        record s {
          db = record s.db { force_terminations = s.db.force_terminations ++ (row ∷ []) };
          drawn = suc s.drawn;
        },
        ok row,
      ))

  abbrev pub change_force_termination_bills :
      (List ForceTerminationBillRow → List ForceTerminationBillRow)
      → Script F RepositoryError (Unit {0})
  change_force_termination_bills f = statement (λ s. (
    record s { db = record s.db { force_termination_bills = f s.db.force_termination_bills } },
    ok tt,
  ))

  -- Without a bill, nothing is sent.
  unfoldable pub create_force_termination_bills :
      String → List String → Script F RepositoryError (Unit {0})
  create_force_termination_bills id [] s = (s, ok tt)
  create_force_termination_bills id (bill_id ∷ bill_ids) s =
      change_force_termination_bills
        (λ rows. rows ++ new_force_termination_bills id (bill_id ∷ bill_ids)) s

  unfoldable pub mark_force_termination_bills_done :
      String → List String → Script F RepositoryError (Unit {0})
  mark_force_termination_bills_done id [] s = (s, ok tt)
  mark_force_termination_bills_done id (bill_id ∷ bill_ids) s =
      change_force_termination_bills
        (update_where (is_done_by id (bill_id ∷ bill_ids))
          (λ (row : ForceTerminationBillRow). record row { status = status_done }))
        s

  unfoldable pub complete_force_termination : String → Script F RepositoryError (Unit {0})
  complete_force_termination id = statement (λ s. (
    record s {
      db = record s.db {
        force_terminations =
            update_where (is_force_termination id)
              (λ (row : ForceTerminationRow). record row { status = status_completed })
              s.db.force_terminations;
      };
    },
    ok tt,
  ))

  -- The query of the record.
  abbrev pub detail_row : String → Database F → Result RepositoryError ForceTerminationRow
  detail_row id db = found (
      find (λ (row : ForceTerminationRow). is_force_termination id row && has_lease db.leases row)
        db.force_terminations)

  unfoldable pub find_force_termination_by_id : String → Script F RepositoryError Detail
  find_force_termination_by_id id = do
    row ← query (detail_row id)
    bills ← query (λ db. ok (select (is_bill_of_force_termination id) db.force_termination_bills))
    pure (row, bills)
