-- ===== src/Jobs/Batch/Compensation.antt =====
-- The compensation of a forced termination, in its transaction.
use stds_backend_go.Prelude.{
  ◌≡◌, refl, ◌⊎◌, inl, inr, ℕ, Bool, true, false, ◌&&◌, ◌||◌, not, Bool-cases, String, List, [],
  ◌∷◌, Option, none, some, arith, eqb, eq_iff, ◌==◌, Result, ok, err, length, Method, run_then, ◌▸◌,
  All, ap, sym, subst, ◌∙◌,
}
use stds_backend_go.Prelude.Sets.{has}
use stds_backend_go.GoTime.{Time}
use stds_backend_go.Db.Table.{update_where, All-update_where}
use stds_backend_go.Db.Rows.{Database, BillRow, ForceTerminationRow, ForceTerminationBillRow}
use stds_backend_go.Db.Leases.{is_written_off_by, write_off_columns}
use stds_backend_go.Db.Forced.{
  is_force_termination, is_done_by, status_completed, status_pending, status_done,
}
use stds_backend_go.Db.Forced.Passed.{none_updated}
use stds_backend_go.Services.Leases.Terminate.{is_closed}
use stds_backend_go.Jobs.Batch.Defs.{
  JobError, Command, ForceTerminationJobRepository, ForceTerminationCandidate,
}
use stds_backend_go.Jobs.Batch.Runners.{after_write_off, after_list, compensate}
use stds_backend_go.Jobs.Batch.Statements.{
  Failures, unless, changed, count_where, pending_bill_ids, written_off, write_off_bills_with_count,
  bills_done, mark_bills_done, termination_completed, repository, compensation,
}
use stds_backend_go.Tx.Runner.{World, Sql, within_transaction, publish_recorded}
use stds_backend_go.Tx.Atomic.{IsTransactional, IsUndone, IsCommitted, all_or_nothing}

module _ {W : Type 0} (repo : ForceTerminationJobRepository W) (c : ForceTerminationCandidate)
    (w : W) where
  -- The steps of a compensation that has run to its end in the world v.
  record IsFinished (v : W) : Type 0 where
    bill_ids : List String
    listed : repo.list_pending_force_termination_bill_ids c.id w ≡ ok bill_ids
    between : W
    written : repo.write_off_bills bill_ids c.reason w ≡ (between, ok (length bill_ids))
    finished :
        (repo.mark_force_termination_bills_done c.id bill_ids
            ▸ repo.complete_force_termination c.id)
          between
        ≡ (v, none)

  of_write_off :
      (bill_ids : List String) (r : W × Result JobError ℕ) (v : W)
      → repo.list_pending_force_termination_bill_ids c.id w ≡ ok bill_ids
      → repo.write_off_bills bill_ids c.reason w ≡ r
      → after_write_off repo c.id bill_ids r ≡ (v, none)
      → IsFinished v
  of_write_off bill_ids (u, err e) v listed at h = cc h
  of_write_off bill_ids (u, ok updated) v listed at h =
      elim (Bool-cases (eqb updated (length bill_ids))) [
        | inl all ↦ record {
          bill_ids = bill_ids;
          listed = listed;
          between = u;
          written =
              let same : updated ≡ length bill_ids = ground arith in at ∙ ap (λ n. (u, ok n)) same;
          finished = rw all at h;
        }
        | inr fewer ↦ cc (rw fewer at h)
      ]

  of_listed :
      (r : Result JobError (List String)) (v : W)
      → repo.list_pending_force_termination_bill_ids c.id w ≡ r
      → after_list repo c r w ≡ (v, none)
      → IsFinished v
  of_listed (err e) v at h = cc h
  of_listed (ok bill_ids) v at h =
      of_write_off bill_ids (repo.write_off_bills bill_ids c.reason w) v at refl h

  compensate-IsFinished : (v : W) → compensate repo c w ≡ (v, none) → IsFinished v
  unfolding compensate
  compensate-IsFinished v h =
      of_listed (repo.list_pending_force_termination_bill_ids c.id w) v refl h

or_right : (a : Bool) {b : Bool} → b ≡ true → (a || b) ≡ true
or_right true h = refl
or_right false h = h

none_counted :
    {R : Type 0} (p : R → Bool) (rows : List R)
    → ((row : R) → p row ≡ false)
    → count_where p rows ≡ 0
unfolding count_where
none_counted p [] h = refl
none_counted p (row ∷ rows) h = rw (h row) (none_counted p rows h)

never_done : (id : String) (row : ForceTerminationBillRow) → is_done_by id [] row ≡ false
unfolding has
never_done id row = ground arith

-- The rows of the bills of the termination `id` that are pending are in the list.
listed :
    (id : String) (ids : List String) (rows : List ForceTerminationBillRow)
    → ((bill_id : String) → has (pending_bill_ids id rows) bill_id ≡ true → has ids bill_id ≡ true)
    → All
        (λ row.
          (not (row.force_termination_id == id && row.status == status_pending)
            || has ids row.bill_id)
          ≡ true)
        rows
unfolding pending_bill_ids has
listed id ids [] h = tt
listed id ids (row ∷ rows) h =
    elim (Bool-cases (row.force_termination_id == id && row.status == status_pending)) [
      | inr other ↦ (rw other refl, listed id ids rows (rw other at h))
      | inl pending ↦
          let k : (bill_id : String)
              → (row.bill_id == bill_id || has (pending_bill_ids id rows) bill_id) ≡ true
              → has ids bill_id ≡ true =
            rw pending at h in
          (
            rw (pending, k row.bill_id (rw ((eq_iff row.bill_id row.bill_id).1 refl) refl)) refl,
            listed id ids rows (λ bill_id e. k bill_id (or_right (row.bill_id == bill_id) e)),
          )
    ]

-- No bill of the termination is pending.
abbrev pub IsNotPending : String → ForceTerminationBillRow → Type 0
IsNotPending id row = (row.force_termination_id == id && row.status == status_pending) ≡ false

none_pending :
    (id : String) (rows : List ForceTerminationBillRow)
    → All (IsNotPending id) (
        update_where
          (is_done_by id (pending_bill_ids id rows))
          (λ (row : ForceTerminationBillRow). record row { status = status_done })
          rows)
none_pending id rows =
    let ids = pending_bill_ids id rows in
    All-update_where (IsNotPending id) (is_done_by id ids)
      (λ (row : ForceTerminationBillRow). record row { status = status_done }) rows
      (λ row l done. ground arith) (λ row l kept. ground (arith, l, kept))
      (listed id ids rows (λ bill_id e. e))

any : {R : Type 0} (rows : List R) → All (λ _. Unit {0}) rows
any [] = tt
any (row ∷ rows) = (tt, any rows)

abbrev pub IsCompletedRow : String → ForceTerminationRow → Type 0
IsCompletedRow id row = (not (row.id == id) || row.status == status_completed) ≡ true

completed_rows :
    (id : String) (rows : List ForceTerminationRow)
    → All (IsCompletedRow id) (
        update_where
          (is_force_termination id)
          (λ (row : ForceTerminationRow). record row { status = status_completed })
          rows)
completed_rows id rows =
    All-update_where (IsCompletedRow id) (is_force_termination id)
      (λ (row : ForceTerminationRow). record row { status = status_completed }) rows
      (λ row _ written. ground arith) (λ row _ kept. rw kept refl) (any rows)

of_list :
    (failure : Option JobError) (ids found : List String)
    → unless failure ids ≡ ok found
    → found ≡ ids
of_list none ids found h = cc h
of_list (some e) ids found h = cc h

module _ {F : Type 0} where
  write_off-ok :
      (failure : Option JobError) (now : Time) (ids : List String) (reason : String)
      (db : Database F) {after : Database F} {n : ℕ}
      → write_off_bills_with_count failure now ids reason db ≡ (after, ok n)
      → (after ≡ written_off ids reason now db) × (n ≡ count_where (is_written_off_by ids) db.bills)
  unfolding write_off_bills_with_count has
  write_off-ok failure now [] reason db {after} {n} h =
      let same : db ≡ after = ap (λ r. r.0) h in
      let zero_at : 0 ≡ n = cc (ap (λ r. r.1) h) in
      (
        sym same
            ∙ ap (λ rows. record db { bills = rows })
                (sym (
                  none_updated (is_written_off_by []) (write_off_columns reason now) db.bills
                    (λ _. refl))),
        sym zero_at ∙ sym (none_counted (is_written_off_by []) db.bills (λ _. refl)),
      )
  write_off-ok none now (id ∷ ids) reason db h = (sym (ap (λ r. r.0) h), cc (ap (λ r. r.1) h))
  write_off-ok (some e) now (id ∷ ids) reason db h = cc (ap (λ r. r.1) h)

  changed-ok :
      (failure : Option JobError) (db next : Database F) {after : Database F}
      → changed failure db next ≡ (after, none)
      → after ≡ next
  changed-ok none db next h = sym (ap (λ r. r.0) h)
  changed-ok (some e) db next h = cc (ap (λ r. r.1) h)

  mark-ok :
      (failure : Option JobError) (id : String) (ids : List String) (db : Database F)
      {after : Database F}
      → mark_bills_done failure id ids db ≡ (after, none)
      → after ≡ bills_done id ids db
  unfolding mark_bills_done
  mark-ok failure id [] db h =
      sym (ap (λ r. r.0) h)
      ∙ ap (λ rows. record db { force_termination_bills = rows })
          (sym (none_updated (is_done_by id []) _ db.force_termination_bills (never_done id)))
  mark-ok failure id (bill_id ∷ bill_ids) db h =
      changed-ok failure db (bills_done id (bill_id ∷ bill_ids) db) h

  ran_then :
      (r : Database F × Option JobError) (k : Command (Database F)) {after : Database F}
      → run_then r k ≡ (after, none)
      → (u : Database F) × (r ≡ (u, none)) × (k u ≡ (after, none))
  ran_then (u, none) k h = (u, refl, h)
  ran_then (u, some e) k h = cc (ap (λ x. x.1) h)

  -- A bill in the list that is not deleted is paid, voided or written off.
  abbrev pub IsClosedIn : List String → BillRow F → Type 0
  IsClosedIn ids row =
      (not (has ids row.state.id && not row.deleted) || is_closed row.state.status) ≡ true

  written_off_rows :
      (ids : List String) (reason : String) (now : Time) (rows : List (BillRow F))
      → All
          (IsClosedIn ids)
          (update_where (is_written_off_by ids) (write_off_columns reason now) rows)
  written_off_rows ids reason now rows =
      All-update_where (IsClosedIn ids) (is_written_off_by ids) (write_off_columns reason now) rows
        (λ row _ written. ground arith) (λ row _ kept. ground (arith, kept)) (any rows)

  -- The database before and after a compensation that has run to its end.
  pub record IsCompensated (c : ForceTerminationCandidate) (now : Time) (before after : Database F)
      : Type 0 where
    pub bill_ids : List String
    pub listed : bill_ids ≡ pending_bill_ids c.id before.force_termination_bills
    pub counted : count_where (is_written_off_by bill_ids) before.bills ≡ length bill_ids
    pub bills :
        after.bills
        ≡ update_where (is_written_off_by bill_ids) (write_off_columns c.reason now) before.bills
    pub closed : All (IsClosedIn bill_ids) after.bills
    pub not_pending : All (IsNotPending c.id) after.force_termination_bills
    pub completed : All (IsCompletedRow c.id) after.force_terminations
    pub leases : after.leases ≡ before.leases
    pub entries : after.accounting_entries ≡ before.accounting_entries

  compensate-IsCompensated :
      (failures : Failures) (now : Time) (c : ForceTerminationCandidate) (db after : Database F)
      → compensate (repository failures now) c db ≡ (after, none)
      → IsCompensated c now db after
  compensate-IsCompensated failures now c db after h =
      let ids = pending_bill_ids c.id db.force_termination_bills in
      let p = compensate-IsFinished (repository failures now) c db after h in
      let ids_are : p.bill_ids ≡ ids = of_list failures.at_list ids p.bill_ids p.listed in
      let (between_is, counted) =
        write_off-ok failures.at_write_off now p.bill_ids c.reason db p.written in
      let (marked, mark, complete) =
        ran_then (mark_bills_done failures.at_mark c.id p.bill_ids p.between) _ p.finished in
      let marked_is = mark-ok failures.at_mark c.id p.bill_ids p.between mark in
      let after_is =
        changed-ok failures.at_complete marked (termination_completed c.id marked) complete in
      let whole : after
          ≡ termination_completed c.id
              (bills_done c.id p.bill_ids (written_off p.bill_ids c.reason now db)) =
        after_is
        ∙ ap (termination_completed c.id)
            (marked_is ∙ ap (bills_done c.id p.bill_ids) between_is) in
      let rows_at = ap (λ (v : Database F). v.force_termination_bills) whole in
      let bills_at = ap (λ (v : Database F). v.bills) whole in
      record {
        bill_ids = p.bill_ids;
        listed = ids_are;
        counted = sym counted;
        bills = bills_at;
        closed =
            subst (All (IsClosedIn p.bill_ids)) (sym bills_at)
              (written_off_rows p.bill_ids c.reason now db.bills);
        not_pending =
            subst (All (IsNotPending c.id))
              (sym (
                rows_at
                ∙ ap
                    (λ l.
                      update_where (is_done_by c.id l)
                        (λ (row : ForceTerminationBillRow). record row { status = status_done })
                        db.force_termination_bills)
                    ids_are))
              (none_pending c.id db.force_termination_bills);
        completed =
            subst (All (IsCompletedRow c.id))
              (sym (ap (λ (v : Database F). v.force_terminations) whole))
              (completed_rows c.id db.force_terminations);
        leases = ap (λ (v : Database F). v.leases) whole;
        entries = ap (λ (v : Database F). v.accounting_entries) whole;
      }

  module _ {Out Ev : Type 0} (sql : Sql (Database F) JobError)
      (publisher : Ev → Method (World (Database F) Out) JobError)
      (transactional : IsTransactional sql) (failures : Failures) (now : Time)
      (c : ForceTerminationCandidate) where
    error_free :
        (db : Database F)
        → (compensation {Ev = Ev} failures now c db).error ≡ none
        → compensate (repository failures now) c db
          ≡ ((compensation {Ev = Ev} failures now c db).db, none)
    unfolding compensation
    error_free db h = λ i. ((compensate (repository failures now) c db).0, h i)

    -- The transaction of a compensation changes nothing and returns an error, or it commits this and
    -- returns none: as many bills are written off as the termination has pending bills, no bill with
    -- one of their identifiers is left open, no bill of the termination is pending any more, the
    -- termination is completed, and no lease and no accounting entry has changed.
    pub compensate_all_or_nothing :
        (w : World (Database F) Out)
        → let fn = compensation {Ev = Ev} failures now c in
          let result = within_transaction sql publisher fn w in
          IsUndone sql publisher fn transactional w result
          ⊎ (IsCompensated c now w.db result.0.db × (result.1 ≡ none))
    compensate_all_or_nothing w =
        elim (all_or_nothing sql publisher (compensation {Ev = Ev} failures now c) transactional
          w) [ inl undone ↦ inl undone | inr committed ↦ inr (finish committed) ]
      where
        finish :
            IsCommitted sql publisher
              (compensation {Ev = Ev} failures now c)
              transactional
              w
              (within_transaction sql publisher (compensation {Ev = Ev} failures now c) w)
            → let result =
                within_transaction sql publisher (compensation {Ev = Ev} failures now c) w in
              IsCompensated c now w.db result.0.db × (result.1 ≡ none)
        finish committed =
            let fn = compensation {Ev = Ev} failures now c in
            let at : within_transaction sql publisher fn w
                ≡ (record w { db = (fn w.db).db }, none) =
              committed.published ∙ unfold compensation in unfold publish_recorded in refl in
            (
              subst (IsCompensated c now w.db) (sym (ap (λ r. r.0.db) at)) (
                  compensate-IsCompensated failures now c w.db (fn w.db).db
                    (error_free w.db committed.fn_error)),
              ap (λ r. r.1) at,
            )
