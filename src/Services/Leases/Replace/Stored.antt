-- ===== src/Services/Leases/Replace/Stored.antt =====
-- The writes of a replacement.
use stds_backend_go.Prelude.{
  ◌≡◌, refl, sym, ap, ◌∙◌, subst, Bool, true, false, not, ◌&&◌, ◌||◌, inl, inr, Bool-cases, ◌==◌,
  String, List, [], ◌∷◌, ◌++◌, none, some, All, ok, ok-injective,
}
use stds_backend_go.Prelude.Int.{pos}
use stds_backend_go.GoTime.{Date, Time, before, prev_day}
use stds_backend_go.Lease.Defs.{State}
use stds_backend_go.Bill.Defs.{status_paid, status_voided}
use stds_backend_go.Db.Table.{find, update_where, select}
use stds_backend_go.Db.Rows.{LeaseRow, BillRow, lease_replaced}
use stds_backend_go.Db.Script.{Session, >>=-ok}
use stds_backend_go.Db.Bills.{is_lease}
use stds_backend_go.Db.Leases.{
  terminate_columns, is_bill_of, is_overlapping, with_status, void_bills_overlapping_or_after,
}
use stds_backend_go.Db.Leases.Passed.{update_lease-then, change_bills-then}
use stds_backend_go.Services.Dates.{append_text}
use stds_backend_go.Services.Leases.Errors.{internal}
use stds_backend_go.Services.Leases.Terminate.{some_left, lease_terminated_event}
use stds_backend_go.Services.Leases.Create.{store_lease, lease_created_event}
use stds_backend_go.Services.Leases.Create.Proof.{IsOpened, store_lease-IsOpened}
use stds_backend_go.Services.Leases.Replace.{
  Replacement, ReplaceLeaseResult, replacement_changed_fields, replacement_deposit_carry_over,
  store_replacement,
}
use stds_backend_go.Services.Leases.Replace.Boundary.{unsettled_before_boundary}

and_false : (b : Bool) → (b && false) ≡ false
and_false true = refl
and_false false = refl

-- The row of the predecessor.
abbrev pub replaced_row : Replacement → LeaseRow → LeaseRow
replaced_row r =
    terminate_columns (prev_day r.effective_start) (append_text "lease replacement: " r.reason) none

module _ {F : Type 0} where
  -- A bill of the lease that ends before the day is paid.
  abbrev pub IsPaidBefore : String → Date → BillRow F → Type 0
  IsPaidBefore lease_id day row =
      (not (is_bill_of lease_id row && before row.state.period_end.date day)
        || row.state.status == status_paid)
      ≡ true

  -- The bill is none of the lease that reaches the day or lies after it and is still to be paid.
  abbrev pub IsCleared : String → Date → BillRow F → Type 0
  IsCleared lease_id day row = is_overlapping lease_id day row ≡ false

  pub paid_before :
      (lease_id : String) (day : Date) (rows : List (BillRow F))
      → some_left (unsettled_before_boundary (select (is_bill_of lease_id) rows) day) ≡ false
      → All (IsPaidBefore lease_id day) rows
  unfolding select unsettled_before_boundary
  paid_before lease_id day [] h = tt
  paid_before lease_id day (row ∷ rows) h = elim (Bool-cases (is_bill_of lease_id row)) [
    | inr other ↦ (rw other refl, paid_before lease_id day rows (rw other at h))
    | inl yes_found ↦ elim (Bool-cases (before row.state.period_end.date day)) [
      | inr later ↦
          (rw (yes_found, later) refl, paid_before lease_id day rows (rw (yes_found, later) at h))
      | inl earlier ↦ elim (Bool-cases (row.state.status == status_paid)) [
        | inl paid ↦ (
          rw (yes_found, earlier, paid) refl,
          paid_before lease_id day rows (rw (yes_found, earlier, paid) at h),
        )
        | inr unpaid ↦ cc (rw (yes_found, earlier, unpaid) at h)
      ]
    ]
  ]

  pub cleared :
      (lease_id : String) (day : Date) (now : Time) (rows : List (BillRow F))
      → All
          (IsCleared lease_id day)
          (update_where (is_overlapping lease_id day) (with_status status_voided now) rows)
  unfolding update_where
  cleared lease_id day now [] = tt
  cleared lease_id day now (row ∷ rows) = elim (Bool-cases (is_overlapping lease_id day row)) [
    | inl open_bill ↦ (
      rw open_bill
          (and_false (is_bill_of lease_id row && not (before row.state.period_end.date day))),
      cleared lease_id day now rows,
    )
    | inr other ↦ (rw other other, cleared lease_id day now rows)
  ]

  -- The session before the successor is written.
  abbrev pub cleared_session : Replacement → List Bool → Session F → Session F
  cleared_session r fs s = record s {
    db = record s.db {
      leases = update_where (is_lease r.lease_id) (replaced_row r) s.db.leases;
      bills =
          update_where (is_overlapping r.lease_id r.effective_start)
            (with_status status_voided s.now) s.db.bills;
    };
    faults = fs;
  }

  -- The writes of a replacement.
  pub record IsStored (r : Replacement) (current : LeaseRow) (state : State) (occurred_at : Time)
      (s t : Session F) (result : ReplaceLeaseResult) : Type 0 where
    pub old_lease : result.old_lease ≡ replaced_row r current
    pub faults : List Bool
    pub opened_at : Session F
    pub opened :
        IsOpened state (pos 0) r.notes (cleared_session r faults s) opened_at result.new_lease
    pub session : t ≡ record opened_at {
      events =
          ((opened_at.events
              ++ (lease_terminated_event (replaced_row r current) false true occurred_at ∷ []))
            ++ (lease_created_event result.new_lease occurred_at ∷ []))
          ++ (lease_replaced
                (replaced_row r current).state.id
                result.new_lease.state.id
                result.new_lease.state.room_id
                result.new_lease.state.property_id
                result.new_lease.state.tenant_id
                r.reason
                r.effective_start
                (replacement_changed_fields current result.new_lease)
                replacement_deposit_carry_over
                occurred_at
              ∷ []);
    }

  pub store_replacement-IsStored :
      (r : Replacement) (current : LeaseRow) (state : State) (occurred_at : Time) (s : Session F)
      {t : Session F} {result : ReplaceLeaseResult}
      → find (is_lease r.lease_id) s.db.leases ≡ some current
      → store_replacement r current state occurred_at s ≡ (t, ok result)
      → IsStored r current state occurred_at s t result
  unfolding store_replacement void_bills_overlapping_or_after
  store_replacement-IsStored r current state occurred_at s {t} {result} was_found h =
      let (fs, rest, _) =
        update_lease-then internal r.lease_id (replaced_row r) current _ s (λ x. refl) was_found
          h in
      let (fs2, rest2) =
        change_bills-then internal (is_overlapping r.lease_id r.effective_start)
          (with_status status_voided s.now) _ _ rest in
      let (u, successor, stored, last) =
        >>=-ok (store_lease state (pos 0) r.notes) _ (cleared_session r fs2 s) rest2 in
      let result_is = ok-injective (ap (λ x. x.1) last) in
      let same : successor ≡ result.new_lease =
        ap (λ (x : ReplaceLeaseResult). x.new_lease) result_is in
      record {
        old_lease = ap (λ (x : ReplaceLeaseResult). x.old_lease) (sym result_is);
        faults = fs2;
        opened_at = u;
        opened =
            subst (λ v. IsOpened state (pos 0) r.notes (cleared_session r fs2 s) u v) same
              (store_lease-IsOpened state (pos 0) r.notes (cleared_session r fs2 s) stored);
        session =
            sym (ap (λ x. x.0) last)
            ∙ ap
                (λ (v : LeaseRow). record u {
                  events =
                      ((u.events
                          ++ (lease_terminated_event (replaced_row r current) false true occurred_at
                              ∷ []))
                        ++ (lease_created_event v occurred_at ∷ []))
                      ++ (lease_replaced (replaced_row r current).state.id v.state.id
                            v.state.room_id v.state.property_id v.state.tenant_id r.reason
                            r.effective_start (replacement_changed_fields current v)
                            replacement_deposit_carry_over occurred_at
                          ∷ []);
                })
                same;
      }
