-- ===== src/Services/Leases/Terminate/Proof.antt =====
-- What a normal termination leaves in the database, and what it announces.
use stds_backend_go.Prelude.{
  ◌≡◌, refl, sym, ap, ◌∙◌, subst, Bool, true, false, not, ◌||◌, inl, inr, Bool-cases, String, List,
  [], ◌∷◌, ◌++◌, Option, none, some, All, ok, ok-injective,
}
use stds_backend_go.Prelude.Int.{ℤ, InInt}
use stds_backend_go.GoTime.{Time}
use stds_backend_go.Lease.Defs
use stds_backend_go.Lease.Deposit.{IsSettled}
use stds_backend_go.Db.Table.{find, update_where, select}
use stds_backend_go.Db.Rows.{LeaseRow, BillRow}
use stds_backend_go.Db.Script.{Session}
use stds_backend_go.Db.Steps.{caught-then, stop_if-then}
use stds_backend_go.Db.Roles.{Role, may_access}
use stds_backend_go.Db.Bills.{is_lease}
use stds_backend_go.Db.Leases.{settle_columns, terminate_columns, is_bill_of}
use stds_backend_go.Db.Leases.Passed.{find_lease-then, update_lease-then, list_bills-then}
use stds_backend_go.Services.Leases.Errors.{
  forbidden, has_unpaid_bills, internal, map_domain_error, map_lease_lookup_error,
  without_rent_cadence, method_result,
}
use stds_backend_go.Services.Leases.Deposit.{deposit_reason_value}
use stds_backend_go.Services.Leases.Books.{IsSettlementBooked, book_deposit-then}
use stds_backend_go.Services.Leases.Accepted.{settle_deposit-IsAccepted, not-not}
use stds_backend_go.Services.Leases.Terminate.{
  is_closed, unpaid_bill_ids, some_left, lease_terminated_event, store_termination, end_lease,
}

terminate-keeps :
    (state : Defs.State) {t : Defs.State}
    → method_result (Defs.terminate state) ≡ ok t
    → (t ≡ record state { status = Defs.status_terminated })
      × (Defs.is_terminable_status state.status ≡ true)
unfolding Defs.terminate
terminate-keeps state h = elim (Bool-cases (Defs.is_terminable_status state.status)) [
  | inl open_lease ↦ (sym (ok-injective (rw open_lease at h)), open_lease)
  | inr other ↦ cc (rw other at h)
]

-- The row of a lease that is settled and ended.
abbrev pub end_columns : ℤ → ℤ → Option String → Time → LeaseRow → LeaseRow
end_columns refund deduction given occurred_at row =
    terminate_columns occurred_at.date "normal termination" none
      (settle_columns refund deduction given row)

IsSettled-end_columns :
    {refund deduction : ℤ} {settled : Defs.State} (occurred_at : Time) (current : LeaseRow)
    → IsSettled current.state.deposit_amount refund deduction settled
    → IsSettled current.state.deposit_amount refund deduction
        (end_columns refund deduction settled.deposit_deduction_reason occurred_at current).state
IsSettled-end_columns occurred_at current split = record {
  parts = split.parts;
  refund = refl;
  deduction = refl;
  status = refl;
  reason = split.reason;
}

module _ {F : Type 0} where
  -- A row that is a bill of the lease is paid, voided or written off.
  abbrev pub IsClosedBill : String → BillRow F → Type 0
  IsClosedBill lease_id row = (not (is_bill_of lease_id row) || is_closed row.state.status) ≡ true

  none_left :
      (lease_id : String) (rows : List (BillRow F))
      → some_left (unpaid_bill_ids (select (is_bill_of lease_id) rows)) ≡ false
      → All (IsClosedBill lease_id) rows
  unfolding select unpaid_bill_ids
  none_left lease_id [] h = tt
  none_left lease_id (row ∷ rows) h = elim (Bool-cases (is_bill_of lease_id row)) [
    | inr other ↦ (rw other refl, none_left lease_id rows (rw other at h))
    | inl yes_found ↦ elim (Bool-cases (is_closed row.state.status)) [
      | inl closed ↦
          (rw (yes_found, closed) refl, none_left lease_id rows (rw (yes_found, closed) at h))
      | inr open_bill ↦ cc (rw (yes_found, open_bill) at h)
    ]
  ]

  -- The session after both updates of the row.
  abbrev pub ended_session :
      String → ℤ → ℤ → Option String → Time → List Bool → Session F → Session F
  ended_session lease_id refund deduction given occurred_at fs s = record s {
    db = record s.db {
      leases =
          update_where (is_lease lease_id)
            (terminate_columns occurred_at.date "normal termination" none)
            (update_where (is_lease lease_id) (settle_columns refund deduction given) s.db.leases);
    };
    faults = fs;
  }

  -- The sessions around the writes.
  pub record IsEnded (lease_id : String) (refund deduction : ℤ) (reason : Option String)
      (occurred_at : Time) (given : Option String) (current : LeaseRow) (s t : Session F)
      (r : LeaseRow) : Type 0 where
    pub row : r ≡ end_columns refund deduction given occurred_at current
    pub faults : List Bool
    pub stored :
        find
          (is_lease lease_id)
          (ended_session lease_id refund deduction given occurred_at faults s).db.leases
        ≡ some r
    pub after : Session F
    pub booked :
        IsSettlementBooked
          (settle_columns refund deduction given current)
          refund
          deduction
          (deposit_reason_value reason)
          occurred_at
          (ended_session lease_id refund deduction given occurred_at faults s)
          after
    pub session : t ≡ record after {
      events = after.events ++ (lease_terminated_event r false false occurred_at ∷ []);
    }

  store_termination-IsEnded :
      (lease_id : String) (refund deduction : ℤ) (reason : Option String) (occurred_at : Time)
      (state : Defs.State) (current : LeaseRow) (s : Session F) {t : Session F} {r : LeaseRow}
      → find (is_lease lease_id) s.db.leases ≡ some current
      → state.deposit_refund_amount ≡ some refund
      → state.deposit_deduction_amount ≡ some deduction
      → store_termination lease_id refund deduction reason occurred_at state s ≡ (t, ok r)
      → IsEnded lease_id refund deduction reason occurred_at state.deposit_deduction_reason current
          s t r
  unfolding store_termination
  store_termination-IsEnded lease_id refund deduction reason occurred_at state current s {t} {r}
        was_found refund_is deduction_is h =
      let given = state.deposit_deduction_reason in
      let settled : LeaseRow = settle_columns refund deduction given current in
      let (fs, rest, found_settled) =
        update_lease-then map_lease_lookup_error lease_id (settle_columns refund deduction given)
          current _ s (λ x. refl) was_found (rw (refund_is, deduction_is) at h) in
      let (fs2, rest2, found_ended) =
        update_lease-then map_lease_lookup_error lease_id
          (terminate_columns occurred_at.date "normal termination" none) settled _
          (record s {
            db = record s.db {
              leases =
                  update_where (is_lease lease_id) (settle_columns refund deduction given)
                    s.db.leases;
            };
            faults = fs;
          })
          (λ x. refl) found_settled rest in
      let (u, booked, last) =
        book_deposit-then settled refund deduction (deposit_reason_value reason) occurred_at _
          (ended_session lease_id refund deduction given occurred_at fs2 s) rest2 in
      let same : end_columns refund deduction given occurred_at current ≡ r =
        ok-injective (ap (λ x. x.1) last) in
      record {
        row = sym same;
        faults = fs2;
        stored = found_ended ∙ ap some same;
        after = u;
        booked = booked;
        session =
            sym (ap (λ x. x.0) last)
            ∙ ap
                (λ x. record u {
                  events = u.events ++ (lease_terminated_event x false false occurred_at ∷ []);
                })
                same;
      }

  module _ {lease_id : String} {refund deduction : ℤ} {reason : Option String} {occurred_at : Time}
      {given : Option String} {current : LeaseRow} {s t : Session F} {r : LeaseRow}
      (e : IsEnded lease_id refund deduction reason occurred_at given current s t r) where
    bills_of_IsEnded : t.db.bills ≡ s.db.bills
    bills_of_IsEnded =
        ap (λ (x : Session F). x.db.bills) e.session
        ∙ ap (λ (x : Session F). x.db.bills) e.booked.session

    stored_of_IsEnded : find (is_lease lease_id) t.db.leases ≡ some r
    stored_of_IsEnded =
        ap (find (is_lease lease_id)) (
          ap (λ (x : Session F). x.db.leases) e.session
          ∙ ap (λ (x : Session F). x.db.leases) e.booked.session)
        ∙ e.stored

    with_faults :
        (fs : List Bool)
        → IsEnded lease_id refund deduction reason occurred_at given current
            (record s { faults = fs })
            t
            r
    with_faults fs = record {
      row = e.row;
      faults = e.faults;
      stored = e.stored;
      after = e.after;
      booked = e.booked;
      session = e.session;
    }

  -- The sessions around a termination that returned the row `r`.
  pub record IsEndedLease (role : Role) (assigned : List String) (lease_id : String)
      (refund deduction : ℤ) (reason : Option String) (occurred_at : Time) (s t : Session F)
      (r : LeaseRow) : Type 0 where
    pub current : LeaseRow
    pub was_found : find (is_lease lease_id) s.db.leases ≡ some current
    pub allowed : may_access role assigned current.state.property_id ≡ true
    pub was_open : Defs.is_terminable_status current.state.status ≡ true
    pub held : current.state.deposit_status ≡ Defs.deposit_status_held
    pub bills_closed : All (IsClosedBill lease_id) t.db.bills
    pub bills_kept : t.db.bills ≡ s.db.bills
    pub split : IsSettled current.state.deposit_amount refund deduction r.state
    pub status : r.state.status ≡ Defs.status_terminated
    pub end_date : r.state.end_date.date ≡ occurred_at.date
    pub stored : find (is_lease lease_id) t.db.leases ≡ some r
    pub writes :
        (given : Option String) × IsEnded lease_id refund deduction reason occurred_at given current
          s t r

  module _ (role : Role) (assigned : List String) (lease_id : String) (refund deduction : ℤ)
      (reason : Option String) (occurred_at : Time) (hr : InInt refund) (hc : InInt deduction) where
    -- A termination that succeeds is of an active or expired lease with a held deposit, to whose
    -- property the actor has access, and each of whose bills is paid, voided or written off. Refund and
    -- deduction make up the deposit exactly and are booked as by a settlement; the row of the lease is
    -- settled and terminated on the day of the call, no bill changes, and the last event announces the
    -- termination.
    pub end_lease-IsEndedLease :
        (s : Session F) {t : Session F} {r : LeaseRow}
        → end_lease role assigned lease_id refund deduction reason occurred_at s ≡ (t, ok r)
        → IsEndedLease role assigned lease_id refund deduction reason occurred_at s t r
    unfolding end_lease
    end_lease-IsEndedLease s {t} {r} h =
        let (fs, current, was_found, rest) =
          find_lease-then map_lease_lookup_error lease_id _ s h in
        let (allowed, rest2) =
          stop_if-then (not (may_access role assigned current.state.property_id)) forbidden _ _
            rest in
        let (fs2, rest3) = list_bills-then internal lease_id _ _ rest2 in
        let (closed, rest4) =
          stop_if-then (some_left (unpaid_bill_ids (select (is_bill_of lease_id) s.db.bills)))
            has_unpaid_bills _ _ rest3 in
        let (lease, read, rest5) =
          caught-then map_domain_error (Defs.rehydrate (without_rent_cadence current)) _ _ rest4 in
        let (settled, done, rest6) =
          caught-then map_domain_error
            (method_result (Defs.settle_deposit refund deduction reason lease)) _
            (record s { faults = fs2 }) rest5 in
        let (ended, ended_by, rest7) =
          caught-then map_domain_error (method_result (Defs.terminate settled)) _
            (record s { faults = fs2 }) rest6 in
        let accepted = settle_deposit-IsAccepted current refund deduction reason hr hc read done in
        let (ended_is, was_open) = terminate-keeps settled ended_by in
        let at =
          store_termination-IsEnded lease_id refund deduction reason occurred_at ended current
            (record s { faults = fs2 }) was_found
            (ap (λ (x : Defs.State). x.deposit_refund_amount) ended_is ∙ accepted.split.refund)
            (ap (λ (x : Defs.State). x.deposit_deduction_amount) ended_is
              ∙ accepted.split.deduction)
            rest7 in
        let given = ap (λ (x : Defs.State). x.deposit_deduction_reason) ended_is in
        let writes =
          subst
            (λ o.
              IsEnded lease_id refund deduction reason occurred_at o current
                (record s { faults = fs2 }) t r)
            given at in
        record {
          current = current;
          was_found = was_found;
          allowed = not-not allowed;
          was_open = ap Defs.is_terminable_status (sym accepted.status) ∙ was_open;
          held = accepted.held;
          bills_closed =
              subst (All (IsClosedBill lease_id)) (sym (bills_of_IsEnded writes))
                (none_left lease_id s.db.bills closed);
          bills_kept = bills_of_IsEnded writes;
          split =
              subst
                (λ (x : LeaseRow). IsSettled current.state.deposit_amount refund deduction x.state)
                (sym writes.row) (IsSettled-end_columns occurred_at current accepted.split);
          status = ap (λ (x : LeaseRow). x.state.status) writes.row;
          end_date = ap (λ (x : LeaseRow). x.state.end_date.date) writes.row;
          stored = stored_of_IsEnded writes;
          writes = (settled.deposit_deduction_reason, with_faults writes s.faults);
        }
