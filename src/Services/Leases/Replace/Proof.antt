-- ===== src/Services/Leases/Replace/Proof.antt =====
-- What a replacement leaves in the database.
use stds_backend_go.Prelude.{
  ◌≡◌, refl, sym, ap, ◌∙◌, subst, suc, Bool, true, false, not, ◌==◌, eq_iff, String, List, [], ◌∷◌,
  ◌++◌, some, All, ok,
}
use stds_backend_go.Prelude.Int.{pos}
use stds_backend_go.GoTime.{Date, Time, IsDate, before, prev_day}
use stds_backend_go.Periods.Coverage.{once_between}
use stds_backend_go.Lease.Defs
use stds_backend_go.Lease.Defs.{State}
use stds_backend_go.Bill.Defs.{type_rent, type_electricity, status_voided}
use stds_backend_go.Db.Table.{find, update_where, select}
use stds_backend_go.Db.Rows.{LeaseRow, BillRow, lease_replaced}
use stds_backend_go.Db.Script.{Session}
use stds_backend_go.Db.Steps.{caught-then, stop_if-then}
use stds_backend_go.Db.Roles.{Role, may_access}
use stds_backend_go.Db.Bills.{is_lease}
use stds_backend_go.Db.Leases.{
  is_bill_of, is_overlapping, with_status, new_bill_rows, new_lease_row,
}
use stds_backend_go.Db.Leases.Passed.{
  find_lease-then, list_bills-then, find_tenant-then, find_room-then,
}
use stds_backend_go.Services.Leases.Errors.{
  forbidden, internal, lease_not_active, replacement_not_at_boundary,
  replacement_has_unsettled_bills, replacement_scope_mismatch, replacement_deposit_unsupported,
  map_domain_error, map_lease_lookup_error, map_tenant_lookup_error, map_room_lookup_error,
}
use stds_backend_go.Services.Leases.Accepted.{not-not, new-ok}
use stds_backend_go.Services.Leases.Terminate.{some_left, lease_terminated_event}
use stds_backend_go.Services.Leases.Create.{lease_params, build_bill_seeds, lease_created_event}
use stds_backend_go.Services.Leases.Create.Proof.{bills_on, bill_seeds_on, covers}
use stds_backend_go.Services.Leases.Replace.{
  Replacement, successor_state, ReplaceLeaseResult, replacement_changed_fields,
  replacement_deposit_carry_over, replace_checked, replace_lease,
}
use stds_backend_go.Services.Leases.Replace.Boundary.{
  is_replacement_boundary, unsettled_before_boundary,
}
use stds_backend_go.Services.Leases.Replace.Stored.{
  IsPaidBefore, paid_before, IsCleared, cleared, replaced_row, IsStored, store_replacement-IsStored,
}

module _ {F : Type 0} where
  -- The sessions around a replacement, for a day x.
  pub record IsReplaced (role : Role) (assigned : List String) (r : Replacement)
      (occurred_at : Time) (x : Date) (s t : Session F) (result : ReplaceLeaseResult) : Type 0 where
    pub current : LeaseRow
    pub was_found : find (is_lease r.lease_id) s.db.leases ≡ some current
    pub allowed : may_access role assigned current.state.property_id ≡ true
    pub active : current.state.status ≡ Defs.status_active
    pub started : before (prev_day r.effective_start) current.state.start_date.date ≡ false
    pub paid : All (IsPaidBefore r.lease_id r.effective_start) s.db.bills
    pub old_lease : result.old_lease ≡ replaced_row r current
    pub ended :
        (result.old_lease.state.status ≡ Defs.status_terminated)
        × (result.old_lease.state.end_date.date ≡ prev_day r.effective_start)
    pub leases :
        t.db.leases
        ≡ update_where (is_lease r.lease_id) (replaced_row r) s.db.leases ++ (result.new_lease ∷ [])
    pub term :
        (result.new_lease.state.start_date.date ≡ r.effective_start)
        × (result.new_lease.state.end_date.date ≡ r.new_end_date)
    pub deposits :
        (result.old_lease.state.deposit_status ≡ Defs.deposit_status_held)
        × (result.new_lease.state.deposit_status ≡ Defs.deposit_status_held)
        × (result.new_lease.state.deposit_amount ≡ result.old_lease.state.deposit_amount)
    pub old_bills : List (BillRow F)
    pub new_bills : List (BillRow F)
    pub bills : t.db.bills ≡ old_bills ++ new_bills
    pub old_bills_are :
        old_bills
        ≡ update_where
            (is_overlapping r.lease_id r.effective_start)
            (with_status status_voided s.now)
            s.db.bills
    pub all_cleared : All (IsCleared r.lease_id r.effective_start) old_bills
    pub rent_covers :
        bills_on type_rent x new_bills ≡ once_between r.effective_start r.new_end_date x
    pub electricity_covers :
        bills_on type_electricity x new_bills ≡ once_between r.effective_start r.new_end_date x
    pub events :
        t.events
        ≡ ((s.events ++ (lease_terminated_event result.old_lease false true occurred_at ∷ []))
            ++ (lease_created_event result.new_lease occurred_at ∷ []))
          ++ (lease_replaced result.old_lease.state.id result.new_lease.state.id
                result.new_lease.state.room_id result.new_lease.state.property_id
                result.new_lease.state.tenant_id r.reason r.effective_start
                (replacement_changed_fields current result.new_lease)
                replacement_deposit_carry_over
                occurred_at
              ∷ [])

  stored-IsReplaced :
      (role : Role) (assigned : List String) (r : Replacement) (occurred_at : Time) (x : Date)
      (current : LeaseRow) (state : State) (fs : List Bool) (s : Session F) {t : Session F}
      {result : ReplaceLeaseResult}
      → IsDate r.effective_start
      → IsDate r.new_end_date
      → IsDate x
      → find (is_lease r.lease_id) s.db.leases ≡ some current
      → may_access role assigned current.state.property_id ≡ true
      → current.state.status ≡ Defs.status_active
      → current.state.deposit_status ≡ Defs.deposit_status_held
      → some_left
          (unsettled_before_boundary (select (is_bill_of r.lease_id) s.db.bills) r.effective_start)
        ≡ false
      → Defs.new (successor_state r current) ≡ ok state
      → before (prev_day r.effective_start) current.state.start_date.date ≡ false
      → IsStored r current state occurred_at (record s { faults = fs }) t result
      → IsReplaced role assigned r occurred_at x s t result
  unfolding successor_state lease_params
  stored-IsReplaced role assigned r occurred_at x current state fs s {t} {result} vs ve vx was_found
        allowed active held settled accepted started stored =
      let (state_is, checked) = new-ok _ accepted in
      let opened = stored.opened in
      let row_is =
        opened.row
        ∙ ap (λ (v : State). new_lease_row (s.ids s.drawn) (lease_params v (pos 0) r.notes))
            state_is in
      let starts : state.start_date.date ≡ r.effective_start =
        ap (λ (v : State). v.start_date.date) state_is in
      let ends : state.end_date.date ≡ r.new_end_date =
        ap (λ (v : State). v.end_date.date) state_is in
      let (rent, electricity) =
        covers state checked x {rent = opened.rent} {electricity = opened.electricity}
          (subst IsDate (sym starts) vs) (subst IsDate (sym ends) ve) vx opened.rent_built
          opened.electricity_built in
      let within : once_between state.start_date.date state.end_date.date x
          ≡ once_between r.effective_start r.new_end_date x =
        λ i. once_between (starts i) (ends i) x in
      let (rents, electricities) =
        bill_seeds_on F result.new_lease x s.ids s.now (suc s.drawn) opened.rent
          opened.electricity in
      record {
        current = current;
        was_found = was_found;
        allowed = allowed;
        active = active;
        started = started;
        paid = paid_before r.lease_id r.effective_start s.db.bills settled;
        old_lease = stored.old_lease;
        ended = (
          ap (λ (v : LeaseRow). v.state.status) stored.old_lease,
          ap (λ (v : LeaseRow). v.state.end_date.date) stored.old_lease,
        );
        leases =
            ap (λ (v : Session F). v.db.leases) stored.session
            ∙ ap (λ (v : Session F). v.db.leases) opened.session;
        term = (
          ap (λ (v : LeaseRow). v.state.start_date.date) row_is,
          ap (λ (v : LeaseRow). v.state.end_date.date) row_is,
        );
        deposits = (
          ap (λ (v : LeaseRow). v.state.deposit_status) stored.old_lease ∙ held,
          ap (λ (v : LeaseRow). v.state.deposit_status) row_is,
          ap (λ (v : LeaseRow). v.state.deposit_amount) row_is
              ∙ sym (ap (λ (v : LeaseRow). v.state.deposit_amount) stored.old_lease),
        );
        old_bills =
            update_where (is_overlapping r.lease_id r.effective_start)
              (with_status status_voided s.now) s.db.bills;
        new_bills =
            new_bill_rows s.ids (suc s.drawn) s.now
              (build_bill_seeds result.new_lease opened.rent opened.electricity);
        bills =
            ap (λ (v : Session F). v.db.bills) stored.session
            ∙ ap (λ (v : Session F). v.db.bills) opened.session;
        old_bills_are = refl;
        all_cleared = cleared r.lease_id r.effective_start s.now s.db.bills;
        rent_covers = rents ∙ rent ∙ within;
        electricity_covers = electricities ∙ electricity ∙ within;
        events = ap (λ (v : Session F). v.events) stored.session ∙ λ i.
            ((ap (λ (v : Session F). v.events) opened.session i
                ++ (lease_terminated_event (sym stored.old_lease i) false true occurred_at ∷ []))
              ++ (lease_created_event result.new_lease occurred_at ∷ []))
            ++ (lease_replaced (sym stored.old_lease i).state.id result.new_lease.state.id
                  result.new_lease.state.room_id result.new_lease.state.property_id
                  result.new_lease.state.tenant_id r.reason r.effective_start
                  (replacement_changed_fields current result.new_lease)
                  replacement_deposit_carry_over occurred_at
                ∷ []);
      }

  checked-IsReplaced :
      (role : Role) (assigned : List String) (r : Replacement) (occurred_at : Time) (x : Date)
      (current : LeaseRow) (fs : List Bool) (s : Session F) {t : Session F}
      {result : ReplaceLeaseResult}
      → IsDate r.effective_start
      → IsDate r.new_end_date
      → IsDate x
      → find (is_lease r.lease_id) s.db.leases ≡ some current
      → may_access role assigned current.state.property_id ≡ true
      → current.state.status ≡ Defs.status_active
      → current.state.deposit_status ≡ Defs.deposit_status_held
      → replace_checked r current occurred_at (record s { faults = fs }) ≡ (t, ok result)
      → IsReplaced role assigned r occurred_at x s t result
  unfolding replace_checked
  checked-IsReplaced role assigned r occurred_at x current fs s {t} {result} vs ve vx was_found
        allowed active held h =
      let (fs2, tenant, tenant_found, rest) =
        find_tenant-then map_tenant_lookup_error current.state.tenant_id _
          (record s { faults = fs }) h in
      let (fs3, room, property, room_found, rest2) =
        find_room-then map_room_lookup_error current.state.room_id _ (record s { faults = fs2 })
          rest in
      let (_, rest3) =
        stop_if-then (not (room.property_id == current.state.property_id))
          replacement_scope_mismatch _ _ rest2 in
      let (fs4, rest4) = list_bills-then internal r.lease_id _ (record s { faults = fs3 }) rest3 in
      let bills = select (is_bill_of r.lease_id) s.db.bills in
      let (_, rest5) =
        stop_if-then (not (is_replacement_boundary current bills r.effective_start))
          replacement_not_at_boundary _ _ rest4 in
      let (settled, rest6) =
        stop_if-then (some_left (unsettled_before_boundary bills r.effective_start))
          replacement_has_unsettled_bills _ _ rest5 in
      let (state, accepted, rest7) =
        caught-then map_domain_error (Defs.new (successor_state r current)) _
          (record s { faults = fs4 }) rest6 in
      let (started, last) =
        stop_if-then (before (prev_day r.effective_start) current.state.start_date.date)
          replacement_not_at_boundary _ _ rest7 in
      stored-IsReplaced role assigned r occurred_at x current state fs4 s vs ve vx was_found allowed
        active held settled accepted started
        (store_replacement-IsStored r current state occurred_at (record s { faults = fs4 })
          was_found last)

  module _ (role : Role) (assigned : List String) (r : Replacement) (occurred_at : Time) (x : Date)
      (vs : IsDate r.effective_start) (ve : IsDate r.new_end_date) (vx : IsDate x) where
    -- A replacement that succeeds is of an active lease, to whose property the actor has access, that has
    -- started before, and whose bills that end before the effective day are all paid. It ends the
    -- predecessor on the eve, adds a successor from the effective day to the new end, voids every pending
    -- bill that reaches the effective day or lies after it, and adds bills that have each day x of the
    -- successor's term in exactly one rent bill and one electricity bill, and no other day in any. Both
    -- leases count their deposit as held, of the same amount; three events are recorded.
    pub replace_lease-IsReplaced :
        (s : Session F) {t : Session F} {result : ReplaceLeaseResult}
        → replace_lease role assigned r occurred_at s ≡ (t, ok result)
        → IsReplaced role assigned r occurred_at x s t result
    unfolding replace_lease
    replace_lease-IsReplaced s {t} {result} h =
        let (fs, current, was_found, rest) =
          find_lease-then map_lease_lookup_error r.lease_id _ s h in
        let (allowed, rest2) =
          stop_if-then (not (may_access role assigned current.state.property_id)) forbidden _ _
            rest in
        let (active, rest3) =
          stop_if-then (not (current.state.status == Defs.status_active)) lease_not_active _ _
            rest2 in
        let (held, last) =
          stop_if-then (not (current.state.deposit_status == Defs.deposit_status_held))
            replacement_deposit_unsupported _ _ rest3 in
        checked-IsReplaced role assigned r occurred_at x current fs s vs ve vx was_found
          (not-not allowed) ((eq_iff current.state.status Defs.status_active).0 (not-not active))
          ((eq_iff current.state.deposit_status Defs.deposit_status_held).0 (not-not held)) last
