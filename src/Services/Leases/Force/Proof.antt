-- ===== src/Services/Leases/Force/Proof.antt =====
-- What a forced termination leaves in the database, and what it announces.
use stds_backend_go.Prelude.{
  ◌≡◌, refl, sym, ap, ◌∙◌, subst, Bool, true, false, not, ◌⊎◌, inl, inr, Bool-cases, ◌==◌, eq_iff,
  String, List, [], ◌∷◌, ◌++◌, some, All, ok, ok-injective,
}
use stds_backend_go.Prelude.Text.{trim_space}
use stds_backend_go.GoTime.{Time, before}
use stds_backend_go.Lease.Defs
use stds_backend_go.Lease.Defs.{
  State, force_termination_deposit_write_off, force_termination_deposit_keep_held,
}
use stds_backend_go.Db.Table.{find, update_where, select}
use stds_backend_go.Db.Rows.{LeaseRow}
use stds_backend_go.Db.Script.{Session, >>=-ok}
use stds_backend_go.Db.Steps.{caught-then, stop_if-then}
use stds_backend_go.Db.Roles.{Role, may_access}
use stds_backend_go.Db.Bills.{is_lease}
use stds_backend_go.Db.Leases.{is_bill_of, is_written_off_by, write_off_columns}
use stds_backend_go.Db.Leases.Passed.{find_lease-then, list_bills-then}
use stds_backend_go.Db.Forced.{Detail, status_completed}
use stds_backend_go.Db.Forced.Passed.{create_force_termination-then}
use stds_backend_go.Services.Leases.Errors.{
  forbidden, bad_request, internal, map_domain_error, map_lease_lookup_error, without_rent_cadence,
  method_result,
}
use stds_backend_go.Services.Leases.Accepted.{not-not, rehydrate-ok}
use stds_backend_go.Services.Leases.Books.{IsEntered}
use stds_backend_go.Services.Leases.Terminate.{unpaid_bill_ids, lease_terminated_event}
use stds_backend_go.Services.Leases.Terminate.Proof.{IsClosedBill}
use stds_backend_go.Services.Leases.Force.{
  Order, write_off_entry, close_bills, store_forced, force_lease,
}
use stds_backend_go.Services.Leases.Force.Bills.{written_off_closed}
use stds_backend_go.Services.Leases.Force.Closed.{
  forced_row, books_deposit, IsWrittenOff, close_bills-IsWrittenOff, IsClosedLease,
  close_lease-IsClosedLease,
}

-- A forced termination that the aggregate accepts.
force_terminate-ok :
    (order : Order) (s : State) {t : State}
    → trim_space order.deposit_handling ≡ order.deposit_handling
    → method_result (Defs.force_terminate order.reason order.deposit_handling s) ≡ ok t
    → (Defs.is_terminable_status s.status ≡ true)
      × (((order.deposit_handling ≡ force_termination_deposit_write_off)
            × (t.deposit_status ≡ Defs.deposit_status_written_off))
          ⊎ ((order.deposit_handling ≡ force_termination_deposit_keep_held)
              × (t.deposit_status ≡ s.deposit_status)))
unfolding Defs.force_terminate
force_terminate-ok order s trimmed h = elim (Bool-cases (Defs.is_terminable_status s.status)) [
  | inr other ↦ cc (rw other at h)
  | inl open_lease ↦ elim (Bool-cases (trim_space order.reason == "")) [
    | inl empty ↦ cc (rw (open_lease, empty) at h)
    | inr given ↦
        elim (Bool-cases (order.deposit_handling == force_termination_deposit_write_off)) [
          | inl off ↦ (
            open_lease,
            inl (
              (eq_iff order.deposit_handling force_termination_deposit_write_off).0 off,
              ap (λ (v : State). v.deposit_status)
                  (sym (ok-injective (rw (open_lease, given, trimmed, off) at h))),
            ),
          )
          | inr other ↦
              elim (Bool-cases (order.deposit_handling == force_termination_deposit_keep_held)) [
                | inl held ↦ (
                  open_lease,
                  inr (
                    (eq_iff order.deposit_handling force_termination_deposit_keep_held).0 held,
                    ap (λ (v : State). v.deposit_status)
                        (sym (ok-injective (rw (open_lease, given, trimmed, other, held) at h))),
                  ),
                )
                | inr unknown ↦ cc (rw (open_lease, given, trimmed, other, unknown) at h)
              ]
        ]
  ]
]

module _ {F : Type 0} where
  -- The sessions around a forced termination.
  pub record IsForced (role : Role) (assigned : List String) (order : Order) (occurred_at : Time)
      (s t : Session F) (r : Detail) : Type 0 where
    pub current : LeaseRow
    pub was_found : find (is_lease order.lease_id) s.db.leases ≡ some current
    pub allowed : may_access role assigned current.state.property_id ≡ true
    pub in_term : before order.termination_date current.state.start_date.date ≡ false
    pub was_open : Defs.is_terminable_status current.state.status ≡ true
    pub deposit_status : String
    pub deposit :
        ((order.deposit_handling ≡ force_termination_deposit_write_off)
          × (deposit_status ≡ Defs.deposit_status_written_off))
        ⊎ ((order.deposit_handling ≡ force_termination_deposit_keep_held)
            × (deposit_status ≡ current.state.deposit_status))
    pub leases :
        t.db.leases
        ≡ update_where (is_lease order.lease_id) (forced_row order deposit_status) s.db.leases
    pub stored :
        find (is_lease order.lease_id) t.db.leases ≡ some (forced_row order deposit_status current)
    pub ended :
        ((forced_row order deposit_status current).state.status ≡ Defs.status_force_terminated)
        × ((forced_row order deposit_status current).state.end_date.date ≡ order.termination_date)
        × ((forced_row order deposit_status current).state.deposit_status ≡ deposit_status)
    pub bills :
        t.db.bills
        ≡ update_where
            (is_written_off_by (unpaid_bill_ids (select (is_bill_of order.lease_id) s.db.bills)))
            (write_off_columns order.reason s.now)
            s.db.bills
    pub bills_closed : All (IsClosedBill order.lease_id) t.db.bills
    pub booked :
        IsEntered
          (books_deposit order current)
          s.db.property_accounts
          current.state.property_id
          (write_off_entry
            (forced_row order deposit_status current)
            (s.ids s.drawn)
            order.reason
            order.termination_date)
          s.db.accounting_entries
          t.db.accounting_entries
    pub completed : r.0.status ≡ status_completed
    pub events :
        t.events
        ≡ s.events
          ++ (lease_terminated_event
                (forced_row order deposit_status current)
                true
                false
                occurred_at
              ∷ [])

  -- The steps from the list of bills on.
  record IsStored (order : Order) (deposit_status : String) (occurred_at : Time)
      (current : LeaseRow) (s t : Session F) (r : Detail) : Type 0 where
    between : Session F
    closed :
        IsWrittenOff
          (unpaid_bill_ids (select (is_bill_of order.lease_id) s.db.bills))
          order.reason
          s
          between
    ended : IsClosedLease order (s.ids s.drawn) deposit_status occurred_at current between t r

  store_forced-IsStored :
      (order : Order) (deposit_status : String) (occurred_at : Time) (current : LeaseRow)
      (s : Session F) {t : Session F} {r : Detail}
      → find (is_lease order.lease_id) s.db.leases ≡ some current
      → store_forced order deposit_status occurred_at s ≡ (t, ok r)
      → IsStored order deposit_status occurred_at current s t r
  unfolding store_forced
  store_forced-IsStored order deposit_status occurred_at current s {t} {r} was_found h =
      let (fs, rest) = list_bills-then internal order.lease_id _ s h in
      let (fs2, rest2) =
        create_force_termination-then internal order.lease_id order.actor_user_id order.reason
          order.deposit_handling _ _ rest in
      let ids = unpaid_bill_ids (select (is_bill_of order.lease_id) s.db.bills) in
      let (u, _, bills, last) = >>=-ok (close_bills (s.ids s.drawn) ids order.reason) _ _ rest2 in
      let closed = close_bills-IsWrittenOff (s.ids s.drawn) ids order.reason _ bills in
      record {
        between = u;
        closed = record {
          bills = closed.bills;
          leases = closed.leases;
          entries = closed.entries;
          accounts = closed.accounts;
          events = closed.events;
        };
        ended =
            close_lease-IsClosedLease order (s.ids s.drawn) deposit_status occurred_at current u
              (ap (find (is_lease order.lease_id)) closed.leases ∙ was_found) last;
      }

  stored-IsForced :
      (role : Role) (assigned : List String) (order : Order) (occurred_at : Time)
      (current : LeaseRow) (lease forced : State) (fs : List Bool) (s : Session F) {t : Session F}
      {r : Detail}
      → trim_space order.deposit_handling ≡ order.deposit_handling
      → find (is_lease order.lease_id) s.db.leases ≡ some current
      → may_access role assigned current.state.property_id ≡ true
      → before order.termination_date current.state.start_date.date ≡ false
      → Defs.rehydrate (without_rent_cadence current) ≡ ok lease
      → method_result (Defs.force_terminate order.reason order.deposit_handling lease) ≡ ok forced
      → IsStored order forced.deposit_status occurred_at current (record s { faults = fs }) t r
      → IsForced role assigned order occurred_at s t r
  stored-IsForced role assigned order occurred_at current lease forced fs s {t} {r} trimmed
        was_found allowed in_term read accepted stored =
      let (lease_is, _, _) = rehydrate-ok (without_rent_cadence current) read in
      let (was_open, deposit) = force_terminate-ok order lease trimmed accepted in
      let ids = unpaid_bill_ids (select (is_bill_of order.lease_id) s.db.bills) in
      let ended = stored.ended in
      let bills : t.db.bills
          ≡ update_where (is_written_off_by ids) (write_off_columns order.reason s.now) s.db.bills =
        ended.bills ∙ stored.closed.bills in
      record {
        current = current;
        was_found = was_found;
        allowed = allowed;
        in_term = in_term;
        was_open = ap (λ (v : State). Defs.is_terminable_status v.status) (sym lease_is) ∙ was_open;
        deposit_status = forced.deposit_status;
        deposit =
            subst
              (λ (v : State).
                ((order.deposit_handling ≡ force_termination_deposit_write_off)
                  × (forced.deposit_status ≡ Defs.deposit_status_written_off))
                ⊎ ((order.deposit_handling ≡ force_termination_deposit_keep_held)
                    × (forced.deposit_status ≡ v.deposit_status)))
              lease_is deposit;
        leases =
            ended.leases
            ∙ ap (update_where (is_lease order.lease_id) (forced_row order forced.deposit_status))
                stored.closed.leases;
        stored = ended.stored;
        bills = bills;
        bills_closed =
            subst (All (IsClosedBill order.lease_id)) (sym bills)
              (written_off_closed order.lease_id order.reason s.now s.db.bills);
        ended = (refl, refl, refl);
        booked =
            subst
              (λ l.
                IsEntered (books_deposit order current) l current.state.property_id
                  (write_off_entry (forced_row order forced.deposit_status current) (s.ids s.drawn)
                    order.reason order.termination_date)
                  s.db.accounting_entries t.db.accounting_entries)
              stored.closed.accounts
              (subst
                (λ l.
                  IsEntered (books_deposit order current) stored.between.db.property_accounts
                    current.state.property_id
                    (write_off_entry (forced_row order forced.deposit_status current)
                      (s.ids s.drawn) order.reason order.termination_date)
                    l t.db.accounting_entries)
                stored.closed.entries ended.booked);
        completed = ended.completed;
        events =
            ended.events
            ∙ ap
                (λ l.
                  l
                  ++ (lease_terminated_event (forced_row order forced.deposit_status current) true
                        false occurred_at
                      ∷ []))
                stored.closed.events;
      }

  module _ (role : Role) (assigned : List String) (order : Order) (occurred_at : Time)
      (trimmed : trim_space order.deposit_handling ≡ order.deposit_handling) where
    -- A forced termination that succeeds is of an active or expired lease, to whose property the actor has
    -- access, and not before its start. It writes off the bills with the identifiers of the open bills
    -- of the lease, so that each of its bills is paid, voided or written off; the row of the
    -- lease is force-terminated, its deposit written off or kept as the order says; a deposit that is
    -- written off and not 0 is booked on the account of the property; the record of the termination is
    -- completed, and the event announces it.
    pub force_lease-IsForced :
        (s : Session F) {t : Session F} {r : Detail}
        → force_lease role assigned order occurred_at s ≡ (t, ok r)
        → IsForced role assigned order occurred_at s t r
    unfolding force_lease
    force_lease-IsForced s {t} {r} h =
        let (fs, current, was_found, rest) =
          find_lease-then map_lease_lookup_error order.lease_id _ s h in
        let (allowed, rest2) =
          stop_if-then (not (may_access role assigned current.state.property_id)) forbidden _ _
            rest in
        let (in_term, rest3) =
          stop_if-then (before order.termination_date current.state.start_date.date) bad_request _ _
            rest2 in
        let (lease, read, rest4) =
          caught-then map_domain_error (Defs.rehydrate (without_rent_cadence current)) _ _ rest3 in
        let (forced, accepted, last) =
          caught-then map_domain_error
            (method_result (Defs.force_terminate order.reason order.deposit_handling lease)) _
            (record s { faults = fs }) rest4 in
        stored-IsForced role assigned order occurred_at current lease forced fs s trimmed was_found
          (not-not allowed) in_term read accepted
          (store_forced-IsStored order forced.deposit_status occurred_at current
            (record s { faults = fs }) was_found last)
