-- ===== src/Services/Leases/Force/Closed.antt =====
-- The steps of a forced termination.
use stds_backend_go.Prelude.{
  ◌≡◌, refl, sym, ap, ◌∙◌, subst, Bool, true, false, not, ◌&&◌, ◌==◌, String, List, [], ◌∷◌, ◌++◌,
  some, ok, ok-injective,
}
use stds_backend_go.Prelude.Int.{pos, eqb_ℤ}
use stds_backend_go.GoTime.{Time}
use stds_backend_go.Lease.Defs.{force_termination_deposit_write_off}
use stds_backend_go.Db.Table.{find, update_where}
use stds_backend_go.Db.Rows.{LeaseRow, ForceTerminationRow}
use stds_backend_go.Db.Script.{Session, pure, >>=-ok}
use stds_backend_go.Db.Steps.{go_on-pure}
use stds_backend_go.Db.Bills.{is_lease}
use stds_backend_go.Db.Leases.{is_written_off_by, write_off_columns, force_terminate_columns}
use stds_backend_go.Db.Leases.Passed.{update_lease-then}
use stds_backend_go.Db.Forced.{Detail, is_force_termination, has_lease, status_completed}
use stds_backend_go.Db.Forced.Passed.{
  found_updated, create_force_termination_bills-then, mark_force_termination_bills_done-then,
  write_off_bills-then, complete_force_termination-then, find_force_termination_by_id-then,
}
use stds_backend_go.Services.Leases.Errors.{internal, map_lease_lookup_error}
use stds_backend_go.Services.Leases.Books.{IsEntered, entry_if-ok}
use stds_backend_go.Services.Leases.Deposit.{entry_if}
use stds_backend_go.Services.Leases.Terminate.{lease_terminated_event}
use stds_backend_go.Services.Leases.Force.{
  Order, map_force_termination_lookup_error, write_off_entry, close_bills, close_lease,
}

-- The row of the lease of an order.
abbrev pub forced_row : Order → String → LeaseRow → LeaseRow
forced_row order deposit_status =
    force_terminate_columns order.termination_date order.reason deposit_status
      order.actual_move_out_date

-- The deposit that is written off is booked, unless it is 0.
abbrev pub books_deposit : Order → LeaseRow → Bool
books_deposit order row =
    order.deposit_handling == force_termination_deposit_write_off
    && not (eqb_ℤ row.state.deposit_amount (pos 0))

and_left : (a b : Bool) → (a && b) ≡ true → a ≡ true
and_left true b h = refl
and_left false b h = cc h

module _ {F : Type 0} where
  -- The session after the bills are written off, with other rows of force terminations.
  pub record IsWrittenOff (bill_ids : List String) (reason : String) (s t : Session F)
      : Type 0 where
    pub bills :
        t.db.bills
        ≡ update_where (is_written_off_by bill_ids) (write_off_columns reason s.now) s.db.bills
    pub leases : t.db.leases ≡ s.db.leases
    pub entries : t.db.accounting_entries ≡ s.db.accounting_entries
    pub accounts : t.db.property_accounts ≡ s.db.property_accounts
    pub events : t.events ≡ s.events

  pub close_bills-IsWrittenOff :
      (id : String) (bill_ids : List String) (reason : String) (s : Session F) {t : Session F}
      {u : Unit {0}}
      → close_bills id bill_ids reason s ≡ (t, ok u)
      → IsWrittenOff bill_ids reason s t
  unfolding close_bills
  close_bills-IsWrittenOff id bill_ids reason s h =
      let (fs, rows, rest) = create_force_termination_bills-then internal id bill_ids _ s h in
      let (fs2, rest2) = write_off_bills-then internal bill_ids reason _ _ rest in
      let (fs3, rows3, last) =
        mark_force_termination_bills_done-then internal id bill_ids (λ a. pure a) _
          (go_on-pure _ ∙ rest2) in
      record {
        bills = sym (ap (λ r. r.0.db.bills) last);
        leases = sym (ap (λ r. r.0.db.leases) last);
        entries = sym (ap (λ r. r.0.db.accounting_entries) last);
        accounts = sym (ap (λ r. r.0.db.property_accounts) last);
        events = sym (ap (λ r. r.0.events) last);
      }

  pub record IsClosedLease (order : Order) (id deposit_status : String) (occurred_at : Time)
      (current : LeaseRow) (s t : Session F) (r : Detail) : Type 0 where
    pub leases :
        t.db.leases
        ≡ update_where (is_lease order.lease_id) (forced_row order deposit_status) s.db.leases
    pub stored :
        find (is_lease order.lease_id) t.db.leases ≡ some (forced_row order deposit_status current)
    pub bills : t.db.bills ≡ s.db.bills
    pub completed : r.0.status ≡ status_completed
    pub booked :
        IsEntered
          (books_deposit order current)
          s.db.property_accounts
          current.state.property_id
          (write_off_entry
            (forced_row order deposit_status current)
            id
            order.reason
            order.termination_date)
          s.db.accounting_entries
          t.db.accounting_entries
    pub events :
        t.events
        ≡ s.events
          ++ (lease_terminated_event
                (forced_row order deposit_status current)
                true
                false
                occurred_at
              ∷ [])

  pub close_lease-IsClosedLease :
      (order : Order) (id deposit_status : String) (occurred_at : Time) (current : LeaseRow)
      (s : Session F) {t : Session F} {r : Detail}
      → find (is_lease order.lease_id) s.db.leases ≡ some current
      → close_lease order id deposit_status occurred_at s ≡ (t, ok r)
      → IsClosedLease order id deposit_status occurred_at current s t r
  unfolding close_lease
  close_lease-IsClosedLease order id deposit_status occurred_at current s {t} {r} was_found h =
      let (fs, rest, after) =
        update_lease-then map_lease_lookup_error order.lease_id (forced_row order deposit_status)
          current _ s (λ x. refl) was_found h in
      let (fs2, rest2) = complete_force_termination-then internal id _ _ rest in
      let ended = forced_row order deposit_status current in
      let (u, _, entered, rest3) =
        >>=-ok
          (entry_if (books_deposit order ended) ended.state.property_id
            (write_off_entry ended id order.reason order.termination_date))
          _ _ rest2 in
      let (fs3, entries, booked, u_is) = entry_if-ok _ _ _ _ entered in
      let (fs4, row, row_found, last) =
        find_force_termination_by_id-then map_force_termination_lookup_error id _ u rest3 in
      let (old, row_is) =
        found_updated
          (λ (x : ForceTerminationRow). is_force_termination id x && has_lease u.db.leases x)
          (is_force_termination id)
          (λ (x : ForceTerminationRow). record x { status = status_completed })
          s.db.force_terminations row (λ x. refl)
          (λ x e. and_left (is_force_termination id x) (has_lease u.db.leases x) e)
          (ap
              (λ (v : Session F).
                find
                  (λ (x : ForceTerminationRow).
                    is_force_termination id x && has_lease u.db.leases x)
                  v.db.force_terminations)
              (sym u_is)
            ∙ row_found) in
      let from_u = λ (v : Session F). v.db.leases in
      record {
        leases = sym (ap (λ x. x.0.db.leases) last) ∙ ap from_u u_is;
        stored =
            ap (find (is_lease order.lease_id))
              (sym (ap (λ x. x.0.db.leases) last) ∙ ap from_u u_is)
            ∙ after;
        bills = sym (ap (λ x. x.0.db.bills) last) ∙ ap (λ (v : Session F). v.db.bills) u_is;
        completed =
            ap (λ (x : Detail). x.0.status) (sym (ok-injective (ap (λ x. x.1) last)))
            ∙ ap (λ (x : ForceTerminationRow). x.status) row_is;
        booked =
            subst
              (λ l.
                IsEntered (books_deposit order current) s.db.property_accounts
                  current.state.property_id
                  (write_off_entry ended id order.reason order.termination_date)
                  s.db.accounting_entries l)
              (sym (
                sym (ap (λ x. x.0.db.accounting_entries) last)
                ∙ ap (λ (v : Session F). v.db.accounting_entries) u_is))
              booked;
        events =
            sym (ap (λ x. x.0.events) last)
            ∙ ap
                (λ (v : Session F).
                  v.events ++ (lease_terminated_event ended true false occurred_at ∷ []))
                u_is;
      }
