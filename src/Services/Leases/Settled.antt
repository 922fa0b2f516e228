-- ===== src/Services/Leases/Settled.antt =====
-- What a settlement of a deposit leaves in the database, and what it announces.
use stds_backend_go.Prelude.{
  ◌≡◌, ◌≢◌, refl, sym, ap, ◌∙◌, subst, Bool, true, not, String, List, Option, some, ok,
  ok-injective,
}
use stds_backend_go.Prelude.Int.{ℤ, InInt}
use stds_backend_go.GoTime.{Time}
use stds_backend_go.Lease.Defs
use stds_backend_go.Lease.Deposit.{IsSettled}
use stds_backend_go.Db.Table.{some-injective, find, update_where}
use stds_backend_go.Db.Rows.{LeaseRow}
use stds_backend_go.Db.Script.{Session}
use stds_backend_go.Db.Steps.{caught-then, stop_if-then}
use stds_backend_go.Db.Roles.{Role, may_access}
use stds_backend_go.Db.Bills.{is_lease}
use stds_backend_go.Db.Leases.{settle_columns}
use stds_backend_go.Db.Leases.Passed.{find_lease-then, update_lease-then}
use stds_backend_go.Services.Leases.Errors.{
  forbidden, internal, map_domain_error, map_lease_lookup_error, without_rent_cadence,
  method_result,
}
use stds_backend_go.Services.Leases.Deposit.{deposit_reason_value, store_deposit, settle_lease}
use stds_backend_go.Services.Leases.Books.{IsSettlementBooked, book_deposit-then}
use stds_backend_go.Services.Leases.Accepted.{settle_deposit-IsAccepted, not-not}

-- The columns of a settlement, on the row that they are written to.
pub IsSettled-settle_columns :
    {refund deduction : ℤ} {settled : Defs.State} (current : LeaseRow)
    → IsSettled current.state.deposit_amount refund deduction settled
    → IsSettled current.state.deposit_amount refund deduction
        (settle_columns refund deduction settled.deposit_deduction_reason current).state
IsSettled-settle_columns current split = record {
  parts = split.parts;
  refund = refl;
  deduction = refl;
  status = refl;
  reason = split.reason;
}

module _ {F : Type 0} where
  -- The session after the row is written.
  abbrev pub settled_session : String → ℤ → ℤ → Option String → List Bool → Session F → Session F
  settled_session lease_id refund deduction reason fs s = record s {
    db = record s.db {
      leases =
          update_where (is_lease lease_id) (settle_columns refund deduction reason) s.db.leases;
    };
    faults = fs;
  }

  -- The session after the aggregate `settled` is stored.
  record IsStored (lease_id : String) (refund deduction : ℤ) (reason : Option String)
      (occurred_at : Time) (given : Option String) (current : LeaseRow) (s t : Session F)
      (r : LeaseRow) : Type 0 where
    faults : List Bool
    row : r ≡ settle_columns refund deduction given current
    stored :
        find
          (is_lease lease_id)
          (settled_session lease_id refund deduction given faults s).db.leases
        ≡ some r
    booked :
        IsSettlementBooked r refund deduction
          (deposit_reason_value reason)
          occurred_at
          (settled_session lease_id refund deduction given faults s)
          t

  store_deposit-IsStored :
      (lease_id : String) (refund deduction : ℤ) (reason : Option String) (occurred_at : Time)
      (state : Defs.State) (current : LeaseRow) (s : Session F) {t : Session F} {r : LeaseRow}
      → find (is_lease lease_id) s.db.leases ≡ some current
      → state.deposit_refund_amount ≡ some refund
      → state.deposit_deduction_amount ≡ some deduction
      → store_deposit lease_id refund deduction reason occurred_at state s ≡ (t, ok r)
      → IsStored lease_id refund deduction reason occurred_at state.deposit_deduction_reason current
          s t r
  unfolding store_deposit
  store_deposit-IsStored lease_id refund deduction reason occurred_at state current s {t} {r}
        was_found refund_is deduction_is h =
      let given = state.deposit_deduction_reason in
      let updated : LeaseRow = settle_columns refund deduction given current in
      let (fs, rest, after) =
        update_lease-then internal lease_id (settle_columns refund deduction given) current _ s
          (λ x. refl) was_found (rw (refund_is, deduction_is) at h) in
      let (u, booked, last) =
        book_deposit-then updated refund deduction (deposit_reason_value reason) occurred_at _
          (settled_session lease_id refund deduction given fs s) rest in
      let same : updated ≡ r = ok-injective (ap (λ x. x.1) last) in
      record {
        faults = fs;
        row = sym same;
        stored = after ∙ ap some same;
        booked =
            subst
              (λ x.
                IsSettlementBooked x refund deduction (deposit_reason_value reason) occurred_at
                  (settled_session lease_id refund deduction given fs s) t)
              same
              (subst
                (λ x.
                  IsSettlementBooked updated refund deduction (deposit_reason_value reason)
                    occurred_at (settled_session lease_id refund deduction given fs s) x)
                (ap (λ x. x.0) last) booked);
      }

  -- The sessions around a settlement that returned the row `r`.
  pub record IsSettledLease (role : Role) (assigned : List String) (lease_id : String)
      (refund deduction : ℤ) (reason : Option String) (occurred_at : Time) (s t : Session F)
      (r : LeaseRow) : Type 0 where
    pub current : LeaseRow
    pub was_found : find (is_lease lease_id) s.db.leases ≡ some current
    pub allowed : may_access role assigned current.state.property_id ≡ true
    pub held : current.state.deposit_status ≡ Defs.deposit_status_held
    pub split : IsSettled current.state.deposit_amount refund deduction r.state
    pub row : r ≡ settle_columns refund deduction r.state.deposit_deduction_reason current
    pub stored : find (is_lease lease_id) t.db.leases ≡ some r
    pub leases :
        t.db.leases
        ≡ update_where
            (is_lease lease_id)
            (settle_columns refund deduction r.state.deposit_deduction_reason)
            s.db.leases
    pub booked :
        (given : Option String) × (faults : List Bool) × IsSettlementBooked r refund deduction
          (deposit_reason_value reason)
          occurred_at
          (settled_session lease_id refund deduction given faults s)
          t

  module _ (role : Role) (assigned : List String) (lease_id : String) (refund deduction : ℤ)
      (reason : Option String) (occurred_at : Time) (hr : InInt refund) (hc : InInt deduction) where
    -- A settlement that succeeds is of a held deposit, to whose property the actor has access. Refund
    -- and deduction are not negative and make up the deposit exactly; they and the status are written to
    -- the row of the lease, no other lease changes, and each amount that is not 0 is booked by one
    -- entry, the refund with its sign turned, on the account of the property, and announced by one
    -- event.
    pub settle_lease-IsSettledLease :
        (s : Session F) {t : Session F} {r : LeaseRow}
        → settle_lease role assigned lease_id refund deduction reason occurred_at s ≡ (t, ok r)
        → IsSettledLease role assigned lease_id refund deduction reason occurred_at s t r
    unfolding settle_lease
    settle_lease-IsSettledLease s {t} {r} h =
        let (fs, current, was_found, rest) =
          find_lease-then map_lease_lookup_error lease_id _ s h in
        let (allowed, rest2) =
          stop_if-then (not (may_access role assigned current.state.property_id)) forbidden _ _
            rest in
        let (lease, read, rest3) =
          caught-then map_domain_error (Defs.rehydrate (without_rent_cadence current)) _ _ rest2 in
        let (settled, done, rest4) =
          caught-then map_domain_error
            (method_result (Defs.settle_deposit refund deduction reason lease)) _
            (record s { faults = fs }) rest3 in
        let accepted = settle_deposit-IsAccepted current refund deduction reason hr hc read done in
        let at =
          store_deposit-IsStored lease_id refund deduction reason occurred_at settled current
            (record s { faults = fs }) was_found accepted.split.refund accepted.split.deduction
            rest4 in
        let given = ap (λ (x : LeaseRow). x.state.deposit_deduction_reason) at.row in
        let leases = ap (λ (x : Session F). x.db.leases) at.booked.session in
        record {
          current = current;
          was_found = was_found;
          allowed = not-not allowed;
          held = accepted.held;
          split =
              subst
                (λ (x : LeaseRow). IsSettled current.state.deposit_amount refund deduction x.state)
                (sym at.row) (IsSettled-settle_columns current accepted.split);
          row = at.row ∙ ap (λ o. settle_columns refund deduction o current) (sym given);
          stored = ap (find (is_lease lease_id)) leases ∙ at.stored;
          leases =
              leases
              ∙ ap
                  (λ o.
                    update_where (is_lease lease_id) (settle_columns refund deduction o)
                      s.db.leases)
                  (sym given);
          booked = (settled.deposit_deduction_reason, at.faults, at.booked);
        }

  -- After a settlement, no settlement of the same lease by anyone succeeds as long as its row stays.
  pub settle_lease_once :
      (role role2 : Role) (assigned assigned2 : List String) (lease_id : String)
      (refund deduction refund2 deduction2 : ℤ) (reason reason2 : Option String) (at later : Time)
      (s s2 : Session F) {t u : Session F} {r q : LeaseRow}
      → InInt refund
      → InInt deduction
      → InInt refund2
      → InInt deduction2
      → settle_lease role assigned lease_id refund deduction reason at s ≡ (t, ok r)
      → s2.db.leases ≡ t.db.leases
      → settle_lease role2 assigned2 lease_id refund2 deduction2 reason2 later s2 ≢ (u, ok q)
  settle_lease_once role role2 assigned assigned2 lease_id refund deduction refund2 deduction2
        reason reason2 at later s s2 hr hc hr2 hc2 first same again =
      let a =
        settle_lease-IsSettledLease role assigned lease_id refund deduction reason at hr hc s
          first in
      let b =
        settle_lease-IsSettledLease role2 assigned2 lease_id refund2 deduction2 reason2 later hr2
          hc2 s2 again in
      let current_is =
        some-injective (sym b.was_found ∙ ap (find (is_lease lease_id)) same ∙ a.stored) in
      cc (sym (ap (λ (x : LeaseRow). x.state.deposit_status) current_is ∙ a.split.status) ∙ b.held)
