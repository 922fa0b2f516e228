-- ===== src/Services/Leases/Accepted.antt =====
-- What the aggregate has accepted when a service goes on.
use stds_backend_go.Prelude.{
  ◌≡◌, refl, sym, ap, ◌∙◌, subst, ℕ, Bool, true, false, not, String, Option, none, some, arith, ok,
  ok-injective, >>=-inverts,
}
use stds_backend_go.Prelude.Int.{ℤ, pos, negsuc, ltb_ℤ, InInt}
use stds_backend_go.Lease.Defs
use stds_backend_go.Lease.Defs.{State, trim_state, check_state, rehydrate, settle_deposit}
use stds_backend_go.Lease.Normal.{normalize_state-IsNormal}
use stds_backend_go.Lease.Deposit.{IsSettled, settle_deposit-IsSettled}
use stds_backend_go.Db.Rows.{LeaseRow}
use stds_backend_go.Services.Leases.Errors.{without_rent_cadence, method_result}

pub method_result-ok :
    {S E : Type 0} (r : S × Option E) {s : S} → method_result r ≡ ok s → (r.1 ≡ none) × (r.0 ≡ s)
method_result-ok (s, none) h = (refl, ok-injective h)
method_result-ok (s, some e) h = cc h

pub not-not : {b : Bool} → not b ≡ false → b ≡ true
not-not {b} h = by_cases b h
  where
    by_cases : (b : Bool) → not b ≡ false → b ≡ true
    by_cases true h = refl
    by_cases false h = cc h

deposit_not_negative : (s : State) → check_state s ≡ ok tt → ltb_ℤ s.deposit_amount (pos 0) ≡ false
unfolding check_state
deposit_not_negative s h = ground arith

natural : (d : ℤ) → ltb_ℤ d (pos 0) ≡ false → (n : ℕ) × (d ≡ pos n)
natural (pos n) h = (n, refl)
natural (negsuc n) h = absurd (ground arith)

-- A lease that is read back is the row, trimmed, and its deposit is not negative.
pub rehydrate-ok :
    (s : State) {lease : State}
    → rehydrate s ≡ ok lease
    → (lease ≡ trim_state s)
      × (check_state (trim_state s) ≡ ok tt)
      × ((d : ℕ) × (s.deposit_amount ≡ pos d))
unfolding rehydrate Defs.normalize_state
rehydrate-ok s h =
    let (_, checks, result) = >>=-inverts (check_state (trim_state s)) _ h in
    (
      sym (ok-injective result),
      checks,
      natural s.deposit_amount (deposit_not_negative (trim_state s) checks),
    )

-- The settlement `settled` of the deposit of a row.
pub record IsAccepted (current : LeaseRow) (refund deduction : ℤ) (settled : State) : Type 0 where
  pub held : current.state.deposit_status ≡ Defs.deposit_status_held
  pub split : IsSettled current.state.deposit_amount refund deduction settled
  pub status : settled.status ≡ current.state.status

status-settle_deposit :
    (refund deduction : ℤ) (reason : Option String) (s : State)
    → (settle_deposit refund deduction reason s).0.status ≡ s.status
unfolding settle_deposit
status-settle_deposit refund deduction reason s = ground arith

pub settle_deposit-IsAccepted :
    (current : LeaseRow) (refund deduction : ℤ) (reason : Option String) {lease settled : State}
    → InInt refund
    → InInt deduction
    → rehydrate (without_rent_cadence current) ≡ ok lease
    → method_result (settle_deposit refund deduction reason lease) ≡ ok settled
    → IsAccepted current refund deduction settled
settle_deposit-IsAccepted current refund deduction reason {lease} {settled} hr hc read done =
    let (lease_is, _, (d, amount)) = rehydrate-ok (without_rent_cadence current) read in
    let (no_error, settled_is) =
      method_result-ok (settle_deposit refund deduction reason lease) done in
    let (held, split) =
      settle_deposit-IsSettled refund deduction reason lease d hr hc
        (ap (λ (x : State). x.deposit_amount) lease_is ∙ amount) no_error in
    let split_at : IsSettled lease.deposit_amount refund deduction settled =
      subst (λ x. IsSettled lease.deposit_amount refund deduction x) settled_is split in
    record {
      held = ap (λ (x : State). x.deposit_status) (sym lease_is) ∙ held;
      split =
          subst (λ (x : State). IsSettled x.deposit_amount refund deduction settled) lease_is
            split_at;
      status =
          ap (λ (x : State). x.status) (sym settled_is)
          ∙ status-settle_deposit refund deduction reason lease
          ∙ ap (λ (x : State). x.status) lease_is;
    }

-- A lease that is new is the state that was given, trimmed and with the defaults of a new lease.
pub new-ok :
    (s : State) {lease : State}
    → Defs.new s ≡ ok lease
    → (lease ≡ Defs.fill_defaults (trim_state s)) × (check_state lease ≡ ok tt)
unfolding Defs.new Defs.normalize_state
new-ok s h =
    let (_, checks, result) = >>=-inverts (check_state (trim_state s)) _ h in
    (sym (ok-injective result), (normalize_state-IsNormal s true h).checked)
