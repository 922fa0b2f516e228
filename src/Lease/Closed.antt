-- ===== src/Lease/Closed.antt =====
-- What is final about a lease that has ended, and about its deposit.
use stds_backend_go.Prelude.{
  ◌≡◌, refl, ◌∙◌, ◌⊎◌, inl, inr, false, List, [], ◌∷◌, arith, ◌==◌, eq_iff,
}
use stds_backend_go.Prelude.Text.{eq_other}
use stds_backend_go.Lease.Defs
use stds_backend_go.Lease.Defs.{
  State, LeaseError, lease_not_active, status_active, status_expired, status_terminated,
  status_force_terminated, deposit_status_held, deposit_status_settled, deposit_status_written_off,
  force_termination_deposit_write_off,
}
use stds_backend_go.Lease.Commands.{
  Command, change_rent, settle_deposit, terminate, force_terminate, apply, run,
}

-- The lease has ended for good.
abbrev pub IsClosed : State → Type 0
IsClosed s = (s.status ≡ status_terminated) ⊎ (s.status ≡ status_force_terminated)

-- What no command changes any more.
pub record SameTerms (s t : State) : Type 0 where
  pub status : t.status ≡ s.status
  pub rent_amount : t.rent_amount ≡ s.rent_amount
  pub deposit_amount : t.deposit_amount ≡ s.deposit_amount
  pub start_date : t.start_date ≡ s.start_date
  pub end_date : t.end_date ≡ s.end_date

not_open :
    (s : State)
    → IsClosed s
    → ((s.status == status_active) ≡ false) × ((s.status == status_expired) ≡ false)
not_open s (inl e) =
    let h = (eq_iff s.status status_terminated).1 e in
    (
      eq_other s.status status_terminated status_active refl h,
      eq_other s.status status_terminated status_expired refl h,
    )
not_open s (inr e) =
    let h = (eq_iff s.status status_force_terminated).1 e in
    (
      eq_other s.status status_force_terminated status_active refl h,
      eq_other s.status status_force_terminated status_expired refl h,
    )

apply-SameTerms : (c : Command) (s : State) → IsClosed s → SameTerms s (apply c s).0
unfolding apply Defs.change_rent Defs.settle_deposit Defs.terminate Defs.force_terminate
apply-SameTerms (change_rent amount) s h = let (a, e) = not_open s h in ground arith
apply-SameTerms (settle_deposit refund deduction reason) s h = ground arith
apply-SameTerms terminate s h = let (a, e) = not_open s h in ground arith
apply-SameTerms (force_terminate reason handling) s h = let (a, e) = not_open s h in ground arith

IsClosed-apply : (c : Command) (s : State) → IsClosed s → IsClosed (apply c s).0
IsClosed-apply c s (inl e) = inl ((apply-SameTerms c s (inl e)).status ∙ e)
IsClosed-apply c s (inr e) = inr ((apply-SameTerms c s (inr e)).status ∙ e)

SameTerms-trans : {s t u : State} → SameTerms s t → SameTerms t u → SameTerms s u
SameTerms-trans p q = record {
  status = q.status ∙ p.status;
  rent_amount = q.rent_amount ∙ p.rent_amount;
  deposit_amount = q.deposit_amount ∙ p.deposit_amount;
  start_date = q.start_date ∙ p.start_date;
  end_date = q.end_date ∙ p.end_date;
}

-- A lease that is terminated or force-terminated stays so: no sequence of commands changes its
-- status, its rent, the amount of its deposit or its dates.
pub closed_lease_is_final : (cs : List Command) (s : State) → IsClosed s → SameTerms s (run cs s)
unfolding run
closed_lease_is_final [] s h = record {
  status = refl;
  rent_amount = refl;
  deposit_amount = refl;
  start_date = refl;
  end_date = refl;
}
closed_lease_is_final (c ∷ cs) s h =
    SameTerms-trans (apply-SameTerms c s h)
      (closed_lease_is_final cs (apply c s).0 (IsClosed-apply c s h))
