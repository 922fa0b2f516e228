-- ===== src/Lease/Commands.antt =====
-- Sequences of commands on a lease: what they keep, and what is final.
use stds_backend_go.Prelude.{
  ◌≡◌, inl, inr, Bool, false, String, List, [], ◌∷◌, Option, arith, ◌==◌, ok, Method, Bool-cases,
  Leaves, leaves_rules,
}
use stds_backend_go.Prelude.Int.{ℤ, pos, leb_ℤ}
use stds_backend_go.Lease.Defs
use stds_backend_go.Lease.Defs.{
  State, LeaseError, check_state, normalize_state, rehydrate, lease_not_active, deposit_not_held,
  status_active, status_expired, status_terminated, status_force_terminated, deposit_status_held,
}
use stds_backend_go.Lease.Normal.{IsNormal, normalize_state-IsNormal, rehydrate_of_IsNormal}

-- A call of one of the methods that change a lease.
pub data Command : Type 0 where
  change_rent : ℤ → Command
  settle_deposit : ℤ → ℤ → Option String → Command
  terminate : Command
  force_terminate : String → String → Command

unfoldable pub apply : Command → Method State LeaseError
apply (change_rent amount) = Defs.change_rent amount
apply (settle_deposit refund deduction reason) = Defs.settle_deposit refund deduction reason
apply terminate = Defs.terminate
apply (force_terminate reason handling) = Defs.force_terminate reason handling

-- The lease after a sequence of calls, whatever they returned.
unfoldable pub run : List Command → State → State
run [] s = s
run (c ∷ cs) s = run cs (apply c s).0

-- Fields that normalization does not read may have any value.
module _ (s : State) (n : IsNormal s) where
  settled-IsNormal :
      (status deposit_status : String) (refund deduction : Option ℤ) (reason : Option String)
      → IsNormal (record s {
        status = status;
        deposit_status = deposit_status;
        deposit_refund_amount = refund;
        deposit_deduction_amount = deduction;
        deposit_deduction_reason = reason;
      })
  unfolding check_state
  settled-IsNormal status deposit_status refund deduction reason = record {
    trimmed = λ i. record (n.trimmed i) {
      status = status;
      deposit_status = deposit_status;
      deposit_refund_amount = refund;
      deposit_deduction_amount = deduction;
      deposit_deduction_reason = reason;
    };
    checked = n.checked;
  }

  rent-checked :
      (amount : ℤ)
      → leb_ℤ amount (pos 0) ≡ false
      → check_state (record s { rent_amount = amount }) ≡ ok tt
  unfolding check_state
  rent-checked amount h = ground (arith, n.checked)

  change_rent-IsNormal : (amount : ℤ) → IsNormal (Defs.change_rent amount s).0
  unfolding Defs.change_rent
  change_rent-IsNormal amount = elim (Bool-cases (s.status == status_active)) [
    | inl active ↦ elim (Bool-cases (leb_ℤ amount (pos 0))) [
      | inl low ↦ rw (active, low) n
      | inr high ↦
          rw (active, high)
            (record {
              trimmed = λ i. record (n.trimmed i) { rent_amount = amount };
              checked = rent-checked amount high;
            })
    ]
    | inr other ↦ rw other n
  ]

  settle_deposit-IsNormal :
      (refund deduction : ℤ) (reason : Option String)
      → Leaves IsNormal (Defs.settle_deposit refund deduction reason s)
  unfolding Defs.settle_deposit
  settle_deposit-IsNormal refund deduction reason =
      search (leaves_rules, n, settled-IsNormal) depth 10

  terminate-IsNormal : Leaves IsNormal (Defs.terminate s)
  unfolding Defs.terminate
  terminate-IsNormal = search (leaves_rules, n, settled-IsNormal) depth 10

  force_terminate-IsNormal :
      (reason handling : String) → Leaves IsNormal (Defs.force_terminate reason handling s)
  unfolding Defs.force_terminate
  force_terminate-IsNormal reason handling = search (leaves_rules, n, settled-IsNormal) depth 10

-- Every command, whether it fails or not, leaves a normal lease normal.
apply-IsNormal : (c : Command) (s : State) → IsNormal s → IsNormal (apply c s).0
unfolding apply
apply-IsNormal (change_rent amount) s n = change_rent-IsNormal s n amount
apply-IsNormal (settle_deposit refund deduction reason) s n =
    (settle_deposit-IsNormal s n refund deduction reason).holds
apply-IsNormal terminate s n = (terminate-IsNormal s n).holds
apply-IsNormal (force_terminate reason handling) s n =
    (force_terminate-IsNormal s n reason handling).holds

run-IsNormal : (cs : List Command) (s : State) → IsNormal s → IsNormal (run cs s)
unfolding run
run-IsNormal [] s n = n
run-IsNormal (c ∷ cs) s n = run-IsNormal cs (apply c s).0 (apply-IsNormal c s n)

-- The state of a lease that `New` or `Rehydrate` returned, after any calls of its methods, with an error
-- or without, is one that `Rehydrate` accepts and returns unchanged.
pub rehydrate-run :
    (cs : List Command) (s : State) (creating : Bool) {t : State}
    → normalize_state s creating ≡ ok t
    → rehydrate (run cs t) ≡ ok (run cs t)
rehydrate-run cs s creating {t} h =
    rehydrate_of_IsNormal (run cs t) (run-IsNormal cs t (normalize_state-IsNormal s creating h))
