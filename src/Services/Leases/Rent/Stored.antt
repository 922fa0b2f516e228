-- ===== src/Services/Leases/Rent/Stored.antt =====
-- The steps of a change of the rent.
use stds_backend_go.Prelude.{
  ◌≡◌, refl, sym, ap, ◌∙◌, ℕ, suc, Bool, true, false, not, ◌||◌, inl, inr, Bool-cases, ◌==◌, String,
  List, [], ◌∷◌, ◌++◌, some, All, ok, ok-injective, arith,
}
use stds_backend_go.Prelude.Int.{ℤ}
use stds_backend_go.GoTime.{Date, Time, before}
use stds_backend_go.Periods.Defs.{Period, build_rent_billing_periods_from_anchor}
use stds_backend_go.Periods.Coverage.{covering}
use stds_backend_go.Lease.Defs.{State}
use stds_backend_go.Bill.Defs.{type_rent, status_voided}
use stds_backend_go.Db.Table.{find, update_where, exists}
use stds_backend_go.Db.Rows.{LeaseRow, BillRow, lease_condition_changed}
use stds_backend_go.Db.Script.{Session, pure, >>=-ok, stop_if-ok}
use stds_backend_go.Db.Steps.{caught-then, go_on-pure}
use stds_backend_go.Db.Bills.{is_lease}
use stds_backend_go.Db.Leases.{
  midnight, rent_columns, is_rent_due_from, is_pending, is_locked, is_voided_rent, with_status,
  new_bill_rows, void_rent_bills_from_due_date,
}
use stds_backend_go.Db.Leases.Passed.{
  update_lease-then, has_locked-then, change_bills-then, create_bills-then,
}
use stds_backend_go.Services.Leases.Errors.{update_has_locked_bills, internal}
use stds_backend_go.Services.Leases.Create.{map_period_error, rent_seed, build_rent_bill_seeds}
use stds_backend_go.Services.Leases.Create.Proof.{bills_on}
use stds_backend_go.Services.Leases.Rent.{check_locked, regenerate, store_rent}

-- A bill asks for the rent.
abbrev pub AsksFor : {F : Type 0} → ℤ → BillRow F → Type 0
AsksFor rent row = row.state.amount ≡ some rent

pub rent_bills_on :
    (F : Type 0) (lease : LeaseRow) (x : Date) (ids : ℕ → String) (now : Time) (drawn : ℕ)
    (ps : List Period)
    → (bills_on {F = F} type_rent x
          (new_bill_rows {F = F} ids drawn now (build_rent_bill_seeds lease ps))
        ≡ covering x ps)
      × All
          (AsksFor {F = F} lease.state.rent_amount)
          (new_bill_rows {F = F} ids drawn now (build_rent_bill_seeds lease ps))
unfolding bills_on new_bill_rows build_rent_bill_seeds rent_seed covering
rent_bills_on F lease x ids now drawn [] = (refl, tt)
rent_bills_on F lease x ids now drawn (p ∷ ps) =
    let (rest, amounts) = rent_bills_on F lease x ids now (suc drawn) ps in
    (ground (arith, rest), (refl, amounts))

module _ {F : Type 0} where
  -- A rent bill of the lease that is due on the date or later is voided.
  abbrev pub IsSuperseded : String → Date → BillRow F → Type 0
  IsSuperseded lease_id next row =
      (not (is_rent_due_from lease_id next row) || row.state.status == status_voided) ≡ true

  -- Where no bill is locked, none that is due stays as it was.
  pub superseded :
      (lease_id : String) (next : Date) (now : Time) (rows : List (BillRow F))
      → exists (is_locked lease_id next) rows ≡ false
      → All
          (IsSuperseded lease_id next)
          (update_where (is_voided_rent lease_id next) (with_status status_voided now) rows)
  unfolding exists update_where
  superseded lease_id next now [] h = tt
  superseded lease_id next now (row ∷ rows) h =
      elim (Bool-cases (is_rent_due_from lease_id next row)) [
        | inr other ↦ (rw (other, other) refl, superseded lease_id next now rows (rw other at h))
        | inl due ↦ elim (Bool-cases (is_pending row)) [
          | inl pending ↦ (
            rw (due, pending, due) refl,
            superseded lease_id next now rows (rw (due, pending) at h),
          )
          | inr fixed ↦ elim (Bool-cases (row.state.status == status_voided)) [
            | inl voided ↦ (
              rw (due, fixed, due, voided) refl,
              superseded lease_id next now rows (rw (due, fixed, voided) at h),
            )
            | inr locked ↦ cc (rw (due, fixed, locked) at h)
          ]
        ]
      ]

  check_locked-ok :
      (past : Bool) (lease_id : String) (next : Date) (s : Session F) {t : Session F} {u : Unit {0}}
      → check_locked past lease_id next s ≡ (t, ok u)
      → (fs : List Bool) × (t ≡ record s { faults = fs })
        × ((past || not (exists (is_locked lease_id next) s.db.bills)) ≡ true)
  unfolding check_locked
  check_locked-ok true lease_id next s h = (s.faults, sym (ap (λ r. r.0) h), refl)
  check_locked-ok false lease_id next s h =
      let (fs, rest) = has_locked-then internal lease_id next _ s h in
      let (none_locked, same) =
        stop_if-ok (exists (is_locked lease_id next) s.db.bills) update_has_locked_bills _ rest in
      (fs, sym same, rw none_locked refl)

  -- The bills before and after a change of the rent of the lease `updated` from `next` on.
  pub data IsRegenerated (past : Bool) (lease_id : String) (next : Date) (end_date : Time)
      (cadence : String) (anchor_day : ℕ) (updated : LeaseRow) (s t : Session F) : Type 0 where
    nothing_due :
        past ≡ true
        → t.db.bills ≡ s.db.bills
        → IsRegenerated past lease_id next end_date cadence anchor_day updated s t
    regenerated :
        past ≡ false
        → (periods : List Period)
        → build_rent_billing_periods_from_anchor (midnight next) end_date cadence anchor_day
          ≡ ok periods
        → t.db.bills
          ≡ update_where (is_voided_rent lease_id next) (with_status status_voided s.now) s.db.bills
            ++ new_bill_rows s.ids s.drawn s.now (build_rent_bill_seeds updated periods)
        → IsRegenerated past lease_id next end_date cadence anchor_day updated s t

  regenerate-ok :
      (past : Bool) (lease_id : String) (next : Date) (current : LeaseRow) (cadence : String)
      (updated : LeaseRow) (s : Session F) {t : Session F} {u : Unit {0}}
      → regenerate past lease_id next current cadence updated s ≡ (t, ok u)
      → IsRegenerated past lease_id next current.state.end_date cadence
          current.state.start_date.date.day updated s t
        × (t.db.leases ≡ s.db.leases)
        × (t.events ≡ s.events)
  unfolding regenerate void_rent_bills_from_due_date
  regenerate-ok true lease_id next current cadence updated s h = (
    nothing_due refl (sym (ap (λ r. r.0.db.bills) h)),
    sym (ap (λ r. r.0.db.leases) h),
    sym (ap (λ r. r.0.events) h),
  )
  regenerate-ok false lease_id next current cadence updated s h =
      let (fs, rest) =
        change_bills-then internal (is_voided_rent lease_id next) (with_status status_voided s.now)
          _ s h in
      let (periods, built, rest2) =
        caught-then map_period_error
          (build_rent_billing_periods_from_anchor (midnight next) current.state.end_date cadence
            current.state.start_date.date.day)
          _ _ rest in
      let (fs2, last) =
        create_bills-then internal (build_rent_bill_seeds updated periods) (λ a. pure a) _
          (go_on-pure _ ∙ rest2) in
      (
        regenerated refl periods built (sym (ap (λ r. r.0.db.bills) last)),
        sym (ap (λ r. r.0.db.leases) last),
        sym (ap (λ r. r.0.events) last),
      )

  -- The row of the lease and the announcement.
  pub record IsStored (lease_id : String) (next : Date) (occurred_at : Time) (current : LeaseRow)
      (state : State) (s t : Session F) (r : LeaseRow) : Type 0 where
    pub row : r ≡ rent_columns state.rent_amount current
    pub none_locked :
        (before current.state.end_date.date next
          || not (exists (is_locked lease_id next) s.db.bills))
        ≡ true
    pub leases :
        t.db.leases ≡ update_where (is_lease lease_id) (rent_columns state.rent_amount) s.db.leases
    pub bills :
        IsRegenerated
          (before current.state.end_date.date next)
          lease_id
          next
          current.state.end_date
          state.rent_billing_cadence
          current.state.start_date.date.day
          r
          s
          t
    pub events :
        t.events
        ≡ s.events
          ++ (lease_condition_changed r.state.id r.state.property_id r.state.room_id
                r.state.tenant_id r.state.rent_amount next occurred_at
              ∷ [])

  IsRegenerated-same :
      {past : Bool} {lease_id : String} {next : Date} {end_date : Time} {cadence : String}
      {anchor_day : ℕ} {updated r : LeaseRow} {s u v t : Session F}
      → IsRegenerated past lease_id next end_date cadence anchor_day updated u v
      → updated ≡ r
      → u.db.bills ≡ s.db.bills
      → (u.ids ≡ s.ids) × (u.drawn ≡ s.drawn) × (u.now ≡ s.now)
      → t.db.bills ≡ v.db.bills
      → IsRegenerated past lease_id next end_date cadence anchor_day r s t
  IsRegenerated-same (nothing_due past same) row bills (ids, drawn, now) last =
      nothing_due past (last ∙ same ∙ bills)
  IsRegenerated-same {lease_id = lease_id} {next = next} (regenerated past periods built same) row
        bills (ids, drawn, now) last =
      regenerated past periods built (
        last ∙ same ∙ λ i.
        update_where (is_voided_rent lease_id next) (with_status status_voided (now i)) (bills i)
        ++ new_bill_rows (ids i) (drawn i) (now i) (build_rent_bill_seeds (row i) periods))

  pub store_rent-IsStored :
      (lease_id : String) (next : Date) (occurred_at : Time) (current : LeaseRow) (state : State)
      (s : Session F) {t : Session F} {r : LeaseRow}
      → find (is_lease lease_id) s.db.leases ≡ some current
      → store_rent lease_id next occurred_at current state s ≡ (t, ok r)
      → IsStored lease_id next occurred_at current state s t r
  unfolding store_rent
  store_rent-IsStored lease_id next occurred_at current state s {t} {r} was_found h =
      let past = before current.state.end_date.date next in
      let (u, _, tested, rest) = >>=-ok (check_locked past lease_id next) _ s h in
      let (fs, u_is, none_locked) = check_locked-ok past lease_id next s tested in
      let (fs2, rest2, _) =
        update_lease-then internal lease_id (rent_columns state.rent_amount) current _ u (λ x. refl)
          (ap (λ (x : Session F). find (is_lease lease_id) x.db.leases) u_is ∙ was_found) rest in
      let updated : LeaseRow = rent_columns state.rent_amount current in
      let (v, _, done, last) =
        >>=-ok (regenerate past lease_id next current state.rent_billing_cadence updated) _ _
          rest2 in
      let (bills, leases, events) =
        regenerate-ok past lease_id next current state.rent_billing_cadence updated _ done in
      let same : updated ≡ r = ok-injective (ap (λ x. x.1) last) in
      record {
        row = sym same;
        none_locked = none_locked;
        leases =
            sym (ap (λ x. x.0.db.leases) last)
            ∙ leases
            ∙ ap
                (λ (x : Session F).
                  update_where (is_lease lease_id) (rent_columns state.rent_amount) x.db.leases)
                u_is;
        bills =
            IsRegenerated-same bills same (ap (λ (x : Session F). x.db.bills) u_is)
              (
                ap (λ (x : Session F). x.ids) u_is,
                ap (λ (x : Session F). x.drawn) u_is,
                ap (λ (x : Session F). x.now) u_is,
              )
              (sym (ap (λ x. x.0.db.bills) last));
        events = sym (ap (λ x. x.0.events) last) ∙ (λ i.
            (events ∙ ap (λ (x : Session F). x.events) u_is) i
            ++ (lease_condition_changed (same i).state.id (same i).state.property_id
                  (same i).state.room_id (same i).state.tenant_id (same i).state.rent_amount next
                  occurred_at
                ∷ []));
      }
