-- ===== src/Services/Leases/Rent/Proof.antt =====
-- What a change of the rent leaves in the database.
use stds_backend_go.Prelude.{
  ◌≡◌, ◌≢◌, refl, sym, ap, ◌∙◌, subst, ℕ, ◌≤◌, Bool, true, false, not, ◌||◌, ◌⊎◌, inl, inr,
  Bool-cases, ◌==◌, eq_iff, String, List, [], ◌∷◌, ◌++◌, some, All, ok, ok-injective, arith,
}
use stds_backend_go.Prelude.Int.{ℤ, pos, leb_ℤ, eqb_ℤ, eq_of_eqb_ℤ}
use stds_backend_go.Prelude.Text.{trim_space}
use stds_backend_go.GoTime.{Date, Time, IsDate, before, after, days_in_bounds}
use stds_backend_go.Periods.Defs.{
  rent_cadence_months, next_rent_payment_date_after, cadence_monthly,
}
use stds_backend_go.Periods.Clamp.{clamped_month_date-IsDate}
use stds_backend_go.Periods.Coverage.{covering, once_between, rent_periods_cover}
use stds_backend_go.Periods.NextPayment.{next_payment_first}
use stds_backend_go.Lease.Defs
use stds_backend_go.Lease.Defs.{State, check_state, trim_state, default_to}
use stds_backend_go.Bill.Defs.{type_rent, status_voided}
use stds_backend_go.Db.Table.{find, update_where, exists, some-injective}
use stds_backend_go.Db.Rows.{LeaseRow, BillRow, lease_condition_changed}
use stds_backend_go.Db.Script.{Session}
use stds_backend_go.Db.Steps.{caught-then, stop_if-then}
use stds_backend_go.Db.Roles.{Role, may_access}
use stds_backend_go.Db.Bills.{is_lease}
use stds_backend_go.Db.Leases.{midnight, rent_columns, is_locked, is_voided_rent, with_status}
use stds_backend_go.Db.Leases.Passed.{find_lease-then}
use stds_backend_go.Services.Leases.Errors.{
  forbidden, map_domain_error, map_lease_lookup_error, method_result,
}
use stds_backend_go.Services.Leases.Accepted.{rehydrate-ok}
use stds_backend_go.Services.Leases.Create.Proof.{bills_on, rent_cadence_known}
use stds_backend_go.Services.Leases.Rent.{without_settlement, store_rent, unless_same, change_rent}
use stds_backend_go.Services.Leases.Rent.Stored.{
  IsSuperseded, superseded, AsksFor, rent_bills_on, IsStored, store_rent-IsStored, regenerated,
  nothing_due, IsRegenerated,
}

change_rent-ok :
    (rent : ℤ) (s : State) {state : State}
    → method_result (Defs.change_rent rent s) ≡ ok state
    → (s.status ≡ Defs.status_active)
      × (leb_ℤ rent (pos 0) ≡ false)
      × (state ≡ record s { rent_amount = rent })
unfolding Defs.change_rent
change_rent-ok rent s h = elim (Bool-cases (s.status == Defs.status_active)) [
  | inr other ↦ cc (rw other at h)
  | inl active ↦ elim (Bool-cases (leb_ℤ rent (pos 0))) [
    | inl none_left ↦ cc (rw (active, none_left) at h)
    | inr positive ↦ (
      (eq_iff s.status Defs.status_active).0 active,
      positive,
      sym (ok-injective (rw (active, positive) at h)),
    )
  ]
]

-- The first payment date of the lease after the operation.
abbrev pub next_date : LeaseRow → Time → Date
next_date current operation_date =
    next_rent_payment_date_after current.state.start_date operation_date
      (default_to cadence_monthly (trim_space current.state.rent_billing_cadence))

next_date-IsDate :
    (current : LeaseRow) (operation_date : Time)
    → IsDate current.state.start_date.date
    → IsDate operation_date.date
    → IsDate (next_date current operation_date)
next_date-IsDate current operation_date vs vo =
    let (k, at, _, _) =
      next_payment_first current.state.start_date operation_date
        (default_to cadence_monthly (trim_space current.state.rent_billing_cadence)) vs vo in
    subst IsDate (sym at)
      (clamped_month_date-IsDate _ _ _ vs.year_pos (omega (arith, vs.month_pos)) vs.day_pos)

not_after :
    (next : Date) (end_date : Time)
    → before end_date.date next ≡ false
    → after (midnight next) end_date ≡ false
unfolding after
not_after next end_date h = ground (arith, h)

module _ {F : Type 0} where
  -- The bills before and after, for a day x, where rent bills are renewed from `next` on.
  pub data IsRenewed (lease_id : String) (rent : ℤ) (next end_date : Date) (x : Date)
      (s t : Session F) : Type 0 where
    not_due :
        before end_date next ≡ true
        → t.db.bills ≡ s.db.bills
        → IsRenewed lease_id rent next end_date x s t
    renewed :
        before end_date next ≡ false
        → (old new : List (BillRow F)) → t.db.bills ≡ old ++ new
        → old
          ≡ update_where (is_voided_rent lease_id next) (with_status status_voided s.now) s.db.bills
        → All (IsSuperseded lease_id next) old
        → All (AsksFor rent) new
        → bills_on type_rent x new ≡ once_between next end_date x
        → IsRenewed lease_id rent next end_date x s t

  -- The sessions around a change of the rent.
  pub record IsChangedRent (lease_id : String) (rent : ℤ) (operation_date occurred_at : Time)
      (x : Date) (current : LeaseRow) (s t : Session F) (r : LeaseRow) : Type 0 where
    pub active : current.state.status ≡ Defs.status_active
    pub positive : leb_ℤ rent (pos 0) ≡ false
    pub row : r ≡ rent_columns rent current
    pub rent_stored : r.state.rent_amount ≡ rent
    pub leases : t.db.leases ≡ update_where (is_lease lease_id) (rent_columns rent) s.db.leases
    pub bills :
        IsRenewed lease_id rent (next_date current operation_date) current.state.end_date.date x s t
    pub events :
        t.events
        ≡ s.events
          ++ (lease_condition_changed r.state.id r.state.property_id r.state.room_id
                r.state.tenant_id rent
                (next_date current operation_date)
                occurred_at
              ∷ [])

  IsRegenerated-IsRenewed :
      (lease_id : String) (x next : Date) (end_date : Time) (cadence : String) (anchor_day : ℕ)
      (r : LeaseRow) (s t : Session F)
      → IsDate next
      → IsDate end_date.date
      → IsDate x
      → 1 ≤ anchor_day
      → anchor_day ≤ 31
      → rent_cadence_months cadence ≢ 0
      → (before end_date.date next || not (exists (is_locked lease_id next) s.db.bills)) ≡ true
      → IsRegenerated (before end_date.date next) lease_id next end_date cadence anchor_day r s t
      → IsRenewed lease_id r.state.rent_amount next end_date.date x s t
  IsRegenerated-IsRenewed lease_id x next end_date cadence anchor_day r s t vn ve vx ha hb hc
        none_locked (nothing_due past same) =
      not_due past same
  IsRegenerated-IsRenewed lease_id x next end_date cadence anchor_day r s t vn ve vx ha hb hc
        none_locked (regenerated open_end periods built bills) =
      let (ps, built2, cover) =
        rent_periods_cover (midnight next) end_date cadence anchor_day x vn ve vx
          (not_after next end_date open_end) ha hb hc in
      let (on, amounts) = rent_bills_on F r x s.ids s.now s.drawn periods in
      renewed open_end _ _ bills refl
        (superseded lease_id next s.now s.db.bills (unlocked (rw open_end at none_locked))) amounts
        (on ∙ ap (covering x) (ok-injective (sym built ∙ built2)) ∙ cover)
    where
      unlocked : {b : Bool} → not b ≡ true → b ≡ false
      unlocked {b} h = by_cases b h
        where
          by_cases : (b : Bool) → not b ≡ true → b ≡ false
          by_cases true h = cc h
          by_cases false h = refl

  stored-IsChangedRent :
      (lease_id : String) (rent : ℤ) (operation_date occurred_at : Time) (x : Date)
      (current : LeaseRow) (state : State) (fs : List Bool) (s : Session F) {t : Session F}
      {r : LeaseRow}
      → IsDate current.state.start_date.date
      → IsDate current.state.end_date.date
      → IsDate operation_date.date
      → IsDate x
      → current.state.status ≡ Defs.status_active
      → leb_ℤ rent (pos 0) ≡ false
      → check_state (trim_state (without_settlement current)) ≡ ok tt
      → state ≡ record (trim_state (without_settlement current)) { rent_amount = rent }
      → IsStored lease_id
          (next_date current operation_date)
          occurred_at
          current
          state
          (record s { faults = fs })
          t
          r
      → IsChangedRent lease_id rent operation_date occurred_at x current s t r
  stored-IsChangedRent lease_id rent operation_date occurred_at x current state fs s {t} {r} vs ve
        vo vx active positive checked state_is stored =
      let next = next_date current operation_date in
      let rent_is : state.rent_amount ≡ rent = ap (λ (v : State). v.rent_amount) state_is in
      let cadence_is = ap (λ (v : State). v.rent_billing_cadence) state_is in
      let row_is = stored.row ∙ ap (λ a. rent_columns a current) rent_is in
      let amount : r.state.rent_amount ≡ rent = ap (λ (v : LeaseRow). v.state.rent_amount) row_is in
      let day_le : current.state.start_date.date.day ≤ 31 = omega (
        arith,
        vs.day_le,
        days_in_bounds current.state.start_date.date.year current.state.start_date.date.month,
      ) in
      let bills =
        IsRegenerated-IsRenewed lease_id x next current.state.end_date state.rent_billing_cadence
          current.state.start_date.date.day r (record s { faults = fs }) t
          (next_date-IsDate current operation_date vs vo) ve vx vs.day_pos day_le
          (subst (λ c. rent_cadence_months c ≢ 0) (sym cadence_is)
            (rent_cadence_known (trim_state (without_settlement current)) checked))
          stored.none_locked stored.bills in
      record {
        active = active;
        positive = positive;
        row = row_is;
        rent_stored = amount;
        leases =
            stored.leases
            ∙ ap (λ a. update_where (is_lease lease_id) (rent_columns a) s.db.leases) rent_is;
        bills =
            subst (λ a. IsRenewed lease_id a next current.state.end_date.date x s t) amount
              (with_faults bills);
        events =
            stored.events
            ∙ ap
                (λ a.
                  s.events
                  ++ (lease_condition_changed r.state.id r.state.property_id r.state.room_id
                        r.state.tenant_id a next occurred_at
                      ∷ []))
                amount;
      }
    where
      with_faults :
          {rent : ℤ} {next end_date : Date}
          → IsRenewed lease_id rent next end_date x (record s { faults = fs }) t
          → IsRenewed lease_id rent next end_date x s t
      with_faults (not_due past same) = not_due past same
      with_faults (renewed open_end old new bills old_is voided amounts cover) =
          renewed open_end old new bills old_is voided amounts cover

  unless_same-IsChangedRent :
      (lease_id : String) (rent : ℤ) (operation_date occurred_at : Time) (x : Date)
      (current : LeaseRow) (state : State) (fs : List Bool) (s : Session F) (b : Bool)
      {t : Session F} {r : LeaseRow}
      → find (is_lease lease_id) s.db.leases ≡ some current
      → IsDate current.state.start_date.date
      → IsDate current.state.end_date.date
      → IsDate operation_date.date
      → IsDate x
      → current.state.status ≡ Defs.status_active
      → leb_ℤ rent (pos 0) ≡ false
      → check_state (trim_state (without_settlement current)) ≡ ok tt
      → state ≡ record (trim_state (without_settlement current)) { rent_amount = rent }
      → eqb_ℤ current.state.rent_amount state.rent_amount ≡ b
      → unless_same b current
          (store_rent lease_id
            (next_rent_payment_date_after current.state.start_date operation_date
              state.rent_billing_cadence)
            occurred_at
            current
            state)
          (record s { faults = fs })
        ≡ (t, ok r)
      → ((current.state.rent_amount ≡ rent) × (r ≡ current) × (t.db ≡ s.db) × (t.events ≡ s.events))
        ⊎ IsChangedRent lease_id rent operation_date occurred_at x current s t r
  unfolding unless_same
  unless_same-IsChangedRent lease_id rent operation_date occurred_at x current state fs s true
        was_found vs ve vo vx active positive checked state_is same h =
      inl (
        eq_of_eqb_ℤ current.state.rent_amount state.rent_amount same
            ∙ ap (λ (v : State). v.rent_amount) state_is,
        sym (ok-injective (ap (λ v. v.1) h)),
        sym (ap (λ v. v.0.db) h),
        sym (ap (λ v. v.0.events) h),
      )
  unless_same-IsChangedRent lease_id rent operation_date occurred_at x current state fs s false {t}
        {r} was_found vs ve vo vx active positive checked state_is same h =
      inr (
        stored-IsChangedRent lease_id rent operation_date occurred_at x current state fs s vs ve vo
          vx active positive checked state_is
          (store_rent-IsStored lease_id (next_date current operation_date) occurred_at current state
            (record s { faults = fs }) was_found
            (subst
              (λ c.
                store_rent lease_id
                  (next_rent_payment_date_after current.state.start_date operation_date c)
                  occurred_at current state (record s { faults = fs })
                ≡ (t, ok r))
              (ap (λ (v : State). v.rent_billing_cadence) state_is) h)))

  module _ (role : Role) (assigned : List String) (lease_id : String) (rent : ℤ)
      (operation_date occurred_at : Time) (x : Date) where
    -- A change of the rent that succeeds either finds the rent as it is asked for, and changes nothing,
    -- or is of an active lease and to a positive rent. Then it writes the rent to the row of the lease
    -- and leaves the other leases; if the next payment date does not lie after the end, it voids the
    -- pending rent bills that are due from then on, every rent bill of the lease that is due from then on
    -- is voided in the end, but for the new ones, which ask for the new rent and have each day x from the
    -- next payment date to the end in exactly one of them and no other day in any; and it records one
    -- event.
    pub change_rent-IsChangedRent :
        (current : LeaseRow) (s : Session F) {t : Session F} {r : LeaseRow}
        → find (is_lease lease_id) s.db.leases ≡ some current
        → IsDate current.state.start_date.date
        → IsDate current.state.end_date.date
        → IsDate operation_date.date
        → IsDate x
        → change_rent role assigned lease_id rent operation_date occurred_at s ≡ (t, ok r)
        → ((current.state.rent_amount ≡ rent)
            × (r ≡ current)
            × (t.db ≡ s.db)
            × (t.events ≡ s.events))
          ⊎ IsChangedRent lease_id rent operation_date occurred_at x current s t r
    unfolding change_rent
    change_rent-IsChangedRent current s {t} {r} at vs ve vo vx h =
        let (fs, row, was_found, rest) = find_lease-then map_lease_lookup_error lease_id _ s h in
        let same : row ≡ current = some-injective (sym was_found ∙ at) in
        let (_, rest2) =
          stop_if-then (not (may_access role assigned row.state.property_id)) forbidden _ _ rest in
        let (lease, read, rest3) =
          caught-then map_domain_error (Defs.rehydrate (without_settlement row)) _ _ rest2 in
        let (state, changed, rest4) =
          caught-then map_domain_error (method_result (Defs.change_rent rent lease)) _
            (record s { faults = fs }) rest3 in
        let (lease_is, checked, _) = rehydrate-ok (without_settlement row) read in
        let (active, positive, state_is) = change_rent-ok rent lease changed in
        let active_row : row.state.status ≡ Defs.status_active =
          ap (λ (v : State). v.status) (sym lease_is) ∙ active in
        let state_row = state_is ∙ ap (λ (v : State). record v { rent_amount = rent }) lease_is in
        of_row row state fs (sym same) was_found active_row positive checked state_row rest4
      where
        of_row :
            (row : LeaseRow) (state : State) (fs : List Bool)
            → current ≡ row
            → find (is_lease lease_id) s.db.leases ≡ some row
            → row.state.status ≡ Defs.status_active
            → leb_ℤ rent (pos 0) ≡ false
            → check_state (trim_state (without_settlement row)) ≡ ok tt
            → state ≡ record (trim_state (without_settlement row)) { rent_amount = rent }
            → unless_same
                (eqb_ℤ row.state.rent_amount state.rent_amount)
                row
                (store_rent lease_id
                  (next_rent_payment_date_after row.state.start_date operation_date
                    state.rent_billing_cadence)
                  occurred_at
                  row
                  state)
                (record s { faults = fs })
              ≡ (t, ok r)
            → ((current.state.rent_amount ≡ rent)
                × (r ≡ current)
                × (t.db ≡ s.db)
                × (t.events ≡ s.events))
              ⊎ IsChangedRent lease_id rent operation_date occurred_at x current s t r
        of_row row state fs same found_row active positive checked state_is last =
            let Result_of = λ (v : LeaseRow).
              ((v.state.rent_amount ≡ rent) × (r ≡ v) × (t.db ≡ s.db) × (t.events ≡ s.events))
              ⊎ IsChangedRent lease_id rent operation_date occurred_at x v s t r in
            subst Result_of (sym same) (
              unless_same-IsChangedRent lease_id rent operation_date occurred_at x row state fs s
                (eqb_ℤ row.state.rent_amount state.rent_amount) found_row
                (subst (λ (v : LeaseRow). IsDate v.state.start_date.date) same vs)
                (subst (λ (v : LeaseRow). IsDate v.state.end_date.date) same ve) vo vx active
                positive checked state_is refl last)
