-- ===== src/Services/Leases/Create/Proof.antt =====
-- What the creation of a lease leaves in the database: its row, and bills that have each day of the
-- lease in exactly one of each type.
use stds_backend_go.Prelude.{
  ◌≡◌, ◌≢◌, refl, sym, ap, ◌∙◌, subst, ℕ, suc, ◌≤◌, Bool, true, false, not, ◌&&◌, ◌||◌, ◌⊎◌, inl,
  inr, Bool-cases, ◌==◌, eq_iff, String, List, [], ◌∷◌, ◌++◌, Option, some, ok, ok-injective, arith,
  if◌then◌else◌,
}
use stds_backend_go.Prelude.Int.{ℤ}
use stds_backend_go.Prelude.Text.{trim_space}
use stds_backend_go.GoTime.{Date, Time, IsDate, before, after, days_in_bounds}
use stds_backend_go.Periods.Defs.{
  Period, build_rent_billing_periods, build_billing_periods, rent_cadence_months, cadence_monthly,
  cadence_bimonthly,
}
use stds_backend_go.Periods.Coverage.{
  covering, once_between, rent_periods_cover, electricity_periods_cover,
}
use stds_backend_go.Lease.Defs
use stds_backend_go.Lease.Defs.{
  State, check_state, is_valid_rent_cadence, is_valid_electricity_cadence,
}
use stds_backend_go.Bill.Defs.{type_rent, type_electricity}
use stds_backend_go.Db.Table.{find}
use stds_backend_go.Db.Rows.{LeaseRow, BillRow, RoomRow, PropertyRow, TenantRow}
use stds_backend_go.Db.Script.{Session, >>=-ok}
use stds_backend_go.Db.Steps.{caught-then, stop_if-then}
use stds_backend_go.Db.Roles.{Role, may_access}
use stds_backend_go.Db.Leases.{
  NewLease, NewBill, new_lease_row, new_bill_rows, drawn_after, is_room, is_tenant,
}
use stds_backend_go.Db.Leases.Passed.{
  find_tenant-then, find_room-then, create_lease-then, create_bills-then,
}
use stds_backend_go.Services.Leases.Errors.{
  forbidden, room_not_vacant, internal, map_domain_error, map_tenant_lookup_error,
  map_room_lookup_error,
}
use stds_backend_go.Services.Leases.Accepted.{not-not, new-ok}
use stds_backend_go.Services.Leases.Create.{
  map_period_error, rent_seed, electricity_seed, build_rent_bill_seeds, electricity_bill_seeds,
  build_bill_seeds, Terms, new_state, lease_params, trimmed_optional_string, lease_created_event,
  rent_cadence, electricity_cadence, store_lease, open_lease,
}

-- How many of the bills are of the type and have the day x in their period.
unfoldable pub bills_on : {F : Type 0} → String → Date → List (BillRow F) → ℕ
bills_on type x [] = 0
bills_on type x (row ∷ rows) =
    if row.state.type == type
      && not (before x row.state.period_start.date || before row.state.period_end.date x)
    then suc (bills_on type x rows)
    else bills_on type x rows

module _ (F : Type 0) (lease : LeaseRow) (x : Date) (ids : ℕ → String) (now : Time) where
  electricity_bills_on :
      (drawn : ℕ) (ps : List Period)
      → (bills_on {F = F} type_rent x
            (new_bill_rows ids drawn now (electricity_bill_seeds lease ps))
          ≡ 0)
        × (bills_on {F = F} type_electricity x
              (new_bill_rows ids drawn now (electricity_bill_seeds lease ps))
            ≡ covering x ps)
  unfolding bills_on new_bill_rows electricity_bill_seeds electricity_seed covering
  electricity_bills_on drawn [] = (refl, refl)
  electricity_bills_on drawn (p ∷ ps) =
      let (no_rent, electricity) = electricity_bills_on (suc drawn) ps in
      (no_rent, ground (arith, electricity))

  -- Of the bills of a lease, as many rent and electricity bills are for a day as there are periods.
  pub bill_seeds_on :
      (drawn : ℕ) (rent electricity : List Period)
      → (bills_on {F = F} type_rent x
            (new_bill_rows ids drawn now (build_bill_seeds lease rent electricity))
          ≡ covering x rent)
        × (bills_on {F = F} type_electricity x
              (new_bill_rows ids drawn now (build_bill_seeds lease rent electricity))
            ≡ covering x electricity)
  unfolding bills_on new_bill_rows build_bill_seeds build_rent_bill_seeds rent_seed covering
  bill_seeds_on drawn [] electricity = electricity_bills_on drawn electricity
  bill_seeds_on drawn (p ∷ rent) electricity =
      let (rents, others) = bill_seeds_on (suc drawn) rent electricity in
      (ground (arith, rents), others)

-- What the checks of a new lease say of its terms.
module _ (s : State) (h : check_state s ≡ ok tt) where
  in_order : after s.start_date s.end_date ≡ false
  unfolding check_state
  in_order = ground (arith, h)

  pub rent_cadence_known : rent_cadence_months s.rent_billing_cadence ≢ 0
  unfolding check_state is_valid_rent_cadence rent_cadence_months
  rent_cadence_known = ground (arith, h)

  electricity_cadence_known :
      (s.electricity_billing_cadence ≡ cadence_monthly)
      ⊎ (s.electricity_billing_cadence ≡ cadence_bimonthly)
  unfolding check_state is_valid_electricity_cadence
  electricity_cadence_known =
      let valid : is_valid_electricity_cadence s.electricity_billing_cadence ≡ true =
        ground (arith, h) in
      elim (Bool-cases (s.electricity_billing_cadence == cadence_monthly)) [
        | inl monthly ↦ inl ((eq_iff s.electricity_billing_cadence cadence_monthly).0 monthly)
        | inr other ↦
            inr ((eq_iff s.electricity_billing_cadence cadence_bimonthly).0 (rw other at valid))
      ]

  -- The periods that are built for a lease that passes the checks.
  pub covers :
      (x : Date) {rent electricity : List Period}
      → IsDate s.start_date.date
      → IsDate s.end_date.date
      → IsDate x
      → build_rent_billing_periods s.start_date s.end_date s.rent_billing_cadence ≡ ok rent
      → build_billing_periods s.start_date s.end_date s.electricity_billing_cadence ≡ ok electricity
      → (covering x rent ≡ once_between s.start_date.date s.end_date.date x)
        × (covering x electricity ≡ once_between s.start_date.date s.end_date.date x)
  unfolding build_rent_billing_periods
  covers x vs ve vx rent_built electricity_built =
      let day_le : s.start_date.date.day ≤ 31 =
        omega (arith, vs.day_le, days_in_bounds s.start_date.date.year s.start_date.date.month) in
      let (ps, built, cover) =
        rent_periods_cover s.start_date s.end_date s.rent_billing_cadence s.start_date.date.day x vs
          ve vx in_order vs.day_pos day_le rent_cadence_known in
      let (qs, built2, cover2) =
        electricity_periods_cover s.start_date s.end_date s.electricity_billing_cadence x vs ve vx
          in_order electricity_cadence_known in
      (
        ap (covering x) (ok-injective (sym rent_built ∙ built)) ∙ cover,
        ap (covering x) (ok-injective (sym electricity_built ∙ built2)) ∙ cover2,
      )

module _ {F : Type 0} where
  -- A lease with its bills.
  abbrev pub opened_session : LeaseRow → List NewBill → List Bool → Session F → Session F
  opened_session lease seeds fs s = record s {
    db = record s.db {
      leases = s.db.leases ++ (lease ∷ []);
      bills = s.db.bills ++ new_bill_rows s.ids (suc s.drawn) s.now seeds;
    };
    drawn = drawn_after (suc s.drawn) seeds;
    faults = fs;
  }

  -- The sessions around the writes of a new lease.
  pub record IsOpened (state : State) (starting_meter_reading : ℤ) (notes : Option String)
      (s t : Session F) (r : LeaseRow) : Type 0 where
    pub row : r ≡ new_lease_row (s.ids s.drawn) (lease_params state starting_meter_reading notes)
    pub rent : List Period
    pub rent_built :
        build_rent_billing_periods state.start_date state.end_date state.rent_billing_cadence
        ≡ ok rent
    pub electricity : List Period
    pub electricity_built :
        build_billing_periods state.start_date state.end_date state.electricity_billing_cadence
        ≡ ok electricity
    pub faults : List Bool
    pub session : t ≡ opened_session r (build_bill_seeds r rent electricity) faults s

  pub store_lease-IsOpened :
      (state : State) (starting_meter_reading : ℤ) (notes : Option String) (s : Session F)
      {t : Session F} {r : LeaseRow}
      → store_lease state starting_meter_reading notes s ≡ (t, ok r)
      → IsOpened state starting_meter_reading notes s t r
  unfolding store_lease
  store_lease-IsOpened state starting_meter_reading notes s {t} {r} h =
      let params : NewLease = lease_params state starting_meter_reading notes in
      let created : LeaseRow = new_lease_row (s.ids s.drawn) params in
      let (fs, rest) = create_lease-then internal params _ s h in
      let (rent, rent_built, rest2) =
        caught-then map_period_error
          (build_rent_billing_periods state.start_date state.end_date state.rent_billing_cadence) _
          _ rest in
      let (electricity, electricity_built, rest3) =
        caught-then map_period_error
          (build_billing_periods state.start_date state.end_date state.electricity_billing_cadence)
          _ _ rest2 in
      let (fs2, last) =
        create_bills-then internal (build_bill_seeds created rent electricity) _ _ rest3 in
      let same : created ≡ r = ok-injective (ap (λ x. x.1) last) in
      record {
        row = sym same;
        rent = rent;
        rent_built = rent_built;
        electricity = electricity;
        electricity_built = electricity_built;
        faults = fs2;
        session =
            sym (ap (λ x. x.0) last)
            ∙ ap (λ l. opened_session l (build_bill_seeds l rent electricity) fs2 s) same;
      }

  -- The sessions around the creation of a lease, for a day x.
  pub record IsOpenedLease (role : Role) (assigned : List String) (terms : Terms)
      (occurred_at : Time) (x : Date) (s t : Session F) (r : LeaseRow) : Type 0 where
    pub tenant : TenantRow
    pub tenant_found : find (is_tenant terms.tenant_id) s.db.tenants ≡ some tenant
    pub room : RoomRow
    pub property : PropertyRow F
    pub room_found : find (is_room terms.room_id) s.db.rooms ≡ some room
    pub vacant : room.status ≡ "vacant"
    pub allowed : may_access role assigned room.property_id ≡ true
    pub parties :
        (r.state.tenant_id ≡ trim_space terms.tenant_id)
        × (r.state.room_id ≡ trim_space terms.room_id)
        × (r.state.property_id ≡ trim_space room.property_id)
    pub cadences :
        (r.state.rent_billing_cadence
          ≡ Defs.default_to cadence_monthly (trim_space (rent_cadence terms.rent_billing_cadence)))
        × (r.state.electricity_billing_cadence
            ≡ trim_space (
                electricity_cadence terms.electricity_billing_cadence
                  property.default_electricity_billing_cadence))
    pub meter_and_notes :
        (r.starting_meter_reading ≡ some terms.starting_meter_reading)
        × (r.notes ≡ trimmed_optional_string terms.notes)
    pub leases : t.db.leases ≡ s.db.leases ++ (r ∷ [])
    pub identity : r.state.id ≡ s.ids s.drawn
    pub statuses :
        (r.state.status ≡ Defs.status_active) × (r.state.deposit_status ≡ Defs.deposit_status_held)
    pub amounts :
        (r.state.rent_amount ≡ terms.rent_amount) × (r.state.deposit_amount ≡ terms.deposit_amount)
    pub days :
        (r.state.start_date.date ≡ terms.start_date.date)
        × (r.state.end_date.date ≡ terms.end_date.date)
    pub new_bills : List (BillRow F)
    pub bills : t.db.bills ≡ s.db.bills ++ new_bills
    pub rent_covers :
        bills_on type_rent x new_bills ≡ once_between terms.start_date.date terms.end_date.date x
    pub electricity_covers :
        bills_on type_electricity x new_bills
        ≡ once_between terms.start_date.date terms.end_date.date x
    pub events : t.events ≡ s.events ++ (lease_created_event r occurred_at ∷ [])

  module _ (role : Role) (assigned : List String) (terms : Terms) (occurred_at : Time)
      (x : Date) where
    after_store :
        (tenant : TenantRow) (room : RoomRow) (property : PropertyRow F) (state : State)
        (u : Session F) (fs : List Bool) (s : Session F) {t : Session F} {r : LeaseRow}
        → find (is_tenant terms.tenant_id) s.db.tenants ≡ some tenant
        → find (is_room terms.room_id) s.db.rooms ≡ some room
        → room.status ≡ "vacant"
        → may_access role assigned room.property_id ≡ true
        → IsDate terms.start_date.date
        → IsDate terms.end_date.date
        → IsDate x
        → Defs.new (new_state terms room.property_id property.default_electricity_billing_cadence)
          ≡ ok state
        → IsOpened state terms.starting_meter_reading
            (trimmed_optional_string terms.notes)
            (record s { faults = fs })
            u
            r
        → t ≡ record u { events = u.events ++ (lease_created_event r occurred_at ∷ []) }
        → IsOpenedLease role assigned terms occurred_at x s t r
    unfolding lease_params new_state
    after_store tenant room property state u fs s {t} {r} tenant_found room_found vacant allowed vs
          ve vx accepted opened at =
        let (state_is, checked) = new-ok _ accepted in
        let row_is =
          opened.row
          ∙ ap
              (λ (v : State).
                new_lease_row (s.ids s.drawn) (
                  lease_params v terms.starting_meter_reading
                    (trimmed_optional_string terms.notes)))
              state_is in
        let starts : state.start_date ≡ terms.start_date =
          ap (λ (v : State). v.start_date) state_is in
        let ends : state.end_date ≡ terms.end_date = ap (λ (v : State). v.end_date) state_is in
        let (rent, electricity) =
          covers state checked x {rent = opened.rent} {electricity = opened.electricity}
            (subst (λ (v : Time). IsDate v.date) (sym starts) vs)
            (subst (λ (v : Time). IsDate v.date) (sym ends) ve) vx opened.rent_built
            opened.electricity_built in
        let within : once_between state.start_date.date state.end_date.date x
            ≡ once_between terms.start_date.date terms.end_date.date x =
          λ i. once_between (starts i).date (ends i).date x in
        let (rents, electricities) =
          bill_seeds_on F r x s.ids s.now (suc s.drawn) opened.rent opened.electricity in
        record {
          tenant = tenant;
          tenant_found = tenant_found;
          room = room;
          property = property;
          room_found = room_found;
          vacant = vacant;
          allowed = allowed;
          leases =
              ap (λ (v : Session F). v.db.leases) at
              ∙ ap (λ (v : Session F). v.db.leases) opened.session;
          parties = (
            ap (λ (v : LeaseRow). v.state.tenant_id) row_is,
            ap (λ (v : LeaseRow). v.state.room_id) row_is,
            ap (λ (v : LeaseRow). v.state.property_id) row_is,
          );
          cadences = (
            ap (λ (v : LeaseRow). v.state.rent_billing_cadence) row_is,
            ap (λ (v : LeaseRow). v.state.electricity_billing_cadence) row_is,
          );
          meter_and_notes = (
            ap (λ (v : LeaseRow). v.starting_meter_reading) row_is,
            ap (λ (v : LeaseRow). v.notes) row_is,
          );
          identity = ap (λ (v : LeaseRow). v.state.id) row_is;
          statuses = (
            ap (λ (v : LeaseRow). v.state.status) row_is,
            ap (λ (v : LeaseRow). v.state.deposit_status) row_is,
          );
          amounts = (
            ap (λ (v : LeaseRow). v.state.rent_amount) row_is,
            ap (λ (v : LeaseRow). v.state.deposit_amount) row_is,
          );
          days = (
            ap (λ (v : LeaseRow). v.state.start_date.date) row_is,
            ap (λ (v : LeaseRow). v.state.end_date.date) row_is,
          );
          new_bills =
              new_bill_rows s.ids (suc s.drawn) s.now
                (build_bill_seeds r opened.rent opened.electricity);
          bills =
              ap (λ (v : Session F). v.db.bills) at
              ∙ ap (λ (v : Session F). v.db.bills) opened.session;
          rent_covers = rents ∙ rent ∙ within;
          electricity_covers = electricities ∙ electricity ∙ within;
          events =
              ap (λ (v : Session F). v.events) at
              ∙ ap (λ (v : Session F). v.events ++ (lease_created_event r occurred_at ∷ []))
                  opened.session;
        }

    -- A lease that is created is of a tenant that was found and a vacant room, to whose property the
    -- actor has access. Its row has the tenant, room, rent, deposit, days, first meter reading and notes
    -- of the terms, the property of the room, and the cadences of the terms or their defaults, texts
    -- without space around them; it is active with its deposit held, under the next identifier that the
    -- database draws, and added to the leases. The bills added have each day x of its term in exactly one rent bill and one
    -- electricity bill, and no other day in any; one event is recorded.
    pub open_lease-IsOpenedLease :
        (s : Session F) {t : Session F} {r : LeaseRow}
        → IsDate terms.start_date.date
        → IsDate terms.end_date.date
        → IsDate x
        → open_lease role assigned terms occurred_at s ≡ (t, ok r)
        → IsOpenedLease role assigned terms occurred_at x s t r
    unfolding open_lease
    open_lease-IsOpenedLease s {t} {r} vs ve vx h =
        let (fs, tenant, tenant_found, rest) =
          find_tenant-then map_tenant_lookup_error terms.tenant_id _ s h in
        let (fs2, room, property, room_found, rest2) =
          find_room-then map_room_lookup_error terms.room_id _ (record s { faults = fs }) rest in
        let (vacant, rest3) =
          stop_if-then (not (room.status == "vacant")) room_not_vacant _ _ rest2 in
        let (allowed, rest4) =
          stop_if-then (not (may_access role assigned room.property_id)) forbidden _ _ rest3 in
        let (state, accepted, rest5) =
          caught-then map_domain_error
            (Defs.new
              (new_state terms room.property_id property.default_electricity_billing_cadence))
            _ (record s { faults = fs2 }) rest4 in
        let (u, created, stored, last) =
          >>=-ok
            (store_lease state terms.starting_meter_reading (trimmed_optional_string terms.notes)) _
            (record s { faults = fs2 }) rest5 in
        let same : created ≡ r = ok-injective (ap (λ v. v.1) last) in
        let opened = store_lease-IsOpened state terms.starting_meter_reading _ _ (
          subst
            (λ v.
              store_lease state terms.starting_meter_reading (trimmed_optional_string terms.notes)
                (record s { faults = fs2 })
              ≡ (u, ok v))
            same stored) in
        after_store tenant room property state u fs2 s tenant_found room_found
          ((eq_iff room.status "vacant").0 (not-not vacant)) (not-not allowed) vs ve vx accepted
          opened
          (sym (ap (λ v. v.0) last)
            ∙ ap (λ v. record u { events = u.events ++ (lease_created_event v occurred_at ∷ []) })
                same)
