-- ===== src/Services/Meter/Reads.antt =====
-- What a reading that is accepted leaves in the database.
use stds_backend_go.Prelude.{
  ◌≡◌, refl, sym, ap, ◌∙◌, subst, false, inl, inr, Bool-cases, ok, ok-injective, none, some, Option,
  [], ◌∷◌, ◌++◌, String, eq_iff, ◌==◌,
}
use stds_backend_go.Prelude.Int.{ℤ, pos, ltb_ℤ}
use stds_backend_go.Prelude.Floats.{Floats}
use stds_backend_go.GoTime.{Time}
use stds_backend_go.Bill.Defs
use stds_backend_go.Bill.Defs.{State, meter_amount, status_pending_payment}
use stds_backend_go.Db.Rows.{BillRow, LeaseRow, PropertyRow, meter_recorded}
use stds_backend_go.Db.Script.{Session}
use stds_backend_go.Db.Table.{find, update_where}
use stds_backend_go.Db.Steps.{result-then, caught-then}
use stds_backend_go.Db.Bills.{
  update_meter, is_bill, is_bill_version, is_lease, is_property, meter_columns, previous_reading,
}
use stds_backend_go.Db.Bills.Passed.{
  row_after, get_bill_for_update-then, update_bills-then, find_previous_meter_reading-then,
  find_property_electricity_unit_price-then,
}
use stds_backend_go.Services.Payment.{
  map_repository_error, map_domain_error, method_result, or_else,
}
use stds_backend_go.Services.Meter.{
  map_price_error, price_or_error, store_meter, meter_row, meter_bill,
}

module _ (f : Floats) where
  -- What the aggregate has accepted and written.
  pub record IsReading (previous current : ℤ) (price : f.Float64) (recorded_at : Time)
      (before after : State f.Float64) : Type 0 where
    pub electricity : before.type ≡ Defs.type_electricity
    pub pending : before.status ≡ Defs.status_pending_meter
    pub not_less : ltb_ℤ current previous ≡ false
    pub written : after ≡ record before {
      meter_previous_reading = some previous;
      meter_current_reading = some current;
      meter_unit_price = some price;
      meter_recorded_at = some recorded_at;
      amount = some (meter_amount f previous current price);
      status = Defs.status_pending_payment;
    }

  record_meter-IsReading :
      (previous current : ℤ) (price : f.Float64) (recorded_at : Time) (before : State f.Float64)
      {after : State f.Float64}
      → method_result (Defs.record_meter f previous current price recorded_at before) ≡ ok after
      → IsReading previous current price recorded_at before after
  unfolding Defs.record_meter
  record_meter-IsReading previous current price recorded_at before h =
      elim (Bool-cases (before.type == Defs.type_electricity)) [
        | inr other ↦ cc (rw other at h)
        | inl electric ↦ elim (Bool-cases (before.status == Defs.status_pending_meter)) [
          | inr other ↦ cc (rw (electric, other) at h)
          | inl pending ↦ elim (Bool-cases (ltb_ℤ current previous)) [
            | inl less ↦ cc (rw (electric, pending, less) at h)
            | inr not_less ↦ record {
              electricity = (eq_iff before.type Defs.type_electricity).0 electric;
              pending = (eq_iff before.status Defs.status_pending_meter).0 pending;
              not_less = not_less;
              written = sym (ok-injective (rw (electric, pending, not_less) at h));
            }
          ]
        ]
      ]

  -- The sessions around a reading of a bill that returned the row `r`.
  pub record IsMetered (bill_id : String) (current : ℤ) (recorded_at : Time)
      (s t : Session f.Float64) (r : BillRow f.Float64) : Type 0 where
    pub before : BillRow f.Float64
    pub was_found : find (is_bill bill_id) s.db.bills ≡ some before
    pub lease : LeaseRow
    pub lease_found : find (is_lease before.state.lease_id) s.db.leases ≡ some lease
    pub price : f.Float64
    pub property : PropertyRow f.Float64
    pub property_found : find (is_property before.state.property_id) s.db.properties ≡ some property
    pub price_is : property.electricity_unit_price ≡ some price
    pub accepted :
        (after : State f.Float64) × IsReading
          (previous_reading before.state.period_start.date s.db lease)
          current
          price
          recorded_at
          (Defs.rehydrate before.state)
          after
    pub row :
        r
        ≡ meter_columns
            (previous_reading before.state.period_start.date s.db lease)
            current
            price
            (meter_amount f
              (previous_reading before.state.period_start.date s.db lease)
              current
              price)
            recorded_at
            s.now
            before
    pub read :
        (r.state.status ≡ status_pending_payment)
        × (r.state.meter_previous_reading
            ≡ some (previous_reading before.state.period_start.date s.db lease))
        × (r.state.meter_current_reading ≡ some current)
        × (r.state.meter_unit_price ≡ some price)
        × (r.state.amount
            ≡ some (
                meter_amount f
                  (previous_reading before.state.period_start.date s.db lease)
                  current
                  price))
    pub bills :
        t.db.bills
        ≡ update_where
            (is_bill_version bill_id before.state.version)
            (meter_columns
              (previous_reading before.state.period_start.date s.db lease)
              current
              price
              (meter_amount f
                (previous_reading before.state.period_start.date s.db lease)
                current
                price)
              recorded_at
              s.now)
            s.db.bills
    pub leases : t.db.leases ≡ s.db.leases
    pub events :
        t.events
        ≡ s.events
          ++ (meter_recorded r.state.id r.state.property_id r.state.room_id r.state.lease_id
                (previous_reading before.state.period_start.date s.db lease)
                current
                price
                (meter_amount f
                  (previous_reading before.state.period_start.date s.db lease)
                  current
                  price)
                recorded_at
              ∷ [])

  -- The sessions around the update of the row `before`.
  record IsStored (bill_id : String) (before : BillRow f.Float64) (previous current : ℤ)
      (price : f.Float64) (amount : ℤ) (recorded_at : Time) (s t : Session f.Float64)
      (r : BillRow f.Float64) : Type 0 where
    row : r ≡ meter_columns previous current price amount recorded_at s.now before
    bills :
        t.db.bills
        ≡ update_where
            (is_bill_version bill_id before.state.version)
            (meter_columns previous current price amount recorded_at s.now)
            s.db.bills
    leases : t.db.leases ≡ s.db.leases
    events :
        t.events
        ≡ s.events
          ++ (meter_recorded r.state.id r.state.property_id r.state.room_id r.state.lease_id
                previous current price amount recorded_at
              ∷ [])

  store_meter-IsStored :
      (bill_id : String) (before : BillRow f.Float64) (previous current : ℤ) (price : f.Float64)
      (amount : ℤ) (recorded_at : Time) (s : Session f.Float64) {t : Session f.Float64}
      {r : BillRow f.Float64}
      → find (is_bill bill_id) s.db.bills ≡ some before
      → store_meter f bill_id before.state.version previous current price recorded_at
          (some amount)
          s
        ≡ (t, ok r)
      → IsStored bill_id before previous current price amount recorded_at s t r
  unfolding store_meter update_meter
  store_meter-IsStored bill_id before previous current price amount recorded_at s {t} {r} was_found
        h =
      let (fs, updated, rest) =
        update_bills-then map_repository_error (is_bill_version bill_id before.state.version)
          (meter_columns previous current price amount recorded_at s.now) _ _ h in
      let (fs2, row, row_found, last) =
        get_bill_for_update-then map_repository_error bill_id _ _ rest in
      let same : row ≡ r = ok-injective (ap (λ x. x.1) last) in
      let row_is =
        row_after bill_id (meter_columns previous current price amount recorded_at s.now) s.db.bills
          before row (λ x. refl) was_found row_found in
      record {
        row = sym same ∙ row_is;
        bills = sym (ap (λ x. x.0.db.bills) last);
        leases = sym (ap (λ x. x.0.db.leases) last);
        events =
            sym (ap (λ x. x.0.events) last)
            ∙ ap
                (λ x.
                  s.events
                  ++ (meter_recorded x.state.id x.state.property_id x.state.room_id x.state.lease_id
                        previous current price amount recorded_at
                      ∷ []))
                same;
      }

  meter_row-IsStored :
      (bill_id : String) (before : BillRow f.Float64) (previous current : ℤ) (price : f.Float64)
      (recorded_at : Time) (s : Session f.Float64) {t : Session f.Float64} {r : BillRow f.Float64}
      → find (is_bill bill_id) s.db.bills ≡ some before
      → meter_row f bill_id before previous current price recorded_at s ≡ (t, ok r)
      → ((after : State f.Float64) × IsReading previous current price recorded_at
            (Defs.rehydrate before.state)
            after)
        × IsStored bill_id before previous current price
            (meter_amount f previous current price)
            recorded_at
            s
            t
            r
  unfolding meter_row
  meter_row-IsStored bill_id before previous current price recorded_at s {t} {r} was_found h =
      let (after, accepted, rest) =
        caught-then map_domain_error
          (method_result
            (Defs.record_meter f previous current price recorded_at (Defs.rehydrate before.state)))
          _ s h in
      let reading = record_meter-IsReading previous current price recorded_at _ accepted in
      (
        (after, reading),
        store_meter-IsStored bill_id before previous current price
            (meter_amount f previous current price) recorded_at s was_found
            (subst
              (λ (x : State f.Float64).
                store_meter f bill_id before.state.version
                  (or_else x.meter_previous_reading (pos 0))
                  (or_else x.meter_current_reading (pos 0)) (or_else x.meter_unit_price price)
                  (or_else x.meter_recorded_at recorded_at) x.amount s
                ≡ (t, ok r))
              reading.written rest),
      )

  price_given :
      {o : Option f.Float64} {price : f.Float64} → price_or_error o ≡ ok price → o ≡ some price
  unfolding price_or_error
  price_given {o} {price} h = by_cases o h
    where
      by_cases : (o : Option f.Float64) → price_or_error o ≡ ok price → o ≡ some price
      by_cases none h = cc h
      by_cases (some x) h = ap some (ok-injective h)

  -- A reading that succeeds is not below the previous reading of the lease before the period of the
  -- bill, a pending electricity bill. It writes both readings, the price of the property and their
  -- amount to that row, makes it due, changes no bill with another identifier, and records one event.
  pub meter_bill-IsMetered :
      (bill_id : String) (current : ℤ) (recorded_at : Time) (s : Session f.Float64)
      {t : Session f.Float64} {r : BillRow f.Float64}
      → meter_bill f bill_id current recorded_at s ≡ (t, ok r)
      → IsMetered bill_id current recorded_at s t r
  unfolding meter_bill
  meter_bill-IsMetered bill_id current recorded_at s h =
      let (fs, before, was_found, rest) =
        get_bill_for_update-then map_repository_error bill_id _ s h in
      let (fs2, lease, lease_found, rest2) =
        find_previous_meter_reading-then map_repository_error before.state.lease_id
          before.state.period_start.date _ (record s { faults = fs }) rest in
      let (fs3, property, property_found, rest3) =
        find_property_electricity_unit_price-then map_price_error before.state.property_id _
          (record s { faults = fs2 }) rest2 in
      let (price, price_is, rest4) =
        result-then (price_or_error property.electricity_unit_price) _ (record s { faults = fs3 })
          rest3 in
      let (accepted, stored) =
        meter_row-IsStored bill_id before
          (previous_reading before.state.period_start.date s.db lease) current price recorded_at
          (record s { faults = fs3 }) was_found rest4 in
      record {
        before = before;
        was_found = was_found;
        lease = lease;
        lease_found = lease_found;
        price = price;
        property = property;
        property_found = property_found;
        price_is = price_given price_is;
        accepted = accepted;
        row = stored.row;
        read = (
          ap (λ (x : BillRow f.Float64). x.state.status) stored.row,
          ap (λ (x : BillRow f.Float64). x.state.meter_previous_reading) stored.row,
          ap (λ (x : BillRow f.Float64). x.state.meter_current_reading) stored.row,
          ap (λ (x : BillRow f.Float64). x.state.meter_unit_price) stored.row,
          ap (λ (x : BillRow f.Float64). x.state.amount) stored.row,
        );
        bills = stored.bills;
        leases = stored.leases;
        events = stored.events;
      }
