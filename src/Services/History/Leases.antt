-- ===== src/Services/History/Leases.antt =====
-- What no sequence of the eight commands does to a lease that has ended.
use stds_backend_go.Prelude.{
  ◌≡◌, refl, sym, ap, ◌∙◌, subst, Bool, true, false, ◌&&◌, inl, inr, Bool-cases, ◌==◌, eq_iff,
  String, List, [], ◌∷◌, ◌++◌, none, some, if◌then◌else◌,
}
use stds_backend_go.Prelude.Int.{ℤ}
use stds_backend_go.Prelude.Floats.{Floats}
use stds_backend_go.GoTime.{Time}
use stds_backend_go.Lease.Defs
use stds_backend_go.Db.Table.{
  some-injective, find, find-holds, update_where, find-update_where, find-update_other, find-++,
}
use stds_backend_go.Db.Rows.{Database, LeaseRow}
use stds_backend_go.Db.Script.{Session}
use stds_backend_go.Db.Bills.{is_lease}
use stds_backend_go.Db.Leases.{settle_columns, terminate_columns}
use stds_backend_go.Services.Payment.Books.{pay_bill-IsBooked}
use stds_backend_go.Services.Meter.Reads.{meter_bill-IsMetered}
use stds_backend_go.Services.Leases.Settled.{settle_lease-IsSettledLease}
use stds_backend_go.Services.Leases.Terminate.{lease_terminated_event}
use stds_backend_go.Services.Leases.Terminate.Proof.{end_lease-IsEndedLease}
use stds_backend_go.Services.Leases.Force.Proof.{force_lease-IsForced}
use stds_backend_go.Services.Leases.Create.Proof.{open_lease-IsOpenedLease}
use stds_backend_go.Services.Leases.Rent.Proof.{change_rent-IsChangedRent}
use stds_backend_go.Services.Leases.Replace.Proof.{replace_lease-IsReplaced}
use stds_backend_go.Services.History

-- The status, the rent, the deposit and the term of a lease.
pub record LeaseTerms : Type 0 where
  pub status : String
  pub rent_amount : ℤ
  pub deposit_amount : ℤ
  pub start_date : Time
  pub end_date : Time

abbrev pub terms_of : LeaseRow → LeaseTerms
terms_of row = record {
  status = row.state.status;
  rent_amount = row.state.rent_amount;
  deposit_amount = row.state.deposit_amount;
  start_date = row.state.start_date;
  end_date = row.state.end_date;
}

left_true : (a b : Bool) → (a && b) ≡ true → a ≡ true
left_true true b h = refl
left_true false b h = cc h

-- The lease is found with the terms of the row.
abbrev pub Keeps : String → LeaseRow → List LeaseRow → Type 0
Keeps id row rows =
    (later : LeaseRow) × (find (is_lease id) rows ≡ some later) × (terms_of later ≡ terms_of row)

one_lease :
    (a b : String) (rows : List LeaseRow) (x y : LeaseRow)
    → find (is_lease a) rows ≡ some x
    → find (is_lease b) rows ≡ some y
    → is_lease a y ≡ true
    → x ≡ y
one_lease a b rows x y found_x found_y at =
    let of_a : y.state.id ≡ a = (eq_iff y.state.id a).0 (left_true (y.state.id == a) _ at) in
    let of_b : y.state.id ≡ b =
      (eq_iff y.state.id b).0
        (left_true (y.state.id == b) _ (find-holds (is_lease b) rows y found_y)) in
    some-injective (sym found_x ∙ ap (λ i. find (is_lease i) rows) (sym of_a ∙ of_b) ∙ found_y)

module _ (id : String) (row : LeaseRow) (old : List LeaseRow)
    (was_found : find (is_lease id) old ≡ some row)
    (closed : Defs.is_terminable_status row.state.status ≡ false) where
  -- An update of a lease that is found and open does not find the closed one.
  open_update :
      (lease_id : String) (f : LeaseRow → LeaseRow) (current : LeaseRow)
      → ((i : String) (x : LeaseRow) → is_lease i (f x) ≡ is_lease i x)
      → find (is_lease lease_id) old ≡ some current
      → Defs.is_terminable_status current.state.status ≡ true
      → (is_lease lease_id row ≡ false)
        × (find (is_lease id) (update_where (is_lease lease_id) f old) ≡ some row)
  open_update lease_id f current keeps found_current open_lease =
      elim (Bool-cases (is_lease lease_id row)) [
        | inr other ↦ (
          other,
          find-update_other (is_lease id) (is_lease lease_id) f old row (keeps id) was_found other,
        )
        | inl hit ↦ cc (
            sym (
              ap (λ (x : LeaseRow). Defs.is_terminable_status x.state.status)
                (one_lease lease_id id old current row found_current was_found hit)
              ∙ closed)
            ∙ open_lease)
      ]

  -- An update that keeps the terms.
  terms_update :
      (lease_id : String) (f : LeaseRow → LeaseRow)
      → ((i : String) (x : LeaseRow) → is_lease i (f x) ≡ is_lease i x)
      → ((x : LeaseRow) → terms_of (f x) ≡ terms_of x)
      → Keeps id row (update_where (is_lease lease_id) f old)
  terms_update lease_id f keeps same = (
    (if is_lease lease_id row then f row else row),
    find-update_where (is_lease id) (is_lease lease_id) f old row (keeps id) was_found,
    by_hit (is_lease lease_id row),
  )
    where
      by_hit : (b : Bool) → terms_of (if b then f row else row) ≡ terms_of row
      by_hit true = same row
      by_hit false = refl

active_terminable : (s : String) → s ≡ Defs.status_active → Defs.is_terminable_status s ≡ true
unfolding Defs.is_terminable_status
active_terminable s h = rw h refl

module _ (f : Floats) (id : String) (row : LeaseRow) where
  Keeps-lease :
      {s t : Session f.Float64}
      → History.Step f s t
      → find (is_lease id) s.db.leases ≡ some row
      → Defs.is_terminable_status row.state.status ≡ false
      → Keeps id row t.db.leases
  Keeps-lease {s} {t} (History.payment bill_id amount method paid_at r h) was_found closed = (
    row,
    ap (find (is_lease id)) (pay_bill-IsBooked bill_id amount method paid_at s h).leases
        ∙ was_found,
    refl,
  )
  Keeps-lease {s} {t} (History.reading bill_id current recorded_at r h) was_found closed = (
    row,
    ap (find (is_lease id)) (meter_bill-IsMetered f bill_id current recorded_at s h).leases
        ∙ was_found,
    refl,
  )
  Keeps-lease {s} {t}
        (History.settlement role assigned lease_id refund deduction reason at r hr hc h) was_found
        closed =
      let a =
        settle_lease-IsSettledLease role assigned lease_id refund deduction reason at hr hc s h in
      subst (Keeps id row) (sym a.leases)
        (terms_update id row s.db.leases was_found closed lease_id _ (λ i x. refl) (λ x. refl))
  Keeps-lease {s} {t}
        (History.termination role assigned lease_id refund deduction reason at r hr hc h) was_found
        closed =
      let a = end_lease-IsEndedLease role assigned lease_id refund deduction reason at hr hc s h in
      let e = a.writes.1 in
      let (other, kept) =
        open_update id row s.db.leases was_found closed lease_id
          (settle_columns refund deduction a.writes.0) a.current (λ i x. refl) a.was_found
          a.was_open in
      (
        row,
        ap (λ (v : Session f.Float64). find (is_lease id) v.db.leases)
              (e.session ∙ λ i. record (e.booked.session i) {
                events = e.after.events ++ (lease_terminated_event r false false at ∷ []);
              })
            ∙ find-update_other (is_lease id) (is_lease lease_id)
                (terminate_columns at.date "normal termination" none)
                (update_where (is_lease lease_id) (settle_columns refund deduction a.writes.0)
                  s.db.leases)
                row (λ x. refl) kept other,
        refl,
      )
  Keeps-lease {s} {t} (History.forced_termination role assigned order at r trimmed h) was_found
        closed =
      let a = force_lease-IsForced role assigned order at trimmed s h in
      let (_, kept) =
        open_update id row s.db.leases was_found closed order.lease_id _ a.current (λ i x. refl)
          a.was_found a.was_open in
      (row, ap (find (is_lease id)) a.leases ∙ kept, refl)
  Keeps-lease {s} {t} (History.creation role assigned terms at r vs ve h) was_found closed =
      let a = open_lease-IsOpenedLease role assigned terms at terms.start_date.date s vs ve vs h in
      (
        row,
        ap (find (is_lease id)) a.leases ∙ find-++ (is_lease id) s.db.leases (r ∷ []) row was_found,
        refl,
      )
  Keeps-lease {s} {t}
        (History.rent_change role assigned lease_id rent operation_date at current r found_lease vs
          ve vo h)
        was_found closed =
      elim (change_rent-IsChangedRent role assigned lease_id rent operation_date at
        current.state.start_date.date current s found_lease vs ve vo vs h) [
          | inl same ↦ (row, ap (λ d. find (is_lease id) d.leases) same.2 ∙ was_found, refl)
          | inr changed ↦
              let (_, kept) =
                open_update id row s.db.leases was_found closed lease_id _ current (λ i x. refl)
                  found_lease (active_terminable current.state.status changed.active) in
              (row, ap (find (is_lease id)) changed.leases ∙ kept, refl)
        ]
  Keeps-lease {s} {t} (History.replacement role assigned order at r vs ve h) was_found closed =
      let a = replace_lease-IsReplaced role assigned order at order.effective_start vs ve vs s h in
      let (_, kept) =
        open_update id row s.db.leases was_found closed order.lease_id _ a.current (λ i x. refl)
          a.was_found (active_terminable a.current.state.status a.active) in
      (row, ap (find (is_lease id)) a.leases ∙ find-++ (is_lease id) _ _ row kept, refl)

-- A lease that is neither active nor expired keeps its status, its rent, the amount of its deposit and
-- its term, whatever payments, meter readings, deposit settlements, normal and forced terminations,
-- creations of leases, changes of the rent and replacements succeed.
pub closed_lease_stays :
    (f : Floats) (id : String) (row : LeaseRow) {first last : Database f.Float64}
    → History.Reaches f first last
    → find (is_lease id) first.leases ≡ some row
    → Defs.is_terminable_status row.state.status ≡ false
    → (later : LeaseRow) × (find (is_lease id) last.leases ≡ some later)
      × (terms_of later ≡ terms_of row)
closed_lease_stays f id row History.start was_found closed = (row, was_found, refl)
closed_lease_stays f id row (History.after s t before step) was_found closed =
    let (between, found_between, same) = closed_lease_stays f id row before was_found closed in
    let (later, found_later, same2) =
      Keeps-lease f id between step found_between
        (ap (λ (v : LeaseTerms). Defs.is_terminable_status v.status) same ∙ closed) in
    (later, found_later, same2 ∙ same)
