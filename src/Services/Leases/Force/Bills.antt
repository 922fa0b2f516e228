-- ===== src/Services/Leases/Force/Bills.antt =====
-- The bills that a forced termination writes off.
use stds_backend_go.Prelude.{
  ◌≡◌, refl, Bool, true, false, not, ◌||◌, inl, inr, Bool-cases, ◌==◌, eq_iff, String, List, [],
  ◌∷◌, All, arith,
}
use stds_backend_go.Prelude.Sets.{has}
use stds_backend_go.GoTime.{Time}
use stds_backend_go.Db.Table.{update_where, select, All-update_where}
use stds_backend_go.Db.Rows.{BillRow}
use stds_backend_go.Db.Leases.{is_bill_of, is_written_off_by, write_off_columns}
use stds_backend_go.Services.Leases.Terminate.{is_closed, unpaid_bill_ids}
use stds_backend_go.Services.Leases.Terminate.Proof.{IsClosedBill}

or_right : (a : Bool) {b : Bool} → b ≡ true → (a || b) ≡ true
or_right true h = refl
or_right false h = h

module _ {F : Type 0} where
  -- A bill of the lease is closed or in the list.
  abbrev IsListed : String → List String → BillRow F → Type 0
  IsListed lease_id ids row =
      (not (is_bill_of lease_id row) || (is_closed row.state.status || has ids row.state.id)) ≡ true

  listed :
      (lease_id : String) (ids : List String) (rows : List (BillRow F))
      → ((id : String)
          → has (unpaid_bill_ids (select (is_bill_of lease_id) rows)) id ≡ true
          → has ids id ≡ true)
      → All (IsListed lease_id ids) rows
  unfolding select unpaid_bill_ids has
  listed lease_id ids [] h = tt
  listed lease_id ids (row ∷ rows) h = elim (Bool-cases (is_bill_of lease_id row)) [
    | inr other ↦ (rw other refl, listed lease_id ids rows (rw other at h))
    | inl yes_found ↦ elim (Bool-cases (is_closed row.state.status)) [
      | inl closed ↦
          (rw (yes_found, closed) refl, listed lease_id ids rows (rw (yes_found, closed) at h))
      | inr open_bill ↦
          let k : (id : String)
              → (row.state.id == id || has (unpaid_bill_ids (select (is_bill_of lease_id) rows)) id)
                ≡ true
              → has ids id ≡ true =
            rw (yes_found, open_bill) at h in
          (
            rw (yes_found, open_bill)
                (k row.state.id (rw ((eq_iff row.state.id row.state.id).1 refl) refl)),
            listed lease_id ids rows (λ id e. k id (or_right (row.state.id == id) e)),
          )
    ]
  ]

  closed_or_listed :
      (lease_id : String) (ids : List String) (row : BillRow F)
      → IsListed lease_id ids row
      → is_written_off_by ids row ≡ false
      → IsClosedBill lease_id row
  closed_or_listed lease_id ids row l kept = ground (arith, l, kept)

  -- After the bills in the list are written off, every bill of the lease is closed.
  pub written_off_closed :
      (lease_id : String) (reason : String) (now : Time) (rows : List (BillRow F))
      → All (IsClosedBill lease_id) (
          update_where
            (is_written_off_by (unpaid_bill_ids (select (is_bill_of lease_id) rows)))
            (write_off_columns reason now)
            rows)
  written_off_closed lease_id reason now rows =
      let ids = unpaid_bill_ids (select (is_bill_of lease_id) rows) in
      All-update_where {P = IsListed lease_id ids} (IsClosedBill lease_id) (is_written_off_by ids)
        (write_off_columns reason now) rows
        (λ row l written. or_right (not (is_bill_of lease_id row)) refl)
        (λ row l kept. closed_or_listed lease_id ids row l kept)
        (listed lease_id ids rows (λ id e. e))
