-- ===== src/Db/Leases/Passed.antt =====
-- The statements on leases in a script that succeeds: what they have found and written.
use stds_backend_go.Prelude.{
  ◌≡◌, refl, sym, ◌∙◌, subst, suc, Bool, String, List, [], ◌∷◌, ◌++◌, Option, none, some, ok,
  ok-injective,
}
use mathlib.Core.List.{append-nil}
use stds_backend_go.GoTime.{Date}
use stds_backend_go.Db.Table.{
  some-injective, find, update_where, select, exists, find-holds, find-update_where,
}
use stds_backend_go.Db.Rows.{BillRow, LeaseRow, RoomRow, TenantRow, PropertyRow}
use stds_backend_go.Db.Script.{Session, Script, RepositoryError, catch, ◌>>=◌}
use stds_backend_go.Db.Steps.{query-then, statement-then, caught-then}
use stds_backend_go.Db.Bills.{found, found-ok, is_lease, is_property}
use stds_backend_go.Db.Leases.{
  NewLease, NewBill, new_lease_row, new_bill_rows, drawn_after, with_bills, is_room, is_tenant,
  with_property, joined, is_bill_of, is_locked, find_lease_by_id_for_update, update_lease,
  list_bills_by_lease_id, change_bills, has_locked_rent_bills_from_due_date, create_bills,
  create_lease, find_tenant_by_id, find_room_by_id_for_update,
}

module _ {F E B : Type 0} (g : RepositoryError → E) where
  pub find_lease-then :
      (lease_id : String) (k : LeaseRow → Script F E B) (s : Session F) {t : Session F} {b : B}
      → (catch g (find_lease_by_id_for_update lease_id) >>= k) s ≡ (t, ok b)
      → (fs : List Bool) × (row : LeaseRow) × (find (is_lease lease_id) s.db.leases ≡ some row)
        × (k row (record s { faults = fs }) ≡ (t, ok b))
  unfolding find_lease_by_id_for_update
  find_lease-then lease_id k s h =
      let (fs, row, e, rest) =
        query-then g (λ db. found (find (is_lease lease_id) db.leases)) k s h in
      (fs, row, found-ok _ e, rest)

  -- The row that an update of a lease returns is the one that was there, changed.
  pub update_lease-then :
      (lease_id : String) (f : LeaseRow → LeaseRow) (current : LeaseRow)
      (k : LeaseRow → Script F E B) (s : Session F) {t : Session F} {b : B}
      → ((x : LeaseRow) → is_lease lease_id (f x) ≡ is_lease lease_id x)
      → find (is_lease lease_id) s.db.leases ≡ some current
      → (catch g (update_lease lease_id f) >>= k) s ≡ (t, ok b)
      → (fs : List Bool) × (k (f current) (record s {
        db = record s.db { leases = update_where (is_lease lease_id) f s.db.leases };
        faults = fs;
      })
          ≡ (t, ok b))
        × (find (is_lease lease_id) (update_where (is_lease lease_id) f s.db.leases)
            ≡ some (f current))
  unfolding update_lease
  update_lease-then lease_id f current k s {t} {b} keeps was_found h =
      let (fs, rest) =
        statement-then g
          (λ (s : Session F). (
            record s {
              db = record s.db { leases = update_where (is_lease lease_id) f s.db.leases };
            },
            found (find (is_lease lease_id) (update_where (is_lease lease_id) f s.db.leases)),
          ))
          k s h in
      let (row, e, last) =
        caught-then g
          (found (find (is_lease lease_id) (update_where (is_lease lease_id) f s.db.leases))) k _
          rest in
      let holds = find-holds (is_lease lease_id) s.db.leases current was_found in
      let after : find (is_lease lease_id) (update_where (is_lease lease_id) f s.db.leases)
          ≡ some (f current) =
        rw holds at (
          find-update_where (is_lease lease_id) (is_lease lease_id) f s.db.leases current keeps
            was_found) in
      let same : row ≡ f current = some-injective (sym (found-ok _ e) ∙ after) in
      (
        fs,
        subst
            (λ x.
              k x (record s {
                db = record s.db { leases = update_where (is_lease lease_id) f s.db.leases };
                faults = fs;
              })
              ≡ (t, ok b))
            same last,
        after,
      )

  pub list_bills-then :
      (lease_id : String) (k : List (BillRow F) → Script F E B) (s : Session F) {t : Session F}
      {b : B}
      → (catch g (list_bills_by_lease_id lease_id) >>= k) s ≡ (t, ok b)
      → (fs : List Bool) × (k (select (is_bill_of lease_id) s.db.bills) (record s { faults = fs })
          ≡ (t, ok b))
  unfolding list_bills_by_lease_id
  list_bills-then lease_id k s {t} {b} h =
      let (fs, bills, e, rest) =
        query-then g (λ db. ok (select (is_bill_of lease_id) db.bills)) k s h in
      (fs, subst (λ x. k x (record s { faults = fs }) ≡ (t, ok b)) (sym (ok-injective e)) rest)

  pub change_bills-then :
      (p : BillRow F → Bool) (f : BillRow F → BillRow F) (k : Unit {0} → Script F E B)
      (s : Session F) {t : Session F} {b : B}
      → (catch g (change_bills p f) >>= k) s ≡ (t, ok b)
      → (fs : List Bool) × (k tt
            (record s { db = record s.db { bills = update_where p f s.db.bills }; faults = fs })
          ≡ (t, ok b))
  unfolding change_bills
  change_bills-then p f k s h =
      statement-then g
        (λ (s : Session F).
          (record s { db = record s.db { bills = update_where p f s.db.bills } }, ok tt))
        k s h

  pub create_bills-then :
      (ps : List NewBill) (k : Unit {0} → Script F E B) (s : Session F) {t : Session F} {b : B}
      → (catch g (create_bills ps) >>= k) s ≡ (t, ok b)
      → (fs : List Bool) × (k tt (record (with_bills ps s) { faults = fs }) ≡ (t, ok b))
  unfolding create_bills new_bill_rows drawn_after
  create_bills-then [] k s {t} {b} h = (
    s.faults,
    subst (λ l. k tt (record s { db = record s.db { bills = l } }) ≡ (t, ok b))
        (sym (append-nil s.db.bills)) h,
  )
  create_bills-then (p ∷ ps) k s h =
      statement-then g (λ (s : Session F). (with_bills (p ∷ ps) s, ok tt)) k s h

  pub create_lease-then :
      (p : NewLease) (k : LeaseRow → Script F E B) (s : Session F) {t : Session F} {b : B}
      → (catch g (create_lease p) >>= k) s ≡ (t, ok b)
      → (fs : List Bool) × (k (new_lease_row (s.ids s.drawn) p) (record s {
        db = record s.db { leases = s.db.leases ++ (new_lease_row (s.ids s.drawn) p ∷ []) };
        drawn = suc s.drawn;
        faults = fs;
      })
          ≡ (t, ok b))
  unfolding create_lease
  create_lease-then p k s h =
      statement-then g
        (λ (s : Session F). (
          record s {
            db = record s.db { leases = s.db.leases ++ (new_lease_row (s.ids s.drawn) p ∷ []) };
            drawn = suc s.drawn;
          },
          ok (new_lease_row (s.ids s.drawn) p),
        ))
        k s h

  pub find_tenant-then :
      (tenant_id : String) (k : TenantRow → Script F E B) (s : Session F) {t : Session F} {b : B}
      → (catch g (find_tenant_by_id tenant_id) >>= k) s ≡ (t, ok b)
      → (fs : List Bool) × (row : TenantRow) × (find (is_tenant tenant_id) s.db.tenants ≡ some row)
        × (k row (record s { faults = fs }) ≡ (t, ok b))
  unfolding find_tenant_by_id
  find_tenant-then tenant_id k s h =
      let (fs, row, e, rest) =
        query-then g (λ db. found (find (is_tenant tenant_id) db.tenants)) k s h in
      (fs, row, found-ok _ e, rest)

  pub find_room-then :
      (room_id : String) (k : RoomRow × PropertyRow F → Script F E B) (s : Session F)
      {t : Session F} {b : B}
      → (catch g (find_room_by_id_for_update room_id) >>= k) s ≡ (t, ok b)
      → (fs : List Bool) × (room : RoomRow) × (property : PropertyRow F) × (find
            (is_room room_id)
            s.db.rooms
          ≡ some room)
        × (k (room, property) (record s { faults = fs }) ≡ (t, ok b))
  unfolding find_room_by_id_for_update
  find_room-then room_id k s {t} {b} h =
      let (fs, pair, e, rest) =
        query-then g (λ db. joined db (find (is_room room_id) db.rooms)) k s h in
      let (room, property, room_found, same) = pair_of (find (is_room room_id) s.db.rooms) e in
      (
        fs,
        room,
        property,
        room_found,
        subst (λ x. k x (record s { faults = fs }) ≡ (t, ok b)) same rest,
      )
    where
      with_pair :
          (room : RoomRow) (o : Option (PropertyRow F)) {pair : RoomRow × PropertyRow F}
          → found (with_property room o) ≡ ok pair
          → (property : PropertyRow F) × (pair ≡ (room, property))
      with_pair room none e = cc e
      with_pair room (some property) e = (property, sym (ok-injective e))

      pair_of :
          (o : Option RoomRow) {pair : RoomRow × PropertyRow F}
          → joined s.db o ≡ ok pair
          → (room : RoomRow) × (property : PropertyRow F) × (o ≡ some room)
            × (pair ≡ (room, property))
      pair_of none e = cc e
      pair_of (some room) e =
          let (property, same) =
            with_pair room (find (is_property room.property_id) s.db.properties) e in
          (room, property, refl, same)

  pub has_locked-then :
      (lease_id : String) (due_date : Date) (k : Bool → Script F E B) (s : Session F)
      {t : Session F} {b : B}
      → (catch g (has_locked_rent_bills_from_due_date lease_id due_date) >>= k) s ≡ (t, ok b)
      → (fs : List Bool) × (k
            (exists (is_locked lease_id due_date) s.db.bills)
            (record s { faults = fs })
          ≡ (t, ok b))
  unfolding has_locked_rent_bills_from_due_date
  has_locked-then lease_id due_date k s {t} {b} h =
      let (fs, locked, e, rest) =
        query-then g (λ db. ok (exists (is_locked lease_id due_date) db.bills)) k s h in
      (fs, subst (λ x. k x (record s { faults = fs }) ≡ (t, ok b)) (sym (ok-injective e)) rest)
