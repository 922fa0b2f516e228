-- ===== src/Db/Forced/Passed.antt =====
-- The statements on force terminations in a script that succeeds.
use stds_backend_go.Prelude.{
  ◌≡◌, refl, sym, ap, ◌∙◌, subst, suc, Bool, true, false, ◌&&◌, inl, inr, Bool-cases, String, List,
  [], ◌∷◌, ◌++◌, some, ok, ok-injective,
}
use stds_backend_go.Prelude.Sets.{has}
use stds_backend_go.Db.Table.{some-injective, find, update_where, select}
use stds_backend_go.Db.Rows.{ForceTerminationRow, ForceTerminationBillRow}
use stds_backend_go.Db.Script.{Session, Script, RepositoryError, catch, ◌>>=◌}
use stds_backend_go.Db.Steps.{query-within, statement-then}
use stds_backend_go.Db.Bills.{found-ok}
use stds_backend_go.Db.Leases.{write_off_bills, is_written_off_by, write_off_columns}
use stds_backend_go.Db.Leases.Passed.{change_bills-then}
use stds_backend_go.Db.Forced.{
  Detail, new_force_termination, is_force_termination, has_lease, status_completed, detail_row,
  is_bill_of_force_termination, create_force_termination, create_force_termination_bills,
  mark_force_termination_bills_done, complete_force_termination, find_force_termination_by_id,
}

-- An update that finds no row.
pub none_updated :
    {R : Type 0} (p : R → Bool) (f : R → R) (rows : List R)
    → ((row : R) → p row ≡ false)
    → update_where p f rows ≡ rows
unfolding update_where
none_updated p f [] h = refl
none_updated p f (row ∷ rows) h = rw (h row) (ap (λ l. row ∷ l) (none_updated p f rows h))

-- A row that an update by the same test has left is one that it has written.
pub found_updated :
    {R : Type 0} (q p : R → Bool) (f : R → R) (rows : List R) (row : R)
    → ((r : R) → p (f r) ≡ p r)
    → ((r : R) → q r ≡ true → p r ≡ true)
    → find q (update_where p f rows) ≡ some row
    → (r : R) × (row ≡ f r)
unfolding find update_where
found_updated q p f [] row hp hq e = cc e
found_updated q p f (r ∷ rows) row hp hq e = elim (Bool-cases (p r)) [
  | inl written ↦ elim (Bool-cases (q (f r))) [
    | inl yes_found ↦ (r, sym (some-injective (rw (written, yes_found) at e)))
    | inr other ↦ found_updated q p f rows row hp hq (rw (written, other) at e)
  ]
  | inr kept ↦ elim (Bool-cases (q r)) [
    | inl yes_found ↦ cc (sym (hq r yes_found) ∙ kept)
    | inr other ↦ found_updated q p f rows row hp hq (rw (kept, other) at e)
  ]
]

module _ {F E B : Type 0} (g : RepositoryError → E) where
  pub create_force_termination-then :
      (lease_id initiated_by reason deposit_handling : String)
      (k : ForceTerminationRow → Script F E B) (s : Session F) {t : Session F} {b : B}
      → (catch g (create_force_termination lease_id initiated_by reason deposit_handling) >>= k) s
        ≡ (t, ok b)
      → (fs : List Bool) × (k
            (new_force_termination (s.ids s.drawn) lease_id initiated_by reason deposit_handling)
            (record s {
              db = record s.db {
                force_terminations =
                    s.db.force_terminations
                    ++ (new_force_termination
                          (s.ids s.drawn)
                          lease_id
                          initiated_by
                          reason
                          deposit_handling
                        ∷ []);
              };
              drawn = suc s.drawn;
              faults = fs;
            })
          ≡ (t, ok b))
  unfolding create_force_termination
  create_force_termination-then lease_id initiated_by reason deposit_handling k s h =
      statement-then g
        (λ (s : Session F).
          let row =
            new_force_termination (s.ids s.drawn) lease_id initiated_by reason deposit_handling in
          (
            record s {
              db = record s.db { force_terminations = s.db.force_terminations ++ (row ∷ []) };
              drawn = suc s.drawn;
            },
            ok row,
          ))
        k s h

  pub create_force_termination_bills-then :
      (id : String) (bill_ids : List String) (k : Unit {0} → Script F E B) (s : Session F)
      {t : Session F} {b : B}
      → (catch g (create_force_termination_bills id bill_ids) >>= k) s ≡ (t, ok b)
      → (fs : List Bool) × (rows : List ForceTerminationBillRow) × (k tt
            (record s { db = record s.db { force_termination_bills = rows }; faults = fs })
          ≡ (t, ok b))
  unfolding create_force_termination_bills
  create_force_termination_bills-then id [] k s h = (s.faults, s.db.force_termination_bills, h)
  create_force_termination_bills-then id (bill_id ∷ bill_ids) k s h =
      let (fs, rest) = statement-then g _ k s h in (fs, _, rest)

  pub mark_force_termination_bills_done-then :
      (id : String) (bill_ids : List String) (k : Unit {0} → Script F E B) (s : Session F)
      {t : Session F} {b : B}
      → (catch g (mark_force_termination_bills_done id bill_ids) >>= k) s ≡ (t, ok b)
      → (fs : List Bool) × (rows : List ForceTerminationBillRow) × (k tt
            (record s { db = record s.db { force_termination_bills = rows }; faults = fs })
          ≡ (t, ok b))
  unfolding mark_force_termination_bills_done
  mark_force_termination_bills_done-then id [] k s h = (s.faults, s.db.force_termination_bills, h)
  mark_force_termination_bills_done-then id (bill_id ∷ bill_ids) k s h =
      let (fs, rest) = statement-then g _ k s h in (fs, _, rest)

  pub write_off_bills-then :
      (bill_ids : List String) (reason : String) (k : Unit {0} → Script F E B) (s : Session F)
      {t : Session F} {b : B}
      → (catch g (write_off_bills bill_ids reason) >>= k) s ≡ (t, ok b)
      → (fs : List Bool) × (k tt (record s {
        db = record s.db {
          bills =
              update_where (is_written_off_by bill_ids) (write_off_columns reason s.now) s.db.bills;
        };
        faults = fs;
      })
          ≡ (t, ok b))
  unfolding write_off_bills has
  write_off_bills-then [] reason k s {t} {b} h = (
    s.faults,
    subst (λ l. k tt (record s { db = record s.db { bills = l } }) ≡ (t, ok b))
        (sym (
          none_updated (is_written_off_by []) (write_off_columns reason s.now) s.db.bills
            (λ row. refl)))
        h,
  )
  write_off_bills-then (bill_id ∷ bill_ids) reason k s h =
      change_bills-then g (is_written_off_by (bill_id ∷ bill_ids)) (write_off_columns reason s.now)
        k s h

  pub complete_force_termination-then :
      (id : String) (k : Unit {0} → Script F E B) (s : Session F) {t : Session F} {b : B}
      → (catch g (complete_force_termination id) >>= k) s ≡ (t, ok b)
      → (fs : List Bool) × (k tt (record s {
        db = record s.db {
          force_terminations =
              update_where
                (is_force_termination id)
                (λ (row : ForceTerminationRow). record row { status = status_completed })
                s.db.force_terminations;
        };
        faults = fs;
      })
          ≡ (t, ok b))
  unfolding complete_force_termination
  complete_force_termination-then id k s h = statement-then g _ k s h

  pub find_force_termination_by_id-then :
      (id : String) (k : Detail → Script F E B) (s : Session F) {t : Session F} {b : B}
      → (catch g (find_force_termination_by_id id) >>= k) s ≡ (t, ok b)
      → (fs : List Bool) × (row : ForceTerminationRow) × (find
            (λ (row : ForceTerminationRow).
              is_force_termination id row && has_lease s.db.leases row)
            s.db.force_terminations
          ≡ some row)
        × (k
              (row, select (is_bill_of_force_termination id) s.db.force_termination_bills)
              (record s { faults = fs })
            ≡ (t, ok b))
  unfolding find_force_termination_by_id
  find_force_termination_by_id-then id k s {t} {b} h =
      let (fs, row, e, rest) = query-within g (detail_row id) _ k s h in
      let (fs2, bills, e2, last) =
        query-within g
          (λ db. ok (select (is_bill_of_force_termination id) db.force_termination_bills)) _ k
          (record s { faults = fs }) rest in
      (
        fs2,
        row,
        found-ok _ e,
        subst (λ l. k (row, l) (record s { faults = fs2 }) ≡ (t, ok b)) (sym (ok-injective e2))
            last,
      )
