-- ===== src/Services/Leases/Books.antt =====
-- The entries and events of a settled deposit.
use stds_backend_go.Prelude.{
  ◌≡◌, refl, sym, ap, ◌∙◌, subst, Bool, true, false, String, List, [], ◌∷◌, ◌++◌, some, ok,
  if◌then◌else◌,
}
use mathlib.Core.List.{append-nil}
use stds_backend_go.Prelude.Int.{ℤ, pos, ltb_ℤ, sub_int}
use stds_backend_go.GoTime.{Time}
use stds_backend_go.Db.Table.{find}
use stds_backend_go.Db.Rows.{
  LeaseRow, AccountRow, EntryRow, Event, deposit_refunded_event, deposit_deducted_event,
}
use stds_backend_go.Db.Script.{Session, Script, pure, record_if, >>=-ok, ◌>>=◌}
use stds_backend_go.Db.Steps.{go_on-pure}
use stds_backend_go.Db.Bills.{is_account}
use stds_backend_go.Db.Bills.Passed.{create_accounting_entry-then}
use stds_backend_go.Services.Leases.Errors.{ServiceError, internal}
use stds_backend_go.Services.Leases.Deposit.{
  refund_entry, deduction_entry, entry_if, record_deposit_accounting_entries, book_deposit,
}

-- The entries before and after the entry that is made if `b` holds.
pub data IsEntered (b : Bool) (accounts : List AccountRow) (property_id : String) (entry : EntryRow)
    (before after : List EntryRow) : Type 0 where
  no_entry : b ≡ false → after ≡ before → IsEntered b accounts property_id entry before after
  one_entry :
      b ≡ true
      → (account : AccountRow) → find (is_account property_id) accounts ≡ some account
      → after ≡ before ++ (record entry { property_account_id = account.id } ∷ [])
      → IsEntered b accounts property_id entry before after

module _ {F : Type 0} where
  abbrev pub with_entries : List EntryRow → List Bool → Session F → Session F
  with_entries entries fs s = record s {
    db = record s.db { accounting_entries = entries };
    faults = fs;
  }

  pub entry_if-ok :
      (b : Bool) (property_id : String) (entry : EntryRow) (s : Session F) {t : Session F}
      {u : Unit {0}}
      → entry_if b property_id entry s ≡ (t, ok u)
      → (fs : List Bool) × (after : List EntryRow) × IsEntered b s.db.property_accounts property_id
          entry s.db.accounting_entries after
        × (t ≡ with_entries after fs s)
  unfolding entry_if
  entry_if-ok false property_id entry s h =
      (s.faults, s.db.accounting_entries, no_entry refl refl, sym (ap (λ r. r.0) h))
  entry_if-ok true property_id entry s h =
      let (fs, account, account_found, _, last) =
        create_accounting_entry-then internal property_id entry (λ a. pure a) s
          (go_on-pure _ ∙ h) in
      (fs, _, one_entry refl account account_found refl, sym (ap (λ r. r.0) last))

  record_if-then :
      {E B : Type 0} (b : Bool) (event : Event F) (k : Unit {0} → Script F E B) (s : Session F)
      {t : Session F} {r : B}
      → (record_if b event >>= k) s ≡ (t, ok r)
      → k tt (record s { events = s.events ++ (if b then event ∷ [] else []) }) ≡ (t, ok r)
  record_if-then true event k s h = h
  record_if-then false event k s {t} {r} h =
      subst (λ l. k tt (record s { events = l }) ≡ (t, ok r)) (sym (append-nil s.events)) h

  record_if-ok :
      {E : Type 0} (b : Bool) (event : Event F) (s : Session F) {t : Session F} {u : Unit {0}}
      → record_if {E = E} b event s ≡ (t, ok u)
      → t ≡ record s { events = s.events ++ (if b then event ∷ [] else []) }
  record_if-ok {E} b event s h = sym (
      ap (λ r. r.0)
        (record_if-then {E = E} b event (λ a. pure a) s
          (go_on-pure (record_if {E = E} b event s) ∙ h)))

  -- A settlement by the refund and the deduction, booked and announced: an entry and an event for
  -- each amount that is not 0.
  pub record IsSettlementBooked (lease : LeaseRow) (refund deduction : ℤ) (reason : String)
      (occurred_at : Time) (s t : Session F) : Type 0 where
    pub between : List EntryRow
    pub refund_entered :
        IsEntered
          (ltb_ℤ (pos 0) refund)
          s.db.property_accounts
          lease.state.property_id
          (refund_entry lease.state.id refund occurred_at)
          s.db.accounting_entries
          between
    pub deduction_entered :
        IsEntered
          (ltb_ℤ (pos 0) deduction)
          s.db.property_accounts
          lease.state.property_id
          (deduction_entry lease.state.id deduction reason occurred_at)
          between
          t.db.accounting_entries
    pub events :
        t.events
        ≡ (s.events
            ++ (if ltb_ℤ (pos 0) refund
                then deposit_refunded_event lease.state.id lease.state.property_id refund
                    occurred_at
                  ∷ []
                else []))
          ++ (if ltb_ℤ (pos 0) deduction
              then deposit_deducted_event lease.state.id lease.state.property_id deduction reason
                  occurred_at
                ∷ []
              else [])
    pub amounts :
        ((refund_entry lease.state.id refund occurred_at).amount ≡ sub_int (pos 0) refund)
        × ((deduction_entry lease.state.id deduction reason occurred_at).amount ≡ deduction)
    pub faults : List Bool
    pub session : t ≡ record (with_entries t.db.accounting_entries faults s) { events = t.events }

  pub book_deposit-IsSettlementBooked :
      (lease : LeaseRow) (refund deduction : ℤ) (reason : String) (occurred_at : Time)
      (s : Session F) {t : Session F} {u : Unit {0}}
      → book_deposit lease refund deduction reason occurred_at s ≡ (t, ok u)
      → IsSettlementBooked lease refund deduction reason occurred_at s t
  unfolding book_deposit record_deposit_accounting_entries refund_entry deduction_entry
  book_deposit-IsSettlementBooked lease refund deduction reason occurred_at s {t} h =
      let (s2, _, entered, rest) =
        >>=-ok (record_deposit_accounting_entries lease refund deduction reason occurred_at) _ s
          h in
      let (s1, _, first, second) =
        >>=-ok
          (entry_if (ltb_ℤ (pos 0) refund) lease.state.property_id
            (refund_entry lease.state.id refund occurred_at))
          _ s entered in
      let (fs1, between, refund_entered, at1) = entry_if-ok _ _ _ s first in
      let (fs2, after, deduction_entered, at2) =
        entry_if-ok (ltb_ℤ (pos 0) deduction) lease.state.property_id
          (deduction_entry lease.state.id deduction reason occurred_at) (with_entries between fs1 s)
          (subst
            (λ x.
              entry_if (ltb_ℤ (pos 0) deduction) lease.state.property_id
                (deduction_entry lease.state.id deduction reason occurred_at) x
              ≡ (s2, ok tt))
            at1 second) in
      let s2_is : s2 ≡ with_entries after fs2 s = at2 in
      let done =
        record_if-then (ltb_ℤ (pos 0) refund)
          (deposit_refunded_event lease.state.id lease.state.property_id refund occurred_at) _ s2
          rest in
      let t_is =
        record_if-ok {E = ServiceError} (ltb_ℤ (pos 0) deduction)
          (deposit_deducted_event lease.state.id lease.state.property_id deduction reason
            occurred_at)
          _ done in
      let t_at =
        ap
          (λ (x : Session F). record x {
            events =
                (x.events
                  ++ (if ltb_ℤ (pos 0) refund
                      then deposit_refunded_event lease.state.id lease.state.property_id refund
                          occurred_at
                        ∷ []
                      else []))
                ++ (if ltb_ℤ (pos 0) deduction
                    then deposit_deducted_event lease.state.id lease.state.property_id deduction
                        reason occurred_at
                      ∷ []
                    else []);
          })
          s2_is in
      let whole = t_is ∙ t_at in
      record {
        between = between;
        amounts = (refl, refl);
        refund_entered = refund_entered;
        deduction_entered =
            subst
              (λ l.
                IsEntered (ltb_ℤ (pos 0) deduction) s.db.property_accounts lease.state.property_id
                  (deduction_entry lease.state.id deduction reason occurred_at) between l)
              (sym (ap (λ x. x.db.accounting_entries) whole)) deduction_entered;
        events = ap (λ x. x.events) whole;
        faults = fs2;
        session =
            whole
            ∙ sym (
                ap (λ x. record (with_entries x.db.accounting_entries fs2 s) { events = x.events })
                  whole);
      }

  pub book_deposit-then :
      {B : Type 0} (lease : LeaseRow) (refund deduction : ℤ) (reason : String) (occurred_at : Time)
      (k : Unit {0} → Script F ServiceError B) (s : Session F) {t : Session F} {b : B}
      → (book_deposit lease refund deduction reason occurred_at >>= k) s ≡ (t, ok b)
      → (u : Session F) × IsSettlementBooked lease refund deduction reason occurred_at s u
        × (k tt u ≡ (t, ok b))
  book_deposit-then lease refund deduction reason occurred_at k s h =
      let (u, _, entered, last) =
        >>=-ok (book_deposit lease refund deduction reason occurred_at) k s h in
      (u, book_deposit-IsSettlementBooked lease refund deduction reason occurred_at s entered, last)
