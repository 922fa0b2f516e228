-- ===== src/Tx/Atomic.antt =====
-- A transaction is all or nothing, and its events are published only after the commit.
use stds_backend_go.Prelude.{
  ◌≡◌, refl, ◌≢◌, ◌⊎◌, inl, inr, ℕ, suc, ◌+◌, List, [], ◌∷◌, ◌++◌, Option, none, some, arith,
  Method, sym, ap, ◌∙◌, subst, length,
}
use stds_backend_go.Tx.Runner.{
  TxError, publish_failed, fn_failed, rollback_failed, begin_failed, commit_failed, Sql, World,
  FnResult, publish_next, publish_recorded, after_rollback, after_commit, after_fn, after_begin,
  within_transaction,
}

-- What database/sql documents: an operation that fails to begin and a rollback leave the database as
-- it was, a commit keeps the changes, and a commit that fails keeps none.
pub record IsTransactional {Db E : Type 0} (sql : Sql Db E) : Type 0 where
  pub begins : (db : Db) → (sql.begin db).0 ≡ db
  pub rolls_back : (db now : Db) → (sql.rollback db now).0 ≡ db
  pub commits : (db now : Db) → (sql.commit db now).1 ≡ none → (sql.commit db now).0 ≡ now
  pub discards : (db now : Db) → (sql.commit db now).1 ≢ none → (sql.commit db now).0 ≡ db

module _ {Db Out Ev E : Type 0} (sql : Sql Db E) (publisher : Ev → Method (World Db Out) E)
    (fn : Db → FnResult Db Ev E) (h : IsTransactional sql) where
  -- Nothing has happened, and the caller has an error.
  pub record IsUndone (w : World Db Out) (r : World Db Out × Option (TxError E)) : Type 0 where
    pub world : r.0 ≡ w
    pub error : r.1 ≢ none

  -- The function has succeeded, its changes are in the database, and the events that it recorded
  -- are published after that, in the order in which it recorded them.
  pub record IsCommitted (w : World Db Out) (r : World Db Out × Option (TxError E)) : Type 0 where
    pub fn_error : (fn w.db).error ≡ none
    pub published :
        r ≡ publish_recorded publisher 0 (fn w.db).events (record w { db = (fn w.db).db })

  module _ (w : World Db Out) where
    -- What the theorem says of a result of the transaction.
    abbrev AllOrNothing : World Db Out × Option (TxError E) → Type 0
    AllOrNothing r = IsUndone w r ⊎ IsCommitted w r

    undone :
        (db : Db) (e : TxError E)
        → db ≡ w.db
        → AllOrNothing (record { db = db; out = w.out }, some e)
    undone db e same = inl (record { world = λ i. record w { db = same i }; error = λ n. cc n })

    commit_stage :
        (b : Db × Option E)
        → sql.commit w.db (fn w.db).db ≡ b
        → (fn w.db).error ≡ none
        → AllOrNothing (after_commit publisher (fn w.db).events b w.out)
    unfolding after_commit
    commit_stage (db, some e) at done =
        undone db (commit_failed e) (
          sym (ap (λ x. x.0) at)
          ∙ h.discards w.db (fn w.db).db (λ n. cc (sym n ∙ ap (λ x. x.1) at)))
    commit_stage (db, none) at done =
        let same : db ≡ (fn w.db).db =
          sym (ap (λ x. x.0) at) ∙ h.commits w.db (fn w.db).db (ap (λ x. x.1) at) in
        inr (record {
          fn_error = done;
          published = λ i. publish_recorded publisher 0 (fn w.db).events (record w { db = same i });
        })

    rollback_stage :
        (e : E) (b : Db × Option E) → b.0 ≡ w.db → AllOrNothing (after_rollback e b w.out)
    unfolding after_rollback
    rollback_stage e (db, none) same = undone db (fn_failed e) same
    rollback_stage e (db, some x) same = undone db (rollback_failed x e) same

    fn_stage :
        (e : Option E)
        → (fn w.db).error ≡ e
        → AllOrNothing (after_fn sql publisher w.db (fn w.db).events (fn w.db).db e w.out)
    unfolding after_fn
    fn_stage none at = commit_stage (sql.commit w.db (fn w.db).db) refl at
    fn_stage (some e) at =
        rollback_stage e (sql.rollback w.db (fn w.db).db) (h.rolls_back w.db (fn w.db).db)

    begin_stage :
        (b : Db × Option E) → b.0 ≡ w.db → AllOrNothing (after_begin sql publisher fn b w.out)
    unfolding after_begin
    begin_stage (db, some e) same = undone db (begin_failed e) same
    begin_stage (db, none) same =
        subst (λ x. AllOrNothing (after_begin sql publisher fn (x, none) w.out)) (sym same)
          (fn_stage (fn w.db).error refl)

  -- A transaction either changes nothing, publishes nothing and returns an error, or it commits what
  -- its function did and then publishes the events recorded.
  pub all_or_nothing :
      (w : World Db Out)
      → IsUndone w (within_transaction sql publisher fn w)
        ⊎ IsCommitted w (within_transaction sql publisher fn w)
  unfolding within_transaction
  all_or_nothing w = begin_stage w (sql.begin w.db) (h.begins w.db)

-- The events handed to the publisher one after the other, whatever it returns.
unfoldable pub hand_over :
    {Db Out Ev E : Type 0} → (Ev → Method (World Db Out) E) → List Ev → World Db Out → World Db Out
hand_over publisher [] w = w
hand_over publisher (event ∷ events) w = hand_over publisher events (publisher event w).0

-- What the publication of the events from position i on has done when it returns.
pub data IsDelivered {Db Out Ev E : Type 0} (publisher : Ev → Method (World Db Out) E) (i : ℕ)
    (events : List Ev) (w : World Db Out) (r : World Db Out × Option (TxError E)) : Type 0 where
  -- Every event was published without an error.
  all_published : r ≡ (hand_over publisher events w, none) → IsDelivered publisher i events w r
  -- Those before the event at position j were published, that one failed, and no later one was handed over.
  stopped :
      (before after : List Ev) (event : Ev) (e : E)
      → events ≡ before ++ (event ∷ after)
      → (publisher event (hand_over publisher before w)).1 ≡ some e
      → r ≡ (
        hand_over publisher (before ++ (event ∷ [])) w,
        some (publish_failed (i + length before) e),
      )
      → IsDelivered publisher i events w r

module _ {Db Out Ev E : Type 0} (publisher : Ev → Method (World Db Out) E) where
  IsDelivered-cons :
      (i : ℕ) (event : Ev) (events : List Ev) (w v : World Db Out)
      (r : World Db Out × Option (TxError E))
      → publisher event w ≡ (v, none)
      → IsDelivered publisher (suc i) events v r
      → IsDelivered publisher i (event ∷ events) w r
  unfolding hand_over
  IsDelivered-cons i event events w v r ok (all_published e) =
      all_published (e ∙ ap (λ x. (hand_over publisher events x, none)) (sym (ap (λ x. x.0) ok)))
  IsDelivered-cons i event events w v r ok (stopped before after failed e split fails result) =
      let at : (publisher event w).0 ≡ v = ap (λ x. x.0) ok in
      let position : suc i + length before ≡ i + suc (length before) = omega arith in
      stopped (event ∷ before) after failed e (ap (λ l. event ∷ l) split) (rw at fails) (
        result ∙ (λ t. (
          hand_over publisher (before ++ (failed ∷ [])) (sym at t),
          some (publish_failed (position t) e),
        )))

  publish_next-IsDelivered :
      (i : ℕ) (event : Ev) (events : List Ev) (w : World Db Out) (r : World Db Out × Option E)
      → publisher event w ≡ r
      → ((v : World Db Out)
          → IsDelivered publisher (suc i) events v (publish_recorded publisher (suc i) events v))
      → IsDelivered publisher i
          (event ∷ events)
          w
          (publish_next i r (publish_recorded publisher (suc i) events))
  unfolding publish_next hand_over
  publish_next-IsDelivered i event events w (v, none) at rest =
      IsDelivered-cons i event events w v _ at (rest v)
  publish_next-IsDelivered i event events w (v, some e) at rest =
      let position : i ≡ i + 0 = omega arith in
      stopped [] events event e refl (ap (λ x. x.1) at)
        (rw (ap (λ x. x.0) at) (ap (λ k. (v, some (publish_failed k e))) position))

  -- The events of a committed transaction are published in order up to the first that fails, and
  -- the error names its position; if none fails, every event is published and there is no error.
  pub publish_recorded-IsDelivered :
      (i : ℕ) (events : List Ev) (w : World Db Out)
      → IsDelivered publisher i events w (publish_recorded publisher i events w)
  unfolding publish_recorded hand_over
  publish_recorded-IsDelivered i [] w = all_published refl
  publish_recorded-IsDelivered i (event ∷ events) w =
      publish_next-IsDelivered i event events w (publisher event w) refl
        (publish_recorded-IsDelivered (suc i) events)
