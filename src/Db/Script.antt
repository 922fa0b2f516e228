-- ===== src/Db/Script.antt =====
-- A function that runs in a transaction: it sends statements one after the other, records events, and
-- returns a value or an error, at the first error. Any statement may fail in the database; the
-- `faults` of a session say which do. A statement that fails changes nothing.
use stds_backend_go.Prelude.{
  ◌≡◌, refl, ap, ℕ, Bool, true, false, String, List, [], ◌∷◌, ◌++◌, Result, ok, err,
}
use stds_backend_go.GoTime.{Time}
use stds_backend_go.Db.Rows.{Database, Event}

-- `now` is the time at which the transaction began, `ids` are the identifiers that the database draws,
-- of which the next one has the position `drawn`.
pub record Session (F : Type 0) : Type 0 where
  pub db : Database F
  pub events : List (Event F)
  pub faults : List Bool
  pub now : Time
  pub ids : ℕ → String
  pub drawn : ℕ

-- What a statement of a repository returns but for its value: the error that no row was found, that
-- an update with a version matched none, or any other.
pub data RepositoryError : Type 0 where
  not_found concurrent_update other_error : RepositoryError

abbrev pub Script : Type 0 → Type 0 → Type 0 → Type 0
Script F E A = Session F → Session F × Result E A

module _ {F E : Type 0} where
  abbrev pub pure : {A : Type 0} → A → Script F E A
  pure a s = (s, ok a)

  abbrev pub fail : {A : Type 0} → E → Script F E A
  fail e s = (s, err e)

  abbrev pub go_on :
      {A B : Type 0} → Session F × Result E A → (A → Script F E B) → Session F × Result E B
  go_on (s, ok a) f = f a s
  go_on (s, err e) f = (s, err e)

  infixl 5 ◌>>=◌ ◌>>◌
  abbrev pub ◌>>=◌ : {A B : Type 0} → Script F E A → (A → Script F E B) → Script F E B
  ◌>>=◌ m f s = go_on (m s) f

  abbrev pub ◌>>◌ : {B : Type 0} → Script F E (Unit {0}) → Script F E B → Script F E B
  m >> k = m >>= λ _. k

  -- `if b { return e }`
  abbrev pub stop_if : Bool → E → Script F E (Unit {0})
  stop_if true e s = (s, err e)
  stop_if false e s = (s, ok tt)

  -- A computation that does not touch the session.
  abbrev pub lift : {A : Type 0} → Result E A → Script F E A
  lift r s = (s, r)

  -- `recorder.Record(event)`
  abbrev pub record_event : Event F → Script F E (Unit {0})
  record_event event s = (record s { events = s.events ++ (event ∷ []) }, ok tt)

  abbrev pub record_if : Bool → Event F → Script F E (Unit {0})
  record_if true event s = record_event event s
  record_if false event s = (s, ok tt)

abbrev pub map_err : {E E' A : Type 0} → (E → E') → Result E A → Result E' A
map_err f (ok a) = ok a
map_err f (err e) = err (f e)

-- `if err != nil { return f(err) }`
abbrev pub catch : {F E E' A : Type 0} → (E → E') → Script F E A → Script F E' A
catch f m s = let (t, r) = m s in (t, map_err f r)

module _ {F : Type 0} where
  abbrev pub attempt :
      {A : Type 0} → List Bool → Script F RepositoryError A → Script F RepositoryError A
  attempt [] m s = m s
  attempt (true ∷ faults) m s = (record s { faults = faults }, err other_error)
  attempt (false ∷ faults) m s = m (record s { faults = faults })

  -- One statement: `m` is what it does where the database does not fail.
  unfoldable pub statement : {A : Type 0} → Script F RepositoryError A → Script F RepositoryError A
  statement m s = attempt s.faults m s

  -- A SELECT.
  abbrev pub query :
      {A : Type 0} → (Database F → Result RepositoryError A) → Script F RepositoryError A
  query f = statement (λ s. (s, f s.db))

  -- A statement that writes.
  abbrev pub command :
      {A : Type 0}
      → (Database F → Database F × Result RepositoryError A)
      → Script F RepositoryError A
  command f = statement (λ s. let (db, r) = f s.db in (record s { db = db }, r))

module _ {F E : Type 0} where
  went_on :
      {A B : Type 0} (r : Session F × Result E A) (f : A → Script F E B) {t : Session F} {b : B}
      → go_on r f ≡ (t, ok b)
      → (u : Session F) × (a : A) × (r ≡ (u, ok a)) × (f a u ≡ (t, ok b))
  went_on (u, ok a) f h = (u, a, refl, h)
  went_on (u, err x) f h = cc h

  caught :
      {E' A : Type 0} (g : E → E') (r : Session F × Result E A) {t : Session F} {a : A}
      → ◌≡◌ {A = Session F × Result E' A} (r.0, map_err g r.1) (t, ok a)
      → r ≡ (t, ok a)
  caught g (u, ok x) h = cc h
  caught g (u, err x) h = cc h

  -- A script that succeeds has passed its first step.
  pub >>=-ok :
      {A B : Type 0} (m : Script F E A) (f : A → Script F E B) (s : Session F) {t : Session F}
      {b : B}
      → (m >>= f) s ≡ (t, ok b)
      → (u : Session F) × (a : A) × (m s ≡ (u, ok a)) × (f a u ≡ (t, ok b))
  >>=-ok m f s h = went_on (m s) f h

  pub catch-ok :
      {E' A : Type 0} (g : E → E') (m : Script F E A) (s : Session F) {t : Session F} {a : A}
      → catch g m s ≡ (t, ok a)
      → m s ≡ (t, ok a)
  catch-ok g m s h = caught g (m s) h

  pub stop_if-ok :
      (b : Bool) (e : E) (s : Session F) {t : Session F} {u : Unit {0}}
      → stop_if b e s ≡ (t, ok u)
      → (b ≡ false) × (s ≡ t)
  stop_if-ok true e s h = cc h
  stop_if-ok false e s h = (refl, ap (λ r. r.0) h)
