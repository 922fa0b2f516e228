-- ===== src/Db/Steps.antt =====
-- A script that succeeds, taken apart step by step: what each step has found, and the script that is
-- left, in the session after the step.
use stds_backend_go.Prelude.{◌≡◌, refl, Bool, true, false, List, [], ◌∷◌, Result, ok, err}
use stds_backend_go.Db.Rows.{Database}
use stds_backend_go.Db.Script.{
  Session, Script, RepositoryError, go_on, pure, stop_if, catch, map_err, attempt, statement, query,
  ◌>>=◌,
}

module _ {F E : Type 0} {A B : Type 0} where
  -- What is left of a script after a step with the result r.
  pub result-then :
      (r : Result E A) (k : A → Script F E B) (s : Session F) {t : Session F} {b : B}
      → go_on (s, r) k ≡ (t, ok b)
      → (a : A) × (r ≡ ok a) × (k a s ≡ (t, ok b))
  result-then (ok a) k s h = (a, refl, h)
  result-then (err e) k s h = cc h

  pub caught-then :
      {X : Type 0} (g : X → E) (r : Result X A) (k : A → Script F E B) (s : Session F)
      {t : Session F} {b : B}
      → go_on (s, map_err g r) k ≡ (t, ok b)
      → (a : A) × (r ≡ ok a) × (k a s ≡ (t, ok b))
  caught-then g (ok a) k s h = (a, refl, h)
  caught-then g (err e) k s h = cc h

  attempt-then :
      (faults : List Bool) (g : RepositoryError → E) (m : Script F RepositoryError A)
      (k : A → Script F E B) (s : Session F) {t : Session F} {b : B}
      → (catch g (attempt faults m) >>= k) s ≡ (t, ok b)
      → (fs : List Bool) × ((catch g m >>= k) (record s { faults = fs }) ≡ (t, ok b))
  attempt-then [] g m k s h = (s.faults, h)
  attempt-then (true ∷ faults) g m k s h = cc h
  attempt-then (false ∷ faults) g m k s h = (faults, h)

  -- A statement has not failed in the database.
  pub statement-then :
      (g : RepositoryError → E) (m : Script F RepositoryError A) (k : A → Script F E B)
      (s : Session F) {t : Session F} {b : B}
      → (catch g (statement m) >>= k) s ≡ (t, ok b)
      → (fs : List Bool) × ((catch g m >>= k) (record s { faults = fs }) ≡ (t, ok b))
  unfolding statement
  statement-then g m k s h = attempt-then s.faults g m k s h

  pub query-then :
      (g : RepositoryError → E) (f : Database F → Result RepositoryError A) (k : A → Script F E B)
      (s : Session F) {t : Session F} {b : B}
      → (catch g (query f) >>= k) s ≡ (t, ok b)
      → (fs : List Bool) × (a : A) × (f s.db ≡ ok a) × (k a (record s { faults = fs }) ≡ (t, ok b))
  query-then g f k s h =
      let (fs, rest) = statement-then g (λ s. (s, f s.db)) k s h in
      let (a, found, left) = caught-then g (f s.db) k (record s { faults = fs }) rest in
      (fs, a, found, left)

  -- A SELECT whose result a later statement of the same repository call uses.
  pub query-within :
      {C : Type 0} (g : RepositoryError → E) (f : Database F → Result RepositoryError C)
      (m : C → Script F RepositoryError A) (k : A → Script F E B) (s : Session F) {t : Session F}
      {b : B}
      → (catch g (query f >>= m) >>= k) s ≡ (t, ok b)
      → (fs : List Bool) × (c : C) × (f s.db ≡ ok c)
        × ((catch g (m c) >>= k) (record s { faults = fs }) ≡ (t, ok b))
  unfolding statement
  query-within {C} g f m k s {t} {b} h = by_faults s.faults h
    where
      by_result :
          (fs : List Bool) (r : Result RepositoryError C)
          → (catch g (λ u. go_on (u, r) m) >>= k) (record s { faults = fs }) ≡ (t, ok b)
          → (c : C) × (r ≡ ok c) × ((catch g (m c) >>= k) (record s { faults = fs }) ≡ (t, ok b))
      by_result fs (ok c) e = (c, refl, e)
      by_result fs (err x) e = cc e

      by_faults :
          (l : List Bool)
          → (catch g (attempt l (λ u. (u, f u.db)) >>= m) >>= k) s ≡ (t, ok b)
          → (fs : List Bool) × (c : C) × (f s.db ≡ ok c)
            × ((catch g (m c) >>= k) (record s { faults = fs }) ≡ (t, ok b))
      by_faults [] e =
          let (c, found, rest) = by_result s.faults (f s.db) e in (s.faults, c, found, rest)
      by_faults (true ∷ fs) e = cc e
      by_faults (false ∷ fs) e =
          let (c, found, rest) = by_result fs (f s.db) e in (fs, c, found, rest)

module _ {F E B : Type 0} where
  pub stop_if-then :
      (b : Bool) (e : E) (k : Unit {0} → Script F E B) (s : Session F) {t : Session F} {r : B}
      → (stop_if b e >>= k) s ≡ (t, ok r)
      → (b ≡ false) × (k tt s ≡ (t, ok r))
  stop_if-then true e k s h = cc h
  stop_if-then false e k s h = (refl, h)

  -- A script is itself and nothing after it.
  pub go_on-pure : (r : Session F × Result E B) → go_on r (λ b. pure b) ≡ r
  go_on-pure (s, ok b) = refl
  go_on-pure (s, err e) = refl
