-- ===== src/Db/Table.antt =====
-- Tables as lists of rows, and what SELECT, UPDATE and INSERT do to one.
use stds_backend_go.Prelude.{
  subst, sym, ◌∙◌, inl, inr, Bool-cases, ◌≡◌, refl, Bool, true, false, ◌||◌, List, [], ◌∷◌, ◌++◌,
  Option, none, some, if◌then◌else◌, All,
}

pub some-injective {ℓ} : {A : Type ℓ} {a b : A} → ◌≡◌ {A = Option A} (some a) (some b) → a ≡ b
some-injective h = cc h

or_right : (b : Bool) {c : Bool} → c ≡ true → (b || c) ≡ true
or_right true h = refl
or_right false h = h

module _ {ℓ} {R : Type ℓ} where
  -- `SELECT ... WHERE p LIMIT 1`.
  unfoldable pub find : (R → Bool) → List R → Option R
  find p [] = none
  find p (row ∷ rows) = let rest = find p rows in if p row then some row else rest

  -- `UPDATE ... SET f WHERE p`.
  unfoldable pub update_where : (R → Bool) → (R → R) → List R → List R
  update_where p f [] = []
  update_where p f (row ∷ rows) = (if p row then f row else row) ∷ update_where p f rows

  -- `SELECT ... WHERE p`.
  unfoldable pub select : (R → Bool) → List R → List R
  select p [] = []
  select p (row ∷ rows) = let rest = select p rows in if p row then row ∷ rest else rest

  -- `SELECT EXISTS (... WHERE p)`.
  unfoldable pub exists : (R → Bool) → List R → Bool
  exists p [] = false
  exists p (row ∷ rows) = p row || exists p rows

  -- The row that is found passes the test.
  pub find-holds : (p : R → Bool) (rows : List R) (row : R) → find p rows ≡ some row → p row ≡ true
  unfolding find
  find-holds p [] row e = cc
  find-holds p (r ∷ rows) row e = elim (Bool-cases (p r)) [
    | inl yes_found ↦ subst (λ x. p x ≡ true) (some-injective (rw yes_found at e)) yes_found
    | inr other ↦ find-holds p rows row (rw other at e)
  ]

  pub exists_of_find :
      (p q : R → Bool) (rows : List R) (row : R)
      → find p rows ≡ some row
      → q row ≡ true
      → exists q rows ≡ true
  unfolding find exists
  exists_of_find p q [] row e h = cc
  exists_of_find p q (r ∷ rows) row e h = elim (Bool-cases (p r)) [
    | inl yes_found ↦ rw (subst (λ x. q x ≡ true) (sym (some-injective (rw yes_found at e))) h) refl
    | inr other ↦ or_right (q r) (exists_of_find p q rows row (rw other at e) h)
  ]

  -- Looking up a row after an update, if the test does not read what is written.
  pub find-update_where :
      (q p : R → Bool) (f : R → R) (rows : List R) (row : R)
      → ((r : R) → q (f r) ≡ q r)
      → find q rows ≡ some row
      → find q (update_where p f rows) ≡ some (if p row then f row else row)
  unfolding find update_where
  find-update_where q p f [] row h e = cc
  find-update_where q p f (r ∷ rows) row h e = elim (Bool-cases (q r)) [
    | inl yes_found ↦
        let same : q (if p r then f r else r) ≡ true = written (p r) yes_found in
        rw (same, some-injective (rw yes_found at e)) refl
    | inr other ↦
        let same : q (if p r then f r else r) ≡ false = written (p r) other in
        rw same (find-update_where q p f rows row h (rw other at e))
  ]
    where
      written : (b : Bool) {c : Bool} → q r ≡ c → q (if b then f r else r) ≡ c
      written true k = h r ∙ k
      written false k = k

  -- What holds of the rows that are written and of the others holds of all.
  pub All-update_where {κ} :
      {P : R → Type κ} (Q : R → Type κ) (p : R → Bool) (f : R → R) (rows : List R)
      → ((r : R) → P r → p r ≡ true → Q (f r))
      → ((r : R) → P r → p r ≡ false → Q r)
      → All P rows
      → All Q (update_where p f rows)
  unfolding update_where
  All-update_where Q p f [] hw hk a = tt
  All-update_where Q p f (r ∷ rows) hw hk (a, rest) =
      (written (p r) refl, All-update_where Q p f rows hw hk rest)
    where
      written : (b : Bool) → p r ≡ b → Q (if b then f r else r)
      written true e = hw r a e
      written false e = hk r a e

  -- A row that is not written is found as before.
  pub find-update_other :
      (q p : R → Bool) (f : R → R) (rows : List R) (row : R)
      → ((r : R) → q (f r) ≡ q r)
      → find q rows ≡ some row
      → p row ≡ false
      → find q (update_where p f rows) ≡ some row
  find-update_other q p f rows row keeps was_found other =
      rw other at (find-update_where q p f rows row keeps was_found)

  -- A row that is found is found among more rows.
  pub find-++ :
      (q : R → Bool) (rows more : List R) (row : R)
      → find q rows ≡ some row
      → find q (rows ++ more) ≡ some row
  unfolding find
  find-++ q [] more row e = cc
  find-++ q (r ∷ rows) more row e = elim (Bool-cases (q r)) [
    | inl yes_found ↦ rw yes_found (rw yes_found at e)
    | inr other ↦ rw other (find-++ q rows more row (rw other at e))
  ]
