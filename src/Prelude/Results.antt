-- ===== src/Prelude/Results.antt =====
-- Go's `(T, error)` and a method on a pointer receiver that returns `error`.
use mathlib.Core.Path.{◌≡◌, refl}
use mathlib.Core.Bool.{Bool, true, false}
use stds_backend_go.Prelude.Tests.{if◌then◌else◌}
use mathlib.Core.Option.{Option, none, some}

-- The value is there exactly where the error is nil.
pub data Result {ℓ} (E : Type 0) (A : Type ℓ) : Type ℓ where
  ok : A → Result E A
  err : E → Result E A

infixl 5 ◌>>=◌ ◌>>◌
abbrev pub ◌>>=◌ {ℓ κ} :
    {E : Type 0} {A : Type ℓ} {B : Type κ} → Result E A → (A → Result E B) → Result E B
ok a >>= f = f a
err e >>= f = err e

abbrev pub ◌>>◌ {ℓ} : {E : Type 0} {B : Type ℓ} → Result E (Unit {0}) → Result E B → Result E B
m >> k = m >>= λ _. k

-- `if b { return e }`
abbrev pub fail_if : {E : Type 0} → Bool → E → Result E (Unit {0})
fail_if true e = err e
fail_if false e = ok tt

-- A chain that succeeds has passed its first step.
pub >>=-inverts {ℓ κ} :
    {E : Type 0} {A : Type ℓ} {B : Type κ} {result : B} (step : Result E A) (rest : A → Result E B)
    → (step >>= rest) ≡ ok result
    → (value : A) × (step ≡ ok value) × (rest value ≡ ok result)
>>=-inverts (err e) rest done = cc
>>=-inverts (ok value) rest done = (value, refl, done)

pub ok-injective {ℓ} :
    {E : Type 0} {A : Type ℓ} {a b : A} → ◌≡◌ {A = Result E A} (ok a) (ok b) → a ≡ b
ok-injective h = cc

-- A method that writes through its receiver: the receiver after the call, and the error. What was
-- written before a return with an error stays written.
abbrev pub Method : Type 0 → Type 0 → Type 0
Method S E = S → S × Option E

module _ {S E : Type 0} where
  abbrev pub return_nil : Method S E
  return_nil s = (s, none)

  abbrev pub write : (S → S) → Method S E
  write f s = (f s, none)

  abbrev pub return_err : E → Method S E
  return_err e s = (s, some e)

  -- `if err := m(); err != nil { return err }; k()`
  abbrev pub run_then : S × Option E → Method S E → S × Option E
  run_then (s, none) k = k s
  run_then (s, some e) k = (s, some e)

  infixl 6 ◌▸◌
  abbrev pub ◌▸◌ : Method S E → Method S E → Method S E
  ◌▸◌ m k s = run_then (m s) k

-- P holds of the receiver after the call. The rules take a method's branches one by one.
pub record Leaves {ℓ} {S E : Type 0} (P : S → Type ℓ) (r : S × Option E) : Type ℓ where
  pub holds : P r.0

module _ {ℓ} {S E : Type 0} {P : S → Type ℓ} where
  pub Leaves-if :
      (b : Bool) (x y : S × Option E) → Leaves P x → Leaves P y → Leaves P (if b then x else y)
  Leaves-if true x y hx hy = hx
  Leaves-if false x y hx hy = hy

  pub Leaves-pair : {s : S} {e : Option E} → P s → Leaves P (s, e)
  Leaves-pair h = record { holds = h }

  pub Leaves-then :
      (m k : Method S E) (s : S)
      → Leaves P (m s)
      → ((t : S) → P t → Leaves P (k t))
      → Leaves P ((m ▸ k) s)
  Leaves-then m k s hm hk = go (m s) hm
    where
      go : (r : S × Option E) → Leaves P r → Leaves P (run_then r k)
      go (t, none) h = hk t h.holds
      go (t, some e) h = h

-- The method keeps P, whatever it returns.
pub record Keeps {ℓ} {S E : Type 0} (P : S → Type ℓ) (m : Method S E) : Type ℓ where
  pub keeps : (s : S) → P s → Leaves P (m s)

module _ {ℓ} {S E : Type 0} {P : S → Type ℓ} where
  pub Keeps-method : (m : Method S E) → ((s : S) → P s → Leaves P (m s)) → Keeps P m
  Keeps-method m h = record { keeps = h }

  pub Keeps-then : {m k : Method S E} → Keeps P m → Keeps P k → Keeps P (m ▸ k)
  Keeps-then {m} {k} hm hk = record { keeps = λ s h. Leaves-then m k s (hm.keeps s h) hk.keeps }

pub ruleset leaves_rules = (Leaves-if, Leaves-pair)
