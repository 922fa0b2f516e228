-- ===== src/Prelude/Int.antt =====
-- Go's `int` (64 bits, two's complement) as the integer that it stands for.
use Prim.Native.Nat.{ℕ, suc, ◌+◌, ◌-◌, ◌*◌, ◌%◌, ◌≤◌, ◌<◌}
use mathlib.Core.Path.{◌≡◌, refl}
use mathlib.Core.Bool.{Bool, true, false}
use native.Mathlib.Omega.{arith}
use stds_backend_go.Prelude.Tests.{ltb, leb, if◌then◌else◌}

-- `negsuc n` is -(n + 1).
pub data ℤ : Type 0 where
  pos : ℕ → ℤ
  negsuc : ℕ → ℤ

abbrev pub pos_part : ℤ → ℕ
pos_part (pos n) = n
pos_part (negsuc n) = 0

abbrev pub neg_part : ℤ → ℕ
neg_part (pos n) = 0
neg_part (negsuc n) = suc n

-- a - b, as an integer.
abbrev pub sub_ℕ : ℕ → ℕ → ℤ
sub_ℕ a b = if leb b a then pos (a - b) else negsuc (b - a - 1)

abbrev pub ltb_ℤ : ℤ → ℤ → Bool
ltb_ℤ a b = ltb (pos_part a + neg_part b) (pos_part b + neg_part a)

abbrev pub leb_ℤ : ℤ → ℤ → Bool
leb_ℤ a b = leb (pos_part a + neg_part b) (pos_part b + neg_part a)

abbrev pub eqb_ℤ : ℤ → ℤ → Bool
eqb_ℤ a b = if leb_ℤ a b then leb_ℤ b a else false

pub eq_of_eqb_ℤ : (a b : ℤ) → eqb_ℤ a b ≡ true → a ≡ b
eq_of_eqb_ℤ (pos m) (pos n) h = ground arith
eq_of_eqb_ℤ (pos m) (negsuc n) h = ground arith
eq_of_eqb_ℤ (negsuc m) (pos n) h = ground arith
eq_of_eqb_ℤ (negsuc m) (negsuc n) h = ground arith

infix 50 ◌≤ℤ◌ ◌<ℤ◌
abbrev pub ◌≤ℤ◌ : ℤ → ℤ → Type 0
a ≤ℤ b = pos_part a + neg_part b ≤ pos_part b + neg_part a

abbrev pub ◌<ℤ◌ : ℤ → ℤ → Type 0
a <ℤ b = pos_part a + neg_part b < pos_part b + neg_part a

infixl 65 ◌+ℤ◌ ◌-ℤ◌
infixl 70 ◌*ℤ◌
unfoldable pub ◌+ℤ◌ : ℤ → ℤ → ℤ
a +ℤ b = sub_ℕ (pos_part a + pos_part b) (neg_part a + neg_part b)

unfoldable pub ◌-ℤ◌ : ℤ → ℤ → ℤ
a -ℤ b = sub_ℕ (pos_part a + neg_part b) (neg_part a + pos_part b)

pub +ℤ_parts :
    (a b : ℤ)
    → pos_part (a +ℤ b) + neg_part a + neg_part b ≡ neg_part (a +ℤ b) + pos_part a + pos_part b
unfolding ◌+ℤ◌
+ℤ_parts a b = ground arith

pub -ℤ_parts :
    (a b : ℤ)
    → pos_part (a -ℤ b) + neg_part a + pos_part b ≡ neg_part (a -ℤ b) + pos_part a + neg_part b
unfolding ◌-ℤ◌
-ℤ_parts a b = ground arith

pub eq_of_parts : (a b : ℤ) → pos_part a + neg_part b ≡ pos_part b + neg_part a → a ≡ b
eq_of_parts a b h = ground arith

pub ruleset int_laws = (arith, +ℤ_parts, -ℤ_parts, eq_of_parts)

-- 2 ^ 63 and 2 ^ 64.
abbrev pub half_range : ℕ
half_range = 9223372036854775808

abbrev pub full_range : ℕ
full_range = 18446744073709551616

-- The values of `int`.
abbrev pub InInt : ℤ → Type 0
InInt (pos n) = n < half_range
InInt (negsuc n) = n < half_range

-- The bit pattern of an integer, and the `int` that a bit pattern stands for.
abbrev pub to_bits : ℤ → ℕ
to_bits (pos n) = n % full_range
to_bits (negsuc n) = full_range - 1 - n % full_range

abbrev pub of_bits : ℕ → ℤ
of_bits u = if ltb u half_range then pos u else negsuc (full_range - 1 - u)

unfoldable pub wrap : ℤ → ℤ
wrap a = of_bits (to_bits a)

-- `a + b`, `a - b` on `int`: they wrap around.
unfoldable pub add_int : ℤ → ℤ → ℤ
add_int a b = wrap (a +ℤ b)

unfoldable pub sub_int : ℤ → ℤ → ℤ
sub_int a b = wrap (a -ℤ b)

unfoldable pub ◌*ℤ◌ : ℤ → ℤ → ℤ
pos a *ℤ pos b = pos (a * b)
pos a *ℤ negsuc b = sub_ℕ 0 (a * suc b)
negsuc a *ℤ pos b = sub_ℕ 0 (suc a * b)
negsuc a *ℤ negsuc b = pos (suc a * suc b)

-- `a * b` on `int`.
unfoldable pub mul_int : ℤ → ℤ → ℤ
mul_int a b = wrap (a *ℤ b)

pub wrap_id : (a : ℤ) → InInt a → wrap a ≡ a
unfolding wrap
wrap_id (pos n) h = ground arith
wrap_id (negsuc n) h = ground arith

-- A sum of two non-negative `int`s that comes out non-negative has not wrapped.
pub add_int_nonneg :
    (a b : ℕ) {c : ℕ}
    → a < half_range
    → b < half_range
    → add_int (pos a) (pos b) ≡ pos c
    → a + b ≡ c
unfolding add_int wrap ◌+ℤ◌
add_int_nonneg a b p q h = ground arith

pub add_int_fits : (a b : ℕ) → a + b < half_range → add_int (pos a) (pos b) ≡ pos (a + b)
unfolding add_int wrap ◌+ℤ◌
add_int_fits a b h = ground arith

pub wrap_half :
    (n : ℕ) → half_range ≤ n → n < full_range → wrap (pos n) ≡ negsuc (full_range - 1 - n)
unfolding wrap
wrap_half n h k = ground arith

pub mul_int_pos : (a b : ℕ) → mul_int (pos a) (pos b) ≡ wrap (pos (a * b))
unfolding mul_int ◌*ℤ◌
mul_int_pos a b = refl

pub sub_int_one : (n : ℕ) → n < half_range → sub_int (pos (suc n)) (pos 1) ≡ pos n
unfolding sub_int wrap ◌-ℤ◌
sub_int_one n h = ground arith

pub eqb_ℤ_refl : (a : ℤ) → eqb_ℤ a a ≡ true
eqb_ℤ_refl (pos n) = ground arith
eqb_ℤ_refl (negsuc n) = ground arith

sum_wraps : add_int (pos 9223372036854775807) (pos 1) ≡ negsuc 9223372036854775807
unfolding add_int wrap ◌+ℤ◌
sum_wraps = refl
