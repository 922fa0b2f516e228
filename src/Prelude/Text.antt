-- ===== src/Prelude/Text.antt =====
-- Go's `strings.TrimSpace`, and what the program builds on it for `*string`.
use Prim.Native.Nat.{ℕ, suc, ◌≤◌}
use Prim.Native.Char.{Char, code}
use Prim.Native.String.{String}
use mathlib.Core.Path.{◌≡◌, refl, ap, sym, ◌∙◌}
use mathlib.Core.Logic.{inl, inr}
use mathlib.Core.Bool.{Bool, true, false, ◌&&◌, ◌||◌}
use mathlib.Core.Option.{Option, none, some}
use native.Mathlib.Omega.{arith}
use text.Mathlib.TextEquality.{eq_iff}
use stds_backend_go.Prelude.Tests.{leb, eqb, ◌==◌, if◌then◌else◌, Bool-cases}

-- `unicode.IsSpace`.
pub is_space : ℕ → Bool
is_space c =
    leb 9 c && leb c 13
    || eqb c 32
    || eqb c 0x85
    || eqb c 0xa0
    || eqb c 0x1680
    || leb 0x2000 c && leb c 0x200a
    || eqb c 0x2028
    || eqb c 0x2029
    || eqb c 0x202f
    || eqb c 0x205f
    || eqb c 0x3000

abbrev pub is_empty : String → Bool
is_empty String.[] = true
is_empty (String.◌∷◌ c s) = false

-- `utf8.RuneCountInString`.
unfoldable pub rune_count : String → ℕ
rune_count String.[] = 0
rune_count (String.◌∷◌ c s) = suc (rune_count s)

pub trim_left : String → String
trim_left String.[] = String.[]
trim_left (String.◌∷◌ c s) = if is_space (code c) then trim_left s else String.◌∷◌ c s

pub trim_right : String → String
trim_right String.[] = String.[]
trim_right (String.◌∷◌ c s) =
    let t = trim_right s in if is_space (code c) && is_empty t then String.[] else String.◌∷◌ c t

unfoldable pub trim_space : String → String
unfolding is_space trim_left trim_right
trim_space s = trim_right (trim_left s)

trims : trim_space "  a b\n" ≡ "a b"
unfolding trim_space
trims = refl

trim_left_idem : (s : String) → trim_left (trim_left s) ≡ trim_left s
unfolding trim_left
trim_left_idem String.[] = refl
trim_left_idem (String.◌∷◌ c s) = ground (arith, trim_left_idem s)

trim_right_idem : (s : String) → trim_right (trim_right s) ≡ trim_right s
unfolding trim_right
trim_right_idem String.[] = refl
trim_right_idem (String.◌∷◌ c s) = ground (arith, trim_right_idem s)

-- A text that starts with a space gets shorter on the left.
trim_left-len : (s : String) → rune_count (trim_left s) ≤ rune_count s
unfolding trim_left rune_count
trim_left-len String.[] = omega arith
trim_left-len (String.◌∷◌ c s) = ground (arith, trim_left-len s)

starts_clean :
    (c : Char) (s : String)
    → is_space (code c) ≡ true
    → ¬ (trim_left (String.◌∷◌ c s) ≡ String.◌∷◌ c s)
unfolding trim_left rune_count
starts_clean c s e h = ground (arith, trim_left-len s, ap rune_count h)

-- Trimming on the right keeps a text that does not begin with a space so.
trim_left-trim_right : (s : String) → trim_left s ≡ s → trim_left (trim_right s) ≡ trim_right s
unfolding trim_left trim_right
trim_left-trim_right String.[] h = refl
trim_left-trim_right (String.◌∷◌ c s) h = elim (Bool-cases (is_space (code c))) [
  | inl e ↦ absurd (starts_clean c s e h)
  | inr e ↦ ground arith
]

pub trim_space_idem : (s : String) → trim_space (trim_space s) ≡ trim_space s
unfolding trim_space
trim_space_idem s =
    rw (trim_left-trim_right (trim_left s) (trim_left_idem s)) (trim_right_idem (trim_left s))

-- A text that equals one literal equals no other: `eq_other s "paid" "voided" refl`.
pub eq_other : (s a b : String) → (a == b) ≡ false → (s == a) ≡ true → (s == b) ≡ false
eq_other s a b ne h = elim (Bool-cases (s == b)) [
  | inl e ↦ cc (ne, (eq_iff a b).1 (sym ((eq_iff s a).0 h) ∙ (eq_iff s b).0 e))
  | inr e ↦ e
]

pub eq_of_eqb : {s a : String} → (s == a) ≡ true → s ≡ a
eq_of_eqb {s} {a} h = (eq_iff s a).0 h

-- `normalizeOptionalString`, `trimmedStringPtr`: the trimmed text, or nil if that is empty.
unfoldable pub trim_to_optional : String → Option String
trim_to_optional value =
    let trimmed = trim_space value in if trimmed == "" then none else some trimmed

-- `normalizeOptionalStringPtr`, `trimOptional`, `trimOptionalString`.
unfoldable pub trim_optional : Option String → Option String
trim_optional none = none
trim_optional (some value) = trim_to_optional value

-- `stringValue`.
abbrev pub string_value : Option String → String
string_value none = ""
string_value (some value) = value

pub trim_optional-trim_to_optional :
    (value : String) → trim_optional (trim_to_optional value) ≡ trim_to_optional value
unfolding trim_optional trim_to_optional
trim_optional-trim_to_optional value = ground (arith, trim_space_idem value)

pub trim_optional_idem : (o : Option String) → trim_optional (trim_optional o) ≡ trim_optional o
unfolding trim_optional
trim_optional_idem none = refl
trim_optional_idem (some value) = trim_optional-trim_to_optional value

-- A text does not equal two different literals: `not_both "paid" "voided" refl`.
pub not_both : {s : String} (a b : String) → (a == b) ≡ false → s ≡ a → ¬ (s ≡ b)
not_both a b ne p q = cc (ne, (eq_iff a b).1 (sym p ∙ q))
