-- ===== src/Base/Numbers.antt =====
-- Decimal numbers as package strconv and fmt print and read them, and a few more functions of package
-- strings.
use Prim.Native.Nat.{ℕ, zero, suc, ◌+◌, ◌-◌, ◌*◌, ◌/◌, ◌%◌, ◌≤◌}
use mathlib.Core.Path.{◌≡◌}
use mathlib.Core.Bool.{Bool, true, false, ◌&&◌}
use mathlib.Core.Option.{Option, none, some}
use mathlib.Core.List.{[], ◌∷◌, ◌++◌}
use native.Mathlib.Omega.{arith}
use mcp_execmesh.Base.Tests.{leb, ltb, ◌==◌, if◌then◌else◌}
use mcp_execmesh.Base.Lists.{length, drop}
use mcp_execmesh.Base.Text.{Str, codes, has_prefix}
use mcp_execmesh.Base.Int.{ℤ, pos, negsuc, sub_ℕ}

-- The digits of n before `acc`; n itself is fuel enough, since a digit less at each step ends sooner.
unfoldable pub digits_before : ℕ → ℕ → Str → Str
digits_before zero n acc = (48 + n) ∷ acc
digits_before (suc fuel) n acc = elim (ltb n 10) [
  | true ↦ (48 + n) ∷ acc
  | false ↦ digits_before fuel (n / 10) ((48 + n % 10) ∷ acc)
]

-- %d of a number
unfoldable pub show_ℕ : ℕ → Str
unfolding digits_before
show_ℕ n = digits_before n n []

-- %d of an integer
unfoldable pub show_ℤ : ℤ → Str
unfolding show_ℕ
show_ℤ (pos n) = show_ℕ n
show_ℤ (negsuc n) = codes "-" ++ show_ℕ (n + 1)

abbrev pub is_digit : ℕ → Bool
is_digit c = leb 48 c && leb c 57

unfoldable pub read_digits : ℕ → Str → Option ℕ
read_digits n [] = some n
read_digits n (c ∷ s) = if is_digit c then read_digits (n * 10 + (c - 48)) s else none

-- The digits of a number, at least one.
unfoldable pub read_number : Str → Option ℕ
unfolding read_digits
read_number [] = none
read_number (c ∷ s) = read_digits 0 (c ∷ s)

abbrev pub int64_bound : ℕ
int64_bound = 9223372036854775808

abbrev below_bound : ℕ → Option ℕ → Option ℕ
below_bound bound none = none
below_bound bound (some n) = if leb n bound then some n else none

abbrev to_positive : Option ℕ → Option ℤ
to_positive none = none
to_positive (some n) = some (pos n)

abbrev to_negative : Option ℕ → Option ℤ
to_negative none = none
to_negative (some n) = some (sub_ℕ 0 n)

-- strconv.ParseInt(s, 10, 64), and strconv.Atoi where an int has 64 bits; `none` is an error.
unfoldable pub parse_int : Str → Option ℤ
unfolding read_number
parse_int [] = none
parse_int (c ∷ s) =
    if c == 45
    then to_negative (below_bound int64_bound (read_number s))
    else if c == 43
    then to_positive (below_bound (int64_bound - 1) (read_number s))
    else to_positive (below_bound (int64_bound - 1) (read_number (c ∷ s)))

-- strings.ReplaceAll(s, old, new) for an old of one byte
unfoldable pub replace_byte : ℕ → Str → Str → Str
replace_byte old new [] = []
replace_byte old new (c ∷ s) =
    let rest = replace_byte old new s in if c == old then new ++ rest else c ∷ rest

-- strings.Index(s, marker), as what stands before the marker and behind it
unfoldable pub cut_at : Str → Str → Option (Str × Str)
unfolding has_prefix
cut_at marker [] = if has_prefix [] marker then some ([], []) else none
cut_at marker (c ∷ s) = elim (has_prefix (c ∷ s) marker) [
  | true ↦ some ([], drop (length marker) (c ∷ s))
  | false ↦ elim (cut_at marker s) [
    | none ↦ none
    | some (before, behind) ↦ some (c ∷ before, behind)
  ]
]

-- What digits_before prints is read back, in front of any digits.
pub read_digits-digits_before :
    (fuel n : ℕ) (acc : Str)
    → n ≤ fuel
    → read_digits 0 (digits_before fuel n acc) ≡ read_digits n acc
unfolding read_digits digits_before
read_digits-digits_before zero n acc h = ground arith
read_digits-digits_before (suc fuel) n acc h =
    ground (arith, read_digits-digits_before fuel (n / 10) ((48 + n % 10) ∷ acc))

-- Every byte of a printed number is a digit.
abbrev pub AllDigits : Str → Type 0
AllDigits [] = Unit
AllDigits (c ∷ s) = (is_digit c ≡ true) × AllDigits s

pub digits_before-AllDigits :
    (fuel n : ℕ) (acc : Str) → n ≤ fuel → AllDigits acc → AllDigits (digits_before fuel n acc)
unfolding digits_before
digits_before-AllDigits zero n acc h all = (ground arith, all)
digits_before-AllDigits (suc fuel) n acc h all =
    ground (arith, digits_before-AllDigits fuel (n / 10) ((48 + n % 10) ∷ acc))
