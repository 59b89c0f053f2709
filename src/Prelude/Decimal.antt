-- ===== src/Prelude/Decimal.antt =====
-- Decimal numerals as Go's strconv and fmt write and read them.
use Prim.Native.Nat.{ℕ, zero, suc, ◌+◌, ◌-◌, ◌*◌, ◌/◌, ◌%◌, ◌<◌}
use mathlib.Core.Path.{◌≡◌, refl, ◌∙◌}
use mathlib.Core.Logic.{inl, inr}
use mathlib.Core.Bool.{Bool, ◌&&◌}
use mathlib.Core.Option.{Option, none, some}
use mathlib.Core.List.{[], ◌∷◌}
use native.Mathlib.Omega.{arith}
use mini_eureka.Prelude.Tests.{ltb, leb, if◌then◌else◌, Bool-cases}
use mini_eureka.Prelude.Lists.{length}
use mini_eureka.Prelude.Text.{Text}

-- The digits of a number before the digits that are already written. Each step divides by ten, so
-- more fuel than the number is enough.
format_from : ℕ → ℕ → Text → Text
format_from zero n acc = acc
format_from (suc fuel) n acc =
    let rest = format_from fuel (n / 10) ((b'0' + n % 10) ∷ acc) in
    if ltb n 10 then (b'0' + n) ∷ acc else rest

-- `strconv.FormatUint(n, 10)`
unfoldable pub format_uint : ℕ → Text
unfolding format_from
format_uint n = format_from (suc n) n []

unfoldable pub is_digit : ℕ → Bool
is_digit c = leb b'0' c && leb c b'9'

-- The value of a run of digits behind those already read.
unfoldable pub parse_digits : ℕ → Text → Option ℕ
unfolding is_digit
parse_digits acc [] = some acc
parse_digits acc (c ∷ s) =
    let rest = parse_digits (acc * 10 + (c - b'0')) s in if is_digit c then rest else none

parse-format_from :
    (fuel n : ℕ) (acc : Text)
    → n < fuel
    → parse_digits 0 (format_from fuel n acc) ≡ parse_digits n acc
unfolding format_from
parse-format_from zero n acc h = absurd (omega arith)
parse-format_from (suc fuel) n acc h = elim (Bool-cases (ltb n 10)) [
  | inl small ↦ rw small (unfold parse_digits in ground arith)
  | inr large ↦ rw large (
      parse-format_from fuel (n / 10) ((b'0' + n % 10) ∷ acc) (ground arith)
      ∙ unfold parse_digits in ground arith)
]

-- Reading what was written gives the number back.
pub parse-format : (n : ℕ) → parse_digits 0 (format_uint n) ≡ some n
unfolding format_uint
parse-format n = parse-format_from (suc n) n [] (omega arith) ∙ unfold parse_digits in refl

-- A numeral has at least one digit.
length-format_from :
    (fuel n : ℕ) (acc : Text) → 0 < fuel + length acc → 0 < length (format_from fuel n acc)
unfolding format_from
length-format_from zero n acc h = omega (arith, h)
length-format_from (suc fuel) n acc h = elim (Bool-cases (ltb n 10)) [
  | inl small ↦ rw small (omega arith)
  | inr large ↦ rw large (length-format_from fuel (n / 10) _ (omega arith))
]

pub length-format_uint : (n : ℕ) → 0 < length (format_uint n)
unfolding format_uint
length-format_uint n = length-format_from (suc n) n [] (omega arith)
