-- ===== src/Prelude/Text.antt =====
-- A Go string is a sequence of bytes; `strings.Compare` orders two of them byte by byte.
use Prim.Native.Nat.{ℕ, compare, Ordering}
use Prim.Native.String.{String}
use Prim.Native.Char.{code}
use mathlib.Core.Path.{◌≡◌}
use mathlib.Core.Logic.{◌↔◌}
use mathlib.Core.Bool.{Bool, true}
use mathlib.Core.List.{List, [], ◌∷◌}
use native.Mathlib.Omega.{arith}
use mini_eureka.Prelude.Order.{
  compare-IsLinear, compare_list, compare_list-IsLinear, IsLinear, is_eq,
}

abbrev pub Text : Type 0
Text = List ℕ

-- An ASCII literal as its bytes.
abbrev pub bytes : String → Text
bytes String.[] = []
bytes (String.◌∷◌ c s) = code c ∷ bytes s

unfoldable pub compare_text : Text → Text → Ordering
unfolding compare_list
compare_text s t = compare_list compare s t

pub compare_text-IsLinear : IsLinear compare_text
unfolding compare_text
compare_text-IsLinear = compare_list-IsLinear compare-IsLinear

-- Go's `==` on strings.
unfoldable pub text_eq : Text → Text → Bool
unfolding compare_text
text_eq s t = is_eq (compare_text s t)

pub text_eq_iff : (s t : Text) → (text_eq s t ≡ true) ↔ (s ≡ t)
unfolding text_eq
text_eq_iff s t = (
  λ h. compare_text-IsLinear.same s t (ground arith),
  λ e. ground (arith, compare_text-IsLinear.self s),
)
