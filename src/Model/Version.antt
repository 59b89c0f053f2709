-- ===== src/Model/Version.antt =====
-- backend/internal/model/version.go: the hybrid-logical-clock value and its total order.
use mini_eureka.Prelude.{
  ℕ, Ordering, ltb, ◌==◌, if◌then◌else◌, Bool, ◌&&◌, Option, [], ◌≡◌, arith, subst, sym,
}
use mini_eureka.Prelude.Int.{ℤ, pos, ltb_ℤ, leb_ℤ, eqb_ℤ, compare_ℤ}
use mini_eureka.Prelude.Text.{Text, compare_text, compare_text-IsLinear, text_eq}
use mini_eureka.Prelude.Order.{
  IsLinear, compare_pair, compare_pair-IsLinear, compare-IsLinear, compare_ℤ-IsLinear,
  pullback-IsLinear,
}
use mini_eureka.Model.Error.{Error, validate_identifier, invalid}
use Prim.Native.Nat.{compare}
use mathlib.Core.Path.{fun_ext}

-- `PhysicalMillis` is an int64, `Logical` a uint64.
pub record Version : Type 0 where
  pub physical_millis : ℤ
  pub logical : ℕ
  pub origin_node_id : Text

abbrev pub max_node_id_length : ℕ
max_node_id_length = 128

unfoldable pub is_zero : Version → Bool
is_zero v = eqb_ℤ v.physical_millis (pos 0) && v.logical == 0 && text_eq v.origin_node_id []

unfoldable pub validate_version : Version → Option Error
validate_version v =
    if leb_ℤ v.physical_millis (pos 0)
    then invalid "physical_ms" "out_of_range"
    else validate_identifier "origin_node_id" v.origin_node_id max_node_id_length

-- `CompareVersion`, with -1, 0, 1 as `Ordering`.
unfoldable pub compare_version : Version → Version → Ordering
compare_version a b =
    if ltb_ℤ a.physical_millis b.physical_millis
    then Ordering.lt
    else if ltb_ℤ b.physical_millis a.physical_millis
    then Ordering.gt
    else if ltb a.logical b.logical
    then Ordering.lt
    else if ltb b.logical a.logical
    then Ordering.gt
    else compare_text a.origin_node_id b.origin_node_id

abbrev parts : Version → ℤ × (ℕ × Text)
parts v = (v.physical_millis, (v.logical, v.origin_node_id))

compare_parts : ℤ × (ℕ × Text) → ℤ × (ℕ × Text) → Ordering
compare_parts = compare_pair compare_ℤ (compare_pair compare compare_text)

compare_version-parts : (a b : Version) → compare_version a b ≡ compare_parts (parts a) (parts b)
unfolding compare_version compare_parts
compare_version-parts a b = ground arith

parts_injective : (a b : Version) → parts a ≡ parts b → a ≡ b
parts_injective a b h =
    λ i. record { physical_millis = (h i).0; logical = (h i).1.0; origin_node_id = (h i).1.1 }

-- `CompareVersion` is a total order whose 0 is equality: two versions compare equal only when all
-- three fields agree, exchanging the arguments reverses the answer, and it is transitive.
pub compare_version-IsLinear : IsLinear compare_version
unfolding compare_parts
compare_version-IsLinear =
    subst IsLinear (fun_ext λ a. fun_ext λ b. sym (compare_version-parts a b)) (
      pullback-IsLinear parts parts_injective (
        compare_pair-IsLinear compare_ℤ-IsLinear
          (compare_pair-IsLinear compare-IsLinear compare_text-IsLinear)))
