-- ===== src/Prelude/Sort.antt =====
-- What `sort.Slice` promises of a slice whose elements are compared by a key: a sorted permutation.
-- The order of elements with one key is open in Go; here they keep their order.
use Prim.Native.Nat.{Ordering}
use mathlib.Core.Path.{refl}
use mathlib.Core.Logic.{◌≢◌, inl, inr}
use mathlib.Core.List.{List, [], ◌∷◌, Permᴰ}
use mathlib.Core.List.Permᴰ
use native.Mathlib.Omega.{arith}
use mini_eureka.Prelude.Tests.{if◌then◌else◌, Bool-cases}
use mini_eureka.Prelude.Lists.{All}
use mini_eureka.Prelude.Order.{IsLinear, is_gt, not-gt_trans}

module _ {ℓ κ} {A : Type ℓ} {K : Type κ} (cmp : K → K → Ordering) (key : A → K) where
  unfoldable pub insert_on : A → List A → List A
  insert_on x [] = x ∷ []
  insert_on x (y ∷ ys) = if is_gt (cmp (key x) (key y)) then y ∷ insert_on x ys else x ∷ y ∷ ys

  unfoldable pub sort_on : List A → List A
  unfolding insert_on
  sort_on [] = []
  sort_on (x ∷ xs) = insert_on x (sort_on xs)

  abbrev pub Before : A → A → Type 0
  Before x y = cmp (key x) (key y) ≢ Ordering.gt

  -- No element stands before one with a lesser key.
  abbrev pub IsSorted : List A → Type 0
  IsSorted [] = Unit
  IsSorted (x ∷ xs) = All (Before x) xs × IsSorted xs

  insert_on-Perm : (x : A) (ys : List A) → Permᴰ (x ∷ ys) (insert_on x ys)
  unfolding insert_on
  insert_on-Perm x [] = Permᴰ.refl (x ∷ [])
  insert_on-Perm x (y ∷ ys) = elim (Bool-cases (is_gt (cmp (key x) (key y)))) [
    | inl gt ↦ rw gt (Permᴰ.trans (Permᴰ.swap refl refl) (Permᴰ.cons refl (insert_on-Perm x ys)))
    | inr le ↦ rw le (Permᴰ.refl (x ∷ y ∷ ys))
  ]

  pub sort_on-Perm : (xs : List A) → Permᴰ xs (sort_on xs)
  unfolding sort_on
  sort_on-Perm [] = Permᴰ.nil
  sort_on-Perm (x ∷ xs) =
      Permᴰ.trans (Permᴰ.cons refl (sort_on-Perm xs)) (insert_on-Perm x (sort_on xs))

  module _ (linear : IsLinear cmp) where
    Before-All : (x y : A) (ys : List A) → Before x y → All (Before y) ys → All (Before x) ys
    Before-All x y [] h k = tt
    Before-All x y (z ∷ ys) h k =
        (not-gt_trans linear (key x) (key y) (key z) h k.0, Before-All x y ys h k.1)

    All-insert_on :
        (x y : A) (ys : List A) → Before y x → All (Before y) ys → All (Before y) (insert_on x ys)
    unfolding insert_on
    All-insert_on x y [] h k = (h, tt)
    All-insert_on x y (z ∷ ys) h k = elim (Bool-cases (is_gt (cmp (key x) (key z)))) [
      | inl gt ↦ rw gt (k.0, All-insert_on x y ys h k.1)
      | inr le ↦ rw le (h, k)
    ]

    insert_on-IsSorted : (x : A) (ys : List A) → IsSorted ys → IsSorted (insert_on x ys)
    unfolding insert_on
    insert_on-IsSorted x [] h = (tt, tt)
    insert_on-IsSorted x (y ∷ ys) h = elim (Bool-cases (is_gt (cmp (key x) (key y)))) [
      | inl gt ↦ rw gt (
        All-insert_on x y ys (ground (arith, linear.flip (key x) (key y))) h.0,
        insert_on-IsSorted x ys h.1,
      )
      | inr le ↦
          let first : Before x y = ground arith in rw le ((first, Before-All x y ys first h.0), h)
    ]

    pub sort_on-IsSorted : (xs : List A) → IsSorted (sort_on xs)
    unfolding sort_on
    sort_on-IsSorted [] = tt
    sort_on-IsSorted (x ∷ xs) = insert_on-IsSorted x (sort_on xs) (sort_on-IsSorted xs)
