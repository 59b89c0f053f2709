-- ===== src/Prelude/Order.antt =====
-- Three-way comparisons, as the Go code returns them (-1, 0, 1), and the laws that make one a
-- linear order.
use Prim.Native.Nat.{compare, Ordering}
use mathlib.Core.Path.{◌≡◌, refl}
use mathlib.Core.Logic.{◌≢◌, ◌⊎◌, inl, inr}
use mathlib.Core.List.{List, [], ◌∷◌}
use mathlib.Core.Bool.{Bool, true, false}
use native.Mathlib.Omega.{arith}
use mini_eureka.Prelude.Tests.{if◌then◌else◌}
use mini_eureka.Prelude.Int.{compare_ℤ}
pub use Prim.Native.Nat.Ordering.{lt, eq, gt}

-- The comparison with its arguments exchanged.
abbrev pub swap : Ordering → Ordering
swap Ordering.lt = Ordering.gt
swap Ordering.eq = Ordering.eq
swap Ordering.gt = Ordering.lt

-- The first comparison decides unless it is 0.
abbrev pub or_else : Ordering → Ordering → Ordering
or_else Ordering.lt b = Ordering.lt
or_else Ordering.eq b = b
or_else Ordering.gt b = Ordering.gt

-- `c > 0`, `c <= 0`, `c == 0`.
abbrev pub is_gt : Ordering → Bool
is_gt Ordering.gt = true
is_gt _ = false

abbrev pub is_eq : Ordering → Bool
is_eq Ordering.eq = true
is_eq _ = false

pub Ordering-cases : (o : Ordering) → (o ≡ Ordering.lt) ⊎ ((o ≡ Ordering.eq) ⊎ (o ≡ Ordering.gt))
Ordering-cases Ordering.lt = inl refl
Ordering-cases Ordering.eq = inr (inl refl)
Ordering-cases Ordering.gt = inr (inr refl)

pub record IsLinear {ℓ} {A : Type ℓ} (cmp : A → A → Ordering) : Type ℓ where
  pub same : (a b : A) → cmp a b ≡ Ordering.eq → a ≡ b
  pub self : (a : A) → cmp a a ≡ Ordering.eq
  pub flip : (a b : A) → cmp b a ≡ swap (cmp a b)
  pub trans : (a b c : A) → cmp a b ≡ Ordering.lt → cmp b c ≡ Ordering.lt → cmp a c ≡ Ordering.lt

pub compare-IsLinear : IsLinear compare
compare-IsLinear = record {
  same = λ a b h. ground arith;
  self = λ a. ground arith;
  flip = λ a b. ground arith;
  trans = λ a b c h k. ground arith;
}

pub compare_ℤ-IsLinear : IsLinear compare_ℤ
compare_ℤ-IsLinear = record {
  same = λ a b h. ground arith;
  self = λ a. ground arith;
  flip = λ a b. ground arith;
  trans = λ a b c h k. ground arith;
}

-- `false` before `true`.
abbrev pub compare_Bool : Bool → Bool → Ordering
compare_Bool false true = Ordering.lt
compare_Bool true false = Ordering.gt
compare_Bool _ _ = Ordering.eq

pub compare_Bool-IsLinear : IsLinear compare_Bool
compare_Bool-IsLinear = record {
  same = λ a b h. ground arith;
  self = λ a. ground arith;
  flip = λ a b. ground arith;
  trans = λ a b c h k. ground arith;
}

-- Pairs, the first component first.
abbrev pub compare_pair {ℓ κ} :
    {A : Type ℓ} {B : Type κ} → (A → A → Ordering) → (B → B → Ordering) → A × B → A × B → Ordering
compare_pair c d (a, b) (a', b') = or_else (c a a') (d b b')

module _ {ℓ κ} {A : Type ℓ} {B : Type κ} {c : A → A → Ordering} {d : B → B → Ordering}
    (lc : IsLinear c) (ld : IsLinear d) where
  pair_same : (p q : A × B) → compare_pair c d p q ≡ Ordering.eq → p ≡ q
  pair_same (a, b) (a', b') h = ground (arith, lc.same a a', ld.same b b')

  pair_flip : (p q : A × B) → compare_pair c d q p ≡ swap (compare_pair c d p q)
  pair_flip (a, b) (a', b') = ground (arith, lc.flip a a', ld.flip b b')

  pair_trans :
      (p q r : A × B)
      → compare_pair c d p q ≡ Ordering.lt
      → compare_pair c d q r ≡ Ordering.lt
      → compare_pair c d p r ≡ Ordering.lt
  pair_trans (a, b) (a', b') (a'', b'') h k =
      ground (arith, lc.same a a', lc.same a' a'', lc.trans a a' a'', ld.trans b b' b'', lc.self a)

  pub compare_pair-IsLinear : IsLinear (compare_pair c d)
  compare_pair-IsLinear = record {
    same = pair_same;
    self = λ (a, b). ground (arith, lc.self a, ld.self b);
    flip = pair_flip;
    trans = pair_trans;
  }

-- Lists in dictionary order, a prefix first.
unfoldable pub compare_list {ℓ} : {A : Type ℓ} → (A → A → Ordering) → List A → List A → Ordering
compare_list c [] [] = Ordering.eq
compare_list c [] (y ∷ ys) = Ordering.lt
compare_list c (x ∷ xs) [] = Ordering.gt
compare_list c (x ∷ xs) (y ∷ ys) = or_else (c x y) (compare_list c xs ys)

module _ {ℓ} {A : Type ℓ} {c : A → A → Ordering} (lc : IsLinear c) where
  list_same : (xs ys : List A) → compare_list c xs ys ≡ Ordering.eq → xs ≡ ys
  unfolding compare_list
  list_same [] [] h = refl
  list_same [] (y ∷ ys) h = ground arith
  list_same (x ∷ xs) [] h = ground arith
  list_same (x ∷ xs) (y ∷ ys) h = ground (arith, lc.same x y, list_same xs ys)

  list_self : (xs : List A) → compare_list c xs xs ≡ Ordering.eq
  unfolding compare_list
  list_self [] = refl
  list_self (x ∷ xs) = ground (arith, lc.self x, list_self xs)

  list_flip : (xs ys : List A) → compare_list c ys xs ≡ swap (compare_list c xs ys)
  unfolding compare_list
  list_flip [] [] = refl
  list_flip [] (y ∷ ys) = refl
  list_flip (x ∷ xs) [] = refl
  list_flip (x ∷ xs) (y ∷ ys) = ground (arith, lc.flip x y, list_flip xs ys)

  list_trans :
      (xs ys zs : List A)
      → compare_list c xs ys ≡ Ordering.lt
      → compare_list c ys zs ≡ Ordering.lt
      → compare_list c xs zs ≡ Ordering.lt
  unfolding compare_list
  list_trans [] [] [] h k = h
  list_trans [] [] (z ∷ zs) h k = refl
  list_trans [] (y ∷ ys) [] h k = ground arith
  list_trans [] (y ∷ ys) (z ∷ zs) h k = refl
  list_trans (x ∷ xs) [] zs h k = ground arith
  list_trans (x ∷ xs) (y ∷ ys) [] h k = ground arith
  list_trans (x ∷ xs) (y ∷ ys) (z ∷ zs) h k =
      ground (arith, lc.same x y, lc.same y z, lc.trans x y z, lc.self x, list_trans xs ys zs)

  pub compare_list-IsLinear : IsLinear (compare_list c)
  compare_list-IsLinear = record {
    same = list_same;
    self = list_self;
    flip = list_flip;
    trans = list_trans;
  }

-- A comparison of values by what an injective function reads off them.
pub pullback-IsLinear {ℓ κ} :
    {A : Type ℓ} {B : Type κ} {c : B → B → Ordering} (f : A → B)
    → ((x y : A) → f x ≡ f y → x ≡ y)
    → IsLinear c
    → IsLinear (λ x y. c (f x) (f y))
pullback-IsLinear f inj lc = record {
  same = λ a b h. inj a b (lc.same (f a) (f b) h);
  self = λ a. lc.self (f a);
  flip = λ a b. lc.flip (f a) (f b);
  trans = λ x y z h k. lc.trans (f x) (f y) (f z) h k;
}

-- The greater of two values, and its laws: a join semilattice.
unfoldable pub join {ℓ} : {A : Type ℓ} → (A → A → Ordering) → A → A → A
join c a b = if is_gt (c b a) then b else a

module _ {ℓ} {A : Type ℓ} {c : A → A → Ordering} (lc : IsLinear c) where
  pub join_comm : (a b : A) → join c a b ≡ join c b a
  unfolding join
  join_comm a b = ground (arith, lc.flip a b, lc.same a b)

  pub join_idem : (a : A) → join c a a ≡ a
  unfolding join
  join_idem a = ground arith

  pub join_assoc : (a b d : A) → join c (join c a b) d ≡ join c a (join c b d)
  unfolding join
  join_assoc a b d = ground (
    arith,
    lc.flip a b,
    lc.flip b d,
    lc.flip a d,
    lc.same a b,
    lc.same b d,
    lc.same a d,
    lc.trans a b d,
    lc.trans d b a,
    lc.trans b a d,
    lc.trans b d a,
    lc.trans a d b,
    lc.trans d a b,
  )

module _ {ℓ} {A : Type ℓ} {c : A → A → Ordering} (lc : IsLinear c) where
  pub not-gt_trans : (a b d : A) → c a b ≢ Ordering.gt → c b d ≢ Ordering.gt → c a d ≢ Ordering.gt
  not-gt_trans a b d h k = ground (arith, lc.same a b, lc.same b d, lc.self a, lc.trans a b d)

  pub join_left : (a b : A) → c b a ≢ Ordering.gt → join c a b ≡ a
  unfolding join
  join_left a b h = ground arith

  pub join_right : (a b : A) → c b a ≢ Ordering.lt → join c a b ≡ b
  unfolding join
  join_right a b h = ground (arith, lc.same b a)
