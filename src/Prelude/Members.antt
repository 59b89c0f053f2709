-- ===== src/Prelude/Members.antt =====
-- Membership in lists that are filtered or put in order.
use mini_eureka.Prelude.{◌≡◌, ◌∙◌, ap, sym, List, [], ◌∷◌, keep, Bool, true, Bool-cases, inl, inr}
use mathlib.Core.List.{Permᴰ, Memᴰ}

module _ {ℓ} {A : Type ℓ} where
  pub Memᴰ-Perm : {a : A} {xs ys : List A} → Permᴰ xs ys → Memᴰ a xs → Memᴰ a ys
  Memᴰ-Perm Permᴰ.nil m = m
  Memᴰ-Perm (Permᴰ.cons e p) (Memᴰ.head h) = Memᴰ.head (h ∙ e)
  Memᴰ-Perm (Permᴰ.cons e p) (Memᴰ.tail m) = Memᴰ.tail (Memᴰ-Perm p m)
  Memᴰ-Perm (Permᴰ.swap e f) (Memᴰ.head h) = Memᴰ.tail (Memᴰ.head (h ∙ e))
  Memᴰ-Perm (Permᴰ.swap e f) (Memᴰ.tail (Memᴰ.head h)) = Memᴰ.head (h ∙ f)
  Memᴰ-Perm (Permᴰ.swap e f) (Memᴰ.tail (Memᴰ.tail m)) = Memᴰ.tail (Memᴰ.tail m)
  Memᴰ-Perm (Permᴰ.trans p q) m = Memᴰ-Perm q (Memᴰ-Perm p m)

  pub Memᴰ-keep : (p : A → Bool) {a : A} (xs : List A) → Memᴰ a xs → p a ≡ true → Memᴰ a (keep p xs)
  Memᴰ-keep p [] m h = elim m [ ]
  Memᴰ-keep p (x ∷ xs) (Memᴰ.head e) h = rw (ap p (sym e) ∙ h) (Memᴰ.head e)
  Memᴰ-keep p (x ∷ xs) (Memᴰ.tail m) h = elim (Bool-cases (p x)) [
    | inl kept ↦ rw kept (Memᴰ.tail (Memᴰ-keep p xs m h))
    | inr left ↦ rw left (Memᴰ-keep p xs m h)
  ]
