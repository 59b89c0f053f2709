-- ===== src/Registry/Window.antt =====
-- The window of operation IDs of an entry: bounded, and in step with its order of arrival.
use mini_eureka.Prelude.{
  ◌≤◌, ◌<◌, ◌+◌, ◌==◌, if◌then◌else◌, Bool, false, ◌||◌, ◌&&◌, none, some, List, [], ◌∷◌, ◌++◌,
  length, length-append, ◌≡◌, arith, refl, Bool-cases, inl, inr,
}
use mini_eureka.Prelude.Text.{Text, text_eq, text_eq_iff}
use mini_eureka.Prelude.Map.{Map, lookup, insert, lookup-insert, lookup-delete, text_key}
use mini_eureka.Registry.Entry.{
  Entry, operation_window, operation_event, remember_operation, is_present, drop_first,
  forget_first,
}

-- Whether a text stands in a list.
unfoldable pub holds : Text → List Text → Bool
holds o [] = false
holds o (x ∷ xs) = text_eq x o || holds o xs

unfoldable pub Unique : List Text → Type 0
Unique [] = Unit
Unique (x ∷ xs) = (holds x xs ≡ false) × Unique xs

-- At most `operation_window` operations, none twice, and the map holds exactly those in the order.
pub record IsWindow (e : Entry) : Type 0 where
  pub bounded : length e.operation_order ≤ operation_window
  pub unique : Unique e.operation_order
  pub in_step : (o : Text) → is_present (lookup o e.operations) ≡ holds o e.operation_order

holds-append :
    (o x : Text) (xs : List Text) → holds o (xs ++ (x ∷ [])) ≡ (holds o xs || text_eq x o)
unfolding holds
holds-append o x [] = ground arith
holds-append o x (y ∷ xs) = ground (arith, holds-append o x xs)

Unique-append :
    (x : Text) (xs : List Text) → holds x xs ≡ false → Unique xs → Unique (xs ++ (x ∷ []))
unfolding Unique holds
Unique-append x [] h u = (refl, tt)
Unique-append x (y ∷ xs) h u = (
  ground (arith, holds-append y x xs, u.0, text_eq_iff x y, text_eq_iff y x),
  Unique-append x xs (ground arith) u.1,
)

drop-Unique : (xs : List Text) → Unique xs → Unique (drop_first xs)
unfolding Unique drop_first
drop-Unique [] u = tt
drop-Unique (x ∷ xs) u = u.1

-- What stands in the order once its oldest operation is given up.
holds-drop :
    (o : Text) (xs : List Text) (m : Map Text Text)
    → Unique xs
    → ((p : Text) → is_present (lookup p m) ≡ holds p xs)
    → is_present (lookup o (forget_first xs m)) ≡ holds o (drop_first xs)
unfolding holds drop_first forget_first Unique is_present
holds-drop o [] m u h = h o
holds-drop o (x ∷ xs) m u h = ground (arith, lookup-delete x o m, text_eq_iff x o, u.0, h o)

length-drop_first :
    (xs : List Text) → length xs ≡ operation_window → length (drop_first xs) + 1 ≡ operation_window
unfolding drop_first
length-drop_first [] h = absurd (omega arith)
length-drop_first (x ∷ xs) h = omega arith

holds-drop_le : (o : Text) (xs : List Text) → holds o xs ≡ false → holds o (drop_first xs) ≡ false
unfolding holds drop_first
holds-drop_le o [] h = h
holds-drop_le o (x ∷ xs) h = ground arith

-- A new operation at the end of an order that leaves room for it.
extended :
    (e : Entry) (o v : Text) (order : List Text) (m : Map Text Text)
    → length order < operation_window
    → Unique order
    → ((p : Text) → is_present (lookup p m) ≡ holds p order)
    → holds o order ≡ false
    → IsWindow (record e { operations = insert o v m; operation_order = order ++ (o ∷ []) })
unfolding is_present
extended e o v order m short u h new = record {
  bounded = omega (arith, length-append {0} order (o ∷ []));
  unique = Unique-append o order new u;
  in_step = λ p. ground (arith, lookup-insert o p v m, holds-append p o order, h p);
}

-- `rememberOperation` keeps a window that is one: at most 32 operations, none twice, and the map
-- and the order of arrival hold the same operations.
pub remember_operation-IsWindow :
    (e : Entry) (o v : Text) → IsWindow e → IsWindow (remember_operation e o v)
unfolding remember_operation
remember_operation-IsWindow e o v w = elim (Bool-cases (text_eq o [])) [
  | inl empty ↦ rw empty w
  | inr named ↦ elim (Bool-cases (is_present (lookup o e.operations))) [
    | inl old ↦ rw (named, old) w
    | inr new ↦ elim (Bool-cases (length e.operation_order == operation_window)) [
      | inl full ↦
          rw (named, new, full)
            (extended e o v (drop_first e.operation_order)
              (forget_first e.operation_order e.operations)
              (ground (arith, length-drop_first e.operation_order))
              (drop-Unique e.operation_order w.unique)
              (λ p. holds-drop p e.operation_order e.operations w.unique w.in_step)
              (ground (arith, holds-drop_le o e.operation_order, w.in_step o)))
      | inr room ↦
          rw (named, new, room)
            (extended e o v e.operation_order e.operations (ground (arith, w.bounded)) w.unique
              w.in_step (ground (arith, w.in_step o)))
    ]
  ]
]

unfoldable pub oldest : List Text → Text → Bool
oldest [] o = false
oldest (x ∷ xs) o = text_eq x o

forget-lookup :
    (p : Text) (xs : List Text) (m : Map Text Text)
    → lookup p (forget_first xs m) ≡ (if oldest xs p then none else lookup p m)
unfolding forget_first oldest
forget-lookup p [] m = refl
forget-lookup p (x ∷ xs) m = lookup-delete x p m

-- After `rememberOperation` the entry answers a retry: a named operation that was unseen has the
-- new event, one seen before keeps its first event, and every other operation keeps its answer,
-- except that a full window gives up its oldest operation for an unseen one.
pub operation_event-remember :
    (e : Entry) (o v p : Text)
    → operation_event (remember_operation e o v) p ≡ (
        if text_eq o [] || is_present (operation_event e o)
        then operation_event e p
        else if text_eq o p
        then some v
        else if length e.operation_order == operation_window && oldest e.operation_order p
        then none
        else operation_event e p)
unfolding operation_event remember_operation is_present
operation_event-remember e o v p = ground (
  arith,
  lookup-insert o p v e.operations,
  lookup-insert o p v (forget_first e.operation_order e.operations),
  forget-lookup p e.operation_order e.operations,
  text_eq_iff o p,
  text_eq_iff o [],
  text_eq_iff p [],
)
