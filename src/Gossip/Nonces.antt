-- ===== src/Gossip/Nonces.antt =====
-- The nonce cache of backend/internal/gossip/wire.go. The readings of the wall clock are arguments.
use mini_eureka.Prelude.{
  ℕ, suc, ◌+◌, ◌<◌, ◌≤◌, ltb, leb, if◌then◌else◌, Bool, true, false, not, ◌||◌, Option, none, some,
  [], ◌∷◌, length, ◌≡◌, arith, refl, Bool-cases, inl, inr,
}
use mini_eureka.Prelude.Text.{Text, text_eq, text_eq_iff}
use mini_eureka.Prelude.Time.{Time, after}
use mini_eureka.Prelude.Map.{Map, lookup, insert, lookup-insert, text_key}

-- `nonceCache`
pub record Nonces : Type 0 where
  pub entries : Map Text Time
  pub capacity : ℕ

-- The `range` that makes room, over the entries that it has not visited, with the number of those
-- that it has kept. It stops once the cache is below its capacity.
unfoldable pub make_room : ℕ → Time → ℕ → Map Text Time → Map Text Time
make_room capacity now kept [] = []
make_room capacity now kept ((k, deadline) ∷ m) =
    let dropped = make_room capacity now kept m in
    let held = make_room capacity now (suc kept) m in
    if not (after deadline now) || leb capacity (kept + suc (length m))
    then (if ltb (kept + length m) capacity then m else dropped)
    else if ltb (kept + suc (length m)) capacity
    then (k, deadline) ∷ m
    else (k, deadline) ∷ held

-- Whether a nonce is in the cache and has not expired.
unfoldable pub is_live : Option Time → Time → Bool
is_live none now = false
is_live (some deadline) now = after deadline now

-- `Add`
unfoldable pub add : Text → Time → Time → Nonces → Nonces × Bool
unfolding make_room is_live
add key expires now c =
    let entries =
      if leb c.capacity (length c.entries)
      then make_room c.capacity now 0 c.entries
      else c.entries in
    if is_live (lookup key c.entries) now
    then (c, false)
    else (record c { entries = insert key expires entries }, true)

length-insert : (k : Text) (t : Time) (m : Map Text Time) → length (insert k t m) ≤ length m + 1
unfolding insert
length-insert k t [] = omega arith
length-insert k t ((j, u) ∷ m) = ground (arith, length-insert k t m)

-- A live nonce stays in a cache that has room, whatever is added.
pub add-keeps :
    (key other : Text) (expires due now : Time) (c : Nonces)
    → length c.entries < c.capacity
    → lookup key c.entries ≡ some due
    → after due now ≡ true
    → (lookup key (add other expires now c).0.entries ≡ some due)
      × (length (add other expires now c).0.entries ≤ length c.entries + 1)
      × ((add other expires now c).0.capacity ≡ c.capacity)
unfolding add
add-keeps key other expires due now c room held live = elim (Bool-cases (text_eq other key)) [
  | inl same ↦ let e = (text_eq_iff other key).0 same in rw e (ground (arith, held, live))
  | inr apart ↦ (
    ground (arith, lookup-insert other key expires c.entries, held),
    ground (arith, length-insert other expires c.entries),
    ground arith,
  )
]

pub add-live :
    (key : Text) (expires due now : Time) (c : Nonces)
    → lookup key c.entries ≡ some due
    → after due now ≡ true
    → add key expires now c ≡ (c, false)
unfolding add
add-live key expires due now c held live = ground (arith, held, live)

pub add-expired :
    (key : Text) (expires now : Time) (c : Nonces)
    → is_live (lookup key c.entries) now ≡ false
    → ((add key expires now c).1 ≡ true)
      × (lookup key (add key expires now c).0.entries ≡ some expires)
unfolding add
add-expired key expires now c h = elim (Bool-cases (leb c.capacity (length c.entries))) [
  | inl full ↦ ground (
    arith,
    lookup-insert key key expires (make_room c.capacity now 0 c.entries),
    (text_eq_iff key key).1 refl,
  )
  | inr room ↦ ground (arith, lookup-insert key key expires c.entries, (text_eq_iff key key).1 refl)
]
