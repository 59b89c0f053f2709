-- ===== src/Registry/Store.antt =====
-- The sharded registry (backend/internal/registry/registry.go): which shard a service belongs to,
-- and `Apply` on it.
use mini_eureka.Prelude.{
  ℕ, zero, suc, ◌+◌, ◌-◌, ◌*◌, ◌%◌, ◌^◌, ◌<◌, ◌==◌, if◌then◌else◌, Bool, true, false, not, ◌||◌,
  none, List, [], ◌∷◌, ◌++◌, Option, ◌≡◌, arith, refl, ap, ◌∙◌, length, length-set, replicate,
  get_or, set, get_or-set_self, get_or-set_ne, Bool-cases, inl, inr, ==_iff,
}
use Prim.Native.Nat.{bit_and, bit_xor}
use mini_eureka.Prelude.Bits.{bit_and-le}
use mini_eureka.Prelude.Int.{ℤ, pos, leb_ℤ, pos_part}
use mini_eureka.Prelude.Text.{Text}
use mini_eureka.Prelude.Time.{Time, Duration}
use mini_eureka.Model.Error.{Result, ok, err, message, text}
use mini_eureka.Model.Version.{Version}
use mini_eureka.Model.Instance.{Instance, Key, instance_key}
use mini_eureka.Registry.Entry.{Fence}
use mini_eureka.Registry.Lifecycle.{apply_fence_shard, mark_delayed, gc}
use mini_eureka.Model.Mutation.{Mutation, validate_mutation}
use mini_eureka.Registry.Compare.{Platform}
use mini_eureka.Registry.Shard.{Shard, ApplyResult, empty_shard, apply_shard, key_eq, key_eq_iff}
use mini_eureka.Registry.Cell.{Cell, cell, apply_cell, apply_shard-cell}
use mini_eureka.Registry.Run.{apply}

-- `Registry`, without its wall clock.
pub record Store : Type 0 where
  pub shards : List Shard
  pub mask : ℕ

-- `New`. The test for a power of two clears the lowest bit of the count.
unfoldable pub new_store : ℤ → Result Store
new_store count =
    let n = pos_part count in
    if leb_ℤ count (pos 0) || not (bit_and n (n - 1) == 0)
    then err (message (text "registry shard count must be a power of two"))
    else ok (record { shards = replicate n empty_shard; mask = n - 1 })

-- `fnv.New64a`: the bytes are mixed into the hash one after the other.
unfoldable pub fnv64a : ℕ → Text → ℕ
fnv64a h [] = h
fnv64a h (c ∷ s) = fnv64a (bit_xor h c * 1099511628211 % 2 ^ 64) s

-- `ShardIndex`
unfoldable pub shard_index : Store → Text → ℕ
unfolding fnv64a
shard_index r service = bit_and (fnv64a 14695981039346656037 service) r.mask

-- `shardFor`
unfoldable pub shard_for : Store → Text → Shard
shard_for r service = get_or r.shards (shard_index r service) empty_shard

-- `Apply`: the validation, and the step on the shard of the mutation's service.
unfoldable pub apply_store : Platform → Mutation → Time → Store → Store × Result ApplyResult
unfolding shard_for
apply_store pl m now r =
    let (s, result) = apply pl m now (shard_for r m.instance.service) in
    (record r { shards = set r.shards (shard_index r m.instance.service) s }, result)

-- `ApplyFence`, on the shard of the fence's service.
unfoldable pub apply_fence_store : Fence → Store → Store × Bool
unfolding shard_for
apply_fence_store f r =
    let (s, changed) = apply_fence_shard f (shard_for r f.key.service) in
    (record r { shards = set r.shards (shard_index r f.key.service) s }, changed)

-- `MarkDelayed`, on the shard of the key's service.
unfoldable pub mark_delayed_store : Key → Text → Version → Time → Store → Store × Option Instance
unfolding shard_for
mark_delayed_store k lease_id expected at' r =
    let (s, delayed) = mark_delayed k lease_id expected at' (shard_for r k.service) in
    (record r { shards = set r.shards (shard_index r k.service) s }, delayed)

-- The loop of `GC` over the shards.
unfoldable pub gc_shards : Time → Duration → List Shard → List Shard × List Key
gc_shards now retention [] = ([], [])
gc_shards now retention (s ∷ ss) =
    let (s', keys) = gc now retention s in
    let (ss', rest) = gc_shards now retention ss in (s' ∷ ss', keys ++ rest)

-- `GC`
unfoldable pub gc_store : Time → Duration → Store → Store × List Key
unfolding gc_shards
gc_store now retention r =
    let (shards, keys) = gc_shards now retention r.shards in (record r { shards = shards }, keys)

-- The mask is one less than the number of shards.
pub record IsStore (r : Store) : Type 0 where
  pub masked : length r.shards ≡ r.mask + 1

length-replicate : (n : ℕ) (s : Shard) → length (replicate n s) ≡ n
length-replicate zero s = refl
length-replicate (suc n) s = ap suc (length-replicate n s)

-- The registry that `New` makes has a mask that fits its shards.
pub new_store-IsStore : (count : ℤ) (r : Store) → new_store count ≡ ok r → IsStore r
unfolding new_store
new_store-IsStore count r h = record {
  masked = ground (arith, length-replicate (pos_part count) empty_shard);
}

-- Where the mask fits the shards, every service has a shard: its index is in range.
pub shard_index_bound :
    (r : Store) (service : Text) → IsStore r → shard_index r service < length r.shards
unfolding shard_index
shard_index_bound r service g =
    omega (arith, bit_and-le (fnv64a 14695981039346656037 service) r.mask, g.masked)

-- What the registry holds of a key.
unfoldable pub store_cell : Store → Key → Cell
store_cell r k = cell (shard_for r k.service) k

valid_apply :
    (pl : Platform) (m : Mutation) (now : Time) (s : Shard)
    → validate_mutation m ≡ none
    → (apply pl m now s).0 ≡ (apply_shard pl m now s).0
unfolding apply
valid_apply pl m now s v = ground arith

shard_for-set :
    (r : Store) (service other : Text) (s : Shard)
    → IsStore r
    → shard_for (record r { shards = set r.shards (shard_index r service) s }) other
      ≡ (if shard_index r service == shard_index r other then s else shard_for r other)
unfolding shard_for shard_index
shard_for-set r service other s g =
    elim (Bool-cases (shard_index r service == shard_index r other)) [
      | inl same ↦
          rw (same, ← (==_iff (shard_index r service) (shard_index r other)).0 same)
            (get_or-set_self r.shards (shard_index r service) s empty_shard
              (shard_index_bound r service g))
      | inr apart ↦ rw apart (
          get_or-set_ne r.shards (shard_index r service) (shard_index r other) s empty_shard
            (λ e. ground (arith, e)))
    ]

shard_for-same :
    (r : Store) (a b : Text)
    → (shard_index r a == shard_index r b) ≡ true
    → shard_for r a ≡ shard_for r b
unfolding shard_for
shard_for-same r a b h =
    ap (λ i. get_or r.shards i empty_shard) ((==_iff (shard_index r a) (shard_index r b)).0 h)

key_eq-apart :
    (r : Store) (k j : Key)
    → (shard_index r k.service == shard_index r j.service) ≡ false
    → key_eq k j ≡ false
key_eq-apart r k j h = elim (Bool-cases (key_eq k j)) [
  | inr other ↦ other
  | inl here ↦ absurd (
      ground (
        arith,
        ap (λ i. shard_index r i.service) ((key_eq_iff k j).0 here),
        h,
        (==_iff (shard_index r k.service) (shard_index r j.service)).1,
      ))
]

-- `Apply` of a valid mutation on the sharded registry, with a mask that fits its shards, is the
-- step on what it holds of the mutation's key, and changes what it holds of no other key, also of
-- one in the same shard; the mask still fits.
pub apply_store-cell :
    (pl : Platform) (m : Mutation) (now : Time) (r : Store) (j : Key)
    → IsStore r
    → validate_mutation m ≡ none
    → (store_cell (apply_store pl m now r).0 j ≡ (
        if key_eq (instance_key m.instance) j
        then apply_cell pl m now (store_cell r (instance_key m.instance))
        else store_cell r j))
      × IsStore (apply_store pl m now r).0
unfolding apply_store store_cell instance_key
apply_store-cell pl m now r j g v =
    let after =
      shard_for-set r m.instance.service j.service
        (apply pl m now (shard_for r m.instance.service)).0 g in
    (
      elim (Bool-cases (shard_index r m.instance.service == shard_index r j.service)) [
        | inl same ↦
            rw
              (
                after,
                same,
                valid_apply pl m now (shard_for r m.instance.service) v,
                ← shard_for-same r m.instance.service j.service same,
              )
              (apply_shard-cell pl m now (shard_for r m.instance.service) j)
        | inr apart ↦ rw (after, apart, key_eq-apart r (instance_key m.instance) j apart) refl
      ],
      record { masked = length-set r.shards _ _ ∙ g.masked },
    )
