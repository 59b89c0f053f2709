-- ===== src/Registry/Cell.antt =====
-- The abstract view of a shard: at each key an entry and a fence, which the operations change
-- without a look at any other key.
use mini_eureka.Prelude.{
  ℕ, ◌||◌, Ordering, Bool, not, if◌then◌else◌, Option, none, some, ◌≡◌, arith, refl, Option-cases,
  inl, inr,
}
use mini_eureka.Prelude.Time.{Time}
use mini_eureka.Prelude.Text.{Text}
use mini_eureka.Prelude.Map.{lookup, insert, lookup-insert}
use mini_eureka.Model.Instance.{Instance, InstanceStatus, Key, instance_key, status_eq}
use mini_eureka.Model.Version.{Version}
use mini_eureka.Model.Mutation.{Mutation}
use mini_eureka.Registry.Entry.{Entry, Fence, operation_event, remember_operation}
use mini_eureka.Registry.Compare.{Platform, compare_incoming}
use mini_eureka.Registry.Shard.{
  Shard, bump, find, put, remove, store, update_fence, fence_of, fenced_off, created, replacement,
  apply_new, apply_current, apply_shard, key_eq, key_eq_iff, key_key,
}
use mini_eureka.Registry.Lifecycle.{
  apply_fence_shard, fence_valid, entry_holds, fence_holds, drop_entry, mark_delayed, delay_matches,
  delayed_entry,
}
use mini_eureka.Registry.Find.{at_key-put, at_key-remove}

abbrev pub Cell : Type 0
Cell = Option Entry × Option Fence

unfoldable pub cell : Shard → Key → Cell
cell s k = (find s k, lookup k s.fences)

abbrev pub is_evicted : Instance → Bool
is_evicted i = status_eq i.status InstanceStatus.evicted

-- `updateFence` at the mutation's key.
unfoldable pub fence_after : Mutation → Option Fence → Option Fence
fence_after m f = if is_evicted m.instance then some (fence_of m) else f

unfoldable pub apply_cell : Platform → Mutation → Time → Cell → Cell
unfolding fence_after
apply_cell pl m now (none, f) =
    if fenced_off m f then (none, f) else (some (created m now), fence_after m f)
apply_cell pl m now (some e, f) = elim (operation_event e m.operation_id) [
  | some event_id ↦ (some e, f)
  | none ↦ elim (compare_incoming pl m e) [
    | Ordering.eq ↦ (some (remember_operation e m.operation_id e.event_id), f)
    | Ordering.lt ↦ (some e, f)
    | Ordering.gt ↦ (some (replacement m e now), fence_after m f)
  ]
]

cell-absent : (s : Shard) (k : Key) → find s k ≡ none → cell s k ≡ (none, lookup k s.fences)
unfolding cell
cell-absent s k h = rw h

cell-present :
    (s : Shard) (k : Key) (e : Entry) → find s k ≡ some e → cell s k ≡ (some e, lookup k s.fences)
unfolding cell
cell-present s k e h = rw h

cell-store :
    (m : Mutation) (e : Entry) (s : Shard) (j : Key)
    → cell (store m e s) j ≡ (
        if key_eq (instance_key m.instance) j
        then (some e, fence_after m (lookup (instance_key m.instance) s.fences))
        else cell s j)
unfolding cell store update_fence fence_after find
cell-store m e s j = ground (
  arith,
  at_key-put (instance_key m.instance) j e s.services,
  lookup-insert (instance_key m.instance) j (fence_of m) s.fences,
  key_eq_iff (instance_key m.instance) j,
)

cell-put :
    (k : Key) (e : Entry) (r : ℕ) (s : Shard) (j : Key)
    → cell (record s { services = put k e s.services; revision = r }) j
      ≡ (if key_eq k j then (some e, lookup k s.fences) else cell s j)
unfolding cell find
cell-put k e r s j = ground (arith, at_key-put k j e s.services, key_eq_iff k j)

-- `ApplyFence` at the fence's key.
unfoldable pub apply_fence_cell : Fence → Cell → Cell
unfolding entry_holds fence_holds
apply_fence_cell f (e, g) =
    if not (fence_valid f) || entry_holds f e
    then (e, g)
    else if fence_holds f g
    then (none, g)
    else (none, some f)

-- `MarkDelayed` at its key.
unfoldable pub delay_cell : Text → Version → Time → Cell → Cell
delay_cell lease_id expected at' (none, g) = (none, g)
delay_cell lease_id expected at' (some e, g) =
    if delay_matches e lease_id expected then (some (delayed_entry e at'), g) else (some e, g)

cell-remove :
    (k : Key) (s : Shard) (j : Key)
    → cell (record s { services = remove k s.services }) j
      ≡ (if key_eq k j then (none, lookup k s.fences) else cell s j)
unfolding cell find
cell-remove k s j = ground (arith, at_key-remove k j s.services, key_eq_iff k j)

cell-drop :
    (e : Option Entry) (k : Key) (s : Shard) (j : Key)
    → find s k ≡ e
    → cell (drop_entry e k s) j ≡ (if key_eq k j then (none, lookup k s.fences) else cell s j)
unfolding drop_entry
cell-drop none k s j h = ground (arith, cell-absent s k h, key_eq_iff k j)
cell-drop (some e) k s j h = cell-remove k s j

fences-drop : (e : Option Entry) (k : Key) (s : Shard) → (drop_entry e k s).fences ≡ s.fences
unfolding drop_entry
fences-drop none k s = refl
fences-drop (some e) k s = refl

cell-fence :
    (f : Fence) (r : ℕ) (s : Shard) (j : Key)
    → cell (record s { fences = insert f.key f s.fences; revision = r }) j
      ≡ (if key_eq f.key j then ((cell s f.key).0, some f) else cell s j)
unfolding cell find
cell-fence f r s j = ground (arith, lookup-insert f.key j f s.fences, key_eq_iff f.key j)

-- The detailed `ApplyFence` is `apply_fence_cell` at the fence's key, and changes no other key.
pub apply_fence_shard-cell :
    (f : Fence) (s : Shard) (j : Key)
    → cell (apply_fence_shard f s).0 j
      ≡ (if key_eq f.key j then apply_fence_cell f (cell s f.key) else cell s j)
unfolding apply_fence_shard apply_fence_cell cell
apply_fence_shard-cell f s j = ground (
  arith,
  cell-drop (find s f.key) f.key s j,
  cell-drop (find s f.key) f.key s f.key,
  fences-drop (find s f.key) f.key s,
  cell-fence f (bump (drop_entry (find s f.key) f.key s).revision)
      (drop_entry (find s f.key) f.key s) j,
  key_eq_iff f.key j,
  key_eq_iff f.key f.key,
)

-- The detailed `MarkDelayed` is `delay_cell` at its key, and changes no other key.
pub mark_delayed-cell :
    (k : Key) (lease_id : Text) (expected : Version) (at' : Time) (s : Shard) (j : Key)
    → cell (mark_delayed k lease_id expected at' s).0 j
      ≡ (if key_eq k j then delay_cell lease_id expected at' (cell s k) else cell s j)
unfolding mark_delayed delay_cell cell
mark_delayed-cell k lease_id expected at' s j = elim (Option-cases (find s k)) [
  | inl absent ↦ ground (arith, key_eq_iff k j)
  | inr (e, present) ↦
      ground (arith, cell-put k (delayed_entry e at') (bump s.revision) s j, key_eq_iff k j)
]

apply_new-cell :
    (pl : Platform) (m : Mutation) (now : Time) (s : Shard) (j : Key)
    → find s (instance_key m.instance) ≡ none
    → cell (apply_new m now s).0 j ≡ (
        if key_eq (instance_key m.instance) j
        then apply_cell pl m now (none, lookup (instance_key m.instance) s.fences)
        else cell s j)
unfolding apply_new apply_cell
apply_new-cell pl m now s j h = ground (
  arith,
  cell-store m (created m now) s j,
  cell-absent s (instance_key m.instance) h,
  key_eq_iff (instance_key m.instance) j,
)

apply_current-cell :
    (pl : Platform) (m : Mutation) (now : Time) (e : Entry) (s : Shard) (j : Key)
    → find s (instance_key m.instance) ≡ some e
    → cell (apply_current pl m now e s).0 j ≡ (
        if key_eq (instance_key m.instance) j
        then apply_cell pl m now (some e, lookup (instance_key m.instance) s.fences)
        else cell s j)
unfolding apply_current apply_cell
apply_current-cell pl m now e s j h = ground (
  arith,
  cell-store m (replacement m e now) s j,
  cell-put (instance_key m.instance) (remember_operation e m.operation_id e.event_id) s.revision s
      j,
  cell-present s (instance_key m.instance) e h,
  key_eq_iff (instance_key m.instance) j,
)

-- The detailed `Apply` on the nested maps of a shard is `apply_cell` at the mutation's key, and
-- changes no other key.
pub apply_shard-cell :
    (pl : Platform) (m : Mutation) (now : Time) (s : Shard) (j : Key)
    → cell (apply_shard pl m now s).0 j ≡ (
        if key_eq (instance_key m.instance) j
        then apply_cell pl m now (cell s (instance_key m.instance))
        else cell s j)
unfolding apply_shard cell
apply_shard-cell pl m now s j = elim (Option-cases (find s (instance_key m.instance))) [
  | inl absent ↦ rw (absent, apply_shard) (apply_new-cell pl m now s j absent)
  | inr (e, present) ↦ rw (present, apply_shard) (apply_current-cell pl m now e s j present)
]
