-- ===== src/Registry/Lifecycle.antt =====
-- Fences received from peers, the DELAYED projection, expiry and collection on one shard
-- (backend/internal/registry/apply.go and lifecycle.go).
use mini_eureka.Prelude.{
  ◌+◌, ◌%◌, ◌^◌, ◌==◌, if◌then◌else◌, Bool, true, false, not, ◌&&◌, ◌||◌, Option, none, some, List,
  [], ◌∷◌, ◌++◌, length,
}
use mini_eureka.Prelude.Int.{ltb_ℤ}
use mini_eureka.Prelude.Order.{is_gt, is_eq}
use mini_eureka.Prelude.Time.{Time, Duration, is_zero_time, after, sub_time}
use mini_eureka.Prelude.Text.{Text, text_eq}
use mini_eureka.Prelude.Map.{Map, lookup, insert, text_key}
use mini_eureka.Model.Error.{Error}
use mini_eureka.Model.Version.{Version, compare_version, validate_version}
use mini_eureka.Model.Instance.{
  Instance, InstanceStatus, StatusReason, Key, status_eq, clone, discoverable, validate_key,
}
use mini_eureka.Model.Mutation.{MutationKind, kind_eq, kind_terminal}
use mini_eureka.Registry.Entry.{Entry, Fence}
use mini_eureka.Registry.Compare.{compare_fence_to_entry, compare_fences}
use mini_eureka.Registry.Shard.{Shard, Instances, bump, find, put, remove, key_key}

is_error : Option Error → Bool
is_error none = false
is_error (some e) = true

-- The guard of `ApplyFence`.
unfoldable pub fence_valid : Fence → Bool
unfolding is_error
fence_valid f = not (
    is_error (validate_key f.key)
    || is_error (validate_version f.lease_epoch)
    || is_error (validate_version f.version)
    || text_eq f.event_id []
    || f.generation == 0
    || (not (kind_eq f.kind MutationKind.ttl_expire) && not (kind_terminal f.kind)))

-- `compare(fence, current) <= 0` where there is a current value.
unfoldable pub entry_holds : Fence → Option Entry → Bool
entry_holds f none = false
entry_holds f (some e) = not (is_gt (compare_fence_to_entry f e))

unfoldable pub fence_holds : Fence → Option Fence → Bool
fence_holds f none = false
fence_holds f (some g) = not (is_gt (compare_fences f g))

unfoldable pub drop_entry : Option Entry → Key → Shard → Shard
drop_entry none k s = s
drop_entry (some e) k s = record s { services = remove k s.services }

-- `ApplyFence` on the shard of the fence's key.
unfoldable pub apply_fence_shard : Fence → Shard → Shard × Bool
unfolding entry_holds fence_holds drop_entry
apply_fence_shard f s =
    if not (fence_valid f)
    then (s, false)
    else if entry_holds f (find s f.key)
    then (s, false)
    else let cleared = drop_entry (find s f.key) f.key s in
      if fence_holds f (lookup f.key cleared.fences) then (cleared, false) else (
        record cleared { fences = insert f.key f cleared.fences; revision = bump cleared.revision },
        true,
      )

-- The record that `MarkDelayed` leaves in the entry.
unfoldable pub delayed_entry : Entry → Time → Entry
delayed_entry e at' = record e {
  instance = record e.instance {
    status = InstanceStatus.delayed;
    status_reason = StatusReason.heartbeat_delayed;
    updated_at = at';
  };
}

-- The lease identity and version are those that were scheduled, and the instance is ACTIVE.
unfoldable pub delay_matches : Entry → Text → Version → Bool
delay_matches e lease_id expected =
    text_eq e.instance.lease_id lease_id
    && is_eq (compare_version e.instance.version expected)
    && status_eq e.instance.status InstanceStatus.active

-- `MarkDelayed`
unfoldable pub mark_delayed : Key → Text → Version → Time → Shard → Shard × Option Instance
unfolding delayed_entry delay_matches
mark_delayed k lease_id expected at' s = elim (find s k) [
  | none ↦ (s, none)
  | some e ↦ if not (delay_matches e lease_id expected) then (s, none) else (
    record s { services = put k (delayed_entry e at') s.services; revision = bump s.revision },
    some (clone (delayed_entry e at').instance),
  )
]

-- The test of `Expired`.
unfoldable pub is_expired : Time → Entry → Bool
is_expired now e =
    discoverable e.instance
    && not (is_zero_time e.instance.lease_deadline)
    && not (after e.instance.lease_deadline now)

expired_instances : Time → Instances → List Instance
unfolding is_expired
expired_instances now [] = []
expired_instances now ((i, e) ∷ m) =
    let rest = expired_instances now m in if is_expired now e then clone e.instance ∷ rest else rest

-- `Expired` on one shard.
unfoldable pub expired : Time → Map Text Instances → List Instance
unfolding expired_instances
expired now [] = []
expired now ((service, instances) ∷ m) = expired_instances now instances ++ expired now m

retained_long_enough : Time → Duration → Option Time → Bool
retained_long_enough now retention none = false
retained_long_enough now retention (some t) = not (ltb_ℤ (sub_time now t) retention)

-- The test of `GC`: a tombstone that is older than the retention.
unfoldable pub collectible : Time → Duration → Entry → Bool
unfolding retained_long_enough
collectible now retention e =
    status_eq e.instance.status InstanceStatus.evicted
    && retained_long_enough now retention e.instance.evicted_at

-- The inner loop of `GC`: the instances that stay, and the keys removed.
unfoldable pub sweep : Time → Duration → Text → Instances → Instances × List Key
unfolding collectible
sweep now retention service [] = ([], [])
sweep now retention service ((i, e) ∷ m) =
    let (kept, gone) = sweep now retention service m in
    if collectible now retention e
    then (kept, record { service = service; instance_id = i } ∷ gone)
    else ((i, e) ∷ kept, gone)

-- The loop over the services: one that is left without instances goes too.
unfoldable pub sweep_services : Time → Duration → Map Text Instances → Map Text Instances × List Key
unfolding sweep
sweep_services now retention [] = ([], [])
sweep_services now retention ((service, instances) ∷ m) =
    let (kept, gone) = sweep now retention service instances in
    let (services, keys) = sweep_services now retention m in
    (if length kept == 0 then services else (service, kept) ∷ services, gone ++ keys)

-- `GC` on one shard: the revision counts each removal.
unfoldable pub gc : Time → Duration → Shard → Shard × List Key
unfolding sweep_services
gc now retention s =
    let (services, keys) = sweep_services now retention s.services in
    (record s { services = services; revision = (s.revision + length keys) % 2 ^ 64 }, keys)
