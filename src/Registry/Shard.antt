-- ===== src/Registry/Shard.antt =====
-- One shard of the registry: what its methods do under the shard's lock, each as one step
-- (backend/internal/registry/apply.go and lifecycle.go).
use mini_eureka.Prelude.{
  refl, ℕ, ◌+◌, ◌-◌, ◌*◌, ◌%◌, ◌^◌, Ordering, ◌==◌, if◌then◌else◌, Bool, true, false, not, ◌&&◌,
  Option, none, some, [], length, ◌↔◌, ◌≡◌, arith,
}
use mini_eureka.Prelude.Int.{ℤ, pos, ltb_ℤ, negsuc, wrap_int64}
use mini_eureka.Prelude.Order.{is_gt}
use mini_eureka.Prelude.Time.{Time, Duration, zero_time, add_time, millisecond}
use mini_eureka.Prelude.Text.{Text, text_eq, text_eq_iff}
use mini_eureka.Prelude.Map.{Map, Eq, lookup, insert, delete, text_key}
use mini_eureka.Model.Version.{compare_version}
use mini_eureka.Model.Instance.{Instance, InstanceStatus, Key, instance_key, status_eq, clone}
use mini_eureka.Model.Mutation.{Mutation, MutationKind}
use mini_eureka.Registry.Entry.{Entry, Fence, operation_event, remember_operation}
use mini_eureka.Registry.Compare.{Platform, compare_incoming, incoming_beats_fence}

unfoldable pub key_eq : Key → Key → Bool
key_eq k j = text_eq k.service j.service && text_eq k.instance_id j.instance_id

pub key_eq_iff : (k j : Key) → (key_eq k j ≡ true) ↔ (k ≡ j)
unfolding key_eq
key_eq_iff k j =
    ground (arith, text_eq_iff k.service j.service, text_eq_iff k.instance_id j.instance_id)

instance abbrev pub key_key : Eq Key
key_key = record { beq = key_eq; beq_iff = key_eq_iff }

abbrev pub Instances : Type 0
Instances = Map Text Entry

-- `shard`, without its lock. The revision is a uint64.
pub record Shard : Type 0 where
  pub services : Map Text Instances
  pub fences : Map Key Fence
  pub revision : ℕ

abbrev pub empty_shard : Shard
empty_shard = record { services = []; fences = []; revision = 0 }

abbrev pub bump : ℕ → ℕ
bump n = (n + 1) % 2 ^ 64

-- `s.services[service]`, a nil map where there is none.
unfoldable pub instances_of : Text → Map Text Instances → Instances
instances_of service services = elim (lookup service services) [
  | none ↦ []
  | some instances ↦ instances
]

-- `s.services[key.Service][key.InstanceID]`
unfoldable pub find : Shard → Key → Option Entry
unfolding instances_of
find s k = lookup k.instance_id (instances_of k.service s.services)

-- `instances[key.InstanceID] = e`, with the map of the service made if it is missing.
unfoldable pub put : Key → Entry → Map Text Instances → Map Text Instances
unfolding instances_of
put k e services =
    insert k.service (insert k.instance_id e (instances_of k.service services)) services

-- `delete(instances, key.InstanceID)`, and the service too if it is left without instances.
unfoldable pub remove : Key → Map Text Instances → Map Text Instances
unfolding instances_of
remove k services =
    let rest = delete k.instance_id (instances_of k.service services) in
    if length rest == 0 then delete k.service services else insert k.service rest services

-- `ApplyResult`
pub record ApplyResult : Type 0 where
  pub instance : Option Instance
  pub previous : Option Instance
  pub event_id : Text
  pub applied : Bool
  pub duplicate : Bool
  pub stale : Bool

abbrev pub duplicate_of : Entry → Text → ApplyResult
duplicate_of e event_id = record {
  instance = some (clone e.instance);
  previous = none;
  event_id = event_id;
  applied = false;
  duplicate = true;
  stale = false;
}

abbrev pub stale_result : Option Instance → ApplyResult
stale_result i = record {
  instance = i;
  previous = none;
  event_id = [];
  applied = false;
  duplicate = false;
  stale = true;
}

abbrev pub applied_result : Instance → Option Instance → Text → ApplyResult
applied_result i previous event_id = record {
  instance = some (clone i);
  previous = previous;
  event_id = event_id;
  applied = true;
  duplicate = false;
  stale = false;
}

-- `time.Duration(ms) * time.Millisecond`, an int64 product.
unfoldable pub to_duration : ℤ → Duration
to_duration (pos n) = wrap_int64 (pos (n * millisecond))
to_duration (negsuc n) = wrap_int64 (negsuc (n * millisecond + (millisecond - 1)))

-- The local deadline of a lease, by the kind of the mutation.
lease_deadline : MutationKind → ℤ → Time → Time → Time
lease_deadline MutationKind.register ttl supplied now =
    if ltb_ℤ (pos 0) ttl then add_time now (to_duration ttl) else zero_time
lease_deadline MutationKind.heartbeat ttl supplied now =
    if ltb_ℤ (pos 0) ttl then add_time now (to_duration ttl) else zero_time
lease_deadline MutationKind.delayed ttl supplied now = supplied
lease_deadline _ ttl supplied now = zero_time

-- `prepareIncoming`
unfoldable pub prepare_incoming : Mutation → Time → Instance
unfolding lease_deadline
prepare_incoming m now = record (clone m.instance) {
  lease_deadline =
      lease_deadline m.kind m.remaining_ttl_millis (clone m.instance).lease_deadline now;
  last_remaining_ttl_ms = m.remaining_ttl_millis;
}

pub heartbeat_deadline :
    (m : Mutation) (now : Time)
    → m.kind ≡ MutationKind.heartbeat
    → (prepare_incoming m now).lease_deadline ≡ (
        if ltb_ℤ (pos 0) m.remaining_ttl_millis
        then add_time now (to_duration m.remaining_ttl_millis)
        else zero_time)
unfolding prepare_incoming lease_deadline clone
heartbeat_deadline m now h = rw h refl

abbrev pub fence_of : Mutation → Fence
fence_of m = record {
  key = instance_key m.instance;
  lease_epoch = m.instance.lease_epoch;
  version = m.instance.version;
  kind = m.kind;
  event_id = m.event_id;
  generation = m.instance.generation;
}

-- `updateFence`
unfoldable pub update_fence : Mutation → Map Key Fence → Map Key Fence
update_fence m fences =
    if not (status_eq m.instance.status InstanceStatus.evicted)
    then fences
    else insert (instance_key m.instance) (fence_of m) fences

-- `ok && !incomingBeatsFence(mutation, fence)`
unfoldable pub fenced_off : Mutation → Option Fence → Bool
fenced_off m none = false
fenced_off m (some f) = not (incoming_beats_fence m f)

-- The entry that replaces `current`; the operations of an older lease are given up.
unfoldable pub replacement : Mutation → Entry → Time → Entry
replacement m current now =
    let incoming = prepare_incoming m now in
    let newer = is_gt (compare_version incoming.lease_epoch current.instance.lease_epoch) in
    remember_operation
      (record {
        instance = incoming;
        kind = m.kind;
        event_id = m.event_id;
        operations = if newer then [] else current.operations;
        operation_order = if newer then [] else current.operation_order;
      })
      m.operation_id m.event_id

unfoldable pub created : Mutation → Time → Entry
created m now =
    remember_operation
      (record {
        instance = prepare_incoming m now;
        kind = m.kind;
        event_id = m.event_id;
        operations = [];
        operation_order = [];
      })
      m.operation_id m.event_id

-- The entry stored, the fence updated, the revision counted.
unfoldable pub store : Mutation → Entry → Shard → Shard
unfolding put update_fence
store m e s = record {
  services = put (instance_key m.instance) e s.services;
  fences = update_fence m s.fences;
  revision = bump s.revision;
}

-- `Apply` on a key that holds no entry.
unfoldable pub apply_new : Mutation → Time → Shard → Shard × ApplyResult
apply_new m now s =
    if fenced_off m (lookup (instance_key m.instance) s.fences)
    then (s, stale_result none)
    else (store m (created m now) s, applied_result (prepare_incoming m now) none m.event_id)

-- `Apply` on a key that holds an entry: an operation seen before, then the three decisions.
unfoldable pub apply_current : Platform → Mutation → Time → Entry → Shard → Shard × ApplyResult
apply_current pl m now current s = elim (operation_event current m.operation_id) [
  | some event_id ↦ (s, duplicate_of current event_id)
  | none ↦ elim (compare_incoming pl m current) [
    | Ordering.eq ↦ (
      record s {
        services =
            put (instance_key m.instance)
              (remember_operation current m.operation_id current.event_id) s.services;
      },
      duplicate_of current current.event_id,
    )
    | Ordering.lt ↦ (s, stale_result (some (clone current.instance)))
    | Ordering.gt ↦ (
      store m (replacement m current now) s,
      applied_result (prepare_incoming m now) (some (clone current.instance)) m.event_id,
    )
  ]
]

-- What `Apply` does with a valid mutation under the lock, at the time that `now` gives.
unfoldable pub apply_shard : Platform → Mutation → Time → Shard → Shard × ApplyResult
unfolding apply_new apply_current
apply_shard pl m now s = elim (find s (instance_key m.instance)) [
  | none ↦ apply_new m now s
  | some current ↦ apply_current pl m now current s
]
