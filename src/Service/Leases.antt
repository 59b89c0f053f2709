-- ===== src/Service/Leases.antt =====
-- backend/internal/service/operations.go, and the entry of gossip into the service: what clients
-- and peers may ask of a lease.
use mini_eureka.Prelude.{
  ℕ, ◌+◌, ◌%◌, ◌^◌, if◌then◌else◌, Bool, true, false, not, ◌&&◌, ◌||◌, Option, none, some, [], List,
  keep,
}
use mini_eureka.Prelude.Int.{ℤ, pos, ltb_ℤ}
use mini_eureka.Prelude.Text.{Text, text_eq}
use mini_eureka.Prelude.Time.{Time, zero_time, milliseconds, sub_time}
use mini_eureka.Prelude.Map.{Map}
use mini_eureka.Model.Error.{Error, Result, ok, err, message, text}
use mini_eureka.Model.Version.{Version}
use mini_eureka.Model.Instance.{
  Instance, InstanceStatus, StatusReason, Protocol, terminal, status_eq,
}
use mini_eureka.Model.Mutation.{Mutation, MutationKind}
use mini_eureka.Registry.Entry.{Fence}
use mini_eureka.Registry.Shard.{ApplyResult}
use mini_eureka.Registry.Store.{shard_for}
use mini_eureka.Registry.Query.{get, get_fence, current_event_id, snapshot}
use mini_eureka.Clock.{now, observe}
use mini_eureka.Events.{Event}
use mini_eureka.Service.{
  Payloads, Options, Service, Readings, OperationResult, apply_service, answer_of,
}

pub record RegisterRequest : Type 0 where
  pub service : Text
  pub instance_id : Text
  pub registration_id : Text
  pub host : Text
  pub port : ℤ
  pub protocol : Protocol
  pub metadata : Option (Map Text Text)
  pub demo : Bool

-- The identifiers that a call draws at random.
pub record FreshIds : Type 0 where
  pub lease : Text
  pub event : Text

-- `ErrNotFound`, `ErrStaleLease` and `ErrNotDemo`
abbrev pub not_found : Error
not_found = message (text "instance not found")

abbrev pub stale_lease : Error
stale_lease = message (text "stale lease")

abbrev pub not_demo : Error
not_demo = message (text "instance is not a demo instance")

-- `s.registry.Get`, `CurrentEventID` and `GetFence`
abbrev pub held : Service → Text → Text → Option Instance
held s service instance_id = get (shard_for s.registry service) service instance_id

abbrev event_of : Service → Text → Text → Option Text
event_of s service instance_id = current_event_id (shard_for s.registry service) service instance_id

abbrev pub fence_at : Service → Text → Text → Option Fence
fence_at s service instance_id =
    get_fence (shard_for s.registry service)
      (record { service = service; instance_id = instance_id })

text_or_empty : Option Text → Text
text_or_empty none = []
text_or_empty (some t) = t

abbrev successor : ℕ → ℕ
successor n = (n + 1) % 2 ^ 64

-- The generation of a new lease: one more than that of the record or the fence that is there.
unfoldable pub next_generation : Option Instance → Option Fence → ℕ
next_generation (some i) f = successor i.generation
next_generation none (some f) = successor f.generation
next_generation none none = 1

-- The mutation that `Register` makes.
unfoldable pub registration_of :
    Options → RegisterRequest → Time → Version → FreshIds → ℕ → Mutation
registration_of o req wall epoch ids generation = record {
  kind = MutationKind.register;
  instance = record {
    service = req.service;
    instance_id = req.instance_id;
    registration_id = req.registration_id;
    host = req.host;
    port = req.port;
    protocol = req.protocol;
    metadata = req.metadata;
    status = InstanceStatus.active;
    status_reason = StatusReason.registered;
    generation = generation;
    lease_id = ids.lease;
    lease_epoch = epoch;
    version = epoch;
    origin_node_id = o.node_id;
    registered_at = wall;
    last_heartbeat_at = wall;
    updated_at = wall;
    evicted_at = none;
    demo = req.demo;
    lease_deadline = zero_time;
    last_remaining_ttl_ms = pos 0;
  };
  event_id = ids.event;
  operation_id = [];
  remaining_ttl_millis = milliseconds o.lease_ttl;
}

-- `Register` once it knows that the request is no retry.
unfoldable pub register_new :
    Payloads
    → RegisterRequest
    → Readings
    → FreshIds
    → ℕ
    → Service
    → Service × Result OperationResult
unfolding registration_of
register_new pl req rd ids generation s =
    let (clock, epoch) = now s.clock rd.clock in
    answer_of (
      apply_service pl (registration_of s.opts req rd.service epoch ids generation) rd
        (record s { clock = clock }))

-- The answer to a retry: the record that is held, and its event.
unfoldable pub repeated : Instance → Option Text → OperationResult
unfolding text_or_empty
repeated i event = record { instance = some i; event_id = text_or_empty event; duplicate = true }

-- `Register`
unfoldable pub register :
    Payloads → RegisterRequest → Readings → FreshIds → Service → Service × Result OperationResult
unfolding next_generation register_new repeated
register pl req rd ids s =
    let current = held s req.service req.instance_id in
    let fence = fence_at s req.service req.instance_id in
    elim current [
      | none ↦ register_new pl req rd ids (next_generation none fence) s
      | some i ↦
          if text_eq i.registration_id req.registration_id
          then (s, ok (repeated i (event_of s req.service req.instance_id)))
          else register_new pl req rd ids (next_generation (some i) fence) s
    ]

-- The mutation that `Heartbeat` makes of the record that is held.
unfoldable pub renewal_of : Options → Instance → Text → Time → Version → FreshIds → Mutation
renewal_of o i operation_id wall version ids = record {
  kind = MutationKind.heartbeat;
  instance = record i {
    status = InstanceStatus.active;
    status_reason = StatusReason.heartbeat_ok;
    version = version;
    origin_node_id = o.node_id;
    last_heartbeat_at = wall;
    updated_at = wall;
    evicted_at = none;
  };
  event_id = ids.event;
  operation_id = operation_id;
  remaining_ttl_millis = milliseconds o.lease_ttl;
}

-- `Heartbeat`
unfoldable pub heartbeat :
    Payloads
    → Text
    → Text
    → Text
    → Text
    → Readings
    → FreshIds
    → Service
    → Service × Result OperationResult
unfolding renewal_of
heartbeat pl service instance_id lease_id operation_id rd ids s =
    elim (held s service instance_id) [
      | none ↦ (s, err not_found)
      | some i ↦
          let (clock, version) = now s.clock rd.clock in
          if not (text_eq i.lease_id lease_id) || terminal i
          then (s, err stale_lease)
          else answer_of (
              apply_service pl (renewal_of s.opts i operation_id rd.service version ids) rd
                (record s { clock = clock }))
    ]

-- The mutation that `Deregister` makes of the record that is held.
unfoldable pub removal_of : Options → Instance → Bool → Text → Time → Version → FreshIds → Mutation
removal_of o i demo operation_id wall version ids = record {
  kind = if demo then MutationKind.demo_offline else MutationKind.deregister;
  instance = record i {
    status = InstanceStatus.evicted;
    status_reason = if demo then StatusReason.demo_offline else StatusReason.deregistered;
    version = version;
    origin_node_id = o.node_id;
    updated_at = wall;
    evicted_at = some wall;
    lease_deadline = zero_time;
  };
  event_id = ids.event;
  operation_id = operation_id;
  remaining_ttl_millis = pos 0;
}

-- `Deregister`
unfoldable pub deregister :
    Payloads
    → Text
    → Text
    → Text
    → Text
    → Bool
    → Readings
    → FreshIds
    → Service
    → Service × Result OperationResult
unfolding removal_of
deregister pl service instance_id lease_id operation_id demo rd ids s =
    elim (held s service instance_id) [
      | none ↦ (s, err not_found)
      | some i ↦
          let (clock, version) = now s.clock rd.clock in
          if not (text_eq i.lease_id lease_id)
          then (s, err stale_lease)
          else if demo && not i.demo
          then (s, err not_demo)
          else answer_of (
              apply_service pl (removal_of s.opts i demo operation_id rd.service version ids) rd
                (record s { clock = clock }))
    ]

unfoldable pub forget_event :
    Service × Result (ApplyResult × Option Event) → Service × Result ApplyResult
forget_event (s, err e) = (s, err e)
forget_event (s, ok (result, event)) = (s, ok result)

-- `ApplyRemote`: the clock observes the version before the registry sees the record.
unfoldable pub apply_remote :
    Payloads → Mutation → Readings → Service → Service × Result ApplyResult
unfolding forget_event
apply_remote pl m rd s =
    let (clock, seen) = observe s.clock m.instance.version rd.clock in
    elim seen [
      | err e ↦ (record s { clock = clock }, err e)
      | ok v ↦ forget_event (apply_service pl m rd (record s { clock = clock }))
    ]

-- The test of `DashboardInstances`: a tombstone is shown for a while.
long_gone : Options → Time → Option Time → Bool
long_gone o wall none = false
long_gone o wall (some t) = ltb_ℤ o.evicted_display_ttl (sub_time wall t)

unfoldable pub is_displayed : Options → Time → Instance → Bool
unfolding long_gone
is_displayed o wall i =
    not (status_eq i.status InstanceStatus.evicted && long_gone o wall i.evicted_at)

-- `DashboardInstances`
unfoldable pub dashboard_instances : Service → Time → List Instance
unfolding is_displayed
dashboard_instances s wall = keep (is_displayed s.opts wall) (snapshot s.registry.shards)
