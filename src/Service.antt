-- ===== src/Service.antt =====
-- backend/internal/service: the leases of a node, over its registry, clock, event log and timing
-- wheel. A method takes the locks of these parts one after the other; the model runs it to its end
-- before the next call.
pub mod Leases
pub mod Tasks
pub mod Lead
pub mod Requests
pub mod Outcome
pub mod Renewal
pub mod Eviction
pub mod Refused
pub mod Errors
use mini_eureka.Prelude.{
  ℕ, ◌+◌, ◌*◌, ◌/◌, ◌%◌, ◌^◌, if◌then◌else◌, Bool, true, false, not, ◌&&◌, ◌||◌, Option, none, some,
  List, [], ◌∷◌, ◌++◌,
}
use mini_eureka.Prelude.Int.{ℤ, pos, ltb_ℤ, leb_ℤ, ◌-ℤ◌, wrap_int64, quot_ℤ}
use mini_eureka.Prelude.Order.{is_eq}
use mini_eureka.Prelude.Text.{Text, text_eq}
use mini_eureka.Prelude.Time.{
  Time, Duration, add_time, after, zero_time, is_zero_time, sub_time, milliseconds, second,
}
use mini_eureka.Prelude.Map.{Map}
use mini_eureka.Model.Error.{Error, Result, ok, err, message, text}
use mini_eureka.Model.Version.{Version, compare_version}
use mini_eureka.Model.Revision.{version_string, parse_version}
use mini_eureka.Model.Instance.{
  Instance, InstanceStatus, StatusReason, Protocol, Key, discoverable, terminal, status_eq,
  instance_key,
}
use mini_eureka.Model.Mutation.{Mutation, MutationKind}
use mini_eureka.Registry.Entry.{Fence}
use mini_eureka.Registry.Compare.{Platform}
use mini_eureka.Registry.Shard.{ApplyResult, applied_result}
use mini_eureka.Registry.Store.{Store, shard_for, apply_store, mark_delayed_store, gc_store}
use mini_eureka.Registry.Query.{get, get_fence, current_event_id, snapshot, key_string}
use mini_eureka.Clock.{Hlc, now, observe}
use mini_eureka.Events.{Event, EventType, Ring, publish}
use mini_eureka.Wheel.{Task, TaskKind, Wheel, schedule}

-- What the service takes from encoding/json for the payloads of its events.
pub record Payloads : Type 0 where
  pub platform : Platform
  pub instance_payload : Instance → Text
  pub key_payload : Key → Text

-- `Options`, without the readings of the wall clock.
pub record Options : Type 0 where
  pub node_id : Text
  pub lease_ttl : Duration
  pub delayed_after : Duration
  pub tombstone_ttl : Duration
  pub evicted_display_ttl : Duration

-- The defaults of `New`.
unfoldable pub with_defaults : Options → Options
with_defaults o =
    let lease_ttl = if leb_ℤ o.lease_ttl (pos 0) then pos (30 * second) else o.lease_ttl in
    record o {
      lease_ttl = lease_ttl;
      delayed_after = if leb_ℤ o.delayed_after (pos 0) then quot_ℤ lease_ttl 2 else o.delayed_after;
      tombstone_ttl = if leb_ℤ o.tombstone_ttl (pos 0) then pos (300 * second) else o.tombstone_ttl;
      evicted_display_ttl =
          if leb_ℤ o.evicted_display_ttl (pos 0) then pos (60 * second) else o.evicted_display_ttl;
    }

-- `Service`. The outbox holds what the mutation sink was given, in order; none is a nil sink.
pub record Service : Type 0 where
  pub registry : Store
  pub clock : Hlc
  pub events : Ring
  pub wheel : Option Wheel
  pub opts : Options
  pub outbox : Option (List Mutation)

-- What the wall clocks of the parts read in the course of a call.
pub record Readings : Type 0 where
  pub service : Time
  pub clock : Time
  pub registry : Time
  pub events : Time

-- `publishMutation`
unfoldable pub event_type : MutationKind → EventType
event_type MutationKind.register = EventType.instance_registered
event_type MutationKind.ttl_expire = EventType.instance_evicted
event_type MutationKind.deregister = EventType.instance_evicted
event_type MutationKind.demo_offline = EventType.instance_evicted
event_type _ = EventType.instance_heartbeat

abbrev blank_event : EventType → Event
blank_event type = record {
  seq = 0;
  schema = 0;
  stream_node_id = [];
  stream_boot_id = [];
  type = type;
  event_id = [];
  entity_key = [];
  revision = [];
  origin_node_id = [];
  occurred_at = zero_time;
  payload = [];
  delivery = none;
}

unfoldable pub mutation_event : Payloads → Mutation → Instance → Event
unfolding event_type
mutation_event pl m i = record (blank_event (event_type m.kind)) {
  event_id = m.event_id;
  entity_key = key_string (instance_key i);
  revision = version_string i.version;
  origin_node_id = i.origin_node_id;
  occurred_at = i.updated_at;
  payload = pl.instance_payload i;
}

abbrev lease_task : TaskKind → Instance → Time → Task
lease_task kind i deadline = record {
  kind = kind;
  service = i.service;
  instance_id = i.instance_id;
  lease_id = i.lease_id;
  expected_version = version_string i.version;
  deadline = deadline;
}

-- `record.LeaseDeadline.Add(-(LeaseTTL - DelayedAfter))`, with int64 durations.
unfoldable pub delayed_at : Options → Instance → Time
delayed_at o i =
    add_time i.lease_deadline (wrap_int64 (pos 0 -ℤ wrap_int64 (o.lease_ttl -ℤ o.delayed_after)))

-- `schedule`
unfoldable pub schedule_lease : Options → Instance → Option Wheel → Option Wheel
unfolding delayed_at
schedule_lease o i none = none
schedule_lease o i (some w) =
    if discoverable i && not (is_zero_time i.lease_deadline)
    then some (
        schedule (schedule w (lease_task TaskKind.mark_delayed i (delayed_at o i)))
          (lease_task TaskKind.expire_lease i i.lease_deadline))
    else some w

unfoldable pub forward : Mutation → Option (List Mutation) → Option (List Mutation)
forward m none = none
forward m (some ms) = some (ms ++ (m ∷ []))

-- What follows in `apply` once the registry has taken the record of a mutation.
unfoldable pub announce : Payloads → Mutation → Instance → Time → Service → Service × Event
unfolding mutation_event schedule_lease forward
announce pl m i wall s =
    let (ring, event) = publish s.events (mutation_event pl m i) wall in
    (
      record s {
        events = ring;
        wheel = schedule_lease s.opts i s.wheel;
        outbox = forward m s.outbox;
      },
      event,
    )

-- `apply`: the answer of the registry, and the event, none for the zero event.
unfoldable pub apply_service :
    Payloads → Mutation → Readings → Service → Service × Result (ApplyResult × Option Event)
unfolding announce
apply_service pl m rd s =
    let (r, answer) = apply_store pl.platform m rd.registry s.registry in
    let s' = record s { registry = r } in
    elim answer [
      | err e ↦ (s', err e)
      | ok result ↦ elim result.instance [
        | none ↦ (s', ok (result, none))
        | some i ↦
            let (t, event) = announce pl m i rd.events s' in
            if result.applied then (t, ok (result, some event)) else (s', ok (result, none))
      ]
    ]

-- `OperationResult`; none is the zero record.
pub record OperationResult : Type 0 where
  pub instance : Option Instance
  pub event_id : Text
  pub duplicate : Bool

event_id_of : Option Event → Text
event_id_of none = []
event_id_of (some e) = e.event_id

-- `appliedEventID`
unfoldable pub applied_event_id : ApplyResult → Option Event → Text
unfolding event_id_of
applied_event_id result event = if result.duplicate then result.event_id else event_id_of event

-- How the three operations end.
unfoldable pub answer_of :
    Service × Result (ApplyResult × Option Event) → Service × Result OperationResult
unfolding applied_event_id
answer_of (s, err e) = (s, err e)
answer_of (s, ok (result, event)) = (
  s,
  ok (record {
    instance = result.instance;
    event_id = applied_event_id result event;
    duplicate = result.duplicate;
  }),
)
