-- ===== src/Service/Tasks.antt =====
-- The timing wheel's tasks (backend/internal/service/service.go): delay, expiry and collection.
use mini_eureka.Prelude.{
  if◌then◌else◌, Bool, true, false, not, ◌||◌, Option, none, some, List, [], ◌∷◌,
}
use mini_eureka.Prelude.Int.{pos}
use mini_eureka.Prelude.Order.{is_eq}
use mini_eureka.Prelude.Text.{Text, text_eq}
use mini_eureka.Prelude.Time.{Time, after, zero_time}
use mini_eureka.Model.Error.{ok, err}
use mini_eureka.Model.Version.{Version, compare_version}
use mini_eureka.Model.Revision.{version_string, parse_version}
use mini_eureka.Model.Instance.{Instance, InstanceStatus, StatusReason, Key, discoverable}
use mini_eureka.Model.Mutation.{Mutation, MutationKind}
use mini_eureka.Registry.Store.{mark_delayed_store, gc_store}
use mini_eureka.Registry.Query.{key_string}
use mini_eureka.Clock.{now}
use mini_eureka.Events.{EventType, Ring, publish}
use mini_eureka.Wheel.{Task, TaskKind}
use mini_eureka.Service.{Payloads, Options, Service, Readings, apply_service, blank_event}
use mini_eureka.Service.Leases.{held}

-- The events of the keys that `GC` has removed.
unfoldable pub publish_removed : Payloads → List Key → Time → Ring → Ring
publish_removed pl [] wall r = r
publish_removed pl (k ∷ ks) wall r =
    publish_removed pl ks wall
      (publish r
        (record (blank_event EventType.instance_removed) {
          entity_key = key_string k;
          payload = pl.key_payload k;
        })
        wall).0

-- `handleTask` on a collection.
unfoldable pub collect_tombstones : Payloads → Readings → Service → Service
unfolding publish_removed
collect_tombstones pl rd s =
    let (r, keys) = gc_store rd.service s.opts.tombstone_ttl s.registry in
    record s { registry = r; events = publish_removed pl keys rd.events s.events }

publish_delayed : Payloads → Key → Option Instance → Time → Ring → Ring
publish_delayed pl k none wall r = r
publish_delayed pl k (some i) wall r =
    (publish r
      (record (blank_event EventType.instance_delayed) {
        entity_key = key_string k;
        revision = version_string i.version;
        payload = pl.instance_payload i;
      })
      wall).0

-- `handleTask` on the delay of a lease.
unfoldable pub delay : Payloads → Task → Version → Readings → Service → Service
unfolding publish_delayed
delay pl task version rd s =
    let k : Key = record { service = task.service; instance_id = task.instance_id } in
    let (r, delayed) = mark_delayed_store k task.lease_id version rd.service s.registry in
    record s { registry = r; events = publish_delayed pl k delayed rd.events s.events }

-- Whether the lease of a record has run out as the task expects.
unfoldable pub has_expired : Task → Version → Time → Instance → Bool
has_expired task version wall i = not (
    not (text_eq i.lease_id task.lease_id)
    || not (is_eq (compare_version i.version version))
    || not (discoverable i)
    || after i.lease_deadline wall)

-- The mutation of an expiry.
unfoldable pub expiry_of : Options → Instance → Time → Version → Text → Mutation
expiry_of o i wall version event_id = record {
  kind = MutationKind.ttl_expire;
  instance = record i {
    status = InstanceStatus.evicted;
    status_reason = StatusReason.ttl_expired;
    version = version;
    origin_node_id = o.node_id;
    updated_at = wall;
    evicted_at = some wall;
    lease_deadline = zero_time;
  };
  event_id = event_id;
  operation_id = [];
  remaining_ttl_millis = pos 0;
}

-- `handleTask` on the expiry of a lease, with the ID that it draws for the event.
unfoldable pub expire : Payloads → Task → Version → Readings → Text → Service → Service
unfolding has_expired expiry_of
expire pl task version rd event_id s = elim (held s task.service task.instance_id) [
  | none ↦ s
  | some i ↦
      let (clock, next) = now s.clock rd.clock in
      if has_expired task version rd.service i
      then (apply_service pl (expiry_of s.opts i rd.service next event_id) rd
          (record s { clock = clock })).0
      else s
]

-- The `switch` of `handleTask` on a task that carries a version.
unfoldable pub handle_lease_task :
    Payloads → Task → Version → Readings → Text → TaskKind → Service → Service
unfolding delay expire
handle_lease_task pl task version rd event_id TaskKind.collect s = s
handle_lease_task pl task version rd event_id TaskKind.mark_delayed s = delay pl task version rd s
handle_lease_task pl task version rd event_id TaskKind.expire_lease s =
    expire pl task version rd event_id s

abbrev pub is_collection : TaskKind → Bool
is_collection TaskKind.collect = true
is_collection _ = false

-- `handleTask`
unfoldable pub handle_task : Payloads → Task → Readings → Text → Service → Service
unfolding handle_lease_task collect_tombstones
handle_task pl task rd event_id s =
    if is_collection task.kind
    then collect_tombstones pl rd s
    else elim (parse_version task.expected_version) [
      | err e ↦ s
      | ok version ↦ handle_lease_task pl task version rd event_id task.kind s
    ]

-- `HandleTasks`, each task with its readings and its event ID.
unfoldable pub handle_tasks : Payloads → List (Task × (Readings × Text)) → Service → Service
unfolding handle_task
handle_tasks pl [] s = s
handle_tasks pl ((task, (rd, event_id)) ∷ ts) s =
    handle_tasks pl ts (handle_task pl task rd event_id s)
