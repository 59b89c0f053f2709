-- ===== src/Tests/Services.antt =====
-- The theorems on the leases of a node (backend/internal/service) at a node with one registration.
use mini_eureka.Prelude.{false, true, none, some, [], ◌∷◌, ◌≡◌, refl, arith, inl, Ordering}
use mini_eureka.Prelude.Int.{pos}
use mini_eureka.Prelude.Text.{bytes, text_eq}
use mini_eureka.Model.Error.{ok}
use mini_eureka.Model.Version.{compare_version}
use mini_eureka.Model.Instance.{terminal, clone, instance_key}
use mini_eureka.Model.Mutation.{Mutation, validate_mutation}
use mini_eureka.Registry.Entry.{operation_event}
use mini_eureka.Registry.Shard.{find, prepare_incoming}
use mini_eureka.Registry.Store.{Store, IsStore}
use mini_eureka.Events.{Ring}
use mini_eureka.Wheel.{Task, TaskKind}
use mini_eureka.Prelude.Int.{◌-ℤ◌, ◌+ℤ◌, quot_ℤ}
use mini_eureka.Prelude.Utf8.{runes, is_control, is_space}
use mini_eureka.Prelude.Order.{compare_list}
use mini_eureka.Prelude.Text.{compare_text}
use mini_eureka.Prelude.Time.{unix_milli, floor_div, milliseconds}
use mini_eureka.Prelude.Map.{lookup}
use mini_eureka.Model.Error.{has_rune, text, validate_identifier, validate_opaque_id, validate_host}
use mini_eureka.Model.Version.{validate_version}
use mini_eureka.Model.Instance.{
  protocol_valid, reason_eq, reason_valid, status_eq, status_valid, discoverable, validate_instance,
  validate_key,
}
use mini_eureka.Model.Mutation.{kind_valid, wanted, validate_mutation_state}
use mini_eureka.Clock.{now, next_logical}
use mini_eureka.Registry.Store.{shard_for, shard_index}
use mini_eureka.Service.{Payloads, Options, Service, Readings}
use mini_eureka.Service.Leases.{renewal_of, removal_of, FreshIds, held}
use mini_eureka.Service.Tasks.{expire, expiry_of, has_expired}
use mini_eureka.Service.Lead.{Leads, ClockHasRoom}
use mini_eureka.Service.Requests.{Request, serve, serve-Leads}
use mini_eureka.Service.Renewal.{Local, StandsIn, renewal, beat, heartbeat_renews, expire-beat}
use mini_eureka.Service.Eviction.{farewell, eviction, leave, deregister_removes, expire_evicts}
use mini_eureka.Tests.Data.{platform, held_entry, version_at, one_shard}

abbrev pub payloads : Payloads
payloads = record {
  platform = platform;
  instance_payload = λ i. i.host;
  key_payload = λ k. k.service;
}

abbrev pub options : Options
options = record {
  node_id = bytes "a";
  lease_ttl = pos 1000000000;
  delayed_after = pos 500000000;
  tombstone_ttl = pos 1000;
  evicted_display_ttl = pos 1000;
}

abbrev pub log : Ring
log = record {
  entries = [];
  capacity = 4;
  next_seq = 1;
  node_id = bytes "a";
  boot_id = bytes "b";
  next_sub = 1;
  subs = [];
  detached = [];
  dropped = 0;
}

abbrev pub store_of_one : Store
store_of_one = record { shards = one_shard ∷ []; mask = 0 }

abbrev pub node : Service
node = record {
  registry = store_of_one;
  clock = record {
    node_id = bytes "a";
    max_future_skew = pos 60000000000;
    last = version_at (pos 1);
  };
  events = log;
  wheel = none;
  opts = options;
  outbox = some [];
}

abbrev pub readings : Readings
readings = record { service = pos 5; clock = pos 5; registry = pos 5; events = pos 5 }

abbrev pub ids : FreshIds
ids = record { lease = bytes "l2"; event = bytes "e3" }

node-IsStore : IsStore node.registry
node-IsStore = record { masked = refl }

not_later : compare_version (version_at (pos 1)) (version_at (pos 1)) ≡ Ordering.eq
unfolding compare_version compare_text compare_list
not_later = refl

node-Leads : Leads node
node-Leads = (((λ e. ground (arith, e, not_later), tt), tt), tt)

node-ClockHasRoom : ClockHasRoom node
node-ClockHasRoom = record {
  physical = omega arith;
  logical = omega arith;
  room = inl (omega arith);
}

node-StandsIn : StandsIn node held_entry
unfolding find lookup shard_for shard_index text_eq instance_key
node-StandsIn = refl

pub renewal-valid :
    validate_mutation (renewal payloads readings ids node held_entry (bytes "o")) ≡ none
unfolding validate_mutation validate_mutation_state validate_opaque_id validate_identifier runes
    is_control is_space has_rune text validate_instance validate_key validate_host validate_version
    clone now unix_milli floor_div quot_ℤ milliseconds ◌-ℤ◌ ◌+ℤ◌ next_logical protocol_valid
    reason_eq reason_valid status_eq status_valid kind_valid wanted compare_list compare_text
    text_eq compare_version instance_key renewal_of
renewal-valid = refl

farewell-valid :
    validate_mutation (farewell payloads readings ids node held_entry (bytes "o") false) ≡ none
unfolding validate_mutation validate_mutation_state validate_opaque_id validate_identifier runes
    is_control is_space has_rune text validate_instance validate_key validate_host validate_version
    clone now unix_milli floor_div quot_ℤ milliseconds ◌-ℤ◌ ◌+ℤ◌ next_logical protocol_valid
    reason_eq reason_valid status_eq status_valid kind_valid wanted compare_list compare_text
    text_eq compare_version instance_key removal_of
farewell-valid = refl

pub operations_empty : operation_event held_entry (bytes "o") ≡ none
unfolding operation_event text_eq lookup
operations_empty = refl

no_operation : operation_event held_entry [] ≡ none
unfolding operation_event text_eq
no_operation = refl

pub made-Local :
    (m : Mutation)
    → validate_mutation m ≡ none
    → operation_event held_entry m.operation_id ≡ none
    → Local m readings node held_entry
made-Local m valid unseen = record {
  store = node-IsStore;
  leads = node-Leads;
  room = node-ClockHasRoom;
  stands = node-StandsIn;
  valid = valid;
  unseen = unseen;
}

abbrev pub beat_mutation : Mutation
beat_mutation = renewal payloads readings ids node held_entry (bytes "o")

pub live_entry : terminal held_entry.instance ≡ false
unfolding terminal status_eq
live_entry = refl

heartbeat_renews_example :
    ((beat payloads readings ids node held_entry (bytes "o")).1
      ≡ ok (record {
        instance = some (clone (prepare_incoming beat_mutation (pos 5)));
        event_id = bytes "e3";
        duplicate = false;
      }))
    × (held (beat payloads readings ids node held_entry (bytes "o")).0 (bytes "s") (bytes "i")
        ≡ some (clone (prepare_incoming beat_mutation (pos 5))))
heartbeat_renews_example =
    heartbeat_renews payloads readings ids node held_entry (bytes "o")
      (made-Local beat_mutation renewal-valid (unfold renewal_of in operations_empty)) live_entry

abbrev old_task : Task
old_task = record {
  kind = TaskKind.expire_lease;
  service = bytes "s";
  instance_id = bytes "i";
  lease_id = bytes "l";
  expected_version = bytes "1-0-a";
  deadline = pos 0;
}

expire-beat_example :
    expire payloads old_task
      (version_at (pos 1))
      readings
      (bytes "e4")
      (beat payloads readings ids node held_entry (bytes "o")).0
    ≡ (beat payloads readings ids node held_entry (bytes "o")).0
expire-beat_example =
    expire-beat payloads readings ids node held_entry (bytes "o") old_task (version_at (pos 1))
      readings (bytes "e4")
      (made-Local beat_mutation renewal-valid (unfold renewal_of in operations_empty)) live_entry
      refl refl (λ e. ground (arith, e, not_later))

abbrev farewell_mutation : Mutation
farewell_mutation = farewell payloads readings ids node held_entry (bytes "o") false

deregister_removes_example :
    ((leave payloads readings ids node held_entry (bytes "o") false).1
      ≡ ok (record {
        instance = some (clone (prepare_incoming farewell_mutation (pos 5)));
        event_id = bytes "e3";
        duplicate = false;
      }))
    × (held
          (leave payloads readings ids node held_entry (bytes "o") false).0
          (bytes "s")
          (bytes "i")
        ≡ some (clone (prepare_incoming farewell_mutation (pos 5))))
deregister_removes_example =
    deregister_removes payloads readings ids node held_entry (bytes "o") false
      (made-Local farewell_mutation farewell-valid (unfold removal_of in operations_empty)) refl

abbrev eviction_mutation : Mutation
eviction_mutation = eviction payloads readings ids node held_entry (bytes "e4")

eviction-valid : validate_mutation eviction_mutation ≡ none
unfolding validate_mutation validate_mutation_state validate_opaque_id validate_identifier runes
    is_control is_space has_rune text validate_instance validate_key validate_host validate_version
    clone now unix_milli floor_div quot_ℤ milliseconds ◌-ℤ◌ ◌+ℤ◌ next_logical protocol_valid
    reason_eq reason_valid status_eq status_valid kind_valid wanted compare_list compare_text
    text_eq compare_version instance_key expiry_of
eviction-valid = refl

old_task-expired :
    has_expired old_task (version_at (pos 1)) (pos 5) (clone held_entry.instance) ≡ true
unfolding has_expired clone text_eq compare_text compare_list compare_version discoverable status_eq
old_task-expired = refl

expire_evicts_example :
    held
      (expire payloads old_task (version_at (pos 1)) readings (bytes "e4") node)
      (bytes "s")
      (bytes "i")
    ≡ some (clone (prepare_incoming eviction_mutation (pos 5)))
expire_evicts_example =
    expire_evicts payloads readings ids node held_entry old_task (version_at (pos 1)) (bytes "e4")
      (made-Local eviction_mutation eviction-valid (unfold expiry_of in no_operation)) refl refl
      old_task-expired

abbrev beat_request : Request
beat_request = Request.renewal (bytes "s") (bytes "i") (bytes "l") (bytes "o")

serve-Leads_example : Leads (serve payloads readings ids beat_request node)
serve-Leads_example =
    serve-Leads payloads readings ids beat_request node node-Leads node-ClockHasRoom tt
