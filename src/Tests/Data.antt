-- ===== src/Tests/Data.antt =====
-- A registration of one instance, its removal, and the entries and fences they leave in a shard
-- (backend/internal/model and backend/internal/registry).
use mini_eureka.Prelude.{false, Option, none, some, [], ◌∷◌, ◌≡◌, refl}
use mini_eureka.Prelude.Int.{ℤ, pos}
use mini_eureka.Prelude.Text.{Text, bytes, text_eq}
use mini_eureka.Prelude.Utf8.{runes, is_control, is_space}
use mini_eureka.Model.Error.{validate_opaque_id, validate_identifier, validate_host}
use mini_eureka.Prelude.Time.{Time}
use mini_eureka.Model.Version.{Version, validate_version}
use mini_eureka.Model.Instance.{
  Instance, InstanceStatus, StatusReason, Protocol, Key, validate_instance, validate_key,
}
use mini_eureka.Model.Mutation.{Mutation, MutationKind, validate_mutation, validate_mutation_state}
use mini_eureka.Registry.Entry.{Entry, Fence}
use mini_eureka.Registry.Compare.{Platform}
use mini_eureka.Registry.Shard.{Shard, fence_of}

abbrev pub platform : Platform
platform = record { encode = λ i. i.host; deep_equal = λ a b. false }

abbrev pub version_at : ℤ → Version
version_at p = record { physical_millis = p; logical = 0; origin_node_id = bytes "a" }

abbrev pub one_lease : Version → Text
one_lease v = bytes "l"

abbrev pub key_i : Key
key_i = record { service = bytes "s"; instance_id = bytes "i" }

abbrev pub instance_at : ℤ → InstanceStatus → StatusReason → Option Time → Instance
instance_at p status reason evicted_at = record {
  service = bytes "s";
  instance_id = bytes "i";
  registration_id = bytes "r";
  host = bytes "h";
  port = pos 80;
  protocol = Protocol.http;
  metadata = some [];
  status = status;
  status_reason = reason;
  generation = 1;
  lease_id = bytes "l";
  lease_epoch = version_at (pos 1);
  version = version_at p;
  origin_node_id = bytes "a";
  registered_at = pos 1;
  last_heartbeat_at = pos 1;
  updated_at = pos 1;
  evicted_at = evicted_at;
  demo = false;
  lease_deadline = pos 0;
  last_remaining_ttl_ms = pos 0;
}

abbrev pub registration : Mutation
registration = record {
  kind = MutationKind.register;
  instance = instance_at (pos 1) InstanceStatus.active StatusReason.registered none;
  event_id = bytes "e1";
  operation_id = [];
  remaining_ttl_millis = pos 1000;
}

abbrev pub removal : Mutation
removal = record {
  kind = MutationKind.deregister;
  instance = instance_at (pos 2) InstanceStatus.evicted StatusReason.deregistered (some (pos 5));
  event_id = bytes "e2";
  operation_id = [];
  remaining_ttl_millis = pos 0;
}

abbrev pub removal_fence : Fence
removal_fence = fence_of removal

abbrev pub held_entry : Entry
held_entry = record {
  instance = registration.instance;
  kind = registration.kind;
  event_id = registration.event_id;
  operations = [];
  operation_order = [];
}

abbrev pub tombstone : Entry
tombstone = record {
  instance = removal.instance;
  kind = removal.kind;
  event_id = removal.event_id;
  operations = [];
  operation_order = [];
}

-- A shard with the entry of the registration.
abbrev pub one_shard : Shard
one_shard = record {
  services = (bytes "s", (bytes "i", held_entry) ∷ []) ∷ [];
  fences = [];
  revision = 1;
}

-- A shard with the tombstone and its fence.
abbrev pub evicted_shard : Shard
evicted_shard = record {
  services = (bytes "s", (bytes "i", tombstone) ∷ []) ∷ [];
  fences = (key_i, removal_fence) ∷ [];
  revision = 2;
}

pub registration-valid : validate_mutation registration ≡ none
unfolding validate_mutation validate_opaque_id text_eq validate_identifier runes is_control is_space
    validate_instance validate_key validate_host validate_version validate_mutation_state
registration-valid = refl

pub removal-valid : validate_mutation removal ≡ none
unfolding validate_mutation validate_opaque_id text_eq validate_identifier runes is_control is_space
    validate_instance validate_key validate_host validate_version validate_mutation_state
removal-valid = refl
