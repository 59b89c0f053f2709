-- ===== src/Tests/Fences.antt =====
-- A registration that a fence stops (backend/internal/service/operations.go) at a concrete node.
use mini_eureka.Prelude.{false, none, some, [], ◌∷◌, ◌≡◌, refl, Ordering}
use mini_eureka.Prelude.Int.{pos}
use mini_eureka.Prelude.Text.{bytes, text_eq}
use mini_eureka.Model.Error.{ok}
use mini_eureka.Model.Version.{compare_version}
use mini_eureka.Model.Instance.{Protocol, clone, instance_key}
use mini_eureka.Model.Mutation.{MutationKind, validate_mutation}
use mini_eureka.Registry.Entry.{Fence}
use mini_eureka.Registry.Shard.{key_eq, find}
use mini_eureka.Prelude.Int.{◌-ℤ◌, ◌+ℤ◌, quot_ℤ}
use mini_eureka.Prelude.Utf8.{runes, is_control, is_space}
use mini_eureka.Prelude.Order.{compare_list}
use mini_eureka.Prelude.Text.{compare_text}
use mini_eureka.Prelude.Time.{unix_milli, floor_div, milliseconds}
use mini_eureka.Prelude.Map.{lookup}
use mini_eureka.Model.Error.{has_rune, text, validate_identifier, validate_opaque_id, validate_host}
use mini_eureka.Model.Version.{validate_version}
use mini_eureka.Model.Instance.{
  protocol_valid, reason_eq, reason_valid, status_eq, status_valid, validate_instance, validate_key,
}
use mini_eureka.Model.Mutation.{kind_valid, wanted, validate_mutation_state}
use mini_eureka.Clock.{now, next_logical}
use mini_eureka.Registry.Store.{shard_for, shard_index}
use mini_eureka.Service.{Service}
use mini_eureka.Service.Leases.{
  registration_of, next_generation, fence_at, RegisterRequest, held, register,
}
use mini_eureka.Service.Renewal.{drawn}
use mini_eureka.Service.Refused.{register_fenced}
use mini_eureka.Registry.Query.{get, get_fence}
use mini_eureka.Tests.Data.{version_at, key_i}
use mini_eureka.Tests.Services.{node, options, payloads, readings, ids}

-- The fence of a lease whose node had a faster clock.
abbrev ahead : Fence
ahead = record {
  key = key_i;
  lease_epoch = version_at (pos 100);
  version = version_at (pos 101);
  kind = MutationKind.deregister;
  event_id = bytes "e9";
  generation = 1;
}

abbrev fenced_node : Service
fenced_node = record node {
  registry = record {
    shards = record { services = []; fences = (key_i, ahead) ∷ []; revision = 1 } ∷ [];
    mask = 0;
  };
}

abbrev request_i : RegisterRequest
request_i = record {
  service = bytes "s";
  instance_id = bytes "i";
  registration_id = bytes "r2";
  host = bytes "h";
  port = pos 80;
  protocol = Protocol.http;
  metadata = some [];
  demo = false;
}

absent_there : held fenced_node (bytes "s") (bytes "i") ≡ none
unfolding get find lookup shard_for shard_index text_eq
absent_there = refl

fence_there : fence_at fenced_node (bytes "s") (bytes "i") ≡ some ahead
unfolding get_fence lookup shard_for shard_index key_eq text_eq compare_text compare_list
fence_there = refl

registration-accepted :
    validate_mutation (
      registration_of options request_i
        (pos 5)
        (drawn fenced_node readings)
        ids
        (next_generation none (some ahead)))
    ≡ none
unfolding validate_mutation validate_mutation_state validate_opaque_id validate_identifier runes
    is_control is_space has_rune text validate_instance validate_key validate_host validate_version
    clone now unix_milli floor_div quot_ℤ milliseconds ◌-ℤ◌ ◌+ℤ◌ next_logical protocol_valid
    reason_eq reason_valid status_eq status_valid kind_valid wanted compare_list compare_text
    text_eq compare_version instance_key registration_of next_generation
registration-accepted = refl

drawn_earlier : compare_version (drawn fenced_node readings) ahead.lease_epoch ≡ Ordering.lt
unfolding compare_version now unix_milli floor_div next_logical ◌-ℤ◌ ◌+ℤ◌
drawn_earlier = refl

register_fenced_example :
    (register payloads request_i readings ids fenced_node).1
    ≡ ok (record { instance = none; event_id = []; duplicate = false })
register_fenced_example =
    register_fenced payloads request_i readings ids fenced_node ahead absent_there fence_there
      registration-accepted drawn_earlier
