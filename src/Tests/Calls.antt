-- ===== src/Tests/Calls.antt =====
-- The theorems on the calls of clients (backend/internal/api) at a node with one registration.
use mini_eureka.Prelude.{
  ◌||◌, if◌then◌else◌, ◌≤◌, true, false, some, [], ◌∷◌, ◌≡◌, refl, arith, length,
}
use mathlib.Core.List.{Memᴰ}
use mini_eureka.Prelude.Int.{pos, ◌-ℤ◌, ◌+ℤ◌, quot_ℤ}
use mini_eureka.Prelude.Utf8.{runes, is_control, is_space}
use mini_eureka.Prelude.Time.{unix_milli, floor_div, milliseconds}
use mini_eureka.Model.Error.{has_rune, text, validate_identifier, validate_opaque_id, validate_host}
use mini_eureka.Model.Version.{validate_version, compare_version}
use mini_eureka.Model.Mutation.{
  kind_terminal, kind_valid, validate_mutation, validate_mutation_state, wanted,
}
use mini_eureka.Clock.{next_logical, now}
use mini_eureka.Registry.Run.{apply}
use mini_eureka.Service.{answer_of, apply_service}
use mini_eureka.Prelude.Text.{bytes, compare_text, text_eq}
use mini_eureka.Prelude.Order.{compare_list}
use mini_eureka.Prelude.Map.{lookup, insert}
use mini_eureka.Prelude.Sort.{sort_on}
use mini_eureka.Model.Instance.{
  Instance, clone, instance_key, protocol_valid, reason_eq, reason_valid, status_eq, status_valid,
  terminal, validate_instance, validate_key,
}
use mini_eureka.Registry.Query.{discover, list, listed, is_allowed, has_status}
use mini_eureka.Registry.Store.{apply_store, shard_for, shard_index}
use mini_eureka.Service.Leases.{renewal_of, heartbeat}
use mini_eureka.Registry.Listing.{live}
use mini_eureka.Registry.Shard.{apply_shard, find, prepare_incoming, replacement, store}
use mini_eureka.Registry.Entry.{operation_event, remember_operation}
use mini_eureka.Registry.Compare.{compare_incoming}
use mini_eureka.Registry.Query.{get}
use mini_eureka.Service.Renewal.{beat}
use mini_eureka.Service.Errors.{IsTicked}
use mini_eureka.Api.Replies.{BodyReader, Decoding, decode_json, replied}
use mini_eureka.Api.Services.{
  Listing, OperationBody, Strings, discover_handler, with_status, heartbeat_handler,
}
use mini_eureka.Api.Calls.{ClientCall, Decoders, answer_call, error_changes_nothing}
use mini_eureka.Api.Discovery.{IsRenewed, heartbeat_handler-listed, no_query}
use mini_eureka.Api.Middleware.{
  Action, Handling, answered, body, lets_through, plain_answer, wrap, wrap_lem,
}
use mini_eureka.Tests.Data.{held_entry}
use mini_eureka.Tests.Services.{
  beat_mutation, ids, live_entry, made-Local, node, operations_empty, payloads, readings,
  renewal-valid,
}
use mini_eureka.Tests.Requests.{limiter, marked}

abbrev strings : Strings
strings = record {
  path_escape = λ s. s;
  to_upper = λ s. s;
  to_lower = λ s. s;
  trim_space = λ s. s;
  contains = text_eq;
}

abbrev beat_body : OperationBody
beat_body = record { lease_id = bytes "l"; operation_id = bytes "o" }

abbrev operations : BodyReader OperationBody
operations = record { decode = λ max body. Decoding.value beat_body; ends = λ max body. true }

-- No body of a registration can be read.
abbrev decoders : Decoders
decoders = record {
  registrations = record { decode = λ max body. Decoding.malformed; ends = λ max body. true };
  operations = operations;
  max_body = pos 100;
}

-- A call for a lease that the node does not hold.
abbrev stranger : ClientCall
stranger = ClientCall.registering (bytes "s") (bytes "{")

stranger_refused : 400 ≤ (answer_call payloads strings decoders stranger readings ids node).1
unfolding answer_call decode_json
stranger_refused = omega arith

error_changes_nothing_example :
    IsTicked node (answer_call payloads strings decoders stranger readings ids node).0
error_changes_nothing_example =
    error_changes_nothing payloads strings decoders stranger readings ids node stranger_refused

one_listed :
    length (
      with_status live (
        discover
          (shard_for
            (beat payloads readings ids node held_entry (bytes "o")).0.registry
            (bytes "s"))
          (bytes "s")))
    ≡ 1
unfolding heartbeat get find lookup shard_for shard_index text_eq discover list listed is_allowed
    has_status sort_on clone terminal answer_of apply_service apply_store apply validate_mutation
    validate_mutation_state validate_opaque_id validate_identifier runes is_control is_space
    has_rune text validate_instance validate_key validate_host validate_version now unix_milli
    floor_div quot_ℤ milliseconds ◌-ℤ◌ ◌+ℤ◌ next_logical protocol_valid reason_eq reason_valid
    status_eq status_valid kind_valid wanted compare_list compare_text compare_version instance_key
    renewal_of apply_shard operation_event compare_incoming kind_terminal store insert replacement
    remember_operation prepare_incoming
one_listed = refl

heartbeat_handler-listed_example :
    (i : Instance) × (l : Listing Instance) × IsRenewed readings node held_entry i
    × ((heartbeat_handler payloads operations
          (pos 100)
          (bytes "s")
          (bytes "i")
          (bytes "{}")
          readings
          ids
          node).1
        ≡ replied 200 (record { instance = some i; event_id = bytes "e3"; duplicate = false }))
    × (discover_handler strings marked
          (bytes "s")
          no_query
          (heartbeat_handler payloads operations
            (pos 100)
            (bytes "s")
            (bytes "i")
            (bytes "{}")
            readings
            ids
            node).0
        ≡ replied 200 l)
    × Memᴰ i l.items
heartbeat_handler-listed_example =
    heartbeat_handler-listed payloads strings marked operations (pos 100) (bytes "{}") (bytes "o")
      readings ids node held_entry
      (made-Local beat_mutation renewal-valid (unfold renewal_of in operations_empty)) live_entry
      (unfold decode_json in refl) (unfold text_eq compare_text compare_list in refl)
      (omega (arith, one_listed))

-- A handler that writes a status twice and then panics.
abbrev careless : Handling
careless = record {
  actions = Action.writes_header 404 ∷ Action.writes_header 200 ∷ [];
  panics = true;
}

wrap_lem_example :
    ((wrap careless false (bytes "k") (pos 1) (some limiter)).2
      ≡ (false || lets_through (bytes "k") (pos 1) (some limiter)))
    × ((wrap careless false (bytes "k") (pos 1) (some limiter)).1 ≡ (
        if false || lets_through (bytes "k") (pos 1) (some limiter)
        then plain_answer careless
        else answered 429 (body ∷ [])))
wrap_lem_example = wrap_lem careless false (bytes "k") (pos 1) (some limiter) (refl, (refl, tt))
