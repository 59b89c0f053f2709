-- ===== src/Tests/Gossips.antt =====
-- The theorems on the gossip engine and on anti-entropy (backend/internal/gossip) at small nodes.
use mini_eureka.Prelude.{
  ℕ, suc, ◌*◌, ◌-◌, ◌<◌, ◌≤◌, false, if◌then◌else◌, Option, none, some, List, [], ◌∷◌, ◌≡◌, refl,
  arith, length,
}
use mini_eureka.Prelude.Int.{ℤ, pos}
use mini_eureka.Prelude.Text.{Text, bytes, text_eq, compare_text}
use mini_eureka.Prelude.Order.{compare_list}
use mini_eureka.Prelude.Time.{Time}
use mini_eureka.Prelude.Map.{lookup, insert, Distinct, text_key}
use mini_eureka.Registry.Shard.{empty_shard}
use mini_eureka.Registry.Digest.{
  DigestEntry, digests, digests_from, digest_shard, digest_entries, service_digests,
  instance_digests, fence_digests, digest_entry,
}
use mini_eureka.Registry.Query.{
  mutations_for_shard, export_services, export_instances, fences, all_fences, fences_of,
}
use mini_eureka.Prelude.Sort.{sort_on, insert_on}
use mini_eureka.Service.{Service, Readings}
use mini_eureka.Service.Leases.{apply_remote}
use mini_eureka.Gossip.Pages.{
  SyncItem, SyncOutcome, SyncRequest, SyncResponse, build_response, page_size, sync_items,
  sync_peer, changed_mutations, shard_mismatched, is_mismatched, remote_hash, take_items,
}
use mini_eureka.Gossip.Sync.{sync_peer_complete}
use mini_eureka.Gossip.Engine.{
  EngineConfig, enqueue, new_engine, pending_for_round, with_engine_defaults,
}
use mini_eureka.Gossip.Rounds.{after_rounds, entry_of, enqueue_rounds, queue_of}
use mini_eureka.Gossip.Delta.{
  DeltaPayload, Node, handle_delta, handle_delta_lem, idle, is_applied, passed_on,
}
use mini_eureka.Tests.Data.{registration}
use mini_eureka.Tests.Services.{payloads, node, readings, ids, store_of_one}

abbrev pub hash : List DigestEntry → Text
hash es = length es ∷ []

abbrev bare_node : Service
bare_node = record node { registry = record { shards = empty_shard ∷ []; mask = 0 } }

abbrev pub at_nine : ℤ → Time
at_nine index = pos 9

abbrev same_readings : SyncItem → Readings
same_readings i = readings

abbrev answers : ℕ → SyncRequest → Option SyncResponse
answers round q = some (build_response hash at_nine store_of_one q)

one_item :
    length (sync_items hash at_nine (digests hash bare_node.registry.shards) store_of_one) ≡ 1
unfolding sync_items changed_mutations shard_mismatched is_mismatched remote_hash digests
    digests_from digest_shard digest_entries service_digests instance_digests fence_digests
    digest_entry mutations_for_shard export_services export_instances fences all_fences fences_of
    sort_on insert_on text_eq compare_text compare_list
one_item = refl

one-page :
    length (sync_items hash at_nine (digests hash bare_node.registry.shards) store_of_one)
    ≤ 1 * page_size
one-page = omega (arith, one_item)

sync_peer_complete_example : sync_peer payloads same_readings ids hash answers 1 bare_node ≡ (
  take_items payloads same_readings ids
      (sync_items hash at_nine (digests hash bare_node.registry.shards) store_of_one)
      bare_node,
  SyncOutcome.synced,
)
sync_peer_complete_example =
    sync_peer_complete payloads same_readings ids hash at_nine answers store_of_one 1 bare_node
      (λ round q. refl) (omega arith) one-page

abbrev pub config : EngineConfig
config = record {
  node_id = bytes "a";
  advertise_address = bytes "h";
  seeds = [];
  fanout = pos 0;
  interval = pos 0;
  anti_entropy_interval = pos 0;
  pending_rounds = pos 0;
}

fresh-Distinct : Distinct (new_engine config).pending
unfolding new_engine Distinct
fresh-Distinct = tt

eight_rounds : (new_engine config).config.pending_rounds ≡ pos 8
unfolding new_engine with_engine_defaults
eight_rounds = refl

enqueue_rounds_example :
    ((pending_for_round (after_rounds 3 (enqueue registration (new_engine config)))).1
      ≡ queue_of (after_rounds 3 (enqueue registration (new_engine config))).pending)
    × (3 ≤ 7
        → lookup registration.event_id
            (after_rounds 3 (enqueue registration (new_engine config))).pending
          ≡ some
              (record (entry_of registration (new_engine config)) { rounds = pos (suc (7 - 3)) }))
    × (7 < 3
        → lookup registration.event_id
            (after_rounds 3 (enqueue registration (new_engine config))).pending
          ≡ none)
enqueue_rounds_example =
    enqueue_rounds registration (new_engine config) 7 3 fresh-Distinct eight_rounds

abbrev delta : DeltaPayload
delta = record {
  mutation = registration;
  hop = pos 1;
  trace = false;
  trace_origin_node_id = bytes "b";
  trace_origin_address = [];
}

abbrev both : Node
both = record { engine = new_engine config; service = bare_node }

handle_delta_lem_example :
    (lookup registration.event_id
        (handle_delta payloads readings delta (bytes "b") (bytes "i") both).0.engine.incoming_meta
      ≡ none)
    × ((handle_delta payloads readings delta (bytes "b") (bytes "i") both).0.engine.pending ≡ (
        if is_applied (apply_remote payloads registration readings (idle bare_node)).1
        then insert registration.event_id
            (passed_on
              (new_engine config).config
              delta
              (lookup registration.event_id (new_engine config).pending))
            (new_engine config).pending
        else (new_engine config).pending))
    × ((handle_delta payloads readings delta (bytes "b") (bytes "i") both).0.service.registry
        ≡ (apply_remote payloads registration readings (idle bare_node)).0.registry)
handle_delta_lem_example = handle_delta_lem payloads readings delta (bytes "b") (bytes "i") both
