-- ===== src/Tests/Peers.antt =====
-- The theorems on what a node sends, receives and answers (backend/internal/gossip) at one node with
-- a toy codec.
use mini_eureka.Prelude.{true, false, ◌||◌, none, some, List, [], ◌∷◌, ◌≡◌, ◌⊎◌, refl}
use mini_eureka.Prelude.Int.{pos, ◌-ℤ◌, ◌+ℤ◌}
use mini_eureka.Prelude.Text.{bytes, text_eq, compare_text}
use mini_eureka.Prelude.Order.{compare_list}
use mini_eureka.Prelude.Time.{sub_time}
use mini_eureka.Prelude.Map.{lookup}
use mini_eureka.Model.Error.{text}
use mini_eureka.Events.{add_uint64}
use mini_eureka.Cluster.{get_member}
use mini_eureka.Gossip.Wire.{Envelope, canonical, join_lines, out_of_skew}
use mini_eureka.Gossip.Nonces.{is_live}
use mini_eureka.Gossip.Engine.{new_engine}
use mini_eureka.Gossip.Pages.{SyncOutcome, build_response}
use mini_eureka.Gossip.Peers.{PingPayload}
use mini_eureka.Gossip.Replay.{receive_all}
use mini_eureka.Gossip.Radio.{Gear, Radio, Station}
use mini_eureka.Gossip.Dispatch.{
  PayloadReaders, Peer, Surroundings, handle_datagram, handle_datagram_genuine,
  handle_datagram_replayed, station_of,
}
use mini_eureka.Gossip.Life.{Step, live_through}
use mini_eureka.Gossip.Ready.{live_through-ready, some_completes}
use mini_eureka.Gossip.Http.{HttpRequest, http_signature, sign_http}
use mini_eureka.Gossip.Answer.{Desk, answer_peer, answer_peer_signed, answered, body_limit}
use mini_eureka.Tests.Nodes.{peer, table}
use mini_eureka.Tests.Services.{payloads, node, readings, store_of_one}
use mini_eureka.Tests.Messages.{accepted, at_time, codec, keeper, later_node, ping, room-left}
use mini_eureka.Tests.Gossips.{at_nine, config, hash}

abbrev gear : Gear
gear = record {
  codec = codec;
  write_ping = λ p. some (bytes "p");
  write_ack = λ id p. some (bytes "a");
  write_members = λ ms. some (bytes "m");
  write_delta = λ d. some (bytes "d");
  write_receipt = λ r. some (bytes "r");
  write_reason = λ s. some s;
  draw = λ n. record { id = bytes "i"; nonce = bytes "x"; sent_at = pos 20 };
  intn = λ n m. 0;
  roll = λ n. 0;
  reaches = λ n. true;
  hash = hash;
}

abbrev hello : PingPayload
hello = record { self = peer; members = []; digests = [] }

abbrev payload_readers : PayloadReaders
payload_readers = record {
  read_ping = λ s. some hello;
  read_ack = λ s. none;
  read_delta = λ s. none;
  read_members = λ s. none;
  read_receipt = λ s. none;
  hop_payload = λ id. id;
}

abbrev quiet : Radio
quiet = record {
  engine = record (new_engine config) {
    config = record config { seeds = bytes "s" ∷ []; fanout = pos 3 };
  };
  packets = [];
  drawn = 0;
  written = 0;
  counted = 0;
}

abbrev standing : Peer
standing = record {
  radio = quiet;
  service = node;
  table = table;
  auth = receive_all codec ((bytes "m", at_time (pos 5)) ∷ []) later_node;
  max_bytes = 1200;
  faults = [];
  asked = [];
  received = 1;
  rejected = 0;
}

abbrev surroundings : Surroundings
surroundings = record {
  gear = gear;
  readers = payload_readers;
  payloads = payloads;
  readings = readings;
  wall = pos 7;
  moments = at_time (pos 10);
}

handle_datagram_replayed_example :
    handle_datagram surroundings (bytes "r") (bytes "m") standing
    ≡ record standing { rejected = add_uint64 standing.rejected 1 }
handle_datagram_replayed_example =
    handle_datagram_replayed surroundings (bytes "r") (bytes "m") standing (at_time (pos 0))
      ((bytes "m", at_time (pos 5)) ∷ []) keeper later_node ping accepted refl room-left
      (unfold ◌+ℤ◌ in (refl, tt)) (unfold ◌+ℤ◌ in refl)

handle_datagram_genuine_example :
    (handle_datagram surroundings (bytes "r") (bytes "m") standing
      ≡ record standing { rejected = add_uint64 standing.rejected 1 })
    ⊎ ((e : Envelope) × (some ping ≡ some e)
        × (e.cluster_id ≡ standing.auth.cluster_id)
        × (out_of_skew standing.auth.max_skew e.sent_at (pos 10) ≡ false)
        × (some e.signature
            ≡ some (codec.mac standing.auth.secret (join_lines (canonical codec e)))))
handle_datagram_genuine_example =
    handle_datagram_genuine surroundings (bytes "r") (bytes "m") standing (λ s. refl)

abbrev morning : List Step
morning =
    Step.gossips gear (pos 7) (pos 7)
    ∷ Step.arrives surroundings (bytes "r") (bytes "m")
    ∷ Step.ends (bytes "c") SyncOutcome.failed
    ∷ Step.reconciles gear
    ∷ Step.ends (bytes "c") SyncOutcome.synced
    ∷ []

live_through-ready_example :
    (live_through morning standing).radio.engine.ready
    ≡ (standing.radio.engine.ready || some_completes morning)
live_through-ready_example = live_through-ready morning standing

abbrev station : Station
station = station_of standing

abbrev sync_call : HttpRequest
sync_call = record {
  method = bytes "POST";
  path = bytes "/internal/v1/anti-entropy";
  node_id = [];
  timestamp = [];
  nonce = [];
  signature = [];
  body = bytes "b";
}

abbrev desk : Desk
desk = record {
  codec = codec;
  readable = true;
  read_request = λ s. some ([], pos 0);
  hash = hash;
  clock = at_nine;
  max_body = pos 0;
}

signature-present :
    text_eq (sign_http codec (bytes "a") (bytes "x") (pos 20) sync_call keeper).signature [] ≡ false
unfolding sign_http http_signature join_lines text_eq compare_text compare_list
signature-present = refl

answer_peer_signed_example :
    (answer_peer desk
      (sign_http codec (bytes "a") (bytes "x") (pos 20) sync_call keeper)
      (at_time (pos 0))
      table
      store_of_one
      keeper).1
    ≡ answered (build_response hash at_nine store_of_one (record { digests = []; cursor = 0 }))
answer_peer_signed_example =
    answer_peer_signed desk (bytes "a") (bytes "x") (pos 20) sync_call (at_time (pos 0)) table
      store_of_one [] 0 keeper keeper (λ s. refl) refl refl refl
      (unfold text_eq compare_text compare_list in refl)
      (unfold text_eq compare_text compare_list in refl)
      (unfold text_eq compare_text compare_list in refl) signature-present
      (unfold sub_time ◌-ℤ◌ in refl) (unfold is_live lookup in refl)
      (unfold text_eq text compare_text compare_list in refl) refl (unfold body_limit in refl)
      (unfold get_member lookup text_eq in refl) refl
