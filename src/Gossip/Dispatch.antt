-- ===== src/Gossip/Dispatch.antt =====
-- What a node does with a packet that arrives: `handleDatagram` and `handleReceipt` of
-- backend/internal/gossip/engine.go, over the handlers of the other modules. The readers of payloads
-- are a parameter. Handlers run to their end one after the other, and the mutations that the service
-- gives its sink are enqueued before the next packet.
use mini_eureka.Prelude.{
  ℕ, ◌+◌, true, false, Option, none, some, List, [], ◌∷◌, ◌++◌, ◌≡◌, ◌⊎◌, inl, inr, ap, length, ◌<◌,
  All,
}
use mini_eureka.Prelude.Text.{Text}
use mini_eureka.Prelude.Time.{Time, zero_time, add_time, after}
use mini_eureka.Model.Error.{Error, ok, err}
use mini_eureka.Model.Member.{Member}
use mini_eureka.Events.{Event, EventType, publish, add_uint64}
use mini_eureka.Cluster.{Table, self_member}
use mini_eureka.Service.{Payloads, Service, Readings}
use mini_eureka.Gossip.Wire.{
  Authenticator, Envelope, MessageType, Moments, decode_and_verify, join_lines, canonical,
  out_of_skew,
}
use mini_eureka.Gossip.Accept.{decoding_cases, Passes-genuine, Refuses}
use mini_eureka.Gossip.Replay.{receive_all, replay_refused}
use mini_eureka.Gossip.Engine.{PeerTarget, trigger_sync}
use mini_eureka.Gossip.Peers.{PingPayload, merge_members, handle_ping, handle_ack}
use mini_eureka.Gossip.Delta.{DeltaPayload, ReceiptPayload, handle_delta}
use mini_eureka.Gossip.Radio.{Gear, Station, Radio, send_quietly, send_each_member}
use mini_eureka.Gossip.Select.{Fault}
use mini_eureka.Prelude.Map.{Map}

-- `json.Unmarshal` of the payloads, a receipt with the bits of its latency, and the JSON of the event
-- that a receipt becomes.
pub record PayloadReaders : Type 0 where
  pub read_ping : Text → Option PingPayload
  pub read_ack : Text → Option (Text × PingPayload)
  pub read_delta : Text → Option DeltaPayload
  pub read_members : Text → Option (List Member)
  pub read_receipt : Text → Option (ReceiptPayload × ℕ)
  pub hop_payload : Text → Text

-- A node as gossip sees it: its engine with what it has sent, the service, the membership table, the
-- authenticator, the transport's limit and faults, the synchronisations that it has started, and the two counters.
pub record Peer : Type 0 where
  pub radio : Radio
  pub service : Service
  pub table : Table
  pub auth : Authenticator
  pub max_bytes : ℕ
  pub faults : Map Text Fault
  pub asked : List Member
  pub received : ℕ
  pub rejected : ℕ

-- What the handlers take from elsewhere, with the readings of the clocks for one packet.
pub record Surroundings : Type 0 where
  pub gear : Gear
  pub readers : PayloadReaders
  pub payloads : Payloads
  pub readings : Readings
  pub wall : Time
  pub moments : Moments

abbrev pub station_of : Peer → Station
station_of p = record {
  auth = p.auth;
  table = p.table;
  shards = p.service.registry.shards;
  max_bytes = p.max_bytes;
  faults = p.faults;
}

abbrev pub asked_too : Option Member → List Member → List Member
asked_too none ms = ms
asked_too (some m) ms = ms ++ (m ∷ [])

-- `handlePing` with its acknowledgement and the members that follow it.
unfoldable pub on_ping : Surroundings → Text → Text → PingPayload → Peer → Peer
on_ping w remote message_id payload p =
    let heard =
      handle_ping w.gear.hash p.service.registry.shards payload w.wall p.table p.radio.engine in
    let p' = record p { table = heard.table; asked = asked_too heard.asked p.asked } in
    let target : PeerTarget = record { id = payload.self.node_id; address = remote; http = [] } in
    let answer : PingPayload = record {
      self = self_member heard.table;
      members = [];
      digests = heard.digests;
    } in
    let st = station_of p' in
    let acked =
      send_quietly w.gear st target MessageType.ack (w.gear.write_ack message_id answer)
        (record p.radio { engine = heard.engine }) in
    record p' { radio = send_each_member w.gear st target heard.members acked }

-- `handleAck`
unfoldable pub on_ack : Surroundings → Text × PingPayload → Peer → Peer
on_ack w (reply_to, payload) p =
    let heard =
      handle_ack w.gear.hash p.service.registry.shards payload reply_to w.wall p.table
        p.radio.engine in
    record p {
      radio = record p.radio { engine = heard.engine };
      table = heard.table;
      asked = asked_too heard.asked p.asked;
    }

-- `handleDelta` with its receipt.
unfoldable pub on_delta : Surroundings → Envelope → DeltaPayload → Peer → Peer
on_delta w e payload p =
    let (node, receipt) =
      handle_delta w.payloads w.readings payload e.sender e.message_id
        (record { engine = p.radio.engine; service = p.service }) in
    let radio = record p.radio { engine = node.engine } in
    let p' = record p { service = node.service } in
    let target : PeerTarget = record {
      id = payload.trace_origin_node_id;
      address = payload.trace_origin_address;
      http = [];
    } in
    record p' {
      radio = elim receipt [
        | none ↦ radio
        | some r ↦
            send_quietly w.gear (station_of p') target MessageType.receipt (w.gear.write_receipt r)
              radio
      ];
    }

-- `handleReceipt`
unfoldable pub on_receipt : Surroundings → ReceiptPayload × ℕ → Peer → Peer
on_receipt w (r, latency_bits) p =
    let hop : Event = record {
      seq = 0;
      schema = 0;
      stream_node_id = [];
      stream_boot_id = [];
      type = EventType.gossip_hop;
      event_id = r.event_id;
      entity_key = r.event_id;
      revision = [];
      origin_node_id = [];
      occurred_at = zero_time;
      payload = w.readers.hop_payload r.event_id;
      delivery = some (record {
        attempt_id = r.attempt_id;
        source_node = r.source_node_id;
        target_node = r.target_node_id;
        hop = r.hop;
        result = r.result;
        latency_bits = latency_bits;
      });
    } in
    record p {
      service = record p.service { events = (publish p.service.events hop w.readings.events).0 };
    }

-- `case MessageSyncRequired`
unfoldable pub on_sync_required : Text → Peer → Peer
on_sync_required sender p =
    let (e, asked) = trigger_sync p.table sender p.radio.engine in
    record p { radio = record p.radio { engine = e }; asked = asked_too asked p.asked }

-- What is done with a payload that is read, and nothing with another.
abbrev pub when_read {ℓ} : {A : Type ℓ} → Option A → (A → Peer → Peer) → Peer → Peer
when_read none k p = p
when_read (some a) k p = k a p

-- The switch of `handleDatagram`.
unfoldable pub dispatch : Surroundings → Text → MessageType → Envelope → Peer → Peer
unfolding on_ping on_ack on_delta on_receipt on_sync_required
dispatch w remote MessageType.ping e p =
    when_read (w.readers.read_ping e.payload) (on_ping w remote e.message_id) p
dispatch w remote MessageType.ack e p = when_read (w.readers.read_ack e.payload) (on_ack w) p
dispatch w remote MessageType.delta e p =
    when_read (w.readers.read_delta e.payload) (on_delta w e) p
dispatch w remote MessageType.members e p =
    when_read (w.readers.read_members e.payload)
      (λ ms q. record q { table = merge_members ms w.wall q.table }) p
dispatch w remote MessageType.sync_required e p = on_sync_required e.sender p
dispatch w remote MessageType.receipt e p =
    when_read (w.readers.read_receipt e.payload) (on_receipt w) p
dispatch w remote MessageType.digest e p = p
dispatch w remote (MessageType.other t) e p = p

-- `handleDatagram`
unfoldable pub handle_datagram : Surroundings → Text → Text → Peer → Peer
unfolding dispatch
handle_datagram w remote packet p =
    let (auth, result) = decode_and_verify w.gear.codec packet w.moments p.auth in
    elim result [
      | err e ↦ record p { auth = auth; rejected = add_uint64 p.rejected 1 }
      | ok e ↦
          dispatch w remote e.type e (record p { auth = auth; received = add_uint64 p.received 1 })
    ]

abbrev pub rejecting : Peer → Peer
rejecting p = record p { rejected = add_uint64 p.rejected 1 }

refused-rejecting :
    (w : Surroundings) (remote packet : Text) (p : Peer) (e : Error)
    → decode_and_verify w.gear.codec packet w.moments p.auth ≡ (p.auth, err e)
    → handle_datagram w remote packet p ≡ rejecting p
unfolding handle_datagram
refused-rejecting w remote packet p e h =
    rw (h, handle_datagram)
      (ap (λ x. record p { auth = x.0; rejected = add_uint64 p.rejected 1 }) h)

-- A packet either changes nothing of the node but the count of rejected packets, or it is a message
-- of the node's cluster, sent within the skew of its clock, that carries as its signature the MAC of
-- its own fields under the node's secret. Hexadecimal text is to decode to what it encodes.
pub handle_datagram_genuine :
    (w : Surroundings) (remote packet : Text) (p : Peer)
    → ((s : Text) → w.gear.codec.unhex (w.gear.codec.hex s) ≡ some s)
    → (handle_datagram w remote packet p ≡ record p { rejected = add_uint64 p.rejected 1 })
      ⊎ ((e : Envelope) × (w.gear.codec.decode packet ≡ some e)
          × (e.cluster_id ≡ p.auth.cluster_id)
          × (out_of_skew p.auth.max_skew e.sent_at w.moments.checked ≡ false)
          × (w.gear.codec.unhex e.signature
              ≡ some (w.gear.codec.mac p.auth.secret (join_lines (canonical w.gear.codec e)))))
unfolding Refuses
handle_datagram_genuine w remote packet p back =
    elim (decoding_cases w.gear.codec packet w.moments p.auth) [
      | inr (error, bad) ↦ inl (refused-rejecting w remote packet p error bad)
      | inl (e, (passes, good)) ↦
          let genuine = Passes-genuine w.gear.codec packet w.moments p.auth e back passes in
          inr (e, passes.decoded, genuine.0, genuine.1, genuine.2)
    ]

-- A packet that a node has accepted and that comes again, after any others, changes nothing but the
-- count of rejected packets: no member, no record, no pending mutation, no answer to it. The nonces
-- of the packets between have room in the cache, and all come, as the packet does again, before the
-- nonce's time is over.
pub handle_datagram_replayed :
    (w : Surroundings) (remote packet : Text) (p : Peer) (first : Moments)
    (xs : List (Text × Moments)) (a a' : Authenticator) (e : Envelope)
    → decode_and_verify w.gear.codec packet first a ≡ (a', ok e)
    → p.auth ≡ receive_all w.gear.codec xs a'
    → length a'.nonces.entries + length xs < a'.nonces.capacity
    → All (λ x. after (add_time first.stored a.max_skew) x.1.looked_up ≡ true) xs
    → after (add_time first.stored a.max_skew) w.moments.looked_up ≡ true
    → handle_datagram w remote packet p ≡ record p { rejected = add_uint64 p.rejected 1 }
handle_datagram_replayed w remote packet p first xs a a' e accepted now room live in_time =
    let (error, refused) =
      replay_refused w.gear.codec packet first w.moments xs a a' e accepted room live in_time in
    refused-rejecting w remote packet p error (rw now refused)
