-- ===== src/Gossip/Radio.antt =====
-- What the gossip engine sends: `gossipRound`, `sendPing`, `sendMembers`, `sendMutation` and
-- `sendSyncRequired` of backend/internal/gossip/engine.go, down to `Send` of udp.go. The encoding of
-- payloads, what is drawn, and whether the network takes a packet are parameters; a draw and a write
-- have their number.
pub mod Clean
pub mod Turn
use mini_eureka.Prelude.{
  ℕ, ◌+◌, ◌==◌, if◌then◌else◌, Bool, true, false, Option, none, some, List, [], ◌∷◌, ◌++◌, length,
}
use mini_eureka.Prelude.Text.{Text, text_eq}
use mini_eureka.Prelude.Int.{pos}
use mini_eureka.Prelude.Time.{Time, zero_time}
use mini_eureka.Prelude.Map.{Map}
use mini_eureka.Model.Error.{Error, Result, ok, err, message, wrapped, text, is_sentinel}
use mini_eureka.Model.Member.{Member}
use mini_eureka.Registry.Shard.{Shard}
use mini_eureka.Registry.Digest.{DigestEntry, ShardDigest, digests}
use mini_eureka.Cluster.{Table, self_member, snapshot_members}
use mini_eureka.Gossip.Wire.{
  Envelope, Codec, Authenticator, MessageType, new_envelope, encode, message_too_large,
}
use mini_eureka.Gossip.Engine.{
  Engine, Pending, PeerTarget, digests_for_round, members_for_round, pending_for_round, note_ping,
  targets, target_for,
}
use mini_eureka.Gossip.Peers.{PingPayload}
use mini_eureka.Gossip.Delta.{DeltaPayload, ReceiptPayload}
use mini_eureka.Gossip.Select.{Fault, pick, Sending, send}

-- What a message draws, and the reading of the clock.
pub record Draw : Type 0 where
  pub id : Text
  pub nonce : Text
  pub sent_at : Time

-- What sending takes from elsewhere: the codec of the wire, `json.Marshal` of the payloads, the draws
-- of messages, of peers and of faults, whether the network takes a packet, and the hash of digests.
pub record Gear : Type 0 where
  pub codec : Codec
  pub write_ping : PingPayload → Option Text
  pub write_ack : Text → PingPayload → Option Text
  pub write_members : List Member → Option Text
  pub write_delta : DeltaPayload → Option Text
  pub write_receipt : ReceiptPayload → Option Text
  pub write_reason : Text → Option Text
  pub draw : ℕ → Draw
  pub intn : ℕ → ℕ → ℕ
  pub roll : ℕ → ℕ
  pub reaches : ℕ → Bool
  pub hash : List DigestEntry → Text

-- The parts of a node that sending reads and does not change.
pub record Station : Type 0 where
  pub auth : Authenticator
  pub table : Table
  pub shards : List Shard
  pub max_bytes : ℕ
  pub faults : Map Text Fault

-- A packet that the network has taken.
pub record Packet : Type 0 where
  pub peer : Text
  pub address : Text
  pub bytes_sent : Text

-- The engine, the packets so far, how many messages were drawn and packets written, and the counter
-- of sent messages.
pub record Radio : Type 0 where
  pub engine : Engine
  pub packets : List Packet
  pub drawn : ℕ
  pub written : ℕ
  pub counted : ℕ

-- `Send` of a packet: whether it has no error. A packet that a fault drops counts as sent.
unfoldable pub transmit : Gear → Station → PeerTarget → Text → Radio → Radio × Bool
unfolding send
transmit g st target packet r =
    elim (send st.max_bytes st.faults target.id (g.roll r.written) packet) [
      | Sending.too_large ↦ (r, false)
      | Sending.dropped ↦ (record r { written = r.written + 1 }, true)
      | Sending.sent ↦
          if g.reaches r.written
          then (
            record r {
              written = r.written + 1;
              packets =
                  r.packets
                  ++ (record { peer = target.id; address = target.address; bytes_sent = packet }
                      ∷ []);
            },
            true,
          )
          else (record r { written = r.written + 1 }, false)
    ]

-- `NewEnvelope` and `Encode`: the packet, and the radio after the draw.
unfoldable pub seal : Gear → Station → MessageType → Option Text → Radio → Radio × Result Text
seal g st type payload r = elim payload [
  | none ↦ (r, err (wrapped (text "marshal gossip payload") (message (text "json"))))
  | some p ↦
      let d = g.draw r.drawn in
      (
        record r { drawn = r.drawn + 1 },
        encode g.codec st.auth
            (new_envelope g.codec type r.engine.config.node_id p d.id d.nonce d.sent_at st.auth),
      )
]

-- `GossipSent` after a message that was sent without an error.
unfoldable pub count_sent : Radio × Bool → Radio
count_sent (r, true) = record r { counted = r.counted + 1 }
count_sent (r, false) = r

-- `Envelope{}`
abbrev pub zero_envelope : Envelope
zero_envelope = record {
  version = pos 0;
  cluster_id = [];
  type = MessageType.other [];
  message_id = [];
  sender = [];
  sent_at = zero_time;
  nonce = [];
  payload = [];
  signature = [];
}

-- `NewEnvelope` and `Encode` where the error of the first is dropped.
unfoldable pub seal_anyway :
    Gear → Station → MessageType → Option Text → Radio → Radio × Result Text
unfolding seal
seal_anyway g st type payload r = elim payload [
  | none ↦ (r, encode g.codec st.auth zero_envelope)
  | some p ↦ seal g st type (some p) r
]

-- A message that is sent whatever comes of it.
unfoldable pub send_quietly :
    Gear → Station → PeerTarget → MessageType → Option Text → Radio → Radio
unfolding seal_anyway transmit
send_quietly g st target type payload r =
    let (r1, sealed) = seal_anyway g st type payload r in
    elim sealed [ err e ↦ r1 | ok packet ↦ (transmit g st target packet r1).0 ]

-- A message that is counted if it is sent.
unfoldable pub send_counted :
    Gear → Station → PeerTarget → MessageType → Option Text → Radio → Radio
unfolding seal transmit count_sent
send_counted g st target type payload r =
    let (r1, sealed) = seal g st type payload r in
    elim sealed [ err e ↦ r1 | ok packet ↦ count_sent (transmit g st target packet r1) ]

-- `sendPing`: the ping is noted once it is encoded.
unfoldable pub send_ping : Gear → Station → Time → PeerTarget → Radio → Radio
unfolding seal transmit count_sent
send_ping g st wall target r =
    let (e, found) = digests_for_round (digests g.hash st.shards) r.engine in
    let payload : PingPayload = record {
      self = self_member st.table;
      members = [];
      digests = found;
    } in
    let (r1, sealed) =
      seal g st MessageType.ping (g.write_ping payload) (record r { engine = e }) in
    let noted = record r1 { engine = note_ping (g.draw r.drawn).id wall r1.engine } in
    elim sealed [ err e' ↦ r1 | ok packet ↦ count_sent (transmit g st target packet noted) ]

unfoldable pub send_each_member : Gear → Station → PeerTarget → List Member → Radio → Radio
unfolding send_counted
send_each_member g st target [] r = r
send_each_member g st target (m ∷ ms) r =
    send_each_member g st target ms
      (send_counted g st target MessageType.members (g.write_members (m ∷ [])) r)

-- `sendMembers`
unfoldable pub send_members : Gear → Station → PeerTarget → Radio → Radio
unfolding send_each_member
send_members g st target r =
    let (e, ms) = members_for_round (snapshot_members st.table) r.engine in
    send_each_member g st target ms (record r { engine = e })

-- `sendSyncRequired`
unfoldable pub send_sync_required : Gear → Station → PeerTarget → Radio → Radio
unfolding send_quietly
send_sync_required g st target r =
    send_quietly g st target MessageType.sync_required (g.write_reason (text "delta_too_large")) r

abbrev pub delta_of : Pending → DeltaPayload
delta_of item = record {
  mutation = item.mutation;
  hop = item.meta.hop;
  trace = item.meta.trace;
  trace_origin_node_id = item.meta.origin_node_id;
  trace_origin_address = item.meta.origin_address;
}

-- `sendMutation`: for a mutation that is too large the peer is told to synchronise.
unfoldable pub send_mutation : Gear → Station → PeerTarget → Pending → Radio → Radio
unfolding seal transmit count_sent send_sync_required
send_mutation g st target item r =
    let (r1, sealed) = seal g st MessageType.delta (g.write_delta (delta_of item)) r in
    elim sealed [
      | err e ↦ if is_sentinel message_too_large e then send_sync_required g st target r1 else r1
      | ok packet ↦ count_sent (transmit g st target packet r1)
    ]

-- The first loop of `gossipRound`.
unfoldable pub greet : Gear → Station → Time → List Text → Radio → Radio
unfolding send_ping send_members
greet g st wall [] r = r
greet g st wall (key ∷ keys) r =
    let target = target_for st.table key in
    let greeted =
      if text_eq target.address []
      then r
      else send_members g st target (send_ping g st wall target r) in
    greet g st wall keys greeted

-- The loops over the pending mutations, and over the peers for each of them.
unfoldable pub spread_one : Gear → Station → Pending → List Text → Radio → Radio
unfolding send_mutation
spread_one g st item [] r = r
spread_one g st item (key ∷ keys) r =
    let target = target_for st.table key in
    let spread = if text_eq target.address [] then r else send_mutation g st target item r in
    spread_one g st item keys spread

unfoldable pub spread : Gear → Station → List Pending → List Text → Radio → Radio
unfolding spread_one
spread g st [] keys r = r
spread g st (item ∷ items) keys r = spread g st items keys (spread_one g st item keys r)

-- `gossipRound`
unfoldable pub gossip_round : Gear → Station → Time → Radio → Radio
unfolding greet spread
gossip_round g st wall r =
    let selected = pick g.intn (targets st.table r.engine) r.engine.config.fanout in
    let greeted = greet g st wall selected r in
    let (e, items) = pending_for_round greeted.engine in
    spread g st items selected (record greeted { engine = e })
