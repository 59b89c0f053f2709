-- ===== src/Gossip/Ready.antt =====
-- When a node becomes ready: over all that may happen to it, a completed synchronisation is what makes
-- the engine of backend/internal/gossip/engine.go ready, and nothing makes it unready.
use mini_eureka.Prelude.{
  Bool, true, false, ◌||◌, Option, List, [], ◌∷◌, ◌≡◌, ◌⊎◌, ◌∙◌, refl, arith, map, Bool-cases,
  Option-cases, inl, inr,
}
use mini_eureka.Prelude.Int.{pos}
use mini_eureka.Prelude.Text.{Text}
use mini_eureka.Prelude.Time.{Time}
use mini_eureka.Prelude.Map.{text_key, insert}
use mini_eureka.Model.Error.{Result-cases}
use mini_eureka.Model.Mutation.{Mutation}
use mini_eureka.Registry.Shard.{Shard}
use mini_eureka.Registry.Digest.{DigestEntry}
use mini_eureka.Cluster.{Table, alive_peers, tick}
use mini_eureka.Service.{Payloads, Readings}
use mini_eureka.Service.Leases.{apply_remote}
use mini_eureka.Service.Requests.{serve}
use mini_eureka.Gossip.Wire.{decode_and_verify, MessageType, Envelope}
use mini_eureka.Gossip.Engine.{
  Engine, PeerTarget, trigger_sync, finish_sync, enqueue, record_sync_result, digests_for_round,
  members_for_round, take_ack,
}
use mini_eureka.Gossip.Pages.{SyncOutcome, take_page}
use mini_eureka.Gossip.Select.{pick}
use mini_eureka.Gossip.Peers.{PingPayload, handle_ping, handle_ack, sync_if_needed, hear}
use mini_eureka.Gossip.Delta.{
  DeltaPayload, Node, enqueue_all, idle, sink_of, handle_delta, is_applied, meta_of,
}
use mini_eureka.Gossip.Radio.{Gear, Station, Radio, send_quietly}
use mini_eureka.Gossip.Radio.Clean.{KeepsClean, quietly-clean, each_member-clean}
use mini_eureka.Gossip.Radio.Turn.{gossip_round-ready}
use mini_eureka.Gossip.Dispatch.{
  Surroundings, Peer, handle_datagram, dispatch, station_of, on_ping, on_ack, on_delta, on_receipt,
  on_sync_required,
}
use mini_eureka.Gossip.Life.{
  Step, step, live_through, anti_entropy_round, gossip_tick, with_service, node_id_of, arrives,
  gossips, reconciles, serves, takes, ends,
}

enqueue_all-ready : (ms : List Mutation) (e : Engine) → (enqueue_all ms e).ready ≡ e.ready
unfolding enqueue_all enqueue
enqueue_all-ready [] e = refl
enqueue_all-ready (m ∷ ms) e = enqueue_all-ready ms (enqueue m e)

trigger_sync-ready : (t : Table) (id : Text) (e : Engine) → (trigger_sync t id e).0.ready ≡ e.ready
unfolding trigger_sync
trigger_sync-ready t id e = ground arith

sync_if_needed-ready :
    (hash : List DigestEntry → Text) (shards : List Shard) (p : PingPayload) (t : Table)
    (e : Engine)
    → (sync_if_needed hash shards p t e).0.ready ≡ e.ready
unfolding sync_if_needed
sync_if_needed-ready hash shards p t e = ground (arith, trigger_sync-ready t p.self.node_id e)

handle_ping-ready :
    (hash : List DigestEntry → Text) (shards : List Shard) (p : PingPayload) (wall : Time)
    (t : Table) (e : Engine)
    → (handle_ping hash shards p wall t e).engine.ready ≡ e.ready
unfolding handle_ping digests_for_round members_for_round
handle_ping-ready hash shards p wall t e =
    sync_if_needed-ready hash shards p (hear p (pos 0) wall t) e

handle_ack-ready :
    (hash : List DigestEntry → Text) (shards : List Shard) (p : PingPayload) (reply_to : Text)
    (wall : Time) (t : Table) (e : Engine)
    → (handle_ack hash shards p reply_to wall t e).engine.ready ≡ e.ready
unfolding handle_ack take_ack
handle_ack-ready hash shards p reply_to wall t e =
    let (e1, latency) = take_ack reply_to wall e in
    sync_if_needed-ready hash shards p (hear p latency wall t) e1

handle_delta-ready :
    (pl : Payloads) (rd : Readings) (p : DeltaPayload) (sender id : Text) (n : Node)
    → (handle_delta pl rd p sender id n).0.engine.ready ≡ n.engine.ready
unfolding handle_delta
handle_delta-ready pl rd p sender id n =
    let (s, result) = apply_remote pl p.mutation rd (idle n.service) in
    let e = record n.engine {
      incoming_meta = insert p.mutation.event_id (meta_of p) n.engine.incoming_meta;
    } in
    let kept = enqueue_all-ready (sink_of s.outbox) e in
    elim (Bool-cases (is_applied result)) [ inl taken ↦ rw taken kept | inr left ↦ rw left kept ]

quietly-ready :
    (g : Gear) (st : Station) (target : PeerTarget) (type : MessageType) (payload : Option Text)
    (r : Radio)
    → (send_quietly g st target type payload r).engine.ready ≡ r.engine.ready
unfolding KeepsClean
quietly-ready g st target type payload r = (quietly-clean g st target type payload r).1.ready

on_ping-ready :
    (w : Surroundings) (remote id : Text) (payload : PingPayload) (p : Peer)
    → (on_ping w remote id payload p).radio.engine.ready ≡ p.radio.engine.ready
unfolding on_ping KeepsClean
on_ping-ready w remote id payload p =
    let heard =
      handle_ping w.gear.hash p.service.registry.shards payload w.wall p.table p.radio.engine in
    (each_member-clean w.gear _ _ heard.members _).1.ready
    ∙ quietly-ready w.gear _ _ MessageType.ack _ (record p.radio { engine = heard.engine })
    ∙ handle_ping-ready w.gear.hash p.service.registry.shards payload w.wall p.table p.radio.engine

on_delta-ready :
    (w : Surroundings) (e : Envelope) (payload : DeltaPayload) (p : Peer)
    → (on_delta w e payload p).radio.engine.ready ≡ p.radio.engine.ready
unfolding on_delta
on_delta-ready w e payload p =
    let n : Node = record { engine = p.radio.engine; service = p.service } in
    let (node, receipt) = handle_delta w.payloads w.readings payload e.sender e.message_id n in
    let kept = handle_delta-ready w.payloads w.readings payload e.sender e.message_id n in
    elim (Option-cases receipt) [
      | inl none_due ↦ rw (none_due, on_delta) kept
      | inr (r, due) ↦
          rw (due, on_delta)
            (quietly-ready w.gear _ _ MessageType.receipt _
                (record p.radio { engine = node.engine })
              ∙ kept)
    ]

dispatch-ready :
    (w : Surroundings) (remote : Text) (type : MessageType) (e : Envelope) (p : Peer)
    → (dispatch w remote type e p).radio.engine.ready ≡ p.radio.engine.ready
unfolding dispatch on_ack on_receipt on_sync_required
dispatch-ready w remote MessageType.ping e p = elim (Option-cases (w.readers.read_ping e.payload)) [
  | inl bad ↦ rw bad refl
  | inr (payload, good) ↦ rw good (on_ping-ready w remote e.message_id payload p)
]
dispatch-ready w remote MessageType.ack e p = elim (Option-cases (w.readers.read_ack e.payload)) [
  | inl bad ↦ rw bad refl
  | inr (payload, good) ↦ rw good (
      handle_ack-ready w.gear.hash p.service.registry.shards payload.1 payload.0 w.wall p.table
        p.radio.engine)
]
dispatch-ready w remote MessageType.delta e p =
    elim (Option-cases (w.readers.read_delta e.payload)) [
      | inl bad ↦ rw bad refl
      | inr (payload, good) ↦ rw good (on_delta-ready w e payload p)
    ]
dispatch-ready w remote MessageType.members e p =
    elim (Option-cases (w.readers.read_members e.payload)) [
      | inl bad ↦ rw bad refl
      | inr (payload, good) ↦ rw good refl
    ]
dispatch-ready w remote MessageType.sync_required e p =
    trigger_sync-ready p.table e.sender p.radio.engine
dispatch-ready w remote MessageType.receipt e p =
    elim (Option-cases (w.readers.read_receipt e.payload)) [
      | inl bad ↦ rw bad refl
      | inr (payload, good) ↦ rw good refl
    ]
dispatch-ready w remote MessageType.digest e p = refl
dispatch-ready w remote (MessageType.other t) e p = refl

handle_datagram-ready :
    (w : Surroundings) (remote packet : Text) (p : Peer)
    → (handle_datagram w remote packet p).radio.engine.ready ≡ p.radio.engine.ready
unfolding handle_datagram
handle_datagram-ready w remote packet p =
    elim (Result-cases (decode_and_verify w.gear.codec packet w.moments p.auth).1) [
      | inl (e, bad) ↦ rw (bad, handle_datagram) refl
      | inr (e, good) ↦ rw (good, handle_datagram) (dispatch-ready w remote e.type e _)
    ]

abbrev is_synced : SyncOutcome → Bool
is_synced SyncOutcome.synced = true
is_synced _ = false

finish_sync-ready :
    (id : Text) (outcome : SyncOutcome) (e : Engine)
    → (finish_sync id outcome e).ready ≡ (e.ready || is_synced outcome)
unfolding finish_sync record_sync_result
finish_sync-ready id outcome e = ground arith

List-cases : {A : Type 0} (xs : List A) → (xs ≡ []) ⊎ ((a : A) × (as' : List A) × (xs ≡ a ∷ as'))
List-cases [] = inl refl
List-cases (a ∷ as') = inr (a, as', refl)

anti_entropy_round-ready :
    (g : Gear) (p : Peer) → (anti_entropy_round g p).radio.engine.ready ≡ p.radio.engine.ready
unfolding anti_entropy_round
anti_entropy_round-ready g p =
    elim (List-cases (pick g.intn (map node_id_of (alive_peers p.table)) (pos 1))) [
      | inl nobody ↦ rw (nobody, anti_entropy_round) refl
      | inr (id, others, found) ↦
          rw (found, anti_entropy_round) (trigger_sync-ready p.table id p.radio.engine)
    ]

-- A synchronisation that is completed by a step.
unfoldable pub completes : Step → Bool
completes (ends id outcome) = is_synced outcome
completes _ = false

step-ready :
    (x : Step) (p : Peer) → (step x p).radio.engine.ready ≡ (p.radio.engine.ready || completes x)
unfolding step completes with_service gossip_tick
step-ready (arrives w remote packet) p = ground (arith, handle_datagram-ready w remote packet p)
step-ready (gossips g now wall) p =
    let p' = record p { table = (tick p.table now wall).0 } in
    ground (arith, gossip_round-ready g (station_of p') wall p'.radio)
step-ready (reconciles g) p = ground (arith, anti_entropy_round-ready g p)
step-ready (serves pl rd ids q) p =
    ground (
      arith,
      enqueue_all-ready (sink_of (serve pl rd ids q (idle p.service)).outbox) p.radio.engine,
    )
step-ready (takes pl rd ids page) p = ground (
  arith,
  enqueue_all-ready (sink_of (take_page pl rd ids page (idle p.service)).outbox) p.radio.engine,
)
step-ready (ends id outcome) p = finish_sync-ready id outcome p.radio.engine

unfoldable pub some_completes : List Step → Bool
some_completes [] = false
some_completes (x ∷ xs) = completes x || some_completes xs

-- Whatever happens to a node, in whatever order, its engine is ready afterwards exactly if it was
-- ready before or some synchronisation with a peer has been completed: packets, rounds, requests,
-- pages and failed synchronisations make it neither ready nor unready.
pub live_through-ready :
    (xs : List Step) (p : Peer)
    → (live_through xs p).radio.engine.ready ≡ (p.radio.engine.ready || some_completes xs)
unfolding live_through some_completes
live_through-ready [] p = ground arith
live_through-ready (x ∷ xs) p = ground (arith, step-ready x p, live_through-ready xs (step x p))
