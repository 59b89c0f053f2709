-- ===== src/Gossip/Delta.antt =====
-- A mutation that arrives from a peer: `handleDelta` of backend/internal/gossip/engine.go, with the
-- service whose mutation sink is `Enqueue` (backend/cmd/minieureka/main.go). The model runs a handler
-- to its end before the next step.
use mini_eureka.Prelude.{
  if◌then◌else◌, Bool, true, false, not, ◌&&◌, Option, none, some, List, [], ◌∷◌, ◌≡◌, arith, refl,
  ap, subst, Bool-cases, Option-cases, inl, inr,
}
use mini_eureka.Prelude.Int.{ltb_ℤ, ℤ, pos, wrap_int64, ◌+ℤ◌}
use mini_eureka.Prelude.Text.{Text, text_eq, text_eq_iff}
use mini_eureka.Prelude.Time.{Time}
use mini_eureka.Prelude.Map.{lookup, insert, delete, text_key, lookup-insert, lookup-delete}
use mini_eureka.Model.Error.{Result, Result-cases, ok, err, text}
use mini_eureka.Model.Mutation.{Mutation, validate_mutation}
use mini_eureka.Registry.Compare.{Platform}
use mini_eureka.Registry.Shard.{ApplyResult, Shard, apply_shard, apply_new, apply_current}
use mini_eureka.Registry.Store.{apply_store, shard_for}
use mini_eureka.Registry.Run.{apply}
use mini_eureka.Clock.{observe}
use mini_eureka.Events.{Event}
use mini_eureka.Service.{Payloads, Service, Readings, apply_service, announce, forward}
use mini_eureka.Service.Leases.{apply_remote, forget_event}
use mini_eureka.Gossip.Engine.{EngineConfig, Pending, Engine, TraceMeta, enqueue, queued}

-- `DeltaPayload`
pub record DeltaPayload : Type 0 where
  pub mutation : Mutation
  pub hop : ℤ
  pub trace : Bool
  pub trace_origin_node_id : Text
  pub trace_origin_address : Text

-- `ReceiptPayload`, without the latency.
pub record ReceiptPayload : Type 0 where
  pub event_id : Text
  pub attempt_id : Text
  pub source_node_id : Text
  pub target_node_id : Text
  pub hop : ℤ
  pub result : Text

-- The engine and the service of a node.
pub record Node : Type 0 where
  pub engine : Engine
  pub service : Service

unfoldable pub enqueue_all : List Mutation → Engine → Engine
unfolding enqueue
enqueue_all [] e = e
enqueue_all (m ∷ ms) e = enqueue_all ms (enqueue m e)

abbrev pub sink_of : Option (List Mutation) → List Mutation
sink_of none = []
sink_of (some ms) = ms

abbrev pub is_applied : Result ApplyResult → Bool
is_applied (ok r) = r.applied
is_applied (err e) = false

unfoldable pub result_name : Result ApplyResult → Text
result_name (err e) = text "REJECTED"
result_name (ok r) =
    if r.applied then text "APPLIED" else if r.duplicate then text "DUPLICATE" else text "REJECTED"

-- What the engine notes of the trace before the service sees the mutation.
unfoldable pub meta_of : DeltaPayload → TraceMeta
meta_of p = record {
  hop = wrap_int64 (p.hop +ℤ pos 1);
  origin_node_id = p.trace_origin_node_id;
  origin_address = p.trace_origin_address;
  trace = p.trace;
}

-- The service with nothing given to its sink yet.
abbrev pub idle : Service → Service
idle s = record s { outbox = some [] }

-- `handleDelta` of a decoded payload: the node, and the receipt for the origin of the trace. What
-- the service gives its sink is enqueued before its answer is looked at.
unfoldable pub handle_delta :
    Payloads → Readings → DeltaPayload → Text → Text → Node → Node × Option ReceiptPayload
unfolding enqueue_all meta_of result_name
handle_delta pl rd p sender message_id n =
    let m = p.mutation in
    let e = record n.engine {
      incoming_meta = insert m.event_id (meta_of p) n.engine.incoming_meta;
    } in
    let (s, result) = apply_remote pl m rd (idle n.service) in
    let e' = enqueue_all (sink_of s.outbox) e in
    let kept =
      if is_applied result
      then e'
      else record e' { incoming_meta = delete m.event_id e'.incoming_meta } in
    let receipt : ReceiptPayload = record {
      event_id = m.event_id;
      attempt_id = message_id;
      source_node_id = sender;
      target_node_id = n.engine.config.node_id;
      hop = p.hop;
      result = result_name result;
    } in
    (
      record { engine = kept; service = record s { outbox = some [] } },
      if p.trace && not (text_eq p.trace_origin_address []) then some receipt else none,
    )

abbrev has_instance : ApplyResult → Bool
has_instance r = elim r.instance [ none ↦ false | some i ↦ true ]

shard-has_instance :
    (pl : Platform) (m : Mutation) (wall : Time) (s : Shard)
    → ((apply_shard pl m wall s).1.applied && not (has_instance (apply_shard pl m wall s).1))
      ≡ false
unfolding apply_shard apply_new apply_current
shard-has_instance pl m wall s = ground arith

-- An answer without the record that it says to be applied.
abbrev bare_answer : Result ApplyResult → Bool
bare_answer (err e) = false
bare_answer (ok r) = r.applied && not (has_instance r)

quiet_without :
    (r : ApplyResult) → bare_answer (ok r) ≡ false → r.instance ≡ none → r.applied ≡ false
quiet_without r h missing = ground (arith, h, missing)

answer-has_instance :
    (pl : Platform) (m : Mutation) (wall : Time) (s : Shard)
    → bare_answer (apply pl m wall s).1 ≡ false
unfolding apply
answer-has_instance pl m wall s = elim (Option-cases (validate_mutation m)) [
  | inl valid ↦ rw (valid, apply) (shard-has_instance pl m wall s)
  | inr (e, bad) ↦ rw (bad, apply) refl
]

-- The mutations that the sink is given for an answer.
unfoldable given : Mutation → Result ApplyResult → List Mutation
given m r = if is_applied r then m ∷ [] else []

service-outbox :
    (pl : Payloads) (m : Mutation) (rd : Readings) (s : Service)
    → s.outbox ≡ some []
    → (apply_service pl m rd s).0.outbox ≡ some (given m (forget_event (apply_service pl m rd s)).1)
unfolding apply_service announce given apply_store forward forget_event
service-outbox pl m rd s h =
    let shard = shard_for s.registry m.instance.service in
    let answered = answer-has_instance pl.platform m rd.registry shard in
    elim (Result-cases (apply pl.platform m rd.registry shard).1) [
      | inl (e, bad) ↦ rw (bad, apply_service) h
      | inr (r, good) ↦ elim (Option-cases r.instance) [
        | inl missing ↦
            rw (good, apply_service)
              (rw missing
                (rw (quiet_without r (subst (λ x. bare_answer x ≡ false) good answered) missing) h))
        | inr (i, there) ↦
            rw (good, apply_service)
              (rw there (elim (Bool-cases r.applied) [
                | inl taken ↦ rw taken (ap (forward m) h)
                | inr left ↦ rw left h
              ]))
      ]
    ]

forgotten :
    (m : Mutation) (x : Service × Result (ApplyResult × Option Event))
    → x.0.outbox ≡ some (given m (forget_event x).1)
    → (forget_event x).0.outbox ≡ some (given m (forget_event x).1)
unfolding forget_event
forgotten m (s, err e) h = h
forgotten m (s, ok (r, event)) h = h

apply_remote-outbox :
    (pl : Payloads) (m : Mutation) (rd : Readings) (s : Service)
    → s.outbox ≡ some []
    → (apply_remote pl m rd s).0.outbox ≡ some (given m (apply_remote pl m rd s).1)
unfolding apply_remote given
apply_remote-outbox pl m rd s h =
    elim (Result-cases (observe s.clock m.instance.version rd.clock).1) [
      | inl (e, bad) ↦ rw (bad, apply_remote) h
      | inr (v, seen) ↦
          rw (seen, apply_remote)
            (forgotten m _ (
              service-outbox pl m rd
                (record s { clock = (observe s.clock m.instance.version rd.clock).0 }) h))
    ]

settle :
    (m : Mutation) (t : TraceMeta) (r : Result ApplyResult) (e : Engine)
    → let e' =
        enqueue_all
          (given m r)
          (record e { incoming_meta = insert m.event_id t e.incoming_meta }) in
      let kept =
        if is_applied r
        then e'
        else record e' { incoming_meta = delete m.event_id e'.incoming_meta } in
      (lookup m.event_id kept.incoming_meta ≡ none)
      × (kept.pending ≡ (
          if is_applied r
          then insert m.event_id (queued e.config m t (lookup m.event_id e.pending)) e.pending
          else e.pending))
unfolding given enqueue_all enqueue
settle m t r e =
    let self = (text_eq_iff m.event_id m.event_id).1 refl in
    let noted : lookup m.event_id (insert m.event_id t e.incoming_meta) ≡ some t =
      ground (arith, self, lookup-insert m.event_id m.event_id t e.incoming_meta) in
    let gone = lookup-delete m.event_id m.event_id (insert m.event_id t e.incoming_meta) in
    elim (Bool-cases (is_applied r)) [
      | inl taken ↦ rw taken (rw noted (ground (arith, self, gone), refl))
      | inr left ↦ rw left (ground (arith, self, gone), refl)
    ]

-- The sender's trace one hop further.
abbrev pub one_further : DeltaPayload → TraceMeta
one_further p = record {
  hop = wrap_int64 (p.hop +ℤ pos 1);
  origin_node_id = p.trace_origin_node_id;
  origin_address = p.trace_origin_address;
  trace = p.trace;
}

-- What is to be passed on of a delta, beside what is queued already under its event ID: the trace of
-- the shorter way, for the full number of rounds.
abbrev pub passed_on : EngineConfig → DeltaPayload → Option Pending → Pending
passed_on c p none = record {
  mutation = p.mutation;
  meta = one_further p;
  rounds = c.pending_rounds;
}
passed_on c p (some current) = record {
  mutation = current.mutation;
  meta =
      if ltb_ℤ (pos 0) (one_further p).hop && ltb_ℤ (one_further p).hop current.meta.hop
      then one_further p
      else current.meta;
  rounds = c.pending_rounds;
}

queued_lem :
    (c : EngineConfig) (p : DeltaPayload) (current : Option Pending)
    → queued c p.mutation (meta_of p) current ≡ passed_on c p current
unfolding queued meta_of
queued_lem c p none = refl
queued_lem c p (some current) = refl

-- What `handleDelta` comes to. No trace is left behind for the event ID. If the service applies the
-- mutation then it is queued for the full number of rounds with the sender's trace, whose hop is one
-- more than the sender's, or with the trace that is queued already if that is of fewer or as many
-- hops; otherwise the queue is as it was. The registry is as after `ApplyRemote`.
pub handle_delta_lem :
    (pl : Payloads) (rd : Readings) (p : DeltaPayload) (sender message_id : Text) (n : Node)
    → (lookup p.mutation.event_id (handle_delta pl rd p sender message_id n).0.engine.incoming_meta
        ≡ none)
      × ((handle_delta pl rd p sender message_id n).0.engine.pending ≡ (
          if is_applied (apply_remote pl p.mutation rd (idle n.service)).1
          then insert p.mutation.event_id
              (passed_on n.engine.config p (lookup p.mutation.event_id n.engine.pending))
              n.engine.pending
          else n.engine.pending))
      × ((handle_delta pl rd p sender message_id n).0.service.registry
          ≡ (apply_remote pl p.mutation rd (idle n.service)).0.registry)
unfolding handle_delta
handle_delta_lem pl rd p sender message_id n =
    let m = p.mutation in
    let out = apply_remote-outbox pl m rd (idle n.service) refl in
    let settled = settle m (meta_of p) (apply_remote pl m rd (idle n.service)).1 n.engine in
    rw out (
      settled.0,
      rw (← queued_lem n.engine.config p (lookup m.event_id n.engine.pending)) settled.1,
      refl,
    )
