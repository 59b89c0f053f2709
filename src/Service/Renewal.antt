-- ===== src/Service/Renewal.antt =====
-- Heartbeats, removals and expiries on a node whose clock leads its registry.
use mini_eureka.Prelude.{
  true, false, not, ◌&&◌, none, some, ◌≡◌, ◌≢◌, refl, arith, Ordering, ap, ◌∙◌,
}
use mini_eureka.Prelude.Text.{Text, text_eq, text_eq_iff}
use mini_eureka.Prelude.Time.{Time}
use mini_eureka.Model.Error.{Result, ok}
use mini_eureka.Model.Version.{Version, compare_version, compare_version-IsLinear}
use mini_eureka.Model.Instance.{Instance, clone, terminal, instance_key}
use mini_eureka.Model.Mutation.{Mutation, validate_mutation, kind_terminal}
use mini_eureka.Registry.Entry.{Entry, operation_event}
use mini_eureka.Registry.Shard.{prepare_incoming, find}
use mini_eureka.Registry.Store.{IsStore, shard_for}
use mini_eureka.Registry.Query.{get}
use mini_eureka.Clock.{now}
use mini_eureka.Wheel.{Task}
use mini_eureka.Service.{Payloads, Service, Readings, OperationResult, apply_service, answer_of}
use mini_eureka.Service.Leases.{FreshIds, held, heartbeat, renewal_of}
use mini_eureka.Service.Tasks.{expire, has_expired}
use mini_eureka.Service.Lead.{Leads, ClockHasRoom, answer_of-state}
use mini_eureka.Service.Outcome.{Applied, wins-Applied, local-wins, newer_than_held}

-- An entry stands in the registry at the key that its record names.
abbrev pub StandsIn : Service → Entry → Type 0
StandsIn s e = find (shard_for s.registry e.instance.service) (instance_key e.instance) ≡ some e

pub held_of_find :
    (s : Service) (e : Entry) (service id : Text)
    → find (shard_for s.registry service) (record { service = service; instance_id = id }) ≡ some e
    → held s service id ≡ some (clone e.instance)
unfolding get
held_of_find s e service id h = rw (h, get)

-- The node and its clock once it has drawn a version, and that version.
abbrev pub moved : Service → Readings → Service
moved s rd = record s { clock = (now s.clock rd.clock).0 }

abbrev pub drawn : Service → Readings → Version
drawn s rd = (now s.clock rd.clock).1

-- What a mutation of a held lease needs to be applied.
pub record Local (m : Mutation) (rd : Readings) (s : Service) (e : Entry) : Type 0 where
  pub store : IsStore s.registry
  pub leads : Leads s
  pub room : ClockHasRoom s
  pub stands : StandsIn s e
  pub valid : validate_mutation m ≡ none
  pub unseen : operation_event e m.operation_id ≡ none

pub made-Applied :
    (pl : Payloads) (m : Mutation) (rd : Readings) (s : Service) (e : Entry)
    → Local m rd s e
    → instance_key m.instance ≡ instance_key e.instance
    → m.instance.service ≡ e.instance.service
    → m.instance.lease_epoch ≡ e.instance.lease_epoch
    → m.instance.lease_id ≡ e.instance.lease_id
    → m.instance.version ≡ drawn s rd
    → (terminal e.instance && not (kind_terminal m.kind)) ≡ false
    → Applied pl m rd (moved s rd) (apply_service pl m rd (moved s rd))
made-Applied pl m rd s e l key service epoch lease version live =
    wins-Applied pl m rd (moved s rd) e l.store l.valid (rw (key, service) l.stands) l.unseen (
      local-wins pl.platform m e epoch lease
        (rw version (
          newer_than_held s rd (instance_key e.instance) e l.leads l.room
            (unfold instance_key in l.stands)))
        live)

pub text_eq_self : (t : Text) → text_eq t t ≡ true
text_eq_self t = (text_eq_iff t t).1 refl

pub terminal-clone : (i : Instance) → terminal (clone i) ≡ terminal i
unfolding terminal clone
terminal-clone i = refl

other_version :
    (task : Task) (v : Version) (wall : Time) (i : Instance)
    → compare_version v i.version ≡ Ordering.lt
    → has_expired task v wall i ≡ false
unfolding has_expired
other_version task v wall i h = ground (arith, compare_version-IsLinear.flip v i.version)

below_newer :
    (v old new : Version)
    → compare_version v old ≢ Ordering.gt
    → compare_version old new ≡ Ordering.lt
    → compare_version v new ≡ Ordering.lt
below_newer v old new h k =
    ground (arith, compare_version-IsLinear.same v old, compare_version-IsLinear.trans v old new)

-- What a winning mutation leaves under the lease's key.
pub Applied-held :
    (pl : Payloads) (m : Mutation) (rd : Readings) (s : Service)
    → Applied pl m rd s (apply_service pl m rd s)
    → held (apply_service pl m rd s).0 m.instance.service m.instance.instance_id
      ≡ some (clone (prepare_incoming m rd.registry))
unfolding instance_key
Applied-held pl m rd s a =
    held_of_find (apply_service pl m rd s).0 a.entry m.instance.service m.instance.instance_id
      a.stands
    ∙ ap (λ i. some (clone i)) a.holds

module _ (pl : Payloads) (rd : Readings) (ids : FreshIds) (s : Service) (e : Entry) where
  abbrev pub renewal : Text → Mutation
  renewal op = renewal_of s.opts (clone e.instance) op rd.service (drawn s rd) ids

  abbrev pub beat : Text → Service × Result OperationResult
  beat op = heartbeat pl e.instance.service e.instance.instance_id e.instance.lease_id op rd ids s

  beat-applies :
      (op : Text)
      → StandsIn s e
      → terminal e.instance ≡ false
      → beat op ≡ answer_of (apply_service pl (renewal op) rd (moved s rd))
  unfolding heartbeat clone
  beat-applies op stands live =
      rw
        (
          held_of_find s e e.instance.service e.instance.instance_id
              (unfold instance_key in stands),
          heartbeat,
        )
        (rw (text_eq_self e.instance.lease_id, terminal-clone e.instance, live) refl)

  -- A heartbeat for a lease that the node holds and that is not explicitly terminal is applied, at
  -- whatever time it comes: the answer is the renewed record under the new event, and that record is
  -- then what the node holds of the key.
  -- The node is one whose registry has a mask that fits its shards, whose clock leads all records
  -- and has room in its counters; the entry stands at its key, the mutation that is made of it is
  -- valid, and the entry has not seen its operation.
  pub heartbeat_renews :
      (op : Text)
      → Local (renewal op) rd s e
      → terminal e.instance ≡ false
      → ((beat op).1
          ≡ ok (record {
            instance = some (clone (prepare_incoming (renewal op) rd.registry));
            event_id = ids.event;
            duplicate = false;
          }))
        × (held (beat op).0 e.instance.service e.instance.instance_id
            ≡ some (clone (prepare_incoming (renewal op) rd.registry)))
  heartbeat_renews op l live =
      let m = renewal op in
      let a =
        made-Applied pl m rd s e l (unfold renewal_of instance_key clone in refl)
          (unfold renewal_of clone in refl) (unfold renewal_of clone in refl)
          (unfold renewal_of clone in refl) (unfold renewal_of in refl) (rw live (refl)) in
      rw (beat-applies op l.stands live) (
        a.answered ∙ (unfold renewal_of in refl),
        rw answer_of-state (unfold renewal_of clone in Applied-held pl m rd (moved s rd) a),
      )

  -- After a heartbeat for a lease that the node holds and that is not explicitly terminal, an expiry
  -- for the key that expects the version of the record before it, or an older one, does nothing,
  -- whenever it comes and whatever lease it names: the lease that was renewed is not evicted.
  -- The node is one whose registry has a mask that fits its shards, whose clock leads all records
  -- and has room in its counters; the entry stands at its key, the mutation that is made of it is
  -- valid, and the entry has not seen its operation.
  pub expire-beat :
      (op : Text) (task : Task) (v : Version) (later : Readings) (event_id : Text)
      → Local (renewal op) rd s e
      → terminal e.instance ≡ false
      → task.service ≡ e.instance.service
      → task.instance_id ≡ e.instance.instance_id
      → compare_version v e.instance.version ≢ Ordering.gt
      → expire pl task v later event_id (beat op).0 ≡ (beat op).0
  unfolding expire
  expire-beat op task v later event_id l live service id old =
      let (_, held_after) = heartbeat_renews op l live in
      let newer =
        newer_than_held s rd (instance_key e.instance) e l.leads l.room
          (unfold instance_key in l.stands) in
      let stale =
        other_version task v later.service (clone (prepare_incoming (renewal op) rd.registry)) (
          unfold prepare_incoming renewal_of clone in
          below_newer v e.instance.version (drawn s rd) old newer) in
      rw (service, id) (rw (held_after, expire) (rw stale refl))
