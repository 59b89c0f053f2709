-- ===== src/Service/Outcome.antt =====
-- What the local operations on a lease come to: they win over the record that the node holds.
use mini_eureka.Prelude.{
  ℕ, true, false, not, ◌&&◌, Option, none, some, [], ◌≡◌, refl, arith, Ordering, ap, ◌∙◌,
}
use mini_eureka.Prelude.Text.{Text, text_eq, text_eq_iff}
use mini_eureka.Prelude.Time.{Time}
use mini_eureka.Model.Error.{Result, ok, validate_opaque_id, validate_identifier}
use mini_eureka.Model.Version.{compare_version, compare_version-IsLinear}
use mini_eureka.Model.Instance.{Instance, Key, clone, terminal, instance_key}
use mini_eureka.Model.Mutation.{Mutation, validate_mutation, kind_terminal, max_event_id_length}
use mini_eureka.Registry.Entry.{Entry, operation_event}
use mini_eureka.Registry.Compare.{Platform, compare_incoming}
use mini_eureka.Registry.Shard.{
  Shard, prepare_incoming, ApplyResult, applied_result, apply_shard, apply_current, find, key_eq,
  key_eq_iff, replacement,
}
use mini_eureka.Registry.Store.{
  Store, IsStore, apply_store, shard_for, apply_store-cell, store_cell,
}
use mini_eureka.Registry.Run.{apply}
use mini_eureka.Registry.Cell.{cell, apply_cell}
use mini_eureka.Registry.Stored.{remember-instance}
use mini_eureka.Registry.Entries.{find-Holds, shard_for-InShard}
use mini_eureka.Clock.{now}
use mini_eureka.Clock.Monotone.{now-monotone}
use mini_eureka.Events.{Event, publish, stamp}
use mini_eureka.Service.{
  Payloads, Service, Readings, apply_service, answer_of, announce, mutation_event, applied_event_id,
}
use mini_eureka.Service.Lead.{Leads, AtMost, ClockHasRoom, apply_service-parts}

-- A mutation of the lease that an entry holds, with a greater version, wins over the entry, if it
-- is terminal where the entry is.
pub local-wins :
    (pl : Platform) (m : Mutation) (e : Entry)
    → m.instance.lease_epoch ≡ e.instance.lease_epoch
    → m.instance.lease_id ≡ e.instance.lease_id
    → compare_version e.instance.version m.instance.version ≡ Ordering.lt
    → (terminal e.instance && not (kind_terminal m.kind)) ≡ false
    → compare_incoming pl m e ≡ Ordering.gt
unfolding compare_incoming
local-wins pl m e epoch lease later live = ground (
  arith,
  text_eq_iff m.instance.lease_id e.instance.lease_id,
  compare_version-IsLinear.self e.instance.lease_epoch,
  compare_version-IsLinear.flip e.instance.version m.instance.version,
)

-- The version that the clock hands out is greater than that of a record.
pub newer_than_held :
    (s : Service) (rd : Readings) (k : Key) (e : Entry)
    → Leads s
    → ClockHasRoom s
    → find (shard_for s.registry k.service) k ≡ some e
    → compare_version e.instance.version (now s.clock rd.clock).1 ≡ Ordering.lt
newer_than_held s rd k e h room found =
    let (later, kept) = now-monotone s.clock rd.clock room in
    let below =
      find-Holds (AtMost s.clock.last) (shard_for s.registry k.service) k e
        (shard_for-InShard (AtMost s.clock.last) s.registry k.service h) found in
    ground (
      arith,
      below,
      later,
      compare_version-IsLinear.same e.instance.version s.clock.last,
      compare_version-IsLinear.trans e.instance.version s.clock.last (now s.clock rd.clock).1,
    )

applied_shard :
    (pl : Platform) (m : Mutation) (wall : Time) (s : Shard) (e : Entry)
    → find s (instance_key m.instance) ≡ some e
    → operation_event e m.operation_id ≡ none
    → compare_incoming pl m e ≡ Ordering.gt
    → (apply_shard pl m wall s).1
      ≡ applied_result (prepare_incoming m wall) (some (clone e.instance)) m.event_id
unfolding apply_shard apply_current
applied_shard pl m wall s e found unseen wins =
    rw (found, apply_shard) (rw (unseen, apply_current, wins) refl)

applied_cell :
    (pl : Platform) (m : Mutation) (wall : Time) (s : Shard) (e : Entry)
    → find s (instance_key m.instance) ≡ some e
    → operation_event e m.operation_id ≡ none
    → compare_incoming pl m e ≡ Ordering.gt
    → (apply_cell pl m wall (cell s (instance_key m.instance))).0 ≡ some (replacement m e wall)
unfolding apply_cell cell
applied_cell pl m wall s e found unseen wins =
    rw (found, apply_cell) (rw (unseen, apply_cell, wins) refl)

identifier_named :
    (value : Text) (max : ℕ)
    → validate_identifier "event_id" value max ≡ none
    → text_eq value [] ≡ false
unfolding validate_identifier
identifier_named value max h = ground arith

event_named : (m : Mutation) → validate_mutation m ≡ none → text_eq m.event_id [] ≡ false
unfolding validate_mutation validate_opaque_id
event_named m v = ground (arith, identifier_named m.event_id max_event_id_length)

-- What a mutation that wins over the record at its key comes to in the service.
pub record Applied (pl : Payloads) (m : Mutation) (rd : Readings) (s : Service)
    (x : Service × Result (ApplyResult × Option Event)) : Type 0 where
  pub answered :
      (answer_of x).1
      ≡ ok (record {
        instance = some (clone (prepare_incoming m rd.registry));
        event_id = m.event_id;
        duplicate = false;
      })
  pub entry : Entry
  pub stands :
      find (shard_for x.0.registry m.instance.service) (instance_key m.instance) ≡ some entry
  pub holds : entry.instance ≡ prepare_incoming m rd.registry

pub apply_store-answer :
    (pl : Platform) (m : Mutation) (wall : Time) (r : Store)
    → validate_mutation m ≡ none
    → (apply_store pl m wall r).1 ≡ ok (apply_shard pl m wall (shard_for r m.instance.service)).1
unfolding apply_store apply
apply_store-answer pl m wall r v = ground arith

announced_id :
    (pl : Payloads) (m : Mutation) (i : Instance) (wall : Time) (s : Service)
    → validate_mutation m ≡ none
    → (announce pl m i wall s).1.event_id ≡ m.event_id
unfolding announce mutation_event publish stamp
announced_id pl m i wall s v = ground (arith, event_named m v)

answer_applied :
    (pl : Payloads) (m : Mutation) (rd : Readings) (s : Service) (i : Instance)
    (p : Option Instance)
    → validate_mutation m ≡ none
    → (apply_store pl.platform m rd.registry s.registry).1 ≡ ok (applied_result i p m.event_id)
    → (answer_of (apply_service pl m rd s)).1
      ≡ ok (record { instance = some (clone i); event_id = m.event_id; duplicate = false })
unfolding apply_service answer_of applied_event_id
answer_applied pl m rd s i p v h =
    rw (h, answer_of)
      (ap (λ t. ok (record { instance = some (clone i); event_id = t; duplicate = false }))
        (announced_id pl m (clone i) rd.events
          (record s { registry = (apply_store pl.platform m rd.registry s.registry).0 }) v))

replacement-instance :
    (m : Mutation) (e : Entry) (wall : Time)
    → (replacement m e wall).instance ≡ prepare_incoming m wall
unfolding replacement
replacement-instance m e wall = remember-instance _ m.operation_id m.event_id

-- The mutation wins over the entry at its key, so that it is applied, answered and announced.
pub wins-Applied :
    (pl : Payloads) (m : Mutation) (rd : Readings) (s : Service) (e : Entry)
    → IsStore s.registry
    → validate_mutation m ≡ none
    → find (shard_for s.registry m.instance.service) (instance_key m.instance) ≡ some e
    → operation_event e m.operation_id ≡ none
    → compare_incoming pl.platform m e ≡ Ordering.gt
    → Applied pl m rd s (apply_service pl m rd s)
unfolding store_cell cell instance_key
wins-Applied pl m rd s e g v found unseen wins =
    let r = s.registry in
    let sh : Shard = shard_for r m.instance.service in
    let i = prepare_incoming m rd.registry in
    let here : key_eq (instance_key m.instance) (instance_key m.instance) ≡ true =
      (key_eq_iff (instance_key m.instance) (instance_key m.instance)).1 refl in
    let (cells, _) = apply_store-cell pl.platform m rd.registry r (instance_key m.instance) g v in
    record {
      answered = answer_applied pl m rd s i (some (clone e.instance)) v (
          apply_store-answer pl.platform m rd.registry r v
          ∙ ap ok (applied_shard pl.platform m rd.registry sh e found unseen wins));
      entry = replacement m e rd.registry;
      stands = rw (apply_service-parts pl m rd s).0 (
          ap (λ c. c.0) (rw here at cells)
          ∙ applied_cell pl.platform m rd.registry sh e found unseen wins);
      holds = replacement-instance m e rd.registry;
    }
