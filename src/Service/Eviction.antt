-- ===== src/Service/Eviction.antt =====
-- The ends of a lease that the node holds: `Deregister` of backend/internal/service/operations.go,
-- and the expiry of `handleTask` in service.go.
use mini_eureka.Prelude.{Bool, true, false, not, ◌&&◌, some, ◌≡◌, refl, arith, ◌∙◌}
use mini_eureka.Prelude.Text.{Text}
use mini_eureka.Prelude.Time.{Time}
use mini_eureka.Model.Error.{Result, ok}
use mini_eureka.Model.Version.{Version}
use mini_eureka.Model.Instance.{Instance, clone, terminal, discoverable, instance_key, status_eq}
use mini_eureka.Model.Mutation.{Mutation, kind_terminal}
use mini_eureka.Registry.Entry.{Entry}
use mini_eureka.Registry.Shard.{prepare_incoming}
use mini_eureka.Wheel.{Task}
use mini_eureka.Service.{Payloads, Service, Readings, OperationResult, apply_service, answer_of}
use mini_eureka.Service.Leases.{FreshIds, held, deregister, removal_of}
use mini_eureka.Service.Tasks.{expire, expiry_of, has_expired}
use mini_eureka.Service.Lead.{answer_of-state}
use mini_eureka.Service.Renewal.{
  Local, StandsIn, moved, drawn, made-Applied, text_eq_self, terminal-clone, held_of_find,
  Applied-held,
}

expired_live :
    (task : Task) (v : Version) (wall : Time) (i : Instance)
    → has_expired task v wall i ≡ true
    → terminal i ≡ false
unfolding has_expired discoverable terminal status_eq
expired_live task v wall i h = ground arith

module _ (pl : Payloads) (rd : Readings) (ids : FreshIds) (s : Service) (e : Entry) where
  abbrev pub farewell : Text → Bool → Mutation
  farewell op demo = removal_of s.opts (clone e.instance) demo op rd.service (drawn s rd) ids

  abbrev pub leave : Text → Bool → Service × Result OperationResult
  leave op demo =
      deregister pl e.instance.service e.instance.instance_id e.instance.lease_id op demo rd ids s

  leave-applies :
      (op : Text) (demo : Bool)
      → StandsIn s e
      → (demo && not e.instance.demo) ≡ false
      → leave op demo ≡ answer_of (apply_service pl (farewell op demo) rd (moved s rd))
  unfolding deregister clone
  leave-applies op demo stands allowed =
      rw
        (
          held_of_find s e e.instance.service e.instance.instance_id
              (unfold instance_key in stands),
          deregister,
        )
        (rw (text_eq_self e.instance.lease_id, allowed) refl)

  -- A deregistration of a lease that the node holds is applied, also of one that is evicted already,
  -- and for a demo request if the instance is a demo instance: the answer is the tombstone under the
  -- new event, and the tombstone is then what the node holds of the key.
  -- The node is one whose registry has a mask that fits its shards, whose clock leads all records
  -- and has room in its counters; the entry stands at its key, the mutation that is made of it is
  -- valid, and the entry has not seen its operation.
  pub deregister_removes :
      (op : Text) (demo : Bool)
      → Local (farewell op demo) rd s e
      → (demo && not e.instance.demo) ≡ false
      → ((leave op demo).1
          ≡ ok (record {
            instance = some (clone (prepare_incoming (farewell op demo) rd.registry));
            event_id = ids.event;
            duplicate = false;
          }))
        × (held (leave op demo).0 e.instance.service e.instance.instance_id
            ≡ some (clone (prepare_incoming (farewell op demo) rd.registry)))
  deregister_removes op demo l allowed =
      let m = farewell op demo in
      let a =
        made-Applied pl m rd s e l (unfold removal_of instance_key clone in refl)
          (unfold removal_of clone in refl) (unfold removal_of clone in refl)
          (unfold removal_of clone in refl) (unfold removal_of in refl)
          (unfold removal_of kind_terminal in ground arith) in
      rw (leave-applies op demo l.stands allowed) (
        a.answered ∙ (unfold removal_of in refl),
        rw answer_of-state (unfold removal_of clone in Applied-held pl m rd (moved s rd) a),
      )

  abbrev pub eviction : Text → Mutation
  eviction event_id = expiry_of s.opts (clone e.instance) rd.service (drawn s rd) event_id

  -- An expiry that finds its lease live, with the version it expects and run out, evicts it: the
  -- node then holds the tombstone of the lease, with a version that the clock has drawn.
  -- The node is one whose registry has a mask that fits its shards, whose clock leads all records
  -- and has room in its counters; the entry stands at its key, the mutation that is made of it is
  -- valid, and the entry has not seen its operation.
  pub expire_evicts :
      (task : Task) (v : Version) (event_id : Text)
      → Local (eviction event_id) rd s e
      → task.service ≡ e.instance.service
      → task.instance_id ≡ e.instance.instance_id
      → has_expired task v rd.service (clone e.instance) ≡ true
      → held (expire pl task v rd event_id s) e.instance.service e.instance.instance_id
        ≡ some (clone (prepare_incoming (eviction event_id) rd.registry))
  unfolding expire
  expire_evicts task v event_id l service id over =
      let m = eviction event_id in
      let a =
        made-Applied pl m rd s e l (unfold expiry_of instance_key clone in refl)
          (unfold expiry_of clone in refl) (unfold expiry_of clone in refl)
          (unfold expiry_of clone in refl) (unfold expiry_of in refl)
          (ground (
            arith,
            expired_live task v rd.service (clone e.instance) over,
            terminal-clone e.instance,
          )) in
      rw (service, id)
        (rw
          (
            held_of_find s e e.instance.service e.instance.instance_id
                (unfold instance_key in l.stands),
            expire,
          )
          (rw over (unfold expiry_of clone in Applied-held pl m rd (moved s rd) a)))
