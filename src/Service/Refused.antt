-- ===== src/Service/Refused.antt =====
-- A registration behind a fence whose lease is newer than the node's clock.
use mini_eureka.Prelude.{false, none, some, [], ◌≡◌, refl, arith, Ordering, ap, ◌∙◌}
use mini_eureka.Prelude.Text.{Text}
use mini_eureka.Prelude.Time.{Time}
use mini_eureka.Prelude.Map.{lookup}
use mini_eureka.Model.Error.{ok}
use mini_eureka.Model.Version.{compare_version}
use mini_eureka.Model.Instance.{instance_key}
use mini_eureka.Model.Mutation.{Mutation, validate_mutation}
use mini_eureka.Registry.Entry.{Fence}
use mini_eureka.Registry.Compare.{Platform, incoming_beats_fence}
use mini_eureka.Registry.Shard.{
  Shard, find, fenced_off, stale_result, apply_shard, apply_new, key_key,
}
use mini_eureka.Registry.Store.{shard_for, apply_store}
use mini_eureka.Registry.Query.{get, get_fence}
use mini_eureka.Service.{Payloads, Service, Readings, apply_service, answer_of, applied_event_id}
use mini_eureka.Service.Leases.{
  RegisterRequest, FreshIds, held, fence_at, register, register_new, registration_of,
  next_generation,
}
use mini_eureka.Service.Outcome.{apply_store-answer}
use mini_eureka.Service.Renewal.{moved, drawn}

not_found_of_get :
    (s : Shard) (service id : Text)
    → get s service id ≡ none
    → find s (record { service = service; instance_id = id }) ≡ none
unfolding get
not_found_of_get s service id h = ground arith

beaten :
    (m : Mutation) (f : Fence)
    → compare_version m.instance.lease_epoch f.lease_epoch ≡ Ordering.lt
    → incoming_beats_fence m f ≡ false
unfolding incoming_beats_fence
beaten m f older = ground arith

fenced_shard :
    (pl : Platform) (m : Mutation) (wall : Time) (s : Shard) (f : Fence)
    → find s (instance_key m.instance) ≡ none
    → lookup (instance_key m.instance) s.fences ≡ some f
    → compare_version m.instance.lease_epoch f.lease_epoch ≡ Ordering.lt
    → (apply_shard pl m wall s).1 ≡ stale_result none
unfolding apply_shard apply_new fenced_off
fenced_shard pl m wall s f absent fence older =
    rw (absent, apply_shard) (rw (fence, apply_new) (rw (beaten m f older) refl))

stale_answer :
    (pl : Payloads) (m : Mutation) (rd : Readings) (s : Service)
    → (apply_store pl.platform m rd.registry s.registry).1 ≡ ok (stale_result none)
    → (answer_of (apply_service pl m rd s)).1
      ≡ ok (record { instance = none; event_id = []; duplicate = false })
unfolding apply_service answer_of applied_event_id
stale_answer pl m rd s h = rw (h, answer_of) refl

-- A valid registration at a free key whose fence has a lease epoch that is ahead of the node's
-- clock is not applied, and `Register` reports no error: it answers with the zero record and no
-- event. A fence that a peer with a faster wall clock sends is such a fence, since the node does
-- not observe its versions.
pub register_fenced :
    (pl : Payloads) (req : RegisterRequest) (rd : Readings) (ids : FreshIds) (s : Service)
    (f : Fence)
    → held s req.service req.instance_id ≡ none
    → fence_at s req.service req.instance_id ≡ some f
    → validate_mutation
        (registration_of s.opts req rd.service (drawn s rd) ids (next_generation none (some f)))
      ≡ none
    → compare_version (drawn s rd) f.lease_epoch ≡ Ordering.lt
    → (register pl req rd ids s).1
      ≡ ok (record { instance = none; event_id = []; duplicate = false })
unfolding register register_new
register_fenced pl req rd ids s f absent fence valid older =
    let m : Mutation =
      registration_of s.opts req rd.service (drawn s rd) ids (next_generation none (some f)) in
    let answer : (apply_store pl.platform m rd.registry s.registry).1 ≡ ok (stale_result none) =
      apply_store-answer pl.platform m rd.registry s.registry valid
      ∙ ap ok (
          fenced_shard pl.platform m rd.registry (shard_for s.registry req.service) f
            (unfold registration_of instance_key in
              not_found_of_get (shard_for s.registry req.service) req.service req.instance_id
                absent)
            (unfold registration_of instance_key get_fence in fence)
            (unfold registration_of in older)) in
    rw (absent, register) (rw fence (stale_answer pl m rd (moved s rd) answer))
