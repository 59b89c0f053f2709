-- ===== src/Demo/Seed.antt =====
-- Seeding a node that has the demo's instances: backend/internal/demo/manager.go.
use mini_eureka.Prelude.{ℕ, zero, suc, ◌+◌, true, Option, none, some, ◌≡◌, refl}
use mini_eureka.Prelude.Int.{pos_part}
use mini_eureka.Prelude.Text.{text_eq}
use mini_eureka.Model.Error.{Error, ok}
use mini_eureka.Registry.Store.{shard_for}
use mini_eureka.Registry.Query.{current_event_id}
use mini_eureka.Model.Instance.{Instance}
use mini_eureka.Service.{Service, Payloads, Readings}
use mini_eureka.Service.Leases.{held, register, repeated, RegisterRequest, FreshIds}
use mini_eureka.Demo.{
  Calls, Manager, demo_service, demo_instance, demo_request, seed_from, seed, manage,
}

-- The service holds what `seed` registers from an index on, each under the demo's registration.
abbrev pub HoldsDemo : (ℕ → ℕ → ℕ) → Service → ℕ → ℕ → Type 0
HoldsDemo intn s index zero = Unit {0}
HoldsDemo intn s index (suc left) =
    ((i : Instance) × (held s (demo_service index) (demo_instance index) ≡ some i)
      × (text_eq i.registration_id (demo_request intn index).registration_id ≡ true))
    × HoldsDemo intn s (index + 1) left

-- A retry of a registration that the service holds is answered with the record that is held and its
-- event, and changes nothing.
pub register_again :
    (pl : Payloads) (req : RegisterRequest) (rd : Readings) (ids : FreshIds) (s : Service)
    (i : Instance)
    → held s req.service req.instance_id ≡ some i
    → text_eq i.registration_id req.registration_id ≡ true
    → register pl req rd ids s ≡ (
      s,
      ok (
          repeated i
            (current_event_id (shard_for s.registry req.service) req.service req.instance_id)),
    )
unfolding register
register_again pl req rd ids s i there same = rw (there, register) (rw same refl)

abbrev Unseeded : Manager → Manager × Option Error → Type 0
Unseeded m x = (x.0.service ≡ m.service) × (x.1 ≡ none)

seed_from_again :
    (c : Calls) (index left : ℕ) (m : Manager)
    → HoldsDemo c.intn m.service index left
    → Unseeded m (seed_from c index left m)
unfolding seed_from
seed_from_again c index zero m h = (refl, refl)
seed_from_again c index (suc left) m h =
    let req = demo_request c.intn index in
    let (i, there, same) = h.0 in
    let r =
      repeated i
        (current_event_id (shard_for m.service.registry req.service) req.service req.instance_id) in
    let again =
      register_again c.payloads req (c.readings index) (c.ids index) m.service i
        (unfold demo_request in there) same in
    let rest =
      seed_from_again c (index + 1) left (record m { leases = manage index r m.leases }) h.1 in
    rw (again, seed_from) (rw again rest)

-- A node that holds all instances of the demo under the demo's registrations is left as it is by
-- another seed, which ends without an error: its registry, clock and event log do not change.
pub seed_again :
    (c : Calls) (m : Manager)
    → HoldsDemo c.intn m.service 0 (pos_part m.opts.instance_count)
    → ((seed c m).0.service ≡ m.service) × ((seed c m).1 ≡ none)
unfolding seed
seed_again c m h = seed_from_again c 0 (pos_part m.opts.instance_count) m h
