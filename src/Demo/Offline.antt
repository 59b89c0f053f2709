-- ===== src/Demo/Offline.antt =====
-- An instance that the demo takes offline: backend/internal/demo/manager.go.
use mini_eureka.Prelude.{ℕ, ◌+◌, true, none, List, [], ◌∷◌, ◌≡◌, refl, arith, if◌then◌else◌}
use mini_eureka.Prelude.Text.{Text, text_eq_iff}
use mini_eureka.Prelude.Map.{Map, lookup, delete, text_key, lookup-delete}
use mini_eureka.Registry.Query.{key_string}
use mini_eureka.Service.{Payloads, Readings}
use mini_eureka.Service.Leases.{FreshIds, deregister, heartbeat}
use mini_eureka.Demo.{
  Calls, Manager, Lease, beat_all, beat_round, beat_rounds, take_offline, is_lost, lease_key,
}

beat_all-unmanaged :
    (c : Calls) (n : ℕ) (leases : Map Text Lease) (m : Manager) (k : Text)
    → lookup k m.leases ≡ none
    → lookup k (beat_all c n leases m).leases ≡ none
unfolding beat_all
beat_all-unmanaged c n [] m k h = h
beat_all-unmanaged c n ((j, l) ∷ rest) m k h =
    let (s, result) =
      heartbeat c.payloads l.service l.instance_id l.lease_id (c.operation_id n) (c.readings n)
        (c.ids n) m.service in
    let gone = lookup-delete (key_string (lease_key l)) k m.leases in
    let kept : lookup k
          (if is_lost result then delete (key_string (lease_key l)) m.leases else m.leases)
        ≡ none =
      ground (arith, gone, h) in
    beat_all-unmanaged c (n + 1) rest
      (record m {
        service = s;
        leases = if is_lost result then delete (key_string (lease_key l)) m.leases else m.leases;
      })
      k kept

beat_rounds-unmanaged :
    (ticks : List Calls) (m : Manager) (k : Text)
    → lookup k m.leases ≡ none
    → lookup k (beat_rounds ticks m).leases ≡ none
unfolding beat_rounds beat_round
beat_rounds-unmanaged [] m k h = h
beat_rounds-unmanaged (c ∷ cs) m k h =
    beat_rounds-unmanaged cs (beat_round c m) k (beat_all-unmanaged c 0 m.leases m k h)

-- Where the demo is enabled, what `Offline` does to the service is a deregistration that is marked as
-- the demo's, with its answer; and the manager renews the lease no more, whatever the answer is and
-- however many ticks follow: no key of that text is among its leases.
pub take_offline-stays :
    (pl : Payloads) (service id lease op : Text) (rd : Readings) (ids : FreshIds) (m : Manager)
    (ticks : List Calls)
    → m.opts.enabled ≡ true
    → ((take_offline pl service id lease op rd ids m).0.service
        ≡ (deregister pl service id lease op true rd ids m.service).0)
      × ((take_offline pl service id lease op rd ids m).1
          ≡ (deregister pl service id lease op true rd ids m.service).1)
      × (lookup
            (key_string (record { service = service; instance_id = id }))
            (beat_rounds ticks (take_offline pl service id lease op rd ids m).0).leases
          ≡ none)
unfolding take_offline
take_offline-stays pl service id lease op rd ids m ticks on =
    let key = key_string (record { service = service; instance_id = id }) in
    let gone : lookup key (delete key m.leases) ≡ none =
      ground (arith, lookup-delete key key m.leases, (text_eq_iff key key).1 refl) in
    rw on (refl, refl, beat_rounds-unmanaged ticks _ key gone)
