-- ===== src/Service/Requests.antt =====
-- What may happen to a node's registry: the requests of clients and peers, and the wheel's tasks.
use mini_eureka.Prelude.{Bool}
use mini_eureka.Prelude.Text.{Text}
use mini_eureka.Model.Mutation.{Mutation}
use mini_eureka.Registry.Entry.{Fence}
use mini_eureka.Registry.Store.{apply_fence_store}
use mini_eureka.Registry.Entries.{apply_fence_store-InStore}
use mini_eureka.Clock.Monotone.{HasRoom}
use mini_eureka.Wheel.{Task}
use mini_eureka.Service.{Payloads, Service, Readings}
use mini_eureka.Service.Leases.{
  RegisterRequest, FreshIds, register, heartbeat, deregister, apply_remote,
}
use mini_eureka.Service.Tasks.{handle_task}
use mini_eureka.Service.Lead.{
  AtMost, Leads, ClockHasRoom, register-Leads, heartbeat-Leads, deregister-Leads,
  apply_remote-Leads, handle_task-Leads,
}

-- One request, with what the clocks read and the identifiers that are drawn for it.
pub data Request : Type 0 where
  registration : RegisterRequest → Request
  renewal : Text → Text → Text → Text → Request
  removal : Text → Text → Text → Text → Bool → Request
  remote : Mutation → Request
  remote_fence : Fence → Request
  timed : Task → Request

-- The state after a request. A fence goes to the registry past the service (`SyncPeer`).
unfoldable pub serve : Payloads → Readings → FreshIds → Request → Service → Service
serve pl rd ids (registration req) s = (register pl req rd ids s).0
serve pl rd ids (renewal service id lease op) s = (heartbeat pl service id lease op rd ids s).0
serve pl rd ids (removal service id lease op demo) s =
    (deregister pl service id lease op demo rd ids s).0
serve pl rd ids (remote m) s = (apply_remote pl m rd s).0
serve pl rd ids (remote_fence f) s = record s { registry = (apply_fence_store f s.registry).0 }
serve pl rd ids (timed task) s = handle_task pl task rd ids.event s

-- A remote mutation's version leaves room in the range of the counters.
abbrev pub RequestHasRoom : Request → Type 0
RequestHasRoom (remote m) = HasRoom m.instance.version.physical_millis m.instance.version.logical
RequestHasRoom _ = Unit {0}

-- Every request leaves the clock ahead of all records, where it was so before and the counters of
-- the clock and of a remote mutation have room: no record has a version greater than the clock's
-- last, also none that came from a peer with a faster wall clock.
pub serve-Leads :
    (pl : Payloads) (rd : Readings) (ids : FreshIds) (q : Request) (s : Service)
    → Leads s
    → ClockHasRoom s
    → RequestHasRoom q
    → Leads (serve pl rd ids q s)
unfolding serve
serve-Leads pl rd ids (registration req) s h room fits = register-Leads pl req rd ids s h room
serve-Leads pl rd ids (renewal service id lease op) s h room fits =
    heartbeat-Leads pl service id lease op rd ids s h room
serve-Leads pl rd ids (removal service id lease op demo) s h room fits =
    deregister-Leads pl service id lease op demo rd ids s h room
serve-Leads pl rd ids (remote m) s h room fits = apply_remote-Leads pl m rd s h room fits
serve-Leads pl rd ids (remote_fence f) s h room fits =
    apply_fence_store-InStore (AtMost s.clock.last) f s.registry h
serve-Leads pl rd ids (timed task) s h room fits = handle_task-Leads pl task rd ids.event s h room
