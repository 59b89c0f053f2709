-- ===== src/Service/Lead.antt =====
-- The clock of a node leads its registry: no record has a version greater than the clock's last.
use mini_eureka.Prelude.{
  ℕ, Bool, not, ◌&&◌, ◌||◌, Option, ◌≡◌, ◌≢◌, refl, arith, Ordering, Bool-cases, Option-cases, inl,
  inr,
}
use mini_eureka.Prelude.Order.{not-gt_trans}
use mini_eureka.Prelude.Text.{Text, text_eq}
use mini_eureka.Model.Error.{Result-cases, Result, ok, err}
use mini_eureka.Model.Version.{Version, compare_version, compare_version-IsLinear}
use mini_eureka.Model.Revision.{parse_version}
use mini_eureka.Model.Instance.{Instance, clone, terminal}
use mini_eureka.Model.Mutation.{Mutation}
use mini_eureka.Registry.Lifecycle.{delayed_entry}
use mini_eureka.Registry.Shard.{prepare_incoming, ApplyResult}
use mini_eureka.Registry.Store.{apply_store}
use mini_eureka.Registry.Entries.{
  InStore, apply_store-InStore, mark_delayed_store-InStore, gc_store-InStore, weaken-InStore,
}
use mini_eureka.Clock.{Hlc, now, observe}
use mini_eureka.Clock.Monotone.{HasRoom, now-monotone, observe-monotone, observe_refused}
use mini_eureka.Events.{Event}
use mini_eureka.Wheel.{Task, TaskKind}
use mini_eureka.Service.{Payloads, Service, Readings, apply_service, answer_of}
use mini_eureka.Service.Leases.{
  RegisterRequest, FreshIds, held, register, register_new, registration_of, heartbeat, renewal_of,
  deregister, removal_of, apply_remote, forget_event,
}
use mini_eureka.Service.Tasks.{
  handle_task, handle_lease_task, collect_tombstones, delay, expire, expiry_of, has_expired,
  is_collection,
}

abbrev pub AtMost : Version → Instance → Type 0
AtMost v i = compare_version i.version v ≢ Ordering.gt

abbrev pub Leads : Service → Type 0
Leads s = InStore (AtMost s.clock.last) s.registry

abbrev pub ClockHasRoom : Service → Type 0
ClockHasRoom s = HasRoom s.clock.last.physical_millis s.clock.last.logical

pub apply_service-parts :
    (pl : Payloads) (m : Mutation) (rd : Readings) (s : Service)
    → ((apply_service pl m rd s).0.registry ≡ (apply_store pl.platform m rd.registry s.registry).0)
      × ((apply_service pl m rd s).0.clock ≡ s.clock)
unfolding apply_service
apply_service-parts pl m rd s = (ground arith, ground arith)

pub answer_of-state : (x : Service × Result (ApplyResult × Option Event)) → (answer_of x).0 ≡ x.0
unfolding answer_of
answer_of-state (s, err e) = refl
answer_of-state (s, ok r) = refl

-- A mutation is applied at a clock that has moved on from the leading one.
lead_on :
    (pl : Payloads) (m : Mutation) (rd : Readings) (s : Service) (c : Hlc)
    → Leads s
    → compare_version s.clock.last c.last ≢ Ordering.gt
    → compare_version m.instance.version c.last ≢ Ordering.gt
    → Leads (apply_service pl m rd (record s { clock = c })).0
lead_on pl m rd s c h later below =
    let (r, k) = apply_service-parts pl m rd (record s { clock = c }) in
    rw (r, k)
      (apply_store-InStore (AtMost c.last) pl.platform m rd.registry s.registry
        (unfold prepare_incoming clone in below)
        (weaken-InStore (AtMost s.clock.last) (AtMost c.last)
          (λ i p. not-gt_trans compare_version-IsLinear i.version s.clock.last c.last p later)
          s.registry h))

not_gt_self : (v : Version) → compare_version v v ≢ Ordering.gt
not_gt_self v e = ground (arith, compare_version-IsLinear.self v)

-- A local operation reads the clock and applies a mutation with what it read.
lead_now :
    (pl : Payloads) (m : Mutation) (rd : Readings) (s : Service)
    → Leads s
    → ClockHasRoom s
    → m.instance.version ≡ (now s.clock rd.clock).1
    → Leads (apply_service pl m rd (record s { clock = (now s.clock rd.clock).0 })).0
lead_now pl m rd s h room e =
    let (later, kept) = now-monotone s.clock rd.clock room in
    let last : Version = (now s.clock rd.clock).0.last in
    lead_on pl m rd s (now s.clock rd.clock).0 h (rw kept (ground arith))
      (rw (kept, e) (not_gt_self (now s.clock rd.clock).1))

register_new-Leads :
    (pl : Payloads) (req : RegisterRequest) (rd : Readings) (ids : FreshIds) (n : ℕ) (s : Service)
    → Leads s
    → ClockHasRoom s
    → Leads (register_new pl req rd ids n s).0
unfolding register_new
register_new-Leads pl req rd ids n s h room =
    rw answer_of-state (lead_now pl _ rd s h room (unfold registration_of in refl))

-- `Register` keeps the clock ahead of every record.
pub register-Leads :
    (pl : Payloads) (req : RegisterRequest) (rd : Readings) (ids : FreshIds) (s : Service)
    → Leads s
    → ClockHasRoom s
    → Leads (register pl req rd ids s).0
unfolding register
register-Leads pl req rd ids s h room = elim (Option-cases (held s req.service req.instance_id)) [
  | inl absent ↦ rw (absent, register) (register_new-Leads pl req rd ids _ s h room)
  | inr (i, present) ↦ elim (Bool-cases (text_eq i.registration_id req.registration_id)) [
    | inl again ↦ rw (present, register, again) h
    | inr other ↦ rw (present, register, other) (register_new-Leads pl req rd ids _ s h room)
  ]
]

pub heartbeat-Leads :
    (pl : Payloads) (service id lease op : Text) (rd : Readings) (ids : FreshIds) (s : Service)
    → Leads s
    → ClockHasRoom s
    → Leads (heartbeat pl service id lease op rd ids s).0
unfolding heartbeat
heartbeat-Leads pl service id lease op rd ids s h room = elim (Option-cases (held s service id)) [
  | inl absent ↦ rw (absent, heartbeat) h
  | inr (i, present) ↦ elim (Bool-cases (not (text_eq i.lease_id lease) || terminal i)) [
    | inl stale ↦ rw (present, heartbeat, stale) h
    | inr live ↦
        rw (present, heartbeat, live)
          (rw answer_of-state (lead_now pl _ rd s h room (unfold renewal_of in refl)))
  ]
]

pub deregister-Leads :
    (pl : Payloads) (service id lease op : Text) (demo : Bool) (rd : Readings) (ids : FreshIds)
    → (s : Service) → Leads s
    → ClockHasRoom s
    → Leads (deregister pl service id lease op demo rd ids s).0
unfolding deregister
deregister-Leads pl service id lease op demo rd ids s h room =
    elim (Option-cases (held s service id)) [
      | inl absent ↦ rw (absent, deregister) h
      | inr (i, present) ↦ elim (Bool-cases (not (text_eq i.lease_id lease))) [
        | inl stale ↦ rw (present, deregister, stale) h
        | inr live ↦ elim (Bool-cases (demo && not i.demo)) [
          | inl refused ↦ rw (present, deregister, live, refused) h
          | inr allowed ↦
              rw (present, deregister, live, allowed)
                (rw answer_of-state (lead_now pl _ rd s h room (unfold removal_of in refl)))
        ]
      ]
    ]

forget_event-state : (x : Service × Result (ApplyResult × Option Event)) → (forget_event x).0 ≡ x.0
unfolding forget_event
forget_event-state (s, err e) = refl
forget_event-state (s, ok r) = refl

pub apply_remote-Leads :
    (pl : Payloads) (m : Mutation) (rd : Readings) (s : Service)
    → Leads s
    → ClockHasRoom s
    → HasRoom m.instance.version.physical_millis m.instance.version.logical
    → Leads (apply_remote pl m rd s).0
unfolding apply_remote
apply_remote-Leads pl m rd s h room room' =
    elim (Result-cases (observe s.clock m.instance.version rd.clock).1) [
      | inl (e, refused) ↦
          rw (refused, apply_remote, observe_refused s.clock m.instance.version rd.clock e refused)
            h
      | inr (v, seen) ↦
          let (own, peer, kept) =
            observe-monotone s.clock m.instance.version rd.clock v room room' seen in
          rw (seen, apply_remote)
            (rw forget_event-state (
              lead_on pl m rd s (observe s.clock m.instance.version rd.clock).0 h
                (rw kept (ground arith)) (rw kept (ground arith))))
    ]

expire-Leads :
    (pl : Payloads) (task : Task) (v : Version) (rd : Readings) (id : Text) (s : Service)
    → Leads s
    → ClockHasRoom s
    → Leads (expire pl task v rd id s)
unfolding expire
expire-Leads pl task v rd id s h room = elim (Option-cases (held s task.service task.instance_id)) [
  | inl absent ↦ rw (absent, expire) h
  | inr (i, present) ↦ elim (Bool-cases (has_expired task v rd.service i)) [
    | inl over ↦ rw (present, expire, over) (lead_now pl _ rd s h room (unfold expiry_of in refl))
    | inr other ↦ rw (present, expire, other) h
  ]
]

delay-Leads :
    (pl : Payloads) (task : Task) (v : Version) (rd : Readings) (s : Service)
    → Leads s
    → Leads (delay pl task v rd s)
unfolding delay
delay-Leads pl task v rd s h =
    mark_delayed_store-InStore (AtMost s.clock.last) _ task.lease_id v rd.service s.registry
      (λ e p. unfold delayed_entry in p) h

-- Each task of the timing wheel keeps the clock ahead of every record.
pub handle_task-Leads :
    (pl : Payloads) (task : Task) (rd : Readings) (id : Text) (s : Service)
    → Leads s
    → ClockHasRoom s
    → Leads (handle_task pl task rd id s)
unfolding handle_task handle_lease_task collect_tombstones
handle_task-Leads pl task rd id s h room = elim (Bool-cases (is_collection task.kind)) [
  | inl yes' ↦
      rw yes' (gc_store-InStore (AtMost s.clock.last) rd.service s.opts.tombstone_ttl s.registry h)
  | inr other ↦ elim (Result-cases (parse_version task.expected_version)) [
    | inl (e, bad) ↦ rw (other, bad, handle_task) h
    | inr (v, good) ↦ rw (other, good, handle_task) (lease_task-Leads task.kind v)
  ]
]
  where
    lease_task-Leads : (k : TaskKind) (v : Version) → Leads (handle_lease_task pl task v rd id k s)
    lease_task-Leads TaskKind.collect v = h
    lease_task-Leads TaskKind.mark_delayed v = delay-Leads pl task v rd s h
    lease_task-Leads TaskKind.expire_lease v = expire-Leads pl task v rd id s h room
