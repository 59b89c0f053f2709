-- ===== src/Api/Discovery.antt =====
-- What a client that asks for a service is told of the leases that the node holds.
use mini_eureka.Prelude.{
  if◌then◌else◌, ℕ, ◌+◌, ◌≤◌, ◌-◌, true, false, some, List, [], ◌∷◌, length, ◌≡◌, arith, refl, ap,
  sym, subst, Bool-cases, Option-cases, inl, inr, min, leb,
}
use mathlib.Core.List.{Memᴰ}
use mini_eureka.Prelude.Members.{Memᴰ-Perm, Memᴰ-keep}
use mini_eureka.Prelude.Slices.{take-all}
use mini_eureka.Prelude.Text.{Text, text_eq, compare_text}
use mini_eureka.Prelude.Order.{compare_list}
use mini_eureka.Prelude.Time.{add_time, milliseconds, zero_time}
use mini_eureka.Prelude.Map.{lookup, text_key}
use mini_eureka.Model.Instance.{InstanceStatus, Instance, clone, discoverable, status_eq}
use mini_eureka.Registry.Entry.{Entry}
use mini_eureka.Registry.Shard.{
  heartbeat_deadline, to_duration, Shard, Instances, instances_of, find,
}
use mini_eureka.Registry.Store.{shard_for}
use mini_eureka.Registry.Query.{get, discover, has_status}
use mini_eureka.Registry.Listing.{records, discover_lem, live}
use mini_eureka.Prelude.Int.{pos, ltb_ℤ, ℤ}
use mini_eureka.Registry.Shard.{prepare_incoming}
use mini_eureka.Model.Instance.{terminal}
use mini_eureka.Service.{Service, Payloads, Readings}
use mini_eureka.Service.Leases.{held, FreshIds, renewal_of}
use mini_eureka.Service.Renewal.{Local, drawn, renewal, beat, heartbeat_renews}
use mini_eureka.Api.Pagination.{Base64, decode_cursor, paginate}
use mini_eureka.Api.Replies.{replied, query_limit, BodyReader, decode_json, passed}
use mini_eureka.Api.Services.{
  OperationBody, heartbeat_handler, ids_missing, service_reply, Strings, Query, Listing, listing,
  discover_handler, read_range, allowed_statuses, with_status,
}

Memᴰ-records :
    (id : Text) (m : Instances) (e : Entry)
    → lookup id m ≡ some e
    → Memᴰ (clone e.instance) (records m)
unfolding lookup
Memᴰ-records id [] e h = absurd (ground (arith, h))
Memᴰ-records id ((j, f) ∷ m) e h = elim (Bool-cases (text_eq j id)) [
  | inl here ↦
      let same : f ≡ e = ground (arith, h, here) in
      Memᴰ.head (ap (λ x. clone x.instance) (sym same))
  | inr there ↦ Memᴰ.tail (Memᴰ-records id m e (ground (arith, h, there)))
]

-- `Discover` lists what `Get` returns, if it is discoverable.
pub get-discover :
    (s : Shard) (service id : Text) (i : Instance)
    → get s service id ≡ some i
    → discoverable i ≡ true
    → Memᴰ i (discover s service)
unfolding get find
get-discover s service id i h live =
    elim (Option-cases (find s (record { service = service; instance_id = id }))) [
      | inl missing ↦ absurd (ground (arith, h, missing))
      | inr (e, there) ↦
          let same : clone e.instance ≡ i = ground (arith, h, there) in
          let all = records (instances_of service s.services) in
          let found = Memᴰ-records id (instances_of service s.services) e there in
          Memᴰ-Perm (discover_lem s service).0
            (Memᴰ-keep discoverable all (subst (λ x. Memᴰ x all) same found) live)
    ]

-- Whole listings of at most a page.
paginate-whole {ℓ} :
    {A : Type ℓ} (b : Base64) (xs : List A) (limit : ℕ)
    → length xs ≤ limit
    → (paginate b xs 0 limit).0 ≡ xs
unfolding paginate
paginate-whole b [] limit h = refl
paginate-whole b (x ∷ xs) limit h =
    let bound : leb (length (x ∷ xs)) 0 ≡ false = ground arith in
    let end : min (0 + limit) (length (x ∷ xs)) ≡ length (x ∷ xs) = omega (arith, h) in
    rw bound (rw end (take-all (length (x ∷ xs) - 0) (x ∷ xs) (omega arith)))

status-live : (i : Instance) → discoverable i ≡ true → has_status i.status live ≡ true
unfolding discoverable has_status
status-live i h = ground (arith, h)

abbrev pub no_query : Query
no_query = record { cursor = []; limit = []; filter = [] }

-- A node whose discovery of a service fits one page answers a request for it, without a cursor, a
-- limit or statuses, with a page that holds each active or delayed record that it has of it.
pub held-listed :
    (st : Strings) (b : Base64) (service id : Text) (i : Instance) (s : Service)
    → held s service id ≡ some i
    → discoverable i ≡ true
    → length (with_status live (discover (shard_for s.registry service) service)) ≤ 200
    → (l : Listing Instance) × (discover_handler st b service no_query s ≡ replied 200 l)
      × Memᴰ i l.items
unfolding discover_handler read_range allowed_statuses decode_cursor query_limit text_eq
    compare_text compare_list
held-listed st b service id i s h active few =
    let all = discover (shard_for s.registry service) service in
    let shown = with_status live all in
    let there =
      Memᴰ-keep (λ x. has_status x.status live) all
        (get-discover (shard_for s.registry service) service id i h active)
        (status-live i active) in
    (
      listing b shown (0, 200),
      refl,
      subst (λ l. Memᴰ i l) (sym (paginate-whole b shown 200 few)) there,
    )

renewal-active :
    (pl : Payloads) (rd : Readings) (ids : FreshIds) (s : Service) (e : Entry) (op : Text)
    → discoverable (clone (prepare_incoming (renewal pl rd ids s e op) rd.registry)) ≡ true
unfolding renewal_of prepare_incoming clone discoverable status_eq
renewal-active pl rd ids s e op = refl

-- A record is that of an entry after a heartbeat at the service's reading of the clock: active, with
-- the version that the clock drew, the time of the heartbeat and the same registration, and with the
-- whole lease before it, from the registry's reading of the clock on.
pub record IsRenewed (rd : Readings) (s : Service) (e : Entry) (i : Instance) : Type 0 where
  pub status : i.status ≡ InstanceStatus.active
  pub version : i.version ≡ drawn s rd
  pub last_heartbeat_at : i.last_heartbeat_at ≡ rd.service
  pub registration_id : i.registration_id ≡ e.instance.registration_id
  pub lease_id : i.lease_id ≡ e.instance.lease_id
  pub lease_epoch : i.lease_epoch ≡ e.instance.lease_epoch
  pub remaining : i.last_remaining_ttl_ms ≡ milliseconds s.opts.lease_ttl
  pub lease_deadline : i.lease_deadline ≡ (
      if ltb_ℤ (pos 0) (milliseconds s.opts.lease_ttl)
      then add_time rd.registry (to_duration (milliseconds s.opts.lease_ttl))
      else zero_time)

renewal-IsRenewed :
    (pl : Payloads) (rd : Readings) (ids : FreshIds) (s : Service) (e : Entry) (op : Text)
    → IsRenewed rd s e (clone (prepare_incoming (renewal pl rd ids s e op) rd.registry))
unfolding renewal_of prepare_incoming clone
renewal-IsRenewed pl rd ids s e op = record {
  status = refl;
  version = refl;
  last_heartbeat_at = refl;
  registration_id = refl;
  lease_id = refl;
  lease_epoch = refl;
  remaining = refl;
  lease_deadline = heartbeat_deadline (renewal pl rd ids s e op) rd.registry refl;
}

-- A heartbeat over HTTP for a lease that the node holds and that is not explicitly terminal is
-- answered with 200 and the renewed record, which is active, has the time of this heartbeat and the
-- whole lease before it, also for a lease that had expired, and the next request
-- for the service, without a cursor, a limit or statuses, then lists that record, if the service's
-- discoverable records fit one page.
-- The body is the lease's ID and an operation ID that the record has not seen; the node is one whose
-- registry has a mask that fits its shards, whose clock leads all records and has room in its
-- counters; the entry stands at its key, and the mutation that is made of it is valid.
pub heartbeat_handler-listed :
    (pl : Payloads) (st : Strings) (b : Base64) (reader : BodyReader OperationBody) (max : ℤ)
    (body op : Text) (rd : Readings) (ids : FreshIds) (s : Service) (e : Entry)
    → Local (renewal pl rd ids s e op) rd s e
    → terminal e.instance ≡ false
    → decode_json reader max body
      ≡ passed (record { lease_id = e.instance.lease_id; operation_id = op })
    → ids_missing e.instance.lease_id op ≡ false
    → length (
        with_status live (
          discover
            (shard_for (beat pl rd ids s e op).0.registry e.instance.service)
            e.instance.service))
      ≤ 200
    → (i : Instance) × (l : Listing Instance) × IsRenewed rd s e i
      × ((heartbeat_handler pl reader max e.instance.service e.instance.instance_id body rd ids s).1
          ≡ replied 200 (record { instance = some i; event_id = ids.event; duplicate = false }))
      × (discover_handler st b e.instance.service no_query
            (heartbeat_handler pl reader max e.instance.service e.instance.instance_id body rd ids
              s).0
          ≡ replied 200 l)
      × Memᴰ i l.items
unfolding heartbeat_handler service_reply
heartbeat_handler-listed pl st b reader max body op rd ids s e l live_lease read given few =
    let i = clone (prepare_incoming (renewal pl rd ids s e op) rd.registry) in
    let (answer, after) = heartbeat_renews pl rd ids s e op l live_lease in
    let (page, shown, there) =
      held-listed st b e.instance.service e.instance.instance_id i (beat pl rd ids s e op).0 after
        (renewal-active pl rd ids s e op) few in
    (
      i,
      page,
      renewal-IsRenewed pl rd ids s e op,
      rw (read, heartbeat_handler) (rw given (ap (service_reply 200) answer)),
      rw (read, heartbeat_handler) (rw given shown),
      there,
    )
