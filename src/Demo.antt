-- ===== src/Demo.antt =====
-- backend/internal/demo/manager.go: the instances that a demo node registers and keeps alive. What
-- math/rand draws is a parameter, and so are the readings of the clocks and the identifiers of each
-- call of the service, by the number of the call. A lease is a value of the map of leases.
pub mod Seed
pub mod Offline
use mini_eureka.Prelude.{
  ℕ, zero, suc, ◌+◌, ◌-◌, ◌*◌, ◌/◌, ◌%◌, ◌==◌, if◌then◌else◌, Bool, true, false, not, ◌||◌, Option,
  none, some, List, [], ◌∷◌, ◌++◌, length, get_or, replicate,
}
use mini_eureka.Prelude.Int.{ℤ, pos, leb_ℤ, ltb_ℤ, pos_part}
use mini_eureka.Prelude.Text.{Text}
use mini_eureka.Prelude.Time.{Duration, second}
use mini_eureka.Prelude.Decimal.{format_uint}
use mini_eureka.Prelude.Map.{Map, insert, delete, text_key}
use mini_eureka.Model.Error.{Error, Result, ok, err, wrapped, text, is_sentinel}
use mini_eureka.Model.Instance.{Instance, Protocol, Key, instance_key}
use mini_eureka.Registry.Query.{key_string}
use mini_eureka.Service.{Payloads, Service, Readings, OperationResult}
use mini_eureka.Service.Leases.{
  RegisterRequest, FreshIds, register, heartbeat, deregister, not_found, stale_lease, not_demo,
}

-- `Options`, without the logger and the seed of math/rand.
pub record DemoOptions : Type 0 where
  pub enabled : Bool
  pub seeds : Bool
  pub instance_count : ℤ
  pub heartbeat_every : Duration

-- `lease`
pub record Lease : Type 0 where
  pub service : Text
  pub instance_id : Text
  pub lease_id : Text

-- `Manager`, with the service that it uses.
pub record Manager : Type 0 where
  pub service : Service
  pub opts : DemoOptions
  pub leases : Map Text Lease

-- `New`
unfoldable pub new_manager : Service → DemoOptions → Manager
new_manager s o = record {
  service = s;
  opts = record o {
    instance_count = if ltb_ℤ o.instance_count (pos 0) then pos 0 else o.instance_count;
    heartbeat_every =
        if leb_ℤ o.heartbeat_every (pos 0) then pos (10 * second) else o.heartbeat_every;
  };
  leases = [];
}

-- The names of the services that are seeded.
unfoldable pub demo_services : List Text
demo_services =
    text "orders"
    ∷ text "catalog"
    ∷ text "payments"
    ∷ text "inventory"
    ∷ text "users"
    ∷ text "shipping"
    ∷ text "gateway"
    ∷ text "notifications"
    ∷ text "search"
    ∷ text "billing"
    ∷ []

-- `services[index%len(services)]`
unfoldable pub demo_service : ℕ → Text
unfolding demo_services
demo_service index = get_or demo_services (index % length demo_services) []

-- `%04d`
unfoldable pub pad_four : ℕ → Text
pad_four n = replicate (4 - length (format_uint n)) b'0' ++ format_uint n

-- `fmt.Sprintf("%s-%04d", serviceName, index+1)`
unfoldable pub demo_instance : ℕ → Text
unfolding demo_service pad_four
demo_instance index = demo_service index ++ (text "-" ++ pad_four (index + 1))

-- The request that `seed` makes for an index.
unfoldable pub demo_request : (ℕ → ℕ → ℕ) → ℕ → RegisterRequest
demo_request intn index = record {
  service = demo_service index;
  instance_id = demo_instance index;
  registration_id = text "demo-registration-" ++ demo_instance index;
  host =
      text "10.42."
      ++ (format_uint (index / 240 % 200 + 1) ++ (text "." ++ format_uint (index % 240 + 10)));
  port = pos (8000 + index % 1000);
  protocol = Protocol.http;
  metadata = some (
      (text "zone", text "zone-" ++ format_uint (index % 3 + 1))
      ∷ (
        text "version",
        text "1."
            ++ (format_uint (intn (2 * index) 5)
                ++ (text "." ++ format_uint (intn (2 * index + 1) 10))),
      )
      ∷ []);
  demo = true;
}

-- `result.Record.Key().String()` and `result.Record.LeaseID`; none is the zero record.
abbrev pub record_key : Option Instance → Text
record_key none = key_string (record { service = []; instance_id = [] })
record_key (some i) = key_string (instance_key i)

abbrev pub record_lease : Option Instance → Text
record_lease none = []
record_lease (some i) = i.lease_id

-- Every twentieth instance is left to expire.
unfoldable pub manage : ℕ → OperationResult → Map Text Lease → Map Text Lease
manage index r leases =
    if index % 20 == 0
    then leases
    else insert (record_key r.instance)
        (record {
          service = demo_service index;
          instance_id = demo_instance index;
          lease_id = record_lease r.instance;
        })
        leases

-- What the calls of the service draw and read, by the number of the call.
pub record Calls : Type 0 where
  pub payloads : Payloads
  pub intn : ℕ → ℕ → ℕ
  pub readings : ℕ → Readings
  pub ids : ℕ → FreshIds
  pub operation_id : ℕ → Text

-- The loop of `seed` from an index on, and its error.
unfoldable pub seed_from : Calls → ℕ → ℕ → Manager → Manager × Option Error
unfolding demo_request manage
seed_from c index zero m = (m, none)
seed_from c index (suc left) m =
    let (s, result) =
      register c.payloads (demo_request c.intn index) (c.readings index) (c.ids index) m.service in
    elim result [
      | err e ↦ (record m { service = s }, some (wrapped (text "seed demo instance") e))
      | ok r ↦
          seed_from c (index + 1) left (record m { service = s; leases = manage index r m.leases })
    ]

-- `seed`
unfoldable pub seed : Calls → Manager → Manager × Option Error
unfolding seed_from
seed c m = seed_from c 0 (pos_part m.opts.instance_count) m

abbrev pub lease_key : Lease → Key
lease_key l = record { service = l.service; instance_id = l.instance_id }

-- The lease is gone for the service.
unfoldable pub is_lost : Result OperationResult → Bool
is_lost (ok r) = false
is_lost (err e) = is_sentinel stale_lease e || is_sentinel not_found e

-- The loop of `heartbeat` over a copy of the leases, from the number of a call on.
unfoldable pub beat_all : Calls → ℕ → Map Text Lease → Manager → Manager
unfolding is_lost
beat_all c n [] m = m
beat_all c n ((k, l) ∷ rest) m =
    let (s, result) =
      heartbeat c.payloads l.service l.instance_id l.lease_id (c.operation_id n) (c.readings n)
        (c.ids n) m.service in
    beat_all c (n + 1) rest (record m {
      service = s;
      leases = if is_lost result then delete (key_string (lease_key l)) m.leases else m.leases;
    })

-- `heartbeat`
unfoldable pub beat_round : Calls → Manager → Manager
unfolding beat_all
beat_round c m = beat_all c 0 m.leases m

-- `Offline`
unfoldable pub take_offline :
    Payloads
    → Text
    → Text
    → Text
    → Text
    → Readings
    → FreshIds
    → Manager
    → Manager × Result OperationResult
take_offline pl service instance_id lease_id operation_id rd ids m =
    let key = key_string (record { service = service; instance_id = instance_id }) in
    let (s, result) =
      deregister pl service instance_id lease_id operation_id true rd ids m.service in
    if not m.opts.enabled
    then (m, err not_demo)
    else (record m { service = s; leases = delete key m.leases }, result)

-- The ticks of `Run` after the seed, each with what its calls draw and read.
unfoldable pub beat_rounds : List Calls → Manager → Manager
unfolding beat_round
beat_rounds [] m = m
beat_rounds (c ∷ cs) m = beat_rounds cs (beat_round c m)

-- `Run` until it is stopped, and the error with which it ends before.
unfoldable pub run_manager : Calls → List Calls → Manager → Manager × Option Error
unfolding seed beat_rounds
run_manager c ticks m =
    let (seeded, failure) = if m.opts.seeds then seed c m else (m, none) in
    if not m.opts.enabled
    then (m, none)
    else elim failure [ some e ↦ (seeded, some e) | none ↦ (beat_rounds ticks seeded, none) ]

-- `Managed`
unfoldable pub managed : Manager → ℕ
managed m = length m.leases
