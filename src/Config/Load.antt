-- ===== src/Config/Load.antt =====
-- `Load` of backend/internal/config/config.go: the settings of a node from its environment. The
-- parsers of Go's libraries are a parameter, and so is the identifier of the boot.
use mini_eureka.Prelude.{
  ℕ, ◌*◌, if◌then◌else◌, Bool, false, Option, none, some, List, [], ◌∷◌, ◌++◌, ◌⊎◌, inl, inr,
}
use Prim.Native.String.{String}
use mini_eureka.Prelude.Int.{ℤ, pos}
use mini_eureka.Prelude.Text.{Text, text_eq}
use mini_eureka.Prelude.Time.{Duration, second}
use mini_eureka.Model.Error.{text}
use mini_eureka.Config.{Config, Readers, Complaint, validate}
use mini_eureka.Config.Csv.{split_csv}

-- `os.Getenv`, `strconv.ParseInt` and `ParseBool`, `time.ParseDuration` and `strings.ToLower`.
pub record Environment : Type 0 where
  pub getenv : Text → Text
  pub parse_int64 : Text → Option ℤ
  pub parse_bool : Text → Option Bool
  pub parse_duration : Text → Option Duration
  pub to_lower : Text → Text
  pub readers : Readers
  pub boot_id : Text

-- `env`
unfoldable pub env : Environment → String → Text → Text
env e key fallback =
    let value = e.readers.trim_space (e.getenv (text key)) in
    if text_eq value [] then fallback else value

-- `intEnv`, `int64Env`, `boolEnv` and `durationEnv`, by their parser and the value beside an error:
-- the value, and the variable that cannot be read.
unfoldable pub parsed_env :
    {A : Type 0} → Environment → (Text → Option A) → A → String → A → A × List Text
parsed_env e parse zero_value key fallback =
    let raw = e.readers.trim_space (e.getenv (text key)) in
    if text_eq raw []
    then (fallback, [])
    else elim (parse raw) [ none ↦ (zero_value, text key ∷ []) | some value ↦ (value, []) ]

unfoldable pub int_env : Environment → String → ℤ → ℤ × List Text
unfolding parsed_env
int_env e key fallback = parsed_env e e.readers.atoi (pos 0) key fallback

unfoldable pub int64_env : Environment → String → ℤ → ℤ × List Text
unfolding parsed_env
int64_env e key fallback = parsed_env e e.parse_int64 (pos 0) key fallback

unfoldable pub bool_env : Environment → String → Bool → Bool × List Text
unfolding parsed_env
bool_env e key fallback = parsed_env e e.parse_bool false key fallback

-- The fallback of a duration is given in seconds.
unfoldable pub duration_env : Environment → String → ℕ → Duration × List Text
unfolding parsed_env
duration_env e key seconds = parsed_env e e.parse_duration (pos 0) key (pos (seconds * second))

-- `Config` as `Load` returns it: the fields that are validated, and the others.
pub record Settings : Type 0 where
  pub config : Config
  pub boot_id : Text
  pub http_addr : Text
  pub allowed_origins : List Text
  pub demo_mode : Bool
  pub demo_seed : Bool
  pub demo_random_seed : ℤ
  pub gossip_interval : Duration
  pub anti_entropy_interval : Duration
  pub suspicion_timeout : Duration
  pub dead_timeout : Duration
  pub max_clock_skew : Duration
  pub max_http_body_bytes : ℤ
  pub rate_limit_per_minute : ℤ

-- Why there are no settings: variables that cannot be read, or complaints.
pub data LoadFailure : Type 0 where
  unread : List Text → LoadFailure
  invalid : List Complaint → LoadFailure

all_unread : List (List Text) → List Text
all_unread [] = []
all_unread (keys ∷ rest) = keys ++ all_unread rest

-- The fields that are read first, and the variables that cannot be read, in their order.
unfoldable pub first_settings : Environment → Settings × List Text
unfolding env int_env duration_env split_csv all_unread
first_settings e =
    let shards = int_env e "REGISTRY_SHARDS" (pos 64) in
    let events = int_env e "EVENT_CAPACITY" (pos 2048) in
    let tick = duration_env e "TTL_TICK" 1 in
    let delayed = duration_env e "LEASE_DELAYED_AFTER" 15 in
    let lease = duration_env e "LEASE_TTL" 30 in
    let display = duration_env e "EVICTED_DISPLAY_TTL" 60 in
    let tombstone = duration_env e "TOMBSTONE_TTL" 300 in
    let interval = duration_env e "GOSSIP_INTERVAL" 1 in
    let anti_entropy = duration_env e "ANTI_ENTROPY_INTERVAL" 10 in
    let suspicion = duration_env e "SUSPICION_TIMEOUT" 5 in
    let dead = duration_env e "DEAD_TIMEOUT" 15 in
    let skew = duration_env e "MAX_CLOCK_SKEW" 30 in
    let fanout = int_env e "GOSSIP_FANOUT" (pos 3) in
    let udp = int_env e "GOSSIP_MAX_UDP_BYTES" (pos 1200) in
    let body = int_env e "HTTP_MAX_BODY_BYTES" (pos 65536) in
    let rate = int_env e "RATE_LIMIT_PER_MINUTE" (pos 10000) in
    let demo = int_env e "DEMO_INSTANCE_COUNT" (pos 120) in
    (
      record {
        config = record {
          node_id = env e "NODE_ID" (text "node-1");
          cluster_id = env e "CLUSTER_ID" (text "mini-eureka");
          http_advertise_addr = env e "HTTP_ADVERTISE_ADDR" (text "http://127.0.0.1:8080");
          gossip_addr = env e "GOSSIP_ADDR" (text ":7946");
          gossip_advertise_addr = env e "GOSSIP_ADVERTISE_ADDR" (text "127.0.0.1:7946");
          gossip_seeds = split_csv e.readers (e.getenv (text "GOSSIP_SEEDS"));
          gossip_secret = e.getenv (text "GOSSIP_SECRET");
          log_level = e.to_lower (env e "LOG_LEVEL" (text "info"));
          shard_count = shards.0;
          event_capacity = events.0;
          tick_interval = tick.0;
          delayed_after = delayed.0;
          lease_ttl = lease.0;
          evicted_display_ttl = display.0;
          tombstone_ttl = tombstone.0;
          fanout = fanout.0;
          max_udp_bytes = udp.0;
          demo_instance_count = demo.0;
        };
        boot_id = e.boot_id;
        http_addr = env e "HTTP_ADDR" (text ":8080");
        allowed_origins = split_csv e.readers (e.getenv (text "ALLOWED_ORIGINS"));
        demo_mode = false;
        demo_seed = false;
        demo_random_seed = pos 0;
        gossip_interval = interval.0;
        anti_entropy_interval = anti_entropy.0;
        suspicion_timeout = suspicion.0;
        dead_timeout = dead.0;
        max_clock_skew = skew.0;
        max_http_body_bytes = body.0;
        rate_limit_per_minute = rate.0;
      },
      all_unread (
          shards.1 ∷ events.1 ∷ tick.1 ∷ delayed.1 ∷ lease.1 ∷ display.1 ∷ tombstone.1 ∷ interval.1
          ∷ anti_entropy.1 ∷ suspicion.1 ∷ dead.1 ∷ skew.1 ∷ fanout.1 ∷ udp.1 ∷ body.1 ∷ rate.1
          ∷ demo.1 ∷ []),
    )

-- A list of variables that cannot be read ends the loading.
unfoldable pub unless_unread : List Text → Settings ⊎ LoadFailure → Settings ⊎ LoadFailure
unless_unread [] x = x
unless_unread (k ∷ ks) x = inr (unread (k ∷ ks))

unfoldable pub checked : Environment → Settings → Settings ⊎ LoadFailure
checked e s = elim (validate e.readers s.config) [ [] ↦ inl s | c ∷ cs ↦ inr (invalid (c ∷ cs)) ]

-- `Load`
unfoldable pub load : Environment → Settings ⊎ LoadFailure
unfolding first_settings unless_unread checked bool_env int64_env
load e =
    let (s, unread_first) = first_settings e in
    let mode = bool_env e "DEMO_MODE" false in
    let seed = bool_env e "DEMO_SEED" false in
    let random = int64_env e "DEMO_RANDOM_SEED" (pos 1) in
    unless_unread unread_first (
      unless_unread mode.1 (
        unless_unread seed.1 (
          unless_unread random.1 (
            checked e
              (record s { demo_mode = mode.0; demo_seed = seed.0; demo_random_seed = random.0 })))))
