-- ===== src/Config.antt =====
-- backend/internal/config/config.go: the configuration of a node and what `Validate` asks of it. The
-- readers of addresses and URLs are a parameter, and so are the runes that `strings.TrimSpace` cuts.
pub mod Accepted
pub mod Csv
pub mod Load
pub mod Loaded
use mini_eureka.Prelude.{
  ℕ, ◌+◌, ◌-◌, ltb, leb, ◌==◌, if◌then◌else◌, Bool, true, false, not, ◌&&◌, ◌||◌, Option, none,
  some, List, [], ◌∷◌, ◌++◌, length, bit_and,
}
use mini_eureka.Prelude.Int.{ℤ, pos, ltb_ℤ, leb_ℤ, pos_part}
use mini_eureka.Prelude.Text.{Text, text_eq}
use mini_eureka.Prelude.Time.{Duration}
use mini_eureka.Prelude.Utf8.{runes}
use mini_eureka.Model.Error.{text}

-- The fields of `Config` that are validated.
pub record Config : Type 0 where
  pub node_id : Text
  pub cluster_id : Text
  pub http_advertise_addr : Text
  pub gossip_addr : Text
  pub gossip_advertise_addr : Text
  pub gossip_seeds : List Text
  pub gossip_secret : Text
  pub log_level : Text
  pub shard_count : ℤ
  pub event_capacity : ℤ
  pub tick_interval : Duration
  pub delayed_after : Duration
  pub lease_ttl : Duration
  pub evicted_display_ttl : Duration
  pub tombstone_ttl : Duration
  pub fanout : ℤ
  pub max_udp_bytes : ℤ
  pub demo_instance_count : ℤ

-- `net.SplitHostPort`, `strconv.Atoi`, `strings.TrimSpace`, and the scheme and host of `url.Parse`.
pub record Readers : Type 0 where
  pub split_host_port : Text → Option (Text × Text)
  pub atoi : Text → Option ℤ
  pub trim_space : Text → Text
  pub parse_url : Text → Option (Text × Text)

-- The complaints of `Validate`, one for each of its tests.
pub data Complaint : Type 0 where
  node_id_unsafe cluster_id_unsafe secret_missing shards_invalid events_invalid durations_invalid
        tombstone_short fanout_invalid demo_invalid udp_invalid gossip_addr_invalid
        advertise_addr_invalid http_addr_invalid log_level_invalid :
      Complaint
  seed_invalid : Text → Complaint

abbrev within : ℕ → ℕ → ℕ → Bool
within a b r = leb a r && leb r b

-- The runes that `validName` lets pass.
unfoldable pub is_safe : ℕ → Bool
is_safe r =
    within b'a' b'z' r
    || within b'A' b'Z' r
    || within b'0' b'9' r
    || r == b'-'
    || r == b'_'
    || r == b'.'

unfoldable pub all_safe : List ℕ → Bool
unfolding is_safe
all_safe [] = true
all_safe (r ∷ rs) = is_safe r && all_safe rs

-- `validName`; a text that is not UTF-8 has a rune that is not safe.
unfoldable pub valid_name : Text → ℕ → Bool
unfolding all_safe
valid_name value max =
    if length value == 0 || ltb max (length value)
    then false
    else elim (runes value) [ none ↦ false | some rs ↦ all_safe rs ]

-- `validateHostPort`: whether it has no error.
unfoldable pub valid_host_port : Readers → Text → Bool → Bool
valid_host_port rd value require_host = elim (rd.split_host_port value) [
  | none ↦ false
  | some (host, port) ↦
      not (require_host && text_eq (rd.trim_space host) [])
      && (elim (rd.atoi port) [ none ↦ false | some n ↦ leb_ℤ (pos 1) n && leb_ℤ n (pos 65535) ])
]

-- `if !good { errs = append(errs, complaint) }`
unfoldable pub unless : Bool → Complaint → List Complaint
unless good c = if good then [] else c ∷ []

unfoldable pub valid_url : Readers → Text → Bool
valid_url rd value = elim (rd.parse_url value) [
  | none ↦ false
  | some (scheme, host) ↦ not (text_eq scheme []) && not (text_eq host [])
]

unfoldable pub seed_complaints : Readers → List Text → List Complaint
unfolding valid_host_port unless
seed_complaints rd [] = []
seed_complaints rd (s ∷ ss) =
    unless (valid_host_port rd s true) (Complaint.seed_invalid s) ++ seed_complaints rd ss

-- `ShardCount > 0` and no bit in common with its predecessor.
unfoldable pub is_power_of_two : ℤ → Bool
is_power_of_two n = not (leb_ℤ n (pos 0)) && bit_and (pos_part n) (pos_part n - 1) == 0

unfoldable pub valid_level : Text → Bool
valid_level l =
    text_eq l (text "debug")
    || text_eq l (text "info")
    || text_eq l (text "warn")
    || text_eq l (text "error")

-- The tests of `Validate` in their order.
unfoldable pub validate : Readers → Config → List Complaint
unfolding seed_complaints valid_name valid_url is_power_of_two valid_level
validate rd c =
    unless (valid_name c.node_id 128) Complaint.node_id_unsafe
    ++ unless (valid_name c.cluster_id 128) Complaint.cluster_id_unsafe
    ++ unless (not (text_eq c.gossip_secret [])) Complaint.secret_missing
    ++ unless (is_power_of_two c.shard_count) Complaint.shards_invalid
    ++ unless (leb_ℤ (pos 64) c.event_capacity) Complaint.events_invalid
    ++ unless
        (ltb_ℤ (pos 0) c.tick_interval
          && ltb_ℤ (pos 0) c.delayed_after
          && ltb_ℤ c.delayed_after c.lease_ttl)
        Complaint.durations_invalid
    ++ unless (leb_ℤ c.evicted_display_ttl c.tombstone_ttl) Complaint.tombstone_short
    ++ unless (leb_ℤ (pos 1) c.fanout && leb_ℤ c.fanout (pos 32)) Complaint.fanout_invalid
    ++ unless (leb_ℤ (pos 0) c.demo_instance_count && leb_ℤ c.demo_instance_count (pos 20000))
        Complaint.demo_invalid
    ++ unless (leb_ℤ (pos 512) c.max_udp_bytes && leb_ℤ c.max_udp_bytes (pos 1200))
        Complaint.udp_invalid
    ++ unless (valid_host_port rd c.gossip_addr false) Complaint.gossip_addr_invalid
    ++ unless (valid_host_port rd c.gossip_advertise_addr true) Complaint.advertise_addr_invalid
    ++ unless (valid_url rd c.http_advertise_addr) Complaint.http_addr_invalid
    ++ seed_complaints rd c.gossip_seeds
    ++ unless (valid_level c.log_level) Complaint.log_level_invalid
