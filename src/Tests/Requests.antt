-- ===== src/Tests/Requests.antt =====
-- The theorems on the HTTP API (backend/internal/api) and the configuration
-- (backend/internal/config) at small inputs.
use mini_eureka.Prelude.{
  ℕ, ◌<◌, ◌≤◌, Option, none, some, List, [], ◌∷◌, ◌≡◌, refl, arith, length, false, All, inl,
  if◌then◌else◌,
}
use mini_eureka.Prelude.Int.{pos, ◌-ℤ◌}
use mini_eureka.Prelude.Text.{Text, bytes, text_eq, compare_text}
use mini_eureka.Prelude.Order.{compare_list}
use mini_eureka.Prelude.Time.{Time, sub_time}
use mini_eureka.Prelude.Map.{lookup}
use mini_eureka.Prelude.Utf8.{runes}
use mini_eureka.Model.Error.{ok, text}
use mini_eureka.Registry.Store.{Store, new_store}
use mini_eureka.Service.{with_defaults}
use mini_eureka.Gossip.Engine.{with_engine_defaults}
use mini_eureka.Gossip.Select.{transport_limit}
use mini_eureka.Gossip.Wire.{new_authenticator}
use mini_eureka.Api.{RateLimiter}
use mini_eureka.Api.Limits.{admitted, admitted_bounded}
use mini_eureka.Api.Pagination.{Base64, read_pages}
use mini_eureka.Api.Reading.{read_pages_complete}
use mini_eureka.Config.{Readers, validate}
use mini_eureka.Config.Accepted.{options_of}
use mini_eureka.Config.Csv.{Unique}
use mini_eureka.Config.Load.{Environment, Settings, first_settings, load}
use mini_eureka.Config.Loaded.{load_accepts}
use mini_eureka.Tests.Gossips.{config}

abbrev pub limiter : RateLimiter
limiter = record { limit = pos 1; clients = [] }

abbrev calls : List (Text × Time)
calls = (bytes "k", pos 2) ∷ (bytes "o", pos 3) ∷ []

admitted_bounded_example : admitted (bytes "k") ((bytes "k", pos 1) ∷ calls) limiter ≤ 1
admitted_bounded_example =
    admitted_bounded (bytes "k") (pos 1) calls limiter 0 (unfold lookup in refl) refl
      (unfold sub_time ◌-ℤ◌ in (refl, (refl, tt))) refl

abbrev tail_of : Text → Option Text
tail_of [] = none
tail_of (c ∷ s) = some s

-- A code that writes one byte before the text.
abbrev pub marked : Base64
marked = record { encode = λ s. b'=' ∷ s; decode = tail_of }

marked-written : (s : Text) → 0 < length s → text_eq (marked.encode s) [] ≡ false
unfolding text_eq compare_text compare_list
marked-written s h = refl

abbrev three : List ℕ
three = 7 ∷ 8 ∷ 9 ∷ []

read_pages_complete_example : read_pages marked three 2 2 [] ≡ some three
read_pages_complete_example =
    read_pages_complete marked (λ s. refl) marked-written three 2 2 (omega arith) (omega arith)
      (omega arith) (omega arith)

abbrev readers : Readers
readers = record {
  split_host_port = λ s. some (bytes "h", bytes "80");
  atoi = λ s. some (pos 80);
  trim_space = λ s. s;
  parse_url = λ s. some (bytes "http", bytes "h");
}

-- Only a secret and one seed, named twice, are set.
abbrev variable : Text → Text
variable key =
    if text_eq key (bytes "GOSSIP_SECRET")
    then bytes "k"
    else if text_eq key (bytes "GOSSIP_SEEDS")
    then bytes "h:1,h:1"
    else []

abbrev environment : Environment
environment = record {
  getenv = variable;
  parse_int64 = λ s. none;
  parse_bool = λ s. none;
  parse_duration = λ s. none;
  to_lower = λ s. s;
  readers = readers;
  boot_id = bytes "b";
}

abbrev loaded : Settings
loaded = record (first_settings environment).0 {
  demo_mode = false;
  demo_seed = false;
  demo_random_seed = pos 1;
}

loads : load environment ≡ inl loaded
unfolding load text_eq text validate runes
loads = refl

load_accepts_example :
    ((r : Store) × (new_store loaded.config.shard_count ≡ ok r))
    × ((with_defaults (options_of loaded.config)).lease_ttl ≡ loaded.config.lease_ttl)
    × ((with_defaults (options_of loaded.config)).delayed_after ≡ loaded.config.delayed_after)
    × ((with_engine_defaults (record config { fanout = loaded.config.fanout })).fanout
        ≡ loaded.config.fanout)
    × ((new_authenticator loaded.config.gossip_secret loaded.config.cluster_id loaded.max_clock_skew
          loaded.config.max_udp_bytes).max_bytes
        ≡ loaded.config.max_udp_bytes)
    × (transport_limit loaded.config.max_udp_bytes ≡ loaded.config.max_udp_bytes)
    × Unique loaded.config.gossip_seeds
    × All (λ v. text_eq v [] ≡ false) loaded.config.gossip_seeds
load_accepts_example = load_accepts environment loaded config loads
