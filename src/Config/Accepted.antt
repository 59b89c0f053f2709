-- ===== src/Config/Accepted.antt =====
-- What a node may rely on once its configuration (backend/internal/config) has been validated: the
-- constructors of its parts take the values as they are written.
use mini_eureka.Prelude.{
  replicate, ◌-◌, Bool, true, false, ◌&&◌, List, [], ◌∷◌, ◌++◌, length, ◌≡◌, arith, refl, ap,
}
use mini_eureka.Prelude.Int.{pos, ltb_ℤ, leb_ℤ, pos_part}
use mini_eureka.Prelude.Time.{Duration}
use mini_eureka.Model.Error.{ok}
use mini_eureka.Registry.Store.{Store, new_store}
use mini_eureka.Registry.Shard.{empty_shard}
use mini_eureka.Service.{Options, with_defaults}
use mini_eureka.Gossip.Engine.{EngineConfig, with_engine_defaults}
use mini_eureka.Gossip.Select.{transport_limit}
use mini_eureka.Gossip.Wire.{new_authenticator}
use mini_eureka.Config.{Complaint, Config, Readers, is_power_of_two, unless, validate}

append-empty : {A : Type 0} (xs ys : List A) → xs ++ ys ≡ [] → (xs ≡ []) × (ys ≡ [])
append-empty [] ys h = (refl, h)
append-empty (x ∷ xs) ys h = absurd (ground (arith, ap (λ l. length l) h))

unless-empty : (b : Bool) (c : Complaint) → unless b c ≡ [] → b ≡ true
unfolding unless
unless-empty true c h = refl
unless-empty false c h = absurd (ground (arith, ap (λ l. length l) h))

-- The configuration's part of the service's options.
abbrev pub options_of : Config → Options
options_of c = record {
  node_id = c.node_id;
  lease_ttl = c.lease_ttl;
  delayed_after = c.delayed_after;
  tombstone_ttl = c.tombstone_ttl;
  evicted_display_ttl = c.evicted_display_ttl;
}

-- The tests that the parts of the node rely on.
pub record Fits (c : Config) : Type 0 where
  pub shards : is_power_of_two c.shard_count ≡ true
  pub durations :
      (ltb_ℤ (pos 0) c.tick_interval
        && ltb_ℤ (pos 0) c.delayed_after
        && ltb_ℤ c.delayed_after c.lease_ttl)
      ≡ true
  pub fanout : (leb_ℤ (pos 1) c.fanout && leb_ℤ c.fanout (pos 32)) ≡ true
  pub udp : (leb_ℤ (pos 512) c.max_udp_bytes && leb_ℤ c.max_udp_bytes (pos 1200)) ≡ true

validate-Fits : (rd : Readers) (c : Config) → validate rd c ≡ [] → Fits c
unfolding validate
validate-Fits rd c h =
    let p15 = append-empty _ _ h in
    let p14 = append-empty _ _ p15.0 in
    let p13 = append-empty _ _ p14.0 in
    let p12 = append-empty _ _ p13.0 in
    let p11 = append-empty _ _ p12.0 in
    let p10 = append-empty _ _ p11.0 in
    let p9 = append-empty _ _ p10.0 in
    let p8 = append-empty _ _ p9.0 in
    let p7 = append-empty _ _ p8.0 in
    let p6 = append-empty _ _ p7.0 in
    let p5 = append-empty _ _ p6.0 in
    let p4 = append-empty _ _ p5.0 in
    record {
      shards = unless-empty _ _ p4.1;
      durations = unless-empty _ _ p6.1;
      fanout = unless-empty _ _ p8.1;
      udp = unless-empty _ _ p10.1;
    }

-- If `Validate` has no complaint then the registry can be made with the configured number of shards,
-- and the service, the gossip engine, the authenticator and the UDP transport replace none of the configured lease
-- durations, fanout and packet size by a default.
pub validate_accepts :
    (rd : Readers) (c : Config) (e : EngineConfig) (skew : Duration)
    → validate rd c ≡ []
    → ((r : Store) × (new_store c.shard_count ≡ ok r))
      × ((with_defaults (options_of c)).lease_ttl ≡ c.lease_ttl)
      × ((with_defaults (options_of c)).delayed_after ≡ c.delayed_after)
      × ((with_engine_defaults (record e { fanout = c.fanout })).fanout ≡ c.fanout)
      × ((new_authenticator c.gossip_secret c.cluster_id skew c.max_udp_bytes).max_bytes
          ≡ c.max_udp_bytes)
      × (transport_limit c.max_udp_bytes ≡ c.max_udp_bytes)
unfolding new_store with_defaults with_engine_defaults new_authenticator is_power_of_two
    transport_limit
validate_accepts rd c e skew h =
    let f = validate-Fits rd c h in
    let shards = f.shards in
    let durations = f.durations in
    let fanout = f.fanout in
    let udp = f.udp in
    (
      (
        record {
          shards = replicate (pos_part c.shard_count) empty_shard;
          mask = pos_part c.shard_count - 1;
        },
        ground (arith, shards),
      ),
      ground (arith, durations),
      ground (arith, durations),
      ground (arith, fanout),
      ground (arith, udp),
      ground (arith, udp),
    )
