-- ===== src/Config/Loaded.antt =====
-- What a node may rely on once `Load` of backend/internal/config/config.go has given it its settings.
use mini_eureka.Prelude.{false, List, [], ◌∷◌, All, ◌≡◌, ◌⊎◌, inl, inr, refl, subst}
use mini_eureka.Prelude.Int.{pos}
use mini_eureka.Prelude.Text.{Text, text_eq}
use mini_eureka.Model.Error.{ok}
use mini_eureka.Registry.Store.{Store, new_store}
use mini_eureka.Service.{with_defaults}
use mini_eureka.Gossip.Engine.{EngineConfig, with_engine_defaults}
use mini_eureka.Gossip.Select.{transport_limit}
use mini_eureka.Gossip.Wire.{new_authenticator}
use mini_eureka.Config.{Complaint, validate}
use mini_eureka.Config.Accepted.{options_of, validate_accepts}
use mini_eureka.Config.Csv.{Unique, split_csv-Unique}
use mini_eureka.Config.Load.{
  bool_env, int64_env, Environment, LoadFailure, Settings, checked, first_settings, load,
  unless_unread,
}

-- What holds of settings that are found holds of a result.
OfFound : (Settings → Type 0) → Settings ⊎ LoadFailure → Type 0
OfFound P (inl s) = P s
OfFound P (inr f) = Unit {0}

unless_unread-OfFound :
    (P : Settings → Type 0) (keys : List Text) (x : Settings ⊎ LoadFailure)
    → OfFound P x
    → OfFound P (unless_unread keys x)
unfolding unless_unread OfFound
unless_unread-OfFound P [] x h = h
unless_unread-OfFound P (k ∷ ks) x h = tt

Complaints-cases :
    (cs : List Complaint)
    → (cs ≡ []) ⊎ ((c : Complaint) × (rest : List Complaint) × (cs ≡ c ∷ rest))
Complaints-cases [] = inl refl
Complaints-cases (c ∷ rest) = inr (c, rest, refl)

checked-OfFound :
    (P : Settings → Type 0) (e : Environment) (s : Settings)
    → (validate e.readers s.config ≡ [] → P s)
    → OfFound P (checked e s)
unfolding checked OfFound
checked-OfFound P e s h = elim (Complaints-cases (validate e.readers s.config)) [
  | inl none_left ↦ rw (none_left, checked) (h none_left)
  | inr (c, rest, some_left) ↦ rw (some_left, checked) tt
]

-- Seeds without repetition.
abbrev SeedsUnique : Settings → Type 0
SeedsUnique s = Unique s.config.gossip_seeds × All (λ v. text_eq v [] ≡ false) s.config.gossip_seeds

first_settings-SeedsUnique : (e : Environment) → SeedsUnique (first_settings e).0
unfolding first_settings
first_settings-SeedsUnique e = split_csv-Unique e.readers (e.getenv _)

-- What `Load` makes sure of.
abbrev Sound : Environment → Settings → Type 0
Sound e s = (validate e.readers s.config ≡ []) × SeedsUnique s

load-Sound : (e : Environment) → OfFound (Sound e) (load e)
unfolding load
load-Sound e =
    let P = Sound e in
    let (s, unread_first) = first_settings e in
    let mode = bool_env e "DEMO_MODE" false in
    let seed = bool_env e "DEMO_SEED" false in
    let random = int64_env e "DEMO_RANDOM_SEED" (pos 1) in
    let t : Settings = record s {
      demo_mode = mode.0;
      demo_seed = seed.0;
      demo_random_seed = random.0;
    } in
    let last = unless_unread random.1 (checked e t) in
    let third = unless_unread seed.1 last in
    let second = unless_unread mode.1 third in
    unless_unread-OfFound P unread_first second (
      unless_unread-OfFound P mode.1 third (
        unless_unread-OfFound P seed.1 last (
          unless_unread-OfFound P random.1 (checked e t)
            (checked-OfFound P e t (λ valid. (valid, first_settings-SeedsUnique e))))))

-- If `Load` gives settings, from whatever environment, then the registry can be made with their number
-- of shards; the service, the gossip engine, the authenticator and the UDP transport replace none of
-- their lease durations, fanout and packet size by a default or a maximum; and no seed is empty or
-- stands twice.
pub load_accepts :
    (e : Environment) (s : Settings) (ec : EngineConfig)
    → load e ≡ inl s
    → ((r : Store) × (new_store s.config.shard_count ≡ ok r))
      × ((with_defaults (options_of s.config)).lease_ttl ≡ s.config.lease_ttl)
      × ((with_defaults (options_of s.config)).delayed_after ≡ s.config.delayed_after)
      × ((with_engine_defaults (record ec { fanout = s.config.fanout })).fanout ≡ s.config.fanout)
      × ((new_authenticator s.config.gossip_secret s.config.cluster_id s.max_clock_skew
            s.config.max_udp_bytes).max_bytes
          ≡ s.config.max_udp_bytes)
      × (transport_limit s.config.max_udp_bytes ≡ s.config.max_udp_bytes)
      × Unique s.config.gossip_seeds
      × All (λ v. text_eq v [] ≡ false) s.config.gossip_seeds
unfolding OfFound
load_accepts e s ec found =
    let sound : Sound e s = subst (λ x. OfFound (Sound e) x) found (load-Sound e) in
    let a = validate_accepts e.readers s.config ec s.max_clock_skew sound.0 in
    (a.0, a.1, a.2, a.3, a.4, a.5, sound.1.0, sound.1.1)
