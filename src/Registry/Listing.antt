-- ===== src/Registry/Listing.antt =====
-- Discovery hands out exactly the discoverable instances of a service, in order.
use mini_eureka.Prelude.{List, [], ◌∷◌, ◌≡◌, keep, map, arith, refl}
use mathlib.Core.List.{Permᴰ}
use mini_eureka.Prelude.Text.{Text, compare_text, compare_text-IsLinear}
use mini_eureka.Prelude.Sort.{IsSorted, sort_on-Perm, sort_on-IsSorted}
use mini_eureka.Model.Instance.{Instance, InstanceStatus, clone, discoverable, status_eq}
use mini_eureka.Registry.Shard.{Shard, Instances, instances_of}
use mini_eureka.Registry.Query.{listed, list, discover, is_allowed, has_status, instance_id_of}

abbrev pub live : List InstanceStatus
live = InstanceStatus.active ∷ InstanceStatus.delayed ∷ []

-- The records of a service, as a caller sees them.
abbrev pub records : Instances → List Instance
records m = map (λ p. clone p.1.instance) m

listed-live : (m : Instances) → listed live m ≡ keep discoverable (records m)
unfolding listed is_allowed has_status discoverable clone status_eq
listed-live [] = refl
listed-live ((i, e) ∷ m) = ground (arith, listed-live m)

-- `Discover` lists the discoverable records of a service, each as often as the service holds it,
-- and none before one with a lesser instance ID.
pub discover_lem :
    (s : Shard) (service : Text)
    → Permᴰ (keep discoverable (records (instances_of service s.services))) (discover s service)
      × IsSorted compare_text instance_id_of (discover s service)
unfolding discover list
discover_lem s service = (
  rw (← listed-live (instances_of service s.services))
      (sort_on-Perm compare_text instance_id_of (listed live (instances_of service s.services))),
  sort_on-IsSorted compare_text instance_id_of compare_text-IsLinear
      (listed live (instances_of service s.services)),
)
