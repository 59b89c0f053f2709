-- ===== src/Registry/Collect.antt =====
-- `GC` at one key, and the invariant that no key of a shard's maps stands twice.
use mini_eureka.Prelude.{
  ◌==◌, if◌then◌else◌, true, Option, none, some, [], ◌∷◌, length, ◌≡◌, arith, refl, ap, All,
}
use mini_eureka.Prelude.Time.{Time, Duration}
use mini_eureka.Prelude.Text.{Text, text_eq_iff}
use mini_eureka.Prelude.Map.{Map, lookup, Distinct, text_key}
use mini_eureka.Model.Instance.{Key}
use mini_eureka.Registry.Entry.{Entry}
use mini_eureka.Registry.Shard.{Shard, Instances, find, instances_of, key_key}
use mini_eureka.Registry.Lifecycle.{collectible, sweep, sweep_services, gc}
use mini_eureka.Registry.Find.{at_key}
use mini_eureka.Registry.Cell.{Cell, cell}

-- No service and no instance of a service stands twice.
abbrev pub IsMap : Map Text Instances → Type 0
IsMap m = Distinct m × All (λ p. Distinct p.1) m

-- `GC` at one key.
abbrev pub collect_entry : Time → Duration → Option Entry → Option Entry
collect_entry now retention none = none
collect_entry now retention (some e) = if collectible now retention e then none else some e

unfoldable pub collect_cell : Time → Duration → Cell → Cell
collect_cell now retention (e, f) = (collect_entry now retention e, f)

pub lookup-sweep :
    (now : Time) (retention : Duration) (service i : Text) (m : Instances)
    → Distinct m
    → lookup i (sweep now retention service m).0 ≡ collect_entry now retention (lookup i m)
unfolding lookup sweep Distinct
lookup-sweep now retention service i [] d = refl
lookup-sweep now retention service i ((j, e) ∷ m) d =
    ground (arith, lookup-sweep now retention service i m d.1, d.0, text_eq_iff j i)

pub lookup-sweep_services :
    (now : Time) (retention : Duration) (service : Text) (m : Map Text Instances)
    → Distinct m
    → lookup service m ≡ none
    → lookup service (sweep_services now retention m).0 ≡ none
unfolding lookup sweep_services Distinct
lookup-sweep_services now retention service [] d h = refl
lookup-sweep_services now retention service ((t, is) ∷ m) d h =
    ground (arith, lookup-sweep_services now retention service m d.1, text_eq_iff t service)

nil_of_length : (m : Instances) → (length m == 0) ≡ true → m ≡ []
nil_of_length [] h = refl
nil_of_length (x ∷ m) h = absurd (ground arith)

lookup-nil : (i : Text) → lookup {V = Entry} i [] ≡ none
unfolding lookup
lookup-nil i = refl

at_key-sweep :
    (now : Time) (retention : Duration) (k : Key) (m : Map Text Instances)
    → IsMap m
    → at_key (sweep_services now retention m).0 k ≡ collect_entry now retention (at_key m k)
unfolding lookup sweep_services instances_of Distinct
at_key-sweep now retention k [] d = refl
at_key-sweep now retention k ((t, is) ∷ m) d =
    let kept : Instances = (sweep now retention t is).0 in
    ground (
      arith,
      at_key-sweep now retention k m (d.0.1, d.1.1),
      lookup-sweep now retention t k.instance_id is d.1.0,
      lookup-sweep_services now retention k.service m d.0.1,
      d.0.0,
      text_eq_iff t k.service,
      nil_of_length kept,
      lookup-nil k.instance_id,
    )

-- On a shard in which no service and no instance stands twice, `GC` drops the entries that are
-- collectible, at every key, and no fence.
pub gc-cell :
    (now : Time) (retention : Duration) (s : Shard) (j : Key)
    → IsMap s.services
    → cell (gc now retention s).0 j ≡ collect_cell now retention (cell s j)
unfolding gc collect_cell cell find
gc-cell now retention s j d =
    ap (λ e. (e, lookup j s.fences)) (at_key-sweep now retention j s.services d)
