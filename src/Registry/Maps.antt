-- ===== src/Registry/Maps.antt =====
-- Every operation of a shard keeps its maps free of repeated keys.
use mini_eureka.Prelude.{
  ◌==◌, if◌then◌else◌, [], ◌∷◌, length, ◌≡◌, arith, Bool-cases, inl, inr, All,
}
use mini_eureka.Prelude.Time.{Time, Duration}
use mini_eureka.Prelude.Text.{Text, text_eq}
use mini_eureka.Prelude.Map.{
  Map, lookup, insert, delete, Distinct, insert-Distinct, delete-Distinct, text_key,
}
use mini_eureka.Model.Instance.{Key}
use mini_eureka.Registry.Entry.{Entry}
use mini_eureka.Registry.Shard.{Instances, put, remove, instances_of}
use mini_eureka.Registry.Lifecycle.{collectible, sweep, sweep_services}
use mini_eureka.Registry.Collect.{IsMap, lookup-sweep, lookup-sweep_services}

Inner : Map Text Instances → Type 0
Inner m = All (λ p. Distinct p.1) m

instances_of-cons :
    (service t : Text) (is : Instances) (m : Map Text Instances)
    → instances_of service ((t, is) ∷ m)
      ≡ (if text_eq t service then is else instances_of service m)
unfolding instances_of lookup
instances_of-cons service t is m = ground arith

instances-Distinct :
    (service : Text) (m : Map Text Instances) → Inner m → Distinct (instances_of service m)
unfolding Inner
instances-Distinct service [] h = unfold instances_of lookup Distinct in tt
instances-Distinct service ((t, is) ∷ m) h = elim (Bool-cases (text_eq t service)) [
  | inl here ↦ rw (instances_of-cons service t is m, here) h.0
  | inr there ↦ rw (instances_of-cons service t is m, there) (instances-Distinct service m h.1)
]

insert-Inner :
    (service : Text) (is : Instances) (m : Map Text Instances)
    → Distinct is
    → Inner m
    → Inner (insert service is m)
unfolding Inner insert
insert-Inner service is [] d h = (d, tt)
insert-Inner service is ((t, js) ∷ m) d h = elim (Bool-cases (text_eq t service)) [
  | inl here ↦ rw (here, insert) (d, h.1)
  | inr there ↦ rw (there, insert) (h.0, insert-Inner service is m d h.1)
]

delete-Inner : (service : Text) (m : Map Text Instances) → Inner m → Inner (delete service m)
unfolding Inner delete
delete-Inner service [] h = h
delete-Inner service ((t, js) ∷ m) h = elim (Bool-cases (text_eq t service)) [
  | inl here ↦ rw (here, delete) (delete-Inner service m h.1)
  | inr there ↦ rw (there, delete) (h.0, delete-Inner service m h.1)
]

pub put-IsMap : (k : Key) (e : Entry) (m : Map Text Instances) → IsMap m → IsMap (put k e m)
unfolding put
put-IsMap k e m (d, h) =
    let is = instances_of k.service m in
    let d' =
      insert-Distinct k.instance_id e is (instances-Distinct k.service m (unfold Inner in h)) in
    (
      insert-Distinct k.service (insert k.instance_id e is) m d,
      unfold Inner in insert-Inner k.service (insert k.instance_id e is) m d' h,
    )

pub remove-IsMap : (k : Key) (m : Map Text Instances) → IsMap m → IsMap (remove k m)
unfolding remove
remove-IsMap k m (d, h) =
    let is = instances_of k.service m in
    let rest : Instances = delete k.instance_id is in
    let d' : Distinct rest =
      delete-Distinct k.instance_id is (instances-Distinct k.service m (unfold Inner in h)) in
    elim (Bool-cases (length rest == 0)) [
      | inl empty ↦
          rw empty (delete-Distinct k.service m d, unfold Inner in delete-Inner k.service m h)
      | inr full ↦
          rw full
            (insert-Distinct k.service rest m d, unfold Inner in insert-Inner k.service rest m d' h)
    ]

sweep-Distinct :
    (now : Time) (retention : Duration) (service : Text) (m : Instances)
    → Distinct m
    → Distinct (sweep now retention service m).0
unfolding sweep Distinct
sweep-Distinct now retention service [] d = d
sweep-Distinct now retention service ((j, e) ∷ m) d =
    elim (Bool-cases (collectible now retention e)) [
      | inl gone ↦ rw gone (sweep-Distinct now retention service m d.1)
      | inr kept ↦ rw kept (
        ground (arith, lookup-sweep now retention service j m d.1, d.0),
        sweep-Distinct now retention service m d.1,
      )
    ]

pub sweep-IsMap :
    (now : Time) (retention : Duration) (m : Map Text Instances)
    → IsMap m
    → IsMap (sweep_services now retention m).0
unfolding sweep_services Distinct
sweep-IsMap now retention [] h = h
sweep-IsMap now retention ((t, is) ∷ m) h =
    let (d, i) = sweep-IsMap now retention m (h.0.1, h.1.1) in
    let kept = (sweep now retention t is).0 in
    elim (Bool-cases (length kept == 0)) [
      | inl empty ↦ rw empty (d, i)
      | inr full ↦ rw full (
        (lookup-sweep_services now retention t m h.0.1 h.0.0, d),
        (sweep-Distinct now retention t is h.1.0, i),
      )
    ]
