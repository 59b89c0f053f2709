-- ===== src/Registry/Shape.antt =====
-- The invariant of a shard; every call keeps its maps free of repeated keys.
use mini_eureka.Prelude.{Option, none, some, Bool-cases, Option-cases, inl, inr}
use mini_eureka.Prelude.Order.{Ordering-cases}
use mini_eureka.Prelude.Time.{Time}
use mini_eureka.Prelude.Text.{Text}
use mini_eureka.Prelude.Map.{lookup}
use mini_eureka.Model.Version.{Version}
use mini_eureka.Model.Instance.{Key, instance_key}
use mini_eureka.Model.Mutation.{Mutation}
use mini_eureka.Registry.Entry.{Entry, Fence, operation_event}
use mini_eureka.Registry.Compare.{Platform, compare_incoming}
use mini_eureka.Registry.Shard.{
  Shard, apply_shard, apply_new, apply_current, store, find, created, fenced_off, key_key,
}
use mini_eureka.Registry.Lifecycle.{
  apply_fence_shard, drop_entry, fence_valid, mark_delayed, entry_holds, fence_holds, delay_matches,
  delayed_entry,
}
use mini_eureka.Registry.Cell.{cell}
use mini_eureka.Registry.Mark.{IsFenced}
use mini_eureka.Registry.Collect.{IsMap}
use mini_eureka.Registry.Maps.{put-IsMap, remove-IsMap}

pub record IsGood (s : Shard) : Type 0 where
  pub maps : IsMap s.services
  pub fenced : (k : Key) → IsFenced (cell s k)

pub apply_shard-IsMap :
    (pl : Platform) (m : Mutation) (now : Time) (s : Shard)
    → IsMap s.services
    → IsMap (apply_shard pl m now s).0.services
unfolding apply_shard apply_new apply_current store
apply_shard-IsMap pl m now s h = elim (Option-cases (find s (instance_key m.instance))) [
  | inl absent ↦ elim (Bool-cases (fenced_off m (lookup (instance_key m.instance) s.fences))) [
    | inl off ↦ rw (absent, apply_shard, off) h
    | inr on ↦
        rw (absent, apply_shard, on)
          (put-IsMap (instance_key m.instance) (created m now) s.services h)
  ]
  | inr (e, present) ↦ rw (present, apply_shard) (current e)
]
  where
    current : (e : Entry) → IsMap (apply_current pl m now e s).0.services
    current e = elim (Option-cases (operation_event e m.operation_id)) [
      | inr (v, seen) ↦ rw (seen, apply_current) h
      | inl unseen ↦ elim (Ordering-cases (compare_incoming pl m e)) [
        | inl less ↦ rw (unseen, apply_current, less) h
        | inr (inl same) ↦ rw (unseen, apply_current, same) (put-IsMap _ _ s.services h)
        | inr (inr more) ↦ rw (unseen, apply_current, more) (put-IsMap _ _ s.services h)
      ]
    ]

drop-IsMap :
    (e : Option Entry) (k : Key) (s : Shard) → IsMap s.services → IsMap (drop_entry e k s).services
unfolding drop_entry
drop-IsMap none k s h = h
drop-IsMap (some e) k s h = remove-IsMap k s.services h

pub fence-IsMap :
    (f : Fence) (s : Shard) → IsMap s.services → IsMap (apply_fence_shard f s).0.services
unfolding apply_fence_shard
fence-IsMap f s h = elim (Bool-cases (fence_valid f)) [
  | inr bad ↦ rw (bad, apply_fence_shard) h
  | inl good ↦ elim (Bool-cases (entry_holds f (find s f.key))) [
    | inl held ↦ rw (good, apply_fence_shard, held) h
    | inr free ↦
        elim (Bool-cases
          (fence_holds f (lookup f.key (drop_entry (find s f.key) f.key s).fences))) [
            | inl kept ↦
                rw (good, apply_fence_shard, free, kept) (drop-IsMap (find s f.key) f.key s h)
            | inr set ↦
                rw (good, apply_fence_shard, free, set) (drop-IsMap (find s f.key) f.key s h)
          ]
  ]
]

pub delay-IsMap :
    (k : Key) (l : Text) (v : Version) (t : Time) (s : Shard)
    → IsMap s.services
    → IsMap (mark_delayed k l v t s).0.services
unfolding mark_delayed
delay-IsMap k l v t s h = elim (Option-cases (find s k)) [
  | inl absent ↦ rw (absent, mark_delayed) h
  | inr (e, present) ↦ elim (Bool-cases (delay_matches e l v)) [
    | inl on ↦ rw (present, mark_delayed, on) (put-IsMap k (delayed_entry e t) s.services h)
    | inr off ↦ rw (present, mark_delayed, off) h
  ]
]
