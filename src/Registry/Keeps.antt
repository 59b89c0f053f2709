-- ===== src/Registry/Keeps.antt =====
-- What each call does to the invariant and to the mark of a key.
use mini_eureka.Prelude.{
  true, false, if◌then◌else◌, Option, none, some, List, [], ◌∷◌, ◌≡◌, arith, refl, Bool-cases,
  Option-cases, inl, inr,
}
use mini_eureka.Prelude.Time.{Time, Duration}
use mini_eureka.Prelude.Text.{Text}
use mini_eureka.Model.Error.{Error}
use mini_eureka.Model.Version.{Version}
use mini_eureka.Model.Instance.{Key, instance_key}
use mini_eureka.Model.Mutation.{Mutation, validate_mutation}
use mini_eureka.Registry.Entry.{Fence}
use mini_eureka.Registry.Compare.{Platform}
use mini_eureka.Registry.Shard.{Shard, apply_shard, key_eq, key_eq_iff, key_key}
use mini_eureka.Registry.Lifecycle.{apply_fence_shard, fence_valid, mark_delayed, gc}
use mini_eureka.Registry.Rank.{Rank, mutation_rank, fence_rank}
use mini_eureka.Registry.Cell.{
  Cell, cell, apply_shard-cell, apply_fence_shard-cell, mark_delayed-cell,
}
use mini_eureka.Registry.Mark.{IsFenced, mark, lift}
use mini_eureka.Registry.Apply.{apply_cell-IsFenced}
use mini_eureka.Registry.Collect.{IsMap, gc-cell}
use mini_eureka.Registry.Maps.{sweep-IsMap}
use mini_eureka.Registry.Project.{
  apply_fence_cell-IsFenced, mark-apply_fence_cell, delay_cell_lem, collect_cell_lem,
}
use mini_eureka.Registry.Good.{
  Naming, IsNamed, NamedCell, mark-apply_named, apply_cell-Named, fence_cell-Named,
  delay_cell-Named, collect_cell-Named,
}
use mini_eureka.Registry.Run.{
  Call, apply_call, fence_call, delay_call, collect_call, step, call_ranks,
}
use mini_eureka.Registry.Shape.{IsGood, apply_shard-IsMap, fence-IsMap, delay-IsMap}

-- A mark with ranks put on top of it.
unfoldable pub lift_all : Option Rank → List Rank → Option Rank
lift_all o [] = o
lift_all o (r ∷ rs) = lift_all (lift o r) rs

-- What a call does to one key, once the calls are read off the cells: the invariant of fences for
-- every call, and what it brings to the mark for a call that names what it should.
pub record Kept (ok : Naming → Type 0) (k : Key) (before after : Cell) (rs : List Rank)
    : Type 0 where
  pub fenced : IsFenced after
  pub named :
      (n : Naming)
      → ok n
      → NamedCell n k before
      → NamedCell n k after × (mark after ≡ lift_all (mark before) rs)

same-Kept : (ok : Naming → Type 0) (k : Key) (c : Cell) → IsFenced c → Kept ok k c c []
unfolding lift_all
same-Kept ok k c f = record { fenced = f; named = λ n h c'. (c', refl) }

-- What a call has to name: an applied mutation the lease of its epoch, and by its operation ID
-- itself.
abbrev pub Names : Call → Naming → Type 0
Names (apply_call m now) n = IsNamed n (instance_key m.instance) m
Names _ n = Unit {0}

apply-Kept :
    (pl : Platform) (m : Mutation) (now : Time) (s : Shard) (j : Key)
    → IsGood s
    → validate_mutation m ≡ none
    → Kept
        (Names (apply_call m now))
        j
        (cell s j)
        (cell (apply_shard pl m now s).0 j)
        (if key_eq (instance_key m.instance) j then mutation_rank m ∷ [] else [])
unfolding lift_all
apply-Kept pl m now s j g v = elim (Bool-cases (key_eq (instance_key m.instance) j)) [
  | inr other ↦ rw (apply_shard-cell pl m now s j, other) (same-Kept _ j (cell s j) (g.fenced j))
  | inl here ↦
      let e : instance_key m.instance ≡ j = (key_eq_iff (instance_key m.instance) j).0 here in
      rw (apply_shard-cell pl m now s j, here, ← e)
        (record {
          fenced = apply_cell-IsFenced pl m now (cell s _) v (g.fenced _);
          named = λ n p c. (
            apply_cell-Named n pl _ m now (cell s _) p v c,
            mark-apply_named n pl _ m now (cell s _) p c v (g.fenced _),
          );
        })
]

fence-Kept :
    (f : Fence) (s : Shard) (j : Key)
    → IsGood s
    → fence_valid f ≡ true
    → Kept
        (Names (fence_call f))
        j
        (cell s j)
        (cell (apply_fence_shard f s).0 j)
        (if key_eq f.key j then fence_rank f ∷ [] else [])
unfolding lift_all
fence-Kept f s j g v = elim (Bool-cases (key_eq f.key j)) [
  | inr other ↦ rw (apply_fence_shard-cell f s j, other) (same-Kept _ j (cell s j) (g.fenced j))
  | inl here ↦
      let e : f.key ≡ j = (key_eq_iff f.key j).0 here in
      rw (apply_fence_shard-cell f s j, here, ← e)
        (record {
          fenced = apply_fence_cell-IsFenced f (cell s f.key) (g.fenced f.key);
          named = λ n p c. (
            fence_cell-Named n f.key f (cell s f.key) c,
            mark-apply_fence_cell f (cell s f.key) v (g.fenced f.key),
          );
        })
]

delay-Kept :
    (k : Key) (l : Text) (v : Version) (t : Time) (s : Shard) (j : Key)
    → IsGood s
    → Kept (Names (delay_call k l v t)) j (cell s j) (cell (mark_delayed k l v t s).0 j) []
unfolding lift_all
delay-Kept k l v t s j g = elim (Bool-cases (key_eq k j)) [
  | inr other ↦ rw (mark_delayed-cell k l v t s j, other) (same-Kept _ j (cell s j) (g.fenced j))
  | inl here ↦
      let e : k ≡ j = (key_eq_iff k j).0 here in
      let (f, m) = delay_cell_lem l v t (cell s j) (g.fenced j) in
      rw (mark_delayed-cell k l v t s j, here, e)
        (record { fenced = f; named = λ n p c. (delay_cell-Named n j l v t (cell s j) c, m) })
]

collect-Kept :
    (now : Time) (retention : Duration) (s : Shard) (j : Key)
    → IsGood s
    → Kept (Names (collect_call now retention)) j (cell s j) (cell (gc now retention s).0 j) []
unfolding lift_all
collect-Kept now retention s j g =
    let (f, m) = collect_cell_lem now retention (cell s j) (g.fenced j) in
    rw (gc-cell now retention s j g.maps) (record {
      fenced = f;
      named = λ n p c. (collect_cell-Named n j now retention (cell s j) c, m);
    })

fence_invalid : (f : Fence) (s : Shard) → fence_valid f ≡ false → (apply_fence_shard f s).0 ≡ s
unfolding apply_fence_shard
fence_invalid f s h = ground arith

step_valid :
    (pl : Platform) (m : Mutation) (now : Time) (s : Shard) (j : Key)
    → validate_mutation m ≡ none
    → (step pl (apply_call m now) s ≡ (apply_shard pl m now s).0)
      × (call_ranks j (apply_call m now)
          ≡ (if key_eq (instance_key m.instance) j then mutation_rank m ∷ [] else []))
unfolding step call_ranks
step_valid pl m now s j v = (ground arith, ground arith)

step_invalid :
    (pl : Platform) (m : Mutation) (now : Time) (s : Shard) (j : Key) (e : Error)
    → validate_mutation m ≡ some e
    → (step pl (apply_call m now) s ≡ s) × (call_ranks j (apply_call m now) ≡ [])
unfolding step call_ranks
step_invalid pl m now s j e v = (ground arith, ground arith)

pub step-Kept :
    (pl : Platform) (c : Call) (s : Shard) (j : Key)
    → IsGood s
    → Kept (Names c) j (cell s j) (cell (step pl c s) j) (call_ranks j c)
unfolding step call_ranks
step-Kept pl (apply_call m now) s j g = elim (Option-cases (validate_mutation m)) [
  | inl v ↦ let (a, r) = step_valid pl m now s j v in rw (a, r) (apply-Kept pl m now s j g v)
  | inr (e, bad) ↦
      let (a, r) = step_invalid pl m now s j e bad in
      rw (a, r) (same-Kept _ j (cell s j) (g.fenced j))
]
step-Kept pl (fence_call f) s j g = elim (Bool-cases (fence_valid f)) [
  | inl v ↦ rw v (fence-Kept f s j g v)
  | inr bad ↦ rw (bad, fence_invalid f s bad) (same-Kept _ j (cell s j) (g.fenced j))
]
step-Kept pl (delay_call k l v t) s j g = delay-Kept k l v t s j g
step-Kept pl (collect_call now retention) s j g = collect-Kept now retention s j g

step-IsMap :
    (pl : Platform) (c : Call) (s : Shard) → IsMap s.services → IsMap (step pl c s).services
unfolding step
step-IsMap pl (apply_call m now) s h = elim (Option-cases (validate_mutation m)) [
  | inl v ↦
      rw (step_valid pl m now s (instance_key m.instance) v).0 (apply_shard-IsMap pl m now s h)
  | inr (e, bad) ↦ rw (step_invalid pl m now s (instance_key m.instance) e bad).0 h
]
step-IsMap pl (fence_call f) s h = fence-IsMap f s h
step-IsMap pl (delay_call k l v t) s h = delay-IsMap k l v t s h
step-IsMap pl (collect_call now retention) s h = unfold gc in sweep-IsMap now retention s.services h

-- Every call on a good shard leaves a good shard, whatever mutation or fence it brings: no service
-- and no instance stands twice, no fence outranks the entry at its key, and a tombstone has a fence
-- of its own rank.
pub step-IsGood : (pl : Platform) (c : Call) (s : Shard) → IsGood s → IsGood (step pl c s)
step-IsGood pl c s g = record {
  maps = step-IsMap pl c s g.maps;
  fenced = λ k. (step-Kept pl c s k g).fenced;
}
