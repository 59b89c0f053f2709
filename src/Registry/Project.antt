-- ===== src/Registry/Project.antt =====
-- Fences, the DELAYED projection and collection at one key: the invariant and the mark.
use mini_eureka.Prelude.{
  ◌||◌, true, false, not, none, some, ap, ◌≡◌, arith, refl, inl, inr, Bool-cases,
}
use mini_eureka.Prelude.Order.{join}
use mini_eureka.Prelude.Time.{Time, Duration}
use mini_eureka.Prelude.Text.{Text}
use mini_eureka.Model.Version.{Version}
use mini_eureka.Model.Instance.{status_eq, terminal}
use mini_eureka.Registry.Entry.{Entry, Fence}
use mini_eureka.Registry.Lifecycle.{
  fence_valid, entry_holds, fence_holds, delay_matches, delayed_entry, collectible,
}
use mini_eureka.Registry.Rank.{
  compare_rank-IsLinear, entry_rank, fence_rank, compare_fences-rank, compare_fence_to_entry-rank,
}
use mini_eureka.Registry.Cell.{Cell, is_evicted, apply_fence_cell, delay_cell}
use mini_eureka.Registry.Collect.{collect_cell}
use mini_eureka.Registry.Mark.{mark, lift, IsFenced}

-- `ApplyFence` keeps the invariant.
pub apply_fence_cell-IsFenced :
    (f : Fence) (c : Cell) → IsFenced c → IsFenced (apply_fence_cell f c)
unfolding apply_fence_cell
apply_fence_cell-IsFenced f (e, g) v = elim (Bool-cases (not (fence_valid f) || entry_holds f e)) [
  | inl kept ↦ rw kept v
  | inr gone ↦ elim (Bool-cases (fence_holds f g)) [
    | inl held ↦ rw (gone, held) tt
    | inr beaten ↦ rw (gone, beaten) tt
  ]
]

-- A valid fence raises the mark of its key to its rank, and never lowers it, where the fence that
-- is there does not outrank the entry and a tombstone has its own.
pub mark-apply_fence_cell :
    (f : Fence) (c : Cell)
    → fence_valid f ≡ true
    → IsFenced c
    → mark (apply_fence_cell f c) ≡ lift (mark c) (fence_rank f)
unfolding apply_fence_cell mark lift entry_holds fence_holds join
mark-apply_fence_cell f (none, none) h v = ground arith
mark-apply_fence_cell f (none, some g) h v =
    ground
      (arith, compare_fences-rank f g, compare_rank-IsLinear.same (fence_rank f) (fence_rank g))
mark-apply_fence_cell f (some e, none) h v = ground (arith, compare_fence_to_entry-rank f e)
mark-apply_fence_cell f (some e, some g) h v = ground (
  arith,
  compare_fence_to_entry-rank f e,
  compare_fences-rank f g,
  compare_rank-IsLinear.flip (fence_rank f) (entry_rank e),
  compare_rank-IsLinear.flip (fence_rank f) (fence_rank g),
  compare_rank-IsLinear.flip (entry_rank e) (fence_rank g),
  compare_rank-IsLinear.same (fence_rank g) (entry_rank e),
  compare_rank-IsLinear.same (fence_rank f) (fence_rank g),
  compare_rank-IsLinear.same (fence_rank f) (entry_rank e),
  compare_rank-IsLinear.trans (entry_rank e) (fence_rank f) (fence_rank g),
  v.0,
)

pub delayed-rank :
    (e : Entry) (lease_id : Text) (expected : Version) (at' : Time)
    → delay_matches e lease_id expected ≡ true
    → (entry_rank (delayed_entry e at') ≡ entry_rank e)
      × (is_evicted (delayed_entry e at').instance ≡ false)
      × (is_evicted e.instance ≡ false)
unfolding entry_rank delayed_entry delay_matches terminal status_eq
delayed-rank e lease_id expected at' h = ground arith

-- `MarkDelayed` keeps the invariant and leaves the mark alone: it is no authority over the key.
pub delay_cell_lem :
    (lease_id : Text) (expected : Version) (at' : Time) (c : Cell)
    → IsFenced c
    → IsFenced (delay_cell lease_id expected at' c)
      × (mark (delay_cell lease_id expected at' c) ≡ mark c)
unfolding delay_cell mark
delay_cell_lem lease_id expected at' (none, none) v = (tt, refl)
delay_cell_lem lease_id expected at' (none, some g) v = (tt, refl)
delay_cell_lem lease_id expected at' (some e, none) v =
    elim (Bool-cases (delay_matches e lease_id expected)) [
      | inl ok ↦ let (r, d, l) = delayed-rank e lease_id expected at' ok in rw ok (d, ap some r)
      | inr off ↦ rw off (v, refl)
    ]
delay_cell_lem lease_id expected at' (some e, some g) v =
    elim (Bool-cases (delay_matches e lease_id expected)) [
      | inl ok ↦
          let (r, d, l) = delayed-rank e lease_id expected at' ok in
          rw ok ((rw r v.0, λ gone. cc), ap some r)
      | inr off ↦ rw off (v, refl)
    ]

-- `GC` keeps the invariant of fence and entry at a key, and with it leaves the mark alone.
pub collect_cell_lem :
    (now : Time) (retention : Duration) (c : Cell)
    → IsFenced c
    → IsFenced (collect_cell now retention c) × (mark (collect_cell now retention c) ≡ mark c)
unfolding collect_cell mark
collect_cell_lem now retention (none, none) v = (tt, refl)
collect_cell_lem now retention (none, some g) v = (tt, refl)
collect_cell_lem now retention (some e, none) v = elim (Bool-cases (collectible now retention e)) [
  | inl gone ↦ absurd (unfold collectible in ground arith)
  | inr kept ↦ rw kept (v, refl)
]
collect_cell_lem now retention (some e, some g) v =
    elim (Bool-cases (collectible now retention e)) [
      | inl gone ↦ rw gone (tt, ap some (v.1 (unfold collectible in ground arith)))
      | inr kept ↦ rw kept (v, refl)
    ]
