-- ===== src/Registry/Apply.antt =====
-- `Apply` at one key: the invariant of fences and entries, and what becomes of the mark.
use mini_eureka.Prelude.{
  Ordering, false, Option, none, some, ap, ◌∙◌, ◌≡◌, ◌≢◌, arith, inl, inr, sym, Bool-cases,
  Option-cases,
}
use mini_eureka.Prelude.Order.{join, join_left, Ordering-cases, join_right, not-gt_trans}
use mini_eureka.Prelude.Time.{Time}
use mini_eureka.Prelude.Text.{Text}
use mini_eureka.Model.Mutation.{Mutation, validate_mutation}
use mini_eureka.Registry.Entry.{Entry, Fence, operation_event, remember_operation}
use mini_eureka.Registry.Compare.{Platform, compare_incoming}
use mini_eureka.Registry.Shard.{fenced_off, created, replacement}
use mini_eureka.Registry.Rank.{
  Rank, compare_rank, compare_rank-IsLinear, mutation_rank, entry_rank, fence_rank,
  incoming_beats_fence-rank, SameLease, wins-rank, loses-rank,
}
use mini_eureka.Registry.Cell.{Cell, is_evicted, fence_after, apply_cell}
use mini_eureka.Registry.Mark.{mark, lift, IsFenced, Accepts}
use mini_eureka.Registry.Stored.{rank-remember, rank-replacement, rank-created, rank-fence_of}

-- The fence at the key does not outrank a mutation.
abbrev pub NotAbove : Option Fence → Rank → Type 0
NotAbove none r = Unit {0}
NotAbove (some f) r = compare_rank (fence_rank f) r ≢ Ordering.gt

stored-IsFenced :
    (m : Mutation) (e : Entry) (f : Option Fence)
    → entry_rank e ≡ mutation_rank m
    → is_evicted e.instance ≡ is_evicted m.instance
    → NotAbove f (mutation_rank m)
    → IsFenced (some e, fence_after m f)
unfolding fence_after
stored-IsFenced m e none r v n = elim (Bool-cases (is_evicted m.instance)) [
  | inl gone ↦ rw gone (
    (λ g. ground (arith, compare_rank-IsLinear.self (mutation_rank m), rank-fence_of m)),
    λ _. rank-fence_of m ∙ sym r,
  )
  | inr live ↦ rw live (v ∙ live)
]
stored-IsFenced m e (some f) r v n = elim (Bool-cases (is_evicted m.instance)) [
  | inl gone ↦ rw gone (
    (λ g. ground (arith, compare_rank-IsLinear.self (mutation_rank m), rank-fence_of m)),
    λ _. rank-fence_of m ∙ sym r,
  )
  | inr live ↦ rw live (ground arith, λ g. cc)
]

fenced_off-NotAbove :
    (m : Mutation) (f : Option Fence) → fenced_off m f ≡ false → NotAbove f (mutation_rank m)
unfolding fenced_off
fenced_off-NotAbove m none h = tt
fenced_off-NotAbove m (some f) h = ground (
  arith,
  incoming_beats_fence-rank m f,
  compare_rank-IsLinear.flip (fence_rank f) (mutation_rank m),
)

wins-NotAbove :
    (pl : Platform) (m : Mutation) (e : Entry) (f : Option Fence)
    → IsFenced (some e, f)
    → compare_incoming pl m e ≡ Ordering.gt
    → NotAbove f (mutation_rank m)
wins-NotAbove pl m e none v h = tt
wins-NotAbove pl m e (some f) v h =
    not-gt_trans compare_rank-IsLinear (fence_rank f) (entry_rank e) (mutation_rank m) v.0 (
      ground
        (arith, wins-rank pl m e h, compare_rank-IsLinear.flip (entry_rank e) (mutation_rank m)))

remember-IsFenced :
    (e : Entry) (o v : Text) (f : Option Fence)
    → IsFenced (some e, f)
    → IsFenced (some (remember_operation e o v), f)
remember-IsFenced e o v none h = ap is_evicted (rank-remember e o v).1 ∙ h
remember-IsFenced e o v (some f) h = let (r, i) = rank-remember e o v in rw (r, i) h

-- `Apply` of a valid mutation keeps at its key that no fence outranks the entry and that a
-- tombstone has a fence of its own rank.
pub apply_cell-IsFenced :
    (pl : Platform) (m : Mutation) (now : Time) (c : Cell)
    → validate_mutation m ≡ none
    → IsFenced c
    → IsFenced (apply_cell pl m now c)
unfolding apply_cell
apply_cell-IsFenced pl m now (none, f) h v = elim (Bool-cases (fenced_off m f)) [
  | inl off ↦ rw off tt
  | inr on ↦
      let (r, i) = rank-created m now h in
      rw on (stored-IsFenced m (created m now) f r i (fenced_off-NotAbove m f on))
]
apply_cell-IsFenced pl m now (some e, f) h v =
    elim (Option-cases (operation_event e m.operation_id)) [
      | inr (event_id, seen) ↦ rw (seen, apply_cell) v
      | inl unseen ↦ elim (Ordering-cases (compare_incoming pl m e)) [
        | inl less ↦ rw (unseen, apply_cell, less) v
        | inr (inl same) ↦
            rw (unseen, apply_cell, same) (remember-IsFenced e m.operation_id e.event_id f v)
        | inr (inr more) ↦
            let (r, i) = rank-replacement m e now h in
            rw (unseen, apply_cell, more)
              (stored-IsFenced m (replacement m e now) f r i (wins-NotAbove pl m e f v more))
      ]
    ]

join_stays :
    (pl : Platform) (m : Mutation) (e : Entry)
    → SameLease m e
    → compare_incoming pl m e ≢ Ordering.gt
    → join compare_rank (entry_rank e) (mutation_rank m) ≡ entry_rank e
join_stays pl m e same h =
    join_left compare_rank-IsLinear (entry_rank e) (mutation_rank m) (loses-rank pl m e same h)

-- `Apply` of a valid mutation raises the mark of its key to the mutation's rank, and never lowers
-- it, where the fence does not outrank the entry, a tombstone has its fence, the entry has not
-- seen the mutation's operation, and a lease epoch names one lease.
pub mark-apply_cell :
    (pl : Platform) (m : Mutation) (now : Time) (c : Cell)
    → validate_mutation m ≡ none
    → IsFenced c
    → Accepts m c
    → mark (apply_cell pl m now c) ≡ lift (mark c) (mutation_rank m)
unfolding apply_cell mark lift
mark-apply_cell pl m now (none, none) h v a = unfold fenced_off in ap some (rank-created m now h).0
mark-apply_cell pl m now (none, some f) h v a = elim (Bool-cases (fenced_off m (some f))) [
  | inl off ↦ rw off (
      ap some (
        sym (
          join_left compare_rank-IsLinear (fence_rank f) (mutation_rank m)
            (unfold fenced_off in ground (arith, incoming_beats_fence-rank m f)))))
  | inr on ↦ rw on (
      ap some (
        (rank-created m now h).0
        ∙ sym (
            join_right compare_rank-IsLinear (fence_rank f) (mutation_rank m)
              (unfold fenced_off in ground (arith, incoming_beats_fence-rank m f)))))
]
mark-apply_cell pl m now (some e, f) h v (unseen, same) =
    elim (Ordering-cases (compare_incoming pl m e)) [
      | inl less ↦
          rw (unseen, apply_cell, less) (ap some (sym (join_stays pl m e same (ground arith))))
      | inr (inl equal) ↦
          rw (unseen, apply_cell, equal)
            (ap some (
              (rank-remember e m.operation_id e.event_id).0
              ∙ sym (join_stays pl m e same (ground arith))))
      | inr (inr more) ↦
          rw (unseen, apply_cell, more)
            (ap some (
              (rank-replacement m e now h).0
              ∙ sym (
                  join_right compare_rank-IsLinear (entry_rank e) (mutation_rank m)
                    (wins-rank pl m e more))))
    ]
