-- ===== src/Registry/Good.antt =====
-- What a key's entry keeps of leases and operations, and that each call keeps it: the entry's lease
-- is the one of its epoch, and no operation that it remembers is of a mutation that outranks it.
use mini_eureka.Prelude.{
  true, false, Bool, if◌then◌else◌, Option, none, some, [], ◌≡◌, ◌≢◌, arith, ap, ◌∙◌, sym,
  Bool-cases, Option-cases, inl, inr, not, ◌||◌, Ordering, subst, refl,
}
use mini_eureka.Prelude.Order.{Ordering-cases, join_left, not-gt_trans}
use mini_eureka.Prelude.Time.{Time, Duration}
use mini_eureka.Prelude.Text.{Text, text_eq, text_eq_iff}
use mini_eureka.Prelude.Map.{lookup}
use mini_eureka.Model.Version.{Version, compare_version-IsLinear}
use mini_eureka.Model.Instance.{Key, clone}
use mini_eureka.Model.Mutation.{Mutation, validate_mutation}
use mini_eureka.Registry.Entry.{Entry, Fence, operation_event, remember_operation, is_present}
use mini_eureka.Registry.Compare.{Platform, compare_incoming}
use mini_eureka.Registry.Shard.{prepare_incoming, created, replacement, fenced_off}
use mini_eureka.Registry.Lifecycle.{
  fence_valid, entry_holds, fence_holds, delay_matches, delayed_entry, collectible,
}
use mini_eureka.Registry.Rank.{
  Rank, SameLease, compare_rank, compare_rank-IsLinear, entry_rank, loses-rank, mutation_rank,
  wins-rank,
}
use mini_eureka.Registry.Cell.{Cell, apply_cell, apply_fence_cell, delay_cell, fence_after}
use mini_eureka.Registry.Mark.{IsFenced, mark, lift}
use mini_eureka.Registry.Apply.{mark-apply_cell}
use mini_eureka.Registry.Stored.{rank-created, rank-remember, rank-replacement}
use mini_eureka.Registry.Window.{operation_event-remember}
use mini_eureka.Registry.Project.{delayed-rank}
use mini_eureka.Registry.Collect.{collect_cell}

-- What names stand for: the lease of an epoch, and the rank of the mutation of an operation ID at a
-- key.
pub record Naming : Type 0 where
  pub lease : Version → Text
  pub rank_of : Key → Text → Rank

-- The mutation's lease is the one of its epoch, and its operation ID, if it has one, is of no other.
pub record IsNamed (n : Naming) (k : Key) (m : Mutation) : Type 0 where
  pub leased : m.instance.lease_id ≡ n.lease m.instance.lease_epoch
  pub operation : text_eq m.operation_id [] ≡ false → n.rank_of k m.operation_id ≡ mutation_rank m

-- No operation that the entry remembers is of a mutation that outranks a rank.
abbrev pub Recalls : Naming → Key → Entry → Rank → Type 0
Recalls n k e r =
    (o v : Text) → operation_event e o ≡ some v → compare_rank (n.rank_of k o) r ≢ Ordering.gt

abbrev pub NamedCell : Naming → Key → Cell → Type 0
NamedCell n k (none, f) = Unit {0}
NamedCell n k (some e, f) =
    (e.instance.lease_id ≡ n.lease e.instance.lease_epoch) × Recalls n k e (entry_rank e)

same_lease :
    (n : Naming) (k : Key) (m : Mutation) (e : Entry) (f : Option Fence)
    → IsNamed n k m
    → NamedCell n k (some e, f)
    → SameLease m e
same_lease n k m e f p c same =
    p.leased
    ∙ (ap n.lease (compare_version-IsLinear.same m.instance.lease_epoch e.instance.lease_epoch same)
        ∙ sym c.0)

not_above_self : (r : Rank) → compare_rank r r ≢ Ordering.gt
not_above_self r = ground (arith, compare_rank-IsLinear.self r)

seen_named : (e : Entry) (o v : Text) → operation_event e o ≡ some v → text_eq o [] ≡ false
unfolding operation_event
seen_named e o v h = ground (arith, h)

-- `Apply` of a named mutation raises the mark to its rank also where its operation was seen before.
pub mark-apply_named :
    (n : Naming) (pl : Platform) (k : Key) (m : Mutation) (now : Time) (c : Cell)
    → IsNamed n k m
    → NamedCell n k c
    → validate_mutation m ≡ none
    → IsFenced c
    → mark (apply_cell pl m now c) ≡ lift (mark c) (mutation_rank m)
mark-apply_named n pl k m now (none, f) p c v h = mark-apply_cell pl m now (none, f) v h tt
mark-apply_named n pl k m now (some e, f) p c v h =
    elim (Option-cases (operation_event e m.operation_id)) [
      | inl unseen ↦ mark-apply_cell pl m now (some e, f) v h (unseen, same_lease n k m e f p c)
      | inr (event_id, seen) ↦
          let below : compare_rank (mutation_rank m) (entry_rank e) ≢ Ordering.gt =
            subst (λ r. compare_rank r (entry_rank e) ≢ Ordering.gt)
              (p.operation (seen_named e m.operation_id event_id seen))
              (c.1 m.operation_id event_id seen) in
          unfold apply_cell mark lift in
          rw (seen, apply_cell)
            (ap some (sym (join_left compare_rank-IsLinear (entry_rank e) (mutation_rank m) below)))
    ]

-- An entry that remembers one more operation.
Recalls-remember :
    (n : Naming) (k : Key) (e : Entry) (o v : Text) (r : Rank)
    → Recalls n k e r
    → (text_eq o [] ≡ false → compare_rank (n.rank_of k o) r ≢ Ordering.gt)
    → Recalls n k (remember_operation e o v) r
unfolding is_present
Recalls-remember n k e o v r old new p w h = elim (Bool-cases (text_eq o p)) [
  | inl same ↦
      let here : o ≡ p = (text_eq_iff o p).0 same in
      let named = seen_named (remember_operation e o v) p w h in
      subst (λ q. compare_rank (n.rank_of k q) r ≢ Ordering.gt) here
        (new (subst (λ q. text_eq q [] ≡ false) (sym here) named))
  | inr other ↦ old p w (ground (arith, operation_event-remember e o v p, h, other))
]

rank_named :
    (n : Naming) (k : Key) (m : Mutation)
    → IsNamed n k m
    → text_eq m.operation_id [] ≡ false
    → compare_rank (n.rank_of k m.operation_id) (mutation_rank m) ≢ Ordering.gt
rank_named n k m p h =
    subst (λ r. compare_rank r (mutation_rank m) ≢ Ordering.gt) (sym (p.operation h))
      (not_above_self (mutation_rank m))

Recalls-empty : (n : Naming) (k : Key) (e : Entry) (r : Rank) → e.operations ≡ [] → Recalls n k e r
unfolding operation_event lookup
Recalls-empty n k e r h o v seen = absurd (ground (arith, h, seen))

created-Named :
    (n : Naming) (k : Key) (m : Mutation) (now : Time) (f : Option Fence)
    → IsNamed n k m
    → validate_mutation m ≡ none
    → NamedCell n k (some (created m now), f)
created-Named n k m now f p v = (
  unfold created in rw (rank-remember _ _ _).1 (unfold prepare_incoming clone in p.leased),
  rw (rank-created m now v).0 (
      unfold created in
      Recalls-remember n k _ m.operation_id m.event_id (mutation_rank m)
        (Recalls-empty n k _ (mutation_rank m) refl) (rank_named n k m p)),
)

Recalls-higher :
    (n : Naming) (k : Key) (e : Entry) (q r : Rank)
    → Recalls n k e q
    → compare_rank q r ≢ Ordering.gt
    → Recalls n k e r
Recalls-higher n k e q r old h o v seen =
    not-gt_trans compare_rank-IsLinear (n.rank_of k o) q r (old o v seen) h

-- The operations of an entry that is replaced are kept, or given up with its lease.
Recalls-inherit :
    (n : Naming) (k : Key) (e d : Entry) (b : Bool) (r : Rank)
    → d.operations ≡ (if b then [] else e.operations)
    → Recalls n k e r
    → Recalls n k d r
unfolding operation_event
Recalls-inherit n k e d true r h old o v seen = Recalls-empty n k d r h o v seen
Recalls-inherit n k e d false r h old o v seen = old o v (ground (arith, h, seen))

replacement-Named :
    (n : Naming) (pl : Platform) (k : Key) (m : Mutation) (e : Entry) (now : Time)
    (f : Option Fence)
    → IsNamed n k m
    → Recalls n k e (entry_rank e)
    → compare_incoming pl m e ≡ Ordering.gt
    → validate_mutation m ≡ none
    → NamedCell n k (some (replacement m e now), f)
replacement-Named n pl k m e now f p old more v =
    let below : compare_rank (entry_rank e) (mutation_rank m) ≢ Ordering.gt =
      ground (
        arith,
        wins-rank pl m e more,
        compare_rank-IsLinear.flip (entry_rank e) (mutation_rank m),
      ) in
    let kept = Recalls-higher n k e (entry_rank e) (mutation_rank m) old below in
    (
      unfold replacement in rw (rank-remember _ _ _).1 (unfold prepare_incoming clone in p.leased),
      rw (rank-replacement m e now v).0 (
          unfold replacement in
          Recalls-remember n k _ m.operation_id m.event_id (mutation_rank m)
            (Recalls-inherit n k e _ _ (mutation_rank m) refl kept) (rank_named n k m p)),
    )

equal-Named :
    (n : Naming) (pl : Platform) (k : Key) (m : Mutation) (e : Entry) (f : Option Fence)
    → IsNamed n k m
    → NamedCell n k (some e, f)
    → compare_incoming pl m e ≡ Ordering.eq
    → NamedCell n k (some (remember_operation e m.operation_id e.event_id), f)
equal-Named n pl k m e f p c equal =
    let below = loses-rank pl m e (same_lease n k m e f p c) (ground (arith, equal)) in
    let (r, i) = rank-remember e m.operation_id e.event_id in
    (
      rw i c.0,
      rw r (
          Recalls-remember n k e m.operation_id e.event_id (entry_rank e) c.1 (λ h.
            subst (λ q. compare_rank q (entry_rank e) ≢ Ordering.gt) (sym (p.operation h)) below)),
    )

pub apply_cell-Named :
    (n : Naming) (pl : Platform) (k : Key) (m : Mutation) (now : Time) (c : Cell)
    → IsNamed n k m
    → validate_mutation m ≡ none
    → NamedCell n k c
    → NamedCell n k (apply_cell pl m now c)
unfolding apply_cell
apply_cell-Named n pl k m now (none, f) p v c = elim (Bool-cases (fenced_off m f)) [
  | inl off ↦ rw off tt
  | inr on ↦ rw on (created-Named n k m now (fence_after m f) p v)
]
apply_cell-Named n pl k m now (some e, f) p v c =
    elim (Option-cases (operation_event e m.operation_id)) [
      | inr (w, seen) ↦ rw (seen, apply_cell) c
      | inl unseen ↦ elim (Ordering-cases (compare_incoming pl m e)) [
        | inl less ↦ rw (unseen, apply_cell, less) c
        | inr (inl same) ↦ rw (unseen, apply_cell, same) (equal-Named n pl k m e f p c same)
        | inr (inr more) ↦
            rw (unseen, apply_cell, more)
              (replacement-Named n pl k m e now (fence_after m f) p c.1 more v)
      ]
    ]

pub fence_cell-Named :
    (n : Naming) (k : Key) (f : Fence) (c : Cell)
    → NamedCell n k c
    → NamedCell n k (apply_fence_cell f c)
unfolding apply_fence_cell
fence_cell-Named n k f (none, g) c = ground arith
fence_cell-Named n k f (some e, g) c =
    elim (Bool-cases (not (fence_valid f) || entry_holds f (some e))) [
      | inl kept ↦ rw kept c
      | inr gone ↦ elim (Bool-cases (fence_holds f g)) [
        | inl held ↦ rw (gone, held) tt
        | inr beaten ↦ rw (gone, beaten) tt
      ]
    ]

delayed-Named :
    (n : Naming) (k : Key) (e : Entry) (at' : Time) (g : Option Fence)
    → entry_rank (delayed_entry e at') ≡ entry_rank e
    → NamedCell n k (some e, g)
    → NamedCell n k (some (delayed_entry e at'), g)
unfolding delayed_entry operation_event
delayed-Named n k e at' g same c = (c.0, rw same c.1)

pub delay_cell-Named :
    (n : Naming) (k : Key) (lease_id : Text) (expected : Version) (at' : Time) (c : Cell)
    → NamedCell n k c
    → NamedCell n k (delay_cell lease_id expected at' c)
unfolding delay_cell
delay_cell-Named n k lease_id expected at' (none, g) c = tt
delay_cell-Named n k lease_id expected at' (some e, g) c =
    elim (Bool-cases (delay_matches e lease_id expected)) [
      | inl ok ↦ rw ok (delayed-Named n k e at' g (delayed-rank e lease_id expected at' ok).0 c)
      | inr off ↦ rw off c
    ]

pub collect_cell-Named :
    (n : Naming) (k : Key) (now : Time) (retention : Duration) (c : Cell)
    → NamedCell n k c
    → NamedCell n k (collect_cell now retention c)
unfolding collect_cell
collect_cell-Named n k now retention (none, g) c = tt
collect_cell-Named n k now retention (some e, g) c =
    elim (Bool-cases (collectible now retention e)) [ inl gone ↦ rw gone tt | inr kept ↦ rw kept c ]
