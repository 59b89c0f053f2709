-- ===== src/Registry/Rank.antt =====
-- The four comparisons of backend/internal/registry/apply.go read one rank off a state.
use mini_eureka.Prelude.{Ordering, Bool, true, ◌≡◌, ◌≢◌, arith}
use mini_eureka.Prelude.Int.{ℤ, compare_ℤ}
use mini_eureka.Prelude.Order.{
  is_gt, IsLinear, compare_pair, compare_pair-IsLinear, compare_Bool, compare_Bool-IsLinear,
  compare_ℤ-IsLinear,
}
use mini_eureka.Prelude.Text.{Text, text_eq_iff, compare_text, compare_text-IsLinear}
use mini_eureka.Model.Version.{Version, compare_version, compare_version-IsLinear}
use mini_eureka.Model.Instance.{terminal}
use mini_eureka.Model.Mutation.{Mutation, MutationKind, kind_terminal, kind_eq, priority}
use mini_eureka.Registry.Entry.{Entry, Fence}
use mini_eureka.Registry.Compare.{
  Platform, compare_incoming, incoming_beats_fence, compare_fence_to_entry, compare_fences,
}

-- Lease epoch, whether explicitly terminal, version, priority of the kind, event: in the order in
-- which they decide.
abbrev pub Rank : Type 0
Rank = Version × (Bool × (Version × (ℤ × Text)))

unfoldable pub compare_rank : Rank → Rank → Ordering
compare_rank =
    compare_pair compare_version (
      compare_pair compare_Bool
        (compare_pair compare_version (compare_pair compare_ℤ compare_text)))

pub compare_rank-IsLinear : IsLinear compare_rank
unfolding compare_rank
compare_rank-IsLinear = compare_pair-IsLinear compare_version-IsLinear (
    compare_pair-IsLinear compare_Bool-IsLinear (
      compare_pair-IsLinear compare_version-IsLinear
        (compare_pair-IsLinear compare_ℤ-IsLinear compare_text-IsLinear)))

unfoldable pub mutation_rank : Mutation → Rank
mutation_rank m = (
  m.instance.lease_epoch,
  (kind_terminal m.kind, (m.instance.version, (priority m.kind, m.event_id))),
)

unfoldable pub entry_rank : Entry → Rank
entry_rank e = (
  e.instance.lease_epoch,
  (terminal e.instance, (e.instance.version, (priority e.kind, e.event_id))),
)

unfoldable pub fence_rank : Fence → Rank
fence_rank f = (f.lease_epoch, (kind_terminal f.kind, (f.version, (priority f.kind, f.event_id))))

pub compare_fences-rank :
    (a b : Fence) → compare_fences a b ≡ compare_rank (fence_rank a) (fence_rank b)
unfolding compare_fences compare_rank fence_rank
compare_fences-rank a b = ground arith

-- `compareFenceToEntry` is the linear order of ranks: lease epoch, then whether explicitly
-- terminal, then version, then priority of the kind, then event.
pub compare_fence_to_entry-rank :
    (f : Fence) (e : Entry)
    → compare_fence_to_entry f e ≡ compare_rank (fence_rank f) (entry_rank e)
unfolding compare_fence_to_entry compare_rank fence_rank entry_rank
compare_fence_to_entry-rank f e = ground arith

-- `incomingBeatsFence` says that the mutation's rank is greater than the fence's, in the linear
-- order of ranks: lease epoch, then whether explicitly terminal, then version, then priority of
-- the kind, then event.
pub incoming_beats_fence-rank :
    (m : Mutation) (f : Fence)
    → incoming_beats_fence m f ≡ is_gt (compare_rank (mutation_rank m) (fence_rank f))
unfolding incoming_beats_fence compare_rank mutation_rank fence_rank
incoming_beats_fence-rank m f = ground arith

priority_same : (a b : MutationKind) → kind_eq a b ≡ true → priority a ≡ priority b
unfolding kind_eq priority
priority_same a b h = ground arith

-- A lease epoch belongs to one lease.
abbrev pub SameLease : Mutation → Entry → Type 0
SameLease m e =
    compare_version m.instance.lease_epoch e.instance.lease_epoch ≡ Ordering.eq
    → m.instance.lease_id ≡ e.instance.lease_id

-- What wins has no lesser rank.
pub wins-rank :
    (pl : Platform) (m : Mutation) (e : Entry)
    → compare_incoming pl m e ≡ Ordering.gt
    → compare_rank (mutation_rank m) (entry_rank e) ≢ Ordering.lt
unfolding compare_incoming compare_rank mutation_rank entry_rank
wins-rank pl m e h = ground (arith)

-- A mutation that `compareIncoming` does not let win over an entry has no greater rank, if a lease
-- epoch belongs to one lease.
pub loses-rank :
    (pl : Platform) (m : Mutation) (e : Entry)
    → SameLease m e
    → compare_incoming pl m e ≢ Ordering.gt
    → compare_rank (mutation_rank m) (entry_rank e) ≢ Ordering.gt
unfolding compare_incoming compare_rank mutation_rank entry_rank
loses-rank pl m e same h = ground (
  arith,
  priority_same m.kind e.kind,
  text_eq_iff m.event_id e.event_id,
  text_eq_iff m.instance.lease_id e.instance.lease_id,
  compare_text-IsLinear.self m.event_id,
)
