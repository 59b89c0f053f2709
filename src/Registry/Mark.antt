-- ===== src/Registry/Mark.antt =====
-- What a node keeps of a key for conflict resolution: the rank of its entry, or of its fence once
-- the entry is collected.
use mini_eureka.Prelude.{Ordering, true, false, Option, none, some, ◌≡◌, ◌≢◌}
use mini_eureka.Prelude.Order.{join}
use mini_eureka.Model.Mutation.{Mutation}
use mini_eureka.Registry.Entry.{operation_event}
use mini_eureka.Registry.Rank.{Rank, compare_rank, entry_rank, fence_rank, SameLease}
use mini_eureka.Registry.Cell.{Cell, is_evicted}

unfoldable pub mark : Cell → Option Rank
mark (some e, f) = some (entry_rank e)
mark (none, some f) = some (fence_rank f)
mark (none, none) = none

-- The greater of a mark and a rank.
unfoldable pub lift : Option Rank → Rank → Option Rank
lift none r = some r
lift (some q) r = some (join compare_rank q r)

-- A fence never outranks the entry at its key, and a tombstone has a fence of its own rank.
abbrev pub IsFenced : Cell → Type 0
IsFenced (none, f) = Unit {0}
IsFenced (some e, none) = is_evicted e.instance ≡ false
IsFenced (some e, some f) =
    (compare_rank (fence_rank f) (entry_rank e) ≢ Ordering.gt)
    × (is_evicted e.instance ≡ true → fence_rank f ≡ entry_rank e)

-- The mutation carries no operation that the entry has seen, and a lease epoch names one lease.
abbrev pub Accepts : Mutation → Cell → Type 0
Accepts m (none, f) = Unit {0}
Accepts m (some e, f) = (operation_event e m.operation_id ≡ none) × SameLease m e
