-- ===== src/Registry/Exchange.antt =====
-- Anti-entropy: what a node exports of a key brings the receiver to the sender's state of it.
use mini_eureka.Prelude.{none, false, ◌≡◌, arith, ap, ◌∙◌}
use mini_eureka.Prelude.Time.{Time}
use mini_eureka.Model.Instance.{InstanceStatus, status_eq, terminal, clone}
use mini_eureka.Model.Mutation.{kind_terminal, validate_mutation}
use mini_eureka.Registry.Entry.{Entry}
use mini_eureka.Registry.Compare.{Platform}
use mini_eureka.Registry.Rank.{mutation_rank, entry_rank}
use mini_eureka.Registry.Cell.{Cell, apply_cell}
use mini_eureka.Registry.Mark.{IsFenced, Accepts, mark, lift}
use mini_eureka.Registry.Apply.{mark-apply_cell}
use mini_eureka.Registry.Query.{exported, authoritative}

-- For an entry that is terminal by its kind exactly if it is by its record, an export at any time
-- has the rank of the entry and never the local status DELAYED.
pub exported-rank :
    (now : Time) (e : Entry)
    → terminal e.instance ≡ kind_terminal e.kind
    → (mutation_rank (exported now e) ≡ entry_rank e)
      × (status_eq (exported now e).instance.status InstanceStatus.delayed ≡ false)
unfolding exported authoritative mutation_rank entry_rank clone status_eq
exported-rank now e h = (ground arith, ground arith)

-- A receiver for which the export of an entry is valid and acceptable (the invariant holds at the
-- key, and a lease epoch names one lease) has then the greater of its own mark and the entry's
-- rank, whatever the two wall clocks read; the entry is terminal by its kind exactly if it is by
-- its record.
pub mark-exchange :
    (pl : Platform) (sent received : Time) (e : Entry) (c : Cell)
    → terminal e.instance ≡ kind_terminal e.kind
    → validate_mutation (exported sent e) ≡ none
    → IsFenced c
    → Accepts (exported sent e) c
    → mark (apply_cell pl (exported sent e) received c) ≡ lift (mark c) (entry_rank e)
mark-exchange pl sent received e c h v f a =
    mark-apply_cell pl (exported sent e) received c v f a
    ∙ ap (lift (mark c)) (exported-rank sent e h).0
