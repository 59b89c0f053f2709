-- ===== src/Registry/Converge.antt =====
-- Convergence: what a replica keeps of a key depends only on which mutations and fences reached
-- it, not on their order, nor on the delays and collections in between.
use mini_eureka.Prelude.{Option, List, [], ◌∷◌, ◌++◌, ◌≡◌, refl, ap, ◌∙◌, sym, All}
use mini_eureka.Prelude.Map.{Distinct, lookup}
use mini_eureka.Model.Instance.{Key}
use mini_eureka.Registry.Compare.{Platform}
use mini_eureka.Registry.Shard.{Shard, instances_of, find, empty_shard, key_key}
use mini_eureka.Registry.Rank.{Rank}
use mini_eureka.Registry.Cell.{cell}
use mini_eureka.Registry.Mark.{mark, lift}
use mini_eureka.Registry.Run.{Call, step, run, call_ranks, ranks}
use mini_eureka.Registry.Good.{Naming, NamedCell}
use mini_eureka.Registry.Shape.{IsGood}
use mini_eureka.Registry.Keeps.{Names, lift_all, step-Kept, step-IsGood}

lift_all-append :
    (o : Option Rank) (xs ys : List Rank) → lift_all o (xs ++ ys) ≡ lift_all (lift_all o xs) ys
unfolding lift_all
lift_all-append o [] ys = refl
lift_all-append o (x ∷ xs) ys = lift_all-append (lift o x) xs ys

-- A run of calls on a good shard raises the mark of a key by exactly the ranks of the valid mutations
-- and fences that its calls bring to the key, in their order, whatever the collections and delays
-- between them. The names are consistent: the mutations, and what the entry at the key already holds,
-- name one lease for each lease epoch, and an operation ID stands at a key for mutations of one rank.
pub mark-run :
    (n : Naming) (pl : Platform) (cs : List Call) (s : Shard) (j : Key)
    → All (λ c. Names c n) cs
    → IsGood s
    → NamedCell n j (cell s j)
    → mark (cell (run pl cs s) j) ≡ lift_all (mark (cell s j)) (ranks j cs)
unfolding run ranks
mark-run n pl [] s j p g c = unfold lift_all in refl
mark-run n pl (call ∷ cs) s j p g c =
    let (named, marked) = (step-Kept pl call s j g).named n p.0 c in
    mark-run n pl cs (step pl call s) j p.1 (step-IsGood pl call s g) named
    ∙ (ap (λ o. lift_all o (ranks j cs)) marked
        ∙ sym (lift_all-append (mark (cell s j)) (call_ranks j call) (ranks j cs)))

-- The empty shard, which every node starts from, is good.
pub empty-IsGood : IsGood empty_shard
unfolding cell find Distinct instances_of lookup
empty-IsGood = record { maps = (tt, tt); fenced = λ k. tt }

-- It holds nothing whose names could be amiss.
pub empty-NamedCell : (n : Naming) (j : Key) → NamedCell n j (cell empty_shard j)
unfolding cell find instances_of lookup
empty-NamedCell n j = tt
