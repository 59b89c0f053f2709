-- ===== src/Registry/Run.antt =====
-- A replica's life: the calls that reach a shard, in the order of its lock.
use mini_eureka.Prelude.{Bool, true, false, if◌then◌else◌, none, some, List, [], ◌∷◌, ◌++◌}
use mini_eureka.Prelude.Time.{Time, Duration}
use mini_eureka.Prelude.Text.{Text}
use mini_eureka.Model.Error.{Result, ok, err, wrapped, text}
use mini_eureka.Model.Version.{Version}
use mini_eureka.Model.Instance.{Key, instance_key}
use mini_eureka.Model.Mutation.{Mutation, validate_mutation}
use mini_eureka.Registry.Entry.{Fence}
use mini_eureka.Registry.Compare.{Platform}
use mini_eureka.Registry.Shard.{Shard, ApplyResult, apply_shard, key_eq}
use mini_eureka.Registry.Lifecycle.{apply_fence_shard, fence_valid, mark_delayed, gc}
use mini_eureka.Registry.Rank.{Rank, mutation_rank, fence_rank}

-- `Apply` on the shard of the mutation's service: the validation, then the step under the lock.
unfoldable pub apply : Platform → Mutation → Time → Shard → Shard × Result ApplyResult
apply pl m now s = elim (validate_mutation m) [
  | some e ↦ (s, err (wrapped (text "apply mutation") e))
  | none ↦ ((apply_shard pl m now s).0, ok (apply_shard pl m now s).1)
]

-- One call that may change a shard.
pub data Call : Type 0 where
  apply_call : Mutation → Time → Call
  fence_call : Fence → Call
  delay_call : Key → Text → Version → Time → Call
  collect_call : Time → Duration → Call

unfoldable pub step : Platform → Call → Shard → Shard
unfolding apply
step pl (apply_call m now) s = (apply pl m now s).0
step pl (fence_call f) s = (apply_fence_shard f s).0
step pl (delay_call k lease_id expected at') s = (mark_delayed k lease_id expected at' s).0
step pl (collect_call now retention) s = (gc now retention s).0

-- The calls in order.
unfoldable pub run : Platform → List Call → Shard → Shard
unfolding step
run pl [] s = s
run pl (c ∷ cs) s = run pl cs (step pl c s)

abbrev pub is_valid : Mutation → Bool
is_valid m = elim (validate_mutation m) [ none ↦ true | some e ↦ false ]

-- The ranks that a call brings to a key: those of valid mutations and fences of that key.
unfoldable pub call_ranks : Key → Call → List Rank
call_ranks j (apply_call m now) =
    if is_valid m
    then (if key_eq (instance_key m.instance) j then mutation_rank m ∷ [] else [])
    else []
call_ranks j (fence_call f) =
    if fence_valid f then (if key_eq f.key j then fence_rank f ∷ [] else []) else []
call_ranks j (delay_call k lease_id expected at') = []
call_ranks j (collect_call now retention) = []

unfoldable pub ranks : Key → List Call → List Rank
unfolding call_ranks
ranks j [] = []
ranks j (c ∷ cs) = call_ranks j c ++ ranks j cs
