-- ===== src/Tests/Shards.antt =====
-- The theorems on the registry's shards (backend/internal/registry) at concrete shards and calls.
use mini_eureka.Prelude.{List, [], ◌∷◌, ◌≡◌, refl, All, arith}
use mini_eureka.Prelude.Int.{pos}
use mini_eureka.Prelude.Text.{bytes, text_eq}
use mini_eureka.Model.Instance.{instance_key}
use mini_eureka.Model.Mutation.{Mutation}
use mini_eureka.Registry.Shard.{empty_shard}
use mini_eureka.Registry.Rank.{mutation_rank}
use mini_eureka.Registry.Cell.{cell}
use mini_eureka.Registry.Mark.{mark}
use mini_eureka.Registry.Run.{Call, apply_call, collect_call, step, run, ranks}
use mini_eureka.Registry.Shape.{IsGood}
use mini_eureka.Registry.Good.{IsNamed, Naming}
use mini_eureka.Registry.Keeps.{Names, lift_all, step-IsGood}
use mini_eureka.Registry.Converge.{mark-run, empty-IsGood, empty-NamedCell}
use mini_eureka.Tests.Data.{platform, one_lease, key_i, registration, removal}

-- A removal by a client, which names its operation.
abbrev client_removal : Mutation
client_removal = record removal { operation_id = bytes "o" }

abbrev register_call : Call
register_call = apply_call registration (pos 7)

abbrev remove_call : Call
remove_call = apply_call client_removal (pos 9)

-- The removal comes twice here, and with a collection there.
abbrev there : List Call
there = register_call ∷ remove_call ∷ remove_call ∷ []

abbrev back : List Call
back = remove_call ∷ register_call ∷ collect_call (pos 100) (pos 1) ∷ remove_call ∷ []

-- One lease, and one operation, which is the removal.
abbrev names : Naming
names = record { lease = one_lease; rank_of = λ k o. mutation_rank client_removal }

registration-IsNamed : IsNamed names key_i registration
unfolding text_eq
registration-IsNamed = record { leased = refl; operation = λ h. absurd (ground (arith, h)) }

removal-IsNamed : IsNamed names key_i client_removal
removal-IsNamed = record { leased = refl; operation = λ h. refl }

there-named : All (λ c. Names c names) there
unfolding instance_key
there-named = (registration-IsNamed, (removal-IsNamed, (removal-IsNamed, tt)))

mark-run_example :
    mark (cell (run platform there empty_shard) key_i)
    ≡ lift_all (mark (cell empty_shard key_i)) (ranks key_i there)
mark-run_example =
    mark-run names platform there empty_shard key_i there-named empty-IsGood
      (empty-NamedCell names key_i)

step-IsGood_example : IsGood (step platform remove_call empty_shard)
step-IsGood_example = step-IsGood platform remove_call empty_shard empty-IsGood
