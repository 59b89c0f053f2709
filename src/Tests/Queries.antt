-- ===== src/Tests/Queries.antt =====
-- The theorems on queries and exports (backend/internal/registry) at concrete shards.
use mini_eureka.Prelude.{none, ◌≡◌, refl}
use mini_eureka.Prelude.Int.{pos}
use mini_eureka.Prelude.Text.{text_eq}
use mini_eureka.Prelude.Utf8.{runes, is_control, is_space}
use mini_eureka.Model.Error.{validate_identifier, validate_opaque_id, validate_host}
use mini_eureka.Model.Version.{validate_version}
use mini_eureka.Model.Instance.{discoverable, terminal, clone, validate_instance, validate_key}
use mini_eureka.Model.Mutation.{kind_terminal, validate_mutation, validate_mutation_state}
use mini_eureka.Registry.Rank.{entry_rank}
use mini_eureka.Registry.Cell.{apply_cell}
use mini_eureka.Registry.Mark.{mark, lift}
use mini_eureka.Registry.Query.{exported}
use mini_eureka.Registry.Exchange.{mark-exchange}
use mini_eureka.Tests.Data.{platform, held_entry}

held-terminal : terminal held_entry.instance ≡ kind_terminal held_entry.kind
unfolding terminal kind_terminal
held-terminal = refl

held-exports : validate_mutation (exported (pos 1) held_entry) ≡ none
unfolding validate_mutation validate_opaque_id text_eq validate_identifier runes is_control is_space
    validate_instance validate_key validate_host validate_version validate_mutation_state exported
    discoverable clone
held-exports = refl

mark-exchange_example :
    mark (apply_cell platform (exported (pos 1) held_entry) (pos 7) (none, none))
    ≡ lift (mark (none, none)) (entry_rank held_entry)
mark-exchange_example =
    mark-exchange platform (pos 1) (pos 7) held_entry (none, none) held-terminal held-exports tt tt
