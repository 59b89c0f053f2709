-- ===== src/Registry/Entry.antt =====
-- backend/internal/registry/registry.go: the entries of a shard and their window of operation IDs.
use mini_eureka.Prelude.{
  ℕ, ◌==◌, if◌then◌else◌, Bool, true, false, Option, none, some, List, [], ◌∷◌, ◌++◌, length,
}
use mini_eureka.Prelude.Text.{Text, text_eq}
use mini_eureka.Prelude.Map.{Map, lookup, insert, delete, text_key}
use mini_eureka.Model.Version.{Version}
use mini_eureka.Model.Instance.{Instance, Key}
use mini_eureka.Model.Mutation.{MutationKind}

-- `defaultOperationWindow`
abbrev pub operation_window : ℕ
operation_window = 32

-- `entry`; a nil map of operations reads as an empty one.
pub record Entry : Type 0 where
  pub instance : Instance
  pub kind : MutationKind
  pub event_id : Text
  pub operations : Map Text Text
  pub operation_order : List Text

pub record Fence : Type 0 where
  pub key : Key
  pub lease_epoch : Version
  pub version : Version
  pub kind : MutationKind
  pub event_id : Text
  pub generation : ℕ

-- `operationEvent`
unfoldable pub operation_event : Entry → Text → Option Text
operation_event e operation_id =
    if text_eq operation_id [] then none else lookup operation_id e.operations

unfoldable pub drop_first : List Text → List Text
drop_first [] = []
drop_first (x ∷ xs) = xs

-- The oldest operation, which a full window gives up.
unfoldable pub forget_first : List Text → Map Text Text → Map Text Text
forget_first [] m = m
forget_first (x ∷ xs) m = delete x m

unfoldable pub is_present : Option Text → Bool
is_present none = false
is_present (some v) = true

-- `rememberOperation`
unfoldable pub remember_operation : Entry → Text → Text → Entry
unfolding drop_first forget_first is_present
remember_operation e operation_id event_id =
    if text_eq operation_id []
    then e
    else if is_present (lookup operation_id e.operations)
    then e
    else if length e.operation_order == operation_window
    then record e {
      operations = insert operation_id event_id (forget_first e.operation_order e.operations);
      operation_order = drop_first e.operation_order ++ (operation_id ∷ []);
    }
    else record e {
      operations = insert operation_id event_id e.operations;
      operation_order = e.operation_order ++ (operation_id ∷ []);
    }
