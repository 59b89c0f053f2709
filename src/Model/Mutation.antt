-- ===== src/Model/Mutation.antt =====
-- backend/internal/model/mutation.go: what nodes replicate.
use mini_eureka.Prelude.{ℕ, if◌then◌else◌, Bool, true, false, not, ◌||◌, Option, none}
use mini_eureka.Prelude.Int.{ℤ, pos, negsuc, ltb_ℤ}
use mini_eureka.Prelude.Text.{Text, text_eq}
use mini_eureka.Model.Error.{Error, invalid, ◌orelse◌, validate_opaque_id}
use mini_eureka.Model.Instance.{
  Instance, InstanceStatus, StatusReason, validate_instance, status_eq, reason_eq,
}

pub data MutationKind : Type 0 where
  register heartbeat delayed ttl_expire deregister demo_offline : MutationKind
  unknown : Text → MutationKind

unfoldable pub kind_valid : MutationKind → Bool
kind_valid (MutationKind.unknown s) = false
kind_valid _ = true

-- `MutationKind.ExplicitlyTerminal`
unfoldable pub kind_terminal : MutationKind → Bool
kind_terminal MutationKind.deregister = true
kind_terminal MutationKind.demo_offline = true
kind_terminal _ = false

-- `MutationKind.Priority`
unfoldable pub priority : MutationKind → ℤ
priority MutationKind.deregister = pos 4
priority MutationKind.demo_offline = pos 4
priority MutationKind.ttl_expire = pos 3
priority MutationKind.heartbeat = pos 2
priority MutationKind.register = pos 1
priority MutationKind.delayed = pos 0
priority (MutationKind.unknown s) = negsuc 0

unfoldable pub kind_eq : MutationKind → MutationKind → Bool
kind_eq MutationKind.register MutationKind.register = true
kind_eq MutationKind.heartbeat MutationKind.heartbeat = true
kind_eq MutationKind.delayed MutationKind.delayed = true
kind_eq MutationKind.ttl_expire MutationKind.ttl_expire = true
kind_eq MutationKind.deregister MutationKind.deregister = true
kind_eq MutationKind.demo_offline MutationKind.demo_offline = true
kind_eq (MutationKind.unknown s) (MutationKind.unknown t) = text_eq s t
kind_eq _ _ = false

pub record Mutation : Type 0 where
  pub kind : MutationKind
  pub instance : Instance
  pub event_id : Text
  pub operation_id : Text
  pub remaining_ttl_millis : ℤ

-- The status and the reason that a kind asks for; an unknown kind leaves the initial values.
unfoldable pub wanted : MutationKind → InstanceStatus × StatusReason
wanted MutationKind.heartbeat = (InstanceStatus.active, StatusReason.heartbeat_ok)
wanted MutationKind.delayed = (InstanceStatus.delayed, StatusReason.heartbeat_delayed)
wanted MutationKind.ttl_expire = (InstanceStatus.evicted, StatusReason.ttl_expired)
wanted MutationKind.deregister = (InstanceStatus.evicted, StatusReason.deregistered)
wanted MutationKind.demo_offline = (InstanceStatus.evicted, StatusReason.demo_offline)
wanted _ = (InstanceStatus.active, StatusReason.registered)

unfoldable pub validate_mutation_state : Mutation → Option Error
unfolding wanted status_eq reason_eq
validate_mutation_state m =
    if not (status_eq m.instance.status (wanted m.kind).0)
      || not (reason_eq m.instance.status_reason (wanted m.kind).1)
    then invalid "record.status" "invalid_state"
    else none

abbrev pub max_event_id_length : ℕ
max_event_id_length = 192

abbrev pub max_operation_id_length : ℕ
max_operation_id_length = 128

-- `Mutation.Validate`
unfoldable pub validate_mutation : Mutation → Option Error
unfolding kind_valid
validate_mutation m =
    (if not (kind_valid m.kind) then invalid "kind" "invalid_enum" else none)
    orelse validate_opaque_id "event_id" m.event_id max_event_id_length true
    orelse validate_opaque_id "operation_id" m.operation_id max_operation_id_length false
    orelse (if ltb_ℤ m.remaining_ttl_millis (pos 0)
        then invalid "remaining_ttl_ms" "out_of_range"
        else none)
    orelse validate_instance m.instance
    orelse validate_mutation_state m
