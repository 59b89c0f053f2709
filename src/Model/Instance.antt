-- ===== src/Model/Instance.antt =====
-- backend/internal/model/instance.go: the registry value, its enumerations and its validation.
use mini_eureka.Prelude.{
  ℕ, ltb, ◌==◌, if◌then◌else◌, Bool, true, false, not, ◌&&◌, ◌||◌, Option, none, some, [], ◌∷◌,
  length,
}
use mini_eureka.Prelude.Int.{ℤ, pos, ltb_ℤ}
use mini_eureka.Prelude.Text.{Text, text_eq}
use mini_eureka.Prelude.Map.{Map}
use mini_eureka.Prelude.Utf8.{runes, is_control}
use mini_eureka.Prelude.Time.{Time, is_zero_time}
use mini_eureka.Model.Error.{
  Error, validate_identifier, validate_opaque_id, validate_host, invalid, wrap, ◌orelse◌, has_rune,
}
use mini_eureka.Model.Version.{Version, validate_version, max_node_id_length}

-- `InstanceStatus` is a string; a decoded value may be none of the three constants.
pub data InstanceStatus : Type 0 where
  active delayed evicted : InstanceStatus
  unknown : Text → InstanceStatus

pub data StatusReason : Type 0 where
  registered heartbeat_ok heartbeat_delayed ttl_expired deregistered demo_offline : StatusReason
  unknown : Text → StatusReason

pub data Protocol : Type 0 where
  http https grpc tcp : Protocol
  unknown : Text → Protocol

unfoldable pub status_valid : InstanceStatus → Bool
status_valid (InstanceStatus.unknown s) = false
status_valid _ = true

unfoldable pub reason_valid : StatusReason → Bool
reason_valid (StatusReason.unknown s) = false
reason_valid _ = true

unfoldable pub protocol_valid : Protocol → Bool
protocol_valid (Protocol.unknown s) = false
protocol_valid _ = true

-- `==` on the string types.
unfoldable pub status_eq : InstanceStatus → InstanceStatus → Bool
status_eq InstanceStatus.active InstanceStatus.active = true
status_eq InstanceStatus.delayed InstanceStatus.delayed = true
status_eq InstanceStatus.evicted InstanceStatus.evicted = true
status_eq (InstanceStatus.unknown s) (InstanceStatus.unknown t) = text_eq s t
status_eq _ _ = false

unfoldable pub reason_eq : StatusReason → StatusReason → Bool
reason_eq StatusReason.registered StatusReason.registered = true
reason_eq StatusReason.heartbeat_ok StatusReason.heartbeat_ok = true
reason_eq StatusReason.heartbeat_delayed StatusReason.heartbeat_delayed = true
reason_eq StatusReason.ttl_expired StatusReason.ttl_expired = true
reason_eq StatusReason.deregistered StatusReason.deregistered = true
reason_eq StatusReason.demo_offline StatusReason.demo_offline = true
reason_eq (StatusReason.unknown s) (StatusReason.unknown t) = text_eq s t
reason_eq _ _ = false

-- `StatusReason.Terminal`
unfoldable pub terminal_reason : StatusReason → Bool
terminal_reason StatusReason.deregistered = true
terminal_reason StatusReason.demo_offline = true
terminal_reason _ = false

pub record Key : Type 0 where
  pub service : Text
  pub instance_id : Text

abbrev pub max_service_length : ℕ
max_service_length = 128

abbrev pub max_instance_id_length : ℕ
max_instance_id_length = 128

unfoldable pub validate_key : Key → Option Error
validate_key k =
    validate_identifier "service" k.service max_service_length
    orelse validate_identifier "instance_id" k.instance_id max_instance_id_length

-- `Instance`. A `nil` metadata map is `none`; `*time.Time` is an optional time.
pub record Instance : Type 0 where
  pub service : Text
  pub instance_id : Text
  pub registration_id : Text
  pub host : Text
  pub port : ℤ
  pub protocol : Protocol
  pub metadata : Option (Map Text Text)
  pub status : InstanceStatus
  pub status_reason : StatusReason
  pub generation : ℕ
  pub lease_id : Text
  pub lease_epoch : Version
  pub version : Version
  pub origin_node_id : Text
  pub registered_at : Time
  pub last_heartbeat_at : Time
  pub updated_at : Time
  pub evicted_at : Option Time
  pub demo : Bool
  pub lease_deadline : Time
  pub last_remaining_ttl_ms : ℤ

-- `Instance.Key`
unfoldable pub instance_key : Instance → Key
instance_key i = record { service = i.service; instance_id = i.instance_id }

unfoldable pub discoverable : Instance → Bool
unfolding status_eq
discoverable i =
    status_eq i.status InstanceStatus.active || status_eq i.status InstanceStatus.delayed

-- `Instance.ExplicitlyTerminal`
unfoldable pub terminal : Instance → Bool
unfolding status_eq terminal_reason
terminal i = status_eq i.status InstanceStatus.evicted && terminal_reason i.status_reason

clone_metadata : Option (Map Text Text) → Option (Map Text Text)
clone_metadata none = some []
clone_metadata (some m) = some m

-- `Instance.Clone`: values do not share, so only the nil map changes.
unfoldable pub clone : Instance → Instance
unfolding clone_metadata
clone i = record i { metadata = clone_metadata i.metadata }

abbrev pub max_metadata_items : ℕ
max_metadata_items = 32

abbrev pub max_metadata_key_length : ℕ
max_metadata_key_length = 64

abbrev pub max_metadata_value_length : ℕ
max_metadata_value_length = 256

entries : Option (Map Text Text) → Map Text Text
entries none = []
entries (some m) = m

validate_metadata_key : Text → Option Error
unfolding has_rune
validate_metadata_key key = elim (runes key) [
  | none ↦ invalid "metadata" "invalid_key"
  | some rs ↦
      if text_eq key [] || ltb max_metadata_key_length (length rs)
      then invalid "metadata" "invalid_key"
      else if has_rune is_control rs
      then invalid "metadata" "invalid_key"
      else none
]

validate_metadata_value : Text → Option Error
validate_metadata_value value = elim (runes value) [
  | none ↦ invalid "metadata" "invalid_value"
  | some rs ↦
      if ltb max_metadata_value_length (length rs) then invalid "metadata" "invalid_value" else none
]

-- The `range` over the metadata.
validate_metadata : Map Text Text → Option Error
unfolding validate_metadata_key validate_metadata_value
validate_metadata [] = none
validate_metadata ((key, value) ∷ m) =
    validate_metadata_key key orelse validate_metadata_value value orelse validate_metadata m

abbrev check : Bool → Option Error → Option Error
check b e = if b then e else none

is_some : Option Time → Bool
is_some none = false
is_some (some t) = true

abbrev pub max_registration_length : ℕ
max_registration_length = 128

abbrev pub max_lease_id_length : ℕ
max_lease_id_length = 128

-- `Instance.Validate`
unfoldable pub validate_instance : Instance → Option Error
unfolding instance_key entries validate_metadata is_some status_valid reason_valid protocol_valid
    status_eq
validate_instance i =
    validate_key (instance_key i)
    orelse validate_opaque_id "registration_id" i.registration_id max_registration_length true
    orelse validate_host i.host
    orelse check (ltb_ℤ i.port (pos 1) || ltb_ℤ (pos 65535) i.port) (invalid "port" "out_of_range")
    orelse check (not (protocol_valid i.protocol)) (invalid "protocol" "invalid_enum")
    orelse check (ltb max_metadata_items (length (entries i.metadata)))
        (invalid "metadata" "too_many_items")
    orelse validate_metadata (entries i.metadata)
    orelse check (not (status_valid i.status)) (invalid "status" "invalid_enum")
    orelse check (not (reason_valid i.status_reason)) (invalid "status_reason" "invalid_enum")
    orelse check (i.generation == 0) (invalid "generation" "out_of_range")
    orelse validate_opaque_id "lease_id" i.lease_id max_lease_id_length true
    orelse wrap "lease_epoch" (validate_version i.lease_epoch)
    orelse wrap "version" (validate_version i.version)
    orelse validate_identifier "origin_node_id" i.origin_node_id max_node_id_length
    orelse check (is_zero_time i.registered_at || is_zero_time i.updated_at)
        (invalid "timestamps" "required")
    orelse check (is_zero_time i.last_heartbeat_at) (invalid "last_heartbeat_at" "required")
    orelse check (status_eq i.status InstanceStatus.evicted && not (is_some i.evicted_at))
        (invalid "evicted_at" "required")
    orelse check (not (status_eq i.status InstanceStatus.evicted) && is_some i.evicted_at)
        (invalid "evicted_at" "invalid_state")
