-- ===== src/Registry/Query.antt =====
-- What the registry reads out of its shards: backend/internal/registry/query.go, and the exchange
-- of backend/internal/registry/digest.go. One shard is read under its lock.
use mini_eureka.Prelude.{
  ℕ, ◌+◌, if◌then◌else◌, Bool, true, false, not, ◌&&◌, ◌||◌, Option, none, some, List, [], ◌∷◌,
  ◌++◌, length, get_elem?, total, Ordering,
}
use mini_eureka.Prelude.Int.{ℤ, pos, max_ℤ, pos_part, ltb_ℤ, leb_ℤ}
use mini_eureka.Prelude.Order.{compare_pair}
use mini_eureka.Prelude.Text.{Text, compare_text, bytes}
use mini_eureka.Prelude.Time.{Time, is_zero_time, sub_time, milliseconds}
use mini_eureka.Prelude.Map.{Map, lookup, insert, text_key}
use mini_eureka.Prelude.Sort.{sort_on}
use mini_eureka.Model.Instance.{
  Instance, InstanceStatus, StatusReason, Key, clone, discoverable, status_eq, instance_key,
}
use mini_eureka.Model.Mutation.{Mutation, MutationKind, kind_eq}
use mini_eureka.Registry.Entry.{Entry, Fence}
use mini_eureka.Registry.Shard.{Shard, Instances, instances_of, find, key_key}

-- `Get`
unfoldable pub get : Shard → Text → Text → Option Instance
get s service instance_id =
    elim (find s (record { service = service; instance_id = instance_id })) [
      | none ↦ none
      | some e ↦ some (clone e.instance)
    ]

-- `CurrentEventID`
unfoldable pub current_event_id : Shard → Text → Text → Option Text
current_event_id s service instance_id =
    elim (find s (record { service = service; instance_id = instance_id })) [
      | none ↦ none
      | some e ↦ some e.event_id
    ]

-- `GetFence`
unfoldable pub get_fence : Shard → Key → Option Fence
get_fence s k = lookup k s.fences

unfoldable pub has_status : InstanceStatus → List InstanceStatus → Bool
unfolding status_eq
has_status s [] = false
has_status s (t ∷ ts) = status_eq s t || has_status s ts

-- The test of `List`: without statuses everything is allowed.
unfoldable pub is_allowed : List InstanceStatus → Instance → Bool
unfolding has_status
is_allowed [] i = true
is_allowed (s ∷ ss) i = has_status i.status (s ∷ ss)

abbrev pub instance_id_of : Instance → Text
instance_id_of i = i.instance_id

-- The loop of `List` over the instances of a service.
unfoldable pub listed : List InstanceStatus → Instances → List Instance
unfolding is_allowed
listed statuses [] = []
listed statuses ((i, e) ∷ m) =
    if is_allowed statuses e.instance
    then clone e.instance ∷ listed statuses m
    else listed statuses m

-- `List`
unfoldable pub list : Shard → Text → List InstanceStatus → List Instance
unfolding listed
list s service statuses =
    sort_on compare_text instance_id_of (listed statuses (instances_of service s.services))

-- `Discover`
unfoldable pub discover : Shard → Text → List Instance
discover s service = list s service (InstanceStatus.active ∷ InstanceStatus.delayed ∷ [])

-- By service, then by instance ID.
abbrev pub compare_key : Text × Text → Text × Text → Ordering
compare_key = compare_pair compare_text compare_text

abbrev pub service_key : Instance → Text × Text
service_key i = (i.service, i.instance_id)

-- The loops over the services of a shard.
unfoldable pub records_of : Map Text Instances → List Instance
unfolding listed
records_of [] = []
records_of ((service, instances) ∷ m) = listed [] instances ++ records_of m

unfoldable pub all_records : List Shard → List Instance
unfolding records_of
all_records [] = []
all_records (s ∷ ss) = records_of s.services ++ all_records ss

-- `Snapshot`
unfoldable pub snapshot : List Shard → List Instance
unfolding all_records
snapshot shards = sort_on compare_key service_key (all_records shards)

-- `shards[index]` of an int index, none when it is out of range.
abbrev pub shard_at : List Shard → ℤ → Option Shard
shard_at shards index =
    if ltb_ℤ index (pos 0) || leb_ℤ (pos (length shards)) index
    then none
    else get_elem? shards (pos_part index)

-- `SnapshotShard`
unfoldable pub snapshot_shard : List Shard → ℤ → Option (List Instance)
unfolding records_of
snapshot_shard shards index = elim (shard_at shards index) [
  | none ↦ none
  | some s ↦ some (sort_on compare_key service_key (records_of s.services))
]

-- `ServiceSummary`; the counts are ints, which no number of records can overflow.
pub record ServiceSummary : Type 0 where
  pub name : Text
  pub active : ℕ
  pub delayed : ℕ
  pub evicted : ℕ

abbrev pub summary_of : Text → Option ServiceSummary → ServiceSummary
summary_of name none = record { name = name; active = 0; delayed = 0; evicted = 0 }
summary_of name (some s) = record s { name = name }

unfoldable pub count_status : InstanceStatus → ServiceSummary → ServiceSummary
count_status InstanceStatus.active s = record s { active = s.active + 1 }
count_status InstanceStatus.delayed s = record s { delayed = s.delayed + 1 }
count_status InstanceStatus.evicted s = record s { evicted = s.evicted + 1 }
count_status (InstanceStatus.unknown t) s = s

-- The loop of `Services` over the snapshot.
unfoldable pub count_services : Map Text ServiceSummary → List Instance → Map Text ServiceSummary
unfolding count_status
count_services m [] = m
count_services m (i ∷ is) =
    count_services
      (insert i.service (count_status i.status (summary_of i.service (lookup i.service m))) m) is

abbrev pub summary_name : ServiceSummary → Text
summary_name s = s.name

unfoldable pub values : Map Text ServiceSummary → List ServiceSummary
values [] = []
values ((k, v) ∷ m) = v ∷ values m

-- `Services`
unfoldable pub services : List Shard → List ServiceSummary
unfolding snapshot count_services values
services shards = sort_on compare_text summary_name (values (count_services [] (snapshot shards)))

pub record Counts : Type 0 where
  pub services : ℕ
  pub instances : ℕ
  pub active : ℕ
  pub delayed : ℕ
  pub evicted : ℕ

-- `Counts`
unfoldable pub counts : List Shard → Counts
unfolding services
counts shards =
    let ss = services shards in
    let active = total (λ s. s.active) ss in
    let delayed = total (λ s. s.delayed) ss in
    let evicted = total (λ s. s.evicted) ss in
    record {
      services = length ss;
      instances = active + delayed + evicted;
      active = active;
      delayed = delayed;
      evicted = evicted;
    }

-- What remains of a lease when an entry is exported.
unfoldable pub remaining_ttl : Time → Instance → ℤ
remaining_ttl now i =
    if discoverable i && not (is_zero_time i.lease_deadline)
    then max_ℤ (milliseconds (sub_time i.lease_deadline now)) (pos 0)
    else pos 0

-- DELAYED is a local projection: the live state under it is exported.
unfoldable pub authoritative : Entry → Instance
unfolding status_eq kind_eq
authoritative e =
    let i = clone e.instance in
    if status_eq i.status InstanceStatus.delayed
    then record i {
      status = InstanceStatus.active;
      status_reason =
          if kind_eq e.kind MutationKind.register
          then StatusReason.registered
          else StatusReason.heartbeat_ok;
    }
    else i

-- One entry of `MutationsForShard`; it carries no operation ID.
unfoldable pub exported : Time → Entry → Mutation
unfolding authoritative remaining_ttl
exported now e = record {
  kind = e.kind;
  instance = authoritative e;
  event_id = e.event_id;
  operation_id = [];
  remaining_ttl_millis = remaining_ttl now e.instance;
}

-- `Key.String`
abbrev pub key_string : Key → Text
key_string k = k.service ++ (bytes "/" ++ k.instance_id)

abbrev pub mutation_key : Mutation → Text
mutation_key m = key_string (instance_key m.instance)

unfoldable pub export_instances : Time → Instances → List Mutation
unfolding exported
export_instances now [] = []
export_instances now ((i, e) ∷ m) = exported now e ∷ export_instances now m

unfoldable pub export_services : Time → Map Text Instances → List Mutation
unfolding export_instances
export_services now [] = []
export_services now ((service, instances) ∷ m) =
    export_instances now instances ++ export_services now m

-- `MutationsForShard`
unfoldable pub mutations_for_shard : Time → List Shard → ℤ → Option (List Mutation)
unfolding export_services
mutations_for_shard now shards index = elim (shard_at shards index) [
  | none ↦ none
  | some s ↦ some (sort_on compare_text mutation_key (export_services now s.services))
]

unfoldable pub export_shards : Time → List Shard → List Mutation
unfolding export_services
export_shards now [] = []
export_shards now (s ∷ ss) =
    sort_on compare_text mutation_key (export_services now s.services) ++ export_shards now ss

-- `Export`
unfoldable pub export : Time → List Shard → List Mutation
unfolding export_shards
export now shards = sort_on compare_text mutation_key (export_shards now shards)

abbrev fence_key : Fence → Text
fence_key f = key_string f.key

unfoldable pub fences_of : Map Key Fence → List Fence
fences_of [] = []
fences_of ((k, f) ∷ m) = f ∷ fences_of m

unfoldable pub all_fences : List Shard → List Fence
unfolding fences_of
all_fences [] = []
all_fences (s ∷ ss) = fences_of s.fences ++ all_fences ss

-- `Fences`
unfoldable pub fences : List Shard → List Fence
unfolding all_fences
fences shards = sort_on compare_text fence_key (all_fences shards)
