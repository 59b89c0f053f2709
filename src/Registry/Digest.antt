-- ===== src/Registry/Digest.antt =====
-- The digest of a shard: `Digest` and `Digests` of backend/internal/registry/digest.go. What hashes
-- the entries (encoding/json, SHA-256 and hexadecimal) is a parameter.
use mini_eureka.Prelude.{ℕ, if◌then◌else◌, Option, none, some, List, [], ◌∷◌, ◌++◌, length, suc}
use mini_eureka.Prelude.Int.{ℤ, pos}
use mini_eureka.Prelude.Text.{Text, compare_text}
use mini_eureka.Prelude.Map.{Map}
use mini_eureka.Prelude.Sort.{sort_on}
use mini_eureka.Model.Version.{Version}
use mini_eureka.Model.Instance.{InstanceStatus, StatusReason, Key, status_eq}
use mini_eureka.Model.Mutation.{MutationKind}
use mini_eureka.Registry.Entry.{Entry, Fence}
use mini_eureka.Registry.Shard.{Shard, Instances, find}
use mini_eureka.Registry.Query.{key_string, shard_at}

-- `State` of a `digestEntry`: "LIVE", the reason of an eviction, or "FENCE".
pub data DigestState : Type 0 where
  live : DigestState
  evicted : StatusReason → DigestState
  fenced : DigestState

-- `digestEntry`
pub record DigestEntry : Type 0 where
  pub key : Key
  pub lease_epoch : Version
  pub version : Version
  pub generation : ℕ
  pub state : DigestState
  pub kind : MutationKind
  pub event_id : Text

-- `ShardDigest`
pub record ShardDigest : Type 0 where
  pub shard : ℤ
  pub revision : ℕ
  pub entries : ℕ
  pub sha256 : Text

unfoldable pub digest_entry : Text → Text → Entry → DigestEntry
unfolding status_eq
digest_entry service instance_id e = record {
  key = record { service = service; instance_id = instance_id };
  lease_epoch = e.instance.lease_epoch;
  version = e.instance.version;
  generation = e.instance.generation;
  state =
      if status_eq e.instance.status InstanceStatus.evicted
      then DigestState.evicted e.instance.status_reason
      else DigestState.live;
  kind = e.kind;
  event_id = e.event_id;
}

unfoldable pub instance_digests : Text → Instances → List DigestEntry
unfolding digest_entry
instance_digests service [] = []
instance_digests service ((i, e) ∷ m) = digest_entry service i e ∷ instance_digests service m

unfoldable pub service_digests : Map Text Instances → List DigestEntry
unfolding instance_digests
service_digests [] = []
service_digests ((service, instances) ∷ m) = instance_digests service instances ++ service_digests m

-- The loop over the fences, which leaves out those of a retained entry.
unfoldable pub fence_digests : Shard → Map Key Fence → List DigestEntry
fence_digests s [] = []
fence_digests s ((k, f) ∷ m) =
    let rest = fence_digests s m in
    elim (find s k) [
      | some e ↦ rest
      | none ↦
          record {
            key = k;
            lease_epoch = f.lease_epoch;
            version = f.version;
            generation = f.generation;
            state = DigestState.fenced;
            kind = f.kind;
            event_id = f.event_id;
          }
          ∷ rest
    ]

abbrev digest_key : DigestEntry → Text
digest_key e = key_string e.key

-- What the hash of a shard is taken of.
unfoldable pub digest_entries : Shard → List DigestEntry
unfolding service_digests fence_digests
digest_entries s =
    sort_on compare_text digest_key (service_digests s.services ++ fence_digests s s.fences)

unfoldable pub digest_shard : (List DigestEntry → Text) → ℤ → Shard → ShardDigest
unfolding digest_entries
digest_shard hash index s = record {
  shard = index;
  revision = s.revision;
  entries = length (digest_entries s);
  sha256 = hash (digest_entries s);
}

-- `Digest`
unfoldable pub digest : (List DigestEntry → Text) → List Shard → ℤ → Option ShardDigest
unfolding digest_shard
digest hash shards index = elim (shard_at shards index) [
  | none ↦ none
  | some s ↦ some (digest_shard hash index s)
]

unfoldable pub digests_from : (List DigestEntry → Text) → ℕ → List Shard → List ShardDigest
unfolding digest_shard
digests_from hash index [] = []
digests_from hash index (s ∷ ss) =
    digest_shard hash (pos index) s ∷ digests_from hash (suc index) ss

-- `Digests`
unfoldable pub digests : (List DigestEntry → Text) → List Shard → List ShardDigest
unfolding digests_from
digests hash shards = digests_from hash 0 shards
