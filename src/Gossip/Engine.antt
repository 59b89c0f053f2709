-- ===== src/Gossip/Engine.antt =====
-- The gossip engine of backend/internal/gossip/engine.go: its state under its lock, the queue of
-- mutations to spread, what a round sends, and when a peer is asked for its registry.
use mini_eureka.Prelude.{
  ℕ, zero, suc, ◌+◌, ◌*◌, ◌%◌, leb, if◌then◌else◌, Bool, true, false, not, ◌&&◌, ◌||◌, Option, none,
  some, List, [], ◌∷◌, ◌++◌, length, get_or, map,
}
use mini_eureka.Prelude.Int.{ℤ, pos, leb_ℤ, ltb_ℤ, ◌-ℤ◌}
use mini_eureka.Prelude.Text.{Text, text_eq, bytes}
use mini_eureka.Prelude.Time.{Time, Duration, second, sub_time}
use mini_eureka.Prelude.Map.{Map, lookup, insert, delete, text_key}
use mini_eureka.Model.Error.{text}
use mini_eureka.Model.Member.{Member}
use mini_eureka.Model.Mutation.{Mutation, MutationKind, kind_eq}
use mini_eureka.Registry.Shard.{Shard}
use mini_eureka.Registry.Digest.{DigestEntry, ShardDigest, digest}
use mini_eureka.Cluster.{Table, get_member, alive_peers}
use mini_eureka.Gossip.Pages.{SyncOutcome}

-- `EngineConfig`
pub record EngineConfig : Type 0 where
  pub node_id : Text
  pub advertise_address : Text
  pub seeds : List Text
  pub fanout : ℤ
  pub interval : Duration
  pub anti_entropy_interval : Duration
  pub pending_rounds : ℤ

-- `traceMeta`
pub record TraceMeta : Type 0 where
  pub hop : ℤ
  pub origin_node_id : Text
  pub origin_address : Text
  pub trace : Bool

-- `pendingMutation`
pub record Pending : Type 0 where
  pub mutation : Mutation
  pub meta : TraceMeta
  pub rounds : ℤ

-- What `Engine` keeps under its lock, and whether it is ready.
pub record Engine : Type 0 where
  pub config : EngineConfig
  pub pending : Map Text Pending
  pub incoming_meta : Map Text TraceMeta
  pub pings : Map Text Time
  pub syncing : Map Text Bool
  pub digest_cursor : ℕ
  pub member_cursor : ℕ
  pub ready : Bool

-- The defaults of `NewEngine`.
unfoldable pub with_engine_defaults : EngineConfig → EngineConfig
with_engine_defaults c = record c {
  fanout = if leb_ℤ c.fanout (pos 0) then pos 3 else c.fanout;
  interval = if leb_ℤ c.interval (pos 0) then pos second else c.interval;
  anti_entropy_interval =
      if leb_ℤ c.anti_entropy_interval (pos 0) then pos (10 * second) else c.anti_entropy_interval;
  pending_rounds = if leb_ℤ c.pending_rounds (pos 0) then pos 8 else c.pending_rounds;
}

abbrev is_empty : {A : Type 0} → List A → Bool
is_empty [] = true
is_empty (x ∷ xs) = false

-- `NewEngine`
unfoldable pub new_engine : EngineConfig → Engine
unfolding with_engine_defaults
new_engine c = record {
  config = with_engine_defaults c;
  pending = [];
  incoming_meta = [];
  pings = [];
  syncing = [];
  digest_cursor = 0;
  member_cursor = 0;
  ready = is_empty c.seeds;
}

-- The trace of a mutation that this node makes.
unfoldable pub own_meta : EngineConfig → Mutation → TraceMeta
unfolding kind_eq
own_meta c m = record {
  hop = pos 1;
  origin_node_id = c.node_id;
  origin_address = c.advertise_address;
  trace = kind_eq m.kind MutationKind.demo_offline;
}

abbrev pub meta_or : TraceMeta → Option TraceMeta → TraceMeta
meta_or own none = own
meta_or own (some meta) = meta

-- The queue's entry for a mutation, beside the one that it has under the same event ID.
unfoldable pub queued : EngineConfig → Mutation → TraceMeta → Option Pending → Pending
queued c m meta none = record { mutation = m; meta = meta; rounds = c.pending_rounds }
queued c m meta (some current) = record current {
  meta = if ltb_ℤ (pos 0) meta.hop && ltb_ℤ meta.hop current.meta.hop then meta else current.meta;
  rounds = c.pending_rounds;
}

-- `Enqueue`
unfoldable pub enqueue : Mutation → Engine → Engine
unfolding queued own_meta
enqueue m e =
    let meta = meta_or (own_meta e.config m) (lookup m.event_id e.incoming_meta) in
    record e {
      incoming_meta = delete m.event_id e.incoming_meta;
      pending = insert m.event_id (queued e.config m meta (lookup m.event_id e.pending)) e.pending;
    }

-- The loop of `pendingForRound`: what is left of the queue, and what the round sends.
unfoldable pub spend : Map Text Pending → Map Text Pending × List Pending
spend [] = ([], [])
spend ((id, p) ∷ m) =
    let (rest, sent) = spend m in
    let left = p.rounds -ℤ pos 1 in
    (if leb_ℤ left (pos 0) then rest else (id, record p { rounds = left }) ∷ rest, p ∷ sent)

-- `pendingForRound`
unfoldable pub pending_for_round : Engine → Engine × List Pending
unfolding spend
pending_for_round e = (record e { pending = (spend e.pending).0 }, (spend e.pending).1)

-- The `width` items of a list from an index on, past its end from its start again.
unfoldable pub window : {A : Type 0} → A → List A → ℕ → ℕ → List A
window d all start zero = []
window d all start (suc width) = get_or all (start % length all) d ∷ window d all (start + 1) width

-- The cursor arithmetic that `digestsForRound` and `membersForRound` share: what the round takes of
-- a list, and the next cursor. The first member stands for an index that is in range.
unfoldable pub take_round : {A : Type 0} → ℕ → List A → ℕ → List A × ℕ
unfolding window
take_round per_round [] cursor = ([], cursor)
take_round per_round (a ∷ others) cursor =
    let all = a ∷ others in
    if leb (length all) per_round
    then (all, cursor)
    else (window a all (cursor % length all) per_round, (cursor + per_round) % length all)

-- `digestsForRound`
unfoldable pub digests_for_round : List ShardDigest → Engine → Engine × List ShardDigest
unfolding take_round
digests_for_round all e =
    let (taken, cursor) = take_round 2 all e.digest_cursor in
    (record e { digest_cursor = cursor }, taken)

-- `membersForRound`
unfoldable pub members_for_round : List Member → Engine → Engine × List Member
unfolding take_round
members_for_round all e =
    let (taken, cursor) = take_round 4 all e.member_cursor in
    (record e { member_cursor = cursor }, taken)

-- `hasDigestMismatch`
unfoldable pub has_digest_mismatch :
    (List DigestEntry → Text) → List Shard → List ShardDigest → Bool
unfolding digest
has_digest_mismatch hash shards [] = false
has_digest_mismatch hash shards (d ∷ ds) =
    let rest = has_digest_mismatch hash shards ds in
    elim (digest hash shards d.shard) [
      | none ↦ true
      | some local ↦ if text_eq local.sha256 d.sha256 then rest else true
    ]

-- `needsSync`
unfoldable pub needs_sync :
    (List DigestEntry → Text) → List Shard → List ShardDigest → Engine → Bool
unfolding has_digest_mismatch
needs_sync hash shards remote e = not e.ready || has_digest_mismatch hash shards remote

-- `recordSyncResult`
unfoldable pub record_sync_result : SyncOutcome → Engine → Engine × Bool
record_sync_result SyncOutcome.synced e = (record e { ready = true }, true)
record_sync_result _ e = (e, false)

abbrev is_syncing : Option Bool → Bool
is_syncing none = false
is_syncing (some b) = b

-- `triggerSync` until it starts the synchronisation: the member to ask, none where it does not.
unfoldable pub trigger_sync : Table → Text → Engine → Engine × Option Member
trigger_sync t node_id e =
    let (member, ok') = get_member t node_id in
    if not ok' || text_eq member.http_address [] || is_syncing (lookup node_id e.syncing)
    then (e, none)
    else (record e { syncing = insert node_id true e.syncing }, some member)

-- What the synchronisation that `triggerSync` has started does at its end.
unfoldable pub finish_sync : Text → SyncOutcome → Engine → Engine
unfolding record_sync_result
finish_sync node_id outcome e =
    let (e', success) = record_sync_result outcome e in
    record e' { syncing = delete node_id e'.syncing }

-- A ping that is sent, and the acknowledgement of one, in `sendPing` and `handleAck`: the latency,
-- zero without the ping.
unfoldable pub note_ping : Text → Time → Engine → Engine
note_ping id now e = record e { pings = insert id now e.pings }

unfoldable pub take_ack : Text → Time → Engine → Engine × Duration
take_ack id now e = (
  record e { pings = delete id e.pings },
  elim (lookup id e.pings) [ none ↦ pos 0 | some sent ↦ sub_time now sent ],
)

-- The loops of `targets`: the IDs of the living peers, then the seeds that are at none of their
-- addresses, nor at this node's.
unfoldable pub has_address : Text → List Member → Bool
has_address a [] = false
has_address a (m ∷ ms) = text_eq m.gossip_address a || has_address a ms

unfoldable pub seed_targets : Text → List Member → List Text → List Text
unfolding has_address
seed_targets own peers [] = []
seed_targets own peers (seed ∷ seeds) =
    if text_eq seed own || has_address seed peers
    then seed_targets own peers seeds
    else (text "seed:" ++ seed) ∷ seed_targets own peers seeds

abbrev node_id_of : Member → Text
node_id_of m = m.node_id

-- `targets`
unfoldable pub targets : Table → Engine → List Text
unfolding seed_targets
targets t e =
    let peers = alive_peers t in
    map node_id_of peers ++ seed_targets e.config.advertise_address peers e.config.seeds

-- `key[5:]` of a longer key that starts with "seed:".
unfoldable pub seed_of : Text → Option Text
seed_of (a ∷ b ∷ c ∷ d ∷ s ∷ r ∷ rest) =
    if text_eq (a ∷ b ∷ c ∷ d ∷ s ∷ []) (bytes "seed:") then some (r ∷ rest) else none
seed_of _ = none

-- `peerTarget`
pub record PeerTarget : Type 0 where
  pub id : Text
  pub address : Text
  pub http : Text

-- `targetFor`
unfoldable pub target_for : Table → Text → PeerTarget
unfolding seed_of
target_for t key = elim (seed_of key) [
  | some address ↦ record { id = key; address = address; http = [] }
  | none ↦
      let (member, ok') = get_member t key in
      if ok'
      then record {
        id = member.node_id;
        address = member.gossip_address;
        http = member.http_address;
      }
      else record { id = []; address = []; http = [] }
]
