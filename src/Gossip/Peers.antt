-- ===== src/Gossip/Peers.antt =====
-- Pings and their acknowledgements: `handlePing` and `handleAck` of
-- backend/internal/gossip/engine.go, with the membership table that the engine shares.
use mini_eureka.Prelude.{
  if◌then◌else◌, true, Option, none, some, List, [], ◌∷◌, ◌≡◌, arith, refl, Bool-cases, inl, inr,
}
use mini_eureka.Prelude.Int.{pos}
use mini_eureka.Prelude.Text.{Text, text_eq, text_eq_iff}
use mini_eureka.Prelude.Time.{Time, Duration}
use mini_eureka.Prelude.Map.{lookup, text_key, lookup-insert}
use mini_eureka.Model.Member.{Member}
use mini_eureka.Registry.Shard.{Shard}
use mini_eureka.Registry.Digest.{DigestEntry, ShardDigest, digests}
use mini_eureka.Cluster.{Table, merge, observe_alive, snapshot_members}
use mini_eureka.Gossip.Engine.{
  Engine, digests_for_round, members_for_round, needs_sync, take_ack, trigger_sync,
}

-- `PingPayload`; `AckPayload` has the message that it answers as well.
pub record PingPayload : Type 0 where
  pub self : Member
  pub members : List Member
  pub digests : List ShardDigest

-- `mergeMembers`
unfoldable pub merge_members : List Member → Time → Table → Table
merge_members [] wall t = t
merge_members (m ∷ ms) wall t = merge_members ms wall (merge t m wall).0

-- What a handler leaves, the member that it asks for its registry, and what it sends: the digests of
-- an acknowledgement and the members.
pub record Heard : Type 0 where
  pub engine : Engine
  pub table : Table
  pub asked : Option Member
  pub digests : List ShardDigest
  pub members : List Member

-- `if e.needsSync(digests) { e.triggerSync(nodeID) }`
unfoldable pub sync_if_needed :
    (List DigestEntry → Text) → List Shard → PingPayload → Table → Engine → Engine × Option Member
sync_if_needed hash shards p t e =
    if needs_sync hash shards p.digests e then trigger_sync t p.self.node_id e else (e, none)

-- The members that a payload brings to the table, its sender first.
unfoldable pub hear : PingPayload → Duration → Time → Table → Table
unfolding merge_members
hear p latency wall t = merge_members p.members wall (observe_alive t p.self latency wall wall).0

-- `handlePing`: the acknowledgement takes its digests after the decision to synchronise.
unfoldable pub handle_ping :
    (List DigestEntry → Text) → List Shard → PingPayload → Time → Table → Engine → Heard
unfolding sync_if_needed hear
handle_ping hash shards p wall t e =
    let t' = hear p (pos 0) wall t in
    let (e1, asked) = sync_if_needed hash shards p t' e in
    let (e2, answered) = digests_for_round (digests hash shards) e1 in
    let (e3, members) = members_for_round (snapshot_members t') e2 in
    record { engine = e3; table = t'; asked = asked; digests = answered; members = members }

-- `handleAck`
unfoldable pub handle_ack :
    (List DigestEntry → Text) → List Shard → PingPayload → Text → Time → Table → Engine → Heard
unfolding sync_if_needed hear
handle_ack hash shards p reply_to wall t e =
    let (e1, latency) = take_ack reply_to wall e in
    let t' = hear p latency wall t in
    let (e2, asked) = sync_if_needed hash shards p t' e1 in
    record { engine = e2; table = t'; asked = asked; digests = []; members = [] }

-- A peer that is being asked for its registry.
abbrev IsAsked : Text → Engine → Type 0
IsAsked id e = lookup id e.syncing ≡ some true

trigger_sync-IsAsked :
    (id node_id : Text) (t : Table) (e : Engine)
    → IsAsked id e
    → (text_eq node_id id ≡ true → (trigger_sync t node_id e).1 ≡ none)
      × IsAsked id (trigger_sync t node_id e).0
unfolding trigger_sync
trigger_sync-IsAsked id node_id t e h = (
  λ same. ground (arith, h, (text_eq_iff node_id id).0 same),
  ground (arith, h, lookup-insert node_id id true e.syncing),
)

sync_if_needed-IsAsked :
    (id : Text) (hash : List DigestEntry → Text) (shards : List Shard) (p : PingPayload) (t : Table)
    (e : Engine)
    → IsAsked id e
    → (text_eq p.self.node_id id ≡ true → (sync_if_needed hash shards p t e).1 ≡ none)
      × IsAsked id (sync_if_needed hash shards p t e).0
unfolding sync_if_needed
sync_if_needed-IsAsked id hash shards p t e h =
    elim (Bool-cases (needs_sync hash shards p.digests e)) [
      | inl needed ↦ rw needed (trigger_sync-IsAsked id p.self.node_id t e h)
      | inr agreed ↦ rw agreed ((λ same. refl), h)
    ]

-- A peer that is being asked for its registry is not asked by a ping or an acknowledgement that comes
-- from it meanwhile, whatever digests it has, and goes on being asked after any ping or
-- acknowledgement: there is at most one synchronisation with a peer at a time.
pub handle_ping-IsAsked :
    (id : Text) (hash : List DigestEntry → Text) (shards : List Shard) (p : PingPayload)
    (reply_to : Text) (wall : Time) (t : Table) (e : Engine)
    → lookup id e.syncing ≡ some true
    → (text_eq p.self.node_id id ≡ true
        → ((handle_ping hash shards p wall t e).asked ≡ none)
          × ((handle_ack hash shards p reply_to wall t e).asked ≡ none))
      × (lookup id (handle_ping hash shards p wall t e).engine.syncing ≡ some true)
      × (lookup id (handle_ack hash shards p reply_to wall t e).engine.syncing ≡ some true)
unfolding handle_ping handle_ack digests_for_round members_for_round take_ack
handle_ping-IsAsked id hash shards p reply_to wall t e h =
    let pinged = sync_if_needed-IsAsked id hash shards p (hear p (pos 0) wall t) e h in
    let (e1, latency) = take_ack reply_to wall e in
    let acked = sync_if_needed-IsAsked id hash shards p (hear p latency wall t) e1 h in
    ((λ same. (pinged.0 same, acked.0 same)), pinged.1, acked.1)
