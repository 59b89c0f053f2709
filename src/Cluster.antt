-- ===== src/Cluster.antt =====
-- backend/internal/cluster/table.go: the membership table and the local failure detector. Each
-- method is one step under the table's lock; the wall clock's readings are arguments, and the
-- change hook is the list of members that a method returns as changed.
pub mod Order
pub mod Edges
use mini_eureka.Prelude.{
  ℕ, ◌+◌, ◌*◌, ◌%◌, ◌^◌, Ordering, ◌==◌, ltb, if◌then◌else◌, Bool, true, false, not, ◌&&◌, ◌||◌,
  Option, none, some, List, [], ◌∷◌, keep,
}
use mini_eureka.Prelude.Int.{ℤ, pos, ltb_ℤ, leb_ℤ}
use mini_eureka.Prelude.Order.{is_gt}
use mini_eureka.Prelude.Text.{Text, text_eq, compare_text}
use mini_eureka.Prelude.Sort.{sort_on}
use mini_eureka.Prelude.Time.{Time, Duration, sub_time, second}
use mini_eureka.Prelude.Map.{Map, insert, lookup, text_key}
use mini_eureka.Model.Version.{Version, compare_version, is_zero}
use mini_eureka.Model.Member.{
  Member, MemberStatus, member_status_valid, member_status_eq, member_priority,
}
use mini_eureka.Clock.{Hlc, now, zero_version}

-- `peerState`
pub record PeerState : Type 0 where
  pub member : Member
  pub last_ok : Option Time
  pub latency : Duration

-- `Table`, with the clock that it shares with the node.
pub record Table : Type 0 where
  pub self_id : Text
  pub clock : Hlc
  pub suspicion : Duration
  pub dead : Duration
  pub members : Map Text PeerState

abbrev pub seconds : ℕ → Duration
seconds n = pos (n * second)

-- `NewTable`
unfoldable pub new_table : Member → Hlc → Duration → Duration → Table
new_table self hlc suspicion dead =
    let suspicion' = if leb_ℤ suspicion (pos 0) then seconds 5 else suspicion in
    record {
      self_id = self.node_id;
      clock = hlc;
      suspicion = suspicion';
      dead = if leb_ℤ dead suspicion' then seconds 15 else dead;
      members = (self.node_id, record { member = self; last_ok = none; latency = pos 0 }) ∷ [];
    }

-- `compareMember`
unfoldable pub compare_member : Member → Member → Ordering
compare_member a b =
    if ltb a.incarnation b.incarnation
    then Ordering.lt
    else if ltb b.incarnation a.incarnation
    then Ordering.gt
    else elim (compare_version a.version b.version) [
      | Ordering.lt ↦ Ordering.lt
      | Ordering.gt ↦ Ordering.gt
      | Ordering.eq ↦
          if ltb (member_priority a.status) (member_priority b.status)
          then Ordering.lt
          else if ltb (member_priority b.status) (member_priority a.status)
          then Ordering.gt
          else Ordering.eq
    ]

-- The guard of `Merge`.
unfoldable pub member_valid : Member → Bool
member_valid m = not (
    text_eq m.node_id []
    || text_eq m.boot_id []
    || not (member_status_valid m.status)
    || m.incarnation == 0
    || is_zero m.version)

unfoldable pub is_alive : Member → Bool
is_alive m = member_status_eq m.status MemberStatus.alive

abbrev pub zero_member : Member
zero_member = record {
  node_id = [];
  boot_id = [];
  http_address = [];
  gossip_address = [];
  status = MemberStatus.unknown [];
  incarnation = 0;
  last_seen_at = pos 0;
  version = zero_version;
}

abbrev pub zero_state : PeerState
zero_state = record { member = zero_member; last_ok = none; latency = pos 0 }

abbrev pub state_or_zero : Option PeerState → PeerState
state_or_zero none = zero_state
state_or_zero (some p) = p

-- The self entry once it has refuted a rumour; the incarnation is a uint64.
unfoldable pub refuted : PeerState → Member → Version → Time → PeerState
refuted self incoming version wall = record self {
  member = record self.member {
    incarnation = (incoming.incarnation + 1) % 2 ^ 64;
    status = MemberStatus.alive;
    version = version;
    last_seen_at = wall;
  };
  last_ok = some wall;
}

-- `refute`
unfoldable pub refute : Table → Member → Time → Table × (Member × Bool)
unfolding refuted
refute t incoming wall =
    let self = state_or_zero (lookup t.self_id t.members) in
    let (clock, version) = now t.clock wall in
    let next = refuted self incoming version wall in
    if ltb incoming.incarnation self.member.incarnation then (t, (self.member, false)) else (
      record t { clock = clock; members = insert t.self_id next t.members },
      (next.member, true),
    )

-- The state of a peer that takes over an incoming member.
unfoldable pub next_state : Member → Option PeerState → PeerState
unfolding is_alive
next_state incoming current = record {
  member = incoming;
  last_ok =
      if is_alive incoming then some incoming.last_seen_at else (state_or_zero current).last_ok;
  latency = (state_or_zero current).latency;
}

-- `exists && compareMember(incoming, current) <= 0`
unfoldable pub is_outdated : Member → Option PeerState → Bool
is_outdated incoming none = false
is_outdated incoming (some p) = not (is_gt (compare_member incoming p.member))

-- `Merge`: the table, the effective member and whether the table changed.
unfoldable pub merge : Table → Member → Time → Table × (Member × Bool)
unfolding is_alive member_valid refute next_state is_outdated
merge t incoming wall =
    if not (member_valid incoming)
    then (t, (zero_member, false))
    else if text_eq incoming.node_id t.self_id && not (is_alive incoming)
    then refute t incoming wall
    else if is_outdated incoming (lookup incoming.node_id t.members)
    then (t, ((state_or_zero (lookup incoming.node_id t.members)).member, false))
    else let next = next_state incoming (lookup incoming.node_id t.members) in
      (record t { members = insert incoming.node_id next t.members }, (next.member, true))

seen_alive :
    Option PeerState → Bool → Time → Duration → Map Text PeerState → Text → Map Text PeerState
seen_alive none alive at' latency members id = members
seen_alive (some p) alive at' latency members id =
    if alive
    then insert id
        (record p {
          last_ok = some at';
          latency = latency;
          member = record p.member { last_seen_at = at' };
        })
        members
    else members

-- `ObserveAlive`: the merge of the member as ALIVE, then a second step under the lock.
unfoldable pub observe_alive : Table → Member → Duration → Time → Time → Table × (Member × Bool)
unfolding merge seen_alive is_alive
observe_alive t m latency at' wall =
    let (t', (effective, changed)) =
      merge t (record m { status = MemberStatus.alive; last_seen_at = at' }) wall in
    (
      record t' {
        members =
            seen_alive (lookup m.node_id t'.members) (is_alive effective) at' latency t'.members
              m.node_id;
      },
      (effective, changed),
    )

-- The status that the failure detector gives a peer that has been silent for `age`.
unfoldable pub detected : Table → MemberStatus → Duration → MemberStatus
detected t status age =
    if leb_ℤ t.dead age
    then MemberStatus.dead
    else if leb_ℤ t.suspicion age && member_status_eq status MemberStatus.alive
    then MemberStatus.suspect
    else status

-- One member in the loop of `Tick`: the clock, the state, and whether it changed. `wall` is what
-- the clock reads if it is asked.
unfoldable pub tick_one : Table → Hlc → Time → Time → Text → PeerState → Hlc × (PeerState × Bool)
unfolding detected
tick_one t c at' wall id p =
    let next = detected t p.member.status (sub_time at' p.member.last_seen_at) in
    let (c', version) = now c wall in
    if text_eq id t.self_id || member_status_eq p.member.status MemberStatus.dead
    then (c, (p, false))
    else if member_status_eq next p.member.status
    then (c, (p, false))
    else (
      c',
      (
        record p {
          member = record p.member {
            status = next;
            version = record version { origin_node_id = t.self_id };
          };
        },
        true,
      ),
    )

-- The loop of `Tick`: the clock, the members and those that changed.
unfoldable pub tick_all :
    Table → Hlc → Time → Time → Map Text PeerState → Hlc × (Map Text PeerState × List Member)
unfolding tick_one
tick_all t c at' wall [] = (c, ([], []))
tick_all t c at' wall ((id, p) ∷ m) =
    let (c', (p', changed)) = tick_one t c at' wall id p in
    let (c'', (rest, members)) = tick_all t c' at' wall m in
    (c'', ((id, p') ∷ rest, if changed then p'.member ∷ members else members))

-- `Tick`. One reading of the wall clock stands for those of the whole round.
unfoldable pub tick : Table → Time → Time → Table × List Member
unfolding tick_all
tick t at' wall =
    let (c, (members, changed)) = tick_all t t.clock at' wall t.members in
    (record t { clock = c; members = members }, changed)

-- `Get`: the zero member where the node is unknown.
unfoldable pub get_member : Table → Text → Member × Bool
get_member t id = elim (lookup id t.members) [
  | none ↦ (zero_member, false)
  | some p ↦ (p.member, true)
]

abbrev member_id : Member → Text
member_id m = m.node_id

unfoldable pub members_of : Map Text PeerState → List Member
members_of [] = []
members_of ((id, p) ∷ m) = p.member ∷ members_of m

-- `Snapshot`
unfoldable pub snapshot_members : Table → List Member
unfolding members_of
snapshot_members t = sort_on compare_text member_id (members_of t.members)

-- `AlivePeers`
unfoldable pub alive_peers : Table → List Member
unfolding snapshot_members is_alive
alive_peers t = keep (λ m. not (text_eq m.node_id t.self_id) && is_alive m) (snapshot_members t)

-- `Self`
unfoldable pub self_member : Table → Member
unfolding get_member
self_member t = (get_member t t.self_id).0
