-- ===== src/Cluster/Order.antt =====
-- The order of members that `Merge` follows, and what it makes of the table.
use mini_eureka.Prelude.{
  ℕ, ◌+◌, ◌^◌, ◌<◌, ◌≤◌, Ordering, compare, if◌then◌else◌, Bool, true, false, Option, none, some,
  ◌≡◌, arith, refl, ◌⊎◌,
}
use mini_eureka.Prelude.Order.{
  IsLinear, compare_pair, compare_pair-IsLinear, compare-IsLinear, join,
}
use mini_eureka.Prelude.Text.{Text, text_eq, text_eq_iff}
use mini_eureka.Prelude.Time.{Time}
use mini_eureka.Prelude.Map.{Map, insert, lookup, lookup-insert, text_key}
use mini_eureka.Model.Version.{Version, compare_version, compare_version-IsLinear}
use mini_eureka.Model.Member.{Member, member_status_eq, member_priority}
use mini_eureka.Clock.{now}
use mini_eureka.Cluster.{
  PeerState, Table, compare_member, member_valid, is_alive, merge, refute, refuted, next_state,
  is_outdated, state_or_zero,
}

-- Incarnation, version, status: in the order in which they decide.
abbrev pub MemberRank : Type 0
MemberRank = ℕ × (Version × ℕ)

unfoldable pub member_rank : Member → MemberRank
member_rank m = (m.incarnation, (m.version, member_priority m.status))

unfoldable pub compare_member_rank : MemberRank → MemberRank → Ordering
compare_member_rank = compare_pair compare (compare_pair compare_version compare)

pub compare_member_rank-IsLinear : IsLinear compare_member_rank
unfolding compare_member_rank
compare_member_rank-IsLinear =
    compare_pair-IsLinear compare-IsLinear
      (compare_pair-IsLinear compare_version-IsLinear compare-IsLinear)

pub compare_member-rank :
    (a b : Member) → compare_member a b ≡ compare_member_rank (member_rank a) (member_rank b)
unfolding compare_member compare_member_rank member_rank
compare_member-rank a b = ground arith

-- The rank that a table has for a node.
unfoldable pub known_rank : Table → Text → Option MemberRank
known_rank t id = elim (lookup id t.members) [ none ↦ none | some p ↦ some (member_rank p.member) ]

unfoldable pub lift_member : Option MemberRank → MemberRank → Option MemberRank
lift_member none r = some r
lift_member (some q) r = some (join compare_member_rank q r)

abbrev rank_of : Option PeerState → Option MemberRank
rank_of none = none
rank_of (some p) = some (member_rank p.member)

known_rank-rank_of : (t : Table) (id : Text) → known_rank t id ≡ rank_of (lookup id t.members)
unfolding known_rank
known_rank-rank_of t id = refl

abbrev merged_members : Table → Member → Map Text PeerState
merged_members t m =
    let current = lookup m.node_id t.members in
    if is_outdated m current then t.members else insert m.node_id (next_state m current) t.members

member-next_state : (m : Member) (c : Option PeerState) → (next_state m c).member ≡ m
unfolding next_state
member-next_state m c = refl

merge-members :
    (t : Table) (m : Member) (wall : Time)
    → member_valid m ≡ true
    → (text_eq m.node_id t.self_id ≡ false) ⊎ (is_alive m ≡ true)
    → (merge t m wall).0.members ≡ merged_members t m
unfolding merge
merge-members t m wall v h = ground arith

-- The rank at the rumour's own node.
own_rank :
    (m : Member) (current : Option PeerState)
    → (if is_outdated m current then rank_of current else some (member_rank m))
      ≡ lift_member (rank_of current) (member_rank m)
unfolding is_outdated lift_member join
own_rank m none = refl
own_rank m (some p) = ground (arith, compare_member-rank m p.member)

-- A valid rumour that `Merge` does not refute raises what the table knows of its node to the
-- rumour's rank, never lowers it, and changes nothing for any other node.
pub known_rank-merge :
    (t : Table) (m : Member) (wall : Time) (id : Text)
    → member_valid m ≡ true
    → (text_eq m.node_id t.self_id ≡ false) ⊎ (is_alive m ≡ true)
    → known_rank (merge t m wall).0 id ≡ (
        if text_eq m.node_id id
        then lift_member (known_rank t m.node_id) (member_rank m)
        else known_rank t id)
known_rank-merge t m wall id v h = ground (
  arith,
  known_rank-rank_of (merge t m wall).0 id,
  known_rank-rank_of t id,
  known_rank-rank_of t m.node_id,
  merge-members t m wall v h,
  own_rank m (lookup m.node_id t.members),
  lookup-insert m.node_id id (next_state m (lookup m.node_id t.members)) t.members,
  member-next_state m (lookup m.node_id t.members),
  text_eq_iff m.node_id id,
)

alive_at : Option PeerState → Bool
alive_at none = false
alive_at (some p) = is_alive p.member

-- Whether the table's own node is known and ALIVE.
unfoldable pub self_alive : Table → Bool
unfolding alive_at
self_alive t = alive_at (lookup t.self_id t.members)

refute_merge :
    (t : Table) (m : Member) (wall : Time) (self : PeerState)
    → lookup t.self_id t.members ≡ some self
    → member_valid m ≡ true
    → m.node_id ≡ t.self_id
    → is_alive m ≡ false
    → self.member.incarnation ≤ m.incarnation
    → (merge t m wall).1 ≡ ((refuted self m (now t.clock wall).1 wall).member, true)
unfolding merge refute
refute_merge t m wall self k v e d i = ground (arith, text_eq_iff m.node_id t.self_id)

refuted-alive :
    (self : PeerState) (m : Member) (v : Version) (wall : Time)
    → is_alive (refuted self m v wall).member ≡ true
unfolding is_alive refuted member_status_eq
refuted-alive self m v wall = refl

refute-self_alive :
    (t : Table) (m : Member) (wall : Time)
    → self_alive t ≡ true
    → self_alive (refute t m wall).0 ≡ true
unfolding refute self_alive
refute-self_alive t m wall s =
    let self = state_or_zero (lookup t.self_id t.members) in
    let next = refuted self m (now t.clock wall).1 wall in
    ground (
      arith,
      lookup-insert t.self_id t.self_id next t.members,
      text_eq_iff t.self_id t.self_id,
      refuted-alive self m (now t.clock wall).1 wall,
    )

adopt-self_alive :
    (t : Table) (m : Member)
    → self_alive t ≡ true
    → (text_eq m.node_id t.self_id ≡ false) ⊎ (is_alive m ≡ true)
    → self_alive (record t {
      members = insert m.node_id (next_state m (lookup m.node_id t.members)) t.members;
    })
      ≡ true
unfolding self_alive
adopt-self_alive t m s h = ground (
  arith,
  lookup-insert m.node_id t.self_id (next_state m (lookup m.node_id t.members)) t.members,
  member-next_state m (lookup m.node_id t.members),
)

-- `Merge` of any rumour keeps the node's own entry ALIVE where it is so.
pub merge-self_alive :
    (t : Table) (m : Member) (wall : Time)
    → self_alive t ≡ true
    → self_alive (merge t m wall).0 ≡ true
unfolding merge
merge-self_alive t m wall s = ground (arith, refute-self_alive t m wall s, adopt-self_alive t m s)

-- A valid rumour that the node itself is not ALIVE, of an incarnation that is not older than its
-- own, is refuted: the node then announces itself as ALIVE with the next incarnation, which
-- outranks the rumour, as long as the incarnation does not overflow.
pub merge_refutes :
    (t : Table) (m : Member) (wall : Time) (self : PeerState)
    → lookup t.self_id t.members ≡ some self
    → member_valid m ≡ true
    → m.node_id ≡ t.self_id
    → is_alive m ≡ false
    → self.member.incarnation ≤ m.incarnation
    → m.incarnation + 1 < 2 ^ 64
    → (compare_member m (merge t m wall).1.0 ≡ Ordering.lt)
      × (is_alive (merge t m wall).1.0 ≡ true)
      × ((merge t m wall).1.1 ≡ true)
merge_refutes t m wall self k v e d i o =
    rw (refute_merge t m wall self k v e d i)
      (unfold refuted is_alive compare_member member_status_eq in (ground arith, refl, refl))
