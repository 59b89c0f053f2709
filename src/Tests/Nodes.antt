-- ===== src/Tests/Nodes.antt =====
-- The theorems on clocks, event logs and membership tables (backend/internal/clock, events and
-- cluster) at concrete states.
use mini_eureka.Prelude.{
  ℕ, ◌+◌, ◌-◌, ◌<◌, min, ◌≡◌, refl, inl, inr, true, none, some, List, [], ◌∷◌, All, Ordering, arith,
  if◌then◌else◌,
}
use mini_eureka.Prelude.Int.{ℤ, pos, wrap_int64, ◌+ℤ◌, ◌-ℤ◌}
use mini_eureka.Prelude.Text.{bytes, text_eq}
use mini_eureka.Prelude.Utf8.{runes, is_control, is_space}
use mini_eureka.Prelude.Time.{unix_milli, milliseconds}
use mini_eureka.Prelude.Map.{lookup, text_key}
use mini_eureka.Model.Error.{ok, validate_identifier}
use mini_eureka.Model.Version.{compare_version, validate_version, is_zero}
use mini_eureka.Model.Member.{Member, MemberStatus, member_status_valid}
use mini_eureka.Clock.{Hlc, now, observe, observed}
use mini_eureka.Clock.Monotone.{HasRoom, now-monotone, observe-monotone}
use mini_eureka.Events.{
  Event, EventType, Ring, Subscription, publish, since, subscribe_begin, subscribe_end, page_limit,
  nat_key,
}
use mini_eureka.Events.Log.{IsLog, Consecutive, publish-IsLog, since_gapless}
use mini_eureka.Events.Fan.{subscribe_misses}
use mini_eureka.Cluster.{Table, PeerState, member_valid, merge}
use mini_eureka.Cluster.Order.{known_rank, member_rank, lift_member, known_rank-merge}
use mini_eureka.Tests.Data.{version_at}

abbrev node_clock : Hlc
node_clock = record { node_id = bytes "a"; max_future_skew = pos 0; last = version_at (pos 5) }

-- Ten milliseconds after the Unix epoch.
abbrev wall : ℤ
wall = pos 62135596800010000000

five_room : HasRoom (pos 5) 0
five_room = record { physical = omega arith; logical = omega arith; room = inr (omega arith) }

now-monotone_example :
    (compare_version node_clock.last (now node_clock wall).1 ≡ Ordering.lt)
    × ((now node_clock wall).0.last ≡ (now node_clock wall).1)
now-monotone_example = now-monotone node_clock wall five_room

observed_at_5 : (observe node_clock (version_at (pos 5)) wall).1 ≡ ok (version_at (pos 10))
unfolding observe validate_version validate_identifier text_eq runes is_control is_space unix_milli
    milliseconds wrap_int64 observed ◌+ℤ◌ ◌-ℤ◌
observed_at_5 = refl

observe-monotone_example :
    (compare_version node_clock.last (version_at (pos 10)) ≡ Ordering.lt)
    × (compare_version (version_at (pos 5)) (version_at (pos 10)) ≡ Ordering.lt)
    × ((observe node_clock (version_at (pos 5)) wall).0.last ≡ version_at (pos 10))
observe-monotone_example =
    observe-monotone node_clock (version_at (pos 5)) wall (version_at (pos 10)) five_room five_room
      observed_at_5

abbrev pub event_at : ℕ → Event
event_at n = record {
  seq = n;
  schema = 1;
  stream_node_id = bytes "a";
  stream_boot_id = bytes "b";
  type = EventType.instance_registered;
  event_id = bytes "e";
  entity_key = [];
  revision = [];
  origin_node_id = bytes "a";
  occurred_at = pos 1;
  payload = [];
  delivery = none;
}

-- A log of two places that has seen three events.
abbrev pub full_ring : Ring
full_ring = record {
  entries = event_at 2 ∷ event_at 3 ∷ [];
  capacity = 2;
  next_seq = 4;
  node_id = bytes "a";
  boot_id = bytes "b";
  next_sub = 0;
  subs = [];
  detached = [];
  dropped = 0;
}

pub full_ring-IsLog : IsLog full_ring
full_ring-IsLog = record {
  room = omega arith;
  started = omega arith;
  count = refl;
  run = (refl, (refl, refl));
}

publish-IsLog_example :
    IsLog (publish full_ring (event_at 0) wall).0
    × ((publish full_ring (event_at 0) wall).1.seq ≡ full_ring.next_seq)
    × ((publish full_ring (event_at 0) wall).0.next_seq ≡ full_ring.next_seq + 1)
publish-IsLog_example = publish-IsLog full_ring (event_at 0) wall full_ring-IsLog (omega arith)

since_gapless_example :
    (es : List Event) × ((since full_ring 2 (pos 10)).0 ≡ ok es)
    × Consecutive 3 es (3 + min (page_limit (pos 10)) (full_ring.next_seq - 3))
since_gapless_example =
    since_gapless full_ring 2 (pos 10) full_ring-IsLog (omega arith) (omega arith) (omega arith)

abbrev begun_ring : Ring
begun_ring = record full_ring { next_sub = 1 }

begun : subscribe_begin full_ring 2 ≡ ok (begun_ring, (1, event_at 3 ∷ []))
unfolding subscribe_begin
begun = refl

subscribe_misses_example :
    (sub : Subscription) × (lookup 1
        (subscribe_end (publish begun_ring (event_at 0) wall).0 1 (event_at 3 ∷ []) (pos 8)).subs
      ≡ some sub)
    × All (λ x. x.seq < (publish begun_ring (event_at 0) wall).1.seq) sub.channel
subscribe_misses_example =
    subscribe_misses full_ring begun_ring 2 1 (event_at 3 ∷ []) (event_at 0) wall (pos 8)
      full_ring-IsLog begun

abbrev member_a : MemberStatus → ℕ → Member
member_a status incarnation = record {
  node_id = bytes "a";
  boot_id = bytes "b";
  http_address = [];
  gossip_address = [];
  status = status;
  incarnation = incarnation;
  last_seen_at = pos 1;
  version = version_at (pos 1);
}

abbrev self_state : PeerState
self_state = record { member = member_a MemberStatus.alive 1; last_ok = none; latency = pos 0 }

abbrev pub table : Table
table = record {
  self_id = bytes "a";
  clock = node_clock;
  suspicion = pos 5;
  dead = pos 15;
  members = (bytes "a", self_state) ∷ [];
}

-- A rumour that the node is suspected, and one of another node.
abbrev rumour : Member
rumour = member_a MemberStatus.suspect 3

abbrev pub peer : Member
peer = record rumour { node_id = bytes "c" }

peer-valid : member_valid peer ≡ true
unfolding member_valid text_eq is_zero member_status_valid
peer-valid = refl

known_rank-merge_example : known_rank (merge table peer wall).0 (bytes "c") ≡ (
    if text_eq peer.node_id (bytes "c")
    then lift_member (known_rank table peer.node_id) (member_rank peer)
    else known_rank table (bytes "c"))
unfolding text_eq
known_rank-merge_example = known_rank-merge table peer wall (bytes "c") peer-valid (inl refl)
