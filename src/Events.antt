-- ===== src/Events.antt =====
-- backend/internal/events: the bounded event log of a node and its fan-out to subscribers. Each
-- method is one step under the ring's lock; the reading of the wall clock is an argument.
pub mod Log
pub mod Fan
use mini_eureka.Prelude.{
  ℕ, suc, ◌+◌, ◌-◌, ◌%◌, ◌^◌, ◌==◌, ltb, leb, if◌then◌else◌, Bool, true, false, not, ◌&&◌, ◌||◌,
  Option, none, some, List, [], ◌∷◌, ◌++◌, length, take, drop,
}
use mini_eureka.Prelude.Int.{ℤ, pos, pos_part, ltb_ℤ, leb_ℤ}
use mini_eureka.Prelude.Text.{Text, text_eq}
use mini_eureka.Prelude.Time.{Time, is_zero_time}
use mini_eureka.Prelude.Decimal.{format_uint}
use mini_eureka.Prelude.Map.{Map, insert, delete, lookup, Eq}
use mini_eureka.Prelude.{==_iff}
use mini_eureka.Model.Error.{Error, Result, ok, err, message, text}

instance abbrev pub nat_key : Eq ℕ
nat_key = record { beq = ◌==◌; beq_iff = ==_iff }

abbrev pub schema_version : ℕ
schema_version = 1

-- `events.Type`
pub data EventType : Type 0 where
  instance_registered instance_heartbeat instance_delayed : EventType
  instance_evicted instance_removed member_changed : EventType
  gossip_hop connected resync_required : EventType

-- `Delivery`; the latency is a float64 that nothing computes with, kept as its bits.
pub record Delivery : Type 0 where
  pub attempt_id : Text
  pub source_node : Text
  pub target_node : Text
  pub hop : ℤ
  pub result : Text
  pub latency_bits : ℕ

pub record Event : Type 0 where
  pub seq : ℕ
  pub schema : ℕ
  pub stream_node_id : Text
  pub stream_boot_id : Text
  pub type : EventType
  pub event_id : Text
  pub entity_key : Text
  pub revision : Text
  pub origin_node_id : Text
  pub occurred_at : Time
  pub payload : Text
  pub delivery : Option Delivery

-- `subscription`: a buffered channel of `size` places.
pub record Subscription : Type 0 where
  pub channel : List Event
  pub size : ℕ
  pub closed : Bool

-- `Ring`. `detached` holds the closed channels, which the ring forgets and their readers still hold.
pub record Ring : Type 0 where
  pub entries : List Event
  pub capacity : ℕ
  pub next_seq : ℕ
  pub node_id : Text
  pub boot_id : Text
  pub next_sub : ℕ
  pub subs : Map ℕ Subscription
  pub detached : Map ℕ Subscription
  pub dropped : ℕ

abbrev pub add_uint64 : ℕ → ℕ → ℕ
add_uint64 a b = (a + b) % 2 ^ 64

abbrev pub pred_uint64 : ℕ → ℕ
pred_uint64 a = (a + (2 ^ 64 - 1)) % 2 ^ 64

-- `New`
unfoldable pub new_ring : ℤ → Text → Text → Ring
new_ring capacity node_id boot_id = record {
  entries = [];
  capacity = if ltb_ℤ capacity (pos 1) then 1 else pos_part capacity;
  next_seq = 1;
  node_id = node_id;
  boot_id = boot_id;
  next_sub = 0;
  subs = [];
  detached = [];
  dropped = 0;
}

or_default : Text → Text → Text
or_default s d = if text_eq s [] then d else s

-- `fmt.Sprintf("<prefix>-%s-%d", nodeID, seq)`
numbered : Text → Text → ℕ → Text
numbered prefix node seq = prefix ++ (node ++ (text "-" ++ format_uint seq))

-- The fields that `Publish` fills in.
unfoldable pub stamp : Ring → Event → Time → Event
unfolding or_default numbered
stamp r e now = record e {
  seq = r.next_seq;
  schema = schema_version;
  stream_node_id = r.node_id;
  stream_boot_id = r.boot_id;
  origin_node_id = or_default e.origin_node_id r.node_id;
  occurred_at = if is_zero_time e.occurred_at then now else e.occurred_at;
  event_id = or_default e.event_id (numbered (text "evt-") r.node_id r.next_seq);
}

-- The last event that a slow consumer gets.
unfoldable pub resync_event : Ring → Time → Event
unfolding numbered
resync_event r now = record {
  seq = r.next_seq;
  schema = schema_version;
  stream_node_id = r.node_id;
  stream_boot_id = r.boot_id;
  type = resync_required;
  event_id = numbered (text "resync-") r.node_id r.next_seq;
  entity_key = [];
  revision = [];
  origin_node_id = r.node_id;
  occurred_at = now;
  payload = text "{\"reason\":\"slow_consumer\"}";
  delivery = none;
}

-- The log with one more event: a full log gives up its oldest.
unfoldable pub append_event : ℕ → List Event → Event → List Event
append_event capacity entries e =
    if length entries == capacity then drop 1 entries ++ (e ∷ []) else entries ++ (e ∷ [])

-- The loop over the subscribers: those that stay, those closed, and how many were dropped.
unfoldable pub fan_out :
    Event → Event → Map ℕ Subscription → Map ℕ Subscription × Map ℕ Subscription × ℕ
fan_out e resync [] = ([], [], 0)
fan_out e resync ((id, sub) ∷ m) =
    let (kept, gone, n) = fan_out e resync m in
    if ltb (length sub.channel) sub.size
    then ((id, record sub { channel = sub.channel ++ (e ∷ []) }) ∷ kept, gone, n)
    else (kept, (id, record sub { channel = resync ∷ []; closed = true }) ∷ gone, n + 1)

-- `Publish`
unfoldable pub publish : Ring → Event → Time → Ring × Event
unfolding stamp resync_event append_event fan_out
publish r e now =
    let event = stamp r e now in
    let (kept, gone, n) = fan_out event (resync_event r now) r.subs in
    (
      record r {
        next_seq = add_uint64 r.next_seq 1;
        entries = append_event r.capacity r.entries event;
        subs = kept;
        detached = gone ++ r.detached;
        dropped = add_uint64 r.dropped n;
      },
      event,
    )

-- `ErrCursorExpired`
abbrev pub cursor_expired : Error
cursor_expired = message (text "event cursor expired")

-- `cursor > 0 && cursor < entries[0].Seq-1`
unfoldable pub is_stale_cursor : ℕ → List Event → Bool
is_stale_cursor cursor [] = false
is_stale_cursor cursor (e ∷ es) = ltb 0 cursor && ltb cursor (pred_uint64 e.seq)

-- The loop of `Since`, with the places that are left: it stops once they are used up.
unfoldable pub collect : ℕ → ℕ → List Event → List Event
collect cursor left [] = []
collect cursor left (e ∷ es) =
    let skipped = collect cursor left es in
    let taken = collect cursor (left - 1) es in
    if leb e.seq cursor then skipped else if left == 1 then e ∷ [] else e ∷ taken

abbrev pub page_limit : ℤ → ℕ
page_limit limit = if leb_ℤ limit (pos 0) then 200 else pos_part limit

-- `Since`: the events after a cursor, and the cursor of the newest event.
unfoldable pub since : Ring → ℕ → ℤ → Result (List Event) × ℕ
unfolding is_stale_cursor collect
since r cursor limit =
    if is_stale_cursor cursor r.entries
    then (err cursor_expired, pred_uint64 r.next_seq)
    else (ok (collect cursor (page_limit limit) r.entries), pred_uint64 r.next_seq)

unfoldable pub newer : ℕ → List Event → List Event
newer cursor [] = []
newer cursor (e ∷ es) = if ltb cursor e.seq then e ∷ newer cursor es else newer cursor es

-- The first critical section of `Subscribe`: the pending events and the number of the subscription.
unfoldable pub subscribe_begin : Ring → ℕ → Result (Ring × (ℕ × List Event))
unfolding is_stale_cursor newer
subscribe_begin r cursor =
    if is_stale_cursor cursor r.entries
    then err cursor_expired
    else let id = add_uint64 r.next_sub 1 in
      ok (record r { next_sub = id }, (id, newer cursor r.entries))

-- The channel with the pending events: it has at least one place more than they take.
abbrev pub new_subscription : List Event → ℤ → Subscription
new_subscription pending queue =
    let asked = if ltb_ℤ queue (pos 2) then 2 else pos_part queue in
    let size = if ltb asked (length pending + 1) then length pending + 1 else asked in
    record { channel = pending; size = size; closed = false }

-- The second one, after the pending events are in the channel; `Publish` may come between the two.
unfoldable pub subscribe_end : Ring → ℕ → List Event → ℤ → Ring
subscribe_end r id pending queue = record r {
  subs = insert id (new_subscription pending queue) r.subs;
}

close_sub : ℕ → Ring → Option Subscription → Ring
close_sub id r none = r
close_sub id r (some sub) = if sub.closed then r else record r {
  subs = delete id r.subs;
  detached = (id, record sub { closed = true }) ∷ r.detached;
}

-- The function that `Subscribe` returns for giving the subscription up.
unfoldable pub cancel : ℕ → Ring → Ring
unfolding close_sub
cancel id r = close_sub id r (lookup id r.subs)

-- `Recent`
unfoldable pub recent : Ring → ℤ → List Event
recent r limit =
    let n = length r.entries in
    let k = if leb_ℤ limit (pos 0) || ltb_ℤ (pos n) limit then n else pos_part limit in
    drop (n - k) r.entries
