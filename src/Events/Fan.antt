-- ===== src/Events/Fan.antt =====
-- Subscribers: what `Publish` does to each channel, and what `Subscribe` puts into a new one.
use mini_eureka.Prelude.{
  ℕ, suc, ◌-◌, ◌<◌, if◌then◌else◌, Option, none, some, List, [], ◌∷◌, ◌++◌, length, ◌≡◌, arith,
  refl, Bool-cases, inl, inr, true, ltb, ◌∙◌, All, ==_iff,
}
use mini_eureka.Prelude.Int.{ℤ}
use mini_eureka.Prelude.Time.{Time}
use mini_eureka.Prelude.Map.{Map, lookup, lookup-insert, Distinct}
use mini_eureka.Model.Error.{ok}
use mini_eureka.Events.{
  Event, Ring, Subscription, new_subscription, publish, fan_out, stamp, resync_event, newer,
  subscribe_begin, subscribe_end, nat_key,
}
use mini_eureka.Events.Log.{IsLog, Consecutive, Consecutive-length}

-- A channel with room gets the event behind what it holds; a full one leaves the ring.
unfoldable pub delivered : Event → Option Subscription → Option Subscription
delivered e none = none
delivered e (some sub) =
    if ltb (length sub.channel) sub.size
    then some (record sub { channel = sub.channel ++ (e ∷ []) })
    else none

-- A full channel is emptied, gets the resync event alone, and is closed.
unfoldable pub cut_off : Event → Option Subscription → Option Subscription
cut_off resync none = none
cut_off resync (some sub) =
    if ltb (length sub.channel) sub.size
    then none
    else some (record sub { channel = resync ∷ []; closed = true })

-- The loop of `Publish`, over subscribers with different numbers, treats each on its own: one with
-- room stays with the event behind its pending ones, a full one is closed with only the resync
-- event.
pub fan_out_lem :
    (e resync : Event) (m : Map ℕ Subscription) (id : ℕ)
    → Distinct m
    → (lookup id (fan_out e resync m).0 ≡ delivered e (lookup id m))
      × (lookup id (fan_out e resync m).1 ≡ cut_off resync (lookup id m))
unfolding fan_out lookup Distinct delivered cut_off
fan_out_lem e resync [] id d = (refl, refl)
fan_out_lem e resync ((j, sub) ∷ m) id d =
    let (kept, gone) = fan_out_lem e resync m id d.1 in
    (ground (arith, kept, d.0), ground (arith, gone, d.0))

newer-below :
    (cursor a b : ℕ) (es : List Event) → Consecutive a es b → All (λ e. e.seq < b) (newer cursor es)
unfolding newer
newer-below cursor a b [] h = tt
newer-below cursor a b (e ∷ es) h =
    let rest = newer-below cursor (suc a) b es h.1 in
    elim (Bool-cases (ltb cursor e.seq)) [
      | inl new ↦ rw new (omega (arith, Consecutive-length (suc a) b es h.1), rest)
      | inr old ↦ rw old rest
    ]

begin_inv :
    (r r' : Ring) (cursor id : ℕ) (pending : List Event)
    → subscribe_begin r cursor ≡ ok (r', (id, pending))
    → (pending ≡ newer cursor r.entries) × (r'.next_seq ≡ r.next_seq)
unfolding subscribe_begin
begin_inv r r' cursor id pending h = ground arith

-- An event that is published between the two critical sections of `Subscribe` is lost for the new
-- subscriber: the channel that is then registered holds only events with smaller numbers.
pub subscribe_misses :
    (r r' : Ring) (cursor id : ℕ) (pending : List Event) (e : Event) (now : Time) (queue : ℤ)
    → IsLog r
    → subscribe_begin r cursor ≡ ok (r', (id, pending))
    → (sub : Subscription) × (lookup id (subscribe_end (publish r' e now).0 id pending queue).subs
        ≡ some sub)
      × All (λ x. x.seq < (publish r' e now).1.seq) sub.channel
unfolding subscribe_end publish
subscribe_misses r r' cursor id pending e now queue g h =
    let (p, n) = begin_inv r r' cursor id pending h in
    let subs = (fan_out (stamp r' e now) (resync_event r' now) r'.subs).0 in
    let sub = new_subscription pending queue in
    (
      sub,
      lookup-insert id id sub subs ∙ rw ((==_iff id id).1 refl),
      unfold stamp in
          rw (n, p) (newer-below cursor (r.next_seq - length r.entries) r.next_seq r.entries g.run),
    )
