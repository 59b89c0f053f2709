-- ===== src/Api/Feed.antt =====
-- The listing of events: `gossipEvents` of backend/internal/api/handlers_dashboard.go, and what its
-- cursor leaves out.
use mini_eureka.Prelude.{
  ℕ, zero, suc, ◌-◌, ◌<◌, ◌≤◌, ◌^◌, ◌==◌, leb, if◌then◌else◌, Bool, true, false, not, ◌||◌, Option,
  some, List, [], ◌∷◌, keep, length, take, ◌≡◌, arith, refl, ap, Bool-cases, inl, inr,
}
use mini_eureka.Prelude.Int.{ℤ, pos}
use mini_eureka.Prelude.Text.{Text, text_eq}
use mini_eureka.Model.Error.{ok, err}
use mini_eureka.Model.Revision.{parse_uint}
use mini_eureka.Events.{Event, Ring, since, collect, is_stale_cursor, pred_uint64}
use mini_eureka.Events.Log.{IsLog, Consecutive, Consecutive-length, stale_true}
use mini_eureka.Api.Replies.{
  Reply, Checked, replied, refused, passed, ◌>>=◌, or_refuse, reply_of, bad_cursor, unprocessable,
  failure, query_limit,
}

-- `strconv.ParseUint(raw, 10, 64)` of a cursor that is given, and zero.
unfoldable pub read_cursor : Text → Option ℕ
read_cursor raw = if text_eq raw [] then some 0 else parse_uint raw

abbrev pub of_event : Text → Event → Bool
of_event id e = text_eq id [] || text_eq e.event_id id

-- The loop over the events, with the places that are left: it stops when the page is full.
unfoldable pub fill_page : Text → ℕ → List Event → List Event
fill_page id left [] = []
fill_page id left (e ∷ es) =
    let skipped = fill_page id left es in
    let rest = fill_page id (left - 1) es in
    if not (of_event id e) then skipped else if left == 1 then e ∷ [] else e ∷ rest

pub record EventPage : Type 0 where
  pub events : List Event
  pub event_cursor : ℕ
  pub has_more : Bool

-- What the parameters ask for.
pub record EventQuery : Type 0 where
  pub cursor : Text
  pub limit : Text
  pub event_id : Text

-- The answer once the parameters are read.
unfoldable pub page_after : Ring → ℕ → ℕ → Text → Checked EventPage
unfolding fill_page
page_after r cursor limit id =
    let (found, current) = since r cursor (pos 2048) in
    elim found [
      | err e ↦ refused (failure 409 "cursor_expired")
      | ok all ↦
          let page = fill_page id limit all in
          passed (record { events = page; event_cursor = current; has_more = length page == limit })
    ]

-- `gossipEvents`
unfoldable pub gossip_events : EventQuery → Ring → Reply EventPage
unfolding page_after read_cursor
gossip_events q r = reply_of (do
  cursor ← or_refuse (read_cursor q.cursor) bad_cursor
  limit ← or_refuse (query_limit q.limit 200 500) unprocessable
  page_after r cursor limit q.event_id)

-- The loop that stops early finds the first of the events that match.
fill_page_lem :
    (id : Text) (left : ℕ) (es : List Event)
    → fill_page id (suc left) es ≡ take (suc left) (keep (of_event id) es)
unfolding fill_page
fill_page_lem id left [] = refl
fill_page_lem id zero (e ∷ es) = elim (Bool-cases (of_event id e)) [
  | inl hit ↦ rw hit refl
  | inr miss ↦ rw miss (fill_page_lem id zero es)
]
fill_page_lem id (suc left) (e ∷ es) =
    let fewer : suc (suc left) - 1 ≡ suc left = omega arith in
    let full : (suc (suc left) == 1) ≡ false = ground arith in
    elim (Bool-cases (of_event id e)) [
      | inl hit ↦ rw hit (rw full (rw fewer (ap (λ l. e ∷ l) (fill_page_lem id left es))))
      | inr miss ↦ rw miss (fill_page_lem id (suc left) es)
    ]

-- Nothing in a log follows its last number.
collect-none :
    (cursor left a b : ℕ) (es : List Event)
    → Consecutive a es b
    → b ≤ suc cursor
    → collect cursor left es ≡ []
unfolding collect
collect-none cursor left a b [] h low = refl
collect-none cursor left a b (e ∷ es) h low =
    let longer = Consecutive-length (suc a) b es h.1 in
    let seen : leb e.seq cursor ≡ true = ground (arith, longer, h.0) in
    rw seen (collect-none cursor left (suc a) b es h.1 low)

since-none :
    (r : Ring)
    → IsLog r
    → r.next_seq < 2 ^ 64
    → since r (pred_uint64 r.next_seq) (pos 2048) ≡ (ok [], pred_uint64 r.next_seq)
unfolding since is_stale_cursor
since-none r g h =
    let a = r.next_seq - length r.entries in
    let last : pred_uint64 r.next_seq ≡ r.next_seq - 1 = omega (arith, g.started) in
    elim (Bool-cases (is_stale_cursor (pred_uint64 r.next_seq) r.entries)) [
      | inl stale ↦ absurd (
          omega (
            arith,
            stale_true (pred_uint64 r.next_seq) a r.next_seq r.entries g.run
                (omega (arith, g.started, g.count, g.room)) (omega arith) stale,
            last,
          ))
      | inr fresh ↦ rw fresh (
          ap (λ l. (ok l, pred_uint64 r.next_seq))
            (collect-none (pred_uint64 r.next_seq) 2048 a r.next_seq r.entries g.run
              (omega (arith, g.started, last))))
    ]

query_limit_pos :
    (raw : Text) (fallback maximum limit : ℕ)
    → 0 < fallback
    → query_limit raw fallback maximum ≡ some limit
    → 0 < limit
unfolding query_limit
query_limit_pos raw fallback maximum limit h k = ground (arith, h, k)

since-cursor :
    (r : Ring) (cursor : ℕ) (limit : ℤ) → (since r cursor limit).1 ≡ pred_uint64 r.next_seq
unfolding since
since-cursor r cursor limit = ground arith

-- A request for events whose parameters are read and whose cursor the log still reaches is answered
-- with the first that match among the events that `Since` gives for the cursor, at most 2048 of them
-- and also where the log has more, and as many as the limit allows. The cursor that
-- comes with them is that of the newest event, and a request from it finds nothing, whatever its
-- limit and event ID: what matches beyond the limit is not reached by following the cursor.
pub gossip_events_lem :
    (q : EventQuery) (r : Ring) (cursor limit : ℕ) (all : List Event) (next_limit : ℕ)
    (next_id : Text)
    → IsLog r
    → r.next_seq < 2 ^ 64
    → read_cursor q.cursor ≡ some cursor
    → query_limit q.limit 200 500 ≡ some limit
    → (since r cursor (pos 2048)).0 ≡ ok all
    → (p : EventPage) × (gossip_events q r ≡ replied 200 p)
      × (p.events ≡ take limit (keep (of_event q.event_id) all))
      × (page_after r p.event_cursor next_limit next_id
          ≡ passed
              (record { events = []; event_cursor = p.event_cursor; has_more = 0 == next_limit }))
unfolding gossip_events page_after fill_page
gossip_events_lem q r cursor zero all next_limit next_id g h c l found =
    absurd (omega (arith, query_limit_pos q.limit 200 500 0 (omega arith) l))
gossip_events_lem q r cursor (suc limit) all next_limit next_id g h c l found =
    let page = fill_page q.event_id (suc limit) all in
    let bare = since-none r g h in
    (
      record {
        events = page;
        event_cursor = pred_uint64 r.next_seq;
        has_more = length page == suc limit;
      },
      rw (c, gossip_events)
          (rw (l, gossip_events)
            (rw (found, page_after)
              (ap
                (λ n.
                  replied 200 (record {
                    events = page;
                    event_cursor = n;
                    has_more = length page == suc limit;
                  }))
                (since-cursor r cursor (pos 2048))))),
      fill_page_lem q.event_id limit all,
      rw (bare, page_after) (rw (ap (λ x. x.1) bare) refl),
    )
