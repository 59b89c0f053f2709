-- ===== src/Tests/Feeds.antt =====
-- The theorem on the listing of events (backend/internal/api/handlers_dashboard.go) at a log of three
-- events.
use mini_eureka.Prelude.{◌==◌, [], ◌∷◌, List, keep, take, ◌≡◌, refl, arith}
use mini_eureka.Prelude.Text.{bytes, text_eq, compare_text}
use mini_eureka.Prelude.Order.{compare_list}
use mini_eureka.Prelude.Decimal.{parse_digits}
use mini_eureka.Model.Revision.{parse_int, parse_uint}
use mini_eureka.Events.{Event, since, is_stale_cursor, collect}
use mini_eureka.Api.Replies.{passed, query_limit, replied}
use mini_eureka.Api.Feed.{
  EventPage, EventQuery, gossip_events, gossip_events_lem, of_event, page_after, read_cursor,
}
use mini_eureka.Tests.Nodes.{event_at, full_ring, full_ring-IsLog}

-- The first page of a listing from the second event on, with one event a page.
abbrev first_page : EventQuery
first_page = record { cursor = bytes "1"; limit = bytes "1"; event_id = bytes "e" }

abbrev both_events : List Event
both_events = event_at 2 ∷ event_at 3 ∷ []

gossip_events_lem_example :
    (p : EventPage) × (gossip_events first_page full_ring ≡ replied 200 p)
    × (p.events ≡ take 1 (keep (of_event (bytes "e")) both_events))
    × (page_after full_ring p.event_cursor 1 (bytes "e")
        ≡ passed (record { events = []; event_cursor = p.event_cursor; has_more = 0 == 1 }))
gossip_events_lem_example =
    gossip_events_lem first_page full_ring 1 1 both_events 1 (bytes "e") full_ring-IsLog
      (omega arith)
      (unfold read_cursor parse_uint parse_digits text_eq compare_text compare_list in refl)
      (unfold query_limit parse_int parse_digits text_eq compare_text compare_list in refl)
      (unfold since collect is_stale_cursor in refl)
