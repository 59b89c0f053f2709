-- ===== src/Api/Origin.antt =====
-- Who may open the stream of events, and what it starts with: `websocket`, `originAllowed` and
-- `isLoopbackName` of backend/internal/api/websocket.go. The parts of URLs and the comparison without
-- case are a parameter.
use mini_eureka.Prelude.{
  ℕ, if◌then◌else◌, Bool, true, false, ◌&&◌, ◌||◌, Option, none, some, List, [], ◌∷◌,
}
use mini_eureka.Prelude.Int.{pos}
use mini_eureka.Prelude.Text.{Text, text_eq}
use mini_eureka.Model.Error.{ok, err, text}
use mini_eureka.Events.{Ring, subscribe_begin, subscribe_end, cancel, pred_uint64}
use mini_eureka.Api.Replies.{Failure, bad_cursor}
use mini_eureka.Api.Feed.{read_cursor}

-- `url.Parse` with the host and the host name of a URL, `strings.EqualFold`, `strings.TrimRight` of
-- slashes, and the host of `net.SplitHostPort`.
pub record Hosts : Type 0 where
  pub parse : Text → Option (Text × Text)
  pub same : Text → Text → Bool
  pub trim_slashes : Text → Text
  pub split_host : Text → Option Text

-- `isLoopbackName`
unfoldable pub is_loopback_name : Hosts → Text → Bool
is_loopback_name h host =
    h.same host (text "localhost") || text_eq host (text "127.0.0.1") || text_eq host (text "::1")

unfoldable pub is_listed : Hosts → List Text → Text → Bool
is_listed h [] origin = false
is_listed h (c ∷ cs) origin =
    h.same (h.trim_slashes c) (h.trim_slashes origin) || is_listed h cs origin

abbrev or_whole : Option Text → Text → Text
or_whole none whole = whole
or_whole (some host) whole = host

-- `originAllowed`, for the `Origin` header and the host of a request.
unfoldable pub origin_allowed : Hosts → List Text → Text → Text → Bool
unfolding is_loopback_name is_listed
origin_allowed h allowed origin host = if text_eq origin [] then true else elim (h.parse origin) [
  | none ↦ false
  | some (parsed_host, hostname) ↦
      if text_eq parsed_host []
      then false
      else if h.same parsed_host host || is_listed h allowed origin
      then true
      else is_loopback_name h hostname && is_loopback_name h (or_whole (h.split_host host) host)
]

-- How a request for the stream ends or goes on: it is refused before or by the upgrade, it is told to
-- synchronise anew, or it is subscribed, with the cursor of the `CONNECTED` event and what its payload
-- says of the newest event.
pub data Opening : Type 0 where
  turned_away : Failure → Opening
  not_upgraded : Opening
  must_resync : ℕ → Opening
  subscribed : ℕ → ℕ → ℕ → Opening

-- `websocket` up to its loop. The subscription comes before the upgrade, and is given up if that
-- fails. Whether the upgrader of gorilla/websocket finds nothing else wrong with the request is a
-- parameter.
unfoldable pub open_stream : Hosts → List Text → Text → Text → Text → Bool → Ring → Ring × Opening
unfolding read_cursor origin_allowed
open_stream h allowed origin host raw well_formed r = elim (read_cursor raw) [
  | none ↦ (r, turned_away bad_cursor)
  | some cursor ↦ elim (subscribe_begin r cursor) [
    | err e ↦
        if well_formed && origin_allowed h allowed origin host
        then (r, must_resync (pred_uint64 r.next_seq))
        else (r, not_upgraded)
    | ok (r1, (id, pending)) ↦
        let r2 = subscribe_end r1 id pending (pos 256) in
        if well_formed && origin_allowed h allowed origin host
        then (r2, subscribed id cursor (pred_uint64 r2.next_seq))
        else (cancel id r2, not_upgraded)
  ]
]
