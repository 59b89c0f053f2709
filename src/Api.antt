-- ===== src/Api.antt =====
-- backend/internal/api, the HTTP API. This file is the rate limiter of middleware.go; the handlers,
-- the wrapper around them and the pages of a listing are the modules below.
pub mod Limits
pub mod Pagination
pub mod Reading
pub mod Replies
pub mod Services
pub mod Calls
pub mod Discovery
pub mod Dashboard
pub mod Feed
pub mod Summary
pub mod Demos
pub mod Middleware
pub mod Origin
use mini_eureka.Prelude.{
  ◌*◌, ℕ, ◌+◌, ltb, leb, length, min, take, drop, if◌then◌else◌, Bool, true, false, not, ◌||◌,
  Option, none, some, List, [], ◌∷◌, keep,
}
use mini_eureka.Prelude.Int.{ℤ, pos, leb_ℤ, ltb_ℤ, pos_part, ◌+ℤ◌}
use mini_eureka.Prelude.Text.{Text}
use mini_eureka.Prelude.Time.{Time, Duration, zero_time, is_zero_time, sub_time, second}
use mini_eureka.Prelude.Map.{Map, lookup, insert, text_key}

-- `rateEntry`
pub record RateEntry : Type 0 where
  pub window : Time
  pub count : ℤ

-- `rateLimiter`
pub record RateLimiter : Type 0 where
  pub limit : ℤ
  pub clients : Map Text RateEntry

-- `newRateLimiter`; none is the nil limiter.
unfoldable pub new_rate_limiter : ℤ → Option RateLimiter
new_rate_limiter limit =
    if leb_ℤ limit (pos 0) then none else some (record { limit = limit; clients = [] })

abbrev pub minute : Duration
minute = pos (60 * second)

-- `now.Sub(entry.window) >= time.Minute`
abbrev pub is_over : Time → RateEntry → Bool
is_over now e = leb_ℤ minute (sub_time now e.window)

abbrev pub entry_or_zero : Option RateEntry → RateEntry
entry_or_zero none = record { window = zero_time; count = pos 0 }
entry_or_zero (some e) = e

-- The sweep of a map that has grown large.
unfoldable pub sweep_clients : Time → Map Text RateEntry → Map Text RateEntry
sweep_clients now m = if ltb 10000 (length m) then keep (λ x. not (is_over now x.1)) m else m

-- `Allow`
unfoldable pub allow : Text → Time → RateLimiter → RateLimiter × Bool
unfolding sweep_clients
allow client now l =
    let e = entry_or_zero (lookup client l.clients) in
    let counted = insert client (record e { count = e.count +ℤ pos 1 }) l.clients in
    if is_zero_time e.window || is_over now e
    then (
      record l { clients = insert client (record { window = now; count = pos 1 }) l.clients },
      true,
    )
    else if leb_ℤ l.limit e.count
    then (l, false)
    else (record l { clients = sweep_clients now counted }, true)
