-- ===== src/Clock.antt =====
-- backend/internal/clock/hlc.go: the hybrid logical clock of a node. The clock's mutex makes each
-- method one step; the wall clock is an argument, the reading that `source.Now()` returns.
pub mod Monotone
use mini_eureka.Prelude.{
  ℕ, suc, ◌+◌, ◌-◌, ◌^◌, ◌*◌, ◌==◌, ltb, if◌then◌else◌, not, ◌&&◌, none, some, [],
}
use mini_eureka.Prelude.Int.{ℤ, pos, ltb_ℤ, eqb_ℤ, max_ℤ, ◌+ℤ◌, wrap_int64, max_int64, max_uint64}
use mini_eureka.Prelude.Text.{Text}
use mini_eureka.Prelude.Time.{Time, Duration, unix_milli, milliseconds, second}
use mini_eureka.Model.Error.{Error, Result, ok, err, message, wrapped, text}
use mini_eureka.Model.Version.{Version, validate_version}

-- `HLC`, without its mutex and its source of wall time.
pub record Hlc : Type 0 where
  pub node_id : Text
  pub max_future_skew : Duration
  pub last : Version

abbrev pub zero_version : Version
zero_version = record { physical_millis = pos 0; logical = 0; origin_node_id = [] }

-- `ErrRemoteClockTooFarAhead`
abbrev pub too_far_ahead : Error
too_far_ahead = message (text "remote clock exceeds allowed future skew")

-- `New`, with the skew that the options leave in the clock.
unfoldable pub new_hlc : Text → Duration → Result Hlc
new_hlc node_id skew =
    elim (validate_version
      (record { physical_millis = pos 1; logical = 0; origin_node_id = node_id })) [
        | some e ↦ err (wrapped (text "create HLC") e)
        | none ↦
            if ltb_ℤ skew (pos 0)
            then err (message (text "create HLC: max future skew must not be negative"))
            else ok (record { node_id = node_id; max_future_skew = skew; last = zero_version })
      ]

-- `nextLogical`: the physical part, which it may move on by one, and the logical counter.
unfoldable pub next_logical : ℤ → ℕ → ℤ × ℕ
next_logical physical current =
    if not (current == max_uint64)
    then (physical, current + 1)
    else if not (eqb_ℤ physical max_int64)
    then (physical +ℤ pos 1, 0)
    else (physical, max_uint64)

-- `Now`, at a reading of the wall clock.
unfoldable pub now : Hlc → Time → Hlc × Version
unfolding next_logical
now c wall =
    let physical = unix_milli wall in
    let fresh : Version = record {
      physical_millis = physical;
      logical = 0;
      origin_node_id = c.node_id;
    } in
    let (p, l) = next_logical (max_ℤ c.last.physical_millis physical) c.last.logical in
    let bumped : Version = record {
      physical_millis = p;
      logical = l;
      origin_node_id = c.node_id;
    } in
    let next = if ltb_ℤ c.last.physical_millis physical then fresh else bumped in
    (record c { last = next }, next)

-- The `switch` of `Observe`: how the counter continues from the two clocks.
unfoldable pub observed : ℤ → Version → Version → ℤ × ℕ
unfolding next_logical
observed physical last remote =
    if eqb_ℤ physical last.physical_millis && eqb_ℤ physical remote.physical_millis
    then next_logical physical
        (if ltb last.logical remote.logical then remote.logical else last.logical)
    else if eqb_ℤ physical last.physical_millis
    then next_logical physical last.logical
    else if eqb_ℤ physical remote.physical_millis
    then next_logical physical remote.logical
    else (physical, 0)

-- `Observe`. The sum of the reading and the allowed skew is an int64.
unfoldable pub observe : Hlc → Version → Time → Hlc × Result Version
unfolding observed milliseconds wrap_int64
observe c remote wall = elim (validate_version remote) [
  | some e ↦ (c, err (wrapped (text "observe remote version") e))
  | none ↦
      let reading = unix_milli wall in
      if ltb_ℤ (wrap_int64 (reading +ℤ milliseconds c.max_future_skew)) remote.physical_millis
      then (c, err too_far_ahead)
      else let physical = max_ℤ reading (max_ℤ c.last.physical_millis remote.physical_millis) in
        let (p, l) = observed physical c.last remote in
        let next : Version = record {
          physical_millis = p;
          logical = l;
          origin_node_id = c.node_id;
        } in
        (record c { last = next }, ok next)
]
