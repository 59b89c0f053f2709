-- ===== src/Wheel.antt =====
-- backend/internal/ttl/wheel.go: the timing wheel. Each critical section is one step; the handler,
-- which runs with the lock released and may schedule tasks itself, is a parameter.
pub mod Tasks
pub mod Advance
use mini_eureka.Prelude.{
  ℕ, zero, suc, ◌+◌, ◌-◌, ◌*◌, ◌/◌, ◌%◌, ltb, if◌then◌else◌, Bool, not, List, [], ◌∷◌, ◌++◌, length,
  get_or, set, replicate,
}
use mini_eureka.Prelude.Int.{ℤ, pos, negsuc, pos_part, ltb_ℤ, leb_ℤ, ◌+ℤ◌, quot_ℤ, wrap_int64}
use mini_eureka.Prelude.Text.{Text}
use mini_eureka.Prelude.Time.{Time, Duration, add_time, after, sub_time, second, floor_div}

-- `ttl.Kind`
pub data TaskKind : Type 0 where
  mark_delayed expire_lease collect : TaskKind

pub record Task : Type 0 where
  pub kind : TaskKind
  pub service : Text
  pub instance_id : Text
  pub lease_id : Text
  pub expected_version : Text
  pub deadline : Time

-- `item`
pub record Item : Type 0 where
  pub task : Task
  pub rounds : ℕ

-- `Wheel`, without its lock, its wall clock and its handler.
pub record Wheel : Type 0 where
  pub tick : Duration
  pub slots : List (List Item)
  pub position : ℕ
  pub current : Time

-- `t.Truncate(d)` for a positive duration.
unfoldable pub truncate : Time → Duration → Time
unfolding floor_div
truncate t d = times (floor_div t (pos_part d)) (pos_part d)
  where
    times : ℤ → ℕ → ℤ
    times (pos n) k = pos (n * k)
    times (negsuc n) k = negsuc (n * k + (k - 1))

-- `New`, at a reading of the wall clock.
unfoldable pub new_wheel : ℤ → Duration → Time → Wheel
unfolding truncate
new_wheel size tick wall =
    let tick' = if leb_ℤ tick (pos 0) then pos second else tick in
    record {
      tick = tick';
      slots = replicate (if ltb_ℤ size (pos 2) then 2 else pos_part size) [];
      position = 0;
      current = truncate wall tick';
    }

-- The ticks until a deadline, at least one; the sum of the durations is an int64.
unfoldable pub ticks_until : Wheel → Time → ℕ
unfolding sub_time wrap_int64 quot_ℤ
ticks_until w deadline =
    let ticks =
      quot_ℤ (wrap_int64 (wrap_int64 (sub_time deadline w.current +ℤ w.tick) +ℤ negsuc 0))
        (pos_part w.tick) in
    if ltb_ℤ ticks (pos 1) then 1 else pos_part ticks

-- `Schedule`, and `ScheduleLocked`, which is the same code.
unfoldable pub schedule : Wheel → Task → Wheel
unfolding ticks_until
schedule w task =
    let size = length w.slots in
    let ticks = ticks_until w task.deadline in
    let slot = (w.position + ticks % size) % size in
    let item : Item = record { task = task; rounds = (ticks - 1) / size } in
    record w { slots = set w.slots slot (get_or w.slots slot [] ++ (item ∷ [])) }

-- The item back in the slot under the hand, one round later.
unfoldable pub next_round : Wheel → Item → Wheel
next_round w i = record w {
  slots =
      set w.slots w.position
        (get_or w.slots w.position [] ++ (record i { rounds = i.rounds - 1 } ∷ []));
}

-- The loop of `Advance` over the items of a slot: the wheel, and the tasks that are due.
unfoldable pub visit : Wheel → List Item → Wheel × List Task
unfolding schedule next_round
visit w [] = (w, [])
visit w (i ∷ items) =
    let again = visit (next_round w i) items in
    let later = visit (schedule w i.task) items in
    let (v, due) = visit w items in
    if ltb 0 i.rounds
    then again
    else if after i.task.deadline w.current
    then later
    else (v, i.task ∷ due)

-- One turn of `Advance` under the lock, once a tick is complete.
unfoldable pub one_tick : Wheel → Wheel × List Task
unfolding visit
one_tick w =
    let position = (w.position + 1) % length w.slots in
    visit
      (record w {
        current = add_time w.current w.tick;
        position = position;
        slots = set w.slots position [];
      })
      (get_or w.slots position [])

-- Whether a further tick is complete at the target.
unfoldable pub is_complete : Wheel → Time → Bool
is_complete w target = not (after (add_time w.current w.tick) target)

-- The handler is not called without tasks.
abbrev handle : (List Task → Wheel → Wheel) → List Task → Wheel → Wheel
handle handler [] w = w
handle handler (t ∷ ts) w = handler (t ∷ ts) w

-- `Advance`, on fuel for its turns: the wheel, and the number of tasks handed on.
unfoldable pub advance : (List Task → Wheel → Wheel) → ℕ → Wheel → Time → Wheel × ℕ
unfolding one_tick is_complete
advance handler zero w target = (w, 0)
advance handler (suc fuel) w target =
    let (w', due) = one_tick w in
    let (v, n) = advance handler fuel (handle handler due w') target in
    if is_complete w target then (v, length due + n) else (w, 0)

-- `Pending`
unfoldable pub pending : List (List Item) → ℕ
pending [] = 0
pending (slot ∷ slots) = length slot + pending slots
