-- ===== src/Tests/Wheels.antt =====
-- The theorems on the timing wheel (backend/internal/ttl) at a wheel of two slots.
use mini_eureka.Prelude.{◌+◌, List, [], ◌∷◌, ◌≡◌, All, false, arith, length}
use mini_eureka.Prelude.Int.{pos, ◌≤ℤ◌, ◌+ℤ◌}
use mini_eureka.Prelude.Text.{bytes}
use mini_eureka.Prelude.Time.{add_time}
use mini_eureka.Wheel.{Task, TaskKind, Wheel, schedule, one_tick, pending, advance, is_complete}
use mini_eureka.Wheel.Tasks.{IsWheel, pending-schedule, one_tick_lem}
use mini_eureka.Wheel.Advance.{Schedules, advance_ends}

abbrev task : Task
task = record {
  kind = TaskKind.expire_lease;
  service = bytes "s";
  instance_id = bytes "i";
  lease_id = bytes "l";
  expected_version = [];
  deadline = pos 25;
}

-- The hand is at slot 0; one task is in slot 1 and due at the next tick.
abbrev wheel : Wheel
wheel = record {
  tick = pos 10;
  slots = [] ∷ (record { task = task; rounds = 0 } ∷ []) ∷ [];
  position = 0;
  current = pos 20;
}

wheel-IsWheel : IsWheel wheel
wheel-IsWheel = record { on_slot = omega arith; ticking = omega arith }

-- A handler that schedules one more task each time.
abbrev reschedule : List Task → Wheel → Wheel
reschedule ts w = schedule w task

reschedule-Schedules : Schedules reschedule
reschedule-Schedules = record {
  same = λ ts w g. (pending-schedule w task (omega (arith, g.on_slot))).1;
}

one_tick_lem_example :
    (pending (one_tick wheel).0.slots + length (one_tick wheel).1 ≡ pending wheel.slots)
    × All (λ t. t.deadline ≤ℤ (one_tick wheel).0.current) (one_tick wheel).1
    × ((one_tick wheel).0.current ≡ add_time wheel.current wheel.tick)
    × ((one_tick wheel).0.tick ≡ wheel.tick)
    × IsWheel (one_tick wheel).0
one_tick_lem_example = one_tick_lem wheel wheel-IsWheel

advance_ends_example : is_complete (advance reschedule 30 wheel (pos 55)).0 (pos 55) ≡ false
unfolding ◌+ℤ◌
advance_ends_example =
    advance_ends reschedule 30 wheel (pos 55) reschedule-Schedules wheel-IsWheel (omega arith)
