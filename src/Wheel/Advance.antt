-- ===== src/Wheel/Advance.antt =====
-- `Advance` ends, and then no complete tick is left before its target.
use mini_eureka.Prelude.{
  ℕ, zero, suc, false, List, [], ◌∷◌, ◌≡◌, arith, Bool-cases, inl, inr, ◌∙◌, refl,
}
use mini_eureka.Prelude.Int.{ℤ, pos, ◌<ℤ◌, +ℤ_parts}
use mini_eureka.Prelude.Time.{Time, add_time}
use mini_eureka.Wheel.{Task, Wheel, one_tick, is_complete, advance, handle}
use mini_eureka.Wheel.Tasks.{IsWheel, SameShape, one_tick_lem}

-- A handler that at most schedules tasks moves neither the hand nor the time.
pub record Schedules (handler : List Task → Wheel → Wheel) : Type 0 where
  pub same : (ts : List Task) (w : Wheel) → IsWheel w → SameShape w (handler ts w)

SameShape-IsWheel : (w v : Wheel) → SameShape w v → IsWheel w → IsWheel v
SameShape-IsWheel w v s g = record {
  on_slot = omega (arith, s.position, s.size, g.on_slot);
  ticking = rw s.tick g.ticking;
}

handle-SameShape :
    (handler : List Task → Wheel → Wheel) (ts : List Task) (w : Wheel)
    → Schedules handler
    → IsWheel w
    → SameShape w (handle handler ts w)
handle-SameShape handler [] w h g = record {
  tick = refl;
  position = refl;
  current = refl;
  size = refl;
}
handle-SameShape handler (t ∷ ts) w h g = h.same (t ∷ ts) w g

closer :
    (target c t : ℤ) (fuel : ℕ)
    → pos 0 <ℤ t
    → target <ℤ add_time (add_time c t) (pos (suc fuel))
    → target <ℤ add_time (add_time (add_time c t) t) (pos fuel)
closer target c t fuel h near = omega (
  arith,
  +ℤ_parts (add_time c t) (pos (suc fuel)),
  +ℤ_parts (add_time c t) t,
  +ℤ_parts (add_time (add_time c t) t) (pos fuel),
)

-- `Advance` ends within as many turns as there are nanoseconds from the first incomplete tick to
-- the target, on a wheel with a positive tick and with a handler that at most schedules tasks: the
-- wheel that it leaves has no complete tick before the target.
pub advance_ends :
    (handler : List Task → Wheel → Wheel) (fuel : ℕ) (w : Wheel) (target : Time)
    → Schedules handler
    → IsWheel w
    → target <ℤ add_time (add_time w.current w.tick) (pos fuel)
    → is_complete (advance handler fuel w target).0 target ≡ false
unfolding advance
advance_ends handler zero w target h g near =
    unfold is_complete in
    ground (arith, +ℤ_parts w.current w.tick, +ℤ_parts (add_time w.current w.tick) (pos 0))
advance_ends handler (suc fuel) w target h g near = elim (Bool-cases (is_complete w target)) [
  | inr done ↦ rw done done
  | inl more ↦
      let (kept, due, moved, same, g') = one_tick_lem w g in
      let next : Wheel = handle handler (one_tick w).1 (one_tick w).0 in
      let s = handle-SameShape handler (one_tick w).1 (one_tick w).0 h g' in
      rw more (
        advance_ends handler fuel next target h (SameShape-IsWheel _ next s g') (
          rw (s.current ∙ moved, s.tick ∙ same)
            (closer target w.current w.tick fuel g.ticking near)))
]
