-- ===== src/Wheel/Tasks.antt =====
-- No task of the timing wheel is lost or handed on early.
use mini_eureka.Prelude.{
  ℕ, zero, suc, ◌+◌, ◌%◌, ◌<◌, ltb, List, [], ◌∷◌, ◌++◌, ◌≡◌, All, length, length-append,
  length-set, get_or, set, arith, refl, Bool-cases, inl, inr, ◌∙◌,
}
use mini_eureka.Prelude.Int.{pos, ◌≤ℤ◌, ◌<ℤ◌}
use mini_eureka.Prelude.Time.{after, add_time}
use mini_eureka.Wheel.{Item, Task, Wheel, next_round, schedule, visit, one_tick, pending}

-- The wheel has slots, its hand is on one of them, and its tick is positive.
pub record IsWheel (w : Wheel) : Type 0 where
  pub on_slot : w.position < length w.slots
  pub ticking : pos 0 <ℤ w.tick

pending-set :
    (slots : List (List Item)) (i : ℕ) (x : Item)
    → i < length slots
    → pending (set slots i (get_or slots i [] ++ (x ∷ []))) ≡ pending slots + 1
unfolding pending
pending-set [] i x h = absurd (omega arith)
pending-set (s ∷ slots) zero x h = omega (arith, length-append s (x ∷ []))
pending-set (s ∷ slots) (suc i) x h = omega (arith, pending-set slots i x (omega arith))

pending-clear :
    (slots : List (List Item)) (i : ℕ)
    → i < length slots
    → pending (set slots i []) + length (get_or slots i []) ≡ pending slots
unfolding pending
pending-clear [] i h = absurd (omega arith)
pending-clear (s ∷ slots) zero h = omega arith
pending-clear (s ∷ slots) (suc i) h = omega (arith, pending-clear slots i (omega arith))

-- What scheduling leaves of the wheel's shape.
pub record SameShape (w v : Wheel) : Type 0 where
  pub tick : v.tick ≡ w.tick
  pub position : v.position ≡ w.position
  pub current : v.current ≡ w.current
  pub size : length v.slots ≡ length w.slots

mod_below : (a n : ℕ) → 0 < n → a % n < n
mod_below a zero h = absurd (omega arith)
mod_below a (suc n) h = omega arith

grown :
    (w : Wheel) (i : ℕ) (x : Item)
    → i < length w.slots
    → (pending (set w.slots i (get_or w.slots i [] ++ (x ∷ []))) ≡ pending w.slots + 1)
      × SameShape w (record w { slots = set w.slots i (get_or w.slots i [] ++ (x ∷ [])) })
grown w i x h = (
  pending-set w.slots i x h,
  record { tick = refl; position = refl; current = refl; size = length-set w.slots i _ },
)

-- `Schedule` adds one task to a wheel with slots, whatever its deadline, and moves nothing else.
pub pending-schedule :
    (w : Wheel) (t : Task)
    → 0 < length w.slots
    → (pending (schedule w t).slots ≡ pending w.slots + 1) × SameShape w (schedule w t)
unfolding schedule
pending-schedule w t h = grown w _ _ (mod_below _ (length w.slots) h)

pending-next_round :
    (w : Wheel) (i : Item)
    → w.position < length w.slots
    → (pending (next_round w i).slots ≡ pending w.slots + 1) × SameShape w (next_round w i)
unfolding next_round
pending-next_round w i h = grown w w.position _ h

-- What a visit leaves: each item is in the wheel again or handed on, and those are due.
pub record Visited (w : Wheel) (n : ℕ) (r : Wheel × List Task) : Type 0 where
  pub kept : pending r.0.slots + length r.1 ≡ pending w.slots + n
  pub shape : SameShape w r.0
  pub due : All (λ t. t.deadline ≤ℤ w.current) r.1

after_step :
    (w v : Wheel) (n : ℕ) (r : Wheel × List Task)
    → pending v.slots ≡ pending w.slots + 1
    → SameShape w v
    → Visited v n r
    → Visited w (suc n) r
after_step w v n r p s h = record {
  kept = omega (arith, h.kept);
  shape = record {
    tick = h.shape.tick ∙ s.tick;
    position = h.shape.position ∙ s.position;
    current = h.shape.current ∙ s.current;
    size = h.shape.size ∙ s.size;
  };
  due = rw (← s.current) h.due;
}

visit-Visited :
    (w : Wheel) (items : List Item)
    → w.position < length w.slots
    → Visited w (length items) (visit w items)
unfolding visit
visit-Visited w [] h = record {
  kept = refl;
  shape = record { tick = refl; position = refl; current = refl; size = refl };
  due = tt;
}
visit-Visited w (i ∷ items) h =
    let (pn, sn) = pending-next_round w i h in
    let (ps, ss) = pending-schedule w i.task (omega arith) in
    elim (Bool-cases (ltb 0 i.rounds)) [
      | inl more ↦ rw more (
          after_step w (next_round w i) (length items) _ pn sn
            (visit-Visited (next_round w i) items (omega (arith, sn.position, sn.size))))
      | inr last ↦ elim (Bool-cases (after i.task.deadline w.current)) [
        | inl early ↦
            rw (last, early)
              (after_step w (schedule w i.task) (length items) _ ps ss
                (visit-Visited (schedule w i.task) items (omega (arith, ss.position, ss.size))))
        | inr due ↦
            let rest = visit-Visited w items h in
            rw (last, due)
              (record {
                kept = omega (arith, rest.kept);
                shape = rest.shape;
                due = (ground arith, rest.due);
              })
      ]
    ]

-- One tick of `Advance`, on a wheel whose hand is on a slot and whose tick is positive, neither
-- loses a task nor hands one on early: the tasks in the wheel and those handed on are as many as
-- before, those handed on have reached their deadline at the new time, and the wheel has moved by
-- one tick.
pub one_tick_lem :
    (w : Wheel)
    → IsWheel w
    → (pending (one_tick w).0.slots + length (one_tick w).1 ≡ pending w.slots)
      × All (λ t. t.deadline ≤ℤ (one_tick w).0.current) (one_tick w).1
      × ((one_tick w).0.current ≡ add_time w.current w.tick)
      × ((one_tick w).0.tick ≡ w.tick)
      × IsWheel (one_tick w).0
unfolding one_tick
one_tick_lem w g =
    let at = (w.position + 1) % length w.slots in
    let below : at < length w.slots =
      mod_below (w.position + 1) (length w.slots) (omega (arith, g.on_slot)) in
    let size = length-set w.slots at [] in
    let moved : Wheel = record w {
      current = add_time w.current w.tick;
      position = at;
      slots = set w.slots at [];
    } in
    let v = visit-Visited moved (get_or w.slots at []) (omega (arith, size)) in
    (
      omega (arith, v.kept, pending-clear w.slots at below),
      rw v.shape.current v.due,
      v.shape.current,
      v.shape.tick,
      record {
        on_slot = omega (arith, v.shape.position, v.shape.size, size);
        ticking = rw v.shape.tick g.ticking;
      },
    )
