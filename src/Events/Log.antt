-- ===== src/Events/Log.antt =====
-- The event log: it holds the newest events without a gap, and pages of it continue a cursor.
use mini_eureka.Prelude.{
  ℕ, suc, ◌+◌, ◌-◌, ◌≤◌, ◌<◌, ◌^◌, ◌==◌, min, List, [], ◌∷◌, ◌++◌, length, drop, length-append, ◌≡◌,
  ◌↔◌, arith, refl, Bool-cases, inl, inr, true, false, leb, ap, ◌∙◌, sym,
}
use native.Mathlib.Numerals.{add-one}
use mini_eureka.Prelude.Int.{ℤ}
use mini_eureka.Prelude.Time.{Time}
use mini_eureka.Model.Error.{ok, err}
use mini_eureka.Events.{
  add_uint64, Event, Ring, stamp, append_event, publish, collect, since, is_stale_cursor,
  page_limit, cursor_expired, nat_key,
}

-- The events' numbers run from `a` up to, and without, `b`.
abbrev pub Consecutive : ℕ → List Event → ℕ → Type 0
Consecutive a [] b = a ≡ b
Consecutive a (e ∷ es) b = (e.seq ≡ a) × Consecutive (suc a) es b

-- The log holds the newest events, as many as fit, numbered without a gap up to the last one.
pub record IsLog (r : Ring) : Type 0 where
  pub room : 0 < r.capacity
  pub started : 0 < r.next_seq
  pub count : length r.entries ≡ min r.capacity (r.next_seq - 1)
  pub run : Consecutive (r.next_seq - length r.entries) r.entries r.next_seq

pub Consecutive-length : (a b : ℕ) (es : List Event) → Consecutive a es b → a + length es ≡ b
Consecutive-length a b [] h = omega arith
Consecutive-length a b (e ∷ es) h = omega (arith, Consecutive-length (suc a) b es h.1)

Consecutive-snoc :
    (a b : ℕ) (es : List Event) (e : Event)
    → Consecutive a es b
    → e.seq ≡ b
    → Consecutive a (es ++ (e ∷ [])) (suc b)
Consecutive-snoc a b [] e h k = (k ∙ sym h, ap suc h)
Consecutive-snoc a b (x ∷ es) e h k = (h.0, Consecutive-snoc (suc a) b es e h.1 k)

Consecutive-drop :
    (a b : ℕ) (es : List Event)
    → Consecutive a es b
    → 0 < length es
    → Consecutive (suc a) (drop 1 es) b
Consecutive-drop a b [] h k = absurd (omega arith)
Consecutive-drop a b (e ∷ es) h k = h.1

length-drop_one : (es : List Event) → length (drop 1 es) ≡ length es - 1
length-drop_one [] = omega arith
length-drop_one (e ∷ es) = omega arith

-- The log after one more event.
append-count :
    (room n : ℕ) (es : List Event) (e : Event)
    → 0 < room
    → 0 < n
    → length es ≡ min room (n - 1)
    → length (append_event room es e) ≡ min room n
unfolding append_event
append-count room n es e c k h = ground (
  arith,
  length-drop_one es,
  length-append {0} es (e ∷ []),
  length-append {0} (drop 1 es) (e ∷ []),
)

append-run :
    (room n : ℕ) (es : List Event) (e : Event)
    → 0 < room
    → 0 < n
    → length es ≡ min room (n - 1)
    → Consecutive (n - length es) es n
    → e.seq ≡ n
    → Consecutive (n + 1 - min room n) (append_event room es e) (n + 1)
unfolding append_event
append-run room n es e c k h run q = elim (Bool-cases (length es == room)) [
  | inl full ↦
      let start : n + 1 - min room n ≡ suc (n - length es) = ground arith in
      rw full (
        rw (start, add-one)
          (Consecutive-snoc (suc (n - length es)) n (drop 1 es) e
            (Consecutive-drop (n - length es) n es run (ground arith)) q))
  | inr short ↦
      let start : n + 1 - min room n ≡ n - length es = ground arith in
      rw short (rw (start, add-one) (Consecutive-snoc (n - length es) n es e run q))
]

-- `Publish` keeps a log gapless and full of the newest events, as long as the 64-bit number does
-- not overflow; the event it returns has the number that was next.
pub publish-IsLog :
    (r : Ring) (e : Event) (now : Time)
    → IsLog r
    → r.next_seq + 1 < 2 ^ 64
    → IsLog (publish r e now).0
      × ((publish r e now).1.seq ≡ r.next_seq)
      × ((publish r e now).0.next_seq ≡ r.next_seq + 1)
unfolding publish
publish-IsLog r e now g h =
    let event = stamp r e now in
    let next : add_uint64 r.next_seq 1 ≡ r.next_seq + 1 = omega arith in
    let count = append-count r.capacity r.next_seq r.entries event g.room g.started g.count in
    let run =
      append-run r.capacity r.next_seq r.entries event g.room g.started g.count g.run
        (unfold stamp in refl) in
    (
      record {
        room = g.room;
        started = omega arith;
        count = count ∙ omega arith;
        run = rw (next, count) run;
      },
      unfold stamp in refl,
      next,
    )

-- Pages: with `left` places, what follows a cursor inside the log.
collect_take :
    (cursor left a b : ℕ) (es : List Event)
    → Consecutive a es b
    → cursor < a
    → 0 < left
    → Consecutive a (collect cursor left es) (a + min left (b - a))
unfolding collect
collect_take cursor left a b [] h k l = omega arith
collect_take cursor left a b (e ∷ es) h k l = elim (Bool-cases (left == 1)) [
  | inl one ↦
      let big : leb e.seq cursor ≡ false = ground arith in
      let last : suc a ≡ a + min left (b - a) =
        ground (arith, Consecutive-length (suc a) b es h.1) in
      rw (big, one) (h.0, last)
  | inr more ↦
      let big : leb e.seq cursor ≡ false = ground arith in
      let end : a + min left (b - a) ≡ suc a + min (left - 1) (b - suc a) =
        ground (arith, Consecutive-length (suc a) b es h.1) in
      rw (big, more, end)
        (h.0, collect_take cursor (left - 1) (suc a) b es h.1 (omega arith) (ground arith))
]

collect_skip :
    (cursor left a b : ℕ) (es : List Event)
    → Consecutive a es b
    → a ≤ suc cursor
    → cursor < b
    → 0 < left
    → Consecutive (suc cursor) (collect cursor left es) (suc cursor + min left (b - suc cursor))
unfolding collect
collect_skip cursor left a b [] h k c l = omega arith
collect_skip cursor left a b (e ∷ es) h k c l = elim (Bool-cases (leb e.seq cursor)) [
  | inl old ↦ rw old (collect_skip cursor left (suc a) b es h.1 (ground arith) c l)
  | inr new ↦
      let here : a ≡ suc cursor = ground arith in
      rw (← here) (collect_take cursor left a b (e ∷ es) h (omega arith) l)
]

pub stale_true :
    (cursor a b : ℕ) (es : List Event)
    → Consecutive a es b
    → 0 < a
    → a < 2 ^ 64
    → is_stale_cursor cursor es ≡ true
    → cursor + 1 < a
unfolding is_stale_cursor
stale_true cursor a b [] h p q s = cc
stale_true cursor a b (e ∷ es) h p q s = ground arith

stale_false :
    (cursor a b : ℕ) (es : List Event)
    → Consecutive a es b
    → 0 < length es
    → 0 < cursor
    → 0 < a
    → a < 2 ^ 64
    → is_stale_cursor cursor es ≡ false
    → a ≤ cursor + 1
unfolding is_stale_cursor
stale_false cursor a b [] h l c p q s = absurd (omega arith)
stale_false cursor a b (e ∷ es) h l c p q s = ground arith

page_limit_pos : (limit : ℤ) → 0 < page_limit limit
page_limit_pos limit = ground arith

-- `Since` on such a log refuses a cursor among the numbers given out exactly when the event after
-- it has left the log.
pub since_expired :
    (r : Ring) (cursor : ℕ) (limit : ℤ)
    → IsLog r
    → r.next_seq < 2 ^ 64
    → 0 < cursor
    → cursor < r.next_seq
    → ((since r cursor limit).0 ≡ err cursor_expired) ↔ (cursor + 1 < r.next_seq - length r.entries)
unfolding since
since_expired r cursor limit g h p q =
    let a = r.next_seq - length r.entries in
    elim (Bool-cases (is_stale_cursor cursor r.entries)) [
      | inl stale ↦ rw stale (
        λ _.
            stale_true cursor a r.next_seq r.entries g.run (ground (arith, g.count)) (omega arith)
              stale,
        λ _. refl,
      )
      | inr fresh ↦ rw fresh (
        λ e. cc,
        λ gap. absurd (
            omega (
              arith,
              stale_false cursor a r.next_seq r.entries g.run (ground (arith, g.count)) p
                  (ground (arith, g.count)) (omega arith) fresh,
            )),
      )
    ]

-- A page of `Since` on such a log, after a cursor among the numbers given out that the log still
-- reaches, has no gap: it starts with the event after the cursor, its numbers are consecutive, and
-- it has as many events as the limit allows or as there are.
pub since_gapless :
    (r : Ring) (cursor : ℕ) (limit : ℤ)
    → IsLog r
    → r.next_seq < 2 ^ 64
    → cursor < r.next_seq
    → r.next_seq - length r.entries ≤ cursor + 1
    → (es : List Event) × ((since r cursor limit).0 ≡ ok es)
      × Consecutive (suc cursor) es (suc cursor + min (page_limit limit) (r.next_seq - suc cursor))
unfolding since
since_gapless r cursor limit g h q reach =
    let a = r.next_seq - length r.entries in
    elim (Bool-cases (is_stale_cursor cursor r.entries)) [
      | inl stale ↦ absurd (
          omega (
            arith,
            stale_true cursor a r.next_seq r.entries g.run (ground (arith, g.count)) (omega arith)
                stale,
          ))
      | inr fresh ↦ (
        collect cursor (page_limit limit) r.entries,
        rw fresh,
        collect_skip cursor (page_limit limit) a r.next_seq r.entries g.run (omega arith) q
            (page_limit_pos limit),
      )
    ]
