-- ===== src/Gossip/Rounds.antt =====
-- For how long the gossip engine spreads a mutation: `Enqueue` and `pendingForRound` of
-- backend/internal/gossip/engine.go.
use mini_eureka.Prelude.{
  ℕ, zero, suc, ◌+◌, ◌-◌, ◌<◌, ◌≤◌, if◌then◌else◌, false, Option, none, some, List, [], ◌∷◌, ◌≡◌,
  arith, refl, ap, subst, ◌∙◌, Bool-cases, Option-cases, inl, inr,
}
use mini_eureka.Prelude.Int.{pos, leb_ℤ, ◌-ℤ◌}
use mini_eureka.Prelude.Text.{Text, text_eq, text_eq_iff}
use mini_eureka.Prelude.Map.{Map, lookup, text_key, Distinct, lookup-insert, insert-Distinct}
use mini_eureka.Model.Mutation.{Mutation}
use mini_eureka.Gossip.Engine.{
  Engine, Pending, enqueue, meta_or, own_meta, pending_for_round, queued, spend,
}

-- What becomes of a queue's entry in a round.
unfoldable spent : Option Pending → Option Pending
spent none = none
spent (some p) =
    if leb_ℤ (p.rounds -ℤ pos 1) (pos 0)
    then none
    else some (record p { rounds = p.rounds -ℤ pos 1 })

lookup-spend :
    (k : Text) (m : Map Text Pending) → Distinct m → lookup k (spend m).0 ≡ spent (lookup k m)
unfolding spend spent lookup Distinct
lookup-spend k [] h = refl
lookup-spend k ((id, p) ∷ m) h =
    let rest = lookup-spend k m h.1 in
    elim (Bool-cases (text_eq id k)) [
      | inl here ↦
          let e = (text_eq_iff id k).0 here in
          let missing = lookup-spend id m h.1 in
          rw here (elim (Bool-cases (leb_ℤ (p.rounds -ℤ pos 1) (pos 0))) [
            | inl last ↦
                rw last (subst (λ x. lookup x (spend m).0 ≡ none) e (missing ∙ ap spent h.0))
            | inr more ↦ rw more (rw here refl)
          ])
      | inr there ↦ ground (arith, there, rest)
    ]

spend-Distinct : (m : Map Text Pending) → Distinct m → Distinct (spend m).0
unfolding spend spent Distinct
spend-Distinct [] h = h
spend-Distinct ((id, p) ∷ m) h =
    let rest = spend-Distinct m h.1 in
    let missing = lookup-spend id m h.1 in
    elim (Bool-cases (leb_ℤ (p.rounds -ℤ pos 1) (pos 0))) [
      | inl last ↦ rw last rest
      | inr more ↦ rw more (missing ∙ ap spent h.0, rest)
    ]

-- The engine after a number of rounds.
unfoldable pub after_rounds : ℕ → Engine → Engine
after_rounds zero e = e
after_rounds (suc n) e = after_rounds n (pending_for_round e).0

-- What a round sends is the whole queue.
unfoldable pub queue_of : Map Text Pending → List Pending
queue_of [] = []
queue_of ((id, p) ∷ m) = p ∷ queue_of m

sent-queue : (m : Map Text Pending) → (spend m).1 ≡ queue_of m
unfolding spend queue_of
sent-queue [] = refl
sent-queue ((id, p) ∷ m) = ap (λ l. p ∷ l) (sent-queue m)

spent_times : ℕ → Option Pending → Option Pending
spent_times zero o = o
spent_times (suc n) o = spent_times n (spent o)

after_rounds-spent :
    (n : ℕ) (k : Text) (e : Engine)
    → Distinct e.pending
    → lookup k (after_rounds n e).pending ≡ spent_times n (lookup k e.pending)
unfolding after_rounds pending_for_round spent_times
after_rounds-spent zero k e h = refl
after_rounds-spent (suc n) k e h =
    after_rounds-spent n k (pending_for_round e).0 (spend-Distinct e.pending h)
    ∙ ap (spent_times n) (lookup-spend k e.pending h)

spent_times-none : (n : ℕ) → spent_times n none ≡ none
unfolding spent_times spent
spent_times-none zero = refl
spent_times-none (suc n) = spent_times-none n

one-less : (n : ℕ) → pos (suc n) -ℤ pos 1 ≡ pos n
unfolding ◌-ℤ◌
one-less n = ground arith

spent-last : (p : Pending) → p.rounds ≡ pos 1 → spent (some p) ≡ none
unfolding spent
spent-last p h = let left = one-less 0 in rw h (rw left refl)

spent-more :
    (r : ℕ) (p : Pending)
    → p.rounds ≡ pos (suc (suc r))
    → spent (some p) ≡ some (record p { rounds = pos (suc r) })
unfolding spent
spent-more r p h =
    let left = one-less (suc r) in
    let some_left : leb_ℤ (pos (suc r)) (pos 0) ≡ false = ground arith in
    rw h (rw left (rw some_left refl))

-- An entry with a number of rounds left stays for all of them but the last.
spent_times-some :
    (n r : ℕ) (p : Pending)
    → p.rounds ≡ pos (n + suc r)
    → spent_times n (some p) ≡ some (record p { rounds = pos (suc r) })
unfolding spent_times
spent_times-some zero r p h = let e : p.rounds ≡ pos (suc r) = h ∙ ap pos (omega arith) in rw e refl
spent_times-some (suc n) r p h =
    let e : p.rounds ≡ pos (suc (suc (n + r))) = h ∙ ap pos (omega arith) in
    ap (spent_times n) (spent-more (n + r) p e)
    ∙ spent_times-some n r (record p { rounds = pos (suc (n + r)) }) (ap pos (omega arith))

spent_times-out :
    (n r : ℕ) (p : Pending) → p.rounds ≡ pos (suc r) → r < n → spent_times n (some p) ≡ none
unfolding spent_times
spent_times-out zero r p h l = absurd (omega arith)
spent_times-out (suc n) zero p h l = ap (spent_times n) (spent-last p h) ∙ spent_times-none n
spent_times-out (suc n) (suc r) p h l =
    ap (spent_times n) (spent-more r p h)
    ∙ spent_times-out n r (record p { rounds = pos (suc r) }) refl (omega arith)

-- The entry that `Enqueue` leaves in the queue.
unfoldable pub entry_of : Mutation → Engine → Pending
unfolding enqueue
entry_of m e =
    queued e.config m (meta_or (own_meta e.config m) (lookup m.event_id e.incoming_meta))
      (lookup m.event_id e.pending)

entry_of-rounds :
    (m : Mutation) (e : Engine) (r : ℕ)
    → e.config.pending_rounds ≡ pos (suc r)
    → (entry_of m e).rounds ≡ pos (suc r)
unfolding entry_of queued
entry_of-rounds m e r h = elim (Option-cases (lookup m.event_id e.pending)) [
  | inl new ↦ rw new h
  | inr (p, old) ↦ rw old h
]

enqueue-lookup :
    (m : Mutation) (e : Engine) → lookup m.event_id (enqueue m e).pending ≡ some (entry_of m e)
unfolding enqueue entry_of
enqueue-lookup m e = ground (
  arith,
  lookup-insert m.event_id m.event_id (entry_of m e) e.pending,
  (text_eq_iff m.event_id m.event_id).1 refl,
)

enqueue-Distinct : (m : Mutation) (e : Engine) → Distinct e.pending → Distinct (enqueue m e).pending
unfolding enqueue
enqueue-Distinct m e h = insert-Distinct m.event_id _ e.pending h

-- A mutation that is enqueued goes out with each of the next `PendingRounds` rounds and with no later
-- one, while it is not enqueued again: the rounds send the whole queue, its entry is in the queue
-- before the first of them and before each next one, with one round fewer left, and is gone after the
-- last. Each event ID stands once in the queue.
pub enqueue_rounds :
    (m : Mutation) (e : Engine) (r n : ℕ)
    → Distinct e.pending
    → e.config.pending_rounds ≡ pos (suc r)
    → ((pending_for_round (after_rounds n (enqueue m e))).1
        ≡ queue_of (after_rounds n (enqueue m e)).pending)
      × (n ≤ r
          → lookup m.event_id (after_rounds n (enqueue m e)).pending
            ≡ some (record (entry_of m e) { rounds = pos (suc (r - n)) }))
      × (r < n → lookup m.event_id (after_rounds n (enqueue m e)).pending ≡ none)
unfolding pending_for_round
enqueue_rounds m e r n distinct configured =
    let found = enqueue-lookup m e in
    let left = entry_of-rounds m e r configured in
    let later = after_rounds-spent n m.event_id (enqueue m e) (enqueue-Distinct m e distinct) in
    (
      sent-queue (after_rounds n (enqueue m e)).pending,
      λ h.
          later
          ∙ ap (spent_times n) found
          ∙ spent_times-some n (r - n) (entry_of m e) (left ∙ ap pos (omega arith)),
      λ h. later ∙ ap (spent_times n) found ∙ spent_times-out n r (entry_of m e) left h,
    )
