-- ===== src/Gossip/Select.antt =====
-- Which peers a round goes to and which packets are dropped: backend/internal/gossip/fanout.go and
-- faults.go, and the tests of `Send` in udp.go. What math/rand draws is a parameter.
use mini_eureka.Prelude.{
  ℕ, zero, suc, ◌+◌, ◌<◌, ◌≤◌, ltb, ◌==◌, min, if◌then◌else◌, Bool, true, false, not, ◌&&◌, ◌||◌,
  none, some, List, [], ◌∷◌, length, get_or, set, take, total, ◌≡◌, arith, refl, length-set,
  length-take, Bool-cases, inl, inr, ◌⊎◌,
}
use mini_eureka.Prelude.Int.{ℤ, pos, ltb_ℤ, leb_ℤ, pos_part}
use mini_eureka.Prelude.Text.{Text, text_eq, text_eq_iff}
use mini_eureka.Prelude.Map.{Map, lookup, insert, text_key, lookup-insert}

-- `copyPeers[i], copyPeers[j] = copyPeers[j], copyPeers[i]`, on the part from index i on.
unfoldable pub swap_head : ℕ → Text → List Text → List Text
swap_head zero p peers = p ∷ peers
swap_head (suc j) p peers = get_or peers j p ∷ set peers j p

-- What remains of the loop of `Pick` from an index on: the peer there is swapped with one behind it
-- or with itself, at the drawn distance.
unfoldable pub shuffle : (ℕ → ℕ → ℕ) → ℕ → ℕ → List Text → List Text
unfolding swap_head
shuffle intn draw zero peers = peers
shuffle intn draw (suc count) [] = []
shuffle intn draw (suc count) (p ∷ peers) =
    let swapped = swap_head (intn draw (suc (length peers))) p peers in
    elim swapped [ [] ↦ [] | q ∷ rest ↦ q ∷ shuffle intn (suc draw) count rest ]

-- `Pick`
unfoldable pub pick : (ℕ → ℕ → ℕ) → List Text → ℤ → List Text
unfolding shuffle
pick intn peers count =
    let n = min (pos_part count) (length peers) in
    if leb_ℤ count (pos 0) || length peers == 0 then [] else take n (shuffle intn 0 n peers)

abbrev one_if : Bool → ℕ
one_if true = 1
one_if false = 0

ℕ-cases : (n : ℕ) → (n ≡ 0) ⊎ ((j : ℕ) × (n ≡ suc j))
ℕ-cases zero = inl refl
ℕ-cases (suc j) = inr (j, refl)

-- How often a text stands in a list.
unfoldable pub occurrences : Text → List Text → ℕ
occurrences t xs = total (λ x. one_if (text_eq x t)) xs

occurrences-set :
    (t : Text) (xs : List Text) (j : ℕ) (p : Text)
    → j < length xs
    → occurrences t (set xs j p) + occurrences t (get_or xs j p ∷ [])
      ≡ occurrences t xs + occurrences t (p ∷ [])
unfolding occurrences
occurrences-set t [] j p h = absurd (omega arith)
occurrences-set t (x ∷ xs) zero p h = omega arith
occurrences-set t (x ∷ xs) (suc j) p h = omega (arith, occurrences-set t xs j p (omega arith))

-- What is drawn is below the bound, as `Intn` promises.
unfoldable pub IsBelow : (ℕ → ℕ → ℕ) → Type 0
IsBelow intn = (draw n : ℕ) → 0 < n → intn draw n < n

occurrences-shuffle :
    (intn : ℕ → ℕ → ℕ) (draw count : ℕ) (peers : List Text) (t : Text)
    → IsBelow intn
    → (occurrences t (shuffle intn draw count peers) ≡ occurrences t peers)
      × (length (shuffle intn draw count peers) ≡ length peers)
unfolding shuffle swap_head occurrences IsBelow
occurrences-shuffle intn draw zero peers t h = (refl, refl)
occurrences-shuffle intn draw (suc count) [] t h = (refl, refl)
occurrences-shuffle intn draw (suc count) (p ∷ peers) t h =
    let below = h draw (suc (length peers)) (omega arith) in
    elim (ℕ-cases (intn draw (suc (length peers)))) [
      | inl here ↦
          let rest = occurrences-shuffle intn (suc draw) count peers t h in
          rw (here, shuffle) (omega (arith, rest.0), omega (arith, rest.1))
      | inr (j, there) ↦
          let rest = occurrences-shuffle intn (suc draw) count (set peers j p) t h in
          let kept = occurrences-set t peers j p (omega (arith, below, there)) in
          rw (there, shuffle)
            (omega (arith, rest.0, kept), omega (arith, rest.1, length-set peers j p))
    ]

occurrences-take :
    (t : Text) (n : ℕ) (xs : List Text) → occurrences t (take n xs) ≤ occurrences t xs
unfolding occurrences
occurrences-take t zero xs = omega arith
occurrences-take t (suc n) [] = omega arith
occurrences-take t (suc n) (x ∷ xs) = omega (arith, occurrences-take t n xs)

-- `Pick` takes as many peers as it is asked for, or all, and none more often than it is given: a
-- sample without replacement, whatever is drawn below the bounds.
pub pick_lem :
    (intn : ℕ → ℕ → ℕ) (peers : List Text) (count : ℕ) (t : Text)
    → IsBelow intn
    → (length (pick intn peers (pos count)) ≡ min count (length peers))
      × (occurrences t (pick intn peers (pos count)) ≤ occurrences t peers)
unfolding pick occurrences
pick_lem intn peers count t h =
    let n = min count (length peers) in
    let all = occurrences-shuffle intn 0 n peers t h in
    let taken = length-take n (shuffle intn 0 n peers) in
    let kept = occurrences-take t n (shuffle intn 0 n peers) in
    elim (Bool-cases (leb_ℤ (pos count) (pos 0) || length peers == 0)) [
      | inl bare ↦ rw bare (ground (arith, bare), omega arith)
      | inr some_left ↦ rw some_left (omega (arith, taken, all.1), omega (arith, kept, all.0))
    ]

-- `Fault`
pub record Fault : Type 0 where
  pub peer_node_id : Text
  pub drop_percent : ℤ
  pub blocked : Bool

abbrev pub no_fault : Fault
no_fault = record { peer_node_id = []; drop_percent = pos 0; blocked = false }

-- `Set`: the faults by peer, and what was set.
unfoldable pub set_fault : Fault → Map Text Fault → Map Text Fault × Fault
set_fault f m =
    let floor = if ltb_ℤ f.drop_percent (pos 0) then pos 0 else f.drop_percent in
    let percent = if ltb_ℤ (pos 100) floor then pos 100 else floor in
    let kept = record f { drop_percent = percent } in (insert f.peer_node_id kept m, kept)

-- `Get`, the zero value for a peer without one.
unfoldable pub get_fault : Text → Map Text Fault → Fault
get_fault peer m = elim (lookup peer m) [ none ↦ no_fault | some f ↦ f ]

-- `ShouldDrop`, with what is drawn below 100.
unfoldable pub should_drop : Text → ℕ → Map Text Fault → Bool
unfolding get_fault
should_drop peer roll m =
    let f = get_fault peer m in
    f.blocked || (ltb_ℤ (pos 0) f.drop_percent && ltb_ℤ (pos roll) f.drop_percent)

-- What `Send` does with a packet before it reaches the network.
pub data Sending : Type 0 where
  too_large : Sending
  dropped : Sending
  sent : Sending

-- The tests of `Send`. A transport without faults has no entry for any peer.
unfoldable pub send : ℕ → Map Text Fault → Text → ℕ → Text → Sending
unfolding should_drop
send max_bytes faults peer roll packet =
    if length packet == 0 || ltb max_bytes (length packet)
    then Sending.too_large
    else if should_drop peer roll faults
    then Sending.dropped
    else Sending.sent

-- The limit of `NewUDPTransport`.
unfoldable pub transport_limit : ℤ → ℤ
transport_limit max_bytes =
    if leb_ℤ max_bytes (pos 0) || ltb_ℤ (pos 1200) max_bytes then pos 1200 else max_bytes

-- A fault that is set decides about the packets to its peer: a blocked peer and one with a hundred
-- per cent or more get none, one that is not blocked with none or less gets all, and the packets to
-- the others are treated as before. What is drawn is below 100.
pub set_fault-should_drop :
    (f : Fault) (m : Map Text Fault) (roll : ℕ) (other : Text)
    → roll < 100
    → (leb_ℤ (pos 100) f.drop_percent || f.blocked ≡ true
        → should_drop f.peer_node_id roll (set_fault f m).0 ≡ true)
      × (leb_ℤ f.drop_percent (pos 0) && not f.blocked ≡ true
          → should_drop f.peer_node_id roll (set_fault f m).0 ≡ false)
      × (text_eq f.peer_node_id other ≡ false
          → should_drop other roll (set_fault f m).0 ≡ should_drop other roll m)
unfolding set_fault should_drop get_fault
set_fault-should_drop f m roll other below =
    let self = (text_eq_iff f.peer_node_id f.peer_node_id).1 refl in
    let kept = (set_fault f m).1 in
    (
      λ h. ground (arith, h, self, below, lookup-insert f.peer_node_id f.peer_node_id kept m),
      λ h. ground (arith, h, self, lookup-insert f.peer_node_id f.peer_node_id kept m),
      λ h. ground (arith, h, lookup-insert f.peer_node_id other kept m),
    )
