-- ===== src/Gossip/Turns.antt =====
-- Every digest and every member gets its turn: the cursors of `digestsForRound` and
-- `membersForRound` of backend/internal/gossip/engine.go.
use mini_eureka.Prelude.{
  ℕ, zero, suc, ◌+◌, ◌-◌, ◌*◌, ◌/◌, ◌%◌, ◌<◌, leb, true, false, some, List, [], ◌∷◌, length,
  get_elem?, get_or, ◌≡◌, arith, refl, ap, sym, ◌∙◌, Bool-cases, inl, inr,
}
use native.Mathlib.Nat.{
  mod-mod, mod-add-mod, add-mod-mod, mod-lt, mod-eq_of_lt, add-mod_right, div-add-mod,
}
use mini_eureka.Gossip.Engine.{window, take_round}

get_elem?-get_or :
    {A : Type 0} (xs : List A) (i : ℕ) (d : A)
    → i < length xs
    → get_elem? xs i ≡ some (get_or xs i d)
get_elem?-get_or [] i d h = absurd (omega arith)
get_elem?-get_or (x ∷ xs) zero d h = refl
get_elem?-get_or (x ∷ xs) (suc i) d h = get_elem?-get_or xs i d (omega arith)

get_elem?-window :
    {A : Type 0} (d : A) (all : List A) (start width j : ℕ)
    → j < width
    → get_elem? (window d all start width) j ≡ some (get_or all ((start + j) % length all) d)
unfolding window
get_elem?-window d all start zero j h = absurd (omega arith)
get_elem?-window d all start (suc width) zero h =
    ap (λ k. some (get_or all (k % length all) d)) (omega arith)
get_elem?-window d all start (suc width) (suc j) h =
    get_elem?-window d all (start + 1) width j (omega arith)
    ∙ ap (λ k. some (get_or all (k % length all) d)) (omega arith)

-- The cursor after a number of rounds over the same list.
unfoldable pub cursor_after : {A : Type 0} → ℕ → ℕ → List A → ℕ → ℕ
cursor_after zero per_round all cursor = cursor
cursor_after (suc k) per_round all cursor =
    (take_round per_round all (cursor_after k per_round all cursor)).1

take_round-wide :
    {A : Type 0} (per_round : ℕ) (a : A) (others : List A) (cursor : ℕ)
    → leb (length (a ∷ others)) per_round ≡ false
    → take_round per_round (a ∷ others) cursor ≡ (
      window a (a ∷ others) (cursor % length (a ∷ others)) per_round,
      (cursor + per_round) % length (a ∷ others),
    )
unfolding take_round
take_round-wide per_round a others cursor h = rw h refl

cursor_after-mod :
    {A : Type 0} (k per_round : ℕ) (a : A) (others : List A) (cursor : ℕ)
    → leb (length (a ∷ others)) per_round ≡ false
    → cursor_after k per_round (a ∷ others) cursor % length (a ∷ others)
      ≡ (cursor + k * per_round) % length (a ∷ others)
unfolding cursor_after
cursor_after-mod zero per_round a others cursor h = ap (λ x. x % length (a ∷ others)) (omega arith)
cursor_after-mod (suc k) per_round a others cursor h =
    let n = length (a ∷ others) in
    let c = cursor_after k per_round (a ∷ others) cursor in
    let step : (c + per_round) % n % n ≡ (c + per_round) % n = mod-mod (c + per_round) n in
    let last = cursor_after-mod k per_round a others cursor h in
    ap (λ x. x.1 % n) (take_round-wide per_round a others c h)
    ∙ step
    ∙ sym (mod-add-mod c n per_round)
    ∙ ap (λ x. (x + per_round) % n) last
    ∙ mod-add-mod (cursor + k * per_round) n per_round
    ∙ ap (λ x. x % n) (omega arith)

-- The turn of an index: how far it is from the cursor, in whole rounds and what is left.
turn-index :
    (n cursor i per_round : ℕ)
    → i < n
    → 0 < per_round
    → (cursor
          + ((i + (n - cursor % n)) % n / per_round) * per_round
          + (i + (n - cursor % n)) % n % per_round)
        % n
      ≡ i
turn-index n cursor i per_round h w =
    let d = (i + (n - cursor % n)) % n in
    let small = mod-lt cursor {m = n} (omega arith) in
    let whole = div-add-mod d per_round in
    let sum : cursor + (d / per_round) * per_round + d % per_round ≡ cursor + d =
      omega (arith, whole) in
    ap (λ x. x % n) sum
    ∙ add-mod-mod cursor (i + (n - cursor % n)) n
    ∙ sym (mod-add-mod cursor n (i + (n - cursor % n)))
    ∙ ap (λ x. x % n) (omega (arith, small))
    ∙ add-mod_right i n
    ∙ mod-eq_of_lt h

whole-round :
    {A : Type 0} (per_round : ℕ) (a : A) (others : List A) (cursor i : ℕ)
    → leb (length (a ∷ others)) per_round ≡ true
    → get_elem? (take_round per_round (a ∷ others) cursor).0 i ≡ get_elem? (a ∷ others) i
unfolding take_round
whole-round per_round a others cursor i h = rw h refl

-- Every item of a list gets its turn, wherever the cursor stands: it is taken in one of as many
-- consecutive rounds over the same list as it takes to go round it once.
pub every_turn :
    {A : Type 0} (per_round : ℕ) (all : List A) (cursor i : ℕ)
    → 0 < per_round
    → i < length all
    → (k : ℕ) × (k * per_round < length all)
      × (j : ℕ) × (get_elem? (take_round per_round all (cursor_after k per_round all cursor)).0 j
          ≡ get_elem? all i)
every_turn per_round [] cursor i w h = absurd (omega arith)
every_turn {A = A} per_round (a ∷ others) cursor i w h =
    let all : List A = a ∷ others in
    let n = length all in
    let d = (i + (n - cursor % n)) % n in
    elim (Bool-cases (leb n per_round)) [
      | inl short ↦
          (0, omega arith, i, unfold cursor_after in whole-round per_round a others cursor i short)
      | inr wide ↦
          let k = d / per_round in
          let c = cursor_after k per_round all cursor in
          let inside = mod-lt (i + (n - cursor % n)) {m = n} (omega arith) in
          let small = mod-lt d {m = per_round} w in
          let whole = div-add-mod d per_round in
          (
            k,
            omega (arith, whole, inside),
            d % per_round,
            ap (λ x. get_elem? x.0 (d % per_round)) (take_round-wide per_round a others c wide)
                ∙ get_elem?-window a all (c % n) per_round (d % per_round) small
                ∙ ap (λ x. some (get_or all ((x + d % per_round) % n) a))
                    (cursor_after-mod k per_round a others cursor wide)
                ∙ ap (λ x. some (get_or all x a))
                    (mod-add-mod (cursor + k * per_round) n (d % per_round)
                      ∙ turn-index n cursor i per_round h w)
                ∙ sym (get_elem?-get_or all i a h),
          )
    ]
