-- ===== src/Clock/Monotone.antt =====
-- Every version that a clock hands out is greater than what it handed out or observed before.
use mini_eureka.Prelude.{◌≡◌, ◌⊎◌, Ordering, arith, refl, ◌≤◌, ◌<◌, ℕ}
use mini_eureka.Prelude.Int.{ℤ, pos, max_int64, max_uint64, ◌≤ℤ◌, ◌<ℤ◌, +ℤ_parts, max_ℤ}
use mini_eureka.Prelude.Time.{Time, unix_milli}
use mini_eureka.Model.Version.{Version, compare_version}
use mini_eureka.Model.Error.{Error, ok, err}
use mini_eureka.Clock.{Hlc, now, observe, observed, next_logical}

-- A pair of an int64 and a uint64 that are not both at their greatest value.
pub record HasRoom (p : ℤ) (l : ℕ) : Type 0 where
  pub physical : p ≤ℤ max_int64
  pub logical : l ≤ max_uint64
  pub room : (p <ℤ max_int64) ⊎ (l < max_uint64)

-- The order of versions without the node.
abbrev pub Before : ℤ → ℕ → ℤ × ℕ → Type 0
Before p l q = (p <ℤ q.0) ⊎ ((p ≤ℤ q.0) × (l < q.1))

next_logical-Before : (p : ℤ) (l : ℕ) → HasRoom p l → Before p l (next_logical p l)
unfolding next_logical
next_logical-Before p l r = ground (arith, +ℤ_parts p (pos 1))

compare_of_Before :
    (v w : Version)
    → Before v.physical_millis v.logical (w.physical_millis, w.logical)
    → compare_version v w ≡ Ordering.lt
unfolding compare_version
compare_of_Before v w h = ground arith

-- `Now` hands out a version that is strictly greater than the last one, at any reading of the wall
-- clock, also one that has moved back, and keeps it as the clock's last; the last version must not
-- be at the very end of the range of both counters.
pub now-monotone :
    (c : Hlc) (wall : Time)
    → HasRoom c.last.physical_millis c.last.logical
    → (compare_version c.last (now c wall).1 ≡ Ordering.lt) × ((now c wall).0.last ≡ (now c wall).1)
unfolding now
now-monotone c wall r = (
  compare_of_Before c.last (now c wall).1 (
      ground (
        arith,
        next_logical-Before c.last.physical_millis c.last.logical r,
        next_logical-Before (max_ℤ c.last.physical_millis (unix_milli wall)) c.last.logical,
      )),
  refl,
)

observed-Before :
    (physical : ℤ) (last remote : Version)
    → HasRoom last.physical_millis last.logical
    → HasRoom remote.physical_millis remote.logical
    → last.physical_millis ≤ℤ physical
    → remote.physical_millis ≤ℤ physical
    → Before last.physical_millis last.logical (observed physical last remote)
      × Before remote.physical_millis remote.logical (observed physical last remote)
unfolding observed
observed-Before physical last remote r s h k =
    ground (
      arith,
      next_logical-Before physical last.logical,
      next_logical-Before physical remote.logical,
    )

abbrev merged : Hlc → Version → Time → ℤ
merged c remote wall = max_ℤ (unix_milli wall) (max_ℤ c.last.physical_millis remote.physical_millis)

observe_inv :
    (c : Hlc) (remote : Version) (wall : Time) (v : Version)
    → (observe c remote wall).1 ≡ ok v
    → (v.physical_millis ≡ (observed (merged c remote wall) c.last remote).0)
      × (v.logical ≡ (observed (merged c remote wall) c.last remote).1)
      × ((observe c remote wall).0.last ≡ v)
unfolding observe
observe_inv c remote wall v h = ground arith

-- What `Observe` returns when it accepts a remote version is strictly greater than the clock's
-- last version and than the remote version, and is kept as the last. Both versions must leave room
-- in the range of the two counters.
pub observe-monotone :
    (c : Hlc) (remote : Version) (wall : Time) (v : Version)
    → HasRoom c.last.physical_millis c.last.logical
    → HasRoom remote.physical_millis remote.logical
    → (observe c remote wall).1 ≡ ok v
    → (compare_version c.last v ≡ Ordering.lt)
      × (compare_version remote v ≡ Ordering.lt)
      × ((observe c remote wall).0.last ≡ v)
observe-monotone c remote wall v r s h =
    let (p, l, last) = observe_inv c remote wall v h in
    let (own, peer) =
      observed-Before (merged c remote wall) c.last remote r s (ground arith) (ground arith) in
    (compare_of_Before c.last v (rw (p, l) own), compare_of_Before remote v (rw (p, l) peer), last)

-- Where `Observe` returns an error, the clock is as it was.
pub observe_refused :
    (c : Hlc) (remote : Version) (wall : Time) (e : Error)
    → (observe c remote wall).1 ≡ err e
    → (observe c remote wall).0 ≡ c
unfolding observe
observe_refused c remote wall e h = ground arith
