-- ===== src/Api/Limits.antt =====
-- How many requests of a client the rate limiter of backend/internal/api/middleware.go allows.
use mini_eureka.Prelude.{
  ℕ, suc, ◌+◌, ◌≤◌, ltb, leb, ◌⊎◌, length, if◌then◌else◌, true, false, not, ◌&&◌, ◌||◌, some, List,
  [], ◌∷◌, keep, ◌≡◌, arith, refl, ap, ◌∙◌, All, Bool-cases, inl, inr,
}
use mini_eureka.Prelude.Int.{pos, leb_ℤ, ◌+ℤ◌}
use mini_eureka.Prelude.Text.{Text, text_eq, text_eq_iff}
use mini_eureka.Prelude.Time.{Time, is_zero_time}
use mini_eureka.Prelude.Map.{Map, lookup, insert, lookup-insert, text_key}
use mini_eureka.Api.{RateEntry, RateLimiter, allow, entry_or_zero, is_over, sweep_clients}

-- The requests in order, each with its client and the time at which it comes: how many of one client
-- are allowed.
unfoldable pub admitted : Text → List (Text × Time) → RateLimiter → ℕ
admitted k [] l = 0
admitted k ((client, now) ∷ xs) l =
    let rest = admitted k xs (allow client now l).0 in
    if text_eq client k && (allow client now l).1 then rest + 1 else rest

lookup-keep :
    (now : Time) (k : Text) (e : RateEntry) (m : Map Text RateEntry)
    → lookup k m ≡ some e
    → is_over now e ≡ false
    → lookup k (keep (λ x. not (is_over now x.1)) m) ≡ some e
unfolding lookup
lookup-keep now k e [] h fresh = absurd (ground (arith, h))
lookup-keep now k e ((j, f) ∷ m) h fresh = elim (Bool-cases (text_eq j k)) [
  | inl here ↦ let same : f ≡ e = ground (arith, h, here) in rw same (rw fresh (rw here refl))
  | inr there ↦
      let rest = lookup-keep now k e m (ground (arith, h, there)) fresh in
      elim (Bool-cases (is_over now f)) [ inl old ↦ rw old rest | inr new ↦ rw new (rw there rest) ]
]

lookup-sweep :
    (now : Time) (k : Text) (e : RateEntry) (m : Map Text RateEntry)
    → lookup k m ≡ some e
    → is_over now e ≡ false
    → lookup k (sweep_clients now m) ≡ some e
unfolding sweep_clients
lookup-sweep now k e m h fresh = elim (Bool-cases (ltb 10000 (length m))) [
  | inl large ↦ rw large (lookup-keep now k e m h fresh)
  | inr small ↦ rw small h
]

-- A request of another client leaves an entry whose minute is not over as it is.
other-allow :
    (client k : Text) (now : Time) (e : RateEntry) (l : RateLimiter)
    → text_eq client k ≡ false
    → lookup k l.clients ≡ some e
    → is_over now e ≡ false
    → (lookup k (allow client now l).0.clients ≡ some e) × ((allow client now l).0.limit ≡ l.limit)
unfolding allow
other-allow client k now e l apart h fresh =
    let other = entry_or_zero (lookup client l.clients) in
    let counted = insert client (record other { count = other.count +ℤ pos 1 }) l.clients in
    let kept : lookup k counted ≡ some e = ground (
      arith,
      h,
      apart,
      lookup-insert client k (record other { count = other.count +ℤ pos 1 }) l.clients,
    ) in
    let swept = lookup-sweep now k e counted kept fresh in
    elim (Bool-cases (is_zero_time other.window || is_over now other)) [
      | inl new ↦ rw new (
        ground (
          arith,
          h,
          apart,
          lookup-insert client k (record { window = now; count = pos 1 }) l.clients,
        ),
        refl,
      )
      | inr old ↦ elim (Bool-cases (leb_ℤ l.limit other.count)) [
        | inl full ↦ rw old (rw full (h, refl))
        | inr free ↦ rw old (rw free (swept, refl))
      ]
    ]

one-more : (c : ℕ) → pos c +ℤ pos 1 ≡ pos (suc c)
unfolding ◌+ℤ◌
one-more c = ground arith

own-allow :
    (k : Text) (now : Time) (e : RateEntry) (l : RateLimiter) (n c : ℕ)
    → lookup k l.clients ≡ some e
    → is_zero_time e.window ≡ false
    → is_over now e ≡ false
    → l.limit ≡ pos n
    → e.count ≡ pos c
    → ((leb n c ≡ true) × (allow k now l ≡ (l, false)))
      ⊎ ((leb n c ≡ false)
          × ((allow k now l).1 ≡ true)
          × (lookup k (allow k now l).0.clients ≡ some (record e { count = pos (suc c) }))
          × ((allow k now l).0.limit ≡ pos n))
unfolding allow
own-allow k now e l n c h started fresh limit count =
    let more = record e { count = e.count +ℤ pos 1 } in
    let counted = insert k more l.clients in
    let next : e.count +ℤ pos 1 ≡ pos (suc c) = rw count (one-more c) in
    let stored : lookup k counted ≡ some more =
      ground (arith, (text_eq_iff k k).1 refl, lookup-insert k k more l.clients) in
    let swept = lookup-sweep now k more counted stored fresh in
    elim (Bool-cases (leb n c)) [
      | inl full ↦
          let stop : leb_ℤ l.limit e.count ≡ true = ground (arith, limit, count, full) in
          inl (full, rw h (rw started (rw fresh (rw stop refl))))
      | inr free ↦
          let go : leb_ℤ l.limit e.count ≡ false = ground (arith, limit, count, free) in
          inr (
            free,
            rw h (rw started (rw fresh (rw go refl))),
            rw h (
                rw started
                  (rw fresh (rw go (swept ∙ ap (λ z. some (record e { count = z })) next)))),
            rw h (rw started (rw fresh (rw go limit))),
          )
    ]

admitted-entry :
    (k : Text) (xs : List (Text × Time)) (e : RateEntry) (l : RateLimiter) (n c : ℕ)
    → lookup k l.clients ≡ some e
    → is_zero_time e.window ≡ false
    → All (λ x. is_over x.1 e ≡ false) xs
    → l.limit ≡ pos n
    → e.count ≡ pos c
    → c ≤ n
    → admitted k xs l + c ≤ n
unfolding admitted
admitted-entry k [] e l n c h started fresh limit count within = omega arith
admitted-entry k ((client, now) ∷ xs) e l n c h started fresh limit count within =
    elim (Bool-cases (text_eq client k)) [
      | inr apart ↦
          let other = other-allow client k now e l apart h fresh.0 in
          let rest =
            admitted-entry k xs e (allow client now l).0 n c other.0 started fresh.1
              (other.1 ∙ limit) count within in
          rw apart rest
      | inl here ↦
          let same = (text_eq_iff client k).0 here in
          elim (own-allow k now e l n c h started fresh.0 limit count) [
            | inl (full, refused) ↦
                let rest = admitted-entry k xs e l n c h started fresh.1 limit count within in
                rw same (rw refused (ground (arith, rest)))
            | inr (free, taken, stored, limit') ↦
                let rest =
                  admitted-entry k xs (record e { count = pos (suc c) }) (allow k now l).0 n (suc c)
                    stored started fresh.1 limit' refl (ground arith) in
                rw same (rw taken (ground (arith, rest, (text_eq_iff k k).1 refl)))
          ]
    ]

-- From the request of a client that opens a window on, being its first or the first after a minute,
-- no more requests of the client are allowed than the limit, while all requests that come are within
-- a minute of it, whatever other clients ask for and though old windows are swept.
pub admitted_bounded :
    (k : Text) (now : Time) (xs : List (Text × Time)) (l : RateLimiter) (n : ℕ)
    → (is_zero_time (entry_or_zero (lookup k l.clients)).window
        || is_over now (entry_or_zero (lookup k l.clients)))
      ≡ true
    → is_zero_time now ≡ false
    → All (λ x. is_over x.1 (record { window = now; count = pos 1 }) ≡ false) xs
    → l.limit ≡ pos (suc n)
    → admitted k ((k, now) ∷ xs) l ≤ suc n
unfolding admitted
admitted_bounded k now xs l n opens started fresh limit =
    let opened : allow k now l ≡ (
      record l { clients = insert k (record { window = now; count = pos 1 }) l.clients },
      true,
    ) =
      unfold allow in rw opens refl in
    let e : RateEntry = record { window = now; count = pos 1 } in
    let clients = insert k e l.clients in
    let self = (text_eq_iff k k).1 refl in
    let stored : lookup k clients ≡ some e = ground (arith, self, lookup-insert k k e l.clients) in
    let rest =
      admitted-entry k xs e (record l { clients = clients }) (suc n) 1 stored started fresh limit
        refl (omega arith) in
    rw self (rw opened (ground (arith, rest)))
