-- ===== src/Gossip/Complete.antt =====
-- What one anti-entropy exchange brings: the loop of `SyncPeer` in
-- backend/internal/gossip/anti_entropy.go against its responses.
use mini_eureka.Prelude.{
  ℕ, zero, suc, ◌+◌, ◌*◌, ◌<◌, ◌≤◌, min, ltb, false, Option, none, some, List, [], ◌∷◌, ◌++◌,
  length, take, drop, map, ◌≡◌, arith, refl, ap, sym, ◌∙◌, length-drop, Bool-cases, inl, inr, subst,
}
use mini_eureka.Prelude.Slices.{take-drop, drop-drop, take-all}
use mini_eureka.Prelude.Int.{pos, leb_ℤ}
use mini_eureka.Registry.Digest.{ShardDigest}
use mini_eureka.Service.{Payloads, Service, Readings}
use mini_eureka.Service.Leases.{FreshIds}
use mini_eureka.Service.Requests.{serve}
use mini_eureka.Gossip.Pages.{
  SyncItem, SyncOutcome, SyncRequest, SyncResponse, fences_in, mutations_in, page_of, page_size,
  request_of, sync_loop, take_items, take_page, change, barrier,
}

-- Every mutation stands before every fence.
unfoldable pub Ordered : List SyncItem → Type 0
Ordered [] = Unit
Ordered (change m ∷ is) = Ordered is
Ordered (barrier f ∷ is) = mutations_in is ≡ []

no-mutation : (is : List SyncItem) → mutations_in is ≡ [] → Ordered is
unfolding Ordered mutations_in
no-mutation [] h = tt
no-mutation (change m ∷ is) h = absurd (ground (arith, ap (λ l. length l) h))
no-mutation (barrier f ∷ is) h = h

Ordered-drop : (n : ℕ) (is : List SyncItem) → Ordered is → Ordered (drop n is)
unfolding Ordered
Ordered-drop zero is h = h
Ordered-drop (suc n) [] h = h
Ordered-drop (suc n) (change m ∷ is) h = Ordered-drop n is h
Ordered-drop (suc n) (barrier f ∷ is) h = Ordered-drop n is (no-mutation is h)

take-no_mutation :
    (n : ℕ) (is : List SyncItem) → mutations_in is ≡ [] → mutations_in (take n is) ≡ []
unfolding mutations_in
take-no_mutation zero is h = refl
take-no_mutation (suc n) [] h = refl
take-no_mutation (suc n) (change m ∷ is) h = absurd (ground (arith, ap (λ l. length l) h))
take-no_mutation (suc n) (barrier f ∷ is) h = take-no_mutation n is h

Ordered-take : (n : ℕ) (is : List SyncItem) → Ordered is → Ordered (take n is)
unfolding Ordered
Ordered-take zero is h = tt
Ordered-take (suc n) [] h = tt
Ordered-take (suc n) (change m ∷ is) h = Ordered-take n is h
Ordered-take (suc n) (barrier f ∷ is) h = take-no_mutation n is h

module _ (pl : Payloads) (rd : SyncItem → Readings) (ids : FreshIds) where
  take_items-append :
      (is js : List SyncItem) (s : Service)
      → take_items pl rd ids (is ++ js) s ≡ take_items pl rd ids js (take_items pl rd ids is s)
  unfolding take_items
  take_items-append [] js s = refl
  take_items-append (i ∷ is) js s = take_items-append is js (serve pl (rd i) ids (request_of i) s)

  take_items-Ordered :
      (is : List SyncItem) (s : Service)
      → Ordered is
      → take_items pl rd ids
          (map barrier (fences_in is))
          (take_items pl rd ids (map change (mutations_in is)) s)
        ≡ take_items pl rd ids is s
  unfolding take_items Ordered mutations_in fences_in
  take_items-Ordered [] s h = refl
  take_items-Ordered (change m ∷ is) s h =
      take_items-Ordered is (serve pl (rd (change m)) ids (request_of (change m)) s) h
  take_items-Ordered (barrier f ∷ is) s h =
      let s' = serve pl (rd (barrier f)) ids (request_of (barrier f)) s in
      rw h (
        subst
          (λ ms.
            take_items pl rd ids (map barrier (fences_in is))
              (take_items pl rd ids (map change ms) s')
            ≡ take_items pl rd ids is s')
          h (take_items-Ordered is s' (no-mutation is h)))

  -- The answers of a peer are the pages of some items.
  unfoldable pub Pages :
      (ℕ → SyncRequest → Option SyncResponse)
      → List ShardDigest
      → List ShardDigest
      → List SyncItem
      → Type 0
  Pages ask asked answered items =
      (round cursor : ℕ)
      → ask round (record { digests = asked; cursor = cursor })
        ≡ some (page_of answered items cursor)

  take_page-slice :
      (local : List ShardDigest) (items : List SyncItem) (cursor : ℕ) (s : Service)
      → Ordered items
      → cursor ≤ length items
      → take_page pl rd ids (page_of local items cursor) s
        ≡ take_items pl rd ids (take page_size (drop cursor items)) s
  unfolding take_page page_of
  take_page-slice local items cursor s h inside =
      let start : min cursor (length items) ≡ cursor = omega arith in
      rw start (
        take_items-Ordered (take page_size (drop cursor items)) s
          (Ordered-take page_size (drop cursor items) (Ordered-drop cursor items h)))

  take_page-rest :
      (local : List ShardDigest) (items : List SyncItem) (cursor : ℕ) (s : Service)
      → Ordered items
      → cursor ≤ length items
      → take_items pl rd ids
          (drop (cursor + page_size) items)
          (take_page pl rd ids (page_of local items cursor) s)
        ≡ take_items pl rd ids (drop cursor items) s
  take_page-rest local items cursor s h inside =
      ap (take_items pl rd ids (drop (cursor + page_size) items))
        (take_page-slice local items cursor s h inside)
      ∙ ap
          (λ l.
            take_items pl rd ids l (take_items pl rd ids (take page_size (drop cursor items)) s))
          (sym (drop-drop cursor page_size items))
      ∙ sym (
          take_items-append (take page_size (drop cursor items))
            (drop page_size (drop cursor items)) s)
      ∙ ap (λ l. take_items pl rd ids l s) (take-drop page_size (drop cursor items))

  page-more :
      (local : List ShardDigest) (items : List SyncItem) (cursor : ℕ)
      → cursor + page_size < length items
      → (page_of local items cursor).next_cursor ≡ some (pos (cursor + page_size))
  unfolding page_of
  page-more local items cursor h =
      let end : min (min cursor (length items) + page_size) (length items) ≡ cursor + page_size =
        omega arith in
      rw end (ground (arith, h))

  page-last :
      (local : List ShardDigest) (items : List SyncItem) (cursor : ℕ)
      → length items ≤ cursor + page_size
      → (page_of local items cursor).next_cursor ≡ none
  unfolding page_of
  page-last local items cursor h =
      let end : min (min cursor (length items) + page_size) (length items) ≡ length items =
        omega arith in
      rw end (ground arith)

  page-advances : (cursor : ℕ) → leb_ℤ (pos (cursor + page_size)) (pos cursor) ≡ false
  page-advances cursor = ground arith

  pub sync_loop_complete :
      (ask : ℕ → SyncRequest → Option SyncResponse) (asked answered : List ShardDigest)
      (items : List SyncItem) (fuel round cursor : ℕ) (s : Service)
      → Pages ask asked answered items
      → Ordered items
      → cursor ≤ length items
      → 0 < fuel
      → length items ≤ cursor + fuel * page_size
      → sync_loop pl rd ids ask asked fuel round cursor s
        ≡ (take_items pl rd ids (drop cursor items) s, SyncOutcome.synced)
  unfolding Pages sync_loop
  sync_loop_complete ask asked answered items zero round cursor s honest h inside fuelled enough =
      absurd (omega arith)
  sync_loop_complete ask asked answered items (suc fuel) round cursor s honest h inside fuelled
        enough =
      elim (Bool-cases (ltb (cursor + page_size) (length items))) [
        | inl more ↦
            let rest = take_page-rest answered items cursor s h inside in
            let next =
              sync_loop_complete ask asked answered items fuel (suc round) (cursor + page_size)
                (take_page pl rd ids (page_of answered items cursor) s) honest h (ground arith)
                (ground arith) (ground arith) in
            rw (honest round cursor, sync_loop)
              (rw (page-more answered items cursor (ground arith))
                (rw (page-advances cursor) (next ∙ ap (λ x. (x, SyncOutcome.synced)) rest)))
        | inr last ↦
            let all =
              take-all page_size (drop cursor items)
                (ground (arith, length-drop cursor items, last)) in
            rw (honest round cursor, sync_loop)
              (rw (page-last answered items cursor (ground arith)) (
                ap (λ x. (x, SyncOutcome.synced))
                  (take_page-slice answered items cursor s h inside
                    ∙ ap (λ l. take_items pl rd ids l s) all)))
      ]
