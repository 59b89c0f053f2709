-- ===== src/Gossip/Sync.antt =====
-- `SyncPeer` of backend/internal/gossip/anti_entropy.go as a whole, against a peer that answers as
-- `buildAntiEntropyResponse` does and against any peer.
use mini_eureka.Prelude.{
  ℕ, zero, suc, ◌+◌, ◌*◌, ◌^◌, ◌<◌, ◌≤◌, false, Option, some, List, [], ◌∷◌, ◌++◌, length, keep,
  map, ◌≡◌, arith, refl, Bool-cases, Option-cases, inl, inr, ◌≢◌,
}
use mini_eureka.Prelude.Int.{ℤ, pos, negsuc, leb_ℤ, pos_part}
use mini_eureka.Prelude.Text.{Text}
use mini_eureka.Prelude.Time.{Time}
use mini_eureka.Model.Mutation.{Mutation}
use mini_eureka.Registry.Entry.{Fence}
use mini_eureka.Registry.Store.{Store, shard_index}
use mini_eureka.Registry.Shard.{Shard}
use mini_eureka.Registry.Query.{fences, mutations_for_shard}
use mini_eureka.Registry.Digest.{DigestEntry, ShardDigest, digests}
use mini_eureka.Service.{Payloads, Service, Readings}
use mini_eureka.Service.Leases.{FreshIds}
use mini_eureka.Gossip.Pages.{
  SyncItem, SyncOutcome, SyncRequest, SyncResponse, build_response, changed_mutations,
  is_mismatched, mutations_in, list_or_empty, page_size, shard_mismatched, sync_items, sync_loop,
  sync_peer, take_items, take_page, change, barrier,
}
use mini_eureka.Gossip.Complete.{Ordered, sync_loop_complete, Pages}

fences-no_mutation : (fs : List Fence) → mutations_in (map barrier fs) ≡ []
unfolding mutations_in
fences-no_mutation [] = refl
fences-no_mutation (f ∷ fs) = fences-no_mutation fs

fences-Ordered : (fs : List Fence) → Ordered (map barrier fs)
unfolding Ordered
fences-Ordered [] = tt
fences-Ordered (f ∷ fs) = fences-no_mutation fs

changes-Ordered :
    (ms : List Mutation) (is js : List SyncItem)
    → Ordered (is ++ js)
    → Ordered ((map change ms ++ is) ++ js)
unfolding Ordered
changes-Ordered [] is js h = h
changes-Ordered (m ∷ ms) is js h = changes-Ordered ms is js h

changed_mutations-Ordered :
    (clock : ℤ → Time) (remote : List ShardDigest) (shards : List Shard) (ds : List ShardDigest)
    (js : List SyncItem)
    → Ordered js
    → Ordered (changed_mutations clock remote shards ds ++ js)
unfolding changed_mutations
changed_mutations-Ordered clock remote shards [] js h = h
changed_mutations-Ordered clock remote shards (d ∷ ds) js h =
    let rest = changed_mutations-Ordered clock remote shards ds js h in
    elim (Bool-cases (is_mismatched remote d)) [
      | inl differs ↦ rw differs (
          changes-Ordered (list_or_empty (mutations_for_shard (clock d.shard) shards d.shard))
            (changed_mutations clock remote shards ds) js rest)
      | inr agrees ↦ rw agrees rest
    ]

sync_items-Ordered :
    (hash : List DigestEntry → Text) (clock : ℤ → Time) (remote : List ShardDigest) (r : Store)
    → Ordered (sync_items hash clock remote r)
unfolding sync_items
sync_items-Ordered hash clock remote r =
    let local = digests hash r.shards in
    let kept =
      keep (λ f. shard_mismatched remote local (pos (shard_index r f.key.service)))
        (fences r.shards) in
    changed_mutations-Ordered clock remote r.shards local (map barrier kept) (fences-Ordered kept)

-- A synchronisation with a peer whose registry does not change meanwhile, and whose every answer
-- arrives, ends and succeeds, and has then applied everything that the peer keeps in the shards whose
-- digests differ: each mutation and then each fence once, in the peer's order, wherever the pages of
-- 200 are cut. A page for each 200 items is enough fuel.
pub sync_peer_complete :
    (pl : Payloads) (rd : SyncItem → Readings) (ids : FreshIds) (hash : List DigestEntry → Text)
    (clock : ℤ → Time) (ask : ℕ → SyncRequest → Option SyncResponse) (peer : Store) (fuel : ℕ)
    (s : Service)
    → ((round : ℕ) (q : SyncRequest) → ask round q ≡ some (build_response hash clock peer q))
    → 0 < fuel
    → length (sync_items hash clock (digests hash s.registry.shards) peer) ≤ fuel * page_size
    → sync_peer pl rd ids hash ask fuel s ≡ (
      take_items pl rd ids (sync_items hash clock (digests hash s.registry.shards) peer) s,
      SyncOutcome.synced,
    )
unfolding sync_peer Pages build_response
sync_peer_complete pl rd ids hash clock ask peer fuel s answers fuelled enough =
    let asked = digests hash s.registry.shards in
    sync_loop_complete pl rd ids ask asked (digests hash peer.shards)
      (sync_items hash clock asked peer) fuel 0 0 s
      (λ round cursor. answers round (record { digests = asked; cursor = cursor }))
      (sync_items-Ordered hash clock asked peer) (omega arith) fuelled (omega (arith, enough))

-- A cursor that is an int64.
unfoldable pub IsBounded : (ℕ → SyncRequest → Option SyncResponse) → Type 0
IsBounded ask =
    (round : ℕ) (q : SyncRequest) (p : SyncResponse) (next : ℤ)
    → ask round q ≡ some p
    → p.next_cursor ≡ some next
    → pos_part next < 2 ^ 63

advances : (next : ℤ) (cursor : ℕ) → leb_ℤ next (pos cursor) ≡ false → cursor < pos_part next
advances (pos n) cursor h = ground arith
advances (negsuc n) cursor h = absurd (ground arith)

sync_loop-ends :
    (pl : Payloads) (rd : SyncItem → Readings) (ids : FreshIds)
    (ask : ℕ → SyncRequest → Option SyncResponse) (asked : List ShardDigest) (fuel round cursor : ℕ)
    (s : Service)
    → IsBounded ask
    → cursor < 2 ^ 63
    → 2 ^ 63 ≤ cursor + fuel
    → (sync_loop pl rd ids ask asked fuel round cursor s).1 ≢ SyncOutcome.unfinished
unfolding sync_loop IsBounded
sync_loop-ends pl rd ids ask asked zero round cursor s bounded inside enough = absurd (omega arith)
sync_loop-ends pl rd ids ask asked (suc fuel) round cursor s bounded inside enough =
    elim (Option-cases (ask round (record { digests = asked; cursor = cursor }))) [
      | inl bad ↦ rw (bad, sync_loop) (λ e. ground (arith, e))
      | inr (p, good) ↦ elim (Option-cases p.next_cursor) [
        | inl done ↦ rw (good, sync_loop) (rw done (λ e. ground (arith, e)))
        | inr (next, more) ↦ elim (Bool-cases (leb_ℤ next (pos cursor))) [
          | inl stuck ↦ rw (good, sync_loop) (rw more (rw stuck (λ e. ground (arith, e))))
          | inr on ↦
              rw (good, sync_loop)
                (rw more (
                  rw on (
                    sync_loop-ends pl rd ids ask asked fuel (suc round) (pos_part next)
                      (take_page pl rd ids p s) bounded
                      (bounded round (record { digests = asked; cursor = cursor }) p next good more)
                      (omega (arith, advances next cursor on, enough)))))
        ]
      ]
    ]

-- A synchronisation comes to an end whatever the peer answers, as the cursor grows with every page
-- and is an int64: 2 ^ 63 pages are enough fuel.
pub sync_peer-ends :
    (pl : Payloads) (rd : SyncItem → Readings) (ids : FreshIds) (hash : List DigestEntry → Text)
    (ask : ℕ → SyncRequest → Option SyncResponse) (s : Service)
    → IsBounded ask
    → (sync_peer pl rd ids hash ask (2 ^ 63) s).1 ≢ SyncOutcome.unfinished
unfolding sync_peer
sync_peer-ends pl rd ids hash ask s bounded =
    sync_loop-ends pl rd ids ask (digests hash s.registry.shards) (2 ^ 63) 0 0 s bounded
      (omega arith) (omega arith)
