-- ===== src/Gossip/Idle.antt =====
-- Anti-entropy between registries that agree (backend/internal/gossip/anti_entropy.go and
-- backend/internal/registry/digest.go).
use mini_eureka.Prelude.{
  ℕ, suc, ◌*◌, ◌<◌, ◌≤◌, Bool, true, false, Option, none, some, List, [], ◌∷◌, length, keep, map,
  ◌≡◌, arith, refl, ap, ◌∙◌, All,
}
use mini_eureka.Prelude.Int.{ℤ, pos, eqb_ℤ}
use mini_eureka.Prelude.Text.{Text, text_eq_iff}
use mini_eureka.Prelude.Time.{Time}
use mini_eureka.Registry.Entry.{Fence}
use mini_eureka.Registry.Shard.{Shard}
use mini_eureka.Registry.Store.{Store, shard_index}
use mini_eureka.Registry.Query.{fences}
use mini_eureka.Registry.Digest.{DigestEntry, ShardDigest, digest_shard, digests, digests_from}
use mini_eureka.Service.{Payloads, Service, Readings}
use mini_eureka.Service.Leases.{FreshIds}
use mini_eureka.Gossip.Pages.{
  SyncItem, SyncOutcome, SyncRequest, SyncResponse, build_response, changed_mutations,
  is_mismatched, page_size, remote_hash, shard_mismatched, sync_items, sync_peer, take_items,
  barrier,
}
use mini_eureka.Gossip.Sync.{sync_peer_complete}

remote_hash-later :
    (hash : List DigestEntry → Text) (j i : ℕ) (ss : List Shard)
    → j < i
    → remote_hash (pos j) (digests_from hash i ss) ≡ none
unfolding remote_hash digests_from digest_shard
remote_hash-later hash j i [] h = refl
remote_hash-later hash j i (s ∷ ss) h =
    let rest = remote_hash-later hash j (suc i) ss (omega arith) in rw rest (ground (arith, h))

-- The digests that a list of digests answers for.
unfoldable Answers : List ShardDigest → List ShardDigest → Type 0
Answers ds xs = All (λ d. remote_hash d.shard ds ≡ some d.sha256) xs

Answers-more : (d : ShardDigest) (ds xs : List ShardDigest) → Answers ds xs → Answers (d ∷ ds) xs
unfolding Answers remote_hash
Answers-more d ds [] h = tt
Answers-more d ds (x ∷ xs) h = (rw h.0 refl, Answers-more d ds xs h.1)

Answers-digests :
    (hash : List DigestEntry → Text) (i : ℕ) (ss : List Shard)
    → Answers (digests_from hash i ss) (digests_from hash i ss)
unfolding Answers digests_from remote_hash
Answers-digests hash i [] = tt
Answers-digests hash i (s ∷ ss) =
    let missing = remote_hash-later hash i (suc i) ss (omega arith) in
    let d = digest_shard hash (pos i) s in
    let self : eqb_ℤ (pos i) (pos i) ≡ true = ground arith in
    (
      unfold digest_shard in rw missing (rw self refl),
      unfold Answers in
          Answers-more d (digests_from hash (suc i) ss) (digests_from hash (suc i) ss)
            (unfold Answers in Answers-digests hash (suc i) ss),
    )

agrees :
    (ds : List ShardDigest) (d : ShardDigest)
    → remote_hash d.shard ds ≡ some d.sha256
    → is_mismatched ds d ≡ false
unfolding is_mismatched
agrees ds d h = rw (h, is_mismatched) (ground (arith, (text_eq_iff d.sha256 d.sha256).1 refl))

unchanged :
    (clock : ℤ → Time) (ds : List ShardDigest) (shards : List Shard) (xs : List ShardDigest)
    → Answers ds xs
    → changed_mutations clock ds shards xs ≡ []
unfolding Answers changed_mutations
unchanged clock ds shards [] h = refl
unchanged clock ds shards (d ∷ xs) h = rw (agrees ds d h.0) (unchanged clock ds shards xs h.1)

matched :
    (ds xs : List ShardDigest) (index : ℤ) → Answers ds xs → shard_mismatched ds xs index ≡ false
unfolding Answers shard_mismatched
matched ds [] index h = refl
matched ds (d ∷ xs) index h =
    let rest = matched ds xs index h.1 in let head = agrees ds d h.0 in ground (arith, rest, head)

keep_none : (p : Fence → Bool) (fs : List Fence) → ((f : Fence) → p f ≡ false) → keep p fs ≡ []
keep_none p [] h = refl
keep_none p (f ∷ fs) h = rw (h f) (keep_none p fs h)

sync_items_none :
    (hash : List DigestEntry → Text) (clock : ℤ → Time) (r : Store)
    → sync_items hash clock (digests hash r.shards) r ≡ []
unfolding sync_items digests
sync_items_none hash clock r =
    let ds = digests_from hash 0 r.shards in
    let h = Answers-digests hash 0 r.shards in
    let p = λ (f : Fence). shard_mismatched ds ds (pos (shard_index r f.key.service)) in
    let none_kept =
      keep_none p (fences r.shards) (λ f. matched ds ds (pos (shard_index r f.key.service)) h) in
    rw (unchanged clock ds r.shards ds h) (ap (map barrier) none_kept)

-- A synchronisation with a peer whose digests are the node's own, shard by shard, succeeds with one
-- page and changes nothing, if the peer answers and its registry does not change meanwhile.
pub sync_peer_idle :
    (pl : Payloads) (rd : SyncItem → Readings) (ids : FreshIds) (hash : List DigestEntry → Text)
    (clock : ℤ → Time) (ask : ℕ → SyncRequest → Option SyncResponse) (peer : Store) (s : Service)
    → ((round : ℕ) (q : SyncRequest) → ask round q ≡ some (build_response hash clock peer q))
    → digests hash s.registry.shards ≡ digests hash peer.shards
    → sync_peer pl rd ids hash ask 1 s ≡ (s, SyncOutcome.synced)
unfolding take_items
sync_peer_idle pl rd ids hash clock ask peer s answers same =
    let items : sync_items hash clock (digests hash s.registry.shards) peer ≡ [] =
      rw same (sync_items_none hash clock peer) in
    let short : length (sync_items hash clock (digests hash s.registry.shards) peer)
        ≤ 1 * page_size =
      rw items (omega arith) in
    sync_peer_complete pl rd ids hash clock ask peer 1 s answers (omega arith) short
    ∙ ap (λ l. (take_items pl rd ids l s, SyncOutcome.synced)) items
