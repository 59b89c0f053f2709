-- ===== src/Gossip/Pages.antt =====
-- Anti-entropy: the pages that a node answers with, and the loop of the node that asks, of
-- backend/internal/gossip/anti_entropy.go.
use mini_eureka.Prelude.{
  ℕ, zero, suc, ◌+◌, min, ltb, if◌then◌else◌, Bool, true, false, not, Option, none, some, List, [],
  ◌∷◌, ◌++◌, length, take, drop, keep, map,
}
use mini_eureka.Prelude.Int.{ℤ, pos, leb_ℤ, eqb_ℤ, pos_part}
use mini_eureka.Prelude.Text.{Text, text_eq}
use mini_eureka.Prelude.Time.{Time}
use mini_eureka.Model.Mutation.{Mutation}
use mini_eureka.Registry.Entry.{Fence}
use mini_eureka.Registry.Shard.{Shard}
use mini_eureka.Registry.Store.{Store, shard_index}
use mini_eureka.Registry.Query.{mutations_for_shard, fences}
use mini_eureka.Registry.Digest.{DigestEntry, ShardDigest, digests}
use mini_eureka.Service.{Payloads, Service, Readings}
use mini_eureka.Service.Leases.{FreshIds}
use mini_eureka.Service.Requests.{Request, serve}

abbrev pub page_size : ℕ
page_size = 200

-- `AntiEntropyRequest`; a negative cursor is refused.
pub record SyncRequest : Type 0 where
  pub digests : List ShardDigest
  pub cursor : ℕ

-- `AntiEntropyResponse`
pub record SyncResponse : Type 0 where
  pub mutations : List Mutation
  pub fences : List Fence
  pub digests : List ShardDigest
  pub next_cursor : Option ℤ

-- `syncItem`
pub data SyncItem : Type 0 where
  change : Mutation → SyncItem
  barrier : Fence → SyncItem

-- `remote[index]` once the digests have been stored in the map, where the last of a shard stays.
unfoldable pub remote_hash : ℤ → List ShardDigest → Option Text
remote_hash index [] = none
remote_hash index (d ∷ ds) = elim (remote_hash index ds) [
  | some h ↦ some h
  | none ↦ if eqb_ℤ d.shard index then some d.sha256 else none
]

unfoldable pub is_mismatched : List ShardDigest → ShardDigest → Bool
unfolding remote_hash
is_mismatched remote d = elim (remote_hash d.shard remote) [
  | none ↦ true
  | some h ↦ not (text_eq h d.sha256)
]

abbrev pub list_or_empty : {A : Type 0} → Option (List A) → List A
list_or_empty none = []
list_or_empty (some xs) = xs

-- The loop over the local digests; the wall clock is read at each shard.
unfoldable pub changed_mutations :
    (ℤ → Time) → List ShardDigest → List Shard → List ShardDigest → List SyncItem
unfolding is_mismatched
changed_mutations clock remote shards [] = []
changed_mutations clock remote shards (d ∷ ds) =
    let rest = changed_mutations clock remote shards ds in
    if is_mismatched remote d
    then map change (list_or_empty (mutations_for_shard (clock d.shard) shards d.shard)) ++ rest
    else rest

-- `mismatched[index]`
unfoldable pub shard_mismatched : List ShardDigest → List ShardDigest → ℤ → Bool
unfolding is_mismatched
shard_mismatched remote [] index = false
shard_mismatched remote (d ∷ ds) index =
    let rest = shard_mismatched remote ds index in
    if eqb_ℤ d.shard index then is_mismatched remote d else rest

-- The items of `buildAntiEntropyResponse`, of a registry that does not change meanwhile.
unfoldable pub sync_items :
    (List DigestEntry → Text) → (ℤ → Time) → List ShardDigest → Store → List SyncItem
unfolding changed_mutations shard_mismatched
sync_items hash clock remote r =
    let local = digests hash r.shards in
    changed_mutations clock remote r.shards local
    ++ map barrier (
        keep (λ f. shard_mismatched remote local (pos (shard_index r f.key.service)))
          (fences r.shards))

unfoldable pub mutations_in : List SyncItem → List Mutation
mutations_in [] = []
mutations_in (change m ∷ is) = m ∷ mutations_in is
mutations_in (barrier f ∷ is) = mutations_in is

unfoldable pub fences_in : List SyncItem → List Fence
fences_in [] = []
fences_in (change m ∷ is) = fences_in is
fences_in (barrier f ∷ is) = f ∷ fences_in is

-- The page of some items that starts at a cursor.
unfoldable pub page_of : List ShardDigest → List SyncItem → ℕ → SyncResponse
unfolding mutations_in fences_in
page_of local items cursor =
    let start = min cursor (length items) in
    let end = min (start + page_size) (length items) in
    let slice = take page_size (drop start items) in
    record {
      mutations = mutations_in slice;
      fences = fences_in slice;
      digests = local;
      next_cursor = if ltb end (length items) then some (pos end) else none;
    }

-- `buildAntiEntropyResponse`
unfoldable pub build_response :
    (List DigestEntry → Text) → (ℤ → Time) → Store → SyncRequest → SyncResponse
unfolding sync_items page_of
build_response hash clock r q =
    page_of (digests hash r.shards) (sync_items hash clock q.digests r) q.cursor

-- A mutation goes to the service, a fence to the registry; their answers are not looked at.
abbrev pub request_of : SyncItem → Request
request_of (change m) = Request.remote m
request_of (barrier f) = Request.remote_fence f

-- What is applied one after the other, each at its own readings of the clocks.
unfoldable pub take_items :
    Payloads → (SyncItem → Readings) → FreshIds → List SyncItem → Service → Service
take_items pl rd ids [] s = s
take_items pl rd ids (i ∷ is) s = take_items pl rd ids is (serve pl (rd i) ids (request_of i) s)

-- What `SyncPeer` does with one response.
unfoldable pub take_page :
    Payloads → (SyncItem → Readings) → FreshIds → SyncResponse → Service → Service
unfolding take_items
take_page pl rd ids p s =
    take_items pl rd ids (map barrier p.fences) (take_items pl rd ids (map change p.mutations) s)

-- How `SyncPeer` ends; unfinished where the model has no fuel left.
pub data SyncOutcome : Type 0 where
  synced : SyncOutcome
  failed : SyncOutcome
  stalled : SyncOutcome
  unfinished : SyncOutcome

-- The loop of `SyncPeer`. The peer's answer to a request may depend on how many it has had; none is
-- a request that fails.
unfoldable pub sync_loop :
    Payloads
    → (SyncItem → Readings)
    → FreshIds
    → (ℕ → SyncRequest → Option SyncResponse)
    → List ShardDigest
    → ℕ
    → ℕ
    → ℕ
    → Service
    → Service × SyncOutcome
unfolding take_page
sync_loop pl rd ids ask local zero round cursor s = (s, unfinished)
sync_loop pl rd ids ask local (suc fuel) round cursor s =
    elim (ask round (record { digests = local; cursor = cursor })) [
      | none ↦ (s, failed)
      | some p ↦ elim p.next_cursor [
        | none ↦ (take_page pl rd ids p s, synced)
        | some next ↦ elim (leb_ℤ next (pos cursor)) [
          | true ↦ (take_page pl rd ids p s, stalled)
          | false ↦
              sync_loop pl rd ids ask local fuel (suc round) (pos_part next)
                (take_page pl rd ids p s)
        ]
      ]
    ]

-- `SyncPeer`: the digests are taken once, before the first page.
unfoldable pub sync_peer :
    Payloads
    → (SyncItem → Readings)
    → FreshIds
    → (List DigestEntry → Text)
    → (ℕ → SyncRequest → Option SyncResponse)
    → ℕ
    → Service
    → Service × SyncOutcome
unfolding sync_loop
sync_peer pl rd ids hash ask fuel s =
    sync_loop pl rd ids ask (digests hash s.registry.shards) fuel 0 0 s
