-- ===== src/Gossip/Answer.antt =====
-- How a node answers a peer that asks for its registry: `AntiEntropyHandler` and `readLimited` of
-- backend/internal/gossip/anti_entropy.go.
use mini_eureka.Prelude.{
  ℕ, ◌*◌, if◌then◌else◌, Bool, true, false, not, Option, none, some, List, [], length, ◌≡◌, refl,
}
use mini_eureka.Prelude.Int.{ℤ, pos, negsuc, ltb_ℤ, leb_ℤ}
use mini_eureka.Prelude.Text.{Text, text_eq}
use mini_eureka.Prelude.Time.{Time}
use mini_eureka.Prelude.Map.{lookup, text_key}
use mini_eureka.Model.Error.{Result, ok, err, message, text}
use mini_eureka.Registry.Digest.{DigestEntry, ShardDigest}
use mini_eureka.Registry.Store.{Store}
use mini_eureka.Cluster.{Table, get_member}
use mini_eureka.Gossip.Nonces.{is_live}
use mini_eureka.Gossip.Wire.{Authenticator, Codec, Moments, out_of_skew}
use mini_eureka.Gossip.Http.{
  HttpRequest, sign_http, verify_http, http_nonce_key, sign_http-verified,
}
use mini_eureka.Gossip.Pages.{SyncResponse, build_response}

-- `readLimited` of a body that can be read.
unfoldable pub read_limited : ℤ → Text → Result Text
read_limited maximum body =
    if ltb_ℤ maximum (pos (length body)) then err (message (text "body too large")) else ok body

-- A status that is not 200, or a response.
pub data Answer : Type 0 where
  declined : ℕ → Answer
  answered : SyncResponse → Answer

-- What the handler takes from elsewhere: the text "POST", whether a body can be read, the decoder
-- that refuses unknown fields, the hash of digests, and the clock of the export of a shard.
pub record Desk : Type 0 where
  pub codec : Codec
  pub readable : Bool
  pub read_request : Text → Option (List ShardDigest × ℤ)
  pub hash : List DigestEntry → Text
  pub clock : ℤ → Time
  pub max_body : ℤ

-- The limit of a handler that is made with one.
unfoldable pub body_limit : ℤ → ℤ
body_limit max = if leb_ℤ max (pos 0) then pos (4 * 1024 * 1024) else max

-- The request that is answered where its cursor is not negative.
unfoldable pub answer_request : Desk → Store → Option (List ShardDigest × ℤ) → Answer
answer_request d store none = declined 400
answer_request d store (some (digests, negsuc n)) = declined 400
answer_request d store (some (digests, pos cursor)) =
    answered (build_response d.hash d.clock store (record { digests = digests; cursor = cursor }))

-- `AntiEntropyHandler`
unfoldable pub answer_peer :
    Desk → HttpRequest → Moments → Table → Store → Authenticator → Authenticator × Answer
unfolding read_limited body_limit answer_request
answer_peer d r t table store a =
    if not (text_eq r.method (text "POST"))
    then (a, declined 405)
    else if not d.readable
    then (a, declined 400)
    else elim (read_limited (body_limit d.max_body) r.body) [
      | err e ↦ (a, declined 413)
      | ok body ↦
          let (a', verified) = verify_http d.codec r t a in
          elim verified [
            | err e ↦ (a', declined 401)
            | ok node_id ↦
                let (member, known) = get_member table r.node_id in
                if not known
                then (a', declined 403)
                else (a', answer_request d store (d.read_request body))
          ]
    ]

-- A request for the registry that a node signs with the secret and the cluster that the answering
-- node has, and which is in its membership table, is answered with the page that belongs to its
-- digests and cursor, and not refused: it is a POST with a body within the limit that reads back; the
-- node's ID, the nonce and the written time are not empty, the time reads back and is within the
-- skew, and the nonce is not in the cache. Hexadecimal text is to decode, and to be empty for nothing
-- that is a signature.
pub answer_peer_signed :
    (d : Desk) (node_id nonce : Text) (now : Time) (r : HttpRequest) (t : Moments) (table : Table)
    (store : Store) (digests : List ShardDigest) (cursor : ℕ) (a b : Authenticator)
    → ((s : Text) → d.codec.unhex (d.codec.hex s) ≡ some s)
    → a.secret ≡ b.secret
    → a.cluster_id ≡ b.cluster_id
    → d.codec.parse_time (d.codec.format_time now) ≡ some now
    → text_eq node_id [] ≡ false
    → text_eq (d.codec.format_time now) [] ≡ false
    → text_eq nonce [] ≡ false
    → text_eq (sign_http d.codec node_id nonce now r a).signature [] ≡ false
    → out_of_skew b.max_skew now t.checked ≡ false
    → is_live (lookup (http_nonce_key node_id nonce) b.nonces.entries) t.looked_up ≡ false
    → text_eq r.method (text "POST") ≡ true
    → d.readable ≡ true
    → ltb_ℤ (body_limit d.max_body) (pos (length r.body)) ≡ false
    → (get_member table node_id).1 ≡ true
    → d.read_request r.body ≡ some (digests, pos cursor)
    → (answer_peer d (sign_http d.codec node_id nonce now r a) t table store b).1
      ≡ answered
          (build_response d.hash d.clock store (record { digests = digests; cursor = cursor }))
unfolding answer_peer sign_http read_limited answer_request
answer_peer_signed d node_id nonce now r t table store digests cursor a b back secret cluster reads
      has_id has_time has_nonce has_signature inside unused method readable fits known decoded =
    let verified =
      sign_http-verified d.codec node_id nonce now r t a b back secret cluster reads has_id has_time
        has_nonce has_signature inside unused in
    rw (method) (rw readable (rw (fits) (rw (verified) (rw known (rw decoded refl)))))
