-- ===== src/Gossip/Http.antt =====
-- The signed HTTP requests between nodes: `SignHTTPRequest` and `VerifyHTTPRequest` of
-- backend/internal/gossip/wire.go.
use mini_eureka.Prelude.{
  if◌then◌else◌, true, false, not, ◌||◌, none, some, [], ◌∷◌, ◌++◌, ◌≡◌, refl,
}
use mini_eureka.Prelude.Text.{Text, text_eq}
use mini_eureka.Prelude.Time.{Time, add_time}
use mini_eureka.Prelude.Map.{lookup, text_key}
use mini_eureka.Model.Error.{Result, ok, err, text}
use mini_eureka.Gossip.Nonces.{add-expired, is_live}
use mini_eureka.Gossip.Wire.{
  Authenticator, Codec, Moments, admit, clock_skew, genuine, invalid_signature, join_lines,
  out_of_skew,
}
use mini_eureka.Gossip.Delivery.{genuine-hex}

-- What a signature covers and carries: the method, the path, the four headers, an empty one where
-- the request has none, and the body.
pub record HttpRequest : Type 0 where
  pub method : Text
  pub path : Text
  pub node_id : Text
  pub timestamp : Text
  pub nonce : Text
  pub signature : Text
  pub body : Text

-- `httpSignature`
unfoldable pub http_signature : Codec → Authenticator → HttpRequest → Text
unfolding join_lines
http_signature cd a r = cd.hex (
    cd.mac a.secret (
      join_lines (
        cd.upper r.method
        ∷ r.path
        ∷ a.cluster_id
        ∷ r.node_id
        ∷ r.timestamp
        ∷ r.nonce
        ∷ cd.hex (cd.sha256 r.body)
        ∷ [])))

-- `SignHTTPRequest`, with the drawn nonce and the clock's reading.
unfoldable pub sign_http : Codec → Text → Text → Time → HttpRequest → Authenticator → HttpRequest
unfolding http_signature
sign_http cd node_id nonce now r a =
    let signed = record r { node_id = node_id; timestamp = cd.format_time now; nonce = nonce } in
    record signed { signature = http_signature cd a signed }

-- `nodeID+"\x00http\x00"+nonce`
abbrev pub http_nonce_key : Text → Text → Text
http_nonce_key node_id nonce = node_id ++ (0 ∷ (text "http" ++ (0 ∷ nonce)))

-- `VerifyHTTPRequest`. The value of a request that is accepted is its node's ID.
unfoldable pub verify_http :
    Codec → HttpRequest → Moments → Authenticator → Authenticator × Result Text
unfolding http_signature admit
verify_http cd r t a =
    if text_eq r.node_id []
      || text_eq r.timestamp []
      || text_eq r.nonce []
      || text_eq r.signature []
    then (a, err invalid_signature)
    else elim (cd.parse_time r.timestamp) [
      | none ↦ (a, err invalid_signature)
      | some sent ↦
          if out_of_skew a.max_skew sent t.checked
          then (a, err clock_skew)
          else if not (genuine cd r.signature (http_signature cd a r))
          then (a, err invalid_signature)
          else admit (http_nonce_key r.node_id r.nonce) t r.node_id a
    ]

verify_http-passes :
    (cd : Codec) (r : HttpRequest) (t : Moments) (b : Authenticator) (sent : Time)
    → text_eq r.node_id [] ≡ false
    → text_eq r.timestamp [] ≡ false
    → text_eq r.nonce [] ≡ false
    → text_eq r.signature [] ≡ false
    → cd.parse_time r.timestamp ≡ some sent
    → out_of_skew b.max_skew sent t.checked ≡ false
    → genuine cd r.signature (http_signature cd b r) ≡ true
    → is_live (lookup (http_nonce_key r.node_id r.nonce) b.nonces.entries) t.looked_up ≡ false
    → (verify_http cd r t b).1 ≡ ok r.node_id
unfolding verify_http admit
verify_http-passes cd r t b sent has_id has_time has_nonce has_signature reads inside signed
      unused =
    let fresh =
      add-expired (http_nonce_key r.node_id r.nonce) (add_time t.stored b.max_skew) t.looked_up
        b.nonces unused in
    rw has_id (
      rw has_time
        (rw has_nonce (rw has_signature (rw reads (rw inside (rw signed (rw fresh.0 refl)))))))

sign-http_signature :
    (cd : Codec) (node_id nonce : Text) (now : Time) (r : HttpRequest) (a b : Authenticator)
    → ((s : Text) → cd.unhex (cd.hex s) ≡ some s)
    → a.secret ≡ b.secret
    → a.cluster_id ≡ b.cluster_id
    → genuine cd
        (sign_http cd node_id nonce now r a).signature
        (http_signature cd b (sign_http cd node_id nonce now r a))
      ≡ true
unfolding sign_http http_signature join_lines
sign-http_signature cd node_id nonce now r a b back secret cluster =
    rw secret (rw cluster (genuine-hex cd _ back))

-- A request that a node signs is accepted, as that node's, by a node with the same secret and
-- cluster: the node's ID, the nonce and the written time are not empty, the time reads back, is
-- within the receiver's skew, and the nonce is not in its cache. Hexadecimal text is to decode, and
-- to be empty for nothing that is a signature.
pub sign_http-verified :
    (cd : Codec) (node_id nonce : Text) (now : Time) (r : HttpRequest) (t : Moments)
    (a b : Authenticator)
    → ((s : Text) → cd.unhex (cd.hex s) ≡ some s)
    → a.secret ≡ b.secret
    → a.cluster_id ≡ b.cluster_id
    → cd.parse_time (cd.format_time now) ≡ some now
    → text_eq node_id [] ≡ false
    → text_eq (cd.format_time now) [] ≡ false
    → text_eq nonce [] ≡ false
    → text_eq (sign_http cd node_id nonce now r a).signature [] ≡ false
    → out_of_skew b.max_skew now t.checked ≡ false
    → is_live (lookup (http_nonce_key node_id nonce) b.nonces.entries) t.looked_up ≡ false
    → (verify_http cd (sign_http cd node_id nonce now r a) t b).1 ≡ ok node_id
unfolding sign_http
sign_http-verified cd node_id nonce now r t a b back secret cluster reads has_id has_time has_nonce
      has_signature inside unused =
    verify_http-passes cd (sign_http cd node_id nonce now r a) t b now has_id has_time has_nonce
      has_signature reads inside
      (sign-http_signature cd node_id nonce now r a b back secret cluster) unused
