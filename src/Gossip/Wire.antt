-- ===== src/Gossip/Wire.antt =====
-- The signed messages of backend/internal/gossip/wire.go: its Authenticator over UDP and over HTTP.
-- encoding/json, crypto and the text form of a time are parameters; the readings of the wall clock
-- and the drawn identifiers are arguments.
use mini_eureka.Prelude.{
  ◌*◌, if◌then◌else◌, Bool, true, false, not, ◌||◌, Option, none, some, List, [], ◌∷◌, ◌++◌, length,
  ◌==◌,
}
use mini_eureka.Prelude.Int.{ℤ, pos, ltb_ℤ, leb_ℤ, eqb_ℤ, ◌-ℤ◌}
use mini_eureka.Prelude.Text.{Text, text_eq}
use mini_eureka.Prelude.Time.{Time, Duration, add_time, sub_time, second}
use mini_eureka.Model.Error.{Error, Result, ok, err, message, wrapped, text}
use mini_eureka.Model.Revision.{format_int}
use mini_eureka.Gossip.Nonces.{Nonces, add}

-- `MessageType`: the seven that the protocol has, and any other text.
pub data MessageType : Type 0 where
  ping : MessageType
  ack : MessageType
  members : MessageType
  digest : MessageType
  delta : MessageType
  sync_required : MessageType
  receipt : MessageType
  other : Text → MessageType

unfoldable pub type_text : MessageType → Text
type_text MessageType.ping = text "ping"
type_text MessageType.ack = text "ack"
type_text MessageType.members = text "members"
type_text MessageType.digest = text "digest"
type_text MessageType.delta = text "delta"
type_text MessageType.sync_required = text "sync_required"
type_text MessageType.receipt = text "receipt"
type_text (MessageType.other t) = t

-- `validMessageType`
unfoldable pub valid_message_type : MessageType → Bool
valid_message_type (MessageType.other t) = false
valid_message_type _ = true

-- `Envelope`
pub record Envelope : Type 0 where
  pub version : ℤ
  pub cluster_id : Text
  pub type : MessageType
  pub message_id : Text
  pub sender : Text
  pub sent_at : Time
  pub nonce : Text
  pub payload : Text
  pub signature : Text

-- `Authenticator`
pub record Authenticator : Type 0 where
  pub secret : Text
  pub cluster_id : Text
  pub max_skew : Duration
  pub max_bytes : ℤ
  pub nonces : Nonces

-- `NewAuthenticator`
unfoldable pub new_authenticator : Text → Text → Duration → ℤ → Authenticator
new_authenticator secret cluster_id max_skew max_bytes = record {
  secret = secret;
  cluster_id = cluster_id;
  max_skew = if leb_ℤ max_skew (pos 0) then pos (30 * second) else max_skew;
  max_bytes = if leb_ℤ max_bytes (pos 0) then pos 1200 else max_bytes;
  nonces = record { entries = []; capacity = 4096 };
}

-- What the messages take from Go's libraries: the decoder that refuses unknown fields and whether
-- it has then reached the end of the input, the encoder, SHA-256 and HMAC-SHA-256, hexadecimal, the
-- RFC 3339 form of a time in UTC, and `strings.ToUpper`.
pub record Codec : Type 0 where
  pub decode : Text → Option Envelope
  pub at_end : Text → Bool
  pub encode : Envelope → Option Text
  pub sha256 : Text → Text
  pub mac : Text → Text → Text
  pub hex : Text → Text
  pub unhex : Text → Option Text
  pub format_time : Time → Text
  pub parse_time : Text → Option Time
  pub upper : Text → Text

-- `strings.Join(parts, "\n")`
unfoldable pub join_lines : List Text → Text
join_lines [] = []
join_lines (s ∷ []) = s
join_lines (s ∷ t ∷ ts) = s ++ (b'\n' ∷ join_lines (t ∷ ts))

abbrev pub wire_version : ℤ
wire_version = pos 1

-- What the signature of an envelope covers.
unfoldable pub canonical : Codec → Envelope → List Text
canonical cd e =
    format_int e.version
    ∷ e.cluster_id
    ∷ type_text e.type
    ∷ e.message_id
    ∷ e.sender
    ∷ cd.format_time e.sent_at
    ∷ e.nonce
    ∷ cd.hex (cd.sha256 e.payload)
    ∷ []

-- `signature`
unfoldable pub signature : Codec → Authenticator → Envelope → Text
signature cd a e = cd.hex (cd.mac a.secret (join_lines (canonical cd e)))

-- `NewEnvelope` on an encoded payload, with the drawn message ID and nonce and the clock's reading.
unfoldable pub new_envelope :
    Codec → MessageType → Text → Text → Text → Text → Time → Authenticator → Envelope
unfolding signature
new_envelope cd type sender payload id nonce sent a =
    let e : Envelope = record {
      version = wire_version;
      cluster_id = a.cluster_id;
      type = type;
      message_id = id;
      sender = sender;
      sent_at = sent;
      nonce = nonce;
      payload = payload;
      signature = [];
    } in
    record e { signature = signature cd a e }

abbrev pub message_too_large : Error
message_too_large = message (text "gossip message too large")

abbrev pub invalid_message : Error
invalid_message = message (text "invalid gossip message")

abbrev pub wrong_cluster : Error
wrong_cluster = message (text "wrong gossip cluster")

abbrev pub clock_skew : Error
clock_skew = message (text "gossip timestamp outside allowed skew")

abbrev pub invalid_signature : Error
invalid_signature = message (text "invalid gossip signature")

abbrev pub replayed : Error
replayed = message (text "replayed gossip message")

-- `Encode`
unfoldable pub encode : Codec → Authenticator → Envelope → Result Text
encode cd a e = elim (cd.encode e) [
  | none ↦ err (wrapped (text "marshal gossip envelope") (message (text "json")))
  | some packet ↦
      if ltb_ℤ a.max_bytes (pos (length packet)) then err message_too_large else ok packet
]

-- The readings of the clock in the course of one verification.
pub record Moments : Type 0 where
  pub checked : Time
  pub stored : Time
  pub looked_up : Time

abbrev pub out_of_skew : Duration → Time → Time → Bool
out_of_skew skew sent now =
    let delta = sub_time now sent in ltb_ℤ delta (pos 0 -ℤ skew) || ltb_ℤ skew delta

-- `hmac.Equal` of the decoded signature and the expected one.
unfoldable pub genuine : Codec → Text → Text → Bool
genuine cd provided expected = elim (cd.unhex provided) [
  | none ↦ false
  | some given ↦ elim (cd.unhex expected) [ none ↦ text_eq given [] | some own ↦ text_eq given own ]
]

abbrev pub malformed : Envelope → Bool
malformed e =
    not (eqb_ℤ e.version wire_version)
    || text_eq e.message_id []
    || text_eq e.sender []
    || text_eq e.nonce []
    || not (valid_message_type e.type)

-- The checks of `DecodeAndVerify` and `VerifyHTTPRequest` end with the nonce.
unfoldable pub admit : {A : Type 0} → Text → Moments → A → Authenticator → Authenticator × Result A
admit key t value a =
    let (nonces, fresh) = add key (add_time t.stored a.max_skew) t.looked_up a.nonces in
    (record a { nonces = nonces }, if fresh then ok value else err replayed)

-- `envelope.Sender+"\x00"+envelope.Nonce`
abbrev pub nonce_key : Envelope → Text
nonce_key e = e.sender ++ (0 ∷ e.nonce)

-- The checks of `DecodeAndVerify` on a decoded envelope.
unfoldable pub check_envelope : Codec → Moments → Envelope → Authenticator → Option Error
unfolding signature
check_envelope cd t e a =
    if malformed e
    then some invalid_message
    else if not (text_eq e.cluster_id a.cluster_id)
    then some wrong_cluster
    else if out_of_skew a.max_skew e.sent_at t.checked
    then some clock_skew
    else if not (genuine cd e.signature (signature cd a e))
    then some invalid_signature
    else none

-- `DecodeAndVerify`
unfoldable pub decode_and_verify :
    Codec → Text → Moments → Authenticator → Authenticator × Result Envelope
unfolding check_envelope admit
decode_and_verify cd packet t a =
    if length packet == 0 || ltb_ℤ a.max_bytes (pos (length packet))
    then (a, err message_too_large)
    else elim (cd.decode packet) [
      | none ↦ (a, err invalid_message)
      | some e ↦
          if not (cd.at_end packet)
          then (a, err invalid_message)
          else elim (check_envelope cd t e a) [
            | some error ↦ (a, err error)
            | none ↦ admit (nonce_key e) t e a
          ]
    ]
