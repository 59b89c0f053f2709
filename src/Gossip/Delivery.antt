-- ===== src/Gossip/Delivery.antt =====
-- From `NewEnvelope` and `Encode` at one node to `DecodeAndVerify` at another, and what a signature
-- covers: backend/internal/gossip/wire.go.
use mini_eureka.Prelude.{
  true, false, none, some, [], ◌∷◌, ◌++◌, ◌≡◌, arith, refl, inl, inr, Option-cases,
}
use mini_eureka.Prelude.Text.{Text, text_eq, text_eq_iff}
use mini_eureka.Prelude.Time.{Time}
use mini_eureka.Prelude.Map.{lookup, text_key}
use mini_eureka.Model.Error.{ok}
use mini_eureka.Gossip.Nonces.{is_live}
use mini_eureka.Gossip.Wire.{
  Authenticator, Codec, Envelope, Moments, MessageType, canonical, check_envelope,
  decode_and_verify, encode, genuine, join_lines, new_envelope, out_of_skew, signature,
  valid_message_type,
}
use mini_eureka.Gossip.Accept.{Passes-accepted, is_oversized}

pub genuine-hex :
    (cd : Codec) (s : Text)
    → ((s : Text) → cd.unhex (cd.hex s) ≡ some s)
    → genuine cd (cd.hex s) (cd.hex s) ≡ true
unfolding genuine
genuine-hex cd s back = ground (arith, back s, (text_eq_iff s s).1 refl)

encode-parts :
    (cd : Codec) (a : Authenticator) (e : Envelope) (packet : Text)
    → encode cd a e ≡ ok packet
    → cd.encode e ≡ some packet
unfolding encode
encode-parts cd a e packet h = elim (Option-cases (cd.encode e)) [
  | inl bad ↦ absurd (ground (arith, bad, h))
  | inr (p, good) ↦ ground (arith, good, h)
]

new-check_envelope :
    (cd : Codec) (type : MessageType) (sender payload id nonce : Text) (sent : Time) (t : Moments)
    (a b : Authenticator)
    → a.cluster_id ≡ b.cluster_id
    → valid_message_type type ≡ true
    → text_eq sender [] ≡ false
    → text_eq id [] ≡ false
    → text_eq nonce [] ≡ false
    → out_of_skew b.max_skew sent t.checked ≡ false
    → genuine cd
        (new_envelope cd type sender payload id nonce sent a).signature
        (signature cd b (new_envelope cd type sender payload id nonce sent a))
      ≡ true
    → check_envelope cd t (new_envelope cd type sender payload id nonce sent a) b ≡ none
unfolding check_envelope new_envelope
new-check_envelope cd type sender payload id nonce sent t a b cluster valid has_sender has_id
      has_nonce inside signed =
    rw has_id (
      rw has_sender (
        rw has_nonce (
          rw valid
            (rw inside (rw signed (rw ((text_eq_iff a.cluster_id b.cluster_id).1 cluster) refl))))))

-- A message that a node signs and encodes is accepted by a node with the same secret and cluster:
-- the type is one of the protocol's, the sender, the identifier and the nonce are not empty, the
-- packet fits the receiver's limit, the time is within its skew, and the nonce is not in its cache.
-- The decoder is to read the encoding of this envelope back, and hexadecimal text to decode.
pub new_envelope-accepted :
    (cd : Codec) (type : MessageType) (sender payload id nonce packet : Text) (sent : Time)
    (t : Moments) (a b : Authenticator)
    → ((s : Text) → cd.unhex (cd.hex s) ≡ some s)
    → ((p : Text)
        → cd.encode (new_envelope cd type sender payload id nonce sent a) ≡ some p
        → (cd.decode p ≡ some (new_envelope cd type sender payload id nonce sent a))
          × (cd.at_end p ≡ true))
    → encode cd a (new_envelope cd type sender payload id nonce sent a) ≡ ok packet
    → a.secret ≡ b.secret
    → a.cluster_id ≡ b.cluster_id
    → valid_message_type type ≡ true
    → text_eq sender [] ≡ false
    → text_eq id [] ≡ false
    → text_eq nonce [] ≡ false
    → is_oversized packet b ≡ false
    → out_of_skew b.max_skew sent t.checked ≡ false
    → is_live (lookup (sender ++ (0 ∷ nonce)) b.nonces.entries) t.looked_up ≡ false
    → (decode_and_verify cd packet t b).1 ≡ ok (new_envelope cd type sender payload id nonce sent a)
new_envelope-accepted cd type sender payload id nonce packet sent t a b back reads encoded secret
      cluster valid has_sender has_id has_nonce fits inside unused =
    let e = new_envelope cd type sender payload id nonce sent a in
    let read = reads packet (encode-parts cd a e packet encoded) in
    let mac = cd.mac b.secret (join_lines (canonical cd e)) in
    let signed : genuine cd e.signature (signature cd b e) ≡ true =
      unfold new_envelope signature canonical in rw secret (genuine-hex cd mac back) in
    let checked : check_envelope cd t e b ≡ none =
      new-check_envelope cd type sender payload id nonce sent t a b cluster valid has_sender has_id
        has_nonce inside signed in
    let accepted = Passes-accepted cd packet t b e (record {
      fits = fits;
      decoded = read.0;
      whole = read.1;
      checked = checked;
      unused = unfold new_envelope in unused;
    }) in
    rw accepted refl
