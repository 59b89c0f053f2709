-- ===== src/Gossip/Accept.antt =====
-- What a node that accepts a message over UDP knows of it: `DecodeAndVerify` of
-- backend/internal/gossip/wire.go.
use mini_eureka.Prelude.{
  Bool, true, false, ◌||◌, none, some, length, ◌≡◌, arith, refl, ◌==◌, ◌⊎◌, inl, inr, Bool-cases,
  Option-cases, ap,
}
use mini_eureka.Prelude.Int.{pos, ltb_ℤ}
use mini_eureka.Prelude.Text.{Text, text_eq_iff}
use mini_eureka.Prelude.Time.{add_time}
use mini_eureka.Prelude.Map.{lookup, text_key}
use mini_eureka.Model.Error.{Error, ok, err}
use mini_eureka.Gossip.Nonces.{add, add-expired, is_live}
use mini_eureka.Gossip.Wire.{
  Authenticator, Codec, Envelope, Moments, admit, canonical, check_envelope, decode_and_verify,
  genuine, invalid_message, join_lines, message_too_large, nonce_key, out_of_skew, replayed,
  signature,
}

-- The node with the nonce of an envelope in its cache.
unfoldable pub noted : Envelope → Moments → Authenticator → Authenticator
noted e t a = record a {
  nonces = (add (nonce_key e) (add_time t.stored a.max_skew) t.looked_up a.nonces).0;
}

unfoldable pub is_oversized : Text → Authenticator → Bool
is_oversized packet a = length packet == 0 || ltb_ℤ a.max_bytes (pos (length packet))

-- A packet is accepted as an envelope: it is all of the packet, it passes the checks, and its nonce
-- is not in use.
pub record Passes (cd : Codec) (packet : Text) (t : Moments) (a : Authenticator) (e : Envelope)
    : Type 0 where
  pub fits : is_oversized packet a ≡ false
  pub decoded : cd.decode packet ≡ some e
  pub whole : cd.at_end packet ≡ true
  pub checked : check_envelope cd t e a ≡ none
  pub unused : is_live (lookup (nonce_key e) a.nonces.entries) t.looked_up ≡ false

pub Passes-accepted :
    (cd : Codec) (packet : Text) (t : Moments) (a : Authenticator) (e : Envelope)
    → Passes cd packet t a e
    → decode_and_verify cd packet t a ≡ (noted e t a, ok e)
unfolding decode_and_verify noted admit is_oversized
Passes-accepted cd packet t a e h =
    let fresh =
      add-expired (nonce_key e) (add_time t.stored a.max_skew) t.looked_up a.nonces h.unused in
    rw h.fits (rw h.decoded (rw h.whole (rw h.checked (rw fresh.0 refl))))

-- A packet that is refused leaves the node as it was.
unfoldable pub Refuses : Codec → Text → Moments → Authenticator → Type 0
Refuses cd packet t a = (error : Error) × (decode_and_verify cd packet t a ≡ (a, err error))

admit-refused :
    (cd : Codec) (packet : Text) (t : Moments) (a : Authenticator) (e : Envelope)
    → is_oversized packet a ≡ false
    → cd.decode packet ≡ some e
    → cd.at_end packet ≡ true
    → check_envelope cd t e a ≡ none
    → is_live (lookup (nonce_key e) a.nonces.entries) t.looked_up ≡ true
    → decode_and_verify cd packet t a ≡ (a, err replayed)
unfolding decode_and_verify admit is_oversized add
admit-refused cd packet t a e fits decoded whole checked used =
    rw fits (rw decoded (rw whole (rw checked (rw used refl))))

-- A packet passes and is accepted, or it is refused.
pub decoding_cases :
    (cd : Codec) (packet : Text) (t : Moments) (a : Authenticator)
    → ((e : Envelope) × (Passes cd packet t a e
          × (decode_and_verify cd packet t a ≡ (noted e t a, ok e))))
      ⊎ Refuses cd packet t a
unfolding Refuses
decoding_cases cd packet t a = elim (Bool-cases (is_oversized packet a)) [
  | inl over ↦ inr (message_too_large, unfold decode_and_verify is_oversized in rw over refl)
  | inr fits ↦ elim (Option-cases (cd.decode packet)) [
    | inl bad ↦
        inr (invalid_message, unfold decode_and_verify is_oversized in rw fits (rw bad refl))
    | inr (e, decoded) ↦ elim (Bool-cases (cd.at_end packet)) [
      | inr more ↦ inr (
        invalid_message,
        unfold decode_and_verify is_oversized in rw fits (rw decoded (rw more refl)),
      )
      | inl whole ↦ elim (Option-cases (check_envelope cd t e a)) [
        | inr (error, failed) ↦ inr (
          error,
          unfold decode_and_verify is_oversized in rw fits (rw decoded (rw whole (rw failed refl))),
        )
        | inl checked ↦
            elim (Bool-cases (is_live (lookup (nonce_key e) a.nonces.entries) t.looked_up)) [
              | inl used ↦
                  inr (replayed, admit-refused cd packet t a e fits decoded whole checked used)
              | inr unused ↦
                  let h : Passes cd packet t a e = record {
                    fits = fits;
                    decoded = decoded;
                    whole = whole;
                    checked = checked;
                    unused = unused;
                  } in
                  inl (e, (h, Passes-accepted cd packet t a e h))
            ]
      ]
    ]
  ]
]

-- A packet is accepted exactly if it fits, decodes, passes the checks and has a nonce that is not in
-- use: where an envelope passes it is accepted, and its nonce is noted; where none passes the packet
-- is refused, and leaves the node as it was.
pub decode_and_verify_lem :
    (cd : Codec) (packet : Text) (t : Moments) (a : Authenticator)
    → ((e : Envelope) × Passes cd packet t a e
        × (decode_and_verify cd packet t a ≡ (noted e t a, ok e)))
      ⊎ ((error : Error) × (¬ ((e : Envelope) × Passes cd packet t a e))
          × (decode_and_verify cd packet t a ≡ (a, err error)))
unfolding Refuses
decode_and_verify_lem cd packet t a = elim (decoding_cases cd packet t a) [
  | inl (e, (passes, accepted)) ↦ inl (e, passes, accepted)
  | inr (error, refused) ↦ inr (
    error,
    (λ found. ground (arith, Passes-accepted cd packet t a found.0 found.1, refused)),
    refused,
  )
]

-- An envelope that passes the checks carries the node's cluster, a time within the skew, and as its
-- signature the MAC of its own fields under the node's secret.
pub Passes-genuine :
    (cd : Codec) (packet : Text) (t : Moments) (a : Authenticator) (e : Envelope)
    → ((s : Text) → cd.unhex (cd.hex s) ≡ some s)
    → Passes cd packet t a e
    → (e.cluster_id ≡ a.cluster_id)
      × (out_of_skew a.max_skew e.sent_at t.checked ≡ false)
      × (cd.unhex e.signature ≡ some (cd.mac a.secret (join_lines (canonical cd e))))
unfolding check_envelope genuine signature
Passes-genuine cd packet t a e back h =
    let checked = h.checked in
    let own = back (cd.mac a.secret (join_lines (canonical cd e))) in
    elim (Option-cases (cd.unhex e.signature)) [
      | inl bad ↦ absurd (ground (arith, checked, bad))
      | inr (given, decoded) ↦ (
        (text_eq_iff e.cluster_id a.cluster_id).0 (ground (arith, checked)),
        ground (arith, checked),
        rw decoded (
            ap some (
              (text_eq_iff given (cd.mac a.secret (join_lines (canonical cd e)))).0
                (ground (arith, checked, decoded, own)))),
      )
    ]
