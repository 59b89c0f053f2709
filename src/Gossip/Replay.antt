-- ===== src/Gossip/Replay.antt =====
-- Messages that arrive again: `DecodeAndVerify` and the nonce cache of
-- backend/internal/gossip/wire.go.
use mini_eureka.Prelude.{
  ℕ, ◌+◌, ◌<◌, true, false, none, some, List, [], ◌∷◌, length, ◌≡◌, arith, inl, inr, All, subst,
  suc,
}
use mini_eureka.Prelude.Text.{Text}
use mini_eureka.Prelude.Time.{Time, add_time, after}
use mini_eureka.Prelude.Map.{lookup, text_key}
use mini_eureka.Model.Error.{Error, ok, err}
use mini_eureka.Gossip.Nonces.{Nonces, add, add-expired, add-keeps, is_live}
use mini_eureka.Gossip.Wire.{
  Authenticator, Codec, Envelope, Moments, canonical, check_envelope, decode_and_verify, join_lines,
  nonce_key, out_of_skew, signature,
}
use mini_eureka.Gossip.Accept.{
  Passes, Passes-accepted, Passes-genuine, Refuses, decoding_cases, noted, is_oversized,
}

pub accepted-Passes :
    (cd : Codec) (packet : Text) (t : Moments) (a a' : Authenticator) (e : Envelope)
    → decode_and_verify cd packet t a ≡ (a', ok e)
    → Passes cd packet t a e × (a' ≡ noted e t a)
unfolding Refuses
accepted-Passes cd packet t a a' e h = elim (decoding_cases cd packet t a) [
  | inr (error, bad) ↦ absurd (ground (arith, h, bad))
  | inl (e', (passes, good)) ↦
      let same : e' ≡ e = ground (arith, h, good) in
      let state : a' ≡ noted e' t a = ground (arith, h, good) in
      subst (λ x. Passes cd packet t a x × (a' ≡ noted x t a)) same (passes, state)
]

-- An accepted message carries the node's cluster, a time within the skew of its clock, and as its
-- signature the MAC of its own fields under the node's secret, where hexadecimal text decodes to
-- what it encodes.
pub accepted_genuine :
    (cd : Codec) (packet : Text) (t : Moments) (a a' : Authenticator) (e : Envelope)
    → ((s : Text) → cd.unhex (cd.hex s) ≡ some s)
    → decode_and_verify cd packet t a ≡ (a', ok e)
    → (e.cluster_id ≡ a.cluster_id)
      × (out_of_skew a.max_skew e.sent_at t.checked ≡ false)
      × (cd.unhex e.signature ≡ some (cd.mac a.secret (join_lines (canonical cd e))))
accepted_genuine cd packet t a a' e back h =
    Passes-genuine cd packet t a e back (accepted-Passes cd packet t a a' e h).0

-- The node after packets that arrive one after the other.
unfoldable pub receive_all : Codec → List (Text × Moments) → Authenticator → Authenticator
receive_all cd [] a = a
receive_all cd ((packet, t) ∷ xs) a = receive_all cd xs (decode_and_verify cd packet t a).0

-- The cache holds a nonce until a time, and has room for a number of others.
unfoldable pub Holds : Text → Time → ℕ → Authenticator → Type 0
Holds key due n a =
    (lookup key a.nonces.entries ≡ some due) × (length a.nonces.entries + n < a.nonces.capacity)

receive-Holds :
    (cd : Codec) (key packet : Text) (due : Time) (t : Moments) (n : ℕ) (a : Authenticator)
    → after due t.looked_up ≡ true
    → Holds key due (suc n) a
    → Holds key due n (decode_and_verify cd packet t a).0
unfolding Holds Refuses noted
receive-Holds cd key packet due t n a live h = elim (decoding_cases cd packet t a) [
  | inr (error, bad) ↦ rw bad (h.0, grind (arith, h.1))
  | inl (e, (passes, good)) ↦
      let kept =
        add-keeps key (nonce_key e) (add_time t.stored a.max_skew) due t.looked_up a.nonces
          (grind (arith, h.1)) h.0 live in
      rw good (kept.0, grind (arith, kept.1, kept.2, h.1))
]

receive_all-Holds :
    (cd : Codec) (key : Text) (due : Time) (xs : List (Text × Moments)) (a : Authenticator)
    → All (λ x. after due x.1.looked_up ≡ true) xs
    → Holds key due (length xs) a
    → Holds key due 0 (receive_all cd xs a)
unfolding receive_all
receive_all-Holds cd key due [] a live h = h
receive_all-Holds cd key due ((packet, t) ∷ xs) a live h =
    receive_all-Holds cd key due xs (decode_and_verify cd packet t a).0 live.1
      (receive-Holds cd key packet due t (length xs) a live.0 h)

refused-held :
    (cd : Codec) (packet : Text) (due : Time) (t : Moments) (a : Authenticator) (e : Envelope)
    → cd.decode packet ≡ some e
    → lookup (nonce_key e) a.nonces.entries ≡ some due
    → after due t.looked_up ≡ true
    → Refuses cd packet t a
unfolding is_live
refused-held cd packet due t a e decoded held live = elim (decoding_cases cd packet t a) [
  | inr refused ↦ refused
  | inl (e', (passes, good)) ↦
      let same : e' ≡ e = ground (arith, decoded, passes.decoded) in
      let unused : is_live (lookup (nonce_key e) a.nonces.entries) t.looked_up ≡ false =
        subst (λ x. is_live (lookup (nonce_key x) a.nonces.entries) t.looked_up ≡ false) same
          passes.unused in
      absurd (ground (arith, held, live, unused))
]

-- A packet that was accepted is refused when it comes again, and the node stays as it was, until the
-- time at which its nonce expires (the maximal skew after it was accepted), whatever other packets
-- arrive between, if they arrive before that time and the nonce cache has room for one of each.
pub replay_refused :
    (cd : Codec) (packet : Text) (t again : Moments) (xs : List (Text × Moments))
    (a a' : Authenticator) (e : Envelope)
    → decode_and_verify cd packet t a ≡ (a', ok e)
    → length a'.nonces.entries + length xs < a'.nonces.capacity
    → All (λ x. after (add_time t.stored a.max_skew) x.1.looked_up ≡ true) xs
    → after (add_time t.stored a.max_skew) again.looked_up ≡ true
    → (error : Error) × (decode_and_verify cd packet again (receive_all cd xs a')
        ≡ (receive_all cd xs a', err error))
unfolding Holds Refuses noted
replay_refused cd packet t again xs a a' e accepted room live in_time =
    let (passes, state) = accepted-Passes cd packet t a a' e accepted in
    let fresh =
      add-expired (nonce_key e) (add_time t.stored a.max_skew) t.looked_up a.nonces passes.unused in
    let held : lookup (nonce_key e) a'.nonces.entries ≡ some (add_time t.stored a.max_skew) =
      rw state fresh.1 in
    let kept =
      receive_all-Holds cd (nonce_key e) (add_time t.stored a.max_skew) xs a' live (held, room) in
    refused-held cd packet (add_time t.stored a.max_skew) again (receive_all cd xs a') e
      passes.decoded kept.0 in_time

check-later :
    (cd : Codec) (t again : Moments) (e : Envelope) (a : Authenticator) (n : Nonces)
    → check_envelope cd t e a ≡ none
    → out_of_skew a.max_skew e.sent_at again.checked ≡ false
    → check_envelope cd again e (record a { nonces = n }) ≡ none
unfolding check_envelope signature
check-later cd t again e a n h inside = ground (arith, h, inside)

-- A packet that was accepted is accepted once more, by the node that accepted it, once its nonce has
-- expired, if the time at which it was sent is then within the skew: so it is with a sender whose
-- clock is ahead, as the nonce is kept for the maximal skew from the time of receipt and not of
-- sending.
pub replay_accepted :
    (cd : Codec) (packet : Text) (t again : Moments) (a a' : Authenticator) (e : Envelope)
    → decode_and_verify cd packet t a ≡ (a', ok e)
    → after (add_time t.stored a.max_skew) again.looked_up ≡ false
    → out_of_skew a.max_skew e.sent_at again.checked ≡ false
    → decode_and_verify cd packet again a' ≡ (noted e again a', ok e)
unfolding noted is_oversized
replay_accepted cd packet t again a a' e accepted expired inside =
    let (passes, state) = accepted-Passes cd packet t a a' e accepted in
    let fresh =
      add-expired (nonce_key e) (add_time t.stored a.max_skew) t.looked_up a.nonces passes.unused in
    Passes-accepted cd packet again a' e (record {
      fits = rw state passes.fits;
      decoded = passes.decoded;
      whole = passes.whole;
      checked = rw state (
          check-later cd t again e a
            (add (nonce_key e) (add_time t.stored a.max_skew) t.looked_up a.nonces).0 passes.checked
            inside);
      unused = rw state (rw fresh.1 (unfold is_live in expired));
    })
