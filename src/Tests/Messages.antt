-- ===== src/Tests/Messages.antt =====
-- The theorems on signed messages (backend/internal/gossip/wire.go) at one message and a toy codec.
use mini_eureka.Prelude.{
  ◌+◌, ap, sym, true, false, some, [], ◌++◌, ◌≡◌, ◌⊎◌, refl, arith, Option, ◌<◌, length,
}
use mini_eureka.Prelude.Int.{pos, ◌-ℤ◌, ◌+ℤ◌}
use mini_eureka.Prelude.Text.{Text, bytes, text_eq, compare_text}
use mini_eureka.Prelude.Order.{compare_list}
use mini_eureka.Prelude.Time.{Time, sub_time}
use mini_eureka.Prelude.Map.{lookup, insert}
use mini_eureka.Prelude.Decimal.{format_uint}
use mini_eureka.Model.Error.{err, Error, ok, text}
use mini_eureka.Model.Revision.{format_int}
use mini_eureka.Gossip.Nonces.{is_live, add}
use mini_eureka.Gossip.Wire.{
  Authenticator, Codec, Envelope, Moments, MessageType, admit, canonical, check_envelope,
  decode_and_verify, encode, genuine, join_lines, new_envelope, out_of_skew, signature, type_text,
  valid_message_type,
}
use mini_eureka.Gossip.Accept.{is_oversized, Passes, decode_and_verify_lem, noted}
use mini_eureka.Gossip.Replay.{replay_accepted}
use mini_eureka.Gossip.Delivery.{new_envelope-accepted}
use mini_eureka.Gossip.Canonical.{IsPlain, canonical-determines}

abbrev codec_with : (Text → Option Envelope) → Codec
codec_with decode = record {
  decode = decode;
  at_end = λ p. true;
  encode = λ e. some (bytes "m");
  sha256 = λ s. s;
  mac = λ k s. k ++ s;
  hex = λ s. s;
  unhex = λ s. some s;
  format_time = λ t. bytes "T";
  parse_time = λ s. some (pos 20);
  upper = λ s. s;
}

abbrev pub keeper : Authenticator
keeper = record {
  secret = bytes "k";
  cluster_id = bytes "c";
  max_skew = pos 30;
  max_bytes = pos 1200;
  nonces = record { entries = []; capacity = 4 };
}

-- A ping that was sent by a clock that is 20 ns ahead.
abbrev pub ping : Envelope
ping = record {
  version = pos 1;
  cluster_id = bytes "c";
  type = MessageType.ping;
  message_id = bytes "i";
  sender = bytes "n";
  sent_at = pos 20;
  nonce = bytes "x";
  payload = bytes "p";
  signature = bytes "k1\nc\nping\ni\nn\nT\nx\np";
}

abbrev pub codec : Codec
codec = codec_with (λ p. some ping)

abbrev pub at_time : Time → Moments
at_time t = record { checked = t; stored = t; looked_up = t }

pub accepted :
    decode_and_verify codec (bytes "m") (at_time (pos 0)) keeper
    ≡ (noted ping (at_time (pos 0)) keeper, ok ping)
unfolding decode_and_verify check_envelope admit noted genuine signature canonical join_lines
    format_int format_uint type_text text valid_message_type text_eq compare_text compare_list
    sub_time ◌-ℤ◌ add is_live lookup insert
accepted = refl

decode_and_verify_lem_example :
    ((e : Envelope) × Passes codec (bytes "m") (at_time (pos 0)) keeper e
      × (decode_and_verify codec (bytes "m") (at_time (pos 0)) keeper
          ≡ (noted e (at_time (pos 0)) keeper, ok e)))
    ⊎ ((error : Error) × (¬ ((e : Envelope) × Passes codec (bytes "m") (at_time (pos 0)) keeper e))
        × (decode_and_verify codec (bytes "m") (at_time (pos 0)) keeper ≡ (keeper, err error)))
decode_and_verify_lem_example = decode_and_verify_lem codec (bytes "m") (at_time (pos 0)) keeper

abbrev pub later_node : Authenticator
later_node = noted ping (at_time (pos 0)) keeper

pub room-left : length later_node.nonces.entries + 1 < later_node.nonces.capacity
unfolding noted add insert lookup
room-left = omega arith

inside_later : out_of_skew (pos 30) (pos 20) (pos 31) ≡ false
unfolding sub_time ◌-ℤ◌
inside_later = refl

replay_accepted_example :
    decode_and_verify codec (bytes "m") (at_time (pos 31)) later_node
    ≡ (noted ping (at_time (pos 31)) later_node, ok ping)
replay_accepted_example =
    replay_accepted codec (bytes "m") (at_time (pos 0)) (at_time (pos 31)) keeper later_node ping
      accepted (unfold ◌+ℤ◌ in refl) inside_later

abbrev drawn_envelope : Envelope
drawn_envelope =
    new_envelope codec MessageType.ping (bytes "n") (bytes "p") (bytes "i") (bytes "x") (pos 20)
      keeper

drawn-ping : drawn_envelope ≡ ping
unfolding new_envelope signature canonical join_lines format_int format_uint type_text text
drawn-ping = refl

new_envelope-accepted_example :
    (decode_and_verify codec (bytes "m") (at_time (pos 0)) keeper).1 ≡ ok drawn_envelope
new_envelope-accepted_example =
    new_envelope-accepted codec MessageType.ping (bytes "n") (bytes "p") (bytes "i") (bytes "x")
      (bytes "m") (pos 20) (at_time (pos 0)) keeper keeper (λ s. refl)
      (λ p h. (ap some (sym drawn-ping), refl)) (unfold encode in refl) refl refl
      (unfold valid_message_type in refl) (unfold text_eq compare_text compare_list in refl)
      (unfold text_eq compare_text compare_list in refl)
      (unfold text_eq compare_text compare_list in refl) (unfold is_oversized in refl)
      (unfold sub_time ◌-ℤ◌ in refl) (unfold is_live lookup in refl)

ping-IsPlain : IsPlain codec ping
unfolding IsPlain canonical format_int format_uint type_text text
ping-IsPlain = (
  (refl, tt),
  (
    (refl, tt),
    (
      (refl, (refl, (refl, (refl, tt)))),
      ((refl, tt), ((refl, tt), ((refl, tt), ((refl, tt), ((refl, tt), tt))))),
    ),
  ),
)

-- The same envelope without its signature.
abbrev unsigned : Envelope
unsigned = record ping { signature = [] }

canonical-determines_example :
    (format_int ping.version ≡ format_int unsigned.version)
    × (ping.cluster_id ≡ unsigned.cluster_id)
    × (type_text ping.type ≡ type_text unsigned.type)
    × (ping.message_id ≡ unsigned.message_id)
    × (ping.sender ≡ unsigned.sender)
    × (bytes "T" ≡ bytes "T")
    × (ping.nonce ≡ unsigned.nonce)
    × (ping.payload ≡ unsigned.payload)
canonical-determines_example =
    canonical-determines codec ping unsigned (λ s. refl) ping-IsPlain
      (unfold IsPlain canonical in ping-IsPlain) (unfold canonical in refl)
