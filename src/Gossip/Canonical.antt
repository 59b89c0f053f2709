-- ===== src/Gossip/Canonical.antt =====
-- What the signature of a message covers, as `signature` of backend/internal/gossip/wire.go joins it.
use mini_eureka.Prelude.{
  ℕ, zero, suc, ◌==◌, false, Option, none, some, List, [], ◌∷◌, ◌++◌, length, ◌≡◌, arith, refl, All,
  ap, ◌∙◌, sym,
}
use mini_eureka.Prelude.Text.{Text}
use mini_eureka.Model.Revision.{format_int}
use mini_eureka.Gossip.Wire.{Codec, Envelope, canonical, join_lines, type_text}

abbrev pub OneLine : Text → Type 0
OneLine s = All (λ c. (c == b'\n') ≡ false) s

abbrev head-∷ : {A : Type 0} → A → List A → A
head-∷ d [] = d
head-∷ d (x ∷ xs) = x

abbrev tail-∷ : {A : Type 0} → List A → List A
tail-∷ [] = []
tail-∷ (x ∷ xs) = xs

line-join :
    (s t r u : Text)
    → OneLine s
    → OneLine t
    → s ++ (b'\n' ∷ r) ≡ t ++ (b'\n' ∷ u)
    → (s ≡ t) × (r ≡ u)
line-join [] [] r u hs ht h = (refl, ap tail-∷ h)
line-join [] (d ∷ t) r u hs ht h = absurd (ground (arith, ap (head-∷ 0) h, ht.0))
line-join (c ∷ s) [] r u hs ht h = absurd (ground (arith, ap (head-∷ 0) h, hs.0))
line-join (c ∷ s) (d ∷ t) r u hs ht h =
    let rest = line-join s t r u hs.1 ht.1 (ap tail-∷ h) in (cc (ap (head-∷ 0) h, rest.0), rest.1)

join_lines-injective :
    (ss ts : List Text)
    → All OneLine ss
    → All OneLine ts
    → length ss ≡ length ts
    → join_lines ss ≡ join_lines ts
    → ss ≡ ts
unfolding join_lines
join_lines-injective [] [] hs ht l h = refl
join_lines-injective [] (t ∷ ts) hs ht l h = absurd (omega arith)
join_lines-injective (s ∷ ss) [] hs ht l h = absurd (omega arith)
join_lines-injective (s ∷ []) (t ∷ []) hs ht l h = ap (λ x. x ∷ []) h
join_lines-injective (s ∷ []) (t ∷ t' ∷ ts) hs ht l h = absurd (omega (arith, l))
join_lines-injective (s ∷ s' ∷ ss) (t ∷ []) hs ht l h = absurd (omega (arith, l))
join_lines-injective (s ∷ s' ∷ ss) (t ∷ t' ∷ ts) hs ht l h =
    let first = line-join s t (join_lines (s' ∷ ss)) (join_lines (t' ∷ ts)) hs.0 ht.0 h in
    let rest = join_lines-injective (s' ∷ ss) (t' ∷ ts) hs.1 ht.1 (omega (arith, l)) first.1 in
    cc (first.0, rest)

-- The texts that a signature covers are each one line.
unfoldable pub IsPlain : Codec → Envelope → Type 0
unfolding canonical
IsPlain cd e = All OneLine (canonical cd e)

canonical-length : (cd : Codec) (e f : Envelope) → length (canonical cd e) ≡ length (canonical cd f)
unfolding canonical
canonical-length cd e f = refl

abbrev from_some : Text → Option Text → Text
from_some d none = d
from_some d (some s) = s

abbrev nth : List Text → ℕ → Text
nth [] i = []
nth (x ∷ xs) zero = x
nth (x ∷ xs) (suc i) = nth xs i

-- What a signature covers tells two envelopes apart: if it is the same text for both, and no field
-- has a line break, then they agree in cluster, type, message identifier, sender, the written time,
-- nonce and payload, up to a collision of the hash, which is read back from its hexadecimal form.
pub canonical-determines :
    (cd : Codec) (e f : Envelope)
    → ((s : Text) → cd.unhex (cd.hex s) ≡ some s)
    → IsPlain cd e
    → IsPlain cd f
    → join_lines (canonical cd e) ≡ join_lines (canonical cd f)
    → (format_int e.version ≡ format_int f.version)
      × (e.cluster_id ≡ f.cluster_id)
      × (type_text e.type ≡ type_text f.type)
      × (e.message_id ≡ f.message_id)
      × (e.sender ≡ f.sender)
      × (cd.format_time e.sent_at ≡ cd.format_time f.sent_at)
      × (e.nonce ≡ f.nonce)
      × (cd.sha256 e.payload ≡ cd.sha256 f.payload)
unfolding IsPlain
canonical-determines cd e f back he hf h =
    let same : canonical cd e ≡ canonical cd f =
      join_lines-injective (canonical cd e) (canonical cd f) he hf (canonical-length cd e f) h in
    let hashed : cd.hex (cd.sha256 e.payload) ≡ cd.hex (cd.sha256 f.payload) =
      unfold canonical in ap (λ l. nth l 7) same in
    let hash = sym (back (cd.sha256 e.payload)) ∙ ap cd.unhex hashed ∙ back (cd.sha256 f.payload) in
    unfold canonical in
    (
      ap (λ l. nth l 0) same,
      ap (λ l. nth l 1) same,
      ap (λ l. nth l 2) same,
      ap (λ l. nth l 3) same,
      ap (λ l. nth l 4) same,
      ap (λ l. nth l 5) same,
      ap (λ l. nth l 6) same,
      ap (from_some []) hash,
    )
