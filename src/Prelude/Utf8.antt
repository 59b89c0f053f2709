-- ===== src/Prelude/Utf8.antt =====
-- What the code uses of Go's unicode and unicode/utf8 packages: decoding a byte string into runes
-- (`utf8.ValidString`, `utf8.RuneCountInString` and `range` over a valid string), and two classes.
use Prim.Native.Nat.{ℕ, suc, ◌+◌, ◌-◌, ◌*◌}
use mathlib.Core.Bool.{Bool, ◌&&◌, ◌||◌}
use mathlib.Core.Option.{Option, none, some}
use mathlib.Core.List.{List, [], ◌∷◌}
use mini_eureka.Prelude.Tests.{leb, if◌then◌else◌, ◌==◌}
use mini_eureka.Prelude.Text.{Text}

-- Where a decoder stands: between runes, inside one with `left` bytes to come, the next in
-- `lo`..`hi`, or past an invalid byte.
pub data Decoder : Type 0 where
  ready : Decoder
  inside : (left lo hi rune : ℕ) → Decoder
  broken : Decoder

between : ℕ → ℕ → ℕ → Bool
between lo hi b = leb lo b && leb b hi

-- The first byte of a rune gives its length and bounds the second byte, which rules out overlong
-- forms, surrogates and values above 0x10FFFF.
first_byte : ℕ → Decoder × Option ℕ
unfolding between
first_byte b =
    if leb b 0x7f
    then (ready, some b)
    else if between 0xc2 0xdf b
    then (inside 1 0x80 0xbf (b - 0xc0), none)
    else if b == 0xe0
    then (inside 2 0xa0 0xbf 0, none)
    else if b == 0xed
    then (inside 2 0x80 0x9f 13, none)
    else if between 0xe1 0xef b
    then (inside 2 0x80 0xbf (b - 0xe0), none)
    else if b == 0xf0
    then (inside 3 0x90 0xbf 0, none)
    else if between 0xf1 0xf3 b
    then (inside 3 0x80 0xbf (b - 0xf0), none)
    else if b == 0xf4
    then (inside 3 0x80 0x8f 4, none)
    else (broken, none)

-- One byte: the next state, and the rune that it ends.
feed : Decoder → ℕ → Decoder × Option ℕ
unfolding first_byte between
feed ready b = first_byte b
feed (inside (suc (suc left)) lo hi rune) b =
    if between lo hi b
    then (inside (suc left) 0x80 0xbf (rune * 64 + (b - 0x80)), none)
    else (broken, none)
feed (inside _ lo hi rune) b =
    if between lo hi b then (ready, some (rune * 64 + (b - 0x80))) else (broken, none)
feed broken b = (broken, none)

push_rune : Option ℕ → Option (List ℕ) → Option (List ℕ)
push_rune (some r) (some rs) = some (r ∷ rs)
push_rune none (some rs) = some rs
push_rune _ none = none

decode_from : Decoder → Text → Option (List ℕ)
unfolding feed push_rune
decode_from ready [] = some []
decode_from (inside _ _ _ _) [] = none
decode_from broken [] = none
decode_from d (b ∷ s) = let (d', r) = feed d b in push_rune r (decode_from d' s)

-- The runes of a valid UTF-8 string; `none` for any other.
unfoldable pub runes : Text → Option (List ℕ)
unfolding decode_from
runes s = decode_from ready s

-- `unicode.IsControl`: the category Cc.
unfoldable pub is_control : ℕ → Bool
unfolding between
is_control r = leb r 0x1f || between 0x7f 0x9f r

-- `unicode.IsSpace`: the property White_Space.
unfoldable pub is_space : ℕ → Bool
unfolding between
is_space r =
    between 0x09 0x0d r
    || r == 0x20
    || r == 0x85
    || r == 0xa0
    || r == 0x1680
    || between 0x2000 0x200a r
    || r == 0x2028
    || r == 0x2029
    || r == 0x202f
    || r == 0x205f
    || r == 0x3000
