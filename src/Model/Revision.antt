-- ===== src/Model/Revision.antt =====
-- The text form of a version that clients and tasks carry: `Version.String` and `ParseVersion` of
-- backend/internal/model/version.go.
use mini_eureka.Prelude.{
  ℕ, ◌+◌, ◌-◌, ◌*◌, ◌<◌, ◌≤◌, ◌==◌, ltb, if◌then◌else◌, false, Option, none, some, [], ◌∷◌, ◌++◌,
  ◌≡◌, arith, refl, length,
}
use mini_eureka.Prelude.Int.{ℤ, pos, negsuc, ltb_ℤ, leb_ℤ, ◌≤ℤ◌, max_int64, max_uint64}
use mini_eureka.Prelude.Text.{Text}
use mini_eureka.Prelude.Decimal.{
  format_uint, parse_digits, parse-format, is_digit, length-format_uint,
}
use mini_eureka.Model.Error.{Error, Result, ok, err, message, wrapped, text}
use mini_eureka.Model.Version.{Version, validate_version}

unfoldable pub format_int : ℤ → Text
format_int (pos n) = format_uint n
format_int (negsuc n) = b'-' ∷ format_uint (n + 1)

-- `Version.String`
unfoldable pub version_string : Version → Text
unfolding format_int
version_string v =
    format_int v.physical_millis ++ (b'-' ∷ (format_uint v.logical ++ (b'-' ∷ v.origin_node_id)))

-- The parts of a text before and behind its first dash, none if it has no dash.
unfoldable pub cut_dash : Text → Option (Text × Text)
cut_dash [] = none
cut_dash (c ∷ s) =
    let rest = cut_dash s in
    if c == b'-' then some ([], s) else elim rest [ none ↦ none | some (a, b) ↦ some (c ∷ a, b) ]

-- `strings.SplitN(value, "-", 3)` where it has three parts.
unfoldable pub split_version : Text → Option (Text × (Text × Text))
unfolding cut_dash
split_version s = elim (cut_dash s) [
  | none ↦ none
  | some (a, r) ↦ elim (cut_dash r) [ none ↦ none | some (b, c) ↦ some (a, (b, c)) ]
]

-- `strconv.ParseUint(s, 10, 64)`
unfoldable pub parse_uint : Text → Option ℕ
parse_uint [] = none
parse_uint (c ∷ s) = elim (parse_digits 0 (c ∷ s)) [
  | none ↦ none
  | some n ↦ if ltb max_uint64 n then none else some n
]

-- `strconv.ParseInt(s, 10, 64)` of a text without a dash, in which only a plus may be the sign.
unfoldable pub parse_unsigned : Text → Option ℤ
parse_unsigned [] = none
parse_unsigned (c ∷ s) = elim (parse_digits 0 (c ∷ s)) [
  | none ↦ none
  | some n ↦ if ltb_ℤ max_int64 (pos n) then none else some (pos n)
]

unfoldable pub parse_int : Text → Option ℤ
unfolding parse_unsigned
parse_int [] = none
parse_int (c ∷ s) = if c == b'+' then parse_unsigned s else parse_unsigned (c ∷ s)

-- The error of strconv, whose own text is left out.
abbrev pub not_a_number : Error
not_a_number = message (text "strconv")

-- `ParseVersion`
unfoldable pub parse_version : Text → Result Version
unfolding split_version parse_int parse_uint
parse_version s = elim (split_version s) [
  | none ↦ err (message (text "parse version: invalid format"))
  | some (a, (b, c)) ↦ elim (parse_int a) [
    | none ↦ err (wrapped (text "parse version physical time") not_a_number)
    | some p ↦ elim (parse_uint b) [
      | none ↦ err (wrapped (text "parse version logical counter") not_a_number)
      | some l ↦
          let v : Version = record { physical_millis = p; logical = l; origin_node_id = c } in
          elim (validate_version v) [
            | some e ↦ err (wrapped (text "parse version") e)
            | none ↦ ok v
          ]
    ]
  ]
]

cut-digits :
    (acc n : ℕ) (s rest : Text)
    → parse_digits acc s ≡ some n
    → cut_dash (s ++ (b'-' ∷ rest)) ≡ some (s, rest)
unfolding cut_dash parse_digits is_digit
cut-digits acc n [] rest h = refl
cut-digits acc n (c ∷ s) rest h = ground (arith, cut-digits (acc * 10 + (c - b'0')) n s rest)

parse_uint-digits :
    (s : Text) (n : ℕ)
    → parse_digits 0 s ≡ some n
    → 0 < length s
    → n ≤ max_uint64
    → parse_uint s ≡ some n
unfolding parse_uint
parse_uint-digits [] n h l m = absurd (omega arith)
parse_uint-digits (c ∷ s) n h l m = ground arith

pub parse_int-digits :
    (s : Text) (n : ℕ)
    → parse_digits 0 s ≡ some n
    → 0 < length s
    → pos n ≤ℤ max_int64
    → parse_int s ≡ some (pos n)
unfolding parse_int parse_digits is_digit
parse_int-digits [] n h l m = absurd (omega arith)
parse_int-digits (c ∷ s) n h l m = ground arith

nonnegative : (p : ℤ) → leb_ℤ p (pos 0) ≡ false → (n : ℕ) × (p ≡ pos n)
nonnegative (pos n) h = (n, refl)
nonnegative (negsuc n) h = absurd (ground arith)

version_physical :
    (v : Version) → validate_version v ≡ none → leb_ℤ v.physical_millis (pos 0) ≡ false
unfolding validate_version
version_physical v h = ground arith

split-version_string :
    (n : ℕ) (v : Version)
    → v.physical_millis ≡ pos n
    → split_version (version_string v)
      ≡ some (format_uint n, (format_uint v.logical, v.origin_node_id))
unfolding split_version version_string format_int
split-version_string n v h = ground (
  arith,
  h,
  cut-digits 0 n (format_uint n) (format_uint v.logical ++ (b'-' ∷ v.origin_node_id))
      (parse-format n),
  cut-digits 0 v.logical (format_uint v.logical) v.origin_node_id (parse-format v.logical),
)

-- Reading the text of a valid version whose counters fit their machine widths gives the version
-- back, also when its node ID has dashes.
pub parse_version-version_string :
    (v : Version)
    → validate_version v ≡ none
    → v.physical_millis ≤ℤ max_int64
    → v.logical ≤ max_uint64
    → parse_version (version_string v) ≡ ok v
unfolding parse_version
parse_version-version_string v h p l =
    let (n, e) = nonnegative v.physical_millis (version_physical v h) in
    ground (
      arith,
      split-version_string n v e,
      parse_int-digits (format_uint n) n (parse-format n) (length-format_uint n)
          (ground (arith, e, p)),
      parse_uint-digits (format_uint v.logical) v.logical (parse-format v.logical)
          (length-format_uint v.logical) l,
      e,
      h,
    )
