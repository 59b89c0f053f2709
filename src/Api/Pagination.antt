-- ===== src/Api/Pagination.antt =====
-- The pages of a listing: backend/internal/api/pagination.go. Base64 is a parameter.
use mini_eureka.Prelude.{
  ℕ, zero, suc, ◌+◌, ◌-◌, ltb, leb, ◌==◌, min, if◌then◌else◌, Option, none, some, List, [], ◌∷◌,
  ◌++◌, length, take, drop,
}
use mini_eureka.Prelude.Int.{ℤ, pos, negsuc, ltb_ℤ}
use mini_eureka.Prelude.Text.{Text, text_eq}
use mini_eureka.Model.Error.{Error, Result, ok, err, message, text}
use mini_eureka.Model.Revision.{format_int, parse_int, parse_unsigned}

-- `base64.RawURLEncoding`
pub record Base64 : Type 0 where
  pub encode : Text → Text
  pub decode : Text → Option Text

abbrev pub invalid_cursor : Error
invalid_cursor = message (text "invalid cursor")

-- `encodeCursor`, none for nil.
unfoldable pub encode_cursor : Base64 → ℤ → Option Text
encode_cursor b offset = if ltb_ℤ offset (pos 0) then none else some (b.encode (format_int offset))

-- `strconv.Atoi` where the value is not negative: after a minus sign that is zero.
unfoldable pub parse_offset : Text → Option ℕ
parse_offset [] = none
parse_offset (c ∷ s) =
    let parsed = if c == b'-' then parse_unsigned s else parse_int (c ∷ s) in
    elim parsed [
      | none ↦ none
      | some (negsuc n) ↦ none
      | some (pos n) ↦ if c == b'-' then (if n == 0 then some 0 else none) else some n
    ]

-- `decodeCursor`
unfoldable pub decode_cursor : Base64 → Text → Result ℕ
unfolding parse_offset
decode_cursor b value = if text_eq value [] then ok 0 else elim (b.decode value) [
  | none ↦ err invalid_cursor
  | some decoded ↦ elim (parse_offset decoded) [ none ↦ err invalid_cursor | some n ↦ ok n ]
]

module _ {ℓ} {A : Type ℓ} where
  -- `paginate` with a limit that is not negative: the page and the next cursor, without which there
  -- are no more.
  unfoldable pub paginate : Base64 → List A → ℕ → ℕ → List A × Option Text
  unfolding encode_cursor
  paginate b values offset limit =
      let end = min (offset + limit) (length values) in
      if leb (length values) offset then ([], none) else (
        take (end - offset) (drop offset values),
        if ltb end (length values) then encode_cursor b (pos end) else none,
      )

  -- What a client reads that follows the cursors from one on, none if a cursor is refused or there
  -- are more pages than the fuel.
  unfoldable pub read_pages : Base64 → List A → ℕ → ℕ → Text → Option (List A)
  unfolding decode_cursor paginate
  read_pages b values limit zero cursor = none
  read_pages b values limit (suc fuel) cursor = elim (decode_cursor b cursor) [
    | err e ↦ none
    | ok offset ↦
        let (page, next) = paginate b values offset limit in
        elim next [
          | none ↦ some page
          | some c ↦ elim (read_pages b values limit fuel c) [
            | none ↦ none
            | some rest ↦ some (page ++ rest)
          ]
        ]
  ]
