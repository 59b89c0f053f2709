-- ===== src/Api/Reading.antt =====
-- Reading a whole listing page by page: backend/internal/api/pagination.go.
use mini_eureka.Prelude.{
  ℕ, zero, suc, ◌+◌, ◌*◌, ◌-◌, ◌<◌, ◌≤◌, ltb, leb, ◌==◌, min, true, false, none, some, List, [],
  ◌∷◌, ◌++◌, length, take, drop, length-drop, ◌≡◌, arith, refl, ap, ◌∙◌, sym, Bool-cases, inl, inr,
  ◌-◌,
}
use mini_eureka.Prelude.Int.{pos, ltb_ℤ, max_int64, ◌≤ℤ◌}
use mini_eureka.Prelude.Text.{Text, text_eq, compare_text}
use mini_eureka.Prelude.Order.{compare_list}
use mini_eureka.Prelude.Decimal.{
  format_uint, parse-format, length-format_uint, parse_digits, is_digit,
}
use mini_eureka.Prelude.Slices.{take-drop, drop-drop, take-all}
use mini_eureka.Model.Error.{ok}
use mini_eureka.Model.Revision.{format_int, parse_int-digits}
use mini_eureka.Api.Pagination.{
  Base64, decode_cursor, encode_cursor, paginate, parse_offset, read_pages,
}

digit_first : (c n : ℕ) (s : Text) → parse_digits 0 (c ∷ s) ≡ some n → (c == b'-') ≡ false
unfolding parse_digits is_digit
digit_first c n s h = ground (arith, h)

parse_offset-digits :
    (s : Text) (n : ℕ)
    → parse_digits 0 s ≡ some n
    → 0 < length s
    → pos n ≤ℤ max_int64
    → parse_offset s ≡ some n
unfolding parse_offset
parse_offset-digits [] n h l m = absurd (omega arith)
parse_offset-digits (c ∷ s) n h l m =
    let first = digit_first c n s h in
    rw (first, parse_offset) (rw (parse_int-digits (c ∷ s) n h l m) (rw first refl))

no_values {ℓ} : {A : Type ℓ} (xs : List A) → length xs ≤ 0 → xs ≡ []
no_values [] h = refl
no_values (x ∷ xs) h = absurd (omega arith)

module _ (b : Base64) (back : (s : Text) → b.decode (b.encode s) ≡ some s)
    (written : (s : Text) → 0 < length s → text_eq (b.encode s) [] ≡ false) where
  decode-encode_cursor :
      (n : ℕ) → pos n ≤ℤ max_int64 → decode_cursor b (b.encode (format_int (pos n))) ≡ ok n
  unfolding decode_cursor format_int
  decode-encode_cursor n m = rw (written (format_uint n) (length-format_uint n)) (
      rw (back (format_uint n))
        (rw (parse_offset-digits (format_uint n) n (parse-format n) (length-format_uint n) m) refl))

  module _ {ℓ} {A : Type ℓ} (values : List A) (limit : ℕ) where
    paginate-more :
        (offset : ℕ)
        → offset + limit < length values
        → paginate b values offset limit
          ≡ (take limit (drop offset values), some (b.encode (format_int (pos (offset + limit)))))
    unfolding paginate encode_cursor
    paginate-more offset h =
        let bound : leb (length values) offset ≡ false = ground (arith, h) in
        let end : min (offset + limit) (length values) ≡ offset + limit = omega (arith, h) in
        let more : ltb (offset + limit) (length values) ≡ true = ground (arith, h) in
        let width : offset + limit - offset ≡ limit = omega arith in
        let whole : ltb_ℤ (pos (offset + limit)) (pos 0) ≡ false = ground arith in
        rw bound (rw end (rw more (rw width (rw whole refl))))

    paginate-last :
        (offset : ℕ)
        → offset < length values
        → length values ≤ offset + limit
        → paginate b values offset limit ≡ (drop offset values, none)
    unfolding paginate
    paginate-last offset inside h =
        let bound : leb (length values) offset ≡ false = ground (arith, inside) in
        let end : min (offset + limit) (length values) ≡ length values = omega (arith, h) in
        let more : ltb (length values) (length values) ≡ false = ground arith in
        let all =
          take-all (length values - offset) (drop offset values)
            (omega (arith, length-drop offset values)) in
        rw bound (rw end (rw more (ap (λ l. (l, none)) all)))

    paginate-empty :
        (offset : ℕ) → length values ≤ offset → paginate b values offset limit ≡ ([], none)
    unfolding paginate
    paginate-empty offset h =
        let bound : leb (length values) offset ≡ true = ground (arith, h) in rw bound refl

    read_from :
        (fuel offset : ℕ) (cursor : Text)
        → pos (length values) ≤ℤ max_int64
        → 0 < limit
        → decode_cursor b cursor ≡ ok offset
        → offset < length values
        → length values ≤ offset + fuel * limit
        → read_pages b values limit fuel cursor ≡ some (drop offset values)
    unfolding read_pages
    read_from zero offset cursor fits some_limit decoded inside enough = absurd (omega arith)
    read_from (suc fuel) offset cursor fits some_limit decoded inside enough =
        elim (Bool-cases (ltb (offset + limit) (length values))) [
          | inl more ↦
              let next = b.encode (format_int (pos (offset + limit))) in
              let rest =
                read_from fuel (offset + limit) next fits some_limit
                  (decode-encode_cursor (offset + limit) (ground arith)) (ground arith)
                  (ground arith) in
              let joined : take limit (drop offset values) ++ drop (offset + limit) values
                  ≡ drop offset values =
                ap (λ l. take limit (drop offset values) ++ l) (sym (drop-drop offset limit values))
                ∙ take-drop limit (drop offset values) in
              rw (decoded, read_pages)
                (rw (paginate-more offset (ground arith)) (
                  rw rest (
                    ap (λ x. some (x.0 ++ drop (offset + limit) values))
                      (paginate-more offset (ground arith))
                    ∙ ap some joined)))
          | inr last ↦
              rw (decoded, read_pages)
                (rw (paginate-last offset inside (ground arith))
                  (ap (λ x. some x.0) (paginate-last offset inside (ground arith))))
        ]

    -- A client that follows the cursors from the start reads the whole listing, each item once and in
    -- order, if the limit is not zero and the listing does not change; a page for each `limit` items
    -- is enough fuel. Base64 is to decode what it encodes, and to encode a text that is not empty as
    -- one that is not empty; the length is an int64.
    pub read_pages_complete :
        (fuel : ℕ)
        → pos (length values) ≤ℤ max_int64
        → 0 < limit
        → 0 < fuel
        → length values ≤ fuel * limit
        → read_pages b values limit fuel [] ≡ some values
    unfolding read_pages decode_cursor
    read_pages_complete zero fits some_limit fuelled enough = absurd (omega arith)
    read_pages_complete (suc fuel) fits some_limit fuelled enough =
        let start : decode_cursor b [] ≡ ok 0 = unfold text_eq compare_text compare_list in refl in
        elim (Bool-cases (ltb 0 (length values))) [
          | inl some_value ↦
              read_from (suc fuel) 0 [] fits some_limit start (ground arith) (omega (arith, enough))
          | inr bare ↦
              rw (start, read_pages)
                (rw (paginate-empty 0 (ground arith)) (
                  ap (λ x. some x.0) (paginate-empty 0 (ground arith))
                  ∙ ap some (sym (no_values values (ground arith)))))
        ]
