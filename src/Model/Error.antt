-- ===== src/Model/Error.antt =====
-- Go errors as values, and the field checks of backend/internal/model/validation.go.
use mini_eureka.Prelude.{
  ℕ, ◌≡◌, ◌⊎◌, inl, inr, refl, ltb, if◌then◌else◌, Bool, false, not, ◌||◌, ◌&&◌, ◌==◌, Option, none,
  some, List, [], ◌∷◌, length,
}
use mini_eureka.Prelude.Text.{Text, text_eq, bytes}
use mini_eureka.Prelude.Utf8.{runes, is_control, is_space}
use Prim.Native.String.{String}

-- A text constant, kept as one symbol by the proofs.
unfoldable pub text : String → Text
text s = bytes s

-- `model.ValidationError`. The message is a function of field and code at each call, and is left
-- out; no code branches on it.
pub record ValidationError : Type 0 where
  pub field : Text
  pub code : Text

-- An error value: a ValidationError, a sentinel or formatted message, or one wrapped with `%w`.
pub data Error : Type 0 where
  validation : ValidationError → Error
  message : Text → Error
  wrapped : Text → Error → Error

-- `errors.As` with a ValidationError.
unfoldable pub validation_of : Error → Option ValidationError
validation_of (validation v) = some v
validation_of (message t) = none
validation_of (wrapped t e) = validation_of e

same_message : Error → Text → Bool
same_message (message s) t = text_eq s t
same_message _ t = false

-- `errors.Is` with a sentinel, an error that its text tells from the others.
unfoldable pub is_sentinel : Error → Error → Bool
unfolding same_message
is_sentinel t (validation v) = false
is_sentinel t (message s) = same_message t s
is_sentinel t (wrapped s e) = is_sentinel t e

-- A value or an error, as a Go function returns them.
pub data Result {ℓ} (A : Type ℓ) : Type ℓ where
  ok : A → Result A
  err : Error → Result A

pub Result-cases {ℓ} :
    {A : Type ℓ} (r : Result A) → ((e : Error) × (r ≡ err e)) ⊎ ((a : A) × (r ≡ ok a))
Result-cases (err e) = inl (e, refl)
Result-cases (ok a) = inr (a, refl)

abbrev pub invalid : String → String → Option Error
invalid f c = some (validation (record { field = text f; code = text c }))

-- `if err := a; err != nil { return err }; return b`
infixr 25 ◌orelse◌
abbrev pub ◌orelse◌ : Option Error → Option Error → Option Error
some e orelse b = some e
none orelse b = b

-- `fmt.Errorf("context: %w", err)` on an error, nil otherwise.
abbrev pub wrap : String → Option Error → Option Error
wrap c (some e) = some (wrapped (text c) e)
wrap c none = none

-- A rune that no identifier may hold.
forbidden_rune : ℕ → Bool
forbidden_rune r = is_control r || is_space r || r == b'/' || r == b'\\'

unfoldable pub has_rune : (ℕ → Bool) → List ℕ → Bool
has_rune p [] = false
has_rune p (r ∷ rs) = p r || has_rune p rs

unfoldable pub validate_identifier : String → Text → ℕ → Option Error
unfolding forbidden_rune has_rune
validate_identifier field value max =
    if text_eq value [] then invalid field "required" else elim (runes value) [
      | none ↦ invalid field "invalid_utf8"
      | some rs ↦
          if ltb max (length rs)
          then invalid field "too_long"
          else if has_rune forbidden_rune rs
          then invalid field "invalid_format"
          else none
    ]

unfoldable pub validate_opaque_id : String → Text → ℕ → Bool → Option Error
validate_opaque_id field value max required =
    if text_eq value [] && not required then none else validate_identifier field value max

-- The first and the last rune are what `strings.TrimSpace` would remove.
last_is_space : List ℕ → Bool
last_is_space [] = false
last_is_space (r ∷ []) = is_space r
last_is_space (r ∷ r' ∷ rs) = last_is_space (r' ∷ rs)

first_is_space : List ℕ → Bool
first_is_space [] = false
first_is_space (r ∷ rs) = is_space r

abbrev pub max_host_length : ℕ
max_host_length = 255

unfoldable pub validate_host : Text → Option Error
unfolding forbidden_rune has_rune first_is_space last_is_space
validate_host host = if text_eq host [] then invalid "host" "required" else elim (runes host) [
  | none ↦ invalid "host" "invalid_length"
  | some rs ↦
      if ltb max_host_length (length rs)
      then invalid "host" "invalid_length"
      else if first_is_space rs || last_is_space rs
      then invalid "host" "invalid_format"
      else if has_rune forbidden_rune rs
      then invalid "host" "invalid_format"
      else none
]
