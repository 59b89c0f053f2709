-- ===== src/Api/Replies.antt =====
-- How the handlers of backend/internal/api read a request and answer it: response.go, `decodeJSON` of
-- server.go, `queryLimit` and `writeServiceError` of handlers_services.go. A reply is its status and
-- what it carries; the request ID and the JSON text are left out.
use mini_eureka.Prelude.{
  ℕ, leb, if◌then◌else◌, Bool, true, false, ◌&&◌, Option, none, some, List, [], ◌∷◌,
}
use mini_eureka.Prelude.Int.{ℤ, pos, negsuc}
use mini_eureka.Prelude.Text.{Text, text_eq}
use mini_eureka.Model.Error.{Error, ValidationError, validation_of, is_sentinel, text}
use mini_eureka.Model.Revision.{parse_int}
use mini_eureka.Service.Leases.{not_found, stale_lease, not_demo}
use Prim.Native.String.{String}

-- What `writeError` is given.
pub record Failure : Type 0 where
  pub status : ℕ
  pub code : Text
  pub details : List ValidationError

-- `writeError` with a failure, or `writeData` with a status.
pub data Reply {ℓ} (A : Type ℓ) : Type ℓ where
  failed : Failure → Reply A
  replied : ℕ → A → Reply A

-- What a step of a handler finds: it has answered the request, or it goes on with a value.
pub data Checked {ℓ} (A : Type ℓ) : Type ℓ where
  refused : Failure → Checked A
  passed : A → Checked A

infixl 5 ◌>>=◌ ◌>>◌
abbrev pub ◌>>=◌ {ℓ κ} : {A : Type ℓ} {B : Type κ} → Checked A → (A → Checked B) → Checked B
refused f >>= k = refused f
passed a >>= k = k a

abbrev pub ◌>>◌ {ℓ} : {B : Type ℓ} → Checked (Unit {0}) → Checked B → Checked B
m >> k = m >>= λ _. k

abbrev pub failure : ℕ → String → Failure
failure status code = record { status = status; code = text code; details = [] }

-- `if bad { writeError(...); return }`
abbrev pub refuse_if : Bool → Failure → Checked (Unit {0})
refuse_if true f = refused f
refuse_if false f = passed tt

abbrev pub or_refuse {ℓ} : {A : Type ℓ} → Option A → Failure → Checked A
or_refuse none f = refused f
or_refuse (some a) f = passed a

abbrev pub reply_of {ℓ} : {A : Type ℓ} → Checked A → Reply A
reply_of (refused f) = failed f
reply_of (passed a) = replied 200 a

abbrev pub bad_cursor : Failure
bad_cursor = failure 400 "invalid_cursor"

-- The answer to a parameter or a body that breaks a rule.
abbrev pub unprocessable : Failure
unprocessable = failure 422 "validation_error"

abbrev pub demo_disabled : Failure
demo_disabled = failure 404 "demo_disabled"

abbrev pub internal_error : Failure
internal_error = failure 500 "internal_error"

-- `writeDomainError`, none where it does not answer.
unfoldable pub domain_failure : Error → Option Failure
unfolding validation_of
domain_failure e = elim (validation_of e) [
  | none ↦ none
  | some v ↦ some (record unprocessable { details = v ∷ [] })
]

-- What the handlers answer to an error of the domain, and to any other.
unfoldable pub domain_or_internal : Error → Failure
unfolding domain_failure
domain_or_internal e = elim (domain_failure e) [ none ↦ internal_error | some f ↦ f ]

-- `writeServiceError` of an error that is not nil.
unfoldable pub service_failure : Error → Failure
unfolding is_sentinel domain_or_internal
service_failure e =
    if is_sentinel not_found e
    then failure 404 "not_found"
    else if is_sentinel stale_lease e
    then failure 409 "stale_lease"
    else if is_sentinel not_demo e
    then demo_disabled
    else domain_or_internal e

-- What encoding/json makes of a body under a limit of bytes: the first value, and whether nothing
-- comes after it.
pub data Decoding {ℓ} (A : Type ℓ) : Type ℓ where
  value : A → Decoding A
  too_large malformed : Decoding A

pub record BodyReader (A : Type 0) : Type 0 where
  pub decode : ℤ → Text → Decoding A
  pub ends : ℤ → Text → Bool

-- `decodeJSON`
unfoldable pub decode_json : {A : Type 0} → BodyReader A → ℤ → Text → Checked A
decode_json rd max body = elim (rd.decode max body) [
  | too_large ↦ refused (failure 413 "body_too_large")
  | malformed ↦ refused (failure 400 "invalid_json")
  | value a ↦ if rd.ends max body then passed a else refused (failure 400 "invalid_json")
]

-- `strconv.Atoi` where the value is to be positive.
abbrev positive : Option ℤ → Option ℕ
positive none = none
positive (some (negsuc n)) = none
positive (some (pos n)) = some n

-- `queryLimit`: none where it is not ok. Atoi refuses what begins with a minus sign or gives a value
-- below one, and both are refused here.
unfoldable pub query_limit : Text → ℕ → ℕ → Option ℕ
query_limit raw fallback maximum =
    if text_eq raw [] then some fallback else elim (positive (parse_int raw)) [
      | none ↦ none
      | some n ↦ if leb 1 n && leb n maximum then some n else none
    ]
