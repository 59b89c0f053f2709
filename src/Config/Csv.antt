-- ===== src/Config/Csv.antt =====
-- Lists in environment variables: `splitCSV` of backend/internal/config/config.go.
use mini_eureka.Prelude.{
  ◌==◌, if◌then◌else◌, Bool, false, ◌||◌, List, [], ◌∷◌, ◌≡◌, arith, refl, All, Bool-cases, inl,
  inr,
}
use mini_eureka.Prelude.Text.{Text, text_eq, text_eq_iff}
use mini_eureka.Config.{Readers}

-- `strings.Split(raw, ",")`
unfoldable pub split_comma : Text → List Text
split_comma [] = [] ∷ []
split_comma (c ∷ s) = elim (split_comma s) [
  | [] ↦ []
  | part ∷ parts ↦ if c == b',' then [] ∷ part ∷ parts else (c ∷ part) ∷ parts
]

unfoldable pub is_seen : Text → List Text → Bool
is_seen v [] = false
is_seen v (s ∷ ss) = text_eq s v || is_seen v ss

-- The loop of `splitCSV`.
unfoldable pub fresh_values : Readers → List Text → List Text → List Text
unfolding is_seen
fresh_values rd seen [] = []
fresh_values rd seen (part ∷ parts) =
    let value = rd.trim_space part in
    let skipped = fresh_values rd seen parts in
    let kept = fresh_values rd (value ∷ seen) parts in
    if text_eq value [] || is_seen value seen then skipped else value ∷ kept

-- `splitCSV`
unfoldable pub split_csv : Readers → Text → List Text
unfolding split_comma fresh_values
split_csv rd raw =
    if text_eq (rd.trim_space raw) [] then [] else fresh_values rd [] (split_comma raw)

-- No value stands twice.
unfoldable pub Unique : List Text → Type 0
Unique [] = Unit
Unique (v ∷ vs) = (is_seen v vs ≡ false) × Unique vs

-- Values that are not empty and not among those already seen.
abbrev Fresh : List Text → List Text → Type 0
Fresh seen vs = All (λ v. (text_eq v [] || is_seen v seen) ≡ false) vs

looser : (value : Text) (seen vs : List Text) → Fresh (value ∷ seen) vs → Fresh seen vs
unfolding is_seen
looser value seen [] h = tt
looser value seen (v ∷ vs) h = (ground (arith, h.0), looser value seen vs h.1)

unseen : (value : Text) (seen vs : List Text) → Fresh (value ∷ seen) vs → is_seen value vs ≡ false
unfolding is_seen
unseen value seen [] h = refl
unseen value seen (v ∷ vs) h =
    let rest = unseen value seen vs h.1 in
    ground (arith, h.0, rest, text_eq_iff v value, text_eq_iff value v)

fresh_values-Unique :
    (rd : Readers) (seen parts : List Text)
    → Unique (fresh_values rd seen parts) × Fresh seen (fresh_values rd seen parts)
unfolding fresh_values Unique
fresh_values-Unique rd seen [] = (tt, tt)
fresh_values-Unique rd seen (part ∷ parts) =
    let value = rd.trim_space part in
    elim (Bool-cases (text_eq value [] || is_seen value seen)) [
      | inl skip ↦ rw skip (fresh_values-Unique rd seen parts)
      | inr new ↦
          let rest = fresh_values-Unique rd (value ∷ seen) parts in
          let vs = fresh_values rd (value ∷ seen) parts in
          rw new ((unseen value seen vs rest.1, rest.0), (new, looser value seen vs rest.1))
    ]

named : (vs : List Text) → Fresh [] vs → All (λ v. text_eq v [] ≡ false) vs
named [] h = tt
named (v ∷ vs) h = (ground (arith, h.0), named vs h.1)

-- `splitCSV` gives no value twice and none that is empty, whatever the text.
pub split_csv-Unique :
    (rd : Readers) (raw : Text)
    → Unique (split_csv rd raw) × All (λ v. text_eq v [] ≡ false) (split_csv rd raw)
unfolding split_csv
split_csv-Unique rd raw = elim (Bool-cases (text_eq (rd.trim_space raw) [])) [
  | inl blank ↦ rw blank (unfold Unique in tt, tt)
  | inr written ↦
      let h = fresh_values-Unique rd [] (split_comma raw) in
      rw written (h.0, named (fresh_values rd [] (split_comma raw)) h.1)
]
