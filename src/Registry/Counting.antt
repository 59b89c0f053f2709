-- ===== src/Registry/Counting.antt =====
-- The counts that the dashboard shows are those of the records that the shards hold.
use mini_eureka.Prelude.{
  ℕ, ◌+◌, if◌then◌else◌, none, some, List, [], ◌∷◌, ◌≡◌, length, total, arith, Bool-cases, inl, inr,
  Ordering, true, All, refl,
}
use mini_eureka.Prelude.Order.{is_gt}
use mini_eureka.Prelude.Text.{Text, compare_text}
use mini_eureka.Prelude.Map.{Map, lookup, insert, text_key}
use mini_eureka.Prelude.Sort.{sort_on, insert_on}
use mini_eureka.Model.Instance.{Instance, InstanceStatus, status_eq, status_valid}
use mini_eureka.Registry.Shard.{Shard}
use mini_eureka.Registry.Query.{
  ServiceSummary, summary_of, count_status, count_services, values, services, counts, snapshot,
  all_records, compare_key, service_key, summary_name,
}

module _ {ℓ κ} {A : Type ℓ} {K : Type κ} (cmp : K → K → Ordering) (key : A → K) (f : A → ℕ) where
  total-insert_on : (x : A) (ys : List A) → total f (insert_on cmp key x ys) ≡ f x + total f ys
  unfolding insert_on
  total-insert_on x [] = refl
  total-insert_on x (y ∷ ys) = elim (Bool-cases (is_gt (cmp (key x) (key y)))) [
    | inl gt ↦ rw gt (omega (arith, total-insert_on x ys))
    | inr le ↦ rw le refl
  ]

  total-sort_on : (xs : List A) → total f (sort_on cmp key xs) ≡ total f xs
  unfolding sort_on
  total-sort_on [] = refl
  total-sort_on (x ∷ xs) = omega (arith, total-insert_on x (sort_on cmp key xs), total-sort_on xs)

-- One of the three counts, and the records that it counts.
record IsCount (f : ServiceSummary → ℕ) (g : InstanceStatus → ℕ) : Type 0 where
  counted : (t : InstanceStatus) (s : ServiceSummary) → f (count_status t s) ≡ f s + g t
  named : (n : Text) (s : ServiceSummary) → f (summary_of n (some s)) ≡ f s
  fresh : (n : Text) → f (summary_of n none) ≡ 0

module _ (f : ServiceSummary → ℕ) (g : InstanceStatus → ℕ) (c : IsCount f g) where
  total-counted :
      (k : Text) (t : InstanceStatus) (m : Map Text ServiceSummary)
      → total f (values (insert k (count_status t (summary_of k (lookup k m))) m))
        ≡ total f (values m) + g t
  unfolding values insert lookup
  total-counted k t [] = omega (arith, c.counted t (summary_of k none), c.fresh k)
  total-counted k t ((j, s) ∷ m) =
      ground (arith, c.counted t (summary_of k (some s)), c.named k s, total-counted k t m)

  total-count_services :
      (m : Map Text ServiceSummary) (is : List Instance)
      → total f (values (count_services m is)) ≡ total f (values m) + total (λ i. g i.status) is
  unfolding count_services
  total-count_services m [] = omega arith
  total-count_services m (i ∷ is) = omega (
    arith,
    total-counted i.service i.status m,
    total-count_services
        (insert i.service (count_status i.status (summary_of i.service (lookup i.service m))) m) is,
  )

  total-services :
      (shards : List Shard)
      → total f (services shards) ≡ total (λ i. g i.status) (all_records shards)
  unfolding services snapshot
  total-services shards =
      unfold values in
      omega (
        arith,
        total-sort_on compare_text summary_name f (values (count_services [] (snapshot shards))),
        total-count_services [] (snapshot shards),
        total-sort_on compare_key service_key (λ i. g i.status) (all_records shards),
      )

-- 1 for a record in the status, 0 for another.
abbrev pub one_if : InstanceStatus → InstanceStatus → ℕ
one_if s t = if status_eq s t then 1 else 0

abbrev pub records_in : InstanceStatus → List Shard → ℕ
records_in s shards = total (λ i. one_if s i.status) (all_records shards)

active-IsCount : IsCount (λ s. s.active) (one_if InstanceStatus.active)
unfolding count_status status_eq
active-IsCount = record { counted = λ t s. ground arith; named = λ n s. refl; fresh = λ n. refl }

delayed-IsCount : IsCount (λ s. s.delayed) (one_if InstanceStatus.delayed)
unfolding count_status status_eq
delayed-IsCount = record { counted = λ t s. ground arith; named = λ n s. refl; fresh = λ n. refl }

evicted-IsCount : IsCount (λ s. s.evicted) (one_if InstanceStatus.evicted)
unfolding count_status status_eq
evicted-IsCount = record { counted = λ t s. ground arith; named = λ n s. refl; fresh = λ n. refl }

one_of_three :
    (t : InstanceStatus)
    → status_valid t ≡ true
    → one_if InstanceStatus.active t
        + one_if InstanceStatus.delayed t
        + one_if InstanceStatus.evicted t
      ≡ 1
unfolding status_valid status_eq
one_of_three t h = ground arith

sum_of_three :
    (is : List Instance)
    → All (λ i. status_valid i.status ≡ true) is
    → total (λ i. one_if InstanceStatus.active i.status) is
        + total (λ i. one_if InstanceStatus.delayed i.status) is
        + total (λ i. one_if InstanceStatus.evicted i.status) is
      ≡ length is
sum_of_three [] h = refl
sum_of_three (i ∷ is) h = omega (arith, one_of_three i.status h.0, sum_of_three is h.1)

-- Where every record has one of the three statuses, `Counts` tells how many records of all shards
-- are ACTIVE, DELAYED and EVICTED, although it adds up sorted summaries per service, and its
-- number of instances is that of all records.
pub counts_lem :
    (shards : List Shard)
    → All (λ i. status_valid i.status ≡ true) (all_records shards)
    → ((counts shards).active ≡ records_in InstanceStatus.active shards)
      × ((counts shards).delayed ≡ records_in InstanceStatus.delayed shards)
      × ((counts shards).evicted ≡ records_in InstanceStatus.evicted shards)
      × ((counts shards).instances ≡ length (all_records shards))
unfolding counts
counts_lem shards h =
    let a = total-services (λ s. s.active) (one_if InstanceStatus.active) active-IsCount shards in
    let d =
      total-services (λ s. s.delayed) (one_if InstanceStatus.delayed) delayed-IsCount shards in
    let e =
      total-services (λ s. s.evicted) (one_if InstanceStatus.evicted) evicted-IsCount shards in
    (a, d, e, omega (arith, a, d, e, sum_of_three (all_records shards) h))
