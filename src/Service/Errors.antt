-- ===== src/Service/Errors.antt =====
-- The operations of the lease service that end with an error: what they leave of the service.
use mini_eureka.Prelude.{
  ℕ, sym, ◌∙◌, Bool, true, false, not, ◌&&◌, ◌||◌, none, some, ◌≡◌, refl, ap, arith, set-get_or,
  Bool-cases, Option-cases, inl, inr,
}
use mini_eureka.Prelude.Text.{Text, text_eq}
use mini_eureka.Model.Error.{Error, Result, Result-cases, ok, err}
use mini_eureka.Model.Instance.{terminal}
use mini_eureka.Model.Mutation.{Mutation, validate_mutation}
use mini_eureka.Registry.Shard.{ApplyResult, empty_shard}
use mini_eureka.Registry.Compare.{Platform}
use mini_eureka.Registry.Run.{apply}
use mini_eureka.Registry.Store.{Store, apply_store, shard_for, shard_index}
use mini_eureka.Prelude.Time.{Time}
use mini_eureka.Clock.{Hlc, now}
use mini_eureka.Service.{Payloads, Service, Readings, OperationResult, apply_service, answer_of}
use mini_eureka.Service.Leases.{
  RegisterRequest, FreshIds, register, register_new, heartbeat, deregister, held, next_generation,
  fence_at,
}

-- A service that differs from another at most in its clock.
abbrev pub IsTicked : Service → Service → Type 0
IsTicked s t = t ≡ record s { clock = t.clock }

apply_store-refused :
    (pl : Platform) (m : Mutation) (wall : Time) (r : Store) (e : Error)
    → (apply_store pl m wall r).1 ≡ err e
    → (apply_store pl m wall r).0 ≡ r
unfolding apply_store apply shard_for
apply_store-refused pl m wall r e h = elim (Option-cases (validate_mutation m)) [
  | inl valid ↦ absurd (ground (arith, h, valid))
  | inr (bad, found) ↦
      rw (found, apply)
        (ap (λ l. record r { shards = l })
          (set-get_or r.shards (shard_index r m.instance.service) empty_shard))
]

answer_fails : Result OperationResult → Bool
answer_fails (ok r) = false
answer_fails (err e) = true

-- Once the registry has answered, the operation has an answer.
answered :
    (pl : Payloads) (m : Mutation) (rd : Readings) (s : Service) (r : ApplyResult)
    → (apply_store pl.platform m rd.registry s.registry).1 ≡ ok r
    → answer_fails (answer_of (apply_service pl m rd s)).1 ≡ false
unfolding apply_service answer_of answer_fails
answered pl m rd s r h = elim (Option-cases r.instance) [
  | inl missing ↦ rw (h, answer_of) (rw (missing, answer_of) refl)
  | inr (i, there) ↦ elim (Bool-cases r.applied) [
    | inl taken ↦ rw (h, answer_of) (rw (there, answer_of) (rw (taken, answer_of) refl))
    | inr left ↦ rw (h, answer_of) (rw (there, answer_of) (rw (left, answer_of) refl))
  ]
]

pub answer-refused :
    (pl : Payloads) (m : Mutation) (rd : Readings) (s : Service) (e : Error)
    → (answer_of (apply_service pl m rd s)).1 ≡ err e
    → (answer_of (apply_service pl m rd s)).0 ≡ s
unfolding answer_fails apply_service answer_of
answer-refused pl m rd s e h =
    elim (Result-cases (apply_store pl.platform m rd.registry s.registry).1) [
      | inl (bad, refused) ↦
          rw (refused, apply_service)
            (ap (λ r. record s { registry = r })
              (apply_store-refused pl.platform m rd.registry s.registry bad refused))
      | inr (r, good) ↦ absurd (ground (arith, answered pl m rd s r good, h))
    ]

-- If an operation ends with an error, all but the clock is as it was.
unfoldable pub KeepsOnError : Service → Service × Result OperationResult → Type 0
KeepsOnError s x = (e : Error) → x.1 ≡ err e → IsTicked s x.0

answer-KeepsOnError :
    (pl : Payloads) (m : Mutation) (rd : Readings) (s : Service) (c : Hlc)
    → KeepsOnError s (answer_of (apply_service pl m rd (record s { clock = c })))
unfolding KeepsOnError
answer-KeepsOnError pl m rd s c e h =
    let kept = answer-refused pl m rd (record s { clock = c }) e h in
    kept ∙ ap (λ t. record s { clock = t.clock }) (sym kept)

register_new-KeepsOnError :
    (pl : Payloads) (req : RegisterRequest) (rd : Readings) (ids : FreshIds) (generation : ℕ)
    (s : Service)
    → KeepsOnError s (register_new pl req rd ids generation s)
unfolding register_new
register_new-KeepsOnError pl req rd ids generation s =
    answer-KeepsOnError pl _ rd s (now s.clock rd.clock).0

pub register-KeepsOnError :
    (pl : Payloads) (req : RegisterRequest) (rd : Readings) (ids : FreshIds) (s : Service)
    → KeepsOnError s (register pl req rd ids s)
unfolding register
register-KeepsOnError pl req rd ids s =
    let f = fence_at s req.service req.instance_id in
    elim (Option-cases (held s req.service req.instance_id)) [
      | inl missing ↦
          rw (missing, register)
            (register_new-KeepsOnError pl req rd ids (next_generation none f) s)
      | inr (i, there) ↦ elim (Bool-cases (text_eq i.registration_id req.registration_id)) [
        | inl again ↦ rw (there, register) (rw again (unfold KeepsOnError in λ e h. refl))
        | inr other ↦
            rw (there, register)
              (rw other (register_new-KeepsOnError pl req rd ids (next_generation (some i) f) s))
      ]
    ]

pub heartbeat-KeepsOnError :
    (pl : Payloads) (service id lease op : Text) (rd : Readings) (ids : FreshIds) (s : Service)
    → KeepsOnError s (heartbeat pl service id lease op rd ids s)
unfolding heartbeat
heartbeat-KeepsOnError pl service id lease op rd ids s = elim (Option-cases (held s service id)) [
  | inl missing ↦ rw (missing, heartbeat) (unfold KeepsOnError in λ e h. refl)
  | inr (i, there) ↦ elim (Bool-cases (not (text_eq i.lease_id lease) || terminal i)) [
    | inl wrong ↦ rw (there, heartbeat) (rw wrong (unfold KeepsOnError in λ e h. refl))
    | inr right ↦
        rw (there, heartbeat) (rw right (answer-KeepsOnError pl _ rd s (now s.clock rd.clock).0))
  ]
]

pub deregister-KeepsOnError :
    (pl : Payloads) (service id lease op : Text) (demo : Bool) (rd : Readings) (ids : FreshIds)
    (s : Service)
    → KeepsOnError s (deregister pl service id lease op demo rd ids s)
unfolding deregister
deregister-KeepsOnError pl service id lease op demo rd ids s =
    elim (Option-cases (held s service id)) [
      | inl missing ↦ rw (missing, deregister) (unfold KeepsOnError in λ e h. refl)
      | inr (i, there) ↦ elim (Bool-cases (text_eq i.lease_id lease)) [
        | inr wrong ↦ rw (there, deregister) (rw wrong (unfold KeepsOnError in λ e h. refl))
        | inl right ↦ elim (Bool-cases (demo && not i.demo)) [
          | inl barred ↦
              rw (there, deregister) (rw right (rw barred (unfold KeepsOnError in λ e h. refl)))
          | inr free ↦
              rw (there, deregister)
                (rw right (rw free (answer-KeepsOnError pl _ rd s (now s.clock rd.clock).0)))
        ]
      ]
    ]
