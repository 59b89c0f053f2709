-- ===== src/Api/Calls.antt =====
-- The calls of a client that change leases, by their routes in backend/internal/api/server.go: what
-- an error leaves behind, and who may renew a lease.
use mini_eureka.Prelude.{ℕ, ◌≤◌, ◌<◌, false, ◌≡◌, arith, refl, Bool-cases, inl, inr, ◌⊎◌}
use mini_eureka.Prelude.Int.{ℤ}
use mini_eureka.Prelude.Text.{Text}
use mini_eureka.Model.Error.{Result, ok, err}
use mini_eureka.Service.{Payloads, Service, Readings, OperationResult}
use mini_eureka.Service.Leases.{FreshIds, register, heartbeat, deregister}
use mini_eureka.Service.Errors.{
  IsTicked, KeepsOnError, register-KeepsOnError, heartbeat-KeepsOnError, deregister-KeepsOnError,
}
use mini_eureka.Api.Replies.{
  Failure, Reply, Checked, failed, replied, refused, passed, BodyReader, decode_json,
}
use mini_eureka.Api.Services.{
  Strings, RegisterBody, OperationBody, request_of, register_handler, heartbeat_handler,
  deregister_handler, service_reply, register_reply, ids_missing,
}

-- A request by its route, with the parts of its path, its query or its body.
pub data ClientCall : Type 0 where
  registering : Text → Text → ClientCall
  renewing : Text → Text → Text → ClientCall
  leaving : Text → Text → Text → Text → ClientCall

-- The readers of the two kinds of body, and the limit of bytes.
pub record Decoders : Type 0 where
  pub registrations : BodyReader RegisterBody
  pub operations : BodyReader OperationBody
  pub max_body : ℤ

abbrev pub status_code {ℓ} : {A : Type ℓ} → Reply A → ℕ
status_code (failed f) = f.status
status_code (replied status a) = status

-- The routes of the mux, with the status of the reply.
unfoldable pub answer_call :
    Payloads → Strings → Decoders → ClientCall → Readings → FreshIds → Service → Service × ℕ
unfolding register_handler heartbeat_handler deregister_handler
answer_call pl st d (registering service body) rd ids s =
    let (s', reply) = register_handler pl st d.registrations d.max_body service body rd ids s in
    (s', status_code reply)
answer_call pl st d (renewing service id body) rd ids s =
    let (s', reply) = heartbeat_handler pl d.operations d.max_body service id body rd ids s in
    (s', status_code reply)
answer_call pl st d (leaving service id lease op) rd ids s =
    let (s', reply) = deregister_handler pl service id lease op rd ids s in (s', status_code reply)

pub Checked-cases :
    {A : Type 0} (c : Checked A) → ((f : Failure) × (c ≡ refused f)) ⊎ ((a : A) × (c ≡ passed a))
Checked-cases (refused f) = inl (f, refl)
Checked-cases (passed a) = inr (a, refl)

-- If the reply is an error, all but the clock is as it was.
TicksOnError : {A : Type 0} → Service → Service × Reply A → Type 0
TicksOnError s x = 400 ≤ status_code x.1 → IsTicked s x.0

-- A service's answer that the handler turns into a success below 400 or an error.
settled :
    {A : Type 0} (s : Service) (x : Service × Result OperationResult)
    (turn : Result OperationResult → Reply A)
    → KeepsOnError s x
    → ((r : OperationResult) → status_code (turn (ok r)) < 400)
    → TicksOnError s (x.0, turn x.1)
unfolding TicksOnError KeepsOnError
settled s (t, err e) turn kept low h = kept e refl
settled s (t, ok r) turn kept low h = absurd (omega (arith, low r, h))

register-TicksOnError :
    (pl : Payloads) (st : Strings) (reader : BodyReader RegisterBody) (max : ℤ)
    (service body : Text) (rd : Readings) (ids : FreshIds) (s : Service)
    → TicksOnError s (register_handler pl st reader max service body rd ids s)
unfolding register_handler register_reply
register-TicksOnError pl st reader max service body rd ids s =
    elim (Checked-cases (decode_json reader max body)) [
      | inl (f, bad) ↦ rw (bad, register_handler) (unfold TicksOnError in λ h. refl)
      | inr (b, good) ↦
          rw (good, register_handler)
            (settled s (register pl (request_of service b) rd ids s) (register_reply st)
              (register-KeepsOnError pl (request_of service b) rd ids s) (λ r. ground arith))
    ]

heartbeat-TicksOnError :
    (pl : Payloads) (reader : BodyReader OperationBody) (max : ℤ) (service id body : Text)
    (rd : Readings) (ids : FreshIds) (s : Service)
    → TicksOnError s (heartbeat_handler pl reader max service id body rd ids s)
unfolding heartbeat_handler service_reply
heartbeat-TicksOnError pl reader max service id body rd ids s =
    elim (Checked-cases (decode_json reader max body)) [
      | inl (f, bad) ↦ rw (bad, heartbeat_handler) (unfold TicksOnError in λ h. refl)
      | inr (b, good) ↦ elim (Bool-cases (ids_missing b.lease_id b.operation_id)) [
        | inl missing ↦ rw (good, heartbeat_handler) (rw missing (unfold TicksOnError in λ h. refl))
        | inr given ↦
            rw (good, heartbeat_handler)
              (rw given (
                settled s (heartbeat pl service id b.lease_id b.operation_id rd ids s)
                  (service_reply 200)
                  (heartbeat-KeepsOnError pl service id b.lease_id b.operation_id rd ids s)
                  (λ r. omega arith)))
      ]
    ]

deregister-TicksOnError :
    (pl : Payloads) (service id lease op : Text) (rd : Readings) (ids : FreshIds) (s : Service)
    → TicksOnError s (deregister_handler pl service id lease op rd ids s)
unfolding deregister_handler service_reply
deregister-TicksOnError pl service id lease op rd ids s = elim (Bool-cases (ids_missing lease op)) [
  | inl missing ↦ rw missing (unfold TicksOnError in λ h. refl)
  | inr given ↦ rw given (
      settled s (deregister pl service id lease op false rd ids s) (service_reply 204)
        (deregister-KeepsOnError pl service id lease op false rd ids s) (λ r. omega arith))
]

-- A call that is answered with an error changes no record and no fence, publishes no event, schedules
-- no task and sends nothing to the peers; at most the clock has moved on. An error is a status of 400
-- or more.
pub error_changes_nothing :
    (pl : Payloads) (st : Strings) (d : Decoders) (c : ClientCall) (rd : Readings) (ids : FreshIds)
    (s : Service)
    → 400 ≤ (answer_call pl st d c rd ids s).1
    → IsTicked s (answer_call pl st d c rd ids s).0
unfolding answer_call TicksOnError
error_changes_nothing pl st d (registering service body) rd ids s h =
    register-TicksOnError pl st d.registrations d.max_body service body rd ids s h
error_changes_nothing pl st d (renewing service id body) rd ids s h =
    heartbeat-TicksOnError pl d.operations d.max_body service id body rd ids s h
error_changes_nothing pl st d (leaving service id lease op) rd ids s h =
    deregister-TicksOnError pl service id lease op rd ids s h
