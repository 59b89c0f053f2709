-- ===== src/Api/Demos.antt =====
-- The demo's handlers, `demoNetwork` and `demoOffline` of backend/internal/api/handlers_dashboard.go,
-- and what a fault that is set comes to.
use mini_eureka.Prelude.{
  ℕ, if◌then◌else◌, Bool, true, false, not, ◌||◌, [], ◌≡◌, arith, refl, Bool-cases, inl, inr, subst,
}
use mini_eureka.Prelude.Int.{ℤ, pos, ltb_ℤ}
use mini_eureka.Prelude.Text.{Text, text_eq, text_eq_iff}
use mini_eureka.Prelude.Map.{Map, text_key, lookup-insert}
use mini_eureka.Service.{Payloads, Readings, OperationResult}
use mini_eureka.Service.Leases.{FreshIds}
use mini_eureka.Gossip.Select.{Fault, set_fault, should_drop, get_fault}
use mini_eureka.Demo.{Manager, take_offline}
use mini_eureka.Api.Replies.{
  Reply, failed, replied, refused, passed, unprocessable, demo_disabled, BodyReader, decode_json,
}
use mini_eureka.Api.Calls.{Checked-cases}
use mini_eureka.Api.Services.{OperationBody, ids_missing, service_reply}

-- `demoNetwork`: the body is a fault. Without the demo mode, or faults, there is none to set.
unfoldable pub demo_network :
    Bool → BodyReader Fault → ℤ → Text → Map Text Fault → Map Text Fault × Reply Fault
demo_network demo reader max body faults =
    if not demo then (faults, failed demo_disabled) else elim (decode_json reader max body) [
      | refused f ↦ (faults, failed f)
      | passed b ↦
          let (faults', fault) = set_fault b faults in
          if text_eq b.peer_node_id []
            || ltb_ℤ b.drop_percent (pos 0)
            || ltb_ℤ (pos 100) b.drop_percent
          then (faults, failed unprocessable)
          else (faults', replied 200 fault)
    ]

-- `demoOffline`
unfoldable pub demo_offline :
    Payloads
    → Bool
    → BodyReader OperationBody
    → ℤ
    → Text
    → Text
    → Text
    → Readings
    → FreshIds
    → Manager
    → Manager × Reply OperationResult
unfolding service_reply
demo_offline pl demo reader max service instance_id body rd ids m =
    if not demo then (m, failed demo_disabled) else elim (decode_json reader max body) [
      | refused f ↦ (m, failed f)
      | passed b ↦
          let (m', result) =
            take_offline pl service instance_id b.lease_id b.operation_id rd ids m in
          if ids_missing b.lease_id b.operation_id
          then (m, failed unprocessable)
          else (m', service_reply 202 result)
    ]

kept_fault :
    (b : Fault) (faults : Map Text Fault) (f : Fault)
    → ltb_ℤ b.drop_percent (pos 0) || ltb_ℤ (pos 100) b.drop_percent ≡ false
    → (set_fault b faults).1 ≡ f
    → (b ≡ f) × (ltb_ℤ f.drop_percent (pos 0) ≡ false)
unfolding set_fault
kept_fault b faults f range h = ground (arith, range, h)

set_fault-decides :
    (f : Fault) (faults : Map Text Fault) (roll : ℕ)
    → ltb_ℤ f.drop_percent (pos 0) || ltb_ℤ (pos 100) f.drop_percent ≡ false
    → should_drop f.peer_node_id roll (set_fault f faults).0
      ≡ (f.blocked || ltb_ℤ (pos roll) f.drop_percent)
unfolding set_fault should_drop get_fault
set_fault-decides f faults roll range =
    let kept = (set_fault f faults).1 in
    ground (
      arith,
      range,
      (text_eq_iff f.peer_node_id f.peer_node_id).1 refl,
      lookup-insert f.peer_node_id f.peer_node_id kept faults,
    )

-- A fault that `demoNetwork` accepts is kept as it was sent, and decides about the packets to its
-- peer: one that is blocked gets none, and of the others a packet is dropped exactly if what is drawn
-- is below the percentage.
pub demo_network-should_drop :
    (reader : BodyReader Fault) (max : ℤ) (body : Text) (faults : Map Text Fault) (f : Fault)
    (roll : ℕ)
    → (demo_network true reader max body faults).1 ≡ replied 200 f
    → should_drop f.peer_node_id roll (demo_network true reader max body faults).0
      ≡ (f.blocked || ltb_ℤ (pos roll) f.drop_percent)
unfolding demo_network
demo_network-should_drop reader max body faults f roll h =
    elim (Checked-cases (decode_json reader max body)) [
      | inl (e, bad) ↦ absurd (ground (arith, h, bad))
      | inr (b, good) ↦
          elim (Bool-cases (
            text_eq b.peer_node_id []
            || ltb_ℤ b.drop_percent (pos 0)
            || ltb_ℤ (pos 100) b.drop_percent)) [
              | inl wrong ↦ absurd (ground (arith, h, good, wrong))
              | inr right ↦
                  let range : ltb_ℤ b.drop_percent (pos 0) || ltb_ℤ (pos 100) b.drop_percent
                      ≡ false =
                    ground (arith, right) in
                  let same = kept_fault b faults f range (ground (arith, h, good, right)) in
                  rw (good, demo_network)
                    (rw right (
                      subst
                        (λ x.
                          should_drop x.peer_node_id roll (set_fault b faults).0
                          ≡ (x.blocked || ltb_ℤ (pos roll) x.drop_percent))
                        same.0 (set_fault-decides b faults roll range)))
            ]
    ]
