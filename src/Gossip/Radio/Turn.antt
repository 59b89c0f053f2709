-- ===== src/Gossip/Radio/Turn.antt =====
-- What a gossip round of backend/internal/gossip/engine.go sends and what it leaves of the engine.
use mini_eureka.Prelude.{if◌then◌else◌, Bool, true, false, List, [], ◌∷◌, ◌≡◌, ◌∙◌, refl}
use mini_eureka.Prelude.Text.{Text, text_eq}
use mini_eureka.Prelude.Time.{Time}
use mini_eureka.Gossip.Engine.{Pending, targets, target_for, pending_for_round}
use mini_eureka.Gossip.Select.{pick}
use mini_eureka.Gossip.Radio.{
  Gear, Station, Radio, send_ping, send_members, send_mutation, greet, spread_one, spread,
  gossip_round,
}
use mini_eureka.Gossip.Radio.Clean.{
  Kept-self, KeepsClean, members-clean, mutation-clean, ping-clean, same-packets, then-clean,
}

-- A peer without an address is passed over.
skip-clean :
    (st : Station) (r t : Radio) (b : Bool)
    → KeepsClean st r t
    → KeepsClean st r (if b then r else t)
skip-clean st r t true h = same-packets st r r (refl, Kept-self r.engine)
skip-clean st r t false h = h

greet-clean :
    (g : Gear) (st : Station) (wall : Time) (keys : List Text) (r : Radio)
    → KeepsClean st r (greet g st wall keys r)
unfolding greet
greet-clean g st wall [] r = same-packets st r r (refl, Kept-self r.engine)
greet-clean g st wall (key ∷ keys) r =
    let target = target_for st.table key in
    let pinged = send_ping g st wall target r in
    let b = text_eq target.address [] in
    let greeted = if b then r else send_members g st target pinged in
    then-clean st r greeted _
      (skip-clean st r (send_members g st target pinged) b (
        then-clean st r pinged _ (ping-clean g st wall target r)
          (members-clean g st target pinged)))
      (greet-clean g st wall keys greeted)

one-clean :
    (g : Gear) (st : Station) (item : Pending) (keys : List Text) (r : Radio)
    → KeepsClean st r (spread_one g st item keys r)
unfolding spread_one
one-clean g st item [] r = same-packets st r r (refl, Kept-self r.engine)
one-clean g st item (key ∷ keys) r =
    let target = target_for st.table key in
    let b = text_eq target.address [] in
    let passed_on = if b then r else send_mutation g st target item r in
    then-clean st r passed_on _
      (skip-clean st r (send_mutation g st target item r) b (mutation-clean g st target item r))
      (one-clean g st item keys passed_on)

spread-clean :
    (g : Gear) (st : Station) (items : List Pending) (keys : List Text) (r : Radio)
    → KeepsClean st r (spread g st items keys r)
unfolding spread
spread-clean g st [] keys r = same-packets st r r (refl, Kept-self r.engine)
spread-clean g st (item ∷ items) keys r =
    then-clean st r (spread_one g st item keys r) _ (one-clean g st item keys r)
      (spread-clean g st items keys (spread_one g st item keys r))

pub gossip_round-ready :
    (g : Gear) (st : Station) (wall : Time) (r : Radio)
    → (gossip_round g st wall r).engine.ready ≡ r.engine.ready
unfolding gossip_round KeepsClean pending_for_round
gossip_round-ready g st wall r =
    let selected = pick g.intn (targets st.table r.engine) r.engine.config.fanout in
    let greeted = greet g st wall selected r in
    let (e, items) = pending_for_round greeted.engine in
    (spread-clean g st items selected (record greeted { engine = e })).1.ready
    ∙ (greet-clean g st wall selected r).1.ready
