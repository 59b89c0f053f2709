-- ===== src/Gossip/Radio/Clean.antt =====
-- Every packet that the gossip engine hands to the network is of a size that `Send` of
-- backend/internal/gossip/udp.go allows, and is sent under a key that no fault
-- blocks; the key of a seed is not a node's ID.
use mini_eureka.Prelude.{
  ℕ, ◌<◌, ◌≤◌, Bool, true, false, Option, none, some, List, [], ◌∷◌, ◌++◌, All, length, ◌≡◌, ◌⊎◌,
  ◌∙◌, arith, refl, Bool-cases, inl, inr,
}
use mini_eureka.Prelude.Text.{Text}
use mini_eureka.Prelude.Time.{Time}
use mini_eureka.Model.Error.{Result-cases, is_sentinel, text}
use mini_eureka.Model.Member.{Member}
use mini_eureka.Registry.Digest.{ShardDigest, digests}
use mini_eureka.Cluster.{self_member, snapshot_members}
use mini_eureka.Gossip.Wire.{MessageType, message_too_large}
use mini_eureka.Gossip.Engine.{
  Engine, Pending, PeerTarget, digests_for_round, members_for_round, note_ping,
}
use mini_eureka.Gossip.Select.{Sending, send, should_drop, get_fault}
use mini_eureka.Gossip.Radio.{
  Gear, Station, Packet, Radio, transmit, seal, seal_anyway, count_sent, send_quietly, send_counted,
  send_ping, send_each_member, send_members, send_sync_required, send_mutation, delta_of,
}

-- The packet is not empty, no longer than the limit, and no fault blocks the key that it is sent
-- under.
abbrev pub IsClean : Station → Packet → Type 0
IsClean st p =
    (0 < length p.bytes_sent)
    × (length p.bytes_sent ≤ st.max_bytes)
    × ((get_fault p.peer st.faults).blocked ≡ false)

unfoldable pub AllClean : Station → Radio → Type 0
AllClean st r = All (IsClean st) r.packets

All-snoc :
    (P : Packet → Type 0) (xs : List Packet) (x : Packet) → All P xs → P x → All P (xs ++ (x ∷ []))
All-snoc P [] x h k = (k, tt)
All-snoc P (y ∷ xs) x h k = (h.0, All-snoc P xs x h.1 k)

Sending-cases :
    (x : Sending) → (x ≡ Sending.sent) ⊎ ((x ≡ Sending.dropped) ⊎ (x ≡ Sending.too_large))
Sending-cases Sending.sent = inl refl
Sending-cases Sending.dropped = inr (inl refl)
Sending-cases Sending.too_large = inr (inr refl)

sent-IsClean :
    (st : Station) (target : PeerTarget) (roll : ℕ) (packet : Text)
    → send st.max_bytes st.faults target.id roll packet ≡ Sending.sent
    → IsClean st (record { peer = target.id; address = target.address; bytes_sent = packet })
unfolding send should_drop
sent-IsClean st target roll packet h = ground (arith, h)

-- What sending leaves of the engine: all but the cursors and the pings.
pub record Kept (e f : Engine) : Type 0 where
  pub config : f.config ≡ e.config
  pub pending : f.pending ≡ e.pending
  pub incoming_meta : f.incoming_meta ≡ e.incoming_meta
  pub syncing : f.syncing ≡ e.syncing
  pub ready : f.ready ≡ e.ready

pub Kept-self : (e : Engine) → Kept e e
Kept-self e = record {
  config = refl;
  pending = refl;
  incoming_meta = refl;
  syncing = refl;
  ready = refl;
}

pub Kept-trans : {e f g : Engine} → Kept e f → Kept f g → Kept e g
Kept-trans h k = record {
  config = k.config ∙ h.config;
  pending = k.pending ∙ h.pending;
  incoming_meta = k.incoming_meta ∙ h.incoming_meta;
  syncing = k.syncing ∙ h.syncing;
  ready = k.ready ∙ h.ready;
}

-- What an operation gives: clean packets if it is given such, and an engine that is kept.
unfoldable pub KeepsClean : Station → Radio → Radio → Type 0
KeepsClean st r r' = (AllClean st r → AllClean st r') × Kept r.engine r'.engine

transmit-clean :
    (g : Gear) (st : Station) (target : PeerTarget) (packet : Text) (r : Radio)
    → KeepsClean st r (transmit g st target packet r).0
unfolding transmit
transmit-clean g st target packet r =
    elim (Sending-cases (send st.max_bytes st.faults target.id (g.roll r.written) packet)) [
      | inr (inl dropped) ↦
          rw (dropped, transmit) (unfold KeepsClean AllClean in (λ h. h, Kept-self r.engine))
      | inr (inr large) ↦
          rw (large, transmit) (unfold KeepsClean AllClean in (λ h. h, Kept-self r.engine))
      | inl sent ↦ elim (Bool-cases (g.reaches r.written)) [
        | inr lost ↦
            rw (sent, transmit)
              (rw lost (unfold KeepsClean AllClean in (λ h. h, Kept-self r.engine)))
        | inl taken ↦
            let clean = sent-IsClean st target (g.roll r.written) packet sent in
            rw (sent, transmit)
              (rw taken (
                unfold KeepsClean AllClean in
                (λ h. All-snoc (IsClean st) r.packets _ h clean, Kept-self r.engine)))
      ]
    ]

counted-clean :
    (st : Station) (r : Radio) (x : Radio × Bool)
    → KeepsClean st r x.0
    → KeepsClean st r (count_sent x)
unfolding count_sent KeepsClean AllClean
counted-clean st r (t, true) h = h
counted-clean st r (t, false) h = h

-- Drawing a message leaves the packets and what is to be kept.
seal-packets :
    (g : Gear) (st : Station) (type : MessageType) (payload : Option Text) (r : Radio)
    → ((seal g st type payload r).0.packets ≡ r.packets)
      × Kept r.engine (seal g st type payload r).0.engine
unfolding seal
seal-packets g st type none r = (refl, Kept-self r.engine)
seal-packets g st type (some p) r = (refl, Kept-self r.engine)

seal_anyway-packets :
    (g : Gear) (st : Station) (type : MessageType) (payload : Option Text) (r : Radio)
    → ((seal_anyway g st type payload r).0.packets ≡ r.packets)
      × Kept r.engine (seal_anyway g st type payload r).0.engine
unfolding seal_anyway
seal_anyway-packets g st type none r = (refl, Kept-self r.engine)
seal_anyway-packets g st type (some p) r = seal-packets g st type (some p) r

same-clean :
    (st : Station) (r t u : Radio)
    → (t.packets ≡ r.packets) × Kept r.engine t.engine
    → KeepsClean st t u
    → KeepsClean st r u
unfolding KeepsClean AllClean
same-clean st r t u e h = (λ k. h.0 (rw e.0 k), Kept-trans e.1 h.1)

pub same-packets :
    (st : Station) (r t : Radio)
    → (t.packets ≡ r.packets) × Kept r.engine t.engine
    → KeepsClean st r t
unfolding KeepsClean AllClean
same-packets st r t e = (λ k. rw e.0 k, e.1)

pub quietly-clean :
    (g : Gear) (st : Station) (target : PeerTarget) (type : MessageType) (payload : Option Text)
    (r : Radio)
    → KeepsClean st r (send_quietly g st target type payload r)
unfolding send_quietly
quietly-clean g st target type payload r =
    let r1 = (seal_anyway g st type payload r).0 in
    let drawn = seal_anyway-packets g st type payload r in
    elim (Result-cases (seal_anyway g st type payload r).1) [
      | inl (e, bad) ↦ rw (bad, send_quietly) (same-packets st r r1 drawn)
      | inr (packet, good) ↦
          rw (good, send_quietly)
            (same-clean st r r1 _ drawn (transmit-clean g st target packet r1))
    ]

counted_message-clean :
    (g : Gear) (st : Station) (target : PeerTarget) (type : MessageType) (payload : Option Text)
    (r : Radio)
    → KeepsClean st r (send_counted g st target type payload r)
unfolding send_counted
counted_message-clean g st target type payload r =
    let r1 = (seal g st type payload r).0 in
    let drawn = seal-packets g st type payload r in
    elim (Result-cases (seal g st type payload r).1) [
      | inl (e, bad) ↦ rw (bad, send_counted) (same-packets st r r1 drawn)
      | inr (packet, good) ↦
          rw (good, send_counted)
            (same-clean st r r1 _ drawn
              (counted-clean st r1 _ (transmit-clean g st target packet r1)))
    ]

pub then-clean :
    (st : Station) (r t u : Radio) → KeepsClean st r t → KeepsClean st t u → KeepsClean st r u
unfolding KeepsClean
then-clean st r t u h k = (λ all. k.0 (h.0 all), Kept-trans h.1 k.1)

pub mutation-clean :
    (g : Gear) (st : Station) (target : PeerTarget) (item : Pending) (r : Radio)
    → KeepsClean st r (send_mutation g st target item r)
unfolding send_mutation send_sync_required
mutation-clean g st target item r =
    let payload = g.write_delta (delta_of item) in
    let r1 = (seal g st MessageType.delta payload r).0 in
    let drawn = seal-packets g st MessageType.delta payload r in
    elim (Result-cases (seal g st MessageType.delta payload r).1) [
      | inl (e, bad) ↦ elim (Bool-cases (is_sentinel message_too_large e)) [
        | inl large ↦
            rw (bad, send_mutation)
              (rw large (
                same-clean st r r1 _ drawn (
                  quietly-clean g st target MessageType.sync_required
                    (g.write_reason (text "delta_too_large")) r1)))
        | inr other ↦ rw (bad, send_mutation) (rw other (same-packets st r r1 drawn))
      ]
      | inr (packet, good) ↦
          rw (good, send_mutation)
            (same-clean st r r1 _ drawn
              (counted-clean st r1 _ (transmit-clean g st target packet r1)))
    ]

digests-Kept : (ds : List ShardDigest) (e : Engine) → Kept e (digests_for_round ds e).0
unfolding digests_for_round
digests-Kept ds e = ground arith

members-Kept : (ms : List Member) (e : Engine) → Kept e (members_for_round ms e).0
unfolding members_for_round
members-Kept ms e = ground arith

note_ping-Kept : (id : Text) (wall : Time) (e : Engine) → Kept e (note_ping id wall e)
unfolding note_ping
note_ping-Kept id wall e = ground arith

pub ping-clean :
    (g : Gear) (st : Station) (wall : Time) (target : PeerTarget) (r : Radio)
    → KeepsClean st r (send_ping g st wall target r)
unfolding send_ping
ping-clean g st wall target r =
    let (e, found) = digests_for_round (digests g.hash st.shards) r.engine in
    let payload =
      g.write_ping (record { self = self_member st.table; members = []; digests = found }) in
    let before = record r { engine = e } in
    let r1 = (seal g st MessageType.ping payload before).0 in
    let drawn = seal-packets g st MessageType.ping payload before in
    let noted = record r1 { engine = note_ping (g.draw r.drawn).id wall r1.engine } in
    let sealed : (r1.packets ≡ r.packets) × Kept r.engine r1.engine =
      (drawn.0, Kept-trans (digests-Kept (digests g.hash st.shards) r.engine) drawn.1) in
    let noted_too : (noted.packets ≡ r.packets) × Kept r.engine noted.engine =
      (drawn.0, Kept-trans sealed.1 (note_ping-Kept (g.draw r.drawn).id wall r1.engine)) in
    elim (Result-cases (seal g st MessageType.ping payload before).1) [
      | inl (e', bad) ↦ rw (bad, send_ping) (same-packets st r r1 sealed)
      | inr (packet, good) ↦
          rw (good, send_ping)
            (same-clean st r noted _ noted_too
              (counted-clean st noted _ (transmit-clean g st target packet noted)))
    ]

pub each_member-clean :
    (g : Gear) (st : Station) (target : PeerTarget) (ms : List Member) (r : Radio)
    → KeepsClean st r (send_each_member g st target ms r)
unfolding send_each_member
each_member-clean g st target [] r = same-packets st r r (refl, Kept-self r.engine)
each_member-clean g st target (m ∷ ms) r =
    let payload = g.write_members (m ∷ []) in
    then-clean st r (send_counted g st target MessageType.members payload r) _
      (counted_message-clean g st target MessageType.members payload r)
      (each_member-clean g st target ms (send_counted g st target MessageType.members payload r))

pub members-clean :
    (g : Gear) (st : Station) (target : PeerTarget) (r : Radio)
    → KeepsClean st r (send_members g st target r)
unfolding send_members
members-clean g st target r =
    let (e, ms) = members_for_round (snapshot_members st.table) r.engine in
    same-clean st r (record r { engine = e }) _
      (refl, members-Kept (snapshot_members st.table) r.engine)
      (each_member-clean g st target ms (record r { engine = e }))
