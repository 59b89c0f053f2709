-- ===== src/Model/Member.antt =====
-- backend/internal/model/member.go: cluster members.
use mini_eureka.Prelude.{ℕ, Bool, true, false}
use mini_eureka.Prelude.Text.{Text, text_eq}
use mini_eureka.Prelude.Time.{Time}
use mini_eureka.Model.Version.{Version}

pub data MemberStatus : Type 0 where
  alive suspect dead : MemberStatus
  unknown : Text → MemberStatus

unfoldable pub member_status_valid : MemberStatus → Bool
member_status_valid (MemberStatus.unknown s) = false
member_status_valid _ = true

-- `MemberStatus.Priority`
unfoldable pub member_priority : MemberStatus → ℕ
member_priority MemberStatus.dead = 3
member_priority MemberStatus.suspect = 2
member_priority MemberStatus.alive = 1
member_priority (MemberStatus.unknown s) = 0

unfoldable pub member_status_eq : MemberStatus → MemberStatus → Bool
member_status_eq MemberStatus.alive MemberStatus.alive = true
member_status_eq MemberStatus.suspect MemberStatus.suspect = true
member_status_eq MemberStatus.dead MemberStatus.dead = true
member_status_eq (MemberStatus.unknown s) (MemberStatus.unknown t) = text_eq s t
member_status_eq _ _ = false

pub record Member : Type 0 where
  pub node_id : Text
  pub boot_id : Text
  pub http_address : Text
  pub gossip_address : Text
  pub status : MemberStatus
  pub incarnation : ℕ
  pub last_seen_at : Time
  pub version : Version
