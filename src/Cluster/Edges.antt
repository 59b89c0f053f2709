-- ===== src/Cluster/Edges.antt =====
-- The edges from a node to its peers: `Table.Edges` of backend/internal/cluster/table.go.
use mini_eureka.Prelude.{if◌then◌else◌, Option, List, [], ◌∷◌}
use mini_eureka.Prelude.Int.{ℤ}
use mini_eureka.Prelude.Text.{Text, text_eq, compare_text}
use mini_eureka.Prelude.Time.{Time, milliseconds}
use mini_eureka.Prelude.Sort.{sort_on}
use mini_eureka.Prelude.Map.{Map}
use mini_eureka.Model.Member.{MemberStatus}
use mini_eureka.Cluster.{Table, PeerState}

-- `TopologyEdge`
pub record Edge : Type 0 where
  pub source : Text
  pub target : Text
  pub state : MemberStatus
  pub last_success : Option Time
  pub latency_ms : ℤ

unfoldable pub edges_from : Text → Map Text PeerState → List Edge
edges_from self [] = []
edges_from self ((id, p) ∷ m) =
    if text_eq id self
    then edges_from self m
    else record {
      source = self;
      target = id;
      state = p.member.status;
      last_success = p.last_ok;
      latency_ms = milliseconds p.latency;
    }
      ∷ edges_from self m

abbrev edge_target : Edge → Text
edge_target e = e.target

-- `Edges`
unfoldable pub edges : Table → List Edge
unfolding edges_from
edges t = sort_on compare_text edge_target (edges_from t.self_id t.members)
