-- ===== src/Api/Dashboard.antt =====
-- The dashboard's handlers: backend/internal/api/handlers_dashboard.go. Texts that a client sees as
-- names of enumerations are kept as values.
use mini_eureka.Prelude.{
  ℕ, ◌+◌, ◌*◌, if◌then◌else◌, Bool, false, ◌&&◌, ◌||◌, List, [], ◌∷◌, ◌++◌, keep, length,
}
use mini_eureka.Prelude.Int.{pos, ◌-ℤ◌}
use mini_eureka.Prelude.Order.{is_gt}
use mini_eureka.Prelude.Text.{Text, text_eq}
use mini_eureka.Prelude.Time.{Time, add_time, after, is_zero_time, zero_time, second}
use mini_eureka.Prelude.Map.{Map, insert, text_key}
use mini_eureka.Model.Error.{text}
use mini_eureka.Model.Version.{Version, compare_version}
use mini_eureka.Model.Revision.{version_string}
use mini_eureka.Model.Instance.{Instance, InstanceStatus}
use mini_eureka.Model.Member.{Member}
use mini_eureka.Cluster.{Table, snapshot_members}
use mini_eureka.Cluster.Edges.{Edge, edges}
use mini_eureka.Events.{Event, EventType, Ring, recent, pred_uint64}
use mini_eureka.Service.{Service}
use mini_eureka.Service.Leases.{dashboard_instances}
use mini_eureka.Api.Pagination.{Base64}
use mini_eureka.Api.Replies.{Reply, passed, ◌>>=◌, reply_of}
use mini_eureka.Api.Services.{Strings, Query, Listing, listing, read_range}

-- A status as `string(instance.Status)`.
unfoldable pub status_text : InstanceStatus → Text
status_text InstanceStatus.active = text "ACTIVE"
status_text InstanceStatus.delayed = text "DELAYED"
status_text InstanceStatus.evicted = text "EVICTED"
status_text (InstanceStatus.unknown t) = t

-- What the dashboard may be asked for; the empty text is no filter.
pub record Filters : Type 0 where
  pub service : Text
  pub node : Text
  pub status : Text
  pub text_query : Text

abbrev pub matches : Text → Text → Bool
matches wanted value = text_eq wanted [] || text_eq value wanted

-- The tests of the loop of `filterDashboardInstances`.
unfoldable pub is_shown : Strings → Filters → Instance → Bool
unfolding status_text
is_shown st f i =
    matches f.service i.service
    && matches f.node i.origin_node_id
    && matches (st.to_upper f.status) (status_text i.status)
    && (text_eq (st.to_lower f.text_query) []
        || st.contains (st.to_lower (i.service ++ (text " " ++ i.instance_id)))
            (st.to_lower f.text_query))

-- `filterDashboardInstances`
unfoldable pub filter_instances : Strings → Filters → List Instance → List Instance
unfolding is_shown
filter_instances st f is = keep (is_shown st f) is

-- What the first loop of `dashboardSummary` counts and compares.
pub record Tally : Type 0 where
  pub services : Map Text (Unit {0})
  pub active : ℕ
  pub delayed : ℕ
  pub evicted : ℕ
  pub updated : Time
  pub version : Version

unfoldable pub count_instance : InstanceStatus → Tally → Tally
count_instance InstanceStatus.active t = record t { active = t.active + 1 }
count_instance InstanceStatus.delayed t = record t { delayed = t.delayed + 1 }
count_instance InstanceStatus.evicted t = record t { evicted = t.evicted + 1 }
count_instance (InstanceStatus.unknown s) t = t

unfoldable pub tally_one : Instance → Tally → Tally
unfolding count_instance
tally_one i t =
    let counted = count_instance i.status t in
    record counted {
      services = insert i.service tt t.services;
      updated = if after i.updated_at t.updated then i.updated_at else t.updated;
      version = if is_gt (compare_version i.version t.version) then i.version else t.version;
    }

unfoldable pub tally : List Instance → Tally → Tally
unfolding tally_one
tally [] t = t
tally (i ∷ is) t = tally is (tally_one i t)

abbrev pub empty_tally : Text → Tally
empty_tally node_id = record {
  services = [];
  active = 0;
  delayed = 0;
  evicted = 0;
  updated = zero_time;
  version = record { physical_millis = pos 0; logical = 0; origin_node_id = node_id };
}

unfoldable pub is_hop : Time → Event → Bool
is_hop cutoff e = elim e.type [ EventType.gossip_hop ↦ after e.occurred_at cutoff | _ ↦ false ]

-- `dashboardSummary`: the gossip rate is kept as the number of hops in the last minute.
pub record Summary : Type 0 where
  pub services : ℕ
  pub instances : ℕ
  pub active : ℕ
  pub delayed : ℕ
  pub evicted : ℕ
  pub nodes : ℕ
  pub gossip_hops : ℕ
  pub updated_at : Time

unfoldable pub dashboard_summary :
    List Instance → List Member → List Event → Text → Time → Time → Summary × Text
unfolding tally is_hop
dashboard_summary instances nodes recent_events node_id started ended =
    let t = tally instances (empty_tally node_id) in
    let cutoff = add_time started (pos 0 -ℤ pos (60 * second)) in
    (
      record {
        services = length t.services;
        instances = length instances;
        active = t.active;
        delayed = t.delayed;
        evicted = t.evicted;
        nodes = length nodes;
        gossip_hops = length (keep (is_hop cutoff) recent_events);
        updated_at = if is_zero_time t.updated then ended else t.updated;
      },
      version_string t.version,
    )

-- What `dashboardSnapshot` answers.
pub record Snapshot : Type 0 where
  pub summary : Summary
  pub instances : Listing Instance
  pub nodes : List Member
  pub edges : List Edge
  pub recent_events : List Event
  pub demo_enabled : Bool
  pub snapshot_revision : Text
  pub event_cursor : ℕ

-- `Cursor`
unfoldable pub event_cursor : Ring → ℕ
event_cursor r = pred_uint64 r.next_seq

-- `dashboardSnapshot`, with the readings of the wall clock in their order.
unfoldable pub dashboard_snapshot :
    Strings
    → Base64
    → Query
    → Filters
    → Bool
    → Table
    → Service
    → Time
    → Time
    → Time
    → Reply Snapshot
unfolding filter_instances dashboard_summary event_cursor read_range
dashboard_snapshot st b q f demo table s read started ended = reply_of (do
  range ← read_range b q 10000 10000
  let instances = filter_instances st f (dashboard_instances s read)
  let nodes = snapshot_members table
  let recent_events = recent s.events (pos 200)
  let summed = dashboard_summary instances nodes recent_events s.opts.node_id started ended
  passed (record {
    summary = summed.0;
    instances = listing b instances range;
    nodes = nodes;
    edges = edges table;
    recent_events = recent_events;
    demo_enabled = demo;
    snapshot_revision = summed.1;
    event_cursor = event_cursor s.events;
  }))

-- `topology`
unfoldable pub topology : Table → Ring → List Member × List Edge × ℕ
topology t r = (snapshot_members t, edges t, event_cursor r)

-- `clusterNodes`
unfoldable pub cluster_nodes : Table → Ring → List Member × ℕ
cluster_nodes t r = (snapshot_members t, event_cursor r)
