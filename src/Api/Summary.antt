-- ===== src/Api/Summary.antt =====
-- What the dashboard's summary says of the instances that it counts:
-- backend/internal/api/handlers_dashboard.go.
use mini_eureka.Prelude.{
  ℕ, ◌+◌, true, List, [], ◌∷◌, keep, length, All, ◌≡◌, ◌≢◌, arith, refl, Ordering, Bool-cases, inl,
  inr,
}
use mini_eureka.Prelude.Order.{is_gt}
use mini_eureka.Prelude.Text.{Text}
use mini_eureka.Prelude.Time.{Time}
use mini_eureka.Prelude.Map.{text_key}
use mini_eureka.Model.Version.{Version, compare_version, compare_version-IsLinear}
use mini_eureka.Model.Revision.{version_string}
use mini_eureka.Model.Instance.{Instance, InstanceStatus, status_eq, status_valid}
use mini_eureka.Model.Member.{Member}
use mini_eureka.Events.{Event}
use mini_eureka.Api.Dashboard.{
  Tally, count_instance, tally_one, tally, empty_tally, dashboard_summary,
}

abbrev pub of_status : InstanceStatus → List Instance → ℕ
of_status s is = length (keep (λ i. status_eq i.status s) is)

tally-counts :
    (is : List Instance) (t : Tally)
    → ((tally is t).active ≡ t.active + of_status InstanceStatus.active is)
      × ((tally is t).delayed ≡ t.delayed + of_status InstanceStatus.delayed is)
      × ((tally is t).evicted ≡ t.evicted + of_status InstanceStatus.evicted is)
unfolding tally tally_one count_instance status_eq
tally-counts [] t = (omega arith, omega arith, omega arith)
tally-counts (i ∷ is) t = ground (arith, tally-counts is (tally_one i t))

known_statuses :
    (is : List Instance)
    → All (λ i. status_valid i.status ≡ true) is
    → of_status InstanceStatus.active is
        + of_status InstanceStatus.delayed is
        + of_status InstanceStatus.evicted is
      ≡ length is
unfolding status_eq status_valid
known_statuses [] h = omega arith
known_statuses (i ∷ is) h = ground (arith, known_statuses is h.1, h.0)

abbrev Below : Version → Version → Type 0
Below v w = compare_version v w ≢ Ordering.gt

Below-trans : (u v w : Version) → Below u v → Below v w → Below u w
Below-trans u v w h k = ground (
  arith,
  compare_version-IsLinear.same u v,
  compare_version-IsLinear.same v w,
  compare_version-IsLinear.trans u v w,
  h,
  k,
)

tally_one-version :
    (i : Instance) (t : Tally)
    → Below t.version (tally_one i t).version × Below i.version (tally_one i t).version
unfolding tally_one
tally_one-version i t = elim (Bool-cases (is_gt (compare_version i.version t.version))) [
  | inl more ↦
      let flipped = compare_version-IsLinear.flip i.version t.version in
      rw more
        (ground (arith, flipped, more), ground (arith, compare_version-IsLinear.self i.version))
  | inr less ↦
      rw less (ground (arith, compare_version-IsLinear.self t.version), ground (arith, less))
]

tally-version :
    (is : List Instance) (t : Tally)
    → Below t.version (tally is t).version × All (λ i. Below i.version (tally is t).version) is
unfolding tally
tally-version [] t = (ground (arith, compare_version-IsLinear.self t.version), tt)
tally-version (i ∷ is) t =
    let one = tally_one-version i t in
    let rest = tally-version is (tally_one i t) in
    let last = (tally is (tally_one i t)).version in
    (
      Below-trans t.version (tally_one i t).version last one.0 rest.0,
      (Below-trans i.version (tally_one i t).version last one.1 rest.0, rest.1),
    )

-- The summary of instances whose statuses are all known counts each of them once: the numbers of the
-- active, the delayed and the evicted ones are those of the instances with the status, and add up to
-- the number of instances. The revision is the text of a version that no instance's is greater than.
pub dashboard_summary_lem :
    (is : List Instance) (nodes : List Member) (events : List Event) (node_id : Text)
    (started ended : Time)
    → All (λ i. status_valid i.status ≡ true) is
    → let x = dashboard_summary is nodes events node_id started ended in
      (x.0.active ≡ of_status InstanceStatus.active is)
      × (x.0.delayed ≡ of_status InstanceStatus.delayed is)
      × (x.0.evicted ≡ of_status InstanceStatus.evicted is)
      × (x.0.active + x.0.delayed + x.0.evicted ≡ x.0.instances)
      × ((v : Version) × (x.1 ≡ version_string v)
          × All (λ i. compare_version i.version v ≢ Ordering.gt) is)
unfolding dashboard_summary
dashboard_summary_lem is nodes events node_id started ended h =
    let counts = tally-counts is (empty_tally node_id) in
    let all = known_statuses is h in
    (
      omega (arith, counts.0),
      omega (arith, counts.1),
      omega (arith, counts.2),
      omega (arith, counts.0, counts.1, counts.2, all),
      ((tally is (empty_tally node_id)).version, refl, (tally-version is (empty_tally node_id)).1),
    )
