-- ===== src/Registry/Compare.antt =====
-- The conflict rules of backend/internal/registry/apply.go: which of two states of a key wins.
use mini_eureka.Prelude.{Ordering, if◌then◌else◌, Bool, true, false, not, ◌&&◌}
use mini_eureka.Prelude.Int.{ltb_ℤ, eqb_ℤ}
use mini_eureka.Prelude.Order.{is_gt, is_eq}
use mini_eureka.Prelude.Text.{Text, text_eq, compare_text}
use mini_eureka.Model.Version.{compare_version}
use mini_eureka.Model.Instance.{Instance, terminal}
use mini_eureka.Model.Mutation.{Mutation, MutationKind, kind_terminal, kind_eq, priority}
use mini_eureka.Registry.Entry.{Entry, Fence}

-- What the comparison of whole records takes from Go's library: the bytes of `json.Marshal`, and
-- `reflect.DeepEqual`, which also sees parts of a time.Time that the model does not have.
pub record Platform : Type 0 where
  pub encode : Instance → Text
  pub deep_equal : Instance → Instance → Bool

-- `if a.Priority() != b.Priority() { if a.Priority() > b.Priority() { return 1 }; return -1 }`,
-- and otherwise what follows.
unfoldable pub by_priority : MutationKind → MutationKind → Ordering → Ordering
by_priority a b rest =
    if not (eqb_ℤ (priority a) (priority b))
    then (if ltb_ℤ (priority b) (priority a) then Ordering.gt else Ordering.lt)
    else rest

-- `if comparison := c; comparison != 0 { return comparison }`, and otherwise what follows.
unfoldable pub unless_zero : Ordering → Ordering → Ordering
unless_zero Ordering.lt rest = Ordering.lt
unless_zero Ordering.gt rest = Ordering.gt
unless_zero Ordering.eq rest = rest

-- `compareIncoming`
unfoldable pub compare_incoming : Platform → Mutation → Entry → Ordering
unfolding unless_zero by_priority
compare_incoming pl m e =
    unless_zero (compare_version m.instance.lease_epoch e.instance.lease_epoch) (
      if terminal e.instance && not (kind_terminal m.kind)
      then Ordering.lt
      else if kind_terminal m.kind && not (terminal e.instance)
      then Ordering.gt
      else if not (text_eq m.instance.lease_id e.instance.lease_id)
      then Ordering.lt
      else unless_zero (compare_version m.instance.version e.instance.version) (
          if kind_eq m.kind e.kind
            && text_eq m.event_id e.event_id
            && pl.deep_equal m.instance e.instance
          then Ordering.eq
          else by_priority m.kind e.kind (
              unless_zero (compare_text m.event_id e.event_id)
                (compare_text (pl.encode m.instance) (pl.encode e.instance)))))

-- `incomingBeatsFence`
unfoldable pub incoming_beats_fence : Mutation → Fence → Bool
incoming_beats_fence m f =
    let epoch = compare_version m.instance.lease_epoch f.lease_epoch in
    let version = compare_version m.instance.version f.version in
    if not (is_eq epoch)
    then is_gt epoch
    else if kind_terminal f.kind && not (kind_terminal m.kind)
    then false
    else if kind_terminal m.kind && not (kind_terminal f.kind)
    then true
    else if not (is_eq version)
    then is_gt version
    else if not (eqb_ℤ (priority m.kind) (priority f.kind))
    then ltb_ℤ (priority f.kind) (priority m.kind)
    else is_gt (compare_text m.event_id f.event_id)

-- `compareFenceToEntry`
unfoldable pub compare_fence_to_entry : Fence → Entry → Ordering
unfolding unless_zero by_priority
compare_fence_to_entry f e = unless_zero (compare_version f.lease_epoch e.instance.lease_epoch) (
    if terminal e.instance && not (kind_terminal f.kind)
    then Ordering.lt
    else if kind_terminal f.kind && not (terminal e.instance)
    then Ordering.gt
    else unless_zero (compare_version f.version e.instance.version)
        (by_priority f.kind e.kind (compare_text f.event_id e.event_id)))

-- `compareFences`
unfoldable pub compare_fences : Fence → Fence → Ordering
unfolding unless_zero by_priority
compare_fences a b = unless_zero (compare_version a.lease_epoch b.lease_epoch) (
    if kind_terminal b.kind && not (kind_terminal a.kind)
    then Ordering.lt
    else if kind_terminal a.kind && not (kind_terminal b.kind)
    then Ordering.gt
    else unless_zero (compare_version a.version b.version)
        (by_priority a.kind b.kind (compare_text a.event_id b.event_id)))
