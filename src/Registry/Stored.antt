-- ===== src/Registry/Stored.antt =====
-- The entries that `Apply` stores have the rank of their mutation.
use mini_eureka.Prelude.{true, none, ap, ◌∙◌, List, ◌≡◌, arith, refl, []}
use mini_eureka.Prelude.Time.{Time}
use mini_eureka.Prelude.Text.{Text, text_eq_iff}
use mini_eureka.Prelude.Map.{Map}
use mini_eureka.Model.Instance.{
  Instance, InstanceStatus, StatusReason, status_eq, reason_eq, terminal, clone,
}
use mini_eureka.Model.Mutation.{
  Mutation, MutationKind, kind_terminal, validate_mutation, validate_mutation_state, wanted,
  priority,
}
use mini_eureka.Registry.Entry.{Entry, remember_operation}
use mini_eureka.Registry.Shard.{fence_of, created, replacement, prepare_incoming}
use mini_eureka.Registry.Rank.{mutation_rank, entry_rank, fence_rank}
use mini_eureka.Registry.Cell.{is_evicted}

valid_state : (m : Mutation) → validate_mutation m ≡ none → validate_mutation_state m ≡ none
unfolding validate_mutation
valid_state m h = ground arith

status_is : (s t : InstanceStatus) → status_eq s t ≡ true → s ≡ t
unfolding status_eq
status_is (InstanceStatus.unknown s) (InstanceStatus.unknown t) h =
    ap InstanceStatus.unknown ((text_eq_iff s t).0 h)
status_is s t h = ground arith

reason_is : (r t : StatusReason) → reason_eq r t ≡ true → r ≡ t
unfolding reason_eq
reason_is (StatusReason.unknown s) (StatusReason.unknown t) h =
    ap StatusReason.unknown ((text_eq_iff s t).0 h)
reason_is r t h = ground arith

terminal-wanted :
    (k : MutationKind) (i : Instance)
    → i.status ≡ (wanted k).0
    → i.status_reason ≡ (wanted k).1
    → terminal i ≡ kind_terminal k
unfolding wanted terminal kind_terminal
terminal-wanted k i p q = ground arith

-- A valid mutation's record is explicitly terminal exactly when its kind is.
pub valid-terminal :
    (m : Mutation) → validate_mutation m ≡ none → terminal m.instance ≡ kind_terminal m.kind
unfolding validate_mutation_state
valid-terminal m h = ground (
  arith,
  valid_state m h,
  terminal-wanted m.kind m.instance,
  status_is m.instance.status (wanted m.kind).0,
  reason_is m.instance.status_reason (wanted m.kind).1,
)

-- The parts of an entry that its rank reads are those of the mutation it was made from.
pub rank-remember :
    (e : Entry) (o v : Text)
    → (entry_rank (remember_operation e o v) ≡ entry_rank e)
      × ((remember_operation e o v).instance ≡ e.instance)
unfolding remember_operation entry_rank
rank-remember e o v = ground arith

pub remember-instance : (e : Entry) (o v : Text) → (remember_operation e o v).instance ≡ e.instance
remember-instance e o v = (rank-remember e o v).1

abbrev prepared : Mutation → Time → Map Text Text → List Text → Entry
prepared m now operations order = record {
  instance = prepare_incoming m now;
  kind = m.kind;
  event_id = m.event_id;
  operations = operations;
  operation_order = order;
}

rank-prepared :
    (m : Mutation) (now : Time) (operations : Map Text Text) (order : List Text)
    → validate_mutation m ≡ none
    → entry_rank (prepared m now operations order) ≡ mutation_rank m
unfolding prepare_incoming clone entry_rank mutation_rank terminal
rank-prepared m now operations order h =
    ap (λ t. (m.instance.lease_epoch, (t, (m.instance.version, (priority m.kind, m.event_id)))))
      (valid-terminal m h)

-- A stored entry has the rank of its mutation.
rank-stored :
    (m : Mutation) (now : Time) (operations : Map Text Text) (order : List Text)
    → validate_mutation m ≡ none
    → (entry_rank (remember_operation (prepared m now operations order) m.operation_id m.event_id)
        ≡ mutation_rank m)
      × (is_evicted
            (remember_operation
              (prepared m now operations order)
              m.operation_id
              m.event_id).instance
          ≡ is_evicted m.instance)
rank-stored m now operations order h =
    let e = prepared m now operations order in
    let (r, i) = rank-remember e m.operation_id m.event_id in
    (
      r ∙ rank-prepared m now operations order h,
      ap is_evicted i ∙ unfold prepare_incoming clone in refl,
    )

pub rank-replacement :
    (m : Mutation) (e : Entry) (now : Time)
    → validate_mutation m ≡ none
    → (entry_rank (replacement m e now) ≡ mutation_rank m)
      × (is_evicted (replacement m e now).instance ≡ is_evicted m.instance)
unfolding replacement
rank-replacement m e now h = rank-stored m now _ _ h

pub rank-created :
    (m : Mutation) (now : Time)
    → validate_mutation m ≡ none
    → (entry_rank (created m now) ≡ mutation_rank m)
      × (is_evicted (created m now).instance ≡ is_evicted m.instance)
unfolding created
rank-created m now h = rank-stored m now [] [] h

pub rank-fence_of : (m : Mutation) → fence_rank (fence_of m) ≡ mutation_rank m
unfolding fence_rank mutation_rank
rank-fence_of m = refl
