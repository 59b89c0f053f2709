-- ===== src/Registry/Entries.antt =====
-- A property of the records that a registry holds: where the operations take in only records that
-- have it, every record keeps it.
use mini_eureka.Prelude.{
  ◌==◌, Option, none, some, List, [], ◌∷◌, ◌≡◌, All, arith, Bool-cases, Option-cases, inl, inr,
  subst, length, get_or, set, ℕ, zero, suc,
}
use mini_eureka.Prelude.Order.{Ordering-cases}
use mini_eureka.Prelude.Time.{Time, Duration}
use mini_eureka.Prelude.Text.{Text}
use mini_eureka.Prelude.Map.{Map, lookup, insert, delete, Eq, text_key}
use mini_eureka.Model.Version.{Version}
use mini_eureka.Model.Instance.{Instance, Key, instance_key}
use mini_eureka.Model.Mutation.{Mutation, validate_mutation}
use mini_eureka.Registry.Entry.{Entry, Fence, operation_event, remember_operation}
use mini_eureka.Registry.Compare.{Platform, compare_incoming}
use mini_eureka.Registry.Shard.{
  Shard, Instances, instances_of, find, put, remove, store, created, replacement, prepare_incoming,
  fenced_off, apply_shard, apply_new, apply_current, empty_shard, key_key,
}
use mini_eureka.Registry.Lifecycle.{
  apply_fence_shard, fence_valid, entry_holds, fence_holds, drop_entry, mark_delayed, delayed_entry,
  delay_matches, sweep, sweep_services, gc, collectible,
}
use mini_eureka.Registry.Stored.{remember-instance}
use mini_eureka.Registry.Run.{apply}
use mini_eureka.Registry.Store.{
  Store, shard_for, shard_index, apply_store, apply_fence_store, mark_delayed_store, gc_shards,
  gc_store,
}

module _ {ℓ κ ρ} {K : Type ℓ} {V : Type κ} ⦃e : Eq K⦄ (P : V → Type ρ) where
  abbrev pub Holds : Map K V → Type ρ
  Holds m = All (λ p. P p.1) m

  pub insert-Holds : (k : K) (v : V) (m : Map K V) → P v → Holds m → Holds (insert k v m)
  unfolding insert
  insert-Holds k v [] p h = (p, tt)
  insert-Holds k v ((j, w) ∷ m) p h = elim (Bool-cases (e.beq j k)) [
    | inl here ↦ rw here (p, h.1)
    | inr there ↦ rw there (h.0, insert-Holds k v m p h.1)
  ]

  pub delete-Holds : (k : K) (m : Map K V) → Holds m → Holds (delete k m)
  unfolding delete
  delete-Holds k [] h = tt
  delete-Holds k ((j, w) ∷ m) h = elim (Bool-cases (e.beq j k)) [
    | inl here ↦ rw here (delete-Holds k m h.1)
    | inr there ↦ rw there (h.0, delete-Holds k m h.1)
  ]

  pub lookup-Holds : (k : K) (v : V) (m : Map K V) → Holds m → lookup k m ≡ some v → P v
  unfolding lookup
  lookup-Holds k v [] h found = cc
  lookup-Holds k v ((j, w) ∷ m) h found = elim (Bool-cases (e.beq j k)) [
    | inl here ↦ subst P (ground arith) h.0
    | inr there ↦ lookup-Holds k v m h.1 (ground arith)
  ]

module _ (P : Instance → Type 0) where
  abbrev pub OfEntry : Entry → Type 0
  OfEntry e = P e.instance

  -- Every record of a shard, and of a registry.
  abbrev pub InShard : Shard → Type 0
  InShard s = Holds (Holds OfEntry) s.services

  abbrev pub InStore : Store → Type 0
  InStore r = All InShard r.shards

  instances_of-Holds :
      (service : Text) (m : Map Text Instances)
      → Holds (Holds OfEntry) m
      → Holds OfEntry (instances_of service m)
  unfolding instances_of
  instances_of-Holds service m h = elim (Option-cases (lookup service m)) [
    | inl absent ↦ rw (absent, instances_of) tt
    | inr (is, present) ↦
        rw (present, instances_of) (lookup-Holds (Holds OfEntry) service is m h present)
  ]

  pub find-Holds : (s : Shard) (k : Key) (e : Entry) → InShard s → find s k ≡ some e → P e.instance
  unfolding find
  find-Holds s k e h found =
      lookup-Holds OfEntry k.instance_id e (instances_of k.service s.services)
        (instances_of-Holds k.service s.services h) found

  put-Holds :
      (k : Key) (e : Entry) (m : Map Text Instances)
      → P e.instance
      → Holds (Holds OfEntry) m
      → Holds (Holds OfEntry) (put k e m)
  unfolding put
  put-Holds k e m p h =
      insert-Holds (Holds OfEntry) k.service _ m
        (insert-Holds OfEntry k.instance_id e _ p (instances_of-Holds k.service m h)) h

  remember-Holds : (e : Entry) (o v : Text) → P e.instance → P (remember_operation e o v).instance
  remember-Holds e o v p = rw (remember-instance e o v) p

  -- `Apply` stores no record but the prepared one of its mutation.
  pub apply_shard-InShard :
      (pl : Platform) (m : Mutation) (now : Time) (s : Shard)
      → P (prepare_incoming m now)
      → InShard s
      → InShard (apply_shard pl m now s).0
  unfolding apply_shard apply_new apply_current store created replacement
  apply_shard-InShard pl m now s p h = elim (Option-cases (find s (instance_key m.instance))) [
    | inl absent ↦ elim (Bool-cases (fenced_off m (lookup (instance_key m.instance) s.fences))) [
      | inl off ↦ rw (absent, apply_shard, off) h
      | inr on ↦
          rw (absent, apply_shard, on)
            (put-Holds _ _ s.services (remember-Holds _ m.operation_id m.event_id p) h)
    ]
    | inr (e, present) ↦ rw (present, apply_shard) (current e present)
  ]
    where
      current :
          (e : Entry)
          → find s (instance_key m.instance) ≡ some e
          → InShard (apply_current pl m now e s).0
      current e present = elim (Option-cases (operation_event e m.operation_id)) [
        | inr (v, seen) ↦ rw (seen, apply_current) h
        | inl unseen ↦ elim (Ordering-cases (compare_incoming pl m e)) [
          | inl less ↦ rw (unseen, apply_current, less) h
          | inr (inl same) ↦
              rw (unseen, apply_current, same)
                (put-Holds _ _ s.services
                  (remember-Holds e m.operation_id e.event_id
                    (find-Holds s (instance_key m.instance) e h present))
                  h)
          | inr (inr more) ↦
              rw (unseen, apply_current, more)
                (put-Holds _ _ s.services (remember-Holds _ m.operation_id m.event_id p) h)
        ]
      ]

  -- `MarkDelayed` stores no record but the delayed one.
  pub mark_delayed-InShard :
      (k : Key) (l : Text) (v : Version) (t : Time) (s : Shard)
      → ((e : Entry) → P e.instance → P (delayed_entry e t).instance)
      → InShard s
      → InShard (mark_delayed k l v t s).0
  unfolding mark_delayed
  mark_delayed-InShard k l v t s keeps h = elim (Option-cases (find s k)) [
    | inl absent ↦ rw (absent, mark_delayed) h
    | inr (e, present) ↦ elim (Bool-cases (delay_matches e l v)) [
      | inl on ↦
          rw (present, mark_delayed, on)
            (put-Holds k (delayed_entry e t) s.services (keeps e (find-Holds s k e h present)) h)
      | inr off ↦ rw (present, mark_delayed, off) h
    ]
  ]

  sweep-Holds :
      (now : Time) (retention : Duration) (service : Text) (m : Instances)
      → Holds OfEntry m
      → Holds OfEntry (sweep now retention service m).0
  unfolding sweep
  sweep-Holds now retention service [] h = tt
  sweep-Holds now retention service ((i, e) ∷ m) h =
      elim (Bool-cases (collectible now retention e)) [
        | inl gone ↦ rw gone (sweep-Holds now retention service m h.1)
        | inr kept ↦ rw kept (h.0, sweep-Holds now retention service m h.1)
      ]

  sweep_services-Holds :
      (now : Time) (retention : Duration) (m : Map Text Instances)
      → Holds (Holds OfEntry) m
      → Holds (Holds OfEntry) (sweep_services now retention m).0
  unfolding sweep_services
  sweep_services-Holds now retention [] h = tt
  sweep_services-Holds now retention ((service, is) ∷ m) h =
      let rest = sweep_services-Holds now retention m h.1 in
      elim (Bool-cases (length (sweep now retention service is).0 == 0)) [
        | inl empty ↦ rw empty rest
        | inr full ↦ rw full (sweep-Holds now retention service is h.0, rest)
      ]

  gc_shards-InStore :
      (now : Time) (retention : Duration) (ss : List Shard)
      → All InShard ss
      → All InShard (gc_shards now retention ss).0
  unfolding gc_shards gc
  gc_shards-InStore now retention [] h = tt
  gc_shards-InStore now retention (s ∷ ss) h =
      (sweep_services-Holds now retention s.services h.0, gc_shards-InStore now retention ss h.1)

  -- `GC` stores nothing.
  pub gc_store-InStore :
      (now : Time) (retention : Duration) (r : Store)
      → InStore r
      → InStore (gc_store now retention r).0
  unfolding gc_store
  gc_store-InStore now retention r h = gc_shards-InStore now retention r.shards h

  get_or-InShard : (ss : List Shard) (i : ℕ) → All InShard ss → InShard (get_or ss i empty_shard)
  get_or-InShard [] i h = tt
  get_or-InShard (s ∷ ss) zero h = h.0
  get_or-InShard (s ∷ ss) (suc i) h = get_or-InShard ss i h.1

  set-InShard :
      (ss : List Shard) (i : ℕ) (s : Shard) → InShard s → All InShard ss → All InShard (set ss i s)
  set-InShard [] i s p h = tt
  set-InShard (t ∷ ss) zero s p h = (p, h.1)
  set-InShard (t ∷ ss) (suc i) s p h = (h.0, set-InShard ss i s p h.1)

  pub shard_for-InShard : (r : Store) (service : Text) → InStore r → InShard (shard_for r service)
  unfolding shard_for
  shard_for-InShard r service h = get_or-InShard r.shards (shard_index r service) h

  pub apply_store-InStore :
      (pl : Platform) (m : Mutation) (now : Time) (r : Store)
      → P (prepare_incoming m now)
      → InStore r
      → InStore (apply_store pl m now r).0
  unfolding apply_store apply
  apply_store-InStore pl m now r p h =
      let s : Shard = shard_for r m.instance.service in
      let held = shard_for-InShard r m.instance.service h in
      let i = shard_index r m.instance.service in
      elim (Option-cases (validate_mutation m)) [
        | inl valid ↦
            rw (apply, valid)
              (set-InShard r.shards i (apply_shard pl m now s).0
                (apply_shard-InShard pl m now s p held) h)
        | inr (e, bad) ↦ rw (apply, bad) (set-InShard r.shards i s held h)
      ]

  pub mark_delayed_store-InStore :
      (k : Key) (l : Text) (v : Version) (t : Time) (r : Store)
      → ((e : Entry) → P e.instance → P (delayed_entry e t).instance)
      → InStore r
      → InStore (mark_delayed_store k l v t r).0
  unfolding mark_delayed_store
  mark_delayed_store-InStore k l v t r keeps h =
      set-InShard r.shards (shard_index r k.service) _
        (mark_delayed-InShard k l v t (shard_for r k.service) keeps
          (shard_for-InShard r k.service h))
        h

  drop-InShard : (o : Option Entry) (k : Key) (s : Shard) → InShard s → InShard (drop_entry o k s)
  unfolding drop_entry remove
  drop-InShard none k s h = h
  drop-InShard (some e) k s h =
      let rest = delete-Holds OfEntry k.instance_id _ (instances_of-Holds k.service s.services h) in
      elim (Bool-cases (length (delete k.instance_id (instances_of k.service s.services)) == 0)) [
        | inl empty ↦ rw empty (delete-Holds (Holds OfEntry) k.service s.services h)
        | inr full ↦ rw full (insert-Holds (Holds OfEntry) k.service _ s.services rest h)
      ]

  -- `ApplyFence` stores no record.
  pub apply_fence_store-InStore :
      (f : Fence) (r : Store) → InStore r → InStore (apply_fence_store f r).0
  unfolding apply_fence_store apply_fence_shard
  apply_fence_store-InStore f r h =
      let s : Shard = shard_for r f.key.service in
      let held = shard_for-InShard r f.key.service h in
      let dropped = drop-InShard (find s f.key) f.key s held in
      set-InShard r.shards (shard_index r f.key.service) _
        (elim (Bool-cases (fence_valid f)) [
          | inr bad ↦ rw (bad, apply_fence_shard) held
          | inl good ↦ elim (Bool-cases (entry_holds f (find s f.key))) [
            | inl kept ↦ rw (good, kept, apply_fence_shard) held
            | inr free ↦
                elim (Bool-cases
                  (fence_holds f (lookup f.key (drop_entry (find s f.key) f.key s).fences))) [
                    | inl older ↦ rw (good, free, older, apply_fence_shard) dropped
                    | inr set ↦ rw (good, free, set, apply_fence_shard) dropped
                  ]
          ]
        ])
        h

-- A weaker property of every record.
module _ (P Q : Instance → Type 0) (weaken : (i : Instance) → P i → Q i) where
  weaken-instances : (m : Instances) → Holds (OfEntry P) m → Holds (OfEntry Q) m
  weaken-instances [] h = tt
  weaken-instances ((i, e) ∷ m) h = (weaken e.instance h.0, weaken-instances m h.1)

  weaken-services :
      (m : Map Text Instances) → Holds (Holds (OfEntry P)) m → Holds (Holds (OfEntry Q)) m
  weaken-services [] h = tt
  weaken-services ((service, is) ∷ m) h = (weaken-instances is h.0, weaken-services m h.1)

  weaken-shards : (ss : List Shard) → All (InShard P) ss → All (InShard Q) ss
  weaken-shards [] h = tt
  weaken-shards (s ∷ ss) h = (weaken-services s.services h.0, weaken-shards ss h.1)

  pub weaken-InStore : (r : Store) → InStore P r → InStore Q r
  weaken-InStore r h = weaken-shards r.shards h
