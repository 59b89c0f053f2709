-- ===== src/Registry/Find.antt =====
-- What is read at a key after the operations on the maps of a shard.
use mini_eureka.Prelude.{
  ◌==◌, if◌then◌else◌, Option, none, some, [], ◌∷◌, ◌≡◌, arith, refl, true, length,
}
use mini_eureka.Prelude.Text.{Text, text_eq_iff}
use mini_eureka.Prelude.Map.{Map, lookup, insert, delete, lookup-insert, lookup-delete, text_key}
use mini_eureka.Model.Instance.{Key}
use mini_eureka.Registry.Entry.{Entry}
use mini_eureka.Registry.Shard.{Shard, Instances, find, put, remove, instances_of, key_eq}

-- The entry at a key of the nested map.
abbrev pub at_key : Map Text Instances → Key → Option Entry
at_key services k = lookup k.instance_id (instances_of k.service services)

pub find-at_key : (s : Shard) (k : Key) → find s k ≡ at_key s.services k
unfolding find
find-at_key s k = refl

pub at_key-put :
    (k j : Key) (e : Entry) (m : Map Text Instances)
    → at_key (put k e m) j ≡ (if key_eq k j then some e else at_key m j)
unfolding put instances_of key_eq
at_key-put k j e m = ground (
  arith,
  lookup-insert k.service j.service (insert k.instance_id e (instances_of k.service m)) m,
  lookup-insert k.instance_id j.instance_id e (instances_of k.service m),
  text_eq_iff k.service j.service,
)

empty_of_length : (m : Instances) → (length m == 0) ≡ true → m ≡ []
empty_of_length [] h = refl
empty_of_length (x ∷ m) h = absurd (ground arith)

lookup-nil : (i : Text) → lookup {V = Entry} i [] ≡ none
unfolding lookup
lookup-nil i = refl

pub at_key-remove :
    (k j : Key) (m : Map Text Instances)
    → at_key (remove k m) j ≡ (if key_eq k j then none else at_key m j)
unfolding remove instances_of key_eq
at_key-remove k j m =
    let rest : Instances = delete k.instance_id (instances_of k.service m) in
    ground (
      arith,
      lookup-insert k.service j.service rest m,
      lookup-delete k.service j.service m,
      lookup-delete k.instance_id j.instance_id (instances_of k.service m),
      empty_of_length rest,
      lookup-nil j.instance_id,
      text_eq_iff k.service j.service,
    )
