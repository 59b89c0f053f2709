-- ===== src/Tests/Stores.antt =====
-- The theorems on the sharded registry (backend/internal/registry) at a registry of two shards.
use mini_eureka.Prelude.{◌≡◌, if◌then◌else◌, [], ◌∷◌, refl}
use mini_eureka.Prelude.Int.{pos}
use mini_eureka.Model.Instance.{instance_key}
use mini_eureka.Registry.Shard.{empty_shard, key_eq}
use mini_eureka.Registry.Cell.{apply_cell}
use mini_eureka.Registry.Store.{Store, IsStore, apply_store, store_cell, apply_store-cell}
use mini_eureka.Tests.Data.{platform, key_i, registration, registration-valid}

abbrev two : Store
two = record { shards = empty_shard ∷ empty_shard ∷ []; mask = 1 }

two-IsStore : IsStore two
two-IsStore = record { masked = refl }

apply_store-cell_example :
    (store_cell (apply_store platform registration (pos 7) two).0 key_i ≡ (
      if key_eq (instance_key registration.instance) key_i
      then apply_cell platform registration
          (pos 7)
          (store_cell two (instance_key registration.instance))
      else store_cell two key_i))
    × IsStore (apply_store platform registration (pos 7) two).0
apply_store-cell_example =
    apply_store-cell platform registration (pos 7) two key_i two-IsStore registration-valid
