-- ===== src/Tests/Demos.antt =====
-- The theorem on the demo (backend/internal/demo/manager.go) at a node that holds its one instance.
use mini_eureka.Prelude.{true, none, [], ◌∷◌, ◌≡◌, refl}
use mini_eureka.Prelude.Int.{pos}
use mini_eureka.Prelude.Text.{bytes, text_eq, compare_text}
use mini_eureka.Prelude.Order.{compare_list}
use mini_eureka.Prelude.Decimal.{format_uint}
use mini_eureka.Prelude.Map.{lookup}
use mini_eureka.Model.Error.{text}
use mini_eureka.Model.Instance.{clone}
use mini_eureka.Registry.Entry.{Entry}
use mini_eureka.Registry.Query.{get}
use mini_eureka.Registry.Shard.{Shard, find}
use mini_eureka.Registry.Store.{shard_for, shard_index}
use mini_eureka.Service.{Service}
use mini_eureka.Demo.{
  Calls, Manager, demo_request, demo_instance, demo_service, demo_services, pad_four, seed,
}
use mini_eureka.Demo.Seed.{HoldsDemo, seed_again}
use mini_eureka.Tests.Data.{held_entry}
use mini_eureka.Tests.Services.{ids, node, payloads, readings}

abbrev calls : Calls
calls = record {
  payloads = payloads;
  intn = λ n m. 0;
  readings = λ n. readings;
  ids = λ n. ids;
  operation_id = λ n. bytes "o";
}

abbrev seeded_entry : Entry
seeded_entry = record held_entry {
  instance = record held_entry.instance {
    service = bytes "orders";
    instance_id = bytes "orders-0001";
    registration_id = bytes "demo-registration-orders-0001";
  };
}

abbrev seeded_shard : Shard
seeded_shard = record {
  services = (bytes "orders", (bytes "orders-0001", seeded_entry) ∷ []) ∷ [];
  fences = [];
  revision = 1;
}

abbrev seeded_node : Service
seeded_node = record node { registry = record { shards = seeded_shard ∷ []; mask = 0 } }

abbrev manager : Manager
manager = record {
  service = seeded_node;
  opts = record { enabled = true; seeds = true; instance_count = pos 1; heartbeat_every = pos 1 };
  leases = [];
}

node-HoldsDemo : HoldsDemo calls.intn seeded_node 0 1
unfolding get find lookup shard_for shard_index text_eq compare_text compare_list text demo_instance
    demo_service demo_services pad_four demo_request format_uint clone
node-HoldsDemo = ((clone seeded_entry.instance, refl, refl), tt)

seed_again_example :
    ((seed calls manager).0.service ≡ seeded_node) × ((seed calls manager).1 ≡ none)
seed_again_example = seed_again calls manager node-HoldsDemo
