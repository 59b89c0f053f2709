-- ===== src/Gossip/Life.antt =====
-- A node's life as gossip sees it: the loop `Run` of backend/internal/gossip/engine.go with the
-- synchronisations that run beside it and the requests that the service serves, in any order. A step
-- is run to its end before the next; `SyncPeer` is a step for each page and one for its end.
use mini_eureka.Prelude.{some, List, [], ◌∷◌, map}
use mini_eureka.Prelude.Int.{pos}
use mini_eureka.Prelude.Text.{Text}
use mini_eureka.Prelude.Time.{Time}
use mini_eureka.Prelude.Map.{text_key}
use mini_eureka.Model.Member.{Member}
use mini_eureka.Cluster.{alive_peers, tick}
use mini_eureka.Service.{Payloads, Service, Readings}
use mini_eureka.Service.Leases.{FreshIds}
use mini_eureka.Service.Requests.{Request, serve}
use mini_eureka.Gossip.Engine.{trigger_sync, finish_sync}
use mini_eureka.Gossip.Pages.{SyncItem, SyncOutcome, SyncResponse, take_page}
use mini_eureka.Gossip.Select.{pick}
use mini_eureka.Gossip.Delta.{enqueue_all, idle, sink_of}
use mini_eureka.Gossip.Radio.{Gear, gossip_round}
use mini_eureka.Gossip.Dispatch.{Surroundings, Peer, handle_datagram, station_of, asked_too}

abbrev pub node_id_of : Member → Text
node_id_of m = m.node_id

-- `antiEntropyRound`: one of the living peers is asked.
unfoldable pub anti_entropy_round : Gear → Peer → Peer
anti_entropy_round g p =
    let peers = alive_peers p.table in
    let selected = pick g.intn (map node_id_of peers) (pos 1) in
    elim selected [
      | [] ↦ p
      | id ∷ others ↦
          let (e, asked) = trigger_sync p.table id p.radio.engine in
          record p { radio = record p.radio { engine = e }; asked = asked_too asked p.asked }
    ]

-- `case now := <-gossipTicker.C`
unfoldable pub gossip_tick : Gear → Time → Time → Peer → Peer
gossip_tick g now wall p =
    let p' = record p { table = (tick p.table now wall).0 } in
    record p' { radio = gossip_round g (station_of p') wall p'.radio }

-- What the service has done, with the mutations that it gave its sink enqueued.
unfoldable pub with_service : Service → Peer → Peer
with_service s p = record p {
  service = record s { outbox = some [] };
  radio = record p.radio { engine = enqueue_all (sink_of s.outbox) p.radio.engine };
}

pub data Step : Type 0 where
  arrives : Surroundings → Text → Text → Step
  gossips : Gear → Time → Time → Step
  reconciles : Gear → Step
  serves : Payloads → Readings → FreshIds → Request → Step
  takes : Payloads → (SyncItem → Readings) → FreshIds → SyncResponse → Step
  ends : Text → SyncOutcome → Step

unfoldable pub step : Step → Peer → Peer
unfolding gossip_tick anti_entropy_round with_service
step (arrives w remote packet) p = handle_datagram w remote packet p
step (gossips g now wall) p = gossip_tick g now wall p
step (reconciles g) p = anti_entropy_round g p
step (serves pl rd ids q) p = with_service (serve pl rd ids q (idle p.service)) p
step (takes pl rd ids page) p = with_service (take_page pl rd ids page (idle p.service)) p
step (ends id outcome) p = record p {
  radio = record p.radio { engine = finish_sync id outcome p.radio.engine };
}

-- The steps in order.
unfoldable pub live_through : List Step → Peer → Peer
unfolding step
live_through [] p = p
live_through (x ∷ xs) p = live_through xs (step x p)
