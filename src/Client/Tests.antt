-- ===== src/Client/Tests.antt =====
-- Instances for the requests and the callback of nwep/src/client.rs.
use nwep_rs.Base.{ℕ, pos, Duration, ◌≡◌, false, some, List, [], ◌∷◌, ◌++◌, length}
use nwep_rs.Lifecycle.{Handle, replay, fresh}
use nwep_rs.Secrets.{Clean}
use nwep_rs.Identity.{NodeId}
use nwep_rs.Client.Opening.{
  OpenApi, ClientBuilder, connect, start_connect, connect_fd, start_connect_fd, connect_by_node_id,
  connects-Clean,
}
use nwep_rs.Client.Connecting.{connecting_ticks, connecting_drop}
use nwep_rs.Client.Callbacks.{CallbackOp, sets, ticks, perform_all, made, client_drop, client_life}

abbrev two_callbacks : List CallbackOp
two_callbacks = sets ∷ ticks ∷ sets ∷ ticks ∷ []

client_life_example :
    let (c, events) = perform_all made two_callbacks in
    ((h : Handle) × (replay fresh (connecting_ticks 2 ++ connecting_drop) ≡ some h)
      × (h.is_open ≡ false))
    × ((h : Handle) × (replay fresh (connecting_ticks 2 ++ (events ++ client_drop c)) ≡ some h)
        × (h.is_open ≡ false)
        × (length h.freed ≡ c.boxes))
client_life_example = client_life 2 two_callbacks

-- A library that opens every connection at the handle 7.
abbrev opens : OpenApi ℕ
opens = record {
  client_connect = λ kp target addr w. ((pos 0, 7), w);
  client_connect_async = λ kp target addr w. ((pos 0, 7), w);
  client_connect_fd = λ kp target addr fd w. ((pos 0, 7), w);
  client_connect_fd_async = λ kp target addr fd w. ((pos 0, 7), w);
  client_connect_by_nodeid = λ kp target dht ms w. ((pos 0, 7), w);
}

abbrev peer : NodeId
peer = record { bytes = 1 ∷ [] }

abbrev dialer : ClientBuilder
dialer = record {
  identity = some (record { node_id = peer; pubkey = 1 ∷ []; privkey = 8 ∷ 9 ∷ [] });
}

abbrev ten_seconds : Duration
ten_seconds = record { secs = 10; nanos = 0 }

connects-Clean_example :
    Clean (connect opens dialer peer (record { opaque = [] }))
    × Clean (start_connect opens dialer peer (record { opaque = [] }))
    × Clean (connect_fd opens dialer peer (record { opaque = [] }) 3)
    × Clean (start_connect_fd opens dialer peer (record { opaque = [] }) 3)
    × Clean (connect_by_node_id opens dialer peer 4 ten_seconds)
connects-Clean_example = connects-Clean opens dialer peer (record { opaque = [] }) 3 4 ten_seconds
