-- ===== src/Runtime/Serving/Tests.antt =====
-- Instances for the start of the server's owner thread of nwep/src/runtime.rs.
use nwep_rs.Base.{ℕ, suc, pos, neg, some, none, true, false, [], ◌∷◌, ◌-◌, refl}
use nwep_rs.Dht.{DhtApi}
use nwep_rs.Server.Build.{ServerBuilder, ListenApi}
use nwep_rs.Server.Build.Lives.{NotListened}
use nwep_rs.Runtime.Serving.{NodeApi, serve_thread}
use nwep_rs.Error.{check}
use nwep_rs.Runtime.Serving.Closing.{Closes, CountsDhts, serve_thread-Closes}
use nwep_rs.Runtime.Serving.Starts.{Starts, serve_thread-Starts}

-- A library that listens, and whose DHT does not join.
abbrev open_listen : ListenApi ℕ
open_listen = record {
  listen = λ reuse i a w. (pos 0, suc w);
  listen_fd = λ i fd shard w. (pos 0, suc w);
  set_max_parked = λ n w. suc w;
  set_handler = λ w. (pos 0, suc w);
}

abbrev lonely_dht : DhtApi ℕ
lonely_dht = record {
  dht_attach = λ cs seq w. (pos 0, suc w);
  dht_bootstrap = λ secs w. (neg 201, suc w);
  dht_announce = λ a secs w. (pos 0, suc w);
  dht_start_lookup = λ target secs w. (pos 0, suc w);
  dht_lookup_result = λ target w. (neg 803, record { address = 0; seq = 0; timestamp = 0 });
  dht_tick = λ secs w. (pos 0, suc w);
  dht_next_timeout_ms = λ secs w. neg 1;
  dht_close = λ w. suc w;
  dht_metrics_get = λ w. record {
    datagrams_sent = 0;
    datagrams_received = 0;
    bytes_sent = 0;
    bytes_received = 0;
  };
}

abbrev local_node : NodeApi ℕ
local_node = record { local_nodeid = λ w. ((pos 0, 12), w); local_port = λ w. 4433 }

abbrev dht_builder : ServerBuilder
dht_builder = record {
  identity = some 1;
  bind = some 2;
  handler = some 3;
  reuse_port = false;
  max_parked = none;
  dht_bootstraps = 21 ∷ [];
  dht_announce = some 22;
  dht_initial_seq = 1;
}

serve_thread-Starts_example :
    Starts
      (NotListened open_listen dht_builder 0)
      (some 3)
      5
      true
      (serve_thread open_listen lonely_dht local_node true 100 dht_builder 0)
serve_thread-Starts_example =
    serve_thread-Starts open_listen lonely_dht local_node 5 true 100 dht_builder 0

-- A library whose state is the number of its open DHTs, none of which joins.
abbrev counting_listen : ListenApi ℕ
counting_listen = record {
  listen = λ reuse i a w. (pos 0, w);
  listen_fd = λ i fd shard w. (pos 0, w);
  set_max_parked = λ n w. w;
  set_handler = λ w. (pos 0, w);
}

abbrev counting_dht : DhtApi ℕ
counting_dht = record {
  dht_attach = λ cs seq w. (pos 0, suc w);
  dht_bootstrap = λ secs w. (neg 201, w);
  dht_announce = λ a secs w. (pos 0, w);
  dht_start_lookup = λ target secs w. (pos 0, w);
  dht_lookup_result = λ target w. (neg 803, record { address = 0; seq = 0; timestamp = 0 });
  dht_tick = λ secs w. (pos 0, w);
  dht_next_timeout_ms = λ secs w. neg 1;
  dht_close = λ w. w - 1;
  dht_metrics_get = λ w. lonely_dht.dht_metrics_get w;
}

counting-CountsDhts : CountsDhts counting_listen counting_dht local_node (λ w. w)
unfolding check
counting-CountsDhts = record {
  listens = λ reuse i a w. refl;
  parks = λ n w. refl;
  sets_handler = λ w. refl;
  names_node = λ w. refl;
  attaches = λ contacts seq w h. refl;
  fails = λ contacts seq w e h. cc;
  bootstraps = λ secs w. refl;
  closes = λ w. refl;
}

serve_thread-Closes_example :
    Closes counting_listen counting_dht local_node
      (λ w. w)
      true
      4
      (serve_thread counting_listen counting_dht local_node true 100 dht_builder 4)
serve_thread-Closes_example =
    serve_thread-Closes counting_listen counting_dht local_node (λ w. w) counting-CountsDhts true
      100 dht_builder 4
