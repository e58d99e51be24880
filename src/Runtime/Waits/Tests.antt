-- ===== src/Runtime/Waits/Tests.antt =====
-- Instances for the waits of nwep/src/runtime.rs: timers of nine seconds, and a `poll` that adds up its times.
use nwep_rs.Base.{ℤ, ℕ, pos, negsuc, ◌+◌, true, [], ◌∷◌}
use nwep_rs.Client.Samples.{sample_client}
use nwep_rs.Dht.{DhtApi}
use nwep_rs.Poll.Waiting.{PollApi, readable}
use nwep_rs.Runtime.ClientLoop
use nwep_rs.Runtime.ServerLoop
use nwep_rs.Runtime.ServerLoop.{ServerApi}
use nwep_rs.Runtime.Waits.{Polls, server_wait, lookup_wait, client_wait, waits_capped}

abbrev time_of : ℤ → ℕ
time_of (pos n) = n
time_of (negsuc n) = 0

abbrev adding : PollApi ℕ
adding = record { pollin = 1; poll = λ fds time s. s + time_of time }

abbrev slow_server : ServerApi ℕ
slow_server = record {
  server_tick = λ now w. (pos 0, w);
  server_next_timeout_ms = λ now w. pos 9000;
}

abbrev slow_dht : DhtApi ℕ
slow_dht = record {
  dht_attach = λ cs seq w. (pos 0, w);
  dht_bootstrap = λ secs w. (pos 0, w);
  dht_announce = λ a secs w. (pos 0, w);
  dht_start_lookup = λ target secs w. (pos 0, w);
  dht_lookup_result = λ target w. (pos 1, record { address = 0; seq = 0; timestamp = 0 });
  dht_tick = λ secs w. (pos 0, w);
  dht_next_timeout_ms = λ secs w. pos 9000;
  dht_close = λ w. w;
  dht_metrics_get = λ w. record {
    datagrams_sent = w;
    datagrams_received = 0;
    bytes_sent = 0;
    bytes_received = 0;
  };
}

abbrev server_owner : ServerLoop.Owner ℕ
server_owner = record { world = 0; announced_at = 0; announced = []; answered = [] }

abbrev client_owner : ClientLoop.Owner ℕ
client_owner = record { world = 0; pending = []; answered = [] }

waits_capped_example :
    Polls adding
      (readable adding (pos 7) ∷ [])
      200
      5
      (server_wait adding slow_server slow_dht true server_owner (pos 7) (pos 60) 60 5)
    × Polls adding (readable adding (pos 7) ∷ []) 20 5 (lookup_wait adding slow_dht (pos 7) 60 0 5)
    × Polls adding
        (readable adding (pos 8) ∷ readable adding (pos 9) ∷ [])
        200
        5
        (client_wait adding sample_client client_owner (pos 8) (pos 9) (pos 60) 5)
waits_capped_example =
    waits_capped adding slow_server slow_dht true server_owner sample_client client_owner (pos 7)
      (pos 8) (pos 9) (pos 60) 60 5
