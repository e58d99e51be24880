-- ===== src/Examples/Drop/Tests.antt =====
-- A network between the getter and the sender of nwep/examples/nwdrop.rs, for any file; the real file pulled over
-- it; and a loop of `pump`.
use nwep_rs.Base.{
  ℤ, ℕ, suc, pos, neg, ◌+◌, ◌≡◌, refl, true, none, some, List, [], ◌∷◌, Bytes, ascii, length,
  replicate, ltb, if◌then◌else◌, drop, Option,
}
use nwep_rs.Error.{check}
use nwep_rs.Ffi.{HeaderArray}
use nwep_rs.Message.Reading.{ReadApi}
use nwep_rs.Message.Reading
use nwep_rs.Client.{ClientApi}
use nwep_rs.Server.Reading.{ServerReaderApi, RangeAnswer, no_ranges}
use nwep_rs.Examples.Drop.{pump}
use nwep_rs.Examples.Drop.Ranges.{ranged, cut, window, slice}
use nwep_rs.Error.Display.{take_digits}
use mathlib.Core.List.{reverse}
use nwep_rs.Dht.{DhtApi, announce}
use nwep_rs.Runtime.ServerLoop.{ServerApi, run, start}
use nwep_rs.Examples.Drop.Pumping.{quiet_turns, pump-run}

-- The ends of the window that a range text names, and that a sent array asks for.
abbrev window_end : Bytes → ℕ
window_end text = (take_digits (reverse text)).0

abbrev window_start : Bytes → ℕ
window_start text = (take_digits (drop 1 (take_digits (reverse text)).1)).0

abbrev window_ends : Option Bytes → ℕ × ℕ
window_ends none = (0, 0)
window_ends (some text) = (window_start text, window_end text)

abbrev window_of : HeaderArray → ℕ × ℕ
window_of sent = window_ends (ranged sent)

-- A response is numbered by the start of its window.
abbrev network : ClientApi ℕ
network = record {
  send = λ method path headers body w. ((pos 0, (window_of headers).0), suc w);
  request_submit = λ method path headers body w. ((neg 203, 0), w);
  request_poll = λ id w. ((neg 203, 0), w);
  request_cancel = λ id w. w;
  tick = λ now w. (pos 0, w);
  is_alive = λ w. pos 1;
  next_timeout_ms = λ now w. pos 5;
}

abbrev response : Bytes → ℕ → ReadApi
response content have = record {
  get_status = some (
      if ltb have (length content) then ascii "partial-content" else ascii "range-not-satisfiable");
  get_header = λ n. none;
  get_body = some (slice (window have (length content)) content);
  body_len = length (slice (window have (length content)) content);
  utf8 = λ s. true;
}

abbrev asked : Bytes → HeaderArray → ReadApi
asked path sent = record {
  get_status = none;
  get_header = λ n. some path;
  get_body = none;
  body_len = 0;
  utf8 = λ s. true;
}

abbrev parsed : ℕ × ℕ → ℕ → RangeAnswer
parsed (a, b) total =
    if ltb a total
    then (record {
      rc = pos 0;
      out = cut a b total ∷ replicate 15 (record { start = 0; end = 0 });
      count = 1;
    })
    else (record { rc = pos 2; out = no_ranges; count = 0 })

abbrev reader : Bytes → HeaderArray → ServerReaderApi ℕ
reader path sent = record {
  request_is_fresh = λ etag. pos 0;
  request_range = λ total etag out n. parsed (window_of sent) total;
  server_get_peer_nodeid = λ conn w. (pos 0, []);
  server_conn_compression = λ conn w. pos 0;
  server_fd = λ w. 3;
  server_next_timeout_ms = λ now w. pos 5;
  server_tick = λ now w. (pos 0, w);
  server_local_port = λ w. 443;
  server_local_nodeid = λ w. (pos 0, []);
  server_metrics_get = λ w. record {
    connections_active = 0;
    connections_accepted = 0;
    connections_refused = 0;
    connections_closed = 0;
    bytes_received = 0;
    bytes_sent = 0;
    datagrams_received = 0;
    datagrams_sent = 0;
    requests_dispatched = 0;
    requests_shed = 0;
    parked_active = 0;
    load = pos 0;
  };
  server_load = λ w. pos 0;
  server_set_overloaded = λ on w. w;
  server_last_handshake_error = λ w. pos 0;
  server_drain = λ w. (pos 0, w);
  server_is_drained = λ w. pos 0;
  reuse_port_supported = pos 1;
  cid_shard_id = λ cid. pos 0;
}

abbrev ticking : ServerApi ℕ
ticking = record { server_tick = λ now w. (pos 0, suc w); server_next_timeout_ms = λ now w. pos 5 }

abbrev tame : DhtApi ℕ
tame = record {
  dht_attach = λ contacts seq w. (pos 0, w);
  dht_bootstrap = λ secs w. (pos 0, w);
  dht_announce = λ addr secs w. (pos 0, 100 + w);
  dht_start_lookup = λ target secs w. (pos 0, w);
  dht_lookup_result = λ target w. (neg 503, record { address = 0; seq = 0; timestamp = 0 });
  dht_tick = λ secs w. (pos 0, suc w);
  dht_next_timeout_ms = λ secs w. pos 5;
  dht_close = λ w. suc w;
  dht_metrics_get = λ w. record {
    datagrams_sent = 0;
    datagrams_received = 0;
    bytes_sent = 0;
    bytes_received = 0;
  };
}

-- Three rounds, the last one 30 seconds after the first.
abbrev rounds : List (ℤ × ℕ)
rounds = (pos 0, 1000) ∷ (pos 2, 1010) ∷ (pos 4, 1030) ∷ []

pump-run_example : (run ticking tame true (some 9) (start 0) (quiet_turns rounds)).world ≡ 206
unfolding pump check announce
pump-run_example = pump-run ticking tame (some 9) rounds (start 0) 206 refl
