-- ===== src/Runtime/Serving.antt =====
-- The start of the server's owner thread in `ServerBuilder::serve` of nwep/src/runtime.rs: what it
-- sends on the ready channel, and what becomes of the server that it has built.
pub mod Starts
pub mod Closing
mod Tests
use nwep_rs.Base.{ℤ, ℕ, Bool, true, false, Option, none, some, List, [], ◌∷◌, ◌++◌}
use nwep_rs.Error.{Error, Result, ok, err, check, internal}
use nwep_rs.Ffi.{Call, pure, ◌>>=◌, checked}
use nwep_rs.Lifecycle.{Event}
use nwep_rs.Dht
use nwep_rs.Dht.{DhtApi, attach, join, with_bootstraps, with_initial_seq}
use nwep_rs.Server.Build.{ServerBuilder, Server, ListenApi, Built, build, take_managed_dht, drop}

-- What `serve` reports of the server.
pub record Info : Type 0 where
  pub node_id : ℕ
  pub port : ℕ

-- `nwep_server_local_nodeid` and `nwep_server_local_port`, a parameter.
pub record NodeApi (W : Type 0) : Type 0 where
  pub local_nodeid : W → (ℤ × ℕ) × W
  pub local_port : W → ℕ

-- The thread before its loop: what it has sent, and the server, if it goes on to the loop with it.
pub record Started (W : Type 0) : Type 0 where
  pub ready : Option (Result Info)
  pub server : Option Server
  pub world : W
  pub events : List Event

-- The wait for the ready channel, where `none` is a dropped sender.
unfoldable pub await_ready : {A : Type 0} → Option (Result A) → Result A
await_ready none = err internal
await_ready (some r) = r

-- An error is sent, and the thread returns.
abbrev pub refuse : {W : Type 0} → Error → W → List Event → Started W
refuse e w es = record { ready = some (err e); server = none; world = w; events = es }

-- The send of the information, where the first argument is whether the caller still waits, and `closed` is the
-- library once the DHT is dropped, if there is one. The DHT is dropped before the server.
unfoldable pub ready_sent :
    {W : Type 0} → Bool → Result Info → Server → W → W → List Event → Started W
ready_sent alive (err e) s w closed es = refuse e closed (es ++ drop s)
ready_sent true (ok info) s w closed es = record {
  ready = some (ok info);
  server = some s;
  world = w;
  events = es;
}
ready_sent false (ok info) s w closed es = record {
  ready = none;
  server = none;
  world = closed;
  events = es ++ drop s;
}

module _ {W : Type 0} (listen : ListenApi W) (dht : DhtApi W) (node : NodeApi W) where
  -- The end of `attach_managed_dht`: where the join fails, the `?` drops the DHT.
  unfoldable pub joined : Result (Unit {0}) × W → Result (Unit {0}) × W
  joined (ok u, w) = (ok u, w)
  joined (err e, w) = (err e, Dht.drop dht w)

  -- `attach_managed_dht`.
  unfoldable pub attach_managed_dht : List ℕ → ℕ → ℕ → Call W (Unit {0})
  unfolding joined
  attach_managed_dht contacts seq secs = do
    _ ← attach dht (with_initial_seq (with_bootstraps Dht.builder contacts) seq)
    λ w. joined (join dht secs w)

  -- The drop of the `Option<Dht>` of the thread, at its teardown.
  unfoldable pub dht_dropped : Bool → W → W
  dht_dropped false w = w
  dht_dropped true w = Dht.drop dht w

  -- `server.node_id().map(|n| (n, server.local_port()))`.
  unfoldable pub node_info : Call W Info
  node_info = do
    id ← checked node.local_nodeid
    λ w. (ok (record { node_id = id; port = node.local_port w }), w)

  unfoldable pub report : Bool → Bool → Server → W → List Event → Started W
  unfolding dht_dropped
  report alive has_dht s w es =
      let (r, w') = node_info w in ready_sent alive r s w' (dht_dropped has_dht w') es

  unfoldable pub attached : Bool → Server → Result (Unit {0}) × W → List Event → Started W
  attached alive s (ok _, w) es = report alive true s w es
  attached alive s (err e, w) es = refuse e w (es ++ drop s)

  unfoldable pub with_server : Option (List ℕ × Option ℕ × ℕ) → Bool → ℕ → Built W → Started W
  with_server cfg alive secs (err e, w, es) = refuse e w es
  with_server none alive secs (ok s, w, es) = report alive false s w es
  with_server (some (contacts, ann, seq)) alive secs (ok s, w, es) =
      attached alive s (attach_managed_dht contacts seq secs w) es

  -- The closure that `serve` spawns, up to `run_server_loop`.
  unfoldable pub serve_thread : Bool → ℕ → ServerBuilder → W → Started W
  serve_thread alive secs b w =
      let (cfg, b') = take_managed_dht b in with_server cfg alive secs (build listen b' w)

  -- Its end after the loop: the DHT is dropped, and then the server.
  unfoldable pub after_loop : Bool → Server → W → W × List Event
  unfolding dht_dropped
  after_loop has_dht s w = (dht_dropped has_dht w, drop s)
