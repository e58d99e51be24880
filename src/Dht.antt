-- ===== src/Dht.antt =====
-- nwep/src/dht.rs: the builder of a DHT handle, and its calls.
pub mod Bootstrap
use nwep_rs.Base.{ℤ, ℕ, pos, Option, none, some, List, [], ◌∷◌, ◌++◌, eq_ℤ, if◌then◌else◌}
use nwep_rs.Error.{err, check, config_missing}
use nwep_rs.Ffi.{Call}
use nwep_rs.Client.{timeout_of}

-- A `Record` that the network gave, by its address and the numbers that order it.
pub record Record : Type 0 where
  pub address : ℕ
  pub seq : ℕ
  pub timestamp : ℕ

-- The counters of a DHT.
pub record DhtMetrics : Type 0 where
  pub datagrams_sent : ℕ
  pub datagrams_received : ℕ
  pub bytes_sent : ℕ
  pub bytes_received : ℕ

-- libnwep's calls on one DHT, a parameter. A node id, an address and a contact are named by numbers.
pub record DhtApi (W : Type 0) : Type 0 where
  pub dht_attach : List ℕ → ℕ → W → ℤ × W
  pub dht_bootstrap : ℕ → W → ℤ × W
  pub dht_announce : ℕ → ℕ → W → ℤ × W
  pub dht_start_lookup : ℕ → ℕ → W → ℤ × W
  pub dht_lookup_result : ℕ → W → ℤ × Record
  pub dht_tick : ℕ → W → ℤ × W
  pub dht_next_timeout_ms : ℕ → W → ℤ
  pub dht_metrics_get : W → DhtMetrics
  pub dht_close : W → W

-- The fields of `DhtBuilder`.
pub record DhtBuilder : Type 0 where
  pub bootstraps : List ℕ
  pub initial_seq : ℕ

unfoldable pub builder : DhtBuilder
builder = record { bootstraps = []; initial_seq = 0 }

unfoldable pub with_bootstrap : DhtBuilder → ℕ → DhtBuilder
with_bootstrap b c = record b { bootstraps = b.bootstraps ++ c ∷ [] }

unfoldable pub with_bootstraps : DhtBuilder → List ℕ → DhtBuilder
with_bootstraps b cs = record b { bootstraps = b.bootstraps ++ cs }

unfoldable pub with_initial_seq : DhtBuilder → ℕ → DhtBuilder
with_initial_seq b seq = record b { initial_seq = seq }

module _ {W : Type 0} (api : DhtApi W) where
  unfoldable pub attach : DhtBuilder → Call W (Unit {0})
  attach b w = elim b.bootstraps [
    | [] ↦ (err config_missing, w)
    | c ∷ cs ↦ let (rc, w') = api.dht_attach (c ∷ cs) b.initial_seq w in (check rc, w')
  ]

  unfoldable pub join : ℕ → Call W (Unit {0})
  join secs w = let (rc, w') = api.dht_bootstrap secs w in (check rc, w')

  unfoldable pub announce : ℕ → ℕ → Call W (Unit {0})
  announce address secs w = let (rc, w') = api.dht_announce address secs w in (check rc, w')

  unfoldable pub start_lookup : ℕ → ℕ → Call W (Unit {0})
  start_lookup target secs w = let (rc, w') = api.dht_start_lookup target secs w in (check rc, w')

  unfoldable pub lookup_result : ℕ → W → Option Record
  lookup_result target w =
      let (rc, out) = api.dht_lookup_result target w in if eq_ℤ rc (pos 0) then some out else none

  unfoldable pub tick : ℕ → Call W (Unit {0})
  tick secs w = let (rc, w') = api.dht_tick secs w in (check rc, w')

  unfoldable pub next_timeout : ℕ → W → Option ℕ
  next_timeout secs w = timeout_of (api.dht_next_timeout_ms secs w)

  unfoldable pub metrics : W → DhtMetrics
  metrics w = api.dht_metrics_get w

  -- `Drop for Dht`.
  unfoldable pub drop : W → W
  drop w = api.dht_close w
