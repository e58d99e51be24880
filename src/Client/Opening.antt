-- ===== src/Client/Opening.antt =====
-- `ClientBuilder` of nwep/src/client.rs: the ways to open a connection, each of which lends the keypair of
-- the identity to libnwep.
use nwep_rs.Base.{ℤ, ℕ, ◌-◌, ◌^◌, min, Option, none, some, Bytes, Duration, as_millis}
use nwep_rs.Error.{err, config_missing}
use nwep_rs.Ffi.{Call, pure, ◌>>=◌, checked}
use nwep_rs.Secrets.{World, on_lib, Clean}
use nwep_rs.Secrets.Wiping.{on_lib-Clean, checked-Clean, bind-Clean, pure-Clean, LeftZeroed-refl}
use nwep_rs.Identity.{Identity, Keypair, NodeId, with_keypair}
use nwep_rs.Identity.Keys.{with_keypair-Clean}
use nwep_rs.Address.{Address}

-- `ClientBuilder`.
pub record ClientBuilder : Type 0 where
  pub identity : Option Identity

-- `Client`: the handle, and the fields for a cache and a callback.
pub record Client : Type 0 where
  pub raw : ℕ
  pub cache : Option ℕ
  pub done : Option ℕ

-- `Connecting`.
pub record Connecting : Type 0 where
  pub raw : ℕ

abbrev connecting : ℕ → Connecting
connecting raw = record { raw = raw }

-- The calls of libnwep that open a client, a parameter: each returns its code and the handle. A socket or
-- a DHT is a number.
pub record OpenApi (W : Type 0) : Type 0 where
  pub client_connect : Keypair → Bytes → Bytes → W → (ℤ × ℕ) × W
  pub client_connect_async : Keypair → Bytes → Bytes → W → (ℤ × ℕ) × W
  pub client_connect_fd : Keypair → Bytes → Bytes → ℕ → W → (ℤ × ℕ) × W
  pub client_connect_fd_async : Keypair → Bytes → Bytes → ℕ → W → (ℤ × ℕ) × W
  pub client_connect_by_nodeid : Keypair → Bytes → ℕ → ℕ → W → (ℤ × ℕ) × W

-- `Client::builder`, and `ClientBuilder::identity`.
unfoldable pub builder : ClientBuilder
builder = record { identity = none }

unfoldable pub with_identity : ClientBuilder → Identity → ClientBuilder
with_identity b identity = record { identity = some identity }

-- `Client::wrap`.
unfoldable pub wrap : ℕ → Client
wrap raw = record { raw = raw; cache = none; done = none }

-- `Connecting::into_client`: the value is forgotten, so its drop does not run.
unfoldable pub into_client : Connecting → Client
unfolding wrap
into_client c = wrap c.raw

-- `as_millis().min(u32::MAX as u128) as u32`.
unfoldable pub timeout_ms : Duration → ℕ
timeout_ms d = min (as_millis d) (2 ^ 32 - 1)

module _ {W : Type 0} (call : Keypair → W → (ℤ × ℕ) × W) where
  -- The keypair lent to a call, where the identity is set.
  unfoldable pub lent : Option Identity → Call (World W) ℕ
  lent none w = (err config_missing, w)
  lent (some identity) w = with_keypair identity (λ kp. checked (on_lib (call kp))) w

  lent-Clean : (identity : Option Identity) → Clean (lent identity)
  unfolding lent
  lent-Clean none w = LeftZeroed-refl w.buffers
  lent-Clean (some identity) w =
      with_keypair-Clean identity (λ kp. checked (on_lib (call kp)))
        (λ kp. checked-Clean (on_lib (call kp)) (on_lib-Clean (call kp))) w

  opened-Clean :
      {A : Type 0} (identity : Option Identity) (wrap : ℕ → A)
      → Clean (lent identity >>= (λ raw. pure (wrap raw)))
  opened-Clean identity wrap =
      bind-Clean (lent identity) (λ raw. pure (wrap raw)) (lent-Clean identity)
        (λ raw. pure-Clean (wrap raw))

module _ {W : Type 0} (api : OpenApi W) (b : ClientBuilder) (target : NodeId) where
  -- `connect`.
  unfoldable pub connect : Address → Call (World W) Client
  unfolding lent wrap
  connect addr = do
    raw ← lent (λ kp. api.client_connect kp target.bytes addr.opaque) b.identity
    pure (wrap raw)

  -- `start_connect`.
  unfoldable pub start_connect : Address → Call (World W) Connecting
  unfolding lent
  start_connect addr = do
    raw ← lent (λ kp. api.client_connect_async kp target.bytes addr.opaque) b.identity
    pure (connecting raw)

  -- `connect_fd`.
  unfoldable pub connect_fd : Address → ℕ → Call (World W) Client
  unfolding lent wrap
  connect_fd addr fd = do
    raw ← lent (λ kp. api.client_connect_fd kp target.bytes addr.opaque fd) b.identity
    pure (wrap raw)

  -- `start_connect_fd`.
  unfoldable pub start_connect_fd : Address → ℕ → Call (World W) Connecting
  unfolding lent
  start_connect_fd addr fd = do
    raw ← lent (λ kp. api.client_connect_fd_async kp target.bytes addr.opaque fd) b.identity
    pure (connecting raw)

  -- `connect_by_node_id`.
  unfoldable pub connect_by_node_id : ℕ → Duration → Call (World W) Client
  unfolding lent wrap timeout_ms
  connect_by_node_id dht timeout = do
    raw ←
        lent (λ kp. api.client_connect_by_nodeid kp target.bytes dht (timeout_ms timeout))
          b.identity
    pure (wrap raw)

  -- Every way to open a connection leaves no copy of the identity's private key, whatever the library
  -- answers and also where the identity is not set.
  pub connects-Clean :
      (addr : Address) (fd dht : ℕ) (timeout : Duration)
      → Clean (connect addr)
        × Clean (start_connect addr)
        × Clean (connect_fd addr fd)
        × Clean (start_connect_fd addr fd)
        × Clean (connect_by_node_id dht timeout)
  unfolding connect start_connect connect_fd start_connect_fd connect_by_node_id
  connects-Clean addr fd dht timeout = (
    opened-Clean (λ kp. api.client_connect kp target.bytes addr.opaque) b.identity wrap,
    opened-Clean (λ kp. api.client_connect_async kp target.bytes addr.opaque) b.identity connecting,
    opened-Clean (λ kp. api.client_connect_fd kp target.bytes addr.opaque fd) b.identity wrap,
    opened-Clean (λ kp. api.client_connect_fd_async kp target.bytes addr.opaque fd) b.identity
        connecting,
    opened-Clean (λ kp. api.client_connect_by_nodeid kp target.bytes dht (timeout_ms timeout))
        b.identity wrap,
  )
