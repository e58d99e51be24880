-- ===== src/Client/Reading.antt =====
-- The readers of a client in nwep/src/client.rs: what it knows of its peer, its counters, its notify
-- pushes, and the opening and the first frame of a stream.
use nwep_rs.Base.{ℤ, ℕ, pos, Bool, Option, none, some, Bytes, eq_ℤ, ◌==◌, if◌then◌else◌}
use nwep_rs.Error.{Result, ok, err, check}
use nwep_rs.Ffi.{Call, lift, pure, ◌>>=◌, checked, cstring_or_invalid}
use nwep_rs.Wire.{Method, method_code}
use nwep_rs.Client.Api.{Response}

-- `Compression`.
pub data Compression : Type 0 where
  no_compression zstd unknown : Compression

-- The match on the codec of a connection, in `Client`, `Request` and `Server`.
unfoldable pub compression_of : ℤ → Compression
compression_of code =
    if eq_ℤ code (pos 0) then no_compression else if eq_ℤ code (pos 1) then zstd else unknown

-- `nwep_client_metrics`.
pub record RawClientMetrics : Type 0 where
  pub requests_inflight : ℕ
  pub requests_completed : ℕ
  pub requests_failed : ℕ
  pub smoothed_rtt_us : ℕ
  pub alive : ℤ

-- `ClientMetrics`.
pub record ClientMetrics : Type 0 where
  pub requests_inflight : ℕ
  pub requests_completed : ℕ
  pub requests_failed : ℕ
  pub smoothed_rtt_us : ℕ
  pub alive : Bool

-- `Stream`: its number on the connection.
pub record Stream : Type 0 where
  pub id : ℕ

-- The calls of libnwep on the handle of one client, a parameter. A message is a pointer, 0 the null one.
pub record ReaderApi (W : Type 0) : Type 0 where
  pub client_compression : W → ℤ
  pub client_peer_pubkey : W → ℤ × Bytes
  pub client_metrics_get : W → RawClientMetrics
  pub client_poll_notify : W → ℕ × W
  pub client_verify_response : ℕ → Bytes → ℕ → W → ℤ
  pub response_verify : ℕ → Bytes → Bytes → ℕ → W → ℤ
  pub client_open_stream : ℤ → Bytes → W → (ℤ × ℕ) × W
  pub client_stream_response : ℕ → W → (ℤ × ℕ) × W
  pub client_stream_close : ℕ → W → W
  pub client_fd : W → ℕ
  pub message_free : ℕ → W → W

module _ {W : Type 0} (api : ReaderApi W) where
  -- `Client::compression`.
  unfoldable pub compression : W → Compression
  unfolding compression_of
  compression w = compression_of (api.client_compression w)

  -- `Client::peer_pubkey`.
  unfoldable pub peer_pubkey : W → Result Bytes
  peer_pubkey w =
      let (rc, out) = api.client_peer_pubkey w in elim (check rc) [ ok _ ↦ ok out | err e ↦ err e ]

  -- `Client::metrics`.
  unfoldable pub metrics : W → ClientMetrics
  metrics w =
      let m = api.client_metrics_get w in
      record {
        requests_inflight = m.requests_inflight;
        requests_completed = m.requests_completed;
        requests_failed = m.requests_failed;
        smoothed_rtt_us = m.smoothed_rtt_us;
        alive = eq_ℤ m.alive (pos 1);
      }

  -- `Client::poll_notify`.
  unfoldable pub poll_notify : W → Option Response × W
  poll_notify w =
      let (msg, w') = api.client_poll_notify w in
      (if msg == 0 then none else some (record { msg = msg }), w')

  -- `Client::verify_response`.
  unfoldable pub verify_response : Response → Bytes → ℕ → W → Result (Unit {0})
  verify_response response path now_secs w = elim (cstring_or_invalid path) [
    | ok cpath ↦ check (api.client_verify_response response.msg cpath now_secs w)
    | err e ↦ err e
  ]

  -- `Response::verify`.
  unfoldable pub verify_with : Response → Bytes → Bytes → ℕ → W → Result (Unit {0})
  verify_with response origin_pubkey path now_secs w = elim (cstring_or_invalid path) [
    | ok cpath ↦ check (api.response_verify response.msg origin_pubkey cpath now_secs w)
    | err e ↦ err e
  ]

  -- `Client::open_stream`.
  unfoldable pub open_stream : Method → Bytes → Call W Stream
  unfolding method_code
  open_stream method path = do
    cpath ← lift (cstring_or_invalid path)
    id ← checked (api.client_open_stream (method_code method) cpath)
    pure (record { id = id })

  -- `Stream::response`.
  unfoldable pub stream_response : Stream → Call W Response
  stream_response stream = do
    msg ← checked (api.client_stream_response stream.id)
    pure (record { msg = msg })

  -- `Drop for Stream`.
  unfoldable pub drop_stream : Stream → W → W
  drop_stream stream w = api.client_stream_close stream.id w

  -- `Client::fd`, also `Connecting::fd`.
  unfoldable pub fd : W → ℕ
  fd w = api.client_fd w

  -- `Drop for Response`.
  unfoldable pub drop_response : Response → W → W
  drop_response response w = api.message_free response.msg w
