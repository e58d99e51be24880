-- ===== src/Server/Deferred.antt =====
-- `DeferredResponder` of nwep/src/server.rs, and the calls of `Server` that push to a connection.
pub mod Sending
use nwep_rs.Base.{ℤ, ℕ, pos, negsuc, List, [], ◌∷◌, ◌++◌, Bytes}
use nwep_rs.Error.{Result, ok, err, check, from_code}
use nwep_rs.Wire.{Status, status_code}
use nwep_rs.Ffi.{Call, pure, lift, ◌>>=◌, BodyArg, slice_parts, Pairs, cstring_or_invalid}

-- libnwep's calls on the parked stream of one request, and on one connection, a parameter.
pub record RespondApi (W : Type 0) : Type 0 where
  pub respond_header : Bytes → Bytes → W → ℤ × W
  pub respond : ℤ → BodyArg → W → ℤ × W
  pub relay : ℕ → W → ℤ × W
  pub respond_blit : BodyArg → W → ℤ × W
  pub notify : Bytes → BodyArg → W → ℤ × W
  pub stream_send : BodyArg → W → ℤ × W
  pub stream_end : W → ℤ × W

-- `Error::check` over a call that fills nothing.
abbrev pub call_checked : {W : Type 0} → (W → ℤ × W) → Call W (Unit {0})
call_checked f w = let (rc, w') = f w in (check rc, w')

-- The field `headers` of a `DeferredResponder`: `header` and `respond`.
unfoldable pub respond : Pairs
respond = []

unfoldable pub header : Pairs → Bytes → Bytes → Pairs
header hs name value = hs ++ (name, value) ∷ []

-- The bytes that a `stream_send` has taken.
unfoldable pub accepted : ℤ → Result ℕ
accepted (pos n) = ok n
accepted (negsuc n) = err (from_code (negsuc n))

module _ {W : Type 0} (api : RespondApi W) where
  -- The loop of `send` over the headers.
  unfoldable pub send_headers : Pairs → Call W (Unit {0})
  send_headers [] = pure tt
  send_headers ((name, value) ∷ hs) = do
    n ← lift (cstring_or_invalid name)
    v ← lift (cstring_or_invalid value)
    _ ← call_checked (api.respond_header n v)
    send_headers hs

  -- `DeferredResponder::send`.
  unfoldable pub send : Pairs → Status → Bytes → Call W (Unit {0})
  send headers st body = do
    _ ← send_headers headers
    call_checked (api.respond (status_code st) (slice_parts body))

  -- `DeferredResponder::relay` and `DeferredResponder::blit`.
  unfoldable pub relay : ℕ → Call W (Unit {0})
  relay origin = call_checked (api.relay origin)

  unfoldable pub blit : Bytes → Call W (Unit {0})
  blit frame = call_checked (api.respond_blit (slice_parts frame))

  -- `Server::notify`.
  unfoldable pub notify : Bytes → Bytes → Call W (Unit {0})
  notify event body = do
    e ← lift (cstring_or_invalid event)
    call_checked (api.notify e (slice_parts body))

  -- `Server::stream_send` and `Server::stream_end`.
  unfoldable pub stream_send : Bytes → Call W ℕ
  unfolding accepted
  stream_send body w = let (rc, w') = api.stream_send (slice_parts body) w in (accepted rc, w')

  unfoldable pub stream_end : Call W (Unit {0})
  stream_end = call_checked api.stream_end
