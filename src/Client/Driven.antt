-- ===== src/Client/Driven.antt =====
-- The driven calls of `Client` in nwep/src/client.rs: `tick`, `is_alive` and `next_timeout`.
use nwep_rs.Base.{ℤ, ℕ, pos, negsuc, Bool, Option, none, some, eq_ℤ}
use nwep_rs.Error.{check}
use nwep_rs.Ffi.{Call}
use nwep_rs.Client.Api.{ClientApi}

-- The reading of a `*_next_timeout_ms`: a negative number is no timer.
unfoldable pub timeout_of : ℤ → Option ℕ
timeout_of (pos ms) = some ms
timeout_of (negsuc _) = none

module _ {W : Type 0} (api : ClientApi W) where
  -- `Client::tick`.
  unfoldable pub tick : ℤ → Call W (Unit {0})
  tick now_ms w = let (rc, w') = api.tick now_ms w in (check rc, w')

  -- `Client::is_alive`.
  unfoldable pub is_alive : W → Bool
  is_alive w = eq_ℤ (api.is_alive w) (pos 1)

  -- `Client::next_timeout`.
  unfoldable pub next_timeout : ℤ → W → Option ℕ
  unfolding timeout_of
  next_timeout now_ms w = timeout_of (api.next_timeout_ms now_ms w)
