-- ===== src/Client/Api.antt =====
-- What the client needs of libnwep, a parameter: each call over the state `W` of the library.
use nwep_rs.Base.{ℤ, ℕ, Bytes}
use nwep_rs.Ffi.{HeaderArray, BodyArg}

-- A message that the library has handed over, by its address.
pub record Response : Type 0 where
  pub msg : ℕ

-- `nwep_client_*` on the handle of one client. A pair is the return code with the out-parameter.
pub record ClientApi (W : Type 0) : Type 0 where
  pub send : ℤ → Bytes → HeaderArray → BodyArg → W → (ℤ × ℕ) × W
  pub request_submit : ℤ → Bytes → HeaderArray → BodyArg → W → (ℤ × ℕ) × W
  pub request_poll : ℕ → W → (ℤ × ℕ) × W
  pub request_cancel : ℕ → W → W
  pub tick : ℤ → W → ℤ × W
  pub is_alive : W → ℤ
  pub next_timeout_ms : ℤ → W → ℤ
