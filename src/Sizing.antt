-- ===== src/Sizing.antt =====
-- The two-call sizing of nwep/src: a call with a null buffer gives the size, and a second one fills
-- a buffer of that size (`produce` of nwep/src/log.rs; the same in shamir.rs, trust/store.rs and
-- trust/anchor.rs).
pub mod Contract
pub mod Samples
use nwep_rs.Base.{ℤ, ℕ, Option, none, some, Bytes, take, replicate}
use nwep_rs.Ffi.{Call, pure, ◌>>=◌, checked}

-- What a producer leaves in the buffer and in the length.
pub record Filled : Type 0 where
  pub buf : Bytes
  pub len : ℕ

-- A producer of libnwep: the buffer, or null, and the length that it is given.
abbrev pub Producer : Type 0 → Type 0
Producer W = Option Bytes → ℕ → W → (ℤ × Filled) × W

-- `produce`.
unfoldable pub produce : {W : Type 0} → Producer W → Call W Bytes
produce call = do
  size ← checked (call none 0)
  filled ← checked (call (some (replicate size.len 0)) size.len)
  pure (take filled.len filled.buf)
