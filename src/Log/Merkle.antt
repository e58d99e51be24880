-- ===== src/Log/Merkle.antt =====
-- `Log` of nwep/src/log.rs: the merkle log in memory.
use nwep_rs.Base.{ℤ, ℕ, pos, negsuc, Bool, Bytes, ltb, ◌-◌, ◌%◌, ◌^◌, ◌==◌, if◌then◌else◌}
use nwep_rs.Error.{Result, ok, err, from_code, internal_alloc, check, ◌>>=◌}
use nwep_rs.Ffi.{Call}

-- The log of libnwep, a parameter. A handle is a pointer, 0 the null one.
pub record LogApi (W : Type 0) : Type 0 where
  pub log_create : W → ℕ × W
  pub log_append : ℕ → Bytes → W → ℤ × W
  pub log_size : ℕ → W → ℕ
  pub log_root : ℕ → W → ℤ × Bytes
  pub log_free : ℕ → W → W

-- `Log`.
pub record Log : Type 0 where
  pub raw : ℕ

-- The cast `rc as c_int`, from 64 bits to 32.
unfoldable pub as_c_int : ℤ → ℤ
as_c_int (pos n) =
    if ltb (n % 2 ^ 32) (2 ^ 31) then pos (n % 2 ^ 32) else negsuc (2 ^ 32 - 1 - n % 2 ^ 32)
as_c_int (negsuc n) =
    if ltb (n % 2 ^ 32) (2 ^ 31) then negsuc (n % 2 ^ 32) else pos (2 ^ 32 - 1 - n % 2 ^ 32)

-- The end of `append`.
unfoldable pub appended : ℤ → Result ℕ
unfolding as_c_int
appended (negsuc n) = err (from_code (as_c_int (negsuc n)))
appended (pos index) = ok index

module _ {W : Type 0} (api : LogApi W) where
  -- `Log::new`.
  unfoldable pub new : Call W Log
  new w =
      let (raw, w') = api.log_create w in
      (if raw == 0 then err internal_alloc else ok (record { raw = raw }), w')

  -- `Log::append`.
  unfoldable pub append : Log → Bytes → Call W ℕ
  unfolding appended
  append log entry w = let (rc, w') = api.log_append log.raw entry w in (appended rc, w')

  -- `Log::len`.
  unfoldable pub len : Log → W → ℕ
  len log w = api.log_size log.raw w

  -- `Log::is_empty`.
  unfoldable pub is_empty : Log → W → Bool
  unfolding len
  is_empty log w = len log w == 0

  -- `Log::root`.
  unfoldable pub root : Log → W → Result Bytes
  root log w = let (rc, bytes) = api.log_root log.raw w in check rc >>= λ _. ok bytes

  -- `Drop for Log`.
  unfoldable pub drop : Log → W → W
  drop log w = api.log_free log.raw w
