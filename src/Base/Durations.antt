-- ===== src/Base/Durations.antt =====
-- `Duration` of Rust's standard library, and what nwep/src reads of it.
use Prim.Native.Nat.{ℕ, ◌+◌, ◌*◌, ◌/◌}

pub record Duration : Type 0 where
  pub secs : ℕ
  pub nanos : ℕ

-- `as_millis`.
abbrev pub as_millis : Duration → ℕ
as_millis d = d.secs * 1000 + d.nanos / 1000000
