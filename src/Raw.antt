-- ===== src/Raw.antt =====
-- nwep/src/raw.rs: the conversions between the handles of the C library, of 64 bits, and `RawSocket`, which
-- is an `i32` on unix and a `u64` on windows. A cast keeps the low bits and reads them again.
pub mod Descriptors
use nwep_rs.Base.{ℤ, ℕ, pos, negsuc, ◌-◌, ◌%◌, ◌^◌, ltb, if◌then◌else◌}

-- The bits of a signed number in a word of `w` bits, and the signed number of a word's bits.
abbrev pub to_bits : ℕ → ℤ → ℕ
to_bits w (pos n) = n % 2 ^ w
to_bits w (negsuc n) = 2 ^ w - 1 - n % 2 ^ w

abbrev pub of_bits : ℕ → ℕ → ℤ
of_bits w b = if ltb b (2 ^ (w - 1)) then pos b else negsuc (2 ^ w - 1 - b)

-- `from_c` and `to_c` on unix.
unfoldable pub from_c : ℤ → ℤ
from_c handle = of_bits 32 (to_bits 32 handle)

unfoldable pub to_c : ℤ → ℕ
to_c socket = to_bits 64 socket

-- `from_c` and `to_c` on windows.
unfoldable pub from_c_windows : ℤ → ℕ
from_c_windows handle = to_bits 64 handle

unfoldable pub to_c_windows : ℕ → ℕ
to_c_windows socket = socket % 2 ^ 64
