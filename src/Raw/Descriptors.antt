-- ===== src/Raw/Descriptors.antt =====
-- When the conversions of nwep/src/raw.rs lose nothing.
use nwep_rs.Base.{ℤ, ℕ, pos, negsuc, ◌^◌, ◌<◌, ◌≡◌, ◌↔◌, arith}
use nwep_rs.Raw.{of_bits, from_c, to_c, from_c_windows, to_c_windows}

-- The numbers of a signed word of `w + 1` bits.
abbrev pub Fits : ℕ → ℤ → Type 0
Fits w (pos n) = n < 2 ^ w
Fits w (negsuc n) = n < 2 ^ w

-- On unix `from_c` keeps a handle exactly if it is a number of 32 signed bits.
pub from_c_lossless : (handle : ℤ) → (from_c handle ≡ handle) ↔ Fits 31 handle
unfolding from_c
from_c_lossless (pos n) = (λ h. ground arith, λ h. ground arith)
from_c_lossless (negsuc n) = (λ h. ground arith, λ h. ground arith)

-- On unix a descriptor of 32 signed bits that `to_c` hands to C, read there as a signed word of 64 bits,
-- comes back by `from_c` as it was, negative ones included.
pub from_c-to_c : (socket : ℤ) → Fits 31 socket → from_c (of_bits 64 (to_c socket)) ≡ socket
unfolding from_c to_c
from_c-to_c (pos n) h = ground arith
from_c-to_c (negsuc n) h = ground arith

-- On windows C gets back the handle that it gave.
pub to_c-from_c_windows :
    (handle : ℤ) → Fits 63 handle → of_bits 64 (to_c_windows (from_c_windows handle)) ≡ handle
unfolding from_c_windows to_c_windows
to_c-from_c_windows (pos n) h = ground arith
to_c-from_c_windows (negsuc n) h = ground arith
