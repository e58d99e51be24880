-- ===== src/Error/Tests.antt =====
-- Tests and instances for nwep/src/error.rs.
use nwep_rs.Base.{ℤ, pos, neg, ◌≡◌, refl, Option, none, Bytes, ascii}
use nwep_rs.Error.{other, crypto_verify, code, from_code}
use nwep_rs.Error.Display.{display, read_code, read_code-display}

from_code-crypto_verify : from_code (neg 304) ≡ crypto_verify
unfolding from_code
from_code-crypto_verify = refl

-- A code that is no failure is kept as `Other`, it does not fold to `Internal`.
from_code-zero : from_code (pos 0) ≡ other (pos 0)
unfolding from_code
from_code-zero = refl

abbrev strerror : ℤ → Option Bytes
strerror c = none

display-crypto_verify : display strerror crypto_verify ≡ ascii "unknown (-304)"
unfolding display
display-crypto_verify = refl

read_code-display_example : read_code (display strerror (other (pos 7))) ≡ pos 7
unfolding code
read_code-display_example = read_code-display strerror (other (pos 7))
