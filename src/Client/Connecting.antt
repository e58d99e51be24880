-- ===== src/Client/Connecting.antt =====
-- `Connecting` of nwep/src/client.rs: a connection whose handshake is driven by the caller.
use nwep_rs.Base.{ℤ, ℕ, zero, suc, pos, negsuc, Bool, true, false, List, [], ◌∷◌}
use nwep_rs.Error.{Result, ok, err, from_code}
use nwep_rs.Lifecycle.{Event, drive, release}

-- `Connecting::poll`, on the code that C returned.
unfoldable pub poll_connecting : ℤ → Result Bool
poll_connecting (pos zero) = ok false
poll_connecting (pos (suc zero)) = ok true
poll_connecting (pos (suc (suc n))) = err (from_code (pos (suc (suc n))))
poll_connecting (negsuc n) = err (from_code (negsuc n))

-- `Connecting::tick`, some times.
unfoldable pub connecting_ticks : ℕ → List Event
connecting_ticks zero = []
connecting_ticks (suc n) = drive ∷ connecting_ticks n

-- `Drop for Connecting`. `Connecting::into_client` forgets the value, so this does not run there.
unfoldable pub connecting_drop : List Event
connecting_drop = release ∷ []
