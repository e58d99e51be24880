-- ===== src/Poll/Waiting.antt =====
-- The waits of nwep/src/poll.rs, on unix and on windows. `poll` and `WSAPoll` are parameters; their results
-- are not read.
use nwep_rs.Base.{ℤ, ℕ, List, [], ◌∷◌}
use nwep_rs.Raw.{of_bits}

-- `pollfd`, whose `revents` is only written.
pub record PollFd : Type 0 where
  pub fd : ℤ
  pub events : ℕ

-- `poll` and its flag for reading.
pub record PollApi (S : Type 0) : Type 0 where
  pub pollin : ℕ
  pub poll : List PollFd → ℤ → S → S

-- A `u32` as a `c_int`.
unfoldable pub signed_timeout : ℕ → ℤ
signed_timeout timeout_ms = of_bits 32 timeout_ms

module _ {S : Type 0} (api : PollApi S) where
  abbrev pub readable : ℤ → PollFd
  readable fd = record { fd = fd; events = api.pollin }

  -- `wait_readable` and `wait_readable2` on unix.
  unfoldable pub wait_readable : ℤ → ℕ → S → S
  unfolding signed_timeout
  wait_readable fd timeout_ms s = api.poll (readable fd ∷ []) (signed_timeout timeout_ms) s

  unfoldable pub wait_readable2 : ℤ → ℤ → ℕ → S → S
  unfolding signed_timeout
  wait_readable2 a b timeout_ms s =
      api.poll (readable a ∷ readable b ∷ []) (signed_timeout timeout_ms) s

-- `WsaPollFd`, and `POLLRDNORM`.
pub record WsaPollFd : Type 0 where
  pub socket : ℕ
  pub events : ℕ

abbrev pub pollrdnorm : ℕ
pollrdnorm = 256

-- The waits on windows, where a socket has 64 bits in both types.
module _ {S : Type 0} (wsa_poll : List WsaPollFd → ℤ → S → S) where
  abbrev wsa_readable : ℕ → WsaPollFd
  wsa_readable s = record { socket = s; events = pollrdnorm }

  unfoldable pub wait_readable_windows : ℕ → ℕ → S → S
  unfolding signed_timeout
  wait_readable_windows fd timeout_ms s =
      wsa_poll (wsa_readable fd ∷ []) (signed_timeout timeout_ms) s

  unfoldable pub wait_readable2_windows : ℕ → ℕ → ℕ → S → S
  unfolding signed_timeout
  wait_readable2_windows a b timeout_ms s =
      wsa_poll (wsa_readable a ∷ wsa_readable b ∷ []) (signed_timeout timeout_ms) s
