-- ===== src/Poll/Windows.antt =====
-- The windows waker of nwep/src/poll.rs: a datagram socket on the loopback address, connected to itself.
use nwep_rs.Base.{
  ℤ, ℕ, pos, ◌-◌, ◌^◌, Bool, true, not, Option, List, [], ◌∷◌, eq_ℤ, ◌==◌, if◌then◌else◌,
}
use nwep_rs.Poll.{IoResult, io_ok, io_err, drain_with}

-- `INVALID_SOCKET`, of 64 bits.
abbrev pub invalid_socket : ℕ
invalid_socket = 2 ^ 64 - 1

-- The calls of winsock, a parameter. An address of the loopback interface is its port.
pub record WinsockApi (W : Type 0) : Type 0 where
  pub wsa_startup : W → W
  pub socket : W → ℕ × W
  pub bind : ℕ → ℕ → W → ℤ × W
  pub getsockname : ℕ → W → (ℤ × ℕ) × W
  pub connect : ℕ → ℕ → W → ℤ × W
  pub ioctlsocket : ℕ → W → W
  pub send_byte : ℕ → W → W
  pub recv_bytes : ℕ → W → ℤ × W
  pub last_os_error : W → ℕ

-- The state with the sockets that are open, the last one first. `started` is the `Once`.
pub record Sockets (W : Type 0) : Type 0 where
  pub os : W
  pub open_sockets : List ℕ
  pub started : Bool

abbrev pub remove_socket : ℕ → List ℕ → List ℕ
remove_socket s [] = []
remove_socket s (x ∷ xs) = if x == s then xs else x ∷ remove_socket s xs

module _ {W : Type 0} where
  abbrev pub closesocket : ℕ → Sockets W → Sockets W
  closesocket s w = record w { open_sockets = remove_socket s w.open_sockets }

  -- An error of the operating system is read, the socket is closed, and the error is returned.
  abbrev pub give_up : (W → ℕ) → ℕ → Sockets W → IoResult ℕ × Sockets W
  give_up last_error s w = (io_err (last_error w.os), closesocket s w)

module _ {W : Type 0} (api : WinsockApi W) where
  -- `ensure_winsock`.
  unfoldable pub ensure_winsock : Sockets W → Sockets W
  ensure_winsock w = if w.started then w else record w { os = api.wsa_startup w.os; started = true }

  -- `new` from the connection on: `getsockname(…) != 0 || connect(…) != 0`.
  unfoldable pub connected : ℕ → Sockets W → IoResult ℕ × Sockets W
  connected s w =
      let (named, os₁) = api.getsockname s w.os in
      let (rc, port) = named in
      if not (eq_ℤ rc (pos 0))
      then give_up api.last_os_error s (record w { os = os₁ })
      else let (connect_rc, os₂) = api.connect s port os₁ in
        if not (eq_ℤ connect_rc (pos 0))
        then give_up api.last_os_error s (record w { os = os₂ })
        else (io_ok s, record w { os = api.ioctlsocket s os₂ })

  -- `new` from the binding on.
  unfoldable pub bound : ℕ → Sockets W → IoResult ℕ × Sockets W
  unfolding connected
  bound s w =
      let (rc, os₁) = api.bind s 0 w.os in
      if not (eq_ℤ rc (pos 0))
      then give_up api.last_os_error s (record w { os = os₁ })
      else connected s (record w { os = os₁ })

  -- `Waker::new`.
  unfoldable pub new : Sockets W → IoResult ℕ × Sockets W
  unfolding bound ensure_winsock
  new w =
      let w₀ = ensure_winsock w in
      let (s, os₁) = api.socket w₀.os in
      if s == invalid_socket
      then (io_err (api.last_os_error os₁), record w₀ { os = os₁ })
      else bound s (record w₀ { os = os₁; open_sockets = s ∷ w₀.open_sockets })

  -- `Waker::wake`.
  unfoldable pub wake : ℕ → Sockets W → Sockets W
  wake s w = record w { os = api.send_byte s w.os }

  -- `Waker::drain`, on the state of the operating system.
  unfoldable pub drain : ℕ → ℕ → W → Option W
  drain s fuel os = drain_with (api.recv_bytes s) fuel os

  -- `Drop for Waker`.
  unfoldable pub drop : ℕ → Sockets W → Sockets W
  drop s w = closesocket s w
