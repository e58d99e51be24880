-- ===== src/Poll.antt =====
-- nwep/src/poll.rs: the waker of the owner threads, an eventfd on unix (here) and a socket that is connected
-- to itself on windows (Poll/Windows.antt), and the waits (Poll/Waiting.antt). The system calls are parameters.
pub mod Windows
pub mod Draining
pub mod Waiting
mod Tests
use nwep_rs.Base.{
  ℤ, ℕ, zero, suc, pos, negsuc, Bool, true, false, Option, none, some, List, [], ◌∷◌, is_negative,
  if◌then◌else◌,
}

-- `std::io::Result`, whose errors are the codes that `last_os_error` reads.
pub data IoResult (A : Type 0) : Type 0 where
  io_ok : A → IoResult A
  io_err : ℕ → IoResult A

-- The system calls of the unix waker, a parameter.
pub record EventfdApi (W : Type 0) : Type 0 where
  pub eventfd : W → ℤ × W
  pub last_os_error : W → ℕ
  pub write_one : ℤ → W → W
  pub read_count : ℤ → W → ℤ × W
  pub close : ℤ → W → W

-- Whether a read has read something.
abbrev pub reads : ℤ → Bool
reads (pos zero) = false
reads (pos (suc n)) = true
reads (negsuc n) = false

-- `while unsafe { read(…) } > 0 {}`, on fuel; `none` means that the fuel ran out.
unfoldable pub drain_with : {W : Type 0} → (W → ℤ × W) → ℕ → W → Option W
drain_with read zero w = none
drain_with read (suc fuel) w =
    let (got, w') = read w in elim (reads got) [ true ↦ drain_with read fuel w' | false ↦ some w' ]

module _ {W : Type 0} (api : EventfdApi W) where
  -- `Waker::new`; the waker is its descriptor.
  unfoldable pub new : W → IoResult ℤ × W
  new w =
      let (fd, w') = api.eventfd w in
      (if is_negative fd then io_err (api.last_os_error w') else io_ok fd, w')

  -- `Waker::wake`.
  unfoldable pub wake : ℤ → W → W
  wake fd w = api.write_one fd w

  -- `Waker::drain`.
  unfoldable pub drain : ℤ → ℕ → W → Option W
  unfolding drain_with
  drain fd fuel w = drain_with (api.read_count fd) fuel w

  -- `Drop for Waker`.
  unfoldable pub drop : ℤ → W → W
  drop fd w = api.close fd w
