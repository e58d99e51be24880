-- ===== src/Poll/Tests.antt =====
-- Instances for nwep/src/poll.rs: a counter of pending wakes, and a winsock whose connection fails.
use nwep_rs.Base.{ℤ, ℕ, zero, suc, pos, neg, ◌<◌, ◌≡◌, refl, true, false, some, [], ◌∷◌, arith}
use nwep_rs.Poll.{drain_with, reads}
use nwep_rs.Poll.Windows.{WinsockApi, new}
use nwep_rs.Poll.Draining.{NonBlocking, drain_with_ends, Made, new-Made}

-- Each read takes one wake.
abbrev reads_one : ℕ → ℤ × ℕ
reads_one zero = (neg 1, 0)
reads_one (suc n) = (pos 1, n)

reads_one-NonBlocking : NonBlocking reads_one
reads_one-NonBlocking = record { pending = λ w. w; shrinks = shrinks; empties = empties }
  where
    shrinks : (w : ℕ) → reads (reads_one w).0 ≡ true → (reads_one w).1 < w
    shrinks zero h = cc
    shrinks (suc n) h = omega arith

    empties : (w : ℕ) → reads (reads_one w).0 ≡ false → (reads_one w).1 ≡ 0
    empties zero h = refl
    empties (suc n) h = cc

drain_with_ends_example :
    (w' : ℕ) × (drain_with reads_one 4 3 ≡ some w') × (reads_one-NonBlocking.pending w' ≡ 0)
unfolding reads_one-NonBlocking
drain_with_ends_example = drain_with_ends reads_one reads_one-NonBlocking 4 3 (omega arith)

abbrev unconnected : WinsockApi ℕ
unconnected = record {
  wsa_startup = λ w. w;
  socket = λ w. (7, w);
  bind = λ s port w. (pos 0, w);
  getsockname = λ s w. ((pos 0, 5000), w);
  connect = λ s port w. (neg 1, w);
  ioctlsocket = λ s w. w;
  send_byte = λ s w. w;
  recv_bytes = λ s w. (neg 1, w);
  last_os_error = λ w. 10061;
}

new-Made_example :
    Made (3 ∷ []) (new unconnected (record { os = 0; open_sockets = 3 ∷ []; started = false }))
new-Made_example = new-Made unconnected (record { os = 0; open_sockets = 3 ∷ []; started = false })
