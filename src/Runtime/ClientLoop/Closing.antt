-- ===== src/Runtime/ClientLoop/Closing.antt =====
-- How a turn of `run_client_loop` of nwep/src/runtime.rs ends, and how long it waits.
use nwep_rs.Base.{ℤ, ℕ, ◌≤◌, ◌≡◌, ◌⊎◌, true, false, none, some, List, [], ◌++◌, map, arith}
use nwep_rs.Error.{Error, ok, err, network_closed}
use nwep_rs.Client.{ClientApi, tick, is_alive, next_timeout}
use nwep_rs.Runtime.ClientLoop.{
  Pending, Owner, Turn, Answer, closed, fail_all, submit_all, poll_pass, turn, wait_ms, poll_cap_ms,
}

-- The answers of a connection that is gone: one for each request in flight, in their order.
abbrev pub closed_answers : List Pending → List Answer
closed_answers = map λ p. record { reply = p.reply; result = err network_closed }

module _ {W : Type 0} (api : ClientApi W) (o : Owner W) (t : Turn) where
  abbrev pub taken : Owner W
  taken = submit_all api o t.commands

  -- The turn ends the loop exactly if the channel is disconnected, or the tick fails, or the
  -- connection is not alive after it; then every request in flight is told that the connection is
  -- closed. Otherwise it polls them all.
  pub turn_lem :
      ((turn api o t).1 ≡ false)
        × ((turn api o t).0.pending ≡ [])
        × ((turn api o t).0.answered ≡ taken.answered ++ closed_answers taken.pending)
        × ((t.disconnected ≡ true)
            ⊎ ((e : Error) × ((tick api t.now_ms taken.world).0 ≡ err e))
            ⊎ (is_alive api (tick api t.now_ms taken.world).1 ≡ false))
      ⊎ (t.disconnected ≡ false)
        × ((tick api t.now_ms taken.world).0 ≡ ok tt)
        × (is_alive api (tick api t.now_ms taken.world).1 ≡ true)
        × (turn api o t
            ≡ (poll_pass api (record taken { world = (tick api t.now_ms taken.world).1 }), true))
  unfolding turn fail_all closed
  turn_lem = ground arith

module _ {W : Type 0} (api : ClientApi W) (o : Owner W) (now_ms : ℤ) where
  -- A turn waits at most the cap, and no longer than the library's timer if a request is in flight.
  pub wait_ms_bounds :
      (wait_ms api o now_ms ≤ poll_cap_ms)
      × ((o.pending ≡ [])
          ⊎ (next_timeout api now_ms o.world ≡ none)
          ⊎ ((ms : ℕ) × (next_timeout api now_ms o.world ≡ some ms) × (wait_ms api o now_ms ≤ ms)))
  unfolding wait_ms
  wait_ms_bounds = ground arith
