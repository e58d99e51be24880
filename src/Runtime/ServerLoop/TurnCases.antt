-- ===== src/Runtime/ServerLoop/TurnCases.antt =====
-- The three ways in which a turn of `run_server_loop` of nwep/src/runtime.rs goes.
use nwep_rs.Base.{ℕ, Bool, true, false, Option, inl, inr, Bool-cases}
use nwep_rs.Error.{Result-cases}
use nwep_rs.Dht.{DhtApi}
use nwep_rs.Runtime.ServerLoop.{ServerApi, Turn, Owner, server_tick, dht_part, turn}

module _ {W : Type 0} (server : ServerApi W) (dht : DhtApi W) (has_dht : Bool)
    (address : Option ℕ) where
  pub turn_cases :
      (P : Owner W × Bool → Type 0) (o : Owner W) (t : Turn)
      → P (o, false)
      → ((w : W) → P (record o { world = w }, false))
      → ((w : W) → P (dht_part server dht has_dht address (record o { world = w }) t, true))
      → P (turn server dht has_dht address o t)
  unfolding turn
  turn_cases P o t stop fail go = elim (Bool-cases t.stopped) [
    | inl s ↦ rw s stop
    | inr s ↦ rw s (elim (Result-cases (server_tick server dht t.now_ms o.world).0) [
      | inl (u, e) ↦ rw e (go _)
      | inr (x, e) ↦ rw e (fail _)
    ])
  ]
