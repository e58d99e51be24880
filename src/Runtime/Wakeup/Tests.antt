-- ===== src/Runtime/Wakeup/Tests.antt =====
-- Instances for the wakeups of nwep/src/runtime.rs.
use nwep_rs.Base.{◌≡◌, ◌⊎◌, inl, refl, true, false, some, arith}
use nwep_rs.Runtime.Wakeup.{
  Wakeup, waiting, gone, sends, wakes, ends_draining, move, moves, start, Reachable, at_start,
  after,
}
use nwep_rs.Runtime.Wakeup.Rousing.{no_lost_wakeup, rousing, rousing_works}

-- The owner waits, and then a request is sent and its wake is done.
abbrev asleep : Wakeup
asleep = record start { phase = waiting }

abbrev sent_to : Wakeup
sent_to = record start { phase = waiting; queue = 1; unwoken = 1 }

abbrev called : Wakeup
called = record start { phase = waiting; queue = 1; flag = true }

called-Reachable : Reachable called
unfolding move
called-Reachable =
    after wakes sent_to called
      (after sends asleep sent_to (after ends_draining start asleep at_start refl) refl) refl

no_lost_wakeup_example : (true ≡ true) ⊎ ((called.queue ≡ 0) × (called.is_open ≡ true))
no_lost_wakeup_example = no_lost_wakeup called called-Reachable refl refl refl

rousing_works_example :
    (s' : Wakeup) × (moves (rousing 1) called ≡ some s')
    × (s'.queue ≡ 0)
    × (((true ≡ true) × (s'.phase ≡ waiting)) ⊎ ((true ≡ false) × (s'.phase ≡ gone)))
rousing_works_example = rousing_works called called-Reachable refl refl refl (inl (omega arith))
