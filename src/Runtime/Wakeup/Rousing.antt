-- ===== src/Runtime/Wakeup/Rousing.antt =====
-- When the owner thread of nwep/src/runtime.rs may sleep, and how it ends.
use nwep_rs.Base.{
  ℕ, zero, suc, ◌<◌, ◌≡◌, ◌≢◌, ◌⊎◌, refl, ap, true, false, some, List, [], ◌∷◌, ◌++◌, arith,
  replicate, if◌then◌else◌,
}
use nwep_rs.Runtime.Wakeup.{
  draining, waiting, gone, Wakeup, Move, sends, wakes, drops_sender, drop_wakes, takes,
  ends_draining, connection_ends, poll_wakes, poll_returns, drains_waker, move, moves, Reachable,
  at_start, after,
}

-- A waiting owner has nothing to do that no one will wake it for.
abbrev Awake : Wakeup → Type 0
Awake s =
    (s.phase ≢ waiting)
    ⊎ (((s.queue ≡ 0) ⊎ (s.flag ≡ true) ⊎ (0 < s.unwoken))
        × ((s.is_open ≡ true) ⊎ (s.flag ≡ true) ⊎ (s.closing ≡ true)))

move-Awake : (m : Move) (s s' : Wakeup) → Awake s → move m s ≡ some s' → Awake s'
unfolding move
move-Awake sends s s' a e = ground arith
move-Awake wakes s s' a e = ground arith
move-Awake drops_sender s s' a e = ground arith
move-Awake drop_wakes s s' a e = ground arith
move-Awake takes s s' a e = ground arith
move-Awake ends_draining s s' a e = ground arith
move-Awake connection_ends s s' a e = ground arith
move-Awake poll_wakes s s' a e = ground arith
move-Awake poll_returns s s' a e = ground arith
move-Awake drains_waker s s' a e = ground arith

Reachable-Awake : (s : Wakeup) → Reachable s → Awake s
Reachable-Awake _ at_start = ground arith
Reachable-Awake _ (after m s s' r e) = move-Awake m s s' (Reachable-Awake s r) e

-- In every interleaving: while the owner thread waits and no call of `dispatch` and no drop is before
-- its wake, either the waker is readable, or there is no command in the channel and the
-- `AsyncClient` is there.
pub no_lost_wakeup :
    (s : Wakeup)
    → Reachable s
    → s.phase ≡ waiting
    → s.unwoken ≡ 0
    → s.closing ≡ false
    → (s.flag ≡ true) ⊎ ((s.queue ≡ 0) × (s.is_open ≡ true))
no_lost_wakeup s r w u c = ground (arith, Reachable-Awake s r)

moves-takes :
    (n : ℕ) (s : Wakeup) (ms : List Move)
    → s.phase ≡ draining
    → s.queue ≡ n
    → moves (replicate n takes ++ ms) s ≡ moves ms (record s { queue = 0 })
unfolding moves move
moves-takes zero s ms p q = ap (λ n. moves ms (record s { queue = n })) q
moves-takes (suc n) s ms p q = ground (arith, moves-takes n (record s { queue = n }) ms p refl)

-- The moves of an owner thread that the waker wakes.
abbrev pub rousing : ℕ → List Move
rousing n = poll_wakes ∷ drains_waker ∷ replicate n takes ++ ends_draining ∷ []

-- In every interleaving: an owner thread that waits, with commands in the channel or its
-- `AsyncClient` gone, and no call of `dispatch` and no drop before its wake, is woken by the waker
-- without the time of its wait; it takes every command and then waits again, or has returned if
-- the `AsyncClient` is gone.
pub rousing_works :
    (s : Wakeup)
    → Reachable s
    → s.phase ≡ waiting
    → s.unwoken ≡ 0
    → s.closing ≡ false
    → (0 < s.queue) ⊎ (s.is_open ≡ false)
    → (s' : Wakeup) × (moves (rousing s.queue) s ≡ some s')
      × (s'.queue ≡ 0)
      × (((s.is_open ≡ true) × (s'.phase ≡ waiting)) ⊎ ((s.is_open ≡ false) × (s'.phase ≡ gone)))
unfolding moves move
rousing_works s r w u c h =
    let readable : s.flag ≡ true = ground (arith, no_lost_wakeup s r w u c) in
    let emptied =
      moves-takes s.queue (record s { flag = false; phase = draining }) (ends_draining ∷ []) refl
        refl in
    (
      record s { flag = false; queue = 0; phase = if s.is_open then waiting else gone },
      ground (arith, w, readable, emptied),
      refl,
      ground arith,
    )
