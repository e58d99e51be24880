-- ===== src/Runtime/Wakeup.antt =====
-- The wakeups between `AsyncClient` and its owner thread in nwep/src/runtime.rs, over the `Waker` of
-- nwep/src/poll.rs. A state is what the two sides share, with the place at which each of them is; a
-- move is one step of one side, so a list of moves is an interleaving of the sides.
pub mod Rousing
mod Tests
use nwep_rs.Base.{
  ℕ, zero, suc, ◌+◌, ◌≡◌, Bool, true, false, not, ◌&&◌, Option, none, some, List, [], ◌∷◌, ◌==◌,
  if◌then◌else◌,
}

-- Where the owner thread is: it drains the channel, it waits in `poll`, it has returned from `poll`
-- and not yet drained the waker, or it has returned.
pub data Phase : Type 0 where
  draining waiting roused gone : Phase

pub record Wakeup : Type 0 where
  -- commands in the channel
  pub queue : ℕ
  -- calls of `dispatch` between their send and their wake
  pub unwoken : ℕ
  -- the `AsyncClient` has its sender
  pub is_open : Bool
  -- its drop is between the drop of the sender and the wake
  pub closing : Bool
  -- the waker's descriptor is readable
  pub flag : Bool
  pub phase : Phase

-- `Waker::wake` and `Waker::drain`.
unfoldable pub wake : Wakeup → Wakeup
wake s = record s { flag = true }

unfoldable pub drain : Wakeup → Wakeup
drain s = record s { flag = false }

pub data Move : Type 0 where
  -- `dispatch`: the send, and the wake after it
  sends wakes : Move
  -- `Drop for AsyncClient`: the drop of the sender, and the wake after it
  drops_sender drop_wakes : Move
  -- `try_recv` gives a command, or it does not
  takes ends_draining : Move
  -- the channel is drained, and the connection is found dead
  connection_ends : Move
  -- `poll` returns, for the waker or for the socket and the cap; then the waker is drained
  poll_wakes poll_returns drains_waker : Move

-- A move, where it can be made.
unfoldable pub move : Move → Wakeup → Option Wakeup
unfolding wake drain
move sends s = elim s.phase [
  | gone ↦ none
  | _ ↦ if s.is_open then some (record s { queue = suc s.queue; unwoken = suc s.unwoken }) else none
]
move wakes s = elim s.unwoken [ zero ↦ none | suc n ↦ some (wake (record s { unwoken = n })) ]
move drops_sender s =
    if s.is_open && s.unwoken == 0
    then some (record s { is_open = false; closing = true })
    else none
move drop_wakes s = if s.closing then some (wake (record s { closing = false })) else none
move takes s = elim s.phase [
  | draining ↦ elim s.queue [ zero ↦ none | suc n ↦ some (record s { queue = n }) ]
  | _ ↦ none
]
move ends_draining s = elim s.phase [
  | draining ↦ elim s.queue [
    | zero ↦ some (record s { phase = if s.is_open then waiting else gone })
    | suc n ↦ none
  ]
  | _ ↦ none
]
move connection_ends s = elim s.phase [
  | draining ↦ if s.is_open && s.queue == 0 then some (record s { phase = gone }) else none
  | _ ↦ none
]
move poll_wakes s = elim s.phase [
  | waiting ↦ if s.flag then some (record s { phase = roused }) else none
  | _ ↦ none
]
move poll_returns s = elim s.phase [ waiting ↦ some (record s { phase = roused }) | _ ↦ none ]
move drains_waker s = elim s.phase [
  | roused ↦ some (drain (record s { phase = draining }))
  | _ ↦ none
]

unfoldable pub moves : List Move → Wakeup → Option Wakeup
moves [] s = some s
moves (m ∷ ms) s = elim (move m s) [ none ↦ none | some s' ↦ moves ms s' ]

-- The state in which the owner thread enters `run_client_loop`.
abbrev pub start : Wakeup
start = record {
  queue = 0;
  unwoken = 0;
  is_open = true;
  closing = false;
  flag = false;
  phase = draining;
}

-- The states of all interleavings.
pub data Reachable : Wakeup → Type 0 where
  at_start : Reachable start
  after : (m : Move) (s s' : Wakeup) → Reachable s → move m s ≡ some s' → Reachable s'
