-- ===== src/Runtime/ClientLoop.antt =====
-- `run_client_loop` of nwep/src/runtime.rs, and `AsyncClient::dispatch`. A turn is one round of the
-- outer loop. What the channel gives it, the commands that `try_recv` returns and whether the
-- draining ends by a disconnect, is the turn's input, so a list of turns is any interleaving with
-- the async side. A oneshot sender is named by a number, and what is sent on it is kept.
mod PollRule
pub mod Conservation
pub mod PollPass
pub mod Terminating
pub mod Closing
pub mod Dispatching
mod Tests
use nwep_rs.Base.{
  ℤ, ℕ, zero, suc, ◌+◌, min, Bool, true, false, not, ◌||◌, Option, none, some, List, [], ◌∷◌, ◌++◌,
  map, Bytes, length, get_elem?, swap_remove, if◌then◌else◌,
}
use nwep_rs.Error.{Error, Result, ok, err, network_closed}
use nwep_rs.Wire.{Method}
use nwep_rs.Ffi.{Pairs}
use nwep_rs.Client.{ClientApi, Response, submit_request, poll_request, tick, is_alive, next_timeout}

-- `ClientCommand::Send`.
pub record Command : Type 0 where
  pub method : Method
  pub path : Bytes
  pub headers : Pairs
  pub body : Bytes
  pub reply : ℕ

-- An entry of `pending`.
pub record Pending : Type 0 where
  pub id : ℕ
  pub reply : ℕ

-- A `reply.send(result)`.
pub record Answer : Type 0 where
  pub reply : ℕ
  pub result : Result Response

pub record Owner (W : Type 0) : Type 0 where
  pub world : W
  pub pending : List Pending
  pub answered : List Answer

-- The input of one turn of the loop.
pub record Turn : Type 0 where
  pub commands : List Command
  pub disconnected : Bool
  pub now_ms : ℤ

-- `POLL_CAP_MS`.
abbrev pub poll_cap_ms : ℕ
poll_cap_ms = 200

unfoldable pub closed : Pending → Answer
closed p = record { reply = p.reply; result = err network_closed }

is_empty : List Pending → Bool
is_empty [] = true
is_empty (p ∷ ps) = false

is_err : {A : Type 0} → Result A → Bool
is_err (ok _) = false
is_err (err _) = true

module _ {W : Type 0} where
  -- `for (_, reply) in pending.drain(..) { reply.send(Err(NetworkClosed)) }`.
  unfoldable pub fail_all : Owner W → Owner W
  fail_all o = record o { pending = []; answered = o.answered ++ map closed o.pending }

  -- The two arms on the result of `submit_request`.
  submitted : Owner W → ℕ → Result ℕ × W → Owner W
  submitted o reply (ok id, w) = record o {
    world = w;
    pending = o.pending ++ record { id = id; reply = reply } ∷ [];
  }
  submitted o reply (err e, w) = record o {
    world = w;
    answered = o.answered ++ record { reply = reply; result = err e } ∷ [];
  }

  -- The three arms on the result of `poll_request`: the next index, and the state.
  pub polled : ℕ → Pending → Owner W → Result (Option Response) × W → ℕ × Owner W
  polled i p o (ok (some resp), w) = (
    i,
    record o {
      world = w;
      pending = swap_remove i o.pending;
      answered = o.answered ++ record { reply = p.reply; result = ok resp } ∷ [];
    },
  )
  polled i p o (ok none, w) = (i + 1, record o { world = w })
  polled i p o (err e, w) = (
    i,
    record o {
      world = w;
      pending = swap_remove i o.pending;
      answered = o.answered ++ record { reply = p.reply; result = err e } ∷ [];
    },
  )

module _ {W : Type 0} (api : ClientApi W) where
  -- One `Ok(ClientCommand::Send { .. })` of the draining loop.
  unfoldable pub submit_one : Owner W → Command → Owner W
  unfolding submitted
  submit_one o c = submitted o c.reply (submit_request api c.method c.path c.headers c.body o.world)

  unfoldable pub submit_all : Owner W → List Command → Owner W
  submit_all o [] = o
  submit_all o (c ∷ cs) = submit_all (submit_one o c) cs

  -- `while i < pending.len()`, on fuel.
  unfoldable pub poll_from : ℕ → ℕ → Owner W → Owner W
  unfolding polled
  poll_from zero i o = o
  poll_from (suc fuel) i o = elim (get_elem? o.pending i) [
    | none ↦ o
    | some p ↦ let (i', o') = polled i p o (poll_request api p.id o.world) in poll_from fuel i' o'
  ]

  -- Each round drops an entry or goes past one, so as many rounds as there are entries suffice.
  unfoldable pub poll_pass : Owner W → Owner W
  poll_pass o = poll_from (length o.pending) 0 o

  -- The state after a turn, and whether the loop goes on.
  unfoldable pub turn : Owner W → Turn → Owner W × Bool
  unfolding is_err
  turn o t =
      let o₁ = submit_all o t.commands in
      if t.disconnected
      then (fail_all o₁, false)
      else let (r, w) = tick api t.now_ms o₁.world in
        let o₂ = record o₁ { world = w } in
        if is_err r || not (is_alive api w) then (fail_all o₂, false) else (poll_pass o₂, true)

  -- The wait at the end of a turn.
  unfoldable pub wait_ms : Owner W → ℤ → ℕ
  unfolding is_empty
  wait_ms o now_ms =
      if is_empty o.pending then poll_cap_ms else elim (next_timeout api now_ms o.world) [
        | none ↦ min poll_cap_ms poll_cap_ms
        | some ms ↦ min ms poll_cap_ms
      ]

  -- The loop over its turns: the state, the turns that it did not take since it had returned, and
  -- whether it is still running.
  unfoldable pub run : Owner W → List Turn → Owner W × List Turn × Bool
  run o [] = (o, [], true)
  run o (t ∷ ts) =
      let (o', running) = turn o t in elim running [ true ↦ run o' ts | false ↦ (o', ts, false) ]

-- `AsyncClient::dispatch`: `sent` is whether the channel took the command, and the reply is `none`
-- where the sender was dropped.
unfoldable pub dispatch : Bool → Option (Result Response) → Result Response
dispatch false reply = err network_closed
dispatch true none = err network_closed
dispatch true (some r) = r

abbrev pub start : {W : Type 0} → W → Owner W
start w = record { world = w; pending = []; answered = [] }
