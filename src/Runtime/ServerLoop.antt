-- ===== src/Runtime/ServerLoop.antt =====
-- `run_server_loop` and `resolve_on_thread` of nwep/src/runtime.rs. A turn is one round of the loop:
-- what the stop flag, the clocks and the channel give it is its input. The rounds of a lookup are
-- those that begin before its deadline.
mod TurnCases
pub mod Announcing
pub mod Answering
mod Tests
use nwep_rs.Base.{
  ℤ, ℕ, ◌+◌, ◌-◌, ◌%◌, ◌^◌, min, Bool, true, false, ◌||◌, Option, none, some, List, [], ◌∷◌, ◌++◌,
  ◌==◌, leb, if◌then◌else◌,
}
use nwep_rs.Error.{Error, Result, ok, err, check, identity_not_found}
use nwep_rs.Ffi.{Call, pure, lift, ◌>>=◌}
use nwep_rs.Client.{timeout_of}
use nwep_rs.Dht
use nwep_rs.Dht.{DhtApi, DhtMetrics, Record, lookup_result, start_lookup, announce, metrics}
use nwep_rs.Runtime.ClientLoop.{poll_cap_ms}

-- `nwep_server_*` on the server of the loop, a parameter.
pub record ServerApi (W : Type 0) : Type 0 where
  pub server_tick : ℤ → W → ℤ × W
  pub server_next_timeout_ms : ℤ → W → ℤ

-- The clocks in one round of a lookup.
pub record Round : Type 0 where
  pub now_ms : ℤ
  pub secs : ℕ

-- `ServerCommand`; the timeout of a lookup is given by the rounds that it leaves time for.
pub data ServerCommand : Type 0 where
  resolve : ℕ → ℕ → List Round → ℕ → ServerCommand
  dht_metrics : ℕ → ServerCommand

-- What is sent on the oneshot channel of a command.
pub data Sent : Type 0 where
  resolved : ℕ → Result ℕ → Sent
  measured : ℕ → DhtMetrics → Sent

-- The input of one turn.
pub record Turn : Type 0 where
  pub stopped : Bool
  pub now_ms : ℤ
  pub secs : ℕ
  pub commands : List ServerCommand

-- The state of the loop; `announced` keeps when it has announced, the latest first.
pub record Owner (W : Type 0) : Type 0 where
  pub world : W
  pub announced_at : ℕ
  pub announced : List ℕ
  pub answered : List Sent

-- `ANNOUNCE_INTERVAL_SECS`.
abbrev pub announce_interval_secs : ℕ
announce_interval_secs = 30

-- `secs - announced_at` on `u64`, with the wrap-around of a release build.
unfoldable pub elapsed : ℕ → ℕ → ℕ
elapsed secs since = (secs + 2 ^ 64 - since) % 2 ^ 64

unfoldable pub is_due : ℕ → ℕ → Bool
unfolding elapsed
is_due announced_at secs =
    announced_at == 0 || leb announce_interval_secs (elapsed secs announced_at)

module _ {W : Type 0} (server : ServerApi W) (dht : DhtApi W) where
  -- `server.tick(now_ms())`.
  unfoldable pub server_tick : ℤ → Call W (Unit {0})
  server_tick now w = let (rc, w') = server.server_tick now w in (check rc, w')

  -- The `while` of `resolve_on_thread`.
  unfoldable pub resolve_rounds : ℕ → List Round → Call W ℕ
  resolve_rounds target [] w = (err identity_not_found, w)
  resolve_rounds target (r ∷ rs) w =
      let (ticked, w₁) = server_tick r.now_ms w in
      elim ticked [
        | err e ↦ (err e, w₁)
        | ok _ ↦
            let (moved, w₂) = Dht.tick dht r.secs w₁ in
            elim moved [
              | err e ↦ (err e, w₂)
              | ok _ ↦ elim (lookup_result dht target w₂) [
                | some found ↦ (ok found.address, w₂)
                | none ↦ resolve_rounds target rs w₂
              ]
            ]
      ]

  -- `resolve_on_thread`.
  unfoldable pub resolve_on_thread : ℕ → ℕ → List Round → Call W ℕ
  resolve_on_thread target secs rounds w = elim (lookup_result dht target w) [
    | some found ↦ (ok found.address, w)
    | none ↦ (do _ ← start_lookup dht target secs; resolve_rounds target rounds) w
  ]

  -- One command of the draining loop.
  unfoldable pub answer : Owner W → ServerCommand → Owner W
  answer o (resolve target secs rounds reply) =
      let (r, w) = resolve_on_thread target secs rounds o.world in
      record o { world = w; answered = o.answered ++ resolved reply r ∷ [] }
  answer o (dht_metrics reply) = record o {
    answered = o.answered ++ measured reply (metrics dht o.world) ∷ [];
  }

  unfoldable pub answer_all : Owner W → List ServerCommand → Owner W
  answer_all o [] = o
  answer_all o (c ∷ cs) = answer_all (answer o c) cs

  -- The announcement of a turn.
  unfoldable pub announce_if_due : Option ℕ → Owner W → ℕ → Owner W
  unfolding is_due
  announce_if_due none o secs = o
  announce_if_due (some address) o secs =
      if is_due o.announced_at secs
      then (record o {
        world = (announce dht address secs o.world).1;
        announced_at = secs;
        announced = secs ∷ o.announced;
      })
      else o

  -- The part of a turn that is for the DHT, where there is one.
  unfoldable pub dht_part : Bool → Option ℕ → Owner W → Turn → Owner W
  dht_part false address o t = o
  dht_part true address o t =
      let ticked = record o { world = (Dht.tick dht t.secs o.world).1 } in
      answer_all (announce_if_due address ticked t.secs) t.commands

  -- A turn, and whether the loop goes on.
  unfoldable pub turn : Bool → Option ℕ → Owner W → Turn → Owner W × Bool
  turn has_dht address o t =
      if t.stopped
      then (o, false)
      else let (ticked, w) = server_tick t.now_ms o.world in
        elim ticked [
          | err e ↦ (record o { world = w }, false)
          | ok _ ↦ (dht_part has_dht address (record o { world = w }) t, true)
        ]

  unfoldable pub run : Bool → Option ℕ → Owner W → List Turn → Owner W
  run has_dht address o [] = o
  run has_dht address o (t ∷ ts) =
      let (o', running) = turn has_dht address o t in
      elim running [ true ↦ run has_dht address o' ts | false ↦ o' ]

  -- The wait at the end of a turn.
  unfoldable pub wait_ms : Bool → Owner W → ℤ → ℕ → ℕ
  wait_ms has_dht o now secs =
      let wait : ℕ = elim (timeout_of (server.server_next_timeout_ms now o.world)) [
        | none ↦ poll_cap_ms
        | some ms ↦ ms
      ] in
      elim has_dht [
        | false ↦ min wait poll_cap_ms
        | true ↦ elim (Dht.next_timeout dht secs o.world) [
          | none ↦ min wait poll_cap_ms
          | some d ↦ min (min wait d) poll_cap_ms
        ]
      ]

abbrev pub start : {W : Type 0} → W → Owner W
start w = record { world = w; announced_at = 0; announced = []; answered = [] }
