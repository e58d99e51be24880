-- ===== src/Server/Build.antt =====
-- `ServerBuilder` and the life of a `Server` in nwep/src/server.rs. The closure of the handler is
-- moved into a box, which is lent to libnwep and freed by the server's drop.
pub mod Lives
mod Tests
use nwep_rs.Base.{
  ℤ, ℕ, zero, suc, Bool, true, false, Option, none, some, List, [], ◌∷◌, ◌++◌, Bytes, if◌then◌else◌,
}
use nwep_rs.Error.{Error, Result, ok, err, check, config_missing}
use nwep_rs.Ffi.{Call}
use nwep_rs.Lifecycle.{Event, drive, install, release, free_box}

-- The fields of `ServerBuilder`. An identity, an address, a closure and a bootstrap contact are
-- named by numbers.
pub record ServerBuilder : Type 0 where
  pub identity : Option ℕ
  pub bind : Option ℕ
  pub handler : Option ℕ
  pub reuse_port : Bool
  pub max_parked : Option ℕ
  pub dht_bootstraps : List ℕ
  pub dht_announce : Option ℕ
  pub dht_initial_seq : ℕ

-- libnwep's calls that make a server, a parameter; the flag of `listen` is whether the port is
-- reused, and `listen_fd` takes the shard, if any.
pub record ListenApi (W : Type 0) : Type 0 where
  pub listen : Bool → ℕ → ℕ → W → ℤ × W
  pub listen_fd : ℕ → ℕ → Option ℕ → W → ℤ × W
  pub set_max_parked : ℕ → W → W
  pub set_handler : W → ℤ × W

unfoldable pub builder : ServerBuilder
builder = record {
  identity = none;
  bind = none;
  handler = none;
  reuse_port = false;
  max_parked = none;
  dht_bootstraps = [];
  dht_announce = none;
  dht_initial_seq = 0;
}

unfoldable pub with_identity : ServerBuilder → ℕ → ServerBuilder
with_identity b i = record b { identity = some i }

unfoldable pub with_bind : ServerBuilder → ℕ → ServerBuilder
with_bind b a = record b { bind = some a }

unfoldable pub with_reuse_port : ServerBuilder → Bool → ServerBuilder
with_reuse_port b on = record b { reuse_port = on }

unfoldable pub with_max_parked : ServerBuilder → ℕ → ServerBuilder
with_max_parked b n = record b { max_parked = some n }

unfoldable pub dht : ServerBuilder → List ℕ → ServerBuilder
dht b contacts = record b { dht_bootstraps = b.dht_bootstraps ++ contacts }

unfoldable pub announce_as : ServerBuilder → ℕ → ServerBuilder
announce_as b a = record b { dht_announce = some a }

unfoldable pub with_dht_initial_seq : ServerBuilder → ℕ → ServerBuilder
with_dht_initial_seq b seq = record b { dht_initial_seq = seq }

unfoldable pub on_request : ServerBuilder → ℕ → ServerBuilder
on_request b f = record b { handler = some f }

-- `take_managed_dht`, on the contacts: `none` where there are none.
unfoldable pub managed_dht : List ℕ → ServerBuilder → Option (List ℕ × Option ℕ × ℕ) × ServerBuilder
managed_dht [] b = (none, b)
managed_dht (c ∷ cs) b = (
  some (c ∷ cs, b.dht_announce, b.dht_initial_seq),
  record b { dht_bootstraps = []; dht_announce = none },
)

unfoldable pub take_managed_dht : ServerBuilder → Option (List ℕ × Option ℕ × ℕ) × ServerBuilder
unfolding managed_dht
take_managed_dht b = managed_dht b.dht_bootstraps b

-- A server, by the box of its handler.
pub record Server : Type 0 where
  pub handler : Option ℕ

-- A method's result, with the library's state and the events on the new handle.
abbrev pub Built : Type 0 → Type 0
Built W = Result Server × W × List Event

-- The box that `finish_build` makes: a builder makes one at most.
abbrev pub handler_box : ℕ
handler_box = 0

-- The match on `set_handler`: on an error the box is dropped and the handle is closed.
unfoldable pub handler_set : {W : Type 0} → Result (Unit {0}) → W → Built W
handler_set (ok _) w =
    (ok (record { handler = some handler_box }), w, install (some handler_box) ∷ [])
handler_set (err e) w = (err e, w, free_box handler_box ∷ release ∷ [])

module _ {W : Type 0} (api : ListenApi W) where
  unfoldable pub parked : Option ℕ → W → W
  parked none w = w
  parked (some n) w = api.set_max_parked n w

  unfoldable pub install_handler : Option ℕ → W → Built W
  install_handler none w = (ok (record { handler = none }), w, [])
  install_handler (some f) w = let (rc, w') = api.set_handler w in handler_set (check rc) w'

  -- `ServerBuilder::finish_build`, on the handle that the listening call made.
  unfoldable pub finish_build : ServerBuilder → W → Built W
  unfolding parked
  finish_build b w = install_handler b.handler (parked b.max_parked w)

  -- `self.finish_build(raw)` after the `?` on the listening call.
  unfoldable pub listened : ServerBuilder → Result (Unit {0}) × W → Built W
  listened b (ok _, w) = finish_build b w
  listened b (err e, w) = (err e, w, [])

  -- `ServerBuilder::build`.
  unfoldable pub build : ServerBuilder → W → Built W
  build b w = elim b.identity [
    | none ↦ (err config_missing, w, [])
    | some i ↦ elim b.bind [
      | none ↦ (err config_missing, w, [])
      | some a ↦
          let (rc, w') = api.listen b.reuse_port i a w in
          listened (record b { identity = none; bind = none }) (check rc, w')
    ]
  ]

  -- `ServerBuilder::build_from_fd`.
  unfoldable pub build_from_fd : ServerBuilder → ℕ → Option ℕ → W → Built W
  build_from_fd b fd shard w = elim b.identity [
    | none ↦ (err config_missing, w, [])
    | some i ↦
        let (rc, w') = api.listen_fd i fd shard w in
        listened (record b { identity = none }) (check rc, w')
  ]

-- Ticks of the server, in which libnwep may run the handler.
unfoldable pub ticks : ℕ → List Event
ticks zero = []
ticks (suc n) = drive ∷ ticks n

-- `Drop for Server`.
unfoldable pub drop : Server → List Event
drop s = release ∷ elim s.handler [ none ↦ [] | some b ↦ free_box b ∷ [] ]
