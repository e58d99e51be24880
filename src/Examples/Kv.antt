-- ===== src/Examples/Kv.antt =====
-- nwep/examples/nwkv.rs, a key-value service: the handler over its store, the turn of its loop, which pushes
-- a notice for each write, and the client that drives it.
pub mod Storage
pub mod Refining
pub mod Driving
mod Tests
use nwep_rs.Base.{
  ℕ, pos, Option, none, some, List, [], ◌∷◌, ◌++◌, Bytes, ascii, bytes_eq, if◌then◌else◌,
}
use nwep_rs.Wire.{created, no_content}
use nwep_rs.Message.Reading.{ReadApi}
use nwep_rs.Message.Reading
use nwep_rs.Server.Responder.{ResponseApi, Slot, ok, status, not_found, replied, returned}
use nwep_rs.Server.Deferred.{RespondApi, notify}
use nwep_rs.Examples.Kv.Storage.{insert, remove, get}

-- What the handler captures: `store`, a `HashMap`, and `to_notify`.
pub record Kv : Type 0 where
  pub store : List (Bytes × Bytes)
  pub to_notify : List ℕ

-- A request, with the number of its connection.
pub record Incoming : Type 0 where
  pub message : ReadApi
  pub conn_id : ℕ

abbrev pub unwrap_or : Bytes → Option Bytes → Bytes
unwrap_or d none = d
unwrap_or d (some s) = s

-- `req.path().unwrap_or("")`, and the method, which is "read" where there is none.
unfoldable pub request_path : Incoming → Bytes
request_path req = unwrap_or [] (Reading.path req.message)

unfoldable pub request_method : Incoming → Bytes
request_method req = unwrap_or (ascii "read") (Reading.header req.message (ascii ":method"))

module _ {W : Type 0} (api : ResponseApi W) where
  -- The arm of a read.
  unfoldable pub answer_read : Option Bytes → Slot W → Slot W
  answer_read none s = not_found api s
  answer_read (some v) s = ok api v s

  -- The closure of `on_request`.
  unfoldable pub handle : Incoming → Kv → Slot W → Kv × Slot W
  unfolding request_path request_method answer_read
  handle req kv s =
      let path = request_path req in
      let method = request_method req in
      if bytes_eq method (ascii "write")
      then (
        record kv {
          store = insert path (Reading.body req.message) kv.store;
          to_notify = kv.to_notify ++ req.conn_id ∷ [];
        },
        status api created [] s,
      )
      else if bytes_eq method (ascii "delete")
      then elim (get path kv.store) [
        | some v ↦ (record kv { store = remove path kv.store }, status api no_content [] s)
        | none ↦ (kv, not_found api s)
      ]
      else (kv, answer_read (get path kv.store) s)

  -- The requests that one `server.tick` dispatches, each through the trampoline.
  unfoldable pub serve_all : List Incoming → Kv → W → Kv × W
  serve_all [] kv w = (kv, w)
  serve_all (req ∷ reqs) kv w =
      let (kv', s) = handle req kv (record { rc = pos 0; world = w }) in
      serve_all reqs kv' (returned (replied s)).1

-- The loop over `to_notify` after a tick: a notice that is not accepted is dropped.
unfoldable pub push_all : {W : Type 0} → (ℕ → RespondApi W) → List ℕ → W → W
push_all pushes [] w = w
push_all pushes (conn ∷ conns) w =
    push_all pushes conns (notify (pushes conn) (ascii "kv.changed") [] w).1

-- A turn of the server's loop, in which `tick` dispatches `reqs`.
unfoldable pub turn :
    {W : Type 0} → ResponseApi W → (ℕ → RespondApi W) → List Incoming → Kv × W → Kv × W
unfolding serve_all push_all
turn api pushes reqs (kv, w) =
    let (kv', w') = serve_all api reqs kv w in
    (record kv' { to_notify = [] }, push_all pushes kv'.to_notify w')
