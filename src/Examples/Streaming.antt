-- ===== src/Examples/Streaming.antt =====
-- The streaming server of nwep/examples/nwcurl.rs, which is also that of nwep/examples/managed_stream.rs: the
-- handler parks a request for `/big`, and each turn of the loop sends what the streams take of the body.
-- The streamed client of nwcurl stands here too.
pub mod Feeding
pub mod Turns
pub mod Clients
pub mod Counting
mod Tests
use nwep_rs.Base.{
  ℕ, zero, suc, ◌+◌, Bool, true, false, Option, none, some, List, [], ◌∷◌, ◌++◌, Bytes, length,
  drop, ltb, leb, ◌==◌, ascii, bytes_eq, if◌then◌else◌,
}
use nwep_rs.Error.{Result, ok, err}
use nwep_rs.Wire.{ok_status}
use nwep_rs.Ffi.{Call, pure, ◌>>=◌}
use nwep_rs.Server.Responder.{ResponseApi, Slot}
use nwep_rs.Server.Responder
use nwep_rs.Server.Deferred.{RespondApi, stream_send, stream_end}
use nwep_rs.Runtime.StreamPump.{StreamApi, recv_chunk, verify}

-- A stream that is fed: its connection, its number, and how many bytes of the body it has.
pub record Active : Type 0 where
  pub conn : ℕ
  pub stream : ℕ
  pub sent : ℕ

-- What the closure of `on_request` does with `pending`, and its reply; the connection and the stream are the
-- request's. managed_stream has no `/hello`.
module _ {W : Type 0} (api : ResponseApi W) where
  unfoldable pub handle : Option Bytes → ℕ → ℕ → List (ℕ × ℕ) → Slot W → List (ℕ × ℕ) × Slot W
  handle none conn stream pending s = (pending, Responder.not_found api s)
  handle (some path) conn stream pending s =
      if bytes_eq path (ascii "/hello")
      then (
        pending,
        Responder.ok api (ascii "hi from web/1")
            (Responder.header api (ascii "x-served-by") (ascii "nwcurl-demo") s),
      )
      else if bytes_eq path (ascii "/big")
      then (
        pending ++ (conn, stream) ∷ [],
        Responder.stream api (ascii "/big") ok_status
            ((ascii "content-type", ascii "application/octet-stream") ∷ []) s,
      )
      else (pending, Responder.not_found api s)

module _ {W : Type 0} (streams : ℕ → ℕ → RespondApi W) (body : Bytes) where
  -- The closure of `retain_mut` on fuel: whether the stream is kept, with its state; `none` is the panic of an
  -- `unwrap`, or that the fuel ran out.
  unfoldable pub feed : ℕ → Active → W → Option (Option Active × W)
  feed zero a w = none
  feed (suc fuel) a w = elim (ltb a.sent (length body)) [
    | false ↦
        let (ended, w') = stream_end (streams a.conn a.stream) w in
        elim ended [ err e ↦ none | ok _ ↦ some (none, w') ]
    | true ↦
        let (taken, w') = stream_send (streams a.conn a.stream) (drop a.sent body) w in
        elim taken [
          | err e ↦ none
          | ok n ↦
              let a' : Active = record a { sent = a.sent + n } in
              elim (n == 0) [ true ↦ some (some a', w') | false ↦ feed fuel a' w' ]
        ]
  ]

  -- `retain_mut`, in the order of the streams.
  unfoldable pub retain : ℕ → List Active → W → Option (List Active × W)
  retain fuel [] w = some ([], w)
  retain fuel (a ∷ active) w = elim (feed fuel a w) [
    | none ↦ none
    | some (kept, w₁) ↦ elim (retain fuel active w₁) [
      | none ↦ none
      | some (rest, w₂) ↦ some (elim kept [ none ↦ rest | some a' ↦ a' ∷ rest ], w₂)
    ]
  ]

  -- A turn of the loop after its tick: the parked streams are taken up, from the first byte on.
  unfoldable pub opened : List (ℕ × ℕ) → List Active
  opened [] = []
  opened ((conn, stream) ∷ pending) =
      record { conn = conn; stream = stream; sent = 0 } ∷ opened pending

  unfoldable pub turn : ℕ → List (ℕ × ℕ) → List Active → W → Option (List Active × W)
  unfolding opened retain
  turn fuel pending active w = retain fuel (active ++ opened pending) w

-- nwcurl's client reads a stream to its end: `got`, on fuel, where `none` is a stream that is longer.
module _ {W : Type 0} (api : StreamApi W) where
  unfoldable pub receive : ℕ → ℕ → Call W (Option ℕ)
  receive zero got = pure none
  receive (suc fuel) got = do
    c ← recv_chunk api
    (λ w. elim c.ended [ true ↦ (ok (some (got + c.n)), w) | false ↦ receive fuel (got + c.n) w ])

  -- The read and the check of the trailer.
  unfoldable pub read_verified : ℕ → Bytes → Call W (Option ℕ)
  unfolding receive
  read_verified fuel peer = do got ← receive fuel 0; _ ← verify api peer; pure got
