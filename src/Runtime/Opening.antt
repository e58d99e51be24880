-- ===== src/Runtime/Opening.antt =====
-- The starts of the owner threads of `ClientBuilder::connect_async` and `ClientBuilder::stream` in
-- nwep/src/runtime.rs: what is sent on the ready channel, and `AsyncStream`. The thread of a stream goes on to the
-- loop of StreamPump. The drops of the connection, the stream and the message at a thread's end are implicit in
-- the source and are not modelled.
use nwep_rs.Base.{
  ℤ, ℕ, suc, Bool, true, false, Option, none, some, List, [], ◌∷◌, Bytes, bytes_eq, if◌then◌else◌,
}
use nwep_rs.Error.{Error, Result, ok, err, internal}
use nwep_rs.Ffi.{Pairs}
use nwep_rs.Secrets.{World}
use nwep_rs.Address.{Address}
use nwep_rs.Identity.{NodeId}
use nwep_rs.Wire.{Method, Status, error_status}
use nwep_rs.Client.Api.{Response}
use nwep_rs.Client.Opening.{ClientBuilder, Client, OpenApi, connect}
use nwep_rs.Client.Reading.{ReaderApi, Stream, open_stream, stream_response, peer_pubkey}
use nwep_rs.Message.{MessageApi, collect}
use nwep_rs.Message
use nwep_rs.Message.Reading.{ReadApi}
use nwep_rs.Message.Reading
use nwep_rs.Poll.{IoResult, io_ok, io_err}
use nwep_rs.Runtime.StreamPump.{StreamApi, StreamItem, peer_or_zero, pump}

-- A thread that has ended, or entered `run_client_loop` with the client `runs`, with what it has sent on the
-- ready channel.
pub record Connected : Type 0 where
  pub ready : Option (Result (Unit {0}))
  pub runs : Option Client

-- The closure that `connect_async` spawns, from the result of `connect` on; `alive` is whether the caller
-- still waits.
unfoldable pub connected : Bool → Result Client → Connected
connected alive (err e) = record { ready = some (err e); runs = none }
connected true (ok c) = record { ready = some (ok tt); runs = some c }
connected false (ok c) = record { ready = none; runs = none }

-- What `connect_async` returns, where `none` is a ready sender that was dropped.
unfoldable pub connect_result : Option (Result (Unit {0})) → Result (Unit {0})
connect_result none = err internal
connect_result (some r) = r

-- `connect_async`, where the waker is made or not, and the thread is spawned or not.
unfoldable pub connect_async :
    {W : Type 0}
    → OpenApi W
    → IoResult ℤ
    → Bool
    → Bool
    → ClientBuilder
    → NodeId
    → Address
    → World W
    → Result (Unit {0}) × Option Connected
unfolding connected connect_result
connect_async api (io_err e) spawns alive b target addr w = (err internal, none)
connect_async api (io_ok wake) false alive b target addr w = (err internal, none)
connect_async api (io_ok wake) true alive b target addr w =
    let t = connected alive (connect api b target addr w).0 in (connect_result t.ready, some t)

-- The thread of a stream at its end: the items are those that it put into the channel of chunks, where
-- `none` is a stream that is longer than the fuel.
pub record Streamed : Type 0 where
  pub ready : Option (Result (Status × Pairs))
  pub items : Option (List StreamItem)

-- An error is sent, and the thread returns.
abbrev refuse : Error → Streamed
refuse e = record { ready = some (err e); items = some [] }

-- `meta.status().unwrap_or(Status::Error)`.
unfoldable pub status_or_error : Option Status → Status
status_or_error none = error_status
status_or_error (some s) = s

-- The headers of a message, which has as many as it counts.
unfoldable pub all_headers : MessageApi → Pairs
unfolding Message.new
all_headers m = elim (collect (suc m.header_count) m (Message.new m)) [ none ↦ [] | some hs ↦ hs ]

module _ {W : Type 0} (api : OpenApi W) (reader : ReaderApi W) (body : ℕ → StreamApi W)
    (meta : ℕ → ReadApi) (headers : ℕ → MessageApi) (fuel : ℕ) (alive : Bool)
    (takes : ℕ → Bool) where
  -- The thread from the metadata on.
  unfoldable pub with_meta : Client → Stream → Result Response × W → Streamed
  unfolding status_or_error all_headers
  with_meta c s (err e, w) = refuse e
  with_meta c s (ok m, w) =
      let status = status_or_error (Reading.status (meta m.msg)) in
      if alive
      then record {
        ready = some (ok (status, all_headers (headers m.msg)));
        items = elim (pump (body s.id) fuel (peer_or_zero (peer_pubkey reader w)) takes 0 w) [
          | none ↦ none
          | some (items, w') ↦ some items
        ];
      }
      else record { ready = none; items = some [] }

  -- The thread from the opening of the stream on.
  unfoldable pub with_stream : Client → Result Stream × W → Streamed
  unfolding with_meta
  with_stream c (err e, w) = refuse e
  with_stream c (ok s, w) = with_meta c s (stream_response reader s w)

  -- The thread from the connection on.
  unfoldable pub with_client : Method → Bytes → Result Client × World W → Streamed
  unfolding with_stream
  with_client method path (err e, w) = refuse e
  with_client method path (ok c, w) = with_stream c (open_stream reader method path w.lib)

  -- The closure that `stream` spawns.
  unfoldable pub stream_thread :
      ClientBuilder → Method → Bytes → NodeId → Address → World W → Streamed
  unfolding with_client
  stream_thread b method path target addr w = with_client method path (connect api b target addr w)

-- `AsyncStream`, with the fields that are read; its chunks are read by `StreamPump.recv`.
pub record AsyncStream : Type 0 where
  pub status : Status
  pub headers : Pairs

-- `AsyncStream::header`: the first header of the name.
unfoldable pub find_header : Bytes → Pairs → Option Bytes
find_header name [] = none
find_header name ((n, v) ∷ hs) = if bytes_eq n name then some v else find_header name hs

unfoldable pub header : AsyncStream → Bytes → Option Bytes
unfolding find_header
header s name = find_header name s.headers

-- What `stream` returns, from the ready channel.
unfoldable pub stream_result : Option (Result (Status × Pairs)) → Result AsyncStream
stream_result none = err internal
stream_result (some (err e)) = err e
stream_result (some (ok (status, headers))) = ok (record { status = status; headers = headers })
