-- ===== src/Examples/Streaming/Clients.antt =====
-- The clients of nwep/examples/nwcurl.rs and nwep/examples/managed_stream.rs, from the connection on, with what they
-- print where nothing fails. The drops at the end of `main` are those of Client and Runtime.
use nwep_rs.Base.{ℕ, ◌+◌, Option, none, some, List, [], ◌∷◌, Bytes, length, ascii}
use nwep_rs.Error.{Result, ok, err}
use nwep_rs.Ffi.{Call, pure, ◌>>=◌, Pairs}
use nwep_rs.Wire.{Status, read}
use nwep_rs.Message.{MessageApi}
use nwep_rs.Message.Reading.{ReadApi}
use nwep_rs.Message.Reading
use nwep_rs.Client.{ClientApi}
use nwep_rs.Client.Sending.{send}
use nwep_rs.Client.Reading.{ReaderApi, verify_response, peer_pubkey, open_stream, stream_response}
use nwep_rs.Runtime.StreamPump.{StreamApi, StreamItem}
use nwep_rs.Runtime.Opening.{AsyncStream, header, status_or_error, all_headers}
use nwep_rs.Examples.Kv.{unwrap_or}
use nwep_rs.Examples.Streaming.{read_verified}

-- What nwcurl prints: the status, the headers and the body of `/hello`, then the status and the type of `/big`,
-- and the bytes of its body; `none` is a stream that is longer than the fuel.
pub record Shown : Type 0 where
  pub status : Status
  pub headers : Pairs
  pub body : Bytes
  pub streamed : Status
  pub content_type : Bytes
  pub got : Option ℕ

module _ {W : Type 0} (api : ClientApi W) (reader : ReaderApi W) (streams : ℕ → StreamApi W)
    (messages : ℕ → ReadApi) (headers : ℕ → MessageApi) where
  -- The part `--stream`.
  unfoldable pub stream_big : ℕ → Call W (Status × Bytes × Option ℕ)
  unfolding peer_pubkey open_stream stream_response read_verified status_or_error
  stream_big fuel = do
    peer ← λ w. (peer_pubkey reader w, w)
    stream ← open_stream reader read (ascii "/big")
    meta ← stream_response reader stream
    got ← read_verified (streams stream.id) fuel peer
    pure (
      status_or_error (Reading.status (messages meta.msg)),
      unwrap_or (ascii "?") (Reading.header (messages meta.msg) (ascii "content-type")),
      got,
    )

  -- `main` of nwcurl.
  unfoldable pub curl_main : ℕ → Call W Shown
  unfolding send verify_response stream_big status_or_error all_headers
  curl_main fuel = do
    resp ← send api read (ascii "/hello") []
    _ ← λ w. (verify_response reader resp (ascii "/hello") 0 w, w)
    big ← stream_big fuel
    pure (record {
      status = status_or_error (Reading.status (messages resp.msg));
      headers = all_headers (headers resp.msg);
      body = Reading.body (messages resp.msg);
      streamed = big.0;
      content_type = big.1;
      got = big.2;
    })

-- The loop over `recv` in managed_stream: `total` and `chunks`. An empty channel is closed.
unfoldable pub tally : List StreamItem → ℕ → ℕ → Result (ℕ × ℕ)
tally [] total chunks = ok (total, chunks)
tally (err e ∷ items) total chunks = err e
tally (ok none ∷ items) total chunks = ok (total, chunks)
tally (ok (some chunk) ∷ items) total chunks = tally items (total + length chunk) (chunks + 1)

-- `main` of managed_stream, from what `stream` returns: the status, the type, and the two counts.
unfoldable pub managed_main : Result AsyncStream → List StreamItem → Result (Status × Bytes × ℕ × ℕ)
unfolding header tally
managed_main (err e) items = err e
managed_main (ok s) items = elim (tally items 0 0) [
  | err e ↦ err e
  | ok (total, chunks) ↦
      ok (s.status, unwrap_or (ascii "?") (header s (ascii "content-type")), total, chunks)
]
