-- ===== src/Examples/Drop.antt =====
-- nwep/examples/nwdrop.rs: the sender's handler, which serves a file in byte ranges, the getter's loop, which
-- pulls it in windows of 16 bytes, and the loop that pumps a node with its DHT. The file is an argument.
pub mod Ranges
pub mod Download
pub mod Headers
pub mod Pumping
mod Tests
use nwep_rs.Base.{
  ℤ, ℕ, zero, suc, ◌+◌, Bool, true, false, Option, none, some, List, [], ◌∷◌, ◌++◌, Bytes, length,
  ltb, ◌==◌, ascii, bytes_eq, if◌then◌else◌,
}
use nwep_rs.Error.{Result, ok, err}
use nwep_rs.Error.Display.{decimal}
use nwep_rs.Address.{Address, AddressApi, ipv4_mapped}
use nwep_rs.Ffi.{Call, pure, ◌>>=◌}
use nwep_rs.Wire.{Status, read, range_not_satisfiable}
use nwep_rs.Dht
use nwep_rs.Dht.{DhtApi}
use nwep_rs.Runtime.ServerLoop.{ServerApi, server_tick, is_due}
use nwep_rs.Message.Reading.{ReadApi}
use nwep_rs.Message.Reading
use nwep_rs.Client.{ClientApi, Response, request, header, send}
use nwep_rs.Server.Reading.{ServerReaderApi, RangeOutcome, ranges, unsatisfiable, full, range}
use nwep_rs.Server.Responder.{ResponseApi, Slot, Ran, replied, panicked}
use nwep_rs.Server.Responder

-- `FILE`.
abbrev pub file : Bytes
file = ascii "the entire contents of a small file moved by node_id alone"

-- `lo`.
unfoldable pub lo : AddressApi → ℕ → ℕ → Address
unfolding ipv4_mapped
lo api octet port = ipv4_mapped api 127 0 0 octet port

-- Whether the path of a request is a given one: `req.path() != Some(…)`.
abbrev pub asks_for : Bytes → Option Bytes → Bool
asks_for path none = false
asks_for path (some p) = bytes_eq p path

module _ {W V : Type 0} (api : ResponseApi W) (reader : ServerReaderApi V) (content : Bytes) where
  -- The match on the range, where `none` is its panic.
  unfoldable pub by_range : Option (Result RangeOutcome) → Slot W → Ran W
  by_range none s = panicked s.world
  by_range (some (ok (ranges rs))) s =
      replied (Responder.partial api content rs (ascii "application/octet-stream") s)
  by_range (some (ok unsatisfiable)) s =
      replied (Responder.range_not_satisfiable api (length content) s)
  by_range (some (ok full)) s = replied (Responder.ok api content s)
  by_range (some (err e)) s = replied (Responder.ok api content s)

  -- The closure of the sender's `on_request`.
  unfoldable pub sender : ReadApi → Slot W → Ran W
  unfolding by_range
  sender req s =
      if asks_for (ascii "/blob") (Reading.path req)
      then by_range (range reader (length content) none) s
      else replied (Responder.not_found api s)

-- `format!("bytes={}-{}", have, have + 15)`.
unfoldable pub range_text : ℕ → Bytes
unfolding decimal
range_text have = ascii "bytes=" ++ (decimal have ++ (ascii "-" ++ decimal (have + 15)))

abbrev pub is_unsatisfiable : Option Status → Bool
is_unsatisfiable (some range_not_satisfiable) = true
is_unsatisfiable (some _) = false
is_unsatisfiable none = false

-- What a round of the loop does with a response: it ends with what is downloaded, or goes on with the new
-- `have` and `downloaded`.
pub data Round : Type 0 where
  ends : Bytes → Round
  goes_on : ℕ → Bytes → Round

unfoldable pub round : Option Status → Bytes → ℕ → Bytes → Round
round status chunk have downloaded =
    if is_unsatisfiable status
    then ends downloaded
    else if length chunk == 0
    then ends downloaded
    else if ltb (length chunk) 16
    then ends (downloaded ++ chunk)
    else goes_on (have + length chunk) (downloaded ++ chunk)

module _ {W : Type 0} (api : ClientApi W) (messages : ℕ → ReadApi) where
  -- The request of a round.
  unfoldable pub fetch : ℕ → Call W Response
  unfolding request header send
  fetch have = send api (header (request read (ascii "/blob")) (ascii "range") (range_text have))

  -- The loop, on fuel, where `none` means that the fuel ran out.
  unfoldable pub download : ℕ → ℕ → Bytes → Call W (Option Bytes)
  download zero have downloaded = pure none
  download (suc fuel) have downloaded = do
    resp ← fetch have
    (λ w.
        elim (round (Reading.status (messages resp.msg)) (Reading.body (messages resp.msg)) have
          downloaded) [
            | ends all ↦ (ok (some all), w)
            | goes_on have' more ↦ download fuel have' more w
          ])

module _ {W : Type 0} (server : ServerApi W) (dht : DhtApi W) where
  -- The announcement of a round of `pump`: the new `announced`, and the library.
  unfoldable pub announce_in_pump : Option ℕ → ℕ → ℕ → W → ℕ × W
  unfolding is_due
  announce_in_pump none announced secs w = (announced, w)
  announce_in_pump (some address) announced secs w =
      if is_due announced secs then (secs, (Dht.announce dht address secs w).1) else (announced, w)

  -- `pump`, over the rounds that it makes before it is stopped, each with its two clocks; `none` is the
  -- panic of an `unwrap`.
  unfoldable pub pump : Option ℕ → ℕ → List (ℤ × ℕ) → W → Option W
  unfolding announce_in_pump server_tick Dht.tick
  pump address announced [] w = some w
  pump address announced ((now_ms, secs) ∷ rounds) w =
      let (ticked, w₁) = server_tick server dht now_ms w in
      let (moved, w₂) = Dht.tick dht secs w₁ in
      let (announced', w₃) = announce_in_pump address announced secs w₂ in
      elim ticked [
        | err e ↦ none
        | ok _ ↦ elim moved [ err e ↦ none | ok _ ↦ pump address announced' rounds w₃ ]
      ]
