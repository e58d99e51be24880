-- ===== src/Examples/Drop/Download.antt =====
-- What the getter of nwep/examples/nwdrop.rs has at the end of its loop.
use nwep_rs.Base.{ℕ, pos, Option, some, Bytes, ascii}
use nwep_rs.Error.{Result, ok}
use nwep_rs.Ffi.{HeaderArray}
use nwep_rs.Message.Reading.{ReadApi}
use nwep_rs.Message.Reading
use nwep_rs.Client.{ClientApi}
use nwep_rs.Server.Responder.{Ran}
use nwep_rs.Server.Reading.{ServerReaderApi}
use nwep_rs.Examples.Drop.Headers.{range_sent}
use nwep_rs.Examples.Drop.{sender, Round, ends, goes_on, download}
use nwep_rs.Examples.Drop.Ranges.{Carries, Reply, other, recording}

module _ {W V : Type 0} (api : ClientApi W) (messages : ℕ → ReadApi) (content : Bytes)
    (asked : Bytes → HeaderArray → ReadApi) (readers : Bytes → HeaderArray → ServerReaderApi V)
    (c : Carries api messages content asked readers) where
  -- The request and its range as the sender sees them.
  abbrev seen_as : ℕ → ReadApi
  seen_as have = asked (ascii "/blob") (range_sent have)

  abbrev reader : ℕ → ServerReaderApi V
  reader have = readers (ascii "/blob") (range_sent have)

  abbrev answered : ℕ → Ran Reply
  answered have =
      sender recording (reader have) content (seen_as have) (record { rc = pos 0; world = other })

  abbrev after_round : ℕ → W → Round → Result (Option Bytes)
  after_round fuel w (ends all) = ok (some all)
  after_round fuel w (goes_on have more) = (download api messages fuel have more w).0
