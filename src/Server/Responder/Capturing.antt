-- ===== src/Server/Responder/Capturing.antt =====
-- `CapturingResponder` of nwep/src/server.rs against `Responder`.
use nwep_rs.Base.{
  ℤ, pos, ◌≡◌, ◌≢◌, ◌⊎◌, [], Bytes, replicate, drop, length, length-replicate, take-length_append,
  eq_ℤ→eq, eq_ℤ_refl, arith,
}
use nwep_rs.Wire.{Status}
use nwep_rs.Sizing.Contract.{Encodes}
use nwep_rs.Server.Responder.{
  ResponseApi, Slot, ok, status, finish_capture, capture_ok, capture_status,
}

module _ {W : Type 0} (api : ResponseApi W) where
  finish_capture-rc : (built : ℤ × W) → (finish_capture api built).0.rc ≡ built.0
  unfolding finish_capture
  finish_capture-rc (rc, w) = ground (arith, eq_ℤ→eq rc (pos 0))

  -- A reply that captures its frame has the code of the same reply that does not, whatever the
  -- capture itself returns.
  pub capture-rc :
      (st : Status) (body : Bytes) (s : Slot W)
      → ((capture_ok api body s).0.rc ≡ (ok api body s).rc)
        × ((capture_status api st body s).0.rc ≡ (status api st body s).rc)
  unfolding capture_ok capture_status ok status
  capture-rc st body s = (finish_capture-rc _, finish_capture-rc _)

  finish_capture-Encodes :
      (rc : ℤ) {w w' : W} {frame : Bytes}
      → Encodes api.response_capture w w' frame
      → ((rc ≡ pos 0) × (finish_capture api (rc, w) ≡ (record { rc = pos 0; world = w' }, frame)))
        ⊎ ((rc ≢ pos 0) × (finish_capture api (rc, w) ≡ (record { rc = rc; world = w }, [])))
  unfolding finish_capture
  finish_capture-Encodes rc {w} {w'} {frame} c = ground (
    arith,
    eq_ℤ→eq rc (pos 0),
    eq_ℤ_refl rc,
    c.probe,
    c.fill (replicate c.size 0) (length-replicate c.size 0),
    take-length_append frame (drop (length frame) (replicate c.size 0)),
  )

  -- Where the library captures by its contract: the frame is all of what it encodes if the reply was
  -- built, and is empty if it was not.
  pub capture_status-frame :
      (st : Status) (body : Bytes) (s : Slot W) {w : W} {frame : Bytes}
      → Encodes api.response_capture (status api st body s).world w frame
      → (((status api st body s).rc ≡ pos 0)
          × (capture_status api st body s ≡ (record { rc = pos 0; world = w }, frame)))
        ⊎ (((status api st body s).rc ≢ pos 0)
            × (capture_status api st body s ≡ (status api st body s, [])))
  unfolding capture_status status
  capture_status-frame st body s c = finish_capture-Encodes (status api st body s).rc c
