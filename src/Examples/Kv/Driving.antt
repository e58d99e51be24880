-- ===== src/Examples/Kv/Driving.antt =====
-- The client of nwep/examples/nwkv.rs, from its connection on, with what it prints.
use nwep_rs.Base.{ℤ, ℕ, Option, none, some, List, [], ◌∷◌, Bytes, ascii}
use nwep_rs.Error.{ok}
use nwep_rs.Ffi.{Call, pure, ◌>>=◌}
use nwep_rs.Wire.{Status, read, write, delete}
use nwep_rs.Message.Reading.{ReadApi}
use nwep_rs.Message.Reading
use nwep_rs.Client.{ClientApi, Response, tick}
use nwep_rs.Client.Sending.{send}
use nwep_rs.Client.Reading.{ReaderApi, poll_notify}
use nwep_rs.Runtime.Opening.{status_or_error}
use nwep_rs.Examples.Kv.{unwrap_or}

-- The lines that `main` prints, in their order.
pub record Printed : Type 0 where
  pub written : Status
  pub event : Option Bytes
  pub value : Status × Bytes
  pub deleted : Status
  pub gone : Status

module _ {W : Type 0} (api : ClientApi W) (reader : ReaderApi W) (messages : ℕ → ReadApi) where
  -- `r.status().unwrap_or(Status::Error)`.
  unfoldable pub status_of : Response → Status
  unfolding status_or_error
  status_of r = status_or_error (Reading.status (messages r.msg))

  -- The loop that waits for the notice, over the readings of the clock.
  unfoldable pub await_notice : List ℤ → Call W (Option Bytes)
  await_notice [] = pure none
  await_notice (now ∷ nows) = do
    _ ← tick api now
    (λ w.
        let (notice, w') = poll_notify reader w in
        elim notice [
          | none ↦ await_notice nows w'
          | some n ↦ (
            ok (some (unwrap_or (ascii "?") (Reading.header (messages n.msg) (ascii ":event")))),
            w',
          )
        ])

  -- `main`, with 1000 readings of the clock.
  unfoldable pub client_main : List ℤ → Call W Printed
  unfolding send status_of await_notice
  client_main nows = do
    w ← send api write (ascii "/greeting") (ascii "hello kv")
    event ← await_notice nows
    r ← send api read (ascii "/greeting") []
    d ← send api delete (ascii "/greeting") []
    g ← send api read (ascii "/greeting") []
    pure (record {
      written = status_of w;
      event = event;
      value = (status_of r, Reading.body (messages r.msg));
      deleted = status_of d;
      gone = status_of g;
    })
