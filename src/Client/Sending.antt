-- ===== src/Client/Sending.antt =====
-- `Client::send` of nwep/src/client.rs.
use nwep_rs.Base.{Bytes}
use nwep_rs.Wire.{Method}
use nwep_rs.Ffi.{Call}
use nwep_rs.Client.Api.{ClientApi, Response}
use nwep_rs.Client.Requests.{request, with_body}
use nwep_rs.Client.Requests as Requests

-- `Client::send`: the builder, with a body and no headers.
unfoldable pub send : {W : Type 0} → ClientApi W → Method → Bytes → Bytes → Call W Response
unfolding request with_body Requests.send
send api method path body = Requests.send api (with_body (request method path) body)
