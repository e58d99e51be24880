-- ===== src/Runtime/AsyncApi.antt =====
-- The handles of the async side in nwep/src/runtime.rs: `AsyncRequestBuilder`, whose request goes through
-- `AsyncClient::dispatch`, and `RunningServer`, which talks to the owner thread of ServerLoop.
use nwep_rs.Base.{ℕ, Bool, true, false, Option, none, some, [], ◌∷◌, ◌++◌, Bytes}
use nwep_rs.Error.{Result, err, config_missing, network_closed}
use nwep_rs.Ffi.{Pairs}
use nwep_rs.Wire.{Method}
use nwep_rs.Client.{Response}
use nwep_rs.Dht.{DhtMetrics}
use nwep_rs.Runtime.ClientLoop.{Command, dispatch}

-- `AsyncRequestBuilder`.
pub record AsyncRequestBuilder : Type 0 where
  pub method : Method
  pub path : Bytes
  pub headers : Pairs
  pub body : Bytes

-- `AsyncClient::request`.
unfoldable pub request : Method → Bytes → AsyncRequestBuilder
request method path = record { method = method; path = path; headers = []; body = [] }

-- `AsyncRequestBuilder::header` and `body`.
unfoldable pub header : AsyncRequestBuilder → Bytes → Bytes → AsyncRequestBuilder
header b name value = record b { headers = b.headers ++ (name, value) ∷ [] }

unfoldable pub with_body : AsyncRequestBuilder → Bytes → AsyncRequestBuilder
with_body b body = record b { body = body }

-- The command that `dispatch` sends, with the number of its reply channel.
unfoldable pub command : AsyncRequestBuilder → ℕ → Command
command b reply = record {
  method = b.method;
  path = b.path;
  headers = b.headers;
  body = b.body;
  reply = reply;
}

-- `AsyncRequestBuilder::send`: the command that goes into the channel, and the result, from whether the
-- channel took it and what was sent on the reply channel.
unfoldable pub send :
    AsyncRequestBuilder → ℕ → Bool → Option (Result Response) → Command × Result Response
unfolding command
send b reply sent answer = (command b reply, dispatch sent answer)

-- `AsyncClient::send`.
unfoldable pub send_body :
    Method → Bytes → Bytes → ℕ → Bool → Option (Result Response) → Command × Result Response
unfolding send request with_body
send_body method path body reply sent answer =
    send (with_body (request method path) body) reply sent answer

-- `RunningServer`: `has_dht` is whether it has the channel of commands, and `joins` whether its thread is
-- still to be joined.
pub record RunningServer : Type 0 where
  pub node_id : ℕ
  pub port : ℕ
  pub stop : Bool
  pub joins : Bool
  pub has_dht : Bool

-- `RunningServer::resolve`, from whether the channel took the command and what was sent on the reply
-- channel, `none` where its sender was dropped.
unfoldable pub resolve : RunningServer → Bool → Option (Result ℕ) → Result ℕ
resolve s sent answer = elim s.has_dht [
  | false ↦ err config_missing
  | true ↦ elim sent [
    | false ↦ err network_closed
    | true ↦ elim answer [ none ↦ err network_closed | some r ↦ r ]
  ]
]

-- `RunningServer::dht_metrics`.
unfoldable pub dht_metrics : RunningServer → Bool → Option DhtMetrics → Option DhtMetrics
dht_metrics s sent answer = elim s.has_dht [
  | false ↦ none
  | true ↦ elim sent [ false ↦ none | true ↦ answer ]
]

-- `RunningServer::shutdown`, and its drop.
unfoldable pub shutdown : RunningServer → RunningServer
shutdown s = record s { stop = true; joins = false }

unfoldable pub drop : RunningServer → RunningServer
drop s = record s { stop = true }
