-- ===== src/Client/Requests.antt =====
-- Building and submitting a request in nwep/src/client.rs: `RequestBuilder` and
-- `Client::submit_request`.
use nwep_rs.Base.{ℕ, [], ◌∷◌, ◌++◌, Bytes}
use nwep_rs.Wire.{Method, method_code}
use nwep_rs.Ffi.{
  Call, pure, lift, ◌>>=◌, checked, cstring_or_invalid, c_headers, header_array, HeaderArray,
  slice_parts, BodyArg, Pairs,
}
use nwep_rs.Client.Api.{ClientApi, Response}

pub record RequestBuilder : Type 0 where
  pub method : Method
  pub path : Bytes
  pub headers : Pairs
  pub body : Bytes

-- `Client::request`.
unfoldable pub request : Method → Bytes → RequestBuilder
request m p = record { method = m; path = p; headers = []; body = [] }

-- `RequestBuilder::header`.
unfoldable pub header : RequestBuilder → Bytes → Bytes → RequestBuilder
header b name value = record b { headers = b.headers ++ (name, value) ∷ [] }

-- `RequestBuilder::body`.
unfoldable pub with_body : RequestBuilder → Bytes → RequestBuilder
with_body b bytes = record b { body = bytes }

module _ {W : Type 0} where
  -- `RequestBuilder::with_c`.
  unfoldable pub with_c :
      {R : Type 0} → RequestBuilder → (Bytes → HeaderArray → BodyArg → Call W R) → Call W R
  with_c b f = do
    path ← lift (cstring_or_invalid b.path)
    headers ← lift (c_headers b.headers)
    f path (header_array headers) (slice_parts b.body)

  -- `RequestBuilder::send`.
  unfoldable pub send : ClientApi W → RequestBuilder → Call W Response
  unfolding with_c
  send api b = with_c b λ path headers body. do
    msg ← checked (api.send (method_code b.method) path headers body)
    pure (record { msg = msg })

  -- `RequestBuilder::submit`, up to the handle that it makes of the id.
  unfoldable pub submit_id : ClientApi W → RequestBuilder → Call W ℕ
  unfolding with_c
  submit_id api b =
      with_c b
        λ path headers body. checked (api.request_submit (method_code b.method) path headers body)

  -- `Client::submit_request`.
  unfoldable pub submit_request : ClientApi W → Method → Bytes → Pairs → Bytes → Call W ℕ
  submit_request api method path headers body = do
    cpath ← lift (cstring_or_invalid path)
    cstrings ← lift (c_headers headers)
    checked
        (api.request_submit (method_code method) cpath (header_array cstrings) (slice_parts body))
