-- ===== src/Client/Submitting.antt =====
-- What a request of nwep/src/client.rs passes to libnwep, and what becomes of its handle.
use nwep_rs.Base.{◌≡◌, ◌⊎◌, true, false, ◌||◌, none, some, Bytes, arith}
use nwep_rs.Error.{Error, ok, err, proto_invalid_header}
use nwep_rs.Wire.{Method, method_code}
use nwep_rs.Ffi.{has_nul, header_array, slice_parts, Pairs, checked}
use nwep_rs.Ffi.Clean.{has_nul_header, cstring_or_invalid_lem, c_headers_lem}
use nwep_rs.Client.Api.{ClientApi, Response}
use nwep_rs.Client.Requests.{RequestBuilder, submit_id, submit_request}
use nwep_rs.Client.Handles.{RequestHandle, poll_request, handle_poll, cancel, handle_drop}

module _ {W : Type 0} (api : ClientApi W) (method : Method) (path : Bytes) (headers : Pairs)
    (body : Bytes) (w : W) where
  abbrev pub built : RequestBuilder
  built = record { method = method; path = path; headers = headers; body = body }

  -- A request whose path or headers have a NUL is refused, by each way of submitting it, before
  -- libnwep is called. Any other reaches `nwep_client_request_submit` with its path, its headers and
  -- its body unchanged, and its result is the id or the error of the return code.
  pub submit_request_lem :
      ((has_nul path || has_nul_header headers ≡ true)
        × (submit_request api method path headers body w ≡ (err proto_invalid_header, w))
        × (submit_id api built w ≡ (err proto_invalid_header, w)))
      ⊎ ((has_nul path || has_nul_header headers ≡ false)
          × (submit_request api method path headers body w
              ≡ checked
                  (api.request_submit
                    (method_code method)
                    path
                    (header_array headers)
                    (slice_parts body))
                  w)
          × (submit_id api built w
              ≡ checked
                  (api.request_submit
                    (method_code method)
                    path
                    (header_array headers)
                    (slice_parts body))
                  w))
  unfolding submit_request submit_id
  submit_request_lem = ground (arith, cstring_or_invalid_lem path, c_headers_lem headers)

module _ {W : Type 0} (api : ClientApi W) (h : RequestHandle) (w : W) where
  -- A poll of a handle that is not done gives what the managed runtime's poll gives. If the
  -- request is still in flight, cancelling the handle or dropping it cancels the request, once;
  -- after a poll that returned a response or an error, neither calls libnwep.
  pub handle_poll_lem :
      h.done ≡ false
      → let (r, h', w') = handle_poll api h w in
        (r ≡ (poll_request api h.id w).0)
        × (w' ≡ (poll_request api h.id w).1)
        × (((r ≡ ok none)
              × (cancel api h' w' ≡ api.request_cancel h.id w')
              × (handle_drop api h' w' ≡ api.request_cancel h.id w'))
            ⊎ ((cancel api h' w' ≡ w')
                × (handle_drop api h' w' ≡ w')
                × (((e : Error) × (r ≡ err e)) ⊎ ((resp : Response) × (r ≡ ok (some resp))))))
  unfolding handle_poll poll_request cancel handle_drop
  handle_poll_lem fresh = ground (arith, fresh)
