-- ===== src/Client/Handles.antt =====
-- A request in flight in nwep/src/client.rs: `Client::poll_request`, and `RequestHandle`, which cancels
-- on drop.
use nwep_rs.Base.{ℤ, ℕ, pos, Bool, true, false, Option, none, some, eq_ℤ, if◌then◌else◌}
use nwep_rs.Error.{Result, ok, err, code, from_code, would_block}
use nwep_rs.Ffi.{Call, pure, ◌>>=◌}
use nwep_rs.Client.Api.{ClientApi, Response}
use nwep_rs.Client.Requests.{RequestBuilder, submit_id}

-- The match on the return code of `nwep_client_request_poll`.
unfoldable pub poll_result : ℤ → ℕ → Result (Option Response)
poll_result rc out =
    if eq_ℤ rc (pos 0)
    then ok (some (record { msg = out }))
    else if eq_ℤ rc (code would_block)
    then ok none
    else err (from_code rc)

pub record RequestHandle : Type 0 where
  pub id : ℕ
  pub done : Bool

module _ {W : Type 0} (api : ClientApi W) where
  -- `Client::poll_request`.
  unfoldable pub poll_request : ℕ → Call W (Option Response)
  unfolding poll_result
  poll_request id w = let (out, w') = api.request_poll id w in (poll_result out.0 out.1, w')

  -- `RequestBuilder::submit`.
  unfoldable pub submit : RequestBuilder → Call W RequestHandle
  unfolding submit_id
  submit b = do id ← submit_id api b; pure (record { id = id; done = false })

  -- `RequestHandle::poll`: the three arms, with what each does to `done`.
  unfoldable pub handle_poll : RequestHandle → W → Result (Option Response) × RequestHandle × W
  handle_poll h w =
      let (out, w') = api.request_poll h.id w in
      if eq_ℤ out.0 (pos 0)
      then (ok (some (record { msg = out.1 })), record h { done = true }, w')
      else if eq_ℤ out.0 (code would_block)
      then (ok none, h, w')
      else (err (from_code out.0), record h { done = true }, w')

  -- `RequestHandle::cancel_inner`.
  unfoldable pub cancel_inner : RequestHandle → W → RequestHandle × W
  cancel_inner h w =
      if h.done then (h, w) else (record h { done = true }, api.request_cancel h.id w)

  -- `Drop for RequestHandle`.
  unfoldable pub handle_drop : RequestHandle → W → W
  unfolding cancel_inner
  handle_drop h w = (cancel_inner h w).1

  -- `RequestHandle::cancel`: it consumes the handle, so the handle is dropped after it.
  unfoldable pub cancel : RequestHandle → W → W
  unfolding cancel_inner handle_drop
  cancel h w = let (h', w') = cancel_inner h w in handle_drop h' w'
