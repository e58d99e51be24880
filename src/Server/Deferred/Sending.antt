-- ===== src/Server/Deferred/Sending.antt =====
-- What `DeferredResponder::send` of nwep/src/server.rs has done where it fails.
use nwep_rs.Base.{◌≡◌, refl, true, false, ◌||◌, [], ◌∷◌, ◌++◌, Bytes, append-nil, arith}
use nwep_rs.Error.{ok, err, check, proto_invalid_header}
use nwep_rs.Wire.{Status, status_code}
use nwep_rs.Ffi.{Pairs, has_nul, slice_parts}
use nwep_rs.Ffi.Clean.{has_nul_header, cstring_or_invalid_lem}
use nwep_rs.Server.Deferred.{RespondApi, call_checked, send_headers, send}

module _ {W : Type 0} (api : RespondApi W) where
  -- The library accepts each of some headers, from one state to another.
  pub data Staged : Pairs → W → W → Type 0 where
    none_left : (w : W) → Staged [] w w
    staged :
        (n v : Bytes) (hs : Pairs) (w w' : W)
        → check (api.respond_header n v w).0 ≡ ok tt
        → Staged hs (api.respond_header n v w).1 w'
        → Staged ((n, v) ∷ hs) w w'

  send_headers-Staged :
      (hs rest : Pairs) {w w' : W}
      → has_nul_header hs ≡ false
      → Staged hs w w'
      → send_headers api (hs ++ rest) w ≡ send_headers api rest w'
  unfolding send_headers
  send_headers-Staged [] rest clean (none_left w) = refl
  send_headers-Staged _ rest clean (staged n v hs w w' a s) = ground (
    arith,
    cstring_or_invalid_lem n,
    cstring_or_invalid_lem v,
    a,
    send_headers-Staged hs rest (ground arith) s,
  )

  -- A deferred answer whose headers hold no NUL and are accepted is sent, with the result of the
  -- library's answer; and if a header with a NUL follows them, the error is of that header, the
  -- headers before it have been passed to the library, and it is not told to answer.
  pub send_lem :
      (hs rest : Pairs) (n v : Bytes) (st : Status) (body : Bytes) {w w' : W}
      → has_nul_header hs ≡ false
      → has_nul n || has_nul v ≡ true
      → Staged hs w w'
      → (send api hs st body w ≡ call_checked (api.respond (status_code st) (slice_parts body)) w')
        × (send api (hs ++ (n, v) ∷ rest) st body w ≡ (err proto_invalid_header, w'))
  unfolding send send_headers
  send_lem hs rest n v st body {w} {w'} clean nul s =
      let all : send_headers api hs w ≡ (ok tt, w') =
        rw (append-nil hs) at (send_headers-Staged hs [] clean s) in
      (
        ground (arith, all),
        ground (
          arith,
          send_headers-Staged hs ((n, v) ∷ rest) clean s,
          cstring_or_invalid_lem n,
          cstring_or_invalid_lem v,
        ),
      )
