-- ===== src/Server/Responder/Chain.antt =====
-- What reaches libnwep when a handler of nwep/src/server.rs sets headers and then answers.
use nwep_rs.Base.{pos, ◌≡◌, refl, ◌∙◌, ◌||◌, [], ◌∷◌, Bytes, arith, if◌then◌else◌}
use nwep_rs.Wire.{Status, status_code}
use nwep_rs.Ffi.{has_nul, Pairs, header_array, slice_parts, cstring}
use nwep_rs.Ffi.Clean.{c_reads, c_reads-header_array}
use nwep_rs.Server.Responder.{
  ResponseApi, Slot, header, status, stream_headers, trampoline, replied,
}

-- The headers that hold no NUL, in their order.
abbrev pub without_nul : Pairs → Pairs
without_nul [] = []
without_nul ((n, v) ∷ hs) =
    if has_nul n || has_nul v then without_nul hs else (n, v) ∷ without_nul hs

stream_headers-without_nul : (hs : Pairs) → stream_headers hs ≡ without_nul hs
unfolding stream_headers cstring
stream_headers-without_nul [] = refl
stream_headers-without_nul ((n, v) ∷ hs) = ground (arith, stream_headers-without_nul hs)

module _ {W : Type 0} (api : ResponseApi W) where
  -- A chain of `header` calls.
  abbrev pub headers_on : Pairs → Slot W → Slot W
  headers_on [] s = s
  headers_on ((n, v) ∷ hs) s = headers_on hs (header api n v s)

  -- The library's state after some headers.
  abbrev pub passed : Pairs → W → W
  passed [] w = w
  passed ((n, v) ∷ hs) w = passed hs (api.response_header n v w)

  headers_on-passed :
      (hs : Pairs) (s : Slot W)
      → headers_on hs s ≡ record { rc = s.rc; world = passed (without_nul hs) s.world }
  unfolding header cstring
  headers_on-passed [] s = refl
  headers_on-passed ((n, v) ∷ hs) s = ground (arith, headers_on-passed hs (header api n v s))

  -- A handler that chains headers and answers with a status returns the code of that call of the
  -- library, which comes after exactly the headers without a NUL, in their order; the others are
  -- left out without an error. A streamed response with these headers has exactly the same ones in
  -- the array that C reads.
  pub status-chain :
      (hs : Pairs) (st : Status) (body : Bytes) (w : W)
      → (trampoline (λ s. replied (status api st body (headers_on hs s))) w
          ≡ api.response_status (status_code st) (slice_parts body) (passed (without_nul hs) w))
        × (c_reads (header_array (stream_headers hs)) ≡ without_nul hs)
  unfolding trampoline status
  status-chain hs st body w =
      let e = headers_on-passed hs (record { rc = pos 0; world = w }) in
      (rw e refl, c_reads-header_array (stream_headers hs) ∙ stream_headers-without_nul hs)
