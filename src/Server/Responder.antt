-- ===== src/Server/Responder.antt =====
-- `Responder`, `CapturingResponder` and the handler's trampoline of nwep/src/server.rs.
pub mod Chain
pub mod Capturing
use nwep_rs.Base.{
  ℤ, ℕ, pos, Bool, true, false, not, Option, none, some, List, [], ◌∷◌, Bytes, take, replicate,
  ascii, eq_ℤ, if◌then◌else◌,
}
use nwep_rs.Error.{code, internal}
use nwep_rs.Wire
use nwep_rs.Wire.{Status, status_code}
use nwep_rs.Ffi.{BodyArg, slice_parts, HeaderArray, header_array, Pairs, cstring}
use nwep_rs.Sizing.{Producer}

pub record ByteRange : Type 0 where
  pub start : ℕ
  pub end : ℕ

-- The calls of libnwep on one request's response, a parameter. A status is passed by its code: its
-- token is a table of the library.
pub record ResponseApi (W : Type 0) : Type 0 where
  pub response_ok : BodyArg → W → ℤ × W
  pub response_status : ℤ → BodyArg → W → ℤ × W
  pub response_not_modified : Bytes → W → ℤ × W
  pub response_partial : BodyArg → List ByteRange → Bytes → W → ℤ × W
  pub response_range_not_satisfiable : ℕ → W → ℤ × W
  pub response_header : Bytes → Bytes → W → W
  pub begin_stream : Bytes → ℤ → HeaderArray → W → ℤ × W
  pub response_blit : BodyArg → W → ℤ × W
  pub response_relay : ℕ → W → ℤ × W
  pub response_capture : Producer W

-- What a `Responder` writes: the trampoline's `rc`, and the library.
pub record Slot (W : Type 0) : Type 0 where
  pub rc : ℤ
  pub world : W

-- `NWEP_DEFER`.
abbrev pub defer_code : ℤ
defer_code = pos 1

-- `CString::new(s).unwrap_or_default()`.
unfoldable pub cstring_or_empty : Bytes → Bytes
cstring_or_empty s = elim (cstring s) [ none ↦ [] | some c ↦ c ]

-- The `filter_map` of `Responder::stream`: a header with a NUL is left out.
unfoldable pub stream_headers : Pairs → Pairs
stream_headers [] = []
stream_headers ((n, v) ∷ hs) = elim (cstring n) [
  | none ↦ stream_headers hs
  | some n' ↦ elim (cstring v) [ none ↦ stream_headers hs | some v' ↦ (n', v') ∷ stream_headers hs ]
]

-- `*self.rc = call`.
abbrev pub set_rc : {W : Type 0} → ℤ × W → Slot W
set_rc (rc, w) = record { rc = rc; world = w }

module _ {W : Type 0} (api : ResponseApi W) where
  unfoldable pub ok : Bytes → Slot W → Slot W
  ok body s = set_rc (api.response_ok (slice_parts body) s.world)

  unfoldable pub status : Status → Bytes → Slot W → Slot W
  status st body s = set_rc (api.response_status (status_code st) (slice_parts body) s.world)

  -- `Responder::header`.
  unfoldable pub header : Bytes → Bytes → Slot W → Slot W
  header name value s = elim (cstring name) [
    | none ↦ s
    | some n ↦ elim (cstring value) [
      | none ↦ s
      | some v ↦ record s { world = api.response_header n v s.world }
    ]
  ]

  unfoldable pub not_found : Slot W → Slot W
  not_found = status Wire.not_found []

  unfoldable pub no_content : Slot W → Slot W
  no_content = status Wire.no_content []

  unfoldable pub not_allowed : Slot W → Slot W
  not_allowed = status Wire.not_allowed []

  unfoldable pub gone : Slot W → Slot W
  gone = status Wire.gone []

  unfoldable pub too_large : Slot W → Slot W
  too_large = status Wire.too_large []

  unfoldable pub precondition_failed : Slot W → Slot W
  precondition_failed = status Wire.precondition_failed []

  unfoldable pub unavailable : Slot W → Slot W
  unavailable = status Wire.unavailable []

  unfoldable pub timeout : Slot W → Slot W
  timeout = status Wire.timeout []

  unfoldable pub not_implemented : Slot W → Slot W
  not_implemented = status Wire.not_implemented []

  unfoldable pub created : Bytes → Slot W → Slot W
  created body = status Wire.created body

  unfoldable pub accepted : Bytes → Slot W → Slot W
  accepted body = status Wire.accepted body

  unfoldable pub bad_request : Bytes → Slot W → Slot W
  bad_request body = status Wire.bad_request body

  unfoldable pub unauthorized : Bytes → Slot W → Slot W
  unauthorized body = status Wire.unauthorized body

  unfoldable pub forbidden : Bytes → Slot W → Slot W
  forbidden body = status Wire.forbidden body

  unfoldable pub conflict : Bytes → Slot W → Slot W
  conflict body = status Wire.conflict body

  unfoldable pub error : Bytes → Slot W → Slot W
  error body = status Wire.error_status body

  unfoldable pub moved : Bytes → Slot W → Slot W
  moved location s = status Wire.moved [] (header (ascii "location") location s)

  unfoldable pub rate_limited : Bytes → Slot W → Slot W
  rate_limited after s = status Wire.rate_limited [] (header (ascii "retry-after") after s)

  unfoldable pub not_modified : Bytes → Slot W → Slot W
  not_modified etag s = set_rc (api.response_not_modified (cstring_or_empty etag) s.world)

  unfoldable pub partial : Bytes → List ByteRange → Bytes → Slot W → Slot W
  partial body ranges ctype s =
      set_rc (api.response_partial (slice_parts body) ranges (cstring_or_empty ctype) s.world)

  unfoldable pub range_not_satisfiable : ℕ → Slot W → Slot W
  range_not_satisfiable total s = set_rc (api.response_range_not_satisfiable total s.world)

  unfoldable pub stream : Bytes → Status → Pairs → Slot W → Slot W
  unfolding cstring_or_empty
  stream path st headers s = set_rc (
      api.begin_stream (cstring_or_empty path) (status_code st)
        (header_array (stream_headers headers)) s.world)

  unfoldable pub blit : Bytes → Slot W → Slot W
  blit frame s = set_rc (api.response_blit (slice_parts frame) s.world)

  unfoldable pub relay : ℕ → Slot W → Slot W
  relay origin s = set_rc (api.response_relay origin s.world)

  -- `CapturingResponder::finish_capture`, with the reply and the frame.
  unfoldable pub finish_capture : ℤ × W → Slot W × Bytes
  finish_capture (build_rc, w) =
      if not (eq_ℤ build_rc (pos 0))
      then (record { rc = build_rc; world = w }, [])
      else let (probed, w₁) = api.response_capture none 0 w in
        elim (eq_ℤ probed.0 (pos 0)) [
          | false ↦ (record { rc = pos 0; world = w₁ }, [])
          | true ↦
              let (filled, w₂) =
                api.response_capture (some (replicate probed.1.len 0)) probed.1.len w₁ in
              if eq_ℤ filled.0 (pos 0)
              then (record { rc = pos 0; world = w₂ }, take filled.1.len filled.1.buf)
              else (record { rc = pos 0; world = w₂ }, [])
        ]

  -- `CapturingResponder::ok` and `CapturingResponder::status`.
  unfoldable pub capture_ok : Bytes → Slot W → Slot W × Bytes
  capture_ok body s = finish_capture (api.response_ok (slice_parts body) s.world)

  unfoldable pub capture_status : Status → Bytes → Slot W → Slot W × Bytes
  capture_status st body s =
      finish_capture (api.response_status (status_code st) (slice_parts body) s.world)

module _ {W : Type 0} where
  unfoldable pub defer : Slot W → Slot W
  defer s = record s { rc = defer_code }

  -- `Responder::finish`.
  unfoldable pub finish : ℤ → Slot W → Slot W
  finish rc s = record s { rc = rc }

-- How a handler ends: with its reply, or by a panic.
pub data Ran (W : Type 0) : Type 0 where
  replied : Slot W → Ran W
  panicked : W → Ran W

unfoldable pub returned : {W : Type 0} → Ran W → ℤ × W
returned (replied s) = (s.rc, s.world)
returned (panicked w) = (code internal, w)

-- `trampoline`.
unfoldable pub trampoline : {W : Type 0} → (Slot W → Ran W) → W → ℤ × W
unfolding returned
trampoline handler w = returned (handler (record { rc = pos 0; world = w }))
