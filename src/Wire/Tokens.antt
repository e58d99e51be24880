-- ===== src/Wire/Tokens.antt =====
-- `Status::from_token` of nwep/src/wire.rs against the tokens that the protocol gives the statuses.
use nwep_rs.Base.{
  ◌≡◌, ◌≢◌, refl, List, [], ◌∷◌, Bytes, arith, bytes_eq, bytes_eq→eq, ascii, sym, ◌∙◌, inl, inr,
  Bool-cases,
}
use nwep_rs.Wire.{
  Status, error_status, first_token, from_token, token_arms, ok_status, created, accepted,
  no_content, partial_content, moved, not_modified, bad_request, unauthorized, forbidden, not_found,
  not_allowed, conflict, gone, too_large, precondition_failed, range_not_satisfiable, rate_limited,
  unavailable, timeout, not_implemented,
}

-- The token of each status, as the documentation of the `Status` variants lists them.
unfoldable pub wire_token : Status → Bytes
wire_token ok_status = ascii "ok"
wire_token created = ascii "created"
wire_token accepted = ascii "accepted"
wire_token no_content = ascii "no-content"
wire_token partial_content = ascii "partial-content"
wire_token moved = ascii "moved"
wire_token not_modified = ascii "not-modified"
wire_token bad_request = ascii "bad-request"
wire_token unauthorized = ascii "unauthorized"
wire_token forbidden = ascii "forbidden"
wire_token not_found = ascii "not-found"
wire_token not_allowed = ascii "not-allowed"
wire_token conflict = ascii "conflict"
wire_token gone = ascii "gone"
wire_token too_large = ascii "too-large"
wire_token precondition_failed = ascii "precondition-failed"
wire_token range_not_satisfiable = ascii "range-not-satisfiable"
wire_token rate_limited = ascii "rate-limited"
wire_token unavailable = ascii "unavailable"
wire_token timeout = ascii "timeout"
wire_token not_implemented = ascii "not-implemented"
wire_token error_status = ascii "error"

-- The token of each status reads back as that status.
pub from_token-wire_token : (s : Status) → from_token (wire_token s) ≡ s
unfolding from_token bytes_eq wire_token
from_token-wire_token ok_status = refl
from_token-wire_token _ = refl

abbrev Paired : List (Bytes × Status) → Type 0
Paired [] = Unit {0}
Paired ((k, s) ∷ rest) = (wire_token s ≡ k) × Paired rest

wire_token-first_token :
    (t : Bytes) (rows : List (Bytes × Status))
    → Paired rows
    → first_token t rows ≢ error_status
    → wire_token (first_token t rows) ≡ t
unfolding first_token
wire_token-first_token t [] p h = absurd (h refl)
wire_token-first_token t ((k, s) ∷ rest) (q, p) h = elim (Bool-cases (bytes_eq t k)) [
  | inl e ↦ rw (e, first_token) (q ∙ sym (bytes_eq→eq t k e))
  | inr e ↦ rw (e, first_token) (wire_token-first_token t rest p (λ z. h (rw (e, first_token) z)))
]

arms-Paired : Paired token_arms
unfolding wire_token
arms-Paired = ground arith

-- Only the token of a status reads as that status, unless it is `Error`: every other byte string
-- reads as `Error`.
pub wire_token-from_token :
    (t : Bytes) → from_token t ≢ error_status → wire_token (from_token t) ≡ t
unfolding from_token
wire_token-from_token t h = wire_token-first_token t token_arms arms-Paired h
