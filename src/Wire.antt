-- ===== src/Wire.antt =====
-- The wire tokens of nwep/src/wire.rs: methods and statuses with their numeric codes, and the
-- token table of `Status::from_token`. The tokens that `as_str` prints come from the C library.
pub mod Tokens
use nwep_rs.Base.{ℤ, ℕ, pos, Bool, List, [], ◌∷◌, Bytes, ascii, bytes_eq, if◌then◌else◌}

pub data Method : Type 0 where
  read write update delete heartbeat head : Method

-- `Method::code`: the discriminant.
unfoldable pub method_code : Method → ℤ
method_code read = pos 0
method_code write = pos 1
method_code update = pos 2
method_code delete = pos 3
method_code heartbeat = pos 6
method_code head = pos 7

pub data Status : Type 0 where
  ok_status created accepted no_content partial_content moved not_modified bad_request : Status
  unauthorized forbidden not_found not_allowed conflict gone too_large : Status
  precondition_failed range_not_satisfiable rate_limited error_status unavailable : Status
  timeout not_implemented : Status

-- `Status::code`: the discriminant.
unfoldable pub status_code : Status → ℤ
status_code ok_status = pos 0
status_code created = pos 1
status_code accepted = pos 2
status_code no_content = pos 3
status_code partial_content = pos 4
status_code moved = pos 5
status_code not_modified = pos 6
status_code bad_request = pos 7
status_code unauthorized = pos 8
status_code forbidden = pos 9
status_code not_found = pos 10
status_code not_allowed = pos 11
status_code conflict = pos 12
status_code gone = pos 13
status_code too_large = pos 14
status_code precondition_failed = pos 15
status_code range_not_satisfiable = pos 16
status_code rate_limited = pos 17
status_code error_status = pos 18
status_code unavailable = pos 19
status_code timeout = pos 20
status_code not_implemented = pos 21

-- The arms of the match in `Status::from_token`, in its order.
abbrev token_arms : List (Bytes × Status)
token_arms =
    (ascii "ok", ok_status)
    ∷ (ascii "created", created)
    ∷ (ascii "accepted", accepted)
    ∷ (ascii "no-content", no_content)
    ∷ (ascii "partial-content", partial_content)
    ∷ (ascii "moved", moved)
    ∷ (ascii "not-modified", not_modified)
    ∷ (ascii "bad-request", bad_request)
    ∷ (ascii "unauthorized", unauthorized)
    ∷ (ascii "forbidden", forbidden)
    ∷ (ascii "not-found", not_found)
    ∷ (ascii "not-allowed", not_allowed)
    ∷ (ascii "conflict", conflict)
    ∷ (ascii "gone", gone)
    ∷ (ascii "too-large", too_large)
    ∷ (ascii "precondition-failed", precondition_failed)
    ∷ (ascii "range-not-satisfiable", range_not_satisfiable)
    ∷ (ascii "rate-limited", rate_limited)
    ∷ (ascii "unavailable", unavailable)
    ∷ (ascii "timeout", timeout)
    ∷ (ascii "not-implemented", not_implemented)
    ∷ []

-- The first arm whose literal is the token, else `Status::Error`.
pub first_token : Bytes → List (Bytes × Status) → Status
first_token t [] = error_status
first_token t ((k, s) ∷ rest) = if bytes_eq t k then s else first_token t rest

-- `Status::from_token`.
unfoldable pub from_token : Bytes → Status
unfolding first_token
from_token t = first_token t token_arms
