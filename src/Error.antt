-- ===== src/Error.antt =====
-- The error taxonomy of nwep/src/error.rs: the codes, their inverse, and the check of a C return
-- code. Display has the texts.
pub mod Codes
pub mod Display
pub mod Given
mod Tests
use nwep_rs.Base.{
  ◌≡◌, refl, ◌⊎◌, inl, inr, ℤ, neg, is_negative, eq_ℤ, Bool, true, false, List, [], ◌∷◌,
  if◌then◌else◌,
}

pub data Error : Type 0 where
  config_invalid config_missing network_connect network_timeout network_closed : Error
  network_quic network_tls crypto_keygen crypto_rand crypto_sign crypto_verify : Error
  crypto_fatal_cert crypto_fatal_nodeid_mismatch crypto_fatal_challenge : Error
  crypto_fatal_server_sig crypto_fatal_client_sig proto_invalid_message : Error
  proto_invalid_method proto_invalid_header proto_connect_required proto_stream_reuse : Error
  proto_max_streams proto_flow_control proto_message_too_large proto_fatal_version : Error
  identity_generate identity_mismatch identity_not_found identity_revoked app_not_found : Error
  app_conflict app_rate_limited app_forbidden trust_invalid_entry trust_invalid_anchor : Error
  trust_stale_checkpoint trust_threshold trust_revoked trust_no_checkpoint : Error
  trust_fatal_equivocation trust_fatal_log_corrupt internal internal_alloc would_block : Error
  other : ℤ → Error

-- `Error::code`.
unfoldable pub code : Error → ℤ
code config_invalid = neg 101
code config_missing = neg 102
code network_connect = neg 201
code network_timeout = neg 202
code network_closed = neg 203
code network_quic = neg 204
code network_tls = neg 205
code crypto_keygen = neg 301
code crypto_rand = neg 302
code crypto_sign = neg 303
code crypto_verify = neg 304
code crypto_fatal_cert = neg 381
code crypto_fatal_nodeid_mismatch = neg 382
code crypto_fatal_challenge = neg 383
code crypto_fatal_server_sig = neg 384
code crypto_fatal_client_sig = neg 385
code proto_invalid_message = neg 401
code proto_invalid_method = neg 402
code proto_invalid_header = neg 403
code proto_connect_required = neg 404
code proto_stream_reuse = neg 405
code proto_max_streams = neg 406
code proto_flow_control = neg 407
code proto_message_too_large = neg 408
code proto_fatal_version = neg 481
code identity_generate = neg 501
code identity_mismatch = neg 502
code identity_not_found = neg 503
code identity_revoked = neg 504
code app_not_found = neg 601
code app_conflict = neg 602
code app_rate_limited = neg 603
code app_forbidden = neg 604
code trust_invalid_entry = neg 701
code trust_invalid_anchor = neg 702
code trust_stale_checkpoint = neg 703
code trust_threshold = neg 704
code trust_revoked = neg 705
code trust_no_checkpoint = neg 706
code trust_fatal_equivocation = neg 781
code trust_fatal_log_corrupt = neg 782
code internal = neg 801
code internal_alloc = neg 802
code would_block = neg 803
code (other c) = c

-- `Error::is_fatal`.
pub is_fatal : Error → Bool
is_fatal crypto_fatal_cert = true
is_fatal crypto_fatal_nodeid_mismatch = true
is_fatal crypto_fatal_challenge = true
is_fatal crypto_fatal_server_sig = true
is_fatal crypto_fatal_client_sig = true
is_fatal proto_fatal_version = true
is_fatal trust_fatal_equivocation = true
is_fatal trust_fatal_log_corrupt = true
is_fatal _ = false

-- The arms of the match in `Error::from_code`, in its order.
abbrev arms : List (ℤ × Error)
arms =
    (neg 101, config_invalid)
    ∷ (neg 102, config_missing)
    ∷ (neg 201, network_connect)
    ∷ (neg 202, network_timeout)
    ∷ (neg 203, network_closed)
    ∷ (neg 204, network_quic)
    ∷ (neg 205, network_tls)
    ∷ (neg 301, crypto_keygen)
    ∷ (neg 302, crypto_rand)
    ∷ (neg 303, crypto_sign)
    ∷ (neg 304, crypto_verify)
    ∷ (neg 381, crypto_fatal_cert)
    ∷ (neg 382, crypto_fatal_nodeid_mismatch)
    ∷ (neg 383, crypto_fatal_challenge)
    ∷ (neg 384, crypto_fatal_server_sig)
    ∷ (neg 385, crypto_fatal_client_sig)
    ∷ (neg 401, proto_invalid_message)
    ∷ (neg 402, proto_invalid_method)
    ∷ (neg 403, proto_invalid_header)
    ∷ (neg 404, proto_connect_required)
    ∷ (neg 405, proto_stream_reuse)
    ∷ (neg 406, proto_max_streams)
    ∷ (neg 407, proto_flow_control)
    ∷ (neg 408, proto_message_too_large)
    ∷ (neg 481, proto_fatal_version)
    ∷ (neg 501, identity_generate)
    ∷ (neg 502, identity_mismatch)
    ∷ (neg 503, identity_not_found)
    ∷ (neg 504, identity_revoked)
    ∷ (neg 601, app_not_found)
    ∷ (neg 602, app_conflict)
    ∷ (neg 603, app_rate_limited)
    ∷ (neg 604, app_forbidden)
    ∷ (neg 701, trust_invalid_entry)
    ∷ (neg 702, trust_invalid_anchor)
    ∷ (neg 703, trust_stale_checkpoint)
    ∷ (neg 704, trust_threshold)
    ∷ (neg 705, trust_revoked)
    ∷ (neg 706, trust_no_checkpoint)
    ∷ (neg 781, trust_fatal_equivocation)
    ∷ (neg 782, trust_fatal_log_corrupt)
    ∷ (neg 801, internal)
    ∷ (neg 802, internal_alloc)
    ∷ (neg 803, would_block)
    ∷ []

-- The first arm whose literal is the code, else `Other`.
pub first_arm : ℤ → List (ℤ × Error) → Error
first_arm c [] = other c
first_arm c ((k, e) ∷ rest) = if eq_ℤ c k then e else first_arm c rest

-- `Error::from_code`.
unfoldable pub from_code : ℤ → Error
unfolding first_arm
from_code c = first_arm c arms

-- `crate::Result`.
pub data Result {ℓ} (A : Type ℓ) : Type ℓ where
  ok : A → Result A
  err : Error → Result A

-- `Error::check`.
unfoldable pub check : ℤ → Result (Unit {0})
check c = if is_negative c then err (from_code c) else ok tt

-- The `?` operator.
infixl 5 ◌>>=◌
abbrev pub ◌>>=◌ {ℓ κ} : {A : Type ℓ} {B : Type κ} → Result A → (A → Result B) → Result B
ok a >>= f = f a
err e >>= f = err e

pub Result-cases {ℓ} :
    {A : Type ℓ} (r : Result A) → ((a : A) × (r ≡ ok a)) ⊎ ((e : Error) × (r ≡ err e))
Result-cases (ok a) = inl (a, refl)
Result-cases (err e) = inr (e, refl)
