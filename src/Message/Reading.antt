-- ===== src/Message/Reading.antt =====
-- The readers of a message in nwep/src/client.rs (`Response`) and nwep/src/server.rs (`Request`).
use nwep_rs.Base.{
  ℕ, ◌≡◌, ◌≢◌, ◌↔◌, ◌∙◌, sym, ap, Bool, true, Option, none, some, [], Bytes, take, ascii, ◌==◌,
  if◌then◌else◌, arith, inl, inr, Bool-cases, Option-cases,
}
use nwep_rs.Ffi.{cstring}
use nwep_rs.Wire.{Status, error_status, from_token}
use nwep_rs.Wire.Tokens.{wire_token, from_token-wire_token, wire_token-from_token}

-- `nwep_message_get_*` on one message, a parameter; `utf8` is whether the bytes decode, as
-- `CStr::to_str` decides.
pub record ReadApi : Type 0 where
  pub get_status : Option Bytes
  pub get_header : Bytes → Option Bytes
  pub get_body : Option Bytes
  pub body_len : ℕ
  pub utf8 : Bytes → Bool

module _ (api : ReadApi) where
  -- `CStr::to_str().unwrap_or("error")`.
  unfoldable pub decoded : Bytes → Bytes
  decoded t = if api.utf8 t then t else ascii "error"

  -- `Response::status`.
  unfoldable pub status : Option Status
  unfolding decoded
  status = elim api.get_status [ none ↦ none | some t ↦ some (from_token (decoded t)) ]

  -- `Response::header` and `Request::header`.
  unfoldable pub header : Bytes → Option Bytes
  header name = elim (cstring name) [
    | none ↦ none
    | some n ↦ elim (api.get_header n) [
      | none ↦ none
      | some v ↦ if api.utf8 v then some v else none
    ]
  ]

  -- `Request::path`.
  unfoldable pub path : Option Bytes
  path = header (ascii ":path")

  -- `Response::body` and `Request::body`.
  unfoldable pub body : Bytes
  body = elim api.get_body [
    | none ↦ []
    | some b ↦ if api.body_len == 0 then [] else take api.body_len b
  ]

  decoded-wire_token :
      (t : Bytes) (s : Status) → s ≢ error_status → from_token (decoded t) ≡ s → t ≡ wire_token s
  unfolding decoded wire_token
  decoded-wire_token t s ne e = elim (Bool-cases (api.utf8 t)) [
    | inl v ↦
        let read : from_token t ≡ s = ground (arith, v) in
        sym (wire_token-from_token t (λ z. ne (sym read ∙ z))) ∙ ap wire_token read
    | inr v ↦
        let read : from_token (ascii "error") ≡ s = ground (arith, v) in
        absurd (ne (sym read ∙ from_token-wire_token error_status))
  ]

  -- A status other than `Error` whose token decodes as UTF-8 is read exactly if the message
  -- carries that token.
  pub status_iff :
      (s : Status)
      → s ≢ error_status
      → api.utf8 (wire_token s) ≡ true
      → (api.get_status ≡ some (wire_token s)) ↔ (status ≡ some s)
  unfolding status decoded
  status_iff s ne u = (
    λ g. ground (arith, g, u, from_token-wire_token s),
    λ h. elim (Option-cases api.get_status) [
      | inl n ↦ absurd (ground (arith, n))
      | inr (t, q) ↦ q ∙ ap some (decoded-wire_token t s ne (ground (arith, q)))
    ],
  )
