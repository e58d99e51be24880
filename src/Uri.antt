-- ===== src/Uri.antt =====
-- nwep/src/uri.rs: a parsed web:// address. The grammar is libnwep's.
use nwep_rs.Base.{ℤ, ℕ, Option, none, some, [], Bytes, take, ◌==◌, if◌then◌else◌}
use nwep_rs.Error.{Result, ok, err, check, proto_invalid_message, ◌>>=◌}
use nwep_rs.Utf8.{is_utf8}
use nwep_rs.Identity.{NodeId, from_bytes}

-- `Uri`.
pub record Uri : Type 0 where
  pub node_id : NodeId
  pub port : ℕ
  pub path : Bytes

-- `nwep_uri`: the path is a null pointer, or the bytes from the pointer on.
pub record RawUri : Type 0 where
  pub node_id : Bytes
  pub port : ℕ
  pub path : Option Bytes
  pub path_len : ℕ

-- The copy of the path in `parse`.
unfoldable pub path_of : RawUri → Result Bytes
path_of out = elim out.path [
  | none ↦ ok []
  | some bytes ↦
      if out.path_len == 0
      then ok []
      else if is_utf8 (take out.path_len bytes)
      then ok (take out.path_len bytes)
      else err proto_invalid_message
]

-- `Uri::parse`, also `from_str`, where `uri_parse` is libnwep's.
unfoldable pub parse : (Bytes → ℤ × RawUri) → Bytes → Result Uri
unfolding path_of from_bytes
parse uri_parse input =
    let (rc, out) = uri_parse input in
    check rc >>= λ _. path_of out >>= λ path.
    ok (record { node_id = from_bytes out.node_id; port = out.port; path = path })
