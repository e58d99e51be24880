-- ===== src/Server/Reading.antt =====
-- The readers of a request and of a server in nwep/src/server.rs: the range of a request, the peer and the
-- codec of a connection, the counters, the drain and the shard of a connection id.
pub mod Ranges
use nwep_rs.Base.{
  ℤ, ℕ, pos, negsuc, ◌+◌, ◌*◌, ◌%◌, ◌^◌, Bool, true, false, not, Option, none, some, List, [], ◌∷◌,
  Bytes, length, map, replicate, take, leb, ltb, eq_ℤ, is_negative, if◌then◌else◌,
}
use nwep_rs.Error.{Error, Result, ok, err, check, from_code, proto_invalid_header, ◌>>=◌}
use nwep_rs.Ffi.{Call, cstring, cstring_or_invalid}
use nwep_rs.Identity.{NodeId, from_bytes}
use nwep_rs.Client.Reading.{Compression, compression_of}
use nwep_rs.Server.Responder.{ByteRange}

-- `RangeOutcome`.
pub data RangeOutcome : Type 0 where
  full unsatisfiable : RangeOutcome
  ranges : List ByteRange → RangeOutcome

-- `MAX_RANGES`.
abbrev pub max_ranges : ℕ
max_ranges = 16

-- What `nwep_request_range` leaves: the code, the array of the ranges and their number.
pub record RangeAnswer : Type 0 where
  pub rc : ℤ
  pub out : List ByteRange
  pub count : ℕ

-- `Metrics`, which has the fields of `nwep_server_metrics`.
pub record Metrics : Type 0 where
  pub connections_active : ℕ
  pub connections_accepted : ℕ
  pub connections_refused : ℕ
  pub connections_closed : ℕ
  pub bytes_received : ℕ
  pub bytes_sent : ℕ
  pub datagrams_received : ℕ
  pub datagrams_sent : ℕ
  pub requests_dispatched : ℕ
  pub requests_shed : ℕ
  pub parked_active : ℕ
  pub load : ℤ

-- The calls of libnwep on a request, on a server and on connection ids, a parameter.
pub record ServerReaderApi (W : Type 0) : Type 0 where
  pub request_is_fresh : Bytes → ℤ
  -- the length of the resource, the tag or null, the array and its size
  pub request_range : ℕ → Option Bytes → List ByteRange → ℕ → RangeAnswer
  pub server_get_peer_nodeid : ℕ → W → ℤ × Bytes
  pub server_conn_compression : ℕ → W → ℤ
  pub server_fd : W → ℕ
  pub server_next_timeout_ms : ℤ → W → ℤ
  pub server_tick : ℤ → W → ℤ × W
  pub server_local_port : W → ℕ
  pub server_local_nodeid : W → ℤ × Bytes
  pub server_metrics_get : W → Metrics
  pub server_load : W → ℤ
  pub server_set_overloaded : ℤ → W → W
  pub server_last_handshake_error : W → ℤ
  pub server_drain : W → ℤ × W
  pub server_is_drained : W → ℤ
  pub reuse_port_supported : ℤ
  pub cid_shard_id : Bytes → ℤ

-- The node id of an out-parameter.
unfoldable pub checked_id : ℤ × Bytes → Result NodeId
unfolding from_bytes
checked_id (rc, bytes) = check rc >>= λ _. ok (from_bytes bytes)

abbrev blank_range : ByteRange
blank_range = record { start = 0; end = 0 }

abbrev pub no_ranges : List ByteRange
no_ranges = replicate max_ranges blank_range

-- The match on the code in `range`; `none` is the panic of the slice.
unfoldable pub outcome : RangeAnswer → Option (Result RangeOutcome)
outcome a =
    if eq_ℤ a.rc (pos 0)
    then (if leb a.count (length a.out) then some (ok (ranges (take a.count a.out))) else none)
    else if eq_ℤ a.rc (pos 2)
    then some (ok unsatisfiable)
    else if eq_ℤ a.rc (pos 1)
    then some (ok full)
    else some (err (from_code a.rc))

-- The tag as a C string, where there is one.
unfoldable pub tag : Option Bytes → Result (Option Bytes)
tag none = ok none
tag (some e) = cstring_or_invalid e >>= λ c. ok (some c)

module _ {W : Type 0} (api : ServerReaderApi W) where
  -- `Request::is_fresh`.
  unfoldable pub is_fresh : Bytes → Bool
  is_fresh etag = elim (cstring etag) [
    | none ↦ false
    | some c ↦ not (eq_ℤ (api.request_is_fresh c) (pos 0))
  ]

  -- `Request::range`.
  unfoldable pub range : ℕ → Option Bytes → Option (Result RangeOutcome)
  unfolding tag outcome
  range total_len etag = elim (tag etag) [
    | err e ↦ some (err e)
    | ok etag_c ↦ outcome (api.request_range total_len etag_c no_ranges max_ranges)
  ]

  -- `Request::peer_node_id` and `Server::peer_node_id`.
  unfoldable pub peer_node_id : ℕ → W → Result NodeId
  unfolding checked_id
  peer_node_id conn_id w = checked_id (api.server_get_peer_nodeid conn_id w)

  -- `Request::compression` and `Server::conn_compression`.
  unfoldable pub conn_compression : ℕ → W → Compression
  unfolding compression_of
  conn_compression conn_id w = compression_of (api.server_conn_compression conn_id w)

  -- `Server::tick`, `fd`, `local_port` and `node_id`.
  unfoldable pub tick : ℤ → Call W (Unit {0})
  tick now_ms w = let (rc, w') = api.server_tick now_ms w in (check rc, w')

  unfoldable pub fd : W → ℕ
  fd w = api.server_fd w

  unfoldable pub local_port : W → ℕ
  local_port w = api.server_local_port w

  unfoldable pub node_id : W → Result NodeId
  unfolding checked_id
  node_id w = checked_id (api.server_local_nodeid w)

  -- `Server::metrics`.
  unfoldable pub metrics : W → Metrics
  metrics w =
      let m = api.server_metrics_get w in
      record {
        connections_active = m.connections_active;
        connections_accepted = m.connections_accepted;
        connections_refused = m.connections_refused;
        connections_closed = m.connections_closed;
        bytes_received = m.bytes_received;
        bytes_sent = m.bytes_sent;
        datagrams_received = m.datagrams_received;
        datagrams_sent = m.datagrams_sent;
        requests_dispatched = m.requests_dispatched;
        requests_shed = m.requests_shed;
        parked_active = m.parked_active;
        load = m.load;
      }

  -- `Server::load` and `set_overloaded`.
  unfoldable pub load : W → ℤ
  load w = api.server_load w

  unfoldable pub set_overloaded : Bool → W → W
  set_overloaded on w = api.server_set_overloaded (if on then pos 1 else pos 0) w

  -- `Server::last_handshake_error`.
  unfoldable pub last_handshake_error : W → Option Error
  last_handshake_error w =
      let rc = api.server_last_handshake_error w in
      if is_negative rc then some (from_code rc) else none

  -- `Server::drain` and `is_drained`.
  unfoldable pub drain : Call W (Unit {0})
  drain w = let (rc, w') = api.server_drain w in (check rc, w')

  unfoldable pub is_drained : W → Bool
  is_drained w = eq_ℤ (api.server_is_drained w) (pos 1)

  -- `reuse_port_supported`.
  unfoldable pub reuse_port_supported : Bool
  reuse_port_supported = not (eq_ℤ api.reuse_port_supported (pos 0))

  -- `cid_shard_id`, with the cast to 16 bits.
  unfoldable pub cid_shard_id : Bytes → Option ℕ
  cid_shard_id cid = elim (api.cid_shard_id cid) [ negsuc n ↦ none | pos n ↦ some (n % 2 ^ 16) ]
