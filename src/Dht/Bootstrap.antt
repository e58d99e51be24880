-- ===== src/Dht/Bootstrap.antt =====
-- `Bootstrap` and the readers of `Record` in nwep/src/dht.rs. The text form is libnwep's.
use nwep_rs.Base.{ℤ, ℕ, Bytes}
use nwep_rs.Error.{Result, ok, check, ◌>>=◌}
use nwep_rs.Address.{Address}
use nwep_rs.Identity.{NodeId, from_bytes}

-- `nwep_bootstrap_entry`, which `Bootstrap` wraps.
pub record Bootstrap : Type 0 where
  pub node_id : Bytes
  pub addr : Bytes

-- `nwep_dht_record`, which `Record` wraps.
pub record RawRecord : Type 0 where
  pub node_id : Bytes
  pub addr : Bytes
  pub pubkey : Bytes
  pub seq : ℕ
  pub timestamp : ℕ

-- `Bootstrap::parse`, also `from_str`, where `dht_parse_bootstrap` is libnwep's.
unfoldable pub parse_bootstrap : (Bytes → ℤ × Bootstrap) → Bytes → Result Bootstrap
parse_bootstrap dht_parse_bootstrap input =
    let (rc, entry) = dht_parse_bootstrap input in check rc >>= λ _. ok entry

-- `Bootstrap::new`.
unfoldable pub new_bootstrap : NodeId → Address → Bootstrap
new_bootstrap node_id addr = record { node_id = node_id.bytes; addr = addr.opaque }

-- `Record::node_id` and `Record::address`.
unfoldable pub record_node_id : RawRecord → NodeId
unfolding from_bytes
record_node_id r = from_bytes r.node_id

unfoldable pub record_address : RawRecord → Address
record_address r = record { opaque = r.addr }

-- `Record::public_key`, `seq` and `timestamp`.
unfoldable pub record_public_key : RawRecord → Bytes
record_public_key r = r.pubkey

unfoldable pub record_seq : RawRecord → ℕ
record_seq r = r.seq

unfoldable pub record_timestamp : RawRecord → ℕ
record_timestamp r = r.timestamp
