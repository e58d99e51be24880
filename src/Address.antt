-- ===== src/Address.antt =====
-- nwep/src/address.rs: the constructors of an address, which libnwep lays out in opaque bytes, and its text.
use nwep_rs.Base.{ℕ, Option, none, some, Bytes, ◌++◌, ascii}
use nwep_rs.Error.{Result, ok, err, config_invalid}
use nwep_rs.Error.Display.{decimal}

-- `Address`.
pub record Address : Type 0 where
  pub opaque : Bytes

-- `SocketAddr` of the standard library: the four bytes of a v4 address or the sixteen of a v6 one, in
-- network order, and the port.
pub data SocketAddr : Type 0 where
  v4 : ℕ → ℕ → ℕ → ℕ → ℕ → SocketAddr
  v6 : Bytes → ℕ → SocketAddr

-- The address functions of libnwep, a parameter.
pub record AddressApi : Type 0 where
  pub address_loopback : ℕ → Bytes
  pub address_wildcard : ℕ → Bytes
  pub address_ipv4_mapped : ℕ → ℕ → ℕ → ℕ → ℕ → Bytes
  pub address_from_bytes : Bytes → ℕ → Bytes
  pub address_get_port : Bytes → ℕ

module _ (api : AddressApi) where
  -- `Address::loopback`, `wildcard`, `ipv4_mapped`, `from_bytes` and `port`.
  unfoldable pub loopback : ℕ → Address
  loopback port = record { opaque = api.address_loopback port }

  unfoldable pub wildcard : ℕ → Address
  wildcard port = record { opaque = api.address_wildcard port }

  unfoldable pub ipv4_mapped : ℕ → ℕ → ℕ → ℕ → ℕ → Address
  ipv4_mapped a b c d port = record { opaque = api.address_ipv4_mapped a b c d port }

  unfoldable pub from_bytes : Bytes → ℕ → Address
  from_bytes addr port = record { opaque = api.address_from_bytes addr port }

  unfoldable pub port : Address → ℕ
  port a = api.address_get_port a.opaque

  -- `From<SocketAddrV6>`, and `From<(Ipv6Addr, u16)>`.
  unfoldable pub from_socket_addr_v6 : Bytes → ℕ → Address
  unfolding from_bytes
  from_socket_addr_v6 octets port = from_bytes octets port

  unfoldable pub from_ip_port : Bytes × ℕ → Address
  unfolding from_bytes
  from_ip_port (octets, port) = from_bytes octets port

  -- `From<SocketAddr>`.
  unfoldable pub from_socket_addr : SocketAddr → Address
  unfolding ipv4_mapped from_socket_addr_v6
  from_socket_addr (v6 octets port) = from_socket_addr_v6 octets port
  from_socket_addr (v4 a b c d port) = ipv4_mapped a b c d port

  -- `FromStr`, on what `str::parse` of a `SocketAddr` gave.
  unfoldable pub from_str : Option SocketAddr → Result Address
  unfolding from_socket_addr
  from_str none = err config_invalid
  from_str (some s) = ok (from_socket_addr s)

  -- `Debug`, with the port alone.
  unfoldable pub debug : Address → Bytes
  unfolding decimal port
  debug a = ascii "Address { port: " ++ (decimal (port a) ++ ascii ", .. }")
