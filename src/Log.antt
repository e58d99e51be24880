-- ===== src/Log.antt =====
-- nwep/src/log.rs: the entries of the trust log, decoded and built (here), and the merkle log that
-- holds them (Log/Merkle.antt). The encodings, the signatures and the hashes are libnwep's.
pub mod Merkle
pub mod Builders
mod Tests
use nwep_rs.Base.{ℤ, ℕ, pos, Option, none, some, Bytes, eq_ℤ, ◌==◌, if◌then◌else◌}
use nwep_rs.Error.{Result, ok, err, from_code, check, ◌>>=◌}
use nwep_rs.Ffi.{Call}
use nwep_rs.Sizing.{Producer, produce}
use nwep_rs.Secrets.{World, on_lib}
use nwep_rs.Identity.{Identity, NodeId, from_bytes, with_raw_keys}

-- `EntryType`.
pub data EntryType : Type 0 where
  key_binding_entry key_rotation_entry revocation_entry anchor_change_entry : EntryType

-- `RevocationReason`.
pub data RevocationReason : Type 0 where
  compromised rotation decommission : RevocationReason

-- `RevocationReason::code`.
unfoldable pub reason_code : RevocationReason → ℕ
reason_code compromised = 1
reason_code rotation = 2
reason_code decommission = 3

-- `RevocationReason::from_code`.
unfoldable pub reason_from_code : ℕ → Option RevocationReason
reason_from_code code =
    if code == 1
    then some compromised
    else if code == 2
    then some rotation
    else if code == 3
    then some decommission
    else none

-- `nwep_keybinding`, `nwep_keyrotation` and `nwep_revocation`.
pub record RawBinding : Type 0 where
  pub node_id : Bytes
  pub pubkey : Bytes
  pub recovery_commitment : Bytes
  pub timestamp : ℕ
  pub signature : Bytes

pub record RawRotation : Type 0 where
  pub node_id : Bytes
  pub old_pubkey : Bytes
  pub new_pubkey : Bytes
  pub timestamp : ℕ
  pub overlap_expiry : ℕ
  pub sig_old : Bytes
  pub sig_new : Bytes

pub record RawRevocation : Type 0 where
  pub node_id : Bytes
  pub revoked_pubkey : Bytes
  pub recovery_pubkey : Bytes
  pub reason : ℕ
  pub timestamp : ℕ
  pub signature : Bytes

-- `KeyBinding`.
pub record KeyBinding : Type 0 where
  pub node_id : NodeId
  pub pubkey : Bytes
  pub recovery_commitment : Bytes
  pub timestamp : ℕ

-- `KeyRotation`.
pub record KeyRotation : Type 0 where
  pub node_id : NodeId
  pub old_pubkey : Bytes
  pub new_pubkey : Bytes
  pub timestamp : ℕ
  pub overlap_expiry : ℕ

-- `Revocation`.
pub record Revocation : Type 0 where
  pub node_id : NodeId
  pub revoked_pubkey : Bytes
  pub recovery_pubkey : Bytes
  pub reason : Option RevocationReason
  pub timestamp : ℕ

-- The functions of libnwep on entries, a parameter.
pub record EntryApi (W : Type 0) : Type 0 where
  pub log_entry_type : Bytes → ℤ
  pub keybinding_decode : Bytes → ℤ × RawBinding
  pub keyrotation_decode : Bytes → ℤ × RawRotation
  pub revocation_decode : Bytes → ℤ × RawRevocation
  -- the public key, the commitment, the time and the private key
  pub keybinding_create : Bytes → Bytes → ℕ → Bytes → Producer W
  -- the id, the public keys, the times and the private keys
  pub keyrotation_create : Bytes → Bytes → Bytes → ℕ → ℕ → Bytes → Bytes → Producer W
  -- the id, the revoked key, the public key, the reason, the time and the private key
  pub revocation_create : Bytes → Bytes → Bytes → ℕ → ℕ → Bytes → Producer W

module _ {W : Type 0} (api : EntryApi W) where
  -- `EntryType::of`.
  unfoldable pub entry_type_of : Bytes → Result EntryType
  entry_type_of bytes =
      let rc = api.log_entry_type bytes in
      if eq_ℤ rc (pos 1)
      then ok key_binding_entry
      else if eq_ℤ rc (pos 2)
      then ok key_rotation_entry
      else if eq_ℤ rc (pos 3)
      then ok revocation_entry
      else if eq_ℤ rc (pos 4)
      then ok anchor_change_entry
      else err (from_code rc)

  -- `KeyBinding::decode`.
  unfoldable pub decode_binding : Bytes → Result KeyBinding
  unfolding from_bytes
  decode_binding bytes =
      let (rc, kb) = api.keybinding_decode bytes in
      check rc >>= λ _. ok (record {
        node_id = from_bytes kb.node_id;
        pubkey = kb.pubkey;
        recovery_commitment = kb.recovery_commitment;
        timestamp = kb.timestamp;
      })

  -- `KeyRotation::decode`.
  unfoldable pub decode_rotation : Bytes → Result KeyRotation
  unfolding from_bytes
  decode_rotation bytes =
      let (rc, kr) = api.keyrotation_decode bytes in
      check rc >>= λ _. ok (record {
        node_id = from_bytes kr.node_id;
        old_pubkey = kr.old_pubkey;
        new_pubkey = kr.new_pubkey;
        timestamp = kr.timestamp;
        overlap_expiry = kr.overlap_expiry;
      })

  -- `Revocation::decode`.
  unfoldable pub decode_revocation : Bytes → Result Revocation
  unfolding from_bytes reason_from_code
  decode_revocation bytes =
      let (rc, r) = api.revocation_decode bytes in
      check rc >>= λ _. ok (record {
        node_id = from_bytes r.node_id;
        revoked_pubkey = r.revoked_pubkey;
        recovery_pubkey = r.recovery_pubkey;
        reason = reason_from_code r.reason;
        timestamp = r.timestamp;
      })

  -- `key_binding`.
  unfoldable pub key_binding : Identity → Bytes → ℕ → Call (World W) Bytes
  key_binding id commitment timestamp =
      with_raw_keys id (λ pk sk.
        produce (λ buf n. on_lib (api.keybinding_create pk commitment timestamp sk buf n)))

  -- `key_rotation`.
  unfoldable pub key_rotation : NodeId → Identity → Identity → ℕ → ℕ → Call (World W) Bytes
  key_rotation node_id old new timestamp overlap_expiry = with_raw_keys old (λ old_pk old_sk.
      with_raw_keys new (λ new_pk new_sk. produce (λ buf n. on_lib (
        api.keyrotation_create node_id.bytes old_pk new_pk timestamp overlap_expiry old_sk new_sk
          buf n))))

  -- `revocation`.
  unfoldable pub revocation :
      NodeId → Bytes → Identity → RevocationReason → ℕ → Call (World W) Bytes
  unfolding reason_code
  revocation node_id revoked_pubkey recovery reason timestamp =
      with_raw_keys recovery (λ rec_pk rec_sk. produce (λ buf n. on_lib (
        api.revocation_create node_id.bytes revoked_pubkey rec_pk (reason_code reason) timestamp
          rec_sk buf n)))
