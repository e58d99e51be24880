-- ===== src/Log/Builders.antt =====
-- The entry builders of nwep/src/log.rs: what they leave behind of the private keys that they borrow,
-- and what their entries decode to.
use nwep_rs.Base.{ℕ, pos, ◌≡◌, refl, ap, some, Bytes}
use nwep_rs.Error.{ok, check}
use nwep_rs.Sizing.Contract.{Encodes, produce-Encodes}
use nwep_rs.Secrets.{World, Clean, hold}
use nwep_rs.Secrets.Wiping.{produce-Clean, Encodes-on_lib}
use nwep_rs.Identity.{Identity, NodeId, with_raw_keys, from_bytes}
use nwep_rs.Identity.Keys.{with_raw_keys-Clean}
use nwep_rs.Log.{
  EntryApi, RevocationReason, compromised, rotation, decommission, reason_code, reason_from_code,
  key_binding, key_rotation, revocation, decode_rotation, decode_revocation,
}

pub reason_from_code-reason_code :
    (r : RevocationReason) → reason_from_code (reason_code r) ≡ some r
unfolding reason_from_code reason_code
reason_from_code-reason_code compromised = refl
reason_from_code-reason_code rotation = refl
reason_from_code-reason_code decommission = refl

module _ {W : Type 0} (api : EntryApi W) where
  -- The entry builders leave no copy of a private key that they borrow, the two of a rotation
  -- included, whatever the library answers.
  pub builders-Clean :
      (id old new : Identity) (node_id : NodeId) (commitment revoked : Bytes)
      (reason : RevocationReason) (timestamp expiry : ℕ)
      → Clean (key_binding api id commitment timestamp)
        × Clean (key_rotation api node_id old new timestamp expiry)
        × Clean (revocation api node_id revoked id reason timestamp)
  unfolding key_binding key_rotation revocation
  builders-Clean id old new node_id commitment revoked reason timestamp expiry = (
    with_raw_keys-Clean id _
        (λ pk sk. produce-Clean (api.keybinding_create pk commitment timestamp sk)),
    with_raw_keys-Clean old _ (λ old_pk old_sk. with_raw_keys-Clean new _ (λ new_pk new_sk.
        produce-Clean
          (api.keyrotation_create node_id.bytes old_pk new_pk timestamp expiry old_sk new_sk))),
    with_raw_keys-Clean id _ (λ pk sk.
        produce-Clean
          (api.revocation_create node_id.bytes revoked pk (reason_code reason) timestamp sk)),
  )

-- The contract of the revocation functions for one entry: it is encoded under the sizing contract,
-- and decodes to the fields that were given.
pub record RevocationKept {W : Type 0} (api : EntryApi W) (w : World W) (node_id : NodeId)
    (revoked : Bytes) (recovery : Identity) (reason timestamp : ℕ) (enc : Bytes) : Type 0 where
  pub after : W
  pub signature : Bytes
  pub encodes :
      Encodes
        (api.revocation_create node_id.bytes revoked recovery.pubkey reason timestamp
          recovery.privkey)
        w.lib
        after
        enc
  pub decode : api.revocation_decode enc ≡ (
    pos 0,
    record {
      node_id = node_id.bytes;
      revoked_pubkey = revoked;
      recovery_pubkey = recovery.pubkey;
      reason = reason;
      timestamp = timestamp;
      signature = signature;
    },
  )

-- The same of the key rotations.
pub record RotationKept {W : Type 0} (api : EntryApi W) (w : World W) (node_id : NodeId)
    (old new : Identity) (timestamp expiry : ℕ) (enc : Bytes) : Type 0 where
  pub after : W
  pub sig_old : Bytes
  pub sig_new : Bytes
  pub encodes :
      Encodes
        (api.keyrotation_create node_id.bytes old.pubkey new.pubkey timestamp expiry old.privkey
          new.privkey)
        w.lib
        after
        enc
  pub decode : api.keyrotation_decode enc ≡ (
    pos 0,
    record {
      node_id = node_id.bytes;
      old_pubkey = old.pubkey;
      new_pubkey = new.pubkey;
      timestamp = timestamp;
      overlap_expiry = expiry;
      sig_old = sig_old;
      sig_new = sig_new;
    },
  )

module _ {W : Type 0} (api : EntryApi W) where
  -- Where the library keeps its contract for the entry, `revocation` returns the encoded entry, and
  -- `Revocation::decode` reads the fields back from it, the reason included.
  pub decode_revocation-revocation :
      (node_id : NodeId) (revoked : Bytes) (recovery : Identity) (reason : RevocationReason)
      (timestamp : ℕ) (enc : Bytes) (w : World W)
      → RevocationKept api w node_id revoked recovery (reason_code reason) timestamp enc
      → ((revocation api node_id revoked recovery reason timestamp w).0 ≡ ok enc)
        × (decode_revocation api enc
            ≡ ok (record {
              node_id = node_id;
              revoked_pubkey = revoked;
              recovery_pubkey = recovery.pubkey;
              reason = some reason;
              timestamp = timestamp;
            }))
  unfolding revocation with_raw_keys decode_revocation from_bytes check
  decode_revocation-revocation node_id revoked recovery reason timestamp enc w c = (
    ap (λ x. x.0)
        (produce-Encodes _ enc (Encodes-on_lib _ enc (hold recovery.privkey w) c.encodes)),
    rw (c.decode, reason_from_code-reason_code reason) refl,
  )

  -- Where the library keeps its contract for the entry, `key_rotation` returns the encoded entry,
  -- signed with the keys of both identities, and `KeyRotation::decode` reads the fields back from it.
  pub decode_rotation-key_rotation :
      (node_id : NodeId) (old new : Identity) (timestamp expiry : ℕ) (enc : Bytes) (w : World W)
      → RotationKept api w node_id old new timestamp expiry enc
      → ((key_rotation api node_id old new timestamp expiry w).0 ≡ ok enc)
        × (decode_rotation api enc
            ≡ ok (record {
              node_id = node_id;
              old_pubkey = old.pubkey;
              new_pubkey = new.pubkey;
              timestamp = timestamp;
              overlap_expiry = expiry;
            }))
  unfolding key_rotation with_raw_keys decode_rotation from_bytes check
  decode_rotation-key_rotation node_id old new timestamp expiry enc w c = (
    ap (λ x. x.0)
        (produce-Encodes _ enc
          (Encodes-on_lib _ enc (hold new.privkey (hold old.privkey w)) c.encodes)),
    rw (c.decode) refl,
  )
