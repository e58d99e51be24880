-- ===== src/Identity.antt =====
-- nwep/src/identity.rs: node ids and their base58 text, and identities, which own a private key. The
-- cryptography and the encodings are libnwep's. `Hash`, `Eq` and the printing of `Debug` are not
-- modelled. A byte array is a byte string.
pub mod Keys
pub mod Texts
mod Tests
use nwep_rs.Base.{
  ℤ, ℕ, pos, Bool, Option, none, some, [], Bytes, length, take, replicate, leb, eq_ℤ, if◌then◌else◌,
}
use nwep_rs.Error.{Result, ok, err, internal, check, ◌>>=◌}
use nwep_rs.Ffi.{Call}
use nwep_rs.Sizing.{Filled}
use nwep_rs.Secrets.{World, Run, on_lib, hold, zeroed, zeroize}
use nwep_rs.Utf8.{is_utf8, lossy}

-- `NodeId`.
pub record NodeId : Type 0 where
  pub bytes : Bytes

-- `nwep_keypair`.
pub record Keypair : Type 0 where
  pub public : Bytes
  pub secret : Bytes

-- `Identity`.
pub record Identity : Type 0 where
  pub node_id : NodeId
  pub pubkey : Bytes
  pub privkey : Bytes

-- The functions of libnwep on keys and ids, a parameter: each returns its code and what it left in its
-- out-parameters. The first three of them keep no state.
pub record IdentityApi (W : Type 0) : Type 0 where
  pub nodeid_from_base58 : Bytes → ℤ × Bytes
  pub nodeid_to_base58 : Bytes → Bytes → Filled
  pub nodeid_verify : Bytes → Bytes → ℤ
  pub nodeid_from_pubkey : Bytes → W → (ℤ × Bytes) × W
  pub identity_generate : W → (ℤ × (Bytes × Keypair)) × W
  pub keypair_load_pem : Bytes → W → (ℤ × Keypair) × W
  pub keypair_save_pem : Bytes → ℕ → Keypair → W → (ℤ × Filled) × W
  pub ed25519_sign : Bytes → Bytes → W → (ℤ × Bytes) × W

-- `NodeId::from_bytes`, and `as_bytes` and `raw` are the field.
unfoldable pub from_bytes : Bytes → NodeId
from_bytes bytes = record { bytes = bytes }

module _ {W : Type 0} (api : IdentityApi W) where
  -- `NodeId::from_base58`, also `NodeId::from_str`.
  unfoldable pub from_base58 : Bytes → Result NodeId
  unfolding from_bytes
  from_base58 s =
      let (rc, bytes) = api.nodeid_from_base58 s in check rc >>= λ _. ok (from_bytes bytes)

  -- `NodeId::to_base58`, also the text that `Display` writes, in a build without debug assertions;
  -- `none` is the panic of the slice, if the library gave a length beyond the buffer.
  unfoldable pub to_base58 : NodeId → Option Bytes
  to_base58 id =
      let out = api.nodeid_to_base58 (replicate 64 0) id.bytes in
      if leb out.len 64 then some (lossy (take out.len out.buf)) else none

  -- `NodeId::verify`.
  unfoldable pub verify : NodeId → Bytes → Bool
  verify id pubkey = eq_ℤ (api.nodeid_verify id.bytes pubkey) (pos 0)

  -- `NodeId::from_pubkey`.
  unfoldable pub from_pubkey : Bytes → Call W NodeId
  unfolding from_bytes
  from_pubkey pubkey w =
      let (out, w') = api.nodeid_from_pubkey pubkey w in
      (check out.0 >>= (λ _. ok (from_bytes out.1)), w')

  -- The end of `generate`: the buffer `kp.priv_` is numbered `kp`.
  unfoldable pub generated : ℕ → Bytes → Keypair → Result (Unit {0}) → Call (World W) Identity
  unfolding from_bytes
  generated kp id keys (err e) w = (err e, w)
  generated kp id keys (ok _) w = (
    ok (record { node_id = from_bytes id; pubkey = keys.public; privkey = keys.secret }),
    zeroize kp w,
  )

  -- `Identity::generate`. The buffer `kp.priv_` holds what the library left in it.
  unfoldable pub generate : Call (World W) Identity
  unfolding generated
  generate w =
      let (out, w') = on_lib api.identity_generate w in
      let (rc, (id, keys)) = out in
      generated (length w.buffers) id keys (check rc) (hold keys.secret w')

  -- `from_pem`, from the check of the derived id on.
  unfoldable pub derived_from_pem :
      ℕ → Bytes → Keypair → Result (Unit {0}) → Call (World W) Identity
  unfolding from_bytes
  derived_from_pem kp id keys (err e) w = (err e, zeroize kp w)
  derived_from_pem kp id keys (ok _) w = (
    ok (record { node_id = from_bytes id; pubkey = keys.public; privkey = keys.secret }),
    zeroize kp w,
  )

  -- `from_pem`, from the check of the load on.
  unfoldable pub loaded_from_pem : ℕ → Keypair → Result (Unit {0}) → Call (World W) Identity
  unfolding derived_from_pem
  loaded_from_pem kp keys (err e) w = (err e, w)
  loaded_from_pem kp keys (ok _) w =
      let (out, w') = on_lib (api.nodeid_from_pubkey keys.public) w in
      derived_from_pem kp out.1 keys (check out.0) w'

  -- `Identity::from_pem`.
  unfoldable pub from_pem : Bytes → Call (World W) Identity
  unfolding loaded_from_pem
  from_pem pem w =
      let (out, w') = on_lib (api.keypair_load_pem pem) w in
      let (rc, keys) = out in
      loaded_from_pem (length w.buffers) keys (check rc) (hold keys.secret w')

  -- `buf.truncate(len)` and `String::from_utf8`.
  unfoldable pub pem_text : Filled → Result Bytes
  pem_text out = if is_utf8 (take out.len out.buf) then ok (take out.len out.buf) else err internal

  -- The end of `to_pem`: the buffer of the text is moved into the result, or dropped as it is.
  unfoldable pub text_or_dropped : Filled → Result Bytes → Call (World W) Bytes
  text_or_dropped out (ok text) w = (ok text, w)
  text_or_dropped out (err e) w = (err e, hold out.buf w)

  -- `Identity::to_pem`. The text that it returns is the caller's to protect.
  unfoldable pub to_pem : Identity → Call (World W) Bytes
  unfolding pem_text text_or_dropped
  to_pem id w =
      let keys : Keypair = record { public = id.pubkey; secret = id.privkey } in
      let (out, w') =
        on_lib (api.keypair_save_pem (replicate 4096 0) 4096 keys) (hold id.privkey w) in
      text_or_dropped out.1 (check out.0 >>= (λ _. pem_text out.1)) (zeroize (length w.buffers) w')

  -- `Identity::sign`.
  unfoldable pub sign : Identity → Bytes → Call W Bytes
  sign id msg w =
      let (out, w') = api.ed25519_sign msg id.privkey w in (check out.0 >>= (λ _. ok out.1), w')

module _ {W R : Type 0} (id : Identity) where
  -- `with_keypair`.
  unfoldable pub with_keypair : (Keypair → Run W R) → Run W R
  with_keypair f w =
      let (out, w') = f (record { public = id.pubkey; secret = id.privkey }) (hold id.privkey w) in
      (out, zeroize (length w.buffers) w')

  -- `with_raw_keys`.
  unfoldable pub with_raw_keys : (Bytes → Bytes → Run W R) → Run W R
  with_raw_keys f w =
      let (out, w') = f id.pubkey id.privkey (hold id.privkey w) in
      (out, zeroize (length w.buffers) w')

-- `Drop for Identity`: the identity as its memory holds it then.
unfoldable pub drop : Identity → Identity
drop id = record id { privkey = zeroed id.privkey }
