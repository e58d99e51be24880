-- ===== src/Trust/Checkpoint.antt =====
-- nwep/src/trust/checkpoint.rs.
use nwep_rs.Base.{
  ℤ, ℕ, suc, pos, ◌+◌, ◌*◌, ◌||◌, none, some, List, [], ◌∷◌, ◌++◌, Bytes, length, take, drop,
  replicate, ltb, ◌==◌, eq_ℤ, is_negative, if◌then◌else◌,
}
use nwep_rs.Error.{Result, ok, err, config_invalid, from_code, check, ◌>>=◌}
use nwep_rs.Ffi.{Call}
use nwep_rs.Sizing.{Filled, Producer}
use nwep_rs.Secrets.{World, on_lib, hold, zeroize}
use nwep_rs.Trust.Bls.{BlsKeypair}

-- `CheckpointStatus`.
pub data CheckpointStatus : Type 0 where
  fresh warning stale : CheckpointStatus

-- `CheckpointStatus::from_code`.
unfoldable pub status_from_code : ℤ → CheckpointStatus
status_from_code code =
    if eq_ℤ code (pos 0) then fresh else if eq_ℤ code (pos 1) then warning else stale

-- `Checkpoint`.
pub record Checkpoint : Type 0 where
  pub raw : ℕ

-- The checkpoint functions of libnwep, a parameter. The arguments of the ceremony are the secret keys,
-- the public keys, the share indexes, their number and the threshold.
pub record CheckpointApi (W : Type 0) : Type 0 where
  pub checkpoint_decode : Bytes → W → (ℤ × ℕ) × W
  pub checkpoint_staleness : ℕ → ℤ → W → ℤ
  pub checkpoint_free : ℕ → W → W
  pub genesis_checkpoint_create : Bytes → Bytes → Bytes → ℕ → ℕ → Producer W

-- What a band code, or a negative error code, gives.
unfoldable pub banded : ℤ → Result CheckpointStatus
unfolding status_from_code
banded rc = if is_negative rc then err (from_code rc) else ok (status_from_code rc)

-- `NWEP_BLS_SECKEY_SIZE` and `NWEP_BLS_PUBKEY_SIZE`.
abbrev pub seckey_size : ℕ
seckey_size = 32

abbrev pub pubkey_size : ℕ
pubkey_size = 48

-- `buf[at..at + bytes.len()].copy_from_slice(bytes)`.
unfoldable pub copy_at : ℕ → Bytes → Bytes → Bytes
copy_at at bytes buf = take at buf ++ (bytes ++ drop (at + length bytes) buf)

abbrev pub Founders : Type 0
Founders = List (BlsKeypair × ℕ)

-- The loop of the ceremony, on one of its three buffers: the part of each founder stands at its place
-- in the list times the size of a part.
unfoldable pub filled_from : (BlsKeypair × ℕ → Bytes) → ℕ → ℕ → Founders → Bytes → Bytes
unfolding copy_at
filled_from part size i [] buf = buf
filled_from part size i (f ∷ fs) buf =
    filled_from part size (suc i) fs (copy_at (i * size) (part f) buf)

abbrev pub secret_of : BlsKeypair × ℕ → Bytes
secret_of (kp, index) = kp.secret

abbrev pub public_of : BlsKeypair × ℕ → Bytes
public_of (kp, index) = kp.public

abbrev pub index_of : BlsKeypair × ℕ → Bytes
index_of (kp, index) = index ∷ []

unfoldable pub filled : (BlsKeypair × ℕ → Bytes) → ℕ → Founders → Bytes
unfolding filled_from
filled part size founders = filled_from part size 0 founders (replicate (length founders * size) 0)

module _ {W : Type 0} (api : CheckpointApi W) where
  -- `Checkpoint::decode`.
  unfoldable pub decode : Bytes → Call W Checkpoint
  decode bytes w =
      let (out, w') = api.checkpoint_decode bytes w in
      (check out.0 >>= (λ _. ok (record { raw = out.1 })), w')

  -- `Checkpoint::staleness`.
  unfoldable pub staleness : Checkpoint → ℤ → W → Result CheckpointStatus
  unfolding banded
  staleness cp now_secs w = banded (api.checkpoint_staleness cp.raw now_secs w)

  -- `Drop for Checkpoint`.
  unfoldable pub free : Checkpoint → W → W
  free cp w = api.checkpoint_free cp.raw w

  -- `genesis_checkpoint` after the first call, whose buffer `secrets` is numbered `secrets`.
  unfoldable pub sized_genesis : ℕ → Producer W → Filled → Result (Unit {0}) → Call (World W) Bytes
  sized_genesis secrets create size (err e) w = (err e, zeroize secrets w)
  sized_genesis secrets create size (ok _) w =
      let (out, w') = on_lib (create (some (replicate size.len 0)) size.len) w in
      (check out.0 >>= (λ _. ok (take out.1.len out.1.buf)), zeroize secrets w')

  -- `genesis_checkpoint`.
  unfoldable pub genesis_checkpoint : Founders → ℕ → Call (World W) Bytes
  unfolding filled sized_genesis
  genesis_checkpoint founders threshold w =
      let n = length founders in
      if n == 0 || threshold == 0 || ltb n threshold
      then (err config_invalid, w)
      else let secrets = filled secret_of seckey_size founders in
        let pubkeys = filled public_of pubkey_size founders in
        let indices = filled index_of 1 founders in
        let create = api.genesis_checkpoint_create secrets pubkeys indices n threshold in
        let (out, w') = on_lib (create none 0) (hold secrets w) in
        sized_genesis (length w.buffers) create out.1 (check out.0) w'
