-- ===== src/Trust/Store.antt =====
-- nwep/src/trust/store.rs and nwep/src/trust/key.rs.
use nwep_rs.Base.{
  ℤ, ℕ, pos, Option, none, some, List, Bytes, length, take, replicate, eq_ℤ, ◌==◌, if◌then◌else◌,
}
use nwep_rs.Error.{Result, ok, err, internal_alloc, from_code, check}
use nwep_rs.Ffi.{Call, pure, ◌>>=◌, checked}
use nwep_rs.Sizing.{Producer}
use nwep_rs.Identity.{NodeId}
use nwep_rs.Trust.Bls.{contiguous}
use nwep_rs.Trust.Checkpoint.{CheckpointStatus, banded}

-- `KeyStatus`.
pub data KeyStatus : Type 0 where
  not_revoked revoked : KeyStatus

-- `TrustStore`.
pub record TrustStore : Type 0 where
  pub raw : ℕ

-- The trust store of libnwep, a parameter. A store or a client is a pointer, 0 the null one.
pub record StoreApi (W : Type 0) : Type 0 where
  pub store_create : W → ℕ × W
  pub store_free : ℕ → W → W
  pub load_genesis_anchors : ℕ → Bytes → ℕ → W → ℤ × W
  pub update_checkpoint : ℕ → Bytes → ℤ → W → ℤ × W
  pub checkpoint_verify : ℕ → Bytes → ℤ → W → ℤ
  pub observe_log_size : ℕ → ℕ → W → ℤ × W
  pub max_log_size : ℕ → W → ℕ
  pub save : ℕ → Producer W
  pub load : ℕ → Bytes → W → ℤ × W
  -- the commitment is a pointer, or null
  pub verify_key : ℕ → ℕ → Bytes → Option Bytes → ℤ → W → ℤ × W
  pub verify_key_binding : ℕ → Bytes → Bytes → Bytes → ℤ → W → ℤ
  pub apply_anchor_change : ℕ → Bytes → ℕ → W → ℤ × W
  pub evaluate_key_rotation : Bytes → Bytes → ℤ → ℤ

-- The match on the code in `verify_key`.
unfoldable pub key_status : ℤ → Result KeyStatus
key_status rc =
    if eq_ℤ rc (pos 0)
    then ok not_revoked
    else if eq_ℤ rc (pos 1)
    then ok revoked
    else err (from_code rc)

module _ {W : Type 0} (api : StoreApi W) where
  -- `TrustStore::new`.
  unfoldable pub new : Call W TrustStore
  new w =
      let (raw, w') = api.store_create w in
      (if raw == 0 then err internal_alloc else ok (record { raw = raw }), w')

  -- `load_genesis_anchors`.
  unfoldable pub load_genesis_anchors : TrustStore → List Bytes → Call W (Unit {0})
  unfolding contiguous
  load_genesis_anchors store pubkeys w =
      let (rc, w') = api.load_genesis_anchors store.raw (contiguous pubkeys) (length pubkeys) w in
      (check rc, w')

  -- `update_checkpoint`.
  unfoldable pub update_checkpoint : TrustStore → Bytes → ℤ → Call W CheckpointStatus
  unfolding banded
  update_checkpoint store cp_bytes now_secs w =
      let (rc, w') = api.update_checkpoint store.raw cp_bytes now_secs w in (banded rc, w')

  -- `verify_checkpoint`.
  unfoldable pub verify_checkpoint : TrustStore → Bytes → ℤ → W → Result (Unit {0})
  verify_checkpoint store cp_bytes now_secs w =
      check (api.checkpoint_verify store.raw cp_bytes now_secs w)

  -- `observe_log_size`.
  unfoldable pub observe_log_size : TrustStore → ℕ → Call W (Unit {0})
  observe_log_size store observed w =
      let (rc, w') = api.observe_log_size store.raw observed w in (check rc, w')

  -- `max_log_size`.
  unfoldable pub max_log_size : TrustStore → W → ℕ
  max_log_size store w = api.max_log_size store.raw w

  -- `save`.
  unfoldable pub save : TrustStore → Call W Bytes
  save store = do
    size ← checked (api.save store.raw none 0)
    filled ← checked (api.save store.raw (some (replicate size.len 0)) size.len)
    pure (take filled.len filled.buf)

  -- `load`.
  unfoldable pub load : TrustStore → Bytes → Call W (Unit {0})
  load store bytes w = let (rc, w') = api.load store.raw bytes w in (check rc, w')

  -- `verify_key`, over the client at this pointer.
  unfoldable pub verify_key : TrustStore → ℕ → NodeId → Option Bytes → ℤ → Call W KeyStatus
  unfolding key_status
  verify_key store client node_id recovery_commitment now_secs w =
      let (rc, w') = api.verify_key store.raw client node_id.bytes recovery_commitment now_secs w in
      (key_status rc, w')

  -- `verify_key_binding`.
  unfoldable pub verify_key_binding :
      TrustStore → NodeId → Bytes → Bytes → ℤ → W → Result (Unit {0})
  verify_key_binding store node_id expected_pubkey bundle now_secs w =
      check (api.verify_key_binding store.raw node_id.bytes expected_pubkey bundle now_secs w)

  -- `apply_anchor_change`.
  unfoldable pub apply_anchor_change : TrustStore → Bytes → ℕ → Call W (Unit {0})
  apply_anchor_change store entry current_epoch w =
      let (rc, w') = api.apply_anchor_change store.raw entry current_epoch w in (check rc, w')

  -- `Drop for TrustStore`.
  unfoldable pub drop : TrustStore → W → W
  drop store w = api.store_free store.raw w

  -- `evaluate_key_rotation`.
  unfoldable pub evaluate_key_rotation : Bytes → Bytes → ℤ → Result (Unit {0})
  evaluate_key_rotation rotation_bytes presented_pubkey now_secs =
      check (api.evaluate_key_rotation rotation_bytes presented_pubkey now_secs)
