-- ===== src/Trust/Bls.antt =====
-- nwep/src/trust/bls.rs.
use nwep_rs.Base.{ℤ, ℕ, pos, Bool, false, List, [], ◌∷◌, ◌++◌, Bytes, length, eq_ℤ}
use nwep_rs.Error.{Result, ok, err, config_invalid, check, ◌>>=◌}
use nwep_rs.Ffi.{Call}
use nwep_rs.Secrets.{World, on_lib, hold, zeroed}

-- `BlsSignature`, with `as_bytes` and `from_bytes`.
pub record BlsSignature : Type 0 where
  pub bytes : Bytes

-- `BlsKeypair`, with `public_key` and `secret`.
pub record BlsKeypair : Type 0 where
  pub secret : Bytes
  pub public : Bytes

-- The BLS functions of libnwep, a parameter.
pub record BlsApi (W : Type 0) : Type 0 where
  pub bls_keygen : W → (ℤ × (Bytes × Bytes)) × W
  pub bls_sign : Bytes → Bytes → ℤ × Bytes
  pub bls_verify : Bytes → Bytes → Bytes → ℤ
  pub bls_aggregate : Bytes → ℕ → ℤ × Bytes
  pub bls_verify_aggregate : Bytes → Bytes → ℕ → Bytes → ℤ

-- A slice of arrays, as the memory that it is.
unfoldable pub contiguous : List Bytes → Bytes
contiguous [] = []
contiguous (b ∷ bs) = b ++ contiguous bs

-- A slice of `BlsSignature`, which is transparent over its bytes.
unfoldable pub contiguous_sigs : List BlsSignature → Bytes
contiguous_sigs [] = []
contiguous_sigs (s ∷ ss) = s.bytes ++ contiguous_sigs ss

module _ {W : Type 0} (api : BlsApi W) where
  -- `BlsKeypair::generate`. The local `secret` holds what the library left in it.
  unfoldable pub generate : Call (World W) BlsKeypair
  generate w =
      let (out, w') = on_lib api.bls_keygen w in
      let (rc, (secret, public)) = out in
      (check rc >>= (λ _. ok (record { secret = secret; public = public })), hold secret w')

  -- `BlsKeypair::sign`.
  unfoldable pub sign : BlsKeypair → Bytes → Result BlsSignature
  sign kp msg =
      let (rc, sig) = api.bls_sign kp.secret msg in check rc >>= λ _. ok (record { bytes = sig })

  -- `verify`.
  unfoldable pub verify : BlsSignature → Bytes → Bytes → Bool
  verify sig public msg = eq_ℤ (api.bls_verify sig.bytes public msg) (pos 0)

  -- `aggregate`.
  unfoldable pub aggregate : List BlsSignature → Result BlsSignature
  unfolding contiguous_sigs
  aggregate [] = err config_invalid
  aggregate (s ∷ ss) =
      let (rc, sig) = api.bls_aggregate (contiguous_sigs (s ∷ ss)) (length (s ∷ ss)) in
      check rc >>= λ _. ok (record { bytes = sig })

  -- `verify_aggregate`.
  unfoldable pub verify_aggregate : BlsSignature → List Bytes → Bytes → Bool
  unfolding contiguous
  verify_aggregate agg [] msg = false
  verify_aggregate agg (p ∷ ps) msg =
      eq_ℤ (api.bls_verify_aggregate agg.bytes (contiguous (p ∷ ps)) (length (p ∷ ps)) msg) (pos 0)

-- `Drop for BlsKeypair`: the keypair as its memory holds it then.
unfoldable pub drop : BlsKeypair → BlsKeypair
drop kp = record kp { secret = zeroed kp.secret }
