-- ===== src/Secrets.antt =====
-- The copies of private keys that nwep/src makes in buffers of its own: `zeroize` of
-- nwep/src/identity.rs and the `nwep_zeroize` calls of the other files. The buffers are numbered as
-- they are made, and stay in the list when their owner returns, with what they hold then.
pub mod Wiping
use nwep_rs.Base.{ℕ, zero, suc, List, [], ◌∷◌, ◌++◌, Bytes, length, replicate, ◌≡◌}

pub record World (W : Type 0) : Type 0 where
  pub lib : W
  pub buffers : List Bytes

-- A function of nwep/src, any result.
abbrev pub Run : Type 0 → Type 0 → Type 0
Run W R = World W → R × World W

module _ {W : Type 0} where
  -- A call of the C library, which is lent buffers to read.
  abbrev pub on_lib : {R : Type 0} → (W → R × W) → Run W R
  on_lib f w = let (r, l) = f w.lib in (r, record w { lib = l })

  -- A local array or vector that holds a secret.
  abbrev pub hold : Bytes → World W → World W
  hold secret w = record w { buffers = w.buffers ++ secret ∷ [] }

-- The bytes that `nwep_zeroize` leaves.
unfoldable pub zeroed : Bytes → Bytes
zeroed bytes = replicate (length bytes) 0

unfoldable pub zeroize_at : ℕ → List Bytes → List Bytes
zeroize_at i [] = []
zeroize_at zero (b ∷ bs) = zeroed b ∷ bs
zeroize_at (suc i) (b ∷ bs) = b ∷ zeroize_at i bs

-- `zeroize`, of the buffer with this number.
unfoldable pub zeroize : {W : Type 0} → ℕ → World W → World W
unfolding zeroize_at
zeroize i w = record w { buffers = zeroize_at i w.buffers }

abbrev pub AllZeroed : List Bytes → Type 0
AllZeroed [] = Unit {0}
AllZeroed (b ∷ bs) = (b ≡ replicate (length b) 0) × AllZeroed bs

-- What a run left beside the buffers that were there: buffers that hold zeros only.
pub record LeftZeroed (before after : List Bytes) : Type 0 where
  pub made : List Bytes
  pub kept : after ≡ before ++ made
  pub zeros : AllZeroed made

-- A run that leaves no secret behind, whatever the library answers, and touches no other buffer.
abbrev pub Clean : {W R : Type 0} → Run W R → Type 0
Clean run = (w : _) → LeftZeroed w.buffers (run w).1.buffers
