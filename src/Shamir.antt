-- ===== src/Shamir.antt =====
-- nwep/src/shamir.rs: the checks and the packing around libnwep's secret sharing.
pub mod Shares
pub mod Quorum
mod Tests
use nwep_rs.Base.{
  ℤ, ℕ, zero, suc, ◌+◌, ◌-◌, Bool, true, false, not, ◌&&◌, ◌||◌, Option, none, some, List, [], ◌∷◌,
  ◌++◌, Bytes, length, take, drop, replicate, leb, ltb, ◌==◌, if◌then◌else◌,
}
use nwep_rs.Error.{Error, Result, ok, err, config_invalid}
use nwep_rs.Ffi.{Call, pure, ◌>>=◌, checked}
use nwep_rs.Sizing.{Filled, Producer, produce}

-- `nwep_shamir_split` and `nwep_shamir_combine`, a parameter.
pub record ShamirApi (W : Type 0) : Type 0 where
  pub shamir_split : Bytes → ℕ → ℕ → Producer W
  pub shamir_combine : Bytes → ℕ → ℕ → Bytes → ℕ → W → (ℤ × Filled) × W

-- `slice::chunks`, on fuel.
unfoldable pub chunks_from : ℕ → ℕ → Bytes → List Bytes
chunks_from zero size bytes = []
chunks_from (suc fuel) size [] = []
chunks_from (suc fuel) size (b ∷ bs) =
    take size (b ∷ bs) ∷ chunks_from fuel size (drop size (b ∷ bs))

-- Each chunk takes a byte at least, so as many rounds as there are bytes suffice.
unfoldable pub chunks : ℕ → Bytes → List Bytes
unfolding chunks_from
chunks size bytes = chunks_from (length bytes) size bytes

-- `Vec::extend_from_slice` for each share.
unfoldable pub pack : List Bytes → Bytes
pack [] = []
pack (s ∷ ss) = s ++ pack ss

-- `shares.iter().any(|s| s.len() != share_len)`.
unfoldable pub some_differ : ℕ → List Bytes → Bool
some_differ n [] = false
some_differ n (s ∷ ss) = not (length s == n) || some_differ n ss

unfoldable pub first_length : List Bytes → ℕ
first_length [] = 0
first_length (s ∷ ss) = length s

-- `(2..=255).contains(&n)` and `(2..=n).contains(&t)`.
unfoldable pub bounds_hold : ℕ → ℕ → Bool
bounds_hold t n = leb 2 n && leb n 255 && (leb 2 t && leb t n)

module _ {W : Type 0} (api : ShamirApi W) where
  -- `split`.
  unfoldable pub split : Bytes → ℕ → ℕ → Call W (List Bytes)
  split secret t n w =
      if not (bounds_hold t n)
      then (err config_invalid, w)
      else (do
        packed ← produce (api.shamir_split secret t n)
        pure (chunks (1 + length secret) packed))
          w

  -- The call of C in `combine`.
  unfoldable pub combine_packed : List Bytes → ℕ → Call W Bytes
  combine_packed shares share_len = do
    filled ← checked (
        api.shamir_combine (pack shares) (length shares) share_len (replicate (share_len - 1) 0)
          (share_len - 1))
    pure (take filled.len filled.buf)

  -- `combine`.
  unfoldable pub combine : List Bytes → Call W Bytes
  unfolding combine_packed first_length some_differ
  combine shares w =
      if ltb (length shares) 2
      then (err config_invalid, w)
      else if ltb (first_length shares) 2 || some_differ (first_length shares) shares
      then (err config_invalid, w)
      else combine_packed shares (first_length shares) w
