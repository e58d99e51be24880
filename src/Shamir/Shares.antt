-- ===== src/Shamir/Shares.antt =====
-- Packing and cutting of the shares in nwep/src/shamir.rs.
use nwep_rs.Base.{
  ℕ, zero, suc, ◌≤◌, ◌<◌, ◌≡◌, refl, ap, List, [], ◌∷◌, Bytes, length, length-append, arith, false,
  take-length_append, drop-length_append,
}
use nwep_rs.Shamir.{chunks, chunks_from, pack, some_differ}

abbrev pub AllOf : ℕ → List Bytes → Type 0
AllOf n [] = Unit {0}
AllOf n (s ∷ ss) = (length s ≡ n) × AllOf n ss

chunks_from-pack :
    (size : ℕ) (ss : List Bytes) (fuel : ℕ)
    → 0 < size
    → AllOf size ss
    → length (pack ss) ≤ fuel
    → chunks_from fuel size (pack ss) ≡ ss
unfolding chunks_from pack
chunks_from-pack size [] zero p a h = refl
chunks_from-pack size [] (suc fuel) p a h = refl
chunks_from-pack size ([] ∷ ss) fuel p (e, a) h = absurd (omega arith)
chunks_from-pack size ((b ∷ bs) ∷ ss) zero p (e, a) h = absurd (omega arith)
chunks_from-pack size ((b ∷ bs) ∷ ss) (suc fuel) p (e, a) h =
    rw (← e, take-length_append bs (pack ss), drop-length_append bs (pack ss))
      (ap (◌∷◌ (b ∷ bs)) (
        chunks_from-pack (suc (length bs)) ss fuel (omega arith) (rw (← e) at a)
          (omega (arith, length-append bs (pack ss)))))

-- Cutting packed shares of one length, not 0, gives the shares back.
pub chunks-pack :
    (size : ℕ) (ss : List Bytes) → 0 < size → AllOf size ss → chunks size (pack ss) ≡ ss
unfolding chunks
chunks-pack size ss p a = chunks_from-pack size ss (length (pack ss)) p a (omega arith)

pub some_differ-AllOf : (n : ℕ) (ss : List Bytes) → AllOf n ss → some_differ n ss ≡ false
unfolding some_differ
some_differ-AllOf n [] a = refl
some_differ-AllOf n (s ∷ ss) (e, a) = ground (arith, some_differ-AllOf n ss a)
