-- ===== src/Trust/Genesis.antt =====
-- The genesis ceremony of nwep/src/trust/checkpoint.rs: what the library is given, and what is left of
-- the founding secrets.
use nwep_rs.Base.{
  Bool, ℕ, zero, suc, ◌+◌, ◌*◌, ◌≤◌, ◌≡◌, refl, sym, ap, ◌∙◌, ◌||◌, false, none, [], ◌∷◌, ◌++◌,
  Bytes, length, drop, replicate, ltb, ◌==◌, arith, inl, inr, Bool-cases, append_assoc,
  length-append, take-length_append,
}
use nwep_rs.Error.{Result, ok, err, check}
use nwep_rs.Sizing.{Producer, Filled, produce}
use nwep_rs.Secrets.{World, Clean, LeftZeroed, on_lib, hold, zeroize}
use nwep_rs.Secrets.Wiping.{held_lem, LeftZeroed-refl}
use nwep_rs.Trust.Bls.{BlsKeypair}
use nwep_rs.Trust.Checkpoint.{
  CheckpointApi, Founders, seckey_size, pubkey_size, copy_at, filled, filled_from, secret_of,
  public_of, index_of, sized_genesis, genesis_checkpoint,
}

-- The guard of the ceremony.
abbrev refused : Founders → ℕ → Bool
refused founders threshold =
    length founders == 0 || threshold == 0 || ltb (length founders) threshold

-- The parts of the founders one after the other.
abbrev pub joined : (BlsKeypair × ℕ → Bytes) → Founders → Bytes
joined part [] = []
joined part (f ∷ fs) = part f ++ joined part fs

abbrev pub EachOf : (BlsKeypair × ℕ → Bytes) → ℕ → Founders → Type 0
EachOf part size [] = Unit {0}
EachOf part size (f ∷ fs) = (length (part f) ≡ size) × EachOf part size fs

drop-length_plus : (pre rest : Bytes) (m : ℕ) → drop (length pre + m) (pre ++ rest) ≡ drop m rest
drop-length_plus [] rest m = ap (λ k. drop k rest) (omega arith)
drop-length_plus (x ∷ pre) rest m =
    ap (λ k. drop k ((x ∷ pre) ++ rest)) (suc_plus (length pre) m) ∙ drop-length_plus pre rest m
  where
    suc_plus : (a b : ℕ) → suc a + b ≡ suc (a + b)
    suc_plus a b = omega arith

abbrev zeros : ℕ → Bytes
zeros k = replicate k 0

drop-zeros : (m k : ℕ) → drop m (zeros (m + k)) ≡ zeros k
drop-zeros zero k = ap zeros (omega arith)
drop-zeros (suc m) k = ap (λ j. drop (suc m) (zeros j)) (suc_plus m k) ∙ drop-zeros m k
  where
    suc_plus : (a b : ℕ) → suc a + b ≡ suc (a + b)
    suc_plus a b = omega arith

-- Copying a part to the end of what is filled.
copy_at-length :
    (pre part : Bytes) (k : ℕ)
    → copy_at (length pre) part (pre ++ zeros (length part + k)) ≡ (pre ++ part) ++ zeros k
unfolding copy_at
copy_at-length pre part k =
    rw
      (
        take-length_append pre (zeros (length part + k)),
        drop-length_plus pre (zeros (length part + k)) (length part),
        drop-zeros (length part) k,
      )
      (sym (append_assoc pre part (zeros k)))

zero_times : (n : ℕ) → 0 * n ≡ 0
zero_times n = omega arith

filled_from-joined :
    (part : BlsKeypair × ℕ → Bytes) (size i : ℕ) (fs : Founders) (pre : Bytes)
    → length pre ≡ i * size
    → EachOf part size fs
    → filled_from part size i fs (pre ++ zeros (length fs * size)) ≡ pre ++ joined part fs
unfolding filled_from
filled_from-joined part size i [] pre h a = ap (λ k. pre ++ zeros k) (zero_times size)
filled_from-joined part size i (f ∷ fs) pre h (e, a) =
    ap (filled_from part size (suc i) fs) (
      ap (λ j. copy_at j (part f) (pre ++ zeros (suc (length fs) * size))) (sym h)
      ∙ ap (λ j. copy_at (length pre) (part f) (pre ++ zeros j)) (split_size (length fs) size e)
      ∙ copy_at-length pre (part f) (length fs * size))
    ∙ filled_from-joined part size (suc i) fs (pre ++ part f)
        (length-append pre (part f) ∙ next_place i size h e) a
    ∙ append_assoc pre (part f) (joined part fs)
  where
    split_size : (n size : ℕ) → length (part f) ≡ size → suc n * size ≡ length (part f) + n * size
    split_size n size e = omega (arith, e)

    next_place :
        (i size : ℕ)
        → length pre ≡ i * size
        → length (part f) ≡ size
        → length pre + length (part f) ≡ suc i * size
    next_place i size h e = omega (arith, e, h)

-- The buffer that the loop fills is the parts of the founders in their order, where each part has
-- its size.
pub filled-joined :
    (part : BlsKeypair × ℕ → Bytes) (size : ℕ) (fs : Founders)
    → EachOf part size fs
    → filled part size fs ≡ joined part fs
unfolding filled
filled-joined part size fs a = filled_from-joined part size 0 fs [] (sym (zero_times size)) a

module _ {W : Type 0} (api : CheckpointApi W) where
  sized_genesis-Clean :
      (create : Producer W) (size : Filled) (r : Result (Unit {0})) (secrets : Bytes) (w : World W)
      → LeftZeroed w.buffers
          (sized_genesis api (length w.buffers) create size r (hold secrets w)).1.buffers
  unfolding sized_genesis zeroize
  sized_genesis-Clean create size (err e) secrets w =
      held_lem w.buffers _ secrets (LeftZeroed-refl _)
  sized_genesis-Clean create size (ok u) secrets w =
      held_lem w.buffers _ secrets (LeftZeroed-refl _)

  pub genesis_checkpoint-Clean :
      (founders : Founders) (threshold : ℕ) → Clean (genesis_checkpoint api founders threshold)
  unfolding genesis_checkpoint
  genesis_checkpoint-Clean founders threshold w = elim (Bool-cases (refused founders threshold)) [
    | inl e ↦ rw (e) (LeftZeroed-refl w.buffers)
    | inr e ↦
        let secrets = filled secret_of seckey_size founders in
        let create =
          api.genesis_checkpoint_create secrets (filled public_of pubkey_size founders)
            (filled index_of 1 founders) (length founders) threshold in
        let (out, l) = create none 0 w.lib in
        rw (e) (sized_genesis-Clean create out.1 (check out.0) secrets (record w { lib = l }))
  ]

  sized_genesis-produce :
      (create : Producer W) (k : ℕ) (w : World W)
      → let (out, w') = on_lib (create none 0) w in
        let run = sized_genesis api k create out.1 (check out.0) w' in
        (run.0 ≡ (produce create w.lib).0) × (run.1.lib ≡ (produce create w.lib).1)
  unfolding sized_genesis produce check zeroize
  sized_genesis-produce create k w = (ground arith, ground arith)

  -- For a threshold from 1 to the number of the founders, whose keys have their sizes, the ceremony is
  -- one two-call production over the secret keys, the public keys and the indexes of the founders,
  -- each joined in their order: it has its result and leaves the library as it does.
  pub genesis_checkpoint-produce :
      (founders : Founders) (threshold : ℕ) (w : World W)
      → 1 ≤ threshold
      → threshold ≤ length founders
      → EachOf secret_of seckey_size founders
      → EachOf public_of pubkey_size founders
      → let create =
          api.genesis_checkpoint_create
            (joined secret_of founders)
            (joined public_of founders)
            (joined index_of founders)
            (length founders)
            threshold in
        let run = genesis_checkpoint api founders threshold w in
        (run.0 ≡ (produce create w.lib).0) × (run.1.lib ≡ (produce create w.lib).1)
  unfolding genesis_checkpoint
  genesis_checkpoint-produce founders threshold w low high s p =
      rw
        (
          accepted,
          filled-joined secret_of seckey_size founders s,
          filled-joined public_of pubkey_size founders p,
          filled-joined index_of 1 founders (indexes founders),
        )
        (sized_genesis-produce _ (length w.buffers) (hold (joined secret_of founders) w))
    where
      accepted : refused founders threshold ≡ false
      accepted = ground arith

      indexes : (fs : Founders) → EachOf index_of 1 fs
      indexes [] = tt
      indexes (f ∷ fs) = (refl, indexes fs)
