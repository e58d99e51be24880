-- ===== src/Shamir/Tests.antt =====
-- Instances for nwep/src/shamir.rs, with three shares of a secret of two bytes.
use nwep_rs.Base.{ℕ, pos, ◌≤◌, ◌≡◌, refl, List, [], ◌∷◌, Bytes, length, drop, take, ◌++◌, arith}
use nwep_rs.Error.{ok}
use nwep_rs.Sizing.Samples.{writes, writes-Encodes}
use nwep_rs.Shamir.{ShamirApi, split, combine}
use nwep_rs.Shamir.Shares.{AllOf}
use nwep_rs.Shamir.Quorum.{Drawn, done, skip, pick, joined, SharesSecret, combine-split}

abbrev secret : Bytes
secret = 5 ∷ 6 ∷ []

abbrev three_shares : List Bytes
three_shares = (1 ∷ 5 ∷ 6 ∷ []) ∷ (2 ∷ 5 ∷ 6 ∷ []) ∷ (3 ∷ 5 ∷ 6 ∷ []) ∷ []

abbrev last_two : List Bytes
last_two = (2 ∷ 5 ∷ 6 ∷ []) ∷ (3 ∷ 5 ∷ 6 ∷ []) ∷ []

-- A share is its number and the secret: a combination reads the first one.
abbrev sample_shamir : ShamirApi ℕ
sample_shamir = record {
  shamir_split = λ s t n. writes (joined three_shares);
  shamir_combine = λ packed count len buf cap w.
      ((pos 0, record { buf = take 2 (drop 1 packed) ++ drop 2 buf; len = 2 }), w);
}

three_shares-AllOf : AllOf 3 three_shares
three_shares-AllOf = (refl, (refl, (refl, tt)))

last_two-Drawn : Drawn last_two three_shares
last_two-Drawn = skip (pick (pick done))

-- the bytes behind the first of a quorum of two or three of them
sample-SharesSecret : SharesSecret sample_shamir secret 2 3 0 2 three_shares
sample-SharesSecret = record {
  sized = three_shares-AllOf;
  splits = writes-Encodes (joined three_shares) 0;
  rebuilds = rebuilds;
}
  where
    rebuilds :
        (qs : List Bytes) (buf : Bytes) (v : ℕ)
        → Drawn qs three_shares
        → 2 ≤ length qs
        → 2 ≤ length buf
        → sample_shamir.shamir_combine (joined qs) (length qs) 3 buf (length buf) v
          ≡ ((pos 0, record { buf = secret ++ drop 2 buf; len = 2 }), v)
    rebuilds _ buf v (skip (skip (skip done))) k m = absurd (omega arith)
    rebuilds _ buf v (pick (skip (skip done))) k m = absurd (omega arith)
    rebuilds _ buf v (skip (pick (skip done))) k m = absurd (omega arith)
    rebuilds _ buf v (skip (skip (pick done))) k m = absurd (omega arith)
    rebuilds _ buf v (pick (pick (skip done))) k m = refl
    rebuilds _ buf v (pick (skip (pick done))) k m = refl
    rebuilds _ buf v (skip (pick (pick done))) k m = refl
    rebuilds _ buf v (pick (pick (pick done))) k m = refl

combine-split_example :
    (split sample_shamir secret 2 3 0 ≡ (ok three_shares, 2))
    × (combine sample_shamir last_two 7 ≡ (ok secret, 7))
combine-split_example =
    combine-split sample_shamir secret 2 3 0 2 three_shares sample-SharesSecret last_two 7
      (omega arith, omega arith, omega arith) (omega arith) last_two-Drawn (omega arith)
