-- ===== src/Shamir/Quorum.antt =====
-- Splitting and recombining a secret by nwep/src/shamir.rs.
use mathlib.Core.Path.{subst}
use nwep_rs.Base.{
  refl, sym, ap, ◌++◌, drop, take-length_append, length-replicate, ℕ, pos, ◌+◌, ◌-◌, ◌≤◌, ◌≡◌, inl,
  inr, ◌∙◌, true, false, List, [], ◌∷◌, Bytes, length, replicate, arith, Bool-cases,
}
use nwep_rs.Error.{ok, err, config_invalid, check}
use nwep_rs.Sizing.Contract.{Encodes, produce-Encodes}
use nwep_rs.Shamir.{
  ShamirApi, pack, some_differ, first_length, bounds_hold, split, combine, combine_packed,
}
use nwep_rs.Shamir.Shares.{AllOf, chunks-pack, some_differ-AllOf}

-- The shares of a quorum: some of them, each at most once.
pub data Drawn : List Bytes → List Bytes → Type 0 where
  done : Drawn [] []
  skip : {s : Bytes} {qs ss : List Bytes} → Drawn qs ss → Drawn qs (s ∷ ss)
  pick : {s : Bytes} {qs ss : List Bytes} → Drawn qs ss → Drawn (s ∷ qs) (s ∷ ss)

AllOf-Drawn : (n : ℕ) {qs ss : List Bytes} → Drawn qs ss → AllOf n ss → AllOf n qs
AllOf-Drawn n done a = tt
AllOf-Drawn n (skip d) (e, a) = AllOf-Drawn n d a
AllOf-Drawn n (pick d) (e, a) = (e, AllOf-Drawn n d a)

-- The documented bounds of `split`.
abbrev pub InBounds : ℕ → ℕ → Type 0
InBounds t n = (2 ≤ t) × (t ≤ n) × (n ≤ 255)

bounds_hold-InBounds : (t n : ℕ) → InBounds t n → bounds_hold t n ≡ true
unfolding bounds_hold
bounds_hold-InBounds t n (a, b, c) = ground arith

InBounds-bounds_hold : (t n : ℕ) → bounds_hold t n ≡ true → InBounds t n
unfolding bounds_hold
InBounds-bounds_hold t n e = (ground arith, ground arith, ground arith)

bounds_hold-refused : (t n : ℕ) → ¬ InBounds t n → bounds_hold t n ≡ false
bounds_hold-refused t n h = elim (Bool-cases (bounds_hold t n)) [
  | inl e ↦ absurd (h (InBounds-bounds_hold t n e))
  | inr e ↦ e
]

module _ {W : Type 0} (api : ShamirApi W) (secret : Bytes) (t n : ℕ) (w w' : W)
    (ss : List Bytes) where
  -- Within the bounds, where the library keeps to the sizing contract and packs shares of one byte
  -- more than the secret, `split` returns these shares, in their order.
  pub split_lem :
      InBounds t n
      → AllOf (1 + length secret) ss
      → Encodes (api.shamir_split secret t n) w w' (pack ss)
      → split api secret t n w ≡ (ok ss, w')
  unfolding split
  split_lem b a c = ground (
    arith,
    bounds_hold-InBounds t n b,
    produce-Encodes (api.shamir_split secret t n) (pack ss) c,
    chunks-pack (1 + length secret) ss (omega arith) a,
  )

-- Outside the bounds, `split` is refused before the library is called.
pub split_refuses :
    {W : Type 0} (api : ShamirApi W) (secret : Bytes) (t n : ℕ) (w : W)
    → ¬ InBounds t n
    → split api secret t n w ≡ (err config_invalid, w)
unfolding split
split_refuses api secret t n w b = rw (bounds_hold-refused t n b)

-- Two shares or more, of one length that is 2 at least, pass the checks of `combine`.
pub combine_lem :
    {W : Type 0} (api : ShamirApi W) (n : ℕ) (s u : Bytes) (ss : List Bytes) (w : W)
    → 2 ≤ n
    → AllOf n (s ∷ u ∷ ss)
    → combine api (s ∷ u ∷ ss) w ≡ combine_packed api (s ∷ u ∷ ss) n w
unfolding combine first_length some_differ
combine_lem api n s u ss w h (e, a) = ground (arith, e, some_differ-AllOf n (u ∷ ss) a)

-- Shares one after the other, which is how libnwep gives and takes them.
abbrev pub joined : List Bytes → Bytes
joined [] = []
joined (s ∷ ss) = s ++ joined ss

pack-joined : (ss : List Bytes) → pack ss ≡ joined ss
unfolding pack
pack-joined [] = refl
pack-joined (s ∷ ss) = ap (s ++◌) (pack-joined ss)

-- The contract of libnwep for the splitting of a secret in one state: it gives shares of one byte more
-- than the secret, joined; and in any state, from `t` or more of them, joined in their order and each at
-- most once, with their number and their length, it writes the secret to the front of any buffer that has
-- room for it, with its length.
pub record SharesSecret {W : Type 0} (api : ShamirApi W) (secret : Bytes) (t n : ℕ) (w w' : W)
    (ss : List Bytes) : Type 0 where
  pub sized : AllOf (1 + length secret) ss
  pub splits : Encodes (api.shamir_split secret t n) w w' (joined ss)
  pub rebuilds :
      (qs : List Bytes) (buf : Bytes) (v : W)
      → Drawn qs ss
      → t ≤ length qs
      → length secret ≤ length buf
      → api.shamir_combine (joined qs) (length qs) (1 + length secret) buf (length buf) v
        ≡ ((pos 0, record { buf = secret ++ drop (length secret) buf; len = length secret }), v)

one_less : (n : ℕ) → 1 + n - 1 ≡ n
one_less n = omega arith

module _ {W : Type 0} (api : ShamirApi W) (secret : Bytes) (t n : ℕ) (w w' : W) (ss : List Bytes)
    (c : SharesSecret api secret t n w w' ss) where
  combine_packed-SharesSecret :
      (qs : List Bytes) (v : W)
      → Drawn qs ss
      → t ≤ length qs
      → combine_packed api qs (1 + length secret) v ≡ (ok secret, v)
  unfolding combine_packed check
  combine_packed-SharesSecret qs v d k =
      let buf : Bytes = replicate (length secret) 0 in
      let cap : length buf ≡ length secret = length-replicate {A = ℕ} (length secret) 0 in
      let call = rw (cap) at (c.rebuilds qs buf v d k (omega (arith, cap))) in
      ground (
        arith,
        one_less (length secret),
        pack-joined qs,
        call,
        take-length_append secret (drop (length secret) buf),
      )

  -- Within the bounds of `split`, for a secret that is not empty, where libnwep keeps its contract: `split`
  -- returns the shares, each on its own, in the order in which libnwep gives them; and `combine` recovers
  -- the secret from any of them, in that order, that are `t` or more, in any later state.
  pub combine-split :
      (qs : List Bytes) (v : W)
      → InBounds t n
      → 1 ≤ length secret
      → Drawn qs ss
      → t ≤ length qs
      → (split api secret t n w ≡ (ok ss, w')) × (combine api qs v ≡ (ok secret, v))
  combine-split qs v b l d k = (
    split_lem api secret t n w w' ss b c.sized
        (subst (Encodes (api.shamir_split secret t n) w w') (sym (pack-joined ss)) c.splits),
    recovered qs d k,
  )
    where
      recovered :
          (qs : List Bytes) → Drawn qs ss → t ≤ length qs → combine api qs v ≡ (ok secret, v)
      recovered [] d k = absurd (omega (arith, b))
      recovered (s ∷ []) d k = absurd (omega (arith, b))
      recovered (s ∷ u ∷ qs) d k =
          combine_lem api (1 + length secret) s u qs v (omega arith)
            (AllOf-Drawn (1 + length secret) d c.sized)
          ∙ combine_packed-SharesSecret (s ∷ u ∷ qs) v d k
