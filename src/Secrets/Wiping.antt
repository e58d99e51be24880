-- ===== src/Secrets/Wiping.antt =====
-- Runs that leave no secret behind, put together: the calls of C, their checks and their sequence,
-- for nwep/src/identity.rs and the files that use its keys.
use nwep_rs.Base.{
  ℤ, ℕ, ◌≡◌, refl, ap, sym, ◌∙◌, List, [], ◌∷◌, ◌++◌, Bytes, length, replicate, length-replicate,
  append-nil, append_assoc, inl, inr, take, none, some,
}
use nwep_rs.Error.{check, Result-cases}
use nwep_rs.Ffi.{Call, pure, ◌>>=◌, checked}
use nwep_rs.Sizing.{Producer, produce}
use nwep_rs.Sizing.Contract.{Encodes}
use nwep_rs.Secrets.{World, Run, on_lib, zeroed, zeroize_at, AllZeroed, LeftZeroed, Clean}

zeroize_at-length :
    (xs ys : List Bytes) (b : Bytes)
    → zeroize_at (length xs) ((xs ++ b ∷ []) ++ ys) ≡ xs ++ zeroed b ∷ ys
unfolding zeroize_at
zeroize_at-length [] ys b = refl
zeroize_at-length (x ∷ xs) ys b = ap (◌∷◌ x) (zeroize_at-length xs ys b)

AllZeroed-append : (xs ys : List Bytes) → AllZeroed xs → AllZeroed ys → AllZeroed (xs ++ ys)
AllZeroed-append [] ys a b = b
AllZeroed-append (x ∷ xs) ys (e, a) b = (e, AllZeroed-append xs ys a b)

zeroed_lem : (b : Bytes) → zeroed b ≡ replicate (length (zeroed b)) 0
unfolding zeroed
zeroed_lem b = rw (length-replicate {A = ℕ} (length b) 0) refl

pub LeftZeroed-refl : (xs : List Bytes) → LeftZeroed xs xs
LeftZeroed-refl xs = record { made = []; kept = sym (append-nil xs); zeros = tt }

pub LeftZeroed-trans :
    {xs ys zs : List Bytes} → LeftZeroed xs ys → LeftZeroed ys zs → LeftZeroed xs zs
LeftZeroed-trans {xs} {ys} {zs} a b = record {
  made = a.made ++ b.made;
  kept = b.kept ∙ ap (λ l. l ++ b.made) a.kept ∙ append_assoc xs a.made b.made;
  zeros = AllZeroed-append a.made b.made a.zeros b.zeros;
}

-- A buffer that holds a secret while a clean run works, and is wiped after it.
pub held_lem :
    (xs ys : List Bytes) (b : Bytes)
    → LeftZeroed (xs ++ b ∷ []) ys
    → LeftZeroed xs (zeroize_at (length xs) ys)
held_lem xs ys b l = record {
  made = zeroed b ∷ l.made;
  kept = ap (zeroize_at (length xs)) l.kept ∙ zeroize_at-length xs l.made b;
  zeros = (zeroed_lem b, l.zeros);
}

module _ {W : Type 0} where
  pub on_lib-Clean : {R : Type 0} (f : W → R × W) → Clean (on_lib f)
  on_lib-Clean f w = LeftZeroed-refl w.buffers

  pub pure-Clean : {A : Type 0} (a : A) → Clean {W = W} (pure a)
  pure-Clean a w = LeftZeroed-refl w.buffers

  pub bind-Clean :
      {A B : Type 0} (m : Call (World W) A) (f : A → Call (World W) B)
      → Clean m
      → ((a : A) → Clean (f a))
      → Clean (m >>= f)
  bind-Clean m f c d w = elim (Result-cases (m w).0) [
    | inl (a, e) ↦ rw (e, ◌>>=◌) (LeftZeroed-trans (c w) (d a (m w).1))
    | inr (x, e) ↦ rw (e, ◌>>=◌) (c w)
  ]

  pub checked-Clean : {A : Type 0} (f : Run W (ℤ × A)) → Clean f → Clean (checked f)
  checked-Clean f c w = elim (Result-cases (check (f w).0.0)) [
    | inl (a, e) ↦ rw (e) (c w)
    | inr (x, e) ↦ rw (e) (c w)
  ]

  pub produce-Clean : (call : Producer W) → Clean (produce (λ buf n. on_lib (call buf n)))
  unfolding produce
  produce-Clean call =
      bind-Clean (checked (on_lib (call none 0)))
        (λ size. do
          filled ← checked (on_lib (call (some (replicate size.len 0)) size.len))
          pure (take filled.len filled.buf))
        (checked-Clean (on_lib (call none 0)) (on_lib-Clean (call none 0)))
        (λ size.
          bind-Clean (checked (on_lib (call (some (replicate size.len 0)) size.len)))
            (λ filled. pure (take filled.len filled.buf))
            (checked-Clean (on_lib (call (some (replicate size.len 0)) size.len))
              (on_lib-Clean (call (some (replicate size.len 0)) size.len)))
            (λ filled. pure-Clean (take filled.len filled.buf)))

  -- The sizing contract of a producer, also where the buffers of secrets stand beside the library.
  pub Encodes-on_lib :
      (call : Producer W) {l' : W} (enc : Bytes) (w : World W)
      → Encodes call w.lib l' enc
      → Encodes (λ buf n. on_lib (call buf n)) w (record w { lib = l' }) enc
  Encodes-on_lib call {l'} enc w c = record {
    probed = record w { lib = c.probed };
    size = c.size;
    junk = c.junk;
    enough = c.enough;
    probe = ap (λ x. (x.0, record w { lib = x.1 })) c.probe;
    fill = λ buf e. ap (λ x. (x.0, record w { lib = x.1 })) (c.fill buf e);
  }
