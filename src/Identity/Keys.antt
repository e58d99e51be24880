-- ===== src/Identity/Keys.antt =====
-- The private keys of nwep/src/identity.rs: which copies of them are wiped, and the PEM form.
use mathlib.Core.Path.{subst}
use nwep_rs.Base.{◌≡◌, ◌⊎◌, refl, ap, Bytes, ◌++◌, [], ◌∷◌, length, replicate, inl, inr, List}
use nwep_rs.Error.{Error, Result, ok, err, check, Result-cases}
use nwep_rs.Secrets.{World, Run, Clean, LeftZeroed, zeroize, zeroize_at}
use nwep_rs.Secrets.Wiping.{held_lem, LeftZeroed-refl}
use nwep_rs.Identity.{
  IdentityApi, Identity, Keypair, generate, generated, from_pem, loaded_from_pem, derived_from_pem,
  to_pem, text_or_dropped, with_keypair, with_raw_keys,
}

module _ {W R : Type 0} (id : Identity) where
  -- A function that is lent the keypair and leaves no secret behind leaves none through
  -- `with_keypair`, whose own copy of the private key is wiped whatever the function returns.
  pub with_keypair-Clean :
      (f : Keypair → Run W R) → ((kp : Keypair) → Clean (f kp)) → Clean (with_keypair id f)
  unfolding with_keypair zeroize
  with_keypair-Clean f c w =
      held_lem w.buffers _ id.privkey (c (record { public = id.pubkey; secret = id.privkey }) _)

  -- The same of `with_raw_keys`.
  pub with_raw_keys-Clean :
      (f : Bytes → Bytes → Run W R)
      → ((pk sk : Bytes) → Clean (f pk sk))
      → Clean (with_raw_keys id f)
  unfolding with_raw_keys zeroize
  with_raw_keys-Clean f c w = held_lem w.buffers _ id.privkey (c id.pubkey id.privkey _)

module _ {W : Type 0} (api : IdentityApi W) where
  held_kp : (xs : List Bytes) (b : Bytes) → LeftZeroed xs (zeroize_at (length xs) (xs ++ b ∷ []))
  held_kp xs b = held_lem xs _ b (LeftZeroed-refl _)

  -- What `to_pem` leaves: with the text that it returns nothing but zeros; with an error also the buffer that
  -- the library has filled, as it is.
  pub data Encoded (id : Identity) (w : World W) : Result Bytes × World W → Type 0 where
    returned :
        {text : Bytes} {w' : World W} → LeftZeroed w.buffers w'.buffers → Encoded id w (ok text, w')
    dropped :
        {e : Error} {w' : World W} {wiped : List Bytes}
        → LeftZeroed w.buffers wiped
        → w'.buffers
          ≡ wiped
            ++ (api.keypair_save_pem
                (replicate 4096 0)
                4096
                (record { public = id.pubkey; secret = id.privkey })
                w.lib).0.1.buf
              ∷ []
        → Encoded id w (err e, w')

  text_or_dropped-Encoded :
      (id : Identity) (w w' : World W) (r : Result Bytes)
      → LeftZeroed w.buffers w'.buffers
      → Encoded id w (
          text_or_dropped api
            (api.keypair_save_pem
              (replicate 4096 0)
              4096
              (record { public = id.pubkey; secret = id.privkey })
              w.lib).0.1
            r
            w')
  unfolding text_or_dropped
  text_or_dropped-Encoded id w w' (ok text) z = returned z
  text_or_dropped-Encoded id w w' (err e) z = dropped z refl

  to_pem-Encoded : (id : Identity) (w : World W) → Encoded id w (to_pem api id w)
  unfolding to_pem zeroize
  to_pem-Encoded id w = text_or_dropped-Encoded id w _ _ (held_kp w.buffers id.privkey)

  generated_wipes :
      (w : World W) (bytes : Bytes) (keys : Keypair) (r : Result (Unit {0})) {id : Identity}
      {w' : World W}
      → generated api
          (length w.buffers)
          bytes
          keys
          r
          (record w { buffers = w.buffers ++ keys.secret ∷ [] })
        ≡ (ok id, w')
      → LeftZeroed w.buffers w'.buffers
  unfolding generated zeroize
  generated_wipes w bytes keys (ok u) h =
      subst (λ x. LeftZeroed w.buffers x.1.buffers) h (held_kp w.buffers keys.secret)
  generated_wipes w bytes keys (err e) h = cc

  generate_wipes :
      (w : World W) {id : Identity} {w' : World W}
      → generate api w ≡ (ok id, w')
      → LeftZeroed w.buffers w'.buffers
  unfolding generate
  generate_wipes w h =
      let (out, l) = api.identity_generate w.lib in
      generated_wipes (record w { lib = l }) out.1.0 out.1.1 (check out.0) h

  from_pem_wipes :
      (pem : Bytes) (w : World W)
      → check (api.keypair_load_pem pem w.lib).0.0 ≡ ok tt
      → LeftZeroed w.buffers (from_pem api pem w).1.buffers
  unfolding from_pem loaded_from_pem derived_from_pem zeroize
  from_pem_wipes pem w h =
      let (out, l) = api.keypair_load_pem pem w.lib in
      rw (h, loaded_from_pem)
        (elim (Result-cases (check (api.nodeid_from_pubkey out.1.public l).0.0)) [
          | inl (a, e) ↦ rw (e, derived_from_pem) (held_kp w.buffers out.1.secret)
          | inr (x, e) ↦ rw (e, derived_from_pem) (held_kp w.buffers out.1.secret)
        ])

  -- `generate` that succeeds, and `from_pem` of a PEM text that loads, even if no node id
  -- can be derived from it, leave nothing but zeros of the private key in buffers of their own, and touch no
  -- other buffer; and so does `to_pem` that returns a text. Where `to_pem` fails, its copy of the key is
  -- wiped, but the buffer of the text stays as the library has filled it.
  pub private_copies_wiped :
      (id : Identity) (pem : Bytes) (w : World W)
      → (((e : Error) × ((generate api w).0 ≡ err e))
          ⊎ LeftZeroed w.buffers (generate api w).1.buffers)
        × (((e : Error) × (check (api.keypair_load_pem pem w.lib).0.0 ≡ err e))
            ⊎ LeftZeroed w.buffers (from_pem api pem w).1.buffers)
        × Encoded id w (to_pem api id w)
  private_copies_wiped id pem w = (
    elim (Result-cases (generate api w).0) [
      | inl (made, e) ↦ inr (generate_wipes w {id = made} (ap (λ r. (r, (generate api w).1)) e))
      | inr (x, e) ↦ inl (x, e)
    ],
    elim (Result-cases (check (api.keypair_load_pem pem w.lib).0.0)) [
      | inl (u, e) ↦ inr (from_pem_wipes pem w e)
      | inr (x, e) ↦ inl (x, e)
    ],
    to_pem-Encoded id w,
  )
