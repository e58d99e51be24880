-- ===== src/Identity/Texts.antt =====
-- The texts of nwep/src/identity.rs: a node id in base58, an identity in PEM.
use nwep_rs.Base.{
  ℕ, pos, ◌≤◌, ◌≡◌, refl, some, Bytes, ◌++◌, length, drop, replicate, take-length_append, arith,
  true, length-replicate,
}
use nwep_rs.Error.{ok, check}
use nwep_rs.Ffi.{◌>>=◌}
use nwep_rs.Secrets.{World, hold, zeroize}
use nwep_rs.Utf8.{is_utf8, lossy-is_utf8}
use nwep_rs.Identity.{
  IdentityApi, Identity, NodeId, from_base58, to_base58, from_bytes, from_pem, loaded_from_pem,
  derived_from_pem, to_pem, pem_text, text_or_dropped,
}

-- The contract of the base58 functions at an id: the text is UTF-8, takes 64 bytes at most, is
-- written to the front of the buffer, and decodes to the id.
pub record Base58 {W : Type 0} (api : IdentityApi W) (id text : Bytes) : Type 0 where
  pub decodes_utf8 : is_utf8 text ≡ true
  pub fits : length text ≤ 64
  pub encode :
      (buf : Bytes)
      → length buf ≡ 64
      → api.nodeid_to_base58 buf id
        ≡ record { buf = text ++ drop (length text) buf; len = length text }
  pub decode : api.nodeid_from_base58 text ≡ (pos 0, id)

-- The contract of the PEM functions at an identity: `nwep_keypair_save_pem` writes a UTF-8 text of
-- 4096 bytes at most, `nwep_keypair_load_pem` reads the keys back, and the node id is the one that the
-- public key gives.
pub record Pem {W : Type 0} (api : IdentityApi W) (id : Identity) (text : Bytes) : Type 0 where
  pub decodes_utf8 : is_utf8 text ≡ true
  pub fits : length text ≤ 4096
  pub save :
      (buf : Bytes) (l : W)
      → length buf ≡ 4096
      → api.keypair_save_pem buf 4096 (record { public = id.pubkey; secret = id.privkey }) l
        ≡ ((pos 0, record { buf = text ++ drop (length text) buf; len = length text }), l)
  pub load :
      (l : W)
      → api.keypair_load_pem text l
        ≡ ((pos 0, record { public = id.pubkey; secret = id.privkey }), l)
  pub derive : (l : W) → api.nodeid_from_pubkey id.pubkey l ≡ ((pos 0, id.node_id.bytes), l)

module _ {W : Type 0} (api : IdentityApi W) where
  -- Where the library keeps the base58 contract at an id, `to_base58` gives its text and does not
  -- panic, and `from_base58` reads the id back.
  pub from_base58-to_base58 :
      (id : NodeId) (text : Bytes)
      → Base58 api id.bytes text
      → (to_base58 api id ≡ some text) × (from_base58 api text ≡ ok id)
  unfolding from_base58 to_base58 from_bytes check
  from_base58-to_base58 id text c = (
    ground (
      arith,
      c.encode (replicate 64 0) refl,
      c.fits,
      take-length_append text (drop (length text) (replicate 64 0)),
      lossy-is_utf8 text c.decodes_utf8,
    ),
    ground (arith, c.decode),
  )

  module _ (id : Identity) (text : Bytes) (w : World W) (c : Pem api id text) where
    to_pem_text : to_pem api id w ≡ (ok text, zeroize (length w.buffers) (hold id.privkey w))
    unfolding to_pem pem_text text_or_dropped check
    to_pem_text =
        rw
          (
            c.save (replicate 4096 0) w.lib (length-replicate {A = ℕ} 4096 0),
            take-length_append text (drop (length text) (replicate 4096 0)),
            c.decodes_utf8,
          )
          refl

    from_pem_identity : (from_pem api text w).0 ≡ ok id
    unfolding from_pem from_bytes loaded_from_pem derived_from_pem check
    from_pem_identity = rw (c.load w.lib, c.derive w.lib) refl

  -- Where the library keeps the PEM contract at an identity, its PEM text reads back as the identity,
  -- with its keys and its node id.
  pub from_pem-to_pem :
      (id : Identity) (text : Bytes) (w : World W)
      → Pem api id text
      → ((to_pem api id >>= from_pem api) w).0 ≡ ok id
  from_pem-to_pem id text w c =
      rw (to_pem_text id text w c, ◌>>=◌) (from_pem_identity id text (to_pem api id w).1 c)
