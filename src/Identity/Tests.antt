-- ===== src/Identity/Tests.antt =====
-- Instances for nwep/src/identity.rs, with a library whose keys and ids are two bytes.
use nwep_rs.Base.{ℕ, pos, ◌≡◌, ◌⊎◌, ◌++◌, suc, [], ◌∷◌, length, drop, take}
use nwep_rs.Error.{Error, err, check}
use nwep_rs.Secrets.{World, LeftZeroed}
use nwep_rs.Identity.{IdentityApi, Identity, Keypair, generate, from_pem, to_pem}
use nwep_rs.Identity.Keys.{Encoded, private_copies_wiped}

abbrev sample_keys : Keypair
sample_keys = record { public = 1 ∷ 2 ∷ []; secret = 8 ∷ 9 ∷ [] }

-- A PEM text is the public key and the secret; the id of a key is the key.
abbrev sample_api : IdentityApi ℕ
sample_api = record {
  nodeid_from_base58 = λ s. (pos 0, s);
  nodeid_to_base58 = λ buf id. record { buf = id ++ drop (length id) buf; len = length id };
  nodeid_verify = λ id key. pos 0;
  nodeid_from_pubkey = λ key w. ((pos 0, key), w);
  identity_generate = λ w. ((pos 0, (1 ∷ 2 ∷ [], sample_keys)), suc w);
  keypair_load_pem = λ pem w. ((pos 0, record { public = take 2 pem; secret = drop 2 pem }), w);
  keypair_save_pem = λ buf cap keys w. (
    (
      pos 0,
      record {
        buf = (keys.public ++ keys.secret) ++ drop (length (keys.public ++ keys.secret)) buf;
        len = length (keys.public ++ keys.secret);
      },
    ),
    w,
  );
  ed25519_sign = λ msg sk w. ((pos 0, msg), w);
}

abbrev sample_identity : Identity
sample_identity = record {
  node_id = record { bytes = 1 ∷ 2 ∷ [] };
  pubkey = 1 ∷ 2 ∷ [];
  privkey = 8 ∷ 9 ∷ [];
}

abbrev start : World ℕ
start = record { lib = 0; buffers = [] }

private_copies_wiped_example :
    (((e : Error) × ((generate sample_api start).0 ≡ err e))
      ⊎ LeftZeroed [] (generate sample_api start).1.buffers)
    × (((e : Error) × (check (pos 0) ≡ err e))
        ⊎ LeftZeroed [] (from_pem sample_api (1 ∷ 2 ∷ 8 ∷ 9 ∷ []) start).1.buffers)
    × Encoded sample_api sample_identity start (to_pem sample_api sample_identity start)
private_copies_wiped_example =
    private_copies_wiped sample_api sample_identity (1 ∷ 2 ∷ 8 ∷ 9 ∷ []) start
