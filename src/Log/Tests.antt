-- ===== src/Log/Tests.antt =====
-- Instances for nwep/src/log.rs: a library that keeps its entries in a list, and encodes an entry as
-- its fields.
use nwep_rs.Base.{ℕ, zero, suc, pos, [], ◌∷◌, Bytes}
use nwep_rs.Sizing.Samples.{writes}
use nwep_rs.Secrets.{World, Clean}
use nwep_rs.Identity.{Identity, NodeId}
use nwep_rs.Log.{EntryApi, decommission, revocation, key_rotation, key_binding}
use nwep_rs.Log.Builders.{builders-Clean}

abbrev sample_id : NodeId
sample_id = record { bytes = 7 ∷ [] }

abbrev sample_identity : ℕ → Identity
sample_identity k = record { node_id = sample_id; pubkey = k ∷ []; privkey = (100 ∷ k ∷ []) }

-- Fields of one byte, in their order.
abbrev byte_at : ℕ → Bytes → ℕ
byte_at n [] = 0
byte_at zero (x ∷ xs) = x
byte_at (suc n) (x ∷ xs) = byte_at n xs

abbrev field_at : ℕ → Bytes → Bytes
field_at n bytes = byte_at n bytes ∷ []

abbrev sample_api : EntryApi ℕ
sample_api = record {
  log_entry_type = λ bytes. pos 1;
  keybinding_decode = λ e. (
    pos 0,
    record {
      node_id = [];
      pubkey = field_at 0 e;
      recovery_commitment = [];
      timestamp = byte_at 1 e;
      signature = [];
    },
  );
  keyrotation_decode = λ e. (
    pos 0,
    record {
      node_id = field_at 0 e;
      old_pubkey = field_at 1 e;
      new_pubkey = field_at 2 e;
      timestamp = byte_at 3 e;
      overlap_expiry = byte_at 4 e;
      sig_old = [];
      sig_new = [];
    },
  );
  revocation_decode = λ e. (
    pos 0,
    record {
      node_id = field_at 0 e;
      revoked_pubkey = field_at 1 e;
      recovery_pubkey = field_at 2 e;
      reason = byte_at 3 e;
      timestamp = byte_at 4 e;
      signature = [];
    },
  );
  keybinding_create = λ pk commitment t sk. writes (byte_at 0 pk ∷ t ∷ []);
  keyrotation_create =
      λ id old new t x so sn. writes (byte_at 0 id ∷ byte_at 0 old ∷ byte_at 0 new ∷ t ∷ x ∷ []);
  revocation_create = λ id revoked pk reason t sk.
      writes (byte_at 0 id ∷ byte_at 0 revoked ∷ byte_at 0 pk ∷ reason ∷ t ∷ []);
}

abbrev start : World ℕ
start = record { lib = 0; buffers = [] }

builders-Clean_example :
    Clean (key_binding sample_api (sample_identity 5) [] 60)
    × Clean (key_rotation sample_api sample_id (sample_identity 5) (sample_identity 6) 60 70)
    × Clean (revocation sample_api sample_id (4 ∷ []) (sample_identity 5) decommission 60)
builders-Clean_example =
    builders-Clean sample_api (sample_identity 5) (sample_identity 5) (sample_identity 6) sample_id
      [] (4 ∷ []) decommission 60 70
