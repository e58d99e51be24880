-- ===== src/Trust/Tests.antt =====
-- Instances for nwep/src/trust: two founders, a store that is a counter.
use nwep_rs.Base.{ℕ, pos, ◌≡◌, ◌++◌, refl, [], ◌∷◌, replicate, arith}
use nwep_rs.Sizing.{produce}
use nwep_rs.Sizing.Samples.{writes}
use nwep_rs.Secrets.{World, Clean}
use nwep_rs.Identity.{Identity}
use nwep_rs.Trust.Bls.{BlsKeypair}
use nwep_rs.Trust.Checkpoint.{CheckpointApi, Founders, genesis_checkpoint}
use nwep_rs.Trust.Genesis.{genesis_checkpoint-produce}
use nwep_rs.Trust.Anchor.{AnchorApi, new}
use nwep_rs.Trust.Quorum.{trust-Clean}

abbrev founder : ℕ → BlsKeypair
founder k = record { secret = replicate 32 k; public = replicate 48 k }

abbrev two_founders : Founders
two_founders = (founder 5, 1) ∷ (founder 6, 2) ∷ []

abbrev sample_ceremony : CheckpointApi ℕ
sample_ceremony = record {
  checkpoint_decode = λ bytes w. ((pos 0, 1), w);
  checkpoint_staleness = λ raw now w. pos 0;
  checkpoint_free = λ raw w. w;
  genesis_checkpoint_create = λ secrets pubkeys indices n t. writes (indices ++ t ∷ []);
}

abbrev start : World ℕ
start = record { lib = 0; buffers = [] }

genesis_checkpoint-produce_example :
    let create = writes (1 ∷ 2 ∷ 2 ∷ []) in
    let run = genesis_checkpoint sample_ceremony two_founders 2 start in
    (run.0 ≡ (produce create 0).0) × (run.1.lib ≡ (produce create 0).1)
genesis_checkpoint-produce_example =
    genesis_checkpoint-produce sample_ceremony two_founders 2 start (omega arith) (omega arith)
      (refl, (refl, tt)) (refl, (refl, tt))

abbrev sample_anchors : AnchorApi ℕ
sample_anchors = record {
  anchor_node_create = λ pk sk bs bp i win w. (1, w);
  anchor_node_free = λ raw w. w;
  anchor_node_collect_log_root = λ raw e r n l w. (pos 0, w);
  anchor_node_produce_partial_sig = λ raw e r n w. ((pos 0, (1, [])), w);
  anchor_node_dispatch = λ raw id ids n msg buf now w. (pos 0, w);
  anchor_request_partial_sig = λ c e r n k w. ((pos 0, (1, [])), w);
  anchor_finish_checkpoint = λ e r n is ss k ps m. writes is;
}

abbrev anchor_identity : Identity
anchor_identity = record {
  node_id = record { bytes = 1 ∷ [] };
  pubkey = 1 ∷ [];
  privkey = 8 ∷ 9 ∷ [];
}

trust-Clean_example :
    Clean (new sample_anchors anchor_identity (founder 5) 1 (record { secs = 3300; nanos = 0 }))
    × Clean (genesis_checkpoint sample_ceremony two_founders 2)
trust-Clean_example =
    trust-Clean sample_anchors sample_ceremony anchor_identity (founder 5) 1
      (record { secs = 3300; nanos = 0 }) two_founders 2
