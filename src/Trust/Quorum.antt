-- ===== src/Trust/Quorum.antt =====
-- The anchors of nwep/src/trust/anchor.rs: what the library reads of the packed slices, and what is left
-- of the private key.
use nwep_rs.Base.{ℕ, Duration, List, [], ◌∷◌, ◌++◌, map, ◌≡◌, refl, ap, arith}
use nwep_rs.Secrets.{Clean}
use nwep_rs.Secrets.Wiping.{on_lib-Clean}
use nwep_rs.Identity.{Identity, NodeId}
use nwep_rs.Identity.Keys.{with_raw_keys-Clean}
use nwep_rs.Shamir.{chunks, pack}
use nwep_rs.Shamir.Shares.{AllOf, chunks-pack}
use nwep_rs.Trust.Bls.{BlsKeypair}
use nwep_rs.Trust.Checkpoint.{CheckpointApi, Founders, genesis_checkpoint}
use nwep_rs.Trust.Genesis.{genesis_checkpoint-Clean}
use nwep_rs.Trust.Anchor.{
  AnchorApi, PartialSig, window_ms, packed_ids, packed_sigs, packed_indices, new,
}

module _ {W : Type 0} (api : AnchorApi W) where
  new-Clean :
      (identity : Identity) (bls : BlsKeypair) (share_index : ℕ) (window : Duration)
      → Clean (new api identity bls share_index window)
  unfolding new
  new-Clean identity bls share_index window = with_raw_keys-Clean identity _ (λ pk sk.
      on_lib-Clean
        (api.anchor_node_create pk sk bls.secret bls.public share_index (window_ms window)))

-- `AnchorNode::new` leaves no copy of the identity's private key, and the genesis ceremony none of the
-- founding secrets, whatever the library answers, and also where the ceremony is refused.
pub trust-Clean :
    {W : Type 0} (anchors : AnchorApi W) (api : CheckpointApi W) (identity : Identity)
    (bls : BlsKeypair) (share_index : ℕ) (window : Duration) (founders : Founders) (threshold : ℕ)
    → Clean (new anchors identity bls share_index window)
      × Clean (genesis_checkpoint api founders threshold)
trust-Clean anchors api identity bls share_index window founders threshold = (
  new-Clean anchors identity bls share_index window,
  genesis_checkpoint-Clean api founders threshold,
)

pub packed_ids-pack : (ids : List NodeId) → packed_ids ids ≡ pack (map (λ id. id.bytes) ids)
unfolding packed_ids pack
packed_ids-pack [] = refl
packed_ids-pack (id ∷ ids) = ap (λ b. id.bytes ++ b) (packed_ids-pack ids)

pub packed_sigs-pack : (ps : List PartialSig) → packed_sigs ps ≡ pack (map (λ p. p.sig) ps)
unfolding packed_sigs pack
packed_sigs-pack [] = refl
packed_sigs-pack (p ∷ ps) = ap (λ b. p.sig ++ b) (packed_sigs-pack ps)

-- A library that reads node ids of 32 bytes and signatures of 96 bytes one after the other from the
-- packed buffers reads those of the slices, in their order, and as many indexes as signatures.
pub packed_lem :
    (ids : List NodeId) (ps : List PartialSig)
    → AllOf 32 (map (λ id. id.bytes) ids)
    → AllOf 96 (map (λ p. p.sig) ps)
    → (chunks 32 (packed_ids ids) ≡ map (λ id. id.bytes) ids)
      × (chunks 96 (packed_sigs ps) ≡ map (λ p. p.sig) ps)
      × (packed_indices ps ≡ map (λ p. p.index) ps)
unfolding packed_indices
packed_lem ids ps a b = (
  rw (packed_ids-pack ids) (chunks-pack 32 (map (λ id. id.bytes) ids) (omega arith) a),
  rw (packed_sigs-pack ps) (chunks-pack 96 (map (λ p. p.sig) ps) (omega arith) b),
  indices ps,
)
  where
    indices : (ps : List PartialSig) → packed_indices ps ≡ map (λ p. p.index) ps
    indices [] = refl
    indices (p ∷ ps) = ap (◌∷◌ p.index) (indices ps)
