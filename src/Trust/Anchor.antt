-- ===== src/Trust/Anchor.antt =====
-- nwep/src/trust/anchor.rs.
use nwep_rs.Base.{
  Duration, as_millis, ℤ, ℕ, pos, ◌-◌, ◌^◌, min, List, [], ◌∷◌, ◌++◌, Bytes, length, ◌==◌, eq_ℤ,
  if◌then◌else◌,
}
use nwep_rs.Error.{Result, ok, err, config_invalid, check, ◌>>=◌}
use nwep_rs.Ffi.{Call}
use nwep_rs.Sizing.{Producer, produce}
use nwep_rs.Secrets.{World, on_lib}
use nwep_rs.Identity.{Identity, NodeId, with_raw_keys}
use nwep_rs.LogServer.{DispatchOutcome, handled, not_mine}
use nwep_rs.Trust.Bls.{BlsKeypair, contiguous}

-- `PartialSig`, with `index` and `signature`.
pub record PartialSig : Type 0 where
  pub index : ℕ
  pub sig : Bytes

-- `AnchorNode`.
pub record AnchorNode : Type 0 where
  pub raw : ℕ

-- The anchor functions of libnwep, a parameter. A handle, a message or a response buffer is a pointer,
-- 0 the null one.
pub record AnchorApi (W : Type 0) : Type 0 where
  -- the keys, the keys of the share, its index and the window
  pub anchor_node_create : Bytes → Bytes → Bytes → Bytes → ℕ → ℕ → W → ℕ × W
  pub anchor_node_free : ℕ → W → W
  pub anchor_node_collect_log_root : ℕ → ℕ → Bytes → ℕ → Bytes → W → ℤ × W
  pub anchor_node_produce_partial_sig : ℕ → ℕ → Bytes → ℕ → W → (ℤ × (ℕ × Bytes)) × W
  -- the requester, the ids, their number, the message, the response buffer and the time
  pub anchor_node_dispatch : ℕ → Bytes → Bytes → ℕ → ℕ → ℕ → ℤ → W → ℤ × W
  pub anchor_request_partial_sig : ℕ → ℕ → Bytes → ℕ → Bytes → W → (ℤ × (ℕ × Bytes)) × W
  -- the epoch, the root and its size, the indexes and signatures, and the public keys
  pub anchor_finish_checkpoint : ℕ → Bytes → ℕ → Bytes → Bytes → ℕ → Bytes → ℕ → Producer W

-- `as_millis().min(u64::MAX as u128) as u64`.
unfoldable pub window_ms : Duration → ℕ
window_ms d = min (as_millis d) (2 ^ 64 - 1)

-- The loop that packs the node ids.
unfoldable pub packed_ids : List NodeId → Bytes
packed_ids [] = []
packed_ids (id ∷ ids) = id.bytes ++ packed_ids ids

-- The loop that packs the partial signatures: the indexes, and the signatures.
unfoldable pub packed_indices : List PartialSig → Bytes
packed_indices [] = []
packed_indices (p ∷ ps) = p.index ∷ packed_indices ps

unfoldable pub packed_sigs : List PartialSig → Bytes
packed_sigs [] = []
packed_sigs (p ∷ ps) = p.sig ++ packed_sigs ps

-- What a call that writes a partial signature gives.
unfoldable pub partial_sig : ℤ × (ℕ × Bytes) → Result PartialSig
partial_sig (rc, (index, sig)) = check rc >>= λ _. ok (record { index = index; sig = sig })

module _ {W : Type 0} (api : AnchorApi W) where
  -- `AnchorNode::new`.
  unfoldable pub new : Identity → BlsKeypair → ℕ → Duration → Call (World W) AnchorNode
  unfolding window_ms
  new identity bls share_index collection_window w =
      let (raw, w') =
        with_raw_keys identity
          (λ pk sk. on_lib (
            api.anchor_node_create pk sk bls.secret bls.public share_index
              (window_ms collection_window)))
          w in
      (if raw == 0 then err config_invalid else ok (record { raw = raw }), w')

  -- `AnchorNode::collect_log_root`.
  unfoldable pub collect_log_root : AnchorNode → ℕ → Bytes → ℕ → Bytes → Call W (Unit {0})
  collect_log_root node epoch server_root server_log_size local_root w =
      let (rc, w') =
        api.anchor_node_collect_log_root node.raw epoch server_root server_log_size local_root w in
      (check rc, w')

  -- `AnchorNode::produce_partial_sig`.
  unfoldable pub produce_partial_sig : AnchorNode → ℕ → Bytes → ℕ → Call W PartialSig
  unfolding partial_sig
  produce_partial_sig node epoch merkle_root log_size w =
      let (out, w') = api.anchor_node_produce_partial_sig node.raw epoch merkle_root log_size w in
      (partial_sig out, w')

  -- `AnchorNode::dispatch`.
  unfoldable pub dispatch : AnchorNode → NodeId → List NodeId → ℕ → ℕ → ℤ → W → DispatchOutcome × W
  unfolding packed_ids
  dispatch node requester anchor_ids msg buf now_secs w =
      let (rc, w') =
        api.anchor_node_dispatch node.raw requester.bytes (packed_ids anchor_ids)
          (length anchor_ids) msg buf now_secs w in
      (if eq_ℤ rc (pos 1) then not_mine else handled rc, w')

  -- `request_partial_sig`, over the client at this pointer.
  unfoldable pub request_partial_sig : ℕ → ℕ → Bytes → ℕ → Bytes → Call W PartialSig
  unfolding partial_sig
  request_partial_sig client epoch merkle_root log_size peer_bls_pubkey w =
      let (out, w') =
        api.anchor_request_partial_sig client epoch merkle_root log_size peer_bls_pubkey w in
      (partial_sig out, w')

  -- `Drop for AnchorNode`.
  unfoldable pub drop : AnchorNode → W → W
  drop node w = api.anchor_node_free node.raw w

  -- The call of `finish_checkpoint`, after its guards.
  unfoldable pub finish_packed : ℕ → Bytes → ℕ → List PartialSig → List Bytes → Call W Bytes
  unfolding packed_indices packed_sigs contiguous
  finish_packed epoch merkle_root log_size partials pubkeys = produce (
      api.anchor_finish_checkpoint epoch merkle_root log_size (packed_indices partials)
        (packed_sigs partials) (length partials) (contiguous pubkeys) (length pubkeys))

  -- `finish_checkpoint`.
  unfoldable pub finish_checkpoint : ℕ → Bytes → ℕ → List PartialSig → List Bytes → Call W Bytes
  unfolding finish_packed
  finish_checkpoint epoch merkle_root log_size [] pubkeys w = (err config_invalid, w)
  finish_checkpoint epoch merkle_root log_size (p ∷ ps) [] w = (err config_invalid, w)
  finish_checkpoint epoch merkle_root log_size (p ∷ ps) (k ∷ ks) w =
      finish_packed epoch merkle_root log_size (p ∷ ps) (k ∷ ks) w
