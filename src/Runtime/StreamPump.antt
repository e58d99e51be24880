-- ===== src/Runtime/StreamPump.antt =====
-- The body of a streamed response in nwep/src/runtime.rs: the loop at the end of the owner thread of
-- `ClientBuilder::stream`, over `Stream::recv` and `Stream::verify` of nwep/src/client.rs, and
-- `AsyncStream::recv` on the other side of the channel.
pub mod Body
mod Tests
use nwep_rs.Base.{
  ℤ, ℕ, zero, suc, pos, ◌+◌, Bool, true, false, not, ◌&&◌, Option, none, some, List, [], ◌∷◌, ◌++◌,
  Bytes, ltb, take, replicate, eq_ℤ, if◌then◌else◌,
}
use nwep_rs.Error.{Error, Result, ok, err, check}
use nwep_rs.Ffi.{Call, pure, ◌>>=◌, checked}

-- What `nwep_client_stream_recv` writes.
pub record RecvOut : Type 0 where
  pub buf : Bytes
  pub len : ℕ
  pub ended : ℤ

-- libnwep's calls on one stream, a parameter.
pub record StreamApi (W : Type 0) : Type 0 where
  pub stream_recv : W → (ℤ × RecvOut) × W
  pub stream_verify : Bytes → W → ℤ × W

-- `Stream::recv`: the bytes that it has written into the buffer, and whether the stream has ended.
pub record Chunk : Type 0 where
  pub bytes : Bytes
  pub n : ℕ
  pub ended : Bool

-- An item of the channel: a chunk, the end of the body, or an error.
abbrev pub StreamItem : Type 0
StreamItem = Result (Option Bytes)

-- `client.peer_pubkey().unwrap_or([0u8; 32])`.
unfoldable pub peer_or_zero : Result Bytes → Bytes
peer_or_zero (ok key) = key
peer_or_zero (err e) = replicate 32 0

-- The item that ends the body, from the result of `stream.verify`.
unfoldable pub end_item : Result (Unit {0}) → StreamItem
end_item (ok _) = ok none
end_item (err e) = err e

-- `let _ = chunk_tx.blocking_send(item)`: what the channel then has more.
unfoldable pub sent_if : Bool → StreamItem → List StreamItem
sent_if true item = item ∷ []
sent_if false item = []

module _ {W : Type 0} (api : StreamApi W) where
  unfoldable pub recv_chunk : Call W Chunk
  recv_chunk = do
    out ← checked api.stream_recv
    pure
        (record { bytes = take out.len out.buf; n = out.len; ended = not (eq_ℤ out.ended (pos 0)) })

  -- `Stream::verify`.
  unfoldable pub verify : Bytes → Call W (Unit {0})
  verify key w = let (rc, w') = api.stream_verify key w in (check rc, w')

  -- The loop of the owner thread, on fuel; `takes i` is whether the i-th send finds a receiver. It
  -- returns what went into the channel; `none` means that the fuel ran out.
  unfoldable pub pump : ℕ → Bytes → (ℕ → Bool) → ℕ → W → Option (List StreamItem × W)
  unfolding sent_if
  pump zero peer takes i w = none
  pump (suc fuel) peer takes i w =
      let (r, w') = recv_chunk w in
      elim r [
        | err e ↦ some (sent_if (takes i) (err e), w')
        | ok c ↦ elim (ltb 0 c.n && not (takes i)) [
          | true ↦ some ([], w')
          | false ↦
              let i' = if ltb 0 c.n then i + 1 else i in
              let chunk : List StreamItem = if ltb 0 c.n then ok (some c.bytes) ∷ [] else [] in
              elim c.ended [
                | true ↦
                    let (v, w'') = verify peer w' in
                    some (chunk ++ sent_if (takes i') (end_item v), w'')
                | false ↦ elim (pump fuel peer takes i' w') [
                  | none ↦ none
                  | some (items, w'') ↦ some (chunk ++ items, w'')
                ]
              ]
        ]
      ]

-- `AsyncStream::recv`, where the owner thread has ended: the next item, or `Ok(None)` on a channel
-- that is closed and empty.
unfoldable pub recv : List StreamItem → StreamItem × List StreamItem
recv [] = (ok none, [])
recv (item ∷ items) = (item, items)

-- What the n-th call of `recv` returns, the first being number 0.
unfoldable pub nth_recv : ℕ → List StreamItem → StreamItem
unfolding recv
nth_recv zero items = (recv items).0
nth_recv (suc n) items = nth_recv n (recv items).1
