-- ===== src/Examples/Streaming/Tests.antt =====
-- Two streams of nwep/examples/nwcurl.rs over a library that takes all it is given.
use nwep_rs.Base.{
  ℕ, suc, List, pos, ◌≡◌, refl, inl, inr, ap, false, true, Bool, ◌&&◌, [], ◌∷◌, ◌++◌, Bytes, length,
  take, ascii, none, some, ◌==◌, arith, Bool-cases, if◌then◌else◌, take-length,
}
use nwep_rs.Error.{ok, check}
use nwep_rs.Ffi.{BodyArg, slice_parts}
use nwep_rs.Server.Deferred.{RespondApi, stream_send, stream_end, accepted}
use nwep_rs.Runtime.StreamPump.{StreamApi, StreamItem, Chunk, recv_chunk, verify, pump}
use nwep_rs.Runtime.StreamPump.Body.{last}
use nwep_rs.Examples.Streaming.{read_verified}
use nwep_rs.Examples.Streaming.Clients.{tally}
use nwep_rs.Examples.Streaming.Counting.{read_verified-tally}
use nwep_rs.Examples.Streaming.Feeding.{Takes, Apart}

-- What the streams have, each by its connection and its number.
abbrev World : Type 0
World = ℕ → ℕ → Bytes

abbrev same : ℕ → ℕ → ℕ → ℕ → Bool
same c s c' s' = c == c' && s == s'

abbrev put : ℕ → ℕ → Bytes → World → World
put c s b w c' s' = if same c s c' s' then w c' s' ++ b else w c' s'

abbrev bytes_of : BodyArg → Bytes
bytes_of b = elim b.bytes [ none ↦ [] | some x ↦ x ]

-- All that is given is taken.
abbrev wide : ℕ → ℕ → RespondApi World
wide c s = record {
  respond_header = λ n v w. (pos 0, w);
  respond = λ st body w. (pos 0, w);
  relay = λ origin w. (pos 0, w);
  respond_blit = λ body w. (pos 0, w);
  notify = λ event body w. (pos 0, w);
  stream_send = λ b w. (pos (length (bytes_of b)), put c s (bytes_of b) w);
  stream_end = λ w. (pos 0, w);
}

bytes_of-slice_parts : (b : Bytes) → bytes_of (slice_parts b) ≡ b
unfolding slice_parts
bytes_of-slice_parts [] = refl
bytes_of-slice_parts (x ∷ xs) = refl

same_refl : (c s : ℕ) → same c s c s ≡ true
same_refl c s = ground arith

same-Apart : (c s c' s' : ℕ) → Apart c s c' s' → same c s c' s' ≡ false
same-Apart c s c' s' x = elim (Bool-cases (same c s c' s')) [
  | inl e ↦ absurd (x (ground arith) (ground arith))
  | inr e ↦ e
]

taken_other :
    (c s c' s' : ℕ) (b : Bytes) (w : World) → Apart c s c' s' → put c s b w c' s' ≡ w c' s'
taken_other c s c' s' b w x = rw (same-Apart c s c' s' x) refl

taken_own :
    (c s : ℕ) (b : Bytes) (w : World)
    → put c s (bytes_of (slice_parts b)) w c s ≡ w c s ++ take (length b) b
taken_own c s b w = rw (same_refl c s, bytes_of-slice_parts b, take-length b) refl

wide-Takes : Takes wide
unfolding stream_send stream_end accepted check
wide-Takes = record {
  got = λ c s w. w c s;
  sends = λ c s b w. (
    length b,
    ap (λ x. ok (length x)) (bytes_of-slice_parts b),
    omega arith,
    taken_own c s b w,
    λ c' s' x. taken_other c s c' s' (bytes_of (slice_parts b)) w x,
  );
  ends = λ c s w. (refl, λ c' s'. refl);
}

abbrev begun : World
begun c s = if same 2 8 c s then ascii "he" else []

-- A stream of "hello" in a piece that ends it.
abbrev one_piece : StreamApi ℕ
one_piece = record {
  stream_recv = λ w. ((pos 0, record { buf = ascii "hello"; len = 5; ended = pos 1 }), suc w);
  stream_verify = λ key w. (pos 0, w);
}

one_piece-fits : (w : ℕ) (c : Chunk) → (recv_chunk one_piece w).0 ≡ ok c → c.n ≡ length c.bytes
unfolding recv_chunk check
one_piece-fits w c e = ground (arith, e)

read_verified-tally_example :
    ((read_verified one_piece 1 [] 0).0 ≡ ok (some 5))
    × ((items : List StreamItem) × (pump one_piece 1 [] (λ i. true) 0 0 ≡ some (items, 1))
        × (tally items 0 0 ≡ ok (5, 1)))
unfolding recv_chunk check verify
read_verified-tally_example =
    read_verified-tally one_piece one_piece-fits []
      (last 0 (record { bytes = ascii "hello"; n = 5; ended = true }) (ascii "hello" ∷ []) refl refl
        refl)
      1 (omega arith)
