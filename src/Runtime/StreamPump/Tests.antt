-- ===== src/Runtime/StreamPump/Tests.antt =====
-- Instances for the stream pump of nwep/src/runtime.rs: a stream of two pieces and an empty end.
use nwep_rs.Base.{
  ℤ, ℕ, zero, suc, pos, neg, ◌+◌, ◌≡◌, ◌⊎◌, refl, true, false, none, some, List, [], ◌∷◌, ◌++◌,
  Bytes, ascii, length, arith,
}
use nwep_rs.Error.{Error, ok, err, check, from_code}
use nwep_rs.Runtime.StreamPump.{
  RecvOut, StreamApi, StreamItem, end_item, recv_chunk, verify, pump, nth_recv,
}
use nwep_rs.Runtime.StreamPump.Body.{
  chunk_items, Yields, more, last, Ends, pump-Ends, pump_delivers, recv_after_failure,
}

abbrev piece_out : ℕ → (ℤ × RecvOut) × ℕ
piece_out zero = ((pos 0, record { buf = ascii "hello"; len = 5; ended = pos 0 }), 1)
piece_out (suc zero) = ((pos 0, record { buf = ascii "there"; len = 2; ended = pos 0 }), 2)
piece_out (suc (suc w)) = ((pos 0, record { buf = ascii "re"; len = 0; ended = pos 1 }), 3)

-- A stream whose verification returns a code.
abbrev sample_stream : ℤ → StreamApi ℕ
sample_stream rc = record { stream_recv = piece_out; stream_verify = λ key w. (rc, w) }

abbrev pieces : List Bytes
pieces = ascii "hello" ∷ ascii "th" ∷ []

sample-Yields : (rc : ℤ) → Yields (sample_stream rc) 0 pieces 3 3
unfolding recv_chunk check
sample-Yields rc =
    more 0 (record { bytes = ascii "hello"; n = 5; ended = false }) pieces (ascii "th" ∷ []) refl
      refl refl
      (more 1 (record { bytes = ascii "th"; n = 2; ended = false }) (ascii "th" ∷ []) [] refl refl
        refl (last 2 (record { bytes = []; n = 0; ended = true }) [] refl refl refl))

all_items :
    pump (sample_stream (pos 0)) 5 [] (λ i. true) 0 0 ≡ some (chunk_items pieces ++ ok none ∷ [], 3)
unfolding pump recv_chunk check verify end_item
all_items = refl

pump-Ends_example :
    Ends (sample_stream (pos 0)) [] (λ i. true) 0 0 (chunk_items pieces ++ ok none ∷ [])
pump-Ends_example = pump-Ends (sample_stream (pos 0)) 5 [] (λ i. true) 0 0 all_items

pump_delivers_example :
    (((verify (sample_stream (pos 0)) [] 3).0 ≡ ok tt)
      × (pump (sample_stream (pos 0)) 4 [] (λ i. true) 0 0
          ≡ some (chunk_items pieces ++ ok none ∷ [], (verify (sample_stream (pos 0)) [] 3).1)))
    ⊎ ((e : Error) × ((verify (sample_stream (pos 0)) [] 3).0 ≡ err e)
        × (pump (sample_stream (pos 0)) 4 [] (λ i. true) 0 0
            ≡ some (chunk_items pieces ++ err e ∷ [], (verify (sample_stream (pos 0)) [] 3).1)))
pump_delivers_example =
    pump_delivers (sample_stream (pos 0)) [] (sample-Yields (pos 0)) 4 (omega arith)

fails_to_verify : (verify (sample_stream (neg 304)) [] 3).0 ≡ err (from_code (neg 304))
unfolding verify check
fails_to_verify = refl

recv_after_failure_example :
    (items : List StreamItem) × (pump (sample_stream (neg 304)) 3 [] (λ i. true) 0 0
      ≡ some (items, (verify (sample_stream (neg 304)) [] 3).1))
    × (nth_recv (length pieces) items ≡ err (from_code (neg 304)))
    × (nth_recv (length pieces + 1) items ≡ ok none)
recv_after_failure_example =
    recv_after_failure (sample_stream (neg 304)) [] 3 (from_code (neg 304))
      (sample-Yields (neg 304)) (omega arith) fails_to_verify
