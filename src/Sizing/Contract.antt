-- ===== src/Sizing/Contract.antt =====
-- Two-call sizing in nwep/src, for a producer that keeps to its contract.
use nwep_rs.Base.{
  ℕ, pos, ◌≤◌, ◌≡◌, none, some, Bytes, ◌++◌, length, drop, replicate, arith, length-replicate,
  take-length_append,
}
use nwep_rs.Error.{ok, check}
use nwep_rs.Sizing.{Producer, produce}

-- The contract of a producer at a state of the library, for the bytes that it encodes: the probe
-- gives a size that suffices, and the second call writes the bytes to the front of the buffer, and
-- their number.
pub record Encodes {W : Type 0} (call : Producer W) (w w' : W) (enc : Bytes) : Type 0 where
  pub probed : W
  pub size : ℕ
  pub junk : Bytes
  pub enough : length enc ≤ size
  pub probe : call none 0 w ≡ ((pos 0, record { buf = junk; len = size }), probed)
  pub fill :
      (buf : Bytes)
      → length buf ≡ size
      → call (some buf) size probed
        ≡ ((pos 0, record { buf = enc ++ drop (length enc) buf; len = length enc }), w')

-- Where the producer keeps its contract, the result is exactly the encoding, also if the probe
-- asked for more room than it took.
pub produce-Encodes :
    {W : Type 0} (call : Producer W) {w w' : W} (enc : Bytes)
    → Encodes call w w' enc
    → produce call w ≡ (ok enc, w')
unfolding produce check
produce-Encodes call enc c = ground (
  arith,
  c.probe,
  c.fill (replicate c.size 0) (length-replicate c.size 0),
  take-length_append enc (drop (length enc) (replicate c.size 0)),
)
