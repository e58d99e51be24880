-- ===== src/Sizing/Samples.antt =====
-- A producer for the tests, which asks for one byte more than it writes.
use nwep_rs.Base.{ℕ, suc, pos, ◌+◌, ◌++◌, none, some, [], Bytes, length, drop, refl, arith}
use nwep_rs.Sizing.{Producer}
use nwep_rs.Sizing.Contract.{Encodes}

abbrev pub writes : Bytes → Producer ℕ
writes enc none n w = ((pos 0, record { buf = []; len = length enc + 1 }), suc w)
writes enc (some buf) n w =
    ((pos 0, record { buf = enc ++ drop (length enc) buf; len = length enc }), suc w)

pub writes-Encodes : (enc : Bytes) (w : ℕ) → Encodes (writes enc) w (suc (suc w)) enc
writes-Encodes enc w = record {
  probed = suc w;
  size = length enc + 1;
  junk = [];
  enough = omega arith;
  probe = refl;
  fill = λ buf e. refl;
}
