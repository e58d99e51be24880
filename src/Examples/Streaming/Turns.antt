-- ===== src/Examples/Streaming/Turns.antt =====
-- A turn of the streaming loop of nwep/examples/nwcurl.rs and managed_stream.rs.
use nwep_rs.Base.{ℕ, ◌≡◌, List, [], ◌∷◌, Bytes}
use nwep_rs.Server.Deferred.{RespondApi}
use nwep_rs.Examples.Streaming.Feeding.{Takes}

module _ {W : Type 0} (streams : ℕ → ℕ → RespondApi W) (body : Bytes) (t : Takes streams) where
  -- Parked streams that have nothing yet.
  abbrev pub Untouched : List (ℕ × ℕ) → W → Type 0
  Untouched [] w = Unit {0}
  Untouched ((conn, stream) ∷ pending) w = (t.got conn stream w ≡ []) × Untouched pending w
