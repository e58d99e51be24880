-- ===== src/Examples/Kv/Tests.antt =====
-- A turn of the service in nwep/examples/nwkv.rs: a write, then a read and a delete of the same path.
use nwep_rs.Base.{◌≡◌, refl, Option, none, List, [], ◌∷◌, Bytes, ascii, map}
use nwep_rs.Examples.Samples.{counted, pushed, asking}
use nwep_rs.Examples.Kv.{Kv, Incoming, turn}
use nwep_rs.Examples.Kv.Storage.{get}
use nwep_rs.Examples.Kv.Refining.{
  act_of, after_all, answers, reply_all, writers, pushed_each, turn-Agrees,
}

abbrev incoming : List Incoming
incoming =
    record { message = asking (ascii "write") (ascii "/a"); conn_id = 5 }
    ∷ record { message = asking (ascii "read") (ascii "/a"); conn_id = 6 }
    ∷ record { message = asking (ascii "delete") (ascii "/a"); conn_id = 5 }
    ∷ []

abbrev nothing : Bytes → Option Bytes
nothing p = none

abbrev fresh : Kv
fresh = record { store = []; to_notify = [] }

turn-Agrees_example :
    let r = turn counted (λ c. pushed) incoming (fresh, 0) in
    ((q : Bytes) → get q r.0.store ≡ after_all (map act_of incoming) nothing q)
    × (r.0.to_notify ≡ [])
    × (r.1
        ≡ pushed_each
            (λ c. pushed)
            (writers incoming)
            (reply_all counted (answers (map act_of incoming) nothing) 0))
unfolding get
turn-Agrees_example = turn-Agrees counted (λ c. pushed) incoming nothing fresh 0 (λ q. refl)
