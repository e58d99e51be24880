-- ===== src/Runtime/ServerLoop/Tests.antt =====
-- Instances for `run_server_loop` of nwep/src/runtime.rs.
use nwep_rs.Base.{
  ℕ, suc, pos, neg, ℤ, ◌≡◌, ◌⊎◌, refl, true, false, some, none, List, [], ◌∷◌, arith,
}
use nwep_rs.Error.{ok, check}
use nwep_rs.Dht
use nwep_rs.Dht.{DhtApi, DhtMetrics, Record, lookup_result, start_lookup}
use nwep_rs.Runtime.ServerLoop.{
  ServerApi, ServerCommand, dht_metrics, Round, Turn, server_tick, resolve_on_thread, run, start,
}
use nwep_rs.Runtime.ServerLoop.Announcing.{Spaced, Clock, run_announced}
use nwep_rs.Runtime.ServerLoop.Answering.{
  Finds, now, later, resolve_on_thread_sound, resolve_on_thread_complete,
}

abbrev sample_record : Record
sample_record = record { address = 77; seq = 1; timestamp = 5 }

-- A record turns up when the state has reached 4.
abbrev found_at : ℕ → ℤ
found_at (suc (suc (suc (suc w)))) = pos 0
found_at _ = neg 803

abbrev sample_server : ServerApi ℕ
sample_server = record {
  server_tick = λ now w. (pos 0, w);
  server_next_timeout_ms = λ now w. pos 90;
}

abbrev sample_dht : DhtApi ℕ
sample_dht = record {
  dht_attach = λ cs seq w. (pos 0, suc w);
  dht_bootstrap = λ secs w. (pos 0, suc w);
  dht_announce = λ a secs w. (pos 0, suc w);
  dht_start_lookup = λ target secs w. (pos 0, suc w);
  dht_lookup_result = λ target w. (found_at w, sample_record);
  dht_tick = λ secs w. (pos 0, suc w);
  dht_next_timeout_ms = λ secs w. pos 40;
  dht_close = λ w. suc w;
  dht_metrics_get = λ w. record {
    datagrams_sent = w;
    datagrams_received = 0;
    bytes_sent = 0;
    bytes_received = 0;
  };
}

abbrev round_at : ℕ → Round
round_at secs = record { now_ms = pos 0; secs = secs }

abbrev turn_at : ℕ → List ServerCommand → Turn
turn_at secs cs = record { stopped = false; now_ms = pos 0; secs = secs; commands = cs }

abbrev two_rounds : List Round
two_rounds = round_at 100 ∷ round_at 101 ∷ []

abbrev three_turns : List Turn
three_turns = turn_at 100 [] ∷ turn_at 110 (dht_metrics 8 ∷ []) ∷ turn_at 131 [] ∷ []

three_turns-Clock : Clock 1 three_turns
three_turns-Clock =
    (omega arith, omega arith, (omega arith, omega arith, (omega arith, omega arith, tt)))

run_announced_example :
    Spaced (run sample_server sample_dht true (some 9) (start 0) three_turns).announced
run_announced_example =
    run_announced sample_server sample_dht true (some 9) three_turns 0 three_turns-Clock

not_yet : lookup_result sample_dht 5 1 ≡ none
unfolding lookup_result
not_yet = refl

started : start_lookup sample_dht 5 100 1 ≡ (ok tt, 2)
unfolding start_lookup check
started = refl

second_round : Finds sample_server sample_dht 5 two_rounds 2 sample_record 4
unfolding lookup_result server_tick Dht.tick check
second_round =
    later (round_at 100) (round_at 101 ∷ []) 2 3 4 sample_record (refl, refl) refl
      (now (round_at 101) [] 3 4 sample_record (refl, refl) refl)

resolve_on_thread_complete_example :
    resolve_on_thread sample_server sample_dht 5 100 two_rounds 1 ≡ (ok 77, 4)
resolve_on_thread_complete_example =
    resolve_on_thread_complete sample_server sample_dht 5 100 two_rounds 1 2 sample_record 4 not_yet
      started second_round

abbrev last_state : ℕ
last_state = 4

resolve_on_thread_sound_example :
    ((found : Record) × (lookup_result sample_dht 5 1 ≡ some found)
      × (last_state ≡ 1)
      × (found.address ≡ 77))
    ⊎ ((found : Record) × (lookup_result sample_dht 5 1 ≡ none)
        × ((start_lookup sample_dht 5 100 1).0 ≡ ok tt)
        × Finds sample_server sample_dht 5 two_rounds (start_lookup sample_dht 5 100 1).1 found 4
        × (found.address ≡ 77))
resolve_on_thread_sound_example =
    resolve_on_thread_sound sample_server sample_dht 5 100 two_rounds 1 77 4
      resolve_on_thread_complete_example
