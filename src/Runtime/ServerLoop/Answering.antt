-- ===== src/Runtime/ServerLoop/Answering.antt =====
-- What `run_server_loop` of nwep/src/runtime.rs sends to the callers of a `RunningServer`.
use mathlib.Core.Path.{subst}
use nwep_rs.Base.{
  ℤ, ℕ, ◌≤◌, ◌≡◌, ◌⊎◌, inl, inr, refl, sym, ap, ◌∙◌, Bool, true, false, Option, none, some, List,
  [], ◌∷◌, ◌++◌, map, map-append, append_assoc, append-nil, arith, Option-cases,
}
use nwep_rs.Error.{ok, Result-cases}
use nwep_rs.Client.{timeout_of}
use nwep_rs.Dht
use nwep_rs.Dht.{DhtApi, Record, lookup_result, start_lookup}
use nwep_rs.Runtime.ClientLoop.{poll_cap_ms}
use nwep_rs.Runtime.ServerLoop.TurnCases.{turn_cases}
use nwep_rs.Runtime.ServerLoop.{
  ServerApi, ServerCommand, resolve, dht_metrics, Sent, resolved, measured, Round, Turn, Owner,
  server_tick, resolve_rounds, resolve_on_thread, answer, answer_all, announce_if_due, dht_part,
  turn, wait_ms,
}

abbrev pub sender : ServerCommand → ℕ
sender (resolve target secs rounds reply) = reply
sender (dht_metrics reply) = reply

abbrev pub receiver : Sent → ℕ
receiver (resolved reply r) = reply
receiver (measured reply m) = reply

module _ {W : Type 0} (server : ServerApi W) (dht : DhtApi W) where
  -- The commands of a turn are answered in their order, once each.
  answer_all-receivers :
      (cs : List ServerCommand) (o : Owner W)
      → map receiver (answer_all server dht o cs).answered
        ≡ map receiver o.answered ++ map sender cs
  unfolding answer_all answer
  answer_all-receivers [] o = sym (append-nil _)
  answer_all-receivers (resolve target secs rounds reply ∷ cs) o =
      answer_all-receivers cs _
      ∙ rw (map-append receiver o.answered _)
          (append_assoc (map receiver o.answered) (reply ∷ []) (map sender cs))
  answer_all-receivers (dht_metrics reply ∷ cs) o =
      answer_all-receivers cs _
      ∙ rw (map-append receiver o.answered _)
          (append_assoc (map receiver o.answered) (reply ∷ []) (map sender cs))

  -- Both ticks of a round succeed.
  abbrev pub Ticked : Round → W → W → Type 0
  Ticked r w w₂ =
      ((server_tick server dht r.now_ms w).0 ≡ ok tt)
      × (Dht.tick dht r.secs (server_tick server dht r.now_ms w).1 ≡ (ok tt, w₂))

  -- A record turns up in one of the rounds, after rounds without it.
  pub data Finds (target : ℕ) : List Round → W → Record → W → Type 0 where
    now :
        (r : Round) (rs : List Round) (w w₂ : W) (found : Record)
        → Ticked r w w₂
        → lookup_result dht target w₂ ≡ some found
        → Finds target (r ∷ rs) w found w₂
    later :
        (r : Round) (rs : List Round) (w w₂ w' : W) (found : Record)
        → Ticked r w w₂
        → lookup_result dht target w₂ ≡ none
        → Finds target rs w₂ found w'
        → Finds target (r ∷ rs) w found w'

  resolve_rounds_complete :
      (target : ℕ) (rs : List Round) (w : W) (found : Record) (w' : W)
      → Finds target rs w found w'
      → resolve_rounds server dht target rs w ≡ (ok found.address, w')
  unfolding resolve_rounds
  resolve_rounds_complete target _ w found w' (now r rs _ _ _ (t, u) l) = ground (arith, t, u, l)
  resolve_rounds_complete target _ w found w' (later r rs _ w₂ _ _ (t, u) l f) =
      ground (arith, t, u, l, resolve_rounds_complete target rs w₂ found w' f)

  resolve_rounds_sound :
      (target : ℕ) (rs : List Round) (w : W) (a : ℕ) (w' : W)
      → resolve_rounds server dht target rs w ≡ (ok a, w')
      → (found : Record) × Finds target rs w found w' × (found.address ≡ a)
  unfolding resolve_rounds
  resolve_rounds_sound target [] w a w' h = absurd (ground arith)
  resolve_rounds_sound target (r ∷ rs) w a w' h =
      elim (Result-cases (server_tick server dht r.now_ms w).0) [
        | inr (x, e) ↦ absurd (ground arith)
        | inl (u, e) ↦
            elim (Result-cases (Dht.tick dht r.secs (server_tick server dht r.now_ms w).1).0) [
              | inr (x, f) ↦ absurd (ground arith)
              | inl (v, f) ↦
                  let w₂ = (Dht.tick dht r.secs (server_tick server dht r.now_ms w).1).1 in
                  let ticked : Ticked r w w₂ = (ground arith, ground arith) in
                  elim (Option-cases (lookup_result dht target w₂)) [
                    | inl n ↦
                        let (found, fs, q) =
                          resolve_rounds_sound target rs w₂ a w' (ground arith) in
                        (found, later r rs w w₂ w' found ticked n fs, q)
                    | inr (found, l) ↦
                        let at : w₂ ≡ w' = ground arith in
                        (
                          found,
                          subst (Finds target (r ∷ rs) w found) at (now r rs w w₂ found ticked l),
                          ground arith,
                        )
                  ]
            ]
      ]

  -- A lookup that returns an address has it from a record of the DHT: one that was there before, and
  -- then nothing has changed the library; or the first that turned up in a round before the deadline,
  -- after rounds whose ticks all succeeded.
  pub resolve_on_thread_sound :
      (target secs : ℕ) (rounds : List Round) (w : W) (a : ℕ) (w' : W)
      → resolve_on_thread server dht target secs rounds w ≡ (ok a, w')
      → ((found : Record) × (lookup_result dht target w ≡ some found)
          × (w' ≡ w)
          × (found.address ≡ a))
        ⊎ ((found : Record) × (lookup_result dht target w ≡ none)
            × ((start_lookup dht target secs w).0 ≡ ok tt)
            × Finds target rounds (start_lookup dht target secs w).1 found w'
            × (found.address ≡ a))
  unfolding resolve_on_thread
  resolve_on_thread_sound target secs rounds w a w' h =
      elim (Option-cases (lookup_result dht target w)) [
        | inr (found, l) ↦ inl (found, l, ground arith, ground arith)
        | inl n ↦ elim (Result-cases (start_lookup dht target secs w).0) [
          | inr (x, e) ↦ absurd (ground arith)
          | inl (u, e) ↦
              let (found, fs, q) =
                resolve_rounds_sound target rounds (start_lookup dht target secs w).1 a w'
                  (ground arith) in
              inr (found, n, ground arith, fs, q)
        ]
      ]

  -- If the DHT has no record yet, the lookup starts, and a record turns up in a round before the
  -- deadline after rounds whose ticks succeeded, then the address of that record is returned.
  pub resolve_on_thread_complete :
      (target secs : ℕ) (rounds : List Round) (w w₁ : W) (found : Record) (w' : W)
      → lookup_result dht target w ≡ none
      → start_lookup dht target secs w ≡ (ok tt, w₁)
      → Finds target rounds w₁ found w'
      → resolve_on_thread server dht target secs rounds w ≡ (ok found.address, w')
  unfolding resolve_on_thread
  resolve_on_thread_complete target secs rounds w w₁ found w' n s f =
      ground (arith, n, s, resolve_rounds_complete target rounds w₁ found w' f)

  announce_if_due-answered :
      (address : Option ℕ) (o : Owner W) (secs : ℕ)
      → (announce_if_due server dht address o secs).answered ≡ o.answered
  unfolding announce_if_due
  announce_if_due-answered none o secs = refl
  announce_if_due-answered (some a) o secs = ground arith

  dht_part-receivers :
      (address : Option ℕ) (o : Owner W) (t : Turn)
      → map receiver (dht_part server dht true address o t).answered
        ≡ map receiver o.answered ++ map sender t.commands
  unfolding dht_part
  dht_part-receivers address o t =
      let ticked = record o { world = (Dht.tick dht t.secs o.world).1 } in
      answer_all-receivers t.commands (announce_if_due server dht address ticked t.secs)
      ∙ ap (λ xs. map receiver xs ++ map sender t.commands)
          (announce_if_due-answered address ticked t.secs)

  -- In a turn that goes on with a DHT, every command that the channel gave is answered once, in
  -- their order, after the answers of before.
  pub turn_receivers :
      (address : Option ℕ) (o : Owner W) (t : Turn)
      → (turn server dht true address o t).1 ≡ true
      → map receiver (turn server dht true address o t).0.answered
        ≡ map receiver o.answered ++ map sender t.commands
  turn_receivers address o t =
      turn_cases server dht true address
        (λ r.
          r.1 ≡ true → map receiver r.0.answered ≡ map receiver o.answered ++ map sender t.commands)
        o t (λ e. cc) (λ w e. cc) (λ w e. dht_part-receivers address (record o { world = w }) t)

module _ {W : Type 0} (server : ServerApi W) (dht : DhtApi W) (o : Owner W) (now : ℤ)
    (secs : ℕ) where
  -- The wait of a turn is at most the cap, the server's timer and, where there is a DHT, its timer.
  pub server_wait_ms_bounds :
      (has_dht : Bool)
      → (wait_ms server dht has_dht o now secs ≤ poll_cap_ms)
        × ((timeout_of (server.server_next_timeout_ms now o.world) ≡ none)
            ⊎ ((ms : ℕ) × (timeout_of (server.server_next_timeout_ms now o.world) ≡ some ms)
                × (wait_ms server dht has_dht o now secs ≤ ms)))
        × ((has_dht ≡ false)
            ⊎ (Dht.next_timeout dht secs o.world ≡ none)
            ⊎ ((ms : ℕ) × (Dht.next_timeout dht secs o.world ≡ some ms)
                × (wait_ms server dht has_dht o now secs ≤ ms)))
  unfolding wait_ms
  server_wait_ms_bounds has_dht = ground arith
