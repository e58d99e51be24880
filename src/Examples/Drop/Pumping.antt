-- ===== src/Examples/Drop/Pumping.antt =====
-- The loop `pump` of nwep/examples/nwdrop.rs beside the loop of the managed server in nwep/src/runtime.rs.
use nwep_rs.Base.{
  ℤ, ℕ, ◌≡◌, refl, ap, ◌∙◌, inl, inr, Bool, true, false, Option, none, some, List, [], ◌∷◌, arith,
  Bool-cases,
}
use nwep_rs.Error.{ok, Result-cases}
use nwep_rs.Dht
use nwep_rs.Dht.{DhtApi}
use nwep_rs.Runtime.ServerLoop.{
  ServerApi, Turn, Owner, server_tick, is_due, announce_if_due, dht_part, answer_all, turn, run,
}
use nwep_rs.Examples.Drop.{announce_in_pump, pump}

-- A turn of the managed loop in which nothing is asked of it.
abbrev pub quiet : ℤ × ℕ → Turn
quiet (now_ms, secs) = record { stopped = false; now_ms = now_ms; secs = secs; commands = [] }

abbrev pub quiet_turns : List (ℤ × ℕ) → List Turn
quiet_turns [] = []
quiet_turns (r ∷ rs) = quiet r ∷ quiet_turns rs

module _ {W : Type 0} (server : ServerApi W) (dht : DhtApi W) where
  announce_agrees :
      (address : Option ℕ) (secs : ℕ) (o : Owner W)
      → announce_in_pump server dht address o.announced_at secs o.world ≡ (
        (announce_if_due server dht address o secs).announced_at,
        (announce_if_due server dht address o secs).world,
      )
  unfolding announce_if_due announce_in_pump
  announce_agrees none secs o = refl
  announce_agrees (some a) secs o = elim (Bool-cases (is_due o.announced_at secs)) [
    | inl e ↦ rw (announce_if_due, announce_in_pump, e) refl
    | inr e ↦ rw (announce_if_due, announce_in_pump, e) refl
  ]

  turn-quiet :
      (address : Option ℕ) (now_ms : ℤ) (secs : ℕ) (o : Owner W) {u : Unit {0}}
      → (server_tick server dht now_ms o.world).0 ≡ ok u
      → turn server dht true address o (quiet (now_ms, secs)) ≡ (
        announce_if_due server dht address
            (record o { world = (Dht.tick dht secs (server_tick server dht now_ms o.world).1).1 })
            secs,
        true,
      )
  unfolding turn dht_part answer_all
  turn-quiet address now_ms secs o e = rw (turn, e) refl

  run_goes_on :
      (address : Option ℕ) (t : Turn) (ts : List Turn) (o o' : Owner W)
      → turn server dht true address o t ≡ (o', true)
      → run server dht true address o (t ∷ ts) ≡ run server dht true address o' ts
  unfolding run
  run_goes_on address t ts o o' e =
      let running : (turn server dht true address o t).1 ≡ true =
        ap (λ (r : Owner W × Bool). r.1) e in
      rw (run, running) (ap (λ (r : Owner W × Bool). run server dht true address r.0 ts) e)

  pump_goes_on :
      (address : Option ℕ) (announced now : ℕ) (now_ms : ℤ) (rounds : List (ℤ × ℕ)) (w w' : W)
      → pump server dht address announced ((now_ms, now) ∷ rounds) w ≡ some w'
      → let w₂ = (Dht.tick dht now (server_tick server dht now_ms w).1).1 in
        let r = announce_in_pump server dht address announced now w₂ in
        ((u : Unit {0}) × ((server_tick server dht now_ms w).0 ≡ ok u))
        × (pump server dht address r.0 rounds r.1 ≡ some w')
  unfolding pump
  pump_goes_on address announced now now_ms rounds w w' h =
      elim (Result-cases (server_tick server dht now_ms w).0) [
        | inr (x, e) ↦ absurd (ground (arith, e, h))
        | inl (u, e) ↦
            elim (Result-cases (Dht.tick dht now (server_tick server dht now_ms w).1).0) [
              | inr (x, f) ↦ absurd (ground (arith, e, f, h))
              | inl (v, f) ↦ ((u, e), rw (pump, e, f) at h)
            ]
      ]

  -- Where the ticks of `pump` do not fail, and so it does not panic: the loop of the managed server,
  -- with the same clocks and nothing asked of it, leaves the library as `pump` does.
  pub pump-run :
      (address : Option ℕ) (rounds : List (ℤ × ℕ)) (o : Owner W) (w : W)
      → pump server dht address o.announced_at rounds o.world ≡ some w
      → (run server dht true address o (quiet_turns rounds)).world ≡ w
  unfolding run pump
  pump-run address [] o w h = cc
  pump-run address ((now_ms, secs) ∷ rounds) o w h =
      let o₂ : Owner W = record o {
        world = (Dht.tick dht secs (server_tick server dht now_ms o.world).1).1;
      } in
      let (ticked, rest) = pump_goes_on address o.announced_at secs now_ms rounds o.world w h in
      let o₃ = announce_if_due server dht address o₂ secs in
      ap (λ (r : Owner W). r.world)
        (run_goes_on address (quiet (now_ms, secs)) (quiet_turns rounds) o o₃
          (turn-quiet address now_ms secs o ticked.1))
      ∙ pump-run address rounds o₃ w (rw (announce_agrees address secs o₂) at rest)
