-- ===== src/Runtime/ServerLoop/Announcing.antt =====
-- When `run_server_loop` of nwep/src/runtime.rs announces the service's address.
use nwep_rs.Base.{
  ℕ, ◌+◌, ◌-◌, ◌^◌, ◌≤◌, ◌<◌, ◌≡◌, ◌⊎◌, inl, inr, refl, Bool, true, false, Option, none, some, List,
  [], ◌∷◌, leb, arith, Bool-cases,
}
use nwep_rs.Dht
use nwep_rs.Dht.{DhtApi}
use nwep_rs.Runtime.ServerLoop.TurnCases.{turn_cases}
use nwep_rs.Runtime.ServerLoop.{
  ServerApi, ServerCommand, Turn, Owner, resolve, dht_metrics, elapsed, is_due, answer, answer_all,
  announce_if_due, dht_part, turn, run, start,
}

-- An announcement is due at the start, when the interval is over, or when the clock went back.
abbrev pub Due : ℕ → ℕ → Type 0
Due announced_at secs = (announced_at ≡ 0) ⊎ (secs < announced_at) ⊎ (announced_at + 30 ≤ secs)

elapsed-later : (secs since : ℕ) → since ≤ secs → secs < 2 ^ 64 → elapsed secs since ≡ secs - since
unfolding elapsed
elapsed-later secs since h k = omega arith

elapsed-earlier :
    (secs since : ℕ) → secs < since → since < 2 ^ 64 → elapsed secs since ≡ secs + 2 ^ 64 - since
unfolding elapsed
elapsed-earlier secs since h k = omega arith

is_due_lem :
    (a s : ℕ)
    → a < 2 ^ 63
    → s < 2 ^ 63
    → ((is_due a s ≡ true) × Due a s) ⊎ ((is_due a s ≡ false) × (a ≤ s) × (s < a + 30))
unfolding is_due
is_due_lem a s h k = elim (Bool-cases (leb a s)) [
  | inl e ↦ ground (arith, elapsed-later s a (ground arith) (omega arith))
  | inr e ↦ ground (arith, elapsed-earlier s a (ground arith) (omega arith))
]

-- Seconds of announcements, the latest first, with the interval between any two that follow.
abbrev pub Spaced : List ℕ → Type 0
Spaced [] = Unit {0}
Spaced (y ∷ []) = Unit {0}
Spaced (y ∷ x ∷ xs) = (x + 30 ≤ y) × Spaced (x ∷ xs)

-- Turns on which the wall clock does not go back, from `low` on.
abbrev pub Clock : ℕ → List Turn → Type 0
Clock low [] = Unit {0}
Clock low (t ∷ ts) = (low ≤ t.secs) × (t.secs < 2 ^ 63) × Clock t.secs ts

-- The last announcement is the one that the loop remembers.
abbrev Remembers : ℕ → List ℕ → Type 0
Remembers a [] = a ≡ 0
Remembers a (x ∷ xs) = (a ≡ x) × (0 < a)

abbrev Keeps : {W : Type 0} → ℕ → Owner W → Type 0
Keeps low o = (o.announced_at ≤ low) × Remembers o.announced_at o.announced × Spaced o.announced

Spaced-cons :
    (a s : ℕ) (xs : List ℕ)
    → a ≤ s
    → 0 < s
    → Remembers a xs
    → Spaced xs
    → (a ≡ 0) ⊎ (a + 30 ≤ s)
    → Spaced (s ∷ xs)
Spaced-cons a s [] h p r q d = tt
Spaced-cons a s (x ∷ xs) h p r q d = (ground arith, q)

module _ {W : Type 0} (server : ServerApi W) (dht : DhtApi W) where
  -- On seconds below 2^63, the announcement of a turn happens exactly if there has been none, if
  -- 30 seconds have passed since the last one, or if the clock has gone back behind it; the loop
  -- then remembers it. Otherwise the turn changes nothing here.
  pub announce_if_due_lem :
      (address : ℕ) (o : Owner W) (secs : ℕ)
      → o.announced_at < 2 ^ 63
      → secs < 2 ^ 63
      → let o' = announce_if_due server dht (some address) o secs in
        (Due o.announced_at secs × (o'.announced ≡ secs ∷ o.announced) × (o'.announced_at ≡ secs))
        ⊎ ((o.announced_at ≤ secs) × (secs < o.announced_at + 30) × (o' ≡ o))
  unfolding announce_if_due
  announce_if_due_lem address o secs h k = ground (arith, is_due_lem o.announced_at secs h k)

  announce_if_due-Keeps :
      (address : Option ℕ) (o : Owner W) (low secs : ℕ)
      → 0 < low
      → low ≤ secs
      → secs < 2 ^ 63
      → Keeps low o
      → Keeps secs (announce_if_due server dht address o secs)
  unfolding announce_if_due
  announce_if_due-Keeps none o low secs p h k i = (omega arith, i.1, i.2)
  announce_if_due-Keeps (some address) o low secs p h k i =
      elim (is_due_lem o.announced_at secs (omega arith) k) [
        | inl (e, d) ↦ rw e (
          omega arith,
          (refl, omega arith),
          Spaced-cons o.announced_at secs o.announced (omega arith) (omega arith) i.1 i.2
              (ground arith),
        )
        | inr (e, m, l) ↦ rw e (omega arith, i.1, i.2)
      ]

  answer_all-announced :
      (cs : List ServerCommand) (o : Owner W)
      → ((answer_all server dht o cs).announced ≡ o.announced)
        × ((answer_all server dht o cs).announced_at ≡ o.announced_at)
  unfolding answer_all answer
  answer_all-announced [] o = (refl, refl)
  answer_all-announced (resolve target secs rounds reply ∷ cs) o = answer_all-announced cs _
  answer_all-announced (dht_metrics reply ∷ cs) o = answer_all-announced cs _

  dht_part-Keeps :
      (has_dht : Bool) (address : Option ℕ) (o : Owner W) (t : Turn) (low : ℕ)
      → 0 < low
      → low ≤ t.secs
      → t.secs < 2 ^ 63
      → Keeps low o
      → Keeps t.secs (dht_part server dht has_dht address o t)
  unfolding dht_part
  dht_part-Keeps false address o t low p h k i = (omega arith, i.1, i.2)
  dht_part-Keeps true address o t low p h k i =
      let ticked = record o { world = (Dht.tick dht t.secs o.world).1 } in
      let (same, same_at) =
        answer_all-announced t.commands (announce_if_due server dht address ticked t.secs) in
      rw (same, same_at) (announce_if_due-Keeps address ticked low t.secs p h k i)

  turn-Keeps :
      (has_dht : Bool) (address : Option ℕ) (o : Owner W) (t : Turn) (low : ℕ)
      → 0 < low
      → low ≤ t.secs
      → t.secs < 2 ^ 63
      → Keeps low o
      → Keeps t.secs (turn server dht has_dht address o t).0
  turn-Keeps has_dht address o t low p h k i =
      turn_cases server dht has_dht address (λ r. Keeps t.secs r.0) o t (omega arith, i.1, i.2)
        (λ w. (omega arith, i.1, i.2))
        (λ w. dht_part-Keeps has_dht address (record o { world = w }) t low p h k i)

  run-Keeps :
      (has_dht : Bool) (address : Option ℕ) (ts : List Turn) (o : Owner W) (low : ℕ)
      → 0 < low
      → Clock low ts
      → Keeps low o
      → Spaced (run server dht has_dht address o ts).announced
  unfolding run
  run-Keeps has_dht address [] o low p c i = i.2
  run-Keeps has_dht address (t ∷ ts) o low p (h, k, c) i =
      let kept = turn-Keeps has_dht address o t low p h k i in
      elim (Bool-cases (turn server dht has_dht address o t).1) [
        | inl e ↦ rw (e, run) (run-Keeps has_dht address ts _ t.secs (omega arith) c kept)
        | inr e ↦ rw (e, run) kept.2
      ]

  -- While the wall clock does not go back, and stays between 1 and 2^63 seconds: any two
  -- announcements of the loop are 30 seconds apart at least.
  pub run_announced :
      (has_dht : Bool) (address : Option ℕ) (ts : List Turn) (w : W)
      → Clock 1 ts
      → Spaced (run server dht has_dht address (start w) ts).announced
  run_announced has_dht address ts w c =
      run-Keeps has_dht address ts (start w) 1 (omega arith) c (omega arith, refl, tt)
