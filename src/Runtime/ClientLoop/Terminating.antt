-- ===== src/Runtime/ClientLoop/Terminating.antt =====
-- The end of the polling loop of `run_client_loop` in nwep/src/runtime.rs.
use nwep_rs.Base.{
  ℕ, zero, suc, ◌+◌, ◌≤◌, ◌≡◌, refl, inl, inr, Option, none, some, List, [], ◌∷◌, length, get_elem?,
  swap_remove, length-last_first, arith, Option-cases,
}
use nwep_rs.Error.{Result, ok, err}
use nwep_rs.Client.{ClientApi, Response, poll_request}
use nwep_rs.Runtime.ClientLoop.{Pending, Owner, polled, poll_from, poll_pass}

swap_remove-length :
    {A : Type 0} (i : ℕ) (xs : List A) {x : A}
    → get_elem? xs i ≡ some x
    → suc (length (swap_remove i xs)) ≡ length xs
unfolding swap_remove
swap_remove-length i [] e = cc
swap_remove-length zero (x ∷ xs) e = omega (arith, length-last_first xs)
swap_remove-length (suc i) (x ∷ xs) e = omega (arith, swap_remove-length i xs e)

get_elem?-beyond : {A : Type 0} (xs : List A) (i : ℕ) → length xs ≤ i → get_elem? xs i ≡ none
get_elem?-beyond [] i h = refl
get_elem?-beyond (x ∷ xs) zero h = absurd (omega arith)
get_elem?-beyond (x ∷ xs) (suc i) h = get_elem?-beyond xs i (omega arith)

get_elem?-within :
    {A : Type 0} (xs : List A) (i : ℕ) {x : A} → get_elem? xs i ≡ some x → suc i ≤ length xs
get_elem?-within [] i e = cc
get_elem?-within (x ∷ xs) zero e = omega arith
get_elem?-within (x ∷ xs) (suc i) e = omega (arith, get_elem?-within xs i e)

module _ {W : Type 0} (api : ClientApi W) where
  -- `while i < pending.len() { … }` without fuel: its rounds, from an index and a state to the state
  -- in which it ends.
  pub data Loops : ℕ → ℕ → Owner W → Owner W → Type 0 where
    stops : {i : ℕ} {o : Owner W} → get_elem? o.pending i ≡ none → Loops 0 i o o
    goes :
        {n i : ℕ} {o end : Owner W} {p : Pending}
        → get_elem? o.pending i ≡ some p
        → Loops n
            (polled i p o (poll_request api p.id o.world)).0
            (polled i p o (poll_request api p.id o.world)).1
            end
        → Loops (suc n) i o end

  -- What is left to look at shrinks in each round.
  polled-shrinks :
      (i : ℕ) (p : Pending) (o : Owner W) (r : Result (Option Response)) (w : W)
      → get_elem? o.pending i ≡ some p
      → length (polled i p o (r, w)).1.pending + (i + 1)
        ≡ length o.pending + (polled i p o (r, w)).0
  unfolding polled
  polled-shrinks i p o (ok (some resp)) w e = omega (arith, swap_remove-length i o.pending e)
  polled-shrinks i p o (ok none) w e = omega arith
  polled-shrinks i p o (err x) w e = omega (arith, swap_remove-length i o.pending e)

  poll_from-Loops :
      (fuel i : ℕ) (o : Owner W)
      → length o.pending ≤ fuel + i
      → (n : ℕ) × (n ≤ fuel) × Loops n i o (poll_from api fuel i o)
  unfolding poll_from
  poll_from-Loops zero i o h = (0, omega arith, stops (get_elem?-beyond o.pending i (omega arith)))
  poll_from-Loops (suc fuel) i o h = elim (Option-cases (get_elem? o.pending i)) [
    | inl e ↦ rw (poll_from, e) (0, omega arith, stops e)
    | inr (p, e) ↦
        let (r, w) = poll_request api p.id o.world in
        let next = polled i p o (r, w) in
        let (n, few, rest) =
          poll_from-Loops fuel next.0 next.1
            (omega (arith, h, polled-shrinks i p o r w e, get_elem?-within o.pending i e)) in
        rw (poll_from, e) (suc n, omega arith, goes e rest)
  ]

  -- The polling loop ends whatever the library answers, after as many rounds at most as requests are
  -- in flight, and `poll_pass` is the state in which it ends.
  pub poll_pass-Loops :
      (o : Owner W) → (n : ℕ) × (n ≤ length o.pending) × Loops n 0 o (poll_pass api o)
  unfolding poll_pass
  poll_pass-Loops o = poll_from-Loops (length o.pending) 0 o (omega arith)
