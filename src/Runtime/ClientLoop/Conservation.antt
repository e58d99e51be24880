-- ===== src/Runtime/ClientLoop/Conservation.antt =====
-- The reply senders that `run_client_loop` of nwep/src/runtime.rs takes, holds and answers.
use nwep_rs.Base.{
  ℕ, ◌+◌, ◌≡◌, inl, inr, refl, ap, List, [], ◌∷◌, ◌++◌, map, arith, count, count-append,
  count-map-last_first, Bool, true, false, map-append, not, ◌||◌, Bool-cases,
}
use nwep_rs.Error.{Result, ok, err}
use nwep_rs.Client.{ClientApi, tick, is_alive}
use nwep_rs.Runtime.ClientLoop.PollRule.{poll_pass_rule}
use nwep_rs.Runtime.ClientLoop.{
  Command, Pending, Answer, Owner, Turn, closed, fail_all, submitted, submit_one, submit_all,
  poll_pass, turn, run, start, is_err,
}

abbrev pub waiting : List Pending → List ℕ
waiting = map λ p. p.reply

abbrev pub replies : List Answer → List ℕ
replies = map λ a. a.reply

abbrev pub senders : List Command → List ℕ
senders = map λ c. c.reply

-- How often a sender is held: by a request in flight, or by an answer that was sent.
abbrev pub held : {W : Type 0} → ℕ → Owner W → ℕ
held t o = count t (waiting o.pending) + count t (replies o.answered)

-- How often it stands in the commands of some turns.
abbrev pub asked : ℕ → List Turn → ℕ
asked t [] = 0
asked t (x ∷ xs) = count t (senders x.commands) + asked t xs

replies-closed : (ps : List Pending) → replies (map closed ps) ≡ waiting ps
unfolding closed
replies-closed [] = refl
replies-closed (p ∷ ps) = ap (◌∷◌ p.reply) (replies-closed ps)

count-waiting-append :
    (t : ℕ) (xs ys : List Pending)
    → count t (waiting (xs ++ ys)) ≡ count t (waiting xs) + count t (waiting ys)
count-waiting-append t xs ys = rw (map-append _ xs ys) (count-append t (waiting xs) (waiting ys))

count-replies-append :
    (t : ℕ) (xs ys : List Answer)
    → count t (replies (xs ++ ys)) ≡ count t (replies xs) + count t (replies ys)
count-replies-append t xs ys = rw (map-append _ xs ys) (count-append t (replies xs) (replies ys))

module _ {W : Type 0} (t : ℕ) where
  held-fail_all : (o : Owner W) → held t (fail_all o) ≡ held t o
  unfolding fail_all
  held-fail_all o = omega (
    arith,
    count-replies-append t o.answered (map closed o.pending),
    ap (count t) (replies-closed o.pending),
  )

  held-submitted :
      (o : Owner W) (reply : ℕ) (r : Result ℕ) (w : W)
      → held t (submitted o reply (r, w)) ≡ held t o + count t (reply ∷ [])
  unfolding submitted
  held-submitted o reply (ok id) w =
      omega (arith, count-waiting-append t o.pending (record { id = id; reply = reply } ∷ []))
  held-submitted o reply (err e) w =
      omega
        (arith, count-replies-append t o.answered (record { reply = reply; result = err e } ∷ []))

module _ {W : Type 0} (api : ClientApi W) (t : ℕ) where
  held-submit_one :
      (o : Owner W) (c : Command) → held t (submit_one api o c) ≡ held t o + count t (c.reply ∷ [])
  unfolding submit_one
  held-submit_one o c = held-submitted t o c.reply _ _

  held-submit_all :
      (o : Owner W) (cs : List Command)
      → held t (submit_all api o cs) ≡ held t o + count t (senders cs)
  unfolding submit_all
  held-submit_all o [] = omega arith
  held-submit_all o (c ∷ cs) =
      omega (arith, held-submit_all (submit_one api o c) cs, held-submit_one o c)

  abbrev Balance : ℕ → List Pending → List Pending → W → List Answer → Type 0
  Balance n kept rest w sent =
      count t (waiting kept) + count t (waiting rest) + count t (replies sent) ≡ n

  held-poll_pass : (o : Owner W) → held t (poll_pass api o) ≡ held t o
  held-poll_pass o = omega (
    arith,
    poll_pass_rule api (Balance (held t o))
        (λ kept rest p w sent h e. omega (arith, count-waiting-append t kept (p ∷ [])))
        (λ kept rest p w sent s h e. omega (
          arith,
          count-map-last_first t (λ (x : Pending). x.reply) rest,
          count-replies-append t sent (record { reply = p.reply; result = s } ∷ []),
        ))
        o (omega arith),
  )

  -- A turn has one of three ends.
  turn_cases :
      (P : Owner W × Bool → Type 0) (o : Owner W) (x : Turn)
      → P (fail_all (submit_all api o x.commands), false)
      → ((w : W) → P (fail_all (record (submit_all api o x.commands) { world = w }), false))
      → ((w : W) → P (poll_pass api (record (submit_all api o x.commands) { world = w }), true))
      → P (turn api o x)
  unfolding turn
  turn_cases P o x gone dead alive = elim (Bool-cases x.disconnected) [
    | inl d ↦ rw d gone
    | inr d ↦
        rw d
          (elim (Bool-cases (
            is_err (tick api x.now_ms o₁.world).0
            || not (is_alive api (tick api x.now_ms o₁.world).1))) [
              | inl e ↦ rw e (dead _)
              | inr e ↦ rw e (alive _)
            ])
  ]
    where
      o₁ : Owner W
      o₁ = submit_all api o x.commands

  held-turn :
      (o : Owner W) (x : Turn) → held t (turn api o x).0 ≡ held t o + count t (senders x.commands)
  held-turn o x =
      turn_cases (λ r. held t r.0 ≡ held t o + count t (senders x.commands)) o x
        (omega (arith, held-fail_all t (submit_all api o x.commands), held-submit_all o x.commands))
        (λ w. omega (
          arith,
          held-fail_all t (record (submit_all api o x.commands) { world = w }),
          held-submit_all o x.commands,
        ))
        (λ w. omega (
          arith,
          held-poll_pass (record (submit_all api o x.commands) { world = w }),
          held-submit_all o x.commands,
        ))

  -- A turn that ends the loop leaves no request in flight.
  turn_ends : (o : Owner W) (x : Turn) → (turn api o x).1 ≡ false → (turn api o x).0.pending ≡ []
  unfolding fail_all
  turn_ends o x =
      turn_cases (λ r. r.1 ≡ false → r.0.pending ≡ []) o x (λ _. refl) (λ w _. refl) (λ w e. cc)

  abbrev Balanced : ℕ → Owner W × List Turn × Bool → Type 0
  Balanced n r = held t r.0 + asked t r.1 ≡ n

  run_balance : (o : Owner W) (ts : List Turn) → Balanced (held t o + asked t ts) (run api o ts)
  unfolding run
  run_balance o [] = refl
  run_balance o (x ∷ ts) = elim (Bool-cases (turn api o x).1) [
    | inl e ↦ rw (e, run) (omega (arith, run_balance (turn api o x).0 ts, held-turn o x))
    | inr e ↦ rw (e, run) (omega (arith, held-turn o x))
  ]

  run_ends :
      (o : Owner W) (ts : List Turn) → (run api o ts).2 ≡ false → (run api o ts).0.pending ≡ []
  unfolding run
  run_ends o [] = λ e. cc
  run_ends o (x ∷ ts) = elim (Bool-cases (turn api o x).1) [
    | inl e ↦ rw (e, run) (run_ends (turn api o x).0 ts)
    | inr e ↦ rw (e, run) (λ _. turn_ends o x e)
  ]

module _ {W : Type 0} (api : ClientApi W) (w : W) (ts : List Turn) (t : ℕ) where
  -- Whatever the turns and whatever the library answers: a reply sender stands in the requests in
  -- flight and in the answers sent, taken together, exactly as often as in the commands that the
  -- loop has taken. So no request is lost and none is answered twice.
  pub run_conserves :
      held t (run api (start w) ts).0 + asked t (run api (start w) ts).1 ≡ asked t ts
  run_conserves = omega (arith, run_balance api t (start w) ts)

  -- Once the loop has returned, no request is in flight, and each sender has been sent an answer as
  -- often as it stands in the commands that the loop has taken.
  pub run_returned :
      (run api (start w) ts).2 ≡ false
      → ((run api (start w) ts).0.pending ≡ [])
        × (count t (replies (run api (start w) ts).0.answered) + asked t (run api (start w) ts).1
            ≡ asked t ts)
  run_returned e =
      let ended = run_ends api t (start w) ts e in
      (ended, omega (arith, run_conserves, ap (λ (ps : List Pending). count t (waiting ps)) ended))
