-- ===== src/Runtime/ClientLoop/PollPass.antt =====
-- What one polling pass of `run_client_loop` does, where the library answers on each request by itself.
use mathlib.Core.List.{
  filter_map, Perm, filter_map-cons-none, filter_map-cons-some, Mem, Pairwise, mem-cons_self,
  mem-cons_of_mem,
}
use mathlib.Core.HLevel.{¬_prop}
use mathlib.Core.List.Perm
use nwep_rs.Base.{
  ℕ, ◌≡◌, ◌≢◌, refl, inl, inr, sym, ap, ◌∙◌, Option, none, some, List, [], ◌∷◌, ◌++◌, last_first,
  append-nil, append_assoc, last_first-perm,
}
use nwep_rs.Error.{Result, ok, err}
use nwep_rs.Client.{ClientApi, Response, poll_request}
use nwep_rs.Runtime.ClientLoop.PollRule.{Settled, poll_pass_rule}
use nwep_rs.Runtime.ClientLoop.{Pending, Answer, Owner, poll_pass}

-- The entry, if the answer on its request is that it is in flight.
abbrev pub still : Pending → Result (Option Response) → Option Pending
still p (ok none) = some p
still p (ok (some resp)) = none
still p (err e) = none

-- The reply that is due, if the answer is that the request is over.
abbrev pub due : Pending → Result (Option Response) → Option Answer
due p (ok none) = none
due p (ok (some resp)) = some (record { reply = p.reply; result = ok resp })
due p (err e) = some (record { reply = p.reply; result = err e })

-- Two entries for different requests, and entries of which any two are.
abbrev pub Differ : Pending → Pending → Type 0
Differ p q = p.id ≢ q.id

abbrev pub Distinct : List Pending → Type 0
Distinct = Pairwise Differ

-- The contract of `nwep_client_request_poll`: polling a request, which retires it if it is over, changes what
-- is answered on no other request.
abbrev pub Independent : {W : Type 0} → ClientApi W → Type 0
Independent api =
    (p q : ℕ) (w : _)
    → p ≢ q
    → (poll_request api q (poll_request api p w).1).0 ≡ (poll_request api q w).0

module _ {W : Type 0} (api : ClientApi W) (before : W) where
  -- What is answered on a request before the pass.
  abbrev pub answer : ℕ → Result (Option Response)
  answer id = (poll_request api id before).0

  abbrev pub in_flight : List Pending → List Pending
  in_flight = filter_map λ p. still p (answer p.id)

  abbrev pub over : List Pending → List Answer
  over = filter_map λ p. due p (answer p.id)

module _ {W : Type 0} (api : ClientApi W) (apart : Independent api) (before : W) where
  abbrev answered : ℕ → Result (Option Response)
  answered id = answer api before id

  abbrev flying : List Pending → List Pending
  flying = in_flight api before

  abbrev ended : List Pending → List Answer
  ended = over api before

  -- The entries that are still to be polled are answered as before the pass.
  abbrev Unpolled : List Pending → W → Type 0
  Unpolled rest w =
      Distinct rest × ((q : Pending) → Mem q rest → (poll_request api q.id w).0 ≡ answered q.id)

  polled_on :
      (p : Pending) (rest : List Pending) (w : W)
      → Unpolled (p ∷ rest) w
      → ((poll_request api p.id w).0 ≡ answered p.id) × Unpolled rest (poll_request api p.id w).1
  polled_on p rest w (Pairwise.cons others d, h) =
      (h p mem-cons_self, (d, λ q m. apart p.id q.id w (others q m) ∙ h q (mem-cons_of_mem p m)))

  moved : (rest : List Pending) (w : W) → Unpolled rest w → Unpolled (last_first rest) w
  moved rest w (d, h) = (
    Perm.pairwise {R = Differ} (λ a b. ¬_prop) (λ a b n e. n (sym e))
        (Perm.symm (last_first-perm rest)) d,
    λ q m. h q ((Perm.mem_iff (last_first-perm rest)).0 m),
  )

  abbrev Progress : Owner W → List Pending → List Pending → W → List Answer → Type 0
  Progress o kept rest w sent =
      (new : List Answer) × Perm (kept ++ flying rest) (flying o.pending)
      × (sent ≡ o.answered ++ new)
      × Perm (new ++ ended rest) (ended o.pending)
      × Unpolled rest w

  keep :
      (o : Owner W) (kept rest : List Pending) (p : Pending) (w : W) (sent : List Answer)
      → Progress o kept (p ∷ rest) w sent
      → (poll_request api p.id w).0 ≡ ok none
      → Progress o (kept ++ p ∷ []) rest (poll_request api p.id w).1 sent
  keep o kept rest p w sent (new, flight, e, settled, u) q =
      let (same, u') = polled_on p rest w u in
      let a : answered p.id ≡ ok none = sym same ∙ q in
      (
        new,
        rw (append_assoc kept (p ∷ []) (flying rest))
            (rw (filter_map-cons-some _ p rest (ap (still p) a)) at flight),
        e,
        rw (filter_map-cons-none _ p rest (ap (due p) a)) at settled,
        u',
      )

  -- the answers that are due after a retired entry, whose own answer now stands in front of them
  retired :
      (o : Owner W) (kept rest : List Pending) (p : Pending) (w w' : W) (sent : List Answer)
      (s : Result Response)
      → still p (answered p.id) ≡ none
      → due p (answered p.id) ≡ some (record { reply = p.reply; result = s })
      → Progress o kept (p ∷ rest) w sent
      → Unpolled rest w'
      → Progress o kept (last_first rest) w' (sent ++ record { reply = p.reply; result = s } ∷ [])
  retired o kept rest p w w' sent s none_left is_due (new, flight, e, settled, _) u' = (
    new ++ record { reply = p.reply; result = s } ∷ [],
    Perm.trans (Perm.append_left kept (Perm.filter_map _ (last_first-perm rest)))
        (rw (filter_map-cons-none _ p rest none_left) at flight),
    rw e (append_assoc o.answered new _),
    Perm.trans
        (rw
          (append_assoc new (record { reply = p.reply; result = s } ∷ []) (ended (last_first rest)))
          (Perm.append_left new (Perm.cons _ (Perm.filter_map _ (last_first-perm rest)))))
        (rw (filter_map-cons-some _ p rest is_due) at settled),
    moved rest w' u',
  )

  retire :
      (o : Owner W) (kept rest : List Pending) (p : Pending) (w : W) (sent : List Answer)
      (s : Result Response)
      → Progress o kept (p ∷ rest) w sent
      → Settled (poll_request api p.id w).0 s
      → Progress o kept
          (last_first rest)
          (poll_request api p.id w).1
          (sent ++ record { reply = p.reply; result = s } ∷ [])
  retire o kept rest p w sent s h (inl (resp, q, e)) =
      let (same, u) = polled_on p rest w h.4 in
      let a : answered p.id ≡ ok (some resp) = sym same ∙ q in
      retired o kept rest p w _ sent s (ap (still p) a) (rw e (ap (due p) a)) h u
  retire o kept rest p w sent s h (inr (x, q, e)) =
      let (same, u) = polled_on p rest w h.4 in
      let a : answered p.id ≡ err x = sym same ∙ q in
      retired o kept rest p w _ sent s (ap (still p) a) (rw e (ap (due p) a)) h u

module _ {W : Type 0} (api : ClientApi W) (apart : Independent api) where
  -- Where polling a request changes what is answered on no other one, and no two entries are for one request:
  -- a pass leaves in flight those requests that are answered to be in flight as the pass begins, and
  -- each other one is sent the result that it is answered then, once; the order of both may change. A
  -- request that is over may be retired by its poll.
  pub poll_pass-filter :
      (o : Owner W)
      → Distinct o.pending
      → (new : List Answer) × Perm (poll_pass api o).pending (in_flight api o.world o.pending)
        × ((poll_pass api o).answered ≡ o.answered ++ new)
        × Perm new (over api o.world o.pending)
  unfolding filter_map
  poll_pass-filter o d =
      let (new, flight, e, settled, _) =
        poll_pass_rule api (Progress api apart o.world o) (keep api apart o.world o)
          (retire api apart o.world o) o
          (
            [],
            Perm.refl (in_flight api o.world o.pending),
            sym (append-nil o.answered),
            Perm.refl (over api o.world o.pending),
            (d, λ q m. refl),
          ) in
      (new, rw (append-nil (poll_pass api o).pending) at flight, e, rw (append-nil new) at settled)
