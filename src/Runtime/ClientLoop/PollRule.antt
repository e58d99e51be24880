-- ===== src/Runtime/ClientLoop/PollRule.antt =====
-- The rule for the polling loop of `run_client_loop`: the entries before the index are kept, those
-- from it on are still to be polled.
use nwep_rs.Base.{
  ℕ, zero, suc, ◌+◌, ◌≤◌, ◌≡◌, ◌⊎◌, inl, inr, refl, sym, Option, none, some, List, [], ◌∷◌, ◌++◌,
  arith, length, length-append, append_assoc, append-nil, get_elem?-length_append, get_elem?-length,
  swap_remove-length_append, last_first, length-last_first,
}
use nwep_rs.Error.{Error, Result, ok, err}
use nwep_rs.Client.{ClientApi, Response, poll_request}
use nwep_rs.Runtime.ClientLoop.{Pending, Answer, Owner, poll_from, polled, poll_pass}

-- What a poll says: the request is in flight, or it is over with a result.
abbrev pub Settled : Result (Option Response) → Result Response → Type 0
Settled r s =
    ((resp : Response) × (r ≡ ok (some resp)) × (s ≡ ok resp))
    ⊎ ((e : Error) × (r ≡ err e) × (s ≡ err e))

module _ {W : Type 0} (api : ClientApi W)
    (P : List Pending → List Pending → W → List Answer → Type 0)
    (keep : (kept rest : List Pending) (p : Pending) (w : W) (sent : List Answer)
      → P kept (p ∷ rest) w sent
      → (poll_request api p.id w).0 ≡ ok none
      → P (kept ++ p ∷ []) rest (poll_request api p.id w).1 sent)
    (retire : (kept rest : List Pending) (p : Pending) (w : W) (sent : List Answer)
        (s : Result Response)
      → P kept (p ∷ rest) w sent
      → Settled (poll_request api p.id w).0 s
      → P kept
          (last_first rest)
          (poll_request api p.id w).1
          (sent ++ record { reply = p.reply; result = s } ∷ [])) where
  abbrev After : Owner W → Type 0
  After o = P o.pending [] o.world o.answered

  abbrev at : List Pending → List Pending → W → List Answer → Owner W
  at kept rest w sent = record { world = w; pending = kept ++ rest; answered = sent }

  -- the loop from a state, after a poll that returned `r`
  step :
      (fuel : ℕ) (kept rest : List Pending) (p : Pending) (w : W) (sent : List Answer)
      (r : Result (Option Response))
      → (poll_request api p.id w).0 ≡ r
      → P kept (p ∷ rest) w sent
      → ((kept' rest' : List Pending) (w' : W) (sent' : List Answer)
          → length rest' ≤ length rest
          → P kept' rest' w' sent'
          → After (poll_from api fuel (length kept') (at kept' rest' w' sent')))
      → let (i', o') =
          polled (length kept) p (at kept (p ∷ rest) w sent) (r, (poll_request api p.id w).1) in
        After (poll_from api fuel i' o')
  unfolding polled
  step fuel kept rest p w sent (ok none) e h ih =
      let next : length kept + 1 ≡ length (kept ++ p ∷ []) =
        omega (arith, length-append kept (p ∷ [])) in
      let regroup : kept ++ p ∷ rest ≡ (kept ++ p ∷ []) ++ rest =
        sym (append_assoc kept (p ∷ []) rest) in
      rw (next, regroup)
        (ih (kept ++ p ∷ []) rest _ sent (omega arith) (keep kept rest p w sent h e))
  step fuel kept rest p w sent (ok (some resp)) e h ih =
      rw (swap_remove-length_append kept rest p) (
        ih kept (last_first rest) _ _ (omega (arith, length-last_first rest))
          (retire kept rest p w sent (ok resp) h (inl (resp, e, refl))))
  step fuel kept rest p w sent (err x) e h ih = rw (swap_remove-length_append kept rest p) (
      ih kept (last_first rest) _ _ (omega (arith, length-last_first rest))
        (retire kept rest p w sent (err x) h (inr (x, e, refl))))

  poll_from_rule :
      (fuel : ℕ) (kept rest : List Pending) (w : W) (sent : List Answer)
      → length rest ≤ fuel
      → P kept rest w sent
      → After (poll_from api fuel (length kept) (at kept rest w sent))
  unfolding poll_from
  poll_from_rule zero kept [] w sent l h = rw (append-nil kept) h
  poll_from_rule zero kept (p ∷ rest) w sent l h = absurd (omega arith)
  poll_from_rule (suc fuel) kept [] w sent l h =
      rw (append-nil kept, get_elem?-length kept, poll_from, append-nil kept) h
  poll_from_rule (suc fuel) kept (p ∷ rest) w sent l h =
      rw (get_elem?-length_append kept rest p, poll_from)
        (step fuel kept rest p w sent (poll_request api p.id w).0 refl h
          (λ kept' rest' w' sent' m h'. poll_from_rule fuel kept' rest' w' sent' (omega arith) h'))

  -- A pass polls every entry once: what holds before it with all entries to be polled holds after
  -- it with none left.
  pub poll_pass_rule : (o : Owner W) → P [] o.pending o.world o.answered → After (poll_pass api o)
  unfolding poll_pass
  poll_pass_rule o h =
      poll_from_rule (length o.pending) [] o.pending o.world o.answered (omega arith) h
