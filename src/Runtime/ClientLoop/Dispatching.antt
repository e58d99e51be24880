-- ===== src/Runtime/ClientLoop/Dispatching.antt =====
-- What a caller of `AsyncClient::dispatch` in nwep/src/runtime.rs gets from `run_client_loop`.
use nwep_rs.Base.{
  ℕ, ◌≤◌, ◌≡◌, ◌⊎◌, inl, inr, refl, true, false, Option, none, some, List, [], ◌∷◌, arith, count,
  ◌==◌, if◌then◌else◌, Bool-cases,
}
use nwep_rs.Error.{Result, err, network_closed}
use nwep_rs.Client.{ClientApi, Response}
use nwep_rs.Runtime.ClientLoop.{Answer, Turn, run, start, dispatch}
use nwep_rs.Runtime.ClientLoop.Conservation.{replies, asked, run_returned}

-- What is received on a oneshot channel, if anything was sent on it.
abbrev pub received : ℕ → List Answer → Option (Result Response)
received t [] = none
received t (a ∷ as') = if a.reply == t then some a.result else received t as'

received_cases :
    (t : ℕ) (sent : List Answer)
    → ((count t (replies sent) ≡ 0) × (received t sent ≡ none))
      ⊎ ((1 ≤ count t (replies sent)) × ((r : Result Response) × (received t sent ≡ some r)))
received_cases t [] = inl (refl, refl)
received_cases t (a ∷ as') = elim (Bool-cases (a.reply == t)) [
  | inl e ↦ inr (ground arith, (a.result, ground arith))
  | inr e ↦ elim (received_cases t as') [
    | inl (c, n) ↦ inl (ground arith, ground arith)
    | inr (c, (r, q)) ↦ inr (ground arith, (r, ground arith))
  ]
]

module _ {W : Type 0} (api : ClientApi W) (w : W) (ts : List Turn) (t : ℕ) where
  -- A request that was put into the channel once returns, when the loop has: with the only result
  -- that was sent on its channel if the loop has taken it, and with `NetworkClosed` if not.
  pub dispatch_returns :
      (run api (start w) ts).2 ≡ false
      → asked t ts ≡ 1
      → ((asked t (run api (start w) ts).1 ≡ 0)
          × (count t (replies (run api (start w) ts).0.answered) ≡ 1)
          × ((r : Result Response) × (received t (run api (start w) ts).0.answered ≡ some r)
              × (dispatch true (received t (run api (start w) ts).0.answered) ≡ r)))
        ⊎ ((asked t (run api (start w) ts).1 ≡ 1)
            × (dispatch true (received t (run api (start w) ts).0.answered) ≡ err network_closed))
  unfolding dispatch
  dispatch_returns e once = elim (received_cases t (run api (start w) ts).0.answered) [
    | inl (c, n) ↦ inr (omega (arith, (run_returned api w ts t e).1), rw n refl)
    | inr (c, (r, s)) ↦ inl (
      omega (arith, (run_returned api w ts t e).1),
      omega (arith, (run_returned api w ts t e).1),
      (r, s, rw s refl),
    )
  ]
