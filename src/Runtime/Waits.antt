-- ===== src/Runtime/Waits.antt =====
-- The waits of the owner threads in nwep/src/runtime.rs, over those of nwep/src/poll.rs.
mod Tests
use nwep_rs.Base.{
  ℤ, ℕ, ◌^◌, ◌≤◌, ◌<◌, ◌≡◌, refl, ap, inl, inr, Bool, true, false, Option, none, some, List, [],
  ◌∷◌, pos, min, arith, Option-cases, if◌then◌else◌,
}
use nwep_rs.Client.{ClientApi, next_timeout}
use nwep_rs.Dht
use nwep_rs.Dht.{DhtApi}
use nwep_rs.Poll.Waiting.{PollFd, PollApi, readable, signed_timeout, wait_readable, wait_readable2}
use nwep_rs.Runtime.ClientLoop
use nwep_rs.Runtime.ClientLoop.Closing.{wait_ms_bounds}
use nwep_rs.Runtime.ServerLoop
use nwep_rs.Runtime.ServerLoop.{ServerApi}
use nwep_rs.Runtime.ServerLoop.Answering.{server_wait_ms_bounds}

module _ {S W : Type 0} (poll : PollApi S) where
  -- The end of a turn of `run_server_loop`.
  unfoldable pub server_wait :
      ServerApi W → DhtApi W → Bool → ServerLoop.Owner W → ℤ → ℤ → ℕ → S → S
  unfolding wait_readable ServerLoop.wait_ms
  server_wait server dht has_dht o fd now secs s =
      wait_readable poll fd (ServerLoop.wait_ms server dht has_dht o now secs) s

  -- The end of a round of `resolve_on_thread`.
  unfoldable pub lookup_wait : DhtApi W → ℤ → ℕ → W → S → S
  unfolding wait_readable
  lookup_wait dht fd secs w s =
      let wait : ℕ = elim (Dht.next_timeout dht secs w) [
        | none ↦ min 20 20
        | some ms ↦ min ms 20
      ] in
      wait_readable poll fd wait s

  -- The end of a turn of `run_client_loop`.
  unfoldable pub client_wait : ClientApi W → ClientLoop.Owner W → ℤ → ℤ → ℤ → S → S
  unfolding wait_readable2 ClientLoop.wait_ms
  client_wait api o cfd wfd now s = wait_readable2 poll cfd wfd (ClientLoop.wait_ms api o now) s

signed_timeout-pos : (n : ℕ) → n ≤ 200 → signed_timeout n ≡ pos n
unfolding signed_timeout
signed_timeout-pos n h = ground arith

capped :
    (limit : ℕ) (o : Option ℕ)
    → (elim o [ none ↦ min limit limit | some ms ↦ min ms limit ]) ≤ limit
capped limit none = omega arith
capped limit (some ms) = omega arith

module _ {S : Type 0} (poll : PollApi S) where
  -- One call of `poll` over these descriptors, for some time that is not negative and at most a limit.
  abbrev pub Polls : List PollFd → ℕ → S → S → Type 0
  Polls fds limit s s' = (n : ℕ) × (n ≤ limit) × (s' ≡ poll.poll fds (pos n) s)

  polls :
      (fds : List PollFd) (limit n : ℕ) (s : S)
      → n ≤ limit
      → limit ≤ 200
      → Polls fds limit s (poll.poll fds (signed_timeout n) s)
  polls fds limit n s h c =
      (n, h, ap (λ t. poll.poll fds t s) (signed_timeout-pos n (omega (arith, h, c))))

  -- Whatever timers the library gives, no owner thread waits for ever or longer than its limit: a wait of the server
  -- loop and one of the client loop call `poll` for 200 milliseconds at most, and one of a lookup for 20. The
  -- time that `poll` is given, a signed number, is never negative. The server waits for its socket, the client
  -- for its socket and its waker.
  pub waits_capped :
      {W : Type 0} (server : ServerApi W) (dht : DhtApi W) (has_dht : Bool) (o : ServerLoop.Owner W)
      (client : ClientApi W) (c : ClientLoop.Owner W) (fd cfd wfd now : ℤ) (secs : ℕ) (s : S)
      → Polls (readable poll fd ∷ []) 200 s (server_wait poll server dht has_dht o fd now secs s)
        × Polls (readable poll fd ∷ []) 20 s (lookup_wait poll dht fd secs o.world s)
        × Polls
            (readable poll cfd ∷ readable poll wfd ∷ [])
            200
            s
            (client_wait poll client c cfd wfd now s)
  unfolding server_wait lookup_wait client_wait
  waits_capped server dht has_dht o client c fd cfd wfd now secs s = (
    polls (readable poll fd ∷ []) 200 (ServerLoop.wait_ms server dht has_dht o now secs) s
        (server_wait_ms_bounds server dht o now secs has_dht).0 (omega arith),
    polls (readable poll fd ∷ []) 20 _ s (capped 20 (Dht.next_timeout dht secs o.world))
        (omega arith),
    polls (readable poll cfd ∷ readable poll wfd ∷ []) 200 (ClientLoop.wait_ms client c now) s
        (wait_ms_bounds client c now).0 (omega arith),
  )
