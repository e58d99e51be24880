-- ===== src/Runtime/Serving/Starts.antt =====
-- How the owner thread of `ServerBuilder::serve` in nwep/src/runtime.rs starts or gives up.
use nwep_rs.Base.{
  ℕ, ◌≡◌, ◌⊎◌, inl, inr, refl, Bool, true, false, Option, none, some, List, [], ◌∷◌, ◌++◌, length,
  append-nil,
}
use nwep_rs.Error.{Error, Result, ok, err}
use nwep_rs.Lifecycle.{Event, Handle, replay, fresh}
use nwep_rs.Dht.{DhtApi}
use nwep_rs.Server.Build.{
  ServerBuilder, Server, ListenApi, Built, build, managed_dht, take_managed_dht, drop, ticks,
}
use nwep_rs.Server.Build.Lives.{Sound, NotListened, no_handle, torn_down, lived, boxes, built-Sound}
use nwep_rs.Runtime.Serving.{
  Info, NodeApi, Started, refuse, ready_sent, report, attached, with_server, serve_thread,
}

-- The ways in which the thread starts. Serving: the caller is told of the server, which then
-- works through its ticks until its drop closes it and frees its handler. Given up: no loop runs,
-- the caller is told an error unless it has gone away, and either there is no server to close, since
-- `Refused`, or what was built is closed and freed.
pub data Starts {W : Type 0} (Refused : Type 0) (handler : Option ℕ) (n : ℕ) (alive : Bool)
    : Started W → Type 0 where
  serving :
      (info : Info) (s : Server) (w : W) (es : List Event) (h : Handle)
      → replay fresh (es ++ ticks n ++ drop s) ≡ some h
      → h.is_open ≡ false
      → length h.freed ≡ boxes handler
      → Starts Refused handler n alive
          (record { ready = some (ok info); server = some s; world = w; events = es })
  not_built :
      (e : Error) (w : W)
      → Refused
      → Starts Refused handler n alive
          (record { ready = some (err e); server = none; world = w; events = [] })
  gave_up :
      (ready : Option (Result Info)) (w : W) (es : List Event) (h : Handle)
      → (alive ≡ false) ⊎ ((e : Error) × (ready ≡ some (err e)))
      → replay fresh es ≡ some h
      → h.is_open ≡ false
      → length h.freed ≡ boxes handler
      → Starts Refused handler n alive
          (record { ready = ready; server = none; world = w; events = es })

-- A server that works, whether it is ticked or dropped at once.
abbrev Works : Option ℕ → ℕ → Server → List Event → Type 0
Works f n s es =
    ((h : Handle) × (replay fresh (es ++ ticks n ++ drop s) ≡ some h)
      × (h.is_open ≡ false)
      × (length h.freed ≡ boxes f))
    × ((h : Handle) × (replay fresh (es ++ drop s) ≡ some h)
        × (h.is_open ≡ false)
        × (length h.freed ≡ boxes f))

refuse-Starts :
    {W : Type 0} (R : Type 0) (f : Option ℕ) (n : ℕ) (alive : Bool) (e : Error) (s : Server) (w : W)
    (es : List Event)
    → Works f n s es
    → Starts R f n alive (refuse e w (es ++ drop s))
refuse-Starts R f n alive e s w es k =
    gave_up (some (err e)) w (es ++ drop s) k.1.0 (inr (e, refl)) k.1.1 k.1.2 k.1.3

ready_sent-Starts :
    {W : Type 0} (R : Type 0) (f : Option ℕ) (n : ℕ) (alive : Bool) (r : Result Info) (s : Server)
    (w closed : W) (es : List Event)
    → Works f n s es
    → Starts R f n alive (ready_sent alive r s w closed es)
unfolding ready_sent
ready_sent-Starts R f n alive (err e) s w closed es k = refuse-Starts R f n alive e s closed es k
ready_sent-Starts R f n true (ok info) s w closed es k = serving info s w es k.0.0 k.0.1 k.0.2 k.0.3
ready_sent-Starts R f n false (ok info) s w closed es k =
    gave_up none closed (es ++ drop s) k.1.0 (inl refl) k.1.1 k.1.2 k.1.3

-- A drop with no tick before it.
ticks-zero : (es : List Event) (s : Server) → es ++ ticks 0 ++ drop s ≡ es ++ drop s
unfolding ticks
ticks-zero es s = rw (append-nil es) refl

module _ {W : Type 0} (listen : ListenApi W) (dht : DhtApi W) (node : NodeApi W) (n : ℕ) where
  attached-Starts :
      (R : Type 0) (f : Option ℕ) (alive : Bool) (s : Server) (r : Result (Unit {0}) × W)
      (es : List Event)
      → Works f n s es
      → Starts R f n alive (attached listen dht node alive s r es)
  unfolding attached report
  attached-Starts R f alive s (ok u, w) es k = ready_sent-Starts R f n alive _ s _ _ es k
  attached-Starts R f alive s (err e, w) es k = refuse-Starts R f n alive e s w es k

  with_server-Starts :
      (R : Type 0) (f : Option ℕ) (cfg : Option (List ℕ × Option ℕ × ℕ)) (alive : Bool) (secs : ℕ)
      (b : Built W)
      → Sound R f n b
      → Sound R f 0 b
      → Starts R f n alive (with_server listen dht node cfg alive secs b)
  unfolding with_server report replay
  with_server-Starts R f cfg alive secs _ (no_handle e w r) _ = not_built e w r
  with_server-Starts R f cfg alive secs _ (torn_down e w es h q c l) _ =
      gave_up (some (err e)) w es h (inr (e, refl)) q c l
  with_server-Starts R f none alive secs _ (lived s w es h q c l) (lived _ _ _ h' q' c' l') =
      ready_sent-Starts R f n alive _ s _ _ es
        ((h, q, c, l), (h', rw (ticks-zero es s) at q', c', l'))
  with_server-Starts R f (some (cs, ann, seq)) alive secs _ (lived s w es h q c l)
        (lived _ _ _ h' q' c' l') =
      attached-Starts R f alive s _ es ((h, q, c, l), (h', rw (ticks-zero es s) at q', c', l'))

  with_contacts-Starts :
      (contacts : List ℕ) (alive : Bool) (secs : ℕ) (b : ServerBuilder) (w : W)
      → let (cfg, b') = managed_dht contacts b in
        Starts
          (NotListened listen b w)
          b.handler
          n
          alive
          (with_server listen dht node cfg alive secs (build listen b' w))
  unfolding managed_dht
  with_contacts-Starts [] alive secs b w =
      with_server-Starts (NotListened listen b w) b.handler none alive secs (build listen b w)
        (built-Sound listen n (NotListened listen b w) b w (λ x. x))
        (built-Sound listen 0 (NotListened listen b w) b w (λ x. x))
  with_contacts-Starts (c ∷ cs) alive secs b w =
      let b' : ServerBuilder = record b { dht_bootstraps = []; dht_announce = none } in
      with_server-Starts (NotListened listen b w) b.handler
        (some (c ∷ cs, b.dht_announce, b.dht_initial_seq)) alive secs (build listen b' w)
        (built-Sound listen n (NotListened listen b w) b' w (λ x. x))
        (built-Sound listen 0 (NotListened listen b w) b' w (λ x. x))

  -- Whatever the library answers and whenever the caller goes away, for the thread of `serve`:
  -- either the caller is told of the server, which then works through its ticks until its drop
  -- closes it and frees its handler; or no loop runs, and the caller is told an error unless it has
  -- gone away: since a field is missing or libnwep does not listen, and there is no server; or with
  -- the server that was built closed and its handler freed.
  pub serve_thread-Starts :
      (alive : Bool) (secs : ℕ) (b : ServerBuilder) (w : W)
      → Starts
          (NotListened listen b w)
          b.handler
          n
          alive
          (serve_thread listen dht node alive secs b w)
  unfolding serve_thread take_managed_dht
  serve_thread-Starts alive secs b w = with_contacts-Starts b.dht_bootstraps alive secs b w
