-- ===== src/Server/Build/Lives.antt =====
-- A server of nwep/src/server.rs from its builder to its drop, on the rules for a C handle.
use nwep_rs.Base.{
  ℕ, zero, suc, ◌≡◌, ◌⊎◌, inl, inr, refl, true, false, Option, none, some, List, [], ◌∷◌, ◌++◌,
  length, Option-cases,
}
use nwep_rs.Error.{Error, Result, ok, err, check, config_missing}
use nwep_rs.Lifecycle.{Event, install, release, free_box, Handle, replay, step, fresh}
use nwep_rs.Server.Build.{
  ServerBuilder, ListenApi, Server, Built, handler_box, handler_set, install_handler, finish_build,
  listened, build, build_from_fd, ticks, drop,
}

-- The boxes of a handler: one, if it was set.
abbrev pub boxes : Option ℕ → ℕ
boxes none = 0
boxes (some f) = 1

-- There is no handle to make: a field is missing, or libnwep does not listen.
abbrev pub NotListened : {W : Type 0} → ListenApi W → ServerBuilder → W → Type 0
NotListened api b w =
    (b.identity ≡ none)
    ⊎ (b.bind ≡ none)
    ⊎ ((i : ℕ) × (a : ℕ) × (e : Error) × (b.identity ≡ some i)
        × (b.bind ≡ some a)
        × (check (api.listen b.reuse_port i a w).0 ≡ err e))

-- The same of a socket that is adopted.
abbrev pub NotAdopted : {W : Type 0} → ListenApi W → ServerBuilder → ℕ → Option ℕ → W → Type 0
NotAdopted api b fd shard w =
    (b.identity ≡ none)
    ⊎ ((i : ℕ) × (e : Error) × (b.identity ≡ some i)
        × (check (api.listen_fd i fd shard w).0 ≡ err e))

-- How building a server and using it ends: the builder has failed since there is no handle; or it has
-- failed, closed the handle and freed the box; or the server works through its ticks, and its drop
-- closes the handle and frees the box after that. `Refused` is that there is no handle.
pub data Sound {W : Type 0} (Refused : Type 0) (handler : Option ℕ) (n : ℕ) : Built W → Type 0 where
  no_handle : (e : Error) (w : W) → Refused → Sound Refused handler n (err e, w, [])
  torn_down :
      (e : Error) (w : W) (events : List Event) (h : Handle)
      → replay fresh events ≡ some h
      → h.is_open ≡ false
      → length h.freed ≡ boxes handler
      → Sound Refused handler n (err e, w, events)
  lived :
      (s : Server) (w : W) (events : List Event) (h : Handle)
      → replay fresh (events ++ ticks n ++ drop s) ≡ some h
      → h.is_open ≡ false
      → length h.freed ≡ boxes handler
      → Sound Refused handler n (ok s, w, events)

abbrev working : Option ℕ → Handle
working installed = record { is_open = true; installed = installed; freed = [] }

replay-ticks :
    (n : ℕ) (o : Option ℕ) (es : List Event)
    → replay (working o) (ticks n ++ es) ≡ replay (working o) es
unfolding replay step ticks
replay-ticks zero o es = refl
replay-ticks (suc n) none es = replay-ticks n none es
replay-ticks (suc n) (some b) es = replay-ticks n (some b) es

handler_set-Sound :
    {W : Type 0} (R : Type 0) (n : ℕ) (f : ℕ) (r : Result (Unit {0})) (w : W)
    → Sound R (some f) n (handler_set r w)
unfolding handler_set replay step drop
handler_set-Sound R n f (ok u) w =
    lived (record { handler = some handler_box }) w (install (some handler_box) ∷ [])
      (record { is_open = false; installed = some handler_box; freed = handler_box ∷ [] })
      (replay-ticks n (some handler_box) _) refl refl
handler_set-Sound R n f (err e) w =
    torn_down e w (free_box handler_box ∷ release ∷ [])
      (record { is_open = false; installed = none; freed = handler_box ∷ [] }) refl refl refl

module _ {W : Type 0} (api : ListenApi W) (n : ℕ) where
  install_handler-Sound :
      (R : Type 0) (o : Option ℕ) (w : W) → Sound R o n (install_handler api o w)
  unfolding install_handler replay step drop
  install_handler-Sound R none w =
      lived (record { handler = none }) w []
        (record { is_open = false; installed = none; freed = [] }) (replay-ticks n none _) refl refl
  install_handler-Sound R (some f) w = handler_set-Sound R n f (check (api.set_handler w).0) _

  listened-Sound :
      (R : Type 0) (b : ServerBuilder) (r : Result (Unit {0})) (w : W)
      → ((e : Error) → r ≡ err e → R)
      → Sound R b.handler n (listened api b (r, w))
  unfolding listened finish_build
  listened-Sound R b (ok u) w h = install_handler-Sound R b.handler _
  listened-Sound R b (err e) w h = no_handle e w (h e refl)

  pub built-Sound :
      (R : Type 0) (b : ServerBuilder) (w : W)
      → (NotListened api b w → R)
      → Sound R b.handler n (build api b w)
  unfolding build
  built-Sound R b w h = elim (Option-cases b.identity) [
    | inl e ↦ simp (e, build) (no_handle config_missing w (h (inl e)))
    | inr (i, e) ↦ elim (Option-cases b.bind) [
      | inl f ↦ simp (e, f, build) (no_handle config_missing w (h (inr (inl f))))
      | inr (a, f) ↦
          simp (e, f, build)
            (listened-Sound R (record b { identity = none; bind = none })
              (check (api.listen b.reuse_port i a w).0) (api.listen b.reuse_port i a w).1
              (λ x q. h (inr (inr (i, a, x, e, f, q)))))
    ]
  ]

  adopted-Sound :
      (R : Type 0) (b : ServerBuilder) (fd : ℕ) (shard : Option ℕ) (w : W)
      → (NotAdopted api b fd shard w → R)
      → Sound R b.handler n (build_from_fd api b fd shard w)
  unfolding build_from_fd
  adopted-Sound R b fd shard w h = elim (Option-cases b.identity) [
    | inl e ↦ simp (e, build_from_fd) (no_handle config_missing w (h (inl e)))
    | inr (i, e) ↦
        simp (e, build_from_fd)
          (listened-Sound R (record b { identity = none }) (check (api.listen_fd i fd shard w).0)
            (api.listen_fd i fd shard w).1 (λ x q. h (inr (i, x, e, q))))
  ]

  -- Whatever the library answers, for each way of building a server: it fails since a field is missing or
  -- libnwep does not listen, and there is no handle; or it fails with a handle, which is closed, and
  -- the handler's box is freed; or the server works through its ticks, and its drop closes the
  -- handle and then frees the box if there is one. No rule is broken in any of these, so no box is
  -- freed twice, and the box outlives every call that may run the handler.
  pub build-Sound :
      (b : ServerBuilder) (fd : ℕ) (shard : Option ℕ) (w : W)
      → Sound (NotListened api b w) b.handler n (build api b w)
        × Sound (NotAdopted api b fd shard w) b.handler n (build_from_fd api b fd shard w)
  build-Sound b fd shard w = (
    built-Sound (NotListened api b w) b w (λ x. x),
    adopted-Sound (NotAdopted api b fd shard w) b fd shard w (λ x. x),
  )
