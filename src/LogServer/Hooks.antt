-- ===== src/LogServer/Hooks.antt =====
-- The hook of nwep/src/logserver.rs over the life of a log server.
use nwep_rs.Base.{
  ℕ, ◌<◌, ◌≡◌, ◌⊎◌, inl, inr, refl, ◌∙◌, true, false, none, some, List, [], ◌∷◌, ◌++◌, arith,
}
use nwep_rs.Lifecycle.{
  Handle, dangles, step, replay, replay-append, Below, Below-suc, contains-Below, fresh,
}
use nwep_rs.LogServer.{LogServer, on_append, drop, Op, appends, dispatches, perform, perform_all}

-- The C side has the hook that the field names, and it is alive.
pub record Agrees (s : LogServer) (h : Handle) : Type 0 where
  pub is_open : h.is_open ≡ true
  pub same : h.installed ≡ s.hook
  pub alive : dangles h ≡ false
  pub numbered : Below s.boxes h.freed
  pub hook_numbered : (s.hook ≡ none) ⊎ ((b : ℕ) × (s.hook ≡ some b) × (b < s.boxes))

perform-Agrees :
    (s : LogServer) (op : Op) (h : Handle)
    → Agrees s h
    → (h' : Handle) × (replay h (perform s op).1 ≡ some h') × Agrees (perform s op).0 h'
unfolding perform replay step
perform-Agrees s appends h a = on_append-Agrees s h a.hook_numbered a
  where
    on_append-Agrees :
        (s : LogServer) (h : Handle)
        → ((s.hook ≡ none) ⊎ ((b : ℕ) × (s.hook ≡ some b) × (b < s.boxes)))
        → Agrees s h
        → (h' : Handle) × (replay h (on_append s).1 ≡ some h') × Agrees (on_append s).0 h'
    on_append-Agrees s h (inl e) a = (
      record h { installed = some s.boxes },
      ground arith,
      ground
          (arith, contains-Below s.boxes h.freed a.numbered, Below-suc s.boxes h.freed a.numbered),
    )
    on_append-Agrees s h (inr (b, e, lt)) a = (
      record h { installed = some s.boxes; freed = b ∷ h.freed },
      ground arith,
      ground
          (arith, contains-Below s.boxes h.freed a.numbered, Below-suc s.boxes h.freed a.numbered),
    )
perform-Agrees s dispatches h a = (h, ground arith, a)

perform_all-Agrees :
    (s : LogServer) (ops : List Op) (h : Handle)
    → Agrees s h
    → (h' : Handle) × (replay h (perform_all s ops).1 ≡ some h') × Agrees (perform_all s ops).0 h'
unfolding perform_all replay
perform_all-Agrees s [] h a = (h, refl, a)
perform_all-Agrees s (op ∷ ops) h a =
    let (h₁, e₁, a₁) = perform-Agrees s op h a in
    let (h₂, e₂, a₂) = perform_all-Agrees (perform s op).0 ops h₁ a₁ in
    (h₂, replay-append h (perform s op).1 (perform_all (perform s op).0 ops).1 e₁ ∙ e₂, a₂)

abbrev pub made : LogServer
made = record { hook = none; boxes = 0 }

made-Agrees : Agrees made fresh
made-Agrees = record {
  is_open = refl;
  same = refl;
  alive = refl;
  numbered = tt;
  hook_numbered = inl refl;
}

-- Before it is dropped, a log server breaks no rule, whatever is done with it: the library's hook is
-- the one that the field names, it is alive whenever the library may run it, and no box is freed
-- twice.
pub perform_all-follows :
    (ops : List Op)
    → (h : Handle) × (replay fresh (perform_all made ops).1 ≡ some h)
      × (h.is_open ≡ true)
      × (h.installed ≡ (perform_all made ops).0.hook)
perform_all-follows ops =
    let (h, e, a) = perform_all-Agrees made ops fresh made-Agrees in (h, e, a.is_open, a.same)

drop-cases :
    (s : LogServer) (h : Handle)
    → Agrees s h
    → ((s.hook ≡ none) × (replay h (drop s) ≡ some (record h { is_open = false })))
      ⊎ ((b : ℕ) × (s.hook ≡ some b) × (replay h (drop s) ≡ none))
unfolding drop replay step
drop-cases s h a = ground arith

-- Dropping a log server whose hook was set passes the freed handle to C, to clear the hook; without
-- a hook the drop breaks no rule and frees the handle.
pub drop_lem :
    (ops : List Op)
    → let (s, events) = perform_all made ops in
      ((h : Handle) × (s.hook ≡ none)
        × (replay fresh (events ++ drop s) ≡ some h)
        × (h.is_open ≡ false))
      ⊎ ((b : ℕ) × (s.hook ≡ some b) × (replay fresh (events ++ drop s) ≡ none))
drop_lem ops =
    let (h, e, a) = perform_all-Agrees made ops fresh made-Agrees in
    let (s, events) = perform_all made ops in
    let joined = replay-append fresh events (drop s) e in
    elim (drop-cases s h a) [
      | inl (n, q) ↦ inl (record h { is_open = false }, n, joined ∙ q, refl)
      | inr (b, n, q) ↦ inr (b, n, joined ∙ q)
    ]
