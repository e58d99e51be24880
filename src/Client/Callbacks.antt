-- ===== src/Client/Callbacks.antt =====
-- The completion callback of nwep/src/client.rs over the life of a client: `on_request_done`, `tick`
-- and `Drop for Client`. A new box is a new number.
use nwep_rs.Base.{
  zero, ℕ, suc, ◌<◌, ◌+◌, ◌≡◌, ◌⊎◌, inl, inr, refl, ◌∙◌, true, false, Option, none, some, List, [],
  ◌∷◌, ◌++◌, length, arith,
}
use nwep_rs.Client.Connecting.{connecting_ticks, connecting_drop}
use nwep_rs.Lifecycle.{
  Event, drive, install, release, free_box, Handle, dangles, step, replay, replay-append, Below,
  Below-suc, contains-Below, fresh,
}

-- The `done` cell of a `Client`, and how many boxes were made.
pub record Callback : Type 0 where
  pub done : Option ℕ
  pub boxes : ℕ

free_done : Option ℕ → List Event
free_done none = []
free_done (some b) = free_box b ∷ []

-- `Client::on_request_done`: the old box is dropped before the new one is installed.
unfoldable pub on_request_done : Callback → Callback × List Event
unfolding free_done
on_request_done c = (
  record { done = some c.boxes; boxes = suc c.boxes },
  free_done c.done ++ install (some c.boxes) ∷ [],
)

-- `Drop for Client`.
unfoldable pub client_drop : Callback → List Event
unfolding free_done
client_drop c = release ∷ free_done c.done

pub data CallbackOp : Type 0 where
  sets ticks : CallbackOp

unfoldable pub perform : Callback → CallbackOp → Callback × List Event
unfolding on_request_done
perform c sets = on_request_done c
perform c ticks = (c, drive ∷ [])

unfoldable pub perform_all : Callback → List CallbackOp → Callback × List Event
unfolding perform
perform_all c [] = (c, [])
perform_all c (op ∷ ops) =
    let (c', es) = perform c op in let (c'', fs) = perform_all c' ops in (c'', es ++ fs)

abbrev pub made : Callback
made = record { done = none; boxes = 0 }

-- The boxes that are alive.
abbrev pub held_boxes : Option ℕ → ℕ
held_boxes none = 0
held_boxes (some b) = 1

pub record Agrees (c : Callback) (h : Handle) : Type 0 where
  pub is_open : h.is_open ≡ true
  pub same : h.installed ≡ c.done
  pub alive : dangles h ≡ false
  pub numbered : Below c.boxes h.freed
  pub counted : length h.freed + held_boxes c.done ≡ c.boxes
  pub done_numbered : (c.done ≡ none) ⊎ ((b : ℕ) × (c.done ≡ some b) × (b < c.boxes))

on_request_done-Agrees :
    (c : Callback) (h : Handle)
    → ((c.done ≡ none) ⊎ ((b : ℕ) × (c.done ≡ some b) × (b < c.boxes)))
    → Agrees c h
    → (h' : Handle) × (replay h (on_request_done c).1 ≡ some h') × Agrees (on_request_done c).0 h'
unfolding on_request_done replay step
on_request_done-Agrees c h (inl e) a = (
  record h { installed = some c.boxes },
  ground arith,
  ground (arith, contains-Below c.boxes h.freed a.numbered, Below-suc c.boxes h.freed a.numbered),
)
on_request_done-Agrees c h (inr (b, e, lt)) a = (
  record h { installed = some c.boxes; freed = b ∷ h.freed },
  ground arith,
  ground (arith, contains-Below c.boxes h.freed a.numbered, Below-suc c.boxes h.freed a.numbered),
)

perform-Agrees :
    (c : Callback) (op : CallbackOp) (h : Handle)
    → Agrees c h
    → (h' : Handle) × (replay h (perform c op).1 ≡ some h') × Agrees (perform c op).0 h'
unfolding perform replay step
perform-Agrees c sets h a = on_request_done-Agrees c h a.done_numbered a
perform-Agrees c ticks h a = (h, ground arith, a)

perform_all-Agrees :
    (c : Callback) (ops : List CallbackOp) (h : Handle)
    → Agrees c h
    → (h' : Handle) × (replay h (perform_all c ops).1 ≡ some h') × Agrees (perform_all c ops).0 h'
unfolding perform_all replay
perform_all-Agrees c [] h a = (h, refl, a)
perform_all-Agrees c (op ∷ ops) h a =
    let (h₁, e₁, a₁) = perform-Agrees c op h a in
    let (h₂, e₂, a₂) = perform_all-Agrees (perform c op).0 ops h₁ a₁ in
    (h₂, replay-append h (perform c op).1 (perform_all (perform c op).0 ops).1 e₁ ∙ e₂, a₂)

client_drop-closes :
    (c : Callback) (h : Handle)
    → Agrees c h
    → (h' : Handle) × (replay h (client_drop c) ≡ some h')
      × (h'.is_open ≡ false)
      × (length h'.freed ≡ c.boxes)
unfolding client_drop replay step
client_drop-closes c h a = closes c h a.done_numbered a
  where
    closes :
        (c : Callback) (h : Handle)
        → ((c.done ≡ none) ⊎ ((b : ℕ) × (c.done ≡ some b) × (b < c.boxes)))
        → Agrees c h
        → (h' : Handle) × (replay h (client_drop c) ≡ some h')
          × (h'.is_open ≡ false)
          × (length h'.freed ≡ c.boxes)
    closes c h (inl e) a = (record h { is_open = false }, ground arith, refl, ground arith)
    closes c h (inr (b, e, lt)) a =
        (record h { is_open = false; freed = b ∷ h.freed }, ground arith, refl, ground arith)

replay-connecting_ticks :
    (n : ℕ) (es : List Event) → replay fresh (connecting_ticks n ++ es) ≡ replay fresh es
unfolding replay step connecting_ticks
replay-connecting_ticks zero es = refl
replay-connecting_ticks (suc n) es = replay-connecting_ticks n es

connecting_drop-closes :
    (n : ℕ)
    → (h : Handle) × (replay fresh (connecting_ticks n ++ connecting_drop) ≡ some h)
      × (h.is_open ≡ false)
unfolding connecting_drop replay step
connecting_drop-closes n =
    (record fresh { is_open = false }, replay-connecting_ticks n (release ∷ []) ∙ closing, refl)
  where
    closing : replay fresh (release ∷ []) ≡ some (record fresh { is_open = false })
    closing = refl

-- A connection may be dropped while its handshake is driven, and is closed then. Or it becomes a
-- client; whatever callbacks are then set and whenever the client is ticked, up to and with its drop,
-- no rule is broken, so the library runs no callback whose box was dropped; and after the drop the
-- connection is closed and every box that was made has been dropped.
pub client_life :
    (n : ℕ) (ops : List CallbackOp)
    → let (c, events) = perform_all made ops in
      ((h : Handle) × (replay fresh (connecting_ticks n ++ connecting_drop) ≡ some h)
        × (h.is_open ≡ false))
      × ((h : Handle) × (replay fresh (connecting_ticks n ++ (events ++ client_drop c)) ≡ some h)
          × (h.is_open ≡ false)
          × (length h.freed ≡ c.boxes))
client_life n ops =
    let (h, e, a) = perform_all-Agrees made ops fresh (record {
      is_open = refl;
      same = refl;
      alive = refl;
      numbered = tt;
      counted = refl;
      done_numbered = inl refl;
    }) in
    let (c, events) = perform_all made ops in
    let (h', e', closed, all_freed) = client_drop-closes c h a in
    (
      connecting_drop-closes n,
      (
        h',
        replay-connecting_ticks n (events ++ client_drop c)
            ∙ replay-append fresh events (client_drop c) e
            ∙ e',
        closed,
        all_freed,
      ),
    )
