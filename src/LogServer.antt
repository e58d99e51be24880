-- ===== src/LogServer.antt =====
-- nwep/src/logserver.rs: the log server's hook and its end, and `dispatch`. The log server itself is
-- libnwep's.
pub mod Hooks
mod Tests
use nwep_rs.Base.{
  ℤ, ℕ, pos, suc, Bool, true, false, Option, none, some, List, [], ◌∷◌, ◌++◌, eq_ℤ, if◌then◌else◌,
}
use nwep_rs.Error.{Result, ok, err, internal_alloc}
use nwep_rs.Lifecycle.{Event, drive, install, release, free_box}

-- The fields of `LogServer` that its methods change. The boxes are numbered as they are made.
pub record LogServer : Type 0 where
  pub hook : Option ℕ
  pub boxes : ℕ

-- `LogServer::new`, where C has returned `raw`: a null pointer is 0.
unfoldable pub new : ℕ → Result LogServer
new raw =
    if eq_ℤ (pos raw) (pos 0) then err internal_alloc else ok (record { hook = none; boxes = 0 })

-- `clear_hook`.
unfoldable pub clear_hook : LogServer → LogServer × List Event
clear_hook s = elim s.hook [
  | none ↦ (s, [])
  | some b ↦ (record s { hook = none }, install none ∷ free_box b ∷ [])
]

-- `on_append`.
unfoldable pub on_append : LogServer → LogServer × List Event
unfolding clear_hook
on_append s =
    let (s', cleared) = clear_hook s in
    (
      record s' { hook = some s'.boxes; boxes = suc s'.boxes },
      cleared ++ install (some s'.boxes) ∷ [],
    )

-- `Drop for LogServer`, up to the drop of the log, which is another handle.
unfoldable pub drop : LogServer → List Event
unfolding clear_hook
drop s = release ∷ (clear_hook s).1

-- `DispatchOutcome`, with the code that the responder is finished with; `not_mine` hands the
-- responder back.
pub data DispatchOutcome : Type 0 where
  handled : ℤ → DispatchOutcome
  not_mine : DispatchOutcome

-- `dispatch`, on the code that C returned.
unfoldable pub dispatch : ℤ → DispatchOutcome
dispatch rc = if eq_ℤ rc (pos 1) then not_mine else handled rc

-- What a program does with a log server before it drops it.
pub data Op : Type 0 where
  appends dispatches : Op

unfoldable pub perform : LogServer → Op → LogServer × List Event
unfolding on_append
perform s appends = on_append s
perform s dispatches = (s, drive ∷ [])

unfoldable pub perform_all : LogServer → List Op → LogServer × List Event
unfolding perform
perform_all s [] = (s, [])
perform_all s (op ∷ ops) =
    let (s', es) = perform s op in let (s'', fs) = perform_all s' ops in (s'', es ++ fs)
