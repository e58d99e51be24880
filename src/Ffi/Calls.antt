-- ===== src/Ffi/Calls.antt =====
-- Stateful calls. The library's state is a type `W` that each call reads and returns.
use nwep_rs.Base.{ℤ}
use nwep_rs.Error.{Result, ok, err, check}

-- A Rust function over the C library: its result, and the library's state after it, also when it
-- fails.
abbrev pub Call : Type 0 → Type 0 → Type 0
Call W A = W → Result A × W

module _ {W : Type 0} where
  abbrev pub pure : {A : Type 0} → A → Call W A
  pure a w = (ok a, w)

  abbrev pub lift : {A : Type 0} → Result A → Call W A
  lift r w = (r, w)

  infixl 5 ◌>>=◌
  abbrev pub ◌>>=◌ : {A B : Type 0} → Call W A → (A → Call W B) → Call W B
  ◌>>=◌ m f w = let (r, w') = m w in elim r [ ok a ↦ f a w' | err e ↦ (err e, w') ]

  -- The value of the out-parameter, where `Error::check` accepts the return code.
  abbrev checked_out : {A : Type 0} → A → W → Result (Unit {0}) → Result A × W
  checked_out a w (ok _) = (ok a, w)
  checked_out a w (err e) = (err e, w)

  -- `Error::check(unsafe { … })?` over a call that fills an out-parameter.
  abbrev pub checked : {A : Type 0} → (W → (ℤ × A) × W) → Call W A
  checked f w = let (out, w') = f w in checked_out out.1 w' (check out.0)
