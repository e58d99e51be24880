-- ===== src/Error/Given.antt =====
-- The errors that `Error::from_code` of nwep/src/error.rs gives, beside the C integers.
use mathlib.Core.Equiv.{Iso, IsEquiv, iso_to_equiv}
use mathlib.Core.HLevel.{Σ_prop_path}
use native.Mathlib.Nat.{ℕ_set}
use nwep_rs.Base.{ℤ, ◌≡◌, ◌⊎◌, inl, inr, refl, ap}
use nwep_rs.Error.{Error, other, code, from_code, first_arm}
use nwep_rs.Error.Codes.{code-from_code}

-- An error that is read from its own code. `other` at the code of a named error is none.
abbrev pub Given : Type 0
Given = (e : Error) × (from_code (code e) ≡ e)

Error-IsSet : IsSet Error
Error-IsSet = hlevel ℕ_set

abbrev given : ℤ → Given
given c = (from_code c, ap from_code (code-from_code c))

given-Iso : Iso Given ℤ
given-Iso = record {
  fun = λ x. code x.0;
  inv = given;
  rinv = code-from_code;
  linv = λ x. Σ_prop_path (λ e. Error-IsSet (from_code (code e)) e) x.1;
}

-- An error without a name, or one that is read from its own code.
other_or_given : (e : Error) → ((c : ℤ) × (e ≡ other c)) ⊎ (from_code (code e) ≡ e)
unfolding from_code code first_arm
other_or_given (other c) = inl (c, refl)
other_or_given _ = inr refl

-- The errors that can be read from a code are the C integers, by `code`: each integer is the code of exactly
-- one of them, which `from_code` gives; and every error but `Other` is among them.
pub code-IsEquiv :
    IsEquiv (λ (x : Given). code x.0)
    × ((c : ℤ) → (x : Given) × (x.0 ≡ from_code c) × (code x.0 ≡ c))
    × ((e : Error) → ((c : ℤ) × (e ≡ other c)) ⊎ (from_code (code e) ≡ e))
unfolding given-Iso
code-IsEquiv = ((iso_to_equiv given-Iso).1, λ c. (given c, refl, code-from_code c), other_or_given)
