-- ===== src/Error/Codes.antt =====
-- The two directions of nwep/src/error.rs between codes and errors, and the fatal family.
use nwep_rs.Base.{
  ℤ, pos, negsuc, is_negative, ℕ, suc, ◌%◌, ◌≡◌, ◌⊎◌, inl, inr, refl, List, [], ◌∷◌, arith, eq_ℤ→eq,
  true, false, leb,
}
use nwep_rs.Error.{Error, other, code, from_code, first_arm, arms, is_fatal, ok, err, check}

-- Every arm pairs a literal with the error that has it for its code.
abbrev Paired : List (ℤ × Error) → Type 0
Paired [] = Unit {0}
Paired ((k, e) ∷ rest) = (code e ≡ k) × Paired rest

code-first_arm : (c : ℤ) (rows : List (ℤ × Error)) → Paired rows → code (first_arm c rows) ≡ c
unfolding first_arm code
code-first_arm c [] p = refl
code-first_arm c ((k, e) ∷ rest) (q, p) = ground (arith, eq_ℤ→eq c k, code-first_arm c rest p)

arms-Paired : Paired arms
unfolding code
arms-Paired = ground arith

-- Reading a code and writing it back is the identity on every C integer, negative or not.
pub code-from_code : (c : ℤ) → code (from_code c) ≡ c
unfolding from_code
code-from_code c = code-first_arm c arms arms-Paired

abbrev pub IsNamed : Error → Type 0
IsNamed (other c) = ⊥
IsNamed _ = Unit {0}

-- An error that has a name is recovered from its code.
pub from_code-code : (e : Error) → IsNamed e → from_code (code e) ≡ e
unfolding from_code code first_arm
from_code-code (other c) h = absurd h
from_code-code _ h = refl

-- `check` succeeds exactly on the codes that are not negative; otherwise its error carries the code.
pub check_lem :
    (c : ℤ)
    → ((is_negative c ≡ false) × (check c ≡ ok tt))
      ⊎ ((e : Error) × (check c ≡ err e) × (code e ≡ c) × (is_negative c ≡ true))
unfolding check
check_lem (pos n) = inl (refl, refl)
check_lem (negsuc n) = inr (from_code (negsuc n), refl, code-from_code (negsuc n), refl)

-- The absolute value of a code.
abbrev pub magnitude : ℤ → ℕ
magnitude (pos n) = n
magnitude (negsuc n) = suc n

-- A named error is fatal exactly when the last two digits of its code are 80 or more.
pub is_fatal_lem : (e : Error) → IsNamed e → is_fatal e ≡ leb 80 (magnitude (code e) % 100)
unfolding is_fatal code
is_fatal_lem (other c) h = absurd h
is_fatal_lem _ h = refl
