-- ===== src/Error/Display.antt =====
-- `Display` and `Debug` of nwep/src/error.rs: the text of an error is its name, as the C library gives it,
-- and its code in decimal digits, as `write!` prints an `i32`.
use mathlib.Core.List.{reverse, reverse-append, reverse-reverse}
use nwep_rs.Base.{
  ℤ, ℕ, zero, suc, pos, negsuc, ◌+◌, ◌-◌, ◌*◌, ◌/◌, ◌%◌, ◌<◌, ◌≡◌, refl, ap, ◌∙◌, inl, inr, Bool,
  true, false, ◌&&◌, Option, none, some, [], ◌∷◌, ◌++◌, append_assoc, arith, Bytes, ascii, leb,
  ◌==◌, Bool-cases, if◌then◌else◌,
}
use nwep_rs.Utf8.{is_utf8}
use nwep_rs.Error.{Error, code}

-- The decimal digits of a number, the last one first, on fuel.
unfoldable pub digits_back : ℕ → ℕ → Bytes
digits_back zero n = []
digits_back (suc fuel) n =
    let rest = digits_back fuel (n / 10) in (48 + n % 10) ∷ (if n / 10 == 0 then [] else rest)

-- A number in decimal digits, as `write!` prints it.
unfoldable pub decimal : ℕ → Bytes
unfolding digits_back
decimal n = reverse (digits_back (suc n) n)

unfoldable pub signed_decimal : ℤ → Bytes
unfolding decimal
signed_decimal (pos n) = decimal n
signed_decimal (negsuc n) = ascii "-" ++ decimal (suc n)

-- The name of an error, where `strerror` is the library's, `none` a null pointer.
unfoldable pub name_of : (ℤ → Option Bytes) → Error → Bytes
unfolding code is_utf8
name_of strerror e = elim (strerror (code e)) [
  | none ↦ ascii "unknown"
  | some s ↦ if is_utf8 s then s else ascii "unknown"
]

-- `Display for Error`.
unfoldable pub display : (ℤ → Option Bytes) → Error → Bytes
unfolding code name_of signed_decimal
display strerror e = name_of strerror e ++ (ascii " (" ++ (signed_decimal (code e) ++ ascii ")"))

-- `Debug for Error`.
unfoldable pub debug : (ℤ → Option Bytes) → Error → Bytes
unfolding display
debug strerror e = ascii "Error(" ++ (display strerror e ++ ascii ")")

-- A reader from the end: the digits in front of the last byte, and a sign.
abbrev pub is_digit : ℕ → Bool
is_digit c = leb 48 c && leb c 57

abbrev pub take_digits : Bytes → ℕ × Bytes
take_digits [] = (0, [])
take_digits (c ∷ cs) =
    let (n, rest) = take_digits cs in if is_digit c then (c - 48 + 10 * n, rest) else (0, c ∷ cs)

abbrev with_sign : ℕ × Bytes → ℤ
with_sign (n, []) = pos n
with_sign (zero, c ∷ cs) = pos 0
with_sign (suc n, c ∷ cs) = if c == 45 then negsuc n else pos (suc n)

abbrev read_back : Bytes → ℤ
read_back [] = pos 0
read_back (c ∷ cs) = with_sign (take_digits cs)

abbrev pub read_code : Bytes → ℤ
read_code text = read_back (reverse text)

take_digits-digit :
    (d n : ℕ) (cs rest : Bytes)
    → d < 10
    → take_digits cs ≡ (n, rest)
    → take_digits ((48 + d) ∷ cs) ≡ (d + 10 * n, rest)
take_digits-digit d n cs rest h e = rw (e, digit_small) (ap (λ k. (k, rest)) (omega arith))
  where
    digit_small : is_digit (48 + d) ≡ true
    digit_small = ground (arith, h)

take_digits-end : (c : ℕ) (cs : Bytes) → is_digit c ≡ false → take_digits (c ∷ cs) ≡ (0, c ∷ cs)
take_digits-end c cs e = rw (e) refl

take_digits-digits_back :
    (fuel n c : ℕ) (cs : Bytes)
    → n < fuel
    → is_digit c ≡ false
    → take_digits (digits_back fuel n ++ c ∷ cs) ≡ (n, c ∷ cs)
unfolding digits_back
take_digits-digits_back zero n c cs h e = absurd (omega arith)
take_digits-digits_back (suc fuel) n c cs h e = elim (Bool-cases (n / 10 == 0)) [
  | inl z ↦
      rw (digits_back, z)
        (take_digits-digit (n % 10) 0 (c ∷ cs) (c ∷ cs) (omega arith) (take_digits-end c cs e)
          ∙ ap (λ k. (k, c ∷ cs)) (ground arith))
  | inr z ↦
      rw (digits_back, z)
        (take_digits-digit (n % 10) (n / 10) (digits_back fuel (n / 10) ++ c ∷ cs) (c ∷ cs)
            (omega arith) (take_digits-digits_back fuel (n / 10) c cs (ground arith) e)
          ∙ ap (λ k. (k, c ∷ cs)) (omega arith))
]

reverse-decimal : (n : ℕ) → reverse (decimal n) ≡ digits_back (suc n) n
unfolding decimal
reverse-decimal n = reverse-reverse (digits_back (suc n) n)

pub take_digits-decimal :
    (n c : ℕ) (cs : Bytes)
    → is_digit c ≡ false
    → take_digits (reverse (decimal n) ++ c ∷ cs) ≡ (n, c ∷ cs)
take_digits-decimal n c cs e =
    ap (λ ds. take_digits (ds ++ c ∷ cs)) (reverse-decimal n)
    ∙ take_digits-digits_back (suc n) n c cs (omega arith) e

read_back-signed_decimal :
    (c : ℤ) (cs : Bytes) → read_back (41 ∷ (reverse (signed_decimal c) ++ 40 ∷ cs)) ≡ c
unfolding signed_decimal
read_back-signed_decimal (pos zero) cs = ap with_sign (take_digits-decimal 0 40 cs refl)
read_back-signed_decimal (pos (suc n)) cs = ap with_sign (take_digits-decimal (suc n) 40 cs refl)
read_back-signed_decimal (negsuc n) cs =
    ap (λ ds. read_back (41 ∷ (ds ++ 40 ∷ cs))) (reverse-append (ascii "-") (decimal (suc n)))
    ∙ ap (λ ds. read_back (41 ∷ ds))
        (append_assoc (reverse (decimal (suc n))) (ascii "-") (40 ∷ cs))
    ∙ ap with_sign (take_digits-decimal (suc n) 45 (40 ∷ cs) refl)

reverse-text :
    (name digits : Bytes)
    → reverse (name ++ (ascii " (" ++ (digits ++ ascii ")")))
      ≡ 41 ∷ (reverse digits ++ 40 ∷ (32 ∷ reverse name))
reverse-text name digits =
    rw
      (
        reverse-append name (ascii " (" ++ (digits ++ ascii ")")),
        reverse-append (ascii " (") (digits ++ ascii ")"),
        reverse-append digits (ascii ")"),
      )
      (append_assoc (41 ∷ reverse digits) (40 ∷ 32 ∷ []) (reverse name))

-- Whatever name the C library gives an error, and even if it gives none, the code of the error can be
-- read back from its text, with its sign.
pub read_code-display :
    (strerror : ℤ → Option Bytes) (e : Error) → read_code (display strerror e) ≡ code e
unfolding display
read_code-display strerror e =
    ap read_back (reverse-text (name_of strerror e) (signed_decimal (code e)))
    ∙ read_back-signed_decimal (code e) (32 ∷ reverse (name_of strerror e))
