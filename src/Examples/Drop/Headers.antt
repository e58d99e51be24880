-- ===== src/Examples/Drop/Headers.antt =====
-- The range header of nwep/examples/nwdrop.rs: it reaches C as it is, and names its window.
use mathlib.Core.List.{reverse, reverse-append, reverse-cons}
use nwep_rs.Base.{
  ℤ, ℕ, zero, suc, ◌+◌, ◌/◌, pos, ◌≡◌, refl, sym, ap, ◌∙◌, false, [], ◌∷◌, ◌++◌, append_assoc, some,
  none, Bytes, ascii, arith, inl, inr, bytes_eq,
}
use nwep_rs.Error.{ok, check}
use nwep_rs.Error.Display.{digits_back, decimal, take_digits, take_digits-decimal}
use nwep_rs.Ffi.{
  has_nul, cstring_or_invalid, c_headers, checked, pure, ◌>>=◌, slice_parts, header_array,
  HeaderArray,
}
use nwep_rs.Wire.{method_code, read}
use nwep_rs.Examples.Drop.Ranges.{Names, ranged}
use nwep_rs.Ffi.Clean.{c_headers_lem}
use nwep_rs.Message.Reading.{ReadApi}
use nwep_rs.Client.{ClientApi, Response, request, header}
use nwep_rs.Examples.Drop.{range_text, fetch}

has_nul-append :
    (xs ys : Bytes) → has_nul xs ≡ false → has_nul ys ≡ false → has_nul (xs ++ ys) ≡ false
unfolding has_nul
has_nul-append [] ys h k = k
has_nul-append (x ∷ xs) ys h k = ground (arith, has_nul-append xs ys)

has_nul-reverse : (xs : Bytes) → has_nul xs ≡ false → has_nul (reverse xs) ≡ false
unfolding has_nul
has_nul-reverse [] h = refl
has_nul-reverse (x ∷ xs) h = rw (reverse-cons x xs) (
    has_nul-append (reverse xs) (x ∷ []) (has_nul-reverse xs (ground (arith, h)))
      (ground (arith, h)))

has_nul-digits_back : (fuel n : ℕ) → has_nul (digits_back fuel n) ≡ false
unfolding has_nul digits_back
has_nul-digits_back zero n = refl
has_nul-digits_back (suc fuel) n = ground (arith, has_nul-digits_back fuel (n / 10))

has_nul-decimal : (n : ℕ) → has_nul (decimal n) ≡ false
unfolding decimal
has_nul-decimal n = has_nul-reverse (digits_back (suc n) n) (has_nul-digits_back (suc n) n)

has_nul-range_text : (have : ℕ) → has_nul (range_text have) ≡ false
unfolding range_text has_nul
has_nul-range_text have =
    has_nul-append (ascii "bytes=") (decimal have ++ (ascii "-" ++ decimal (have + 15))) refl (
      has_nul-append (decimal have) (ascii "-" ++ decimal (have + 15)) (has_nul-decimal have)
        (has_nul-decimal (have + 15)))

-- The range text names the window of 16 bytes that starts at `have`.
pub range_text-Names : (have : ℕ) → Names (range_text have) have (have + 15)
unfolding range_text
range_text-Names have = (
  reverse (ascii "bytes=" ++ decimal have),
  ap (λ (t : Bytes). take_digits t)
        (ap reverse (
            sym (append_assoc (ascii "bytes=") (decimal have) (ascii "-" ++ decimal (have + 15)))
            ∙ sym (append_assoc (ascii "bytes=" ++ decimal have) (ascii "-") (decimal (have + 15))))
          ∙ reverse-append ((ascii "bytes=" ++ decimal have) ++ ascii "-") (decimal (have + 15))
          ∙ ap (reverse (decimal (have + 15)) ++◌)
              (reverse-append (ascii "bytes=" ++ decimal have) (ascii "-")))
      ∙ take_digits-decimal (have + 15) 45 (reverse (ascii "bytes=" ++ decimal have)) refl,
  ap (λ (t : Bytes). take_digits t) (reverse-append (ascii "bytes=") (decimal have))
      ∙ take_digits-decimal have 61 (reverse (ascii "bytes")) refl,
)

range_header :
    (have : ℕ)
    → c_headers ((ascii "range", range_text have) ∷ []) ≡ ok ((ascii "range", range_text have) ∷ [])
unfolding has_nul
range_header have = elim (c_headers_lem ((ascii "range", range_text have) ∷ [])) [
  | inl (clean, passed) ↦ passed
  | inr (dirty, refused) ↦ absurd (ground (arith, has_nul-range_text have, dirty))
]

-- What is sent for a window: its range as the only header.
abbrev pub range_sent : ℕ → HeaderArray
range_sent have = some (ascii "range", range_text have) ∷ none ∷ []

pub ranged-range_sent : (have : ℕ) → ranged (range_sent have) ≡ some (range_text have)
unfolding bytes_eq
ranged-range_sent have = refl

-- A window is asked for by one call of libnwep, with its range as the only header and no body.
fetch-checked :
    {W : Type 0} (api : ClientApi W) (messages : ℕ → ReadApi) (have : ℕ) (w : W)
    → fetch api messages have w
      ≡ (do
        msg ←
            checked (api.send (method_code read) (ascii "/blob") (range_sent have) (slice_parts []))
        pure {A = Response} (record { msg = msg }))
          w
unfolding fetch cstring_or_invalid header_array has_nul request header method_code
fetch-checked api messages have w = rw (range_header have, ◌>>=◌) refl

pub fetch_lem :
    {W : Type 0} (api : ClientApi W) (messages : ℕ → ReadApi) (have : ℕ) (w w' : W) (m : ℕ)
    → api.send (method_code read) (ascii "/blob") (range_sent have) (slice_parts []) w
      ≡ ((pos 0, m), w')
    → fetch api messages have w ≡ (ok (record { msg = m }), w')
unfolding check
fetch_lem {W = W} api messages have w w' m e =
    fetch-checked api messages have w
    ∙ ap
        (λ (r : (ℤ × ℕ) × W).
          (do msg ← checked (λ _. r); pure {A = Response} (record { msg = msg })) w)
        e
