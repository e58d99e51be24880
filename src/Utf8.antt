-- ===== src/Utf8.antt =====
-- UTF-8 as `str::from_utf8` and `String::from_utf8_lossy` of Rust read it, for nwep/src/identity.rs and
-- nwep/src/uri.rs: a byte string is cut into characters, and into the broken runs that a lossy
-- decoding replaces.
use nwep_rs.Base.{
  ℕ, zero, suc, ◌≡◌, refl, Bool, true, false, ◌&&◌, [], ◌∷◌, ◌++◌, Bytes, length, leb, ltb, ◌==◌,
  if◌then◌else◌, ap, ◌∙◌,
}

-- The front of a byte string that is not empty: a character, or a run that begins none.
pub data Front : Type 0 where
  char : Bytes → Bytes → Front
  broken : Bytes → Front

abbrev between : ℕ → ℕ → ℕ → Bool
between low high b = leb low b && leb b high

abbrev continues : ℕ → Bool
continues b = between 128 191 b

-- The bytes that may follow the first byte of a character of three or of four.
abbrev second_of_three : ℕ → ℕ → Bool
second_of_three a b =
    if a == 224 then between 160 191 b else if a == 237 then between 128 159 b else continues b

abbrev second_of_four : ℕ → ℕ → Bool
second_of_four a b =
    if a == 240 then between 144 191 b else if a == 244 then between 128 143 b else continues b

abbrev front_of_two : ℕ → Bytes → Front
front_of_two a [] = broken []
front_of_two a (b ∷ bs) = if continues b then char (a ∷ b ∷ []) bs else broken (b ∷ bs)

abbrev front_of_three : ℕ → Bytes → Front
front_of_three a [] = broken []
front_of_three a (b ∷ []) = if second_of_three a b then broken [] else broken (b ∷ [])
front_of_three a (b ∷ c ∷ bs) =
    if second_of_three a b
    then (if continues c then char (a ∷ b ∷ c ∷ []) bs else broken (c ∷ bs))
    else broken (b ∷ c ∷ bs)

abbrev front_of_four : ℕ → Bytes → Front
front_of_four a [] = broken []
front_of_four a (b ∷ []) = if second_of_four a b then broken [] else broken (b ∷ [])
front_of_four a (b ∷ c ∷ []) =
    if second_of_four a b
    then (if continues c then broken [] else broken (c ∷ []))
    else broken (b ∷ c ∷ [])
front_of_four a (b ∷ c ∷ d ∷ bs) =
    if second_of_four a b
    then (if continues c
        then (if continues d then char (a ∷ b ∷ c ∷ d ∷ []) bs else broken (d ∷ bs))
        else broken (c ∷ d ∷ bs))
    else broken (b ∷ c ∷ d ∷ bs)

unfoldable front : ℕ → Bytes → Front
front a bs =
    if ltb a 128
    then char (a ∷ []) bs
    else if between 194 223 a
    then front_of_two a bs
    else if between 224 239 a
    then front_of_three a bs
    else if between 240 244 a
    then front_of_four a bs
    else broken bs

-- Each front takes a byte at least, so as much fuel as there are bytes suffices.
unfoldable is_utf8_from : ℕ → Bytes → Bool
unfolding front
is_utf8_from zero [] = true
is_utf8_from zero (b ∷ bs) = false
is_utf8_from (suc fuel) [] = true
is_utf8_from (suc fuel) (b ∷ bs) = elim (front b bs) [
  | char c rest ↦ is_utf8_from fuel rest
  | broken rest ↦ false
]

-- Whether `str::from_utf8` accepts the bytes.
unfoldable pub is_utf8 : Bytes → Bool
unfolding is_utf8_from
is_utf8 bytes = is_utf8_from (length bytes) bytes

-- U+FFFD in UTF-8.
abbrev replacement : Bytes
replacement = 239 ∷ 191 ∷ 189 ∷ []

unfoldable lossy_from : ℕ → Bytes → Bytes
unfolding front
lossy_from zero bytes = []
lossy_from (suc fuel) [] = []
lossy_from (suc fuel) (b ∷ bs) = elim (front b bs) [
  | char c rest ↦ c ++ lossy_from fuel rest
  | broken rest ↦ replacement ++ lossy_from fuel rest
]

-- `String::from_utf8_lossy`.
unfoldable pub lossy : Bytes → Bytes
unfolding lossy_from
lossy bytes = lossy_from (length bytes) bytes

-- A character and the rest are the string that was cut.
data Cuts : ℕ → Bytes → Front → Type 0 where
  is_char : {a : ℕ} {bs c rest : Bytes} → c ++ rest ≡ a ∷ bs → Cuts a bs (char c rest)
  is_broken : {a : ℕ} {bs rest : Bytes} → Cuts a bs (broken rest)

Cuts-if :
    (a : ℕ) (bs : Bytes) (t : Bool) (x y : Front)
    → Cuts a bs x
    → Cuts a bs y
    → Cuts a bs (if t then x else y)
Cuts-if a bs true x y p q = p
Cuts-if a bs false x y p q = q

Cuts-two : (a : ℕ) (bs : Bytes) → Cuts a bs (front_of_two a bs)
Cuts-two a [] = is_broken
Cuts-two a (b ∷ bs) = Cuts-if a (b ∷ bs) _ _ _ (is_char refl) is_broken

Cuts-three : (a : ℕ) (bs : Bytes) → Cuts a bs (front_of_three a bs)
Cuts-three a [] = is_broken
Cuts-three a (b ∷ []) = Cuts-if a (b ∷ []) _ _ _ is_broken is_broken
Cuts-three a (b ∷ c ∷ bs) =
    Cuts-if a (b ∷ c ∷ bs) _ _ _ (Cuts-if a (b ∷ c ∷ bs) _ _ _ (is_char refl) is_broken) is_broken

Cuts-four : (a : ℕ) (bs : Bytes) → Cuts a bs (front_of_four a bs)
Cuts-four a [] = is_broken
Cuts-four a (b ∷ []) = Cuts-if a (b ∷ []) _ _ _ is_broken is_broken
Cuts-four a (b ∷ c ∷ []) =
    Cuts-if a (b ∷ c ∷ []) _ _ _ (Cuts-if a (b ∷ c ∷ []) _ _ _ is_broken is_broken) is_broken
Cuts-four a (b ∷ c ∷ d ∷ bs) =
    Cuts-if a (b ∷ c ∷ d ∷ bs) (second_of_four a b) _ _
      (Cuts-if a (b ∷ c ∷ d ∷ bs) (continues c) _ _
        (Cuts-if a (b ∷ c ∷ d ∷ bs) (continues d) (char (a ∷ b ∷ c ∷ d ∷ []) bs) _ (is_char refl)
          is_broken)
        is_broken)
      is_broken

Cuts-front : (a : ℕ) (bs : Bytes) → Cuts a bs (front a bs)
unfolding front
Cuts-front a bs = Cuts-if a bs _ _ _ (is_char refl) (
    Cuts-if a bs _ _ _ (Cuts-two a bs)
      (Cuts-if a bs _ _ _ (Cuts-three a bs) (Cuts-if a bs _ _ _ (Cuts-four a bs) is_broken)))

lossy_from-is_utf8 :
    (fuel : ℕ) (bytes : Bytes) → is_utf8_from fuel bytes ≡ true → lossy_from fuel bytes ≡ bytes
unfolding is_utf8_from lossy_from
lossy_from-is_utf8 zero [] h = refl
lossy_from-is_utf8 zero (b ∷ bs) h = cc
lossy_from-is_utf8 (suc fuel) [] h = refl
lossy_from-is_utf8 (suc fuel) (b ∷ bs) h =
    cut (lossy_from-is_utf8 fuel) (front b bs) (Cuts-front b bs) h
  where
    cut :
        ((rest : Bytes) → is_utf8_from fuel rest ≡ true → lossy_from fuel rest ≡ rest)
        → (f : Front) → Cuts b bs f
        → (elim f [ char c rest ↦ is_utf8_from fuel rest | broken rest ↦ false ]) ≡ true
        → (elim f [
          | char c rest ↦ c ++ lossy_from fuel rest
          | broken rest ↦ replacement ++ lossy_from fuel rest
        ])
          ≡ b ∷ bs
    cut ih (char c rest) (is_char p) e = ap (λ r. c ++ r) (ih rest e) ∙ p
    cut ih (broken rest) p e = cc

-- A byte string that decodes as UTF-8 is unchanged by the lossy decoding.
pub lossy-is_utf8 : (bytes : Bytes) → is_utf8 bytes ≡ true → lossy bytes ≡ bytes
unfolding is_utf8 lossy
lossy-is_utf8 bytes h = lossy_from-is_utf8 (length bytes) bytes h
