-- ===== src/Ffi/Clean.antt =====
-- Which strings nwep/src can pass to C, and what C reads of a header array.
use nwep_rs.Base.{
  ◌≡◌, ◌⊎◌, inl, refl, ap, Bool, true, false, none, some, [], ◌∷◌, Bytes, arith, ◌||◌,
}
use nwep_rs.Error.{ok, err, proto_invalid_header}
use nwep_rs.Ffi.Strings.{has_nul, cstring_or_invalid, c_headers, header_array, HeaderArray, Pairs}

-- Whether a header has a NUL in its name or its value.
abbrev pub has_nul_header : Pairs → Bool
has_nul_header [] = false
has_nul_header ((n, v) ∷ hs) = has_nul n || has_nul v || has_nul_header hs

pub cstring_or_invalid_lem :
    (s : Bytes)
    → ((has_nul s ≡ false) × (cstring_or_invalid s ≡ ok s))
      ⊎ ((has_nul s ≡ true) × (cstring_or_invalid s ≡ err proto_invalid_header))
unfolding cstring_or_invalid
cstring_or_invalid_lem s = ground arith

-- The headers are passed as they are, all of them and in their order, unless one has a NUL.
pub c_headers_lem :
    (hs : Pairs)
    → ((has_nul_header hs ≡ false) × (c_headers hs ≡ ok hs))
      ⊎ ((has_nul_header hs ≡ true) × (c_headers hs ≡ err proto_invalid_header))
unfolding c_headers
c_headers_lem [] = inl (refl, refl)
c_headers_lem ((n, v) ∷ hs) = ground (arith, c_headers_lem hs)

-- What C reads of a header array: the entries before the first one with a null name.
abbrev pub c_reads : HeaderArray → Pairs
c_reads [] = []
c_reads (none ∷ hs) = []
c_reads (some h ∷ hs) = h ∷ c_reads hs

pub c_reads-header_array : (hs : Pairs) → c_reads (header_array hs) ≡ hs
unfolding header_array
c_reads-header_array [] = refl
c_reads-header_array (h ∷ hs) = ap (◌∷◌ h) (c_reads-header_array hs)
