-- ===== src/Ffi/Strings.antt =====
-- The arguments that nwep/src hands to C: a `CString` is a byte string with no NUL, and
-- `CString::new` refuses any other; a header array ends with an entry whose name is null.
use nwep_rs.Base.{
  ℕ, Bool, false, Option, none, some, List, [], ◌∷◌, Bytes, ◌==◌, ◌||◌, if◌then◌else◌, length,
}
use nwep_rs.Error.{Result, ok, err, proto_invalid_header, ◌>>=◌}

unfoldable pub has_nul : Bytes → Bool
has_nul [] = false
has_nul (b ∷ bs) = b == 0 || has_nul bs

-- `CString::new`: `none` is the `NulError`.
unfoldable pub cstring : Bytes → Option Bytes
unfolding has_nul
cstring s = if has_nul s then none else some s

-- `CString::new(s).map_err(|_| Error::ProtoInvalidHeader)`.
unfoldable pub cstring_or_invalid : Bytes → Result Bytes
unfolding cstring
cstring_or_invalid s = elim (cstring s) [ none ↦ err proto_invalid_header | some c ↦ ok c ]

abbrev pub Pairs : Type 0
Pairs = List (Bytes × Bytes)

-- The loop that turns the request headers into C strings.
unfoldable pub c_headers : Pairs → Result Pairs
unfolding cstring_or_invalid
c_headers [] = ok []
c_headers ((name, value) ∷ hs) = do
  n ← cstring_or_invalid name
  v ← cstring_or_invalid value
  rest ← c_headers hs
  ok ((n, v) ∷ rest)

-- An array of `nwep_header`; `none` is the entry with a null name, which ends it for C.
abbrev pub HeaderArray : Type 0
HeaderArray = List (Option (Bytes × Bytes))

-- The array that is built from the C strings, with its sentinel.
unfoldable pub header_array : Pairs → HeaderArray
header_array [] = none ∷ []
header_array (h ∷ hs) = some h ∷ header_array hs

-- A body pointer and its length; `none` is the null pointer.
pub record BodyArg : Type 0 where
  pub bytes : Option Bytes
  pub len : ℕ

-- `slice_parts`, and the same test in the client: null for an empty slice.
unfoldable pub slice_parts : Bytes → BodyArg
slice_parts [] = record { bytes = none; len = 0 }
slice_parts (b ∷ bs) = record { bytes = some (b ∷ bs); len = length (b ∷ bs) }
