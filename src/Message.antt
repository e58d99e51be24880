-- ===== src/Message.antt =====
-- nwep/src/message.rs: `Headers`, the iterator over a message's headers.
pub mod WireOrder
pub mod Reading
mod Tests
use nwep_rs.Base.{
  ℤ, ℕ, pos, zero, suc, ◌+◌, ◌-◌, Bool, true, false, not, ◌||◌, Option, none, some, List, [], ◌∷◌,
  Bytes, leb, eq_ℤ, if◌then◌else◌,
}

-- What `nwep_message_header_at` gives for an index: the code, and the name and value where the
-- pointers are not null. `utf8` is whether the bytes decode, as `CStr::to_str` decides.
pub record HeaderAt : Type 0 where
  pub rc : ℤ
  pub name : Option Bytes
  pub value : Option Bytes

pub record MessageApi : Type 0 where
  pub header_count : ℕ
  pub header_at : ℕ → HeaderAt
  pub utf8 : Bytes → Bool

-- The fields of `Headers` that change, and the count that it has read when it was made.
pub record Headers : Type 0 where
  pub next : ℕ
  pub count : ℕ

-- `Headers::new`.
unfoldable pub new : MessageApi → Headers
new api = record { next = 0; count = api.header_count }

-- `CStr::from_ptr(p).to_str().unwrap_or("")`.
unfoldable pub str_or_empty : MessageApi → Bytes → Bytes
str_or_empty api s = if api.utf8 s then s else []

-- The item that is read back, empty where the header does not read.
unfoldable pub item : MessageApi → HeaderAt → Bytes × Bytes
unfolding str_or_empty
item api h = if not (eq_ℤ h.rc (pos 0)) then ([], []) else elim h.name [
  | none ↦ ([], [])
  | some n ↦ elim h.value [ none ↦ ([], []) | some v ↦ (str_or_empty api n, str_or_empty api v) ]
]

-- `Iterator::next`.
unfoldable pub advance : MessageApi → Headers → Option (Bytes × Bytes) × Headers
advance api h =
    if leb h.count h.next
    then (none, h)
    else (some (item api (api.header_at h.next)), record h { next = h.next + 1 })

-- `size_hint`, whose two bounds are the same. `usize` subtraction.
unfoldable pub size_hint : Headers → ℕ
size_hint h = h.count - h.next

-- A `for` loop over the iterator, on fuel; `none` means that the fuel ran out.
unfoldable pub collect : ℕ → MessageApi → Headers → Option (List (Bytes × Bytes))
collect zero api h = none
collect (suc fuel) api h =
    let (o, h') = advance api h in
    elim o [
      | none ↦ some []
      | some x ↦ elim (collect fuel api h') [ none ↦ none | some xs ↦ some (x ∷ xs) ]
    ]
