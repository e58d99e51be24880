-- ===== src/Lifecycle.antt =====
-- The rules for a C handle with a callback whose userdata is a Rust box, as the `SAFETY` comments of
-- nwep/src state them: a handle is not passed to C after it was freed, the library may run the
-- callback inside any call that drives or frees the handle, so the box must be alive then, and a box is
-- freed once. A Rust method is the list of the events that it causes; a replay checks the rules.
use nwep_rs.Base.{
  ℕ, suc, ◌<◌, Bool, true, false, not, ◌&&◌, ◌||◌, Option, none, some, List, [], ◌∷◌, ◌++◌, ◌≡◌,
  refl, ◌==◌, if◌then◌else◌, arith, Option-cases, inl, inr,
}

pub data Event : Type 0 where
  -- a call that drives the handle
  drive : Event
  -- the callback is set to a box, or to null
  install : Option ℕ → Event
  -- the handle is freed
  release : Event
  -- a box is dropped
  free_box : ℕ → Event

pub record Handle : Type 0 where
  pub is_open : Bool
  pub installed : Option ℕ
  pub freed : List ℕ

abbrev pub contains : ℕ → List ℕ → Bool
contains b [] = false
contains b (x ∷ xs) = x == b || contains b xs

abbrev pub dangles : Handle → Bool
dangles h = elim h.installed [ none ↦ false | some b ↦ contains b h.freed ]

-- `none` is a broken rule.
unfoldable pub step : Handle → Event → Option Handle
step h drive = if h.is_open && not (dangles h) then some h else none
step h (install b) = if h.is_open then some (record h { installed = b }) else none
step h release = if h.is_open && not (dangles h) then some (record h { is_open = false }) else none
step h (free_box b) = if contains b h.freed then none else some (record h { freed = b ∷ h.freed })

unfoldable pub replay : Handle → List Event → Option Handle
replay h [] = some h
replay h (e ∷ es) = elim (step h e) [ none ↦ none | some h' ↦ replay h' es ]

pub replay-append :
    (h : Handle) (es fs : List Event) {h' : Handle}
    → replay h es ≡ some h'
    → replay h (es ++ fs) ≡ replay h' fs
unfolding replay
replay-append h [] fs e = ground arith
replay-append h (x ∷ es) fs e = elim (Option-cases (step h x)) [
  | inl n ↦ cc (rw (n, replay) at e)
  | inr (k, q) ↦ rw (q, replay) (replay-append k es fs (rw (q, replay) at e))
]

-- Boxes are numbered in the order of their allocation.
abbrev pub Below : ℕ → List ℕ → Type 0
Below n [] = Unit {0}
Below n (x ∷ xs) = (x < n) × Below n xs

pub Below-suc : (n : ℕ) (xs : List ℕ) → Below n xs → Below (suc n) xs
Below-suc n [] h = tt
Below-suc n (x ∷ xs) (p, h) = (omega arith, Below-suc n xs h)

pub contains-Below : (n : ℕ) (xs : List ℕ) → Below n xs → contains n xs ≡ false
contains-Below n [] h = refl
contains-Below n (x ∷ xs) h = ground (arith, contains-Below n xs h.1)

-- A handle just made by C.
abbrev pub fresh : Handle
fresh = record { is_open = true; installed = none; freed = [] }
