-- ===== src/Cache/Shared.antt =====
-- `Client::set_cache` and the drop of a client in nwep/src/client.rs, over the caches of a thread: an
-- `Rc<Cache>` is named by the number of its cache, and the last `Rc` of a cache frees it. C keeps a
-- plain pointer to the cache that it was given.
use nwep_rs.Base.{
  ℤ, ℕ, zero, suc, Bool, true, false, ◌&&◌, ◌||◌, Option, none, some, List, [], ◌∷◌, ◌==◌,
  is_negative, if◌then◌else◌,
}
use nwep_rs.Lifecycle.{contains}

-- A client: whether it is open, the cache that its field holds, and the one that C points at.
pub record Slot : Type 0 where
  pub is_open : Bool
  pub held : Option ℕ
  pub attached : Option ℕ

abbrev pub slot_with : Bool → Option ℕ → Slot
slot_with is_open cache = record { is_open = is_open; held = cache; attached = cache }

-- The `Rc`s that the program holds, one entry for each, the clients, the caches that are freed, and how
-- many were made.
pub record Shared : Type 0 where
  pub program : List ℕ
  pub clients : List Slot
  pub freed : List ℕ
  pub made : ℕ

abbrev pub is_it : ℕ → Option ℕ → Bool
is_it c none = false
is_it c (some b) = b == c

abbrev pub any_holds : ℕ → List Slot → Bool
any_holds c [] = false
any_holds c (s ∷ ss) = is_it c s.held || any_holds c ss

-- Whether some `Rc` of the cache is left.
abbrev pub holds : ℕ → Shared → Bool
holds c s = contains c s.program || any_holds c s.clients

-- Without the first entry for a cache.
abbrev pub remove : ℕ → List ℕ → List ℕ
remove c [] = []
remove c (x ∷ xs) = if x == c then xs else x ∷ remove c xs

-- The drop of an `Option<Rc<Cache>>` that was taken from its place before.
unfoldable pub drop_rc : Option ℕ → Shared → Shared
drop_rc none s = s
drop_rc (some c) s = if holds c s then s else record s { freed = c ∷ s.freed }

abbrev pub slot_at : ℕ → List Slot → Slot
slot_at k [] = slot_with false none
slot_at zero (s ∷ ss) = s
slot_at (suc k) (s ∷ ss) = slot_at k ss

abbrev pub put_slot : ℕ → Slot → List Slot → List Slot
put_slot k slot [] = []
put_slot zero slot (s ∷ ss) = slot ∷ ss
put_slot (suc k) slot (s ∷ ss) = s ∷ put_slot k slot ss

-- The argument of `set_cache` is moved out of the program's hands.
abbrev pub moved_out : Option ℕ → Shared → Shared
moved_out none s = s
moved_out (some c) s = record s { program = remove c s.program }

abbrev pub can_move : Option ℕ → Shared → Bool
can_move none s = true
can_move (some c) s = contains c s.program

-- `set_cache` of a client, where C answers `rc`: C is told first, then the field is set, and what the
-- field held is dropped last; where C refuses, the argument is dropped.
unfoldable pub set_cache : ℕ → Option ℕ → ℤ → Shared → Shared
unfolding drop_rc
set_cache k new rc s =
    let slot = slot_at k s.clients in
    if is_negative rc
    then drop_rc new (moved_out new s)
    else let moved = moved_out new s in
      drop_rc slot.held (record moved { clients = put_slot k (slot_with true new) moved.clients })

-- The drop of a client: the connection is closed, and the cache is dropped after it.
unfoldable pub drop_client : ℕ → Shared → Shared
unfolding drop_rc
drop_client k s =
    drop_rc (slot_at k s.clients).held
      (record s { clients = put_slot k (slot_with false none) s.clients })

-- What a program does with its caches and clients. Only a held `Rc` can be cloned, dropped or passed,
-- and only an open client be used.
pub data Op : Type 0 where
  makes_cache opens_client : Op
  clones drops : ℕ → Op
  sets : ℕ → Option ℕ → ℤ → Op
  drops_client : ℕ → Op

unfoldable pub perform : Op → Shared → Shared
unfolding drop_rc set_cache drop_client
perform makes_cache s = record s { program = s.made ∷ s.program; made = suc s.made }
perform opens_client s = record s { clients = slot_with true none ∷ s.clients }
perform (clones c) s = if contains c s.program then record s { program = c ∷ s.program } else s
perform (drops c) s =
    if contains c s.program then drop_rc (some c) (record s { program = remove c s.program }) else s
perform (sets k new rc) s =
    if (slot_at k s.clients).is_open && can_move new s then set_cache k new rc s else s
perform (drops_client k) s = if (slot_at k s.clients).is_open then drop_client k s else s

unfoldable pub perform_all : List Op → Shared → Shared
unfolding perform
perform_all [] s = s
perform_all (op ∷ ops) s = perform_all ops (perform op s)

abbrev pub empty : Shared
empty = record { program = []; clients = []; freed = []; made = 0 }
