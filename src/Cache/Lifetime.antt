-- ===== src/Cache/Lifetime.antt =====
-- The caches that clients share, over `set_cache` and the drops in nwep/src/client.rs: no client points C
-- at a cache that is freed.
use nwep_rs.Base.{
  ℤ, ℕ, zero, suc, ◌<◌, ◌≡◌, ◌⊎◌, inl, inr, refl, sym, ◌∙◌, Bool, true, false, ◌&&◌, Option, none,
  some, List, [], ◌∷◌, arith, Bool-cases, is_negative,
}
use nwep_rs.Lifecycle.{contains}
use nwep_rs.Cache.Shared.{
  Slot, slot_with, Shared, is_it, any_holds, holds, remove, drop_rc, slot_at, put_slot, moved_out,
  can_move, set_cache, drop_client, Op, makes_cache, opens_client, clones, drops, sets,
  drops_client, perform, perform_all, empty,
}

abbrev Agree : List Slot → Type 0
Agree [] = Unit {0}
Agree (s ∷ ss) = (s.attached ≡ s.held) × Agree ss

-- C's pointers are the fields, a freed cache has no `Rc` left, and every cache has a number that was
-- given.
record Inv (s : Shared) : Type 0 where
  unheld : (c : ℕ) → contains c s.freed ≡ true → holds c s ≡ false
  freed_made : (c : ℕ) → contains c s.freed ≡ true → c < s.made
  held_made : (c : ℕ) → holds c s ≡ true → c < s.made
  agree : Agree s.clients

contains-remove : (c x : ℕ) (xs : List ℕ) → contains x (remove c xs) ≡ true → contains x xs ≡ true
contains-remove c x [] h = h
contains-remove c x (y ∷ ys) h = ground (arith, contains-remove c x ys)

any_holds-put_slot :
    (x k : ℕ) (slot : Slot) (ss : List Slot)
    → any_holds x (put_slot k slot ss) ≡ true
    → (is_it x slot.held ≡ true) ⊎ (any_holds x ss ≡ true)
any_holds-put_slot x k slot [] h = cc
any_holds-put_slot x zero slot (s ∷ ss) h = ground arith
any_holds-put_slot x (suc k) slot (s ∷ ss) h = ground (arith, any_holds-put_slot x k slot ss)

any_holds-slot_at :
    (x k : ℕ) (ss : List Slot) → is_it x (slot_at k ss).held ≡ true → any_holds x ss ≡ true
any_holds-slot_at x k [] h = cc
any_holds-slot_at x zero (s ∷ ss) h = ground arith
any_holds-slot_at x (suc k) (s ∷ ss) h = ground (arith, any_holds-slot_at x k ss h)

Agree-put_slot :
    (k : ℕ) (slot : Slot) (ss : List Slot)
    → slot.attached ≡ slot.held
    → Agree ss
    → Agree (put_slot k slot ss)
Agree-put_slot k slot [] e a = tt
Agree-put_slot zero slot (s ∷ ss) e (b, a) = (e, a)
Agree-put_slot (suc k) slot (s ∷ ss) e (b, a) = (b, Agree-put_slot k slot ss e a)

Agree-slot_at : (k : ℕ) (ss : List Slot) → Agree ss → (slot_at k ss).attached ≡ (slot_at k ss).held
Agree-slot_at k [] a = refl
Agree-slot_at zero (s ∷ ss) (b, a) = b
Agree-slot_at (suc k) (s ∷ ss) (b, a) = Agree-slot_at k ss a

-- A step that frees nothing and gives no `Rc` of a cache that had none.
Inv-shrink :
    (s t : Shared)
    → Inv s
    → t.freed ≡ s.freed
    → t.made ≡ s.made
    → ((c : ℕ) → holds c t ≡ true → holds c s ≡ true)
    → Agree t.clients
    → Inv t
Inv-shrink s t i f m h a = record {
  unheld = λ c e. elim (Bool-cases (holds c t)) [
    | inl u ↦ let none_left = i.unheld c (rw (f) at e) in absurd (ground (arith, h c u, none_left))
    | inr u ↦ u
  ];
  freed_made = λ c e. rw (m) (i.freed_made c (rw (f) at e));
  held_made = λ c e. rw (m) (i.held_made c (h c e));
  agree = a;
}

Inv-drop_rc :
    (o : Option ℕ) (s : Shared) → Inv s → ((c : ℕ) → o ≡ some c → c < s.made) → Inv (drop_rc o s)
unfolding drop_rc
Inv-drop_rc none s i b = i
Inv-drop_rc (some c) s i b = elim (Bool-cases (holds c s)) [
  | inl e ↦ rw (e) i
  | inr e ↦ rw (e) (record {
    unheld = λ x f. ground (arith, i.unheld x, e);
    freed_made = λ x f. ground (arith, i.freed_made x, b c refl);
    held_made = i.held_made;
    agree = i.agree;
  })
]

moved_out-holds :
    (new : Option ℕ) (s : Shared) (c : ℕ) → holds c (moved_out new s) ≡ true → holds c s ≡ true
moved_out-holds none s c h = h
moved_out-holds (some n) s c h = ground (arith, contains-remove n c s.program)

can_move-holds :
    (new : Option ℕ) (s : Shared) (c : ℕ)
    → can_move new s ≡ true
    → is_it c new ≡ true
    → holds c s ≡ true
can_move-holds none s c m e = cc
can_move-holds (some n) s c m e = ground arith

module _ (k : ℕ) (s : Shared) (i : Inv s) where
  -- The state with another slot, before the `Rc` that the slot held is dropped.
  slot_replaced :
      (new : Option ℕ) (b : Bool)
      → can_move new s ≡ true
      → Inv (record (moved_out new s) {
        clients = put_slot k (slot_with b new) (moved_out new s).clients;
      })
  slot_replaced none b m =
      Inv-shrink s _ i refl refl
        (λ c h. ground (arith, any_holds-put_slot c k (slot_with b none) s.clients))
        (Agree-put_slot k (slot_with b none) s.clients refl i.agree)
  slot_replaced (some n) b m =
      Inv-shrink s _ i refl refl
        (λ c h. ground (
          arith,
          contains-remove n c s.program,
          any_holds-put_slot c k (slot_with b (some n)) s.clients,
        ))
        (Agree-put_slot k (slot_with b (some n)) s.clients refl i.agree)

  slot_made : (c : ℕ) → (slot_at k s.clients).held ≡ some c → c < s.made
  slot_made c e =
      i.held_made c (ground (arith, any_holds-slot_at c k s.clients (rw (e) (ground arith))))

  moved_made : (new : Option ℕ) → (moved_out new s).made ≡ s.made
  moved_made none = refl
  moved_made (some n) = refl

  refused_argument : (new : Option ℕ) → can_move new s ≡ true → Inv (drop_rc new (moved_out new s))
  refused_argument none m = Inv-drop_rc none s i (λ c e. cc)
  refused_argument (some n) m =
      Inv-drop_rc (some n) (moved_out (some n) s)
        (Inv-shrink s _ i refl refl (moved_out-holds (some n) s) i.agree)
        (λ c e. i.held_made c (ground (arith, e)))

  set_cache-Inv : (new : Option ℕ) (rc : ℤ) → can_move new s ≡ true → Inv (set_cache k new rc s)
  unfolding set_cache
  set_cache-Inv new rc m = elim (Bool-cases (is_negative rc)) [
    | inl e ↦ rw (e) (refused_argument new m)
    | inr e ↦ rw (e) (
        Inv-drop_rc (slot_at k s.clients).held _ (slot_replaced new true m)
          (λ c h. rw (moved_made new) (slot_made c h)))
  ]

  drop_client-Inv : Inv (drop_client k s)
  unfolding drop_client
  drop_client-Inv =
      Inv-drop_rc (slot_at k s.clients).held _ (slot_replaced none false refl) slot_made

perform-Inv : (op : Op) (s : Shared) → Inv s → Inv (perform op s)
unfolding perform
perform-Inv makes_cache s i = record {
  unheld = λ c e. ground (arith, i.unheld c e, i.freed_made c e);
  freed_made = λ c e. ground (arith, i.freed_made c e);
  held_made = λ c e. ground (arith, i.held_made c);
  agree = i.agree;
}
perform-Inv opens_client s i = Inv-shrink s _ i refl refl (λ c h. ground arith) (refl, i.agree)
perform-Inv (clones n) s i = elim (Bool-cases (contains n s.program)) [
  | inl e ↦ rw (e) (Inv-shrink s _ i refl refl (λ c h. ground arith) i.agree)
  | inr e ↦ rw (e) i
]
perform-Inv (drops n) s i = elim (Bool-cases (contains n s.program)) [
  | inl e ↦ rw (e) (refused_argument 0 s i (some n) e)
  | inr e ↦ rw (e) i
]
perform-Inv (sets k new rc) s i =
    elim (Bool-cases ((slot_at k s.clients).is_open && can_move new s)) [
      | inl e ↦ rw (e) (set_cache-Inv k s i new rc (ground arith))
      | inr e ↦ rw (e) i
    ]
perform-Inv (drops_client k) s i = elim (Bool-cases (slot_at k s.clients).is_open) [
  | inl e ↦ rw (e) (drop_client-Inv k s i)
  | inr e ↦ rw (e) i
]

perform_all-Inv : (ops : List Op) (s : Shared) → Inv s → Inv (perform_all ops s)
unfolding perform_all
perform_all-Inv [] s i = i
perform_all-Inv (op ∷ ops) s i = perform_all-Inv ops (perform op s) (perform-Inv op s i)

empty-Inv : Inv empty
empty-Inv = record {
  unheld = λ c e. refl;
  freed_made = λ c e. cc;
  held_made = λ c e. cc;
  agree = tt;
}

-- However a program makes, clones, drops and sets caches, opens clients and drops them, and whether C
-- accepts a cache or refuses it: the cache that C holds for a client is one that the client's field
-- holds, and it is not freed.
pub perform_all-attached :
    (ops : List Op) (k c : ℕ)
    → (slot_at k (perform_all ops empty).clients).attached ≡ some c
    → ((slot_at k (perform_all ops empty).clients).held ≡ some c)
      × (contains c (perform_all ops empty).freed ≡ false)
perform_all-attached ops k c h =
    let s = perform_all ops empty in
    let i = perform_all-Inv ops empty empty-Inv in
    let held : (slot_at k s.clients).held ≡ some c = sym (Agree-slot_at k s.clients i.agree) ∙ h in
    (
      held,
      elim (Bool-cases (contains c s.freed)) [
        | inl e ↦ absurd (
            ground
              (arith, i.unheld c e, any_holds-slot_at c k s.clients (rw (held) (ground arith))))
        | inr e ↦ e
      ],
    )
