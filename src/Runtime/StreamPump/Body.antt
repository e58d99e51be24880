-- ===== src/Runtime/StreamPump/Body.antt =====
-- What reaches the reader of a streamed response of nwep/src/runtime.rs.
use nwep_rs.Base.{
  ℕ, zero, suc, ◌+◌, ◌≤◌, ◌≡◌, inl, inr, ◌⊎◌, ap, ◌∙◌, refl, sym, Bool, true, false, not, ◌&&◌,
  none, some, List, [], ◌∷◌, ◌++◌, map, Bytes, length, ltb, arith, Bool-cases, Option-cases,
  if◌then◌else◌,
}
use mathlib.Core.Path.{subst}
use nwep_rs.Error.{Error, Result, ok, err, Result-cases}
use nwep_rs.Runtime.StreamPump.{
  StreamApi, Chunk, StreamItem, end_item, sent_if, recv_chunk, verify, pump, recv, nth_recv,
}

abbrev pub chunk_items : List Bytes → List StreamItem
chunk_items = map λ b. ok (some b)

module _ {W : Type 0} (api : StreamApi W) where
  -- The stream gives these pieces and ends; the pieces that hold no byte are left out.
  pub data Yields : W → List Bytes → ℕ → W → Type 0 where
    last :
        (w : W) (c : Chunk) (bs : List Bytes)
        → (recv_chunk api w).0 ≡ ok c
        → c.ended ≡ true
        → bs ≡ (if ltb 0 c.n then c.bytes ∷ [] else [])
        → Yields w bs 1 (recv_chunk api w).1
    more :
        (w : W) (c : Chunk) (bs : List Bytes) (rest : List Bytes) {n : ℕ} {w' : W}
        → (recv_chunk api w).0 ≡ ok c
        → c.ended ≡ false
        → bs ≡ (if ltb 0 c.n then c.bytes ∷ rest else rest)
        → Yields (recv_chunk api w).1 rest n w'
        → Yields w bs (suc n) w'

  pump-Yields :
      (peer : Bytes) (takes : ℕ → Bool) (all : (i : ℕ) → takes i ≡ true) {w w' : W}
      {bs : List Bytes} {n : ℕ}
      → Yields w bs n w'
      → (fuel i : ℕ) → n ≤ fuel
      → pump api fuel peer takes i w
        ≡ some (chunk_items bs ++ end_item (verify api peer w').0 ∷ [], (verify api peer w').1)
  unfolding pump
  pump-Yields peer takes all (last w c bs e d q) zero i h = absurd (omega arith)
  pump-Yields peer takes all (last w c bs e d q) (suc fuel) i h = ground (arith, all i, all (i + 1))
  pump-Yields peer takes all (more w c bs rest e d q y) zero i h = absurd (omega arith)
  pump-Yields peer takes all (more w c bs rest e d q y) (suc fuel) i h = ground (
    arith,
    all i,
    all (i + 1),
    pump-Yields peer takes all y fuel i (omega arith),
    pump-Yields peer takes all y fuel (i + 1) (omega arith),
  )

  abbrev piece : Chunk → List Bytes → List Bytes
  piece c rest = if ltb 0 c.n then c.bytes ∷ rest else rest

  -- The stream gives these pieces, from one state to another, and has not ended.
  pub data Gives : W → List Bytes → W → Type 0 where
    so_far : {w : W} → Gives w [] w
    and_then :
        {w w' : W} {c : Chunk} {bs rest : List Bytes}
        → (recv_chunk api w).0 ≡ ok c
        → c.ended ≡ false
        → bs ≡ piece c rest
        → Gives (recv_chunk api w).1 rest w'
        → Gives w bs w'

  -- How a run of the loop can end, whose next send is the i-th one. The reader has gone away before the
  -- send that follows these pieces, in the middle of the body or at its end; or the stream has failed;
  -- or its signature has; or the whole body and its end were sent.
  pub data Ends (peer : Bytes) (takes : ℕ → Bool) (i : ℕ) (w : W) (items : List StreamItem)
      : Type 0 where
    left :
        {bs : List Bytes} {w' : W}
        → Gives w bs w'
        → items ≡ chunk_items bs
        → takes (i + length bs) ≡ false
        → Ends peer takes i w items
    left_at_end :
        {bs : List Bytes} {n : ℕ} {w' : W}
        → Yields w bs n w'
        → items ≡ chunk_items bs
        → takes (i + length bs) ≡ false
        → Ends peer takes i w items
    failed :
        {bs : List Bytes} {w' : W} {e : Error}
        → Gives w bs w'
        → (recv_chunk api w').0 ≡ err e
        → items ≡ chunk_items bs ++ err e ∷ []
        → Ends peer takes i w items
    unverified :
        {bs : List Bytes} {n : ℕ} {w' : W} {e : Error}
        → Yields w bs n w'
        → (verify api peer w').0 ≡ err e
        → items ≡ chunk_items bs ++ err e ∷ []
        → Ends peer takes i w items
    whole :
        {bs : List Bytes} {n : ℕ} {w' : W}
        → Yields w bs n w'
        → (verify api peer w').0 ≡ ok tt
        → items ≡ chunk_items bs ++ ok none ∷ []
        → Ends peer takes i w items

  chunk_items-piece :
      (c : Chunk) (rest : List Bytes)
      → chunk_items (piece c rest)
        ≡ (if ltb 0 c.n then ok (some c.bytes) ∷ [] else []) ++ chunk_items rest
  chunk_items-piece c rest = ground arith

  -- The number of the send after a piece.
  sends_after :
      (c : Chunk) (rest : List Bytes) (i : ℕ)
      → (if ltb 0 c.n then i + 1 else i) + length rest ≡ i + length (piece c rest)
  sends_after c rest i = ground arith

  Ends-more :
      (peer : Bytes) (takes : ℕ → Bool) (i : ℕ) (w : W) (c : Chunk) (items : List StreamItem)
      → (recv_chunk api w).0 ≡ ok c
      → c.ended ≡ false
      → Ends peer takes (if ltb 0 c.n then i + 1 else i) (recv_chunk api w).1 items
      → Ends peer takes i w ((if ltb 0 c.n then ok (some c.bytes) ∷ [] else []) ++ items)
  Ends-more peer takes i w c items e d (left {bs = bs} g q t) =
      left (and_then e d refl g) (rw q (sym (chunk_items-piece c bs)))
        (rw (sends_after c bs i) at t)
  Ends-more peer takes i w c items e d (left_at_end {bs = bs} y q t) =
      left_at_end (more w c (piece c bs) bs e d refl y) (rw q (sym (chunk_items-piece c bs)))
        (rw (sends_after c bs i) at t)
  Ends-more peer takes i w c items e d (failed g x q) =
      failed (and_then e d refl g) x (ground arith)
  Ends-more peer takes i w c items e d (unverified {bs = bs} y v q) =
      unverified (more w c (piece c bs) bs e d refl y) v (ground arith)
  Ends-more peer takes i w c items e d (whole {bs = bs} y v q) =
      whole (more w c (piece c bs) bs e d refl y) v (ground arith)

  ended-Ends :
      (peer : Bytes) (takes : ℕ → Bool) (i : ℕ) (w : W) (c : Chunk) (sends : Bool)
      (r : Result (Unit {0}))
      → (recv_chunk api w).0 ≡ ok c
      → c.ended ≡ true
      → takes (if ltb 0 c.n then i + 1 else i) ≡ sends
      → (verify api peer (recv_chunk api w).1).0 ≡ r
      → Ends peer takes i w
          ((if ltb 0 c.n then ok (some c.bytes) ∷ [] else []) ++ sent_if sends (end_item r))
  unfolding sent_if end_item
  ended-Ends peer takes i w c false r e d t v =
      left_at_end (last w c (piece c []) e d refl) (ground arith)
        (ap takes (sym (sends_after c [] i) ∙ omega arith) ∙ t)
  ended-Ends peer takes i w c true (ok u) e d t v =
      whole (last w c (piece c []) e d refl) v (ground arith)
  ended-Ends peer takes i w c true (err x) e d t v =
      unverified (last w c (piece c []) e d refl) v (ground arith)

  -- Whatever the stream gives and whenever the reader goes away, where the loop returns: the reader is sent
  -- pieces that the stream gave, in their order, each once, from the first one on. A reader that has gone
  -- away is sent nothing behind the pieces. Else there follows the error with which the stream has
  -- failed; or, behind all the pieces of the body, the error of the verification, or the end, which only
  -- a body with a verified signature has.
  pub pump-Ends :
      (fuel : ℕ) (peer : Bytes) (takes : ℕ → Bool) (i : ℕ) (w : W) {items : List StreamItem}
      {w' : W}
      → pump api fuel peer takes i w ≡ some (items, w')
      → Ends peer takes i w items
  unfolding pump sent_if
  pump-Ends zero peer takes i w h = cc
  pump-Ends (suc fuel) peer takes i w {items} {w'} h = elim (Result-cases (recv_chunk api w).0) [
    | inr (x, e) ↦ elim (Bool-cases (takes i)) [
      | inl t ↦ failed so_far e (ground arith)
      | inr t ↦ left so_far (ground arith) (ap takes (omega arith) ∙ t)
    ]
    | inl (c, e) ↦ elim (Bool-cases (ltb 0 c.n && not (takes i))) [
      | inl gone ↦ left so_far (ground arith) (ap takes {y = i} (omega arith) ∙ ground arith)
      | inr here ↦ elim (Bool-cases c.ended) [
        | inl d ↦
            subst (Ends peer takes i w) (ground arith)
              (ended-Ends peer takes i w c (takes (if ltb 0 c.n then i + 1 else i)) _ e d refl refl)
        | inr d ↦
            elim (Option-cases
              (pump api fuel peer takes (if ltb 0 c.n then i + 1 else i) (recv_chunk api w).1)) [
                | inl q ↦ absurd (ground arith)
                | inr (r, q) ↦ subst (Ends peer takes i w) (ground arith) (
                    Ends-more peer takes i w c r.0 e d
                      (pump-Ends fuel peer takes _ (recv_chunk api w).1 q))
              ]
      ]
    ]
  ]

  -- What a reader that stays is sent, before the verification is read.
  pub pump_pieces :
      (peer : Bytes) {w w' : W} {bs : List Bytes} {n : ℕ}
      → Yields w bs n w'
      → (fuel : ℕ) → n ≤ fuel
      → pump api fuel peer (λ i. true) 0 w
        ≡ some (chunk_items bs ++ end_item (verify api peer w').0 ∷ [], (verify api peer w').1)
  pump_pieces peer y fuel h = pump-Yields peer (λ i. true) (λ i. refl) y fuel 0 h

  -- A stream that gives its whole body, with a reader that stays, and fuel for each piece: the
  -- reader is sent the pieces in order, and then the end if the signature verifies, and the error of the
  -- verification if it does not.
  pub pump_delivers :
      (peer : Bytes) {w w' : W} {bs : List Bytes} {n : ℕ}
      → Yields w bs n w'
      → (fuel : ℕ) → n ≤ fuel
      → (((verify api peer w').0 ≡ ok tt)
          × (pump api fuel peer (λ i. true) 0 w
              ≡ some (chunk_items bs ++ ok none ∷ [], (verify api peer w').1)))
        ⊎ ((e : Error) × ((verify api peer w').0 ≡ err e)
            × (pump api fuel peer (λ i. true) 0 w
                ≡ some (chunk_items bs ++ err e ∷ [], (verify api peer w').1)))
  unfolding end_item
  pump_delivers peer {w' = w'} {bs = bs} y fuel h = elim (Result-cases (verify api peer w').0) [
    | inl (u, v) ↦
        let ends : end_item (verify api peer w').0 ≡ ok none = rw v refl in
        inl (
          v,
          pump_pieces peer y fuel h
              ∙ ap (λ x. some (chunk_items bs ++ x ∷ [], (verify api peer w').1)) ends,
        )
    | inr (e, v) ↦
        let ends : end_item (verify api peer w').0 ≡ err e = rw v refl in
        inr (
          e,
          v,
          pump_pieces peer y fuel h
              ∙ ap (λ x. some (chunk_items bs ++ x ∷ [], (verify api peer w').1)) ends,
        )
  ]

nth_recv-append :
    (bs : List Bytes) (k : ℕ) (rest : List StreamItem)
    → nth_recv (length bs + k) (chunk_items bs ++ rest) ≡ nth_recv k rest
unfolding nth_recv
nth_recv-append [] k rest = let e : length {A = Bytes} [] + k ≡ k = omega arith in rw e
nth_recv-append (b ∷ bs) k rest =
    let e : suc (length bs) + k ≡ suc (length bs + k) = omega arith in
    rw e (nth_recv-append bs k rest)

module _ {W : Type 0} (api : StreamApi W) where
  -- The reader of a body whose signature does not verify, with fuel for each piece, gets after the
  -- pieces the error, and on the next call `Ok(None)`, which is what it gets at a verified end.
  pub recv_after_failure :
      (peer : Bytes) {w w' : W} {bs : List Bytes} {n : ℕ} (fuel : ℕ) (e : Error)
      → Yields api w bs n w'
      → n ≤ fuel
      → (verify api peer w').0 ≡ err e
      → (items : List StreamItem) × (pump api fuel peer (λ i. true) 0 w
          ≡ some (items, (verify api peer w').1))
        × (nth_recv (length bs) items ≡ err e)
        × (nth_recv (length bs + 1) items ≡ ok none)
  unfolding nth_recv recv end_item
  recv_after_failure peer {w} {w'} {bs} fuel e y h v =
      let stop : end_item (verify api peer w').0 ≡ err e = rw v refl in
      let at : length bs + 0 ≡ length bs = omega arith in
      (
        chunk_items bs ++ err e ∷ [],
        rw (← stop) (pump_pieces api peer y fuel h),
        rw at at (nth_recv-append bs 0 (err e ∷ [])),
        nth_recv-append bs 1 (err e ∷ []),
      )
