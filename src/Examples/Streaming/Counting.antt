-- ===== src/Examples/Streaming/Counting.antt =====
-- The bytes that the clients of nwep/examples/nwcurl.rs and managed_stream.rs count.
use nwep_rs.Base.{
  ℕ, zero, suc, ◌+◌, ◌≤◌, ◌≡◌, refl, inl, inr, ◌∙◌, ap, true, Option, some, List, [], ◌∷◌, ◌++◌,
  Bytes, length, ltb, arith, if◌then◌else◌,
}
use nwep_rs.Error.{Result, ok, err, Result-cases}
use nwep_rs.Ffi.{pure, ◌>>=◌}
use nwep_rs.Runtime.StreamPump.{StreamApi, Chunk, StreamItem, recv_chunk, verify, pump, end_item}
use nwep_rs.Runtime.StreamPump.Body.{Yields, last, more, chunk_items, pump_pieces}
use nwep_rs.Examples.Streaming.{receive, read_verified}
use nwep_rs.Examples.Streaming.Clients.{tally}

-- The bytes of some pieces.
abbrev pub total_length : List Bytes → ℕ
total_length [] = 0
total_length (b ∷ bs) = length b + total_length bs

-- What a client says of a body: its counts, if its signature has verified.
abbrev pub verdict : {A : Type 0} → A → Result (Unit {0}) → Result A
verdict a (ok _) = ok a
verdict a (err e) = err e

-- What `tally` has counted, with the end of the body or the error behind the pieces.
tally-chunk_items :
    (bs : List Bytes) (v : Result (Unit {0})) (total chunks : ℕ)
    → tally (chunk_items bs ++ end_item v ∷ []) total chunks
      ≡ verdict (total + total_length bs, chunks + length bs) v
unfolding tally end_item
tally-chunk_items [] (ok _) total chunks = ground arith
tally-chunk_items [] (err e) total chunks = refl
tally-chunk_items (b ∷ bs) v total chunks =
    tally-chunk_items bs v (total + length b) (chunks + 1) ∙ ap (λ p. verdict p v) (ground arith)

-- A piece that holds no byte is left out, and counts for nothing.
total_length-kept :
    (c : Chunk) (rest : List Bytes)
    → c.n ≡ length c.bytes
    → total_length (if ltb 0 c.n then c.bytes ∷ rest else rest) ≡ c.n + total_length rest
total_length-kept c rest h = ground (arith, h)

module _ {W : Type 0} (api : StreamApi W)
    (fits : (w : W) (c : Chunk) → (recv_chunk api w).0 ≡ ok c → c.n ≡ length c.bytes) where
  receive-Yields :
      {w w' : W} {bs : List Bytes} {n : ℕ}
      → Yields api w bs n w'
      → (fuel got : ℕ) → n ≤ fuel
      → receive api fuel got w ≡ (ok (some (got + total_length bs)), w')
  unfolding receive
  receive-Yields (last w c bs e d q) zero got h = absurd (omega arith)
  receive-Yields (last w c bs e d q) (suc fuel) got h =
      let counted : total_length bs ≡ c.n + 0 =
        ap total_length q ∙ total_length-kept c [] (fits w c e) in
      rw (◌>>=◌, e, d, counted) (ground arith)
  receive-Yields (more w c bs rest e d q y) zero got h = absurd (omega arith)
  receive-Yields {w' = w'} (more w c bs rest e d q y) (suc fuel) got h =
      let counted : total_length bs ≡ c.n + total_length rest =
        ap total_length q ∙ total_length-kept c rest (fits w c e) in
      rw (◌>>=◌, e, d, counted)
        (receive-Yields y fuel (got + c.n) (omega (arith, h))
          ∙ ap (λ m. (ok (some m), w')) (ground arith))

  -- The check of the trailer after the read.
  verify_after :
      (peer : Bytes) (n : Option ℕ) (w : W)
      → ((◌>>=◌ (verify api peer) (λ _. pure n)) w).0 ≡ verdict n (verify api peer w).0
  verify_after peer n w = elim (Result-cases (verify api peer w).0) [
    | inl (u, v) ↦ rw (◌>>=◌, v) refl
    | inr (e, v) ↦ rw (◌>>=◌, v) refl
  ]

  -- A stream that gives its whole body, with fuel for each piece, over a library that writes as many bytes as
  -- it says: nwcurl counts the bytes of the body and managed_stream the same, and the pieces too, if the
  -- signature verifies; and if not, both end with the error of the verification.
  pub read_verified-tally :
      (peer : Bytes) {w w' : W} {bs : List Bytes} {n : ℕ}
      → Yields api w bs n w'
      → (fuel : ℕ) → n ≤ fuel
      → ((read_verified api fuel peer w).0
          ≡ verdict (some (total_length bs)) (verify api peer w').0)
        × ((items : List StreamItem) × (pump api fuel peer (λ i. true) 0 w
              ≡ some (items, (verify api peer w').1))
            × (tally items 0 0 ≡ verdict (total_length bs, length bs) (verify api peer w').0))
  unfolding read_verified
  read_verified-tally peer {w' = w'} {bs = bs} y fuel h = (
    ap
          (λ (r : Result (Option ℕ) × W).
            ((◌>>=◌ (λ _. r) (λ got. ◌>>=◌ (verify api peer) (λ _. pure got))) w').0)
          (receive-Yields y fuel 0 h)
        ∙ verify_after peer (some (0 + total_length bs)) w'
        ∙ ap (λ n. verdict (some n) (verify api peer w').0) {y = total_length bs} (ground arith),
    (
      chunk_items bs ++ end_item (verify api peer w').0 ∷ [],
      pump_pieces api peer y fuel h,
      tally-chunk_items bs (verify api peer w').0 0 0
          ∙ ap (λ p. verdict p (verify api peer w').0) (ground arith),
    ),
  )
