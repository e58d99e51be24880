-- ===== src/Poll/Draining.antt =====
-- The wakers of nwep/src/poll.rs: the end of their draining loops, and the sockets of the windows one.
use nwep_rs.Base.{
  ℤ, ℕ, zero, suc, pos, ◌<◌, ◌≡◌, refl, ap, ◌∙◌, inl, inr, true, false, not, some, List, ◌∷◌, ◌==◌,
  eq_ℤ, arith, Bool-cases,
}
use nwep_rs.Poll.{IoResult, io_ok, io_err, reads, drain_with}
use nwep_rs.Poll.Windows.{
  WinsockApi, Sockets, invalid_socket, remove_socket, give_up, ensure_winsock, connected, bound,
  new,
}

-- A descriptor that does not block: what is pending for it shrinks with each read that reads
-- something, and a read that reads nothing finds nothing pending.
pub record NonBlocking {W : Type 0} (read : W → ℤ × W) : Type 0 where
  pub pending : W → ℕ
  pub shrinks : (w : W) → reads (read w).0 ≡ true → pending (read w).1 < pending w
  pub empties : (w : W) → reads (read w).0 ≡ false → pending (read w).1 ≡ 0

-- The draining loop of a waker on a descriptor that does not block ends, after one read more than
-- there are pending at most, and leaves nothing pending, so the next wait blocks again.
pub drain_with_ends :
    {W : Type 0} (read : W → ℤ × W) (b : NonBlocking read) (fuel : ℕ) (w : W)
    → b.pending w < fuel
    → (w' : W) × (drain_with read fuel w ≡ some w') × (b.pending w' ≡ 0)
unfolding drain_with
drain_with_ends read b zero w h = absurd (omega arith)
drain_with_ends read b (suc fuel) w h = elim (Bool-cases (reads (read w).0)) [
  | inl e ↦
      let (w', q, z) = drain_with_ends read b fuel (read w).1 (omega (arith, b.shrinks w e, h)) in
      (w', rw (drain_with, e) q, z)
  | inr e ↦ ((read w).1, rw (drain_with, e) refl, b.empties w e)
]

-- What an attempt left: with a waker, its socket is open beside the others; without one, no more
-- sockets are open than before.
pub data Made {W : Type 0} (before : List ℕ) : IoResult ℕ × Sockets W → Type 0 where
  made : {s : ℕ} {w : Sockets W} → w.open_sockets ≡ s ∷ before → Made before (io_ok s, w)
  failed : {e : ℕ} {w : Sockets W} → w.open_sockets ≡ before → Made before (io_err e, w)

remove_socket_self : (s : ℕ) (xs : List ℕ) → remove_socket s (s ∷ xs) ≡ xs
remove_socket_self s xs = ground arith

module _ {W : Type 0} (api : WinsockApi W) where
  give_up-Made :
      (xs : List ℕ) (s : ℕ) (w : Sockets W)
      → w.open_sockets ≡ s ∷ xs
      → Made xs (give_up api.last_os_error s w)
  give_up-Made xs s w e = failed (ap (remove_socket s) e ∙ remove_socket_self s xs)

  connected-Made :
      (xs : List ℕ) (s : ℕ) (w : Sockets W) → w.open_sockets ≡ s ∷ xs → Made xs (connected api s w)
  unfolding connected
  connected-Made xs s w e =
      let (named, os₁) = api.getsockname s w.os in
      elim (Bool-cases (not (eq_ℤ named.0 (pos 0)))) [
        | inl f ↦ rw (connected, f) (give_up-Made xs s (record w { os = os₁ }) e)
        | inr f ↦
            let (rc, os₂) = api.connect s named.1 os₁ in
            elim (Bool-cases (not (eq_ℤ rc (pos 0)))) [
              | inl g ↦ rw (connected, f, g) (give_up-Made xs s (record w { os = os₂ }) e)
              | inr g ↦ rw (connected, f, g) (made e)
            ]
      ]

  bound-Made :
      (xs : List ℕ) (s : ℕ) (w : Sockets W) → w.open_sockets ≡ s ∷ xs → Made xs (bound api s w)
  unfolding bound
  bound-Made xs s w e =
      let (rc, os₁) = api.bind s 0 w.os in
      elim (Bool-cases (not (eq_ℤ rc (pos 0)))) [
        | inl f ↦ rw (bound, f) (give_up-Made xs s (record w { os = os₁ }) e)
        | inr f ↦ rw (bound, f) (connected-Made xs s (record w { os = os₁ }) e)
      ]

  ensure_winsock-open : (w : Sockets W) → (ensure_winsock api w).open_sockets ≡ w.open_sockets
  unfolding ensure_winsock
  ensure_winsock-open w = ground arith

  -- Whichever call of winsock fails, `Waker::new` closes the socket that it opened, once; where it
  -- succeeds, its socket is the one that is open beside the others.
  pub new-Made : (w : Sockets W) → Made w.open_sockets (new api w)
  unfolding new
  new-Made w =
      let w₀ = ensure_winsock api w in
      let (s, os₁) = api.socket w₀.os in
      elim (Bool-cases (s == invalid_socket)) [
        | inl e ↦ rw (new, e) (failed (ensure_winsock-open w))
        | inr e ↦
            rw (new, e)
              (bound-Made w.open_sockets s
                (record w₀ { os = os₁; open_sockets = s ∷ w₀.open_sockets })
                (ap (◌∷◌ s) (ensure_winsock-open w)))
      ]
