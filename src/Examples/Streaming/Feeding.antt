-- ===== src/Examples/Streaming/Feeding.antt =====
-- What the streams of nwep/examples/nwcurl.rs and managed_stream.rs have of the body.
use nwep_rs.Base.{
  ℕ, zero, suc, ◌+◌, ◌≤◌, ◌<◌, ◌≡◌, refl, sym, ap, ◌∙◌, inl, inr, Option, none, some, List, [], ◌∷◌,
  ◌++◌, Bytes, length, take, drop, take_append_take, take_of_le, length-drop, ltb, ◌==◌, arith,
  Bool-cases,
}
use nwep_rs.Error.{ok}
use nwep_rs.Server.Deferred.{RespondApi, stream_send, stream_end}
use nwep_rs.Examples.Streaming.{Active, feed, retain}

-- Two streams that are not the same one.
abbrev pub Apart : ℕ → ℕ → ℕ → ℕ → Type 0
Apart c s c' s' = c ≡ c' → s ≡ s' → ⊥

-- The contract of libnwep's streams, on a connection that stays: `got` is what was accepted for a stream. A send
-- takes a part of what it is given, from its front on, and no other stream sees anything of it.
pub record Takes {W : Type 0} (streams : ℕ → ℕ → RespondApi W) : Type 0 where
  pub got : ℕ → ℕ → W → Bytes
  pub sends :
      (c s : ℕ) (b : Bytes) (w : W)
      → let (taken, w') = stream_send (streams c s) b w in
        (n : ℕ) × (taken ≡ ok n)
        × (n ≤ length b)
        × (got c s w' ≡ got c s w ++ take n b)
        × ((c' s' : ℕ) → Apart c s c' s' → got c' s' w' ≡ got c' s' w)
  pub ends :
      (c s : ℕ) (w : W)
      → let (ended, w') = stream_end (streams c s) w in
        (ended ≡ ok tt) × ((c' s' : ℕ) → got c' s' w' ≡ got c' s' w)

module _ {W : Type 0} (streams : ℕ → ℕ → RespondApi W) (body : Bytes) (t : Takes streams) where
  -- A stream that has the first `sent` bytes of the body.
  pub record HasPrefix (a : Active) (w : W) : Type 0 where
    pub bounded : a.sent ≤ length body
    pub holds : t.got a.conn a.stream w ≡ take a.sent body

  -- What feeding a stream does: it waits for room with more of the body than before, or it has all of it.
  pub data Fed (a : Active) (w : W) : Option (Option Active × W) → Type 0 where
    waits :
        {k : ℕ} {w' : W}
        → a.sent ≤ k
        → k < length body
        → HasPrefix (record a { sent = k }) w'
        → ((c s : ℕ) → Apart a.conn a.stream c s → t.got c s w' ≡ t.got c s w)
        → Fed a w (some (some (record a { sent = k }), w'))
    completed :
        {w' : W}
        → t.got a.conn a.stream w' ≡ body
        → ((c s : ℕ) → Apart a.conn a.stream c s → t.got c s w' ≡ t.got c s w)
        → Fed a w (some (none, w'))

  -- A send keeps the prefix.
  send-HasPrefix :
      (a : Active) (w w' : W) (n : ℕ)
      → HasPrefix a w
      → n ≤ length (drop a.sent body)
      → t.got a.conn a.stream w' ≡ t.got a.conn a.stream w ++ take n (drop a.sent body)
      → HasPrefix (record a { sent = a.sent + n }) w'
  send-HasPrefix a w w' n h le e = record {
    bounded = omega (arith, h.bounded, length-drop a.sent body);
    holds = e ∙ ap (◌++ take n (drop a.sent body)) h.holds ∙ take_append_take a.sent n body;
  }

  Fed-later :
      (a : Active) (n : ℕ) (w w₁ : W) (r : Option (Option Active × W))
      → ((c s : ℕ) → Apart a.conn a.stream c s → t.got c s w₁ ≡ t.got c s w)
      → Fed (record a { sent = a.sent + n }) w₁ r
      → Fed a w r
  Fed-later a n w w₁ _ frame (waits le lt h f) =
      waits (omega (arith, le)) lt h (λ c s x. f c s x ∙ frame c s x)
  Fed-later a n w w₁ _ frame (completed e f) = completed e (λ c s x. f c s x ∙ frame c s x)

  feed-Fed :
      (fuel : ℕ) (a : Active) (w : W)
      → HasPrefix a w
      → length body < a.sent + fuel
      → Fed a w (feed streams body fuel a w)
  unfolding feed
  feed-Fed zero a w h lt = absurd (omega (arith, h.bounded))
  feed-Fed (suc fuel) a w h lt = elim (Bool-cases (ltb a.sent (length body))) [
    | inr e ↦
        let (ended, frame) = t.ends a.conn a.stream w in
        rw (feed, e, ended)
          (completed (frame a.conn a.stream ∙ h.holds ∙ take_of_le a.sent body (ground arith))
            (λ c s x. frame c s))
    | inl e ↦
        let w' = (stream_send (streams a.conn a.stream) (drop a.sent body) w).1 in
        let (n, taken, le, more, frame) = t.sends a.conn a.stream (drop a.sent body) w in
        let h' = send-HasPrefix a w w' n h le more in
        elim (Bool-cases (n == 0)) [
          | inl z ↦ rw (feed, e, taken, z) (waits (omega arith) (ground arith) h' frame)
          | inr z ↦
              rw (feed, e, taken, z)
                (Fed-later a n w w' _ frame
                  (feed-Fed fuel (record a { sent = a.sent + n }) w' h' (ground (arith, lt))))
        ]
  ]

  -- A stream that is none of some.
  abbrev pub OutOf : ℕ → ℕ → List Active → Type 0
  OutOf c s [] = Unit {0}
  OutOf c s (a ∷ active) = Apart a.conn a.stream c s × OutOf c s active

  abbrev pub Distinct : List Active → Type 0
  Distinct [] = Unit {0}
  Distinct (a ∷ active) = OutOf a.conn a.stream active × Distinct active

  abbrev pub AllPrefix : List Active → W → Type 0
  AllPrefix [] w = Unit {0}
  AllPrefix (a ∷ active) w = HasPrefix a w × AllPrefix active w

  -- What becomes of the streams of a turn, in their order: those that wait, and have more than before or as much,
  -- and those that have the body, which are no longer fed.
  pub data Served : List Active → List Active → W → Type 0 where
    all_served : {w : W} → Served [] [] w
    still_waits :
        {a : Active} {active rest : List Active} {w : W} {k : ℕ}
        → a.sent ≤ k
        → k < length body
        → HasPrefix (record a { sent = k }) w
        → Served active rest w
        → Served (a ∷ active) (record a { sent = k } ∷ rest) w
    has_all :
        {a : Active} {active rest : List Active} {w : W}
        → t.got a.conn a.stream w ≡ body
        → Served active rest w
        → Served (a ∷ active) rest w

  pub data Retained (active : List Active) (w : W) : Option (List Active × W) → Type 0 where
    retained :
        {rest : List Active} {w' : W}
        → Served active rest w'
        → ((c s : ℕ) → OutOf c s active → t.got c s w' ≡ t.got c s w)
        → Retained active w (some (rest, w'))

  AllPrefix-frame :
      (c s : ℕ) (active : List Active) (w w' : W)
      → OutOf c s active
      → ((c' s' : ℕ) → Apart c s c' s' → t.got c' s' w' ≡ t.got c' s' w)
      → AllPrefix active w
      → AllPrefix active w'
  AllPrefix-frame c s [] w w' out frame h = tt
  AllPrefix-frame c s (a ∷ active) w w' out frame h = (
    record {
      bounded = h.0.bounded;
      holds = frame a.conn a.stream (λ e f. out.0 (sym e) (sym f)) ∙ h.0.holds;
    },
    AllPrefix-frame c s active w w' out.1 frame h.1,
  )

  pub retain-Retained :
      (fuel : ℕ) (active : List Active) (w : W)
      → length body < fuel
      → Distinct active
      → AllPrefix active w
      → Retained active w (retain streams body fuel active w)
  unfolding retain
  retain-Retained fuel [] w lt d h = retained all_served (λ c s x. refl)
  retain-Retained fuel (a ∷ active) w lt d h =
      fed_first (feed streams body fuel a w) (feed-Fed fuel a w h.0 (omega (arith, lt)))
        (λ w₁ frame.
          retain-Retained fuel active w₁ lt d.1
            (AllPrefix-frame a.conn a.stream active w w₁ d.0 frame h.1))
    where
      joined :
          (w₁ : W) (kept : Option Active) (r : Option (List Active × W))
          → ((rest : List Active) (w₂ : W)
              → Served active rest w₂
              → ((c s : ℕ) → OutOf c s active → t.got c s w₂ ≡ t.got c s w₁)
              → Served (a ∷ active) (elim kept [ none ↦ rest | some a' ↦ a' ∷ rest ]) w₂)
          → ((c s : ℕ) → Apart a.conn a.stream c s → t.got c s w₁ ≡ t.got c s w)
          → Retained active w₁ r
          → Retained (a ∷ active) w (elim r [
            | none ↦ none
            | some (rest, w₂) ↦ some (elim kept [ none ↦ rest | some a' ↦ a' ∷ rest ], w₂)
          ])
      joined w₁ kept _ put frame (retained {rest = rest} {w' = w₂} served out) =
          retained (put rest w₂ served out) (λ c s x. out c s x.1 ∙ frame c s x.0)

      fed_first :
          (r : Option (Option Active × W))
          → Fed a w r
          → ((w₁ : W)
              → ((c s : ℕ) → Apart a.conn a.stream c s → t.got c s w₁ ≡ t.got c s w)
              → Retained active w₁ (retain streams body fuel active w₁))
          → Retained (a ∷ active) w (elim r [
            | none ↦ none
            | some (kept, w₁) ↦ elim (retain streams body fuel active w₁) [
              | none ↦ none
              | some (rest, w₂) ↦ some (elim kept [ none ↦ rest | some a' ↦ a' ∷ rest ], w₂)
            ]
          ])
      fed_first _ (waits {k = k} {w' = w₁} le small prefix frame) rest =
          joined w₁ (some (record a { sent = k })) (retain streams body fuel active w₁)
            (λ others w₂ served out.
              still_waits le small
                (record {
                  bounded = prefix.bounded;
                  holds = out a.conn a.stream d.0 ∙ prefix.holds;
                })
                served)
            frame (rest w₁ frame)
      fed_first _ (completed {w' = w₁} whole frame) rest =
          joined w₁ none (retain streams body fuel active w₁)
            (λ others w₂ served out. has_all (out a.conn a.stream d.0 ∙ whole) served) frame
            (rest w₁ frame)
