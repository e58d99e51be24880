-- ===== src/Message/WireOrder.antt =====
-- What the iterator of nwep/src/message.rs yields.
use nwep_rs.Base.{
  ℕ, zero, suc, pos, ◌+◌, ◌-◌, ◌≤◌, ◌<◌, ◌≡◌, ◌≢◌, refl, sym, ap, ◌∙◌, inl, inr, true, false,
  Option, none, some, List, [], ◌∷◌, Bytes, length, arith, eq_ℤ, eq_ℤ→eq, Bool-cases, Option-cases,
}
use mathlib.Core.Path.{subst}
use nwep_rs.Message.{
  MessageApi, HeaderAt, Headers, new, item, str_or_empty, advance, size_hint, collect,
}

-- A text that libnwep gives, empty where it does not decode.
pub data TextOf (api : MessageApi) (s : Bytes) : Bytes → Type 0 where
  decodes : api.utf8 s ≡ true → TextOf api s s
  undecoded : api.utf8 s ≡ false → TextOf api s []

-- The name and the value of a header, in this order; both are empty where libnwep refuses the index or has no
-- text for one of them.
pub data Reads (api : MessageApi) (h : HeaderAt) : Bytes → Bytes → Type 0 where
  refused : h.rc ≢ pos 0 → Reads api h [] []
  unnamed : h.name ≡ none → Reads api h [] []
  unvalued : h.value ≡ none → Reads api h [] []
  texts :
      {n v name value : Bytes}
      → h.rc ≡ pos 0
      → h.name ≡ some n
      → h.value ≡ some v
      → TextOf api n name
      → TextOf api v value
      → Reads api h name value

-- The headers from an index on, one for each index, in the order of the indices.
pub data ReadsFrom (api : MessageApi) : ℕ → ℕ → List (Bytes × Bytes) → Type 0 where
  at_end : {i : ℕ} → ReadsFrom api i 0 []
  next :
      {i n : ℕ} {name value : Bytes} {xs : List (Bytes × Bytes)}
      → Reads api (api.header_at i) name value
      → ReadsFrom api (i + 1) n xs
      → ReadsFrom api i (suc n) ((name, value) ∷ xs)

str_or_empty-TextOf : (api : MessageApi) (s : Bytes) → TextOf api s (str_or_empty api s)
unfolding str_or_empty
str_or_empty-TextOf api s = elim (Bool-cases (api.utf8 s)) [
  | inl e ↦ rw (str_or_empty, e) (decodes e)
  | inr e ↦ rw (str_or_empty, e) (undecoded e)
]

item-Reads : (api : MessageApi) (h : HeaderAt) → Reads api h (item api h).0 (item api h).1
unfolding item
item-Reads api h = elim (Bool-cases (eq_ℤ h.rc (pos 0))) [
  | inr e ↦
      seen ([], []) (ground (arith, e))
        (refused (λ z. absurd (ground (arith, e, ap (λ c. eq_ℤ c (pos 0)) z))))
  | inl e ↦ elim (Option-cases h.name) [
    | inl f ↦ seen ([], []) (ground (arith, e, f)) (unnamed f)
    | inr (n, f) ↦ elim (Option-cases h.value) [
      | inl g ↦ seen ([], []) (ground (arith, e, f, g)) (unvalued g)
      | inr (v, g) ↦
          seen (str_or_empty api n, str_or_empty api v) (ground (arith, e, f, g))
            (texts (eq_ℤ→eq h.rc (pos 0) e) f g (str_or_empty-TextOf api n)
              (str_or_empty-TextOf api v))
    ]
  ]
]
  where
    seen :
        (p : Bytes × Bytes)
        → item api h ≡ p
        → Reads api h p.0 p.1
        → Reads api h (item api h).0 (item api h).1
    seen p q r = subst (λ x. Reads api h x.0 x.1) (sym q) r

-- What a loop over the iterator gives, where it ends.
pub data Yields (api : MessageApi) (i n : ℕ) : Option (List (Bytes × Bytes)) → Type 0 where
  yields :
      {xs : List (Bytes × Bytes)} → ReadsFrom api i n xs → length xs ≡ n → Yields api i n (some xs)

collect_more :
    (fuel : ℕ) (api : MessageApi) (h : Headers)
    → h.next < h.count
    → collect (suc fuel) api h ≡ elim (collect fuel api (record h { next = h.next + 1 })) [
      | none ↦ none
      | some xs ↦ some (item api (api.header_at h.next) ∷ xs)
    ]
unfolding collect advance
collect_more fuel api h l = ground arith

collect-Yields :
    (n fuel : ℕ) (api : MessageApi) (h : Headers)
    → h.next + n ≡ h.count
    → n < fuel
    → Yields api h.next n (collect fuel api h)
unfolding collect advance
collect-Yields n zero api h e l = absurd (omega arith)
collect-Yields zero (suc fuel) api h e l =
    let stop : collect (suc fuel) api h ≡ some [] = ground arith in
    subst (Yields api h.next 0) (sym stop) (yields at_end refl)
collect-Yields (suc n) (suc fuel) api h e l =
    subst (Yields api h.next (suc n)) (sym (collect_more fuel api h (omega (arith, e)))) (
      go (collect fuel api (record h { next = h.next + 1 })) (
        collect-Yields n fuel api (record h { next = h.next + 1 }) (omega (arith, e))
          (omega (arith, l))))
  where
    go :
        (r : Option (List (Bytes × Bytes)))
        → Yields api (h.next + 1) n r
        → Yields api h.next
            (suc n)
            (elim r [ none ↦ none | some xs ↦ some (item api (api.header_at h.next) ∷ xs) ])
    go _ (yields rs len) =
        yields (next (item-Reads api (api.header_at h.next)) rs) (omega (arith, len))

-- The iterator after `k` calls of `next`.
abbrev pub advanced : ℕ → MessageApi → Headers → Headers
advanced zero api h = h
advanced (suc k) api h = advanced k api (advance api h).1

advanced_lem :
    (k : ℕ) (api : MessageApi) (h : Headers)
    → h.next + k ≤ h.count
    → ((advanced k api h).next ≡ h.next + k) × ((advanced k api h).count ≡ h.count)
unfolding advance
advanced_lem zero api h l = (omega arith, refl)
advanced_lem (suc k) api h l =
    let e : (advance api h).1 ≡ record h { next = h.next + 1 } = ground arith in
    let (a, b) = advanced_lem k api (record h { next = h.next + 1 }) (omega (arith, l)) in
    (
      ap (λ (g : Headers). (advanced k api g).next) e ∙ a ∙ omega arith,
      ap (λ (g : Headers). (advanced k api g).count) e ∙ b,
    )

-- After `k` calls of `next`, on a message that has as many headers, a loop over the iterator ends, and yields one
-- pair for each other index, in the order of the indices: the name and then the value of the header, each
-- empty where it does not decode, and both empty where libnwep has none; `size_hint` is their number.
pub collect_lem :
    (api : MessageApi) (k : ℕ)
    → k ≤ api.header_count
    → (xs : List (Bytes × Bytes)) × (collect (suc api.header_count) api (advanced k api (new api))
        ≡ some xs)
      × ReadsFrom api k (api.header_count - k) xs
      × (size_hint (advanced k api (new api)) ≡ length xs)
unfolding size_hint new
collect_lem api k h =
    let (at, count) = advanced_lem k api (new api) (omega (arith, h)) in
    let start : (advanced k api (new api)).next ≡ k = at ∙ omega arith in
    go (collect (suc api.header_count) api (advanced k api (new api)))
      (collect-Yields (api.header_count - k) (suc api.header_count) api (advanced k api (new api))
        (omega (arith, start, count, h)) (omega arith))
      start count refl
  where
    go :
        (r : Option (List (Bytes × Bytes)))
        → Yields api (advanced k api (new api)).next (api.header_count - k) r
        → (advanced k api (new api)).next ≡ k
        → (advanced k api (new api)).count ≡ api.header_count
        → collect (suc api.header_count) api (advanced k api (new api)) ≡ r
        → (xs : List (Bytes × Bytes)) × (collect
              (suc api.header_count)
              api
              (advanced k api (new api))
            ≡ some xs)
          × ReadsFrom api k (api.header_count - k) xs
          × (size_hint (advanced k api (new api)) ≡ length xs)
    go _ (yields {xs = xs} rs len) start count q = (
      xs,
      q,
      subst (λ i. ReadsFrom api i (api.header_count - k) xs) start rs,
      omega (arith, start, count, len),
    )
