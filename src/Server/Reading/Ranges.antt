-- ===== src/Server/Reading/Ranges.antt =====
-- The ranges of a request in nwep/src/server.rs.
use nwep_rs.Base.{
  ℕ, zero, suc, [], ◌∷◌, pos, ◌≤◌, ◌≡◌, refl, inl, inr, Option, some, List, Bytes, length, take,
  eq_ℤ, arith, Bool-cases,
}
use nwep_rs.Error.{Result, ok, err, from_code, Result-cases}
use nwep_rs.Server.Responder.{ByteRange}
use nwep_rs.Server.Reading.{
  RangeOutcome, full, unsatisfiable, ranges, RangeAnswer, ServerReaderApi, max_ranges, no_ranges,
  outcome, tag, range,
}

-- The contract of `nwep_request_range`: the array keeps its size, and no more ranges are counted.
pub record FillsRanges {W : Type 0} (api : ServerReaderApi W) : Type 0 where
  pub keeps :
      (total : ℕ) (etag : Option Bytes)
      → length (api.request_range total etag no_ranges max_ranges).out ≡ max_ranges
  pub counts :
      (total : ℕ) (etag : Option Bytes)
      → (api.request_range total etag no_ranges max_ranges).count ≤ max_ranges

-- The ranges of an outcome are some of a request's, 16 at most.
abbrev pub AtMost16 : Result RangeOutcome → Type 0
AtMost16 (ok (ranges rs)) = length rs ≤ 16
AtMost16 (ok full) = Unit {0}
AtMost16 (ok unsatisfiable) = Unit {0}
AtMost16 (err e) = Unit {0}

length-take : (n : ℕ) (xs : List ByteRange) → length (take n xs) ≤ n
length-take zero xs = omega arith
length-take (suc n) [] = omega arith
length-take (suc n) (x ∷ xs) = omega (arith, length-take n xs)

outcome_total :
    (a : RangeAnswer)
    → length a.out ≡ max_ranges
    → a.count ≤ max_ranges
    → (r : Result RangeOutcome) × (outcome a ≡ some r) × AtMost16 r
unfolding outcome
outcome_total a k c = elim (Bool-cases (eq_ℤ a.rc (pos 0))) [
  | inl e ↦ (
    ok (ranges (take a.count a.out)),
    ground (arith, e),
    omega (arith, length-take a.count a.out),
  )
  | inr e ↦ elim (Bool-cases (eq_ℤ a.rc (pos 2))) [
    | inl u ↦ (ok unsatisfiable, ground (arith, e, u), tt)
    | inr u ↦ elim (Bool-cases (eq_ℤ a.rc (pos 1))) [
      | inl v ↦ (ok full, ground (arith, e, u, v), tt)
      | inr v ↦ (err (from_code a.rc), ground (arith, e, u, v), tt)
    ]
  ]
]

module _ {W : Type 0} (api : ServerReaderApi W) where
  -- Where the library counts no more ranges than the array has room for, `range` does not panic, and
  -- the ranges that it gives are 16 at most, whatever the request's header and the tag.
  pub range_total :
      (total_len : ℕ) (etag : Option Bytes)
      → FillsRanges api
      → (r : Result RangeOutcome) × (range api total_len etag ≡ some r) × AtMost16 r
  unfolding range
  range_total total_len etag f = elim (Result-cases (tag etag)) [
    | inl (c, e) ↦
        rw (range, e)
          (outcome_total (api.request_range total_len c no_ranges max_ranges) (f.keeps total_len c)
            (f.counts total_len c))
    | inr (x, e) ↦ rw (range, e) (err x, refl, tt)
  ]
