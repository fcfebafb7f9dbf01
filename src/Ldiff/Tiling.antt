-- ===== src/Ldiff/Tiling.antt =====
-- What `genTupleRanges` (app/ldiff/hashrange.go) makes of a range.
use native.Mathlib.Nat.{div-add-mod, mod-lt, mod-eq_of_lt, div-lt_self, mod_self, eq-or-lt_of_le}
use any_sync.Common.{
  ℕ, suc, zero, ◌≡◌, ◌⊎◌, inl, inr, refl, List, [], ◌∷◌, arith, length, ◌+◌, ◌-◌, ◌*◌, ◌/◌, ◌%◌,
  ◌≤◌, ◌<◌,
}
use any_sync.Ldiff.{word, RangeTuple, align_of, per_range, tuples, gen_tuple_ranges}

-- The ranges follow one another without a gap, from `from` to `to`.
abbrev pub IsTiling : ℕ → ℕ → List RangeTuple → Type 0
IsTiling from to [] = from ≡ suc to
IsTiling from to (t ∷ ts) = (t.from ≡ from) × (t.from ≤ t.to) × IsTiling (suc t.to) to ts

pub IsTiling-ends : (from to : ℕ) (ts : List RangeTuple) → IsTiling from to ts → from ≤ suc to
IsTiling-ends from to [] tiling = omega arith
IsTiling-ends from to (t ∷ ts) (starts, le, rest) =
    omega (arith, IsTiling-ends (suc t.to) to ts rest)

pub length-tuples : (n per align j : ℕ) → length (tuples n per align j) ≡ n
unfolding tuples
length-tuples zero per align j = refl
length-tuples (suc zero) per align j = refl
length-tuples (suc (suc n)) per align j = omega (arith, length-tuples (suc n) per align _)

IsTiling-from :
    (n per align to a b c : ℕ)
    → a ≡ b
    → c ≡ b
    → IsTiling b to (tuples n per align b)
    → IsTiling a to (tuples n per align c)
IsTiling-from n per align to a b c e f t = rw (e, f) t

tuples-IsTiling :
    (n per align j to : ℕ)
    → 0 < per
    → to < word
    → suc n * per + align + j ≡ suc to
    → IsTiling j to (tuples (suc n) per align j)
unfolding tuples
tuples-IsTiling zero per align j to p w e = (refl, omega arith, omega arith)
tuples-IsTiling (suc n) per align j to p w e =
    let e' : suc n * per + align + (j + per) ≡ suc to = omega arith in
    let small : j + per < word = omega arith in
    (
      refl,
      omega arith,
      IsTiling-from (suc n) per align to _ (j + per) _ (omega arith) (omega arith)
          (tuples-IsTiling n per align (j + per) to p w e'),
    )

-- `df` is an even divisor, or the last part takes the rest.
pub division :
    (from to df : ℕ)
    → from ≤ to
    → to < word
    → 2 ≤ df
    → df ≤ suc (to - from)
    → df < word
    → ((align_of from to df ≡ 0)
        × (per_range from to df ≡ suc ((to - from) / df))
        × (suc ((to - from) % df) ≡ df))
      ⊎ ((align_of from to df ≡ suc ((to - from) % df))
          × (per_range from to df ≡ (to - from) / df)
          × (suc ((to - from) % df) < df))
unfolding per_range align_of
division from to df le w two wide int =
    let diff : (to + word - from) % word ≡ to - from = omega arith in
    let small : (to - from) % df < df = mod-lt (to - from) (omega arith) in
    let below : (to - from) / df < to - from = div-lt_self (omega arith) (omega arith) in
    let no_wrap : ((to - from) % df + 1) % word ≡ suc ((to - from) % df) = omega arith in
    elim (eq-or-lt_of_le small) [
      | inr lt ↦
          let rest : suc ((to - from) % df) % df ≡ suc ((to - from) % df) = mod-eq_of_lt lt in
          inr (rw (diff, no_wrap) rest, rw (diff, no_wrap, rest) (ground arith), lt)
      | inl eq ↦
          let rest : suc ((to - from) % df) % df ≡ 0 = rw eq (mod_self df) in
          inl (rw (diff, no_wrap) rest, rw (diff, no_wrap, rest) (omega arith), eq)
    ]

quotient_pos : (q df r n : ℕ) → df * q + r ≡ n → suc r < df → df ≤ suc n → 0 < q
quotient_pos zero df r n e small wide = omega arith
quotient_pos (suc q) df r n e small wide = omega arith

-- The parts that a range is divided into, `df` times `per_range` and the rest, add up to it.
pub parts_add_up :
    (from to df : ℕ)
    → from ≤ to
    → to < word
    → 2 ≤ df
    → df ≤ suc (to - from)
    → df < word
    → (0 < per_range from to df) × (df * per_range from to df + align_of from to df + from ≡ suc to)
parts_add_up from to df le w two wide int =
    let whole : df * ((to - from) / df) + (to - from) % df ≡ to - from =
      div-add-mod (to - from) df in
    elim (division from to df le w two wide int) [
      | inl (align, per, last) ↦ rw (align, per) (omega arith, omega arith)
      | inr (align, per, last) ↦
          rw (align, per) (quotient_pos _ df _ _ whole last wide, omega arith)
    ]

-- For a uint64 range and a `df` of 2 or more that fits a uint64: if the range has at least `df`
-- values, it is divided into `df` ranges, none of them empty, that follow one another without a
-- gap or an overlap from its first value to its last.
pub gen_tuple_ranges-IsTiling :
    (from to df : ℕ)
    → from ≤ to
    → to < word
    → 2 ≤ df
    → df ≤ suc (to - from)
    → df < word
    → (length (gen_tuple_ranges from to df) ≡ df) × IsTiling from to (gen_tuple_ranges from to df)
unfolding gen_tuple_ranges
gen_tuple_ranges-IsTiling from to zero le w two wide int = omega arith
gen_tuple_ranges-IsTiling from to (suc n) le w two wide int =
    let (positive, total) = parts_add_up from to (suc n) le w two wide int in
    (length-tuples (suc n) _ _ from, tuples-IsTiling n _ _ from to positive w total)
