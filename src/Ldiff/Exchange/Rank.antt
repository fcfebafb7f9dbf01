-- ===== src/Ldiff/Exchange/Rank.antt =====
-- The ranges that are put off are smaller than the one that they come from (app/ldiff/diff.go).
use any_sync.Common.{
  ℕ, suc, ◌≡◌, false, List, [], ◌∷◌, ◌++◌, map, length, arith, ◌≤◌, ◌<◌, ◌-◌, All, if◌then◌else◌,
}
use any_sync.Ldiff.{word, RangeTuple, gen_tuple_ranges}
use any_sync.Ldiff.Tiling.{IsTiling, IsTiling-ends, gen_tuple_ranges-IsTiling}
use any_sync.Ldiff.Diff.{Range, undivided}

-- A range that asks for elements is settled in one round; another is as big as it is wide.
abbrev pub rank : Range → ℕ
rank r = if r.elements then 0 else suc (r.to - r.from)

-- A uint64 range of rank below `n`.
pub record IsBelow (n : ℕ) (r : Range) : Type 0 where
  pub ordered : r.from ≤ r.to
  pub fits : r.to < word
  pub small : rank r < n

pub All-append {ℓ κ} :
    {A : Type ℓ} (P : A → Type κ) (xs ys : List A) → All P xs → All P ys → All P (xs ++ ys)
All-append P [] ys a b = b
All-append P (x ∷ xs) ys (p, a) b = (p, All-append P xs ys a b)

parts-IsBelow :
    (n from a to : ℕ) (ts : List RangeTuple)
    → from < a
    → to < word
    → suc (to - from) ≤ n
    → IsTiling a to ts
    → All (IsBelow n) (map undivided ts)
parts-IsBelow n from a to [] after w wide tiling = tt
parts-IsBelow n from a to (t ∷ ts) after w wide (starts, le, rest) =
    let ends : suc t.to ≤ suc to = IsTiling-ends (suc t.to) to ts rest in
    (
      record { ordered = le; fits = omega arith; small = omega arith },
      parts-IsBelow n from (suc t.to) to ts (omega arith) w wide rest,
    )

nonempty_ends : (a to : ℕ) (t : RangeTuple) (ts : List RangeTuple) → IsTiling a to (t ∷ ts) → a ≤ to
nonempty_ends a to t ts (starts, le, rest) = omega (arith, IsTiling-ends (suc t.to) to ts rest)

tiles-IsBelow :
    (n from to : ℕ) (ts : List RangeTuple)
    → to < word
    → suc (to - from) ≤ n
    → 2 ≤ length ts
    → IsTiling from to ts
    → All (IsBelow n) (map undivided ts)
tiles-IsBelow n from to [] w wide two tiling = tt
tiles-IsBelow n from to (t ∷ []) w wide two tiling = absurd (omega arith)
tiles-IsBelow n from to (t ∷ u ∷ ts) w wide two (starts, le, rest) =
    let more : suc t.to ≤ to = nonempty_ends (suc t.to) to u ts rest in
    (
      record { ordered = le; fits = omega arith; small = omega arith },
      parts-IsBelow n from (suc t.to) to (u ∷ ts) (omega arith) w wide rest,
    )

pub divided-IsBelow :
    (n df : ℕ) (r : Range)
    → IsBelow (suc n) r
    → r.elements ≡ false
    → 2 ≤ df
    → df < word
    → df ≤ suc (r.to - r.from)
    → All (IsBelow n) (map undivided (gen_tuple_ranges r.from r.to df))
divided-IsBelow n df r b plain two int wide =
    let (parts, tiling) = gen_tuple_ranges-IsTiling r.from r.to df b.ordered b.fits two wide int in
    let bound : suc (r.to - r.from) ≤ n = ground (arith, b.small) in
    tiles-IsBelow n r.from r.to _ b.fits bound (omega arith) tiling
