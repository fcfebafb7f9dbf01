-- ===== src/Ldiff/Examples.antt =====
-- The theorems on app/ldiff at small containers.
mod Exchange
use any_sync.Common.{
  ℕ, ◌≡◌, ◌≢◌, ◌⊎◌, refl, true, false, ◌&&◌, List, [], ◌∷◌, none, some, arith, leb, ltb, length,
  get_elem?, map, ◌≤◌,
}
use any_sync.Common.Assoc.{get, put}
use any_sync.Ldiff.{max_uint64, align_of, gen_tuple_ranges, bucket, bottom_tuple}
use any_sync.Ldiff.Tiling.{IsTiling, gen_tuple_ranges-IsTiling}
use any_sync.Ldiff.Bottom.{bottom_tuple_of_even, bottom_tuple_of_last}
use any_sync.Ldiff.Diff.{
  Element, Range, RangeResult, DiffCtx, HashRange, compare_elements_equal, compare_elements_greater,
  find_head, get_range, undivided, prepared, compare_results,
}
use any_sync.Ldiff.Diff.Reports.{IsDistinct, IsReported, never}
use any_sync.Ldiff.Diff.Compare.{
  compare_elements_equal-IsReported, compare_elements_greater-IsReported,
}
use any_sync.Ldiff.Diff.Rounds.{within, covers, compare_results_settles}

gen_tuple_ranges-IsTiling_example :
    (length (gen_tuple_ranges 0 max_uint64 32) ≡ 32)
    × IsTiling 0 max_uint64 (gen_tuple_ranges 0 max_uint64 32)
gen_tuple_ranges-IsTiling_example =
    gen_tuple_ranges-IsTiling 0 max_uint64 32 (omega arith) (omega arith) (omega arith)
      (omega arith) (omega arith)

-- The whole hash space in 32 parts: the hash 2^63 has bucket 16.
bottom_tuple_of_even_example :
    (get_elem? (gen_tuple_ranges 0 max_uint64 32) (bucket 0 max_uint64 32 9223372036854775808)
      ≡ some (bottom_tuple 0 max_uint64 32 9223372036854775808))
    × ((bottom_tuple 0 max_uint64 32 9223372036854775808).from ≤ 9223372036854775808)
    × (9223372036854775808 ≤ (bottom_tuple 0 max_uint64 32 9223372036854775808).to)
unfolding align_of
bottom_tuple_of_even_example =
    bottom_tuple_of_even 0 max_uint64 32 9223372036854775808 (omega arith) (omega arith)
      (omega arith) (omega arith) (omega arith) (omega arith) refl

-- 0 to 9 in 4 parts, the last of them 6 to 9: the hash 9 is looked for in bucket 4.
bottom_tuple_of_last_example : record { from = 6; to = 9 } ≢ bottom_tuple 0 9 4 9
unfolding align_of gen_tuple_ranges
bottom_tuple_of_last_example =
    bottom_tuple_of_last 0 9 4 3 (record { from = 6; to = 9 }) (omega arith) (omega arith)
      (omega arith) (omega arith) (omega arith) (omega arith) refl

abbrev mine : List Element
mine = (record { id = 1; head = 10 }) ∷ (record { id = 2; head = 20 }) ∷ []

abbrev theirs : List Element
theirs = (record { id = 2; head = 21 }) ∷ (record { id = 3; head = 30 }) ∷ []

abbrev fresh : DiffCtx
fresh = record {
  new_ids = [];
  changed_ids = [];
  their_changed_ids = [];
  removed_ids = [];
  prepare = [];
}

mine-IsDistinct : IsDistinct mine
unfolding find_head
mine-IsDistinct = (refl, (refl, tt))

theirs-IsDistinct : IsDistinct theirs
unfolding find_head
theirs-IsDistinct = (refl, (refl, tt))

equal_run : compare_elements_equal fresh mine theirs ≡ record {
  new_ids = 3 ∷ [];
  changed_ids = 2 ∷ [];
  their_changed_ids = [];
  removed_ids = 1 ∷ [];
  prepare = [];
}
unfolding compare_elements_equal get put
equal_run = refl

compare_elements_equal-IsReported_example :
    IsReported never fresh
      (compare_elements_equal fresh mine theirs)
      2
      (find_head mine 2)
      (find_head theirs 2)
compare_elements_equal-IsReported_example =
    compare_elements_equal-IsReported fresh mine theirs mine-IsDistinct theirs-IsDistinct 2

compare_elements_greater-IsReported_example :
    IsReported
      (λ b a. ltb a b)
      fresh
      (compare_elements_greater (λ b a. ltb a b) fresh mine theirs)
      2
      (find_head mine 2)
      (find_head theirs 2)
compare_elements_greater-IsReported_example =
    compare_elements_greater-IsReported (λ b a. ltb a b) fresh mine theirs mine-IsDistinct 2

abbrev everything : Range
everything = record { from = 0; to = max_uint64; elements = false }

abbrev answer : ℕ → List Element → RangeResult
answer h els = record { hash = h; elements = els; count = length els }

abbrev result : DiffCtx
result =
    compare_results 32 256 (λ r. answer 1 mine) compare_elements_equal fresh everything
      (answer 1 mine) (answer 2 theirs)

mine-within : (k : ℕ) → find_head mine k ≡ within (λ id. id) everything (find_head mine) k
unfolding find_head
mine-within k = ground arith

theirs-within : (k : ℕ) → find_head theirs k ≡ within (λ id. id) everything (find_head theirs) k
unfolding find_head
theirs-within k = ground arith

compare_results_settles_example :
    ((result.prepare ≡ [])
      × ((k : ℕ)
          → IsReported never fresh result k
              (within (λ id. id) everything (find_head mine) k)
              (within (λ id. id) everything (find_head theirs) k)))
    ⊎ ((rs : List Range) × (result ≡ prepared fresh rs)
        × ((h : ℕ) → covers h rs ≡ (leb 0 h && leb h max_uint64)))
compare_results_settles_example =
    compare_results_settles (λ id. id) (find_head mine) (find_head theirs) 32 256
      (λ r. answer 1 mine) everything (answer 1 mine) (answer 2 theirs) fresh refl
      (λ full. (mine-IsDistinct, mine-within)) (λ full. (theirs-IsDistinct, theirs-within))
      (λ full. (mine-IsDistinct, mine-within)) refl (omega arith) (omega arith) (omega arith)
      (omega arith) (omega arith)
