-- ===== src/Ldiff/Exchange.antt =====
-- The loop of `Diff` and `CompareDiff` (app/ldiff/diff.go), which are one but for the comparison of
-- elements. The other container, our own answers to ranges, and the cancellation of the context
-- are arguments.
pub mod Outcome
pub mod Pending
pub mod Rank
pub mod Fair
pub mod Step
pub mod Correct
use any_sync.Common.{
  ℕ, zero, suc, Bool, true, false, List, [], ◌∷◌, map, ◌==◌, length, Result, ok, err, ◌>>=◌, ◌>>◌,
  guard, refuse,
}
use any_sync.Ldiff.{max_uint64}
use any_sync.Ldiff.Diff.{
  Element, Range, RangeResult, DiffCtx, compare_results, compare_elements_equal,
  compare_elements_greater,
}

-- `errMismatched`, the context's error, the remote's, and the model's own for too little fuel.
pub data Error : Type 0 where
  mismatched context_done out_of_fuel : Error
  remote_error : ℕ → Error

abbrev pub no_reports : DiffCtx
no_reports = record {
  new_ids = [];
  changed_ids = [];
  their_changed_ids = [];
  removed_ids = [];
  prepare = [];
}

abbrev pub everything : Range
everything = record { from = 0; to = max_uint64; elements = false }

module _ (divide_factor compare_threshold : ℕ) (my_range : Range → RangeResult)
    (compare : DiffCtx → List Element → List Element → DiffCtx)
    (other_ranges : List Range → Result Error (List RangeResult)) (cancelled : ℕ → Bool) where
  -- The inner loop, over the ranges with both answers.
  unfoldable pub compare_round :
      DiffCtx → List Range → List RangeResult → List RangeResult → DiffCtx
  compare_round ctx (r ∷ rs) (m ∷ ms) (o ∷ os) =
      compare_round (compare_results divide_factor compare_threshold my_range compare ctx r m o) rs
        ms os
  compare_round ctx _ _ _ = ctx

  -- The outer loop; `i` numbers the rounds.
  unfoldable pub rounds : ℕ → ℕ → DiffCtx → List Range → Result Error DiffCtx
  unfolding compare_round
  rounds zero i ctx to_send = err out_of_fuel
  rounds (suc fuel) i ctx [] = ok ctx
  rounds (suc fuel) i ctx (r ∷ rs) = do
    refuse (cancelled i) context_done
    others ← other_ranges (r ∷ rs)
    let mine = map my_range (r ∷ rs)
    guard (length others == length (r ∷ rs)) mismatched
    let ctx' = compare_round ctx (r ∷ rs) mine others
    rounds fuel (suc i) (record ctx' { prepare = [] }) ctx'.prepare

module _ (divide_factor compare_threshold : ℕ) (my_range : Range → RangeResult)
    (other_ranges : List Range → Result Error (List RangeResult)) (cancelled : ℕ → Bool) where
  unfoldable pub diff : ℕ → Result Error DiffCtx
  unfolding rounds
  diff fuel =
      rounds divide_factor compare_threshold my_range compare_elements_equal other_ranges cancelled
        fuel 0 no_reports (everything ∷ [])

  unfoldable pub compare_diff : (ℕ → ℕ → Bool) → ℕ → Result Error DiffCtx
  unfolding rounds
  compare_diff greater fuel =
      rounds divide_factor compare_threshold my_range (compare_elements_greater greater)
        other_ranges cancelled fuel 0 no_reports (everything ∷ [])
