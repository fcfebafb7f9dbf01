-- ===== src/Ldiff/Diff/Compare.antt =====
-- What `compareElementsEqual` and `compareElementsGreater` (app/ldiff/diff.go) report.
use any_sync.Common.{ℕ, Bool, List}
use any_sync.Ldiff.Diff.{
  Element, DiffCtx, to_map, mine_equal, theirs_equal, compare_elements_equal, find_head,
  compare_elements_greater,
}
use any_sync.Ldiff.Diff.Reports.{IsDistinct, IsReported, never}
use any_sync.Ldiff.Diff.Lookup.{get-to_map}
use any_sync.Ldiff.Diff.Mine.{IsSorted, mine_equal-IsSorted, mine_greater-IsSorted}
use any_sync.Ldiff.Diff.Theirs.{
  IsCompleted, theirs_equal-IsCompleted, theirs_greater-IsCompleted, IsReported-loops,
}

-- Comparing two lists without repeated ids adds, for every id, exactly this to what was reported: removed
-- if only we have it, new if only they have it, changed if both have it with different heads.
pub compare_elements_equal-IsReported :
    (ctx : DiffCtx) (my other : List Element)
    → IsDistinct my
    → IsDistinct other
    → (k : ℕ)
    → IsReported never ctx
        (compare_elements_equal ctx my other)
        k
        (find_head my k)
        (find_head other k)
unfolding compare_elements_equal
compare_elements_equal-IsReported ctx my other d e k =
    let first = mine_equal (to_map other) ctx my in
    let sorted : IsSorted never ctx first k (find_head my k) (find_head other k) =
      rw (← get-to_map k other e) (mine_equal-IsSorted (to_map other) my ctx k d) in
    let completed : IsCompleted first (theirs_equal (to_map my) first other) k (find_head my k)
        (find_head other k) =
      rw (← get-to_map k my d) (theirs_equal-IsCompleted (to_map my) other first k) in
    IsReported-loops never ctx first _ k (find_head my k) (find_head other k) sorted completed

-- Comparing a list of ours without repeated ids with one of theirs, by heads, adds for every id
-- exactly this to what was reported: removed if only we have it, new if only they have it, and if
-- both have it with different heads (the first, if they have it twice), changed by them if their
-- head is the greater and changed by us if not.
pub compare_elements_greater-IsReported :
    (greater : ℕ → ℕ → Bool) (ctx : DiffCtx) (my other : List Element)
    → IsDistinct my
    → (k : ℕ)
    → IsReported greater ctx
        (compare_elements_greater greater ctx my other)
        k
        (find_head my k)
        (find_head other k)
unfolding compare_elements_greater
compare_elements_greater-IsReported greater ctx my other d k =
    IsReported-loops greater ctx _ _ k (find_head my k) (find_head other k)
      (mine_greater-IsSorted greater other my ctx k d) (theirs_greater-IsCompleted my other _ k)
