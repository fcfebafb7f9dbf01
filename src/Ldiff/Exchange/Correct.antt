-- ===== src/Ldiff/Exchange/Correct.antt =====
-- `Diff` and `CompareDiff` (app/ldiff/diff.go) end, and report each id as they should.
use any_sync.Common.{
  ℕ, zero, suc, ◌≡◌, inl, inr, refl, sym, ap, subst, Bool, true, false, List, [], ◌∷◌, ◌++◌, Option,
  none, map, ◌==◌, arith, length, contains, ◌<◌, ◌∙◌, All, ==_refl, Result, ok,
}
use any_sync.Ldiff.{word}
use any_sync.Ldiff.Diff.{
  Element, Range, RangeResult, DiffCtx, compare_elements_equal, compare_elements_greater,
}
use any_sync.Ldiff.Diff.Reports.{IsReported, never}
use any_sync.Ldiff.Diff.Compare.{
  compare_elements_equal-IsReported, compare_elements_greater-IsReported,
}
use any_sync.Ldiff.Diff.Rounds.{compare_elements_equal-prepare, compare_elements_greater-prepare}
use any_sync.Ldiff.Exchange.{
  Error, no_reports, everything, compare_round, rounds, diff, compare_diff,
}
use any_sync.Ldiff.Exchange.Outcome.{IsComparison}
use any_sync.Ldiff.Exchange.Pending.{count, count-append_nil, Tracks, Tracks-count, Tracks-prepare}
use any_sync.Ldiff.Exchange.Rank.{IsBelow}
use any_sync.Ldiff.Exchange.Fair.{IsFair, Asked, first}
use any_sync.Ldiff.Exchange.Step.{round_step}

module _ (hash : ℕ → ℕ) (my_heads other_heads : ℕ → Option ℕ) (divide_factor compare_threshold : ℕ)
    (my_range other_range : Range → RangeResult) (greater : ℕ → ℕ → Bool)
    (compare : DiffCtx → List Element → List Element → DiffCtx)
    (other_ranges : List Range → Result Error (List RangeResult)) (cancelled : ℕ → Bool)
    (comparison : IsComparison greater compare) where
  abbrev Fair : Type 0
  Fair = IsFair hash my_heads other_heads divide_factor compare_threshold my_range other_range

  abbrev Ready : ℕ → Range → Type 0
  Ready n r =
      IsBelow n r
      × Asked hash my_heads other_heads divide_factor compare_threshold my_range other_range r

  abbrev Known : DiffCtx → List Range → Type 0
  Known ctx pending =
      (k : ℕ) → Tracks greater no_reports ctx pending (hash k) k (my_heads k) (other_heads k)

  length-map : (f : Range → RangeResult) (rs : List Range) → length (map f rs) ≡ length rs
  length-map f [] = refl
  length-map f (r ∷ rs) = ap suc (length-map f rs)

  run_round :
      (fuel i : ℕ) (ctx : DiffCtx) (r : Range) (rs : List Range)
      → other_ranges (r ∷ rs) ≡ ok (map other_range (r ∷ rs))
      → cancelled i ≡ false
      → let ctx' =
          compare_round divide_factor compare_threshold my_range compare other_ranges cancelled ctx
            (r ∷ rs)
            (map my_range (r ∷ rs))
            (map other_range (r ∷ rs)) in
        rounds divide_factor compare_threshold my_range compare other_ranges cancelled
          (suc fuel)
          i
          ctx
          (r ∷ rs)
        ≡ rounds divide_factor compare_threshold my_range compare other_ranges cancelled fuel
            (suc i)
            (record ctx' { prepare = [] })
            ctx'.prepare
  unfolding rounds
  run_round fuel i ctx r rs answered_all runs =
      let lengths : length (map other_range rs) ≡ length rs = length-map other_range rs in
      let agree : (suc (length (map other_range rs)) == suc (length rs)) ≡ true =
        rw lengths (==_refl (suc (length rs))) in
      rw (runs, answered_all, agree) refl

  pub rounds_end :
      (fuel n i : ℕ) (ctx : DiffCtx) (pending : List Range)
      → Fair
      → ((rs : List Range) → other_ranges rs ≡ ok (map other_range rs))
      → ((j : ℕ) → cancelled j ≡ false)
      → n < fuel
      → All (Ready n) pending
      → ctx.prepare ≡ []
      → Known ctx pending
      → (after : DiffCtx) × (rounds divide_factor compare_threshold my_range compare other_ranges
            cancelled fuel i ctx pending
          ≡ ok after)
        × Known after []
  unfolding rounds
  rounds_end zero n i ctx pending fair answers runs enough below clean known = absurd (omega arith)
  rounds_end (suc fuel) n i ctx [] fair answers runs enough below clean known = (ctx, refl, known)
  rounds_end (suc fuel) zero i ctx (r ∷ rs) fair answers runs enough (b, bs) clean known =
      absurd (omega (arith, b.0.small))
  rounds_end (suc fuel) (suc n) i ctx (r ∷ rs) fair answers runs enough below clean known =
      let ctx' =
        compare_round divide_factor compare_threshold my_range compare other_ranges cancelled ctx
          (r ∷ rs) (map my_range (r ∷ rs)) (map other_range (r ∷ rs)) in
      let (below', known') =
        round_step hash my_heads other_heads divide_factor compare_threshold my_range other_range
          greater compare other_ranges cancelled comparison n (r ∷ rs) ctx fair below
          (subst (All (Ready n)) (sym clean) tt)
          (λ k.
            Tracks-count greater no_reports ctx (r ∷ rs) _ (hash k) k (my_heads k) (other_heads k)
              (ap (λ p. count (hash k) ((r ∷ rs) ++ p)) clean ∙ count-append_nil (hash k) (r ∷ rs))
              (known k)) in
      let (after, e, done) =
        rounds_end fuel n (suc i) (record ctx' { prepare = [] }) ctx'.prepare fair answers runs
          (omega arith) below' refl
          (λ k.
            Tracks-prepare greater no_reports ctx' [] ctx'.prepare (hash k) k (my_heads k)
              (other_heads k) (known' k)) in
      (after, run_round fuel i ctx r rs (answers (r ∷ rs)) (runs i) ∙ e, done)

  once_everything : (h : ℕ) → h < word → count h (everything ∷ []) ≡ 1
  unfolding count
  once_everything h w = ground arith

  pub exchange_ends :
      (fuel : ℕ)
      → Fair
      → ((rs : List Range) → other_ranges rs ≡ ok (map other_range rs))
      → ((j : ℕ) → cancelled j ≡ false)
      → ((k : ℕ) → hash k < word)
      → suc word < fuel
      → (after : DiffCtx) × (rounds divide_factor compare_threshold my_range compare other_ranges
            cancelled fuel 0 no_reports
            (everything ∷ [])
          ≡ ok after)
        × ((k : ℕ) → IsReported greater no_reports after k (my_heads k) (other_heads k))
  unfolding count contains
  exchange_ends fuel fair answers runs hashed enough =
      let nothing : (k : ℕ) → IsReported greater no_reports no_reports k none none =
        λ k. record { removed = refl; changed = refl; their_changed = refl; new = refl } in
      let (after, e, done) =
        rounds_end fuel (suc word) 0 no_reports (everything ∷ []) fair answers runs enough
          ((record { ordered = omega arith; fits = omega arith; small = omega arith }, first), tt)
          refl (λ k. inl (once_everything (hash k) (hashed k), nothing k)) in
      (
        after,
        e,
        λ k. elim (done k) [ inl (once, _) ↦ absurd (ground arith) | inr (_, reported) ↦ reported ],
      )

equal-IsComparison : IsComparison never compare_elements_equal
equal-IsComparison = record {
  reports = compare_elements_equal-IsReported;
  prepare = compare_elements_equal-prepare;
}

greater-IsComparison :
    (greater : ℕ → ℕ → Bool) → IsComparison greater (compare_elements_greater greater)
greater-IsComparison greater = record {
  reports = λ ctx my other d e. compare_elements_greater-IsReported greater ctx my other d;
  prepare = compare_elements_greater-prepare greater;
}

-- If both sides answer truly, equal hashes stand for equal contents on the ranges that the exchange comes to
-- ask for (not so for a part in which the other side has nothing and that we have not divided, as both
-- hashes are nil there), a range with fewer hashes than parts is answered in full, hashes fit a uint64 and the context is not cancelled, then `Diff` ends in fewer rounds
-- than there are hashes, and two more, and it reports every id as it should: removed if only we have it,
-- new if only they have it, changed if both have it with different heads, and no other.
pub diff_correct :
    (hash : ℕ → ℕ) (my_heads other_heads : ℕ → Option ℕ) (divide_factor compare_threshold : ℕ)
    (my_range other_range : Range → RangeResult)
    (other_ranges : List Range → Result Error (List RangeResult)) (cancelled : ℕ → Bool) (fuel : ℕ)
    → IsFair hash my_heads other_heads divide_factor compare_threshold my_range other_range
    → ((rs : List Range) → other_ranges rs ≡ ok (map other_range rs))
    → ((j : ℕ) → cancelled j ≡ false)
    → ((k : ℕ) → hash k < word)
    → suc word < fuel
    → (after : DiffCtx) × (diff divide_factor compare_threshold my_range other_ranges cancelled fuel
        ≡ ok after)
      × ((k : ℕ) → IsReported never no_reports after k (my_heads k) (other_heads k))
unfolding diff
diff_correct hash my_heads other_heads divide_factor compare_threshold my_range other_range
      other_ranges cancelled fuel =
    exchange_ends hash my_heads other_heads divide_factor compare_threshold my_range other_range
      never compare_elements_equal other_ranges cancelled equal-IsComparison fuel

-- Under the conditions of `diff_correct` (true answers, equal hashes for equal contents only on the ranges asked for, narrow ranges
-- answered in full, hashes that fit a uint64, no cancellation) `CompareDiff` ends in as few rounds, and
-- reports every id as it should: removed if only we have it, new if only they have it, and if both have
-- it with different heads, changed by them if their head is the greater and by us if not.
pub compare_diff_correct :
    (greater : ℕ → ℕ → Bool) (hash : ℕ → ℕ) (my_heads other_heads : ℕ → Option ℕ)
    (divide_factor compare_threshold : ℕ) (my_range other_range : Range → RangeResult)
    (other_ranges : List Range → Result Error (List RangeResult)) (cancelled : ℕ → Bool) (fuel : ℕ)
    → IsFair hash my_heads other_heads divide_factor compare_threshold my_range other_range
    → ((rs : List Range) → other_ranges rs ≡ ok (map other_range rs))
    → ((j : ℕ) → cancelled j ≡ false)
    → ((k : ℕ) → hash k < word)
    → suc word < fuel
    → (after : DiffCtx) × (compare_diff divide_factor compare_threshold my_range other_ranges
          cancelled greater fuel
        ≡ ok after)
      × ((k : ℕ) → IsReported greater no_reports after k (my_heads k) (other_heads k))
unfolding compare_diff
compare_diff_correct greater hash my_heads other_heads divide_factor compare_threshold my_range
      other_range other_ranges cancelled fuel =
    exchange_ends hash my_heads other_heads divide_factor compare_threshold my_range other_range
      greater (compare_elements_greater greater) other_ranges cancelled
      (greater-IsComparison greater) fuel
