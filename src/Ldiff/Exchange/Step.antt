-- ===== src/Ldiff/Exchange/Step.antt =====
-- One range, and one round, of the comparison of two containers (app/ldiff/diff.go).
use any_sync.Common.{
  ℕ, suc, ◌≡◌, inl, inr, refl, sym, ap, subst, Bool, true, false, List, [], ◌∷◌, ◌++◌, Option, map,
  arith, ◌<◌, All, Result,
}
use any_sync.Ldiff.Tiling.{gen_tuple_ranges-IsTiling}
use any_sync.Ldiff.Diff.{Element, Range, RangeResult, DiffCtx, prepared, compare_results}
use any_sync.Ldiff.Exchange.{Error, no_reports, compare_round}
use any_sync.Ldiff.Exchange.Outcome.{
  IsComparison, Outcome, same_hash, settled, asked, divided, compare_results-Outcome,
}
use any_sync.Ldiff.Exchange.Pending.{
  count, count-append, count-tiling, Tracks, Tracks-settled, Tracks-alike, Tracks-count,
  Tracks-prepare,
}
use any_sync.Ldiff.Exchange.Rank.{rank, IsBelow, All-append, divided-IsBelow}
use any_sync.Ldiff.Exchange.Fair.{IsFair, OneOf, Asked, whole, part, is_plain, is_wide}

All-both : (P Q : Range → Type 0) (rs : List Range) → All P rs → All Q rs → All (λ r. P r × Q r) rs
All-both P Q [] a b = tt
All-both P Q (r ∷ rs) a b = ((a.0, b.0), All-both P Q rs a.1 b.1)

All-OneOf : (P : Range → Type 0) (rs : List Range) → ((r : Range) → OneOf r rs → P r) → All P rs
All-OneOf P [] f = tt
All-OneOf P (r ∷ rs) f = (f r (inl refl), All-OneOf P rs (λ p m. f p (inr m)))

module _ (hash : ℕ → ℕ) (my_heads other_heads : ℕ → Option ℕ) (divide_factor compare_threshold : ℕ)
    (my_range other_range : Range → RangeResult) (greater : ℕ → ℕ → Bool)
    (compare : DiffCtx → List Element → List Element → DiffCtx)
    (other_ranges : List Range → Result Error (List RangeResult)) (cancelled : ℕ → Bool)
    (comparison : IsComparison greater compare) where
  abbrev pub Fair : Type 0
  Fair = IsFair hash my_heads other_heads divide_factor compare_threshold my_range other_range

  -- Small enough, and one that comes up.
  abbrev pub Ready : ℕ → Range → Type 0
  Ready n r =
      IsBelow n r
      × Asked hash my_heads other_heads divide_factor compare_threshold my_range other_range r

  abbrev pub Known : DiffCtx → List Range → Type 0
  Known ctx pending =
      (k : ℕ) → Tracks greater no_reports ctx pending (hash k) k (my_heads k) (other_heads k)

  abbrev answer : DiffCtx → Range → DiffCtx
  answer ctx r =
      compare_results divide_factor compare_threshold my_range compare ctx r (my_range r)
        (other_range r)

  -- A range that is put off as `new` ones.
  put_off :
      (n : ℕ) (ctx after : DiffCtx) (r : Range) (rs new : List Range)
      → after ≡ prepared ctx new
      → ((h : ℕ) → count h new ≡ count h (r ∷ []))
      → All (Ready n) new
      → All (Ready n) ctx.prepare
      → Known ctx ((r ∷ rs) ++ ctx.prepare)
      → All (Ready n) after.prepare × Known after (rs ++ after.prepare)
  unfolding count
  put_off n ctx after r rs new e same small below known = rw e (
    All-append (Ready n) ctx.prepare new below small,
    λ k.
        Tracks-prepare greater no_reports ctx (ctx.prepare ++ new) _ (hash k) k (my_heads k)
          (other_heads k)
          (Tracks-count greater no_reports ctx ((r ∷ rs) ++ ctx.prepare) _ (hash k) k (my_heads k)
            (other_heads k)
            (omega (
              arith,
              count-append (hash k) rs (ctx.prepare ++ new),
              count-append (hash k) ctx.prepare new,
              count-append (hash k) rs ctx.prepare,
              same (hash k),
            ))
            (known k)),
  )

  rank_positive : (n : ℕ) (r : Range) → r.elements ≡ false → rank r < suc n → 0 < n
  rank_positive n r plain small = ground arith

  Outcome-step :
      (n : ℕ) (ctx : DiffCtx) (r : Range) (rs : List Range)
      → Fair
      → Ready (suc n) r
      → All (Ready n) ctx.prepare
      → Known ctx ((r ∷ rs) ++ ctx.prepare)
      → Outcome hash my_heads other_heads divide_factor compare_threshold my_range other_range
          greater compare ctx r
      → All (Ready n) (answer ctx r).prepare × Known (answer ctx r) (rs ++ (answer ctx r).prepare)
  unfolding count
  Outcome-step n ctx r rs fair (b, up) below known (same_hash same e) = rw e (
    below,
    λ k.
        Tracks-alike greater no_reports ctx r (rs ++ ctx.prepare) (hash k) k (my_heads k)
          (other_heads k) (fair.faithful r k up same) (known k),
  )
  Outcome-step n ctx r rs fair (b, up) below known (settled (e, reports)) = (
    subst (All (Ready n)) (sym e) below,
    λ k.
        Tracks-count greater no_reports (answer ctx r) (rs ++ ctx.prepare) _ (hash k) k (my_heads k)
          (other_heads k) (ap (λ p. count (hash k) (rs ++ p)) e)
          (Tracks-settled greater no_reports ctx (answer ctx r) hash my_heads other_heads r
            (rs ++ ctx.prepare) k (reports k) (known k)),
  )
  Outcome-step n ctx r rs fair (b, up) below known (asked apart untold ask e) =
      let plain =
        is_plain hash my_heads other_heads divide_factor compare_threshold my_range other_range fair
          r untold in
      put_off n ctx (answer ctx r) r rs (record r { elements = true } ∷ []) e (λ h. refl)
        (
          (
            record { ordered = b.ordered; fits = b.fits; small = rank_positive n r plain b.small },
            whole up apart untold ask,
          ),
          tt,
        )
        below known
  Outcome-step n ctx r rs fair (b, up) below known (divided apart untold split e) =
      let plain =
        is_plain hash my_heads other_heads divide_factor compare_threshold my_range other_range fair
          r untold in
      let wide =
        is_wide hash my_heads other_heads divide_factor compare_threshold my_range other_range fair
          r untold in
      let (parts, tiling) =
        gen_tuple_ranges-IsTiling r.from r.to divide_factor b.ordered b.fits fair.two wide
          fair.int in
      put_off n ctx (answer ctx r) r rs _ e
        (λ h. omega (arith, count-tiling r.from r.to h _ tiling))
        (All-both (IsBelow n) _ _ (divided-IsBelow n divide_factor r b plain fair.two fair.int wide)
          (All-OneOf _ _ (λ p m. part up apart untold split m)))
        below known

  pub round_step :
      (n : ℕ) (rs : List Range) (ctx : DiffCtx)
      → Fair
      → All (Ready (suc n)) rs
      → All (Ready n) ctx.prepare
      → Known ctx (rs ++ ctx.prepare)
      → let after =
          compare_round divide_factor compare_threshold my_range compare other_ranges cancelled ctx
            rs
            (map my_range rs)
            (map other_range rs) in
        All (Ready n) after.prepare × Known after after.prepare
  unfolding compare_round
  round_step n [] ctx fair bs below known = (below, known)
  round_step n (r ∷ rs) ctx fair (b, bs) below known =
      let (below', known') = Outcome-step n ctx r rs fair b below known (
        compare_results-Outcome hash my_heads other_heads divide_factor compare_threshold my_range
          other_range greater compare comparison fair.mine fair.theirs ctx r) in
      round_step n rs (answer ctx r) fair bs below' known'
