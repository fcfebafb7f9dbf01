-- ===== src/Ldiff/Exchange/Outcome.antt =====
-- What one answered range of a round comes to, when both sides answer truly (app/ldiff/diff.go).
use any_sync.Common.{
  ℕ, ◌≡◌, inl, inr, refl, Bool, true, false, ◌&&◌, ◌||◌, List, [], ◌∷◌, Option, map, ◌==◌, leb,
  Bool-cases,
}
use any_sync.Ldiff.{gen_tuple_ranges}
use any_sync.Ldiff.Diff.{
  Element, Range, RangeResult, DiffCtx, is_full, is_nil, undivided, prepared, compare_results,
  find_head,
}
use any_sync.Ldiff.Diff.Reports.{IsDistinct, IsReported}
use any_sync.Ldiff.Diff.Rounds.{within, IsExact}

-- The test of `compareResults` for asking the other side for its elements.
abbrev pub wants_elements : ℕ → (Range → RangeResult) → (Range → RangeResult) → Range → Bool
wants_elements compare_threshold my_range other_range r =
    leb (other_range r).count compare_threshold && is_nil (other_range r).elements
    || is_full (my_range r)

-- A comparison of elements reports each id rightly, and prepares no range.
pub record IsComparison (greater : ℕ → ℕ → Bool)
    (compare : DiffCtx → List Element → List Element → DiffCtx) : Type 0 where
  pub reports :
      (ctx : DiffCtx) (my other : List Element)
      → IsDistinct my
      → IsDistinct other
      → (k : ℕ)
      → IsReported greater ctx (compare ctx my other) k (find_head my k) (find_head other k)
  pub prepare :
      (ctx : DiffCtx) (my other : List Element) → (compare ctx my other).prepare ≡ ctx.prepare

-- A side that has `heads` answers truly: a full answer lists what it has in the range, each id once, and
-- a range that asks for elements is answered in full.
pub record IsHonest (hash : ℕ → ℕ) (heads : ℕ → Option ℕ) (answer : Range → RangeResult)
    : Type 0 where
  pub exact : (r : Range) → IsExact hash r heads (answer r)
  pub full : (r : Range) → r.elements ≡ true → is_full (answer r) ≡ true

module _ (hash : ℕ → ℕ) (my_heads other_heads : ℕ → Option ℕ) (divide_factor compare_threshold : ℕ)
    (my_range other_range : Range → RangeResult) (greater : ℕ → ℕ → Bool)
    (compare : DiffCtx → List Element → List Element → DiffCtx) where
  abbrev pub answered : DiffCtx → Range → DiffCtx
  answered ctx r =
      compare_results divide_factor compare_threshold my_range compare ctx r (my_range r)
        (other_range r)

  abbrev pub Settled : DiffCtx → DiffCtx → Range → Type 0
  Settled ctx after r =
      (after.prepare ≡ ctx.prepare)
      × ((k : ℕ)
          → IsReported greater ctx after k (within hash r my_heads k) (within hash r other_heads k))

  -- Settled, or put off: asked for its elements, or divided.
  pub data Outcome (ctx : DiffCtx) (r : Range) : Type 0 where
    same_hash :
        ((my_range r).hash == (other_range r).hash) ≡ true → answered ctx r ≡ ctx → Outcome ctx r
    settled : Settled ctx (answered ctx r) r → Outcome ctx r
    asked :
        ((my_range r).hash == (other_range r).hash) ≡ false
        → is_full (other_range r) ≡ false
        → wants_elements compare_threshold my_range other_range r ≡ true
        → answered ctx r ≡ prepared ctx (record r { elements = true } ∷ [])
        → Outcome ctx r
    divided :
        ((my_range r).hash == (other_range r).hash) ≡ false
        → is_full (other_range r) ≡ false
        → wants_elements compare_threshold my_range other_range r ≡ false
        → answered ctx r ≡ prepared ctx (map undivided (gen_tuple_ranges r.from r.to divide_factor))
        → Outcome ctx r

  settle :
      IsComparison greater compare
      → (ctx : DiffCtx) (r : Range) (mine theirs : List Element)
      → IsDistinct mine × ((k : ℕ) → find_head mine k ≡ within hash r my_heads k)
      → IsDistinct theirs × ((k : ℕ) → find_head theirs k ≡ within hash r other_heads k)
      → Settled ctx (compare ctx mine theirs) r
  settle c ctx r mine theirs (d, m) (d', o) =
      (c.prepare ctx mine theirs, λ k. rw (← m k, ← o k) (c.reports ctx mine theirs d d' k))

  pub compare_results-Outcome :
      IsComparison greater compare
      → IsHonest hash my_heads my_range
      → IsHonest hash other_heads other_range
      → (ctx : DiffCtx) (r : Range) → Outcome ctx r
  unfolding compare_results
  compare_results-Outcome c my other ctx r =
      elim (Bool-cases ((my_range r).hash == (other_range r).hash)) [
        | inl same ↦ same_hash same (rw (same) refl)
        | inr apart ↦ elim (Bool-cases (is_full (other_range r))) [
          | inl told ↦ elim (Bool-cases (is_full (my_range r))) [
            | inl known ↦ settled (
                rw (apart, told, known)
                  (settle c ctx r _ _ (my.exact r known) (other.exact r told)))
            | inr unknown ↦ settled (
                rw (apart, told, unknown)
                  (settle c ctx r _ _
                    (my.exact (record r { elements = true })
                      (my.full (record r { elements = true }) refl))
                    (other.exact r told)))
          ]
          | inr untold ↦
              elim (Bool-cases (
                leb (other_range r).count compare_threshold && is_nil (other_range r).elements
                || is_full (my_range r))) [
                  | inl ask ↦ asked apart untold ask (rw (apart, untold, ask) refl)
                  | inr split ↦ divided apart untold split (rw (apart, untold, split) refl)
                ]
        ]
      ]
