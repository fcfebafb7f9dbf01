-- ===== src/Ldiff/Diff/Rounds.antt =====
-- What one answered range of a round of `Diff` (app/ldiff/diff.go) comes to.
use any_sync.Common.{
  ℕ, suc, ◌≡◌, ◌⊎◌, inl, inr, refl, Bool, true, false, ◌&&◌, ◌||◌, List, [], ◌∷◌, Option, none,
  some, map, ◌==◌, leb, if◌then◌else◌, arith, Bool-cases, ◌≤◌, ◌<◌, ◌-◌, ◌∙◌,
}
use any_sync.Common.Assoc.{Assoc, get}
use any_sync.Ldiff.{word, RangeTuple, gen_tuple_ranges}
use any_sync.Ldiff.Tiling.{IsTiling, IsTiling-ends, gen_tuple_ranges-IsTiling}
use any_sync.Ldiff.Diff.{
  Element, Range, RangeResult, DiffCtx, is_full, is_nil, undivided, prepared, compare_results,
  compare_elements_equal, report_new, report_changed, report_removed, report_their_changed,
  mine_greater, theirs_greater, compare_elements_greater, mine_equal, theirs_equal, find_head,
  to_map,
}
use any_sync.Ldiff.Diff.Reports.{IsDistinct, IsReported, never}
use any_sync.Ldiff.Diff.Compare.{compare_elements_equal-IsReported}

-- A hash lies in one of the ranges.
unfoldable pub covers : ℕ → List Range → Bool
covers h [] = false
covers h (r ∷ rs) = leb r.from h && leb h r.to || covers h rs

tiling_covers :
    (from to h : ℕ) (ts : List RangeTuple)
    → IsTiling from to ts
    → covers h (map undivided ts) ≡ (leb from h && leb h to)
unfolding covers
tiling_covers from to h [] tiling = ground arith
tiling_covers from to h (t ∷ ts) (starts, le, rest) =
    let later : covers h (map undivided ts) ≡ (leb (suc t.to) h && leb h to) =
      tiling_covers (suc t.to) to h ts rest in
    ground (arith, IsTiling-ends (suc t.to) to ts rest)

asks_all :
    (h : ℕ) (r : Range)
    → covers h (record r { elements = true } ∷ []) ≡ (leb r.from h && leb h r.to)
unfolding covers
asks_all h r = ground arith

mine-prepare :
    (ctx : DiffCtx) (e : Element) (o : Option ℕ)
    → (elim o as (λ x. DiffCtx) [
      | none ↦ report_removed ctx e.id
      | some head ↦ if head == e.head then ctx else report_changed ctx e.id
    ]).prepare
      ≡ ctx.prepare
mine-prepare ctx e none = refl
mine-prepare ctx e (some head) = ground arith

greater-prepare :
    (greater : ℕ → ℕ → Bool) (ctx : DiffCtx) (e : Element) (o : Option ℕ)
    → (elim o as (λ x. DiffCtx) [
      | none ↦ report_removed ctx e.id
      | some head ↦
          if head == e.head
          then ctx
          else if greater head e.head
          then report_their_changed ctx e.id
          else report_changed ctx e.id
    ]).prepare
      ≡ ctx.prepare
greater-prepare greater ctx e none = refl
greater-prepare greater ctx e (some head) = ground arith

theirs-prepare :
    (ctx : DiffCtx) (e : Element) (o : Option ℕ)
    → (elim o as (λ x. DiffCtx) [ none ↦ report_new ctx e.id | some head ↦ ctx ]).prepare
      ≡ ctx.prepare
theirs-prepare ctx e none = refl
theirs-prepare ctx e (some head) = refl

mine_equal-prepare :
    (m : Assoc ℕ) (els : List Element) (ctx : DiffCtx)
    → (mine_equal m ctx els).prepare ≡ ctx.prepare
unfolding mine_equal
mine_equal-prepare m [] ctx = refl
mine_equal-prepare m (e ∷ es) ctx = mine_equal-prepare m es _ ∙ mine-prepare ctx e (get e.id m)

theirs_equal-prepare :
    (m : Assoc ℕ) (els : List Element) (ctx : DiffCtx)
    → (theirs_equal m ctx els).prepare ≡ ctx.prepare
unfolding theirs_equal
theirs_equal-prepare m [] ctx = refl
theirs_equal-prepare m (e ∷ es) ctx =
    theirs_equal-prepare m es _ ∙ theirs-prepare ctx e (get e.id m)

pub compare_elements_equal-prepare :
    (ctx : DiffCtx) (my other : List Element)
    → (compare_elements_equal ctx my other).prepare ≡ ctx.prepare
unfolding compare_elements_equal
compare_elements_equal-prepare ctx my other =
    theirs_equal-prepare (to_map my) other _ ∙ mine_equal-prepare (to_map other) my ctx

mine_greater-prepare :
    (greater : ℕ → ℕ → Bool) (other els : List Element) (ctx : DiffCtx)
    → (mine_greater greater other ctx els).prepare ≡ ctx.prepare
unfolding mine_greater
mine_greater-prepare greater other [] ctx = refl
mine_greater-prepare greater other (e ∷ es) ctx =
    mine_greater-prepare greater other es _ ∙ greater-prepare greater ctx e (find_head other e.id)

theirs_greater-prepare :
    (my els : List Element) (ctx : DiffCtx) → (theirs_greater my ctx els).prepare ≡ ctx.prepare
unfolding theirs_greater
theirs_greater-prepare my [] ctx = refl
theirs_greater-prepare my (e ∷ es) ctx =
    theirs_greater-prepare my es _ ∙ theirs-prepare ctx e (find_head my e.id)

pub compare_elements_greater-prepare :
    (greater : ℕ → ℕ → Bool) (ctx : DiffCtx) (my other : List Element)
    → (compare_elements_greater greater ctx my other).prepare ≡ ctx.prepare
unfolding compare_elements_greater
compare_elements_greater-prepare greater ctx my other =
    theirs_greater-prepare my other _ ∙ mine_greater-prepare greater other my ctx

-- The heads of a container in a range.
abbrev pub within : (ℕ → ℕ) → Range → (ℕ → Option ℕ) → ℕ → Option ℕ
within hash r heads k = if leb r.from (hash k) && leb (hash k) r.to then heads k else none

-- A full answer lists what the container has in the range, each id once.
abbrev pub IsExact : (ℕ → ℕ) → Range → (ℕ → Option ℕ) → RangeResult → Type 0
IsExact hash r heads res =
    is_full res ≡ true
    → IsDistinct res.elements × ((k : ℕ) → find_head res.elements k ≡ within hash r heads k)

module _ (hash : ℕ → ℕ) (my_heads other_heads : ℕ → Option ℕ) (divide_factor compare_threshold : ℕ)
    (my_range : Range → RangeResult) (r : Range) (my other : RangeResult) (ctx : DiffCtx) where
  abbrev pub after : DiffCtx
  after =
      compare_results divide_factor compare_threshold my_range compare_elements_equal ctx r my other

  settled :
      (mine theirs : List Element)
      → IsDistinct mine × ((k : ℕ) → find_head mine k ≡ within hash r my_heads k)
      → IsDistinct theirs × ((k : ℕ) → find_head theirs k ≡ within hash r other_heads k)
      → ((compare_elements_equal ctx mine theirs).prepare ≡ ctx.prepare)
        × ((k : ℕ)
            → IsReported never ctx
                (compare_elements_equal ctx mine theirs)
                k
                (within hash r my_heads k)
                (within hash r other_heads k))
  settled mine theirs (d, m) (d', o) = (
    compare_elements_equal-prepare ctx mine theirs,
    λ k. rw (← m k, ← o k) (compare_elements_equal-IsReported ctx mine theirs d d' k),
  )

  -- For a uint64 range of at least `divide_factor` values and a factor of 2 or more that fits a
  -- uint64: if the hashes differ, and full answers list what the containers have in the range,
  -- each id once, and a range that asks for elements is answered in full, then the range is
  -- either settled, each of its ids reported as it should be, or put off, as ranges that cover
  -- just the hashes that it covers.
  pub compare_results_settles :
      (my.hash == other.hash) ≡ false
      → IsExact hash r my_heads my
      → IsExact hash r other_heads other
      → IsExact hash r my_heads (my_range (record r { elements = true }))
      → is_full (my_range (record r { elements = true })) ≡ true
      → r.from ≤ r.to
      → r.to < word
      → 2 ≤ divide_factor
      → divide_factor ≤ suc (r.to - r.from)
      → divide_factor < word
      → ((after.prepare ≡ ctx.prepare)
          × ((k : ℕ)
              → IsReported never ctx after k
                  (within hash r my_heads k)
                  (within hash r other_heads k)))
        ⊎ ((rs : List Range) × (after ≡ prepared ctx rs)
            × ((h : ℕ) → covers h rs ≡ (leb r.from h && leb h r.to)))
  unfolding compare_results
  compare_results_settles apart mine theirs asked full le w two wide int =
      elim (Bool-cases (is_full other)) [
        | inl told ↦ elim (Bool-cases (is_full my)) [
          | inl known ↦
              rw (apart, told, known)
                (inl (settled my.elements other.elements (mine known) (theirs told)))
          | inr unknown ↦
              rw (apart, told, unknown)
                (inl (
                  settled (my_range (record r { elements = true })).elements other.elements
                    (asked full) (theirs told)))
        ]
        | inr untold ↦
            elim (Bool-cases
              (leb other.count compare_threshold && is_nil other.elements || is_full my)) [
                | inl ask ↦
                    rw (apart, untold, ask)
                      (inr (record r { elements = true } ∷ [], refl, λ h. asks_all h r))
                | inr split ↦
                    rw (apart, untold, split)
                      (inr (
                        map undivided (gen_tuple_ranges r.from r.to divide_factor),
                        refl,
                        λ h.
                            tiling_covers r.from r.to h _
                              (gen_tuple_ranges-IsTiling r.from r.to divide_factor le w two wide
                                int).1,
                      ))
              ]
      ]
