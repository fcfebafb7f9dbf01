-- ===== src/Ldiff/Exchange/Fair.antt =====
-- What two containers that are compared are assumed to be (app/ldiff/diff.go).
use any_sync.Common.{
  ℕ, suc, ◌≡◌, ◌⊎◌, List, [], ◌∷◌, map, inl, inr, true, false, Option, ◌==◌, leb, arith, Bool-cases,
  ◌≤◌, ◌<◌, ◌-◌,
}
use any_sync.Ldiff.{word, gen_tuple_ranges}
use any_sync.Ldiff.Diff.{Range, RangeResult, is_full, undivided}
use any_sync.Ldiff.Exchange.Outcome.{IsHonest, wants_elements}
use any_sync.Ldiff.Exchange.{everything}
use any_sync.Ldiff.Exchange.Pending.{inside}

-- One of the ranges of a list.
abbrev pub OneOf : Range → List Range → Type 0
OneOf r [] = ⊥
OneOf r (p ∷ ps) = (r ≡ p) ⊎ OneOf r ps

module _ (hash : ℕ → ℕ) (my_heads other_heads : ℕ → Option ℕ) (divide_factor compare_threshold : ℕ)
    (my_range other_range : Range → RangeResult) where
  -- The ranges that an exchange comes to ask for: all hashes, then the ranges that are asked for again, with
  -- their elements or as their parts, because the answers to them differ.
  pub data Asked : Range → Type 0 where
    first : Asked everything
    whole :
        {r : Range}
        → Asked r
        → ((my_range r).hash == (other_range r).hash) ≡ false
        → is_full (other_range r) ≡ false
        → wants_elements compare_threshold my_range other_range r ≡ true
        → Asked (record r { elements = true })
    part :
        {r p : Range}
        → Asked r
        → ((my_range r).hash == (other_range r).hash) ≡ false
        → is_full (other_range r) ≡ false
        → wants_elements compare_threshold my_range other_range r ≡ false
        → OneOf p (map undivided (gen_tuple_ranges r.from r.to divide_factor))
        → Asked p

  -- What the two sides and the factor are assumed to be. On the ranges that are asked for, equal hashes
  -- stand for equal contents; and a range with fewer values than parts is answered in full.
  pub record IsFair : Type 0 where
    pub mine : IsHonest hash my_heads my_range
    pub theirs : IsHonest hash other_heads other_range
    pub faithful :
        (r : Range) (k : ℕ)
        → Asked r
        → ((my_range r).hash == (other_range r).hash) ≡ true
        → inside r (hash k) ≡ true
        → my_heads k ≡ other_heads k
    pub narrow : (r : Range) → suc (r.to - r.from) < divide_factor → is_full (other_range r) ≡ true
    pub two : 2 ≤ divide_factor
    pub int : divide_factor < word

  pub is_plain : IsFair → (r : Range) → is_full (other_range r) ≡ false → r.elements ≡ false
  is_plain fair r untold = elim (Bool-cases r.elements) [
    | inl asks ↦ let told = fair.theirs.full r asks in cc
    | inr plain ↦ plain
  ]

  pub is_wide :
      IsFair → (r : Range) → is_full (other_range r) ≡ false → divide_factor ≤ suc (r.to - r.from)
  is_wide fair r untold = elim (Bool-cases (leb divide_factor (suc (r.to - r.from)))) [
    | inl wide ↦ ground arith
    | inr thin ↦ let told = fair.narrow r (ground arith) in cc
  ]
