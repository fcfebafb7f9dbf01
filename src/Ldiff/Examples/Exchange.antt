-- ===== src/Ldiff/Examples/Exchange.antt =====
-- `Diff` between two containers of two elements each, divided in two, that have the upper element alike.
use any_sync.Common.{
  ℕ, suc, ◌≡◌, ◌⊎◌, inl, inr, refl, sym, ap, subst, ==_refl, ◌∙◌, Bool, true, false, ◌&&◌, List, [],
  ◌∷◌, arith, ◌==◌, ltb, length, map, if◌then◌else◌, ◌<◌, ◌-◌, ok, Bool-cases, Option, none, some,
}
use any_sync.Ldiff.{word, max_uint64, gen_tuple_ranges}
use any_sync.Ldiff.Diff.{
  Element, Range, RangeResult, HashRange, DiffCtx, get_range, find_head, is_full, undivided,
}
use any_sync.Ldiff.Diff.Reports.{IsDistinct, IsReported, never}
use any_sync.Ldiff.Diff.Rounds.{within}
use any_sync.Ldiff.Exchange.{everything, no_reports, diff, compare_diff}
use any_sync.Ldiff.Exchange.Outcome.{IsHonest, wants_elements}
use any_sync.Ldiff.Exchange.Pending.{inside}
use any_sync.Ldiff.Exchange.Fair.{IsFair, Asked, first, whole, part}
use any_sync.Ldiff.Exchange.Correct.{diff_correct, compare_diff_correct}

-- 2^63, where the upper half starts.
abbrev half : ℕ
half = 9223372036854775808

abbrev high : Element
high = record { id = 9223372036854775809; head = 5 }

abbrev my_low : Element
my_low = record { id = 1; head = 10 }

abbrev their_low : Element
their_low = record { id = 2; head = 21 }

abbrev mine : List Element
mine = my_low ∷ high ∷ []

abbrev theirs : List Element
theirs = their_low ∷ high ∷ []

-- The hash of an id, within uint64.
abbrev hash : ℕ → ℕ
hash id = if ltb id word then id else 0

abbrev listed : Range → List Element → List Element
listed r [] = []
listed r (e ∷ es) = if inside r (hash e.id) then e ∷ listed r es else listed r es

find_head-listed :
    (r : Range) (els : List Element) (k : ℕ)
    → find_head (listed r els) k ≡ within hash r (find_head els) k
unfolding find_head
find_head-listed r [] k = ground arith
find_head-listed r (e ∷ es) k = elim (Bool-cases (inside r (hash e.id))) [
  | inl here ↦ elim (Bool-cases (e.id == k)) [
    | inl hit ↦
        let same : e.id ≡ k = ground arith in
        let here' : inside r (hash k) ≡ true = rw (← same) here in rw (here, hit, here') refl
    | inr miss ↦ rw (here, miss) (find_head-listed r es k)
  ]
  | inr there ↦ elim (Bool-cases (e.id == k)) [
    | inl hit ↦
        let same : e.id ≡ k = ground arith in
        let there' : inside r (hash k) ≡ false = rw (← same) there in
        rw (there, find_head-listed r es k, there') refl
    | inr miss ↦ rw (there, miss) (find_head-listed r es k)
  ]
]

two-IsDistinct :
    (r : Range) (a b : Element) → (b.id == a.id) ≡ false → IsDistinct (listed r (a ∷ b ∷ []))
unfolding find_head
two-IsDistinct r a b apart = elim (Bool-cases (inside r (hash a.id))) [
  | inl here ↦ elim (Bool-cases (inside r (hash b.id))) [
    | inl here' ↦ rw (here, here', apart) (refl, (refl, tt))
    | inr there' ↦ rw (here, there') (refl, tt)
  ]
  | inr there ↦ elim (Bool-cases (inside r (hash b.id))) [
    | inl here' ↦ rw (there, here') (refl, tt)
    | inr there' ↦ rw (there, there') tt
  ]
]

abbrev entry : ℕ → ℕ → ℕ → ℕ → ℕ → HashRange
entry from to level h n = record {
  from = from;
  to = to;
  is_divided = level == 0;
  elements = n;
  level = level;
  hash = h;
}

-- A map of ranges: all hashes, and the two halves.
abbrev ranges : ℕ → ℕ → Range → Option HashRange
ranges top low r =
    if r.from == 0 && r.to == max_uint64
    then some (entry 0 max_uint64 0 top 2)
    else if r.from == 0 && r.to == 9223372036854775807
    then some (entry 0 9223372036854775807 1 low 1)
    else if r.from == half && r.to == max_uint64
    then some (entry half max_uint64 1 7 1)
    else none

abbrev my_range : Range → RangeResult
my_range r = get_range (ranges 1 5 r) (listed r mine) r

abbrev their_range : Range → RangeResult
their_range r = get_range (ranges 2 6 r) (listed r theirs) r

ranges_filled :
    (top low : ℕ) (r : Range) (e : HashRange) → ranges top low r ≡ some e → 0 < e.elements
ranges_filled top low r e h = ground arith

ranges_thin : (top low : ℕ) (r : Range) → suc (r.to - r.from) < 2 → ranges top low r ≡ none
ranges_thin top low r thin = ground arith

full-elements :
    (o : Option HashRange) (els : List Element) (r : Range)
    → ((e : HashRange) → o ≡ some e → 0 < e.elements)
    → is_full (get_range o els r) ≡ true
    → (get_range o els r).elements ≡ els
unfolding get_range
full-elements none els r filled told = refl
full-elements (some e) els r filled told = elim (Bool-cases r.elements) [
  | inl asks ↦ rw asks refl
  | inr plain ↦
      let n : 0 < e.elements = filled e refl in
      let t : (0 == e.elements) ≡ true = rw plain at told in absurd (ground arith)
]

asks-is_full :
    (o : Option HashRange) (els : List Element) (r : Range)
    → r.elements ≡ true
    → is_full (get_range o els r) ≡ true
unfolding get_range
asks-is_full none els r asks = ==_refl (length els)
asks-is_full (some e) els r asks = rw asks (==_refl (length els))

honest :
    (top low : ℕ) (els : List Element)
    → ((r : Range) → IsDistinct (listed r els))
    → IsHonest hash (find_head els) (λ r. get_range (ranges top low r) (listed r els) r)
honest top low els distinct = record {
  exact = λ r told.
      subst (λ es. IsDistinct es × ((k : ℕ) → find_head es k ≡ within hash r (find_head els) k))
        (sym (full-elements (ranges top low r) (listed r els) r (ranges_filled top low r) told))
        (distinct r, find_head-listed r els);
  full = λ r. asks-is_full (ranges top low r) (listed r els) r;
}

abbrev lower : Range
lower = record { from = 0; to = 9223372036854775807; elements = false }

abbrev lower_elements : Range
lower_elements = record lower { elements = true }

abbrev upper : Range
upper = record { from = half; to = max_uint64; elements = false }

abbrev wants : Range → Bool
wants = wants_elements 1 my_range their_range

abbrev alike : Range → Bool
alike r = (my_range r).hash == (their_range r).hash

everything_splits :
    (wants everything ≡ false)
    × (map undivided (gen_tuple_ranges 0 max_uint64 2) ≡ lower ∷ upper ∷ [])
unfolding get_range gen_tuple_ranges
everything_splits = (refl, refl)

apart_or_alike :
    (alike everything ≡ false)
    × (alike lower ≡ false)
    × (alike lower_elements ≡ false)
    × (alike upper ≡ true)
unfolding get_range
apart_or_alike = (refl, refl, refl, refl)

lower_is_asked : (wants lower ≡ true) × (is_full (their_range lower_elements) ≡ true)
unfolding get_range
lower_is_asked = (refl, refl)

abbrev Arises : Range → Type 0
Arises r = (r ≡ everything) ⊎ (r ≡ lower) ⊎ (r ≡ upper) ⊎ (r ≡ lower_elements)

-- The ranges that come up.
Asked-Arises :
    (r : Range)
    → Asked hash (find_head mine) (find_head theirs) 2 1 my_range their_range r
    → Arises r
Asked-Arises _ first = inl refl
Asked-Arises _ (whole {r = r} a apart untold asks) = elim (Asked-Arises r a) [
  | inl e ↦ let x : wants r ≡ false = ap wants e ∙ everything_splits.0 in cc
  | inr (inl e) ↦ inr (inr (inr (ap (λ (p : Range). record p { elements = true }) e)))
  | inr (inr (inl e)) ↦ let x : alike r ≡ true = ap alike e ∙ apart_or_alike.3 in cc
  | inr (inr (inr e)) ↦
      let x : is_full (their_range r) ≡ true =
        ap (λ p. is_full (their_range p)) e ∙ lower_is_asked.1 in
      cc
]
Asked-Arises p (part {r = r} a apart untold splits m) = elim (Asked-Arises r a) [
  | inl e ↦
      let parts : map undivided (gen_tuple_ranges r.from r.to 2) ≡ lower ∷ upper ∷ [] =
        ap (λ (q : Range). map undivided (gen_tuple_ranges q.from q.to 2)) e
        ∙ everything_splits.1 in
      elim (rw parts at m) [
        | inl low ↦ inr (inl low)
        | inr (inl up) ↦ inr (inr (inl up))
        | inr (inr x) ↦ absurd x
      ]
  | inr (inl e) ↦ let x : wants r ≡ true = ap wants e ∙ lower_is_asked.0 in cc
  | inr (inr (inl e)) ↦ let x : alike r ≡ true = ap alike e ∙ apart_or_alike.3 in cc
  | inr (inr (inr e)) ↦
      let x : is_full (their_range r) ≡ true =
        ap (λ p. is_full (their_range p)) e ∙ lower_is_asked.1 in
      cc
]

upper_alike : (k : ℕ) → inside upper (hash k) ≡ true → find_head mine k ≡ find_head theirs k
unfolding find_head
upper_alike k here = ground arith

faithful :
    (r : Range) (k : ℕ)
    → Arises r
    → alike r ≡ true
    → inside r (hash k) ≡ true
    → find_head mine k ≡ find_head theirs k
faithful r k (inl e) same here = let x : alike r ≡ false = ap alike e ∙ apart_or_alike.0 in cc
faithful r k (inr (inl e)) same here = let x : alike r ≡ false = ap alike e ∙ apart_or_alike.1 in cc
faithful r k (inr (inr (inl e))) same here =
    upper_alike k (ap (λ p. inside p (hash k)) (sym e) ∙ here)
faithful r k (inr (inr (inr e))) same here =
    let x : alike r ≡ false = ap alike e ∙ apart_or_alike.2 in cc

thin-is_full : (r : Range) → suc (r.to - r.from) < 2 → is_full (their_range r) ≡ true
unfolding get_range
thin-is_full r thin = rw (ranges_thin 2 6 r thin) (==_refl (length (listed r theirs)))

fair : IsFair hash (find_head mine) (find_head theirs) 2 1 my_range their_range
fair = record {
  mine = honest 1 5 mine (λ r. two-IsDistinct r my_low high refl);
  theirs = honest 2 6 theirs (λ r. two-IsDistinct r their_low high refl);
  faithful = λ r k up same here. faithful r k (Asked-Arises r up) same here;
  narrow = thin-is_full;
  two = omega arith;
  int = omega arith;
}

-- Enough rounds.
abbrev enough : ℕ
enough = 18446744073709551618

diff_correct_example :
    (after : DiffCtx) × (diff 2 1 my_range (λ rs. ok (map their_range rs)) (λ j. false) enough
      ≡ ok after)
    × ((k : ℕ) → IsReported never no_reports after k (find_head mine k) (find_head theirs k))
diff_correct_example =
    diff_correct hash (find_head mine) (find_head theirs) 2 1 my_range their_range
      (λ rs. ok (map their_range rs)) (λ j. false) enough fair (λ rs. refl) (λ j. refl)
      (λ k. ground arith) (omega arith)

compare_diff_correct_example :
    (after : DiffCtx) × (compare_diff 2 1 my_range
        (λ rs. ok (map their_range rs))
        (λ j. false)
        (λ b a. ltb a b)
        enough
      ≡ ok after)
    × ((k : ℕ)
        → IsReported (λ b a. ltb a b) no_reports after k (find_head mine k) (find_head theirs k))
compare_diff_correct_example =
    compare_diff_correct (λ b a. ltb a b) hash (find_head mine) (find_head theirs) 2 1 my_range
      their_range (λ rs. ok (map their_range rs)) (λ j. false) enough fair (λ rs. refl) (λ j. refl)
      (λ k. ground arith) (omega arith)
