-- ===== src/Ldiff/Diff/Lookup.antt =====
-- Lookup of an id in a list of elements, as a map and by a scan (app/ldiff/diff.go).
use any_sync.Common.{
  ℕ, ◌≡◌, ◌⊎◌, refl, ◌||◌, List, [], ◌∷◌, ◌++◌, Option, none, some, ◌==◌, if◌then◌else◌, arith,
  contains, Bool-cases, inl, inr,
}
use any_sync.Common.Assoc.{Assoc, get, put, get-put}
use any_sync.Ldiff.Diff.{Element, put_all, to_map, find_head}
use any_sync.Ldiff.Diff.Reports.{IsDistinct}

pub contains-snoc :
    (k j : ℕ) (ids : List ℕ) → contains k (ids ++ j ∷ []) ≡ (contains k ids || k == j)
unfolding contains
contains-snoc k j [] = ground arith
contains-snoc k j (i ∷ ids) = ground (arith, contains-snoc k j ids)

abbrev pub or_else : Option ℕ → Option ℕ → Option ℕ
or_else none o = o
or_else (some h) o = some h

get-put_all :
    (k : ℕ) (m : Assoc ℕ) (els : List Element)
    → IsDistinct els
    → get k (put_all m els) ≡ or_else (find_head els k) (get k m)
unfolding put_all find_head
get-put_all k m [] d = refl
get-put_all k m (e ∷ es) (fresh, d) = elim (Bool-cases (e.id == k)) [
  | inl hit ↦
      let same : e.id ≡ k = ground arith in
      rw (get-put_all k (put e.id e.head m) es d, get-put e.id k e.head m, hit, ← same, fresh) refl
  | inr miss ↦ rw (get-put_all k (put e.id e.head m) es d, get-put e.id k e.head m, miss) refl
]

or_else-none : (o : Option ℕ) → or_else o none ≡ o
or_else-none none = refl
or_else-none (some h) = refl

pub get-to_map :
    (k : ℕ) (els : List Element) → IsDistinct els → get k (to_map els) ≡ find_head els k
unfolding get
get-to_map k els d = rw (get-put_all k [] els d) (or_else-none (find_head els k))

abbrev pub here : Element → ℕ → Option ℕ
here e k = if e.id == k then some e.head else none

pub find_head-here :
    (e : Element) (es : List Element) (k : ℕ)
    → find_head (e ∷ es) k ≡ or_else (here e k) (find_head es k)
unfolding find_head
find_head-here e es k = ground arith

pub apart :
    (e : Element) (es : List Element) (k : ℕ)
    → find_head es e.id ≡ none
    → (here e k ≡ none) ⊎ (find_head es k ≡ none)
apart e es k fresh = elim (Bool-cases (e.id == k)) [
  | inl hit ↦ let same : e.id ≡ k = ground arith in inr (rw (← same) fresh)
  | inr miss ↦ inl (rw miss refl)
]
