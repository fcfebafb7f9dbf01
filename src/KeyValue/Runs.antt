-- ===== src/KeyValue/Runs.antt =====
-- The search by a prefix of the ids (`iterateIdPrefix`), which stops at the first id without it.
use any_sync.Common.{
  ℕ, zero, suc, ◌≡◌, refl, sym, ap, Bool, true, false, List, [], ◌∷◌, Option, none, some, All, inl,
  inr, if◌then◌else◌, arith, Bool-cases, ◌∙◌,
}
use any_sync.Common.Bytes.{Bytes, has_prefix, up_to, has_prefix-run}
use any_sync.KeyValue.{Doc}
use any_sync.KeyValue.Update.{walk}
use any_sync.KeyValue.Rows.{Among, Ascending}

unfoldable pub with_prefix : Bytes → List Doc → List Doc
with_prefix p [] = []
with_prefix p (d ∷ ds) = if has_prefix d.id p then d ∷ with_prefix p ds else with_prefix p ds

abbrev From : Bytes → List Doc → Type 0
From p = All λ d. up_to p d.id ≡ true

with_prefix-past :
    (p id : Bytes) (ds : List Doc)
    → up_to p id ≡ true
    → has_prefix id p ≡ false
    → All (λ e. up_to id e.id ≡ true) ds
    → with_prefix p ds ≡ []
unfolding with_prefix
with_prefix-past p id [] a b h = refl
with_prefix-past p id (d ∷ ds) a b h =
    rw (has_prefix-run p id d.id a b h.0) (with_prefix-past p id ds a b h.1)

-- An iteration in the order of the ids that comes to its end before it fails has given exactly the
-- documents whose id starts with the prefix, though it stops at the first that does not.
pub walk-with_prefix :
    (p : Bytes) (ds : List Doc) (fails_after : Option ℕ)
    → All (λ d. up_to p d.id ≡ true) ds
    → Ascending ds
    → (walk p ds fails_after).1 ≡ true
    → (walk p ds fails_after).0 ≡ with_prefix p ds
unfolding walk with_prefix
walk-with_prefix p [] f a s e = refl
walk-with_prefix p (d ∷ ds) none a s e = elim (Bool-cases (has_prefix d.id p)) [
  | inl h ↦
      let ih : (walk p ds none).0 ≡ with_prefix p ds =
        walk-with_prefix p ds none a.1 s.1 (ground arith) in
      ground arith
  | inr h ↦ let past : with_prefix p ds ≡ [] = with_prefix-past p d.id ds a.0 h s.0 in ground arith
]
walk-with_prefix p (d ∷ ds) (some zero) a s e = ground arith
walk-with_prefix p (d ∷ ds) (some (suc n)) a s e = elim (Bool-cases (has_prefix d.id p)) [
  | inl h ↦
      let ih : (walk p ds (some n)).0 ≡ with_prefix p ds =
        walk-with_prefix p ds (some n) a.1 s.1 (ground arith) in
      ground arith
  | inr h ↦ let past : with_prefix p ds ≡ [] = with_prefix-past p d.id ds a.0 h s.0 in ground arith
]

abbrev given : Bool → Doc → List Doc × Bool → List Doc
given b d rest = (if◌then◌else◌ {A = List Doc × Bool} b (d ∷ rest.0, rest.1) ([], true)).0

-- What the iteration gives keeps what holds of each document.
pub walk-All :
    (P : Doc → Type 0) (p : Bytes) (ds : List Doc) (fails_after : Option ℕ)
    → All P ds
    → All P (walk p ds fails_after).0
unfolding walk
walk-All P p [] f a = tt
walk-All P p (d ∷ ds) none a =
    elim (has_prefix d.id p) as (λ b. All P (given b d (walk p ds none))) [
      | true ↦ (a.0, walk-All P p ds none a.1)
      | false ↦ tt
    ]
walk-All P p (d ∷ ds) (some zero) a = tt
walk-All P p (d ∷ ds) (some (suc n)) a =
    elim (has_prefix d.id p) as (λ b. All P (given b d (walk p ds (some n)))) [
      | true ↦ (a.0, walk-All P p ds (some n) a.1)
      | false ↦ tt
    ]

pub Among-with_prefix :
    (p : Bytes) (d : Doc) (ds : List Doc)
    → Among d ds
    → has_prefix d.id p ≡ true
    → Among d (with_prefix p ds)
unfolding with_prefix
Among-with_prefix p d [] m h = m
Among-with_prefix p d (e ∷ es) (inl q) h =
    rw (◌∙◌ (ap (λ (x : Doc). has_prefix x.id p) (sym q)) h) (inl q)
Among-with_prefix p d (e ∷ es) (inr m) h =
    elim (has_prefix e.id p)
      as (λ b. Among d (if b then e ∷ with_prefix p es else with_prefix p es)) [
        | true ↦ inr (Among-with_prefix p d es m h)
        | false ↦ Among-with_prefix p d es m h
      ]
