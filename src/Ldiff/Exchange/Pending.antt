-- ===== src/Ldiff/Exchange/Pending.antt =====
-- Each hash is in one pending range or in none (app/ldiff/diff.go).
use any_sync.Common.{
  ℕ, suc, ◌≡◌, ◌⊎◌, inl, inr, refl, Bool, true, false, ◌&&◌, List, [], ◌∷◌, ◌++◌, Option, none,
  some, map, leb, arith, Bool-cases, ◌+◌, ◌∙◌, ==_refl,
}
use any_sync.Ldiff.{RangeTuple}
use any_sync.Ldiff.Tiling.{IsTiling, IsTiling-ends}
use any_sync.Ldiff.Diff.{Range, DiffCtx, undivided}
use any_sync.Ldiff.Diff.Reports.{IsReported}
use any_sync.Ldiff.Diff.Rounds.{within}

abbrev pub inside : Range → ℕ → Bool
inside r h = leb r.from h && leb h r.to

abbrev pub one_if : Bool → ℕ
one_if true = 1
one_if false = 0

-- How many of the ranges a hash is in.
unfoldable pub count : ℕ → List Range → ℕ
count h [] = 0
count h (r ∷ rs) = one_if (inside r h) + count h rs

pub count-append : (h : ℕ) (xs ys : List Range) → count h (xs ++ ys) ≡ count h xs + count h ys
unfolding count
count-append h [] ys = omega arith
count-append h (x ∷ xs) ys = omega (arith, count-append h xs ys)

pub count-append_nil : (h : ℕ) (xs : List Range) → count h (xs ++ []) ≡ count h xs
unfolding count
count-append_nil h [] = refl
count-append_nil h (x ∷ xs) = omega (arith, count-append_nil h xs)

pub count-tiling :
    (from to h : ℕ) (ts : List RangeTuple)
    → IsTiling from to ts
    → count h (map undivided ts) ≡ one_if (leb from h && leb h to)
unfolding count
count-tiling from to h [] tiling = ground arith
count-tiling from to h (t ∷ ts) (starts, le, rest) =
    let later : count h (map undivided ts) ≡ one_if (leb (suc t.to) h && leb h to) =
      count-tiling (suc t.to) to h ts rest in
    ground (arith, IsTiling-ends (suc t.to) to ts rest)

-- One report after another.
pub IsReported-after :
    {greater : ℕ → ℕ → Bool} {s c r : DiffCtx} {k : ℕ} {my other : Option ℕ}
    → IsReported greater s c k none none
    → IsReported greater c r k my other
    → IsReported greater s r k my other
IsReported-after a b = record {
  removed = rw (b.removed, a.removed) (ground arith);
  changed = rw (b.changed, a.changed) (ground arith);
  their_changed = rw (b.their_changed, a.their_changed) (ground arith);
  new = rw (b.new, a.new) (ground arith);
}

pub IsReported-before :
    {greater : ℕ → ℕ → Bool} {s c r : DiffCtx} {k : ℕ} {my other : Option ℕ}
    → IsReported greater s c k my other
    → IsReported greater c r k none none
    → IsReported greater s r k my other
IsReported-before a b = record {
  removed = rw (b.removed, a.removed) (ground arith);
  changed = rw (b.changed, a.changed) (ground arith);
  their_changed = rw (b.their_changed, a.their_changed) (ground arith);
  new = rw (b.new, a.new) (ground arith);
}

-- Equal heads are nothing to report.
pub IsReported-equal :
    {greater : ℕ → ℕ → Bool} {s c : DiffCtx} {k : ℕ} (o : Option ℕ)
    → IsReported greater s c k none none
    → IsReported greater s c k o o
IsReported-equal none a = a
IsReported-equal (some h) a = record {
  removed = a.removed;
  changed = rw (==_refl h) a.changed;
  their_changed = rw (==_refl h) a.their_changed;
  new = a.new;
}

-- What is known of an id while ranges are pending: it is in one of them and not reported, or in none and
-- reported as it should be.
abbrev pub Tracks :
    (ℕ → ℕ → Bool) → DiffCtx → DiffCtx → List Range → ℕ → ℕ → Option ℕ → Option ℕ → Type 0
Tracks greater start ctx pending h k my other =
    ((count h pending ≡ 1) × IsReported greater start ctx k none none)
    ⊎ ((count h pending ≡ 0) × IsReported greater start ctx k my other)

-- A range that is settled leaves the pending ones.
pub Tracks-settled :
    (greater : ℕ → ℕ → Bool) (start ctx after : DiffCtx) (hash : ℕ → ℕ)
    (my_heads other_heads : ℕ → Option ℕ) (r : Range) (rest : List Range) (k : ℕ)
    → IsReported greater ctx after k (within hash r my_heads k) (within hash r other_heads k)
    → Tracks greater start ctx (r ∷ rest) (hash k) k (my_heads k) (other_heads k)
    → Tracks greater start after rest (hash k) k (my_heads k) (other_heads k)
unfolding count
Tracks-settled greater start ctx after hash my_heads other_heads r rest k i t =
    elim (Bool-cases (inside r (hash k))) [
      | inl here ↦
          let i' : IsReported greater ctx after k (my_heads k) (other_heads k) = rw here at i in
          elim t [
            | inl (once, nothing) ↦ inr (ground arith, IsReported-after nothing i')
            | inr (never_, done) ↦ absurd (ground arith)
          ]
      | inr elsewhere ↦
          let i' : IsReported greater ctx after k none none = rw elsewhere at i in
          elim t [
            | inl (once, nothing) ↦ inl (ground arith, IsReported-after nothing i')
            | inr (never_, done) ↦ inr (ground arith, IsReported-before done i')
          ]
    ]

-- A range that both have alike leaves the pending ones.
pub Tracks-alike :
    (greater : ℕ → ℕ → Bool) (start ctx : DiffCtx) (r : Range) (rest : List Range) (h k : ℕ)
    (my other : Option ℕ)
    → (inside r h ≡ true → my ≡ other)
    → Tracks greater start ctx (r ∷ rest) h k my other
    → Tracks greater start ctx rest h k my other
unfolding count
Tracks-alike greater start ctx r rest h k my other same t = elim (Bool-cases (inside r h)) [
  | inl here ↦ elim t [
    | inl (once, nothing) ↦ inr (ground arith, rw (same here) (IsReported-equal other nothing))
    | inr (never_, done) ↦ absurd (ground arith)
  ]
  | inr elsewhere ↦ elim t [
    | inl (once, nothing) ↦ inl (ground arith, nothing)
    | inr (never_, done) ↦ inr (ground arith, done)
  ]
]

-- Another list with as many ranges that a hash is in.
pub Tracks-count :
    (greater : ℕ → ℕ → Bool) (start ctx : DiffCtx) (xs ys : List Range) (h k : ℕ)
    (my other : Option ℕ)
    → count h ys ≡ count h xs
    → Tracks greater start ctx xs h k my other
    → Tracks greater start ctx ys h k my other
Tracks-count greater start ctx xs ys h k my other e (inl (once, nothing)) = inl (e ∙ once, nothing)
Tracks-count greater start ctx xs ys h k my other e (inr (never_, done)) = inr (e ∙ never_, done)

-- Only the reports count.
pub IsReported-prepare :
    {greater : ℕ → ℕ → Bool} {s c : DiffCtx} {k : ℕ} {my other : Option ℕ} (rs : List Range)
    → IsReported greater s c k my other
    → IsReported greater s (record c { prepare = rs }) k my other
IsReported-prepare rs a = record {
  removed = a.removed;
  changed = a.changed;
  their_changed = a.their_changed;
  new = a.new;
}

pub Tracks-prepare :
    (greater : ℕ → ℕ → Bool) (start ctx : DiffCtx) (rs pending : List Range) (h k : ℕ)
    (my other : Option ℕ)
    → Tracks greater start ctx pending h k my other
    → Tracks greater start (record ctx { prepare = rs }) pending h k my other
Tracks-prepare greater start ctx rs pending h k my other (inl (e, a)) =
    inl (e, IsReported-prepare rs a)
Tracks-prepare greater start ctx rs pending h k my other (inr (e, a)) =
    inr (e, IsReported-prepare rs a)
