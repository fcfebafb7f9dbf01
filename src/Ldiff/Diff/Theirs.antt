-- ===== src/Ldiff/Diff/Theirs.antt =====
-- What the second loop of a comparison of elements (app/ldiff/diff.go) adds to the reports.
use any_sync.Common.{
  ℕ, ◌≡◌, refl, ap, Bool, ◌||◌, List, [], ◌∷◌, ◌++◌, Option, none, some, ◌==◌, arith, contains,
  Bool-cases, inl, inr,
}
use any_sync.Common.Assoc.{Assoc, get}
use any_sync.Ldiff.Diff.{Element, DiffCtx, theirs_equal, find_head, theirs_greater, report_new}
use any_sync.Ldiff.Diff.Reports.{only_left, IsReported}
use any_sync.Ldiff.Diff.Lookup.{contains-snoc, or_else, here, find_head-here}
use any_sync.Ldiff.Diff.Mine.{IsSorted}

-- What the second loop adds.
pub record IsCompleted (ctx r : DiffCtx) (k : ℕ) (my other : Option ℕ) : Type 0 where
  pub new : contains k r.new_ids ≡ (contains k ctx.new_ids || only_left other my)
  pub removed : r.removed_ids ≡ ctx.removed_ids
  pub changed : r.changed_ids ≡ ctx.changed_ids
  pub their_changed : r.their_changed_ids ≡ ctx.their_changed_ids

new_step :
    (ctx : DiffCtx) (e : Element) (k : ℕ) (o my : Option ℕ)
    → (e.id ≡ k → o ≡ my)
    → IsCompleted ctx (elim o [ none ↦ report_new ctx e.id | some head ↦ ctx ]) k my (here e k)
new_step ctx e k (some h) my same = elim (Bool-cases (e.id == k)) [
  | inl hit ↦
      let eq : e.id ≡ k = ground arith in
      rw (hit, ← same eq)
        (record { new = ground arith; removed = refl; changed = refl; their_changed = refl })
  | inr miss ↦
      rw miss (record { new = ground arith; removed = refl; changed = refl; their_changed = refl })
]
new_step ctx e k none my same =
    let added : contains k (ctx.new_ids ++ e.id ∷ []) ≡ (contains k ctx.new_ids || k == e.id) =
      contains-snoc k e.id ctx.new_ids in
    elim (Bool-cases (e.id == k)) [
      | inl hit ↦
          let eq : e.id ≡ k = ground arith in
          rw (hit, ← same eq)
            (record { new = ground arith; removed = refl; changed = refl; their_changed = refl })
      | inr miss ↦
          rw miss
            (record { new = ground arith; removed = refl; changed = refl; their_changed = refl })
    ]

IsCompleted-append :
    (ctx mid r : DiffCtx) (k : ℕ) (my first rest : Option ℕ)
    → IsCompleted ctx mid k my first
    → IsCompleted mid r k my rest
    → IsCompleted ctx r k my (or_else first rest)
IsCompleted-append ctx mid r k my none rest a b = record {
  new = ground arith;
  removed = cc;
  changed = cc;
  their_changed = cc;
}
IsCompleted-append ctx mid r k my (some h) none a b = record {
  new = ground arith;
  removed = cc;
  changed = cc;
  their_changed = cc;
}
IsCompleted-append ctx mid r k none (some h) (some g) a b = record {
  new = ground arith;
  removed = cc;
  changed = cc;
  their_changed = cc;
}
IsCompleted-append ctx mid r k (some i) (some h) (some g) a b = record {
  new = ground arith;
  removed = cc;
  changed = cc;
  their_changed = cc;
}

IsCompleted-none : (ctx : DiffCtx) (k : ℕ) (my : Option ℕ) → IsCompleted ctx ctx k my none
IsCompleted-none ctx k my = record {
  new = ground arith;
  removed = refl;
  changed = refl;
  their_changed = refl;
}

pub theirs_equal-IsCompleted :
    (m : Assoc ℕ) (els : List Element) (ctx : DiffCtx) (k : ℕ)
    → IsCompleted ctx (theirs_equal m ctx els) k (get k m) (find_head els k)
unfolding theirs_equal find_head
theirs_equal-IsCompleted m [] ctx k = IsCompleted-none ctx k (get k m)
theirs_equal-IsCompleted m (e ∷ es) ctx k = rw (find_head-here e es k) (
    IsCompleted-append ctx _ _ k (get k m) (here e k) (find_head es k)
      (new_step ctx e k (get e.id m) (get k m) (λ same. ap (λ x. get x m) same))
      (theirs_equal-IsCompleted m es _ k))

pub theirs_greater-IsCompleted :
    (my els : List Element) (ctx : DiffCtx) (k : ℕ)
    → IsCompleted ctx (theirs_greater my ctx els) k (find_head my k) (find_head els k)
unfolding theirs_greater find_head
theirs_greater-IsCompleted my [] ctx k = IsCompleted-none ctx k (find_head my k)
theirs_greater-IsCompleted my (e ∷ es) ctx k = rw (find_head-here e es k) (
    IsCompleted-append ctx _ _ k (find_head my k) (here e k) (find_head es k)
      (new_step ctx e k (find_head my e.id) (find_head my k) (λ same. ap (find_head my) same))
      (theirs_greater-IsCompleted my es _ k))

pub IsReported-loops :
    (greater : ℕ → ℕ → Bool) (ctx mid r : DiffCtx) (k : ℕ) (my other : Option ℕ)
    → IsSorted greater ctx mid k my other
    → IsCompleted mid r k my other
    → IsReported greater ctx r k my other
IsReported-loops greater ctx mid r k my other a b = record {
  removed = rw b.removed a.removed;
  changed = rw b.changed a.changed;
  their_changed = rw b.their_changed a.their_changed;
  new = rw (← a.new) b.new;
}
