-- ===== src/Ldiff/Diff/Mine.antt =====
-- What the first loop of a comparison of elements (app/ldiff/diff.go) adds to the reports.
use any_sync.Common.{
  ℕ, ◌≡◌, ◌⊎◌, refl, ap, Bool, ◌||◌, List, [], ◌∷◌, ◌++◌, Option, none, some, ◌==◌, if◌then◌else◌,
  arith, contains, Bool-cases, inl, inr,
}
use any_sync.Common.Assoc.{Assoc, get}
use any_sync.Ldiff.Diff.{
  Element, DiffCtx, mine_equal, find_head, mine_greater, report_changed, report_removed,
  report_their_changed,
}
use any_sync.Ldiff.Diff.Reports.{IsDistinct, only_left, both, ours, theirs, never}
use any_sync.Ldiff.Diff.Lookup.{contains-snoc, or_else, here, find_head-here, apart}

-- What the first loop adds.
pub record IsSorted (greater : ℕ → ℕ → Bool) (ctx r : DiffCtx) (k : ℕ) (my other : Option ℕ)
    : Type 0 where
  pub removed : contains k r.removed_ids ≡ (contains k ctx.removed_ids || only_left my other)
  pub changed :
      contains k r.changed_ids ≡ (contains k ctx.changed_ids || both (ours greater) my other)
  pub their_changed :
      contains k r.their_changed_ids
      ≡ (contains k ctx.their_changed_ids || both (theirs greater) my other)
  pub new : r.new_ids ≡ ctx.new_ids

IsSorted-append :
    (greater : ℕ → ℕ → Bool) (ctx mid r : DiffCtx) (k : ℕ) (first rest other : Option ℕ)
    → (first ≡ none) ⊎ (rest ≡ none)
    → IsSorted greater ctx mid k first other
    → IsSorted greater mid r k rest other
    → IsSorted greater ctx r k (or_else first rest) other
IsSorted-append greater ctx mid r k none rest other d a b = record {
  removed = ground arith;
  changed = ground arith;
  their_changed = ground arith;
  new = cc;
}
IsSorted-append greater ctx mid r k (some h) none other d a b = record {
  removed = ground arith;
  changed = ground arith;
  their_changed = ground arith;
  new = cc;
}
IsSorted-append greater ctx mid r k (some h) (some g) other d a b = elim d [
  | inl e ↦ cc
  | inr e ↦ cc
]

-- One element that the other side lacks.
removed_step :
    (greater : ℕ → ℕ → Bool) (ctx : DiffCtx) (e : Element) (k : ℕ) (other : Option ℕ)
    → (e.id ≡ k → none ≡ other)
    → IsSorted greater ctx (report_removed ctx e.id) k (here e k) other
removed_step greater ctx e k other h =
    let added : contains k (ctx.removed_ids ++ e.id ∷ [])
        ≡ (contains k ctx.removed_ids || k == e.id) =
      contains-snoc k e.id ctx.removed_ids in
    elim (Bool-cases (e.id == k)) [
      | inl hit ↦
          let same : e.id ≡ k = ground arith in
          rw (hit, ← h same)
            (record {
              removed = ground arith;
              changed = ground arith;
              their_changed = ground arith;
              new = refl;
            })
      | inr miss ↦ rw miss (record {
        removed = ground arith;
        changed = ground arith;
        their_changed = ground arith;
        new = refl;
      })
    ]

-- One element that the other side has with the head `b`: what it is reported as depends on the heads.
found_step :
    (greater : ℕ → ℕ → Bool) (ctx r : DiffCtx) (e : Element) (k b : ℕ) (other : Option ℕ)
    → (e.id ≡ k → some b ≡ other)
    → r ≡ (
        if b == e.head
        then ctx
        else if greater b e.head
        then report_their_changed ctx e.id
        else report_changed ctx e.id)
    → IsSorted greater ctx r k (here e k) other
found_step greater ctx r e k b other h is =
    let changed : contains k (ctx.changed_ids ++ e.id ∷ [])
        ≡ (contains k ctx.changed_ids || k == e.id) =
      contains-snoc k e.id ctx.changed_ids in
    let their_changed : contains k (ctx.their_changed_ids ++ e.id ∷ [])
        ≡ (contains k ctx.their_changed_ids || k == e.id) =
      contains-snoc k e.id ctx.their_changed_ids in
    elim (Bool-cases (e.id == k)) [
      | inl hit ↦
          let same : e.id ≡ k = ground arith in
          rw (hit, ← h same)
            (record {
              removed = ground arith;
              changed = ground arith;
              their_changed = ground arith;
              new = ground arith;
            })
      | inr miss ↦ rw miss (record {
        removed = ground arith;
        changed = ground arith;
        their_changed = ground arith;
        new = ground arith;
      })
    ]

equal_step :
    (ctx : DiffCtx) (e : Element) (k : ℕ) (o other : Option ℕ)
    → (e.id ≡ k → o ≡ other)
    → IsSorted never ctx
        (elim o [
          | none ↦ report_removed ctx e.id
          | some head ↦ if head == e.head then ctx else report_changed ctx e.id
        ])
        k
        (here e k)
        other
equal_step ctx e k none other h = removed_step never ctx e k other h
equal_step ctx e k (some b) other h = found_step never ctx _ e k b other h refl

greater_step :
    (greater : ℕ → ℕ → Bool) (ctx : DiffCtx) (e : Element) (k : ℕ) (o other : Option ℕ)
    → (e.id ≡ k → o ≡ other)
    → IsSorted greater ctx
        (elim o [
          | none ↦ report_removed ctx e.id
          | some head ↦
              if head == e.head
              then ctx
              else if greater head e.head
              then report_their_changed ctx e.id
              else report_changed ctx e.id
        ])
        k
        (here e k)
        other
greater_step greater ctx e k none other h = removed_step greater ctx e k other h
greater_step greater ctx e k (some b) other h = found_step greater ctx _ e k b other h refl

IsSorted-none :
    (greater : ℕ → ℕ → Bool) (ctx : DiffCtx) (k : ℕ) (other : Option ℕ)
    → IsSorted greater ctx ctx k none other
IsSorted-none greater ctx k other = record {
  removed = ground arith;
  changed = ground arith;
  their_changed = ground arith;
  new = refl;
}

pub mine_equal-IsSorted :
    (m : Assoc ℕ) (els : List Element) (ctx : DiffCtx) (k : ℕ)
    → IsDistinct els
    → IsSorted never ctx (mine_equal m ctx els) k (find_head els k) (get k m)
unfolding mine_equal find_head
mine_equal-IsSorted m [] ctx k d = IsSorted-none never ctx k (get k m)
mine_equal-IsSorted m (e ∷ es) ctx k (fresh, d) = rw (find_head-here e es k) (
    IsSorted-append never ctx _ _ k (here e k) (find_head es k) (get k m) (apart e es k fresh)
      (equal_step ctx e k (get e.id m) (get k m) (λ same. ap (λ x. get x m) same))
      (mine_equal-IsSorted m es _ k d))

pub mine_greater-IsSorted :
    (greater : ℕ → ℕ → Bool) (other els : List Element) (ctx : DiffCtx) (k : ℕ)
    → IsDistinct els
    → IsSorted greater ctx
        (mine_greater greater other ctx els)
        k
        (find_head els k)
        (find_head other k)
unfolding mine_greater find_head
mine_greater-IsSorted greater other [] ctx k d = IsSorted-none greater ctx k (find_head other k)
mine_greater-IsSorted greater other (e ∷ es) ctx k (fresh, d) = rw (find_head-here e es k) (
    IsSorted-append greater ctx _ _ k (here e k) (find_head es k) (find_head other k)
      (apart e es k fresh)
      (greater_step greater ctx e k (find_head other e.id) (find_head other k)
        (λ same. ap (find_head other) same))
      (mine_greater-IsSorted greater other es _ k d))
