-- ===== src/Ldiff/Diff/Reports.antt =====
-- What a comparison of elements (app/ldiff/diff.go) should report.
use any_sync.Common.{
  ℕ, ◌≡◌, Bool, true, false, not, ◌&&◌, ◌||◌, List, [], ◌∷◌, Option, none, some, ◌==◌, contains,
}
use any_sync.Ldiff.Diff.{Element, DiffCtx, find_head}

-- No id stands twice.
abbrev pub IsDistinct : List Element → Type 0
IsDistinct [] = Unit
IsDistinct (e ∷ es) = (find_head es e.id ≡ none) × IsDistinct es

abbrev pub only_left : Option ℕ → Option ℕ → Bool
only_left (some a) none = true
only_left _ _ = false

-- Both sides have a head, and the test of the other one's and mine holds.
abbrev pub both : (ℕ → ℕ → Bool) → Option ℕ → Option ℕ → Bool
both test (some a) (some b) = test b a
both test _ _ = false

abbrev pub ours : (ℕ → ℕ → Bool) → ℕ → ℕ → Bool
ours greater b a = not (b == a) && not (greater b a)

abbrev pub theirs : (ℕ → ℕ → Bool) → ℕ → ℕ → Bool
theirs greater b a = not (b == a) && greater b a

-- What a comparison adds to the reports on one id, given the id's heads on both sides.
pub record IsReported (greater : ℕ → ℕ → Bool) (ctx r : DiffCtx) (k : ℕ) (my other : Option ℕ)
    : Type 0 where
  pub removed : contains k r.removed_ids ≡ (contains k ctx.removed_ids || only_left my other)
  pub changed :
      contains k r.changed_ids ≡ (contains k ctx.changed_ids || both (ours greater) my other)
  pub their_changed :
      contains k r.their_changed_ids
      ≡ (contains k ctx.their_changed_ids || both (theirs greater) my other)
  pub new : contains k r.new_ids ≡ (contains k ctx.new_ids || only_left other my)

-- `compareElementsEqual` does not ask which head is the greater.
abbrev pub never : ℕ → ℕ → Bool
never b a = false
