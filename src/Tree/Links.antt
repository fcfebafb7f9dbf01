-- ===== src/Tree/Links.antt =====
-- What of the attached changes stays when a change is attached (tree.go).
use any_sync.Common.{
  ℕ, ◌≡◌, refl, inl, inr, Bool, true, false, List, [], ◌∷◌, Option, none, some, ◌==◌, if◌then◌else◌,
  arith, Bool-cases, Option-cases, ◌∙◌,
}
use any_sync.Common.Assoc.{Assoc, get, put, has_key, get-put}
use any_sync.Tree.{Change, Tree, add_next, insert_next, counted, place}

-- What of a change stays: its id, the ids before it, its snapshot.
abbrev pub Links : Type 0
Links = ℕ × List ℕ × ℕ

abbrev pub links_of : Option Change → Option Links
links_of none = none
links_of (some c) = some (c.id, c.previous_ids, c.snapshot_id)

abbrev pub links : ℕ → Assoc Change → Option Links
links w m = links_of (get w m)

abbrev pub is_there : Option Links → Bool
is_there none = false
is_there (some l) = true

pub has_key-links : (w : ℕ) (m : Assoc Change) → has_key w m ≡ is_there (links w m)
unfolding has_key
has_key-links w m = elim (Option-cases (get w m)) [
  | inl nothing ↦ rw (nothing, has_key) refl
  | inr (c, something) ↦ rw (something, has_key) refl
]

pub links-put :
    (w k : ℕ) (c : Change) (m : Assoc Change)
    → links w (put k c m) ≡ (if k == w then links_of (some c) else links w m)
links-put w k c m = elim (Bool-cases (k == w)) [
  | inl hit ↦ rw (get-put k w c m, hit) refl
  | inr miss ↦ rw (get-put k w c m, miss) refl
]

links-put_same :
    (w k : ℕ) (c d : Change) (m : Assoc Change)
    → get k m ≡ some d
    → links_of (some c) ≡ links_of (some d)
    → links w (put k c m) ≡ links w m
links-put_same w k c d m found same = elim (Bool-cases (k == w)) [
  | inl hit ↦ let e : k ≡ w = ground arith in rw (links-put w k c m, hit, ← e, found) same
  | inr miss ↦ rw (links-put w k c m, miss) refl
]

links_of_step :
    (w id p : ℕ) (m : Assoc Change) (o : Option Change)
    → get p m ≡ o
    → links w (elim o as (λ x. Assoc Change) [
      | none ↦ m
      | some prev ↦ put p (record prev { next = insert_next id prev.next }) m
    ])
      ≡ links w m
links_of_step w id p m none found = refl
links_of_step w id p m (some prev) found = links-put_same w p _ prev m found refl

pub links-add_next :
    (w id : ℕ) (ps : List ℕ) (m : Assoc Change) → links w (add_next id ps m) ≡ links w m
unfolding add_next
links-add_next w id [] m = refl
links-add_next w id (p ∷ ps) m = links-add_next w id ps _ ∙ links_of_step w id p m (get p m) refl

-- Placing a change adds its links, and changes no other's.
pub links-place :
    (w : ℕ) (t : Tree) (c : Change) (new_el : Bool)
    → links w (place t c new_el).attached
      ≡ (if c.id == w then links_of (some c) else links w t.attached)
unfolding place counted
links-place w t c new_el = links-add_next w c.id c.previous_ids _ ∙ links-put w c.id _ t.attached
