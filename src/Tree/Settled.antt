-- ===== src/Tree/Settled.antt =====
-- What waits for what (tree.go).
use any_sync.Common.{
  ℕ, ◌≡◌, refl, ◌⊎◌, inl, inr, Bool, true, false, ◌||◌, List, [], ◌∷◌, ◌++◌, none, some, ◌==◌,
  arith, Bool-cases, contains, ==_refl,
}
use any_sync.Common.Assoc.{Assoc, get, delete, has_key, get-delete}
use any_sync.Tree.{Change, Tree, all_attached, waiting, place}
use any_sync.Tree.Links.{has_key-links, links-place}
use any_sync.Tree.Grows.{Grows, place-Grows}

-- Each waiting change is on the list of every change before it that is not attached; and one that could be
-- attached is among the `pending` ones, which are still to be looked at.
pub record IsSettled (t : Tree) (pending : List ℕ) : Type 0 where
  pub keyed : (w : ℕ) (u : Change) → get w t.un_attached ≡ some u → u.id ≡ w
  pub waits_for :
      (w p : ℕ) (u : Change)
      → get w t.un_attached ≡ some u
      → contains p u.previous_ids ≡ true
      → has_key p t.attached ≡ false
      → contains w (waiting (get p t.wait_list)) ≡ true
  pub blocked :
      (w : ℕ) (u : Change)
      → get w t.un_attached ≡ some u
      → (all_attached t.attached u.previous_ids ≡ false) ⊎ (contains w pending ≡ true)

pub contains-append :
    (k : ℕ) (xs ys : List ℕ) → contains k (xs ++ ys) ≡ (contains k xs || contains k ys)
unfolding contains
contains-append k [] ys = refl
contains-append k (x ∷ xs) ys = ground (arith, contains-append k xs ys)

-- If not all are attached, one of them is not.
pub missing :
    (m : Assoc Change) (ps : List ℕ)
    → all_attached m ps ≡ false
    → (p : ℕ) × (contains p ps ≡ true) × (has_key p m ≡ false)
unfolding all_attached contains
missing m [] h = cc
missing m (p ∷ ps) h = elim (Bool-cases (has_key p m)) [
  | inl there ↦
      let (q, listed, absent) = missing m ps (ground arith) in (q, rw listed (ground arith), absent)
  | inr absent ↦ (p, rw (==_refl p) refl, absent)
]

-- A change that was missing and is not is the one that was placed.
placed_only :
    (t : Tree) (c : Change) (new_el : Bool) (p : ℕ)
    → has_key p t.attached ≡ false
    → has_key p (place t c new_el).attached ≡ true
    → c.id ≡ p
placed_only t c new_el p before after = elim (Bool-cases (c.id == p)) [
  | inl hit ↦ ground arith
  | inr miss ↦
      let same : has_key p (place t c new_el).attached ≡ has_key p t.attached =
        rw
          (
            has_key-links p (place t c new_el).attached,
            links-place p t c new_el,
            miss,
            has_key-links p t.attached,
          )
          refl in
      cc
]

all_attached-listed :
    (m : Assoc Change) (ps : List ℕ) (p : ℕ)
    → all_attached m ps ≡ true
    → contains p ps ≡ true
    → has_key p m ≡ true
unfolding all_attached contains
all_attached-listed m [] p h listed = cc
all_attached-listed m (q ∷ ps) p h listed = elim (Bool-cases (p == q)) [
  | inl hit ↦ let e : p ≡ q = ground arith in rw e (ground arith)
  | inr miss ↦ all_attached-listed m ps p (ground arith) (ground arith)
]

pub undeleted {ℓ} :
    {A : Type ℓ} (w k : ℕ) (m : Assoc A) (u : A) → get w (delete k m) ≡ some u → get w m ≡ some u
undeleted w k m u h = elim (Bool-cases (k == w)) [
  | inl hit ↦ let gone : get w (delete k m) ≡ none = rw (get-delete k w m, hit) refl in cc
  | inr miss ↦ let same : get w (delete k m) ≡ get w m = rw (get-delete k w m, miss) refl in cc
]

pub still_absent :
    {t t' : Tree} (p : ℕ)
    → Grows t t'
    → has_key p t'.attached ≡ false
    → has_key p t.attached ≡ false
still_absent {t} p g h = elim (Bool-cases (has_key p t.attached)) [
  | inl there ↦ let kept = g.keeps p there in cc
  | inr absent ↦ absent
]

unplaced :
    (t : Tree) (c : Change) (new_el : Bool) (w : ℕ) (u : Change)
    → get w (place t c new_el).un_attached ≡ some u
    → get w t.un_attached ≡ some u
unfolding place
unplaced t c true w u h = h
unplaced t c false w u h = undeleted w c.id t.un_attached u h

place-blocked :
    (t : Tree) (c : Change) (new_el : Bool) (pending : List ℕ) (w : ℕ) (u : Change)
    → get c.id (place t c new_el).un_attached ≡ none
    → get w (place t c new_el).un_attached ≡ some u
    → get w t.un_attached ≡ some u
    → (all_attached t.attached u.previous_ids ≡ false) ⊎ (contains w (c.id ∷ pending) ≡ true)
    → (contains c.id u.previous_ids ≡ true
        → has_key c.id t.attached ≡ false
        → contains w (waiting (get c.id t.wait_list)) ≡ true)
    → (all_attached (place t c new_el).attached u.previous_ids ≡ false)
      ⊎ (contains w (waiting (get c.id t.wait_list) ++ pending) ≡ true)
unfolding contains
place-blocked t c new_el pending w u gone h before (inr listed) on_list =
    elim (Bool-cases (w == c.id)) [
      | inl hit ↦
          let e : w ≡ c.id = ground arith in
          let none_there : get w (place t c new_el).un_attached ≡ none = rw e gone in cc
      | inr miss ↦
          inr (rw (contains-append w (waiting (get c.id t.wait_list)) pending) (ground arith))
    ]
place-blocked t c new_el pending w u gone h before (inl lacking) on_list =
    elim (Bool-cases (all_attached (place t c new_el).attached u.previous_ids)) [
      | inr still ↦ inl still
      | inl complete ↦
          let (p, listed, absent) = missing t.attached u.previous_ids lacking in
          let now : has_key p (place t c new_el).attached ≡ true =
            all_attached-listed _ u.previous_ids p complete listed in
          let e : c.id ≡ p = placed_only t c new_el p absent now in
          let waits_here : contains w (waiting (get c.id t.wait_list)) ≡ true =
            on_list (rw e listed) (rw e absent) in
          inr (rw (contains-append w (waiting (get c.id t.wait_list)) pending, waits_here) refl)
    ]

-- Placing a change that was pending, and no longer waits, makes those on its list pending.
pub place-IsSettled :
    (t : Tree) (c : Change) (new_el : Bool) (pending : List ℕ)
    → get c.id (place t c new_el).un_attached ≡ none
    → IsSettled t (c.id ∷ pending)
    → IsSettled (place t c new_el) (waiting (get c.id t.wait_list) ++ pending)
unfolding place
place-IsSettled t c new_el pending gone s =
    let g = place-Grows t c new_el in
    record {
      keyed = λ w u h. s.keyed w u (unplaced t c new_el w u h);
      waits_for = λ w p u h listed absent.
          s.waits_for w p u (unplaced t c new_el w u h) listed (still_absent p g absent);
      blocked = λ w u h.
          place-blocked t c new_el pending w u gone h (unplaced t c new_el w u h)
            (s.blocked w u (unplaced t c new_el w u h))
            (s.waits_for w c.id u (unplaced t c new_el w u h));
    }
