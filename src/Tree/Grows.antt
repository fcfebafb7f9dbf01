-- ===== src/Tree/Grows.antt =====
-- One change attached on others (tree.go).
use any_sync.Common.{
  ℕ, ◌≡◌, refl, ◌⊎◌, inl, inr, Bool, true, List, [], ◌∷◌, Option, none, some, ◌==◌, arith,
  Bool-cases, ◌∙◌,
}
use any_sync.Common.Assoc.{Assoc, has_key}
use any_sync.Tree.{Change, Tree, all_attached, attaches, can_attach_or_remove, place}
use any_sync.Tree.Links.{Links, links_of, links, has_key-links, links-place}

-- What is attached stays attached, and the root stays.
pub record Grows (t t' : Tree) : Type 0 where
  pub keeps : (w : ℕ) → has_key w t.attached ≡ true → has_key w t'.attached ≡ true
  pub root : t'.root ≡ t.root

pub Grows-refl : (t : Tree) → Grows t t
Grows-refl t = record { keeps = λ w h. h; root = refl }

pub Grows-trans : {t u v : Tree} → Grows t u → Grows u v → Grows t v
Grows-trans a b = record { keeps = λ w h. b.keeps w (a.keeps w h); root = b.root ∙ a.root }

-- Only `attached` and the root count.
pub Grows-same : {t u v : Tree} → v.attached ≡ u.attached → v.root ≡ u.root → Grows t u → Grows t v
Grows-same e r g = record { keeps = λ w h. rw e (g.keeps w h); root = r ∙ g.root }

pub all_attached-Grows :
    {t t' : Tree} (ps : List ℕ)
    → Grows t t'
    → all_attached t.attached ps ≡ true
    → all_attached t'.attached ps ≡ true
unfolding all_attached
all_attached-Grows [] g h = refl
all_attached-Grows {t} {t'} (p ∷ ps) g h =
    let here : has_key p t'.attached ≡ true = g.keeps p (ground arith) in
    let rest : all_attached t'.attached ps ≡ true = all_attached-Grows ps g (ground arith) in
    rw (here, rest) refl

pub place-Grows : (t : Tree) (c : Change) (new_el : Bool) → Grows t (place t c new_el)
place-Grows t c new_el = record {
  keeps = λ w h.
      rw (has_key-links w (place t c new_el).attached, links-place w t c new_el)
        (elim (Bool-cases (c.id == w)) [
          | inl hit ↦ rw hit refl
          | inr miss ↦ rw (miss, ← has_key-links w t.attached) h
        ]);
  root = unfold place in refl;
}

-- Every attached change but the root stands on attached changes: those before it, and its snapshot.
abbrev pub StandsOn : Assoc Change → Option Links → Type 0
StandsOn m none = Unit
StandsOn m (some (i, ps, s)) = (all_attached m ps ≡ true) × (has_key s m ≡ true)

pub record IsClosed (t : Tree) : Type 0 where
  pub closed : (w : ℕ) → (t.root ≡ some w) ⊎ StandsOn t.attached (links w t.attached)

pub StandsOn-Grows :
    {t t' : Tree} (l : Option Links) → Grows t t' → StandsOn t.attached l → StandsOn t'.attached l
StandsOn-Grows none g h = tt
StandsOn-Grows (some (i, ps, s)) g h = (all_attached-Grows ps g h.0, g.keeps s h.1)

pub can_attach-parts :
    (m : Assoc Change) (c : Change)
    → can_attach_or_remove m c ≡ attaches
    → (all_attached m c.previous_ids ≡ true) × (has_key c.snapshot_id m ≡ true)
unfolding can_attach_or_remove
can_attach-parts m c h = ground arith

pub place-IsClosed :
    (t : Tree) (c : Change) (new_el : Bool)
    → can_attach_or_remove t.attached c ≡ attaches
    → IsClosed t
    → IsClosed (place t c new_el)
place-IsClosed t c new_el ready h =
    let g = place-Grows t c new_el in
    record {
      closed = λ w. elim (Bool-cases (c.id == w)) [
        | inl hit ↦ inr (
            rw (links-place w t c new_el, hit)
              (StandsOn-Grows (links_of (some c)) g (can_attach-parts t.attached c ready)))
        | inr miss ↦ elim (h.closed w) [
          | inl is_root ↦ inl (g.root ∙ is_root)
          | inr stands ↦
              inr
                (rw (links-place w t c new_el, miss) (StandsOn-Grows (links w t.attached) g stands))
        ]
      ];
    }
