-- ===== src/Tree/Closed.antt =====
-- Attached changes stand on attached changes (tree.go): the changes before one, and its snapshot.
use any_sync.Common.{
  ℕ, zero, suc, ◌≡◌, refl, ap, ◌⊎◌, inl, inr, Bool, true, false, List, [], ◌∷◌, Option, none, some,
  ◌==◌, length, arith, Bool-cases, Option-cases,
}
use any_sync.Common.Assoc.{Assoc, get, put, delete}
use any_sync.Tree.{
  Change, Tree, Verdict, attaches, removes, waits, can_attach_or_remove, waiting, place, reconsider,
  release, attach, add_sorted, sorted, add, add_changes,
}
use any_sync.Tree.Links.{links, links-put}
use any_sync.Tree.Grows.{
  Grows, Grows-refl, Grows-trans, Grows-same, place-Grows, StandsOn, IsClosed, place-IsClosed,
}

-- Both at once.
pub record Progress (t t' : Tree) : Type 0 where
  pub grows : Grows t t'
  pub closed : IsClosed t → IsClosed t'

Progress-refl : (t : Tree) → Progress t t
Progress-refl t = record { grows = Grows-refl t; closed = λ h. h }

Progress-trans : {t u v : Tree} → Progress t u → Progress u v → Progress t v
Progress-trans a b = record {
  grows = Grows-trans a.grows b.grows;
  closed = λ h. b.closed (a.closed h);
}

Progress-same : {t u : Tree} → u.attached ≡ t.attached → u.root ≡ t.root → Progress t u
Progress-same e r = record {
  grows = Grows-same e r (Grows-refl _);
  closed = λ h. record { closed = λ w. rw (e, r) (h.closed w) };
}

-- What the nested call is assumed to do.
abbrev Proceeds : (Tree → Change → Tree) → Type 0
Proceeds f =
    (t : Tree) (c : Change) → can_attach_or_remove t.attached c ≡ attaches → Progress t (f t c)

reconsider-Progress :
    (f : Tree → Change → Tree) (t : Tree) (c : Change) (v : Verdict)
    → Proceeds f
    → can_attach_or_remove t.attached c ≡ v
    → Progress t (elim v as (λ x. Tree) [
      | attaches ↦ f t c
      | removes ↦ record t { un_attached = delete c.id t.un_attached }
      | waits ↦ t
    ])
reconsider-Progress f t c attaches p e = p t c e
reconsider-Progress f t c removes p e = Progress-same refl refl
reconsider-Progress f t c waits p e = Progress-refl t

round-Progress :
    (f : Tree → Change → Tree) (t : Tree) (o : Option Change)
    → Proceeds f
    → Progress t (elim o as (λ x. Tree) [ none ↦ t | some next ↦ reconsider f t next ])
unfolding reconsider
round-Progress f t none p = Progress-refl t
round-Progress f t (some next) p = reconsider-Progress f t next _ p refl

pub release-Progress :
    (f : Tree → Change → Tree) (ws : List ℕ) (t : Tree) → Proceeds f → Progress t (release f t ws)
unfolding release
release-Progress f [] t p = Progress-refl t
release-Progress f (w ∷ ws) t p =
    Progress-trans (round-Progress f t (get w t.un_attached) p) (release-Progress f ws _ p)

pub attach-Progress :
    (fuel : ℕ) (t : Tree) (c : Change) (new_el : Bool)
    → can_attach_or_remove t.attached c ≡ attaches
    → Progress t (attach fuel t c new_el)
unfolding attach
attach-Progress zero t c new_el ready = Progress-refl t
attach-Progress (suc fuel) t c new_el ready =
    let placed : Progress t (place t c new_el) = record {
      grows = place-Grows t c new_el;
      closed = place-IsClosed t c new_el ready;
    } in
    Progress-trans placed (
      Progress-trans
        (release-Progress (λ t' next. attach fuel t' next false) (waiting (get c.id t.wait_list)) _
          (λ u d e. attach-Progress fuel u d false e))
        (Progress-same refl refl))

add_sorted-Progress :
    (t : Tree) (c : Change) (v : Verdict) (wl : Assoc (List ℕ))
    → can_attach_or_remove t.attached c ≡ v
    → Progress t (elim v as (λ x. Tree) [
      | attaches ↦ attach (suc (length t.un_attached)) (record t { wait_list = wl }) c true
      | removes ↦ record t { wait_list = wl }
      | waits ↦ record t { wait_list = wl; un_attached = put c.id c t.un_attached }
    ])
add_sorted-Progress t c attaches wl e =
    Progress-trans (Progress-same refl refl)
      (attach-Progress _ (record t { wait_list = wl }) c true e)
add_sorted-Progress t c removes wl e = Progress-same refl refl
add_sorted-Progress t c waits wl e = Progress-same refl refl

root_alone :
    (w : ℕ) (c : Change) → (some c.id ≡ some w) ⊎ StandsOn (put c.id c []) (links w (put c.id c []))
unfolding get
root_alone w c = elim (Bool-cases (c.id == w)) [
  | inl hit ↦ let e : c.id ≡ w = ground arith in inl (ap some e)
  | inr miss ↦ inr (rw (links-put w c.id c [], miss) tt)
]

add-IsClosed : (t : Tree) (c : Change) → IsClosed t → IsClosed (add t c)
unfolding add add_sorted
add-IsClosed t c h = elim (Option-cases t.root) [
  | inl empty ↦ rw (empty, add) (record { closed = λ w. root_alone w c })
  | inr (r, there) ↦ rw (there, add) ((add_sorted-Progress t (sorted c) _ _ refl).closed h)
]

add_new-IsClosed :
    (t : Tree) (c : Change) (known : Bool)
    → IsClosed t
    → IsClosed (elim known as (λ x. Tree) [ true ↦ t | false ↦ add t c ])
add_new-IsClosed t c true h = h
add_new-IsClosed t c false h = add-IsClosed t c h

-- Adding changes, in any order and with any links between them, leaves every attached change but the
-- root standing on attached changes: those before it, and its snapshot.
pub add_changes-IsClosed : (cs : List Change) (t : Tree) → IsClosed t → IsClosed (add_changes t cs)
unfolding add_changes
add_changes-IsClosed [] t h = h
add_changes-IsClosed (c ∷ cs) t h = add_changes-IsClosed cs _ (add_new-IsClosed t c _ h)
