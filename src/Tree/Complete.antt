-- ===== src/Tree/Complete.antt =====
-- Adding changes leaves no change waiting that could be attached (tree.go).
use any_sync.Common.{
  ℕ, suc, ◌≡◌, refl, ap, inl, inr, Bool, true, false, ◌||◌, List, [], ◌∷◌, none, length, arith,
  Option-cases, ◌∙◌,
}
use any_sync.Common.Assoc.{get, put, has_key}
use any_sync.Tree.{
  Change, Tree, add_to_wait_list, Verdict, attaches, removes, waits, can_attach_or_remove, attach,
  add_sorted, sorted, add, add_changes,
}
use any_sync.Tree.Settled.{IsSettled}
use any_sync.Tree.Attach.{attach-IsSettled, lacks_of_waits}
use any_sync.Tree.Waits.{
  waiting-IsSettled, more_pending, kept-IsSettled, none_of_has_key, same_unplaced,
}

add_sorted-IsSettled :
    (t : Tree) (c : Change) (v : Verdict)
    → has_key c.id t.un_attached ≡ false
    → can_attach_or_remove t.attached c ≡ v
    → IsSettled t []
    → let wl = add_to_wait_list t.attached c.id c.previous_ids t.wait_list in
      IsSettled
        (elim v as (λ x. Tree) [
          | attaches ↦ attach (suc (length t.un_attached)) (record t { wait_list = wl }) c true
          | removes ↦ record t { wait_list = wl }
          | waits ↦ record t { wait_list = wl; un_attached = put c.id c t.un_attached }
        ])
        []
add_sorted-IsSettled t c attaches new e s =
    let t' = record t { wait_list = add_to_wait_list t.attached c.id c.previous_ids t.wait_list } in
    (attach-IsSettled (suc (length t.un_attached)) t' c true [] e
      (ap (get c.id) (same_unplaced t' c) ∙ none_of_has_key c.id t.un_attached new)
      (omega (arith, ap length (same_unplaced t' c)))
      (more_pending t' c.id [] (waiting-IsSettled t c s))).0
add_sorted-IsSettled t c removes new e s = waiting-IsSettled t c s
add_sorted-IsSettled t c waits new e s = kept-IsSettled t c (lacks_of_waits t.attached c e) s

empty-IsSettled : (t : Tree) → t.un_attached ≡ [] → IsSettled t []
unfolding get
empty-IsSettled t e =
    let nothing : (w : ℕ) → get w t.un_attached ≡ none = λ w. rw e refl in
    record {
      keyed = λ w u h. let gone = nothing w in cc;
      waits_for = λ w p u h. let gone = nothing w in cc;
      blocked = λ w u h. let gone = nothing w in cc;
    }

add-IsSettled :
    (t : Tree) (c : Change)
    → has_key c.id t.un_attached ≡ false
    → IsSettled t []
    → IsSettled (add t c) []
unfolding add add_sorted sorted
add-IsSettled t c new s = elim (Option-cases t.root) [
  | inl empty ↦ rw (empty, add) (empty-IsSettled _ refl)
  | inr (r, there) ↦ rw (there, add) (add_sorted-IsSettled t (sorted c) _ new refl s)
]

add_new-IsSettled :
    (t : Tree) (c : Change) (known : Bool)
    → (has_key c.id t.attached || has_key c.id t.un_attached) ≡ known
    → IsSettled t []
    → IsSettled (elim known as (λ x. Tree) [ true ↦ t | false ↦ add t c ]) []
add_new-IsSettled t c true e s = s
add_new-IsSettled t c false e s = add-IsSettled t c (ground arith) s

-- If no waiting change could be attached before, then none can be after any changes are added, in any
-- order: each one that still waits lacks a change before it. So the fuel of `attach` is enough.
pub add_changes-IsSettled :
    (cs : List Change) (t : Tree) → IsSettled t [] → IsSettled (add_changes t cs) []
unfolding add_changes
add_changes-IsSettled [] t s = s
add_changes-IsSettled (c ∷ cs) t s = add_changes-IsSettled cs _ (add_new-IsSettled t c _ refl s)
