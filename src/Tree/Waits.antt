-- ===== src/Tree/Waits.antt =====
-- A change that is new: the wait lists that it joins (tree.go).
use any_sync.Common.{
  ℕ, ◌≡◌, refl, sym, ap, ◌⊎◌, inl, inr, true, false, List, [], ◌∷◌, ◌++◌, none, some, ◌==◌, arith,
  Bool-cases, Option-cases, contains, ◌∙◌, ==_refl,
}
use any_sync.Common.Assoc.{Assoc, get, put, has_key, get-put}
use any_sync.Tree.{Change, Tree, all_attached, add_to_wait_list, waiting, place}
use any_sync.Tree.Settled.{IsSettled, contains-append}

contains-last : (w : ℕ) (xs : List ℕ) → contains w (xs ++ w ∷ []) ≡ true
unfolding contains
contains-last w xs = rw (contains-append w xs (w ∷ []), ==_refl w) (ground arith)

-- One entry more on one list.
entry_kept :
    (id p q w : ℕ) (wl : Assoc (List ℕ))
    → contains w (waiting (get p wl)) ≡ true
    → contains w (waiting (get p (put q (waiting (get q wl) ++ id ∷ []) wl))) ≡ true
entry_kept id p q w wl h = elim (Bool-cases (q == p)) [
  | inl hit ↦
      let e : q ≡ p = ground arith in
      rw
        (
          get-put q p (waiting (get q wl) ++ id ∷ []) wl,
          hit,
          contains-append w (waiting (get q wl)) (id ∷ []),
          e,
          h,
        )
        refl
  | inr miss ↦ rw (get-put q p (waiting (get q wl) ++ id ∷ []) wl, miss) h
]

entry_made :
    (id p : ℕ) (wl : Assoc (List ℕ))
    → contains id (waiting (get p (put p (waiting (get p wl) ++ id ∷ []) wl))) ≡ true
entry_made id p wl =
    rw (get-put p p (waiting (get p wl) ++ id ∷ []) wl, ==_refl p)
      (contains-last id (waiting (get p wl)))

on_wait_list :
    (m : Assoc Change) (id p w : ℕ) (ps : List ℕ) (wl : Assoc (List ℕ))
    → contains w (waiting (get p wl)) ≡ true
    → contains w (waiting (get p (add_to_wait_list m id ps wl))) ≡ true
unfolding add_to_wait_list
on_wait_list m id p w [] wl h = h
on_wait_list m id p w (q ∷ ps) wl h = elim (Bool-cases (has_key q m)) [
  | inl there ↦ rw there (on_wait_list m id p w ps wl h)
  | inr lacks ↦ rw lacks (on_wait_list m id p w ps _ (entry_kept id p q w wl h))
]

joins_wait_list :
    (m : Assoc Change) (id p : ℕ) (ps : List ℕ) (wl : Assoc (List ℕ))
    → contains p ps ≡ true
    → has_key p m ≡ false
    → contains id (waiting (get p (add_to_wait_list m id ps wl))) ≡ true
unfolding add_to_wait_list contains
joins_wait_list m id p [] wl listed absent = cc
joins_wait_list m id p (q ∷ ps) wl listed absent = elim (Bool-cases (p == q)) [
  | inl hit ↦
      let e : p ≡ q = ground arith in
      rw (← e, absent) (on_wait_list m id p id ps _ (entry_made id p wl))
  | inr miss ↦ joins_wait_list m id p ps _ (ground arith) absent
]

-- A change that is new, with the wait lists extended by it.
pub waiting-IsSettled :
    (t : Tree) (c : Change)
    → IsSettled t []
    → IsSettled
        (record t { wait_list = add_to_wait_list t.attached c.id c.previous_ids t.wait_list })
        []
waiting-IsSettled t c s = record {
  keyed = s.keyed;
  waits_for = λ w p u h listed absent.
      on_wait_list t.attached c.id p w c.previous_ids t.wait_list
        (s.waits_for w p u h listed absent);
  blocked = s.blocked;
}

pub more_pending :
    (t : Tree) (w : ℕ) (pending : List ℕ) → IsSettled t pending → IsSettled t (w ∷ pending)
unfolding contains
more_pending t w pending s = record {
  keyed = s.keyed;
  waits_for = s.waits_for;
  blocked = λ v u h. elim (s.blocked v u h) [
    | inl lacking ↦ inl lacking
    | inr listed ↦ inr (rw listed (ground arith))
  ];
}

get_of_put :
    {A : Type 0} (w k : ℕ) (v : A) (m : Assoc A) (u : A)
    → get w (put k v m) ≡ some u
    → ((w ≡ k) × (v ≡ u)) ⊎ (get w m ≡ some u)
get_of_put w k v m u h = elim (Bool-cases (k == w)) [
  | inl hit ↦
      let now : get w (put k v m) ≡ some v = rw (get-put k w v m, hit) refl in
      let same : v ≡ u = cc in inl (ground arith, same)
  | inr miss ↦
      let as_before : get w (put k v m) ≡ get w m = rw (get-put k w v m, miss) refl in
      inr (sym as_before ∙ h)
]

pub kept-IsSettled :
    (t : Tree) (c : Change)
    → all_attached t.attached c.previous_ids ≡ false
    → IsSettled t []
    → IsSettled
        (record t {
          wait_list = add_to_wait_list t.attached c.id c.previous_ids t.wait_list;
          un_attached = put c.id c t.un_attached;
        })
        []
kept-IsSettled t c lacks s = record {
  keyed = λ w u h. elim (get_of_put w c.id c t.un_attached u h) [
    | inl (e, same) ↦ ap (λ x. x.id) (sym same) ∙ sym e
    | inr old ↦ s.keyed w u old
  ];
  waits_for = λ w p u h listed absent. elim (get_of_put w c.id c t.un_attached u h) [
    | inl (e, same) ↦
        let listed_there : contains p c.previous_ids ≡ true =
          ap (λ x. contains p x.previous_ids) same ∙ listed in
        let joined =
          joins_wait_list t.attached c.id p c.previous_ids t.wait_list listed_there absent in
        ap
          (λ x.
            contains x
              (waiting (get p (add_to_wait_list t.attached c.id c.previous_ids t.wait_list))))
          e
        ∙ joined
    | inr old ↦
        on_wait_list t.attached c.id p w c.previous_ids t.wait_list
          (s.waits_for w p u old listed absent)
  ];
  blocked = λ w u h. elim (get_of_put w c.id c t.un_attached u h) [
    | inl (e, same) ↦ inl (ap (λ x. all_attached t.attached x.previous_ids) (sym same) ∙ lacks)
    | inr old ↦ s.blocked w u old
  ];
}

pub none_of_has_key : {A : Type 0} (k : ℕ) (m : Assoc A) → has_key k m ≡ false → get k m ≡ none
unfolding has_key
none_of_has_key k m h = elim (Option-cases (get k m)) [
  | inl nothing ↦ nothing
  | inr (v, something) ↦ let there : has_key k m ≡ true = rw (something, has_key) refl in cc
]

pub same_unplaced : (t : Tree) (c : Change) → (place t c true).un_attached ≡ t.un_attached
unfolding place
same_unplaced t c = refl
