-- ===== src/Tree/Attach.antt =====
-- `attach` leaves no change waiting that could be attached, and does not run out of fuel (tree.go).
use any_sync.Common.{
  ℕ, zero, suc, ◌≡◌, refl, ap, inl, inr, Bool, true, false, List, [], ◌∷◌, ◌++◌, Option, none, some,
  ◌==◌, length, arith, Bool-cases, contains, ◌∙◌, ◌≤◌, ◌<◌, ==_refl,
}
use any_sync.Common.Assoc.{Assoc, get, delete, has_key, get-delete}
use any_sync.Tree.{
  Change, Tree, all_attached, Verdict, attaches, removes, waits, can_attach_or_remove, waiting,
  place, reconsider, release, forget_wait, attach,
}
use any_sync.Tree.Links.{has_key-links, links-place}
use any_sync.Tree.Closed.{attach-Progress, release-Progress}
use any_sync.Tree.Settled.{IsSettled, undeleted, place-IsSettled}

length-delete-le : {A : Type 0} (k : ℕ) (m : Assoc A) → length (delete k m) ≤ length m
unfolding delete
length-delete-le k [] = omega arith
length-delete-le k ((j, v) ∷ m) = ground (arith, length-delete-le k m)

length-delete-lt :
    {A : Type 0} (k : ℕ) (m : Assoc A) (v : A) → get k m ≡ some v → length (delete k m) < length m
unfolding delete get
length-delete-lt k [] v h = cc
length-delete-lt k ((j, w) ∷ m) v h = ground (arith, length-delete-le k m, length-delete-lt k m v)

-- A nested call, on a change that waits: it is no longer pending, and no more changes wait than before.
abbrev Settles : ℕ → (Tree → Change → Tree) → Type 0
Settles n f =
    (t : Tree) (c : Change) (pending : List ℕ)
    → get c.id t.un_attached ≡ some c
    → length t.un_attached ≤ n
    → can_attach_or_remove t.attached c ≡ attaches
    → IsSettled t (c.id ∷ pending)
    → IsSettled (f t c) pending × (length (f t c).un_attached ≤ length t.un_attached)

not_there :
    (t : Tree) (w : ℕ) (pending : List ℕ)
    → get w t.un_attached ≡ none
    → IsSettled t (w ∷ pending)
    → IsSettled t pending
unfolding contains
not_there t w pending gone s = record {
  keyed = s.keyed;
  waits_for = s.waits_for;
  blocked = λ v u h. elim (s.blocked v u h) [
    | inl lacking ↦ inl lacking
    | inr listed ↦ elim (Bool-cases (v == w)) [
      | inl hit ↦
          let e : v ≡ w = ground arith in
          let none_there : get v t.un_attached ≡ none = rw e gone in cc
      | inr miss ↦ inr (ground arith)
    ]
  ];
}

still_waits :
    (t : Tree) (c : Change) (pending : List ℕ)
    → get c.id t.un_attached ≡ some c
    → all_attached t.attached c.previous_ids ≡ false
    → IsSettled t (c.id ∷ pending)
    → IsSettled t pending
unfolding contains
still_waits t c pending there lacks s = record {
  keyed = s.keyed;
  waits_for = s.waits_for;
  blocked = λ v u h. elim (s.blocked v u h) [
    | inl lacking ↦ inl lacking
    | inr listed ↦ elim (Bool-cases (v == c.id)) [
      | inl hit ↦
          let e : v ≡ c.id = ground arith in
          let here : get v t.un_attached ≡ some c = rw e there in
          let same : u ≡ c = cc in inl (rw same lacks)
      | inr miss ↦ inr (ground arith)
    ]
  ];
}

removed :
    (t : Tree) (w : ℕ) (pending : List ℕ)
    → IsSettled t (w ∷ pending)
    → IsSettled (record t { un_attached = delete w t.un_attached }) pending
removed t w pending s =
    not_there (record t { un_attached = delete w t.un_attached }) w pending
      (rw (get-delete w w t.un_attached, ==_refl w) refl)
      (record {
        keyed = λ v u h. s.keyed v u (undeleted v w t.un_attached u h);
        waits_for = λ v p u h. s.waits_for v p u (undeleted v w t.un_attached u h);
        blocked = λ v u h. s.blocked v u (undeleted v w t.un_attached u h);
      })

pub lacks_of_waits :
    (m : Assoc Change) (c : Change)
    → can_attach_or_remove m c ≡ waits
    → all_attached m c.previous_ids ≡ false
unfolding can_attach_or_remove
lacks_of_waits m c h = ground arith

reconsider-IsSettled :
    (n : ℕ) (f : Tree → Change → Tree) (t : Tree) (c : Change) (pending : List ℕ) (v : Verdict)
    → Settles n f
    → get c.id t.un_attached ≡ some c
    → length t.un_attached ≤ n
    → can_attach_or_remove t.attached c ≡ v
    → IsSettled t (c.id ∷ pending)
    → let t' = elim v as (λ x. Tree) [
      | attaches ↦ f t c
      | removes ↦ record t { un_attached = delete c.id t.un_attached }
      | waits ↦ t
    ] in
      IsSettled t' pending × (length t'.un_attached ≤ length t.un_attached)
reconsider-IsSettled n f t c pending attaches p there small e s = p t c pending there small e s
reconsider-IsSettled n f t c pending removes p there small e s =
    (removed t c.id pending s, length-delete-le c.id t.un_attached)
reconsider-IsSettled n f t c pending waits p there small e s =
    (still_waits t c pending there (lacks_of_waits t.attached c e) s, omega arith)

round-IsSettled :
    (n : ℕ) (f : Tree → Change → Tree) (t : Tree) (w : ℕ) (pending : List ℕ) (o : Option Change)
    → Settles n f
    → get w t.un_attached ≡ o
    → length t.un_attached ≤ n
    → IsSettled t (w ∷ pending)
    → let t' = elim o as (λ x. Tree) [ none ↦ t | some next ↦ reconsider f t next ] in
      IsSettled t' pending × (length t'.un_attached ≤ length t.un_attached)
unfolding reconsider
round-IsSettled n f t w pending none p e small s = (not_there t w pending e s, omega arith)
round-IsSettled n f t w pending (some c) p e small s =
    let key : c.id ≡ w = s.keyed w c e in
    reconsider-IsSettled n f t c pending _ p (ap (λ x. get x t.un_attached) key ∙ e) small refl
      (rw key s)

release-IsSettled :
    (n : ℕ) (f : Tree → Change → Tree) (ws : List ℕ) (t : Tree) (pending : List ℕ)
    → Settles n f
    → length t.un_attached ≤ n
    → IsSettled t (ws ++ pending)
    → IsSettled (release f t ws) pending
      × (length (release f t ws).un_attached ≤ length t.un_attached)
unfolding release
release-IsSettled n f [] t pending p small s = (s, omega arith)
release-IsSettled n f (w ∷ ws) t pending p small s =
    let (s', fewer) =
      round-IsSettled n f t w (ws ++ pending) (get w t.un_attached) p refl small s in
    let (s'', fewest) = release-IsSettled n f ws _ pending p (omega arith) s' in (s'', omega arith)

-- Forgetting who waited for an attached change.
forget-IsSettled :
    (t : Tree) (id : ℕ) (pending : List ℕ)
    → has_key id t.attached ≡ true
    → IsSettled t pending
    → IsSettled (forget_wait id t) pending
forget-IsSettled t id pending there s = record {
  keyed = s.keyed;
  waits_for = λ w p u h listed absent. elim (Bool-cases (id == p)) [
    | inl hit ↦
        let e : id ≡ p = ground arith in
        let here : has_key p t.attached ≡ true = rw (← e) there in cc
    | inr miss ↦
        let same : get p (delete id t.wait_list) ≡ get p t.wait_list =
          rw (get-delete id p t.wait_list, miss) refl in
        rw same (s.waits_for w p u h listed absent)
  ];
  blocked = s.blocked;
}

placed_there :
    (t : Tree) (c : Change) (new_el : Bool) → has_key c.id (place t c new_el).attached ≡ true
placed_there t c new_el =
    rw (has_key-links c.id (place t c new_el).attached, links-place c.id t c new_el, ==_refl c.id)
      refl

taken_off : (t : Tree) (c : Change) → get c.id (place t c false).un_attached ≡ none
unfolding place
taken_off t c = rw (get-delete c.id c.id t.un_attached, ==_refl c.id) refl

fewer_wait :
    (t : Tree) (c : Change)
    → get c.id t.un_attached ≡ some c
    → length (place t c false).un_attached < length t.un_attached
unfolding place
fewer_wait t c there = length-delete-lt c.id t.un_attached c there

pub attach-IsSettled :
    (fuel : ℕ) (t : Tree) (c : Change) (new_el : Bool) (pending : List ℕ)
    → can_attach_or_remove t.attached c ≡ attaches
    → get c.id (place t c new_el).un_attached ≡ none
    → length (place t c new_el).un_attached < fuel
    → IsSettled t (c.id ∷ pending)
    → IsSettled (attach fuel t c new_el) pending
      × (length (attach fuel t c new_el).un_attached ≤ length (place t c new_el).un_attached)
unfolding attach
attach-IsSettled zero t c new_el pending ready gone small s = absurd (omega arith)
attach-IsSettled (suc fuel) t c new_el pending ready gone small s =
    let placed = place t c new_el in
    let list = waiting (get c.id t.wait_list) in
    let nested = λ (t' : Tree) (next : Change). attach fuel t' next false in
    let settles : Settles fuel nested = λ u d rest there few able waiting_set.
      let shrinks = fewer_wait u d there in
      let (set, le) =
        attach-IsSettled fuel u d false rest able (taken_off u d) (omega arith) waiting_set in
      (set, omega arith) in
    let (s', fewer) =
      release-IsSettled fuel nested list placed pending settles (omega arith)
        (place-IsSettled t c new_el pending gone s) in
    let there : has_key c.id placed.attached ≡ true = placed_there t c new_el in
    let still : has_key c.id (release nested placed list).attached ≡ true =
      (release-Progress nested list placed (λ u d e. attach-Progress fuel u d false e)).grows.keeps
        c.id there in
    (forget-IsSettled (release nested placed list) c.id pending still s', fewer)
