-- ===== src/Tree.antt =====
-- The tree of changes of an object (commonspace/object/tree/objecttree/tree.go): attaching a change
-- when all changes before it are there, and keeping it waiting until then. A change is known by its
-- id, a number, whose order is that of the strings; pointers to changes are ids.
pub mod Links
pub mod Grows
pub mod Closed
pub mod Settled
pub mod Attach
pub mod Waits
pub mod Complete
mod Examples
use any_sync.Common.{
  ℕ, zero, suc, Bool, true, false, not, ◌&&◌, ◌||◌, List, [], ◌∷◌, ◌++◌, Option, none, some, ◌==◌,
  leb, if◌then◌else◌, length, head_or, ◌+◌,
}
use any_sync.Common.Assoc.{Assoc, get, put, delete, has_key}
use any_sync.Common.Sort.{sort}

-- `Change`, without its content and the order id that the iterator gives it.
pub record Change : Type 0 where
  pub id : ℕ
  pub previous_ids : List ℕ
  pub snapshot_id : ℕ
  pub next : List ℕ
  pub previous : List ℕ
  pub snapshot_counter : ℕ

pub record Tree : Type 0 where
  pub root : Option ℕ
  pub attached : Assoc Change
  pub un_attached : Assoc Change
  pub wait_list : Assoc (List ℕ)
  pub possible_roots : List ℕ
  pub added_buf : List ℕ

-- The loop of `canAttachOrRemove`: whether all previous ids are attached.
unfoldable pub all_attached : Assoc Change → List ℕ → Bool
all_attached m [] = true
all_attached m (p ∷ ps) = has_key p m && all_attached m ps

abbrev pub waiting : Option (List ℕ) → List ℕ
waiting none = []
waiting (some ids) = ids

-- Its other work: the change waits for each previous id that is not attached.
unfoldable pub add_to_wait_list : Assoc Change → ℕ → List ℕ → Assoc (List ℕ) → Assoc (List ℕ)
add_to_wait_list m id [] wl = wl
add_to_wait_list m id (p ∷ ps) wl =
    add_to_wait_list m id ps (if has_key p m then wl else put p (waiting (get p wl) ++ id ∷ []) wl)

-- What `canAttachOrRemove` answers: attach, remove, or keep the change waiting.
pub data Verdict : Type 0 where
  attaches removes waits : Verdict

unfoldable pub can_attach_or_remove : Assoc Change → Change → Verdict
unfolding all_attached
can_attach_or_remove m c =
    if all_attached m c.previous_ids
    then if has_key c.snapshot_id m then attaches else removes
    else waits

-- `next` stays sorted: the id goes to the end, or before the first that is not less.
unfoldable pub insert_before : ℕ → List ℕ → List ℕ
insert_before id [] = id ∷ []
insert_before id (x ∷ xs) = if leb id x then id ∷ x ∷ xs else x ∷ insert_before id xs

abbrev pub last_or : ℕ → List ℕ → ℕ
last_or d [] = d
last_or d (x ∷ xs) = last_or x xs

unfoldable pub insert_next : ℕ → List ℕ → List ℕ
unfolding insert_before
insert_next id [] = id ∷ []
insert_next id (x ∷ xs) =
    if leb (last_or x xs) id then (x ∷ xs) ++ id ∷ [] else insert_before id (x ∷ xs)

-- The change becomes a next change of each change before it.
unfoldable pub add_next : ℕ → List ℕ → Assoc Change → Assoc Change
unfolding insert_next
add_next id [] m = m
add_next id (p ∷ ps) m = add_next id ps (elim (get p m) [
  | none ↦ m
  | some prev ↦ put p (record prev { next = insert_next id prev.next }) m
])

abbrev pub counter_of : Option Change → ℕ
counter_of none = 0
counter_of (some c) = c.snapshot_counter

-- The change as `attach` leaves it, given the attached changes with itself among them.
unfoldable pub counted : Assoc Change → Change → Change
counted m c = record c {
  previous = c.previous ++ c.previous_ids;
  snapshot_counter =
      if c.snapshot_counter == 0
      then counter_of (get c.snapshot_id (put c.id c m)) + 1
      else c.snapshot_counter;
}

-- `attach` up to the wait list.
unfoldable pub place : Tree → Change → Bool → Tree
unfolding counted add_next
place t c new_el = record t {
  attached = add_next c.id c.previous_ids (put c.id (counted t.attached c) t.attached);
  added_buf = t.added_buf ++ c.id ∷ [];
  un_attached = if new_el then t.un_attached else delete c.id t.un_attached;
  possible_roots =
      if c.snapshot_counter == 0 then t.possible_roots ++ c.id ∷ [] else t.possible_roots;
}

-- One round of the loop over the wait list, for a change that is not attached.
unfoldable pub reconsider : (Tree → Change → Tree) → Tree → Change → Tree
unfolding can_attach_or_remove
reconsider attach_waiting t next = elim (can_attach_or_remove t.attached next) [
  | attaches ↦ attach_waiting t next
  | removes ↦ record t { un_attached = delete next.id t.un_attached }
  | waits ↦ t
]

unfoldable pub release : (Tree → Change → Tree) → Tree → List ℕ → Tree
unfolding reconsider
release attach_waiting t [] = t
release attach_waiting t (w ∷ ws) =
    release attach_waiting
      (elim (get w t.un_attached) [ none ↦ t | some next ↦ reconsider attach_waiting t next ]) ws

abbrev pub forget_wait : ℕ → Tree → Tree
forget_wait id t = record t { wait_list = delete id t.wait_list }

-- `attach`. Each nested call takes a change off `un_attached`, so as much fuel as there are such changes,
-- and one more, is enough.
unfoldable pub attach : ℕ → Tree → Change → Bool → Tree
unfolding place release
attach zero t c new_el = t
attach (suc fuel) t c new_el = forget_wait c.id (
    release (λ t' next. attach fuel t' next false) (place t c new_el)
      (waiting (get c.id t.wait_list)))

unfoldable pub sorted : Change → Change
unfolding sort
sorted c = record c { previous_ids = sort c.previous_ids }

-- `add` once there is a root, for a change with its previous ids sorted.
unfoldable pub add_sorted : Tree → Change → Tree
unfolding attach can_attach_or_remove add_to_wait_list
add_sorted t c =
    let wl = add_to_wait_list t.attached c.id c.previous_ids t.wait_list in
    elim (can_attach_or_remove t.attached c) [
      | attaches ↦ attach (suc (length t.un_attached)) (record t { wait_list = wl }) c true
      | removes ↦ record t { wait_list = wl }
      | waits ↦ record t { wait_list = wl; un_attached = put c.id c t.un_attached }
    ]

unfoldable pub add : Tree → Change → Tree
unfolding add_sorted sorted
add t c = elim t.root [
  | none ↦ record {
    root = some c.id;
    attached = put c.id c [];
    un_attached = [];
    wait_list = [];
    possible_roots = [];
    added_buf = t.added_buf ++ c.id ∷ [];
  }
  | some r ↦ add_sorted t (sorted c)
]

-- The loop of `AddFast` and `Add`, which pass over the changes that are there.
unfoldable pub add_changes : Tree → List Change → Tree
unfolding add
add_changes t [] = t
add_changes t (c ∷ cs) =
    add_changes
      (elim (has_key c.id t.attached || has_key c.id t.un_attached) [ true ↦ t | false ↦ add t c ])
      cs

abbrev pub clear_unattached : Tree → Tree
clear_unattached t = record t { un_attached = [] }

-- `AddFast`, but for `updateHeads`, which changes neither map.
unfoldable pub add_fast : Tree → List Change → Tree
unfolding add_changes
add_fast t [] = t
add_fast t (c ∷ cs) = clear_unattached (add_changes (record t { added_buf = [] }) (c ∷ cs))
