-- ===== src/Deletion.antt =====
-- Which objects of a space are to be deleted and which are (commonspace/deletionstate/deletionstate.go). The
-- lock only takes the calls one after another. The store of heads is an argument, by its update of
-- a status, which may fail; observers get the list that `add` returns.
pub mod Durable
pub mod Restart
mod Examples
use any_sync.Common.{
  ℕ, Bool, true, false, ◌||◌, List, [], ◌∷◌, ◌++◌, Option, none, some, ◌==◌, if◌then◌else◌,
  contains,
}

pub data DeletedStatus : Type 0 where
  status_not_deleted status_queued status_deleted : DeletedStatus

-- The maps `queued` and `deleted` are the lists of their keys.
pub record ObjectDeletionState : Type 0 where
  pub queued : List ℕ
  pub deleted : List ℕ

unfoldable pub exists : ObjectDeletionState → ℕ → Bool
unfolding contains
exists st id = contains id st.deleted || contains id st.queued

unfoldable pub filter_ids : ObjectDeletionState → List ℕ → List ℕ
unfolding exists
filter_ids st [] = []
filter_ids st (id ∷ ids) = if exists st id then filter_ids st ids else id ∷ filter_ids st ids

unfoldable pub remove_id : ℕ → List ℕ → List ℕ
remove_id id [] = []
remove_id id (x ∷ xs) = if id == x then remove_id id xs else x ∷ remove_id id xs

module _ {Store : Type 0} (update_status : ℕ → DeletedStatus → Store → Option Store) where
  -- One round of the loop of `Add`, with the id if it was added.
  unfoldable pub add_one : ObjectDeletionState → Store → ℕ → (ObjectDeletionState × Store) × List ℕ
  unfolding exists
  add_one st store id =
      if exists st id then ((st, store), []) else elim (update_status id status_queued store) [
        | none ↦ ((st, store), [])
        | some store' ↦ ((record st { queued = id ∷ st.queued }, store'), id ∷ [])
      ]

  unfoldable pub add : List ℕ → ObjectDeletionState → Store → (ObjectDeletionState × Store) × List ℕ
  unfolding add_one
  add [] st store = ((st, store), [])
  add (id ∷ ids) st store =
      let first = add_one st store id in
      let rest = add ids first.0.0 first.0.1 in (rest.0, first.1 ++ rest.1)

  -- `Delete`: the memory changes before the store, and false is the store's error.
  unfoldable pub delete : ℕ → ObjectDeletionState → Store → (ObjectDeletionState × Store) × Bool
  unfolding remove_id
  delete id st store =
      let st' : ObjectDeletionState = record {
        queued = remove_id id st.queued;
        deleted = id ∷ st.deleted;
      } in
      elim (update_status id status_deleted store) [
        | none ↦ ((st', store), false)
        | some store' ↦ ((st', store'), true)
      ]

  -- What the loop over orphaned children does for one that is not deleted.
  unfoldable pub queue_orphan : ObjectDeletionState → Store → ℕ → ObjectDeletionState × Store
  queue_orphan st store id = elim (update_status id status_queued store) [
    | none ↦ (st, store)
    | some store' ↦ (record st { queued = id ∷ st.queued }, store')
  ]

  unfoldable pub queue_orphans :
      List (ℕ × DeletedStatus) → ObjectDeletionState → Store → ObjectDeletionState × Store
  unfolding queue_orphan
  queue_orphans [] st store = (st, store)
  queue_orphans ((id, status_not_deleted) ∷ children) st store =
      let m = queue_orphan st store id in queue_orphans children m.0 m.1
  queue_orphans ((id, status_queued) ∷ children) st store = queue_orphans children st store
  queue_orphans ((id, status_deleted) ∷ children) st store = queue_orphans children st store

  -- The loop over the deleted parents; a parent whose children cannot be read is passed over.
  unfoldable pub queue_children :
      (ℕ → Store → Option (List (ℕ × DeletedStatus)))
      → List ℕ
      → ObjectDeletionState
      → Store
      → ObjectDeletionState × Store
  unfolding queue_orphans
  queue_children children_of [] st store = (st, store)
  queue_children children_of (parent ∷ parents) st store =
      let m : ObjectDeletionState × Store = elim (children_of parent store) [
        | none ↦ (st, store)
        | some children ↦ queue_orphans children st store
      ] in
      queue_children children_of parents m.0 m.1

-- The loop over the entries of the store that are marked.
unfoldable pub load : List (ℕ × DeletedStatus) → ObjectDeletionState → ObjectDeletionState
load [] st = st
load ((id, status_queued) ∷ entries) st = load entries (record st { queued = id ∷ st.queued })
load ((id, status_deleted) ∷ entries) st = load entries (record st { deleted = id ∷ st.deleted })
load ((id, status_not_deleted) ∷ entries) st = load entries st

-- `Run`, over the entries as `IterateEntries` gave them.
unfoldable pub run :
    {Store : Type 0}
    → (ℕ → DeletedStatus → Store → Option Store)
    → (ℕ → Store → Option (List (ℕ × DeletedStatus)))
    → List (ℕ × DeletedStatus)
    → Store
    → ObjectDeletionState × Store
unfolding queue_children load
run update_status children_of entries store =
    let st = load entries (record { queued = []; deleted = [] }) in
    queue_children update_status children_of st.deleted st store
