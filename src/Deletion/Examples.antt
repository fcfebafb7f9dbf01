-- ===== src/Deletion/Examples.antt =====
-- Two objects queued, one of them deleted, and one that the store refuses.
use any_sync.Common.{
  ℕ, ◌≡◌, refl, sym, ap, inl, inr, true, false, List, [], ◌∷◌, Option, none, some, ◌==◌,
  if◌then◌else◌, contains, Bool-cases, ◌∙◌,
}
use any_sync.Common.Assoc.{Assoc, get, put, get-put}
use any_sync.Deletion.{
  DeletedStatus, status_not_deleted, status_deleted, ObjectDeletionState, add, delete, run,
}
use any_sync.Deletion.Durable.{
  Request, adding, deleting, Updates, handle_all, IsDurable, handle_all-IsDurable,
}
use any_sync.Deletion.Restart.{True, run-IsDurable}

abbrev Store : Type 0
Store = Assoc DeletedStatus

-- The store refuses the id 9.
abbrev update : ℕ → DeletedStatus → Store → Option Store
update id s store = if id == 9 then none else some (put id s store)

abbrev status_or_not : Option DeletedStatus → DeletedStatus
status_or_not none = status_not_deleted
status_or_not (some s) = s

abbrev status : ℕ → Store → DeletedStatus
status id store = status_or_not (get id store)

update-Updates : Updates update status
update-Updates id k s store store' h = elim (Bool-cases (id == 9)) [
  | inl refused ↦ let none_there : ◌≡◌ {A = Option Store} none (some store') = rw refused at h in cc
  | inr taken ↦
      let there : ◌≡◌ {A = Option Store} (some (put id s store)) (some store') = rw taken at h in
      let e : put id s store ≡ store' = cc in
      ap (status k) (sym e)
      ∙ ap status_or_not (get-put id k s store)
      ∙ elim (Bool-cases (id == k)) [ inl hit ↦ rw hit refl | inr miss ↦ rw miss refl ]
]

abbrev fresh : ObjectDeletionState × Store
fresh = (record { queued = []; deleted = 4 ∷ [] }, (4, status_deleted) ∷ [])

abbrev requests : List Request
requests = adding (4 ∷ 5 ∷ 9 ∷ 6 ∷ []) ∷ deleting 5 ∷ adding (5 ∷ []) ∷ []

requests_run :
    (handle_all update status requests fresh).0 ≡ record { queued = 6 ∷ []; deleted = 5 ∷ 4 ∷ [] }
unfolding handle_all get put contains add delete
requests_run = refl

fresh-IsDurable : IsDurable update status fresh
unfolding contains
fresh-IsDurable = record { stored = λ id h. cc; apart = λ id h. cc }

handle_all-IsDurable_example :
    IsDurable update status (handle_all update status requests fresh)
    × ((id : ℕ)
        → contains id fresh.0.deleted ≡ true
        → (contains id (handle_all update status requests fresh).0.deleted ≡ true)
          × (contains id (handle_all update status requests fresh).0.queued ≡ false))
handle_all-IsDurable_example =
    handle_all-IsDurable update status update-Updates requests fresh fresh-IsDurable

-- The object 4 is deleted in the store, and its child 7 is not.
abbrev disk : Store
disk = (4, status_deleted) ∷ (7, status_not_deleted) ∷ []

abbrev child_of_four : ℕ → Store → Option (List (ℕ × DeletedStatus))
child_of_four parent store = if parent == 4 then some ((7, status 7 store) ∷ []) else none

child_of_four-True :
    (parent : ℕ) (store : Store) (children : List (ℕ × DeletedStatus))
    → child_of_four parent store ≡ some children
    → True update status store children
child_of_four-True parent store children h = elim (Bool-cases (parent == 4)) [
  | inr miss ↦
      let none_there : ◌≡◌ {A = Option (List (ℕ × DeletedStatus))} none (some children) =
        rw miss at h in
      cc
  | inl four ↦
      let there : ◌≡◌ {A = Option (List (ℕ × DeletedStatus))} (some ((7, status 7 store) ∷ []))
          (some children) =
        rw four at h in
      let e : (7, status 7 store) ∷ [] ≡ children = cc in rw (← e) (refl, tt)
]

status_of_four : status 4 disk ≡ status_deleted
unfolding get
status_of_four = refl

run-IsDurable_example :
    IsDurable update status (run update child_of_four ((4, status_deleted) ∷ []) disk)
run-IsDurable_example =
    run-IsDurable update status update-Updates child_of_four child_of_four-True
      ((4, status_deleted) ∷ []) disk (status_of_four, tt)
