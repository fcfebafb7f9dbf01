-- ===== src/Deletion/Restart.antt =====
-- Reading the state back from the store (`Run`, deletionstate.go).
use any_sync.Common.{
  ℕ, ◌≡◌, refl, inl, inr, true, false, List, [], ◌∷◌, Option, some, ◌==◌, contains, arith,
  Bool-cases, Option-cases, ◌∙◌, All,
}
use any_sync.Deletion.{
  DeletedStatus, status_not_deleted, status_queued, status_deleted, ObjectDeletionState,
  queue_orphan, queue_orphans, queue_children, load, run,
}
use any_sync.Deletion.Durable.{Updates, IsDurable}

module _ {Store : Type 0} (update_status : ℕ → DeletedStatus → Store → Option Store)
    (status_of : ℕ → Store → DeletedStatus) where
  -- Both maps agree with the store.
  record Agrees (st : ObjectDeletionState) (store : Store) : Type 0 where
    queued : (id : ℕ) → contains id st.queued ≡ true → status_of id store ≡ status_queued
    deleted : (id : ℕ) → contains id st.deleted ≡ true → status_of id store ≡ status_deleted

  -- Entries with the status that the store has.
  abbrev pub True : Store → List (ℕ × DeletedStatus) → Type 0
  True store = All λ e. status_of e.0 store ≡ e.1

  Agrees-IsDurable :
      (st : ObjectDeletionState) (store : Store)
      → Agrees st store
      → IsDurable update_status status_of (st, store)
  Agrees-IsDurable st store a = record {
    stored = a.queued;
    apart = λ id h. elim (Bool-cases (contains id st.deleted)) [
      | inl there ↦ let q = a.queued id h in let d = a.deleted id there in cc
      | inr missing ↦ missing
    ];
  }

  load-Agrees :
      (entries : List (ℕ × DeletedStatus)) (st : ObjectDeletionState) (store : Store)
      → True store entries
      → Agrees st store
      → Agrees (load entries st) store
  unfolding load contains
  load-Agrees [] st store t a = a
  load-Agrees ((id, status_queued) ∷ es) st store t a = load-Agrees es _ store t.1 (record {
    queued = λ k h. elim (Bool-cases (k == id)) [
      | inl hit ↦ let e : k ≡ id = ground arith in rw e t.0
      | inr miss ↦ let old : contains k st.queued ≡ true = ground arith in a.queued k old
    ];
    deleted = a.deleted;
  })
  load-Agrees ((id, status_deleted) ∷ es) st store t a = load-Agrees es _ store t.1 (record {
    queued = a.queued;
    deleted = λ k h. elim (Bool-cases (k == id)) [
      | inl hit ↦ let e : k ≡ id = ground arith in rw e t.0
      | inr miss ↦ let old : contains k st.deleted ≡ true = ground arith in a.deleted k old
    ];
  })
  load-Agrees ((id, status_not_deleted) ∷ es) st store t a = load-Agrees es st store t.1 a

  module _ (updates : Updates update_status status_of) where
    -- An orphan that is not among the deleted ones.
    queue_orphan-Agrees :
        (st : ObjectDeletionState) (store : Store) (id : ℕ)
        → contains id st.deleted ≡ false
        → Agrees st store
        → Agrees
            (queue_orphan update_status st store id).0
            (queue_orphan update_status st store id).1
          × ((queue_orphan update_status st store id).0.deleted ≡ st.deleted)
    unfolding queue_orphan contains
    queue_orphan-Agrees st store id alive a =
        elim (Option-cases (update_status id status_queued store)) [
          | inl failed ↦ rw (failed, queue_orphan) (a, refl)
          | inr (store', wrote) ↦
              rw (wrote, queue_orphan)
                (
                  record {
                    queued = λ k h. elim (Bool-cases (id == k)) [
                      | inl hit ↦ updates id k status_queued store store' wrote ∙ rw hit refl
                      | inr miss ↦
                          let old : contains k st.queued ≡ true = ground arith in
                          updates id k status_queued store store' wrote ∙ rw miss (a.queued k old)
                    ];
                    deleted = λ k h. elim (Bool-cases (id == k)) [
                      | inl hit ↦
                          let e : id ≡ k = ground arith in
                          let there : contains id st.deleted ≡ true = rw e h in cc
                      | inr miss ↦
                          updates id k status_queued store store' wrote ∙ rw miss (a.deleted k h)
                    ];
                  },
                  refl,
                )
        ]

    -- None of these children is deleted, if it is marked as not deleted.
    Alive : List ℕ → List (ℕ × DeletedStatus) → Type 0
    Alive deleted = All λ e. (e.1 ≡ status_not_deleted) → contains e.0 deleted ≡ false

    Alive-of :
        (st : ObjectDeletionState) (store : Store) (children : List (ℕ × DeletedStatus))
        → Agrees st store
        → True store children
        → Alive st.deleted children
    unfolding Alive
    Alive-of st store [] a t = tt
    Alive-of st store ((id, s) ∷ rest) a t = (
      λ e. elim (Bool-cases (contains id st.deleted)) [
        | inl there ↦ let d = a.deleted id there in let now = t.0 in cc
        | inr missing ↦ missing
      ],
      Alive-of st store rest a t.1,
    )

    queue_orphans-Agrees :
        (children : List (ℕ × DeletedStatus)) (st : ObjectDeletionState) (store : Store)
        → Alive st.deleted children
        → Agrees st store
        → Agrees
            (queue_orphans update_status children st store).0
            (queue_orphans update_status children st store).1
    unfolding queue_orphans Alive
    queue_orphans-Agrees [] st store v a = a
    queue_orphans-Agrees ((id, status_not_deleted) ∷ rest) st store v a =
        let (a', same) = queue_orphan-Agrees st store id (v.0 refl) a in
        queue_orphans-Agrees rest _ _ (rw same v.1) a'
    queue_orphans-Agrees ((id, status_queued) ∷ rest) st store v a =
        queue_orphans-Agrees rest st store v.1 a
    queue_orphans-Agrees ((id, status_deleted) ∷ rest) st store v a =
        queue_orphans-Agrees rest st store v.1 a

    module _ (children_of : ℕ → Store → Option (List (ℕ × DeletedStatus)))
        (true_children : (parent : ℕ) (store : Store) (children : List (ℕ × DeletedStatus))
          → children_of parent store ≡ some children
          → True store children) where
      queue_children-Agrees :
          (parents : List ℕ) (st : ObjectDeletionState) (store : Store)
          → Agrees st store
          → Agrees
              (queue_children update_status children_of parents st store).0
              (queue_children update_status children_of parents st store).1
      unfolding queue_children
      queue_children-Agrees [] st store a = a
      queue_children-Agrees (parent ∷ parents) st store a =
          elim (Option-cases (children_of parent store)) [
            | inl unread ↦ rw (unread, queue_children) (queue_children-Agrees parents st store a)
            | inr (children, read) ↦
                rw (read, queue_children)
                  (queue_children-Agrees parents _ _ (
                    queue_orphans-Agrees children st store
                      (Alive-of st store children a (true_children parent store children read)) a))
          ]

      -- After a start every id queued in memory is queued in the store and not deleted, orphaned children
      -- included. This assumes that entries and children are read with the status that the store has, and that an
      -- update that succeeds sets the status of its id, and of no other.
      pub run-IsDurable :
          (entries : List (ℕ × DeletedStatus)) (store : Store)
          → True store entries
          → IsDurable update_status status_of (run update_status children_of entries store)
      unfolding run contains
      run-IsDurable entries store t =
          let empty : Agrees (record { queued = []; deleted = [] }) store = record {
            queued = λ id h. cc;
            deleted = λ id h. cc;
          } in
          let loaded = load-Agrees entries _ store t empty in
          Agrees-IsDurable _ _ (
            queue_children-Agrees (load entries (record { queued = []; deleted = [] })).deleted _
              store loaded)
