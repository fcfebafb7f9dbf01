-- ===== src/Deletion/Durable.antt =====
-- What is queued in memory is queued in the store, and what is deleted stays so (deletionstate.go).
use any_sync.Common.{
  ℕ, ◌≡◌, refl, sym, inl, inr, true, false, not, ◌&&◌, List, [], ◌∷◌, Option, some, ◌==◌,
  if◌then◌else◌, contains, arith, Bool-cases, Option-cases, ◌∙◌,
}
use any_sync.Deletion.{
  DeletedStatus, status_queued, status_deleted, ObjectDeletionState, exists, remove_id, add_one,
  add, delete,
}

pub data Request : Type 0 where
  adding : List ℕ → Request
  deleting : ℕ → Request

contains-remove_id :
    (k id : ℕ) (xs : List ℕ) → contains k (remove_id id xs) ≡ (contains k xs && not (id == k))
unfolding contains remove_id
contains-remove_id k id [] = refl
contains-remove_id k id (x ∷ xs) = ground (arith, contains-remove_id k id xs)

module _ {Store : Type 0} (update_status : ℕ → DeletedStatus → Store → Option Store)
    (status_of : ℕ → Store → DeletedStatus) where
  -- An update that succeeds sets the status of its id, and of no other.
  abbrev pub Updates : Type 0
  Updates =
      (id k : ℕ) (s : DeletedStatus) (store store' : Store)
      → update_status id s store ≡ some store'
      → status_of k store' ≡ (if id == k then s else status_of k store)

  unfoldable pub handle : Request → ObjectDeletionState × Store → ObjectDeletionState × Store
  handle (adding ids) m = (add update_status ids m.0 m.1).0
  handle (deleting id) m = (delete update_status id m.0 m.1).0

  unfoldable pub handle_all :
      List Request → ObjectDeletionState × Store → ObjectDeletionState × Store
  unfolding handle
  handle_all [] m = m
  handle_all (r ∷ rs) m = handle_all rs (handle r m)

  pub record IsDurable (m : ObjectDeletionState × Store) : Type 0 where
    pub stored : (id : ℕ) → contains id m.0.queued ≡ true → status_of id m.1 ≡ status_queued
    pub apart : (id : ℕ) → contains id m.0.queued ≡ true → contains id m.0.deleted ≡ false

  -- Both parts of a step: the invariant, and that what is deleted stays deleted.
  record Keeps (m m' : ObjectDeletionState × Store) : Type 0 where
    durable : IsDurable m → IsDurable m'
    deleted : (id : ℕ) → contains id m.0.deleted ≡ true → contains id m'.0.deleted ≡ true

  Keeps-refl : (m : ObjectDeletionState × Store) → Keeps m m
  Keeps-refl m = record { durable = λ d. d; deleted = λ id h. h }

  Keeps-trans : {a b c : ObjectDeletionState × Store} → Keeps a b → Keeps b c → Keeps a c
  Keeps-trans f g = record {
    durable = λ d. g.durable (f.durable d);
    deleted = λ id h. g.deleted id (f.deleted id h);
  }

  module _ (updates : Updates) where
    queued-IsDurable :
        (st : ObjectDeletionState) (store store' : Store) (id : ℕ)
        → exists st id ≡ false
        → update_status id status_queued store ≡ some store'
        → IsDurable (st, store)
        → IsDurable (record st { queued = id ∷ st.queued }, store')
    unfolding exists contains
    queued-IsDurable st store store' id new wrote d = record {
      stored = λ k h. elim (Bool-cases (id == k)) [
        | inl hit ↦ updates id k status_queued store store' wrote ∙ rw hit refl
        | inr miss ↦
            let before : contains k st.queued ≡ true = ground arith in
            updates id k status_queued store store' wrote ∙ rw miss (d.stored k before)
      ];
      apart = λ k h. elim (Bool-cases (id == k)) [
        | inl hit ↦
            let e : id ≡ k = ground arith in
            let gone : contains id st.deleted ≡ false = ground arith in rw (← e) gone
        | inr miss ↦ let before : contains k st.queued ≡ true = ground arith in d.apart k before
      ];
    }

    add_one-Keeps :
        (st : ObjectDeletionState) (store : Store) (id : ℕ)
        → Keeps (st, store) (add_one update_status st store id).0
    unfolding add_one
    add_one-Keeps st store id = elim (Bool-cases (exists st id)) [
      | inl known ↦ rw (known, add_one) (Keeps-refl (st, store))
      | inr new ↦ elim (Option-cases (update_status id status_queued store)) [
        | inl failed ↦ rw (new, failed, add_one) (Keeps-refl (st, store))
        | inr (store', wrote) ↦
            rw (new, wrote, add_one)
              (record {
                durable = queued-IsDurable st store store' id new wrote;
                deleted = λ k h. h;
              })
      ]
    ]

    add-Keeps :
        (ids : List ℕ) (st : ObjectDeletionState) (store : Store)
        → Keeps (st, store) (add update_status ids st store).0
    unfolding add
    add-Keeps [] st store = Keeps-refl (st, store)
    add-Keeps (id ∷ ids) st store = Keeps-trans (add_one-Keeps st store id) (add-Keeps ids _ _)

    -- Whether the store took the update or not.
    deleted-IsDurable :
        (st : ObjectDeletionState) (store store' : Store) (id : ℕ)
        → ((k : ℕ) → (id == k) ≡ false → status_of k store' ≡ status_of k store)
        → IsDurable (st, store)
        → IsDurable (record { queued = remove_id id st.queued; deleted = id ∷ st.deleted }, store')
    unfolding contains
    deleted-IsDurable st store store' id others d = record {
      stored = λ k h.
          let both : (contains k st.queued && not (id == k)) ≡ true =
            sym (contains-remove_id k id st.queued) ∙ h in
          let other : (id == k) ≡ false = ground arith in
          let there : contains k st.queued ≡ true = ground arith in
          others k other ∙ d.stored k there;
      apart = λ k h.
          let both : (contains k st.queued && not (id == k)) ≡ true =
            sym (contains-remove_id k id st.queued) ∙ h in
          let there : contains k st.queued ≡ true = ground arith in
          let gone = d.apart k there in ground arith;
    }

    delete-Keeps :
        (id : ℕ) (st : ObjectDeletionState) (store : Store)
        → Keeps (st, store) (delete update_status id st store).0
    unfolding delete contains
    delete-Keeps id st store = elim (Option-cases (update_status id status_deleted store)) [
      | inl failed ↦
          rw (failed, delete)
            (record {
              durable = deleted-IsDurable st store store id (λ k h. refl);
              deleted = λ k h. ground arith;
            })
      | inr (store', wrote) ↦
          rw (wrote, delete)
            (record {
              durable =
                  deleted-IsDurable st store store' id
                    (λ k h. updates id k status_deleted store store' wrote ∙ rw h refl);
              deleted = λ k h. ground arith;
            })
    ]

    handle_all-Keeps :
        (rs : List Request) (m : ObjectDeletionState × Store) → Keeps m (handle_all rs m)
    unfolding handle_all
    handle_all-Keeps [] m = Keeps-refl m
    handle_all-Keeps (adding ids ∷ rs) m =
        Keeps-trans (add-Keeps ids m.0 m.1) (handle_all-Keeps rs _)
    handle_all-Keeps (deleting id ∷ rs) m =
        Keeps-trans (delete-Keeps id m.0 m.1) (handle_all-Keeps rs _)

    -- If every id queued in memory is queued in the store and not deleted, this is so after any additions and
    -- deletions, also where updates of the store fail; and an id that is deleted stays deleted, and is not
    -- queued again. This assumes that an update that succeeds sets the status of its id, and of no other.
    pub handle_all-IsDurable :
        (rs : List Request) (m : ObjectDeletionState × Store)
        → IsDurable m
        → IsDurable (handle_all rs m)
          × ((id : ℕ)
              → contains id m.0.deleted ≡ true
              → (contains id (handle_all rs m).0.deleted ≡ true)
                × (contains id (handle_all rs m).0.queued ≡ false))
    handle_all-IsDurable rs m d =
        let k = handle_all-Keeps rs m in
        let d' = k.durable d in
        (d', λ id h. (k.deleted id h, not_queued (handle_all rs m) d' id (k.deleted id h)))
      where
        not_queued :
            (m' : ObjectDeletionState × Store)
            → IsDurable m'
            → (id : ℕ) → contains id m'.0.deleted ≡ true
            → contains id m'.0.queued ≡ false
        not_queued m' d' id h = elim (Bool-cases (contains id m'.0.queued)) [
          | inl there ↦ let gone = d'.apart id there in cc
          | inr missing ↦ missing
        ]
