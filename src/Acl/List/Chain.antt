-- ===== src/Acl/List/Chain.antt =====
-- The list stays one chain from the root to the head of its state, and its indexes point at the
-- positions (list.go).

use any_sync.Common.{
  ℕ, suc, ◌≡◌, refl, sym, ap, Bool, true, List, [], ◌∷◌, ◌++◌, Option, none, some, arith, ==_refl,
  length, length-append, Result, ok, err, >>=-eq-ok, ok-injective, guard, refuse, Bool-cases, inl,
  inr, ◌<◌,
}
use any_sync.Common.Assoc.{Assoc, get, put, get-put}
use any_sync.Acl.Model.{Error, AclState, AclRecord, KeyEnv, record_already_exists, storage_error}
use any_sync.Acl.Validator.{has}
use any_sync.Acl.Apply.{apply_record}
use any_sync.Acl.Policy.Refinement.{record_parts}
use any_sync.Acl.List.{
  RawRecord, StorageRecord, AclList, last_id, linked, is_contiguous_chain, copy_state,
  add_raw_record, add_raw_records, after_add, already_exists,
}

-- The chain, and the indexes: the head's is the last position, and none is past it.
pub record IsChained (l : AclList) : Type 0 where
  pub chain : is_contiguous_chain l.records l.id l.state.last_record_id ≡ true
  pub head_index :
      (i : ℕ) × (get l.state.last_record_id l.indexes ≡ some i) × (suc i ≡ length l.records)
  pub in_range : (id i : ℕ) → get id l.indexes ≡ some i → i < length l.records

last_id-snoc :
    (a : AclRecord) (rest : List AclRecord) (b : AclRecord) → last_id a (rest ++ b ∷ []) ≡ b.id
unfolding last_id
last_id-snoc a [] b = refl
last_id-snoc a (c ∷ rest) b = last_id-snoc c rest b

linked-snoc :
    (a : AclRecord) (rest : List AclRecord) (b : AclRecord)
    → linked a rest ≡ true
    → b.prev_id ≡ last_id a rest
    → linked a (rest ++ b ∷ []) ≡ true
unfolding linked last_id
linked-snoc a [] b h e = rw (e, ==_refl a.id) refl
linked-snoc a (c ∷ rest) b h e = ground (arith, linked-snoc c rest b)

chain-snoc :
    (rs : List AclRecord) (root_id head : ℕ) (b : AclRecord)
    → is_contiguous_chain rs root_id head ≡ true
    → b.prev_id ≡ head
    → is_contiguous_chain (rs ++ b ∷ []) root_id b.id ≡ true
unfolding is_contiguous_chain
chain-snoc [] root_id head b h e = cc
chain-snoc (a ∷ rest) root_id head b h e =
    ground (arith, last_id-snoc a rest b, linked-snoc a rest b)

index-in_range :
    (m : Assoc ℕ) (n id j i : ℕ)
    → (get j m ≡ some i → i < n)
    → get j (put id n m) ≡ some i
    → i < suc n
index-in_range m n id j i old h = ground (arith, get-put id j n m)

after_add-IsChained :
    (r : Result Error AclList) (l : AclList) (next : AclList → AclList × Option Error)
    → IsChained l
    → ((l' : AclList) → r ≡ ok l' → IsChained l')
    → ((l' : AclList) → IsChained l' → IsChained (next l').0)
    → IsChained (after_add r l next).0
unfolding after_add
after_add-IsChained (ok l') l next c added go = go l' (added l' refl)
after_add-IsChained (err e) l next c added go = elim (Bool-cases (already_exists e)) [
  | inl there ↦ rw there (go l c)
  | inr other ↦ rw other c
]

module _ (env : KeyEnv) (decode : RawRecord → Result Error AclRecord)
    (stores : StorageRecord → Bool) where
  -- What an accepted raw record did.
  pub added_parts :
      (l : AclList) (raw : RawRecord) (l' : AclList)
      → add_raw_record env decode stores l raw ≡ ok l'
      → (rec : AclRecord) × (st : AclState) × (get raw.id l.indexes ≡ none)
        × (apply_record env (copy_state env l.should_validate l.state) rec ≡ ok st)
        × (record l {
          state = st;
          records = l.records ++ rec ∷ [];
          indexes = put rec.id (length l.records) l.indexes;
        }
            ≡ l')
  unfolding add_raw_record
  added_parts l raw l' h =
      let (_, fresh, h1) =
        >>=-eq-ok (refuse (has (get raw.id l.indexes)) record_already_exists) _ h in
      let (rec, _, h2) = >>=-eq-ok (decode raw) _ h1 in
      let (st, applied, h3) =
        >>=-eq-ok (apply_record env (copy_state env l.should_validate l.state) rec) _ h2 in
      let (_, _, h4) = >>=-eq-ok (guard (stores _) storage_error) _ h3 in
      (rec, st, ground arith, applied, ok-injective h4)

  grown-IsChained :
      (l : AclList) (rec : AclRecord) (st : AclState)
      → IsChained l
      → rec.prev_id ≡ l.state.last_record_id
      → st.last_record_id ≡ rec.id
      → IsChained (record l {
        state = st;
        records = l.records ++ rec ∷ [];
        indexes = put rec.id (length l.records) l.indexes;
      })
  grown-IsChained l rec st c prev last =
      let grown : length (l.records ++ rec ∷ []) ≡ suc (length l.records) =
        omega (arith, length-append l.records (rec ∷ [])) in
      record {
        chain = rw last (chain-snoc l.records l.id l.state.last_record_id rec c.chain prev);
        head_index = (
          length l.records,
          rw (last, get-put rec.id rec.id (length l.records) l.indexes, ==_refl rec.id) refl,
          sym grown,
        );
        in_range = λ id i found.
            rw grown
              (index-in_range l.indexes (length l.records) rec.id id i (c.in_range id i) found);
      }

  -- An accepted record extends the chain: it follows the old head, and it is the new one.
  pub add_raw_record-IsChained :
      (l : AclList) (raw : RawRecord) (l' : AclList)
      → IsChained l
      → add_raw_record env decode stores l raw ≡ ok l'
      → IsChained l'
  unfolding copy_state
  add_raw_record-IsChained l raw l' c h =
      let (rec, st, _, applied, e) = added_parts l raw l' h in
      let (_, mid, _, result, prev, _, _, _) =
        record_parts env (copy_state env l.should_validate l.state) rec st applied in
      let last : st.last_record_id ≡ rec.id = sym (ap (λ s. s.last_record_id) result) in
      rw (← e) (grown-IsChained l rec st c (sym prev) last)

  -- A batch of raw records leaves the list one chain from the root to the head of the state, with
  -- the head's index at the last position, wherever the batch stops.
  pub add_raw_records-IsChained :
      (l : AclList) (raws : List RawRecord)
      → IsChained l
      → IsChained (add_raw_records env decode stores l raws).0
  unfolding add_raw_records
  add_raw_records-IsChained l [] c = c
  add_raw_records-IsChained l (raw ∷ rest) c =
      after_add-IsChained (add_raw_record env decode stores l raw) l
        (λ l'. add_raw_records env decode stores l' rest) c
        (λ l' h. add_raw_record-IsChained l raw l' c h)
        (λ l' c'. add_raw_records-IsChained l' rest c')
