-- ===== src/Acl/List.antt =====
-- The list of accepted records (list.go): records root first, their indexes, and the state at the
-- head. What decodes a raw record and what stores one are arguments.
pub mod Chain
pub mod Heads
use any_sync.Common.{
  ℕ, Bool, true, false, not, ◌&&◌, List, [], ◌∷◌, ◌++◌, Option, none, some, ◌==◌, leb,
  if◌then◌else◌, length, get_elem?, ◌+◌, Result, ok, err, ◌>>=◌, ◌>>◌, guard, refuse, or_err,
}
use any_sync.Common.Assoc.{Assoc, get, put}
use any_sync.Acl.Model.{
  Bytes, Error, record_already_exists, storage_error, no_such_record, AclState, AclRecord, KeyEnv,
  ContentValidator,
}
use any_sync.Acl.Validator.{has}
use any_sync.Acl.Apply.{apply_record, build_state}

pub record RawRecord : Type 0 where
  pub id : ℕ
  pub payload : Bytes

pub record StorageRecord : Type 0 where
  pub raw_record : Bytes
  pub prev_id : ℕ
  pub id : ℕ
  pub order : ℕ
  pub change_size : ℕ

pub record AclList : Type 0 where
  pub id : ℕ
  pub records : List AclRecord
  pub indexes : Assoc ℕ
  pub state : AclState
  pub should_validate : Bool

-- The last record's id, after `a`.
unfoldable pub last_id : AclRecord → List AclRecord → ℕ
last_id a [] = a.id
last_id a (b ∷ rest) = last_id b rest

-- Each record's `prev_id` is the id before it.
unfoldable pub linked : AclRecord → List AclRecord → Bool
linked a [] = true
linked a (b ∷ rest) = b.prev_id == a.id && linked b rest

unfoldable pub is_contiguous_chain : List AclRecord → ℕ → ℕ → Bool
unfolding last_id linked
is_contiguous_chain [] root_id head = false
is_contiguous_chain (a ∷ rest) root_id head =
    a.id == root_id && last_id a rest == head && linked a rest

-- `errors.Is(err, ErrRecordAlreadyExists)`
unfoldable pub already_exists : Error → Bool
already_exists record_already_exists = true
already_exists _ = false

-- How the loop of `AddRawRecords` goes on.
unfoldable pub after_add :
    Result Error AclList → AclList → (AclList → AclList × Option Error) → AclList × Option Error
after_add (ok l') l next = next l'
after_add (err e) l next = if already_exists e then next l else (l, some e)

module _ (env : KeyEnv) where
  -- `AclState.Copy`: the maps and slices are copied, and the validator is made anew.
  unfoldable pub copy_state : Bool → AclState → AclState
  copy_state should_validate st = record st {
    pub_key = env.get_public st.key;
    content_validator = record { should_validate = should_validate; admission = false };
  }

  module _ (decode : RawRecord → Result Error AclRecord) (stores : StorageRecord → Bool) where
    unfoldable pub add_raw_record : AclList → RawRecord → Result Error AclList
    add_raw_record l raw = do
      refuse (has (get raw.id l.indexes)) record_already_exists
      rec ← decode raw
      st ← apply_record env (copy_state l.should_validate l.state) rec
      guard
          (stores (record {
            raw_record = raw.payload;
            prev_id = rec.prev_id;
            id = rec.id;
            order = length l.records + 1;
            change_size = length raw.payload;
          }))
          storage_error
      ok (record l {
        state = st;
        records = l.records ++ rec ∷ [];
        indexes = put rec.id (length l.records) l.indexes;
      })

    -- The records that are there already are passed over; another error ends the loop.
    unfoldable pub add_raw_records : AclList → List RawRecord → AclList × Option Error
    unfolding after_add
    add_raw_records l [] = (l, none)
    add_raw_records l (raw ∷ rest) =
        after_add (add_raw_record l raw) l (λ l'. add_raw_records l' rest)

    -- `ValidateRawRecord`, without its callback: the record is applied to a copy in full validation.
    unfoldable pub validate_raw_record : AclList → RawRecord → Result Error AclState
    validate_raw_record l raw = do
      rec ← decode raw
      apply_record env
          (record l.state {
            pub_key = env.get_public l.state.key;
            content_validator = record { should_validate = true; admission = true };
          })
          rec

unfoldable pub has_head : AclList → ℕ → Bool
has_head l id = has (get id l.indexes)

unfoldable pub is_after : AclList → ℕ → ℕ → Result Error Bool
is_after l first second = do
  i ← or_err (get first l.indexes) no_such_record
  j ← or_err (get second l.indexes) no_such_record
  ok (leb j i)

unfoldable pub get_record : AclList → ℕ → Result Error AclRecord
get_record l id = do
  i ← or_err (get id l.indexes) no_such_record
  or_err (get_elem? l.records i) no_such_record
