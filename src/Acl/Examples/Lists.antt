-- ===== src/Acl/Examples/Lists.antt =====
-- The instances of the theorems about the log and the list, at the space of `Examples`.
use mathlib.Core.List.{Perm}
use any_sync.Common.{ℕ, ◌≡◌, ◌↔◌, refl, Bool, true, [], ◌∷◌, some, arith, contains, Result, ok}
use any_sync.Common.Assoc.{get, values}
use any_sync.Acl.Model
use any_sync.Acl.Model.{AclState, AclReadKeyChange}
use any_sync.Acl.Permissions.{admin}
use any_sync.Acl.State.{permissions, permissions_at_record}
use any_sync.Acl.Apply.{build_state, apply_records}
use any_sync.Acl.History.{IsRecorded}
use any_sync.Acl.History.Log.{apply_records-IsRecorded}
use any_sync.Acl.Validator.KeyChange.{
  check_read_key_change, active_users, active_invites, identities,
}
use any_sync.Acl.Validator.KeyPerm.{check_read_key_change_iff}
use any_sync.Acl.List.{AclList, is_contiguous_chain, RawRecord, StorageRecord, add_raw_records}
use any_sync.Acl.List.Chain.{IsChained, add_raw_records-IsChained}
use any_sync.Acl.List.Heads.{permissions_at_record-head}
use any_sync.Acl.Examples.{toy_env, root_record, history, full, final, state_of, by, add}

founded : AclState
unfolding final
founded = state_of (build_state toy_env (root_record ∷ []) 99 full)

founded-IsRecorded : IsRecorded founded
unfolding founded get
founded-IsRecorded k = ground arith

history_applies : apply_records toy_env founded history ≡ ok final
unfolding founded final
history_applies = refl

apply_records-IsRecorded_example : IsRecorded final
unfolding founded
apply_records-IsRecorded_example =
    apply_records-IsRecorded toy_env founded history final refl founded-IsRecorded history_applies

start : AclList
start = record {
  id = 1;
  records = root_record ∷ [];
  indexes = (1, 0) ∷ [];
  state = founded;
  should_validate = true;
}

start-IsChained : IsChained start
unfolding start founded get is_contiguous_chain
start-IsChained = record {
  chain = refl;
  head_index = (0, refl, refl);
  in_range = λ id i h. ground arith;
}

abbrev stores_all : StorageRecord → Bool
stores_all r = true

abbrev raw : ℕ → RawRecord
raw id = record { id = id; payload = [] }

-- The decoder of the records of the history.
abbrev decoded : RawRecord → Result Model.Error Model.AclRecord
decoded r = ok (by 1 2 (add 2 admin ∷ []))

add_raw_records-IsChained_example :
    IsChained (add_raw_records toy_env decoded stores_all start (raw 2 ∷ raw 2 ∷ [])).0
add_raw_records-IsChained_example =
    add_raw_records-IsChained toy_env decoded stores_all start (raw 2 ∷ raw 2 ∷ []) start-IsChained

permissions_at_record-head_example :
    permissions_at_record start.indexes start.state start.state.last_record_id 1
    ≡ ok (permissions start.state 1)
unfolding start founded
permissions_at_record-head_example =
    permissions_at_record-head start 1 _ start-IsChained founded-IsRecorded refl

-- The three members of the final state get the new read key.
abbrev key_to : ℕ → Model.AclEncryptedReadKey
key_to k = record { identity = k ∷ []; encrypted_read_key = some (k ∷ []) }

abbrev rotation : AclReadKeyChange
rotation = record {
  account_keys = key_to 3 ∷ key_to 1 ∷ key_to 2 ∷ [];
  metadata_pub_key = 80 ∷ [];
  encrypted_metadata_priv_key = some (81 ∷ []);
  encrypted_old_read_key = some (82 ∷ []);
  invite_keys = [];
}

check_read_key_change_iff_example : (check_read_key_change toy_env final rotation [] ≡ ok tt) ↔ (
    Perm (active_users [] (values final.account_states)) (3 ∷ 1 ∷ 2 ∷ [])
    × Perm (active_invites (values final.invites)) [])
unfolding identities
check_read_key_change_iff_example =
    check_read_key_change_iff toy_env final rotation [] (3 ∷ 1 ∷ 2 ∷ []) [] refl refl refl refl refl

rotation_passes : check_read_key_change toy_env final rotation [] ≡ ok tt
unfolding check_read_key_change final contains
rotation_passes = refl
