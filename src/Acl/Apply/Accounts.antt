-- ===== src/Acl/Apply/Accounts.antt =====
-- The handlers that add and remove accounts, and of the read key (aclstate.go).
use any_sync.Common.{
  ℕ, Bool, false, List, [], ◌∷◌, none, some, if◌then◌else◌, Result, ok, ◌>>=◌, ◌>>◌, or_err,
}
use any_sync.Common.Assoc.{get}
use any_sync.Acl.Permissions.{permissions_none}
use any_sync.Acl.Model.{
  Bytes, Payload, Error, no_such_account, insufficient_permissions, bad_key, bad_encoding, panic,
  add_record_one_to_one, incorrect_record_sequence, incorrect_root, empty_record_id,
  empty_acl_record_data, empty_id, AclState, AccountState, AclKeys, AclStatus, PermissionChange,
  RequestRecord, RequestType, AclAccountInvite, AclAccountInviteChange, AclOwnershipChange,
  AclAccountRequestJoin, AclAccountInviteJoin, AclAccountRequestAccept, AclAccountAdd,
  AclAccountPermissionChange, AclReadKeyChange, AclAccountRemove, AclContentValue, AclRoot,
  AclRecord, KeyEnv, no_model, acl_data, acl_root, ContentValidator,
}
use any_sync.Acl.Model
use any_sync.Acl.State.{account, set_account, current_read_key_id}
use any_sync.Acl.Validator.{
  validate_accounts_add, validate_account_remove, validate_read_key_change,
}
use any_sync.Acl.Apply.Keys.{change_read_key}
use any_sync.Acl.Apply.Updates.{changed_to, drop_request, pub_key, unpack_own}

-- The pending request of a removed account goes with it.
unfoldable pub drop_pending : AclState → ℕ → AclState
unfolding drop_request
drop_pending st k = elim (get k st.pending_requests) [ none ↦ st | some id ↦ drop_request st k id ]

abbrev pub removed_account : AccountState → ℕ → AccountState
removed_account a record_id = record a {
  status = Model.removed;
  permissions = permissions_none;
  permission_changes = changed_to record_id permissions_none ∷ a.permission_changes;
}

module _ (env : KeyEnv) where
  -- The loop of `applyAccountsAdd`.
  unfoldable pub add_accounts : AclState → List AclAccountAdd → AclRecord → Result Error AclState
  unfolding unpack_own
  add_accounts st [] rec = ok st
  add_accounts st (a ∷ rest) rec = do
    identity ← pub_key env a.identity
    let added : AccountState = record {
      pub_key = identity;
      permissions = a.permissions;
      status = Model.active;
      request_metadata = a.metadata;
      key_record_id = current_read_key_id st;
      permission_changes = changed_to rec.id a.permissions ∷ [];
    }
    st' ← unpack_own env (set_account st identity added) identity a.encrypted_read_key
    add_accounts st' rest rec

  unfoldable pub apply_accounts_add :
      AclState → List AclAccountAdd → AclRecord → Result Error AclState
  unfolding add_accounts
  apply_accounts_add st additions rec = do
    validate_accounts_add env st additions rec.identity
    add_accounts st additions rec

  -- The loop of `applyAccountRemove`.
  unfoldable pub remove_accounts : AclState → List Bytes → AclRecord → Result Error AclState
  unfolding drop_pending
  remove_accounts st [] rec = ok st
  remove_accounts st (b ∷ rest) rec = do
    identity ← pub_key env b
    acc ← or_err (account st identity) no_such_account
    let gone = removed_account acc rec.id
    remove_accounts (drop_pending (set_account st identity gone) identity) rest rec

  unfoldable pub apply_read_key_change :
      AclState → AclReadKeyChange → AclRecord → Bool → Result Error AclState
  apply_read_key_change st ch rec validate = do
    if validate then validate_read_key_change env st ch rec.identity else ok tt
    change_read_key env st ch rec.id

  unfoldable pub apply_account_remove :
      AclState → AclAccountRemove → AclRecord → Result Error AclState
  unfolding remove_accounts apply_read_key_change
  apply_account_remove st ch rec = do
    validate_account_remove env st ch rec.identity
    st' ← remove_accounts st ch.identities rec
    key_change ← or_err ch.read_key_change panic
    apply_read_key_change st' key_change rec false
