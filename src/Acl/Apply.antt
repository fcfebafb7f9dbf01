-- ===== src/Acl/Apply.antt =====
-- Applying records to the state (aclstate.go). A handler returns the new state or an error. On an
-- error Go leaves a half-changed state behind; its callers work on a copy and drop it
-- (`AddRawRecord`, `ValidateRawRecord`, `Build`), so the model returns no state with an error.
pub mod Keys
pub mod Updates
pub mod Roles
pub mod Requests
pub mod Accounts
pub mod OneToOne
use any_sync.Common.{
  ℕ, suc, zero, ◌≡◌, refl, Bool, true, false, not, ◌&&◌, ◌||◌, List, [], ◌∷◌, Option, none, some,
  arith, ◌==◌, ltb, if◌then◌else◌, length, contains, Result, ok, err, ◌>>=◌, ◌>>◌, guard, refuse,
  or_err,
}
use any_sync.Common.Assoc.{Assoc, get, put, delete}
use any_sync.Acl.Permissions.{
  AclPermissions, permissions_none, owner, no_permissions, can_request_remove,
}
use any_sync.Acl.Model.{
  Bytes, Payload, Error, no_such_account, insufficient_permissions, bad_key, bad_encoding, panic,
  add_record_one_to_one, incorrect_record_sequence, incorrect_root, empty_record_id,
  empty_acl_record_data, empty_id, AclState, AccountState, AclKeys, AclStatus, PermissionChange,
  RequestRecord, RequestType, AclAccountInvite, AclAccountInviteChange, AclOwnershipChange,
  AclAccountRequestJoin, AclAccountInviteJoin, AclAccountRequestAccept, AclAccountAdd,
  AclAccountPermissionChange, AclReadKeyChange, AclAccountRemove, AclContentValue, AclOneToOneInfo,
  AclRoot, AclRecord, KeyEnv, no_model, acl_data, acl_root, ContentValidator,
}
use any_sync.Acl.Model
use any_sync.Acl.State.{
  account, account_or_zero, set_account, update_permissions, current_read_key_id, is_join,
}
use any_sync.Acl.Validator.{
  validated, validate_ownership_change, validate_invite_change, validate_permission_change,
  validate_invite, validate_invite_revoke, validate_request_join, validate_accounts_add,
  validate_request_accept, validate_invite_join, validate_request_decline, validate_request_cancel,
  validate_request_remove, validate_account_remove, validate_read_key_change,
  validate_space_options_change, validate_acl_data, validate_content, validate_unexpected_content,
  Check,
}
use Keys.{save_keys_from_root, zero_keys}
use OneToOne.{set_one_to_one_acl}
use Roles.{
  apply_ownership_change, apply_invite_change, apply_permission_change, apply_permission_changes,
  apply_invite, apply_invite_revoke, apply_space_options_change,
}
use Requests.{
  apply_request_join, apply_request_accept, apply_invite_join_without_approve,
  apply_request_decline, apply_request_cancel, apply_request_remove,
}
use Accounts.{apply_accounts_add, apply_read_key_change, apply_account_remove}

module _ (env : KeyEnv) where
  unfoldable pub apply_change_content :
      AclState → AclContentValue → AclRecord → Result Error AclState
  apply_change_content st (Model.ownership_change ch) rec = apply_ownership_change env st ch rec
  apply_change_content st (Model.invite_change ch) rec = apply_invite_change env st ch rec
  apply_change_content st (Model.invite_join ch) rec =
      apply_invite_join_without_approve env st ch rec
  apply_change_content st (Model.permission_change ch) rec = apply_permission_change env st ch rec
  apply_change_content st (Model.invite ch) rec = apply_invite env st ch rec
  apply_change_content st (Model.invite_revoke id) rec = apply_invite_revoke env st id rec
  apply_change_content st (Model.request_join ch) rec = apply_request_join env st ch rec
  apply_change_content st (Model.request_accept ch) rec = apply_request_accept env st ch rec
  apply_change_content st (Model.request_decline id) rec = apply_request_decline env st id rec
  apply_change_content st (Model.request_cancel id) rec = apply_request_cancel env st id rec
  apply_change_content st (Model.account_remove ch) rec = apply_account_remove env st ch rec
  apply_change_content st (Model.read_key_change ch) rec = apply_read_key_change env st ch rec true
  apply_change_content st Model.account_request_remove rec = apply_request_remove env st rec
  apply_change_content st (Model.accounts_add additions) rec =
      apply_accounts_add env st additions rec
  apply_change_content st (Model.permission_changes chs) rec =
      apply_permission_changes env st chs rec
  apply_change_content st (Model.space_options_change o) rec =
      apply_space_options_change env st o rec
  apply_change_content st Model.unset rec = do validate_unexpected_content st; ok st

  unfoldable pub apply_contents :
      AclState → List AclContentValue → AclRecord → Result Error AclState
  apply_contents st [] rec = ok st
  apply_contents st (ch ∷ chs) rec = do
    st' ← apply_change_content st ch rec
    apply_contents st' chs rec

  -- The model of a record, decoded if it is not cached. A root's model fails the type assertion.
  unfoldable pub contents_of : AclRecord → Result Error (List AclContentValue)
  contents_of rec = elim rec.model [
    | no_model ↦ do
      refuse (length rec.raw_data == 0) empty_acl_record_data
      or_err (env.unmarshal_acl_data rec.raw_data) bad_encoding
    | acl_data contents ↦ ok contents
    | acl_root root ↦ err panic
  ]

  unfoldable pub apply_change_data :
      AclState → List AclContentValue → AclRecord → Result Error AclState
  apply_change_data st contents rec = do
    validate_acl_data st contents
    apply_contents st contents rec

  unfoldable pub apply_record : AclState → AclRecord → Result Error AclState
  unfolding contents_of apply_change_data
  apply_record st rec = do
    refuse st.is_one_to_one add_record_one_to_one
    guard (st.last_record_id == rec.prev_id) incorrect_record_sequence
    refuse (rec.id == empty_id) empty_record_id
    contents ← contents_of rec
    st' ← apply_change_data st contents rec
    ok (record st' { last_record_id = rec.id })

  -- `aclStateBuilder.Append`
  unfoldable pub apply_records : AclState → List AclRecord → Result Error AclState
  apply_records st [] = ok st
  apply_records st (r ∷ rs) = do st' ← apply_record st r; apply_records st' rs

  -- The keys of the root's read key; a derived list has none.
  unfoldable pub root_keys : AclRoot → Result Error AclKeys
  root_keys root = elim root.encrypted_read_key [
    | none ↦ ok zero_keys
    | some b ↦ do
      k ← or_err (env.pub_key_from_proto root.metadata_pub_key) bad_key
      ok (record zero_keys {
        metadata_pub_key = k;
        encrypted_metadata_key = root.encrypted_metadata_priv_key;
      })
  ]

  unfoldable pub apply_plain_root : AclState → AclRecord → AclRoot → Result Error AclState
  unfolding root_keys
  apply_plain_root st rec root = do
    ks ← root_keys root
    let keyed = record st { keys = put rec.id ks st.keys }
    st' ← if st.pub_key == rec.identity then save_keys_from_root env keyed rec.id root else ok keyed
    let founder : AccountState = record {
      pub_key = rec.identity;
      permissions = owner;
      status = Model.active;
      request_metadata = root.encrypted_owner_metadata;
      key_record_id = rec.id;
      permission_changes = (record { record_id = rec.id; permission = owner }) ∷ [];
    }
    let founded = set_account st' rec.identity founder
    ok (record founded {
      read_key_changes = rec.id ∷ [];
      last_record_id = rec.id;
      option_changes = elim root.options [
        | none ↦ founded.option_changes
        | some o ↦ (record { record_id = rec.id; options = o }) ∷ []
      ];
    })

  -- A root of a one-to-one space, or a plain one.
  unfoldable pub apply_acl_root :
      AclState → AclRecord → AclRoot → Option AclOneToOneInfo → Result Error AclState
  unfolding apply_plain_root
  apply_acl_root st rec root none = apply_plain_root st rec root
  apply_acl_root st rec root (some info) = set_one_to_one_acl env st rec.id info

  unfoldable pub apply_root_model : AclState → AclRecord → Model.Model → Result Error AclState
  unfolding apply_acl_root
  apply_root_model st rec no_model = err incorrect_root
  apply_root_model st rec (acl_data contents) = err incorrect_root
  apply_root_model st rec (acl_root root) = apply_acl_root st rec root root.one_to_one_info

  unfoldable pub apply_root : AclState → AclRecord → Result Error AclState
  unfolding apply_root_model
  apply_root st rec = apply_root_model st rec rec.model

  -- The state of `newAclStateWithKeys` before its root is applied.
  abbrev pub blank_state : ℕ → ℕ → ContentValidator → AclState
  blank_state id key validator = record {
    id = id;
    keys = [];
    account_states = [];
    invites = [];
    request_records = [];
    pending_requests = [];
    read_key_changes = [];
    key = key;
    pub_key = env.get_public key;
    last_record_id = empty_id;
    content_validator = validator;
    option_changes = [];
    is_one_to_one = false;
  }

  unfoldable pub new_acl_state_with_keys : AclRecord → ℕ → ContentValidator → Result Error AclState
  unfolding apply_root
  new_acl_state_with_keys root key validator = apply_root (blank_state root.id key validator) root

  -- `aclStateBuilder.Build` of a builder that has the account's keys. Without keys it makes a state that
  -- has none, in which `applyRoot` does not decrypt; nothing in the repository builds one.
  unfoldable pub build_state : List AclRecord → ℕ → ContentValidator → Result Error AclState
  unfolding new_acl_state_with_keys apply_records
  build_state [] key validator = err incorrect_record_sequence
  build_state (root ∷ rest) key validator = do
    st ← new_acl_state_with_keys root key validator
    apply_records st rest
