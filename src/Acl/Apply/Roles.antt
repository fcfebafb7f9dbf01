-- ===== src/Acl/Apply/Roles.antt =====
-- The handlers of roles and invites (aclstate.go).
use any_sync.Common.{ℕ, List, [], ◌∷◌, none, some, Result, ok, ◌>>=◌, ◌>>◌}
use any_sync.Common.Assoc.{get, put, delete}
use any_sync.Acl.Permissions.{AclPermissions, owner}
use any_sync.Acl.Model.{
  Bytes, Payload, Error, no_such_account, insufficient_permissions, bad_key, bad_encoding, panic,
  add_record_one_to_one, incorrect_record_sequence, incorrect_root, empty_record_id,
  empty_acl_record_data, empty_id, AclState, AccountState, AclKeys, AclStatus, PermissionChange,
  RequestRecord, RequestType, AclAccountInvite, AclAccountInviteChange, AclOwnershipChange,
  AclAccountRequestJoin, AclAccountInviteJoin, AclAccountRequestAccept, AclAccountAdd,
  AclAccountPermissionChange, AclReadKeyChange, AclAccountRemove, AclContentValue, AclRoot,
  AclRecord, KeyEnv, no_model, acl_data, acl_root, ContentValidator,
}
use any_sync.Acl.Model
use any_sync.Acl.State.{update_permissions}
use any_sync.Acl.Validator.{
  validate_ownership_change, validate_invite_change, validate_permission_change, validate_invite,
  validate_invite_revoke, validate_space_options_change,
}
use any_sync.Acl.Apply.Updates.{pub_key}

-- `applySpaceOptionsChange`
unfoldable pub apply_space_options_change :
    KeyEnv → AclState → Payload → AclRecord → Result Error AclState
apply_space_options_change env st options rec = do
  validate_space_options_change env st rec.identity
  ok (record st {
    option_changes = (record { record_id = rec.id; options = options }) ∷ st.option_changes;
  })

abbrev pub new_invite : AclAccountInvite → ℕ → ℕ → Model.Invite
new_invite ch id invite_key = record {
  key = invite_key;
  type = ch.invite_type;
  permissions = ch.permissions;
  id = id;
  encrypted_read_key = ch.encrypted_read_key;
}

abbrev pub regrant : Model.Invite → AclPermissions → Model.Invite
regrant i p = record i { permissions = p }

module _ (env : KeyEnv) where
  unfoldable pub apply_ownership_change :
      AclState → AclOwnershipChange → AclRecord → Result Error AclState
  apply_ownership_change st ch rec = do
    validate_ownership_change env st ch rec.identity
    new_owner ← pub_key env ch.new_owner_identity
    ok (
        update_permissions (update_permissions st rec.identity ch.old_owner_permissions rec.id)
          new_owner owner rec.id)

  unfoldable pub apply_invite_change :
      AclState → AclAccountInviteChange → AclRecord → Result Error AclState
  apply_invite_change st ch rec = do
    validate_invite_change env st ch rec.identity
    elim (get ch.invite_record_id st.invites) [
      | none ↦ ok st
      | some i ↦
          ok (record st { invites = put ch.invite_record_id (regrant i ch.permissions) st.invites })
    ]

  unfoldable pub apply_permission_change :
      AclState → AclAccountPermissionChange → AclRecord → Result Error AclState
  apply_permission_change st ch rec = do
    identity ← pub_key env ch.identity
    validate_permission_change env st ch rec.identity
    ok (update_permissions st identity ch.permissions rec.id)

  unfoldable pub apply_permission_changes :
      AclState → List AclAccountPermissionChange → AclRecord → Result Error AclState
  unfolding apply_permission_change
  apply_permission_changes st [] rec = ok st
  apply_permission_changes st (ch ∷ chs) rec = do
    st' ← apply_permission_change st ch rec
    apply_permission_changes st' chs rec

  unfoldable pub apply_invite : AclState → AclAccountInvite → AclRecord → Result Error AclState
  apply_invite st ch rec = do
    invite_key ← pub_key env ch.invite_key
    validate_invite env st ch rec.identity
    ok (record st { invites = put rec.id (new_invite ch rec.id invite_key) st.invites })

  unfoldable pub apply_invite_revoke : AclState → ℕ → AclRecord → Result Error AclState
  apply_invite_revoke st invite_record_id rec = do
    validate_invite_revoke env st invite_record_id rec.identity
    ok (record st { invites = delete invite_record_id st.invites })
