-- ===== src/Acl/Builder/Joins.antt =====
-- The records that an account builds for itself, and the ones of a single change (aclrecordbuilder.go).
use any_sync.Common.{
  ℕ, not, ◌&&◌, ◌||◌, List, [], ◌∷◌, none, some, ◌==◌, if◌then◌else◌, Result, ok, err, ◌>>=◌, ◌>>◌,
  guard, refuse, or_err,
}
use any_sync.Common.Assoc.{Assoc, get}
use any_sync.Acl.Permissions.{AclPermissions, no_permissions, is_owner, can_manage_accounts}
use any_sync.Acl.Model.{
  Bytes, Payload, Error, no_read_key, no_such_account, no_such_request, no_such_invite,
  pending_request, insufficient_permissions, is_owner_err, incorrect_invite_key, bad_key, empty_id,
  AclState, Invite, anyone_can_join, AclContentValue, KeyEnv,
}
use any_sync.Acl.Model
use any_sync.Acl.State.{permissions, same_type}
use any_sync.Acl.Validator.{has}
use any_sync.Acl.Apply.Keys.{unmarshall_read_key}
use any_sync.Acl.Builder.{
  SignEnv, AclRecordBuilder, ReadKeyChangePayload, RawRecord, current_metadata_key,
  build_read_key_change, build_record,
}
use any_sync.Acl.Builder.Contents.{
  AccountAdd, PermissionChangePayload, InviteChangePayload, RequestAcceptPayload,
  AccountRemovePayload, OwnershipChangePayload, we_manage, marshalled, encrypted_for, metadata_for,
  ownership_change_content, permission_changes_content, accounts_add_content, invite_content,
  invite_anyone_content, invite_change_content, invite_revoke_content, request_accept_content,
  request_decline_content, account_remove_content,
}

pub record RequestJoinPayload : Type 0 where
  pub invite_key : ℕ
  pub metadata : Bytes

pub record InviteJoinPayload : Type 0 where
  pub invite_key : ℕ
  pub permissions : AclPermissions
  pub metadata : Bytes

-- The loops over the invites: the last one with the key, and the last open one with the key.
unfoldable pub invite_id_from : ℕ → Assoc Invite → ℕ → ℕ
invite_id_from key [] found = found
invite_id_from key ((id, inv) ∷ rest) found =
    invite_id_from key rest (if inv.key == key then id else found)

unfoldable pub open_invite_id_from : ℕ → Assoc Invite → ℕ → ℕ
unfolding same_type
open_invite_id_from key [] found = found
open_invite_id_from key ((id, inv) ∷ rest) found =
    open_invite_id_from key rest
      (if inv.key == key && same_type inv.type anyone_can_join then id else found)

module _ (env : KeyEnv) (signs : SignEnv) where
  -- `decryptReadKeyFromInviteWithoutApprove`: the first invite with the key.
  unfoldable pub decrypt_read_key_from_invite : ℕ → Assoc Invite → Result Error ℕ
  unfolding unmarshall_read_key
  decrypt_read_key_from_invite invite_pk [] = err no_such_invite
  decrypt_read_key_from_invite invite_pk ((id, inv) ∷ rest) =
      let others = decrypt_read_key_from_invite invite_pk rest in
      if inv.key == env.get_public invite_pk
      then unmarshall_read_key env (env.priv_decrypt invite_pk inv.encrypted_read_key)
      else others

  unfoldable pub request_join_content :
      AclRecordBuilder → RequestJoinPayload → Result Error AclContentValue
  unfolding invite_id_from current_metadata_key
  request_join_content b payload = do
    let st = b.state
    let us = env.get_public b.sign_key
    let invite_id = invite_id_from (env.get_public payload.invite_key) st.invites empty_id
    invite ← or_err (get invite_id st.invites) no_such_invite
    guard (env.get_public payload.invite_key == invite.key) incorrect_invite_key
    guard (no_permissions (permissions st us)) insufficient_permissions
    mk_key ← current_metadata_key st
    enc_meta ← metadata_for env signs mk_key payload.metadata
    raw_identity ← or_err (env.raw us) bad_key
    signature ← or_err (signs.sign payload.invite_key raw_identity) bad_key
    identity ← marshalled env signs us
    ok (
        Model.request_join (record {
          invite_identity = identity;
          invite_record_id = invite_id;
          invite_identity_signature = signature;
          metadata = enc_meta;
        }))

  unfoldable pub invite_join_content :
      AclRecordBuilder → InviteJoinPayload → Result Error AclContentValue
  unfolding open_invite_id_from current_metadata_key decrypt_read_key_from_invite
  invite_join_content b payload = do
    let st = b.state
    let us = env.get_public b.sign_key
    let invite_id = open_invite_id_from (env.get_public payload.invite_key) st.invites empty_id
    invite ← or_err (get invite_id st.invites) no_such_invite
    guard (env.get_public payload.invite_key == invite.key) incorrect_invite_key
    guard (no_permissions (permissions st us)) insufficient_permissions
    mk_key ← current_metadata_key st
    enc_meta ← metadata_for env signs mk_key payload.metadata
    raw_identity ← or_err (env.raw us) bad_key
    signature ← or_err (signs.sign payload.invite_key raw_identity) bad_key
    key ← decrypt_read_key_from_invite payload.invite_key st.invites
    read_key ← or_err (signs.sym_marshall key) bad_key
    enc_read_key ← encrypted_for env signs us read_key
    identity ← marshalled env signs us
    ok (
        Model.invite_join (record {
          identity = identity;
          invite_record_id = invite_id;
          invite_identity_signature = signature;
          metadata = enc_meta;
          encrypted_read_key = some enc_read_key;
          permissions = payload.permissions;
        }))

  unfoldable pub request_cancel_content : AclState → ℕ → Result Error AclContentValue
  request_cancel_content st request_record_id = do
    rec ← or_err (get request_record_id st.request_records) no_such_request
    guard (rec.request_identity == st.pub_key) insufficient_permissions
    ok (Model.request_cancel request_record_id)

  unfoldable pub permission_change_content :
      AclState → PermissionChangePayload → Result Error AclContentValue
  permission_change_content st payload = do
    refuse (not (can_manage_accounts (permissions st st.pub_key)) || payload.identity == st.pub_key)
        insufficient_permissions
    refuse (is_owner payload.permissions) is_owner_err
    identity ← marshalled env signs payload.identity
    ok (Model.permission_change (record { identity = identity; permissions = payload.permissions }))

  unfoldable pub read_key_change_content :
      AclState → ReadKeyChangePayload → Result Error AclContentValue
  unfolding build_read_key_change
  read_key_change_content st payload = do
    we_manage st
    rk_change ← build_read_key_change env signs st payload [] []
    ok (Model.read_key_change rk_change)

  unfoldable pub request_remove_content : AclState → Result Error AclContentValue
  request_remove_content st = do
    refuse (no_permissions (permissions st st.pub_key)) no_such_account
    refuse (is_owner (permissions st st.pub_key)) is_owner_err
    refuse (has (get st.pub_key st.pending_requests)) pending_request
    ok Model.account_request_remove

  unfoldable pub space_options_change_content : AclState → Payload → Result Error AclContentValue
  space_options_change_content st options = do
    guard (is_owner (permissions st st.pub_key)) insufficient_permissions
    ok (Model.space_options_change options)

  -- The exported builders: a content, in a record of its own.
  abbrev record_of : AclRecordBuilder → Result Error AclContentValue → Result Error RawRecord
  record_of b content = content >>= build_record env signs b

  abbrev pub build_ownership_change :
      AclRecordBuilder → OwnershipChangePayload → Result Error RawRecord
  build_ownership_change b payload = record_of b (ownership_change_content env signs payload)

  abbrev pub build_permission_changes :
      AclRecordBuilder → List PermissionChangePayload → Result Error RawRecord
  build_permission_changes b changes =
      record_of b (permission_changes_content env signs b.state changes)

  abbrev pub build_accounts_add : AclRecordBuilder → List AccountAdd → Result Error RawRecord
  build_accounts_add b additions =
      record_of b (accounts_add_content env signs b.state none none additions)

  abbrev pub build_invite : AclRecordBuilder → Result Error (ℕ × RawRecord)
  build_invite b = do
    (priv_key, content) ← invite_content env signs b.state (signs.generate_key_pair 0)
    raw ← build_record env signs b content
    ok (priv_key, raw)

  abbrev pub build_invite_anyone : AclRecordBuilder → AclPermissions → Result Error (ℕ × RawRecord)
  build_invite_anyone b perms = do
    (priv_key, content) ← invite_anyone_content env signs b.state (signs.generate_key_pair 0) perms
    raw ← build_record env signs b content
    ok (priv_key, raw)

  abbrev pub build_invite_change : AclRecordBuilder → InviteChangePayload → Result Error RawRecord
  build_invite_change b payload = record_of b (invite_change_content env signs b.state payload)

  abbrev pub build_invite_revoke : AclRecordBuilder → ℕ → Result Error RawRecord
  build_invite_revoke b invite_record_id =
      record_of b (invite_revoke_content env signs b.state invite_record_id)

  abbrev pub build_request_join : AclRecordBuilder → RequestJoinPayload → Result Error RawRecord
  build_request_join b payload = record_of b (request_join_content b payload)

  abbrev pub build_invite_join_without_approve :
      AclRecordBuilder → InviteJoinPayload → Result Error RawRecord
  build_invite_join_without_approve b payload = record_of b (invite_join_content b payload)

  abbrev pub build_request_accept : AclRecordBuilder → RequestAcceptPayload → Result Error RawRecord
  build_request_accept b payload =
      record_of b (request_accept_content env signs b.state payload none)

  abbrev pub build_request_decline : AclRecordBuilder → ℕ → Result Error RawRecord
  build_request_decline b request_record_id =
      record_of b (request_decline_content env signs b.state request_record_id)

  abbrev pub build_request_cancel : AclRecordBuilder → ℕ → Result Error RawRecord
  build_request_cancel b request_record_id =
      record_of b (request_cancel_content b.state request_record_id)

  abbrev pub build_permission_change :
      AclRecordBuilder → PermissionChangePayload → Result Error RawRecord
  build_permission_change b payload = record_of b (permission_change_content b.state payload)

  abbrev pub build_new_read_key : AclRecordBuilder → ReadKeyChangePayload → Result Error RawRecord
  build_new_read_key b payload = record_of b (read_key_change_content b.state payload)

  abbrev pub build_account_remove : AclRecordBuilder → AccountRemovePayload → Result Error RawRecord
  build_account_remove b payload = record_of b (account_remove_content env signs b.state payload)

  abbrev pub build_request_remove : AclRecordBuilder → Result Error RawRecord
  build_request_remove b = record_of b (request_remove_content b.state)

  abbrev pub build_space_options_change : AclRecordBuilder → Payload → Result Error RawRecord
  build_space_options_change b options = record_of b (space_options_change_content b.state options)
