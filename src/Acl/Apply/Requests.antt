-- ===== src/Acl/Apply/Requests.antt =====
-- The handlers of requests, and the join by an open invite (aclstate.go).
use any_sync.Common.{ℕ, [], ◌∷◌, none, some, if◌then◌else◌, Result, ok, ◌>>=◌, ◌>>◌, guard, or_err}
use any_sync.Common.Assoc.{get}
use any_sync.Acl.Permissions.{permissions_none, no_permissions, can_request_remove}
use any_sync.Acl.Model.{
  Bytes, Payload, Error, no_such_account, insufficient_permissions, bad_key, bad_encoding, panic,
  add_record_one_to_one, incorrect_record_sequence, incorrect_root, empty_record_id,
  empty_acl_record_data, empty_id, AclState, AccountState, AclKeys, AclStatus, PermissionChange,
  RequestRecord, RequestType, AclAccountInvite, AclAccountInviteChange, AclOwnershipChange,
  AclAccountRequestJoin, AclAccountInviteJoin, AclAccountRequestAccept, AclAccountAdd,
  AclAccountPermissionChange, AclReadKeyChange, AclAccountRemove, AclContentValue, AclRoot,
  AclRecord, KeyEnv, no_model, acl_data, acl_root, ContentValidator,
}
use any_sync.Acl.Model
use any_sync.Acl.State.{account, account_or_zero, set_account, current_read_key_id, is_join}
use any_sync.Acl.Validator.{
  validate_request_join, validate_request_accept, validate_invite_join, validate_request_decline,
  validate_request_cancel, validate_request_remove,
}
use any_sync.Acl.Apply.Updates.{
  history, changed_to, drop_request, add_request, drop_own_request, pub_key, unpack_own,
}

module _ (env : KeyEnv) where
  unfoldable pub apply_request_join :
      AclState → AclAccountRequestJoin → AclRecord → Result Error AclState
  unfolding add_request
  apply_request_join st ch rec = do
    validate_request_join env st ch rec.identity
    let request : RequestRecord = record {
      request_identity = rec.identity;
      request_metadata = ch.metadata;
      key_record_id = current_read_key_id st;
      record_id = rec.id;
      type = Model.request_join;
    }
    let joining : AccountState = record {
      pub_key = rec.identity;
      permissions = permissions_none;
      status = Model.joining;
      request_metadata = ch.metadata;
      key_record_id = current_read_key_id st;
      permission_changes = history (account st rec.identity);
    }
    ok (set_account (add_request st rec.identity request) rec.identity joining)

  -- The rest of `applyRequestAccept`, with the request record.
  unfoldable pub accept_request :
      AclState → AclAccountRequestAccept → AclRecord → ℕ → RequestRecord → Result Error AclState
  unfolding unpack_own drop_request
  accept_request st ch rec identity request =
      let accepted : AccountState = record {
        pub_key = identity;
        permissions = ch.permissions;
        status = Model.active;
        request_metadata = request.request_metadata;
        key_record_id = request.key_record_id;
        permission_changes = changed_to rec.id ch.permissions ∷ history (account st identity);
      } in
      unpack_own env
        (drop_request (set_account st identity accepted) request.request_identity
          ch.request_record_id)
        identity ch.encrypted_read_key

  unfoldable pub apply_request_accept :
      AclState → AclAccountRequestAccept → AclRecord → Result Error AclState
  unfolding accept_request
  apply_request_accept st ch rec = do
    validate_request_accept env st ch rec.identity
    identity ← pub_key env ch.identity
    elim (get ch.request_record_id st.request_records) [
      | none ↦ ok st
      | some request ↦ accept_request st ch rec identity request
    ]

  -- The rest of `applyInviteJoinWithoutApprove`, with the invite.
  unfoldable pub join_by_invite :
      AclState → AclAccountInviteJoin → AclRecord → ℕ → Model.Invite → Result Error AclState
  unfolding unpack_own drop_own_request
  join_by_invite st ch rec identity i =
      let p = if no_permissions ch.permissions then i.permissions else ch.permissions in
      let joined : AccountState = record {
        pub_key = identity;
        permissions = p;
        status = Model.active;
        request_metadata = ch.metadata;
        key_record_id = current_read_key_id st;
        permission_changes = changed_to rec.id p ∷ history (account st identity);
      } in
      unpack_own env (drop_own_request (set_account st identity joined) identity) identity
        ch.encrypted_read_key

  unfoldable pub apply_invite_join_without_approve :
      AclState → AclAccountInviteJoin → AclRecord → Result Error AclState
  unfolding join_by_invite
  apply_invite_join_without_approve st ch rec = do
    validate_invite_join env st ch rec.identity
    identity ← pub_key env ch.identity
    elim (get ch.invite_record_id st.invites) [
      | none ↦ ok st
      | some i ↦ join_by_invite st ch rec identity i
    ]

  unfoldable pub apply_request_decline : AclState → ℕ → AclRecord → Result Error AclState
  unfolding drop_request
  apply_request_decline st request_record_id rec = do
    validate_request_decline env st request_record_id rec.identity
    elim (get request_record_id st.request_records) [
      | none ↦ ok st
      | some request ↦ do
        acc ← or_err (account st request.request_identity) no_such_account
        ok (
            drop_request
              (set_account st request.request_identity (record acc { status = Model.declined }))
              request.request_identity request_record_id)
    ]

  unfoldable pub apply_request_cancel : AclState → ℕ → AclRecord → Result Error AclState
  unfolding drop_request
  apply_request_cancel st record_id rec = do
    validate_request_cancel env st record_id rec.identity
    elim (get record_id st.request_records) [
      | none ↦ ok st
      | some request ↦ do
        acc ← or_err (account st request.request_identity) no_such_account
        let status = if is_join request.type then Model.canceled else Model.active
        ok (
            drop_request (set_account st request.request_identity (record acc { status = status }))
              request.request_identity record_id)
    ]

  unfoldable pub apply_request_remove : AclState → AclRecord → Result Error AclState
  unfolding add_request
  apply_request_remove st rec = do
    validate_request_remove env st rec.identity
    let request : RequestRecord = record {
      request_identity = rec.identity;
      request_metadata = [];
      key_record_id = empty_id;
      record_id = rec.id;
      type = Model.request_remove;
    }
    let st' = add_request st rec.identity request
    guard (can_request_remove (account_or_zero (account st rec.identity)).permissions)
        insufficient_permissions
    acc ← or_err (account st rec.identity) no_such_account
    ok (set_account st' rec.identity (record acc { status = Model.removing }))
