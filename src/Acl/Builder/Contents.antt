-- ===== src/Acl/Builder/Contents.antt =====
-- The contents that an account which manages the space has built (aclrecordbuilder.go).
use any_sync.Common.{
  ℕ, List, [], ◌∷◌, Option, none, some, ◌==◌, ltb, length, Result, ok, err, ◌>>=◌, ◌>>◌, guard,
  refuse, or_err,
}
use any_sync.Common.Assoc.{get}
use any_sync.Acl.Permissions.{
  AclPermissions, no_permissions, is_owner, can_manage_accounts, permissions_none,
}
use any_sync.Acl.Model.{
  Bytes, Payload, Error, no_read_key, no_such_account, no_such_request, no_such_invite,
  insufficient_permissions, is_owner_err, duplicate_accounts, metadata_too_large, bad_key, panic,
  max_metadata_len, AclState, AclInviteType, request_to_join, anyone_can_join, AclAccountAdd,
  AclAccountPermissionChange, AclContentValue, KeyEnv,
}
use any_sync.Acl.Model
use any_sync.Acl.State.{permissions, is_join}
use any_sync.Acl.Builder.{
  SignEnv, ReadKeyChangePayload, current_read_key, current_metadata_key, build_read_key_change,
}

pub record AccountAdd : Type 0 where
  pub identity : ℕ
  pub permissions : AclPermissions
  pub metadata : Bytes

pub record PermissionChangePayload : Type 0 where
  pub identity : ℕ
  pub permissions : AclPermissions

pub record InviteChangePayload : Type 0 where
  pub invite_record_id : ℕ
  pub permissions : AclPermissions

pub record RequestAcceptPayload : Type 0 where
  pub request_record_id : ℕ
  pub permissions : AclPermissions

pub record AccountRemovePayload : Type 0 where
  pub identities : List ℕ
  pub change : ReadKeyChangePayload

pub record OwnershipChangePayload : Type 0 where
  pub new_owner : ℕ
  pub old_owner_permissions : AclPermissions

-- The test that most builders start with, of our own role.
abbrev pub we_manage : AclState → Result Error (Unit {0})
we_manage st = guard (can_manage_accounts (permissions st st.pub_key)) insufficient_permissions

-- A key that is given, or else the current one of the state.
abbrev pub read_key_or_current : AclState → Option ℕ → Result Error ℕ
read_key_or_current st (some k) = ok k
read_key_or_current st none = elim (current_read_key st) [
  | err e ↦ err no_read_key
  | ok k ↦ or_err k panic
]

abbrev pub metadata_key_or_current : AclState → Option ℕ → Result Error ℕ
metadata_key_or_current st (some k) = ok k
metadata_key_or_current st none = current_metadata_key st

module _ (env : KeyEnv) (signs : SignEnv) where
  abbrev pub marshalled : ℕ → Result Error Bytes
  marshalled k = or_err (env.marshall k) bad_key

  abbrev pub encrypted_for : ℕ → Bytes → Result Error Bytes
  encrypted_for k b = or_err (signs.pub_encrypt k b) bad_key

  abbrev pub metadata_for : ℕ → Bytes → Result Error Bytes
  metadata_for k metadata = do
    enc_meta ← encrypted_for k metadata
    refuse (ltb max_metadata_len (length enc_meta)) metadata_too_large
    ok enc_meta

  unfoldable pub ownership_change_content : OwnershipChangePayload → Result Error AclContentValue
  ownership_change_content payload = do
    new_owner ← marshalled payload.new_owner
    ok (
        Model.ownership_change (record {
          new_owner_identity = new_owner;
          old_owner_permissions = payload.old_owner_permissions;
        }))

  -- The loop of `buildPermissionChanges`.
  unfoldable pub permission_changes_of :
      AclState → List PermissionChangePayload → Result Error (List AclAccountPermissionChange)
  permission_changes_of st [] = ok []
  permission_changes_of st (perm ∷ rest) = do
    refuse (perm.identity == st.pub_key) insufficient_permissions
    refuse (is_owner perm.permissions) is_owner_err
    identity ← marshalled perm.identity
    changes ← permission_changes_of st rest
    ok ((record { identity = identity; permissions = perm.permissions }) ∷ changes)

  unfoldable pub permission_changes_content :
      AclState → List PermissionChangePayload → Result Error AclContentValue
  unfolding permission_changes_of
  permission_changes_content st changes = do
    we_manage st
    chs ← permission_changes_of st changes
    ok (Model.permission_changes chs)

  -- The loop of `buildAccountsAdd`; a key that is nil is looked up for the first account, and kept.
  unfoldable pub additions_of :
      AclState → Option ℕ → Option ℕ → List AccountAdd → Result Error (List AclAccountAdd)
  unfolding current_read_key current_metadata_key
  additions_of st mk_key read_key [] = ok []
  additions_of st mk_key read_key (acc ∷ rest) = do
    guard (no_permissions (permissions st acc.identity)) duplicate_accounts
    refuse (is_owner acc.permissions) is_owner_err
    mk ← metadata_key_or_current st mk_key
    enc_meta ← metadata_for mk acc.metadata
    key ← read_key_or_current st read_key
    proto_key ← or_err (signs.sym_marshall key) bad_key
    enc ← encrypted_for acc.identity proto_key
    identity ← marshalled acc.identity
    accs ← additions_of st (some mk) (some key) rest
    ok (
        (record {
          identity = identity;
          permissions = acc.permissions;
          metadata = enc_meta;
          encrypted_read_key = some enc;
        })
        ∷ accs)

  unfoldable pub accounts_add_content :
      AclState → Option ℕ → Option ℕ → List AccountAdd → Result Error AclContentValue
  unfolding additions_of
  accounts_add_content st mk_key read_key additions = do
    accs ← additions_of st mk_key read_key additions
    ok (Model.accounts_add accs)

  -- `buildInvite`, with the key pair as `GenerateRandomEd25519KeyPair` returned it.
  unfoldable pub invite_content : AclState → Option (ℕ × ℕ) → Result Error (ℕ × AclContentValue)
  invite_content st pair = do
    we_manage st
    (priv_key, pub_key) ← or_err pair bad_key
    invite_key ← marshalled pub_key
    ok (
      priv_key,
      Model.invite (record {
        invite_key = invite_key;
        invite_type = request_to_join;
        permissions = permissions_none;
        encrypted_read_key = none;
      }),
    )

  unfoldable pub invite_anyone_content :
      AclState → Option (ℕ × ℕ) → AclPermissions → Result Error (ℕ × AclContentValue)
  unfolding current_read_key
  invite_anyone_content st pair perms = do
    we_manage st
    (priv_key, pub_key) ← or_err pair bad_key
    invite_key ← marshalled pub_key
    current ← current_read_key st
    cur_read_key ← or_err current panic
    raw ← or_err (signs.sym_marshall cur_read_key) bad_key
    enc_read_key ← encrypted_for pub_key raw
    ok (
      priv_key,
      Model.invite (record {
        invite_key = invite_key;
        invite_type = anyone_can_join;
        permissions = perms;
        encrypted_read_key = some enc_read_key;
      }),
    )

  unfoldable pub invite_change_content :
      AclState → InviteChangePayload → Result Error AclContentValue
  invite_change_content st payload = do
    we_manage st
    ok (
        Model.invite_change (record {
          invite_record_id = payload.invite_record_id;
          permissions = payload.permissions;
        }))

  unfoldable pub invite_revoke_content : AclState → ℕ → Result Error AclContentValue
  invite_revoke_content st invite_record_id = do
    we_manage st
    _ ← or_err (get invite_record_id st.invites) no_such_invite
    ok (Model.invite_revoke invite_record_id)

  unfoldable pub request_accept_content :
      AclState → RequestAcceptPayload → Option ℕ → Result Error AclContentValue
  unfolding current_read_key
  request_accept_content st payload read_key = do
    we_manage st
    request ← or_err (get payload.request_record_id st.request_records) no_such_request
    key ← read_key_or_current st read_key
    proto_key ← or_err (signs.sym_marshall key) bad_key
    enc ← encrypted_for request.request_identity proto_key
    identity ← marshalled request.request_identity
    ok (
        Model.request_accept (record {
          identity = identity;
          request_record_id = payload.request_record_id;
          encrypted_read_key = some enc;
          permissions = payload.permissions;
        }))

  unfoldable pub request_decline_content : AclState → ℕ → Result Error AclContentValue
  request_decline_content st request_record_id = do
    we_manage st
    rec ← or_err (get request_record_id st.request_records) no_such_request
    guard (is_join rec.type) no_such_request
    ok (Model.request_decline request_record_id)

  -- The first loop of `buildAccountRemove`.
  unfoldable pub check_removed : AclState → List ℕ → Result Error (Unit {0})
  check_removed st [] = ok tt
  check_removed st (k ∷ ks) = do
    refuse (is_owner (permissions st k)) insufficient_permissions
    refuse (no_permissions (permissions st k)) no_such_account
    check_removed st ks

  unfoldable pub marshalled_all : List ℕ → Result Error (List Bytes)
  marshalled_all [] = ok []
  marshalled_all (k ∷ ks) = do b ← marshalled k; rest ← marshalled_all ks; ok (b ∷ rest)

  unfoldable pub account_remove_content :
      AclState → AccountRemovePayload → Result Error AclContentValue
  unfolding check_removed marshalled_all build_read_key_change
  account_remove_content st payload = do
    check_removed st payload.identities
    we_manage st
    identities ← marshalled_all payload.identities
    rk_change ← build_read_key_change env signs st payload.change payload.identities []
    ok (Model.account_remove (record { identities = identities; read_key_change = some rk_change }))
