-- ===== src/Acl/Validator.antt =====
-- The content validator (validator.go). Each check returns the error of the first test that fails;
-- without `should_validate` every check passes.
pub mod KeyChange
pub mod Facts
pub mod KeyPerm
use any_sync.Common.{
  ℕ, suc, zero, ◌≡◌, refl, Bool, true, false, not, ◌&&◌, ◌||◌, List, [], ◌∷◌, Option, none, some,
  arith, ◌==◌, ltb, if◌then◌else◌, length, contains, Result, ok, err, ◌>>=◌, ◌>>◌, guard, refuse,
  or_err,
}
use any_sync.Common.Assoc.{get}
use any_sync.Acl.Permissions.{
  AclPermissions, same_permissions, no_permissions, is_owner, is_admin, is_guest, reader,
  can_manage_accounts, is_less_or_equal,
}
use any_sync.Acl.Model.{
  Bytes, Payload, Error, no_such_account, pending_request, unexpected_content_type,
  incorrect_identity, no_such_request, no_such_invite, insufficient_permissions, is_owner_err,
  duplicate_accounts, no_acl_content, incorrect_read_key, invalid_signature, metadata_too_large,
  incorrect_record_sequence, bad_key, panic, max_metadata_len, AclState, AccountState, AclStatus,
  active, anyone_can_join, request_to_join, AclAccountInvite, AclAccountInviteChange,
  AclOwnershipChange, AclAccountRequestJoin, AclAccountInviteJoin, AclAccountRequestAccept,
  AclAccountAdd, AclAccountPermissionChange, AclReadKeyChange, AclAccountRemove, AclContentValue,
  KeyEnv,
}
use any_sync.Acl.Model
use any_sync.Acl.State.{permissions, account, account_or_zero, same_type, is_join}
use KeyChange.{check_read_key_change, is_nil}

abbrev pub Check : Type 0
Check = Result Error (Unit {0})

-- `if !c.verifier.ShouldValidate() { return nil }`
abbrev pub validated : AclState → Check → Check
validated st check = if st.content_validator.should_validate then check else ok tt

abbrev pub has {ℓ} : {A : Type ℓ} → Option A → Bool
has none = false
has (some a) = true

unfoldable pub is_active : AclStatus → Bool
is_active active = true
is_active _ = false

-- The role tests that a new or changed invite must pass, in the order of the code.
unfoldable pub grantable_by_invite : AclPermissions → AclPermissions → Check
grantable_by_invite author_perms p = do
  refuse (is_owner p || no_permissions p || is_guest p) insufficient_permissions
  refuse (is_admin p && not (is_owner author_perms)) insufficient_permissions

module _ (env : KeyEnv) where
  abbrev pub_key : Bytes → Result Error ℕ
  pub_key b = or_err (env.pub_key_from_proto b) bad_key

  -- The signature that proves that the joining account holds the invite's private key.
  unfoldable pub check_signature : ℕ → ℕ → Bytes → Check
  check_signature invite_key identity signature = do
    raw ← or_err (env.raw identity) bad_key
    ok? ← or_err (env.verify invite_key raw signature) invalid_signature
    guard ok? invalid_signature

  unfoldable pub validate_permission_change : AclState → AclAccountPermissionChange → ℕ → Check
  validate_permission_change st ch author = validated st do
    let author_perms = permissions st author
    guard (can_manage_accounts author_perms) insufficient_permissions
    identity ← pub_key ch.identity
    current ← or_err (account st identity) no_such_account
    refuse (is_guest current.permissions) insufficient_permissions
    refuse (is_owner current.permissions) insufficient_permissions
    refuse (is_admin current.permissions && not (is_owner author_perms)) insufficient_permissions
    refuse (is_owner ch.permissions) insufficient_permissions
    refuse (is_admin ch.permissions && not (is_owner author_perms)) insufficient_permissions
    refuse (is_guest ch.permissions && not (same_permissions current.permissions reader))
        insufficient_permissions

  unfoldable pub validate_permission_changes :
      AclState → List AclAccountPermissionChange → ℕ → Check
  unfolding validate_permission_change
  validate_permission_changes st [] author = ok tt
  validate_permission_changes st (ch ∷ chs) author = do
    validate_permission_change st ch author
    validate_permission_changes st chs author

  unfoldable pub validate_ownership_change : AclState → AclOwnershipChange → ℕ → Check
  unfolding is_active
  validate_ownership_change st ch author = validated st do
    guard (is_owner (permissions st author)) insufficient_permissions
    identity ← pub_key ch.new_owner_identity
    let new_owner_perms = permissions st identity
    refuse (no_permissions new_owner_perms) no_such_account
    refuse
        (not (is_active (account_or_zero (account st identity)).status)
          || is_owner new_owner_perms
          || is_owner ch.old_owner_permissions
          || no_permissions ch.old_owner_permissions)
        insufficient_permissions

  -- The loop of `ValidateAccountsAdd`.
  unfoldable pub check_additions : AclState → AclPermissions → List AclAccountAdd → Check
  check_additions st author_perms [] = ok tt
  check_additions st author_perms (a ∷ rest) = do
    identity ← pub_key a.identity
    guard (no_permissions (permissions st identity)) duplicate_accounts
    refuse (is_owner a.permissions) is_owner_err
    refuse (no_permissions a.permissions) insufficient_permissions
    refuse (is_admin a.permissions && not (is_owner author_perms)) insufficient_permissions
    check_additions st author_perms rest

  unfoldable pub validate_accounts_add : AclState → List AclAccountAdd → ℕ → Check
  unfolding check_additions
  validate_accounts_add st additions author = validated st do
    guard (can_manage_accounts (permissions st author)) insufficient_permissions
    check_additions st (permissions st author) additions

  -- What `ValidateInvite` asks of an invite that anyone can join by.
  unfoldable pub check_open_invite : AclPermissions → AclAccountInvite → Check
  unfolding grantable_by_invite
  check_open_invite author_perms ch = do
    grantable_by_invite author_perms ch.permissions
    refuse (is_nil ch.encrypted_read_key) incorrect_read_key

  unfoldable pub validate_invite : AclState → AclAccountInvite → ℕ → Check
  unfolding check_open_invite
  validate_invite st ch author = validated st do
    let author_perms = permissions st author
    guard (can_manage_accounts author_perms) insufficient_permissions
    if same_type ch.invite_type anyone_can_join then check_open_invite author_perms ch else ok tt
    _ ← pub_key ch.invite_key
    ok tt

  unfoldable pub validate_invite_change : AclState → AclAccountInviteChange → ℕ → Check
  unfolding grantable_by_invite
  validate_invite_change st ch author = validated st do
    let author_perms = permissions st author
    guard (can_manage_accounts author_perms) insufficient_permissions
    invite ← or_err (get ch.invite_record_id st.invites) no_such_invite
    guard (same_type invite.type anyone_can_join) no_such_invite
    refuse (same_permissions invite.permissions ch.permissions) insufficient_permissions
    grantable_by_invite author_perms ch.permissions

  unfoldable pub validate_invite_revoke : AclState → ℕ → ℕ → Check
  validate_invite_revoke st invite_record_id author = validated st do
    guard (can_manage_accounts (permissions st author)) insufficient_permissions
    _ ← or_err (get invite_record_id st.invites) no_such_invite
    ok tt

  unfoldable pub validate_request_join : AclState → AclAccountRequestJoin → ℕ → Check
  unfolding check_signature
  validate_request_join st ch author = validated st do
    invite ← or_err (get ch.invite_record_id st.invites) no_such_invite
    guard (no_permissions (permissions st author)) insufficient_permissions
    guard (same_type invite.type request_to_join) no_such_invite
    invite_identity ← pub_key ch.invite_identity
    refuse (has (get invite_identity st.pending_requests)) pending_request
    guard (author == invite_identity) incorrect_identity
    check_signature invite.key invite_identity ch.invite_identity_signature
    refuse (ltb max_metadata_len (length ch.metadata)) metadata_too_large

  unfoldable pub validate_invite_join : AclState → AclAccountInviteJoin → ℕ → Check
  unfolding check_signature
  validate_invite_join st ch author = validated st do
    guard (no_permissions (permissions st author)) insufficient_permissions
    invite ← or_err (get ch.invite_record_id st.invites) no_such_invite
    guard (same_type invite.type anyone_can_join) no_such_invite
    guard (is_less_or_equal ch.permissions invite.permissions) insufficient_permissions
    guard (no_permissions (permissions st author)) insufficient_permissions
    invite_identity ← pub_key ch.identity
    guard (author == invite_identity) incorrect_identity
    check_signature invite.key invite_identity ch.invite_identity_signature
    refuse (ltb max_metadata_len (length ch.metadata)) metadata_too_large
    refuse (is_nil ch.encrypted_read_key) incorrect_read_key

  unfoldable pub validate_request_accept : AclState → AclAccountRequestAccept → ℕ → Check
  validate_request_accept st ch author = validated st do
    let author_perms = permissions st author
    guard (can_manage_accounts author_perms) insufficient_permissions
    request ← or_err (get ch.request_record_id st.request_records) no_such_request
    accept_identity ← pub_key ch.identity
    guard (accept_identity == request.request_identity) incorrect_identity
    refuse (is_owner ch.permissions) insufficient_permissions
    refuse (is_admin ch.permissions && not (is_owner author_perms)) insufficient_permissions

  unfoldable pub validate_request_decline : AclState → ℕ → ℕ → Check
  validate_request_decline st request_record_id author = validated st do
    guard (can_manage_accounts (permissions st author)) insufficient_permissions
    request ← or_err (get request_record_id st.request_records) no_such_request
    guard (is_join request.type) no_such_request

  unfoldable pub validate_request_cancel : AclState → ℕ → ℕ → Check
  validate_request_cancel st record_id author = validated st do
    request ← or_err (get record_id st.request_records) no_such_request
    guard (request.request_identity == author) insufficient_permissions

  -- The loop of `ValidateAccountRemove`; it returns the identities seen.
  unfoldable pub check_removals : AclState → ℕ → List Bytes → List ℕ → Result Error (List ℕ)
  check_removals st author [] seen = ok seen
  check_removals st author (b ∷ rest) seen = do
    identity ← pub_key b
    refuse (identity == author) insufficient_permissions
    let p = permissions st identity
    refuse (no_permissions p) no_such_account
    refuse (is_owner p) insufficient_permissions
    refuse (is_admin p && not (is_owner (permissions st author))) insufficient_permissions
    refuse (contains identity seen) duplicate_accounts
    check_removals st author rest (identity ∷ seen)

  -- A removal without a read key change is a nil dereference.
  unfoldable pub validate_account_remove : AclState → AclAccountRemove → ℕ → Check
  unfolding check_removals
  validate_account_remove st ch author = validated st do
    guard (can_manage_accounts (permissions st author)) insufficient_permissions
    seen ← check_removals st author ch.identities []
    key_change ← or_err ch.read_key_change panic
    check_read_key_change env st key_change seen

  unfoldable pub validate_request_remove : AclState → ℕ → Check
  validate_request_remove st author = validated st do
    refuse (no_permissions (permissions st author)) insufficient_permissions
    refuse (is_owner (permissions st author)) is_owner_err
    refuse (has (get author st.pending_requests)) pending_request

  unfoldable pub validate_read_key_change : AclState → AclReadKeyChange → ℕ → Check
  validate_read_key_change st ch author = validated st do
    guard (can_manage_accounts (permissions st author)) insufficient_permissions
    check_read_key_change env st ch []

  unfoldable pub validate_space_options_change : AclState → ℕ → Check
  validate_space_options_change st author =
      validated st (guard (is_owner (permissions st author)) insufficient_permissions)

  -- `validateAclRecordContent`: ownership changes, invite changes and cancels fall to the default.
  unfoldable pub validate_content : AclState → AclContentValue → ℕ → Check
  unfolding validate_permission_changes validate_accounts_add validate_invite validate_invite_revoke
      validate_request_join validate_invite_join validate_request_accept validate_request_decline
      validate_account_remove validate_request_remove validate_read_key_change
      validate_space_options_change
  validate_content st (Model.permission_change ch) author = validate_permission_change st ch author
  validate_content st (Model.invite ch) author = validate_invite st ch author
  validate_content st (Model.invite_revoke r) author = validate_invite_revoke st r author
  validate_content st (Model.request_join ch) author = validate_request_join st ch author
  validate_content st (Model.invite_join ch) author = validate_invite_join st ch author
  validate_content st (Model.request_accept ch) author = validate_request_accept st ch author
  validate_content st (Model.request_decline r) author = validate_request_decline st r author
  validate_content st (Model.account_remove ch) author = validate_account_remove st ch author
  validate_content st Model.account_request_remove author = validate_request_remove st author
  validate_content st (Model.read_key_change ch) author = validate_read_key_change st ch author
  validate_content st (Model.permission_changes chs) author =
      validated st (validate_permission_changes st chs author)
  validate_content st (Model.accounts_add additions) author =
      validate_accounts_add st additions author
  validate_content st (Model.space_options_change o) author =
      validate_space_options_change st author
  validate_content st _ author = err unexpected_content_type

-- `ValidateAclData`: a new record must carry content, and no empty batch of permission changes.
unfoldable pub is_empty_batch : AclContentValue → Bool
is_empty_batch (Model.permission_changes []) = true
is_empty_batch _ = false

unfoldable pub has_empty_batch : List AclContentValue → Bool
unfolding is_empty_batch
has_empty_batch [] = false
has_empty_batch (c ∷ cs) = is_empty_batch c || has_empty_batch cs

unfoldable pub validate_acl_data : AclState → List AclContentValue → Check
unfolding has_empty_batch
validate_acl_data st contents = if not st.content_validator.admission then ok tt else do
  refuse (length contents == 0) no_acl_content
  refuse (has_empty_batch contents) no_acl_content

unfoldable pub validate_unexpected_content : AclState → Check
validate_unexpected_content st = refuse st.content_validator.admission unexpected_content_type
