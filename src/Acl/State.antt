-- ===== src/Acl/State.antt =====
-- The queries of the state, and the updates that the handlers share (aclstate.go).
use any_sync.Common.{
  ℕ, suc, ◌≡◌, Bool, true, false, not, ◌&&◌, ◌||◌, List, [], ◌∷◌, Option, none, some, arith, ◌==◌,
  leb, if◌then◌else◌, length, head_or, Result, ok, err, ◌>>=◌, or_err,
}
use any_sync.Common.Assoc.{Assoc, get, put, values, get-put}
use any_sync.Acl.Permissions.{AclPermissions, permissions_none, no_permissions, is_owner}
use any_sync.Acl.Model.{
  Payload, Error, no_such_account, no_such_record, owner_not_found, AclState, AccountState,
  status_none, PermissionChange, OptionChange, AclInviteType, request_to_join, anyone_can_join,
  unknown_type, empty_id, RequestType, request_join, request_remove,
}

-- `state, _ := st.accountStates[k]` of a missing key.
abbrev pub zero_account : AccountState
zero_account = record {
  pub_key = 0;
  permissions = permissions_none;
  status = status_none;
  request_metadata = [];
  key_record_id = empty_id;
  permission_changes = [];
}

abbrev pub account_or_zero : Option AccountState → AccountState
account_or_zero none = zero_account
account_or_zero (some a) = a

abbrev pub account : AclState → ℕ → Option AccountState
account st k = get k st.account_states

abbrev pub permissions_of : Option AccountState → AclPermissions
permissions_of none = permissions_none
permissions_of (some a) = a.permissions

-- `AclState.Permissions`
unfoldable pub permissions : AclState → ℕ → AclPermissions
permissions st k = permissions_of (account st k)

-- `st.accountStates[k] = a`
unfoldable pub set_account : AclState → ℕ → AccountState → AclState
set_account st k a = record st { account_states = put k a st.account_states }

unfoldable pub update_permissions : AclState → ℕ → AclPermissions → ℕ → AclState
unfolding set_account
update_permissions st k p record_id =
    let state = account_or_zero (account st k) in
    set_account st k (record state {
      permissions = p;
      permission_changes =
          (record { record_id = record_id; permission = p }) ∷ state.permission_changes;
    })

-- `CurrentReadKeyId`: the last read key change. Go panics on an empty list; the root always adds one.
unfoldable pub current_read_key_id : AclState → ℕ
current_read_key_id st = head_or empty_id st.read_key_changes

unfoldable pub same_type : AclInviteType → AclInviteType → Bool
same_type request_to_join request_to_join = true
same_type anyone_can_join anyone_can_join = true
same_type (unknown_type m) (unknown_type n) = m == n
same_type _ _ = false

unfoldable pub is_join : RequestType → Bool
is_join request_join = true
is_join request_remove = false

-- The loop of `closestPermissions`, from the newest change to the oldest.
unfoldable pub closest_permissions : (ℕ → ℕ → Bool) → ℕ → List PermissionChange → AclPermissions
closest_permissions is_after record_id [] = permissions_none
closest_permissions is_after record_id (c ∷ cs) =
    if is_after record_id c.record_id
    then c.permission
    else closest_permissions is_after record_id cs

-- `OptionsAtRecord`
unfoldable pub options_at : (ℕ → ℕ → Bool) → ℕ → List OptionChange → Payload
options_at is_after record_id [] = none
options_at is_after record_id (c ∷ cs) =
    if is_after record_id c.record_id then c.options else options_at is_after record_id cs

unfoldable pub current_options : AclState → Payload
current_options st = elim st.option_changes [ [] ↦ none | c ∷ cs ↦ c.options ]

-- `indexes[id]` of a missing id is 0.
abbrev pub index_or_zero : Option ℕ → ℕ
index_or_zero none = 0
index_or_zero (some i) = i

-- `isAfterNoCheck`, over the list's indexes.
unfoldable pub is_after_no_check : Assoc ℕ → ℕ → ℕ → Bool
is_after_no_check indexes first second =
    leb (index_or_zero (get second indexes)) (index_or_zero (get first indexes))

unfoldable pub permissions_at_record : Assoc ℕ → AclState → ℕ → ℕ → Result Error AclPermissions
unfolding closest_permissions is_after_no_check
permissions_at_record indexes st id k = do
  _ ← or_err (get id indexes) no_such_record
  a ← or_err (account st k) no_such_account
  ok (closest_permissions (is_after_no_check indexes) id a.permission_changes)

-- The loop of `ReadKeyForAclId`, from the newest read key change to the oldest.
unfoldable pub read_key_from : Assoc ℕ → ℕ → List ℕ → Result Error ℕ
read_key_from indexes rec_idx [] = err no_such_record
read_key_from indexes rec_idx (r ∷ rs) =
    if leb (index_or_zero (get r indexes)) rec_idx then ok r else read_key_from indexes rec_idx rs

unfoldable pub read_key_for_acl_id : Assoc ℕ → AclState → ℕ → Result Error ℕ
unfolding read_key_from
read_key_for_acl_id indexes st id = do
  rec_idx ← or_err (get id indexes) no_such_record
  read_key_from indexes rec_idx st.read_key_changes

unfoldable pub any_permission : List PermissionChange → Bool
any_permission [] = false
any_permission (c ∷ cs) = not (no_permissions c.permission) || any_permission cs

unfoldable pub had_read_permissions : AclState → ℕ → Bool
unfolding any_permission
had_read_permissions st k = any_permission (account_or_zero (account st k)).permission_changes

unfoldable pub count_users : List AccountState → ℕ
count_users [] = 0
count_users (a ∷ rest_) =
    let rest = count_users rest_ in if no_permissions a.permissions then rest else suc rest

unfoldable pub is_empty : AclState → Bool
unfolding count_users
is_empty st =
    count_users (values st.account_states) == 1
    && length st.invites == 0
    && length st.pending_requests == 0

-- The record that made the account an owner: the last such change, or else its key record.
unfoldable pub owner_record : ℕ → List PermissionChange → ℕ
owner_record key_record_id [] = key_record_id
owner_record key_record_id (c ∷ cs) =
    if is_owner c.permission
    then if c.record_id == empty_id then key_record_id else c.record_id
    else owner_record key_record_id cs

-- `OwnerPubKeyWithRecordId`
unfoldable pub find_owner : List AccountState → Result Error (ℕ × ℕ)
unfolding owner_record
find_owner [] = err owner_not_found
find_owner (a ∷ rest_) =
    if is_owner a.permissions
    then ok (a.pub_key, owner_record a.key_record_id a.permission_changes)
    else find_owner rest_

pub permissions-set_account :
    (st : AclState) (k : ℕ) (a : AccountState) (j : ℕ)
    → permissions (set_account st k a) j ≡ (if k == j then a.permissions else permissions st j)
unfolding permissions set_account
permissions-set_account st k a j = ground (arith, get-put k j a st.account_states)
