-- ===== src/Acl/Validator/Facts.antt =====
-- What a check that passed has established, in the terms of the access policy.
use any_sync.Common.{ℕ, ◌≡◌, true, false, none, some, arith, ok}
use any_sync.Common.Assoc.{get}
use any_sync.Acl.Permissions.{
  no_permissions, is_owner, is_guest, can_manage_accounts, is_less_or_equal,
}
use any_sync.Acl.Model.{
  AclState, AclAccountInvite, AclAccountInviteChange, AclOwnershipChange, AclAccountInviteJoin,
  AclAccountRequestAccept, AclAccountRequestJoin, AclAccountPermissionChange, Invite, RequestRecord,
  KeyEnv, anyone_can_join,
}
use any_sync.Acl.State.{permissions, same_type}
use any_sync.Acl.Validator.{
  validate_permission_change, validate_ownership_change, validate_invite, validate_invite_change,
  validate_invite_join, validate_request_accept, validate_request_join, validate_invite_revoke,
}
use any_sync.Acl.Policy.{admin_by_owner}

module _ (env : KeyEnv) (st : AclState) (on : st.content_validator.should_validate ≡ true) where
  pub permission_change_facts :
      (ch : AclAccountPermissionChange) (author k : ℕ)
      → env.pub_key_from_proto ch.identity ≡ some k
      → validate_permission_change env st ch author ≡ ok tt
      → (can_manage_accounts (permissions st author) ≡ true)
        × (is_owner (permissions st k) ≡ false)
        × (is_owner ch.permissions ≡ false)
        × (admin_by_owner ch.permissions (permissions st author) ≡ true)
        × (admin_by_owner (permissions st k) (permissions st author) ≡ true)
  unfolding validate_permission_change permissions
  permission_change_facts ch author k decoded h = ground arith

  pub ownership_change_facts :
      (ch : AclOwnershipChange) (author k : ℕ)
      → env.pub_key_from_proto ch.new_owner_identity ≡ some k
      → validate_ownership_change env st ch author ≡ ok tt
      → (is_owner (permissions st author) ≡ true)
        × (is_owner (permissions st k) ≡ false)
        × (no_permissions (permissions st k) ≡ false)
        × (is_owner ch.old_owner_permissions ≡ false)
        × (no_permissions ch.old_owner_permissions ≡ false)
  unfolding validate_ownership_change
  ownership_change_facts ch author k decoded h = ground arith

  pub invite_facts :
      (ch : AclAccountInvite) (author : ℕ)
      → validate_invite env st ch author ≡ ok tt
      → (can_manage_accounts (permissions st author) ≡ true)
        × (same_type ch.invite_type anyone_can_join ≡ true
            → (is_owner ch.permissions ≡ false)
              × (no_permissions ch.permissions ≡ false)
              × (is_guest ch.permissions ≡ false)
              × (admin_by_owner ch.permissions (permissions st author) ≡ true))
  unfolding validate_invite
  invite_facts ch author h = (ground arith, λ open_invite. ground arith)

  pub invite_change_facts :
      (ch : AclAccountInviteChange) (author : ℕ) (i : Invite)
      → get ch.invite_record_id st.invites ≡ some i
      → validate_invite_change env st ch author ≡ ok tt
      → (can_manage_accounts (permissions st author) ≡ true)
        × (same_type i.type anyone_can_join ≡ true)
        × (is_owner ch.permissions ≡ false)
        × (no_permissions ch.permissions ≡ false)
        × (is_guest ch.permissions ≡ false)
        × (admin_by_owner ch.permissions (permissions st author) ≡ true)
  unfolding validate_invite_change
  invite_change_facts ch author i found h = ground arith

  pub invite_join_facts :
      (ch : AclAccountInviteJoin) (author k : ℕ) (i : Invite)
      → env.pub_key_from_proto ch.identity ≡ some k
      → get ch.invite_record_id st.invites ≡ some i
      → validate_invite_join env st ch author ≡ ok tt
      → (no_permissions (permissions st author) ≡ true)
        × (same_type i.type anyone_can_join ≡ true)
        × (is_less_or_equal ch.permissions i.permissions ≡ true)
        × (author ≡ k)
  unfolding validate_invite_join
  invite_join_facts ch author k i decoded found h = ground arith

  pub request_accept_facts :
      (ch : AclAccountRequestAccept) (author k : ℕ) (r : RequestRecord)
      → env.pub_key_from_proto ch.identity ≡ some k
      → get ch.request_record_id st.request_records ≡ some r
      → validate_request_accept env st ch author ≡ ok tt
      → (can_manage_accounts (permissions st author) ≡ true)
        × (is_owner ch.permissions ≡ false)
        × (admin_by_owner ch.permissions (permissions st author) ≡ true)
        × (k ≡ r.request_identity)
  unfolding validate_request_accept
  request_accept_facts ch author k r decoded found h = ground arith

  pub request_join_facts :
      (ch : AclAccountRequestJoin) (author : ℕ)
      → validate_request_join env st ch author ≡ ok tt
      → (no_permissions (permissions st author) ≡ true) × (get author st.pending_requests ≡ none)
  unfolding validate_request_join
  request_join_facts ch author h = ground arith

  pub invite_revoke_facts :
      (id author : ℕ)
      → validate_invite_revoke env st id author ≡ ok tt
      → can_manage_accounts (permissions st author) ≡ true
  unfolding validate_invite_revoke
  invite_revoke_facts id author h = ground arith
