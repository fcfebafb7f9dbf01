-- ===== src/Acl/History/Handlers.antt =====
-- Every handler keeps the histories in step with the roles.
use any_sync.Common.{
  ℕ, ◌≡◌, refl, sym, ap, ◌∙◌, Bool, true, some, arith, if◌then◌else◌, Option-cases, inl, inr, ok,
  ◌>>=◌, >>=-eq-ok, ok-injective, or_err, guard,
}
use any_sync.Common.Assoc.{get}
use any_sync.Acl.Permissions.{permissions_none, owner, no_permissions-eq_none, can_request_remove}
use any_sync.Acl.Model
use any_sync.Acl.Model.{
  Bytes, Payload, AclState, AclRecord, AccountState, AclContentValue, AclReadKeyChange,
  AclAccountAdd, AclAccountRemove, AclAccountRequestJoin, AclAccountPermissionChange,
  AclOwnershipChange, AclAccountRequestAccept, AclAccountInviteJoin, KeyEnv, bad_key,
  no_such_account, insufficient_permissions, panic,
}
use any_sync.Acl.State.{permissions, permissions_of, account, set_account, is_join}
use any_sync.Acl.Validator.{
  validate_ownership_change, validate_permission_change, validate_invite, validate_invite_change,
  validate_invite_revoke, validate_space_options_change, validate_request_join,
  validate_request_accept, validate_invite_join, validate_request_decline, validate_request_cancel,
  validate_request_remove, validate_read_key_change,
}
use any_sync.Acl.Validator.Facts.{request_join_facts}
use any_sync.Acl.Apply.Updates.{drop_request}
use any_sync.Acl.Apply.Roles.{
  apply_ownership_change, apply_permission_change, apply_invite, apply_invite_change,
  apply_invite_revoke, apply_space_options_change,
}
use any_sync.Acl.Apply.Requests.{
  apply_request_join, apply_request_accept, accept_request, apply_invite_join_without_approve,
  join_by_invite, apply_request_decline, apply_request_cancel, apply_request_remove,
}
use any_sync.Acl.Apply.Accounts.{apply_read_key_change}
use any_sync.Acl.Policy.Access.{
  SameAccess, SameAccess-trans, SameAccess-eq, set_account-SameAccess, drop_request-SameAccess,
  add_request-SameAccess, unpack_own-SameAccess, drop_own_request-SameAccess, change_read_key-keeps,
}
use any_sync.Acl.History.{IsRecorded, newest, set_account-IsRecorded, update_permissions-IsRecorded}

pub IsRecorded-eq : {st st' : AclState} → st ≡ st' → IsRecorded st → IsRecorded st'
IsRecorded-eq e r = rw (← e) r

same_accounts-IsRecorded :
    (st st' : AclState) → st'.account_states ≡ st.account_states → IsRecorded st → IsRecorded st'
same_accounts-IsRecorded st st' e r k = rw e (r k)

-- A change of status leaves the role and the history.
status-IsRecorded :
    (st : AclState) (k : ℕ) (a b : AccountState) (st' : AclState)
    → account st k ≡ some a
    → b.permissions ≡ a.permissions
    → b.permission_changes ≡ a.permission_changes
    → SameAccess (set_account st k b) st'
    → IsRecorded st
    → IsRecorded st'
status-IsRecorded st k a b st' found p c s r =
    set_account-IsRecorded st k b st' s (p ∙ ((rw found at (r k)) ∙ ap newest (sym c))) r

module _ (env : KeyEnv) (st : AclState) (r : IsRecorded st) where
  pub ownership_change-IsRecorded :
      (ch : AclOwnershipChange) (rec : AclRecord) (st' : AclState)
      → apply_ownership_change env st ch rec ≡ ok st'
      → IsRecorded st'
  unfolding apply_ownership_change
  ownership_change-IsRecorded ch rec st' h =
      let (_, _, h1) = >>=-eq-ok (validate_ownership_change env st ch rec.identity) _ h in
      let (k, _, h2) =
        >>=-eq-ok (or_err (env.pub_key_from_proto ch.new_owner_identity) bad_key) _ h1 in
      IsRecorded-eq (ok-injective h2) (
        update_permissions-IsRecorded _ k owner rec.id
          (update_permissions-IsRecorded st rec.identity ch.old_owner_permissions rec.id r))

  pub permission_change-IsRecorded :
      (ch : AclAccountPermissionChange) (rec : AclRecord) (st' : AclState)
      → apply_permission_change env st ch rec ≡ ok st'
      → IsRecorded st'
  unfolding apply_permission_change
  permission_change-IsRecorded ch rec st' h =
      let (k, _, h1) = >>=-eq-ok (or_err (env.pub_key_from_proto ch.identity) bad_key) _ h in
      let (_, _, h2) = >>=-eq-ok (validate_permission_change env st ch rec.identity) _ h1 in
      IsRecorded-eq (ok-injective h2) (update_permissions-IsRecorded st k ch.permissions rec.id r)

  pub invite-IsRecorded :
      (ch : Model.AclAccountInvite) (rec : AclRecord) (st' : AclState)
      → apply_invite env st ch rec ≡ ok st'
      → IsRecorded st'
  unfolding apply_invite
  invite-IsRecorded ch rec st' h =
      let (_, _, h1) = >>=-eq-ok (or_err (env.pub_key_from_proto ch.invite_key) bad_key) _ h in
      let (_, _, h2) = >>=-eq-ok (validate_invite env st ch rec.identity) _ h1 in
      same_accounts-IsRecorded st st' (sym (ap (λ s. s.account_states) (ok-injective h2))) r

  pub invite_change-IsRecorded :
      (ch : Model.AclAccountInviteChange) (rec : AclRecord) (st' : AclState)
      → apply_invite_change env st ch rec ≡ ok st'
      → IsRecorded st'
  unfolding apply_invite_change
  invite_change-IsRecorded ch rec st' h =
      let (_, _, h1) = >>=-eq-ok (validate_invite_change env st ch rec.identity) _ h in
      let same : st'.account_states ≡ st.account_states = ground arith in
      same_accounts-IsRecorded st st' same r

  pub invite_revoke-IsRecorded :
      (id : ℕ) (rec : AclRecord) (st' : AclState)
      → apply_invite_revoke env st id rec ≡ ok st'
      → IsRecorded st'
  unfolding apply_invite_revoke
  invite_revoke-IsRecorded id rec st' h =
      let (_, _, h1) = >>=-eq-ok (validate_invite_revoke env st id rec.identity) _ h in
      same_accounts-IsRecorded st st' (sym (ap (λ s. s.account_states) (ok-injective h1))) r

  pub space_options-IsRecorded :
      (o : Payload) (rec : AclRecord) (st' : AclState)
      → apply_space_options_change env st o rec ≡ ok st'
      → IsRecorded st'
  unfolding apply_space_options_change
  space_options-IsRecorded o rec st' h =
      let (_, _, h1) = >>=-eq-ok (validate_space_options_change env st rec.identity) _ h in
      same_accounts-IsRecorded st st' (sym (ap (λ s. s.account_states) (ok-injective h1))) r

  pub request_join-IsRecorded :
      (ch : AclAccountRequestJoin) (rec : AclRecord) (st' : AclState)
      → st.content_validator.should_validate ≡ true
      → apply_request_join env st ch rec ≡ ok st'
      → IsRecorded st'
  unfolding apply_request_join permissions
  request_join-IsRecorded ch rec st' on h =
      let (_, checked, h1) = >>=-eq-ok (validate_request_join env st ch rec.identity) _ h in
      let (nobody, _) = request_join_facts env st on ch rec.identity checked in
      let role : permissions_of (account st rec.identity) ≡ permissions_none =
        no_permissions-eq_none (permissions_of (account st rec.identity)) nobody in
      set_account-IsRecorded st rec.identity _ st'
        (SameAccess-eq (ok-injective h1)
          (set_account-SameAccess rec.identity _ (add_request-SameAccess st rec.identity _)))
        (sym role ∙ r rec.identity) r

  pub request_accept-IsRecorded :
      (ch : AclAccountRequestAccept) (rec : AclRecord) (st' : AclState)
      → apply_request_accept env st ch rec ≡ ok st'
      → IsRecorded st'
  unfolding apply_request_accept accept_request
  request_accept-IsRecorded ch rec st' h =
      let (_, _, h1) = >>=-eq-ok (validate_request_accept env st ch rec.identity) _ h in
      let (k, _, h2) = >>=-eq-ok (or_err (env.pub_key_from_proto ch.identity) bad_key) _ h1 in
      elim (Option-cases (get ch.request_record_id st.request_records)) [
        | inl missing ↦ IsRecorded-eq (ok-injective (rw missing at h2)) r
        | inr (q, present) ↦
            set_account-IsRecorded st k _ st'
              (SameAccess-trans (drop_request-SameAccess (set_account st k _) _ _)
                (unpack_own-SameAccess env _ k ch.encrypted_read_key st' (rw present at h2)))
              refl r
      ]

  pub invite_join-IsRecorded :
      (ch : AclAccountInviteJoin) (rec : AclRecord) (st' : AclState)
      → apply_invite_join_without_approve env st ch rec ≡ ok st'
      → IsRecorded st'
  unfolding apply_invite_join_without_approve join_by_invite
  invite_join-IsRecorded ch rec st' h =
      let (_, _, h1) = >>=-eq-ok (validate_invite_join env st ch rec.identity) _ h in
      let (k, _, h2) = >>=-eq-ok (or_err (env.pub_key_from_proto ch.identity) bad_key) _ h1 in
      elim (Option-cases (get ch.invite_record_id st.invites)) [
        | inl missing ↦ IsRecorded-eq (ok-injective (rw missing at h2)) r
        | inr (i, present) ↦
            set_account-IsRecorded st k _ st'
              (SameAccess-trans (drop_own_request-SameAccess (set_account st k _) k)
                (unpack_own-SameAccess env _ k ch.encrypted_read_key st' (rw present at h2)))
              refl r
      ]

  settled-IsRecorded :
      (k id : ℕ) (f : AccountState → AccountState) (st' : AclState)
      → ((a : AccountState) → (f a).permissions ≡ a.permissions)
      → ((a : AccountState) → (f a).permission_changes ≡ a.permission_changes)
      → (or_err (account st k) no_such_account >>= λ a.
          ok (drop_request (set_account st k (f a)) k id))
        ≡ ok st'
      → IsRecorded st'
  settled-IsRecorded k id f st' p c h =
      let (a, found, h1) = >>=-eq-ok (or_err (account st k) no_such_account) _ h in
      let present : account st k ≡ some a = ground arith in
      status-IsRecorded st k a (f a) st' present (p a) (c a)
        (SameAccess-eq (ok-injective h1) (drop_request-SameAccess (set_account st k (f a)) k id)) r

  pub request_decline-IsRecorded :
      (id : ℕ) (rec : AclRecord) (st' : AclState)
      → apply_request_decline env st id rec ≡ ok st'
      → IsRecorded st'
  unfolding apply_request_decline
  request_decline-IsRecorded id rec st' h =
      let (_, _, h1) = >>=-eq-ok (validate_request_decline env st id rec.identity) _ h in
      elim (Option-cases (get id st.request_records)) [
        | inl missing ↦ IsRecorded-eq (ok-injective (rw missing at h1)) r
        | inr (q, present) ↦
            settled-IsRecorded q.request_identity id (λ a. record a { status = Model.declined }) st'
              (λ a. refl) (λ a. refl) (rw present at h1)
      ]

  pub request_cancel-IsRecorded :
      (id : ℕ) (rec : AclRecord) (st' : AclState)
      → apply_request_cancel env st id rec ≡ ok st'
      → IsRecorded st'
  unfolding apply_request_cancel
  request_cancel-IsRecorded id rec st' h =
      let (_, _, h1) = >>=-eq-ok (validate_request_cancel env st id rec.identity) _ h in
      elim (Option-cases (get id st.request_records)) [
        | inl missing ↦ IsRecorded-eq (ok-injective (rw missing at h1)) r
        | inr (q, present) ↦
            settled-IsRecorded q.request_identity id
              (λ a. record a { status = if is_join q.type then Model.canceled else Model.active })
              st' (λ a. refl) (λ a. refl) (rw present at h1)
      ]

  pub request_remove-IsRecorded :
      (rec : AclRecord) (st' : AclState) → apply_request_remove env st rec ≡ ok st' → IsRecorded st'
  unfolding apply_request_remove
  request_remove-IsRecorded rec st' h =
      let (_, _, h1) = >>=-eq-ok (validate_request_remove env st rec.identity) _ h in
      let (_, _, h2) = >>=-eq-ok (guard (can_request_remove _) insufficient_permissions) _ h1 in
      let (a, found, h3) = >>=-eq-ok (or_err (account st rec.identity) no_such_account) _ h2 in
      let present : account st rec.identity ≡ some a = ground arith in
      status-IsRecorded st rec.identity a (record a { status = Model.removing }) st' present refl
        refl
        (SameAccess-eq (ok-injective h3)
          (set_account-SameAccess rec.identity _ (add_request-SameAccess st rec.identity _)))
        r

  pub read_key_change-IsRecorded :
      (ch : AclReadKeyChange) (rec : AclRecord) (validate : Bool) (st' : AclState)
      → apply_read_key_change env st ch rec validate ≡ ok st'
      → IsRecorded st'
  unfolding apply_read_key_change
  read_key_change-IsRecorded ch rec validate st' h =
      let (_, _, h1) =
        >>=-eq-ok (if validate then validate_read_key_change env st ch rec.identity else ok tt) _
          h in
      same_accounts-IsRecorded st st' (change_read_key-keeps env st ch rec.id st' h1).0 r
