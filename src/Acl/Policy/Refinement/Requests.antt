-- ===== src/Acl/Policy/Refinement/Requests.antt =====
-- The handlers of requests and of the join by an invite (Apply/Requests) make changes that the policy
-- permits.
use any_sync.Common.{
  ℕ, ◌≡◌, refl, sym, true, some, arith, if◌then◌else◌, inl, inr, ◌⊎◌, ok, ◌>>=◌, >>=-eq-ok,
  ok-injective, or_err, guard, Bool-cases, Option-cases,
}
use any_sync.Common.Assoc.{get}
use any_sync.Acl.Permissions.{
  AclPermissions, no_permissions, no_permissions-eq_none, is_less_or_equal, can_request_remove,
}
use any_sync.Acl.Model
use any_sync.Acl.Model.{
  AclState, AclRecord, AccountState, AclAccountRequestJoin, AclAccountRequestAccept,
  AclAccountInviteJoin, KeyEnv, bad_key, no_such_account, insufficient_permissions, anyone_can_join,
  Invite, declined, canceled, active, removing, RequestRecord,
}
use any_sync.Acl.State.{permissions, set_account, account, same_type, is_join}
use any_sync.Acl.Validator.{
  validate_request_join, validate_request_accept, validate_invite_join, validate_request_decline,
  validate_request_cancel, validate_request_remove,
}
use any_sync.Acl.Validator.Facts.{request_join_facts, request_accept_facts, invite_join_facts}
use any_sync.Acl.Apply.Updates.{drop_request}
use any_sync.Acl.Apply.Requests.{
  apply_request_join, apply_request_accept, accept_request, apply_invite_join_without_approve,
  join_by_invite, apply_request_decline, apply_request_cancel, apply_request_remove,
}
use any_sync.Acl.Policy.{offer, Granting, Accepts, keep, accept, join}
use any_sync.Acl.Policy.Access.{
  SameAccess, SameAccess-trans, set_account-access, set_account_same-SameRoles,
  set_account-SameAccess, SameAccess-eq, drop_request-SameAccess, add_request-SameAccess,
  unpack_own-SameAccess, drop_own_request-SameAccess,
}
use any_sync.Acl.Policy.Obeys.{Obeys, Obeys-eq, unchanged}

-- The role that an open invite gives.
offer_found :
    (st : AclState) (id : ℕ) (i : Invite)
    → get id st.invites ≡ some i
    → same_type i.type anyone_can_join ≡ true
    → offer st id ≡ some i.permissions
unfolding offer
offer_found st id i found open_type = rw (found, open_type)

role_of_join :
    (p q : AclPermissions)
    → is_less_or_equal p q ≡ true
    → ((if no_permissions p then q else p) ≡ q)
      ⊎ (is_less_or_equal (if no_permissions p then q else p) q ≡ true)
role_of_join p q below = elim (Bool-cases (no_permissions p)) [
  | inl nobody ↦ rw nobody (inl refl)
  | inr somebody ↦ rw somebody (inr below)
]

-- Changing the status of an account changes no role.
status-Obeys :
    {granting : Granting} (author : ℕ) (st : AclState) (k : ℕ) (a b : AccountState) (st' : AclState)
    → account st k ≡ some a
    → b.permissions ≡ a.permissions
    → SameAccess (set_account st k b) st'
    → Obeys granting author st st'
unfolding permissions
status-Obeys author st k a b st' found same s =
    let access = set_account-access st k b st' s in
    (keep (set_account_same-SameRoles st k b st' s (rw found (sym same))) access.1, access.2)

module _ (env : KeyEnv) (st : AclState) (on : st.content_validator.should_validate ≡ true) where
  pub request_join-Obeys :
      {granting : Granting} (ch : AclAccountRequestJoin) (rec : AclRecord) (st' : AclState)
      → apply_request_join env st ch rec ≡ ok st'
      → Obeys granting rec.identity st st'
  unfolding apply_request_join
  request_join-Obeys ch rec st' h =
      let (_, checked, h1) = >>=-eq-ok (validate_request_join env st ch rec.identity) _ h in
      let (none_yet, _) = request_join_facts env st on ch rec.identity checked in
      let same =
        SameAccess-eq (ok-injective h1)
          (set_account-SameAccess rec.identity _ (add_request-SameAccess st rec.identity _)) in
      let access = set_account-access st rec.identity _ st' same in
      (
        keep
            (set_account_same-SameRoles st rec.identity _ st' same
              (no_permissions-eq_none _ none_yet))
            access.1,
        access.2,
      )

  accepted :
      (ch : AclAccountRequestAccept) (rec : AclRecord) (k : ℕ) (r : RequestRecord) (st' : AclState)
      → env.pub_key_from_proto ch.identity ≡ some k
      → get ch.request_record_id st.request_records ≡ some r
      → validate_request_accept env st ch rec.identity ≡ ok tt
      → accept_request env st ch rec k r ≡ ok st'
      → Obeys (Accepts st (Model.request_accept ch)) rec.identity st st'
  unfolding accept_request
  accepted ch rec k r st' decoded present checked h =
      let (can, nw, by, asked) =
        request_accept_facts env st on ch rec.identity k r decoded present checked in
      let same =
        SameAccess-trans (drop_request-SameAccess (set_account st k _) _ _)
          (unpack_own-SameAccess env _ k ch.encrypted_read_key st' h) in
      let access = set_account-access st k _ st' same in
      (accept k ch.permissions (r, present, sym asked, refl) can nw by access.0 access.1, access.2)

  pub request_accept-Obeys :
      (ch : AclAccountRequestAccept) (rec : AclRecord) (st' : AclState)
      → apply_request_accept env st ch rec ≡ ok st'
      → Obeys (Accepts st (Model.request_accept ch)) rec.identity st st'
  unfolding apply_request_accept
  request_accept-Obeys ch rec st' h =
      let (_, checked, h1) = >>=-eq-ok (validate_request_accept env st ch rec.identity) _ h in
      let (k, decoded, h2) = >>=-eq-ok (or_err (env.pub_key_from_proto ch.identity) bad_key) _ h1 in
      let found : env.pub_key_from_proto ch.identity ≡ some k = ground arith in
      elim (Option-cases (get ch.request_record_id st.request_records)) [
        | inl missing ↦
            Obeys-eq rec.identity st (ok-injective (rw missing at h2)) (unchanged rec.identity st)
        | inr (r, present) ↦ accepted ch rec k r st' found present checked (rw present at h2)
      ]

  joined :
      {granting : Granting} (ch : AclAccountInviteJoin) (rec : AclRecord) (k : ℕ) (i : Invite)
      (st' : AclState)
      → env.pub_key_from_proto ch.identity ≡ some k
      → get ch.invite_record_id st.invites ≡ some i
      → validate_invite_join env st ch rec.identity ≡ ok tt
      → join_by_invite env st ch rec k i ≡ ok st'
      → Obeys granting rec.identity st st'
  unfolding join_by_invite
  joined ch rec k i st' decoded present checked h =
      let (nobody, open_type, below, same_key) =
        invite_join_facts env st on ch rec.identity k i decoded present checked in
      let same =
        SameAccess-trans (drop_own_request-SameAccess (set_account st k _) k)
          (unpack_own-SameAccess env _ k ch.encrypted_read_key st' h) in
      let access = set_account-access st k _ st' same in
      (
        join ch.invite_record_id i.permissions
            (if no_permissions ch.permissions then i.permissions else ch.permissions) nobody
            (offer_found st ch.invite_record_id i present open_type)
            (role_of_join ch.permissions i.permissions below) (rw same_key access.0) access.1,
        access.2,
      )

  pub invite_join-Obeys :
      {granting : Granting} (ch : AclAccountInviteJoin) (rec : AclRecord) (st' : AclState)
      → apply_invite_join_without_approve env st ch rec ≡ ok st'
      → Obeys granting rec.identity st st'
  unfolding apply_invite_join_without_approve
  invite_join-Obeys ch rec st' h =
      let (_, checked, h1) = >>=-eq-ok (validate_invite_join env st ch rec.identity) _ h in
      let (k, decoded, h2) = >>=-eq-ok (or_err (env.pub_key_from_proto ch.identity) bad_key) _ h1 in
      let found : env.pub_key_from_proto ch.identity ≡ some k = ground arith in
      elim (Option-cases (get ch.invite_record_id st.invites)) [
        | inl missing ↦
            Obeys-eq rec.identity st (ok-injective (rw missing at h2)) (unchanged rec.identity st)
        | inr (i, present) ↦ joined ch rec k i st' found present checked (rw present at h2)
      ]

  -- A status change on the account of a request that is then dropped.
  settled :
      {granting : Granting} (author k id : ℕ) (f : AccountState → AccountState) (st' : AclState)
      → ((a : AccountState) → (f a).permissions ≡ a.permissions)
      → (or_err (account st k) no_such_account >>= λ a.
          ok (drop_request (set_account st k (f a)) k id))
        ≡ ok st'
      → Obeys granting author st st'
  settled author k id f st' keeps h =
      let (a, found, h1) = >>=-eq-ok (or_err (account st k) no_such_account) _ h in
      let present : account st k ≡ some a = ground arith in
      status-Obeys author st k a (f a) st' present (keeps a)
        (SameAccess-eq (ok-injective h1) (drop_request-SameAccess (set_account st k (f a)) k id))

  pub request_decline-Obeys :
      {granting : Granting} (id : ℕ) (rec : AclRecord) (st' : AclState)
      → apply_request_decline env st id rec ≡ ok st'
      → Obeys granting rec.identity st st'
  unfolding apply_request_decline
  request_decline-Obeys id rec st' h =
      let (_, checked, h1) = >>=-eq-ok (validate_request_decline env st id rec.identity) _ h in
      elim (Option-cases (get id st.request_records)) [
        | inl missing ↦
            Obeys-eq rec.identity st (ok-injective (rw missing at h1)) (unchanged rec.identity st)
        | inr (r, present) ↦
            settled rec.identity r.request_identity id (λ a. record a { status = declined }) st'
              (λ a. refl) (rw present at h1)
      ]

  pub request_cancel-Obeys :
      {granting : Granting} (id : ℕ) (rec : AclRecord) (st' : AclState)
      → apply_request_cancel env st id rec ≡ ok st'
      → Obeys granting rec.identity st st'
  unfolding apply_request_cancel
  request_cancel-Obeys id rec st' h =
      let (_, checked, h1) = >>=-eq-ok (validate_request_cancel env st id rec.identity) _ h in
      elim (Option-cases (get id st.request_records)) [
        | inl missing ↦
            Obeys-eq rec.identity st (ok-injective (rw missing at h1)) (unchanged rec.identity st)
        | inr (r, present) ↦
            settled rec.identity r.request_identity id
              (λ a. record a { status = if is_join r.type then canceled else active }) st'
              (λ a. refl) (rw present at h1)
      ]

  pub request_remove-Obeys :
      {granting : Granting} (rec : AclRecord) (st' : AclState)
      → apply_request_remove env st rec ≡ ok st'
      → Obeys granting rec.identity st st'
  unfolding apply_request_remove
  request_remove-Obeys rec st' h =
      let (_, _, h1) = >>=-eq-ok (validate_request_remove env st rec.identity) _ h in
      let (_, _, h2) = >>=-eq-ok (guard (can_request_remove _) insufficient_permissions) _ h1 in
      let (a, found, h3) = >>=-eq-ok (or_err (account st rec.identity) no_such_account) _ h2 in
      let present : account st rec.identity ≡ some a = ground arith in
      status-Obeys rec.identity st rec.identity a (record a { status = removing }) st' present refl
        (SameAccess-eq (ok-injective h3)
          (set_account-SameAccess rec.identity _ (add_request-SameAccess st rec.identity _)))
