-- ===== src/Acl/Policy/Orphan.antt =====
-- Accepting a request does not look at the role that the account has by then.
use any_sync.Common.{ℕ, ◌≡◌, true, false, some, arith, Bool-cases, inl, inr, ok, >>=-eq-ok}
use any_sync.Common.Assoc.{get}
use any_sync.Acl.Permissions.{is_owner}
use any_sync.Acl.Model.{AclState, AclRecord, AclAccountRequestAccept, RequestRecord, KeyEnv}
use any_sync.Acl.State.{permissions, set_account}
use any_sync.Acl.Validator.{validate_request_accept}
use any_sync.Acl.Validator.Facts.{request_accept_facts}
use any_sync.Acl.Apply.Requests.{apply_request_accept, accept_request}
use any_sync.Acl.Policy.{view}
use any_sync.Acl.Policy.Safety.{IsSafe}
use any_sync.Acl.Policy.Access.{
  SameAccess-trans, set_account-access, drop_request-SameAccess, unpack_own-SameAccess,
}

module _ (env : KeyEnv) where
  -- With validation on, in a state with at most one owner and harmless open invites: accepting a
  -- request, which is there, for the account that owns the space leaves the space without an
  -- owner, whatever role the request is accepted with.
  pub request_accept_orphans :
      (st : AclState) (ch : AclAccountRequestAccept) (rec : AclRecord) (k : ℕ) (r : RequestRecord)
      (st' : AclState)
      → st.content_validator.should_validate ≡ true
      → IsSafe (view st)
      → env.pub_key_from_proto ch.identity ≡ some k
      → get ch.request_record_id st.request_records ≡ some r
      → is_owner (permissions st k) ≡ true
      → apply_request_accept env st ch rec ≡ ok st'
      → (j : ℕ) → is_owner (permissions st' j) ≡ false
  unfolding apply_request_accept accept_request
  request_accept_orphans st ch rec k r st' on safe decoded present own h j =
      let (_, checked, h1) = >>=-eq-ok (validate_request_accept env st ch rec.identity) _ h in
      let (can, nw, by, _) =
        request_accept_facts env st on ch rec.identity k r decoded present checked in
      let same =
        SameAccess-trans (drop_request-SameAccess (set_account st k _) _ _)
          (unpack_own-SameAccess env _ k ch.encrypted_read_key st' (rw (decoded, present) at h1)) in
      elim (Bool-cases (is_owner (permissions st j))) [
        | inl owns ↦
            let e : k ≡ j = safe.one_owner k j own owns in
            ground (arith, (set_account-access st k _ st' same).0 j)
        | inr not_owner ↦ ground (arith, (set_account-access st k _ st' same).0 j)
      ]
