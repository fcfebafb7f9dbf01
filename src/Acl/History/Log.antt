-- ===== src/Acl/History/Log.antt =====
-- Along a log of records the histories stay in step with the roles, so that the role at the head of
-- the log is the current role.
use any_sync.Common.{
  ℕ, ◌≡◌, refl, ap, ◌∙◌, Bool, true, List, [], ◌∷◌, some, arith, ok, >>=-eq-ok, ok-injective,
}
use any_sync.Common.Assoc.{Assoc, get}
use any_sync.Acl.Model
use any_sync.Acl.Model.{
  AclState, AclRecord, AclContentValue, AccountState, PermissionChange, KeyEnv, no_such_record,
  no_such_account,
}
use any_sync.Acl.State.{
  permissions, account, permissions_at_record, closest_permissions, is_after_no_check,
}
use any_sync.Acl.Validator.{validate_unexpected_content}
use any_sync.Acl.Apply.{apply_change_content, apply_contents, apply_record, apply_records}
use any_sync.Acl.Policy.Refinement.{record_parts, content-ObeysMany, record-ObeysMany}
use any_sync.Acl.History.{IsRecorded, newest}
use any_sync.Acl.History.Handlers.{
  IsRecorded-eq, ownership_change-IsRecorded, permission_change-IsRecorded, invite-IsRecorded,
  invite_change-IsRecorded, invite_revoke-IsRecorded, space_options-IsRecorded,
  request_join-IsRecorded, request_accept-IsRecorded, invite_join-IsRecorded,
  request_decline-IsRecorded, request_cancel-IsRecorded, request_remove-IsRecorded,
  read_key_change-IsRecorded,
}
use any_sync.Acl.History.Batches.{
  permission_changes-IsRecorded, accounts_add-IsRecorded, account_remove-IsRecorded,
}

module _ (env : KeyEnv) where
  content-IsRecorded :
      (st : AclState) (ch : AclContentValue) (rec : AclRecord) (st' : AclState)
      → st.content_validator.should_validate ≡ true
      → IsRecorded st
      → apply_change_content env st ch rec ≡ ok st'
      → IsRecorded st'
  unfolding apply_change_content
  content-IsRecorded st (Model.ownership_change ch) rec st' on r h =
      ownership_change-IsRecorded env st r ch rec st' h
  content-IsRecorded st (Model.invite_change ch) rec st' on r h =
      invite_change-IsRecorded env st r ch rec st' h
  content-IsRecorded st (Model.invite_join ch) rec st' on r h =
      invite_join-IsRecorded env st r ch rec st' h
  content-IsRecorded st (Model.permission_change ch) rec st' on r h =
      permission_change-IsRecorded env st r ch rec st' h
  content-IsRecorded st (Model.invite ch) rec st' on r h = invite-IsRecorded env st r ch rec st' h
  content-IsRecorded st (Model.invite_revoke id) rec st' on r h =
      invite_revoke-IsRecorded env st r id rec st' h
  content-IsRecorded st (Model.request_join ch) rec st' on r h =
      request_join-IsRecorded env st r ch rec st' on h
  content-IsRecorded st (Model.request_accept ch) rec st' on r h =
      request_accept-IsRecorded env st r ch rec st' h
  content-IsRecorded st (Model.request_decline id) rec st' on r h =
      request_decline-IsRecorded env st r id rec st' h
  content-IsRecorded st (Model.request_cancel id) rec st' on r h =
      request_cancel-IsRecorded env st r id rec st' h
  content-IsRecorded st (Model.account_remove ch) rec st' on r h =
      account_remove-IsRecorded env st ch rec st' r h
  content-IsRecorded st (Model.read_key_change ch) rec st' on r h =
      read_key_change-IsRecorded env st r ch rec true st' h
  content-IsRecorded st Model.account_request_remove rec st' on r h =
      request_remove-IsRecorded env st r rec st' h
  content-IsRecorded st (Model.accounts_add additions) rec st' on r h =
      accounts_add-IsRecorded env st additions rec st' r h
  content-IsRecorded st (Model.permission_changes chs) rec st' on r h =
      permission_changes-IsRecorded env st chs rec st' r h
  content-IsRecorded st (Model.space_options_change o) rec st' on r h =
      space_options-IsRecorded env st r o rec st' h
  content-IsRecorded st Model.unset rec st' on r h =
      let (_, _, h1) = >>=-eq-ok (validate_unexpected_content st) _ h in
      IsRecorded-eq (ok-injective h1) r

  contents-IsRecorded :
      (st : AclState) (chs : List AclContentValue) (rec : AclRecord) (st' : AclState)
      → st.content_validator.should_validate ≡ true
      → IsRecorded st
      → apply_contents env st chs rec ≡ ok st'
      → IsRecorded st'
  unfolding apply_contents
  contents-IsRecorded st [] rec st' on r h = IsRecorded-eq (ok-injective h) r
  contents-IsRecorded st (ch ∷ chs) rec st'' on r h =
      let (st', first, rest) = >>=-eq-ok (apply_change_content env st ch rec) _ h in
      let same = (content-ObeysMany env st ch rec st' on first).1 in
      contents-IsRecorded st' chs rec st'' (ap (λ v. v.should_validate) same ∙ on)
        (content-IsRecorded st ch rec st' on r first) rest

  -- With validation on, applying a log of records keeps this: the newest entry of every account's
  -- history of roles is its current role, and an account without an entry has no role.
  pub apply_records-IsRecorded :
      (st : AclState) (recs : List AclRecord) (st' : AclState)
      → st.content_validator.should_validate ≡ true
      → IsRecorded st
      → apply_records env st recs ≡ ok st'
      → IsRecorded st'
  unfolding apply_records
  apply_records-IsRecorded st [] st' on r h = IsRecorded-eq (ok-injective h) r
  apply_records-IsRecorded st (rec ∷ recs) st'' on r h =
      let (st', first, rest) = >>=-eq-ok (apply_record env st rec) _ h in
      let same = (record-ObeysMany env st rec st' on first).1 in
      let (contents, mid, run, e, _, _, _, _) = record_parts env st rec st' first in
      let applied : IsRecorded mid = contents-IsRecorded st contents rec mid on r run in
      apply_records-IsRecorded st' recs st'' (ap (λ v. v.should_validate) same ∙ on)
        (IsRecorded-eq e (λ k. applied k)) rest

closest-newest :
    (is_after : ℕ → ℕ → Bool) (head : ℕ) (cs : List PermissionChange)
    → ((id : ℕ) → is_after head id ≡ true)
    → closest_permissions is_after head cs ≡ newest cs
unfolding closest_permissions
closest-newest is_after head [] last = refl
closest-newest is_after head (c ∷ cs) last = rw (last c.record_id) refl

-- At the last record of the log the role that an account had is its current role, if the histories
-- are in step with the roles.
pub permissions_at_head :
    (indexes : Assoc ℕ) (st : AclState) (head i k : ℕ) (a : AccountState)
    → IsRecorded st
    → get head indexes ≡ some i
    → ((id : ℕ) → is_after_no_check indexes head id ≡ true)
    → account st k ≡ some a
    → permissions_at_record indexes st head k ≡ ok (permissions st k)
unfolding permissions_at_record permissions closest_permissions
permissions_at_head indexes st head i k a r indexed last found =
    ground (arith, closest-newest (is_after_no_check indexes) head a.permission_changes last, r k)
