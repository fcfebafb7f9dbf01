-- ===== src/Acl/Policy/Refinement.antt =====
-- The log of records refines the access policy: with validation on, applying a record (Apply) is a
-- sequence of changes that the policy permits to the record's author.
pub mod Roles
pub mod Requests
pub mod Additions
pub mod Accounts
use any_sync.Common.{
  ℕ, ◌≡◌, ◌≢◌, refl, sym, ap, subst, ◌∙◌, Bool, true, false, not, ◌||◌, Option, none, some, arith,
  ◌==◌, ==_iff, if◌then◌else◌, inl, inr, ◌⊎◌, List, [], ◌∷◌, Result, ok, err, ◌>>=◌, ◌>>◌,
  >>=-eq-ok, ok-injective, or_err, guard, refuse, Bool-cases, Option-cases,
}
use any_sync.Acl.Model
use any_sync.Acl.Model.{
  AclState, AclRecord, AclContentValue, KeyEnv, add_record_one_to_one, incorrect_record_sequence,
  empty_record_id, empty_id,
}
use any_sync.Acl.Validator.{validate_acl_data, validate_unexpected_content}
use any_sync.Acl.Apply.{
  apply_change_content, apply_contents, contents_of, apply_change_data, apply_record, apply_records,
}
use any_sync.Acl.Policy.{View, view, Accepts, PolicySteps, keep}
use any_sync.Acl.Policy.Safety.{IsSafe, PolicySteps-IsSafe, Anyone, PolicySteps-Anyone}
use any_sync.Acl.Policy.Access.{SameRoles-accounts, SameOffers-invites}
use any_sync.Acl.Policy.Obeys.{
  Obeys, ObeysMany, Obeys-once, ObeysMany-trans, Obeys-eq, SameAccess-Obeys, unchanged,
}
use Roles.{
  permission_change-Obeys, permission_changes-Obeys, ownership_change-Obeys, invite-Obeys,
  invite_change-Obeys, invite_revoke-Obeys, space_options-Obeys,
}
use Requests.{
  request_join-Obeys, request_accept-Obeys, invite_join-Obeys, request_decline-Obeys,
  request_cancel-Obeys, request_remove-Obeys,
}
use Additions.{accounts_add-ObeysMany}
use Accounts.{account_remove-ObeysMany, read_key_change-Obeys}

module _ (env : KeyEnv) where
  pub content-ObeysMany :
      (st : AclState) (ch : AclContentValue) (rec : AclRecord) (st' : AclState)
      → st.content_validator.should_validate ≡ true
      → apply_change_content env st ch rec ≡ ok st'
      → ObeysMany (Accepts st ch) rec.identity st st'
  unfolding apply_change_content
  content-ObeysMany st (Model.ownership_change ch) rec st' on h =
      Obeys-once rec.identity st st' (ownership_change-Obeys env st on ch rec st' h)
  content-ObeysMany st (Model.invite_change ch) rec st' on h =
      Obeys-once rec.identity st st' (invite_change-Obeys env st on ch rec st' h)
  content-ObeysMany st (Model.invite_join ch) rec st' on h =
      Obeys-once rec.identity st st' (invite_join-Obeys env st on ch rec st' h)
  content-ObeysMany st (Model.permission_change ch) rec st' on h =
      Obeys-once rec.identity st st' (permission_change-Obeys env st on ch rec st' h)
  content-ObeysMany st (Model.invite ch) rec st' on h =
      Obeys-once rec.identity st st' (invite-Obeys env st on ch rec st' h)
  content-ObeysMany st (Model.invite_revoke id) rec st' on h =
      Obeys-once rec.identity st st' (invite_revoke-Obeys env st on id rec st' h)
  content-ObeysMany st (Model.request_join ch) rec st' on h =
      Obeys-once rec.identity st st' (request_join-Obeys env st on ch rec st' h)
  content-ObeysMany st (Model.request_accept ch) rec st' on h =
      Obeys-once rec.identity st st' (request_accept-Obeys env st on ch rec st' h)
  content-ObeysMany st (Model.request_decline id) rec st' on h =
      Obeys-once rec.identity st st' (request_decline-Obeys env st on id rec st' h)
  content-ObeysMany st (Model.request_cancel id) rec st' on h =
      Obeys-once rec.identity st st' (request_cancel-Obeys env st on id rec st' h)
  content-ObeysMany st (Model.account_remove ch) rec st' on h =
      account_remove-ObeysMany env st ch rec st' on h
  content-ObeysMany st (Model.read_key_change ch) rec st' on h =
      Obeys-once rec.identity st st' (read_key_change-Obeys env st ch rec true st' h)
  content-ObeysMany st Model.account_request_remove rec st' on h =
      Obeys-once rec.identity st st' (request_remove-Obeys env st on rec st' h)
  content-ObeysMany st (Model.accounts_add additions) rec st' on h =
      accounts_add-ObeysMany env st additions rec st' on h
  content-ObeysMany st (Model.permission_changes chs) rec st' on h =
      permission_changes-Obeys env st chs rec st' on h
  content-ObeysMany st (Model.space_options_change o) rec st' on h =
      Obeys-once rec.identity st st' (space_options-Obeys env st on o rec st' h)
  content-ObeysMany st Model.unset rec st' on h =
      let (_, _, h1) = >>=-eq-ok (validate_unexpected_content st) _ h in
      Obeys-once rec.identity st st'
        (Obeys-eq rec.identity st (ok-injective h1) (unchanged rec.identity st))

  contents-ObeysMany :
      (st : AclState) (chs : List AclContentValue) (rec : AclRecord) (st' : AclState)
      → st.content_validator.should_validate ≡ true
      → apply_contents env st chs rec ≡ ok st'
      → ObeysMany Anyone rec.identity st st'
  unfolding apply_contents
  contents-ObeysMany st [] rec st' on h =
      Obeys-once rec.identity st st'
        (Obeys-eq rec.identity st (ok-injective h) (unchanged rec.identity st))
  contents-ObeysMany st (ch ∷ chs) rec st'' on h =
      let (st', first, rest) = >>=-eq-ok (apply_change_content env st ch rec) _ h in
      let one = content-ObeysMany st ch rec st' on first in
      ObeysMany-trans rec.identity st st' st'' (PolicySteps-Anyone one.0, one.1)
        (contents-ObeysMany st' chs rec st'' (ap (λ v. v.should_validate) one.1 ∙ on) rest)

  -- What a record that was applied went through.
  pub record_parts :
      (st : AclState) (rec : AclRecord) (st' : AclState)
      → apply_record env st rec ≡ ok st'
      → (contents : List AclContentValue) × (mid : AclState) × (apply_contents env st contents rec
          ≡ ok mid)
        × (record mid { last_record_id = rec.id } ≡ st')
        × (st.last_record_id ≡ rec.prev_id)
        × (rec.id ≢ empty_id)
        × (st.is_one_to_one ≡ false)
        × (contents_of env rec ≡ ok contents)
  unfolding apply_record
  record_parts st rec st' h =
      let (_, plain, h1) = >>=-eq-ok (refuse st.is_one_to_one add_record_one_to_one) _ h in
      let (_, prev, h2) =
        >>=-eq-ok (guard (st.last_record_id == rec.prev_id) incorrect_record_sequence) _ h1 in
      let (_, named, h3) = >>=-eq-ok (refuse (rec.id == empty_id) empty_record_id) _ h2 in
      let (contents, decoded, h4) = >>=-eq-ok (contents_of env rec) _ h3 in
      let (mid, applied, h5) = >>=-eq-ok (apply_change_data env st contents rec) _ h4 in
      let (_, _, run) = >>=-eq-ok (validate_acl_data st contents) _ applied in
      (contents, mid, run, ok-injective h5, ground arith, λ e. ground arith, ground arith, decoded)

  pub record-ObeysMany :
      (st : AclState) (rec : AclRecord) (st' : AclState)
      → st.content_validator.should_validate ≡ true
      → apply_record env st rec ≡ ok st'
      → ObeysMany Anyone rec.identity st st'
  record-ObeysMany st rec st' on h =
      let (contents, mid, run, e, _, _, _, _) = record_parts st rec st' h in
      let last : Obeys Anyone rec.identity mid (record mid { last_record_id = rec.id }) =
        SameAccess-Obeys rec.identity
          (record { accounts = refl; invites = refl; validator = refl }) in
      ObeysMany-trans rec.identity st mid st' (contents-ObeysMany st contents rec mid on run)
        (Obeys-once rec.identity mid st' (Obeys-eq rec.identity mid e last))

  -- The contents of a record, one after the other: each changes roles and open invites in steps that the
  -- policy permits to the author, and gives a role on request only if it is the acceptance of a
  -- request that stands in the state it is applied to.
  pub data Permitted (rec : AclRecord) : AclState → List AclContentValue → AclState → Type 0 where
    done : {st : AclState} → Permitted rec st [] st
    also :
        {st st' st'' : AclState} {ch : AclContentValue} {chs : List AclContentValue}
        → apply_change_content env st ch rec ≡ ok st'
        → PolicySteps (Accepts st ch) rec.identity (view st) (view st')
        → Permitted rec st' chs st''
        → Permitted rec st (ch ∷ chs) st''

  contents-Permitted :
      (st : AclState) (chs : List AclContentValue) (rec : AclRecord) (st' : AclState)
      → st.content_validator.should_validate ≡ true
      → apply_contents env st chs rec ≡ ok st'
      → Permitted rec st chs st'
  unfolding apply_contents
  contents-Permitted st [] rec st' on h = subst (Permitted rec st []) (ok-injective h) done
  contents-Permitted st (ch ∷ chs) rec st'' on h =
      let (st', first, rest) = >>=-eq-ok (apply_change_content env st ch rec) _ h in
      let (steps, same) = content-ObeysMany st ch rec st' on first in
      also first steps
        (contents-Permitted st' chs rec st'' (ap (λ v. v.should_validate) same ∙ on) rest)

  -- With validation on, the contents of a record that is applied are applied one after the other, and each
  -- changes roles and open invites only in steps that the policy permits to the record's author. A step
  -- that gives a role whatever the account's role was comes only from a content that accepts a request of
  -- that account, with the role that the content names; every other change of a role tests the old one.
  pub apply_record-PolicySteps :
      (st : AclState) (rec : AclRecord) (st' : AclState)
      → st.content_validator.should_validate ≡ true
      → apply_record env st rec ≡ ok st'
      → (contents : List AclContentValue) × (mid : AclState) × (contents_of env rec ≡ ok contents)
        × Permitted rec st contents mid
        × (record mid { last_record_id = rec.id } ≡ st')
  apply_record-PolicySteps st rec st' on h =
      let (contents, mid, run, e, _, _, _, decoded) = record_parts st rec st' h in
      (contents, mid, decoded, contents-Permitted st contents rec mid on run, e)

  -- With validation on, no log of records that is applied to a safe state makes a second owner, or
  -- an open invite that makes an owner, a guest or a nobody.
  pub apply_records-IsSafe :
      (st : AclState) (recs : List AclRecord) (st' : AclState)
      → st.content_validator.should_validate ≡ true
      → IsSafe (view st)
      → apply_records env st recs ≡ ok st'
      → IsSafe (view st')
  unfolding apply_records
  apply_records-IsSafe st [] st' on safe h = rw (← ok-injective h) safe
  apply_records-IsSafe st (r ∷ rs) st'' on safe h =
      let (st', first, rest) = >>=-eq-ok (apply_record env st r) _ h in
      let (steps, same) = record-ObeysMany st r st' on first in
      apply_records-IsSafe st' rs st'' (ap (λ v. v.should_validate) same ∙ on)
        (PolicySteps-IsSafe steps safe) rest
