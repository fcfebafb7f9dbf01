-- ===== src/Acl/Policy/Refinement/Roles.antt =====
-- The handlers of roles and invites (Apply/Roles) make changes that the policy permits.
use any_sync.Common.{
  ℕ, ◌≡◌, refl, ap, ◌∙◌, true, some, arith, ◌==◌, if◌then◌else◌, inl, inr, List, [], ◌∷◌, ok,
  >>=-eq-ok, ok-injective, or_err, Bool-cases, Option-cases,
}
use any_sync.Common.Assoc.{get, put}
use any_sync.Acl.Permissions.{AclPermissions, owner}
use any_sync.Acl.Model.{
  Payload, AclState, AclRecord, AclAccountInvite, AclAccountInviteChange, AclOwnershipChange,
  AclAccountPermissionChange, KeyEnv, bad_key, anyone_can_join, Invite,
}
use any_sync.Acl.State.{update_permissions, permissions-set_account, set_account, same_type}
use any_sync.Acl.Validator.{
  validate_ownership_change, validate_permission_change, validate_invite, validate_invite_change,
  validate_invite_revoke, validate_space_options_change,
}
use any_sync.Acl.Validator.Facts.{
  permission_change_facts, ownership_change_facts, invite_facts, invite_change_facts,
  invite_revoke_facts,
}
use any_sync.Acl.Apply.Roles.{
  apply_ownership_change, apply_permission_change, apply_permission_changes, apply_invite,
  apply_invite_change, apply_invite_revoke, new_invite, regrant, apply_space_options_change,
}
use any_sync.Acl.Policy.{
  view, offer, offer_of, SameRoles, Granting, PolicyStep, SetsRole, SetsOffer, keep, assign,
  transfer, issue, withdraw,
}
use any_sync.Acl.Policy.Access.{
  SameRoles-accounts, SameOffers-invites, SetsOffer-put, SetsOffer-delete,
}
use any_sync.Acl.Policy.Obeys.{Obeys, ObeysMany, Obeys-once, ObeysMany-trans, Obeys-eq, unchanged}

pub update_permissions-role :
    (st : AclState) (k : ℕ) (p : AclPermissions) (id : ℕ)
    → SetsRole k p (view st) (view (update_permissions st k p id))
unfolding update_permissions
update_permissions-role st k p id j = permissions-set_account st k _ j

update_permissions-offer :
    (st : AclState) (k : ℕ) (p : AclPermissions) (id j : ℕ)
    → offer (update_permissions st k p id) j ≡ offer st j
unfolding update_permissions set_account offer
update_permissions-offer st k p id j = refl

update_permissions-validator :
    (st : AclState) (k : ℕ) (p : AclPermissions) (id : ℕ)
    → (update_permissions st k p id).content_validator ≡ st.content_validator
unfolding update_permissions set_account
update_permissions-validator st k p id = refl

module _ (env : KeyEnv) (st : AclState) (on : st.content_validator.should_validate ≡ true) where
  pub permission_change-Obeys :
      {granting : Granting} (ch : AclAccountPermissionChange) (rec : AclRecord) (st' : AclState)
      → apply_permission_change env st ch rec ≡ ok st'
      → Obeys granting rec.identity st st'
  unfolding apply_permission_change
  permission_change-Obeys ch rec st' h =
      let (k, decoded, h1) = >>=-eq-ok (or_err (env.pub_key_from_proto ch.identity) bad_key) _ h in
      let (_, checked, h2) = >>=-eq-ok (validate_permission_change env st ch rec.identity) _ h1 in
      let found : env.pub_key_from_proto ch.identity ≡ some k = ground arith in
      let facts = permission_change_facts env st on ch rec.identity k found checked in
      Obeys-eq rec.identity st (ok-injective h2) (
        assign k ch.permissions facts.0 facts.1 facts.2 facts.3 facts.4
            (update_permissions-role st k ch.permissions rec.id)
            (update_permissions-offer st k ch.permissions rec.id),
        update_permissions-validator st k ch.permissions rec.id,
      )

  pub ownership_change-Obeys :
      {granting : Granting} (ch : AclOwnershipChange) (rec : AclRecord) (st' : AclState)
      → apply_ownership_change env st ch rec ≡ ok st'
      → Obeys granting rec.identity st st'
  unfolding apply_ownership_change
  ownership_change-Obeys ch rec st' h =
      let (_, checked, h1) = >>=-eq-ok (validate_ownership_change env st ch rec.identity) _ h in
      let (k, decoded, h2) =
        >>=-eq-ok (or_err (env.pub_key_from_proto ch.new_owner_identity) bad_key) _ h1 in
      let found : env.pub_key_from_proto ch.new_owner_identity ≡ some k = ground arith in
      let facts = ownership_change_facts env st on ch rec.identity k found checked in
      let demoted = update_permissions st rec.identity ch.old_owner_permissions rec.id in
      Obeys-eq rec.identity st (ok-injective h2) (
        transfer k ch.old_owner_permissions facts.0 facts.1 facts.2 facts.3 facts.4
            (λ j.
              update_permissions-role demoted k owner rec.id j
              ∙ ap (λ r. if k == j then owner else r)
                  (update_permissions-role st rec.identity ch.old_owner_permissions rec.id j))
            (λ j.
              update_permissions-offer demoted k owner rec.id j
              ∙ update_permissions-offer st rec.identity ch.old_owner_permissions rec.id j),
        update_permissions-validator demoted k owner rec.id
            ∙ update_permissions-validator st rec.identity ch.old_owner_permissions rec.id,
      )

  invite_step :
      {granting : Granting} (ch : AclAccountInvite) (rec : AclRecord) (new : Invite)
      (st' : AclState)
      → validate_invite env st ch rec.identity ≡ ok tt
      → new.type ≡ ch.invite_type
      → new.permissions ≡ ch.permissions
      → SetsOffer rec.id (offer_of (some new)) (view st) (view st')
      → SameRoles (view st) (view st')
      → PolicyStep granting rec.identity (view st) (view st')
  invite_step ch rec new st' checked et ep o r =
      let facts = invite_facts env st on ch rec.identity checked in
      elim (Bool-cases (same_type ch.invite_type anyone_can_join)) [
        | inl any ↦
            let (nw, nn, ng, by) = facts.1 any in
            issue rec.id ch.permissions facts.0 nw nn ng by
              (λ j. rw (← ep) (rw (rw (← et) at any) at (o j))) r
        | inr request ↦ withdraw rec.id facts.0 (λ j. rw (rw (← et) at request) at (o j)) r
      ]

  pub invite-Obeys :
      {granting : Granting} (ch : AclAccountInvite) (rec : AclRecord) (st' : AclState)
      → apply_invite env st ch rec ≡ ok st'
      → Obeys granting rec.identity st st'
  unfolding apply_invite
  invite-Obeys ch rec st' h =
      let (k, _, h1) = >>=-eq-ok (or_err (env.pub_key_from_proto ch.invite_key) bad_key) _ h in
      let (_, checked, h2) = >>=-eq-ok (validate_invite env st ch rec.identity) _ h1 in
      Obeys-eq rec.identity st (ok-injective h2) (
        invite_step ch rec (new_invite ch rec.id k) _ checked refl refl
            (SetsOffer-put st _ rec.id (new_invite ch rec.id k) refl)
            (SameRoles-accounts st _ refl),
        refl,
      )

  regrant-SetsOffer :
      (ch : AclAccountInviteChange) (i : Invite) (st' : AclState)
      → same_type i.type anyone_can_join ≡ true
      → SetsOffer ch.invite_record_id
          (offer_of (some (regrant i ch.permissions)))
          (view st)
          (view st')
      → SetsOffer ch.invite_record_id (some ch.permissions) (view st) (view st')
  regrant-SetsOffer ch i st' open_type o j = rw open_type at (o j)

  invite_change_found :
      {granting : Granting} (ch : AclAccountInviteChange) (rec : AclRecord) (i : Invite)
      (st' : AclState)
      → get ch.invite_record_id st.invites ≡ some i
      → apply_invite_change env st ch rec ≡ ok st'
      → Obeys granting rec.identity st st'
  unfolding apply_invite_change
  invite_change_found ch rec i st' found h =
      let (_, checked, h1) = >>=-eq-ok (validate_invite_change env st ch rec.identity) _ h in
      let (can, open_type, nw, nn, ng, by) =
        invite_change_facts env st on ch rec.identity i found checked in
      let changed : AclState = record st {
        invites = put ch.invite_record_id (regrant i ch.permissions) st.invites;
      } in
      Obeys-eq rec.identity st (ok-injective (rw found at h1)) (
        issue ch.invite_record_id ch.permissions can nw nn ng by
            (regrant-SetsOffer ch i _ open_type
              (SetsOffer-put st changed ch.invite_record_id (regrant i ch.permissions) refl))
            (SameRoles-accounts st _ refl),
        refl,
      )

  pub invite_change-Obeys :
      {granting : Granting} (ch : AclAccountInviteChange) (rec : AclRecord) (st' : AclState)
      → apply_invite_change env st ch rec ≡ ok st'
      → Obeys granting rec.identity st st'
  unfolding apply_invite_change
  invite_change-Obeys ch rec st' h = elim (Option-cases (get ch.invite_record_id st.invites)) [
    | inl missing ↦
        let (_, _, h1) = >>=-eq-ok (validate_invite_change env st ch rec.identity) _ h in
        Obeys-eq rec.identity st (ok-injective (rw missing at h1)) (unchanged rec.identity st)
    | inr (i, found) ↦ invite_change_found ch rec i st' found h
  ]

  pub invite_revoke-Obeys :
      {granting : Granting} (id : ℕ) (rec : AclRecord) (st' : AclState)
      → apply_invite_revoke env st id rec ≡ ok st'
      → Obeys granting rec.identity st st'
  unfolding apply_invite_revoke
  invite_revoke-Obeys id rec st' h =
      let (_, checked, h1) = >>=-eq-ok (validate_invite_revoke env st id rec.identity) _ h in
      Obeys-eq rec.identity st (ok-injective h1) (
        withdraw id (invite_revoke_facts env st on id rec.identity checked)
            (SetsOffer-delete st _ id refl) (SameRoles-accounts st _ refl),
        refl,
      )

  pub space_options-Obeys :
      {granting : Granting} (options : Payload) (rec : AclRecord) (st' : AclState)
      → apply_space_options_change env st options rec ≡ ok st'
      → Obeys granting rec.identity st st'
  unfolding apply_space_options_change
  space_options-Obeys options rec st' h =
      let (_, _, h1) = >>=-eq-ok (validate_space_options_change env st rec.identity) _ h in
      Obeys-eq rec.identity st (ok-injective h1)
        (keep (SameRoles-accounts st _ refl) (SameOffers-invites st _ refl), refl)

pub permission_changes-Obeys :
    {granting : Granting} (env : KeyEnv) (st : AclState) (chs : List AclAccountPermissionChange)
    (rec : AclRecord) (st' : AclState)
    → st.content_validator.should_validate ≡ true
    → apply_permission_changes env st chs rec ≡ ok st'
    → ObeysMany granting rec.identity st st'
unfolding apply_permission_changes
permission_changes-Obeys env st [] rec st' on h =
    Obeys-once rec.identity st st'
      (Obeys-eq rec.identity st (ok-injective h) (unchanged rec.identity st))
permission_changes-Obeys env st (ch ∷ chs) rec st'' on h =
    let (st', first, rest) = >>=-eq-ok (apply_permission_change env st ch rec) _ h in
    let one = permission_change-Obeys env st on ch rec st' first in
    let on' : st'.content_validator.should_validate ≡ true =
      ap (λ v. v.should_validate) one.1 ∙ on in
    ObeysMany-trans rec.identity st st' st'' (Obeys-once rec.identity st st' one)
      (permission_changes-Obeys env st' chs rec st'' on' rest)
