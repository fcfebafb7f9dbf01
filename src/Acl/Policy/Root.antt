-- ===== src/Acl/Policy/Root.antt =====
-- A fresh list starts safe: the root names one owner.
use any_sync.Common.{
  ℕ, ◌≡◌, refl, sym, ap, ◌∙◌, Bool, true, List, [], ◌∷◌, Option, none, some, arith, ◌==◌,
  if◌then◌else◌, ok, >>=-eq-ok, ok-injective, or_err,
}
use any_sync.Common.Assoc.{get, put}
use any_sync.Acl.Permissions.{AclPermissions, owner, writer, permissions_none, is_owner}
use any_sync.Acl.Model
use any_sync.Acl.Model.{
  Bytes, AclState, AclRecord, AclRoot, AclKeys, AclOneToOneInfo, AccountState, KeyEnv,
  ContentValidator, bad_key, no_model, acl_data, acl_root,
}
use any_sync.Acl.State.{permissions, set_account}
use any_sync.Acl.Apply.Keys.{save_keys_from_root}
use any_sync.Acl.Apply.OneToOne.{
  set_one_to_one_acl, find_me_and_validate_one_to_one, derive_one_to_one_keys, add_writers, founder,
  bytes_of,
}
use any_sync.Acl.Apply.{
  apply_root_model, apply_acl_root, apply_plain_root, root_keys, new_acl_state_with_keys,
  build_state, blank_state,
}
use any_sync.Acl.Policy.{view, offer, keep}
use any_sync.Acl.Policy.Safety.{Anyone, IsSafe, PolicyStep-IsSafe, set_role-IsSafe}
use any_sync.Acl.Policy.Access.{
  SameAccess, SameAccess-eq, SameAccess-refl, set_account-access, SameRoles-accounts,
  SameOffers-invites,
}
use any_sync.Acl.Policy.Refinement.{apply_records-IsSafe}

-- A state without accounts and invites.
record IsBlank (st : AclState) : Type 0 where
  no_roles : (k : ℕ) → permissions st k ≡ permissions_none
  no_offers : (i : ℕ) → offer st i ≡ none

blank_state-IsBlank :
    (env : KeyEnv) (id key : ℕ) (c : ContentValidator) → IsBlank (blank_state env id key c)
unfolding permissions offer get
blank_state-IsBlank env id key c = record { no_roles = λ k. refl; no_offers = λ i. refl }

SameAccess-IsBlank : {st st' : AclState} → SameAccess st st' → IsBlank st → IsBlank st'
SameAccess-IsBlank {st} {st'} s b = record {
  no_roles = λ k. SameRoles-accounts st st' s.accounts k ∙ b.no_roles k;
  no_offers = λ i. SameOffers-invites st st' s.invites i ∙ b.no_offers i;
}

SameAccess-IsSafe : {st st' : AclState} → SameAccess st st' → IsSafe (view st) → IsSafe (view st')
SameAccess-IsSafe {st} {st'} s safe =
    PolicyStep-IsSafe {granting = Anyone} {author = 0}
      (keep (SameRoles-accounts st st' s.accounts) (SameOffers-invites st st' s.invites)) safe

founder_alone :
    (k a b : ℕ) (p ra rb : AclPermissions)
    → ra ≡ (if k == a then p else permissions_none)
    → rb ≡ (if k == b then p else permissions_none)
    → is_owner ra ≡ true
    → is_owner rb ≡ true
    → a ≡ b
unfolding is_owner
founder_alone k a b p ra rb ea eb ha hb = ground arith

-- One account with a role, and no invites.
first_account-IsSafe :
    (st : AclState) (k : ℕ) (a : AccountState) (st' : AclState)
    → IsBlank st
    → SameAccess (set_account st k a) st'
    → IsSafe (view st')
first_account-IsSafe st k a st' blank same =
    let access = set_account-access st k a st' same in
    record {
      one_owner = λ i j hi hj.
          founder_alone k i j a.permissions _ _
            (access.0 i ∙ ap (λ r. if k == i then a.permissions else r) (blank.no_roles i))
            (access.0 j ∙ ap (λ r. if k == j then a.permissions else r) (blank.no_roles j)) hi hj;
      offers = λ i. rw (access.1 i, blank.no_offers i) tt;
    }

module _ (env : KeyEnv) where
  save_keys-SameAccess :
      (st : AclState) (id : ℕ) (root : AclRoot) (st' : AclState)
      → save_keys_from_root env st id root ≡ ok st'
      → SameAccess st st'
  unfolding save_keys_from_root
  save_keys-SameAccess st id root st' h = ground arith

  own_keys-SameAccess :
      (st : AclState) (rec : AclRecord) (root : AclRoot) (ks : AclKeys) (st' : AclState)
      → (if st.pub_key == rec.identity
          then save_keys_from_root env (record st { keys = put rec.id ks st.keys }) rec.id root
          else ok (record st { keys = put rec.id ks st.keys }))
        ≡ ok st'
      → SameAccess st st'
  own_keys-SameAccess st rec root ks st' h =
      ground
        (arith, save_keys-SameAccess (record st { keys = put rec.id ks st.keys }) rec.id root st')

  plain_root-IsSafe :
      (st : AclState) (rec : AclRecord) (root : AclRoot) (st' : AclState)
      → IsBlank st
      → apply_plain_root env st rec root ≡ ok st'
      → IsSafe (view st') × (st'.content_validator ≡ st.content_validator)
  unfolding apply_plain_root
  plain_root-IsSafe st rec root st' blank h =
      let (ks, _, h1) = >>=-eq-ok (root_keys env root) _ h in
      let (keyed, own, h2) =
        >>=-eq-ok
          (if st.pub_key == rec.identity
            then save_keys_from_root env (record st { keys = put rec.id ks st.keys }) rec.id root
            else ok (record st { keys = put rec.id ks st.keys }))
          _ h1 in
      let same = own_keys-SameAccess st rec root ks keyed own in
      let founded =
        SameAccess-eq (ok-injective h2)
          (record { accounts = refl; invites = refl; validator = refl }) in
      (
        first_account-IsSafe keyed rec.identity _ st' (SameAccess-IsBlank same blank) founded,
        (set_account-access keyed rec.identity _ st' founded).2 ∙ same.validator,
      )

  writers-IsSafe :
      (st : AclState) (id : ℕ) (ws : List Bytes) (st' : AclState)
      → IsSafe (view st)
      → add_writers env st id ws ≡ ok st'
      → IsSafe (view st') × (st'.content_validator ≡ st.content_validator)
  unfolding add_writers is_owner
  writers-IsSafe st id [] st' safe h =
      (rw (← ok-injective h) safe, sym (ap (λ s. s.content_validator) (ok-injective h)))
  writers-IsSafe st id (w ∷ ws) st'' safe h =
      let (k, _, h1) = >>=-eq-ok (or_err (env.unmarshal_public_key w) bad_key) _ h in
      let st' = set_account st k (founder k id writer) in
      let access = set_account-access st k (founder k id writer) st' SameAccess-refl in
      let (rest, v) =
        writers-IsSafe st' id ws st'' (set_role-IsSafe k writer refl access.0 access.1 safe) h1 in
      (rest, v ∙ access.2)

  derived_keys-SameAccess :
      (st : AclState) (found_me : Bool) (id : ℕ) (info : AclOneToOneInfo) (st' : AclState)
      → (if found_me then derive_one_to_one_keys env st id info else ok st) ≡ ok st'
      → SameAccess st st'
  unfolding derive_one_to_one_keys
  derived_keys-SameAccess st found_me id info st' h = ground arith

  one_to_one_root-IsSafe :
      (st : AclState) (id : ℕ) (info : AclOneToOneInfo) (st' : AclState)
      → IsBlank st
      → set_one_to_one_acl env st id info ≡ ok st'
      → IsSafe (view st') × (st'.content_validator ≡ st.content_validator)
  unfolding set_one_to_one_acl
  one_to_one_root-IsSafe st id info st' blank h =
      let (found_me, _, h1) = >>=-eq-ok (find_me_and_validate_one_to_one env st info) _ h in
      let (keyed, derived, h2) =
        >>=-eq-ok (if found_me then derive_one_to_one_keys env st id info else ok st) _ h1 in
      let (k, _, h3) =
        >>=-eq-ok (or_err (env.unmarshal_public_key (bytes_of info.owner)) bad_key) _ h2 in
      let (written, wrote, h4) =
        >>=-eq-ok (add_writers env (set_account keyed k (founder k id owner)) id info.writers) _
          h3 in
      let same = derived_keys-SameAccess st found_me id info keyed derived in
      let first =
        first_account-IsSafe keyed k (founder k id owner) (set_account keyed k (founder k id owner))
          (SameAccess-IsBlank same blank) SameAccess-refl in
      let (safe, v) = writers-IsSafe _ id info.writers written first wrote in
      let last : SameAccess written st' =
        SameAccess-eq (ok-injective h4)
          (record { accounts = refl; invites = refl; validator = refl }) in
      (
        SameAccess-IsSafe last safe,
        last.validator
            ∙ (v ∙ ((set_account-access keyed k _ _ SameAccess-refl).2 ∙ same.validator)),
      )

  acl_root-IsSafe :
      (st : AclState) (rec : AclRecord) (root : AclRoot) (o : Option AclOneToOneInfo)
      (st' : AclState)
      → IsBlank st
      → apply_acl_root env st rec root o ≡ ok st'
      → IsSafe (view st') × (st'.content_validator ≡ st.content_validator)
  unfolding apply_acl_root
  acl_root-IsSafe st rec root none st' blank h = plain_root-IsSafe st rec root st' blank h
  acl_root-IsSafe st rec root (some info) st' blank h =
      one_to_one_root-IsSafe st rec.id info st' blank h

  root-IsSafe :
      (st : AclState) (rec : AclRecord) (m : Model.Model) (st' : AclState)
      → IsBlank st
      → apply_root_model env st rec m ≡ ok st'
      → IsSafe (view st') × (st'.content_validator ≡ st.content_validator)
  unfolding apply_root_model
  root-IsSafe st rec no_model st' blank h = cc
  root-IsSafe st rec (acl_data contents) st' blank h = cc
  root-IsSafe st rec (acl_root root) st' blank h =
      acl_root-IsSafe st rec root root.one_to_one_info st' blank h

  -- With validation on, every log of records that builds, root included, leaves at most one owner,
  -- and no open invite that makes an owner, a guest or a nobody.
  pub build_state-IsSafe :
      (recs : List AclRecord) (key : ℕ) (c : ContentValidator) (st : AclState)
      → c.should_validate ≡ true
      → build_state env recs key c ≡ ok st
      → IsSafe (view st)
  unfolding build_state
  build_state-IsSafe [] key c st on h = cc
  build_state-IsSafe (root ∷ rest) key c st on h =
      let (first, rooted, h1) = >>=-eq-ok (new_acl_state_with_keys env root key c) _ h in
      let (safe, v) =
        root-IsSafe (blank_state env root.id key c) root root.model first
          (blank_state-IsBlank env root.id key c) (unfold new_acl_state_with_keys in rooted) in
      apply_records-IsSafe env first rest st (ap (λ x. x.should_validate) v ∙ on) safe h1
