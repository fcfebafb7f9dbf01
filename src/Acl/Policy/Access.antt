-- ===== src/Acl/Policy/Access.antt =====
-- How the shared updates of the state act on roles and open invites.
use any_sync.Common.{
  ℕ, ◌≡◌, refl, sym, ap, ◌∙◌, none, some, arith, ◌==◌, if◌then◌else◌, Bool-cases, inl, inr, List,
  [], ◌∷◌, ok, >>=-eq-ok, ok-injective, or_err,
}
use any_sync.Common.Assoc.{Assoc, get, put, delete, get-put, get-delete}
use any_sync.Acl.Model.{
  Payload, AclState, AccountState, Invite, AclReadKeyChange, AclEncryptedReadKey, RequestRecord,
  KeyEnv, bad_key,
}
use any_sync.Acl.State.{permissions, permissions_of, set_account}
use any_sync.Acl.Apply.Keys.{
  unpack_all_keys, change_read_key, update_invite, update_invites, own_read_key, metadata_key_of,
}
use any_sync.Acl.Apply.Updates.{drop_request, add_request, drop_own_request, unpack_own}
use any_sync.Acl.Apply.Accounts.{drop_pending}
use any_sync.Acl.Policy.{view, offer, offer_of, SameRoles, SameOffers, SetsRole, SetsOffer}

-- Two states with the same accounts, invites and validator.
pub record SameAccess (st st' : AclState) : Type 0 where
  pub accounts : st'.account_states ≡ st.account_states
  pub invites : st'.invites ≡ st.invites
  pub validator : st'.content_validator ≡ st.content_validator

pub SameAccess-trans : {a b c : AclState} → SameAccess a b → SameAccess b c → SameAccess a c
SameAccess-trans p q = record {
  accounts = q.accounts ∙ p.accounts;
  invites = q.invites ∙ p.invites;
  validator = q.validator ∙ p.validator;
}

pub SameRoles-accounts :
    (st st' : AclState) → st'.account_states ≡ st.account_states → SameRoles (view st) (view st')
unfolding permissions
SameRoles-accounts st st' e j = ap (λ m. permissions_of (get j m)) e

pub SameOffers-invites :
    (st st' : AclState) → st'.invites ≡ st.invites → SameOffers (view st) (view st')
unfolding offer
SameOffers-invites st st' e j = ap (λ m. offer_of (get j m)) e

pub SetsRole-accounts :
    (st st' : AclState) (k : ℕ) (a : AccountState)
    → st'.account_states ≡ put k a st.account_states
    → SetsRole k a.permissions (view st) (view st')
unfolding permissions
SetsRole-accounts st st' k a e j =
    ap (λ m. permissions_of (get j m)) e ∙ (ground (arith, get-put k j a st.account_states))

pub SetsOffer-put :
    (st st' : AclState) (i : ℕ) (new : Invite)
    → st'.invites ≡ put i new st.invites
    → SetsOffer i (offer_of (some new)) (view st) (view st')
unfolding offer
SetsOffer-put st st' i new e j = ap (λ m. offer_of (get j m)) e ∙ sets
  where
    sets :
        offer_of (get j (put i new st.invites))
        ≡ (if i == j then offer_of (some new) else offer_of (get j st.invites))
    sets = elim (Bool-cases (i == j)) [
      | inl hit ↦ rw (get-put i j new st.invites, hit)
      | inr miss ↦ rw (get-put i j new st.invites, miss)
    ]

pub SetsOffer-delete :
    (st st' : AclState) (i : ℕ)
    → st'.invites ≡ delete i st.invites
    → SetsOffer i none (view st) (view st')
unfolding offer
SetsOffer-delete st st' i e j = ap (λ m. offer_of (get j m)) e ∙ sets
  where
    sets :
        offer_of (get j (delete i st.invites))
        ≡ (if i == j then none else offer_of (get j st.invites))
    sets = elim (Bool-cases (i == j)) [
      | inl hit ↦ rw (get-delete i j st.invites, hit)
      | inr miss ↦ rw (get-delete i j st.invites, miss)
    ]

-- A new read key leaves the roles that the invites give.
offer-update_invite :
    (env : KeyEnv) (k : ℕ) (e : Payload) (m : Assoc Invite) (j : ℕ)
    → offer_of (get j (update_invite env k e m)) ≡ offer_of (get j m)
unfolding update_invite get
offer-update_invite env k e [] j = refl
offer-update_invite env k e ((i, x) ∷ m) j = ground (arith, offer-update_invite env k e m j)

offer-update_invites :
    (env : KeyEnv) (ks : List AclEncryptedReadKey) (m m' : Assoc Invite) (j : ℕ)
    → update_invites env ks m ≡ ok m'
    → offer_of (get j m') ≡ offer_of (get j m)
unfolding update_invites
offer-update_invites env [] m m' j h = ground arith
offer-update_invites env (k ∷ ks) m m' j h =
    let (key, _, rest) = >>=-eq-ok (or_err (env.pub_key_from_proto k.identity) bad_key) _ h in
    offer-update_invites env ks _ m' j rest ∙ offer-update_invite env key k.encrypted_read_key m j

module _ (env : KeyEnv) where
  pub unpack_all_keys-SameAccess :
      (st : AclState) (b : Payload) (st' : AclState)
      → unpack_all_keys env st b ≡ ok st'
      → SameAccess st st'
  unfolding unpack_all_keys
  unpack_all_keys-SameAccess st b st' h = ground arith

  pub unpack_own-SameAccess :
      (st : AclState) (k : ℕ) (b : Payload) (st' : AclState)
      → unpack_own env st k b ≡ ok st'
      → SameAccess st st'
  unfolding unpack_own
  unpack_own-SameAccess st k b st' h = ground (arith, unpack_all_keys-SameAccess st b st')

  pub change_read_key-keeps :
      (st : AclState) (ch : AclReadKeyChange) (id : ℕ) (st' : AclState)
      → change_read_key env st ch id ≡ ok st'
      → (st'.account_states ≡ st.account_states)
        × SameOffers (view st) (view st')
        × (st'.content_validator ≡ st.content_validator)
  unfolding change_read_key offer
  change_read_key-keeps st ch id st' h =
      let (mk, _, h1) =
        >>=-eq-ok (or_err (env.pub_key_from_proto ch.metadata_pub_key) bad_key) _ h in
      let (rk, _, h2) = >>=-eq-ok (own_read_key env st ch.account_keys none) _ h1 in
      let (invites, e, h3) = >>=-eq-ok (update_invites env ch.invite_keys st.invites) _ h2 in
      let (md, _, h4) = >>=-eq-ok (metadata_key_of env rk ch.encrypted_metadata_priv_key) _ h3 in
      let result = ok-injective h4 in
      let accounts : st'.account_states ≡ st.account_states =
        sym (ap (λ s. s.account_states) result) in
      let new_invites : st'.invites ≡ invites = sym (ap (λ s. s.invites) result) in
      (
        accounts,
        λ j.
            ap (λ m. offer_of (get j m)) new_invites
            ∙ offer-update_invites env ch.invite_keys st.invites invites j e,
        sym (ap (λ s. s.content_validator) result),
      )

pub drop_own_request-SameAccess : (st : AclState) (k : ℕ) → SameAccess st (drop_own_request st k)
unfolding drop_own_request
drop_own_request-SameAccess st k = ground arith

pub drop_request-SameAccess : (st : AclState) (k id : ℕ) → SameAccess st (drop_request st k id)
unfolding drop_request
drop_request-SameAccess st k id = ground arith

pub add_request-SameAccess :
    (st : AclState) (k : ℕ) (r : RequestRecord) → SameAccess st (add_request st k r)
unfolding add_request
add_request-SameAccess st k r = ground arith

-- A state that agrees with an update of one account.
pub set_account-access :
    (st : AclState) (k : ℕ) (a : AccountState) (st' : AclState)
    → SameAccess (set_account st k a) st'
    → SetsRole k a.permissions (view st) (view st')
      × SameOffers (view st) (view st')
      × (st'.content_validator ≡ st.content_validator)
unfolding set_account
set_account-access st k a st' s =
    (SetsRole-accounts st st' k a s.accounts, SameOffers-invites st st' s.invites, s.validator)

-- Giving an account the role that it has changes no role.
pub set_account_same-SameRoles :
    (st : AclState) (k : ℕ) (a : AccountState) (st' : AclState)
    → SameAccess (set_account st k a) st'
    → permissions st k ≡ a.permissions
    → SameRoles (view st) (view st')
set_account_same-SameRoles st k a st' s e j =
    ground (arith, (set_account-access st k a st' s).0 j, e)

pub set_account-SameAccess :
    {st s : AclState} (k : ℕ) (a : AccountState)
    → SameAccess st s
    → SameAccess (set_account st k a) (set_account s k a)
unfolding set_account
set_account-SameAccess k a e = record {
  accounts = ap (put k a) e.accounts;
  invites = e.invites;
  validator = e.validator;
}

pub SameAccess-eq : {st s t : AclState} → s ≡ t → SameAccess st s → SameAccess st t
SameAccess-eq {st} e h = rw (← e) h

pub SameAccess-refl : {st : AclState} → SameAccess st st
SameAccess-refl = record { accounts = refl; invites = refl; validator = refl }

pub drop_pending-SameAccess : (st : AclState) (k : ℕ) → SameAccess st (drop_pending st k)
unfolding drop_pending
drop_pending-SameAccess st k = ground arith
