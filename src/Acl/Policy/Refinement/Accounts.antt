-- ===== src/Acl/Policy/Refinement/Accounts.antt =====
-- The handlers that remove accounts and change the read key (Apply/Accounts) make changes that the
-- policy permits. Their loops check the whole batch against the first state.
use any_sync.Common.{
  ℕ, ◌≡◌, refl, Bool, true, false, some, arith, ◌==◌, if◌then◌else◌, inl, inr, ◌⊎◌, List, [], ◌∷◌,
  ok, >>=-eq-ok, ok-injective, or_err, Bool-cases,
}
use any_sync.Acl.Permissions.{
  AclPermissions, permissions_none, is_owner, is_admin, can_manage_accounts,
}
use any_sync.Acl.Model.{
  Bytes, AclState, AclRecord, AclAccountRemove, AclReadKeyChange, KeyEnv, bad_key, no_such_account,
  panic,
}
use any_sync.Acl.State.{permissions, set_account, account}
use any_sync.Acl.Validator.{validate_account_remove, check_removals, validate_read_key_change}
use any_sync.Acl.Apply.Keys.{change_read_key}
use any_sync.Acl.Apply.Accounts.{
  apply_account_remove, remove_accounts, apply_read_key_change, drop_pending, removed_account,
}
use any_sync.Acl.Policy.{View, view, Granting, admin_by_owner, SetsRole, keep, assign}
use any_sync.Acl.Policy.Access.{
  SameRoles-accounts, set_account-access, change_read_key-keeps, drop_pending-SameAccess,
}
use any_sync.Acl.Policy.Obeys.{Obeys, ObeysMany, Obeys-once, ObeysMany-trans, Obeys-eq, unchanged}

-- While a batch is removed: the author's role stands, and every account has its role or none.
record WhileRemoving (author : ℕ) (v0 v : View) : Type 0 where
  author_same : v.role author ≡ v0.role author
  manages : can_manage_accounts (v0.role author) ≡ true
  old_or_none : (k : ℕ) → (v.role k ≡ v0.role k) ⊎ (v.role k ≡ permissions_none)

removed_author :
    (author k : ℕ) (p r0 r r' : AclPermissions)
    → (k == author) ≡ false
    → r ≡ r0
    → r' ≡ (if k == author then p else r)
    → r' ≡ r0
removed_author author k p r0 r r' apart same e = ground arith

keep_removing :
    (author k : ℕ) (v0 v v' : View)
    → (k == author) ≡ false
    → SetsRole k permissions_none v v'
    → WhileRemoving author v0 v
    → WhileRemoving author v0 v'
keep_removing author k v0 v v' apart sets w = record {
  author_same =
      removed_author author k permissions_none (v0.role author) (v.role author) (v'.role author)
        apart w.author_same (sets author);
  manages = w.manages;
  old_or_none = λ j. elim (Bool-cases (k == j)) [
    | inl hit ↦ inr (rw (sets j, hit))
    | inr miss ↦ rw (sets j, miss) (w.old_or_none j)
  ];
}

no_owner_left :
    (r r0 : AclPermissions)
    → (r ≡ r0) ⊎ (r ≡ permissions_none)
    → is_owner r0 ≡ false
    → is_owner r ≡ false
unfolding is_owner
no_owner_left r r0 (inl e) h = rw e h
no_owner_left r r0 (inr e) h = rw e

admin_left :
    (r r0 a : AclPermissions)
    → (r ≡ r0) ⊎ (r ≡ permissions_none)
    → admin_by_owner r0 a ≡ true
    → admin_by_owner r a ≡ true
unfolding is_admin
admin_left r r0 a (inl e) h = rw e h
admin_left r r0 a (inr e) h = rw e

none_is_owner :
    (is_owner permissions_none ≡ false)
    × ((a : AclPermissions) → admin_by_owner permissions_none a ≡ true)
unfolding is_owner is_admin
none_is_owner = (refl, λ a. refl)

module _ (env : KeyEnv) where
  removal_facts :
      (st : AclState) (author : ℕ) (b : Bytes) (rest : List Bytes) (seen seen' : List ℕ) (k : ℕ)
      → env.pub_key_from_proto b ≡ some k
      → check_removals env st author (b ∷ rest) seen ≡ ok seen'
      → ((k == author) ≡ false)
        × (is_owner (permissions st k) ≡ false)
        × (admin_by_owner (permissions st k) (permissions st author) ≡ true)
        × (check_removals env st author rest (k ∷ seen) ≡ ok seen')
  unfolding check_removals
  removal_facts st author b rest seen seen' k decoded h = ground arith

  remove_accounts-ObeysMany :
      {granting : Granting} (author : ℕ) (st0 st : AclState) (identities : List Bytes)
      (rec : AclRecord) (seen seen' : List ℕ) (st' : AclState)
      → WhileRemoving author (view st0) (view st)
      → check_removals env st0 author identities seen ≡ ok seen'
      → remove_accounts env st identities rec ≡ ok st'
      → ObeysMany granting author st st'
  unfolding remove_accounts
  remove_accounts-ObeysMany author st0 st [] rec seen seen' st' w checked h =
      Obeys-once author st st' (Obeys-eq author st (ok-injective h) (unchanged author st))
  remove_accounts-ObeysMany author st0 st (b ∷ rest) rec seen seen' st'' w checked h =
      let (k, decoded, h1) = >>=-eq-ok (or_err (env.pub_key_from_proto b) bad_key) _ h in
      let found : env.pub_key_from_proto b ≡ some k = ground arith in
      let (a, _, h2) = >>=-eq-ok (or_err (account st k) no_such_account) _ h1 in
      let (apart, nw, by, checked') = removal_facts st0 author b rest seen seen' k found checked in
      let gone = removed_account a rec.id in
      let st' = drop_pending (set_account st k gone) k in
      let access =
        set_account-access st k gone st' (drop_pending-SameAccess (set_account st k gone) k) in
      let old = w.old_or_none k in
      let step : Obeys _ author st st' = (
        assign k permissions_none (rw w.author_same w.manages) (no_owner_left _ _ old nw)
            (none_is_owner.0) (none_is_owner.1 (permissions st author))
            (rw w.author_same (admin_left _ _ _ old by)) access.0 access.1,
        access.2,
      ) in
      ObeysMany-trans author st st' st'' (Obeys-once author st st' step) (
        remove_accounts-ObeysMany author st0 st' rest rec (k ∷ seen) seen' st''
          (keep_removing author k (view st0) (view st) (view st') apart access.0 w) checked' h2)

  read_key_change_step :
      {granting : Granting} (author : ℕ) (st : AclState) (ch : AclReadKeyChange) (id : ℕ)
      (st' : AclState)
      → change_read_key env st ch id ≡ ok st'
      → Obeys granting author st st'
  read_key_change_step author st ch id st' h =
      let (accounts, offers, v) = change_read_key-keeps env st ch id st' h in
      (keep (SameRoles-accounts st st' accounts) offers, v)

  pub read_key_change-Obeys :
      {granting : Granting} (st : AclState) (ch : AclReadKeyChange) (rec : AclRecord)
      (validate : Bool) (st' : AclState)
      → apply_read_key_change env st ch rec validate ≡ ok st'
      → Obeys granting rec.identity st st'
  unfolding apply_read_key_change
  read_key_change-Obeys st ch rec validate st' h =
      let (_, _, h1) =
        >>=-eq-ok (if validate then validate_read_key_change env st ch rec.identity else ok tt) _
          h in
      read_key_change_step rec.identity st ch rec.id st' h1

  account_remove_facts :
      (st : AclState) (ch : AclAccountRemove) (author : ℕ)
      → st.content_validator.should_validate ≡ true
      → validate_account_remove env st ch author ≡ ok tt
      → (can_manage_accounts (permissions st author) ≡ true)
        × (seen : List ℕ) × (check_removals env st author ch.identities [] ≡ ok seen)
  unfolding validate_account_remove
  account_remove_facts st ch author on h = ground arith

  pub account_remove-ObeysMany :
      {granting : Granting} (st : AclState) (ch : AclAccountRemove) (rec : AclRecord)
      (st' : AclState)
      → st.content_validator.should_validate ≡ true
      → apply_account_remove env st ch rec ≡ ok st'
      → ObeysMany granting rec.identity st st'
  unfolding apply_account_remove
  account_remove-ObeysMany st ch rec st'' on h =
      let (_, checked, h1) = >>=-eq-ok (validate_account_remove env st ch rec.identity) _ h in
      let (can, seen, batch) = account_remove_facts st ch rec.identity on checked in
      let (st', removed, h2) = >>=-eq-ok (remove_accounts env st ch.identities rec) _ h1 in
      let (change, _, h3) = >>=-eq-ok (or_err ch.read_key_change panic) _ h2 in
      let start : WhileRemoving rec.identity (view st) (view st) = record {
        author_same = refl;
        manages = can;
        old_or_none = λ k. inl refl;
      } in
      ObeysMany-trans rec.identity st st' st''
        (remove_accounts-ObeysMany rec.identity st st ch.identities rec [] seen st' start batch
          removed)
        (Obeys-once rec.identity st' st'' (read_key_change-Obeys st' change rec false st'' h3))
