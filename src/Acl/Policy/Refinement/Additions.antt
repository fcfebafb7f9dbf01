-- ===== src/Acl/Policy/Refinement/Additions.antt =====
-- The handler that adds accounts (Apply/Accounts) makes changes that the policy permits. Its loop
-- checks the whole batch against the first state.
use any_sync.Common.{
  ℕ, ◌≡◌, refl, true, false, some, arith, ◌==◌, if◌then◌else◌, inl, inr, List, [], ◌∷◌, ok,
  >>=-eq-ok, ok-injective, or_err, Bool-cases,
}
use any_sync.Acl.Permissions.{
  AclPermissions, no_permissions, is_owner, can_manage_accounts, no_permissions-is_owner,
  no_permissions-is_admin, no_permissions-can_manage_accounts,
}
use any_sync.Acl.Model.{AclState, AclRecord, AclAccountAdd, KeyEnv, bad_key}
use any_sync.Acl.State.{permissions, set_account}
use any_sync.Acl.Validator.{validate_accounts_add, check_additions}
use any_sync.Acl.Apply.Updates.{unpack_own}
use any_sync.Acl.Apply.Accounts.{apply_accounts_add, add_accounts}
use any_sync.Acl.Policy.{View, view, Granting, admin_by_owner, SetsRole, assign}
use any_sync.Acl.Policy.Access.{set_account-access, unpack_own-SameAccess}
use any_sync.Acl.Policy.Obeys.{Obeys, ObeysMany, Obeys-once, ObeysMany-trans, Obeys-eq, unchanged}

-- While a batch is added: the author's role stands, and the accounts that had no role are no owners,
-- and admins only by an owner.
record WhileAdding (author : ℕ) (v0 v : View) : Type 0 where
  author_same : v.role author ≡ v0.role author
  manages : can_manage_accounts (v0.role author) ≡ true
  fresh :
      (k : ℕ)
      → no_permissions (v0.role k) ≡ true
      → (is_owner (v.role k) ≡ false) × (admin_by_owner (v.role k) (v0.role author) ≡ true)

start_adding :
    (author : ℕ) (v : View) → can_manage_accounts (v.role author) ≡ true → WhileAdding author v v
start_adding author v can = record {
  author_same = refl;
  manages = can;
  fresh = λ k nobody. (no_permissions-is_owner _ nobody, rw (no_permissions-is_admin _ nobody));
}

added_author :
    (author k : ℕ) (p r0 rk r r' : AclPermissions)
    → can_manage_accounts r0 ≡ true
    → (k ≡ author → no_permissions r0 ≡ true)
    → r ≡ r0
    → r' ≡ (if k == author then p else r)
    → r' ≡ r0
added_author author k p r0 rk r r' can none_at same e =
    ground (arith, no_permissions-can_manage_accounts r0)

keep_adding :
    (author k : ℕ) (p : AclPermissions) (v0 v v' : View)
    → no_permissions (v0.role k) ≡ true
    → is_owner p ≡ false
    → admin_by_owner p (v0.role author) ≡ true
    → SetsRole k p v v'
    → WhileAdding author v0 v
    → WhileAdding author v0 v'
keep_adding author k p v0 v v' nobody nw by sets w = record {
  author_same =
      added_author author k p (v0.role author) p (v.role author) (v'.role author) w.manages
        (λ e. rw (← e) nobody) w.author_same (sets author);
  manages = w.manages;
  fresh = λ j nobody'. elim (Bool-cases (k == j)) [
    | inl hit ↦ rw (sets j, hit) (nw, by)
    | inr miss ↦ rw (sets j, miss) (w.fresh j nobody')
  ];
}

module _ (env : KeyEnv) where
  addition_facts :
      (st : AclState) (r : AclPermissions) (a : AclAccountAdd) (rest : List AclAccountAdd) (k : ℕ)
      → env.pub_key_from_proto a.identity ≡ some k
      → check_additions env st r (a ∷ rest) ≡ ok tt
      → (no_permissions (permissions st k) ≡ true)
        × (is_owner a.permissions ≡ false)
        × (admin_by_owner a.permissions r ≡ true)
        × (check_additions env st r rest ≡ ok tt)
  unfolding check_additions
  addition_facts st r a rest k decoded h = ground arith

  add_accounts-ObeysMany :
      {granting : Granting} (author : ℕ) (st0 st : AclState) (additions : List AclAccountAdd)
      (rec : AclRecord) (st' : AclState)
      → WhileAdding author (view st0) (view st)
      → check_additions env st0 (permissions st0 author) additions ≡ ok tt
      → add_accounts env st additions rec ≡ ok st'
      → ObeysMany granting author st st'
  unfolding add_accounts
  add_accounts-ObeysMany author st0 st [] rec st' w checked h =
      Obeys-once author st st' (Obeys-eq author st (ok-injective h) (unchanged author st))
  add_accounts-ObeysMany author st0 st (a ∷ rest) rec st'' w checked h =
      let (k, decoded, h1) = >>=-eq-ok (or_err (env.pub_key_from_proto a.identity) bad_key) _ h in
      let found : env.pub_key_from_proto a.identity ≡ some k = ground arith in
      let (st', unpacked, h2) =
        >>=-eq-ok (unpack_own env (set_account st k _) k a.encrypted_read_key) _ h1 in
      let (nobody, nw, by, checked') =
        addition_facts st0 (permissions st0 author) a rest k found checked in
      let access =
        set_account-access st k _ st'
          (unpack_own-SameAccess env _ k a.encrypted_read_key st' unpacked) in
      let fresh = w.fresh k nobody in
      let step : Obeys _ author st st' = (
        assign k a.permissions (rw w.author_same w.manages) fresh.0 nw (rw w.author_same by)
            (rw w.author_same fresh.1) access.0 access.1,
        access.2,
      ) in
      ObeysMany-trans author st st' st'' (Obeys-once author st st' step) (
        add_accounts-ObeysMany author st0 st' rest rec st''
          (keep_adding author k a.permissions (view st0) (view st) (view st') nobody nw by access.0
            w)
          checked' h2)

  accounts_add_facts :
      (st : AclState) (additions : List AclAccountAdd) (author : ℕ)
      → st.content_validator.should_validate ≡ true
      → validate_accounts_add env st additions author ≡ ok tt
      → (can_manage_accounts (permissions st author) ≡ true)
        × (check_additions env st (permissions st author) additions ≡ ok tt)
  unfolding validate_accounts_add
  accounts_add_facts st additions author on h = ground arith

  pub accounts_add-ObeysMany :
      {granting : Granting} (st : AclState) (additions : List AclAccountAdd) (rec : AclRecord)
      (st' : AclState)
      → st.content_validator.should_validate ≡ true
      → apply_accounts_add env st additions rec ≡ ok st'
      → ObeysMany granting rec.identity st st'
  unfolding apply_accounts_add
  accounts_add-ObeysMany st additions rec st' on h =
      let (_, checked, h1) = >>=-eq-ok (validate_accounts_add env st additions rec.identity) _ h in
      let facts = accounts_add_facts st additions rec.identity on checked in
      add_accounts-ObeysMany rec.identity st st additions rec st'
        (start_adding rec.identity (view st) facts.0) facts.1 h1
