-- ===== src/Acl/Policy/Authority.antt =====
-- Who can change what: admins come from an owner, and members without the right to manage accounts
-- change nothing.
use any_sync.Common.{ℕ, ◌≡◌, ◌≢◌, refl, ◌∙◌, inl, inr, true, false, arith, Bool-cases, ok}
use any_sync.Acl.Permissions.{
  no_permissions, is_owner, is_admin, can_manage_accounts, can_manage_accounts_iff,
}
use any_sync.Acl.Policy.{
  View, PolicyStep, PolicySteps, SameRoles, SameOffers, keep, assign, accept, join, transfer, issue,
  withdraw, here, next,
}
use any_sync.Acl.Policy.Safety.{Anyone, joined-is_owner, IsSafe, PolicyStep-IsSafe}
use any_sync.Acl.Policy.Safety
use any_sync.Acl.Model.{AclState, AclRecord, KeyEnv}
use any_sync.Acl.State.{permissions}
use any_sync.Acl.Apply.{apply_record}
use any_sync.Acl.Policy.{view, offer}
use any_sync.Acl.Policy.Refinement.{record-ObeysMany}

-- What a step does to one account other than the author, case by case.
admin_from_owner :
    (author : ℕ) (v w : View) (k : ℕ)
    → PolicyStep Anyone author v w
    → is_admin (w.role k) ≡ true
    → is_admin (v.role k) ≡ false
    → author ≢ k
    → is_owner (v.role author) ≡ true
admin_from_owner author v w k (keep r o) a b e = ground (arith, r k)
admin_from_owner author v w k (assign j p _ _ _ by _ r o) a b e = ground (arith, r k)
admin_from_owner author v w k (accept j p _ _ _ by r o) a b e = ground (arith, r k)
admin_from_owner author v w k (join i q p _ _ _ r o) a b e = ground (arith, r k)
admin_from_owner author v w k (transfer j p own _ _ _ _ r o) a b e = own
admin_from_owner author v w k (issue i q _ _ _ _ _ o r) a b e = ground (arith, r k)
admin_from_owner author v w k (withdraw i _ o r) a b e = ground (arith, r k)

-- An author never makes itself the owner, if the offers are safe.
author_stays_below :
    (author : ℕ) (v w : View)
    → IsSafe v
    → PolicyStep Anyone author v w
    → is_owner (w.role author) ≡ true
    → is_owner (v.role author) ≡ true
author_stays_below author v w s (keep r o) h = ground (arith, r author)
author_stays_below author v w s (assign j p _ _ np _ _ r o) h = ground (arith, r author)
author_stays_below author v w s (accept j p _ _ np _ r o) h = ground (arith, r author)
author_stays_below author v w s (join i q p _ offered below r o) h =
    ground (arith, r author, joined-is_owner p q below (rw offered at (s.offers i)).0)
author_stays_below author v w s (transfer j p own _ _ _ _ r o) h = own
author_stays_below author v w s (issue i q _ _ _ _ _ o r) h = ground (arith, r author)
author_stays_below author v w s (withdraw i _ o r) h = ground (arith, r author)

author_stays_below_many :
    (author : ℕ) (v : View) {w : View}
    → IsSafe v
    → PolicySteps Anyone author v w
    → is_owner (w.role author) ≡ true
    → is_owner (v.role author) ≡ true
author_stays_below_many author v s here h = h
author_stays_below_many author v s (next {u = u} {w = w} steps step) h =
    author_stays_below_many author v s steps
      (author_stays_below author u w (Safety.PolicySteps-IsSafe steps s) step h)

pub admin_needs_owner :
    (author k : ℕ) (v : View) {w : View}
    → IsSafe v
    → author ≢ k
    → PolicySteps Anyone author v w
    → is_admin (w.role k) ≡ true
    → is_admin (v.role k) ≡ false
    → is_owner (v.role author) ≡ true
admin_needs_owner author k v s apart here a b = cc
admin_needs_owner author k v s apart (next {u = u} {w = w} steps step) a b =
    elim (Bool-cases (is_admin (u.role k))) [
      | inl before ↦ admin_needs_owner author k v s apart steps before b
      | inr after ↦
          author_stays_below_many author v s steps
            (admin_from_owner author u w k step a after apart)
    ]

-- A member that may not manage accounts.
bystander_step :
    (author : ℕ) (v w : View)
    → PolicyStep Anyone author v w
    → can_manage_accounts (v.role author) ≡ false
    → no_permissions (v.role author) ≡ false
    → SameRoles v w × SameOffers v w
bystander_step author v w (keep r o) a b = (r, o)
bystander_step author v w (assign j p can _ _ _ _ r o) a b = cc
bystander_step author v w (accept j p _ can _ _ r o) a b = cc
bystander_step author v w (join i q p nobody _ _ r o) a b = cc
bystander_step author v w (transfer j p own _ _ _ _ r o) a b =
    ground (arith, can_manage_accounts_iff (v.role author))
bystander_step author v w (issue i q can _ _ _ _ o r) a b = cc
bystander_step author v w (withdraw i can o r) a b = cc

pub bystander_changes_nothing :
    (author : ℕ) (v : View) {w : View}
    → PolicySteps Anyone author v w
    → can_manage_accounts (v.role author) ≡ false
    → no_permissions (v.role author) ≡ false
    → SameRoles v w × SameOffers v w
bystander_changes_nothing author v here a b = (λ j. refl, λ j. refl)
bystander_changes_nothing author v (next {u = u} {w = w} steps step) a b =
    let (r, o) = bystander_changes_nothing author v steps a b in
    let (r', o') = bystander_step author u w step (rw (r author) a) (rw (r author) b) in
    (λ j. r' j ∙ r j, λ j. o' j ∙ o j)

module _ (env : KeyEnv) where
  -- With validation on, in a state with at most one owner and harmless open invites: if an
  -- applied record makes an account an admin that was none, and the account is not the record's
  -- author, then the author was an owner before it.
  pub apply_record-admin_needs_owner :
      (st : AclState) (rec : AclRecord) (st' : AclState) (k : ℕ)
      → st.content_validator.should_validate ≡ true
      → IsSafe (view st)
      → apply_record env st rec ≡ ok st'
      → rec.identity ≢ k
      → is_admin (permissions st k) ≡ false
      → is_admin (permissions st' k) ≡ true
      → is_owner (permissions st rec.identity) ≡ true
  apply_record-admin_needs_owner st rec st' k on safe h apart before after =
      admin_needs_owner rec.identity k (view st) safe apart (record-ObeysMany env st rec st' on h).0
        after before

  -- With validation on, an applied record by a member without the right to manage accounts (a reader,
  -- a writer, a guest) leaves every role and every open invite as it was.
  pub apply_record_by_bystander :
      (st : AclState) (rec : AclRecord) (st' : AclState)
      → st.content_validator.should_validate ≡ true
      → apply_record env st rec ≡ ok st'
      → can_manage_accounts (permissions st rec.identity) ≡ false
      → no_permissions (permissions st rec.identity) ≡ false
      → ((k : ℕ) → permissions st' k ≡ permissions st k) × ((i : ℕ) → offer st' i ≡ offer st i)
  apply_record_by_bystander st rec st' on h =
      bystander_changes_nothing rec.identity (view st) (record-ObeysMany env st rec st' on h).0
