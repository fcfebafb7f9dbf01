-- ===== src/Acl/Policy.antt =====
-- The access policy of a space, apart from records, keys and requests: who has which role, which
-- invites let anyone join, and which changes an author may make. The handlers of aclstate.go with the
-- validator of validator.go are shown to make such changes only.
pub mod Safety
pub mod Access
pub mod Obeys
pub mod Refinement
pub mod Authority
pub mod Orphan
pub mod Root
use any_sync.Common.{
  ℕ, ◌≡◌, ◌⊎◌, Bool, true, false, not, ◌||◌, Option, none, some, ◌==◌, if◌then◌else◌,
}
use any_sync.Common.Assoc.{get}
use any_sync.Acl.Permissions.{
  AclPermissions, owner, no_permissions, is_owner, is_admin, is_guest, can_manage_accounts,
  is_less_or_equal,
}
use any_sync.Acl.Model
use any_sync.Acl.Model.{AclState, AclContentValue, Invite, RequestRecord, anyone_can_join}
use any_sync.Acl.State.{permissions, same_type}

-- The role of each account, and the role that each open invite gives.
pub record View : Type 0 where
  pub role : ℕ → AclPermissions
  pub offer : ℕ → Option AclPermissions

abbrev pub offer_of : Option Invite → Option AclPermissions
offer_of none = none
offer_of (some i) = if same_type i.type anyone_can_join then some i.permissions else none

unfoldable pub offer : AclState → ℕ → Option AclPermissions
offer st id = offer_of (get id st.invites)

abbrev pub view : AclState → View
view st = record { role = permissions st; offer = offer st }

abbrev pub SameRoles : View → View → Type 0
SameRoles v w = (j : ℕ) → w.role j ≡ v.role j

abbrev pub SameOffers : View → View → Type 0
SameOffers v w = (j : ℕ) → w.offer j ≡ v.offer j

abbrev pub SetsRole : ℕ → AclPermissions → View → View → Type 0
SetsRole k p v w = (j : ℕ) → w.role j ≡ (if k == j then p else v.role j)

abbrev pub SetsOffer : ℕ → Option AclPermissions → View → View → Type 0
SetsOffer i o v w = (j : ℕ) → w.offer j ≡ (if i == j then o else v.offer j)

-- Only an owner deals with the role of an admin.
abbrev pub admin_by_owner : AclPermissions → AclPermissions → Bool
admin_by_owner p author_role = not (is_admin p) || is_owner author_role

-- Which accounts may be given which roles on their request.
abbrev pub Granting : Type 1
Granting = ℕ → AclPermissions → Type 0

-- The request that a content accepts stands in the state, and is by the account.
abbrev pub Accepts : AclState → AclContentValue → Granting
Accepts st (Model.request_accept ch) k p =
    (r : RequestRecord) × (get ch.request_record_id st.request_records ≡ some r)
    × (r.request_identity ≡ k)
    × (ch.permissions ≡ p)
Accepts st _ k p = ⊥

-- What one change by `author` may do, where `granting` tells which requests it accepts.
pub data PolicyStep (granting : Granting) (author : ℕ) (v w : View) : Type 0 where
  keep : SameRoles v w → SameOffers v w → PolicyStep granting author v w
  -- a manager gives an account that is no owner a role, or takes it away
  assign :
      (k : ℕ) (p : AclPermissions)
      → can_manage_accounts (v.role author) ≡ true
      → is_owner (v.role k) ≡ false
      → is_owner p ≡ false
      → admin_by_owner p (v.role author) ≡ true
      → admin_by_owner (v.role k) (v.role author) ≡ true
      → SetsRole k p v w
      → SameOffers v w
      → PolicyStep granting author v w
  -- a manager accepts a request, whatever role the account has by then
  accept :
      (k : ℕ) (p : AclPermissions)
      → granting k p
      → can_manage_accounts (v.role author) ≡ true
      → is_owner p ≡ false
      → admin_by_owner p (v.role author) ≡ true
      → SetsRole k p v w
      → SameOffers v w
      → PolicyStep granting author v w
  -- an account without a role takes at most the role of an open invite
  join :
      (i : ℕ) (q p : AclPermissions)
      → no_permissions (v.role author) ≡ true
      → v.offer i ≡ some q
      → (p ≡ q) ⊎ (is_less_or_equal p q ≡ true)
      → SetsRole author p v w
      → SameOffers v w
      → PolicyStep granting author v w
  -- the owner makes a member the owner, and takes a lesser role
  transfer :
      (k : ℕ) (p : AclPermissions)
      → is_owner (v.role author) ≡ true
      → is_owner (v.role k) ≡ false
      → no_permissions (v.role k) ≡ false
      → is_owner p ≡ false
      → no_permissions p ≡ false
      → ((j : ℕ) → w.role j ≡ (if k == j then owner else if author == j then p else v.role j))
      → SameOffers v w
      → PolicyStep granting author v w
  -- a manager opens an invite, or changes the role that it gives
  issue :
      (i : ℕ) (q : AclPermissions)
      → can_manage_accounts (v.role author) ≡ true
      → is_owner q ≡ false
      → no_permissions q ≡ false
      → is_guest q ≡ false
      → admin_by_owner q (v.role author) ≡ true
      → SetsOffer i (some q) v w
      → SameRoles v w
      → PolicyStep granting author v w
  withdraw :
      (i : ℕ)
      → can_manage_accounts (v.role author) ≡ true
      → SetsOffer i none v w
      → SameRoles v w
      → PolicyStep granting author v w

pub data PolicySteps (granting : Granting) (author : ℕ) (v : View) : View → Type 0 where
  here : PolicySteps granting author v v
  next :
      {u w : View}
      → PolicySteps granting author v u
      → PolicyStep granting author u w
      → PolicySteps granting author v w
