-- ===== src/Acl/Permissions.antt =====
-- The roles of an account (commonspace/object/acl/list/models.go).
use any_sync.Common.{◌≡◌, Bool, true, false, not, ◌||◌, ℕ, ◌==◌, arith, ◌+◌}

-- `AclPermissions` is an open protobuf enum: `unknown` stands for the numbers without a name.
pub data AclPermissions : Type 0 where
  permissions_none owner admin writer reader guest : AclPermissions
  unknown : ℕ → AclPermissions

-- Go's `==` on the enum: the numbers of the protobuf enum, and what is left over.
abbrev pub number : AclPermissions → ℕ
number permissions_none = 0
number owner = 1
number admin = 2
number writer = 3
number reader = 4
number guest = 5
number (unknown n) = 6 + n

unfoldable pub same_permissions : AclPermissions → AclPermissions → Bool
same_permissions p q = number p == number q

unfoldable pub no_permissions : AclPermissions → Bool
no_permissions permissions_none = true
no_permissions _ = false

unfoldable pub is_owner : AclPermissions → Bool
is_owner owner = true
is_owner _ = false

unfoldable pub is_guest : AclPermissions → Bool
is_guest guest = true
is_guest _ = false

unfoldable pub is_admin : AclPermissions → Bool
is_admin admin = true
is_admin _ = false

unfoldable pub can_write : AclPermissions → Bool
can_write admin = true
can_write writer = true
can_write owner = true
can_write _ = false

unfoldable pub can_manage_accounts : AclPermissions → Bool
can_manage_accounts admin = true
can_manage_accounts owner = true
can_manage_accounts _ = false

unfoldable pub can_request_remove : AclPermissions → Bool
can_request_remove guest = false
can_request_remove _ = true

unfoldable pub is_less_or_equal : AclPermissions → AclPermissions → Bool
unfolding same_permissions
is_less_or_equal permissions_none q = true
is_less_or_equal reader q = not (same_permissions q permissions_none)
is_less_or_equal writer q = same_permissions q writer || same_permissions q admin
is_less_or_equal admin q = same_permissions admin q
is_less_or_equal _ q = false

-- Nobody is below the owner but by `none`: a role that is at most another is none or not an owner.
pub is_less_or_equal-is_owner :
    (p q : AclPermissions) → is_less_or_equal p q ≡ true → is_owner p ≡ false
unfolding is_less_or_equal is_owner
is_less_or_equal-is_owner p q h = ground arith

pub is_less_or_equal-is_admin :
    (p q : AclPermissions) → is_less_or_equal p q ≡ true → is_admin p ≡ true → is_admin q ≡ true
unfolding is_less_or_equal is_admin
is_less_or_equal-is_admin p q h a = ground arith

pub no_permissions-is_owner : (p : AclPermissions) → no_permissions p ≡ true → is_owner p ≡ false
unfolding no_permissions is_owner
no_permissions-is_owner p h = ground arith

pub no_permissions-is_admin : (p : AclPermissions) → no_permissions p ≡ true → is_admin p ≡ false
unfolding no_permissions is_admin
no_permissions-is_admin p h = ground arith

pub no_permissions-eq_none : (p : AclPermissions) → no_permissions p ≡ true → p ≡ permissions_none
unfolding no_permissions
no_permissions-eq_none p h = ground arith

pub is_owner-is_admin : (p : AclPermissions) → is_owner p ≡ true → is_admin p ≡ false
unfolding is_owner is_admin
is_owner-is_admin p h = ground arith

pub no_permissions-can_manage_accounts :
    (p : AclPermissions) → no_permissions p ≡ true → can_manage_accounts p ≡ false
unfolding no_permissions can_manage_accounts
no_permissions-can_manage_accounts p h = ground arith

pub can_manage_accounts_iff :
    (p : AclPermissions) → can_manage_accounts p ≡ (is_owner p || is_admin p)
unfolding can_manage_accounts is_owner is_admin
can_manage_accounts_iff p = ground arith
