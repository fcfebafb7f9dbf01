-- ===== src/Acl/History.antt =====
-- The history of an account's roles (`PermissionChanges`, aclstate.go) and its current role.
pub mod Handlers
pub mod Batches
pub mod Log
use any_sync.Common.{
  ℕ, ◌≡◌, refl, sym, ap, ◌∙◌, Bool, true, false, List, [], ◌∷◌, Option, none, some, arith, ◌==◌,
  if◌then◌else◌, Bool-cases, Option-cases, inl, inr, Result, ok, err, ◌>>=◌, >>=-eq-ok,
  ok-injective, or_err, guard,
}
use any_sync.Common.Assoc.{get, put, get-put}
use any_sync.Acl.Permissions.{AclPermissions, permissions_none, no_permissions-eq_none}
use any_sync.Acl.Model.{
  Bytes, AclState, AclRecord, AccountState, PermissionChange, AclContentValue, AclReadKeyChange,
  AclAccountAdd, AclAccountPermissionChange, KeyEnv, bad_key, no_such_account,
  insufficient_permissions, panic,
}
use any_sync.Acl.Model
use any_sync.Acl.State.{
  permissions, permissions_of, account, set_account, update_permissions, account_or_zero,
}
use any_sync.Acl.Apply.Updates.{history}
use any_sync.Acl.Policy.Access.{SameAccess}

abbrev pub newest : List PermissionChange → AclPermissions
newest [] = permissions_none
newest (c ∷ cs) = c.permission

abbrev pub IsRecordedAccount : Option AccountState → Type 0
IsRecordedAccount o = permissions_of o ≡ newest (history o)

-- The newest entry of every account's history is its current role; without an entry it has none.
abbrev pub IsRecorded : AclState → Type 0
IsRecorded st = (k : ℕ) → IsRecordedAccount (account st k)

pub SameAccess-IsRecorded : {st st' : AclState} → SameAccess st st' → IsRecorded st → IsRecorded st'
SameAccess-IsRecorded s r k = rw s.accounts (r k)

pub set_account-IsRecorded :
    (st : AclState) (k : ℕ) (a : AccountState) (st' : AclState)
    → SameAccess (set_account st k a) st'
    → IsRecordedAccount (some a)
    → IsRecorded st
    → IsRecorded st'
unfolding set_account
set_account-IsRecorded st k a st' s now r j =
    let e : account st' j ≡ (if k == j then some a else account st j) =
      ap (get j) s.accounts ∙ get-put k j a st.account_states in
    elim (Bool-cases (k == j)) [ inl hit ↦ rw (e, hit) now | inr miss ↦ rw (e, miss) (r j) ]

pub update_permissions-IsRecorded :
    (st : AclState) (k : ℕ) (p : AclPermissions) (id : ℕ)
    → IsRecorded st
    → IsRecorded (update_permissions st k p id)
unfolding update_permissions set_account
update_permissions-IsRecorded st k p id r j = elim (Bool-cases (k == j)) [
  | inl hit ↦ rw (get-put k j _ st.account_states, hit) refl
  | inr miss ↦ rw (get-put k j _ st.account_states, miss) (r j)
]
