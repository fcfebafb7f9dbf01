-- ===== src/Acl/List/Heads.antt =====
-- The role of an account at the head of the list (list.go and `PermissionsAtRecord`, aclstate.go).
use any_sync.Common.{ℕ, ◌≡◌, true, some, arith, ok, inl, inr, Option-cases}
use any_sync.Common.Assoc.{get}
use any_sync.Acl.Model.{AccountState}
use any_sync.Acl.State.{permissions, account, permissions_at_record, is_after_no_check}
use any_sync.Acl.History.{IsRecorded}
use any_sync.Acl.History.Log.{permissions_at_head}
use any_sync.Acl.List.{AclList}
use any_sync.Acl.List.Chain.{IsChained}

head_is_last :
    (l : AclList)
    → IsChained l
    → (id : ℕ) → is_after_no_check l.indexes l.state.last_record_id id ≡ true
unfolding is_after_no_check
head_is_last l c id = elim (Option-cases (get id l.indexes)) [
  | inl missing ↦ rw (missing, c.head_index.1) (ground arith)
  | inr (j, found) ↦
      rw (found, c.head_index.1) (ground (arith, c.in_range id j found, c.head_index.2))
]

-- In a chained list whose histories are in step with the roles, the role of a known account at the
-- head of the list is its current role.
pub permissions_at_record-head :
    (l : AclList) (k : ℕ) (a : AccountState)
    → IsChained l
    → IsRecorded l.state
    → account l.state k ≡ some a
    → permissions_at_record l.indexes l.state l.state.last_record_id k ≡ ok (permissions l.state k)
permissions_at_record-head l k a c r found =
    permissions_at_head l.indexes l.state l.state.last_record_id c.head_index.0 k a r c.head_index.1
      (head_is_last l c) found
