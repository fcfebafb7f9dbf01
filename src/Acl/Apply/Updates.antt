-- ===== src/Acl/Apply/Updates.antt =====
-- Updates of the state that several handlers of aclstate.go share.
use any_sync.Common.{ℕ, List, [], ◌∷◌, Option, none, some, ◌==◌, if◌then◌else◌, Result, ok, or_err}
use any_sync.Common.Assoc.{Assoc, put, delete}
use any_sync.Acl.Permissions.{AclPermissions}
use any_sync.Acl.Model.{
  Bytes, Payload, Error, bad_key, AclState, AccountState, PermissionChange, RequestRecord, KeyEnv,
}
use any_sync.Acl.Apply.Keys.{unpack_all_keys}

-- `append(state.PermissionChanges, change)` of an account that may be missing.
abbrev pub history : Option AccountState → List PermissionChange
history none = []
history (some a) = a.permission_changes

abbrev pub changed_to : ℕ → AclPermissions → PermissionChange
changed_to record_id p = record { record_id = record_id; permission = p }

-- `delete(st.pendingRequests, k)` and `delete(st.requestRecords, id)`
unfoldable pub drop_request : AclState → ℕ → ℕ → AclState
drop_request st k id = record st {
  pending_requests = delete k st.pending_requests;
  request_records = delete id st.request_records;
}

unfoldable pub add_request : AclState → ℕ → RequestRecord → AclState
add_request st k r = record st {
  pending_requests = put k r.record_id st.pending_requests;
  request_records = put r.record_id r st.request_records;
}

-- The first request record of an identity (a range loop that breaks at its first hit).
unfoldable pub request_of : ℕ → Assoc RequestRecord → Option RequestRecord
request_of k [] = none
request_of k ((id, r) ∷ rest) = if r.request_identity == k then some r else request_of k rest

-- The request that the join makes pointless is dropped.
unfoldable pub drop_own_request : AclState → ℕ → AclState
unfolding drop_request
drop_own_request st k = elim (request_of k st.request_records) [
  | none ↦ st
  | some r ↦ drop_request st r.request_identity r.record_id
]

module _ (env : KeyEnv) where
  abbrev pub pub_key : Bytes → Result Error ℕ
  pub_key b = or_err (env.pub_key_from_proto b) bad_key

  -- The keys are unpacked if the account that was let in is this one.
  unfoldable pub unpack_own : AclState → ℕ → Payload → Result Error AclState
  unpack_own st identity encrypted =
      if st.pub_key == identity then unpack_all_keys env st encrypted else ok st
