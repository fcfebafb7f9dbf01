-- ===== src/Acl/Builder/Batch.antt =====
-- Batches of contents in one record (`BuildBatchRequest`, aclrecordbuilder.go).

use any_sync.Common.{
  ℕ, suc, Bool, true, false, not, ◌&&◌, ◌||◌, List, [], ◌∷◌, ◌++◌, Option, none, some, ◌==◌,
  if◌then◌else◌, Result, ok, ◌>>=◌, ◌>>◌, refuse, or_err,
}
use any_sync.Acl.Permissions.{AclPermissions, no_permissions}
use any_sync.Acl.Model.{
  Bytes, Payload, Error, panic, read_key_change_not_alone, insufficient_permissions,
  no_such_request, no_such_invite, AclState, AclReadKeyChange, AclContentValue, KeyEnv,
}
use any_sync.Acl.Model
use any_sync.Acl.Builder.{
  SignEnv, AclRecordBuilder, ReadKeyChangePayload, RawRecord, build_read_key_change, build_records,
}
use any_sync.Acl.Builder.Contents.{
  AccountAdd, PermissionChangePayload, InviteChangePayload, RequestAcceptPayload,
  AccountRemovePayload, permission_changes_content, accounts_add_content, invite_content,
  invite_anyone_content, invite_change_content, invite_revoke_content, request_accept_content,
  request_decline_content, account_remove_content,
}

-- The zero value of a read key change payload has nil keys, which are 0.
pub record BatchRequestPayload : Type 0 where
  pub additions : List AccountAdd
  pub changes : List PermissionChangePayload
  pub removals : AccountRemovePayload
  pub approvals : List RequestAcceptPayload
  pub declines : List ℕ
  pub invite_revokes : List ℕ
  pub invite_changes : List InviteChangePayload
  pub new_invites : List AclPermissions
  pub read_key_change : Option ReadKeyChangePayload

pub record BatchResult : Type 0 where
  pub rec : RawRecord
  pub invites : List ℕ

abbrev pub some_of {ℓ} : {A : Type ℓ} → List A → Bool
some_of [] = false
some_of (x ∷ xs) = true

abbrev pub some_payload : Option ReadKeyChangePayload → Bool
some_payload none = false
some_payload (some payload) = true

-- A rotation of the read key comes only with revokes and declines.
unfoldable pub alone : BatchRequestPayload → Bool
alone p = not (
    some_of p.additions
    || some_of p.removals.identities
    || some_of p.approvals
    || some_of p.changes
    || some_of p.invite_changes
    || some_of p.new_invites)

-- `key.GetPublic()` of a nil key panics.
abbrev pub given_key : ℕ → Option ℕ
given_key k = if k == 0 then none else some k

-- The contents, one for each of a list.
unfoldable pub contents_each {ℓ} :
    {A : Type ℓ} → (A → Result Error AclContentValue) → List A → Result Error (List AclContentValue)
contents_each f [] = ok []
contents_each f (x ∷ xs) = do c ← f x; cs ← contents_each f xs; ok (c ∷ cs)

-- One content, if there is anything to build it of.
abbrev pub content_if : Bool → Result Error AclContentValue → Result Error (List AclContentValue)
content_if false content = ok []
content_if true content = content >>= λ c. ok (c ∷ [])

module _ (env : KeyEnv) (signs : SignEnv) where
  -- The loop over new invites; the i-th takes the i-th key pair.
  unfoldable pub invites_of :
      AclState → ℕ → List AclPermissions → Result Error (List AclContentValue × List ℕ)
  invites_of st i [] = ok ([], [])
  invites_of st i (perms ∷ rest) = do
    (priv_key, content) ←
        if no_permissions perms
        then invite_content env signs st (signs.generate_key_pair i)
        else invite_anyone_content env signs st (signs.generate_key_pair i) perms
    (contents, keys) ← invites_of st (suc i) rest
    ok (content ∷ contents, priv_key ∷ keys)

  unfoldable pub batch_additions :
      AclState → BatchRequestPayload → Result Error (List AclContentValue)
  batch_additions st p = content_if (some_of p.additions) do
    mk_priv ← or_err (given_key p.removals.change.metadata_key) panic
    accounts_add_content env signs st (some (env.get_public mk_priv))
        (given_key p.removals.change.read_key) p.additions

  unfoldable pub batch_rotation :
      AclState → BatchRequestPayload → Result Error (List AclContentValue)
  unfolding build_read_key_change
  batch_rotation st p = elim p.read_key_change [
    | none ↦ ok []
    | some payload ↦ do
      rk_change ← build_read_key_change env signs st payload [] p.invite_revokes
      ok (Model.read_key_change rk_change ∷ [])
  ]

  -- The contents of the batch in their order, and the keys of its new invites.
  unfoldable pub batch_contents :
      AclState → BatchRequestPayload → Result Error (List AclContentValue × List ℕ)
  unfolding alone contents_each batch_additions batch_rotation invites_of
  batch_contents st p = do
    refuse (some_payload p.read_key_change && not (alone p)) read_key_change_not_alone
    removals ←
        content_if (some_of p.removals.identities) (account_remove_content env signs st p.removals)
    additions ← batch_additions st p
    changes ← content_if (some_of p.changes) (permission_changes_content env signs st p.changes)
    approvals ←
        contents_each
          (λ a. request_accept_content env signs st a (given_key p.removals.change.read_key))
          p.approvals
    declines ← contents_each (request_decline_content env signs st) p.declines
    revokes ← contents_each (invite_revoke_content env signs st) p.invite_revokes
    rotation ← batch_rotation st p
    invite_changes ← contents_each (invite_change_content env signs st) p.invite_changes
    (invites, keys) ← invites_of st 0 p.new_invites
    ok (
      removals ++ additions ++ changes ++ approvals ++ declines ++ revokes ++ rotation
          ++ invite_changes ++ invites,
      keys,
    )

  unfoldable pub build_batch_request :
      AclRecordBuilder → BatchRequestPayload → Result Error BatchResult
  unfolding batch_contents
  build_batch_request b p = do
    (contents, keys) ← batch_contents b.state p
    rec ← build_records env signs b contents
    ok (record { rec = rec; invites = keys })
