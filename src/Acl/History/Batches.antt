-- ===== src/Acl/History/Batches.antt =====
-- The batches keep the histories in step with the roles.
use any_sync.Common.{◌≡◌, refl, false, List, [], ◌∷◌, ok, >>=-eq-ok, ok-injective, or_err}
use any_sync.Acl.Model.{
  Bytes, AclState, AclRecord, AclAccountAdd, AclAccountRemove, AclAccountPermissionChange, KeyEnv,
  bad_key, no_such_account, panic,
}
use any_sync.Acl.State.{account, set_account}
use any_sync.Acl.Validator.{validate_accounts_add, validate_account_remove}
use any_sync.Acl.Apply.Updates.{unpack_own}
use any_sync.Acl.Apply.Roles.{apply_permission_change, apply_permission_changes}
use any_sync.Acl.Apply.Accounts.{
  apply_accounts_add, add_accounts, apply_account_remove, remove_accounts, drop_pending,
  removed_account,
}
use any_sync.Acl.Policy.Access.{unpack_own-SameAccess, drop_pending-SameAccess}
use any_sync.Acl.History.{IsRecorded, set_account-IsRecorded}
use any_sync.Acl.History.Handlers.{
  IsRecorded-eq, permission_change-IsRecorded, read_key_change-IsRecorded,
}

module _ (env : KeyEnv) where
  pub permission_changes-IsRecorded :
      (st : AclState) (chs : List AclAccountPermissionChange) (rec : AclRecord) (st' : AclState)
      → IsRecorded st
      → apply_permission_changes env st chs rec ≡ ok st'
      → IsRecorded st'
  unfolding apply_permission_changes
  permission_changes-IsRecorded st [] rec st' r h = IsRecorded-eq (ok-injective h) r
  permission_changes-IsRecorded st (ch ∷ chs) rec st'' r h =
      let (st', first, rest) = >>=-eq-ok (apply_permission_change env st ch rec) _ h in
      permission_changes-IsRecorded st' chs rec st''
        (permission_change-IsRecorded env st r ch rec st' first) rest

  add_accounts-IsRecorded :
      (st : AclState) (additions : List AclAccountAdd) (rec : AclRecord) (st' : AclState)
      → IsRecorded st
      → add_accounts env st additions rec ≡ ok st'
      → IsRecorded st'
  unfolding add_accounts
  add_accounts-IsRecorded st [] rec st' r h = IsRecorded-eq (ok-injective h) r
  add_accounts-IsRecorded st (a ∷ rest) rec st'' r h =
      let (k, _, h1) = >>=-eq-ok (or_err (env.pub_key_from_proto a.identity) bad_key) _ h in
      let (st', unpacked, h2) =
        >>=-eq-ok (unpack_own env (set_account st k _) k a.encrypted_read_key) _ h1 in
      add_accounts-IsRecorded st' rest rec st''
        (set_account-IsRecorded st k _ st'
          (unpack_own-SameAccess env _ k a.encrypted_read_key st' unpacked) refl r)
        h2

  pub accounts_add-IsRecorded :
      (st : AclState) (additions : List AclAccountAdd) (rec : AclRecord) (st' : AclState)
      → IsRecorded st
      → apply_accounts_add env st additions rec ≡ ok st'
      → IsRecorded st'
  unfolding apply_accounts_add
  accounts_add-IsRecorded st additions rec st' r h =
      let (_, _, h1) = >>=-eq-ok (validate_accounts_add env st additions rec.identity) _ h in
      add_accounts-IsRecorded st additions rec st' r h1

  remove_accounts-IsRecorded :
      (st : AclState) (bs : List Bytes) (rec : AclRecord) (st' : AclState)
      → IsRecorded st
      → remove_accounts env st bs rec ≡ ok st'
      → IsRecorded st'
  unfolding remove_accounts
  remove_accounts-IsRecorded st [] rec st' r h = IsRecorded-eq (ok-injective h) r
  remove_accounts-IsRecorded st (b ∷ rest) rec st' r h =
      let (k, _, h1) = >>=-eq-ok (or_err (env.pub_key_from_proto b) bad_key) _ h in
      let (a, _, h2) = >>=-eq-ok (or_err (account st k) no_such_account) _ h1 in
      let gone = removed_account a rec.id in
      let after = drop_pending (set_account st k gone) k in
      remove_accounts-IsRecorded after rest rec st'
        (set_account-IsRecorded st k gone after (drop_pending-SameAccess (set_account st k gone) k)
          refl r)
        h2

  pub account_remove-IsRecorded :
      (st : AclState) (ch : AclAccountRemove) (rec : AclRecord) (st' : AclState)
      → IsRecorded st
      → apply_account_remove env st ch rec ≡ ok st'
      → IsRecorded st'
  unfolding apply_account_remove
  account_remove-IsRecorded st ch rec st'' r h =
      let (_, _, h1) = >>=-eq-ok (validate_account_remove env st ch rec.identity) _ h in
      let (st', removed, h2) = >>=-eq-ok (remove_accounts env st ch.identities rec) _ h1 in
      let (change, _, h3) = >>=-eq-ok (or_err ch.read_key_change panic) _ h2 in
      read_key_change-IsRecorded env st'
        (remove_accounts-IsRecorded st ch.identities rec st' r removed) change rec false st'' h3
