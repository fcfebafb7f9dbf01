-- ===== src/Acl/Validator/KeyChange.antt =====
-- `validateReadKeyChange` (validator.go): a new read key must reach every active account and every
-- open invite, and nobody else.
use any_sync.Common.{
  ℕ, Bool, true, false, ◌&&◌, ◌||◌, List, [], ◌∷◌, none, some, ◌==◌, if◌then◌else◌, length,
  contains, Result, ok, ◌>>=◌, ◌>>◌, guard, refuse, or_err,
}
use any_sync.Common.Assoc.{values}
use any_sync.Common.Sort.{sort}
use any_sync.Acl.Permissions.{no_permissions}
use any_sync.Acl.Model.{
  Payload, Error, no_metadata_key, incorrect_read_key, incorrect_number_of_accounts, bad_key,
  AclState, AccountState, Invite, anyone_can_join, AclEncryptedReadKey, AclReadKeyChange, KeyEnv,
}
use any_sync.Acl.State.{same_type}

abbrev pub is_nil : Payload → Bool
is_nil none = true
is_nil (some b) = false

-- `slices.Equal`
unfoldable pub equal : List ℕ → List ℕ → Bool
equal [] [] = true
equal (x ∷ xs) (y ∷ ys) = x == y && equal xs ys
equal _ _ = false

-- The map keys of the accounts that have permissions and are not being removed.
unfoldable pub active_users : List ℕ → List AccountState → List ℕ
active_users removed [] = []
active_users removed (a ∷ rest) =
    let others = active_users removed rest in
    if no_permissions a.permissions || contains a.pub_key removed
    then others
    else a.pub_key ∷ others

unfoldable pub active_invites : List Invite → List ℕ
active_invites [] = []
active_invites (i ∷ rest) =
    let others = active_invites rest in
    if same_type i.type anyone_can_join then i.key ∷ others else others

module _ (env : KeyEnv) where
  unfoldable pub identities : List AclEncryptedReadKey → Result Error (List ℕ)
  identities [] = ok []
  identities (k ∷ ks) = do
    identity ← or_err (env.pub_key_from_proto k.identity) bad_key
    rest ← identities ks
    ok (identity ∷ rest)

-- The lengths and the sorted lists must agree.
unfoldable pub same_keys : List ℕ → List ℕ → List ℕ → List ℕ → Result Error (Unit {0})
unfolding sort equal
same_keys active_u updated_u active_i updated_i = do
  guard (length active_u == length updated_u) incorrect_number_of_accounts
  guard (length active_i == length updated_i) incorrect_number_of_accounts
  guard (equal (sort active_u) (sort updated_u) && equal (sort active_i) (sort updated_i))
      incorrect_number_of_accounts

module _ (env : KeyEnv) where
  unfoldable pub check_read_key_change :
      AclState → AclReadKeyChange → List ℕ → Result Error (Unit {0})
  unfolding identities same_keys active_users active_invites
  check_read_key_change st ch removed = do
    _ ← or_err (env.pub_key_from_proto ch.metadata_pub_key) no_metadata_key
    refuse (is_nil ch.encrypted_metadata_priv_key || is_nil ch.encrypted_old_read_key)
        incorrect_read_key
    updated_users ← identities env ch.account_keys
    updated_invites ← identities env ch.invite_keys
    same_keys (active_users removed (values st.account_states)) updated_users
        (active_invites (values st.invites)) updated_invites
