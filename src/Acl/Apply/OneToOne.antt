-- ===== src/Acl/Apply/OneToOne.antt =====
-- The root of a one-to-one space (onetoone.go): two writers and an owner key that both derive.
use any_sync.Common.{
  ℕ, Bool, true, false, ◌&&◌, ◌||◌, List, [], ◌∷◌, none, some, ◌==◌, if◌then◌else◌, Result, ok,
  ◌>>=◌, ◌>>◌, guard, or_err, length,
}
use any_sync.Common.Assoc.{put}
use any_sync.Acl.Permissions.{AclPermissions, owner, writer}
use any_sync.Acl.Model.{
  Bytes, Payload, Error, bad_key, incorrect_root, AclState, AclKeys, AccountState, AclOneToOneInfo,
  KeyEnv, active, one_to_one_space_path, read_one_to_one_space_path, metadata_one_to_one_path,
}
use any_sync.Acl.State.{set_account}

-- `bytes.Equal`
unfoldable pub bytes_equal : Bytes → Bytes → Bool
bytes_equal [] [] = true
bytes_equal (x ∷ xs) (y ∷ ys) = x == y && bytes_equal xs ys
bytes_equal _ _ = false

abbrev pub bytes_of : Payload → Bytes
bytes_of none = []
bytes_of (some b) = b

unfoldable pub is_writer : Bytes → List Bytes → Bool
unfolding bytes_equal
is_writer me [] = false
is_writer me (w ∷ ws) = bytes_equal me w || is_writer me ws

-- The other writer: the first one, unless that is this account.
unfoldable pub other_writer : Bytes → List Bytes → Bytes
unfolding bytes_equal
other_writer me (w ∷ w' ∷ ws) = if bytes_equal me w then w' else w
other_writer me _ = []

abbrev pub founder : ℕ → ℕ → AclPermissions → AccountState
founder k root_id p = record {
  pub_key = k;
  permissions = p;
  status = active;
  request_metadata = [];
  key_record_id = root_id;
  permission_changes = (record { record_id = root_id; permission = p }) ∷ [];
}

module _ (env : KeyEnv) where
  -- Whether this account is a writer, once there are two writers and an owner.
  unfoldable pub find_me_and_validate_one_to_one : AclState → AclOneToOneInfo → Result Error Bool
  unfolding is_writer
  find_me_and_validate_one_to_one st info = do
    guard (length info.writers == 2) incorrect_root
    _ ← or_err info.owner incorrect_root
    me ← or_err (env.marshall (env.get_public st.key)) bad_key
    ok (is_writer me info.writers)

  unfoldable pub derive_one_to_one_keys : AclState → ℕ → AclOneToOneInfo → Result Error AclState
  unfolding other_writer bytes_equal
  derive_one_to_one_keys st root_id info = do
    me ← or_err (env.marshall (env.get_public st.key)) bad_key
    bob ← or_err (env.unmarshal_public_key (other_writer me info.writers)) bad_key
    shared ← or_err (env.generate_shared_key st.key bob one_to_one_space_path) bad_key
    shared_pk ← or_err (env.marshall (env.get_public shared)) bad_key
    guard (bytes_equal (bytes_of info.owner) shared_pk) incorrect_root
    shared_raw ← or_err (env.priv_raw shared) bad_key
    read_key ← or_err (env.derive_symmetric_key shared_raw read_one_to_one_space_path) bad_key
    metadata_key ← or_err (env.generate_shared_key st.key bob metadata_one_to_one_path) bad_key
    metadata_raw ← or_err (env.priv_raw metadata_key) bad_key
    encrypted ← or_err (env.sym_encrypt read_key metadata_raw) bad_key
    let derived : AclKeys = record {
      read_key = some read_key;
      metadata_priv_key = some metadata_key;
      metadata_pub_key = env.get_public metadata_key;
      encrypted_previous_read_key = none;
      encrypted_metadata_key = some encrypted;
    }
    ok (record st { keys = put root_id derived st.keys })

  unfoldable pub add_writers : AclState → ℕ → List Bytes → Result Error AclState
  add_writers st root_id [] = ok st
  add_writers st root_id (w ∷ ws) = do
    k ← or_err (env.unmarshal_public_key w) bad_key
    add_writers (set_account st k (founder k root_id writer)) root_id ws

  unfoldable pub set_one_to_one_acl : AclState → ℕ → AclOneToOneInfo → Result Error AclState
  unfolding find_me_and_validate_one_to_one derive_one_to_one_keys add_writers
  set_one_to_one_acl st root_id info = do
    found_me ← find_me_and_validate_one_to_one st info
    st' ← if found_me then derive_one_to_one_keys st root_id info else ok st
    shared_pk ← or_err (env.unmarshal_public_key (bytes_of info.owner)) bad_key
    st'' ←
        add_writers (set_account st' shared_pk (founder shared_pk root_id owner)) root_id
          info.writers
    ok (record st'' {
      read_key_changes = root_id ∷ [];
      last_record_id = root_id;
      is_one_to_one = true;
    })
