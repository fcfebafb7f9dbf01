-- ===== src/Acl/Apply/Keys.antt =====
-- The read and metadata keys of the state (aclstate.go): unpacking the chain of read keys, and a
-- change of the read key.
use any_sync.Common.{
  ℕ, List, [], ◌∷◌, Option, none, some, ◌==◌, if◌then◌else◌, Result, ok, ◌>>=◌, or_err,
}
use any_sync.Common.Assoc.{Assoc, get, put}
use any_sync.Acl.Model.{
  Bytes, Payload, Error, failed_to_decrypt, incorrect_read_key, bad_key, panic, AclState, AclKeys,
  Invite, AclEncryptedReadKey, AclReadKeyChange, AclRoot, KeyEnv, space_path,
}

abbrev pub zero_keys : AclKeys
zero_keys = record {
  read_key = none;
  metadata_priv_key = none;
  metadata_pub_key = 0;
  encrypted_previous_read_key = none;
  encrypted_metadata_key = none;
}

abbrev pub keys_or_zero : Option AclKeys → AclKeys
keys_or_zero none = zero_keys
keys_or_zero (some k) = k

module _ (env : KeyEnv) where
  -- `unmarshallDecryptReadKey` and `unmarshallDecryptPrivKey`, over what the decryptor returned.
  unfoldable pub unmarshall_read_key : Option Bytes → Result Error ℕ
  unmarshall_read_key decrypted = do
    bytes ← or_err decrypted failed_to_decrypt
    or_err (env.unmarshall_aes_key bytes) failed_to_decrypt

  unfoldable pub unmarshall_priv_key : Option Bytes → Result Error ℕ
  unmarshall_priv_key decrypted = do
    bytes ← or_err decrypted failed_to_decrypt
    or_err (env.unmarshal_private_key bytes) failed_to_decrypt

  -- The previous read key; the first record of the chain has none, and is not asked for one.
  unfoldable pub previous_read_key : List ℕ → AclKeys → ℕ → Result Error ℕ
  unfolding unmarshall_read_key
  previous_read_key [] ks iter = ok iter
  previous_read_key (older ∷ rest) ks iter = do
    _ ← or_err ks.encrypted_previous_read_key incorrect_read_key
    unmarshall_read_key (env.sym_decrypt iter ks.encrypted_previous_read_key)

  -- The loop of `unpackAllKeys`, from the newest read key change to the oldest.
  unfoldable pub unpack_from : List ℕ → ℕ → Assoc AclKeys → Result Error (Assoc AclKeys)
  unfolding unmarshall_priv_key previous_read_key
  unpack_from [] iter keys = ok keys
  unpack_from (rec_id ∷ rest) iter keys = do
    let ks = keys_or_zero (get rec_id keys)
    metadata_key ← unmarshall_priv_key (env.sym_decrypt iter ks.encrypted_metadata_key)
    let unpacked = record ks { read_key = some iter; metadata_priv_key = some metadata_key }
    older ← previous_read_key rest ks iter
    unpack_from rest older (put rec_id unpacked keys)

  unfoldable pub unpack_all_keys : AclState → Payload → Result Error AclState
  unfolding unpack_from
  unpack_all_keys st encrypted_read_key = do
    iter ← unmarshall_read_key (env.priv_decrypt st.key encrypted_read_key)
    keys ← unpack_from st.read_key_changes iter st.keys
    ok (record st { keys = keys })

  unfoldable pub decrypted_key : AclState → AclEncryptedReadKey → Result Error (Option ℕ)
  unfolding unmarshall_read_key
  decrypted_key st k = do
    read_key ← unmarshall_read_key (env.priv_decrypt st.key k.encrypted_read_key)
    ok (some read_key)

  -- The account keys of a read key change: the last one that is for this account. The code drops
  -- the error of an identity that does not decode, and `Equals` then dereferences a nil key.
  unfoldable pub own_read_key :
      AclState → List AclEncryptedReadKey → Option ℕ → Result Error (Option ℕ)
  own_read_key st [] found = ok found
  own_read_key st (k ∷ rest) found = do
    identity ← or_err (env.pub_key_from_proto k.identity) panic
    found' ← if st.pub_key == identity then decrypted_key st k else ok found
    own_read_key st rest found'

  -- The first invite with that key takes the new encrypted read key.
  unfoldable pub update_invite : ℕ → Payload → Assoc Invite → Assoc Invite
  update_invite inv_key encrypted [] = []
  update_invite inv_key encrypted ((id, i) ∷ rest) =
      if i.key == inv_key
      then (id, record i { encrypted_read_key = encrypted }) ∷ rest
      else (id, i) ∷ update_invite inv_key encrypted rest

  unfoldable pub update_invites :
      List AclEncryptedReadKey → Assoc Invite → Result Error (Assoc Invite)
  unfolding update_invite
  update_invites [] invites = ok invites
  update_invites (k ∷ rest) invites = do
    inv_key ← or_err (env.pub_key_from_proto k.identity) bad_key
    update_invites rest (update_invite inv_key k.encrypted_read_key invites)

  unfoldable pub metadata_key_of : Option ℕ → Payload → Result Error (Option ℕ)
  metadata_key_of none encrypted = ok none
  metadata_key_of (some read_key) encrypted = do
    k ← unmarshall_priv_key (env.sym_decrypt read_key encrypted)
    ok (some k)

  -- `applyReadKeyChange`, after the validation that its caller asks for.
  unfoldable pub change_read_key : AclState → AclReadKeyChange → ℕ → Result Error AclState
  unfolding own_read_key decrypted_key update_invites metadata_key_of
  change_read_key st ch record_id = do
    mk_pub_key ← or_err (env.pub_key_from_proto ch.metadata_pub_key) bad_key
    read_key ← own_read_key st ch.account_keys none
    invites ← update_invites ch.invite_keys st.invites
    metadata_key ← metadata_key_of read_key ch.encrypted_metadata_priv_key
    let new_keys : AclKeys = record {
      read_key = read_key;
      metadata_priv_key = metadata_key;
      metadata_pub_key = mk_pub_key;
      encrypted_previous_read_key = ch.encrypted_old_read_key;
      encrypted_metadata_key = ch.encrypted_metadata_priv_key;
    }
    ok (record st {
      read_key_changes = record_id ∷ st.read_key_changes;
      invites = invites;
      keys = put record_id new_keys st.keys;
    })

  -- The read key of the root: derived from the account's key, or decrypted with it.
  unfoldable pub save_keys_from_root : AclState → ℕ → AclRoot → Result Error AclState
  save_keys_from_root st id root = do
    let ks = keys_or_zero (get id st.keys)
    elim root.encrypted_read_key [
      | none ↦ do
        raw ← or_err (env.priv_raw st.key) bad_key
        read_key ← or_err (env.derive_symmetric_key raw space_path) bad_key
        ok (record st { keys = put id (record ks { read_key = some read_key }) st.keys })
      | some b ↦ do
        read_key ← unmarshall_read_key (env.priv_decrypt st.key root.encrypted_read_key)
        metadata_key ←
            unmarshall_priv_key (env.sym_decrypt read_key root.encrypted_metadata_priv_key)
        let full = record ks { read_key = some read_key; metadata_priv_key = some metadata_key }
        ok (record st { keys = put id full st.keys })
    ]
