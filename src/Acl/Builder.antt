-- ===== src/Acl/Builder.antt =====
-- The builder of records (aclrecordbuilder.go): what every built record goes through, and the change of
-- the read key. The content of records is built in Builder/Contents and Builder/Joins.
pub mod Contents
pub mod Joins
pub mod Covers
pub mod Batch
pub mod Rotation
pub mod Reading
use any_sync.Common.{
  ℕ, Bool, true, false, not, ◌&&◌, ◌||◌, List, [], ◌∷◌, Option, none, some, ◌==◌, if◌then◌else◌,
  contains, head_or, Result, ok, err, ◌>>=◌, ◌>>◌, guard, refuse, or_err,
}
use any_sync.Common.Assoc.{Assoc, get}
use any_sync.Acl.Permissions.{no_permissions}
use any_sync.Acl.Model.{
  Bytes, Payload, Error, no_read_key, no_metadata_key, invalid_signature, bad_key, bad_encoding,
  panic, AclState, AccountState, Invite, anyone_can_join, AclEncryptedReadKey, AclReadKeyChange,
  AclContentValue, AclRecord, acl_data, KeyEnv,
}
use any_sync.Acl.State.{current_read_key_id, same_type}
use any_sync.Acl.Apply.{apply_record}

-- What `Record` of the consensus protocol holds.
pub record Record : Type 0 where
  pub prev_id : ℕ
  pub identity : Bytes
  pub raw_data : Bytes
  pub timestamp : ℕ

pub record RawRecord : Type 0 where
  pub payload : Bytes
  pub signature : Bytes

-- What the builder calls besides `KeyEnv`: `PubKey.Encrypt`, `PrivKey.Sign`, `Marshall` of the other keys, the
-- protobuf encoders and decoders, the content id, the time; and the keys of new invites, in
-- the order they are asked for.
pub record SignEnv : Type 0 where
  pub pub_encrypt : ℕ → Bytes → Option Bytes
  pub sign : ℕ → Bytes → Option Bytes
  pub sym_marshall : ℕ → Option Bytes
  pub priv_marshall : ℕ → Option Bytes
  pub marshal_acl_data : List AclContentValue → Option Bytes
  pub marshal_record : Record → Option Bytes
  pub unmarshal_record : Bytes → Option Record
  pub new_cid : Bytes → Option ℕ
  pub now : ℕ
  pub generate_key_pair : ℕ → Option (ℕ × ℕ)

pub record AclRecordBuilder : Type 0 where
  pub sign_key : ℕ
  pub state : AclState

pub record ReadKeyChangePayload : Type 0 where
  pub metadata_key : ℕ
  pub read_key : ℕ

-- `CurrentReadKey` and `CurrentMetadataKey`; a read key that the account cannot decrypt is nil.
unfoldable pub current_read_key : AclState → Result Error (Option ℕ)
unfolding current_read_key_id
current_read_key st = do
  ks ← or_err (get (current_read_key_id st) st.keys) no_read_key
  ok ks.read_key

unfoldable pub current_metadata_key : AclState → Result Error ℕ
unfolding current_read_key_id
current_metadata_key st = do
  ks ← or_err (get (current_read_key_id st) st.keys) no_metadata_key
  ok ks.metadata_pub_key

module _ (env : KeyEnv) (signs : SignEnv) where
  -- A key encrypted for one receiver.
  unfoldable pub key_for : Bytes → ℕ → Result Error AclEncryptedReadKey
  key_for proto_key receiver = do
    identity ← or_err (env.marshall receiver) bad_key
    enc ← or_err (signs.pub_encrypt receiver proto_key) bad_key
    ok (record { identity = identity; encrypted_read_key = some enc })

  -- The loops of `buildReadKeyChange`: over the accounts, and over the invites.
  unfoldable pub keys_for_accounts :
      List ℕ → Bytes → Assoc AccountState → Result Error (List AclEncryptedReadKey)
  unfolding key_for
  keys_for_accounts removed proto_key [] = ok []
  keys_for_accounts removed proto_key ((identity, st) ∷ rest) =
      let others = keys_for_accounts removed proto_key rest in
      if contains identity removed || no_permissions st.permissions
      then others
      else key_for proto_key st.pub_key >>= λ k. others >>= λ ks. ok (k ∷ ks)

  unfoldable pub keys_for_invites :
      List ℕ → Bytes → Assoc Invite → Result Error (List AclEncryptedReadKey)
  unfolding key_for
  keys_for_invites revoked proto_key [] = ok []
  keys_for_invites revoked proto_key ((invite_record_id, invite) ∷ rest) =
      let others = keys_for_invites revoked proto_key rest in
      if not (same_type invite.type anyone_can_join) || contains invite_record_id revoked
      then others
      else key_for proto_key invite.key >>= λ k. others >>= λ ks. ok (k ∷ ks)

  unfoldable pub build_read_key_change :
      AclState → ReadKeyChangePayload → List ℕ → List ℕ → Result Error AclReadKeyChange
  unfolding keys_for_accounts keys_for_invites current_read_key
  build_read_key_change st payload removed revoked = do
    proto_key ← or_err (signs.sym_marshall payload.read_key) bad_key
    acl_read_keys ← keys_for_accounts removed proto_key st.account_states
    invites ← keys_for_invites revoked proto_key st.invites
    mk_pub_key ← or_err (env.marshall (env.get_public payload.metadata_key)) bad_key
    mk_priv_key ← or_err (signs.priv_marshall payload.metadata_key) bad_key
    enc_priv_key ← or_err (env.sym_encrypt payload.read_key mk_priv_key) bad_key
    current ← current_read_key st
    cur_key ← or_err current panic
    cur_key_proto ← or_err (signs.sym_marshall cur_key) bad_key
    enc_old_key ← or_err (env.sym_encrypt payload.read_key cur_key_proto) bad_key
    ok (record {
      account_keys = acl_read_keys;
      metadata_pub_key = mk_pub_key;
      encrypted_metadata_priv_key = some enc_priv_key;
      encrypted_old_read_key = some enc_old_key;
      invite_keys = invites;
    })

  -- `Unmarshall`
  unfoldable pub unmarshall : RawRecord → Result Error AclRecord
  unmarshall raw = do
    rec ← or_err (signs.unmarshal_record raw.payload) bad_encoding
    pub_key ← or_err (env.pub_key_from_proto rec.identity) bad_key
    contents ← or_err (env.unmarshal_acl_data rec.raw_data) bad_encoding
    valid ← or_err (env.verify pub_key raw.payload raw.signature) bad_key
    guard valid invalid_signature
    id ← or_err (signs.new_cid raw.payload) bad_encoding
    ok (record {
      id = id;
      prev_id = rec.prev_id;
      raw_data = rec.raw_data;
      identity = pub_key;
      model = acl_data contents;
    })

  -- The copy of the state that `preflightCheck` applies the record to.
  abbrev pub admission_copy : AclState → AclState
  admission_copy st = record st {
    pub_key = env.get_public st.key;
    content_validator = record { should_validate = true; admission = true };
  }

  unfoldable pub preflight_check : AclState → RawRecord → Result Error (Unit {0})
  unfolding unmarshall
  preflight_check st raw = do
    rec ← unmarshall raw
    _ ← apply_record env (admission_copy st) rec
    ok tt

  unfoldable pub build_records : AclRecordBuilder → List AclContentValue → Result Error RawRecord
  unfolding preflight_check
  build_records b contents = do
    marshalled ← or_err (signs.marshal_acl_data contents) bad_encoding
    proto_key ← or_err (env.marshall (env.get_public b.sign_key)) bad_key
    payload ←
        or_err
          (signs.marshal_record (record {
            prev_id = b.state.last_record_id;
            identity = proto_key;
            raw_data = marshalled;
            timestamp = signs.now;
          }))
          bad_encoding
    signature ← or_err (signs.sign b.sign_key payload) bad_key
    let raw : RawRecord = record { payload = payload; signature = signature }
    preflight_check b.state raw
    ok raw

  unfoldable pub build_record : AclRecordBuilder → AclContentValue → Result Error RawRecord
  unfolding build_records
  build_record b content = build_records b (content ∷ [])
