-- ===== src/Acl/Model.antt =====
-- The data of the access control list: the state (aclstate.go, models.go), a record (models.go)
-- and the contents that a record carries (aclrecordproto/protos/aclrecord.proto).
--
-- Record ids and public keys are only compared, so they are numbers: 0 is the empty id, and 0 is the
-- nil key. A public key is identified with its map key (`mapKeyFromPubKey`).
use any_sync.Common.{ℕ, Bool, Option, List}
use any_sync.Common.Assoc.{Assoc}
use any_sync.Acl.Permissions.{AclPermissions}

abbrev pub Bytes : Type 0
Bytes = List ℕ

-- A byte slice whose code tells nil from empty.
abbrev pub Payload : Type 0
Payload = Option Bytes

pub data Error : Type 0 where
  no_such_account pending_request unexpected_content_type incorrect_identity : Error
  failed_to_decrypt no_metadata_key no_such_record no_such_request no_such_invite : Error
  insufficient_permissions is_owner_err incorrect_number_of_accounts : Error
  duplicate_accounts no_read_key incorrect_read_key invalid_signature incorrect_root : Error
  incorrect_record_sequence metadata_too_large owner_not_found add_record_one_to_one : Error
  empty_acl_record_data no_acl_content empty_record_id record_already_exists : Error
  incorrect_invite_key read_key_change_not_alone : Error
  -- an error of the key storage, of the protobuf decoder, of the storage, and a Go panic
  bad_key bad_encoding storage_error panic : Error

abbrev pub empty_id : ℕ
empty_id = 0

abbrev pub max_metadata_len : ℕ
max_metadata_len = 1024

pub data AclStatus : Type 0 where
  status_none joining active removed declined removing canceled : AclStatus

pub data RequestType : Type 0 where
  request_remove request_join : RequestType

pub data AclInviteType : Type 0 where
  request_to_join anyone_can_join : AclInviteType
  unknown_type : ℕ → AclInviteType

pub record PermissionChange : Type 0 where
  pub record_id : ℕ
  pub permission : AclPermissions

pub record OptionChange : Type 0 where
  pub record_id : ℕ
  pub options : Payload

pub record RequestRecord : Type 0 where
  pub request_identity : ℕ
  pub request_metadata : Bytes
  pub key_record_id : ℕ
  pub record_id : ℕ
  pub type : RequestType

-- `permission_changes` stands newest first; Go appends at the end.
pub record AccountState : Type 0 where
  pub pub_key : ℕ
  pub permissions : AclPermissions
  pub status : AclStatus
  pub request_metadata : Bytes
  pub key_record_id : ℕ
  pub permission_changes : List PermissionChange

pub record AclKeys : Type 0 where
  pub read_key : Option ℕ
  pub metadata_priv_key : Option ℕ
  pub metadata_pub_key : ℕ
  pub encrypted_previous_read_key : Payload
  pub encrypted_metadata_key : Payload

pub record Invite : Type 0 where
  pub key : ℕ
  pub type : AclInviteType
  pub permissions : AclPermissions
  pub id : ℕ
  pub encrypted_read_key : Payload

-- What the content validator holds besides the state: `verifier.ShouldValidate()` and `admission`.
pub record ContentValidator : Type 0 where
  pub should_validate : Bool
  pub admission : Bool

-- `read_key_changes` and `option_changes` stand newest first. The pointer to the list is left out:
-- the queries that follow it take the list's indexes.
pub record AclState : Type 0 where
  pub id : ℕ
  pub keys : Assoc AclKeys
  pub account_states : Assoc AccountState
  pub invites : Assoc Invite
  pub request_records : Assoc RequestRecord
  pub pending_requests : Assoc ℕ
  pub read_key_changes : List ℕ
  pub key : ℕ
  pub pub_key : ℕ
  pub last_record_id : ℕ
  pub content_validator : ContentValidator
  pub option_changes : List OptionChange
  pub is_one_to_one : Bool

pub record AclAccountInvite : Type 0 where
  pub invite_key : Bytes
  pub invite_type : AclInviteType
  pub permissions : AclPermissions
  pub encrypted_read_key : Payload

pub record AclAccountInviteChange : Type 0 where
  pub invite_record_id : ℕ
  pub permissions : AclPermissions

pub record AclOwnershipChange : Type 0 where
  pub new_owner_identity : Bytes
  pub old_owner_permissions : AclPermissions

pub record AclAccountRequestJoin : Type 0 where
  pub invite_identity : Bytes
  pub invite_record_id : ℕ
  pub invite_identity_signature : Bytes
  pub metadata : Bytes

pub record AclAccountInviteJoin : Type 0 where
  pub identity : Bytes
  pub invite_record_id : ℕ
  pub invite_identity_signature : Bytes
  pub metadata : Bytes
  pub encrypted_read_key : Payload
  pub permissions : AclPermissions

pub record AclAccountRequestAccept : Type 0 where
  pub identity : Bytes
  pub request_record_id : ℕ
  pub encrypted_read_key : Payload
  pub permissions : AclPermissions

pub record AclEncryptedReadKey : Type 0 where
  pub identity : Bytes
  pub encrypted_read_key : Payload

pub record AclAccountAdd : Type 0 where
  pub identity : Bytes
  pub permissions : AclPermissions
  pub metadata : Bytes
  pub encrypted_read_key : Payload

pub record AclAccountPermissionChange : Type 0 where
  pub identity : Bytes
  pub permissions : AclPermissions

pub record AclReadKeyChange : Type 0 where
  pub account_keys : List AclEncryptedReadKey
  pub metadata_pub_key : Bytes
  pub encrypted_metadata_priv_key : Payload
  pub encrypted_old_read_key : Payload
  pub invite_keys : List AclEncryptedReadKey

-- A message field that is not set is nil.
pub record AclAccountRemove : Type 0 where
  pub identities : List Bytes
  pub read_key_change : Option AclReadKeyChange

-- The oneof of `AclContentValue`; `unset` is no value, or one of a type that this build does not know.
pub data AclContentValue : Type 0 where
  invite : AclAccountInvite → AclContentValue
  invite_revoke : ℕ → AclContentValue
  request_join : AclAccountRequestJoin → AclContentValue
  request_accept : AclAccountRequestAccept → AclContentValue
  permission_change : AclAccountPermissionChange → AclContentValue
  account_remove : AclAccountRemove → AclContentValue
  read_key_change : AclReadKeyChange → AclContentValue
  request_decline : ℕ → AclContentValue
  account_request_remove : AclContentValue
  permission_changes : List AclAccountPermissionChange → AclContentValue
  accounts_add : List AclAccountAdd → AclContentValue
  request_cancel : ℕ → AclContentValue
  invite_join : AclAccountInviteJoin → AclContentValue
  invite_change : AclAccountInviteChange → AclContentValue
  ownership_change : AclOwnershipChange → AclContentValue
  space_options_change : Payload → AclContentValue
  unset : AclContentValue

pub record AclOneToOneInfo : Type 0 where
  pub owner : Payload
  pub writers : List Bytes

pub record AclRoot : Type 0 where
  pub encrypted_read_key : Payload
  pub metadata_pub_key : Bytes
  pub encrypted_metadata_priv_key : Payload
  pub encrypted_owner_metadata : Bytes
  pub one_to_one_info : Option AclOneToOneInfo
  pub options : Option Payload

-- `Model interface{}` of a record: nil, `*AclData` or `*AclRoot`.
pub data Model : Type 0 where
  no_model : Model
  acl_data : List AclContentValue → Model
  acl_root : AclRoot → Model

pub record AclRecord : Type 0 where
  pub id : ℕ
  pub prev_id : ℕ
  pub raw_data : Bytes
  pub identity : ℕ
  pub model : Model

-- The derivation paths that a key is derived under (util/crypto).
pub data KeyPath : Type 0 where
  space_path one_to_one_space_path read_one_to_one_space_path metadata_one_to_one_path : KeyPath

-- What the list calls of util/crypto, through its interfaces: `KeyStorage.PubKeyFromProto`,
-- `PubKey.Raw`, `PubKey.Verify` and `PubKey.Marshall`, the keys' `Decrypt` and `Encrypt`, the decoders
-- and derivations of keys; and the protobuf decoder of `AclData`. `none` is an error.
pub record KeyEnv : Type 0 where
  pub pub_key_from_proto : Bytes → Option ℕ
  pub raw : ℕ → Option Bytes
  pub verify : ℕ → Bytes → Bytes → Option Bool
  pub marshall : ℕ → Option Bytes
  pub priv_raw : ℕ → Option Bytes
  pub get_public : ℕ → ℕ
  pub priv_decrypt : ℕ → Payload → Option Bytes
  pub sym_decrypt : ℕ → Payload → Option Bytes
  pub sym_encrypt : ℕ → Bytes → Option Bytes
  pub unmarshall_aes_key : Bytes → Option ℕ
  pub unmarshal_private_key : Bytes → Option ℕ
  pub unmarshal_public_key : Bytes → Option ℕ
  pub generate_shared_key : ℕ → ℕ → KeyPath → Option ℕ
  pub derive_symmetric_key : Bytes → KeyPath → Option ℕ
  pub unmarshal_acl_data : Bytes → Option (List AclContentValue)
