-- ===== src/KeyValue.antt =====
-- The values that the members of a space write under keys
-- (commonspace/object/keyvalue/keyvaluestorage/innerstorage). A row belongs to one key and one
-- peer, the newest write of a row wins, and a deletion watermark removes the older rows of a
-- prefix. Strings are lists of bytes; a timestamp counts microseconds from 1970, and the model stands for
-- timestamps from 0 to below 2^53, that a float64 keeps.
pub mod Update
pub mod Store
pub mod Rows
pub mod Runs
pub mod Decode
pub mod Batch
pub mod Advertised
pub mod Marks
pub mod Changes
pub mod Guarded
pub mod Newest
pub mod Writes
mod Examples
use any_sync.Common.{
  ℕ, Bool, true, false, not, ◌&&◌, ◌||◌, List, [], ◌∷◌, ◌++◌, Option, none, some, map, ltb, leb,
  if◌then◌else◌, ok, err, Result, ◌>>=◌, or_err,
}
use any_sync.Common.Bytes.{Bytes, same, has_prefix}

-- `Value`, of element.go.
pub record Value : Type 0 where
  pub value : Bytes
  pub peer_signature : Bytes
  pub identity_signature : Bytes

-- `IdentityPubKey` is the account as the ACL names it.
pub record KeyValue : Type 0 where
  pub key_peer_id : Bytes
  pub read_key_id : ℕ
  pub key : Bytes
  pub value : Value
  pub timestamp_micro : ℕ
  pub identity : Bytes
  pub peer_id : Bytes
  pub acl_id : ℕ
  pub delete_prefix : Bytes
  pub identity_pub_key : ℕ

-- A stored document, by the fields that `AnyEnc` sets: id, k, r, v, t, i, p and dp.
pub record Doc : Type 0 where
  pub id : Bytes
  pub k : Bytes
  pub r : ℕ
  pub v : Value
  pub t : ℕ
  pub i : Bytes
  pub p : Bytes
  pub dp : Bytes

-- An element of the container that peers compare.
pub record Element : Type 0 where
  pub id : Bytes
  pub head : ℕ

abbrev pub is_empty_text : Bytes → Bool
is_empty_text [] = true
is_empty_text (b ∷ bs) = false

-- The empty id of a record; other ids of the ACL are numbers as in its model.
abbrev pub no_id : ℕ
no_id = 0

-- `-`
abbrev pub dash : ℕ
dash = 45

unfoldable pub key_peer_id_of : Bytes → Bytes → Bytes
key_peer_id_of key peer_id = key ++ (dash ∷ peer_id)

-- 2^53. A float64 keeps the numbers from 0 to below it.
abbrev pub float_limit : ℕ
float_limit = 9007199254740992

-- `KeyValue.AnyEnc`. A timestamp becomes a float64 there, and is read back from it; this is the identity below
-- `float_limit`, and only for such timestamps does the model stand.
abbrev pub any_enc : KeyValue → Doc
any_enc kv = record {
  id = kv.key_peer_id;
  k = kv.key;
  r = kv.read_key_id;
  v = kv.value;
  t = kv.timestamp_micro;
  i = kv.identity;
  p = kv.peer_id;
  dp = kv.delete_prefix;
}

-- `anyEncToElement`: the eight bytes of the head as one number.
abbrev pub element : Doc → Element
element d = record { id = d.id; head = d.t }

-- `StoreKeyInner`, decoded: the fields that are read.
pub record StoreKeyInner : Type 0 where
  pub peer : Bytes
  pub identity : Bytes
  pub timestamp_micro : ℕ
  pub acl_head_id : ℕ
  pub key : Bytes
  pub delete_prefix : Bytes

pub record StoreKeyValue : Type 0 where
  pub key_peer_id : Bytes
  pub value : Bytes
  pub peer_signature : Bytes
  pub identity_signature : Bytes

pub data KeyValueError : Type 0 where
  invalid_encoding invalid_public_key invalid_signature : KeyValueError
  invalid_key_peer_id invalid_watermark : KeyValueError

-- What the code takes from the encodings and from the keys.
pub record Decoder : Type 0 where
  pub unmarshal_inner : Bytes → Option StoreKeyInner
  pub unmarshal_key : Bytes → Option ℕ
  pub account : ℕ → Bytes
  pub peer_id_of : ℕ → Bytes
  pub verify : ℕ → Bytes → Bytes → Bool

module _ (d : Decoder) where
  abbrev pub from_inner : StoreKeyValue → StoreKeyInner → ℕ → ℕ → KeyValue
  from_inner proto inner identity peer = record {
    key_peer_id = proto.key_peer_id;
    read_key_id = no_id;
    key = inner.key;
    value = record {
      value = proto.value;
      peer_signature = proto.peer_signature;
      identity_signature = proto.identity_signature;
    };
    timestamp_micro = inner.timestamp_micro;
    identity = d.account identity;
    peer_id = d.peer_id_of peer;
    acl_id = inner.acl_head_id;
    delete_prefix = inner.delete_prefix;
    identity_pub_key = identity;
  }

  -- The checks at the end of `KeyValueFromProto`.
  unfoldable pub check_key_value : Bool → ℕ → ℕ → KeyValue → Result KeyValueError KeyValue
  unfolding same key_peer_id_of
  check_key_value verify identity peer kv =
      if not (same kv.key_peer_id (key_peer_id_of kv.key kv.peer_id))
      then err invalid_key_peer_id
      else if not (is_empty_text kv.delete_prefix) && not (same kv.key kv.delete_prefix)
      then err invalid_watermark
      else if verify && not (d.verify identity kv.value.value kv.value.identity_signature)
      then err invalid_signature
      else if verify && not (d.verify peer kv.value.value kv.value.peer_signature)
      then err invalid_signature
      else ok kv

  unfoldable pub key_value_from_proto : StoreKeyValue → Bool → Result KeyValueError KeyValue
  unfolding check_key_value
  key_value_from_proto proto verify = do
    inner ← or_err (d.unmarshal_inner proto.value) invalid_encoding
    identity ← or_err (d.unmarshal_key inner.identity) invalid_public_key
    peer ← or_err (d.unmarshal_key inner.peer) invalid_public_key
    check_key_value verify identity peer (from_inner proto inner identity peer)
