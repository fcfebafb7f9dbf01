-- ===== src/KeyValue/Writes.antt =====
-- The values of other members (`SetRaw` of storage.go): decoded, admitted by the ACL and set. The
-- index of the values and their broadcast get what is applied, which is the result.
pub mod Applied
pub mod Admitted
use any_sync.Common.{
  ℕ, ◌≡◌, refl, sym, ap, subst, Bool, true, false, ◌||◌, ◌&&◌, not, List, [], ◌∷◌, ◌++◌, Option,
  none, some, arith, Bool-cases, Option-cases, Result-cases, inl, inr, ◌∙◌, ok, err, Result, leb,
  if◌then◌else◌, All, ◌⊎◌,
}
use any_sync.Common.Assoc.{Assoc}
use any_sync.Common.Bytes.{has_prefix, has_prefix-++}
use any_sync.Acl.Model.{AclState}
use any_sync.Acl.State.{permissions, read_key_for_acl_id}
use any_sync.Acl.Permissions.{is_owner}
use any_sync.KeyValue.{KeyValue, Decoder, StoreKeyValue, key_value_from_proto, is_empty_text, dash}
use any_sync.KeyValue.Decode.{IsChecked, IsSigned, key_value_from_proto-IsSigned}
use any_sync.KeyValue.Update.{
  Container, Collection, no_result, Outcome, updated, failed, update_values, UpdateResult,
}
use any_sync.KeyValue.Store.{
  Storage, SetResult, Calls, set_values, apply_set, finish_set, is_unrecorded,
}
use any_sync.KeyValue.Rows.{Documents}
use any_sync.KeyValue.Guarded.{IsGuarded, set_values-IsGuarded}
use any_sync.KeyValue.Batch.{update_values_rule, same_but_pre_state, record_drops_lists}

-- A value that does not decode or verify is passed over.
unfoldable pub decode_all : Decoder → List StoreKeyValue → List KeyValue
unfolding key_value_from_proto
decode_all d [] = []
decode_all d (proto ∷ protos) = elim (key_value_from_proto d proto true) [
  | err e ↦ decode_all d protos
  | ok kv ↦ kv ∷ decode_all d protos
]

-- One round of the loop over the decoded values: none is the emptied id of a value to discard.
unfoldable pub admit : Assoc ℕ → AclState → Container → KeyValue → Option KeyValue
unfolding is_owner permissions read_key_for_acl_id
admit indexes st diff kv =
    if not (is_empty_text kv.delete_prefix) && not (is_owner (permissions st kv.identity_pub_key))
    then none
    else if (elim (diff kv.key_peer_id) [ none ↦ false | some head ↦ leb kv.timestamp_micro head ])
    then none
    else elim (read_key_for_acl_id indexes st kv.acl_id) [
      | err e ↦ none
      | ok read_key_id ↦ some (record kv { read_key_id = read_key_id })
    ]

unfoldable pub admit_all : Assoc ℕ → AclState → Container → List KeyValue → List KeyValue
unfolding admit
admit_all indexes st diff [] = []
admit_all indexes st diff (kv ∷ kvs) = elim (admit indexes st diff kv) [
  | none ↦ admit_all indexes st diff kvs
  | some kv' ↦ kv' ∷ admit_all indexes st diff kvs
]

abbrev pub nothing_set : SetResult
nothing_set = record { applied = []; dropped_ids = [] }

module _ {C : Type 0} (db : Collection C) where
  -- No value to set is no call of `Set`.
  unfoldable pub set_some : Calls → List KeyValue → Storage C → Storage C × Result ℕ SetResult
  unfolding set_values
  set_some f [] s = (s, ok nothing_set)
  set_some f (kv ∷ kvs) s = set_values db f (kv ∷ kvs) s

  -- `read_keys` is the error of `readKeysFromAclState`.
  unfoldable pub set_raw :
      Decoder
      → Assoc ℕ
      → AclState
      → Option ℕ
      → Calls
      → List StoreKeyValue
      → Storage C
      → Storage C × Result ℕ SetResult
  unfolding decode_all admit_all set_some
  set_raw d indexes st read_keys f [] s = (s, ok nothing_set)
  set_raw d indexes st (some e) f (proto ∷ protos) s = (s, err e)
  set_raw d indexes st none f (proto ∷ protos) s =
      set_some f (admit_all indexes st s.diff (decode_all d (proto ∷ protos))) s
