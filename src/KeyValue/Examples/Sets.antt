-- ===== src/KeyValue/Examples/Sets.antt =====
-- Values of other members.
mod Stores
use any_sync.Common.{
  ℕ, ◌≡◌, refl, true, false, List, [], ◌∷◌, Option, none, some, arith, ok, err, ◌↔◌, ◌≤◌, ◌<◌, All,
  if◌then◌else◌, inl, inr, Bool-cases, ap, sym, ◌∙◌, subst,
}
use any_sync.Common.Bytes.{Bytes, same, has_prefix, up_to}
use any_sync.Common.Assoc.{Assoc, get}
use any_sync.Acl.Permissions.{owner, is_owner}
use any_sync.Acl.Model.{AclState, active}
use any_sync.Acl.State.{permissions}
use any_sync.KeyValue.{
  KeyValue, Value, Doc, any_enc, Decoder, StoreKeyValue, key_value_from_proto, key_peer_id_of,
  no_id, float_limit, StoreKeyInner,
}
use any_sync.KeyValue.Decode.{IsChecked, IsSigned, key_value_from_proto-IsSigned}
use any_sync.KeyValue.Update.{walk, watermark_ts}
use any_sync.KeyValue.Store.{Storage, SetResult, Calls, set_values, new_storage}
use any_sync.KeyValue.Runs.{walk-with_prefix, with_prefix}
use any_sync.KeyValue.Rows.{Ascending}
use any_sync.KeyValue.Batch.{in_list}
use any_sync.KeyValue.Advertised.{InStep, set_values_err, set_values-InStep}
use any_sync.KeyValue.Guarded.{IsGuarded}
use any_sync.KeyValue.Writes.{set_raw}
use any_sync.KeyValue.Writes.Admitted.{
  IsAdmitted, SentInTime, set_raw-IsGuarded, set_raw-IsAdmitted,
}
use any_sync.KeyValue.Examples.Memory.Rows.{memory, find}
use any_sync.KeyValue.Examples.Memory.{memory_documents, rows-memory_documents}
use any_sync.KeyValue.Examples.Sets.Stores.{
  first, no_value, write, mark, stored_docs, opened, calls, opened-InStep, batch, after, readded,
  kept, ids,
}

-- Keys are their numbers, and a signature is the number of its key.
abbrev keys : Decoder
keys = record {
  unmarshal_inner = λ b. some record {
    peer = 99 ∷ [];
    identity = 3 ∷ [];
    timestamp_micro = 10;
    acl_head_id = 1;
    key = 97 ∷ [];
    delete_prefix = 97 ∷ [];
  };
  unmarshal_key = first;
  account = λ k. k ∷ [];
  peer_id_of = λ k. k ∷ [];
  verify = λ k b sig. same sig (k ∷ []);
}

abbrev proto : StoreKeyValue
proto = record {
  key_peer_id = 97 ∷ 45 ∷ 99 ∷ [];
  value = 1 ∷ [];
  peer_signature = 99 ∷ [];
  identity_signature = 3 ∷ [];
}

abbrev received : KeyValue
received = record {
  key_peer_id = 97 ∷ 45 ∷ 99 ∷ [];
  read_key_id = no_id;
  key = 97 ∷ [];
  value = record { value = 1 ∷ []; peer_signature = 99 ∷ []; identity_signature = 3 ∷ [] };
  timestamp_micro = 10;
  identity = 3 ∷ [];
  peer_id = 99 ∷ [];
  acl_id = 1;
  delete_prefix = 97 ∷ [];
  identity_pub_key = 3;
}

proto_decodes : key_value_from_proto keys proto true ≡ ok received
unfolding key_value_from_proto same key_peer_id_of
proto_decodes = refl

key_value_from_proto-IsSigned_example : IsChecked keys received × IsSigned keys proto received
key_value_from_proto-IsSigned_example =
    key_value_from_proto-IsSigned keys proto received proto_decodes

-- A space of the owner 3.
abbrev space : AclState
space = record {
  id = 1;
  keys = [];
  account_states =
      (
        3,
        record {
          pub_key = 3;
          permissions = owner;
          status = active;
          request_metadata = [];
          key_record_id = 1;
          permission_changes = [];
        },
      )
      ∷ [];
  invites = [];
  request_records = [];
  pending_requests = [];
  read_key_changes = 1 ∷ [];
  key = 0;
  pub_key = 3;
  last_record_id = 1;
  content_validator = record { should_validate = true; admission = false };
  option_changes = [];
  is_one_to_one = false;
}

abbrev indexes : Assoc ℕ
indexes = (1, 0) ∷ []

abbrev swept : Storage (List Doc)
swept = (set_raw memory keys indexes space none calls (proto ∷ []) opened).0

abbrev sweep : SetResult
sweep = record {
  applied = record received { read_key_id = 1 } ∷ [];
  dropped_ids = (97 ∷ 45 ∷ 98 ∷ []) ∷ [];
}

set_raw_sweeps :
    set_raw memory keys indexes space none calls (proto ∷ []) opened ≡ (swept, ok sweep)
unfolding set_raw memory same up_to has_prefix key_value_from_proto permissions is_owner get
set_raw_sweeps = refl

set_raw-IsAdmitted_example : All (IsAdmitted keys indexes space) sweep.applied
set_raw-IsAdmitted_example =
    set_raw-IsAdmitted keys indexes space memory memory_documents none calls (proto ∷ []) opened
      swept sweep set_raw_sweeps

-- The only row of a list of one document.
only : (d e : Doc) (id : Bytes) → find (d ∷ []) id ≡ some e → d ≡ e
unfolding find
only d e id h = elim (Bool-cases (same d.id id)) [ inl s ↦ ground arith | inr s ↦ ground arith ]

only_row :
    (id : Bytes) (e : Doc)
    → memory_documents.rows opened.collection id ≡ some e
    → any_enc (write 5 []) ≡ e
only_row id e h = only _ e id (ap (λ r. r id) (sym (rows-memory_documents opened.collection)) ∙ h)

opened-IsGuarded : IsGuarded memory memory_documents opened
unfolding has_prefix watermark_ts
opened-IsGuarded = record {
  keyed = λ id d h. subst (λ (e : Doc). has_prefix e.id e.k ≡ true) (only_row id d h) refl;
  timed = λ id d h. subst (λ (e : Doc). e.t < float_limit) (only_row id d h) (omega arith);
  not_older = λ id d h.
      subst (λ (e : Doc). watermark_ts opened.watermarks e.k ≤ e.t) (only_row id d h) (omega arith);
}

abbrev timestamp_of : Option StoreKeyInner → ℕ
timestamp_of none = 0
timestamp_of (some inner) = inner.timestamp_micro

-- What any bytes decode to is of the time 10.
proto_in_time : SentInTime keys indexes space proto
proto_in_time inner h = let e : 10 ≡ inner.timestamp_micro = ap timestamp_of h in omega arith

set_raw-IsGuarded_example : IsGuarded memory memory_documents swept
set_raw-IsGuarded_example =
    set_raw-IsGuarded keys indexes space memory memory_documents none calls (proto ∷ []) opened
      opened-IsGuarded (proto_in_time, tt)
