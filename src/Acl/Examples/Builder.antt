-- ===== src/Acl/Examples/Builder.antt =====
-- The instances of the theorems about the builder, at a space of an owner, a writer and an open invite.
use any_sync.Common.{
  ℕ, ◌≡◌, refl, sym, ap, true, false, List, [], ◌∷◌, ◌++◌, map, Option, none, some, contains, ok,
}
use any_sync.Common.Assoc.{get, put}
use any_sync.Acl.Model
use any_sync.Acl.Model.{
  Bytes, KeyEnv, AclState, AccountState, AclContentValue, AclRecord, AclReadKeyChange,
  anyone_can_join, active, account_request_remove,
}
use any_sync.Acl.Permissions.{
  AclPermissions, owner, writer, can_manage_accounts, can_request_remove, no_permissions, is_owner,
}
use any_sync.Acl.State.{permissions, same_type, current_read_key_id}
use any_sync.Acl.Validator.KeyChange.{check_read_key_change}
use any_sync.Acl.Builder.{
  SignEnv, Record, RawRecord, AclRecordBuilder, ReadKeyChangePayload, build_records, unmarshall,
  build_read_key_change,
}
use any_sync.Acl.Builder.Contents.{invite_revoke_content}
use any_sync.Acl.Builder.Batch.{BatchRequestPayload, batch_contents}
use any_sync.Acl.Builder.Covers.{Decodes, without, check-build_read_key_change}
use any_sync.Acl.Builder.Rotation.{batch_contents-rotates}
use any_sync.Acl.Builder.Reading.{Codecs, IsOurs, unmarshall-build_records}
use any_sync.Acl.Apply.{apply_record, apply_change_content, apply_contents}
use any_sync.Acl.Apply.Requests
use any_sync.Acl.Validator
use any_sync.Acl.Examples
use any_sync.Acl.Examples.{toy_env}

-- One content and records of it are what these encoders know.
abbrev encoded_contents : List AclContentValue → Option Bytes
encoded_contents (account_request_remove ∷ []) = some (1 ∷ [])
encoded_contents _ = none

abbrev env : KeyEnv
env = record toy_env { unmarshal_acl_data = λ b. some (account_request_remove ∷ []) }

abbrev encoded_record : Record → Option Bytes
encoded_record r = both r.identity r.raw_data
  where
    both : Bytes → Bytes → Option Bytes
    both (k ∷ []) (d ∷ []) = some (r.prev_id ∷ k ∷ d ∷ r.timestamp ∷ [])
    both _ _ = none

abbrev decoded_record : Bytes → Option Record
decoded_record (p ∷ k ∷ d ∷ t ∷ []) =
    some (record { prev_id = p; identity = k ∷ []; raw_data = d ∷ []; timestamp = t })
decoded_record _ = none

abbrev signs : SignEnv
signs = record {
  pub_encrypt = λ k b. some b;
  sign = λ k b. some b;
  sym_marshall = λ k. some (k ∷ []);
  priv_marshall = λ k. some (k ∷ []);
  marshal_acl_data = encoded_contents;
  marshal_record = encoded_record;
  unmarshal_record = decoded_record;
  new_cid = λ b. some 7;
  now = 100;
  generate_key_pair = λ i. some (200, 200);
}

toy_Decodes : Decodes env
toy_Decodes k b h = let e : k ∷ [] ≡ b = cc in ap Examples.first_byte (sym e)

abbrev member : ℕ → AclPermissions → AccountState
member k p = record {
  pub_key = k;
  permissions = p;
  status = active;
  request_metadata = [];
  key_record_id = 1;
  permission_changes = [];
}

abbrev space_of : ℕ → AclState
space_of us = record {
  id = 1;
  keys =
      (
        1,
        record {
          read_key = some 70;
          metadata_priv_key = some 71;
          metadata_pub_key = 71;
          encrypted_previous_read_key = none;
          encrypted_metadata_key = none;
        },
      )
      ∷ [];
  account_states = (1, member 1 owner) ∷ (2, member 2 writer) ∷ [];
  invites =
      (
        5,
        record {
          key = 9;
          type = anyone_can_join;
          permissions = writer;
          id = 5;
          encrypted_read_key = some (70 ∷ []);
        },
      )
      ∷ [];
  request_records = [];
  pending_requests = [];
  read_key_changes = 1 ∷ [];
  key = us;
  pub_key = us;
  last_record_id = 6;
  content_validator = record { should_validate = true; admission = false };
  option_changes = [];
  is_one_to_one = false;
}

abbrev rotation : ReadKeyChangePayload
rotation = record { metadata_key = 81; read_key = 80 }

abbrev retire : BatchRequestPayload
retire = record {
  additions = [];
  changes = [];
  removals = record { identities = []; change = record { metadata_key = 0; read_key = 0 } };
  approvals = [];
  declines = [];
  invite_revokes = 5 ∷ [];
  invite_changes = [];
  new_invites = [];
  read_key_change = some rotation;
}

abbrev new_key : AclReadKeyChange
new_key = record {
  account_keys =
      (record { identity = 1 ∷ []; encrypted_read_key = some (80 ∷ []) })
      ∷ (record { identity = 2 ∷ []; encrypted_read_key = some (80 ∷ []) })
      ∷ [];
  metadata_pub_key = 81 ∷ [];
  encrypted_metadata_priv_key = some (81 ∷ []);
  encrypted_old_read_key = some (70 ∷ []);
  invite_keys = [];
}

retired :
    batch_contents env signs (space_of 1) retire
    ≡ ok (Model.invite_revoke 5 ∷ Model.read_key_change new_key ∷ [], [])
unfolding batch_contents get permissions can_manage_accounts contains no_permissions same_type
    current_read_key_id invite_revoke_content
retired = refl

batch_contents-rotates_example :
    (ch : AclReadKeyChange) × (Model.invite_revoke 5 ∷ Model.read_key_change new_key ∷ []
      ≡ map Model.request_decline []
        ++ map Model.invite_revoke (5 ∷ [])
        ++ Model.read_key_change ch ∷ [])
    × (check_read_key_change env
          (record (space_of 1) { invites = without (5 ∷ []) (space_of 1).invites })
          ch
          []
        ≡ ok tt)
batch_contents-rotates_example =
    batch_contents-rotates env signs toy_Decodes (space_of 1) retire rotation
      (Model.invite_revoke 5 ∷ Model.read_key_change new_key ∷ []) [] (refl, (refl, tt)) refl
      retired

-- With the invite still open, the new key reaches it too.
abbrev for_all : AclReadKeyChange
for_all = record new_key {
  invite_keys = (record { identity = 9 ∷ []; encrypted_read_key = some (80 ∷ []) }) ∷ [];
}

made_for_all : build_read_key_change env signs (space_of 1) rotation [] [] ≡ ok for_all
unfolding build_read_key_change get contains no_permissions same_type current_read_key_id
made_for_all = refl

check-build_read_key_change_example :
    check_read_key_change env
      (record (space_of 1) { invites = without [] (space_of 1).invites })
      for_all
      []
    ≡ ok tt
check-build_read_key_change_example =
    check-build_read_key_change env signs toy_Decodes (space_of 1) rotation [] [] for_all
      (refl, (refl, tt)) made_for_all

encoded_contents_back :
    (cs : List AclContentValue) (b : Bytes)
    → encoded_contents cs ≡ some b
    → env.unmarshal_acl_data b ≡ some cs
encoded_contents_back [] b h = cc
encoded_contents_back (account_request_remove ∷ []) b h = refl
encoded_contents_back (_ ∷ []) b h = cc
encoded_contents_back (account_request_remove ∷ d ∷ cs) b h = cc
encoded_contents_back (_ ∷ d ∷ cs) b h = cc

encoded_record_back :
    (prev_id : ℕ) (identity raw_data : Bytes) (timestamp : ℕ) (b : Bytes)
    → encoded_record (record {
      prev_id = prev_id;
      identity = identity;
      raw_data = raw_data;
      timestamp = timestamp;
    })
      ≡ some b
    → decoded_record b
      ≡ some (record {
        prev_id = prev_id;
        identity = identity;
        raw_data = raw_data;
        timestamp = timestamp;
      })
encoded_record_back p (k ∷ []) (d ∷ []) t b h =
    let e : p ∷ k ∷ d ∷ t ∷ [] ≡ b = cc in ap decoded_record (sym e)
encoded_record_back p [] ds t b h = cc
encoded_record_back p (k ∷ l ∷ ks) ds t b h = cc
encoded_record_back p (k ∷ []) [] t b h = cc
encoded_record_back p (k ∷ []) (d ∷ e ∷ ds) t b h = cc

toy_Codecs : Codecs env signs
toy_Codecs = record {
  keys = toy_Decodes;
  records = λ r b. encoded_record_back r.prev_id r.identity r.raw_data r.timestamp b;
}

-- The writer asks to be removed.
abbrev leaving : AclRecordBuilder
leaving = record { sign_key = 2; state = space_of 2 }

abbrev leave : RawRecord
leave = record { payload = 6 ∷ 2 ∷ 1 ∷ 100 ∷ []; signature = 6 ∷ 2 ∷ 1 ∷ 100 ∷ [] }

leave_built : build_records env signs leaving (account_request_remove ∷ []) ≡ ok leave
unfolding build_records apply_record apply_change_content apply_contents
    Requests.apply_request_remove Validator.validate_acl_data Validator.validate_request_remove
    permissions get put no_permissions is_owner can_request_remove
leave_built = refl

unmarshall-build_records_example :
    (rec : AclRecord) × (unmarshall env signs leave ≡ ok rec)
    × IsOurs env signs leaving (account_request_remove ∷ []) leave rec
unmarshall-build_records_example =
    unmarshall-build_records env signs toy_Codecs leaving (account_request_remove ∷ []) leave
      (encoded_contents_back (account_request_remove ∷ [])) leave_built
