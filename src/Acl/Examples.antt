-- ===== src/Acl/Examples.antt =====
-- A space in which an admin takes the ownership from everybody, record by record; and the instances
-- of the theorems about the access control list at it.
mod Lists
mod Builder
use any_sync.Common.{
  ℕ, ◌≡◌, refl, Bool, true, false, List, [], ◌∷◌, Option, none, some, arith, Result, ok, err, ◌==◌,
  if◌then◌else◌, ◌-◌,
}
use any_sync.Acl.Model
use any_sync.Acl.Model.{
  Bytes, Payload, KeyEnv, AclState, AclRecord, AclRoot, AclContentValue, ContentValidator, acl_root,
  acl_data, AclAccountRequestAccept,
}
use any_sync.Acl.Apply.Requests
use any_sync.Acl.Apply.Accounts
use any_sync.Acl.Apply.Roles
use any_sync.Acl.Apply.Keys
use any_sync.Acl.Validator
use any_sync.Acl.State
use any_sync.Common.Assoc.{get, put, delete}
use any_sync.Acl.Apply.Requests.{apply_request_accept}
use any_sync.Acl.Policy.{view, offer}
use any_sync.Acl.Policy.Safety.{IsSafe}
use any_sync.Acl.Policy.Root.{build_state-IsSafe}
use any_sync.Acl.Policy.Refinement.{Permitted, apply_record-PolicySteps}
use any_sync.Acl.Policy.Authority.{apply_record-admin_needs_owner, apply_record_by_bystander}
use any_sync.Acl.Policy.Orphan.{request_accept_orphans}
use any_sync.Acl.Permissions.{
  no_permissions, can_manage_accounts, can_request_remove, is_admin, is_guest, AclPermissions,
  owner, admin, writer, reader, permissions_none, is_owner,
}
use any_sync.Acl.State.{permissions}
use any_sync.Acl.Apply
use any_sync.Acl.Apply.{
  build_state, apply_record, apply_records, apply_change_content, apply_contents, contents_of,
}

-- Keys are bytes of length one, every signature holds, and nothing is encrypted.
abbrev first_byte : Bytes → Option ℕ
first_byte [] = none
first_byte (b ∷ bs) = some b

abbrev toy_env : KeyEnv
toy_env = record {
  pub_key_from_proto = first_byte;
  raw = λ k. some (k ∷ []);
  verify = λ k b s. some true;
  marshall = λ k. some (k ∷ []);
  priv_raw = λ k. some (k ∷ []);
  get_public = λ k. k;
  priv_decrypt = λ k p. p;
  sym_decrypt = λ k p. p;
  sym_encrypt = λ k b. some b;
  unmarshall_aes_key = first_byte;
  unmarshal_private_key = first_byte;
  unmarshal_public_key = first_byte;
  generate_shared_key = λ a b p. some 50;
  derive_symmetric_key = λ b p. some 60;
  unmarshal_acl_data = λ b. none;
}

abbrev root_record : AclRecord
root_record = record {
  id = 1;
  prev_id = 0;
  raw_data = [];
  identity = 1;
  model = acl_root (record {
    encrypted_read_key = none;
    metadata_pub_key = [];
    encrypted_metadata_priv_key = none;
    encrypted_owner_metadata = [];
    one_to_one_info = none;
    options = none;
  });
}

abbrev by : ℕ → ℕ → List AclContentValue → AclRecord
by author id contents = record {
  id = id;
  prev_id = id - 1;
  raw_data = [];
  identity = author;
  model = acl_data contents;
}

abbrev add : ℕ → AclPermissions → AclContentValue
add k p =
    Model.accounts_add (
      (record { identity = k ∷ []; permissions = p; metadata = []; encrypted_read_key = none })
      ∷ [])

-- The owner 1 adds the admin 2 and opens an invite; 3 asks to join; the admin adds 3 nonetheless, and
-- the owner hands the space over to 3.
abbrev history : List AclRecord
history =
    by 1 2 (
      add 2 admin
      ∷ Model.invite (record {
        invite_key = 70 ∷ [];
        invite_type = Model.request_to_join;
        permissions = permissions_none;
        encrypted_read_key = none;
      })
      ∷ [])
    ∷ by 3 3 (
        Model.request_join (record {
          invite_identity = 3 ∷ [];
          invite_record_id = 2;
          invite_identity_signature = [];
          metadata = [];
        })
        ∷ [])
    ∷ by 2 4 (add 3 writer ∷ [])
    ∷ by 1 5 (
        Model.ownership_change
          (record { new_owner_identity = 3 ∷ []; old_owner_permissions = writer })
        ∷ [])
    ∷ []

abbrev acceptance : AclAccountRequestAccept
acceptance = record {
  identity = 3 ∷ [];
  request_record_id = 3;
  encrypted_read_key = none;
  permissions = reader;
}

abbrev full : ContentValidator
full = record { should_validate = true; admission = true }

abbrev state_of : Result Model.Error AclState → AclState
state_of (ok st) = st
state_of (err e) = Apply.blank_state toy_env 0 0 full

-- The state after the whole history; its line opens what the run goes through.
final : AclState
unfolding build_state apply_record apply_change_content apply_contents Requests.apply_request_join
    Requests.apply_request_accept Accounts.apply_accounts_add Roles.apply_ownership_change
    Roles.apply_invite Validator.validate_acl_data Validator.validate_request_join
    Validator.validate_accounts_add Validator.validate_ownership_change Validator.validate_invite
    Validator.validate_request_accept State.set_account State.update_permissions State.permissions
    State.current_read_key_id State.same_type get put delete can_manage_accounts no_permissions
    is_owner is_admin is_guest Keys.save_keys_from_root
final = state_of (build_state toy_env (root_record ∷ history) 99 full)

built : build_state toy_env (root_record ∷ history) 99 full ≡ ok final
unfolding final
built = refl

final-IsSafe : IsSafe (view final)
final-IsSafe = build_state-IsSafe toy_env (root_record ∷ history) 99 full final refl built

-- The owner 3 adds an admin, and the writer 1 asks to be removed.
abbrev appointment : AclRecord
appointment = by 3 6 (add 4 admin ∷ [])

appointed : AclState
unfolding final
appointed = state_of (apply_record toy_env final appointment)

abbrev farewell : AclRecord
farewell = by 1 6 (Model.account_request_remove ∷ [])

left : AclState
unfolding final Requests.apply_request_remove Validator.validate_request_remove can_request_remove
left = state_of (apply_record toy_env final farewell)

build_state-IsSafe_example : IsSafe (view final)
build_state-IsSafe_example =
    build_state-IsSafe toy_env (root_record ∷ history) 99 full final refl built

apply_record-PolicySteps_example :
    (contents : List AclContentValue) × (mid : AclState) × (contents_of toy_env appointment
      ≡ ok contents)
    × Permitted toy_env appointment final contents mid
    × (record mid { last_record_id = appointment.id } ≡ appointed)
unfolding final appointed
apply_record-PolicySteps_example =
    apply_record-PolicySteps toy_env final appointment appointed refl refl

apply_record-admin_needs_owner_example : is_owner (permissions final 3) ≡ true
unfolding final appointed
apply_record-admin_needs_owner_example =
    apply_record-admin_needs_owner toy_env final appointment appointed 4 refl final-IsSafe refl
      (omega arith) refl refl

apply_record_by_bystander_example :
    ((k : ℕ) → permissions left k ≡ permissions final k) × ((i : ℕ) → offer left i ≡ offer final i)
unfolding final left
apply_record_by_bystander_example =
    apply_record_by_bystander toy_env final farewell left refl refl refl refl

orphaned : AclState
unfolding final
orphaned = state_of (apply_request_accept toy_env final acceptance (by 2 6 []))

request_accept_orphans_example : is_owner (permissions orphaned 3) ≡ false
unfolding final orphaned
request_accept_orphans_example =
    request_accept_orphans toy_env final acceptance (by 2 6 []) 3
      (record {
        request_identity = 3;
        request_metadata = [];
        key_record_id = 1;
        record_id = 3;
        type = Model.RequestType.request_join;
      })
      orphaned refl final-IsSafe refl refl refl refl 3
