-- ===== src/KeyValue/Examples/Sets/Stores.antt =====
-- A watermark and a newer value in one batch, and a call that fails.
use any_sync.Common.{
  arith, false, ◌==◌, ◌∙◌, sym, ap, ℕ, ◌≡◌, refl, true, List, [], ◌∷◌, Option, none, some, ok, err,
  ◌↔◌, All, if◌then◌else◌, inl, inr, Bool-cases,
}
use any_sync.Common.Bytes.{same→≡, Bytes, same, has_prefix, up_to}
use any_sync.KeyValue.{dash, KeyValue, Value, Doc, any_enc}
use any_sync.KeyValue.Update.{walk}
use any_sync.KeyValue.Store.{Storage, SetResult, Calls, set_values, new_storage}
use any_sync.KeyValue.Runs.{walk-with_prefix, with_prefix}
use any_sync.KeyValue.Rows.{Ascending}
use any_sync.KeyValue.Batch.{in_list}
use any_sync.KeyValue.Newest.Steps.{KeyedBy}
use any_sync.KeyValue.Newest.{Lasts, set_values-Lasts}
use any_sync.KeyValue.Advertised.{InStep, set_values_err, set_values-InStep}
use any_sync.KeyValue.Examples.Memory.Rows.{memory, find}
use any_sync.KeyValue.Examples.Memory.{memory_documents, rows-memory_documents}

abbrev pub first : Bytes → Option ℕ
first [] = none
first (b ∷ bs) = some b

abbrev pub no_value : Value
no_value = record { value = 1 ∷ []; peer_signature = 2 ∷ []; identity_signature = 3 ∷ [] }

-- Key `a`, written by peer `b`.
abbrev pub write : ℕ → Bytes → KeyValue
write t dp = record {
  key_peer_id = 97 ∷ 45 ∷ 98 ∷ [];
  read_key_id = 0;
  key = 97 ∷ [];
  value = no_value;
  timestamp_micro = t;
  identity = 105 ∷ [];
  peer_id = 98 ∷ [];
  acl_id = 0;
  delete_prefix = dp;
  identity_pub_key = 3;
}

-- The watermark of `a`, written by peer `c`.
abbrev pub mark : ℕ → KeyValue
mark t = record (write t (97 ∷ [])) { key_peer_id = 97 ∷ 45 ∷ 99 ∷ []; peer_id = 99 ∷ [] }

abbrev pub stored_docs : List Doc
stored_docs = any_enc (write 5 []) ∷ []

abbrev pub opened : Storage (List Doc)
opened = record {
  diff = λ id. if same (97 ∷ 45 ∷ 98 ∷ []) id then some 5 else none;
  collection = stored_docs;
  watermarks = [];
  head = 7;
}

new_storage_test : new_storage stored_docs stored_docs 7 ≡ opened
unfolding new_storage
new_storage_test = refl

abbrev pub calls : Calls
calls = record { write_tx = none; hash = 8; update_entry = none; commit = none }

pub opened-InStep : InStep memory memory_documents opened
unfolding find
opened-InStep id =
    rw (rows-memory_documents opened.collection)
      (elim (Bool-cases (same (97 ∷ 45 ∷ 98 ∷ []) id)) [ inl s ↦ rw s refl | inr s ↦ rw s refl ])

abbrev pub batch : List KeyValue
batch = mark 10 ∷ write 12 [] ∷ []

abbrev pub after : Storage (List Doc)
after = (set_values memory calls batch opened).0

-- The row of `a-b`, dropped and written again by one batch.
abbrev pub readded : SetResult
readded = record { applied = batch; dropped_ids = (97 ∷ 45 ∷ 98 ∷ []) ∷ [] }

set_values_readds : set_values memory calls batch opened ≡ (after, ok readded)
unfolding set_values memory same up_to has_prefix
set_values_readds = refl

set_values-InStep_example :
    ((id : Bytes) → in_list id readded.dropped_ids ≡ true → after.diff id ≡ none)
    × (InStep memory memory_documents after ↔ (
        (id : Bytes)
        → in_list id readded.dropped_ids ≡ true
        → memory_documents.rows after.collection id ≡ none))
set_values-InStep_example =
    set_values-InStep memory memory_documents calls batch opened after readded opened-InStep
      set_values_readds

-- It is stored and not advertised.
stored_not_advertised :
    (after.diff (97 ∷ 45 ∷ 98 ∷ []) ≡ none)
    × (find after.collection (97 ∷ 45 ∷ 98 ∷ []) ≡ some (any_enc (write 12 [])))
unfolding set_values memory same up_to has_prefix find
stored_not_advertised = (refl, refl)

abbrev pub commit_fails : Calls
commit_fails = record calls { commit = some 4 }

abbrev pub kept : Storage (List Doc)
kept = (set_values memory commit_fails batch opened).0

set_values_fails : set_values memory commit_fails batch opened ≡ (kept, err 4)
unfolding set_values memory same up_to has_prefix
set_values_fails = refl

set_values_err_example :
    ((id : Bytes) → kept.diff id ≡ opened.diff id)
    × (kept.collection ≡ opened.collection)
    × (kept.watermarks ≡ opened.watermarks)
    × (kept.head ≡ opened.head)
set_values_err_example =
    set_values_err memory memory_documents commit_fails batch opened kept 4 opened-InStep
      set_values_fails

abbrev pub ids : List Doc
ids =
    any_enc (write 5 [])
    ∷ any_enc (mark 3)
    ∷ any_enc (record (write 1 []) { key_peer_id = 98 ∷ [] })
    ∷ []

ids_follow :
    All (λ d. up_to (97 ∷ []) d.id ≡ true) ids
    × Ascending ids
    × ((walk (97 ∷ []) ids (some 3)).1 ≡ true)
unfolding walk up_to has_prefix
ids_follow = ((refl, (refl, (refl, tt))), ((refl, (refl, tt)), ((refl, tt), (tt, tt))), refl)

walk-with_prefix_example : (walk (97 ∷ []) ids (some 3)).0 ≡ with_prefix (97 ∷ []) ids
walk-with_prefix_example =
    walk-with_prefix (97 ∷ []) ids (some 3) (ids_follow.0) (ids_follow.1) ids_follow.2

-- The text before the first dash.
abbrev key_part : Bytes → Bytes
key_part [] = []
key_part (b ∷ bs) = if b == dash then [] else b ∷ key_part bs

only_doc : (e d : Doc) (id : Bytes) → same e.id id ≡ true → find (e ∷ []) id ≡ some d → e ≡ d
unfolding find
only_doc e d id s h = ground arith

nothing_else : (e d : Doc) (id : Bytes) → same e.id id ≡ false → find (e ∷ []) id ≡ some d → ⊥
unfolding find
nothing_else e d id s h = ground arith

opened-KeyedBy : KeyedBy memory memory_documents key_part opened.collection
unfolding find
opened-KeyedBy id d h = elim (Bool-cases (same (97 ∷ 45 ∷ 98 ∷ []) id)) [
  | inl s ↦
      let i : 97 ∷ 45 ∷ 98 ∷ [] ≡ id = same→≡ _ _ s in
      let q : find opened.collection id ≡ some d =
        ap (λ r. r id) (sym (rows-memory_documents opened.collection)) ∙ h in
      let e : any_enc (write 5 []) ≡ d = only_doc (any_enc (write 5 [])) d id s q in
      ap (λ (x : Doc). x.k) (sym e) ∙ ap key_part i
  | inr s ↦ absurd (
      nothing_else (any_enc (write 5 [])) d id s
        (ap (λ r. r id) (sym (rows-memory_documents opened.collection)) ∙ h))
]

set_values-Lasts_example :
    All (λ kv. Lasts memory memory_documents key_part after kv.key_peer_id kv.timestamp_micro) batch
    × ((id : Bytes) (d : Doc)
        → memory_documents.rows opened.collection id ≡ some d
        → Lasts memory memory_documents key_part after id d.t)
set_values-Lasts_example =
    set_values-Lasts memory memory_documents key_part calls batch opened after readded
      opened-KeyedBy (refl, (refl, tt)) set_values_readds
