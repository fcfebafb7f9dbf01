-- ===== src/KeyValue/Store.antt =====
-- `Set` with its transaction, and `New`, of keyvaluestorage.go.
use any_sync.Common.{
  ℕ, Bool, true, false, List, [], ◌∷◌, Option, none, some, map, if◌then◌else◌, ok, err, Result,
}
use any_sync.Common.Bytes.{Bytes}
use any_sync.KeyValue.{KeyValue, Doc, element, is_empty_text}
use any_sync.KeyValue.Update.{
  Collection, Container, set_elements, remove_elements, Watermarks, raise, raise_all, PreState,
  UpdateResult, undo, Outcome, no_result, update_values, updated, failed,
}

-- `storage`, with the head that it has entered in the store of heads.
pub record Storage (C : Type 0) : Type 0 where
  pub diff : Container
  pub collection : C
  pub watermarks : Watermarks
  pub head : ℕ

pub record SetResult : Type 0 where
  pub applied : List KeyValue
  pub dropped_ids : List Bytes

-- What the calls around the update return: their errors, and the hash of the container.
pub record Calls : Type 0 where
  pub write_tx : Option ℕ
  pub hash : ℕ
  pub update_entry : Option ℕ
  pub commit : Option ℕ

abbrev pub advertise : UpdateResult → Container → Container
advertise res d = remove_elements res.removed (set_elements res.elements d)

abbrev pub is_unrecorded : PreState → Bool
is_unrecorded [] = true
is_unrecorded (p ∷ ps) = false

module _ {C : Type 0} where
  -- The deferred half of `Set`, when the transaction was to be committed: `head` is the head as
  -- the transaction has it.
  unfoldable pub finish_set :
      Option ℕ
      → C
      → UpdateResult
      → Container
      → ℕ
      → SetResult
      → Storage C
      → Storage C × Result ℕ SetResult
  unfolding raise_all undo
  finish_set (some e) c res d head result s = (record s { diff = undo res.pre_state d }, err e)
  finish_set none c res d head result s = (
    record {
      diff = d;
      collection = c;
      watermarks = raise_all res.watermarks s.watermarks;
      head = head;
    },
    ok result,
  )

  -- `Set` from the end of the update on, given what `UpdateEntry`, `Commit` and `Hash` return.
  unfoldable pub apply_set :
      Option ℕ → Option ℕ → ℕ → Outcome C → Storage C → Storage C × Result ℕ SetResult
  unfolding finish_set undo set_elements remove_elements
  apply_set entry commit hash (failed e res) s =
      (record s { diff = undo res.pre_state s.diff }, err e)
  apply_set entry commit hash (updated c res) s =
      let d : Container = advertise res s.diff in
      let result : SetResult = record { applied = res.applied; dropped_ids = res.dropped_ids } in
      if is_unrecorded res.pre_state
      then finish_set commit c res d s.head (record { applied = []; dropped_ids = [] }) s
      else elim entry [
        | some e ↦ (record s { diff = undo res.pre_state d }, err e)
        | none ↦ finish_set commit c res d hash result s
      ]

module _ {C : Type 0} (db : Collection C) where
  -- `Set`; a transaction that is rolled back leaves the documents and the entered head.
  unfoldable pub set_values : Calls → List KeyValue → Storage C → Storage C × Result ℕ SetResult
  unfolding update_values apply_set
  set_values f kvs s = elim f.write_tx [
    | some e ↦ (s, err e)
    | none ↦
        apply_set f.update_entry f.commit f.hash
          (update_values db s.watermarks s.collection no_result kvs) s
  ]

-- The rows that `New` reads: what it advertises and the watermarks it knows.
unfoldable pub read_watermarks : List Doc → Watermarks → Watermarks
unfolding raise
read_watermarks [] ws = ws
read_watermarks (d ∷ ds) ws =
    read_watermarks ds (if is_empty_text d.dp then ws else raise d.dp d.t ws)

unfoldable pub new_storage : {C : Type 0} → C → List Doc → ℕ → Storage C
unfolding set_elements read_watermarks
new_storage c docs hash =
    let d : Container = set_elements (map element docs) (λ id. none) in
    record { diff = d; collection = c; watermarks = read_watermarks docs []; head = hash }
