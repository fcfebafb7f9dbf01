-- ===== src/KeyValue/Advertised.antt =====
-- What the container advertises beside what the rows are, before and after `Set`.
use any_sync.Common.{
  ℕ, ◌≡◌, refl, sym, ap, ap₂, subst, true, false, List, [], ◌∷◌, ◌++◌, Option, none, some, map,
  Bool-cases, inl, inr, ◌∙◌, ok, err, Result, ◌↔◌, if◌then◌else◌,
}
use any_sync.Common.Bytes.{Bytes}
use any_sync.KeyValue.{KeyValue, Doc, Element}
use any_sync.KeyValue.Update.{
  Collection, PreState, is_recorded, undo, UpdateResult, no_result, Outcome, updated, failed,
  update_values,
}
use any_sync.KeyValue.Store.{
  advertise, is_unrecorded, Storage, SetResult, Calls, set_values, apply_set, finish_set,
}
use any_sync.KeyValue.Rows.{head_of, Documents}
use any_sync.KeyValue.Batch.{
  listed, Snapshots, undo-is_recorded, undo_unrecorded, set_elements_unlisted, remove_elements_lem,
  Batch, in_list, listed-in_list, Ends, update_values-Batch, All-admitted, update_values_rule,
  record_drops_lists, same_but_pre_state,
}

abbrev Matched : UpdateResult → Type 0
Matched res = map (λ (e : Element). e.id) res.removed ≡ res.dropped_ids

head_of-none : (o : Option Doc) → head_of o ≡ none → o ≡ none
head_of-none none h = refl
head_of-none (some d) h = cc

module _ {C : Type 0} (db : Collection C) (laws : Documents db) where
  -- The container has exactly the rows, each with its timestamp.
  abbrev pub InStep : Storage C → Type 0
  InStep s = (id : Bytes) → s.diff id ≡ head_of (laws.rows s.collection id)

  -- The ids that are withdrawn are those that the call reports as dropped.
  update_values-Matched :
      (ws : _) (c c' : C) (res : UpdateResult) (kvs : List KeyValue)
      → update_values db ws c no_result kvs ≡ updated c' res
      → Matched res
  update_values-Matched ws c c' res kvs q =
      subst (Ends (λ c res. Matched res) (λ res. Unit {0})) q (
        update_values_rule db laws ws _ _ (λ kv. Unit {0})
          record {
            upserts = λ c c' res kv k a w e.
                let p =
                  same_but_pre_state kv.key_peer_id (head_of (laws.rows c kv.key_peer_id)) res in
                rw (p.1, p.4) k;
            drops = λ c c' res wm docs k held e.
                let p = record_drops_lists res docs in
                p.0 ∙ ap₂ ◌++◌ k refl ∙ ap₂ ◌++◌ (sym p.1) refl;
            stops = λ c res k. tt;
            marks = λ c res kv k. tt;
            scans = λ c res docs k held. tt;
          }
          c no_result kvs refl (All-admitted kvs))

  module _ (s : Storage C) (step : InStep s) where
    abbrev Reached : Outcome C → Type 0
    Reached =
        Ends (λ c res. Batch (laws.rows s.collection) s.diff (laws.rows c) res)
          (λ res. Snapshots s.diff res.pre_state)

    ended :
        (kvs : List KeyValue) (o : Outcome C)
        → update_values db s.watermarks s.collection no_result kvs ≡ o
        → Reached o
    ended kvs o q = subst Reached q (
        update_values-Batch (laws.rows s.collection) s.diff step db laws s.watermarks s.collection
          kvs refl)

    -- The container after the mutations of a batch.
    advertise_lem :
        (c : C) (res : UpdateResult) (id : Bytes)
        → Batch (laws.rows s.collection) s.diff (laws.rows c) res
        → advertise res s.diff id
          ≡ (if listed id res.removed then none else head_of (laws.rows c id))
    advertise_lem c res id b =
        remove_elements_lem id res.removed _ ∙ elim (Bool-cases (listed id res.removed)) [
          | inl l ↦ rw l refl
          | inr l ↦ rw l (b.advertised id l)
        ]

    undo_lem :
        (r : _) (res : UpdateResult) (id : Bytes)
        → Batch (laws.rows s.collection) s.diff r res
        → undo res.pre_state (advertise res s.diff) id ≡ s.diff id
    undo_lem r res id b = elim (Bool-cases (is_recorded id res.pre_state)) [
      | inl q ↦ undo-is_recorded s.diff id res.pre_state _ b.snapshots q
      | inr q ↦
          undo_unrecorded id res.pre_state _ q
          ∙ (remove_elements_lem id res.removed _
              ∙ rw (b.no_removal id q)
                  (set_elements_unlisted id res.elements s.diff (b.no_element id q)))
    ]

    undo_unused : (ps : PreState) (id : Bytes) → Snapshots s.diff ps → undo ps s.diff id ≡ s.diff id
    undo_unused ps id a = elim (Bool-cases (is_recorded id ps)) [
      | inl q ↦ undo-is_recorded s.diff id ps s.diff a q
      | inr q ↦ undo_unrecorded id ps s.diff q
    ]

  -- After `Set`, if it returned no error, and if it did.
  abbrev Post : Storage C → Storage C × Result ℕ SetResult → Type 0
  Post s (s', ok r) =
      (id : Bytes)
      → s'.diff id
        ≡ (if in_list id r.dropped_ids then none else head_of (laws.rows s'.collection id))
  Post s (s', err e) =
      ((id : Bytes) → s'.diff id ≡ s.diff id)
      × (s'.collection ≡ s.collection)
      × (s'.watermarks ≡ s.watermarks)
      × (s'.head ≡ s.head)

  module _ (s : Storage C) (step : InStep s) (kvs : List KeyValue) (c : C) (res : UpdateResult)
      (q : update_values db s.watermarks s.collection no_result kvs ≡ updated c res) where
    drops_lem : (id : Bytes) → listed id res.removed ≡ in_list id res.dropped_ids
    drops_lem id =
        listed-in_list id res.removed ∙ ap (in_list id) (update_values-Matched _ _ c res kvs q)

    finished :
        (f : Option ℕ) (head : ℕ) (r : SetResult)
        → ((id : Bytes) → in_list id r.dropped_ids ≡ in_list id res.dropped_ids)
        → Post s (finish_set f c res (advertise res s.diff) head r s)
    unfolding finish_set
    finished (some e) head r same_drops =
        ((λ id. undo_lem s step _ res id (ended s step kvs _ q)), refl, refl, refl)
    finished none head r same_drops = λ id.
        advertise_lem s step c res id (ended s step kvs _ q) ∙ rw (drops_lem id, same_drops id) refl

    -- A batch that records no id has dropped none.
    no_drops :
        is_unrecorded res.pre_state ≡ true → (id : Bytes) → false ≡ in_list id res.dropped_ids
    unfolding is_recorded
    no_drops u id =
        sym ((ended s step kvs _ q).no_removal id (unrecorded res.pre_state u)) ∙ drops_lem id
      where
        unrecorded : (ps : PreState) → is_unrecorded ps ≡ true → is_recorded id ps ≡ false
        unrecorded [] h = refl
        unrecorded (p ∷ ps) h = cc

  apply_set-Post :
      (entry commit : Option ℕ) (hash : ℕ) (kvs : List KeyValue) (s : Storage C) (o : Outcome C)
      → InStep s
      → update_values db s.watermarks s.collection no_result kvs ≡ o
      → Post s (apply_set entry commit hash o s)
  unfolding apply_set in_list
  apply_set-Post entry commit hash kvs s (failed e res) step q =
      ((λ id. undo_unused s step res.pre_state id (ended s step kvs _ q)), refl, refl, refl)
  apply_set-Post none commit hash kvs s (updated c res) step q =
      elim (Bool-cases (is_unrecorded res.pre_state)) [
        | inl u ↦ rw u (finished s step kvs c res q commit s.head _ (no_drops s step kvs c res q u))
        | inr u ↦ rw u (finished s step kvs c res q commit hash _ (λ id. refl))
      ]
  apply_set-Post (some e) commit hash kvs s (updated c res) step q =
      elim (Bool-cases (is_unrecorded res.pre_state)) [
        | inl u ↦ rw u (finished s step kvs c res q commit s.head _ (no_drops s step kvs c res q u))
        | inr u ↦ rw u ((λ id. undo_lem s step _ res id (ended s step kvs _ q)), refl, refl, refl)
      ]

  set_values-Post :
      (f : Calls) (kvs : List KeyValue) (s : Storage C) → InStep s → Post s (set_values db f kvs s)
  unfolding set_values
  set_values-Post f kvs s step =
      elim f.write_tx
        as (λ w. Post s (elim w [
          | some e ↦ (s, err e)
          | none ↦
              apply_set f.update_entry f.commit f.hash
                (update_values db s.watermarks s.collection no_result kvs) s
        ])) [
          | some e ↦ ((λ id. refl), refl, refl, refl)
          | none ↦ apply_set-Post f.update_entry f.commit f.hash kvs s _ step refl
        ]

  -- When a call of `Set` returns an error, whichever of its calls failed, the container has what it
  -- had before, though it may have been changed in between, and the documents, the watermarks and
  -- the entered head are as they were. The container had been in step with the rows.
  pub set_values_err :
      (f : Calls) (kvs : List KeyValue) (s s' : Storage C) (e : ℕ)
      → InStep s
      → set_values db f kvs s ≡ (s', err e)
      → ((id : Bytes) → s'.diff id ≡ s.diff id)
        × (s'.collection ≡ s.collection)
        × (s'.watermarks ≡ s.watermarks)
        × (s'.head ≡ s.head)
  set_values_err f kvs s s' e step h = subst (Post s) h (set_values-Post f kvs s step)

  -- After a call of `Set` that returns no error, on a container in step with the rows, none of the ids
  -- that the call reports as dropped is in the container, and the container is in step with the rows
  -- again exactly when none of these ids has a row: where a later value of the batch stored one of
  -- them again, the container lacks a row.
  pub set_values-InStep :
      (f : Calls) (kvs : List KeyValue) (s s' : Storage C) (r : SetResult)
      → InStep s
      → set_values db f kvs s ≡ (s', ok r)
      → ((id : Bytes) → in_list id r.dropped_ids ≡ true → s'.diff id ≡ none)
        × (InStep s'
            ↔ ((id : Bytes) → in_list id r.dropped_ids ≡ true → laws.rows s'.collection id ≡ none))
  set_values-InStep f kvs s s' r step h =
      let post : (id : Bytes)
          → s'.diff id
            ≡ (if in_list id r.dropped_ids then none else head_of (laws.rows s'.collection id)) =
        subst (Post s) h (set_values-Post f kvs s step) in
      (
        (λ id d. post id ∙ rw d refl),
        (
          (λ step' id d. head_of-none _ (sym (step' id) ∙ (post id ∙ rw d refl))),
          (λ gone id. elim (Bool-cases (in_list id r.dropped_ids)) [
            | inl d ↦ post id ∙ rw (d, gone id d) refl
            | inr d ↦ post id ∙ rw d refl
          ]),
        ),
      )
