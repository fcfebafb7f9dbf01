-- ===== src/KeyValue/Batch/Steps.antt =====
-- The loop of `updateValues` keeps the invariant of a batch.
pub mod Drops
use any_sync.Common.{
  ℕ, ◌≡◌, refl, sym, ap, subst, Bool, true, false, ◌||◌, List, [], ◌∷◌, ◌++◌, Option, some, All,
  map, arith, Bool-cases, inl, inr, ◌∙◌, ok, ok-injective, >>=-eq-ok,
}
use any_sync.Common.Bytes.{Bytes, same, same→≡, same_refl}
use any_sync.KeyValue.{KeyValue, Doc, Element, element, any_enc}
use any_sync.KeyValue.Update.{
  Container, Collection, Watermarks, set_elements, is_recorded, UpdateResult, record_pre,
  record_drops, delete_all, update_values, no_result,
}
use any_sync.KeyValue.Rows.{head_of, Rows, put_row, Documents}
use any_sync.KeyValue.Batch.Rule.{
  with_value, ids_of, Ends, snapped, update_values_rule, All-admitted,
}
use any_sync.KeyValue.Batch.Recorded.{
  listed, listed-++, set_elements-++, Snapshots, Snapshots-record_pre, is_recorded-record_pre,
  same_but_pre_state,
}
use any_sync.KeyValue.Batch.Steps.Drops.{
  Batch, Gone, apart, Gone-record_pre, Gone-record_drops, record_drops-Gone, same_lists,
}

module _ (r0 : Rows) (d0 : Container) (in_step : (id : Bytes) → d0 id ≡ head_of (r0 id)) where
  Batch-start : Batch r0 d0 r0 no_result
  unfolding is_recorded listed set_elements
  Batch-start = record {
    snapshots = tt;
    untouched = λ id h. refl;
    no_element = λ id h. refl;
    no_removal = λ id h. refl;
    advertised = λ id h. in_step id;
  }

  Batch-record_pre :
      (r : Rows) (id : Bytes) (pre : Option ℕ) (res : UpdateResult)
      → Batch r0 d0 r res
      → pre ≡ head_of (r id)
      → Batch r0 d0 r (record_pre id pre res)
  Batch-record_pre r id pre res b h =
      let keeps = same_but_pre_state id pre res in
      let fewer : (j : Bytes)
          → is_recorded j (record_pre id pre res).pre_state ≡ false
          → is_recorded j res.pre_state ≡ false =
        λ j u.
          let q : is_recorded j (record_pre id pre res).pre_state
              ≡ (is_recorded j res.pre_state || same id j) =
            is_recorded-record_pre j id pre res in
          ground arith in
      record {
        snapshots =
            Snapshots-record_pre d0 id pre res b.snapshots
              (λ u. h ∙ (ap head_of (b.untouched id u) ∙ sym (in_step id)));
        untouched = λ j u. b.untouched j (fewer j u);
        no_element = λ j u. rw keeps.0 (b.no_element j (fewer j u));
        no_removal = λ j u. rw (keeps.1) (b.no_removal j (fewer j u));
        advertised =
            λ j u. rw keeps.0 (b.advertised j (subst (λ es. listed j es ≡ false) keeps.1 u));
      }

  -- The row and the element of a value that won.
  Batch-upsert :
      (r : Rows) (kv : KeyValue) (res : UpdateResult)
      → Batch r0 d0 r res
      → is_recorded kv.key_peer_id res.pre_state ≡ true
      → Batch r0 d0 (put_row (any_enc kv) r) (record res {
        elements = res.elements ++ element (any_enc kv) ∷ [];
        applied = res.applied ++ kv ∷ [];
      })
  unfolding listed set_elements
  Batch-upsert r kv res b seen = record {
    snapshots = b.snapshots;
    untouched = λ j u. elim (Bool-cases (same kv.key_peer_id j)) [
      | inl s ↦
          let q : kv.key_peer_id ≡ j = same→≡ _ _ s in
          let t : is_recorded j res.pre_state ≡ true =
            subst (λ k. is_recorded k res.pre_state ≡ true) q seen in
          ground arith
      | inr s ↦ rw s (b.untouched j u)
    ];
    no_element = λ j u. elim (Bool-cases (same kv.key_peer_id j)) [
      | inl s ↦
          let q : kv.key_peer_id ≡ j = same→≡ _ _ s in
          let t : is_recorded j res.pre_state ≡ true =
            subst (λ k. is_recorded k res.pre_state ≡ true) q seen in
          ground arith
      | inr s ↦ listed-++ j res.elements (element (any_enc kv) ∷ []) ∙ rw (b.no_element j u, s) refl
    ];
    no_removal = b.no_removal;
    advertised = λ j u.
        ap (λ (c : Container). c j) (set_elements-++ res.elements (element (any_enc kv) ∷ []) d0)
        ∙ elim (Bool-cases (same kv.key_peer_id j)) [
          | inl s ↦ rw s refl
          | inr s ↦ rw s (b.advertised j u)
        ];
  }

  -- A row that falls is withdrawn; its document goes later.
  Batch-record_drops :
      (r : Rows) (ds : List Doc) (res : UpdateResult)
      → Batch r0 d0 r res
      → All (λ d. r d.id ≡ some d) ds
      → Batch r0 d0 r (record_drops res ds)
  unfolding record_drops listed
  Batch-record_drops r [] res b a = b
  Batch-record_drops r (d ∷ ds) res b a =
      let seen : UpdateResult = record_pre d.id (some d.t) res in
      let b' : Batch r0 d0 r seen =
        Batch-record_pre r d.id (some d.t) res b (sym (ap head_of a.0)) in
      Batch-record_drops r ds (record seen { removed = seen.removed ++ element d ∷ [] })
        record {
          snapshots = b'.snapshots;
          untouched = b'.untouched;
          no_element = b'.no_element;
          no_removal = λ j u.
              let q : is_recorded j seen.pre_state ≡ (is_recorded j res.pre_state || same d.id j) =
                is_recorded-record_pre j d.id (some d.t) res in
              let s : same d.id j ≡ false = ground arith in
              listed-++ j seen.removed (element d ∷ []) ∙ rw (b'.no_removal j u, s) refl;
          advertised = λ j u.
              let q : listed j (seen.removed ++ element d ∷ [])
                  ≡ (listed j seen.removed || listed j (element d ∷ [])) =
                listed-++ j seen.removed (element d ∷ []) in
              b'.advertised j (ground arith);
        }
        a.1

  module _ {C : Type 0} (db : Collection C) (laws : Documents db) where
    -- The documents of ids that are snapshot and withdrawn may go.
    Batch-delete_all :
        (c c' : C) (ids : List Bytes) (res : UpdateResult)
        → delete_all db c ids ≡ ok c'
        → Batch r0 d0 (laws.rows c) res
        → All (Gone res) ids
        → Batch r0 d0 (laws.rows c') res
    unfolding delete_all
    Batch-delete_all c c' [] res e b a =
        subst (λ x. Batch r0 d0 (laws.rows x) res) (ok-injective e) b
    Batch-delete_all c c' (id ∷ ids) res e b a =
        let first = >>=-eq-ok (db.delete_id c id) (λ x. delete_all db x ids) e in
        Batch-delete_all first.0 c' ids res first.2
          (subst (λ r. Batch r0 d0 r res) (sym (laws.taken_out c first.0 id first.1))
            record {
              snapshots = b.snapshots;
              untouched = λ j u.
                  let s : same id j ≡ false =
                    apart (λ k. is_recorded k res.pre_state) id j a.0.0 u in
                  rw s (b.untouched j u);
              no_element = b.no_element;
              no_removal = b.no_removal;
              advertised = λ j u.
                  let s : same id j ≡ false = apart (λ k. listed k res.removed) id j a.0.1 u in
                  rw s (b.advertised j u);
            })
          a.1

  -- So the loop keeps the invariant, and its snapshots where it fails.
  pub update_values-Batch :
      {C : Type 0} (db : Collection C) (laws : Documents db) (ws : Watermarks) (c : C)
      (kvs : List KeyValue)
      → laws.rows c ≡ r0
      → Ends
          (λ c' res. Batch r0 d0 (laws.rows c') res)
          (λ res. Snapshots d0 res.pre_state)
          (update_values db ws c no_result kvs)
  update_values-Batch db laws ws c kvs h =
      update_values_rule db laws ws _ _ (λ kv. Unit {0})
        record {
          upserts = λ c c' res kv b a w e.
              subst (λ r. Batch r0 d0 r (with_value kv (snapped db laws c kv res)))
                (sym (laws.put_in c c' (any_enc kv) e))
                (Batch-upsert (laws.rows c) kv (snapped db laws c kv res)
                  (Batch-record_pre (laws.rows c) kv.key_peer_id _ res b refl)
                  (is_recorded-record_pre _ _ _ res
                    ∙ rw (same_refl kv.key_peer_id) (ground arith)));
          drops = λ c c' res wm docs b held e. same_lists (
              Batch-delete_all db laws c c' (ids_of docs) (record_drops res docs) e.removed
                (Batch-record_drops (laws.rows c) docs res b held) (record_drops-Gone docs res));
          stops = λ c res b. b.snapshots;
          marks =
              λ c res kv b. (Batch-record_pre (laws.rows c) kv.key_peer_id _ res b refl).snapshots;
          scans = λ c res docs b held. (Batch-record_drops (laws.rows c) docs res b held).snapshots;
        }
        c no_result kvs (rw h Batch-start) (All-admitted kvs)
