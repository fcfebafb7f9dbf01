-- ===== src/KeyValue/Newest.antt =====
-- The newest write of a row wins: what `Set` was given, and what was stored, is there afterwards, or
-- something as new is, or a watermark covers it. The key of a row is told by its id, `key_of`: the id
-- is the key, a dash and the peer, and the text of a peer's id has no dash.
pub mod Steps
use any_sync.Common.{
  ℕ, ◌≡◌, refl, sym, ap, subst, true, false, ◌||◌, List, [], ◌∷◌, Option, none, some, arith,
  Bool-cases, inl, inr, ◌∙◌, ok, err, Result, All, ltb, leb, ◌≤◌, ◌<◌, ◌⊎◌, Result-cases,
}
use any_sync.Common.Bytes.{Bytes, same, same→≡, has_prefix}
use any_sync.KeyValue.{KeyValue, Doc, any_enc, is_empty_text}
use any_sync.KeyValue.Update.{
  Collection, Container, Watermarks, watermark_ts, UpdateResult, covered, raise_all, falls,
  no_result, Outcome, updated, failed, Outcome-cases, update_value, update_values, upsert_value,
  then_on,
}
use any_sync.KeyValue.Store.{
  Storage, SetResult, Calls, set_values, apply_set, finish_set, is_unrecorded,
}
use any_sync.KeyValue.Rows.{Documents, head_of}
use any_sync.KeyValue.Marks.{covered-raise, covered-raise_all, covered-watermark_ts}
use any_sync.KeyValue.Batch.{
  in_list, same_but_pre_state, record_drops_lists, with_value, ids_of, Keeps, Ends,
  update_values_rule, after_apply_watermark,
}
use any_sync.KeyValue.Guarded.Falls.{some-injective}
use any_sync.KeyValue.Changes.{
  falling-falls, rows-delete_all, left, removed_falls, put_row_there, put_row_elsewhere,
}
use any_sync.KeyValue.Newest.Steps.{KeyedBy, Stored, Admits, Kept, KeyedBy-upsert, keeps}

failed≢updated :
    {C : Type 0} {e : ℕ} {c : C} {r s : UpdateResult}
    → ◌≡◌ {A = Outcome C} (failed e r) (updated c s)
    → ⊥
failed≢updated h = cc

module _ {C : Type 0} (db : Collection C) (laws : Documents db) (key_of : Bytes → Bytes) where
  upsert_value-Kept :
      (ws : Watermarks) (c : C) (res : UpdateResult) (kv : KeyValue)
      → KeyedBy db laws key_of c
      → Admits db laws key_of kv
      → Ends
          (Kept db laws key_of ws kv.key_peer_id kv.timestamp_micro)
          (λ res. Unit {0})
          (upsert_value db c res kv)
  unfolding upsert_value
  upsert_value-Kept ws c res kv k a = elim (Result-cases (db.upsert_one c (any_enc kv))) [
    | inl (e, q) ↦ rw (q, Ends) tt
    | inr (c', q) ↦
        let k' : Kept db laws key_of ws kv.key_peer_id kv.timestamp_micro c' (with_value kv res) =
          record {
            keyed = KeyedBy-upsert db laws key_of c c' kv k a q;
            safe = inr (inr (any_enc kv, put_row_there db laws c c' kv q, omega arith));
          } in
        elim (Bool-cases (is_empty_text kv.delete_prefix)) [
          | inl x ↦ rw (q, x, Ends) k'
          | inr x ↦
              rw (q, x, Ends)
                (after_apply_watermark db laws ws _ _ (Admits db laws key_of)
                  (keeps db laws key_of ws kv.key_peer_id kv.timestamp_micro) c' _ kv k')
        ]
  ]

  -- After its round of the loop a value is safe.
  update_value-Kept :
      (ws : Watermarks) (c : C) (res : UpdateResult) (kv : KeyValue)
      → KeyedBy db laws key_of c
      → Admits db laws key_of kv
      → Ends
          (Kept db laws key_of ws kv.key_peer_id kv.timestamp_micro)
          (λ res. Unit {0})
          (update_value db ws c res kv)
  unfolding update_value
  update_value-Kept ws c res kv k a =
      let id : Bytes = kv.key_peer_id in
      let t : ℕ = kv.timestamp_micro in
      elim (Bool-cases (covered ws kv.key t || covered res.watermarks kv.key t)) [
        | inl w ↦
            let at_key : (m : Watermarks)
                → covered m kv.key t ≡ true
                → covered m (key_of id) t ≡ true =
              λ m h. ap (λ x. covered m x t) (sym a) ∙ h in
            rw (w, Ends)
              (elim (Bool-cases (covered ws kv.key t)) [
                | inl x ↦ record { keyed = k; safe = inl (at_key ws x) }
                | inr x ↦ record {
                  keyed = k;
                  safe = inr (inl (at_key res.watermarks (ground arith)));
                }
              ])
        | inr w ↦ elim (Result-cases (db.find_id c id)) [
          | inl (e, q) ↦ rw (w, q, Ends) tt
          | inr (none, q) ↦ rw (w, q, Ends) (upsert_value-Kept ws c _ kv k a)
          | inr (some d, q) ↦
              let h = laws.found c id (some d) q in
              elim (Bool-cases (leb t d.t)) [
                | inl l ↦
                    rw (w, q, l, Ends)
                      (record { keyed = k; safe = inr (inr (d, sym h, ground arith)) })
                | inr l ↦ rw (w, q, l, Ends) (upsert_value-Kept ws c _ kv k a)
              ]
        ]
      ]

  update_values-Kept :
      (ws : Watermarks) (c c' : C) (res res' : UpdateResult) (kvs : List KeyValue)
      → KeyedBy db laws key_of c
      → All (Admits db laws key_of) kvs
      → update_values db ws c res kvs ≡ updated c' res'
      → All (λ kv. Kept db laws key_of ws kv.key_peer_id kv.timestamp_micro c' res') kvs
  unfolding update_values
  update_values-Kept ws c c' res res' [] k a e = tt
  update_values-Kept ws c c' res res' (kv ∷ kvs) k a e =
      elim (Outcome-cases (update_value db ws c res kv)) [
        | inl (c1, res1, q) ↦
            let now : Kept db laws key_of ws kv.key_peer_id kv.timestamp_micro c1 res1 =
              subst
                (Ends (Kept db laws key_of ws kv.key_peer_id kv.timestamp_micro) (λ res. Unit {0}))
                q (update_value-Kept ws c res kv k a.0) in
            let rest : update_values db ws c1 res1 kvs ≡ updated c' res' =
              subst (λ o. then_on o (λ x y. update_values db ws x y kvs) ≡ updated c' res') q e in
            (
              subst
                  (Ends (Kept db laws key_of ws kv.key_peer_id kv.timestamp_micro)
                    (λ res. Unit {0}))
                  rest
                  (update_values_rule db laws ws _ _ (Admits db laws key_of)
                    (keeps db laws key_of ws kv.key_peer_id kv.timestamp_micro) c1 res1 kvs now
                    a.1),
              update_values-Kept ws c1 c' res1 res' kvs now.keyed a.1 rest,
            )
        | inr (x, res1, q) ↦ absurd (
            failed≢updated
              (subst (λ o. then_on o (λ x y. update_values db ws x y kvs) ≡ updated c' res') q e))
      ]

  -- A timestamp of an id is below the watermark of its key, or stored under the id there is one as new.
  abbrev pub Lasts : Storage C → Bytes → ℕ → Type 0
  Lasts s id t =
      (t < watermark_ts s.watermarks (key_of id)) ⊎ Stored db laws key_of s.collection id t

  abbrev After : List KeyValue → Storage C → Storage C × Result ℕ SetResult → Type 0
  After kvs s (s', ok r) =
      All (λ kv. Lasts s' kv.key_peer_id kv.timestamp_micro) kvs
      × ((id : Bytes) (d : Doc) → laws.rows s.collection id ≡ some d → Lasts s' id d.t)
  After kvs s (s', err e) = Unit

  Kept-Lasts :
      (s' : Storage C) (ws : Watermarks) (res : UpdateResult) (id : Bytes) (t : ℕ)
      → s'.watermarks ≡ raise_all res.watermarks ws
      → Kept db laws key_of ws id t s'.collection res
      → Lasts s' id t
  Kept-Lasts s' ws res id t e k =
      let q : covered s'.watermarks (key_of id) t
          ≡ (covered ws (key_of id) t || covered res.watermarks (key_of id) t) =
        ap (λ m. covered m (key_of id) t) e ∙ covered-raise_all res.watermarks ws (key_of id) t in
      let n : covered s'.watermarks (key_of id) t ≡ ltb t (watermark_ts s'.watermarks (key_of id)) =
        covered-watermark_ts s'.watermarks (key_of id) t in
      elim k.safe [
        | inl h ↦ inl (ground arith)
        | inr (inl h) ↦ inl (ground arith)
        | inr (inr stored) ↦ inr stored
      ]

  each-Lasts :
      (s' : Storage C) (ws : Watermarks) (res : UpdateResult) (kvs : List KeyValue)
      → s'.watermarks ≡ raise_all res.watermarks ws
      → All (λ kv. Kept db laws key_of ws kv.key_peer_id kv.timestamp_micro s'.collection res) kvs
      → All (λ kv. Lasts s' kv.key_peer_id kv.timestamp_micro) kvs
  each-Lasts s' ws res [] e a = tt
  each-Lasts s' ws res (kv ∷ kvs) e a =
      (Kept-Lasts s' ws res _ _ e a.0, each-Lasts s' ws res kvs e a.1)

  finish_set-After :
      (commit : Option ℕ) (c : C) (res : UpdateResult) (diff : Container) (head : ℕ) (r : SetResult)
      (kvs : List KeyValue) (s : Storage C)
      → KeyedBy db laws key_of s.collection
      → All (Admits db laws key_of) kvs
      → update_values db s.watermarks s.collection no_result kvs ≡ updated c res
      → After kvs s (finish_set commit c res diff head r s)
  unfolding finish_set
  finish_set-After (some e) c res diff head r kvs s k a q = tt
  finish_set-After none c res diff head r kvs s k a q =
      let s' : Storage C = record {
        diff = diff;
        collection = c;
        watermarks = raise_all res.watermarks s.watermarks;
        head = head;
      } in
      (
        each-Lasts s' s.watermarks res kvs refl
            (update_values-Kept s.watermarks s.collection c no_result res kvs k a q),
        λ id d h. Kept-Lasts s' s.watermarks res id d.t refl (
            subst (Ends (Kept db laws key_of s.watermarks id d.t) (λ res. Unit {0})) q (
              update_values_rule db laws s.watermarks _ _ (Admits db laws key_of)
                (keeps db laws key_of s.watermarks id d.t) s.collection no_result kvs
                record { keyed = k; safe = inr (inr (d, h, omega arith)) } a)),
      )

  apply_set-After :
      (entry commit : Option ℕ) (hash : ℕ) (kvs : List KeyValue) (s : Storage C) (o : Outcome C)
      → KeyedBy db laws key_of s.collection
      → All (Admits db laws key_of) kvs
      → update_values db s.watermarks s.collection no_result kvs ≡ o
      → After kvs s (apply_set entry commit hash o s)
  unfolding apply_set
  apply_set-After entry commit hash kvs s (failed e res) k a q = tt
  apply_set-After none commit hash kvs s (updated c res) k a q =
      elim (Bool-cases (is_unrecorded res.pre_state)) [
        | inl u ↦ rw u (finish_set-After commit c res _ s.head _ kvs s k a q)
        | inr u ↦ rw u (finish_set-After commit c res _ hash _ kvs s k a q)
      ]
  apply_set-After (some e) commit hash kvs s (updated c res) k a q =
      elim (Bool-cases (is_unrecorded res.pre_state)) [
        | inl u ↦ rw u (finish_set-After commit c res _ s.head _ kvs s k a q)
        | inr u ↦ rw (u, After) tt
      ]

  -- When a call of `Set` returns no error, nothing is lost to something older: for each value that it
  -- was given, and for each row of before, there is a row of the same id at least as new, or the
  -- timestamp is below the watermark of the key. The key of each row and value is told by its id.
  pub set_values-Lasts :
      (f : Calls) (kvs : List KeyValue) (s s' : Storage C) (r : SetResult)
      → KeyedBy db laws key_of s.collection
      → All (λ kv. kv.key ≡ key_of kv.key_peer_id) kvs
      → set_values db f kvs s ≡ (s', ok r)
      → All (λ kv. Lasts s' kv.key_peer_id kv.timestamp_micro) kvs
        × ((id : Bytes) (d : Doc) → laws.rows s.collection id ≡ some d → Lasts s' id d.t)
  unfolding set_values
  set_values-Lasts f kvs s s' r k a h =
      subst (After kvs s) h
        (elim f.write_tx
          as (λ w. After kvs s (elim w [
            | some e ↦ (s, err e)
            | none ↦
                apply_set f.update_entry f.commit f.hash
                  (update_values db s.watermarks s.collection no_result kvs) s
          ])) [
            | some e ↦ tt
            | none ↦ apply_set-After f.update_entry f.commit f.hash kvs s _ k a refl
          ])
