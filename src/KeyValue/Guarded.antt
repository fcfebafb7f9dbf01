-- ===== src/KeyValue/Guarded.antt =====
-- The rows under the watermarks: no row is older than the watermark of its key.
pub mod Falls
use any_sync.Common.{
  ℕ, ◌≡◌, refl, sym, ap, subst, true, false, List, [], ◌∷◌, Option, none, some, arith, Bool-cases,
  inl, inr, ◌∙◌, ok, err, Result, if◌then◌else◌, All, ltb, ◌≤◌, ◌<◌, >>=-eq-ok, ok-injective,
}
use any_sync.Common.Bytes.{Bytes, same, same_refl, has_prefix, has_prefix_trans, up_to-has_prefix}
use any_sync.KeyValue.{KeyValue, Doc, any_enc, float_limit}
use any_sync.KeyValue.Update.{
  Collection, Cursor, Watermarks, covered, watermark_ts, UpdateResult, no_result, Outcome, updated,
  failed, delete_all, falling, falls, raise_all, update_values, Container,
}
use any_sync.KeyValue.Store.{
  Storage, SetResult, Calls, set_values, apply_set, finish_set, is_unrecorded,
}
use any_sync.KeyValue.Rows.{head_of, Rows, Documents, Among, put_row}
use any_sync.KeyValue.Runs.{walk-with_prefix, Among-with_prefix}
use any_sync.KeyValue.Marks.{covered-raise, covered-raise_all, covered-watermark_ts}
use any_sync.KeyValue.Batch.{
  Ends, Keeps, Sweeps, snapped, in_list, same_but_pre_state, record_drops_lists, update_values_rule,
  ids_of, given_by,
}
use any_sync.KeyValue.Changes.{rows-delete_all, left}
use any_sync.KeyValue.Guarded.Falls.{
  Keyed, InTime, Uncovered, All-right, some-injective, Among-falling,
}

module _ {C : Type 0} (db : Collection C) (laws : Documents db) where
  -- The rows that a watermark makes fall are all gone.
  none_falls :
      (c c' : C) (wm : KeyValue) (docs : List Doc) (id : Bytes) (d : Doc)
      → Keyed (laws.rows c)
      → Sweeps db laws c c' wm docs
      → laws.rows c' id ≡ some d
      → falls wm d ≡ false
  none_falls c c' wm docs id d keyed sw h =
      let p = wm.delete_prefix in
      let cur : Cursor = sw.cursor in
      let was = left db laws c c' _ id d sw.removed h in
      let n : d.id ≡ id = laws.named c id d was.0 in
      elim (Bool-cases (falls wm d)) [
        | inr f ↦ f
        | inl f ↦
            let starts : has_prefix d.id p ≡ true =
              has_prefix_trans d.id d.k p (keyed id d was.0) (ground arith) in
            let found : Among d cur.docs =
              laws.search_finds c p cur id d sw.searched was.0
                (up_to-has_prefix id p (rw (← n) starts)) in
            let given : Among d (given_by wm cur) =
              rw
                (walk-with_prefix p cur.docs cur.fails_after
                  (All-right _ _ cur.docs (laws.search_holds c p cur sw.searched))
                  (laws.search_ascends c p cur sw.searched) sw.ended)
                (Among-with_prefix p d cur.docs found starts) in
            let gone : in_list id (ids_of docs) ≡ true =
              rw (sw.fallen) (rw (← n) (Among-falling wm d _ given f)) in
            let not_gone : in_list id (ids_of docs) ≡ false = was.1 in cc
      ]

  -- The invariant of the loop: `ws` are the watermarks of the storage.
  record Kept (ws : Watermarks) (c : C) (res : UpdateResult) : Type 0 where
    keyed : Keyed (laws.rows c)
    uncovered : Uncovered ws (laws.rows c)
    uncovered_here : Uncovered res.watermarks (laws.rows c)
    timed : InTime (laws.rows c)

  abbrev Admits : KeyValue → Type 0
  Admits kv = (has_prefix kv.key_peer_id kv.key ≡ true) × (kv.timestamp_micro < float_limit)

  -- A row after a write is the written one or was there.
  after_put :
      (c c' : C) (kv : KeyValue) (P : Doc → Type 0)
      → db.upsert_one c (any_enc kv) ≡ ok c'
      → P (any_enc kv)
      → ((id : Bytes) (d : Doc) → laws.rows c id ≡ some d → P d)
      → (id : Bytes) (d : Doc) → laws.rows c' id ≡ some d
      → P d
  after_put c c' kv P e new old id d h =
      let q : put_row (any_enc kv) (laws.rows c) id ≡ some d =
        ap (λ (r : Rows). r id) (sym (laws.put_in c c' (any_enc kv) e)) ∙ h in
      elim (Bool-cases (same kv.key_peer_id id)) [
        | inl s ↦
            let w : ◌≡◌ {A = Option Doc} (some (any_enc kv)) (some d) =
              subst (λ b. (if b then some (any_enc kv) else laws.rows c id) ≡ some d) s q in
            subst P (some-injective w) new
        | inr s ↦
            let w : laws.rows c id ≡ some d =
              subst (λ b. (if b then some (any_enc kv) else laws.rows c id) ≡ some d) s q in
            old id d w
      ]

  keeps : (ws : Watermarks) → Keeps db laws ws (Kept ws) (λ res. Unit {0}) Admits
  keeps ws = record {
    upserts = λ c c' res kv k a w e.
        let n = same_but_pre_state kv.key_peer_id (head_of (laws.rows c kv.key_peer_id)) res in
        record {
          keyed = after_put c c' kv (λ d. has_prefix d.id d.k ≡ true) e a.0 k.keyed;
          timed = after_put c c' kv (λ d. d.t < float_limit) e a.1 k.timed;
          uncovered = after_put c c' kv (λ d. covered ws d.k d.t ≡ false) e w.uncovered k.uncovered;
          uncovered_here =
              after_put c c' kv (λ d. covered (snapped db laws c kv res).watermarks d.k d.t ≡ false)
                e (rw (n.2) w.uncovered_here) (rw (n.2) k.uncovered_here);
        };
    drops = λ c c' res wm docs k held sw. record {
      timed = λ id d h. k.timed id d (left db laws c c' _ id d sw.removed h).0;
      keyed = λ id d h. k.keyed id d (left db laws c c' _ id d sw.removed h).0;
      uncovered = λ id d h. k.uncovered id d (left db laws c c' _ id d sw.removed h).0;
      uncovered_here = λ id d h.
          let f : falls wm d ≡ false = none_falls c c' wm docs id d k.keyed sw h in
          let u : covered res.watermarks d.k d.t ≡ false =
            k.uncovered_here id d (left db laws c c' _ id d sw.removed h).0 in
          rw ((record_drops_lists res docs).2) (
            covered-raise wm.delete_prefix d.k wm.timestamp_micro d.t res.watermarks
            ∙ ground arith);
    };
    stops = λ c res k. tt;
    marks = λ c res kv k. tt;
    scans = λ c res docs k held. tt;
  }

  -- Every row has an id that starts with its key, a timestamp that a float64 keeps, and is not older than
  -- the watermark of its key.
  pub record IsGuarded (s : Storage C) : Type 0 where
    pub keyed : Keyed (laws.rows s.collection)
    pub timed : InTime (laws.rows s.collection)
    pub not_older :
        (id : Bytes) (d : Doc)
        → laws.rows s.collection id ≡ some d
        → watermark_ts s.watermarks d.k ≤ d.t

  Uncovered-rows : (s : Storage C) → IsGuarded s → Uncovered s.watermarks (laws.rows s.collection)
  Uncovered-rows s g id d h =
      let n = g.not_older id d h in covered-watermark_ts s.watermarks d.k d.t ∙ ground arith

  IsGuarded-by :
      (ws : Watermarks) (c : C) (res : UpdateResult) (diff : _) (head : ℕ)
      → Kept ws c res
      → IsGuarded (record {
        diff = diff;
        collection = c;
        watermarks = raise_all res.watermarks ws;
        head = head;
      })
  IsGuarded-by ws c res diff head k = record {
    keyed = k.keyed;
    timed = k.timed;
    not_older = λ id d h.
        let q : covered (raise_all res.watermarks ws) d.k d.t ≡ false =
          covered-raise_all res.watermarks ws d.k d.t
          ∙ rw (k.uncovered id d h, k.uncovered_here id d h) refl in
        let l : ltb d.t (watermark_ts (raise_all res.watermarks ws) d.k) ≡ false =
          sym (covered-watermark_ts (raise_all res.watermarks ws) d.k d.t) ∙ q in
        ground arith;
  }

  start : (s : Storage C) → IsGuarded s → Kept s.watermarks s.collection no_result
  unfolding covered
  start s g = record {
    keyed = g.keyed;
    timed = g.timed;
    uncovered = Uncovered-rows s g;
    uncovered_here = λ id d h. refl;
  }

  -- A storage whose container alone has changed.
  still : (s : Storage C) (diff : Container) → IsGuarded s → IsGuarded (record s { diff = diff })
  still s diff g = record { keyed = g.keyed; timed = g.timed; not_older = g.not_older }

  finish_set-IsGuarded :
      (commit : Option ℕ) (c : C) (res : UpdateResult) (d : Container) (head : ℕ) (r : SetResult)
      (s : Storage C)
      → IsGuarded s
      → Kept s.watermarks c res
      → IsGuarded (finish_set commit c res d head r s).0
  unfolding finish_set
  finish_set-IsGuarded (some e) c res d head r s g k = still s _ g
  finish_set-IsGuarded none c res d head r s g k = IsGuarded-by s.watermarks c res d head k

  kept :
      (kvs : List KeyValue) (s : Storage C) (c : C) (res : UpdateResult)
      → IsGuarded s
      → All Admits kvs
      → update_values db s.watermarks s.collection no_result kvs ≡ updated c res
      → Kept s.watermarks c res
  kept kvs s c res g a q = subst (Ends (Kept s.watermarks) (λ res. Unit {0})) q (
      update_values_rule db laws s.watermarks _ _ Admits (keeps s.watermarks) s.collection no_result
        kvs (start s g) a)

  apply_set-IsGuarded :
      (entry commit : Option ℕ) (hash : ℕ) (kvs : List KeyValue) (s : Storage C) (o : Outcome C)
      → IsGuarded s
      → All Admits kvs
      → update_values db s.watermarks s.collection no_result kvs ≡ o
      → IsGuarded (apply_set entry commit hash o s).0
  unfolding apply_set
  apply_set-IsGuarded entry commit hash kvs s (failed e res) g a q = still s _ g
  apply_set-IsGuarded none commit hash kvs s (updated c res) g a q =
      elim (Bool-cases (is_unrecorded res.pre_state)) [
        | inl u ↦ rw u (finish_set-IsGuarded commit c res _ s.head _ s g (kept kvs s c res g a q))
        | inr u ↦ rw u (finish_set-IsGuarded commit c res _ hash _ s g (kept kvs s c res g a q))
      ]
  apply_set-IsGuarded (some e) commit hash kvs s (updated c res) g a q =
      elim (Bool-cases (is_unrecorded res.pre_state)) [
        | inl u ↦ rw u (finish_set-IsGuarded commit c res _ s.head _ s g (kept kvs s c res g a q))
        | inr u ↦ rw u (still s _ g)
      ]

  abbrev Ended : Storage C × Result ℕ SetResult → Type 0
  Ended o = IsGuarded o.0

  -- A call of `Set`, whether it fails or not, with values whose ids start with their keys and whose
  -- timestamps a float64 keeps, leaves every row with an id that starts with its key and with a
  -- timestamp that a float64 keeps and that is not below the watermark of
  -- its key, that is the highest of the watermarks whose prefix the key has: a row that a watermark
  -- dropped, or would have dropped, never comes back.
  pub set_values-IsGuarded :
      (f : Calls) (kvs : List KeyValue) (s : Storage C)
      → IsGuarded s
      → All
          (λ kv. (has_prefix kv.key_peer_id kv.key ≡ true) × (kv.timestamp_micro < float_limit))
          kvs
      → IsGuarded (set_values db f kvs s).0
  unfolding set_values
  set_values-IsGuarded f kvs s g a =
      elim f.write_tx
        as (λ w. Ended (elim w [
          | some e ↦ (s, err e)
          | none ↦
              apply_set f.update_entry f.commit f.hash
                (update_values db s.watermarks s.collection no_result kvs) s
        ])) [
          | some e ↦ g
          | none ↦ apply_set-IsGuarded f.update_entry f.commit f.hash kvs s _ g a refl
        ]
