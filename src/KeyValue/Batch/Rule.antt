-- ===== src/KeyValue/Batch/Rule.antt =====
-- Induction over a batch: what a winning value and the drops of a watermark keep, `updateValues`
-- keeps when it ends well.
use any_sync.Common.{
  refl, if◌then◌else◌, ℕ, ◌≡◌, sym, ap, subst, true, false, ◌||◌, List, [], ◌∷◌, ◌++◌, Option, none,
  some, map, arith, Bool-cases, inl, inr, ◌∙◌, ok, leb, Result-cases, All,
}
use any_sync.Common.Bytes.{Bytes}
use any_sync.KeyValue.{KeyValue, Doc, element, any_enc, is_empty_text}
use any_sync.KeyValue.Update.{
  Collection, Cursor, Watermarks, UpdateResult, record_pre, record_drops, Outcome, Outcome-cases,
  updated, failed, delete_all, drop_rows, apply_watermark, upsert_value, update_value,
  update_values, falling, falls, walk, covered, then_on, raise,
}
use any_sync.KeyValue.Rows.{Documents, head_of}
use any_sync.KeyValue.Runs.{walk-All}
use mathlib.Core.Path.{subst₂}

abbrev pub with_value : KeyValue → UpdateResult → UpdateResult
with_value kv res = record res {
  elements = res.elements ++ element (any_enc kv) ∷ [];
  applied = res.applied ++ kv ∷ [];
}

abbrev pub ids_of : List Doc → List Bytes
ids_of = map λ d. d.id

abbrev pub with_drops : KeyValue → List Doc → UpdateResult → UpdateResult
with_drops wm docs res = record (record_drops res docs) {
  dropped_ids = (record_drops res docs).dropped_ids ++ ids_of docs;
  watermarks = raise wm.delete_prefix wm.timestamp_micro (record_drops res docs).watermarks;
}

abbrev pub given_by : KeyValue → Cursor → List Doc
given_by wm cur = (walk wm.delete_prefix cur.docs cur.fails_after).0

falling-All : (P : Doc → Type 0) (wm : KeyValue) (ds : List Doc) → All P ds → All P (falling wm ds)
unfolding falling
falling-All P wm [] a = tt
falling-All P wm (d ∷ ds) a =
    elim (falls wm d) as (λ b. All P (if b then d ∷ falling wm ds else falling wm ds)) [
      | true ↦ (a.0, falling-All P wm ds a.1)
      | false ↦ falling-All P wm ds a.1
    ]

All-left : (P Q : Doc → Type 0) (ds : List Doc) → All (λ d. P d × Q d) ds → All P ds
All-left P Q [] a = tt
All-left P Q (d ∷ ds) a = (a.0.0, All-left P Q ds a.1)

pub All-admitted : (kvs : List KeyValue) → All (λ kv. Unit {0}) kvs
All-admitted [] = tt
All-admitted (kv ∷ kvs) = (tt, All-admitted kvs)

some-injective : {a b : Doc} → ◌≡◌ {A = Option Doc} (some a) (some b) → a ≡ b
some-injective h = cc

-- What holds of a batch that goes on, and of what one that fails has recorded.
abbrev pub Ends :
    {C : Type 0} → (C → UpdateResult → Type 0) → (UpdateResult → Type 0) → Outcome C → Type 0
Ends Kept Broken (updated c res) = Kept c res
Ends Kept Broken (failed e res) = Broken res

module _ {C : Type 0} (db : Collection C) (laws : Documents db) where
  -- With the snapshot of what is stored under the id of a value.
  abbrev pub snapped : C → KeyValue → UpdateResult → UpdateResult
  snapped c kv = record_pre kv.key_peer_id (head_of (laws.rows c kv.key_peer_id))

  abbrev pub Held : C → List Doc → Type 0
  Held c = All λ d. laws.rows c d.id ≡ some d

  -- The search of a watermark came to its end, and the rows that fall are removed.
  pub record Sweeps (c c' : C) (wm : KeyValue) (docs : List Doc) : Type 0 where
    pub cursor : Cursor
    pub searched : db.find_from c wm.delete_prefix ≡ ok cursor
    pub ended : (walk wm.delete_prefix cursor.docs cursor.fails_after).1 ≡ true
    pub fallen : docs ≡ falling wm (given_by wm cursor)
    pub removed : delete_all db c (ids_of docs) ≡ ok c'

  module _ (ws : Watermarks) where
    -- Nothing stored under its id is as new, and no watermark covers it.
    pub record Wins (c : C) (res : UpdateResult) (kv : KeyValue) : Type 0 where
      pub uncovered : covered ws kv.key kv.timestamp_micro ≡ false
      pub uncovered_here : covered res.watermarks kv.key kv.timestamp_micro ≡ false
      pub newer :
          (d : Doc) → laws.rows c kv.key_peer_id ≡ some d → leb kv.timestamp_micro d.t ≡ false

    module _ (Kept : C → UpdateResult → Type 0) (Broken : UpdateResult → Type 0)
        (Admits : KeyValue → Type 0) where
      pub record Keeps : Type 0 where
        pub upserts :
            (c c' : C) (res : UpdateResult) (kv : KeyValue)
            → Kept c res
            → Admits kv
            → Wins c res kv
            → db.upsert_one c (any_enc kv) ≡ ok c'
            → Kept c' (with_value kv (snapped c kv res))
        pub drops :
            (c c' : C) (res : UpdateResult) (wm : KeyValue) (docs : List Doc)
            → Kept c res
            → Held c docs
            → Sweeps c c' wm docs
            → Kept c' (with_drops wm docs res)
        pub stops : (c : C) (res : UpdateResult) → Kept c res → Broken res
        pub marks :
            (c : C) (res : UpdateResult) (kv : KeyValue) → Kept c res → Broken (snapped c kv res)
        pub scans :
            (c : C) (res : UpdateResult) (docs : List Doc)
            → Kept c res
            → Held c docs
            → Broken (record_drops res docs)

      module _ (keeps : Keeps) where
        pub after_apply_watermark :
            (c : C) (res : UpdateResult) (wm : KeyValue)
            → Kept c res
            → Ends Kept Broken (apply_watermark db c res wm)
        unfolding apply_watermark drop_rows
        after_apply_watermark c res wm k = elim (Result-cases (db.find_from c wm.delete_prefix)) [
          | inl (e, q) ↦ rw (q, Ends) (keeps.stops c res k)
          | inr (cur, q) ↦
              let docs : List Doc = falling wm (given_by wm cur) in
              let held : Held c docs = falling-All _ wm _ (
                walk-All _ wm.delete_prefix cur.docs cur.fails_after
                  (All-left _ _ cur.docs (laws.search_holds c wm.delete_prefix cur q))) in
              elim (Bool-cases (walk wm.delete_prefix cur.docs cur.fails_after).1) [
                | inr w ↦ rw (q, w, Ends) (keeps.scans c res docs k held)
                | inl w ↦ elim (Result-cases (delete_all db c (ids_of docs))) [
                  | inl (e, x) ↦ rw (q, w, x, Ends) (keeps.scans c res docs k held)
                  | inr (c', x) ↦
                      rw (q, w, x, Ends)
                        (keeps.drops c c' res wm docs k held record {
                          cursor = cur;
                          searched = q;
                          ended = w;
                          fallen = refl;
                          removed = x;
                        })
                ]
              ]
        ]

        after_upsert_value :
            (c : C) (res : UpdateResult) (kv : KeyValue)
            → Kept c res
            → Admits kv
            → Wins c res kv
            → Ends Kept Broken (upsert_value db c (snapped c kv res) kv)
        unfolding upsert_value
        after_upsert_value c res kv k a w = elim (Result-cases (db.upsert_one c (any_enc kv))) [
          | inl (e, q) ↦ rw (q, Ends) (keeps.marks c res kv k)
          | inr (c', q) ↦
              let k' = keeps.upserts c c' res kv k a w q in
              elim (Bool-cases (is_empty_text kv.delete_prefix)) [
                | inl x ↦ rw (q, x, Ends) k'
                | inr x ↦ rw (q, x, Ends) (after_apply_watermark c' _ kv k')
              ]
        ]

        after_update_value :
            (c : C) (res : UpdateResult) (kv : KeyValue)
            → Kept c res
            → Admits kv
            → Ends Kept Broken (update_value db ws c res kv)
        unfolding update_value
        after_update_value c res kv k a =
            elim (Bool-cases (
              covered ws kv.key kv.timestamp_micro
              || covered res.watermarks kv.key kv.timestamp_micro)) [
                | inl w ↦ rw (w, Ends) k
                | inr w ↦
                    let wins : ((d : Doc)
                          → laws.rows c kv.key_peer_id ≡ some d
                          → leb kv.timestamp_micro d.t ≡ false)
                        → Wins c res kv =
                      λ n. record {
                        uncovered = ground arith;
                        uncovered_here = ground arith;
                        newer = n;
                      } in
                    elim (Result-cases (db.find_id c kv.key_peer_id)) [
                      | inl (e, q) ↦ rw (w, q, Ends) (keeps.stops c res k)
                      | inr (none, q) ↦
                          let h : none ≡ laws.rows c kv.key_peer_id =
                            laws.found c kv.key_peer_id none q in
                          rw (w, q, Ends)
                            (subst
                              (λ (o : Option ℕ).
                                Ends Kept Broken
                                  (upsert_value db c (record_pre kv.key_peer_id o res) kv))
                              (ap head_of (sym h))
                              (after_upsert_value c res kv k a (wins (λ d f. cc))))
                      | inr (some d, q) ↦
                          let h : some d ≡ laws.rows c kv.key_peer_id =
                            laws.found c kv.key_peer_id (some d) q in
                          let n : d.id ≡ kv.key_peer_id = laws.named c kv.key_peer_id d (sym h) in
                          elim (Bool-cases (leb kv.timestamp_micro d.t)) [
                            | inl l ↦ rw (w, q, l, Ends) k
                            | inr l ↦
                                rw (w, q, l, Ends)
                                  (subst₂
                                    (λ (id : Bytes) (o : Option ℕ).
                                      Ends Kept Broken (upsert_value db c (record_pre id o res) kv))
                                    (sym n) (ap head_of (sym h))
                                    (after_upsert_value c res kv k a (
                                      wins (λ d' f.
                                        ap (λ (x : Doc). leb kv.timestamp_micro x.t)
                                          (sym (some-injective (h ∙ f)))
                                        ∙ l))))
                          ]
                    ]
              ]

        -- The loop keeps what its steps keep.
        pub update_values_rule :
            (c : C) (res : UpdateResult) (kvs : List KeyValue)
            → Kept c res
            → All Admits kvs
            → Ends Kept Broken (update_values db ws c res kvs)
        unfolding update_values
        update_values_rule c res [] k a = k
        update_values_rule c res (kv ∷ kvs) k a =
            let first = after_update_value c res kv k a.0 in
            elim (Outcome-cases (update_value db ws c res kv)) [
              | inl (c', res', q) ↦
                  rw (q, then_on, Ends)
                    (update_values_rule c' res' kvs (subst (Ends Kept Broken) q first) a.1)
              | inr (e, res', q) ↦ rw (q, then_on, Ends) (subst (Ends Kept Broken) q first)
            ]
