-- ===== src/KeyValue/Update.antt =====
-- The rows and the records of a batch under `updateValues` and `applyWatermark`, of
-- keyvaluestorage.go. The document store is an argument. A container is what it holds, an id's head.
use any_sync.Common.{
  ℕ, zero, suc, ◌≡◌, refl, ◌⊎◌, inl, inr, Bool, true, false, ◌&&◌, ◌||◌, List, [], ◌∷◌, ◌++◌,
  Option, none, some, map, ltb, leb, if◌then◌else◌, ok, err, Result, ◌>>=◌,
}
use any_sync.Common.Bytes.{Bytes, same, has_prefix}
use any_sync.KeyValue.{KeyValue, Doc, Element, element, any_enc, is_empty_text}

-- An iteration: the documents in their order, and how many come before it fails.
pub record Cursor : Type 0 where
  pub docs : List Doc
  pub fails_after : Option ℕ

-- The collection and the sorted search from an id on.
pub record Collection (C : Type 0) : Type 0 where
  pub find_id : C → Bytes → Result ℕ (Option Doc)
  pub upsert_one : C → Doc → Result ℕ C
  pub delete_id : C → Bytes → Result ℕ C
  pub find_from : C → Bytes → Result ℕ Cursor

abbrev pub Container : Type 0
Container = Bytes → Option ℕ

abbrev pub set_head : Bytes → Option ℕ → Container → Container
set_head id head d = λ j. if same id j then head else d j

-- `diff.Set` of a list of elements.
unfoldable pub set_elements : List Element → Container → Container
set_elements [] d = d
set_elements (e ∷ es) d = set_elements es (set_head e.id (some e.head) d)

-- `diff.RemoveId` of each; the error for an id that is not there is dropped.
unfoldable pub remove_elements : List Element → Container → Container
remove_elements [] d = d
remove_elements (e ∷ es) d = remove_elements es (set_head e.id none d)

abbrev pub Watermarks : Type 0
Watermarks = List (Bytes × ℕ)

-- `if t > watermarks[prefix] { watermarks[prefix] = t }`; a prefix that is not there has 0.
unfoldable pub raise : Bytes → ℕ → Watermarks → Watermarks
raise p t [] = if ltb 0 t then (p, t) ∷ [] else []
raise p t ((q, u) ∷ ws) =
    let rest = raise p t ws in
    if same q p then (if ltb u t then (q, t) ∷ ws else (q, u) ∷ ws) else (q, u) ∷ rest

unfoldable pub raise_all : Watermarks → Watermarks → Watermarks
unfolding raise
raise_all [] ws = ws
raise_all ((p, t) ∷ ms) ws = raise_all ms (raise p t ws)

-- `match` of `covered`.
unfoldable pub covered : Watermarks → Bytes → ℕ → Bool
covered [] key t = false
covered ((p, u) ∷ ws) key t = ltb t u && has_prefix key p || covered ws key t

-- `WatermarkTs`, with the highest so far.
unfoldable pub highest : ℕ → Watermarks → Bytes → ℕ
highest max_ts [] key = max_ts
highest max_ts ((p, t) ∷ ws) key =
    highest (if ltb max_ts t && has_prefix key p then t else max_ts) ws key

unfoldable pub watermark_ts : Watermarks → Bytes → ℕ
unfolding highest
watermark_ts ws key = highest 0 ws key

-- A snapshot of an id: its element before the call, or that there was none.
abbrev pub PreState : Type 0
PreState = List (Bytes × Option ℕ)

unfoldable pub is_recorded : Bytes → PreState → Bool
is_recorded id [] = false
is_recorded id ((j, pre) ∷ ps) = same j id || is_recorded id ps

pub record UpdateResult : Type 0 where
  pub elements : List Element
  pub removed : List Element
  pub pre_state : PreState
  pub watermarks : Watermarks
  pub applied : List KeyValue
  pub dropped_ids : List Bytes

unfoldable pub record_pre : Bytes → Option ℕ → UpdateResult → UpdateResult
unfolding is_recorded
record_pre id pre res =
    if is_recorded id res.pre_state
    then res
    else record res { pre_state = res.pre_state ++ (id, pre) ∷ [] }

-- The undoing of the container: each snapshot is put back.
unfoldable pub undo : PreState → Container → Container
undo [] d = d
undo ((id, pre) ∷ ps) d = undo ps (set_head id pre d)

-- The loop of `iterateIdPrefix`: the documents up to the first without the prefix, and whether it
-- came to its end.
unfoldable pub walk : Bytes → List Doc → Option ℕ → List Doc × Bool
walk p [] fails_after = ([], true)
walk p (d ∷ ds) (some zero) = ([], false)
walk p (d ∷ ds) (some (suc n)) =
    let rest = walk p ds (some n) in if has_prefix d.id p then (d ∷ rest.0, rest.1) else ([], true)
walk p (d ∷ ds) none =
    let rest = walk p ds none in if has_prefix d.id p then (d ∷ rest.0, rest.1) else ([], true)

-- The rows that a watermark drops.
abbrev pub falls : KeyValue → Doc → Bool
falls wm d = has_prefix d.k wm.delete_prefix && ltb d.t wm.timestamp_micro

unfoldable pub falling : KeyValue → List Doc → List Doc
falling wm [] = []
falling wm (d ∷ ds) = if falls wm d then d ∷ falling wm ds else falling wm ds

unfoldable pub record_drops : UpdateResult → List Doc → UpdateResult
unfolding record_pre
record_drops res [] = res
record_drops res (d ∷ ds) =
    let seen : UpdateResult = record_pre d.id (some d.t) res in
    record_drops (record seen { removed = seen.removed ++ element d ∷ [] }) ds

-- What `updateValues` returns: on an error, what it has recorded.
pub data Outcome (C : Type 0) : Type 0 where
  updated : C → UpdateResult → Outcome C
  failed : ℕ → UpdateResult → Outcome C

pub Outcome-cases :
    {C : Type 0} (o : Outcome C)
    → ((c : C) × (res : UpdateResult) × (o ≡ updated c res))
      ⊎ ((e : ℕ) × (res : UpdateResult) × (o ≡ failed e res))
Outcome-cases (updated c res) = inl (c, res, refl)
Outcome-cases (failed e res) = inr (e, res, refl)

abbrev pub no_result : UpdateResult
no_result = record {
  elements = [];
  removed = [];
  pre_state = [];
  watermarks = [];
  applied = [];
  dropped_ids = [];
}

abbrev pub read_error : ℕ
read_error = 1

module _ {C : Type 0} where
  abbrev pub then_on : Outcome C → (C → UpdateResult → Outcome C) → Outcome C
  then_on (updated c res) next = next c res
  then_on (failed e res) next = failed e res

module _ {C : Type 0} (db : Collection C) where
  unfoldable pub delete_all : C → List Bytes → Result ℕ C
  delete_all c [] = ok c
  delete_all c (id ∷ ids) = db.delete_id c id >>= λ c'. delete_all c' ids

  -- `applyWatermark` from the end of its scan on.
  unfoldable pub drop_rows : C → UpdateResult → KeyValue → List Doc → Outcome C
  unfolding delete_all record_drops raise
  drop_rows c res wm docs =
      let scanned : UpdateResult = record_drops res docs in
      let ids : List Bytes = map (λ d. d.id) docs in
      elim (delete_all c ids) [
        | err e ↦ failed e scanned
        | ok c' ↦ updated c' (record scanned {
          dropped_ids = scanned.dropped_ids ++ ids;
          watermarks = raise wm.delete_prefix wm.timestamp_micro scanned.watermarks;
        })
      ]

  unfoldable pub apply_watermark : C → UpdateResult → KeyValue → Outcome C
  unfolding walk falling record_drops drop_rows
  apply_watermark c res wm = elim (db.find_from c wm.delete_prefix) [
    | err e ↦ failed e res
    | ok cursor ↦
        let seen : List Doc × Bool = walk wm.delete_prefix cursor.docs cursor.fails_after in
        let docs : List Doc = falling wm seen.0 in
        if seen.1 then drop_rows c res wm docs else failed read_error (record_drops res docs)
  ]

  -- A value that won: its row, its element and, for a watermark, the rows that fall.
  unfoldable pub upsert_value : C → UpdateResult → KeyValue → Outcome C
  unfolding apply_watermark
  upsert_value c res kv = elim (db.upsert_one c (any_enc kv)) [
    | err e ↦ failed e res
    | ok c' ↦
        let res' : UpdateResult = record res {
          elements = res.elements ++ element (any_enc kv) ∷ [];
          applied = res.applied ++ kv ∷ [];
        } in
        if is_empty_text kv.delete_prefix then updated c' res' else apply_watermark c' res' kv
  ]

  -- One round of the loop of `updateValues`; `ws` are the watermarks of the storage.
  unfoldable pub update_value : Watermarks → C → UpdateResult → KeyValue → Outcome C
  unfolding covered record_pre upsert_value
  update_value ws c res kv =
      if covered ws kv.key kv.timestamp_micro || covered res.watermarks kv.key kv.timestamp_micro
      then updated c res
      else elim (db.find_id c kv.key_peer_id) [
        | err e ↦ failed e res
        | ok none ↦ upsert_value c (record_pre kv.key_peer_id none res) kv
        | ok (some d) ↦
            if leb kv.timestamp_micro d.t
            then updated c res
            else upsert_value c (record_pre d.id (some d.t) res) kv
      ]

  unfoldable pub update_values : Watermarks → C → UpdateResult → List KeyValue → Outcome C
  unfolding update_value
  update_values ws c res [] = updated c res
  update_values ws c res (kv ∷ kvs) =
      then_on (update_value ws c res kv) (λ c' res'. update_values ws c' res' kvs)
