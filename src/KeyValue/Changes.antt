-- ===== src/KeyValue/Changes.antt =====
-- What writes and removals do to the rows, by the laws of the document store.
use any_sync.Common.{
  ◌≡◌, refl, sym, ap, subst, true, false, ◌||◌, List, [], ◌∷◌, none, some, arith, Bool-cases, inl,
  inr, ◌∙◌, ok, if◌then◌else◌, All, >>=-eq-ok, ok-injective,
}
use any_sync.Common.Bytes.{Bytes, same, same→≡, same_refl}
use any_sync.KeyValue.{KeyValue, Doc, any_enc}
use any_sync.KeyValue.Update.{Collection, falling, falls, delete_all}
use any_sync.KeyValue.Rows.{Documents}
use any_sync.KeyValue.Batch.{in_list, ids_of, Held}
use any_sync.KeyValue.Guarded.Falls.{some-injective}

pub falling-falls : (wm : KeyValue) (ds : List Doc) → All (λ d. falls wm d ≡ true) (falling wm ds)
unfolding falling
falling-falls wm [] = tt
falling-falls wm (d ∷ ds) = elim (Bool-cases (falls wm d)) [
  | inl f ↦ rw (f, All) (f, falling-falls wm ds)
  | inr f ↦ rw f (falling-falls wm ds)
]

module _ {C : Type 0} (db : Collection C) (laws : Documents db) where
  pub rows-delete_all :
      (c c' : C) (ids : List Bytes)
      → delete_all db c ids ≡ ok c'
      → (id : Bytes) → laws.rows c' id ≡ (if in_list id ids then none else laws.rows c id)
  unfolding delete_all in_list
  rows-delete_all c c' [] e id = ap (λ x. laws.rows x id) (sym (ok-injective e))
  rows-delete_all c c' (j ∷ js) e id =
      let first = >>=-eq-ok (db.delete_id c j) (λ x. delete_all db x js) e in
      rows-delete_all first.0 c' js first.2 id
      ∙ rw (laws.taken_out c first.0 j first.1) (ground arith)

  -- A row that a removal leaves was there and is not among the removed.
  pub left :
      (c c' : C) (ids : List Bytes) (id : Bytes) (d : Doc)
      → delete_all db c ids ≡ ok c'
      → laws.rows c' id ≡ some d
      → (laws.rows c id ≡ some d) × (in_list id ids ≡ false)
  left c c' ids id d e h =
      let q = rows-delete_all c c' ids e id in
      elim (Bool-cases (in_list id ids)) [
        | inl i ↦ let n : laws.rows c' id ≡ none = q ∙ rw i refl in cc
        | inr i ↦ (sym (q ∙ rw i refl) ∙ h, i)
      ]

  -- A removed row falls under the watermark.
  pub removed_falls :
      (c : C) (wm : KeyValue) (docs : List Doc) (id : Bytes) (d : Doc)
      → Held db laws c docs
      → All (λ e. falls wm e ≡ true) docs
      → laws.rows c id ≡ some d
      → in_list id (ids_of docs) ≡ true
      → falls wm d ≡ true
  unfolding in_list
  removed_falls c wm [] id d held f h m = ground arith
  removed_falls c wm (e ∷ es) id d held f h m = elim (Bool-cases (same e.id id)) [
    | inl s ↦
        let q : e ≡ d = some-injective (sym held.0 ∙ (ap (laws.rows c) (same→≡ e.id id s) ∙ h)) in
        ap (falls wm) (sym q) ∙ f.0
    | inr s ↦
        removed_falls c wm es id d held.1 f.1 h
          (subst (λ b. (b || in_list id (ids_of es)) ≡ true) s m)
  ]

  pub put_row_there :
      (c c' : C) (kv : KeyValue)
      → db.upsert_one c (any_enc kv) ≡ ok c'
      → laws.rows c' kv.key_peer_id ≡ some (any_enc kv)
  put_row_there c c' kv e =
      ap (λ r. r kv.key_peer_id) (laws.put_in c c' (any_enc kv) e)
      ∙ rw (same_refl kv.key_peer_id) refl

  pub put_row_elsewhere :
      (c c' : C) (kv : KeyValue) (id : Bytes)
      → db.upsert_one c (any_enc kv) ≡ ok c'
      → same kv.key_peer_id id ≡ false
      → laws.rows c' id ≡ laws.rows c id
  put_row_elsewhere c c' kv id e s = ap (λ r. r id) (laws.put_in c c' (any_enc kv) e) ∙ rw s refl
