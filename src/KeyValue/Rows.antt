-- ===== src/KeyValue/Rows.antt =====
-- What is asked of the document store: the rows that a collection holds, as a function of the id,
-- and what its four operations do to them.
use any_sync.Common.{ℕ, ◌≡◌, true, List, [], ◌∷◌, Option, none, some, ok, All, ◌⊎◌, if◌then◌else◌}
use any_sync.Common.Bytes.{Bytes, same, up_to}
use any_sync.KeyValue.{Doc}
use any_sync.KeyValue.Update.{Collection, Cursor}

abbrev pub Rows : Type 0
Rows = Bytes → Option Doc

-- The head that a row has in the container.
abbrev pub head_of : Option Doc → Option ℕ
head_of none = none
head_of (some d) = some d.t

abbrev pub put_row : Doc → Rows → Rows
put_row d r = λ j. if same d.id j then some d else r j

abbrev pub drop_row : Bytes → Rows → Rows
drop_row id r = λ j. if same id j then none else r j

abbrev pub Among : Doc → List Doc → Type 0
Among d [] = ⊥
Among d (e ∷ es) = (d ≡ e) ⊎ Among d es

abbrev pub Ascending : List Doc → Type 0
Ascending [] = Unit
Ascending (d ∷ ds) = All (λ e. up_to d.id e.id ≡ true) ds × Ascending ds

-- A search by id, a write and a removal do what they say, and a sorted search from an id on has
-- every row that is not before it, in the order of the ids.
pub record Documents {C : Type 0} (db : Collection C) : Type 0 where
  pub rows : C → Rows
  pub found : (c : C) (id : Bytes) (o : Option Doc) → db.find_id c id ≡ ok o → o ≡ rows c id
  pub named : (c : C) (id : Bytes) (d : Doc) → rows c id ≡ some d → d.id ≡ id
  pub put_in : (c c' : C) (d : Doc) → db.upsert_one c d ≡ ok c' → rows c' ≡ put_row d (rows c)
  pub taken_out :
      (c c' : C) (id : Bytes) → db.delete_id c id ≡ ok c' → rows c' ≡ drop_row id (rows c)
  pub search_finds :
      (c : C) (p : Bytes) (cur : Cursor) (id : Bytes) (d : Doc)
      → db.find_from c p ≡ ok cur
      → rows c id ≡ some d
      → up_to p id ≡ true
      → Among d cur.docs
  pub search_holds :
      (c : C) (p : Bytes) (cur : Cursor)
      → db.find_from c p ≡ ok cur
      → All (λ d. (rows c d.id ≡ some d) × (up_to p d.id ≡ true)) cur.docs
  pub search_ascends :
      (c : C) (p : Bytes) (cur : Cursor) → db.find_from c p ≡ ok cur → Ascending cur.docs
